-- ===== src/Convert/Experts/Laws.antt =====
-- The slabs that src/unlimitedocr_c/convert.py accepts.
use mathlib.Core.Path.{subst}
use unlimitedocr_c.Prelude.{
  ℕ, zero, suc, ◌+◌, ◌≡◌, refl, sym, ap, ◌∙◌, Bool, true, false, ◌&&◌, ◌||◌, List, [], ◌∷◌, Option,
  none, some, ok, Result, Error, value_error, >>=-eq-ok, err_ok, ok-injective, raise_if,
  raise_if-ok, unnegated, neither, ◌≤◌, Bool-cases, Option-cases, inl, inr, arith, ==_iff, ◌==◌,
}
use unlimitedocr_c.Prelude.Int.{pos, ◌==ℤ◌}
use unlimitedocr_c.Registry.Types.{
  TensorProjection, family_id, projection_id, moe_expert, gate, up, down,
}
use unlimitedocr_c.Registry.Ids.{tensor_id_moe_expert}
use unlimitedocr_c.Convert.Types.{TensorPlan, usage_runtime}
use unlimitedocr_c.Convert.Experts.{
  Slot, gather, expert_slots_from, breaks, misplaced, is_quantized, check_slab, check_layer,
  last_with,
}

-- A tensor is one of the list.
pub data In (t : TensorPlan) : List TensorPlan → Type 0 where
  here : {ts : List TensorPlan} → In t (t ∷ ts)
  there : {u : TensorPlan} {ts : List TensorPlan} → In t ts → In t (u ∷ ts)

-- The tensor of an expert's projection: one of those planned, with the id of the registry, marked
-- for this place, in use at run time, and with a payload that has bytes and a place.
pub record IsTensorOf (ts : List TensorPlan) (layer e : ℕ) (p : TensorProjection) (t : TensorPlan)
    : Type 0 where
  pub planned : In t ts
  pub id : tensor_id_moe_expert layer e p ≡ ok t.tensor_id
  pub in_family : family_id t.family ≡ family_id moe_expert
  pub in_layer : (t.layer ==ℤ pos layer) ≡ true
  pub of_expert : (t.expert ==ℤ pos e) ≡ true
  pub of_projection : projection_id t.projection ≡ projection_id p
  pub in_use : t.usage_id ≡ usage_runtime
  pub has_bytes : 1 ≤ t.output_bytes
  pub has_place : 1 ≤ t.payload_offset

-- The experts from `e` on, `n` of them: each has its three tensors, and the payloads of gate, up and
-- down follow one another with no gap, from one expert to the next. `end` is the stop of the payload
-- before.
pub data Slab (ts : List TensorPlan) (layer : ℕ) : (e n : ℕ) → Option ℕ → Type 0 where
  no_more : (e : ℕ) (end : Option ℕ) → Slab ts layer e 0 end
  expert :
      (e n : ℕ) (end : Option ℕ) (g u d : TensorPlan)
      → IsTensorOf ts layer e gate g
      → IsTensorOf ts layer e up u
      → IsTensorOf ts layer e down d
      → ((stop : ℕ) → end ≡ some stop → g.payload_offset ≡ stop)
      → u.payload_offset ≡ g.payload_offset + g.output_bytes
      → d.payload_offset ≡ u.payload_offset + u.output_bytes
      → Slab ts layer (suc e) n (some (d.payload_offset + d.output_bytes))
      → Slab ts layer e (suc n) end

unbroken :
    (end : Option ℕ) (offset : ℕ) {u : Unit {0}}
    → raise_if (breaks end offset) value_error ≡ ok u
    → (e : ℕ) → end ≡ some e
    → offset ≡ e
unbroken none offset h e k = absurd (cc)
unbroken (some m) offset h e k = elim (Bool-cases (offset == m)) [
  | inl f ↦ ground arith
  | inr f ↦ absurd (err_ok (rw f at h))
]

-- What `by_id.get` returns is a tensor of the list with the id.
last_with-In :
    (i : ℕ) (ts : List TensorPlan) (t : TensorPlan)
    → last_with i ts ≡ some t
    → In t ts × (t.tensor_id ≡ i)
last_with-In i [] t h = absurd (cc)
last_with-In i (u ∷ ts) t h = elim (Option-cases (last_with i ts)) [
  | inr (v, e) ↦
      let later = last_with-In i ts v e in
      let found : ◌≡◌ {A = Option TensorPlan} (some v) (some t) = rw e at h in
      let same : v ≡ t = cc in
      subst (λ (t : TensorPlan). In t (u ∷ ts) × (t.tensor_id ≡ i)) same (there later.0, later.1)
  | inl e ↦ elim (Bool-cases (u.tensor_id == i)) [
    | inl f ↦
        let found : ◌≡◌ {A = Option TensorPlan} (some u) (some t) = rw (e, f) at h in
        let same : u ≡ t = cc in
        subst (λ (t : TensorPlan). In t (u ∷ ts) × (t.tensor_id ≡ i)) same (here, (==_iff _ _).0 f)
    | inr f ↦ let found : ◌≡◌ {A = Option TensorPlan} none (some t) = rw (e, f) at h in absurd (cc)
  ]
]

-- The first slot of a layer that lacks none, and the rest.
abbrev Gathered : List TensorPlan → ℕ → Slot → List Slot → List (Slot × TensorPlan) → Type 0
Gathered ts layer s slots slab =
    (t : TensorPlan) × (rest : List (Slot × TensorPlan)) × (slab ≡ (s, t) ∷ rest)
    × In t ts
    × (tensor_id_moe_expert layer s.0 s.1 ≡ ok t.tensor_id)
    × (gather layer ts slots ≡ ok (rest, false))

abbrev entered :
    Slot
    → List (Slot × TensorPlan) × Bool
    → Option TensorPlan
    → Result Error (List (Slot × TensorPlan) × Bool)
entered s later found = elim found [
  | none ↦ ok (later.0, true)
  | some t ↦ ok ((s, t) ∷ later.0, later.1)
]

entered-Gathered :
    (layer : ℕ) (ts : List TensorPlan) (s : Slot) (slots : List Slot)
    (slab : List (Slot × TensorPlan)) (i : ℕ) (later : List (Slot × TensorPlan) × Bool)
    → tensor_id_moe_expert layer s.0 s.1 ≡ ok i
    → gather layer ts slots ≡ ok later
    → (found : Option TensorPlan) → last_with i ts ≡ found
    → entered s later found ≡ ok (slab, false)
    → Gathered ts layer s slots slab
entered-Gathered layer ts s slots slab i later id rest none e h =
    let bad : ◌≡◌ {A = Bool} true false = ap (λ x. x.1) (ok-injective h) in absurd (cc)
entered-Gathered layer ts s slots slab i (later, missing) id rest (some t) e h =
    let (member, same) = last_with-In i ts t e in
    (
      t,
      later,
      sym (ap (λ x. x.0) (ok-injective h)),
      member,
      id ∙ ap (λ n. ok n) (sym same),
      rest ∙ ap (λ b. ok (later, b)) (ap (λ x. x.1) (ok-injective h)),
    )

gather-Gathered :
    (layer : ℕ) (ts : List TensorPlan) (s : Slot) (slots : List Slot)
    (slab : List (Slot × TensorPlan))
    → gather layer ts (s ∷ slots) ≡ ok (slab, false)
    → Gathered ts layer s slots slab
gather-Gathered layer ts s slots slab h =
    let (i, id, h1) = >>=-eq-ok (tensor_id_moe_expert layer s.0 s.1) _ h in
    let (later, rest, h2) = >>=-eq-ok (gather layer ts slots) _ h1 in
    entered-Gathered layer ts s slots slab i later id rest (last_with i ts) refl h2

placed-IsTensorOf :
    (ts : List TensorPlan) (layer : ℕ) (s : Slot) (t : TensorPlan)
    → In t ts
    → tensor_id_moe_expert layer s.0 s.1 ≡ ok t.tensor_id
    → misplaced layer s t ≡ false
    → IsTensorOf ts layer s.0 s.1 t
placed-IsTensorOf ts layer s t member id h =
    let (h6, place) = neither _ _ h in
    let (h5, bytes) = neither _ _ h6 in
    let (h4, usage) = neither _ _ h5 in
    let (h3, projection) = neither _ _ h4 in
    let (h2, expert_is) = neither _ _ h3 in
    let (family, layer_is) = neither _ _ h2 in
    record {
      planned = member;
      id = id;
      in_family = (==_iff _ _).0 (unnegated _ family);
      in_layer = unnegated _ layer_is;
      of_expert = unnegated _ expert_is;
      of_projection = (==_iff _ _).0 (unnegated _ projection);
      in_use = (==_iff _ _).0 (unnegated _ usage);
      has_bytes = ground arith;
      has_place = ground arith;
    }

-- What the check of a slab has seen of its first tensor, and the check of the rest.
slab-next :
    (layer : ℕ) (s : Slot) (t : TensorPlan) (rest : List (Slot × TensorPlan))
    (end scale_end : Option ℕ) {u : Unit {0}}
    → check_slab layer ((s, t) ∷ rest) end scale_end ≡ ok u
    → (misplaced layer s t ≡ false)
      × ((stop : ℕ) → end ≡ some stop → t.payload_offset ≡ stop)
      × (scale_next : Option ℕ) × (check_slab layer rest
            (some (t.payload_offset + t.output_bytes))
            scale_next
          ≡ ok u)
unfolding check_slab
slab-next layer s t rest end scale_end h =
    let (u1, placed, h1) = >>=-eq-ok (raise_if (misplaced layer s t) value_error) _ h in
    let (u2, next, h2) = >>=-eq-ok (raise_if (breaks end t.payload_offset) value_error) _ h1 in
    let (u3, scaled, h3) =
      >>=-eq-ok
        (raise_if
          (is_quantized t
            && (t.scale_size == 0 || t.scale_offset == 0 || breaks scale_end t.scale_offset))
          value_error)
        _ h2 in
    (raise_if-ok _ _ placed, unbroken end t.payload_offset next, _, h3)

check_slab-Slab :
    (ts : List TensorPlan) (layer e n : ℕ) (slab : List (Slot × TensorPlan))
    (end scale_end : Option ℕ) {u : Unit {0}}
    → gather layer ts (expert_slots_from e n) ≡ ok (slab, false)
    → check_slab layer slab end scale_end ≡ ok u
    → Slab ts layer e n end
check_slab-Slab ts layer e zero slab end scale_end g h = no_more e end
check_slab-Slab ts layer e (suc n) slab end scale_end found h =
    let (g, rest, same, g_in, g_id, found1) =
      gather-Gathered layer ts (e, gate) ((e, up) ∷ (e, down) ∷ expert_slots_from (suc e) n) slab
        found in
    let (u, rest1, same1, u_in, u_id, found2) =
      gather-Gathered layer ts (e, up) ((e, down) ∷ expert_slots_from (suc e) n) rest found1 in
    let (d, rest2, same2, d_in, d_id, found3) =
      gather-Gathered layer ts (e, down) (expert_slots_from (suc e) n) rest1 found2 in
    let (g_placed, g_next, s1, h1) =
      slab-next layer (e, gate) g rest end scale_end (rw same at h) in
    let (u_placed, u_next, s2, h2) = slab-next layer (e, up) u rest1 _ s1 (rw same1 at h1) in
    let (d_placed, d_next, s3, h3) = slab-next layer (e, down) d rest2 _ s2 (rw same2 at h2) in
    expert e n end g u d (placed-IsTensorOf ts layer (e, gate) g g_in g_id g_placed)
      (placed-IsTensorOf ts layer (e, up) u u_in u_id u_placed)
      (placed-IsTensorOf ts layer (e, down) d d_in d_id d_placed) g_next (u_next _ refl)
      (d_next _ refl) (check_slab-Slab ts layer (suc e) n rest2 _ s3 found3 h3)

-- A layer that is accepted where all have to be there has, for each of the experts from 0 on, a
-- tensor for each of gate, up and down, with the id of the registry; and the payloads follow one
-- another with no gap: gate, up, down of one expert, then those of the next.
pub check_layer-Slab :
    (ts : List TensorPlan) (experts layer : ℕ)
    → check_layer ts true experts layer ≡ ok tt
    → Slab ts layer 0 experts none
unfolding check_layer
check_layer-Slab ts experts layer h =
    let (found, e, h1) = >>=-eq-ok (gather layer ts (expert_slots_from 0 experts)) _ h in
    elim (Bool-cases found.1) [
      | inl f ↦ absurd (err_ok (rw f at h1))
      | inr f ↦
          check_slab-Slab ts layer 0 experts found.0 none none (e ∙ ap (λ b. ok (found.0, b)) f)
            (rw f at h1)
    ]
