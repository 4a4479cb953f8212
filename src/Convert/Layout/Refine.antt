-- ===== src/Convert/Layout/Refine.antt =====
-- The loops of `_layout_dry_run_file` compute the plain layout, whatever the dictionary held
-- before, as long as no two tensors share an id.
use mathlib.Core.List.{map-append}
use mathlib.Core.Path.{subst}
use unlimitedocr_c.Prelude.{
  ℕ, zero, suc, ◌+◌, ◌≤◌, ◌≡◌, ◌≢◌, refl, sym, ap, ◌∙◌, true, false, List, [], ◌∷◌, ◌++◌, map, some,
  ◌==◌, ok, arith, All, Pairwise, length, All-append, All-left, All-right, Bool-cases, Option-cases,
  inl, inr, Pairwise-left, Pairwise-right, Pairwise-across,
}
use unlimitedocr_c.Convert.Sizes.{align_up}
use unlimitedocr_c.Convert.Types.{TensorPlan}
use unlimitedocr_c.Convert.Layout.{
  ById, put, Place, with_scale, without_payload, takes_no_room, split_group, place_payloads,
  place_scales, place_tensors, collect,
}
use unlimitedocr_c.Convert.Layout.Groups.{split_group-append, length-split_group}
use unlimitedocr_c.Convert.Layout.Spec.{
  payloads, payloads_end, scales, scales_end, group_laid, group_end, laid, laid_end,
}

abbrev pub ids : List TensorPlan → List ℕ
ids ts = map (λ t. t.tensor_id) ts

-- `i` is no tensor's id.
abbrev pub Absent : ℕ → List ℕ → Type 0
Absent i js = All (λ j. i ≢ j) js

abbrev pub Distinct : List ℕ → Type 0
Distinct = Pairwise ◌≢◌

-- The dictionary holds each of these tensors under its id.
abbrev pub Stores : ById → List TensorPlan → Type 0
Stores d us = All (λ u. d u.tensor_id ≡ some u) us

-- The dictionaries agree off these ids.
abbrev pub Frame : List ℕ → ById → ById → Type 0
Frame js d d' = (i : ℕ) → Absent i js → d' i ≡ d i

Stores-keep :
    (js : List ℕ) (d d' : ById) (us : List TensorPlan)
    → Frame js d d'
    → All (λ i. Absent i js) (ids us)
    → Stores d us
    → Stores d' us
Stores-keep js d d' [] f a h = tt
Stores-keep js d d' (u ∷ us) f a h = (f u.tensor_id a.0 ∙ h.0, Stores-keep js d d' us f a.1 h.1)

pub collect-Stores :
    (d : ById) (ts us : List TensorPlan) → ids ts ≡ ids us → Stores d us → collect d ts ≡ ok us
unfolding collect
collect-Stores d [] [] e h = refl
collect-Stores d [] (u ∷ us) e h = cc
collect-Stores d (t ∷ ts) [] e h = cc
collect-Stores d (t ∷ ts) (u ∷ us) e h =
    let same : t.tensor_id ≡ u.tensor_id = cc in rw (same, h.0, collect-Stores d ts us (cc) h.1)

pub ids-payloads : (ts : List TensorPlan) (c : ℕ) → ids (payloads c ts) ≡ ids ts
unfolding payloads
ids-payloads [] c = refl
ids-payloads (t ∷ ts) c = ap (◌∷◌ t.tensor_id) (ids-payloads ts _)

pub ids-scales : (ts : List TensorPlan) (c : ℕ) → ids (scales c ts) ≡ ids ts
unfolding scales
ids-scales [] c = refl
ids-scales (t ∷ ts) c = ap (◌∷◌ t.tensor_id) (ids-scales ts _)

place_payloads-cursor :
    (ts : List TensorPlan) (s : Place) → (place_payloads ts s).cursor ≡ payloads_end s.cursor ts
unfolding place_payloads payloads_end
place_payloads-cursor [] s = refl
place_payloads-cursor (t ∷ ts) s = place_payloads-cursor ts _

place_payloads-Frame :
    (ts : List TensorPlan) (s : Place) → Frame (ids ts) s.by_id (place_payloads ts s).by_id
unfolding place_payloads
place_payloads-Frame [] s i a = refl
place_payloads-Frame (t ∷ ts) s i a = place_payloads-Frame ts _ i a.1 ∙ ground (arith, a.0)

place_payloads-Stores :
    (ts : List TensorPlan) (s : Place)
    → Distinct (ids ts)
    → Stores (place_payloads ts s).by_id (payloads s.cursor ts)
unfolding place_payloads payloads
place_payloads-Stores [] s h = tt
place_payloads-Stores (t ∷ ts) s h =
    (place_payloads-Frame ts _ t.tensor_id h.0 ∙ ground arith, place_payloads-Stores ts _ h.1)

Stores-put :
    (i : ℕ) (v : TensorPlan) (d : ById) (us : List TensorPlan)
    → Absent i (ids us)
    → Stores d us
    → Stores (put i v d) us
Stores-put i v d [] a h = tt
Stores-put i v d (u ∷ us) a h = (ground (arith, a.0, h.0), Stores-put i v d us a.1 h.1)

-- One round of the second loop on a tensor without scales, and on one with scales.
place_scales_none :
    (u : TensorPlan) (us : List TensorPlan) (s : Place)
    → (u.scale_size == 0) ≡ true
    → place_scales (u ∷ us) s ≡ place_scales us s
unfolding place_scales
place_scales_none u us s e = rw (e, place_scales)

abbrev scaled_once : TensorPlan → TensorPlan → Place → Place
scaled_once u current s = record {
  cursor = align_up s.cursor 16 + u.scale_size;
  by_id = put u.tensor_id (with_scale (align_up s.cursor 16) current) s.by_id;
}

place_scales-some :
    (u : TensorPlan) (us : List TensorPlan) (s : Place) (current : TensorPlan)
    → (u.scale_size == 0) ≡ false
    → s.by_id u.tensor_id ≡ some current
    → place_scales (u ∷ us) s ≡ place_scales us (scaled_once u current s)
unfolding place_scales
place_scales-some u us s current e h = rw (e, place_scales) (rw h refl)

-- The second loop reads ids and scale sizes only, which the first leaves alone.
place_scales-payloads :
    (ts : List TensorPlan) (c : ℕ) (s : Place) → place_scales ts s ≡ place_scales (payloads c ts) s
unfolding place_scales payloads
place_scales-payloads [] c s = refl
place_scales-payloads (t ∷ ts) c s = elim (Bool-cases (t.scale_size == 0)) [
  | inl e ↦ rw (e, place_scales) (place_scales-payloads ts _ s)
  | inr e ↦ elim (Option-cases (s.by_id t.tensor_id)) [
    | inl missing ↦ rw (e, missing, place_scales)
    | inr (current, found) ↦ rw (e, found, place_scales) (place_scales-payloads ts _ _)
  ]
]

record Scaled (us : List TensorPlan) (s : Place) (s' : Place) : Type 0 where
  runs : place_scales us s ≡ ok s'
  cursor_is : s'.cursor ≡ scales_end s.cursor us
  frame : Frame (ids us) s.by_id s'.by_id
  stores : Stores s'.by_id (scales s.cursor us)

place_scales-Scaled :
    (us : List TensorPlan) (s : Place)
    → Distinct (ids us)
    → Stores s.by_id us
    → (s' : Place) × Scaled us s s'
unfolding scales scales_end
place_scales-Scaled [] s h k = (
  s,
  record { runs = unfold place_scales in refl; cursor_is = refl; frame = λ i a. refl; stores = tt },
)
place_scales-Scaled (u ∷ us) s h k = elim (Bool-cases (u.scale_size == 0)) [
  | inl e ↦
      let (s', r) = place_scales-Scaled us s h.1 k.1 in
      (
        s',
        record {
          runs = place_scales_none u us s e ∙ r.runs;
          cursor_is = rw e r.cursor_is;
          frame = λ i a. r.frame i a.1;
          stores = rw e (r.frame u.tensor_id h.0 ∙ k.0, r.stores);
        },
      )
  | inr e ↦
      let t = scaled_once u u s in
      let (s', r) = place_scales-Scaled us t h.1 (Stores-put u.tensor_id _ s.by_id us h.0 k.1) in
      (
        s',
        record {
          runs = place_scales-some u us s u e k.0 ∙ r.runs;
          cursor_is = rw e r.cursor_is;
          frame = λ i a. r.frame i a.1 ∙ ground (arith, a.0);
          stores = rw e (r.frame u.tensor_id h.0 ∙ ground arith, r.stores);
        },
      )
]

-- What a run over `ts` from `s` to `s'` has done: the tensors `us` stand in the dictionary.
pub record Laid (ts us : List TensorPlan) (end : ℕ) (s s' : Place) : Type 0 where
  pub cursor_is : s'.cursor ≡ end
  pub frame : Frame (ids ts) s.by_id s'.by_id
  pub stores : Stores s'.by_id us
  pub same_ids : ids us ≡ ids ts

place_group-Laid :
    (g : List TensorPlan) (s : Place)
    → Distinct (ids g)
    → (s' : Place) × (place_scales g (place_payloads g s) ≡ ok s')
      × Laid g (group_laid s.cursor g) (group_end s.cursor g) s s'
place_group-Laid g s h =
    let p = place_payloads g s in
    let us = payloads s.cursor g in
    let (s', r) =
      place_scales-Scaled us p (rw (ids-payloads g s.cursor) h) (place_payloads-Stores g s h) in
    let at_end = place_payloads-cursor g s in
    (
      s',
      place_scales-payloads g s.cursor p ∙ r.runs,
      record {
        cursor_is = r.cursor_is ∙ ap (λ c. scales_end c us) at_end;
        frame = λ i a. r.frame i (rw (ids-payloads g s.cursor) a) ∙ place_payloads-Frame g s i a;
        stores = subst (λ c. Stores s'.by_id (scales c us)) at_end r.stores;
        same_ids = ids-scales us _ ∙ ids-payloads g s.cursor;
      },
    )

-- A run over `g`, then one over `ts`.
Laid-append :
    (g us ts vs : List TensorPlan) {m n : ℕ} (s t s' : Place)
    → Distinct (ids (g ++ ts))
    → Laid g us m s t
    → Laid ts vs n t s'
    → Laid (g ++ ts) (us ++ vs) n s s'
Laid-append g us ts vs s t s' h a b =
    let split : ids (g ++ ts) ≡ ids g ++ ids ts =
      map-append (λ (t : TensorPlan). t.tensor_id) g ts in
    let apart = Pairwise-across ◌≢◌ (ids g) (ids ts) (rw split at h) in
    record {
      cursor_is = b.cursor_is;
      frame = λ i k.
          let k' : Absent i (ids g ++ ids ts) = rw split at k in
          b.frame i (All-right _ (ids g) _ k') ∙ a.frame i (All-left _ (ids g) _ k');
      stores =
          All-append _ us vs
            (Stores-keep (ids ts) t.by_id s'.by_id us b.frame (rw a.same_ids apart) a.stores)
            b.stores;
      same_ids =
          map-append (λ (t : TensorPlan). t.tensor_id) us vs
          ∙ rw (a.same_ids, b.same_ids) (sym split);
    }

Laid-same :
    {ts ts' us : List TensorPlan} {n : ℕ} {s s' : Place}
    → ts ≡ ts'
    → Laid ts us n s s'
    → Laid ts' us n s s'
Laid-same {us} {n} {s} {s'} e l = subst (λ x. Laid x us n s s') e l

-- A tensor that takes no room.
once :
    (t : TensorPlan) (s : Place)
    → Laid
        (t ∷ [])
        (without_payload t ∷ [])
        s.cursor
        s
        (record { cursor = s.cursor; by_id = put t.tensor_id (without_payload t) s.by_id })
once t s = record {
  cursor_is = refl;
  frame = λ i a. ground (arith, a.0);
  stores = (ground arith, tt);
  same_ids = refl;
}

-- The loop over all tensors, with enough fuel, computes the plain layout.
pub place_tensors-Laid :
    (fuel : ℕ) (ts : List TensorPlan) (s : Place)
    → length ts ≤ fuel
    → Distinct (ids ts)
    → (s' : Place) × (place_tensors fuel ts s ≡ ok s')
      × Laid ts (laid fuel ts s.cursor) (laid_end fuel ts s.cursor) s s'
unfolding place_tensors laid laid_end
place_tensors-Laid zero [] s m h =
    (s, refl, record { cursor_is = refl; frame = λ i a. refl; stores = tt; same_ids = refl })
place_tensors-Laid (suc fuel) [] s m h =
    (s, refl, record { cursor_is = refl; frame = λ i a. refl; stores = tt; same_ids = refl })
place_tensors-Laid zero (t ∷ ts) s m h = absurd (omega arith)
place_tensors-Laid (suc fuel) (t ∷ ts) s m h = elim (Bool-cases (takes_no_room t)) [
  | inl e ↦
      let s1 : Place = record {
        cursor = s.cursor;
        by_id = put t.tensor_id (without_payload t) s.by_id;
      } in
      let (s', r, l) = place_tensors-Laid fuel ts s1 (omega arith) h.1 in
      (
        s',
        rw (e, place_tensors) r,
        rw (e, laid, laid_end)
            (Laid-append (t ∷ []) (without_payload t ∷ []) ts _ s s1 s' h (once t s) l),
      )
  | inr e ↦
      let g = (split_group t ts).0 in
      let rest = (split_group t ts).1 in
      let whole : g ++ rest ≡ t ∷ ts = split_group-append t ts in
      let h' : Distinct (ids (g ++ rest)) = rw whole h in
      let split : ids (g ++ rest) ≡ ids g ++ ids rest =
        map-append (λ (t : TensorPlan). t.tensor_id) g rest in
      let h'' : Distinct (ids g ++ ids rest) = rw split at h' in
      let (s1, r1, l1) = place_group-Laid g s (Pairwise-left ◌≢◌ (ids g) (ids rest) h'') in
      let (s', r, l) =
        place_tensors-Laid fuel rest s1 (omega (arith, length-split_group t ts))
          (Pairwise-right ◌≢◌ (ids g) (ids rest) h'') in
      (
        s',
        rw (e, place_tensors) (rw r1 r),
        rw (e, laid, laid_end, ← l1.cursor_is)
            (Laid-same whole (
              Laid-append g (group_laid s.cursor g) rest (laid fuel rest s1.cursor) s s1 s' h' l1
                l)),
      )
]
