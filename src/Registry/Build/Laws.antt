-- ===== src/Registry/Build/Laws.antt =====
-- What a successful `build_tensor_registry` of src/unlimitedocr_c/tensor_registry.py guarantees.
use mathlib.Core.List.{map-append}
use unlimitedocr_c.Prelude.{
  ℕ, ◌≤◌, ◌<◌, ◌≡◌, ◌≢◌, ◌↔◌, refl, sym, ap, ◌∙◌, none, List, [], ◌∷◌, ◌++◌, map, append-nil,
  append_assoc, Text, text_eq, text_eq→eq, ok, arith, Bool-cases, inl, inr, All, Pairwise,
  All-append, All-weaken, All-left, All-right, Pairwise-across, Pairwise-append, >>=-eq-ok, Option,
  Result, Error,
}
use unlimitedocr_c.Registry.Types.{TensorRegistryEntry}
use unlimitedocr_c.Registry.Build.{
  Registry, used_name, insert_entry, resolve, build_onto, build_tensor_registry, sorted_names,
  is_sam, is_clip,
}

abbrev pub keys : Registry → List Text
keys r = map (λ e. e.0) r

abbrev pub InRange : Text × TensorRegistryEntry → Type 0
InRange e = (1 ≤ e.1.tensor_id) × (e.1.tensor_id < 1000000)

abbrev pub OtherId : Text × TensorRegistryEntry → Text × TensorRegistryEntry → Type 0
OtherId a b = a.1.tensor_id ≢ b.1.tensor_id

ok_injective :
    {x y : Result Error TensorRegistryEntry} {a b : TensorRegistryEntry}
    → x ≡ ok a
    → y ≡ ok b
    → x ≡ y
    → a ≡ b
ok_injective p q h = cc

insert_entry_fresh :
    (n : Text) (e : TensorRegistryEntry) (r : Registry)
    → All (λ x. x.0 ≢ n) r
    → insert_entry n e r ≡ r ++ (n, e) ∷ []
insert_entry_fresh n e [] h = refl
insert_entry_fresh n e ((m, d) ∷ r) h = elim (Bool-cases (text_eq n m)) [
  | inl same ↦ absurd (h.0 (sym (text_eq→eq n m same)))
  | inr other ↦ rw other (ap (◌∷◌ (m, d)) (insert_entry_fresh n e r h.1))
]

module _ (digit_value : ℕ → Option ℕ) (sam_names clip_names : List Text) where
  abbrev Resolves : Text × TensorRegistryEntry → Type 0
  Resolves e = resolve digit_value sam_names clip_names e.0 ≡ ok e.1

  abbrev IsEntry : Text × TensorRegistryEntry → Type 0
  IsEntry e = Resolves e × InRange e

  -- `used` has a name for an id exactly where `r` has an entry with that id.
  abbrev Covers : List (ℕ × Text) → Registry → Type 0
  Covers used r =
      All (λ e. used_name e.1.tensor_id used ≢ none) r
      × ((i : ℕ) → All (λ e. e.1.tensor_id ≢ i) r → used_name i used ≡ none)

  -- An unused id belongs to no entry so far.
  unused_ne :
      (i : ℕ) (used : List (ℕ × Text)) (r : Registry)
      → All (λ e. used_name e.1.tensor_id used ≢ none) r
      → used_name i used ≡ none
      → All (λ e. e.1.tensor_id ≢ i) r
  unused_ne i used [] h free = tt
  unused_ne i used (e ∷ r) h free = (λ same. h.0 (rw same free), unused_ne i used r h.1 free)

  -- Nor does the name, since a name determines its id.
  unused_name_ne :
      (n : Text) (e : TensorRegistryEntry) (used : List (ℕ × Text)) (r : Registry)
      → resolve digit_value sam_names clip_names n ≡ ok e
      → All IsEntry r
      → All (λ x. x.1.tensor_id ≢ e.tensor_id) r
      → All (λ x. x.0 ≢ n) r
  unused_name_ne n e used [] h v other = tt
  unused_name_ne n e used ((m, d) ∷ r) h v other =
      (λ same. other.0 (differs same), unused_name_ne n e used r h v.1 other.1)
    where
      differs : m ≡ n → d.tensor_id ≡ e.tensor_id
      differs same =
          ap (λ (x : TensorRegistryEntry). x.tensor_id)
            (ok_injective v.0.0 h (ap (resolve digit_value sam_names clip_names) same))

  Covers-step :
      (n : Text) (e : TensorRegistryEntry) (used : List (ℕ × Text)) (r : Registry)
      → Covers used r
      → Covers ((e.tensor_id, n) ∷ used) (r ++ (n, e) ∷ [])
  Covers-step n e used r (known, free) = (
    All-append _ r _ (All-weaken _ _ r still known) (ground arith, tt),
    λ i h. ground (arith, free i (All-left _ r _ h), (All-right _ r ((n, e) ∷ []) h).0),
  )
    where
      still :
          (x : Text × TensorRegistryEntry)
          → used_name x.1.tensor_id used ≢ none
          → used_name x.1.tensor_id ((e.tensor_id, n) ∷ used) ≢ none
      still x h = ground arith

  -- What the registry holds: one entry for each name, in order, with ids that are in range and
  -- distinct.
  abbrev pub Registers : List Text → Registry → Type 0
  Registers names r = (keys r ≡ names) × All IsEntry r × Pairwise OtherId r

  -- One round of the loop that does not raise.
  build_onto-step :
      (n : Text) (names : List Text) (used : List (ℕ × Text)) (done : Registry) {r : Registry}
      → build_onto digit_value sam_names clip_names (n ∷ names) used done ≡ ok r
      → (e : TensorRegistryEntry) × Resolves (n, e)
        × InRange (n, e)
        × (used_name e.tensor_id used ≡ none)
        × (build_onto digit_value sam_names clip_names names
              ((e.tensor_id, n) ∷ used)
              (insert_entry n e done)
            ≡ ok r)
  unfolding build_onto
  build_onto-step n names used done h =
      let (e, found, later) = >>=-eq-ok (resolve digit_value sam_names clip_names n) _ h in
      (e, found, ground arith, ground arith, ground arith)

  build_onto-Registers :
      (names : List Text) (used : List (ℕ × Text)) (done : Registry) {r : Registry}
      → Covers used done
      → All IsEntry done
      → Pairwise OtherId done
      → build_onto digit_value sam_names clip_names names used done ≡ ok r
      → Registers (keys done ++ names) r
  unfolding build_onto
  build_onto-Registers [] used done {r} c v d h =
      let same : done ≡ r = ground arith in rw append-nil (rw (← same) (refl, v, d))
  build_onto-Registers (n ∷ names) used done c v d h =
      let (e, found, within, free, later) = build_onto-step n names used done h in
      let other = unused_ne e.tensor_id used done c.0 free in
      let fresh = insert_entry_fresh n e done (unused_name_ne n e used done found v other) in
      let rest =
        build_onto-Registers names ((e.tensor_id, n) ∷ used) (done ++ (n, e) ∷ [])
          (Covers-step n e used done c) (All-append IsEntry done _ v ((found, within), tt))
          (Pairwise-append OtherId done _ d (tt, tt) (All-weaken _ _ done (λ x k. (k, tt)) other))
          (rw fresh at later) in
      rw (map-append, append_assoc) at rest

  build_onto-enter :
      (n : Text) (names : List Text) (used : List (ℕ × Text)) (done : Registry)
      (e : TensorRegistryEntry)
      → Resolves (n, e)
      → InRange (n, e)
      → used_name e.tensor_id used ≡ none
      → build_onto digit_value sam_names clip_names (n ∷ names) used done
        ≡ build_onto digit_value sam_names clip_names names
            ((e.tensor_id, n) ∷ used)
            (insert_entry n e done)
  unfolding build_onto
  build_onto-enter n names used done e found within free = ground arith

  -- The loop succeeds where every name that is left has an entry with an id of its own.
  Registers-build_onto :
      (names : List Text) (used : List (ℕ × Text)) (done r : Registry)
      → Covers used done
      → All IsEntry done
      → keys r ≡ names
      → All IsEntry r
      → Pairwise OtherId (done ++ r)
      → build_onto digit_value sam_names clip_names names used done ≡ ok (done ++ r)
  unfolding build_onto
  Registers-build_onto [] used done [] c w k v d = rw append-nil
  Registers-build_onto [] used done (x ∷ r) c w k v d = cc
  Registers-build_onto (n ∷ names) used done [] c w k v d = cc
  Registers-build_onto (n ∷ names) used done ((m, e) ∷ r) c w k v d =
      let same : m ≡ n = cc in
      let found : resolve digit_value sam_names clip_names n ≡ ok e = rw (← same) v.0.0 in
      let across = Pairwise-across OtherId done ((m, e) ∷ r) d in
      let other = All-weaken _ (λ x. x.1.tensor_id ≢ e.tensor_id) done (λ x h. h.0) across in
      let fresh = insert_entry_fresh n e done (unused_name_ne n e used done found w other) in
      let rest =
        Registers-build_onto names ((e.tensor_id, n) ∷ used) (done ++ (n, e) ∷ []) r
          (Covers-step n e used done c) (All-append IsEntry done _ w ((found, v.0.1), tt)) (cc) v.1
          (rw append_assoc (rw (← same) d)) in
      build_onto-enter n names used done e found v.0.1 (c.1 e.tensor_id other)
      ∙ rw (fresh, same) (rw append_assoc at rest)

module _ (digit_value : ℕ → Option ℕ) (sam_names clip_names : List Text) where
  distinct_from :
      (n : Text) (e : TensorRegistryEntry) (r : Registry)
      → IsEntry digit_value sam_names clip_names (n, e)
      → All (IsEntry digit_value sam_names clip_names) r
      → All (OtherId (n, e)) r
      → All (λ m. n ≢ m) (keys r)
  distinct_from n e [] h v d = tt
  distinct_from n e ((m, f) ∷ r) h v d = (
    λ same. d.0 (
        ap (λ (x : TensorRegistryEntry). x.tensor_id)
          (ok_injective h.0 v.0.0 (ap (resolve digit_value sam_names clip_names) same))),
    distinct_from n e r h v.1 d.1,
  )

  distinct_names :
      (r : Registry)
      → All (IsEntry digit_value sam_names clip_names) r
      → Pairwise OtherId r
      → Pairwise (λ a b. a ≢ b) (keys r)
  distinct_names [] v d = tt
  distinct_names ((n, e) ∷ r) v d = (distinct_from n e r v.0 v.1 d.0, distinct_names r v.1 d.1)

-- The registry is built exactly where every name, in order, resolves to an entry whose id lies in
-- [1, 1000000) and differs from all the others; it then holds just these entries.
pub build_tensor_registry_iff :
    (digit_value : ℕ → Option ℕ) (names : List Text) (r : Registry)
    → (build_tensor_registry digit_value names ≡ ok r)
      ↔ Registers digit_value (sorted_names is_sam names) (sorted_names is_clip names) names r
unfolding build_tensor_registry
build_tensor_registry_iff digit_value names r = (
  build_onto-Registers digit_value _ _ names [] [] (tt, λ i h. refl) tt tt,
  λ (k, v, d). Registers-build_onto digit_value _ _ names [] [] r (tt, λ i h. refl) tt k v d,
)

-- No name is registered twice.
pub build_tensor_registry-distinct :
    (digit_value : ℕ → Option ℕ) (names : List Text) (r : Registry)
    → build_tensor_registry digit_value names ≡ ok r
    → Pairwise (λ a b. a ≢ b) names
build_tensor_registry-distinct digit_value names r h =
    let (k, v, d) = (build_tensor_registry_iff digit_value names r).0 h in
    rw (← k) (distinct_names digit_value _ _ r v d)
