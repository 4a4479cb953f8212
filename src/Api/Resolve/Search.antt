-- ===== src/Api/Resolve/Search.antt =====
-- The search of the cache in `resolve_model_path` of src/unlimitedocr_c/api.py: what it finds, and
-- what it has passed by where it finds nothing.
use unlimitedocr_c.Prelude.{
  ◌≡◌, ◌⊎◌, inl, inr, refl, Bool, true, false, List, [], ◌∷◌, none, some, Text, Result, Error, not,
  ◌&&◌, All, Bool-cases, if◌then◌else◌,
}
use unlimitedocr_c.Convert.Plan.{Qprofile}
use unlimitedocr_c.Api.Resolve.{System, require_existing_model, search, is_seen, is_file}

choice :
    {A : Type 0} (b : Bool) (x y : A) {r : A}
    → (if b then x else y) ≡ r
    → ((b ≡ true) × (x ≡ r)) ⊎ ((b ≡ false) × (y ≡ r))
choice true x y e = inl (refl, e)
choice false x y e = inr (refl, e)

unforced : (force b : Bool) → (not force && b) ≡ true → force ≡ false
unforced true b e = absurd (cc)
unforced false b e = refl

module _ (system : System) where
  open system use {Location, expanduser, resolve, look}

  -- What the search returns is the check of one of the candidates.
  pub search_found :
      (force : Bool) (model : Text) (qprofile : Qprofile) (seen candidates : List Location)
      {found : Result Error Location}
      → search system force model qprofile seen candidates ≡ some found
      → (force ≡ false)
        × ((path : Location) × (require_existing_model system path model (some qprofile) ≡ found))
  unfolding search
  search_found force model qprofile seen [] e = absurd (cc)
  search_found force model qprofile seen (c ∷ candidates) e =
      elim (choice (is_seen system (expanduser c) seen) _ _ e) [
        | inl (_, skipped) ↦ search_found force model qprofile seen candidates skipped
        | inr (_, rest) ↦ elim (choice (not force && is_file system (expanduser c)) _ _ rest) [
          | inl (usable, taken) ↦ (unforced force _ usable, (expanduser c, cc))
          | inr (_, later) ↦
              search_found force model qprofile (expanduser c ∷ seen) candidates later
        ]
      ]

  -- A place of the cache that is not used: a conversion is forced, or there is no file, there or at
  -- the same place listed before.
  abbrev pub Unused : Bool → Location → Type 0
  Unused force c =
      (force ≡ true)
      ⊎ ((is_file system (expanduser c) ≡ false)
          ⊎ ((p : Location) × (system.same (expanduser c) p ≡ true) × (is_file system p ≡ false)))

  abbrev Empty : Bool → Location → Type 0
  Empty force p = (force ≡ true) ⊎ (is_file system p ≡ false)

  seen_one :
      (force : Bool) (c : Location) (seen : List Location)
      → All (Empty force) seen
      → is_seen system (expanduser c) seen ≡ true
      → Unused force c
  seen_one force c [] h e = absurd (cc)
  seen_one force c (p ∷ seen) h e = elim (Bool-cases (system.same (expanduser c) p)) [
    | inl f ↦ elim h.0 [ inl forced ↦ inl forced | inr empty ↦ inr (inr (p, f, empty)) ]
    | inr f ↦ seen_one force c seen h.1 (rw f at e)
  ]

  unusable : (force b : Bool) → (not force && b) ≡ false → (force ≡ true) ⊎ (b ≡ false)
  unusable true b e = inl refl
  unusable false b e = inr e

  pub search_missed :
      (force : Bool) (model : Text) (qprofile : Qprofile) (seen candidates : List Location)
      → All (Empty force) seen
      → search system force model qprofile seen candidates ≡ none
      → All (Unused force) candidates
  unfolding search
  search_missed force model qprofile seen [] h e = tt
  search_missed force model qprofile seen (c ∷ candidates) h e =
      elim (choice (is_seen system (expanduser c) seen) _ _ e) [
        | inl (again, skipped) ↦ (
          seen_one force c seen h again,
          search_missed force model qprofile seen candidates h skipped,
        )
        | inr (_, rest) ↦ elim (choice (not force && is_file system (expanduser c)) _ _ rest) [
          | inl (_, taken) ↦ absurd (cc)
          | inr (off, later) ↦
              let empty = unusable force _ off in
              (
                elim empty [ inl forced ↦ inl forced | inr gone ↦ inr (inl gone) ],
                search_missed force model qprofile (expanduser c ∷ seen) candidates (empty, h)
                    later,
              )
        ]
      ]
