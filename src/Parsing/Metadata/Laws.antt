-- ===== src/Parsing/Metadata/Laws.antt =====
-- `_metadata` of src/unlimitedocr_c/parsing.py returns or raises at an offset of the header.
use mathlib.Core.Path.{subst}
use unlimitedocr_c.Prelude.{
  ℕ, zero, suc, ◌+◌, ◌≤◌, ◌<◌, ◌≡◌, ◌||◌, ◌&&◌, if◌then◌else◌, Bool, true, false, [], ◌∷◌, Option,
  none, some, Text, ◌==◌, Result, ok, arith, length, drop, length-drop, Bool-cases, Option-cases,
  inl, inr, ok-injective, err_ok,
}
use unlimitedocr_c.Parsing.Types.{
  Python, IsPython, Json, list, not_list, number, BBox, ParseError, requires_bbox,
}
use unlimitedocr_c.Parsing.Scan.{skip_space, match_kind, match_level}
use unlimitedocr_c.Parsing.Scan.Lengths.{length-skip_space, length-match_kind, length-match_level}
use unlimitedocr_c.Parsing.Errors.{ErrorIn, returned, raised, ErrorIn-bind, ErrorIn-guard}
use unlimitedocr_c.Parsing.Metadata.{
  box_of, coords_box, Next, metadata_box, set_level, metadata_level, metadata_item, metadata_loop,
  header_kind, metadata, is_none,
}

if_lem {ℓ} :
    {A : Type ℓ} {n : ℕ} {x y : Result ParseError A} (b : Bool)
    → ErrorIn n x
    → ErrorIn n y
    → ErrorIn n (if b then x else y)
if_lem true h k = h
if_lem false h k = k

module _ (py : Python) where
  open py use {Num, Coord, is_space, int_of, raw_decode, within, gt}

  coords : (n scale at : ℕ) (a b c d : Num) → at ≤ n → ErrorIn n (coords_box py scale at a b c d)
  coords n scale at a b c d h = if_lem (gt a c || gt b d) (raised _ _ h) (returned _)

  box_of-ErrorIn : (n scale at : ℕ) (v : Json Num) → at ≤ n → ErrorIn n (box_of py scale at v)
  unfolding box_of
  box_of-ErrorIn n scale at not_list h = raised _ _ h
  box_of-ErrorIn n scale at (list (number a ∷ number b ∷ number c ∷ number d ∷ [])) h =
      if_lem _ (coords n scale at a b c d h) (raised _ _ h)
  box_of-ErrorIn n scale at (list (a ∷ b ∷ c ∷ d ∷ [])) h = raised _ _ h
  box_of-ErrorIn n scale at (list _) h = raised _ _ h

module _ (py : Python) (lawful : IsPython py) where
  open py use {Num, Coord, is_space, int_of, raw_decode}

  -- The continuation is safe on any shorter text that ends within the bound.
  abbrev Safe : ℕ → ℕ → Next py → Type 0
  Safe n len next =
      (at : ℕ) (s : Text) (bbox : Option (BBox Coord)) (level : Option ℕ)
      → length s < len
      → at + length s ≤ n
      → ErrorIn n (next at s bbox level)

  metadata_box-ErrorIn :
      (n : ℕ) (next : Next py) (scale at : ℕ) (s : Text) (bbox : Option (BBox Coord))
      (level : Option ℕ)
      → Safe n (length s) next
      → at + length s ≤ n
      → ErrorIn n (metadata_box py next scale at s bbox level)
  unfolding metadata_box
  metadata_box-ErrorIn n next scale at s (some _) level safe h = raised _ _ (omega arith)
  metadata_box-ErrorIn n next scale at s none level safe h = elim (Option-cases (raw_decode s)) [
    | inl e ↦ rw (e, metadata_box) (raised _ _ (omega arith))
    | inr ((v, k), e) ↦
        rw (e, metadata_box)
          (ErrorIn-bind n (box_of py scale at v) _ (box_of-ErrorIn py n scale at v (omega arith))
            (λ box _.
              safe (at + k) (drop k s) (some box) level
                (omega (arith, length-drop k s, lawful.advances s v k e, lawful.bounded s v k e))
                (omega (arith, length-drop k s, lawful.bounded s v k e))))
  ]

  set_level-ErrorIn :
      (n : ℕ) (next : Next py) (at len : ℕ) (digits later : Text) (bbox : Option (BBox Coord))
      (level : Option ℕ)
      → Safe n len next
      → at ≤ n
      → length later < len
      → at + 7 + length digits + length later ≤ n
      → ErrorIn n (set_level py next at digits later bbox level)
  set_level-ErrorIn n next at len digits later bbox (some _) safe h l m = raised _ _ h
  set_level-ErrorIn n next at len digits later bbox none safe h l m =
      elim (Option-cases (int_of digits)) [
        | inl e ↦ rw (e, set_level) (raised _ _ h)
        | inr (zero, e) ↦ rw (e, set_level) (raised _ _ h)
        | inr (suc i, e) ↦
            rw (e, set_level) (safe (at + 7 + length digits) later bbox (some (suc i)) l m)
      ]

  metadata_level-ErrorIn :
      (n : ℕ) (next : Next py) (at : ℕ) (s : Text) (bbox : Option (BBox Coord)) (level : Option ℕ)
      → Safe n (length s) next
      → at + length s ≤ n
      → ErrorIn n (metadata_level py next at s bbox level)
  unfolding metadata_level
  metadata_level-ErrorIn n next at s bbox level safe h = elim (Option-cases (match_level s)) [
    | inl e ↦ rw (e, metadata_level) (raised _ _ (omega arith))
    | inr ((digits, later), e) ↦
        let total = length-match_level s digits later e in
        rw (e, metadata_level)
          (set_level-ErrorIn n next at (length s) digits later bbox level safe (omega arith)
            (omega arith) (omega arith))
  ]

  metadata_item-ErrorIn :
      (n : ℕ) (next : Next py) (scale at : ℕ) (s : Text) (bbox : Option (BBox Coord))
      (level : Option ℕ)
      → Safe n (length s) next
      → at + length s ≤ n
      → ErrorIn n (metadata_item py next scale at s bbox level)
  metadata_item-ErrorIn n next scale at [] bbox level safe h = returned _
  metadata_item-ErrorIn n next scale at (c ∷ t) bbox level safe h = elim (Bool-cases (c == b'[')) [
    | inl e ↦ rw (e, metadata_item) (metadata_box-ErrorIn n next scale at (c ∷ t) bbox level safe h)
    | inr e ↦ rw (e, metadata_item) (metadata_level-ErrorIn n next at (c ∷ t) bbox level safe h)
  ]

  metadata_loop-ErrorIn :
      (n fuel scale at : ℕ) (rest : Text) (bbox : Option (BBox Coord)) (level : Option ℕ)
      → length rest < fuel
      → at + length rest ≤ n
      → ErrorIn n (metadata_loop py fuel scale at rest bbox level)
  unfolding metadata_loop
  metadata_loop-ErrorIn n zero scale at rest bbox level f h = absurd (omega arith)
  metadata_loop-ErrorIn n (suc fuel) scale at rest bbox level f h =
      let gone = length-skip_space is_space rest in
      metadata_item-ErrorIn n (metadata_loop py fuel scale) scale _ (skip_space is_space rest).1
        bbox level
        (λ at' s b l shorter k. metadata_loop-ErrorIn n fuel scale at' s b l (omega arith) k)
        (omega arith)

  -- The label is read within the header, and the loop starts at the text that is left.
  header_kind-ErrorIn :
      (n : ℕ) (text : Text) (offset : ℕ) (kind : Option Text)
      → offset + length text ≤ n
      → ErrorIn n (header_kind py offset text kind)
  header_kind-ErrorIn n text offset (some kind) h = returned _
  header_kind-ErrorIn n text offset none h =
      elim (Option-cases (match_kind (skip_space is_space text).1)) [
        | inl e ↦ rw (e, header_kind) (raised _ _ (omega (arith, length-skip_space is_space text)))
        | inr (x, e) ↦ rw (e, header_kind) (returned _)
      ]

  header_kind-length :
      (text : Text) (offset : ℕ) (kind : Option Text) (found : Text × ℕ × Text)
      → header_kind py offset text kind ≡ ok found
      → found.1 + length found.2 ≡ offset + length text
  header_kind-length text offset (some kind) found h =
      subst (λ r. r.1 + length r.2 ≡ offset + length text) (ok-injective h)
        (omega (arith, length-skip_space is_space text))
  header_kind-length text offset none found h =
      elim (Option-cases (match_kind (skip_space is_space text).1)) [
        | inl e ↦ absurd (err_ok (rw (e, header_kind) at h))
        | inr (x, e) ↦
            subst (λ r. r.1 + length r.2 ≡ offset + length text)
              (ok-injective (rw (e, header_kind) at h))
              (omega (
                arith,
                length-skip_space is_space text,
                length-match_kind (skip_space is_space text).1 x.0 x.1 e,
              ))
      ]

  -- `_metadata` of a header of which the end lies within the bound.
  pub metadata-ErrorIn :
      (n : ℕ) (text : Text) (offset scale : ℕ) (require_bbox : Bool) (kind : Option Text)
      → offset + length text ≤ n
      → ErrorIn n (metadata py text offset scale require_bbox kind)
  unfolding metadata
  metadata-ErrorIn n text offset scale require_bbox kind h =
      ErrorIn-bind n _ _ (header_kind-ErrorIn n text offset kind h) (λ found e.
        ErrorIn-bind n _ _
          (metadata_loop-ErrorIn n (suc (length found.2)) scale found.1 found.2 none none
            (omega arith) (omega (arith, header_kind-length text offset kind found e)))
          (λ r _.
            ErrorIn-guard n (require_bbox && is_none py r.0) requires_bbox offset
              (ok (found.0, r.0, r.1)) (omega arith) (returned _)))
