-- ===== src/Parsing/Metadata.antt =====
-- `_metadata` of src/unlimitedocr_c/parsing.py: the label, box and heading level of a header.
pub mod Laws
use unlimitedocr_c.Prelude.{
  ℕ, zero, suc, ◌+◌, Bool, true, false, not, ◌&&◌, ◌||◌, List, [], ◌∷◌, Option, none, some, Text,
  codes, ◌==◌, if◌then◌else◌, Result, ok, err, ◌>>=◌, ◌>>◌, raise_if, length, drop,
}
use unlimitedocr_c.Parsing.Types
use unlimitedocr_c.Parsing.Types.{
  Python, Json, Element, list, not_list, boolean, number, other, BBox, Reason, ParseError,
  parse_error, no_fuel, expected_label, duplicate_bbox, invalid_bbox, expected_four, not_in_range,
  unexpected_metadata, duplicate_level, invalid_level, level_not_positive, requires_bbox,
}
use unlimitedocr_c.Parsing.Scan.{skip_space, match_kind, match_level}

-- `raise OCRParseError(message, offset)`
abbrev pub fail {ℓ} : {A : Type ℓ} → Reason → ℕ → Result ParseError A
fail why at = err (parse_error why at)

module _ (py : Python) where
  open py use {Num, Coord, is_space, int_of, raw_decode, within, gt, divide}

  -- The four coordinates; a boolean or other element never gets here.
  abbrev pub coords_box : ℕ → ℕ → Num → Num → Num → Num → Result ParseError (BBox Coord)
  coords_box scale at x1 y1 x2 y2 =
      if gt x1 x2 || gt y1 y2
      then fail Types.reversed at
      else ok (record {
        x1 = divide x1 scale;
        y1 = divide y1 scale;
        x2 = divide x2 scale;
        y2 = divide y2 scale;
      })

  -- The checks on a decoded value, from `isinstance(coords, list)` on.
  unfoldable pub box_of : ℕ → ℕ → Json Num → Result ParseError (BBox Coord)
  box_of scale at not_list = fail expected_four at
  box_of scale at (list (number a ∷ number b ∷ number c ∷ number d ∷ [])) =
      if within a scale && within b scale && within c scale && within d scale
      then coords_box scale at a b c d
      else fail not_in_range at
  box_of scale at (list (a ∷ b ∷ c ∷ d ∷ [])) = fail not_in_range at
  box_of scale at (list _) = fail expected_four at

  abbrev pub Found : Type 0
  Found = Option (BBox Coord) × Option ℕ

  -- The loop's continuation: from an offset and the text there, with the box and the level so far.
  abbrev pub Next : Type 0
  Next = ℕ → Text → Option (BBox Coord) → Option ℕ → Result ParseError Found

  -- At a `[`.
  unfoldable pub metadata_box :
      Next → ℕ → ℕ → Text → Option (BBox Coord) → Option ℕ → Result ParseError Found
  metadata_box next scale at s (some _) level = fail duplicate_bbox at
  metadata_box next scale at s none level = elim (raw_decode s) [
    | none ↦ fail invalid_bbox at
    | some (value, k) ↦ box_of scale at value >>= λ box. next (at + k) (drop k s) (some box) level
  ]

  -- The heading level that is read, if there was none.
  abbrev pub set_level :
      Next → ℕ → Text → Text → Option (BBox Coord) → Option ℕ → Result ParseError Found
  set_level next at digits later bbox (some _) = fail duplicate_level at
  set_level next at digits later bbox none = elim (int_of digits) [
    | none ↦ fail invalid_level at
    | some zero ↦ fail level_not_positive at
    | some (suc l) ↦ next (at + 7 + length digits) later bbox (some (suc l))
  ]

  -- At any other character.
  unfoldable pub metadata_level :
      Next → ℕ → Text → Option (BBox Coord) → Option ℕ → Result ParseError Found
  metadata_level next at s bbox level = elim (match_level s) [
    | none ↦ fail unexpected_metadata at
    | some (digits, later) ↦ set_level next at digits later bbox level
  ]

  -- The body of the `while` loop, behind the white space.
  abbrev pub metadata_item :
      Next → ℕ → ℕ → Text → Option (BBox Coord) → Option ℕ → Result ParseError Found
  metadata_item next scale at [] bbox level = ok (bbox, level)
  metadata_item next scale at (c ∷ t) bbox level = elim (c == b'[') [
    | true ↦ metadata_box next scale at (c ∷ t) bbox level
    | false ↦ metadata_level next at (c ∷ t) bbox level
  ]

  -- The `while` loop: `at` is the absolute offset of `rest`.
  unfoldable pub metadata_loop :
      ℕ → ℕ → ℕ → Text → Option (BBox Coord) → Option ℕ → Result ParseError Found
  unfolding metadata_box metadata_level
  metadata_loop zero scale at rest bbox level = err no_fuel
  metadata_loop (suc fuel) scale at rest bbox level =
      metadata_item (metadata_loop fuel scale) scale (at + (skip_space is_space rest).0)
        (skip_space is_space rest).1 bbox level

  -- The label: given, or read from the header.
  abbrev pub header_kind : ℕ → Text → Option Text → Result ParseError (Text × ℕ × Text)
  header_kind offset text (some kind) =
      let (n, s) = skip_space is_space text in ok (kind, offset + n, s)
  header_kind offset text none =
      let (n, s) = skip_space is_space text in
      elim (match_kind s) [
        | none ↦ fail expected_label (offset + n)
        | some (label, rest) ↦ ok (label, offset + n + length label, rest)
      ]

  abbrev pub is_none {ℓ} : {A : Type ℓ} → Option A → Bool
  is_none none = true
  is_none (some _) = false

  unfoldable pub metadata :
      Text → ℕ → ℕ → Bool → Option Text → Result ParseError (Text × Option (BBox Coord) × Option ℕ)
  metadata text offset scale require_bbox kind = do
    (label, at, rest) ← header_kind offset text kind
    (bbox, level) ← metadata_loop (suc (length rest)) scale at rest none none
    raise_if (require_bbox && is_none bbox) (parse_error requires_bbox offset)
    ok (label, bbox, level)
