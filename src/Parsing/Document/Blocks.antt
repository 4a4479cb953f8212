-- ===== src/Parsing/Document/Blocks.antt =====
-- The blocks and references of src/unlimitedocr_c/parsing.py: what they read, and where their errors are.
use mathlib.Core.Path.{subst}
use unlimitedocr_c.Prelude.{
  ℕ, ◌+◌, ◌≤◌, ◌≡◌, Bool, Option, Text, strip_prefix, ok, >>=-eq-ok, ok-injective, err_ok, length,
  arith, Bool-cases, Option-cases, inl, inr,
}
use unlimitedocr_c.Parsing.Types.{Python, IsPython, Block}
use unlimitedocr_c.Parsing.Scan.{skip_space, find_marker, strip, is_kind}
use unlimitedocr_c.Parsing.Scan.Lengths.{
  length-strip_prefix, length-find_marker, length-skip_space, length-split_content,
}
use unlimitedocr_c.Parsing.Errors.{ErrorIn, returned, raised, ErrorIn-bind}
use unlimitedocr_c.Parsing.Metadata.{metadata}
use unlimitedocr_c.Parsing.Metadata.Laws.{metadata-ErrorIn}
use unlimitedocr_c.Parsing.Document.{closing, read_block, read_reference, ref_end, det_mark}

pub closing-ErrorIn :
    (n start : ℕ) (marker rest : Text) → start ≤ n → ErrorIn n (closing start marker rest)
unfolding closing
closing-ErrorIn n start marker rest h = elim (Option-cases (find_marker marker rest)) [
  | inl e ↦ rw (e, closing) (raised _ _ h)
  | inr (x, e) ↦ rw (e, closing) (returned _)
]

pub closing-length :
    (start : ℕ) (marker rest : Text) (found : Text × Text)
    → closing start marker rest ≡ ok found
    → length found.0 + length marker + length found.1 ≡ length rest
unfolding closing
closing-length start marker rest found h = elim (Option-cases (find_marker marker rest)) [
  | inl e ↦ absurd (err_ok (rw (e, closing) at h))
  | inr (x, e) ↦
      subst (λ r. length r.0 + length marker + length r.1 ≡ length rest)
        (ok-injective (rw (e, closing) at h)) (length-find_marker marker rest x.0 x.1 e)
]

module _ (py : Python) (lawful : IsPython py) where
  open py use {Coord, is_space}

  pub read_block-ErrorIn :
      (n : ℕ) (stop : Text) (scale : ℕ) (require_bbox : Bool) (kind : Option Text) (merged : Bool)
      (start : ℕ) (rest : Text)
      → start + length rest ≤ n
      → ErrorIn n (read_block py stop scale require_bbox kind merged start rest)
  unfolding read_block
  read_block-ErrorIn n stop scale require_bbox kind merged start rest h =
      ErrorIn-bind n _ _ (closing-ErrorIn n start stop rest (omega arith)) (λ found e.
        let total = closing-length start stop rest found e in
        ErrorIn-bind n _ _
          (metadata-ErrorIn py lawful n found.0 start scale require_bbox kind (omega arith))
          (λ header _. returned _))

  -- The offset behind a block goes with the text that is left there.
  pub read_block-length :
      (stop : Text) (scale : ℕ) (require_bbox : Bool) (kind : Option Text) (merged : Bool)
      (start : ℕ) (rest : Text) (r : Block Coord × ℕ × Text)
      → read_block py stop scale require_bbox kind merged start rest ≡ ok r
      → (r.1 + length r.2 ≡ start + length rest) × (length r.2 ≤ length rest)
  unfolding read_block
  read_block-length stop scale require_bbox kind merged start rest r h =
      let (found, e, h1) = >>=-eq-ok (closing start stop rest) _ h in
      let (header, e', h2) = >>=-eq-ok (metadata py found.0 start scale require_bbox kind) _ h1 in
      let total = closing-length start stop rest found e in
      let content = length-split_content is_space found.1 in
      subst (λ r. (r.1 + length r.2 ≡ start + length rest) × (length r.2 ≤ length rest))
        (ok-injective h2) (omega arith, omega arith)

  pub read_reference-ErrorIn :
      (n label_start : ℕ) (rest : Text)
      → label_start + length rest ≤ n
      → ErrorIn n (read_reference py label_start rest)
  unfolding read_reference
  read_reference-ErrorIn n label_start rest h =
      ErrorIn-bind n _ _ (closing-ErrorIn n label_start ref_end rest (omega arith)) (λ found e.
        let total = closing-length label_start ref_end rest found e in
        let gap = length-skip_space is_space found.1 in
        elim (Bool-cases (is_kind (strip is_space found.0))) [
          | inr f ↦ rw (f, read_reference) (raised _ _ (omega arith))
          | inl f ↦ elim (Option-cases (strip_prefix det_mark (skip_space is_space found.1).1)) [
            | inl g ↦ rw (f, g, read_reference) (raised _ _ (omega arith))
            | inr (t, g) ↦ rw (f, g, read_reference) (returned _)
          ]
        ])

  pub read_reference-length :
      (label_start : ℕ) (rest : Text) (r : Text × ℕ × Text)
      → read_reference py label_start rest ≡ ok r
      → (r.1 + length r.2 ≡ label_start + length rest) × (length r.2 ≤ length rest)
  unfolding read_reference
  read_reference-length label_start rest r h =
      let (found, e, h1) = >>=-eq-ok (closing label_start ref_end rest) _ h in
      let total = closing-length label_start ref_end rest found e in
      let gap = length-skip_space is_space found.1 in
      elim (Bool-cases (is_kind (strip is_space found.0))) [
        | inr f ↦ absurd (err_ok (rw f at h1))
        | inl f ↦ elim (Option-cases (strip_prefix det_mark (skip_space is_space found.1).1)) [
          | inl g ↦ absurd (err_ok (rw (f, g) at h1))
          | inr (t, g) ↦
              let mark = length-strip_prefix det_mark (skip_space is_space found.1).1 t g in
              subst
                (λ r. (r.1 + length r.2 ≡ label_start + length rest) × (length r.2 ≤ length rest))
                (ok-injective (rw (f, g) at h1)) (omega arith, omega arith)
        ]
      ]
