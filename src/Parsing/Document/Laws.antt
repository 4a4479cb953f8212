-- ===== src/Parsing/Document/Laws.antt =====
-- `parse_ocr` of src/unlimitedocr_c/parsing.py.
use mathlib.Core.Path.{subst}
use unlimitedocr_c.Prelude.{
  ℕ, ◌+◌, ◌≡◌, refl, [], ◌∷◌, Text, strip_prefix, length, arith, Option-cases, inl, inr, ◌⊎◌,
}
use unlimitedocr_c.Parsing.Types.{Python, IsPython}
use unlimitedocr_c.Parsing.Scan.{skip_space}
use unlimitedocr_c.Parsing.Scan.Lengths.{length-strip_prefix, length-skip_space}
use unlimitedocr_c.Parsing.Errors.{ErrorIn, raised}
use unlimitedocr_c.Parsing.Document.{parse_ocr, page_mark, ref_mark, det_mark}
use unlimitedocr_c.Parsing.Document.Detections.{parse_v1-ErrorIn}
use unlimitedocr_c.Parsing.Document.Pages.{parse_v2-ErrorIn}

list_cases : (s : Text) → (s ≡ []) ⊎ ((c : ℕ) × (t : Text) × (s ≡ c ∷ t))
list_cases [] = inl refl
list_cases (c ∷ t) = inr (c, t, refl)

-- On every text, `parse_ocr` returns a document or raises an `OCRParseError` at an offset that is at
-- most the text's length: the loops always end within their fuel. The JSON decoder is any function
-- that reads at least one character, and no more than there are.
pub parse_ocr-ErrorIn :
    (py : Python) → IsPython py → (text : Text) → ErrorIn (length text) (parse_ocr py text)
unfolding parse_ocr
parse_ocr-ErrorIn py lawful text =
    let gap = length-skip_space (py.is_space) text in
    let n = (skip_space (py.is_space) text).0 in
    elim (list_cases (skip_space (py.is_space) text).1) [
      | inl e ↦ rw (e, parse_ocr) (raised _ _ (omega arith))
      | inr (c, s, e) ↦
          let total : n + length (c ∷ s) ≡ length text =
            subst (λ r. n + length r ≡ length text) e gap in
          elim (Option-cases (strip_prefix page_mark (c ∷ s))) [
            | inr (t, f) ↦
                let mark = length-strip_prefix page_mark (c ∷ s) t f in
                rw (e, f, parse_ocr)
                  (parse_v2-ErrorIn py lawful (length text) (n + length page_mark) t (omega arith))
            | inl f ↦ elim (Option-cases (strip_prefix det_mark (c ∷ s))) [
              | inr (t, g) ↦
                  rw (e, f, g, parse_ocr)
                    (parse_v1-ErrorIn py lawful (length text) n (c ∷ s) (omega arith))
              | inl g ↦ elim (Option-cases (strip_prefix ref_mark (c ∷ s))) [
                | inr (t, i) ↦
                    rw (e, f, g, i, parse_ocr)
                      (parse_v1-ErrorIn py lawful (length text) n (c ∷ s) (omega arith))
                | inl i ↦ rw (e, f, g, i, parse_ocr) (raised _ _ (omega arith))
              ]
            ]
          ]
    ]
