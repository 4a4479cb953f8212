-- ===== src/Frontend/Sequence.antt =====
-- `_build_token_sequence` and `_max_new_tokens_from_total` of src/unlimitedocr_c/frontend.py, and
-- `_cap_max_new_tokens` of src/unlimitedocr_c/ocr.py. `encode` is the tokenizer's `encode_text`.
pub mod Laws
use unlimitedocr_c.Prelude.{
  ℕ, ◌-◌, Bool, true, false, List, [], ◌∷◌, ◌++◌, Option, none, some, Text, length, replicate, leb,
  ltb, ◌==◌, if◌then◌else◌, Result, ok, err, Error, value_error, ◌>>=◌,
}
use unlimitedocr_c.Prelude.Int.{ℤ, pos, negsuc}
use unlimitedocr_c.Frontend.Types.{PreparedRequest, bos_token_id, image_token_id, image_token}
use unlimitedocr_c.Frontend.Prompts.{split_marker}

-- `_image_placeholder_ids`
abbrev pub image_placeholder_ids : ℕ → List ℕ
image_placeholder_ids n = replicate n image_token_id

module _ (encode : Text → List ℕ) where
  -- The loop over the pieces, and the tail. There are as many counts as pieces behind the first.
  unfoldable pub token_spans : Text → List Text → List ℕ → Result Error (List ℕ × List ℕ)
  token_spans text [] counts = ok (encode text, replicate (length (encode text)) 0)
  token_spans text (next ∷ texts) [] = err value_error
  token_spans text (next ∷ texts) (n ∷ counts) = token_spans next texts counts >>= λ later. ok (
    encode text ++ (image_placeholder_ids n ++ later.0),
    replicate (length (encode text)) 0
        ++ (replicate (length (image_placeholder_ids n)) 1 ++ later.1),
  )

  unfoldable pub build_token_sequence : Text → List ℕ → Result Error (List ℕ × List ℕ)
  unfolding token_spans
  build_token_sequence rendered_prompt visual_counts =
      let pieces = split_marker 0 image_token rendered_prompt in
      elim (length pieces.1 == length visual_counts) [
        | false ↦ err value_error
        | true ↦ token_spans pieces.0 pieces.1 visual_counts >>= λ spans.
            ok (bos_token_id ∷ spans.0, 0 ∷ spans.1)
      ]

unfoldable pub max_new_tokens_from_total : ℕ → ℕ → Option ℤ → Result Error ℕ
max_new_tokens_from_total max_length prompt_tokens (some (negsuc n)) = err value_error
max_new_tokens_from_total max_length prompt_tokens (some (pos n)) = ok n
max_new_tokens_from_total max_length prompt_tokens none =
    if ltb max_length prompt_tokens then ok 0 else ok (max_length - prompt_tokens)

unfoldable pub cap_max_new_tokens : PreparedRequest → Option ℤ → Result Error PreparedRequest
cap_max_new_tokens request none = ok request
cap_max_new_tokens request (some (negsuc n)) = err value_error
cap_max_new_tokens request (some (pos cap)) =
    if leb request.max_new_tokens cap
    then ok request
    else ok (record request { max_new_tokens = cap })
