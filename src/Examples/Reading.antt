-- ===== src/Examples/Reading.antt =====
-- A v1 and a v2 output, parsed with a decoder that reads nothing but `[1]`.
use unlimitedocr_c.Prelude.{
  ℕ, suc, ◌≤◌, ◌<◌, ◌≡◌, [], ◌∷◌, Option, none, some, Text, codes, length, arith, leb, ◌==◌,
}
use unlimitedocr_c.Parsing.Types.{Python, IsPython, Json, list, number}
use unlimitedocr_c.Parsing.Errors.{ErrorIn}
use unlimitedocr_c.Parsing.Document.{parse_ocr}
use unlimitedocr_c.Parsing.Document.Laws.{parse_ocr-ErrorIn}

-- Reads one decimal digit as a number.
abbrev digit_decode : Text → Option (Json ℕ × ℕ)
digit_decode [] = none
digit_decode (c ∷ s) = some (list (number c ∷ number c ∷ number c ∷ number c ∷ []), 1)

abbrev python : Python
python = record {
  Num = ℕ;
  Coord = ℕ × ℕ;
  is_space = λ c. c == 32;
  int_of = λ s. some (length s);
  raw_decode = digit_decode;
  within = leb;
  gt = λ a b. leb (suc b) a;
  divide = λ a n. (a, n);
}

digit_decode_lengths :
    (s : Text) (v : Json ℕ) (n : ℕ) → digit_decode s ≡ some (v, n) → (0 < n) × (n ≤ length s)
digit_decode_lengths [] v n h = absurd (cc)
digit_decode_lengths (c ∷ s) v n h = ground arith

python-IsPython : IsPython python
python-IsPython = record {
  advances = λ s v n h. (digit_decode_lengths s v n h).0;
  bounded = λ s v n h. (digit_decode_lengths s v n h).1;
}

abbrev two_blocks : Text
two_blocks = codes "<PAGE><BLOCK>text<FORK>a<MERGE><BLOCK>text[<FORK>b"

parse_ocr-ErrorIn_example : ErrorIn (length two_blocks) (parse_ocr python two_blocks)
parse_ocr-ErrorIn_example = parse_ocr-ErrorIn python python-IsPython two_blocks
