-- ===== src/Parsing/Scan.antt =====
-- The scanning functions and regular expressions of src/unlimitedocr_c/parsing.py. Each function
-- splits the text from the position on: what it passes over, and what is left.
pub mod Lengths
use unlimitedocr_c.Prelude.{
  ℕ, suc, ◌+◌, Bool, true, false, not, ◌&&◌, ◌||◌, List, [], ◌∷◌, ◌++◌, Option, none, some, Text,
  codes, strip_prefix, leb, ◌==◌, if◌then◌else◌,
}

-- The longest front of which every character passes the test, and the rest.
abbrev pub span : (ℕ → Bool) → Text → Text × Text
span test [] = ([], [])
span test (c ∷ s) = elim (test c) [
  | true ↦ (c ∷ (span test s).0, (span test s).1)
  | false ↦ ([], c ∷ s)
]

abbrev pub within_codes : ℕ → ℕ → ℕ → Bool
within_codes lo hi c = leb lo c && leb c hi

abbrev pub is_digit : ℕ → Bool
is_digit = within_codes b'0' b'9'

-- `[A-Za-z_]`
abbrev pub is_kind_start : ℕ → Bool
is_kind_start c = within_codes b'A' b'Z' c || within_codes b'a' b'z' c || c == b'_'

-- `[A-Za-z_0-9-]`
abbrev pub is_kind_part : ℕ → Bool
is_kind_part c = is_kind_start c || is_digit c || c == b'-'

-- `_KIND.match`: the label and what follows.
unfoldable pub match_kind : Text → Option (Text × Text)
match_kind [] = none
match_kind (c ∷ s) =
    if is_kind_start c then some (c ∷ (span is_kind_part s).0, (span is_kind_part s).1) else none

-- `_KIND.fullmatch(label) is not None`
pub is_kind : Text → Bool
unfolding match_kind
is_kind s = elim (match_kind s) [
  | none ↦ false
  | some (label, rest) ↦ elim rest [ [] ↦ true | c ∷ r ↦ false ]
]

-- The end of `_LEVEL`: one digit at least, then `>`.
abbrev pub level_end : Text → Text → Option (Text × Text)
level_end [] r = none
level_end (d ∷ ds) r = elim (strip_prefix (codes ">") r) [
  | none ↦ none
  | some rest ↦ some (d ∷ ds, rest)
]

-- `_LEVEL.match`: the digits and what follows.
unfoldable pub match_level : Text → Option (Text × Text)
match_level s = elim (strip_prefix (codes "<LEVEL") s) [
  | none ↦ none
  | some t ↦ level_end (span is_digit t).0 (span is_digit t).1
]

-- `text.find(marker, start)`: the text before the marker, and behind it.
unfoldable pub find_marker : Text → Text → Option (Text × Text)
find_marker marker [] = elim (strip_prefix marker []) [ none ↦ none | some t ↦ some ([], t) ]
find_marker marker (c ∷ s) = elim (strip_prefix marker (c ∷ s)) [
  | some t ↦ some ([], t)
  | none ↦ elim (find_marker marker s) [
    | none ↦ none
    | some (before, behind) ↦ some (c ∷ before, behind)
  ]
]

-- One of the words, and what follows it; no word is a prefix of another.
abbrev pub strip_word : List Text → Text → Option Text
strip_word [] s = none
strip_word (w ∷ ws) s = elim (strip_prefix w s) [ none ↦ strip_word ws s | some t ↦ some t ]

abbrev pub control_words : List Text
control_words =
    codes "PAGE" ∷ codes "BLOCK" ∷ codes "FORK" ∷ codes "CHILD" ∷ codes "MERGE" ∷ codes "LEVEL" ∷ []

-- `/?`
abbrev pub skip_slash : Text → Text
skip_slash [] = []
skip_slash (c ∷ s) = if c == b'/' then s else c ∷ s

-- `(?=[…]|$)`; `$` also stands before a newline that ends the text.
abbrev pub followed_by : (ℕ → Bool) → Text → Bool
followed_by test [] = true
followed_by test (c ∷ []) = test c || c == 10
followed_by test (c ∷ d ∷ s) = test c

module _ (is_space : ℕ → Bool) where
  -- `_skip_space`: the number of characters passed over, and the rest.
  unfoldable pub skip_space : Text → ℕ × Text
  skip_space [] = (0, [])
  skip_space (c ∷ s) = elim (is_space c) [
    | true ↦ (suc (skip_space s).0, (skip_space s).1)
    | false ↦ (0, c ∷ s)
  ]

  -- `str.strip`
  rstrip : Text → Text
  rstrip [] = []
  rstrip (c ∷ s) = elim (rstrip s) [ [] ↦ if is_space c then [] else c ∷ [] | d ∷ t ↦ c ∷ d ∷ t ]

  unfoldable pub strip : Text → Text
  unfolding rstrip skip_space
  strip s = rstrip (skip_space s).1

  -- Whether `_CONTROL` matches here. What it matches behind the lookahead, `[^<>]*>?`, may be empty.
  abbrev pub word_control : Text → Bool
  word_control s = elim (strip_word control_words (skip_slash s)) [
    | none ↦ false
    | some t ↦ followed_by (λ c. is_space c || c == b'/' || c == b'>' || is_digit c) t
  ]

  abbrev pub bar_control : Text → Bool
  bar_control [] = false
  bar_control (c ∷ s) =
      if c == b'|'
      then (elim (strip_word (codes "det" ∷ codes "ref" ∷ []) (skip_slash s)) [
        | none ↦ false
        | some t ↦ followed_by (λ c. is_space c || c == b'|' || c == b'>') t
      ])
      else false

  unfoldable pub is_control : Text → Bool
  is_control [] = false
  is_control (c ∷ s) = if c == b'<' then word_control s || bar_control s else false

  -- `_content_end`: the content up to the first control, and what is left.
  unfoldable pub split_content : Text → Text × Text
  split_content [] = ([], [])
  split_content (c ∷ s) = elim (is_control (c ∷ s)) [
    | true ↦ ([], c ∷ s)
    | false ↦ (c ∷ (split_content s).0, (split_content s).1)
  ]
