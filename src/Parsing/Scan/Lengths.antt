-- ===== src/Parsing/Scan/Lengths.antt =====
-- What the scanning functions of src/unlimitedocr_c/parsing.py pass over and what they leave add up.
use unlimitedocr_c.Prelude.{
  ℕ, ◌+◌, ◌≡◌, sym, Bool, [], ◌∷◌, Option, none, some, Text, codes, strip_prefix, strip_prefix-eq,
  length, length-append, arith, Bool-cases, inl, inr, Option-cases,
}
use unlimitedocr_c.Parsing.Scan.{
  span, match_kind, match_level, find_marker, skip_space, split_content, is_control, is_digit,
  is_kind_part, is_kind_start, level_end,
}

pub length-strip_prefix :
    (p s r : Text) → strip_prefix p s ≡ some r → length p + length r ≡ length s
length-strip_prefix p s r h = rw (strip_prefix-eq p s r h) (sym (length-append p r))

pub length-span :
    (test : ℕ → Bool) (s : Text) → length (span test s).0 + length (span test s).1 ≡ length s
length-span test [] = omega arith
length-span test (c ∷ s) = ground (arith, length-span test s)

some_ne : (x : Text × Text) → none ≡ some x → ⊥
some_ne x h = cc

some_pair :
    (a b c d : Text)
    → ◌≡◌ {A = Option (Text × Text)} (some (a, b)) (some (c, d))
    → (a ≡ c) × (b ≡ d)
some_pair a b c d h = ground arith

pub length-match_kind :
    (s label rest : Text)
    → match_kind s ≡ some (label, rest)
    → length label + length rest ≡ length s
unfolding match_kind
length-match_kind [] label rest h = cc
length-match_kind (c ∷ s) label rest h = elim (Bool-cases (is_kind_start c)) [
  | inl e ↦
      let parts = some_pair _ _ label rest (rw e at h) in
      rw (← parts.0, ← parts.1) (omega (arith, length-span is_kind_part s))
  | inr e ↦ absurd (some_ne _ (rw e at h))
]

level_digits :
    (ds r digits rest : Text)
    → level_end ds r ≡ some (digits, rest)
    → length digits + 1 + length rest ≡ length ds + length r
level_digits [] r digits rest h = absurd (some_ne _ h)
level_digits (d ∷ ds) r digits rest h = elim (Option-cases (strip_prefix (codes ">") r)) [
  | inl e ↦ absurd (some_ne _ (rw e at h))
  | inr (t, e) ↦
      let parts = some_pair _ _ digits rest (rw e at h) in
      rw (← parts.0, ← parts.1) (omega (arith, length-strip_prefix (codes ">") r t e))
]

pub length-match_level :
    (s digits rest : Text)
    → match_level s ≡ some (digits, rest)
    → 7 + length digits + length rest ≡ length s
unfolding match_level
length-match_level s digits rest h = elim (Option-cases (strip_prefix (codes "<LEVEL") s)) [
  | inl e ↦ absurd (some_ne _ (rw e at h))
  | inr (t, e) ↦ omega (
    arith,
    length-strip_prefix (codes "<LEVEL") s t e,
    length-span is_digit t,
    level_digits (span is_digit t).0 (span is_digit t).1 digits rest (rw e at h),
  )
]

pub length-find_marker :
    (marker s before behind : Text)
    → find_marker marker s ≡ some (before, behind)
    → length before + length marker + length behind ≡ length s
unfolding find_marker
length-find_marker marker [] before behind h = elim (Option-cases (strip_prefix marker [])) [
  | inl e ↦ absurd (some_ne _ (rw (e, find_marker) at h))
  | inr (t, e) ↦
      let parts = some_pair _ _ before behind (rw (e, find_marker) at h) in
      rw (← parts.0, ← parts.1) (omega (arith, length-strip_prefix marker [] t e))
]
length-find_marker marker (c ∷ s) before behind h =
    elim (Option-cases (strip_prefix marker (c ∷ s))) [
      | inr (t, e) ↦
          let parts = some_pair _ _ before behind (rw (e, find_marker) at h) in
          rw (← parts.0, ← parts.1) (omega (arith, length-strip_prefix marker (c ∷ s) t e))
      | inl e ↦ elim (Option-cases (find_marker marker s)) [
        | inl f ↦ absurd (some_ne _ (rw (e, f, find_marker) at h))
        | inr (x, f) ↦
            let parts = some_pair _ _ before behind (rw (e, f, find_marker) at h) in
            rw (← parts.0, ← parts.1) (omega (arith, length-find_marker marker s x.0 x.1 f))
      ]
    ]

module _ (is_space : ℕ → Bool) where
  pub length-skip_space :
      (s : Text) → (skip_space is_space s).0 + length (skip_space is_space s).1 ≡ length s
  unfolding skip_space
  length-skip_space [] = omega arith
  length-skip_space (c ∷ s) = ground (arith, length-skip_space s)

  pub length-split_content :
      (s : Text)
      → length (split_content is_space s).0 + length (split_content is_space s).1 ≡ length s
  unfolding split_content
  length-split_content [] = omega arith
  length-split_content (c ∷ s) = elim (Bool-cases (is_control is_space (c ∷ s))) [
    | inl e ↦ rw (e, split_content) (omega arith)
    | inr e ↦ rw (e, split_content) (omega (arith, length-split_content s))
  ]
