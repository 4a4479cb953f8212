-- ===== src/Registry/Patterns.antt =====
-- The regular expressions of src/unlimitedocr_c/tensor_registry.py, as matchers on code points.
-- Each is a sequence of literals, `(\d+)`, and alternatives of which none is a prefix of another,
-- so the first alternative that fits is the only one. `digit_value` is Python's table of Unicode
-- decimal digits, which `\d` and `int` share.
use unlimitedocr_c.Prelude.{
  ℕ, ◌+◌, ◌*◌, true, false, Option, none, some, List, [], ◌∷◌, Text, codes, strip_prefix, ◌==◌,
  if◌then◌else◌,
}
use unlimitedocr_c.Registry.Types.{TensorProjection, q, k, v, o, gate, up, down}

-- A chain of matches: the first that fails ends it.
infixl 5 ◌>>=◌
abbrev pub ◌>>=◌ {ℓ κ} : {A : Type ℓ} {B : Type κ} → Option A → (A → Option B) → Option B
none >>= f = none
some a >>= f = f a

-- `$`: the end, or just before a newline that ends the text.
abbrev pub at_end : Text → Option (Unit {0})
at_end [] = some tt
at_end (c ∷ []) = if c == 10 then some tt else none
at_end (c ∷ d ∷ r) = none

-- `(.+)$`: the rest of the line, which is not empty; `.` is any character but a newline.
abbrev pub line_rest : Text → Option Text
line_rest [] = none
line_rest (c ∷ []) = if c == 10 then none else some (c ∷ [])
line_rest (c ∷ d ∷ []) =
    if c == 10 then none else if d == 10 then some (c ∷ []) else some (c ∷ d ∷ [])
line_rest (c ∷ d ∷ e ∷ r) = elim (c == 10) [
  | true ↦ none
  | false ↦ elim (line_rest (d ∷ e ∷ r)) [ none ↦ none | some s ↦ some (c ∷ s) ]
]

-- `(a|b|…)`: the value of the alternative that fits, and what follows it.
abbrev pub one_of {ℓ} : {A : Type ℓ} → List (Text × A) → Text → Option (A × Text)
one_of [] s = none
one_of ((w, a) ∷ alts) s = elim (strip_prefix w s) [
  | none ↦ one_of alts s
  | some rest ↦ some (a, rest)
]

module _ (digit_value : ℕ → Option ℕ) where
  -- The digits at the front, read onto the number `n`.
  pub digits_onto : ℕ → Text → ℕ × Text
  digits_onto n [] = (n, [])
  digits_onto n (c ∷ s) = elim (digit_value c) [
    | none ↦ (n, c ∷ s)
    | some d ↦ digits_onto (10 * n + d) s
  ]

  -- `int` of the group `(\d+)`, and what follows it.
  unfoldable pub number : Text → Option (ℕ × Text)
  unfolding digits_onto
  number [] = none
  number (c ∷ s) = elim (digit_value c) [ none ↦ none | some d ↦ some (digits_onto d s) ]

-- `_proj_from_prefix`, with the alternatives that its callers' expressions allow.
abbrev pub attn_prefixes : List (Text × TensorProjection)
attn_prefixes =
    (codes "q_proj", q) ∷ (codes "k_proj", k) ∷ (codes "v_proj", v) ∷ (codes "o_proj", o) ∷ []

abbrev pub mlp_prefixes : List (Text × TensorProjection)
mlp_prefixes = (codes "gate_proj", gate) ∷ (codes "up_proj", up) ∷ (codes "down_proj", down) ∷ []
