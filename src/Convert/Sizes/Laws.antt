-- ===== src/Convert/Sizes/Laws.antt =====
-- Laws of the byte counts of src/unlimitedocr_c/convert.py.
use native.Mathlib.Nat.{div-add-mod, mod-lt, mul-mod_right, mul-le-mul_left, le_refl}
use native.Mathlib.Decide.{dec_lt}
use unlimitedocr_c.Prelude.{
  ℕ, suc, ◌+◌, ◌*◌, ◌/◌, ◌%◌, ◌≤◌, ◌<◌, ◌≡◌, [], ◌∷◌, ok, arith, ◌==◌, ◌⊎◌, inl, inr, Bool-cases,
}
use unlimitedocr_c.Convert.Sizes.{align_up, q8_total_bytes, q4_total_bytes}

align_up_cases :
    (v a : ℕ)
    → 0 < a
    → ((v % a ≡ 0) × (align_up v a ≡ v)) ⊎ ((0 < v % a) × (align_up v a ≡ a * suc (v / a)))
unfolding align_up
align_up_cases v a h = elim (Bool-cases (v % a == 0)) [
  | inl e ↦ inl (ground arith, rw e)
  | inr e ↦ inr (ground arith, rw e (omega (arith, div-add-mod v a, mod-lt v h)))
]

-- `_align_up` gives the least multiple of the alignment that is not below the value.
pub align_up_least :
    (v a : ℕ)
    → 0 < a
    → (v ≤ align_up v a) × (align_up v a % a ≡ 0) × ((m : ℕ) → v ≤ m → m % a ≡ 0 → align_up v a ≤ m)
align_up_least v a h = elim (align_up_cases v a h) [
  | inl (e, p) ↦ rw p (le_refl v, e, λ m k f. k)
  | inr (e, p) ↦ rw p (
    omega (arith, div-add-mod v a, mod-lt v h),
    mul-mod_right a (suc (v / a)),
    λ m k f. next_multiple m k f e,
  )
]
  where
    next_multiple : (m : ℕ) → v ≤ m → m % a ≡ 0 → 0 < v % a → a * suc (v / a) ≤ m
    next_multiple m k f e = elim (dec_lt (v / a) (m / a)) [
      | yes l ↦ omega (arith, mul-le-mul_left a l, div-add-mod m a)
      | no l ↦ absurd (
          omega (
            arith,
            mul-le-mul_left {m = m / a} {n = v / a} a (omega arith),
            div-add-mod m a,
            div-add-mod v a,
          ))
    ]

pub align_up-16 :
    (v : ℕ) → (v ≤ align_up v 16) × (align_up v 16 % 16 ≡ 0) × (align_up v 16 < v + 16)
unfolding align_up
align_up-16 v = ground arith

pub align_up-8 : (v : ℕ) → (v ≤ align_up v 8) × (align_up v 8 % 8 ≡ 0)
unfolding align_up
align_up-8 v = ground arith

pub align_up-4096 : (v : ℕ) → (v ≤ align_up v 4096) × (align_up v 4096 % 4096 ≡ 0)
unfolding align_up
align_up-4096 v = ground arith

-- A matrix with at least one row, whose columns are one or more whole groups of 64, takes 66 bytes
-- for each group as Q8_0, and 34 as Q4_0.
pub q8_total_bytes_groups :
    (rows groups : ℕ)
    → 0 < rows
    → 0 < groups
    → (q8_total_bytes (rows ∷ (64 * groups) ∷ []) 64 ≡ ok (66 * (rows * groups)))
      × (q4_total_bytes (rows ∷ (64 * groups) ∷ []) 64 ≡ ok (34 * (rows * groups)))
unfolding q8_total_bytes q4_total_bytes
q8_total_bytes_groups rows groups h k =
    let whole : 64 * groups / 64 ≡ groups = omega arith in
    let half : 64 * groups / 2 ≡ 32 * groups = omega arith in
    (rw whole (ground arith), rw (whole, half) (ground arith))
