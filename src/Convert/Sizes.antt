-- ===== src/Convert/Sizes.antt =====
-- The byte counts of src/unlimitedocr_c/convert.py: `_align_up`, the fp16 and the Q8_0 and Q4_0
-- payload sizes. Dimensions and group sizes are natural numbers here, so `<= 0` is `== 0`.
pub mod Laws
use unlimitedocr_c.Prelude.{
  ℕ, ◌+◌, ◌-◌, ◌*◌, ◌/◌, ◌%◌, Bool, not, ◌||◌, List, [], ◌∷◌, ◌==◌, if◌then◌else◌, Result, ok, err,
  Error, value_error, ◌>>=◌, ◌>>◌, raise_if, leb,
}

unfoldable pub align_up : ℕ → ℕ → ℕ
align_up value alignment =
    let remainder = value % alignment in
    if remainder == 0 then value else value + (alignment - remainder)

-- `_align_up` with its check.
unfoldable pub align_up_checked : ℕ → ℕ → Result Error ℕ
unfolding align_up
align_up_checked value alignment =
    if leb alignment 0 then err value_error else ok (align_up value alignment)

-- `_product`
unfoldable pub product : List ℕ → ℕ
product [] = 1
product (d ∷ ds) = d * product ds

-- The rows and columns of a rank-2 shape.
abbrev rank2 : List ℕ → Result Error (ℕ × ℕ)
rank2 (rows ∷ cols ∷ []) = ok (rows, cols)
rank2 [] = err value_error
rank2 (x ∷ []) = err value_error
rank2 (x ∷ y ∷ z ∷ r) = err value_error

unfoldable pub q8_qweight_bytes : List ℕ → ℕ → Result Error ℕ
q8_qweight_bytes shape group_size = do
  (rows, cols) ← rank2 shape
  raise_if (rows == 0 || cols == 0) value_error
  raise_if (group_size == 0) value_error
  raise_if (not (cols % group_size == 0)) value_error
  ok (rows * cols)

unfoldable pub q8_qscale_bytes : List ℕ → ℕ → Result Error ℕ
unfolding q8_qweight_bytes
q8_qscale_bytes shape group_size = do
  _ ← q8_qweight_bytes shape group_size
  (rows, cols) ← rank2 shape
  ok (rows * (cols / group_size) * 2)

unfoldable pub q8_total_bytes : List ℕ → ℕ → Result Error ℕ
unfolding q8_qweight_bytes q8_qscale_bytes
q8_total_bytes shape group_size = do
  w ← q8_qweight_bytes shape group_size
  s ← q8_qscale_bytes shape group_size
  ok (w + s)

unfoldable pub q4_qweight_bytes : List ℕ → ℕ → Result Error ℕ
q4_qweight_bytes shape group_size = do
  (rows, cols) ← rank2 shape
  raise_if (rows == 0 || cols == 0) value_error
  raise_if (group_size == 0) value_error
  raise_if (not (cols % group_size == 0)) value_error
  raise_if (not (cols % 2 == 0)) value_error
  ok (rows * (cols / 2))

unfoldable pub q4_qscale_bytes : List ℕ → ℕ → Result Error ℕ
unfolding q4_qweight_bytes
q4_qscale_bytes shape group_size = do
  _ ← q4_qweight_bytes shape group_size
  (rows, cols) ← rank2 shape
  ok (rows * (cols / group_size) * 2)

unfoldable pub q4_total_bytes : List ℕ → ℕ → Result Error ℕ
unfolding q4_qweight_bytes q4_qscale_bytes
q4_total_bytes shape group_size = do
  w ← q4_qweight_bytes shape group_size
  s ← q4_qscale_bytes shape group_size
  ok (w + s)
