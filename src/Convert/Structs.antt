-- ===== src/Convert/Structs.antt =====
-- What src/unlimitedocr_c/convert.py uses of Python's `struct`: little-endian integers of fixed width.
-- A byte is a number below 256.
pub mod Laws
use unlimitedocr_c.Prelude.{
  ℕ, zero, suc, ◌+◌, ◌-◌, ◌*◌, ◌/◌, ◌%◌, ◌^◌, List, [], ◌∷◌, ◌++◌, take, drop, ltb, if◌then◌else◌,
  Result, ok, err, Error, struct_error, ◌>>=◌,
}
use unlimitedocr_c.Prelude.Int.{ℤ, pos, negsuc}

-- The codes `I`, `i` and `Q` of a format.
pub data Code : Type 0 where
  u32 i32 u64 : Code

abbrev pub width : Code → ℕ
width u32 = 4
width i32 = 4
width u64 = 8

abbrev pub calcsize : List Code → ℕ
calcsize [] = 0
calcsize (c ∷ cs) = width c + calcsize cs

-- The low `k` bytes of `n`, the lowest first, and back.
unfoldable pub to_bytes : ℕ → ℕ → List ℕ
to_bytes zero n = []
to_bytes (suc k) n = n % 256 ∷ to_bytes k (n / 256)

unfoldable pub from_bytes : List ℕ → ℕ
from_bytes [] = 0
from_bytes (b ∷ bs) = b + 256 * from_bytes bs

abbrev pub below : ℕ → ℕ → Result Error ℕ
below limit n = if ltb n limit then ok n else err struct_error

-- The value of the bytes, where it is in range.
unfoldable pub word : Code → ℤ → Result Error ℕ
word u32 (pos n) = below 4294967296 n
word u64 (pos n) = below 18446744073709551616 n
word i32 (pos n) = below 2147483648 n
word i32 (negsuc n) = below 2147483648 n >>= λ m. ok (4294967295 - m)
word _ (negsuc n) = err struct_error

unfoldable pub value : Code → ℕ → ℤ
value u32 n = pos n
value u64 n = pos n
value i32 n = if ltb n 2147483648 then pos n else negsuc (4294967295 - n)

-- `struct.pack`, and `struct.unpack` of as many bytes as the format has.
unfoldable pub pack : List Code → List ℤ → Result Error (List ℕ)
unfolding word to_bytes
pack [] [] = ok []
pack (c ∷ cs) (v ∷ vs) =
    word c v >>= λ n. pack cs vs >>= λ bytes. ok (to_bytes (width c) n ++ bytes)
pack _ _ = err struct_error

unfoldable pub unpack : List Code → List ℕ → List ℤ
unfolding value from_bytes
unpack [] bytes = []
unpack (c ∷ cs) bytes =
    value c (from_bytes (take (width c) bytes)) ∷ unpack cs (drop (width c) bytes)
