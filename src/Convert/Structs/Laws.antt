-- ===== src/Convert/Structs/Laws.antt =====
-- Packing and unpacking, of what src/unlimitedocr_c/convert.py uses of Python's `struct`.
use mathlib.Core.Path.{subst}
use unlimitedocr_c.Prelude.{
  ℕ, zero, suc, ◌+◌, ◌-◌, ◌/◌, ◌<◌, ◌≡◌, inl, inr, true, false, refl, sym, ap, ◌∙◌, List, [], ◌∷◌,
  ◌++◌, take, drop, length, length-append, take-append, drop-append, append_assoc, ltb, ok,
  >>=-eq-ok, ok-injective, err_ok, Bool-cases, arith,
}
use unlimitedocr_c.Prelude.Int.{ℤ, pos, negsuc}
use unlimitedocr_c.Convert.Structs.{
  below, Code, u32, i32, u64, width, calcsize, to_bytes, from_bytes, word, value, pack, unpack,
}

length-to_bytes : (k n : ℕ) → length (to_bytes k n) ≡ k
unfolding to_bytes
length-to_bytes zero n = refl
length-to_bytes (suc k) n = ap suc (length-to_bytes k (n / 256))

abbrev limit : Code → ℕ
limit u32 = 4294967296
limit i32 = 4294967296
limit u64 = 18446744073709551616

from_bytes-to_bytes : (c : Code) (n : ℕ) → n < limit c → from_bytes (to_bytes (width c) n) ≡ n
unfolding to_bytes from_bytes
from_bytes-to_bytes u32 n h = omega arith
from_bytes-to_bytes i32 n h = omega arith
from_bytes-to_bytes u64 n h = omega arith

below-ok : (bound m n : ℕ) → below bound m ≡ ok n → (n ≡ m) × (m < bound)
below-ok bound m n h = elim (Bool-cases (ltb m bound)) [
  | inl e ↦ (sym (ok-injective (rw e at h)), ground arith)
  | inr e ↦ absurd (err_ok (rw e at h))
]

-- A value that is packed is in range, and its bytes give it back.
value-word : (c : Code) (v : ℤ) (n : ℕ) → word c v ≡ ok n → (n < limit c) × (value c n ≡ v)
unfolding word value
value-word u32 (pos m) n h = let (e, l) = below-ok 4294967296 m n h in (omega arith, ap pos e)
value-word u64 (pos m) n h =
    let (e, l) = below-ok 18446744073709551616 m n h in (omega arith, ap pos e)
value-word i32 (pos m) n h =
    let (e, l) = below-ok 2147483648 m n h in
    let low : ltb n 2147483648 ≡ true = ground arith in (omega arith, rw low (ap pos e))
value-word i32 (negsuc m) n h =
    let (k, g, h1) = >>=-eq-ok (below 2147483648 m) _ h in
    let (e, l) = below-ok 2147483648 m k g in
    let same : 4294967295 - k ≡ n = ok-injective h1 in
    let high : ltb n 2147483648 ≡ false = ground arith in
    let back : 4294967295 - n ≡ m = omega arith in (omega arith, rw high (ap negsuc back))
value-word u32 (negsuc m) n h = absurd (err_ok h)
value-word u64 (negsuc m) n h = absurd (err_ok h)

-- What is packed has the size of its format, and unpacking gives the values back, whatever follows.
pub unpack-pack :
    (cs : List Code) (vs : List ℤ) (bytes rest : List ℕ)
    → pack cs vs ≡ ok bytes
    → (length bytes ≡ calcsize cs) × (unpack cs (bytes ++ rest) ≡ vs)
unfolding pack unpack
unpack-pack [] [] bytes rest h = (ap length (sym (ok-injective h)), refl)
unpack-pack [] (v ∷ vs) bytes rest h = absurd (err_ok h)
unpack-pack (c ∷ cs) [] bytes rest h = absurd (err_ok h)
unpack-pack (c ∷ cs) (v ∷ vs) bytes rest h =
    let (n, f, h1) = >>=-eq-ok (word c v) _ h in
    let (later, g, h2) = >>=-eq-ok (pack cs vs) _ h1 in
    let (size, back) = unpack-pack cs vs later rest g in
    let (small, whole) = value-word c v n f in
    let front = to_bytes (width c) n in
    let split : bytes ++ rest ≡ front ++ (later ++ rest) =
      ap (λ b. b ++ rest) (sym (ok-injective h2)) ∙ append_assoc front later rest in
    let taken : take (width c) (front ++ (later ++ rest)) ≡ front =
      subst (λ k. take k (front ++ (later ++ rest)) ≡ front) (length-to_bytes (width c) n)
        (take-append front (later ++ rest)) in
    let dropped : drop (width c) (front ++ (later ++ rest)) ≡ later ++ rest =
      subst (λ k. drop k (front ++ (later ++ rest)) ≡ later ++ rest) (length-to_bytes (width c) n)
        (drop-append front (later ++ rest)) in
    (
      ap length (sym (ok-injective h2))
          ∙ (length-append front later
              ∙ (ap (λ k. k + length later) (length-to_bytes (width c) n)
                  ∙ ap (◌+◌ (width c)) size)),
      rw (split, taken, dropped, from_bytes-to_bytes c n small, whole, back),
    )
