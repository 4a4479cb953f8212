-- ===== src/Parsing/Errors.antt =====
-- Errors whose offset lies within the text.
use unlimitedocr_c.Prelude.{
  ℕ, ◌≤◌, ◌≡◌, refl, Result, ok, err, ◌>>=◌, ◌>>◌, raise_if, Bool, true, false,
}
use unlimitedocr_c.Parsing.Types.{Reason, ParseError, parse_error}

-- The result is a value, or a parse error at an offset up to `n`: the fuel has not run out.
pub data ErrorIn {ℓ} {A : Type ℓ} (n : ℕ) : Result ParseError A → Type ℓ where
  returned : (a : A) → ErrorIn n (ok a)
  raised : (why : Reason) (o : ℕ) → o ≤ n → ErrorIn n (err (parse_error why o))

pub ErrorIn-bind {ℓ κ} :
    {A : Type ℓ} {B : Type κ} (n : ℕ) (m : Result ParseError A) (f : A → Result ParseError B)
    → ErrorIn n m
    → ((a : A) → m ≡ ok a → ErrorIn n (f a))
    → ErrorIn n (m >>= f)
ErrorIn-bind n _ f (returned a) k = k a refl
ErrorIn-bind n _ f (raised why o h) k = raised why o h

pub ErrorIn-guard {ℓ} :
    {A : Type ℓ} (n : ℕ) (b : Bool) (why : Reason) (o : ℕ) (m : Result ParseError A)
    → o ≤ n
    → ErrorIn n m
    → ErrorIn n (raise_if b (parse_error why o) >> m)
ErrorIn-guard n true why o m h k = raised why o h
ErrorIn-guard n false why o m h k = k
