-- ===== src/Prelude/Lists.antt =====
-- Lists measured and indexed by native numbers, under the library's names.
use Prim.Native.Nat.{ℕ, zero, suc, ◌+◌, ◌-◌}
use mathlib.Core.Path.{◌≡◌, refl, ap}
use mathlib.Core.List.{List, [], ◌∷◌, ◌++◌, map}
use mathlib.Core.Logic.{◌⊎◌, inl, inr}
use mathlib.Core.Option.{Option, none, some}
use native.Mathlib.Omega.{arith}

module _ {ℓ} {A : Type ℓ} where
  abbrev pub length : List A → ℕ
  length [] = 0
  length (x ∷ xs) = suc (length xs)

  abbrev pub get_elem? : List A → ℕ → Option A
  get_elem? [] i = none
  get_elem? (x ∷ xs) zero = some x
  get_elem? (x ∷ xs) (suc i) = get_elem? xs i

  abbrev pub take : ℕ → List A → List A
  take zero xs = []
  take (suc n) [] = []
  take (suc n) (x ∷ xs) = x ∷ take n xs

  abbrev pub drop : ℕ → List A → List A
  drop zero xs = xs
  drop (suc n) [] = []
  drop (suc n) (x ∷ xs) = drop n xs

  abbrev pub replicate : ℕ → A → List A
  replicate zero a = []
  replicate (suc n) a = a ∷ replicate n a

  -- Every element satisfies `P`, as a tuple that the tactics read.
  abbrev pub All {κ} : (A → Type κ) → List A → Type κ
  All P [] = Unit
  All P (x ∷ xs) = P x × All P xs

  -- `P` holds between each element and each later one.
  abbrev pub Pairwise {κ} : (A → A → Type κ) → List A → Type κ
  Pairwise P [] = Unit
  Pairwise P (x ∷ xs) = All (P x) xs × Pairwise P xs

module _ {ℓ} {A : Type ℓ} where
  pub length-append : (xs ys : List A) → length (xs ++ ys) ≡ length xs + length ys
  length-append [] ys = omega arith
  length-append (x ∷ xs) ys = omega (arith, length-append xs ys)

  pub length-replicate : (n : ℕ) (a : A) → length (replicate n a) ≡ n
  length-replicate zero a = refl
  length-replicate (suc n) a = ap suc (length-replicate n a)

  pub length-drop : (n : ℕ) (xs : List A) → length (drop n xs) ≡ length xs - n
  length-drop zero xs = omega arith
  length-drop (suc n) [] = omega arith
  length-drop (suc n) (x ∷ xs) = omega (arith, length-drop n xs)

  pub length-map {κ} : {B : Type κ} (xs : List A) (f : A → B) → length (map f xs) ≡ length xs
  length-map [] f = refl
  length-map (x ∷ xs) f = ap suc (length-map xs f)

  pub take-append : (xs ys : List A) → take (length xs) (xs ++ ys) ≡ xs
  take-append [] ys = refl
  take-append (x ∷ xs) ys = ap (◌∷◌ x) (take-append xs ys)

  pub drop-append : (xs ys : List A) → drop (length xs) (xs ++ ys) ≡ ys
  drop-append [] ys = refl
  drop-append (x ∷ xs) ys = drop-append xs ys

  pub All-append {κ} : (P : A → Type κ) (xs ys : List A) → All P xs → All P ys → All P (xs ++ ys)
  All-append P [] ys h k = k
  All-append P (x ∷ xs) ys h k = (h.0, All-append P xs ys h.1 k)

  pub All-left {κ} : (P : A → Type κ) (xs ys : List A) → All P (xs ++ ys) → All P xs
  All-left P [] ys h = tt
  All-left P (x ∷ xs) ys h = (h.0, All-left P xs ys h.1)

  pub All-right {κ} : (P : A → Type κ) (xs ys : List A) → All P (xs ++ ys) → All P ys
  All-right P [] ys h = h
  All-right P (x ∷ xs) ys h = All-right P xs ys h.1

  pub All-weaken {κ μ} :
      (P : A → Type κ) (Q : A → Type μ) (xs : List A) → ((x : A) → P x → Q x) → All P xs → All Q xs
  All-weaken P Q [] f h = tt
  All-weaken P Q (x ∷ xs) f h = (f x h.0, All-weaken P Q xs f h.1)

  pub All-combine {κ μ ν} :
      (P : A → Type κ) (Q : A → Type μ) (R : A → Type ν) (xs : List A)
      → ((x : A) → P x → Q x → R x)
      → All P xs
      → All Q xs
      → All R xs
  All-combine P Q R [] f h k = tt
  All-combine P Q R (x ∷ xs) f h k = (f x h.0 k.0, All-combine P Q R xs f h.1 k.1)

  -- Where `P` holds of all and `Q` of each pair, `R` holds of each pair.
  pub Pairwise-combine {κ μ ν} :
      (P : A → Type κ) (Q : A → A → Type μ) (R : A → A → Type ν) (xs : List A)
      → ((x y : A) → P x → P y → Q x y → R x y)
      → All P xs
      → Pairwise Q xs
      → Pairwise R xs
  Pairwise-combine P Q R [] f h k = tt
  Pairwise-combine P Q R (x ∷ xs) f h k =
      (All-combine P (Q x) (R x) xs (λ y. f x y h.0) h.1 k.0, Pairwise-combine P Q R xs f h.1 k.1)

  pub Pairwise-left {κ} :
      (P : A → A → Type κ) (xs ys : List A) → Pairwise P (xs ++ ys) → Pairwise P xs
  Pairwise-left P [] ys h = tt
  Pairwise-left P (x ∷ xs) ys h = (All-left (P x) xs ys h.0, Pairwise-left P xs ys h.1)

  pub Pairwise-right {κ} :
      (P : A → A → Type κ) (xs ys : List A) → Pairwise P (xs ++ ys) → Pairwise P ys
  Pairwise-right P [] ys h = h
  Pairwise-right P (x ∷ xs) ys h = Pairwise-right P xs ys h.1

  -- Each element of the first list against each of the second.
  pub Pairwise-across {κ} :
      (P : A → A → Type κ) (xs ys : List A) → Pairwise P (xs ++ ys) → All (λ x. All (P x) ys) xs
  Pairwise-across P [] ys h = tt
  Pairwise-across P (x ∷ xs) ys h = (All-right (P x) xs ys h.0, Pairwise-across P xs ys h.1)

  pub Pairwise-append {κ} :
      (P : A → A → Type κ) (xs ys : List A)
      → Pairwise P xs
      → Pairwise P ys
      → All (λ x. All (P x) ys) xs
      → Pairwise P (xs ++ ys)
  Pairwise-append P [] ys h k c = k
  Pairwise-append P (x ∷ xs) ys h k c =
      (All-append (P x) xs ys h.0 c.0, Pairwise-append P xs ys h.1 k c.1)

pub list_cases {ℓ} :
    {A : Type ℓ} (xs : List A) → (xs ≡ []) ⊎ ((a : A) × (later : List A) × (xs ≡ a ∷ later))
list_cases [] = inl refl
list_cases (x ∷ xs) = inr (x, xs, refl)
