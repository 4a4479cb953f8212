-- ===== src/Convert/Streams/Chunks.antt =====
-- Splitting bytes, values and groups for the row loops of src/unlimitedocr_c/convert.py.
use unlimitedocr_c.Prelude.{
  ℕ, zero, suc, ◌+◌, ◌*◌, ◌≤◌, ◌≡◌, refl, sym, ap, ◌∙◌, true, List, [], ◌∷◌, ◌++◌, take, drop,
  length, append_assoc, Bool-cases, inl, inr, arith,
}
use unlimitedocr_c.Convert.Streams.{Numpy, chunks, values_of, all_finite, weights, scales}

module _ {ℓ} {A : Type ℓ} where
  pub take-drop : (n : ℕ) (xs : List A) → take n xs ++ drop n xs ≡ xs
  take-drop zero xs = refl
  take-drop (suc n) [] = refl
  take-drop (suc n) (x ∷ xs) = ap (◌∷◌ x) (take-drop n xs)

  pub length-take : (n : ℕ) (xs : List A) → n ≤ length xs → length (take n xs) ≡ n
  length-take zero xs h = refl
  length-take (suc n) [] h = absurd (omega arith)
  length-take (suc n) (x ∷ xs) h = ap suc (length-take n xs (omega arith))

  take_front : (n : ℕ) (xs ys : List A) → n ≤ length xs → take n (xs ++ ys) ≡ take n xs
  take_front zero xs ys h = refl
  take_front (suc n) [] ys h = absurd (omega arith)
  take_front (suc n) (x ∷ xs) ys h = ap (◌∷◌ x) (take_front n xs ys (omega arith))

  drop_front : (n : ℕ) (xs ys : List A) → n ≤ length xs → drop n (xs ++ ys) ≡ drop n xs ++ ys
  drop_front zero xs ys h = refl
  drop_front (suc n) [] ys h = absurd (omega arith)
  drop_front (suc n) (x ∷ xs) ys h = drop_front n xs ys (omega arith)

  pub rest_long : (n k : ℕ) (xs : List A) → length xs ≡ n + k → length (drop n xs) ≡ k
  rest_long zero k xs h = omega arith
  rest_long (suc n) k [] h = absurd (omega arith)
  rest_long (suc n) k (x ∷ xs) h = rest_long n k xs (omega arith)

  -- The chunks of a whole are those of its parts.
  pub chunks-append :
      (size a b : ℕ) (xs ys : List A)
      → length xs ≡ a * size
      → chunks size (a + b) (xs ++ ys) ≡ chunks size a xs ++ chunks size b ys
  chunks-append size zero b [] ys h =
      let e : 0 + b ≡ b = omega arith in ap (λ n. chunks size n ys) e
  chunks-append size zero b (x ∷ xs) ys h = absurd (omega arith)
  chunks-append size (suc a) b xs ys h =
      let long : length xs ≡ size + a * size = omega arith in
      let fits : size ≤ length xs = omega arith in
      let later = chunks-append size a b (drop size xs) ys (rest_long size (a * size) xs long) in
      let count : suc a + b ≡ suc (a + b) = omega arith in
      ap (λ n. chunks size n (xs ++ ys)) count
      ∙ (ap (λ t. t ∷ chunks size (a + b) (drop size (xs ++ ys))) (take_front size xs ys fits)
          ∙ ap (◌∷◌ (take size xs)) (ap (chunks size (a + b)) (drop_front size xs ys fits) ∙ later))

module _ (np : Numpy) where
  open np use {Float}

  pub values_of-append :
      (n : ℕ) (xs ys : List ℕ)
      → length xs ≡ n * 2
      → values_of np (xs ++ ys) ≡ values_of np xs ++ values_of np ys
  values_of-append zero [] ys h = refl
  values_of-append zero (x ∷ xs) ys h = absurd (omega arith)
  values_of-append (suc n) [] ys h = absurd (omega arith)
  values_of-append (suc n) (x ∷ []) ys h = absurd (omega arith)
  values_of-append (suc n) (x ∷ y ∷ xs) ys h =
      ap (◌∷◌ (np.from_bf16 x y)) (values_of-append n xs ys (omega arith))

  pub length-values_of : (n : ℕ) (xs : List ℕ) → length xs ≡ n * 2 → length (values_of np xs) ≡ n
  length-values_of zero [] h = refl
  length-values_of zero (x ∷ xs) h = absurd (omega arith)
  length-values_of (suc n) [] h = absurd (omega arith)
  length-values_of (suc n) (x ∷ []) h = absurd (omega arith)
  length-values_of (suc n) (x ∷ y ∷ xs) h = ap suc (length-values_of n xs (omega arith))

  pub weights-append :
      (q : List Float → List ℕ × List ℕ) (gs hs : List (List Float))
      → weights np q (gs ++ hs) ≡ weights np q gs ++ weights np q hs
  weights-append q [] hs = refl
  weights-append q (g ∷ gs) hs =
      ap (◌++◌ (q g).0) (weights-append q gs hs)
      ∙ sym (append_assoc (q g).0 (weights np q gs) (weights np q hs))

  pub scales-append :
      (q : List Float → List ℕ × List ℕ) (gs hs : List (List Float))
      → scales np q (gs ++ hs) ≡ scales np q gs ++ scales np q hs
  scales-append q [] hs = refl
  scales-append q (g ∷ gs) hs =
      ap (◌++◌ (q g).1) (scales-append q gs hs)
      ∙ sym (append_assoc (q g).1 (scales np q gs) (scales np q hs))

  pub all_finite-append :
      (vs ws : List Float)
      → all_finite np (vs ++ ws) ≡ true
      → (all_finite np vs ≡ true) × (all_finite np ws ≡ true)
  all_finite-append [] ws h = (refl, h)
  all_finite-append (v ∷ vs) ws h = elim (Bool-cases (np.is_finite v)) [
    | inr e ↦ absurd (cc)
    | inl e ↦ let (a, b) = all_finite-append vs ws (ground arith) in (ground arith, b)
  ]
