-- ===== src/Frontend/Sequence/Laws.antt =====
-- What a token sequence of src/unlimitedocr_c/frontend.py holds.
use unlimitedocr_c.Prelude.{
  ℕ, zero, suc, ◌+◌, ◌-◌, ◌≤◌, ◌<◌, ◌≡◌, ◌≢◌, ◌⊎◌, inl, inr, refl, ◌∙◌, ap, List, [], ◌∷◌, ◌++◌,
  none, some, Text, length, replicate, ok, err, value_error, arith, Bool-cases, ◌==◌,
  length-replicate, leb, ltb,
}
use unlimitedocr_c.Prelude.Int.{pos, negsuc}
use unlimitedocr_c.Frontend.Types.{PreparedRequest, sum, bos_token_id, image_token_id, image_token}
use unlimitedocr_c.Frontend.Prompts.{split_marker, count}
use unlimitedocr_c.Frontend.Sequence.{
  image_placeholder_ids, token_spans, build_token_sequence, max_new_tokens_from_total,
  cap_max_new_tokens,
}

-- Ids and mask go together: a mask of 0 is any token, a mask of 1 an image placeholder.
pub data Masked : List ℕ → List ℕ → Type 0 where
  done : Masked [] []
  text_token : {ids mask : List ℕ} (i : ℕ) → Masked ids mask → Masked (i ∷ ids) (0 ∷ mask)
  image_slot : {ids mask : List ℕ} → Masked ids mask → Masked (image_token_id ∷ ids) (1 ∷ mask)

Masked-text :
    (xs : List ℕ) {ids mask : List ℕ}
    → Masked ids mask
    → Masked (xs ++ ids) (replicate (length xs) 0 ++ mask)
Masked-text [] h = h
Masked-text (x ∷ xs) h = text_token x (Masked-text xs h)

Masked-only_text : (xs : List ℕ) → Masked xs (replicate (length xs) 0)
Masked-only_text [] = done
Masked-only_text (x ∷ xs) = text_token x (Masked-only_text xs)

Masked-image :
    (n : ℕ) {ids mask : List ℕ}
    → Masked ids mask
    → Masked
        (image_placeholder_ids n ++ ids)
        (replicate (length (image_placeholder_ids n)) 1 ++ mask)
Masked-image zero h = h
Masked-image (suc n) h = image_slot (Masked-image n h)

pub Masked-length : {ids mask : List ℕ} → Masked ids mask → length ids ≡ length mask
Masked-length done = refl
Masked-length (text_token i h) = omega (arith, Masked-length h)
Masked-length (image_slot h) = omega (arith, Masked-length h)

sum-append : (xs ys : List ℕ) → sum (xs ++ ys) ≡ sum xs + sum ys
sum-append [] ys = omega arith
sum-append (x ∷ xs) ys = omega (arith, sum-append xs ys)

sum-zeros : (n : ℕ) → sum (replicate n 0) ≡ 0
sum-zeros zero = refl
sum-zeros (suc n) = omega (arith, sum-zeros n)

sum-ones : (n : ℕ) → sum (replicate n 1) ≡ n
sum-ones zero = refl
sum-ones (suc n) = omega (arith, sum-ones n)

spans_marks :
    (k n : ℕ) (mask : List ℕ)
    → sum (replicate k 0 ++ (replicate (length (image_placeholder_ids n)) 1 ++ mask)) ≡ n + sum mask
spans_marks k n mask =
    let count = length-replicate n image_token_id in
    let m = length (image_placeholder_ids n) in
    let a = sum-append (replicate k 0) (replicate m 1 ++ mask) in
    let b = sum-append (replicate m 1) mask in omega (arith, sum-zeros k, sum-ones m)

-- The sequence begins with BOS, marks exactly its image slots, and has as many as are asked for.
pub record IsSequence (counts : List ℕ) (r : List ℕ × List ℕ) : Type 0 where
  pub masked : Masked r.0 r.1
  pub marks : sum r.1 ≡ sum counts

module _ (encode : Text → List ℕ) where
  token_spans-IsSequence :
      (text : Text) (texts : List Text) (counts : List ℕ)
      → length texts ≡ length counts
      → (r : List ℕ × List ℕ) × (token_spans encode text texts counts ≡ ok r) × IsSequence counts r
  unfolding token_spans
  token_spans-IsSequence text [] [] h =
      (_, refl, record { masked = Masked-only_text (encode text); marks = sum-zeros _ })
  token_spans-IsSequence text [] (n ∷ counts) h = absurd (omega arith)
  token_spans-IsSequence text (next ∷ texts) [] h = absurd (omega arith)
  token_spans-IsSequence text (next ∷ texts) (n ∷ counts) h =
      let (r, e, s) = token_spans-IsSequence next texts counts (omega arith) in
      let text_ids = encode text in
      let image_ids = image_placeholder_ids n in
      (
        (
          text_ids ++ (image_ids ++ r.0),
          replicate (length text_ids) 0 ++ (replicate (length image_ids) 1 ++ r.1),
        ),
        rw (e, token_spans),
        record {
          masked = Masked-text text_ids (Masked-image n s.masked);
          marks = spans_marks (length text_ids) n r.1 ∙ ap (◌+◌ n) s.marks;
        },
      )

  -- The sequence is built exactly where the prompt has one placeholder for each count; it then
  -- begins with BOS, has an image token at each marked position, and as many marks as the counts
  -- add up to.
  pub build_token_sequence-IsSequence :
      (prompt : Text) (counts : List ℕ)
      → ((count image_token prompt ≡ length counts)
          × ((r : List ℕ × List ℕ) × (build_token_sequence encode prompt counts
                ≡ ok (bos_token_id ∷ r.0, 0 ∷ r.1))
              × IsSequence counts r))
        ⊎ ((count image_token prompt ≢ length counts)
            × (build_token_sequence encode prompt counts ≡ err value_error))
  unfolding build_token_sequence
  build_token_sequence-IsSequence prompt counts =
      let pieces = split_marker 0 image_token prompt in
      elim (Bool-cases (count image_token prompt == length counts)) [
        | inr e ↦ inr (ground arith, rw (e, build_token_sequence))
        | inl e ↦
            let same : length pieces.1 ≡ length counts = ground arith in
            let (r, f, s) = token_spans-IsSequence pieces.0 pieces.1 counts same in
            inl (same, (r, rw (e, f, build_token_sequence), s))
      ]

-- The budget that a request starts with, as the caller gives it or as the length leaves it, and the
-- cap on it: a negative limit is refused, and otherwise the smaller of the two is kept; every other
-- field of the request stays as it was.
pub cap_max_new_tokens-bound :
    (request : PreparedRequest) (cap : ℕ)
    → (cap_max_new_tokens request (some (negsuc cap)) ≡ err value_error)
      × ((r : PreparedRequest) × (cap_max_new_tokens request (some (pos cap)) ≡ ok r)
          × (r.max_new_tokens ≤ cap)
          × (r.max_new_tokens ≤ request.max_new_tokens)
          × ((r.max_new_tokens ≡ cap) ⊎ (r.max_new_tokens ≡ request.max_new_tokens))
          × (r ≡ record request { max_new_tokens = r.max_new_tokens }))
unfolding cap_max_new_tokens
cap_max_new_tokens-bound request cap = elim (Bool-cases (leb request.max_new_tokens cap)) [
  | inl e ↦ (refl, (request, rw (e, cap_max_new_tokens), ground arith, omega arith, inr refl, refl))
  | inr e ↦ (
    refl,
    (
      record request { max_new_tokens = cap },
      rw (e, cap_max_new_tokens),
      omega arith,
      ground arith,
      inl refl,
      refl,
    ),
  )
]

-- Without a budget of the caller's own, prompt and budget together are the length asked for, or the
-- prompt alone exceeds it and nothing is generated.
pub max_new_tokens_from_total-total :
    (max_length prompt_tokens : ℕ)
    → (n : ℕ) × (max_new_tokens_from_total max_length prompt_tokens none ≡ ok n)
      × ((prompt_tokens + n ≡ max_length) ⊎ ((n ≡ 0) × (max_length < prompt_tokens)))
unfolding max_new_tokens_from_total
max_new_tokens_from_total-total max_length prompt_tokens =
    elim (Bool-cases (ltb max_length prompt_tokens)) [
      | inl e ↦ (0, rw (e, max_new_tokens_from_total), inr (refl, ground arith))
      | inr e ↦ (max_length - prompt_tokens, rw (e, max_new_tokens_from_total), inl (ground arith))
    ]
