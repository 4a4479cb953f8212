-- ===== src/Convert/Streams/Halves.antt =====
-- `_stream_bf16_to_f16` of src/unlimitedocr_c/convert.py: the same file for every size of a chunk.
use mathlib.Core.Path.{subst}
use unlimitedocr_c.Prelude.{
  ℕ, zero, suc, ◌+◌, ◌-◌, ◌*◌, ◌/◌, ◌%◌, ◌≤◌, ◌≡◌, refl, sym, ap, ◌∙◌, true, false, List, [], ◌∷◌,
  ◌++◌, take, drop, length, length-append, take-append, drop-append, append_assoc, append-nil, ◌==◌,
  Result, ok, err, Error, eof_error, ◌>>=◌, arith,
}
use unlimitedocr_c.Convert.Files.{File, write_at, Holds, extended}
use unlimitedocr_c.Convert.Streams.{
  Numpy, at_most, at_least, values_of, bf16_bytes_to_f32, f16_bytes, f16_loop, stream_bf16_to_f16,
}
use unlimitedocr_c.Convert.Streams.Chunks.{
  take-drop, length-take, rest_long, values_of-append, length-values_of,
}

module _ (np : Numpy) where
  f16_bytes-append :
      (vs ws : List np.Float) → f16_bytes np (vs ++ ws) ≡ f16_bytes np vs ++ f16_bytes np ws
  f16_bytes-append [] ws = refl
  f16_bytes-append (v ∷ vs) ws =
      ap (λ t. (np.to_f16 v).0 ∷ (np.to_f16 v).1 ∷ t) (f16_bytes-append vs ws)

  length-f16_bytes : (vs : List np.Float) → length (f16_bytes np vs) ≡ length vs * 2
  length-f16_bytes [] = refl
  length-f16_bytes (v ∷ vs) = omega (arith, length-f16_bytes vs)

  abbrev pub converted : List ℕ → List ℕ
  converted raw = f16_bytes np (values_of np raw)

  length-converted : (m : ℕ) (raw : List ℕ) → length raw ≡ m * 2 → length (converted raw) ≡ m * 2
  length-converted m raw h =
      length-f16_bytes (values_of np raw) ∙ ap (λ n. n * 2) (length-values_of np m raw h)

  f16_loop-step :
      (fuel c n m : ℕ) (front back : List ℕ) (at written : ℕ) (f : File)
      → length front ≡ at_most (suc n) c
      → length front ≡ suc m * 2
      → f16_loop np (suc fuel) c (suc n) (front ++ back) at written f
        ≡ f16_loop np fuel c
            (suc n - length front)
            back
            (at + length (converted front))
            (written + length (converted front))
            (write_at at (converted front) f)
  unfolding f16_loop bf16_bytes_to_f32
  f16_loop-step fuel c n m front back at written f long even =
      let taken : take (at_most (suc n) c) (front ++ back) ≡ front =
        subst (λ k. take k (front ++ back) ≡ front) long (take-append front back) in
      let some_bytes : (length front == 0) ≡ false = ground arith in
      let halved : (length front % 2 == 0) ≡ true = ground arith in
      let dropped = drop-append front back in
      ap
        (λ raw. elim (length raw == 0) as (λ _. Result Error (File × ℕ)) [
          | true ↦ err eof_error
          | false ↦ bf16_bytes_to_f32 np raw >>= λ values.
              f16_loop np fuel c (suc n - length raw) (drop (length raw) (front ++ back))
                (at + length (f16_bytes np values)) (written + length (f16_bytes np values))
                (write_at at (f16_bytes np values) f)
        ])
        taken
      ∙ rw (some_bytes, halved, dropped)

  f16_loop-Holds :
      (fuel c m : ℕ) (raw rest : List ℕ) (start : ℕ) (done : List ℕ) (written : ℕ) (f : File)
      → m * 2 ≤ fuel
      → 2 ≤ c
      → c % 2 ≡ 0
      → length raw ≡ m * 2
      → Holds f start done
      → (f' : File) × (f16_loop np fuel c (m * 2) (raw ++ rest) (start + length done) written f
          ≡ ok (f', written + m * 2))
        × Holds f' start (done ++ converted raw)
  unfolding f16_loop
  f16_loop-Holds fuel c zero [] rest start done written f enough some_bytes even long h =
      (f, ap (λ n. ok (f, n)) same_count, subst (Holds f start) (sym (append-nil done)) h)
    where
      same_count : written ≡ written + 0
      same_count = omega arith
  f16_loop-Holds fuel c zero (x ∷ raw) rest start done written f enough some_bytes even long h =
      absurd (omega arith)
  f16_loop-Holds zero c (suc m) raw rest start done written f enough some_bytes even long h =
      absurd (omega arith)
  f16_loop-Holds (suc fuel) c (suc m) raw rest start done written f enough some_bytes even long h =
      let batch = at_most (suc m * 2) c in
      let doubled : suc m * 2 ≡ suc (suc (m * 2)) = omega arith in
      let k : ℕ = batch / 2 - 1 in
      let batch_is : batch ≡ suc k * 2 = ground arith in
      let later : ℕ = suc m - suc k in
      let front = take batch raw in
      let back = drop batch raw in
      let whole = take-drop batch raw in
      let within : batch ≤ suc m * 2 = ground arith in
      let long_front : length front ≡ batch = length-take batch raw (omega arith) in
      let long_back : length back ≡ later * 2 = rest_long batch (later * 2) raw (omega arith) in
      let halves : length front ≡ suc k * 2 = omega arith in
      let size = length-converted (suc k) front halves in
      let here = length-append done (converted front) in
      let step =
        f16_loop-step fuel c (suc (m * 2)) k front (back ++ rest) (start + length done) written f
          (long_front ∙ ap (λ n. at_most n c) doubled) halves in
      let (f', e, k') =
        f16_loop-Holds fuel c later back rest start (done ++ converted front)
          (written + length (converted front)) (write_at (start + length done) (converted front) f)
          (omega arith) some_bytes even long_back
          (extended f start done (converted front) (start + length done) h refl) in
      let left : suc (suc (m * 2)) - length front ≡ later * 2 = omega arith in
      let place : start + length done + length (converted front)
          ≡ start + length (done ++ converted front) =
        omega arith in
      let total : written + length (converted front) + later * 2 ≡ written + suc m * 2 =
        omega arith in
      let bytes : converted front ++ converted back ≡ converted raw =
        sym (f16_bytes-append (values_of np front) (values_of np back))
        ∙ ap (f16_bytes np) (sym (values_of-append np (suc k) front back halves))
        ∙ ap converted whole in
      let together : raw ++ rest ≡ front ++ (back ++ rest) =
        ap (λ x. x ++ rest) (sym whole) ∙ append_assoc front back rest in
      let f1 = write_at (start + length done) (converted front) f in
      (
        f',
        ap (λ x. f16_loop np (suc fuel) c (suc m * 2) x (start + length done) written f) together
            ∙ (ap
                  (λ n.
                    f16_loop np (suc fuel) c n (front ++ (back ++ rest)) (start + length done)
                      written f)
                  doubled
                ∙ (step
                    ∙ (ap
                          (λ n.
                            f16_loop np fuel c n (back ++ rest)
                              (start + length done + length (converted front))
                              (written + length (converted front)) f1)
                          left
                        ∙ (ap
                              (λ n.
                                f16_loop np fuel c (later * 2) (back ++ rest) n
                                  (written + length (converted front)) f1)
                              place
                            ∙ (e ∙ ap (λ n. ok (f', n)) total))))),
        subst (Holds f' start)
            (append_assoc done (converted front) (converted back) ∙ ap (◌++◌ done) bytes) k',
      )

  -- Streaming an even number of bytes that are there returns, for every size of a chunk, as many bytes
  -- written, and the file holds at the position the fp16 of each value in turn.
  pub stream_bf16_to_f16-Holds :
      (m chunk_bytes at : ℕ) (raw rest : List ℕ) (f : File)
      → length raw ≡ m * 2
      → (f' : File) × (stream_bf16_to_f16 np (m * 2) chunk_bytes (raw ++ rest) at f
          ≡ ok (f', m * 2))
        × Holds f' at (converted raw)
  unfolding stream_bf16_to_f16
  stream_bf16_to_f16-Holds m chunk_bytes at raw rest f long =
      let c = at_least 2 (chunk_bytes - chunk_bytes % 2) in
      let some_bytes : 2 ≤ c = ground arith in
      let even : c % 2 ≡ 0 = ground arith in
      let (f', e, k) =
        f16_loop-Holds (m * 2) c m raw rest at [] 0 f (omega arith) some_bytes even long
          (record { inside = λ h. absurd (omega arith); same = λ i h. absurd (omega arith) }) in
      let halved : (m * 2 % 2 == 0) ≡ true = ground arith in
      let here : at ≡ at + 0 = omega arith in
      let count : 0 + m * 2 ≡ m * 2 = omega arith in
      (
        f',
        rw halved (
            ap (λ n. f16_loop np (m * 2) c (m * 2) (raw ++ rest) n 0 f) here
            ∙ (e ∙ ap (λ n. ok (f', n)) count)),
        k,
      )
