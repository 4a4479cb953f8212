-- ===== src/Convert/Streams/Laws.antt =====
-- The row loops of src/unlimitedocr_c/convert.py write what quantizing a whole tensor gives, whatever the
-- size of a chunk.
use mathlib.Core.Path.{subst}
use unlimitedocr_c.Prelude.{
  ℕ, zero, suc, ◌+◌, ◌-◌, ◌*◌, ◌/◌, ◌%◌, ◌≤◌, ◌≡◌, inl, inr, refl, sym, ap, ◌∙◌, true, List, [],
  ◌++◌, take, drop, length, length-append, take-append, drop-append, append_assoc, append-nil, ◌==◌,
  ok, arith,
}
use unlimitedocr_c.Convert.Files.{write_at, Holds, kept, extended}
use unlimitedocr_c.Convert.Streams.{
  Numpy, at_most, chunks, values_of, bf16_bytes_to_f32, all_finite, weights, scales, Progress,
  groups_of, put_groups, row_loop,
}
use unlimitedocr_c.Convert.Streams.Chunks.{
  take-drop, length-take, rest_long, chunks-append, values_of-append, length-values_of,
  weights-append, scales-append, all_finite-append,
}

module _ (np : Numpy) (quantize : List np.Float → List ℕ × List ℕ) (cols rows_per_chunk : ℕ)
    (whole_groups : cols / 64 * 64 ≡ cols) (some_rows : 1 ≤ rows_per_chunk) where
  -- The bytes written so far, from two offsets on.
  pub record Writes (at_weights at_scales : ℕ) (w s : List ℕ) (p : Progress np) : Type 0 where
    pub weights_stand : Holds p.file at_weights w
    pub scales_stand : Holds p.file at_scales s
    pub qweight_at : p.qweight_pos ≡ at_weights + length w
    pub qscale_at : p.qscale_pos ≡ at_scales + length s
    pub counted : p.bytes_written ≡ length w + length s

  put_groups-Writes :
      (groups : List (List np.Float)) (a b : ℕ) (w s : List ℕ) (p : Progress np)
      → Writes a b w s p
      → a + length w + length (weights np quantize groups) ≤ b
      → Writes a b
          (w ++ weights np quantize groups)
          (s ++ scales np quantize groups)
          (put_groups np quantize cols 64 rows_per_chunk groups p)
  put_groups-Writes groups a b w s p k room =
      let ws = weights np quantize groups in
      let ss = scales np quantize groups in
      let f = write_at p.qweight_pos ws p.file in
      let at_w = k.qweight_at in
      let at_s = k.qscale_at in
      let n = k.counted in
      let long_w = length-append w ws in
      let long_s = length-append s ss in
      record {
        weights_stand =
            kept f a (w ++ ws) p.qscale_pos ss
              (extended p.file a w ws p.qweight_pos k.weights_stand at_w) (inl (omega arith));
        scales_stand =
            extended f b s ss p.qscale_pos
              (kept p.file b s p.qweight_pos ws k.scales_stand (inr (omega arith))) at_s;
        qweight_at = omega arith;
        qscale_at = omega arith;
        counted = omega arith;
      }

  -- The groups of some rows, and of the rows behind them.
  groups_of-append :
      (b k : ℕ) (front back : List ℕ)
      → length front ≡ b * (cols * 2)
      → groups_of np quantize cols 64 rows_per_chunk (b + k) (front ++ back)
        ≡ groups_of np quantize cols 64 rows_per_chunk b front
          ++ groups_of np quantize cols 64 rows_per_chunk k back
  groups_of-append b k front back h =
      let per = cols / 64 in
      let halves : length front ≡ b * cols * 2 = grind arith in
      let long : length (values_of np front) ≡ b * per * 64 =
        length-values_of np (b * cols) front halves ∙ ap (◌*◌ b) (sym whole_groups) ∙ grind arith in
      let count : (b + k) * per ≡ b * per + k * per = grind arith in
      ap (λ v. chunks 64 ((b + k) * per) v) (values_of-append np (b * cols) front back halves)
      ∙ (ap (λ n. chunks 64 n (values_of np front ++ values_of np back)) count
          ∙ chunks-append 64 (b * per) (k * per) (values_of np front) (values_of np back) long)

  abbrev groups : ℕ → List ℕ → List (List np.Float)
  groups = groups_of np quantize cols 64 rows_per_chunk

  groups-zero : (raw : List ℕ) → groups 0 raw ≡ []
  groups-zero raw =
      let e : 0 * (cols / 64) ≡ 0 = omega arith in ap (λ n. chunks 64 n (values_of np raw)) e

  double_even : (m : ℕ) → (m * 2 % 2 == 0) ≡ true
  double_even m = ground arith

  halves : (rows long : ℕ) → long ≡ rows * (cols * 2) → long ≡ rows * cols * 2
  halves rows long h = grind arith

  -- A batch that is there, and finite, is written, and the loop goes on behind it.
  row_loop-step :
      (fuel n : ℕ) (front back : List ℕ) (p : Progress np)
      → length front ≡ at_most (suc n) rows_per_chunk * (cols * 2)
      → all_finite np (values_of np front) ≡ true
      → row_loop np quantize cols 64 rows_per_chunk (suc fuel) (suc n) (front ++ back) p
        ≡ row_loop np quantize cols 64 rows_per_chunk fuel
            (suc n - at_most (suc n) rows_per_chunk)
            back
            (put_groups np quantize cols 64 rows_per_chunk
              (groups (at_most (suc n) rows_per_chunk) front)
              p)
  unfolding row_loop bf16_bytes_to_f32
  row_loop-step fuel n front back p long finite =
      let batch = at_most (suc n) rows_per_chunk in
      let taken : take (batch * (cols * 2)) (front ++ back) ≡ front =
        subst (λ k. take k (front ++ back) ≡ front) long (take-append front back) in
      let dropped = drop-append front back in
      let counted : (length front == batch * (cols * 2)) ≡ true = ground arith in
      let even : (length front % 2 == 0) ≡ true =
        subst (λ m. (m % 2 == 0) ≡ true) (sym (halves batch (length front) long))
          (double_even (batch * cols)) in
      rw taken (rw (counted, even, finite, dropped))

  pub row_loop-Writes :
      (fuel n : ℕ) (raw rest : List ℕ) (p : Progress np) (a b : ℕ) (w s : List ℕ)
      → n ≤ fuel
      → length raw ≡ n * (cols * 2)
      → all_finite np (values_of np raw) ≡ true
      → Writes a b w s p
      → a + length w + length (weights np quantize (groups n raw)) ≤ b
      → (p' : Progress np) × (row_loop np quantize cols 64 rows_per_chunk fuel n (raw ++ rest) p
          ≡ ok p')
        × Writes a b
            (w ++ weights np quantize (groups n raw))
            (s ++ scales np quantize (groups n raw))
            p'
  unfolding row_loop
  row_loop-Writes fuel zero raw rest p a b w s enough long finite k room =
      let same_w : w ++ [] ≡ w ++ weights np quantize (groups 0 raw) =
        ap (λ g. w ++ weights np quantize g) (sym (groups-zero raw)) in
      let same_s : s ++ [] ≡ s ++ scales np quantize (groups 0 raw) =
        ap (λ g. s ++ scales np quantize g) (sym (groups-zero raw)) in
      (
        p,
        refl,
        subst (λ v. Writes a b v (s ++ scales np quantize (groups 0 raw)) p)
            (sym (append-nil w) ∙ same_w)
            (subst (λ v. Writes a b w v p) (sym (append-nil s) ∙ same_s) k),
      )
  row_loop-Writes zero (suc n) raw rest p a b w s enough long finite k room = absurd (omega arith)
  row_loop-Writes (suc fuel) (suc n) raw rest p a b w s enough long finite k room =
      let batch = at_most (suc n) rows_per_chunk in
      let later = suc n - batch in
      let some_batch : 1 ≤ batch = ground arith in
      let within : batch ≤ suc n = ground arith in
      let front = take (batch * (cols * 2)) raw in
      let back = drop (batch * (cols * 2)) raw in
      let whole = take-drop (batch * (cols * 2)) raw in
      let rows : suc n ≡ batch + later = omega arith in
      let split : length raw ≡ batch * (cols * 2) + later * (cols * 2) =
        long ∙ ap (λ m. m * (cols * 2)) rows ∙ grind arith in
      let long_front = length-take (batch * (cols * 2)) raw (omega arith) in
      let long_back = rest_long (batch * (cols * 2)) (later * (cols * 2)) raw split in
      let (finite_front, finite_back) =
        all_finite-append np (values_of np front) (values_of np back) (
          sym (
            ap (all_finite np) (
              ap (values_of np) (sym whole)
              ∙ values_of-append np (batch * cols) front back
                  (halves batch (length front) long_front)))
          ∙ finite) in
      let split_groups : groups (suc n) raw ≡ groups batch front ++ groups later back =
        ap (λ m. groups m raw) rows
        ∙ (ap (groups (batch + later)) (sym whole)
            ∙ groups_of-append batch later front back long_front) in
      let wf = weights np quantize (groups batch front) in
      let wb = weights np quantize (groups later back) in
      let sf = scales np quantize (groups batch front) in
      let sb = scales np quantize (groups later back) in
      let ws : weights np quantize (groups (suc n) raw) ≡ wf ++ wb =
        ap (weights np quantize) split_groups
        ∙ weights-append np quantize (groups batch front) (groups later back) in
      let ss : scales np quantize (groups (suc n) raw) ≡ sf ++ sb =
        ap (scales np quantize) split_groups
        ∙ scales-append np quantize (groups batch front) (groups later back) in
      let total : length (weights np quantize (groups (suc n) raw)) ≡ length wf + length wb =
        ap length ws ∙ length-append wf wb in
      let long_w = length-append w wf in
      let k' = put_groups-Writes (groups batch front) a b w s p k (omega arith) in
      let (p', e, done) =
        row_loop-Writes fuel later back rest
          (put_groups np quantize cols 64 rows_per_chunk (groups batch front) p) a b (w ++ wf)
          (s ++ sf) (omega arith) long_back finite_back k' (omega arith) in
      let together : raw ++ rest ≡ front ++ (back ++ rest) =
        ap (λ x. x ++ rest) (sym whole) ∙ append_assoc front back rest in
      (
        p',
        ap (λ x. row_loop np quantize cols 64 rows_per_chunk (suc fuel) (suc n) x p) together
            ∙ (row_loop-step fuel n front (back ++ rest) p long_front finite_front ∙ e),
        subst (λ v. Writes a b v (s ++ scales np quantize (groups (suc n) raw)) p')
            (append_assoc w wf wb ∙ ap (◌++◌ w) (sym ws))
            (subst (λ v. Writes a b ((w ++ wf) ++ wb) v p')
              (append_assoc s sf sb ∙ ap (◌++◌ s) (sym ss)) done),
      )
