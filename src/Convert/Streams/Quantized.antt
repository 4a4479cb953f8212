-- ===== src/Convert/Streams/Quantized.antt =====
-- `_stream_bf16_to_q8_0` and `_stream_bf16_to_q4_0` of src/unlimitedocr_c/convert.py as a whole.
use unlimitedocr_c.Prelude.{
  ℕ, zero, suc, ◌+◌, ◌*◌, ◌/◌, ◌%◌, ◌≤◌, ◌≡◌, refl, sym, ap, ◌∙◌, Bool, true, false, not, ◌&&◌,
  ◌||◌, List, [], ◌∷◌, ◌++◌, take, drop, length, length-append, length-map, ◌==◌, ok, arith,
}
use unlimitedocr_c.Convert.Types.{TensorPlan, tensor_q8_0, tensor_q4_0}
use unlimitedocr_c.Convert.Files.{File, Holds}
use unlimitedocr_c.Convert.Streams.{
  Numpy, at_least, chunks, values_of, all_finite, weights, scales, Progress, nibbles, q4_levels,
  q8_group, q4_group, stream_rows, stream_bf16_to_q8_0, stream_bf16_to_q4_0,
}
use unlimitedocr_c.Convert.Streams.Chunks.{length-take, rest_long, length-values_of}
use unlimitedocr_c.Convert.Streams.Laws.{row_loop-Writes}

module _ (np : Numpy) where
  -- The groups of a whole tensor.
  abbrev pub tensor_groups : (rows cols : ℕ) → List ℕ → List (List np.Float)
  tensor_groups rows cols raw = chunks 64 (rows * (cols / 64)) (values_of np raw)

  -- A quantizer gives `size` bytes of weights and two of scales for each group.
  abbrev Sized : ℕ → (List np.Float → List ℕ × List ℕ) → Type 0
  Sized size quantize =
      (g : List np.Float)
      → length g ≡ 64
      → (length (quantize g).0 ≡ size) × (length (quantize g).1 ≡ 2)

  length-weights :
      (size : ℕ) (quantize : List np.Float → List ℕ × List ℕ) (count : ℕ) (xs : List np.Float)
      → Sized size quantize
      → length xs ≡ count * 64
      → (length (weights np quantize (chunks 64 count xs)) ≡ count * size)
        × (length (scales np quantize (chunks 64 count xs)) ≡ count * 2)
  length-weights size quantize zero xs sized h = (omega arith, omega arith)
  length-weights size quantize (suc count) xs sized h =
      let g = take 64 xs in
      let later = chunks 64 count (drop 64 xs) in
      let long : length xs ≡ 64 + count * 64 = omega arith in
      let (w, s) = sized g (length-take 64 xs (omega arith)) in
      let (ws, ss) =
        length-weights size quantize count (drop 64 xs) sized (rest_long 64 (count * 64) xs long) in
      (
        length-append (quantize g).0 (weights np quantize later) ∙ grind arith,
        length-append (quantize g).1 (scales np quantize later) ∙ grind arith,
      )

  -- A tensor of whole groups as it is planned, whose scales lie behind its weights.
  pub record IsTensor (t : TensorPlan) (rows cols size : ℕ) : Type 0 where
    pub shape : t.shape ≡ rows ∷ cols ∷ []
    pub block : t.block_size ≡ 64
    pub whole : cols % 64 ≡ 0
    pub some_cols : 1 ≤ cols
    pub source : t.source_bytes ≡ rows * (cols * 2)
    pub output : t.output_bytes ≡ rows * (cols / 64) * size
    pub scale : t.scale_size ≡ rows * (cols / 64) * 2
    pub behind : t.payload_offset + t.output_bytes ≤ t.scale_offset

  -- What a tensor's weights and scales are in a file.
  pub record Quantized (quantize : List np.Float → List ℕ × List ℕ) (t : TensorPlan) (rows cols : ℕ)
      (raw : List ℕ) (f : File) : Type 0 where
    pub weights_stand : Holds f t.payload_offset (weights np quantize (tensor_groups rows cols raw))
    pub scales_stand : Holds f t.scale_offset (scales np quantize (tensor_groups rows cols raw))

  eq_true : (a b : ℕ) → a ≡ b → (a == b) ≡ true
  eq_true a b h = ground arith

  nothing : (f : File) (offset : ℕ) → Holds f offset []
  nothing f offset = record {
    inside = λ k. absurd (omega arith);
    same = λ i k. absurd (omega arith);
  }

  unhalved : (half : Bool) → (half && false) ≡ false
  unhalved true = refl
  unhalved false = refl

  rows-Quantized :
      (quantize : List np.Float → List ℕ × List ℕ) (half : Bool) (t : TensorPlan)
      (rows cols size chunk_source_bytes : ℕ) (raw rest : List ℕ) (f : File)
      → Sized size quantize
      → IsTensor t rows cols size
      → length raw ≡ t.source_bytes
      → all_finite np (values_of np raw) ≡ true
      → (f' : File) × (stream_rows np quantize half t chunk_source_bytes (raw ++ rest) f
          ≡ ok (f', t.output_bytes + t.scale_size))
        × Quantized quantize t rows cols raw f'
  unfolding stream_rows
  rows-Quantized quantize half t rows cols size csb raw rest f sized h long finite =
      let shape = h.shape in
      let block = h.block in
      let whole = h.whole in
      let some_cols = h.some_cols in
      let source = h.source in
      let output = h.output in
      let scale = h.scale in
      let behind = h.behind in
      let per = at_least 1 (csb / (cols * 2)) in
      let some_rows : 1 ≤ per = ground arith in
      let groups : cols / 64 * 64 ≡ cols = omega arith in
      let start : Progress np = record {
        file = f;
        qweight_pos = t.payload_offset;
        qscale_pos = t.scale_offset;
        bytes_written = 0;
      } in
      let all_rows : length raw ≡ rows * (cols * 2) = long ∙ source in
      let count : length (values_of np raw) ≡ rows * (cols / 64) * 64 =
        length-values_of np (rows * cols) raw (grind arith)
        ∙ ap (◌*◌ rows) (sym groups)
        ∙ grind arith in
      let (wl, sl) =
        length-weights size quantize (rows * (cols / 64)) (values_of np raw) sized count in
      let (p', e, k) =
        row_loop-Writes np quantize cols per groups some_rows rows rows raw rest start
          t.payload_offset t.scale_offset [] [] (omega arith) all_rows finite
          (record {
            weights_stand = nothing f t.payload_offset;
            scales_stand = nothing f t.scale_offset;
            qweight_at = omega arith;
            qscale_at = omega arith;
            counted = omega arith;
          })
          (omega arith) in
      let at_w = k.qweight_at in
      let at_s = k.qscale_at in
      let counted = k.counted in
      let halves : cols % 2 ≡ 0 = omega arith in
      let even = eq_true (cols % 2) (0) halves in
      let blocks = eq_true (t.block_size) (64) block in
      let wholes = eq_true (cols % 64) (0) whole in
      let grouped : (not (t.block_size == 64)
            || (not (cols % 64 == 0) || (half && not (cols % 2 == 0))))
          ≡ false =
        rw (blocks, wholes, even) (unhalved half) in
      let sourced = eq_true (t.source_bytes) (rows * (cols * 2)) source in
      let divides : (cols * 2 == 0) ≡ false = ground arith in
      let end_w = eq_true (p'.qweight_pos) (t.payload_offset + t.output_bytes) (omega arith) in
      let end_s = eq_true (p'.qscale_pos) (t.scale_offset + t.scale_size) (omega arith) in
      let bytes : p'.bytes_written ≡ t.output_bytes + t.scale_size = omega arith in
      (
        p'.file,
        rw shape (
            rw (grouped, sourced, divides)
              (rw e (rw (end_w, end_s) (ap (λ n. ok (p'.file, n)) bytes)))),
        record { weights_stand = k.weights_stand; scales_stand = k.scales_stand },
      )

  q8_group-Sized : Sized 64 (q8_group np)
  unfolding q8_group
  q8_group-Sized g h = (length-map g _ ∙ h, refl)

  length-nibbles : (xs ys : List ℕ) → length xs ≡ length ys → length (nibbles xs ys) ≡ length xs
  length-nibbles [] ys h = refl
  length-nibbles (x ∷ xs) [] h = absurd (omega arith)
  length-nibbles (x ∷ xs) (y ∷ ys) h = ap suc (length-nibbles xs ys (omega arith))

  q4_group-Sized : Sized 32 (q4_group np 64)
  unfolding q4_group
  q4_group-Sized g h =
      let levels : length (q4_levels np g) ≡ 32 + 32 = length-map g _ ∙ h in
      let low = length-take 32 (q4_levels np g) (omega arith) in
      let high = rest_long 32 32 (q4_levels np g) levels in
      (
        length-nibbles (take 32 (q4_levels np g)) (drop 32 (q4_levels np g)) (low ∙ sym high) ∙ low,
        refl,
      )

  -- Streaming a planned Q8_0 tensor of finite values returns, for every size of a chunk, all of its
  -- bytes written: the weights of its groups at the payload's offset and their scales at the scales',
  -- as if the tensor were quantized as a whole.
  pub stream_bf16_to_q8_0-Quantized :
      (t : TensorPlan) (rows cols chunk_source_bytes : ℕ) (raw rest : List ℕ) (f : File)
      → t.qtype_id ≡ tensor_q8_0
      → IsTensor t rows cols 64
      → length raw ≡ t.source_bytes
      → all_finite np (values_of np raw) ≡ true
      → (f' : File) × (stream_bf16_to_q8_0 np t chunk_source_bytes (raw ++ rest) f
          ≡ ok (f', t.output_bytes + t.scale_size))
        × Quantized (q8_group np) t rows cols raw f'
  unfolding stream_bf16_to_q8_0
  stream_bf16_to_q8_0-Quantized t rows cols csb raw rest f q h long finite =
      let (f', e, k) =
        rows-Quantized (q8_group np) false t rows cols 64 csb raw rest f q8_group-Sized h long
          finite in
      let known = eq_true t.qtype_id tensor_q8_0 q in (f', rw known e, k)

  -- The same of a Q4_0 tensor, whose levels are packed in pairs.
  pub stream_bf16_to_q4_0-Quantized :
      (t : TensorPlan) (rows cols chunk_source_bytes : ℕ) (raw rest : List ℕ) (f : File)
      → t.qtype_id ≡ tensor_q4_0
      → IsTensor t rows cols 32
      → length raw ≡ t.source_bytes
      → all_finite np (values_of np raw) ≡ true
      → (f' : File) × (stream_bf16_to_q4_0 np t chunk_source_bytes (raw ++ rest) f
          ≡ ok (f', t.output_bytes + t.scale_size))
        × Quantized (q4_group np 64) t rows cols raw f'
  unfolding stream_bf16_to_q4_0
  stream_bf16_to_q4_0-Quantized t rows cols csb raw rest f q h long finite =
      let (f', e, k) =
        rows-Quantized (q4_group np 64) true t rows cols 32 csb raw rest f q4_group-Sized h long
          finite in
      let known = eq_true t.qtype_id tensor_q4_0 q in (f', rw known e, k)
