-- ===== src/Convert/Streams.antt =====
-- `_stream_bf16_to_f16`, `_stream_bf16_to_q8_0` and `_stream_bf16_to_q4_0` of
-- src/unlimitedocr_c/convert.py. What numpy computes on floats is a parameter. A source is the bytes behind
-- its position, of a regular file, whose reads are short only at its end; statistics are left out.
-- The row loops take fuel, one unit for each row, the loop to fp16 one for each byte.
pub mod Chunks
pub mod Laws
pub mod Quantized
pub mod Halves
use Prim.Native.Nat.{bit_or}
use unlimitedocr_c.Prelude.{
  ℕ, zero, suc, ◌+◌, ◌-◌, ◌*◌, ◌/◌, ◌%◌, Bool, true, false, not, ◌&&◌, ◌||◌, List, [], ◌∷◌, ◌++◌,
  map, take, drop, length, leb, ltb, ◌==◌, if◌then◌else◌, Result, ok, err, Error, value_error,
  eof_error, io_error, zero_division_error, out_of_fuel, ◌>>=◌, ◌>>◌, raise_if,
}
use unlimitedocr_c.Prelude.Int.{ℤ, pos, negsuc}
use unlimitedocr_c.Convert.Types.{TensorPlan, tensor_q8_0, tensor_q4_0}
use unlimitedocr_c.Convert.Files.{File, write_at}

-- Arithmetic on float32, and its conversions. Bytes are little-endian pairs.
pub record Numpy : Type 1 where
  pub Float : Type 0
  pub one : Float
  pub q8_max : Float
  pub q4_min : Float
  pub from_bf16 : ℕ → ℕ → Float
  pub to_f16 : Float → ℕ × ℕ
  pub from_f16 : ℕ × ℕ → Float
  pub is_finite : Float → Bool
  pub is_zero : Float → Bool
  pub absolute : Float → Float
  pub less : Float → Float → Bool
  pub divide : Float → Float → Float
  -- `np.clip(np.rint(x), low, high)` as an integer.
  pub rint_clip : (low high : ℤ) → Float → ℤ

abbrev pub at_most : ℕ → ℕ → ℕ
at_most a b = if leb a b then a else b

-- `max(least, n)`
abbrev pub at_least : ℕ → ℕ → ℕ
at_least least n = if leb least n then n else least

-- `tobytes` of an int8.
abbrev pub int8_byte : ℤ → ℕ
int8_byte (pos n) = n
int8_byte (negsuc n) = 255 - n

-- `q + 8`, of a level from -8 to 7.
abbrev pub biased : ℤ → ℕ
biased (pos n) = n + 8
biased (negsuc n) = 7 - n

-- `low | (high << 4)`, as a byte.
abbrev pub nibbles : List ℕ → List ℕ → List ℕ
nibbles [] highs = []
nibbles (low ∷ lows) [] = []
nibbles (low ∷ lows) (high ∷ highs) = bit_or low (high * 16) % 256 ∷ nibbles lows highs

-- `count` lists of `size` elements.
abbrev pub chunks {ℓ} : {A : Type ℓ} → (size count : ℕ) → List A → List (List A)
chunks size zero xs = []
chunks size (suc count) xs = take size xs ∷ chunks size count (drop size xs)

module _ (np : Numpy) where
  open np use {
    Float, one, q8_max, q4_min, from_bf16, to_f16, from_f16, is_finite, is_zero, absolute, less,
    divide, rint_clip,
  }

  -- The values of an even number of bytes.
  abbrev pub values_of : List ℕ → List Float
  values_of [] = []
  values_of (low ∷ []) = []
  values_of (low ∷ high ∷ raw) = from_bf16 low high ∷ values_of raw

  unfoldable pub bf16_bytes_to_f32 : List ℕ → Result Error (List Float)
  bf16_bytes_to_f32 raw = raise_if (not (length raw % 2 == 0)) value_error >> ok (values_of raw)

  -- `astype("<f2").tobytes()`
  abbrev pub f16_bytes : List Float → List ℕ
  f16_bytes [] = []
  f16_bytes (v ∷ values) = (to_f16 v).0 ∷ (to_f16 v).1 ∷ f16_bytes values

  abbrev pub all_finite : List Float → Bool
  all_finite [] = true
  all_finite (v ∷ values) = is_finite v && all_finite values

  -- The loop to fp16: what is left, the position in the file, and the bytes written.
  unfoldable pub f16_loop :
      ℕ → (chunk_bytes remaining : ℕ) → List ℕ → ℕ → ℕ → File → Result Error (File × ℕ)
  unfolding bf16_bytes_to_f32
  f16_loop fuel chunk_bytes zero src at bytes_written f = ok (f, bytes_written)
  f16_loop zero chunk_bytes (suc n) src at bytes_written f = err out_of_fuel
  f16_loop (suc fuel) chunk_bytes (suc n) src at bytes_written f =
      let raw = take (at_most (suc n) chunk_bytes) src in
      elim (length raw == 0) [
        | true ↦ err eof_error
        | false ↦ bf16_bytes_to_f32 raw >>= λ values.
            f16_loop fuel chunk_bytes (suc n - length raw) (drop (length raw) src)
              (at + length (f16_bytes values)) (bytes_written + length (f16_bytes values))
              (write_at at (f16_bytes values) f)
      ]

  unfoldable pub stream_bf16_to_f16 :
      (source_bytes chunk_bytes : ℕ) → List ℕ → ℕ → File → Result Error (File × ℕ)
  unfolding f16_loop
  stream_bf16_to_f16 source_bytes chunk_bytes src at f =
      raise_if (not (source_bytes % 2 == 0)) value_error
      >> f16_loop source_bytes (at_least 2 (chunk_bytes - chunk_bytes % 2)) source_bytes src at 0 f

  -- `np.max`, of a list with a first element.
  abbrev pub maximum : Float → List Float → Float
  maximum best [] = best
  maximum best (v ∷ values) = maximum (if less best v then v else best) values

  -- A group of values as int8 levels and an fp16 scale.
  abbrev pub q8_scale : List Float → Float
  q8_scale [] = one
  q8_scale (v ∷ values) =
      let max_abs = maximum (absolute v) (map absolute values) in
      if is_zero max_abs then one else divide max_abs q8_max

  unfoldable pub q8_group : List Float → List ℕ × List ℕ
  q8_group group =
      let scale = q8_scale group in
      (
        map (λ v. int8_byte (rint_clip (negsuc 126) (pos 127) (divide v scale))) group,
        f16_bytes (scale ∷ []),
      )

  -- The first value with the greatest magnitude.
  abbrev pub signed_max : Float → List Float → Float
  signed_max best [] = best
  signed_max best (v ∷ values) =
      signed_max (if less (absolute best) (absolute v) then v else best) values

  abbrev pub q4_scale : List Float → ℕ × ℕ
  q4_scale [] = to_f16 one
  q4_scale (v ∷ values) = to_f16 (divide (signed_max v values) q4_min)

  abbrev pub q4_levels : List Float → List ℕ
  q4_levels group =
      let scale = from_f16 (q4_scale group) in
      let safe = if is_zero scale then one else scale in
      map (λ v. biased (rint_clip (negsuc 7) (pos 7) (divide v safe))) group

  -- A group of values as packed levels and an fp16 scale: the first half of the group in the low
  -- nibbles, the second in the high ones.
  unfoldable pub q4_group : ℕ → List Float → List ℕ × List ℕ
  q4_group group_size group = (
    nibbles (take (group_size / 2) (q4_levels group)) (drop (group_size / 2) (q4_levels group)),
    (q4_scale group).0 ∷ (q4_scale group).1 ∷ [],
  )

  -- The bytes of the groups, one after the other.
  abbrev pub weights : (List Float → List ℕ × List ℕ) → List (List Float) → List ℕ
  weights quantize [] = []
  weights quantize (g ∷ groups) = (quantize g).0 ++ weights quantize groups

  abbrev pub scales : (List Float → List ℕ × List ℕ) → List (List Float) → List ℕ
  scales quantize [] = []
  scales quantize (g ∷ groups) = (quantize g).1 ++ scales quantize groups

  -- What a loop over rows leaves: the file, both positions and the bytes written.
  pub record Progress : Type 0 where
    pub file : File
    pub qweight_pos : ℕ
    pub qscale_pos : ℕ
    pub bytes_written : ℕ

  module _ (quantize : List Float → List ℕ × List ℕ) (cols group_size rows_per_chunk : ℕ) where
    -- The groups of some rows.
    abbrev pub groups_of : ℕ → List ℕ → List (List Float)
    groups_of rows raw = chunks group_size (rows * (cols / group_size)) (values_of raw)

    -- A batch of rows, quantized and written.
    abbrev pub put_groups : List (List Float) → Progress → Progress
    put_groups groups p = record {
      file =
          write_at p.qscale_pos (scales quantize groups)
            (write_at p.qweight_pos (weights quantize groups) p.file);
      qweight_pos = p.qweight_pos + length (weights quantize groups);
      qscale_pos = p.qscale_pos + length (scales quantize groups);
      bytes_written =
          p.bytes_written + length (weights quantize groups) + length (scales quantize groups);
    }

    unfoldable pub row_loop : ℕ → (rows_left : ℕ) → List ℕ → Progress → Result Error Progress
    unfolding bf16_bytes_to_f32
    row_loop fuel zero src p = ok p
    row_loop zero (suc n) src p = err out_of_fuel
    row_loop (suc fuel) (suc n) src p =
        let batch_rows = at_most (suc n) rows_per_chunk in
        let raw = take (batch_rows * (cols * 2)) src in
        raise_if (not (length raw == batch_rows * (cols * 2))) eof_error
        >> (bf16_bytes_to_f32 raw >>= λ values.
            raise_if (not (all_finite values)) value_error
            >> row_loop fuel (suc n - batch_rows) (drop (length raw) src)
                (put_groups (groups_of batch_rows raw) p))

  -- Both functions behind the check of the type: `half` is whether `cols % 2` is looked at too.
  unfoldable pub stream_rows :
      (List Float → List ℕ × List ℕ)
      → (half : Bool) → TensorPlan
      → (chunk_source_bytes : ℕ) → List ℕ
      → File
      → Result Error (File × ℕ)
  unfolding row_loop
  stream_rows quantize half t chunk_source_bytes src f = elim t.shape [
    | (rows ∷ cols ∷ []) ↦
        raise_if
          (not (t.block_size == 64) || (not (cols % 64 == 0) || (half && not (cols % 2 == 0))))
          value_error
        >> (raise_if (not (t.source_bytes == rows * (cols * 2))) value_error
            >> (raise_if (cols * 2 == 0) zero_division_error
                >> (row_loop quantize cols 64 (at_least 1 (chunk_source_bytes / (cols * 2))) rows
                      rows src
                      (record {
                        file = f;
                        qweight_pos = t.payload_offset;
                        qscale_pos = t.scale_offset;
                        bytes_written = 0;
                      })
                    >>= λ p.
                        raise_if (not (p.qweight_pos == t.payload_offset + t.output_bytes)) io_error
                        >> (raise_if (not (p.qscale_pos == t.scale_offset + t.scale_size)) io_error
                            >> ok (p.file, p.bytes_written)))))
    | _ ↦ err value_error
  ]

  unfoldable pub stream_bf16_to_q8_0 : TensorPlan → ℕ → List ℕ → File → Result Error (File × ℕ)
  unfolding stream_rows
  stream_bf16_to_q8_0 t chunk_source_bytes src f =
      raise_if (not (t.qtype_id == tensor_q8_0)) value_error
      >> stream_rows q8_group false t chunk_source_bytes src f

  unfoldable pub stream_bf16_to_q4_0 : TensorPlan → ℕ → List ℕ → File → Result Error (File × ℕ)
  unfolding stream_rows
  stream_bf16_to_q4_0 t chunk_source_bytes src f =
      raise_if (not (t.qtype_id == tensor_q4_0)) value_error
      >> stream_rows (q4_group 64) true t chunk_source_bytes src f
