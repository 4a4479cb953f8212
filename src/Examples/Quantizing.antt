-- ===== src/Examples/Quantizing.antt =====
-- Tensors of three rows of 64, streamed one row at a time, with floats as whole numbers.
use unlimitedocr_c.Prelude.{
  ℕ, ◌+◌, ◌*◌, ◌/◌, ◌%◌, ◌≡◌, refl, true, List, ◌++◌, replicate, ltb, ◌==◌, ok, arith,
}
use unlimitedocr_c.Prelude.Int.{pos}
use unlimitedocr_c.Convert.Types.{TensorPlan, tensor_q4_0, usage_runtime}
use unlimitedocr_c.Convert.Files.{File, Holds, empty}
use unlimitedocr_c.Convert.Streams.{
  Numpy, q8_group, q4_group, stream_bf16_to_q8_0, stream_bf16_to_q4_0, stream_bf16_to_f16,
}
use unlimitedocr_c.Convert.Streams.Quantized.{
  IsTensor, Quantized, stream_bf16_to_q8_0-Quantized, stream_bf16_to_q4_0-Quantized,
}
use unlimitedocr_c.Convert.Streams.Halves.{converted, stream_bf16_to_f16-Holds}
use unlimitedocr_c.Examples.Converting.{expert_plan}

abbrev whole_numbers : Numpy
whole_numbers = record {
  Float = ℕ;
  one = 1;
  q8_max = 127;
  q4_min = 8;
  from_bf16 = λ low high. low + 256 * high;
  to_f16 = λ v. (v % 256, v / 256 % 256);
  from_f16 = λ b. b.0 + 256 * b.1;
  is_finite = λ v. true;
  is_zero = λ v. v == 0;
  absolute = λ v. v;
  less = ltb;
  divide = λ a b. a / b;
  rint_clip = λ low high v. pos (v % 8);
}

abbrev q8_plan : TensorPlan
q8_plan = record (expert_plan 7 usage_runtime) {
  output_bytes = 192;
  payload_offset = 4096;
  scale_offset = 4288;
}

abbrev q4_plan : TensorPlan
q4_plan = record q8_plan { qtype_id = tensor_q4_0; output_bytes = 96 }

abbrev raw : List ℕ
raw = replicate 384 1

q8_plan-IsTensor : IsTensor whole_numbers q8_plan 3 64 64
q8_plan-IsTensor = record {
  shape = refl;
  block = refl;
  whole = refl;
  some_cols = omega arith;
  source = refl;
  output = refl;
  scale = refl;
  behind = omega arith;
}

q4_plan-IsTensor : IsTensor whole_numbers q4_plan 3 64 32
q4_plan-IsTensor = record {
  shape = refl;
  block = refl;
  whole = refl;
  some_cols = omega arith;
  source = refl;
  output = refl;
  scale = refl;
  behind = omega arith;
}

stream_bf16_to_q8_0-Quantized_example :
    (f' : File) × (stream_bf16_to_q8_0 whole_numbers q8_plan 128 (raw ++ raw) empty ≡ ok (f', 198))
    × Quantized whole_numbers (q8_group whole_numbers) q8_plan 3 64 raw f'
stream_bf16_to_q8_0-Quantized_example =
    stream_bf16_to_q8_0-Quantized whole_numbers q8_plan 3 64 128 raw raw empty refl q8_plan-IsTensor
      refl refl

stream_bf16_to_q4_0-Quantized_example :
    (f' : File) × (stream_bf16_to_q4_0 whole_numbers q4_plan 128 (raw ++ raw) empty ≡ ok (f', 102))
    × Quantized whole_numbers (q4_group whole_numbers 64) q4_plan 3 64 raw f'
stream_bf16_to_q4_0-Quantized_example =
    stream_bf16_to_q4_0-Quantized whole_numbers q4_plan 3 64 128 raw raw empty refl q4_plan-IsTensor
      refl refl

stream_bf16_to_f16-Holds_example :
    (f' : File) × (stream_bf16_to_f16 whole_numbers 384 5 (raw ++ raw) 16 empty ≡ ok (f', 384))
    × Holds f' 16 (converted whole_numbers raw)
stream_bf16_to_f16-Holds_example =
    stream_bf16_to_f16-Holds whole_numbers 192 5 16 raw raw empty refl
