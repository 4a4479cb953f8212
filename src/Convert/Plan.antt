-- ===== src/Convert/Plan.antt =====
-- `_usage_for_name`, `_validate_header_entry`, `_is_mixed_q8_candidate` and `_make_tensor_plan` of
-- src/unlimitedocr_c/convert.py, with the quantization config given and the policy the only one
-- there is. Header fields have the types that JSON is checked for.
mod Candidates
pub mod Laws
use unlimitedocr_c.Prelude.{
  ℕ, ◌-◌, ◌*◌, ◌/◌, Bool, true, false, not, ◌&&◌, ◌||◌, List, [], ◌∷◌, Option, none, some, String,
  Text, codes, text_eq, strip_prefix, ltb, ◌==◌, if◌then◌else◌, Result, ok, err, Error, value_error,
  ◌>>=◌, ◌>>◌, raise_if,
}
use unlimitedocr_c.Parsing.Scan.{find_marker}
use unlimitedocr_c.Registry.Types.{
  TensorRegistryEntry, same_family, moe_router, dash_router, sparse_indexer,
}
use unlimitedocr_c.Registry.Names.{clip_position_ids_name}
use unlimitedocr_c.QuantCfg.Types.{Qtype, q8_0, q4_0, QuantConfig, qtype_for, is_supported}
use unlimitedocr_c.Convert.Sizes.{
  product, q8_qweight_bytes, q8_qscale_bytes, q4_qweight_bytes, q4_qscale_bytes,
}
use unlimitedocr_c.Convert.Types
use unlimitedocr_c.Convert.Types.{
  TensorPlan, tensor_f16, tensor_q8_0, tensor_q4_0, usage_runtime, usage_omitted_with_reason,
}

-- `w in name`
abbrev occurs : Text → Text → Bool
occurs w name = elim (find_marker w name) [ none ↦ false | some _ ↦ true ]

-- `name.endswith(w)`
abbrev pub ends_with : Text → Text → Bool
ends_with w [] = text_eq w []
ends_with w (c ∷ s) = text_eq w (c ∷ s) || ends_with w s

abbrev starts_with : Text → Text → Bool
starts_with w name = elim (strip_prefix w name) [ none ↦ false | some _ ↦ true ]

abbrev pub usage_preserved_unused : ℕ
usage_preserved_unused = 2

-- `is_preserved_unused_in_normal_ocr`
abbrev pub is_preserved_unused_in_normal_ocr : Text → Bool
is_preserved_unused_in_normal_ocr name =
    starts_with (codes "model.vision_model.embeddings.patch_embedding.") name

-- The usage, its id and the reason.
unfoldable pub usage_for_name : Text → String × ℕ × String
usage_for_name name =
    if text_eq name clip_position_ids_name
    then (
      "omitted-with-reason", usage_omitted_with_reason,
      "deterministic CLIP positions 0..256; generated by runtime",
    )
    else if occurs (codes ".self_attn.indexer.") name
    then (
      "preserved-unused", usage_preserved_unused,
      "DASH uses its own learned projections; indexer weights retained for provenance",
    )
    else if occurs (codes ".self_attn.dash_router.") name
    then ("runtime", usage_runtime, "DASH router: mandatory fp16 keep-list")
    else if is_preserved_unused_in_normal_ocr name
    then (
      "preserved-unused", usage_preserved_unused,
      "CLIP receives SAM feature maps as patch_embeds in the normal OCR path; raw-pixel patch_embedding is preserved only for provenance",
    )
    else if ends_with (codes ".mlp.gate.weight") name
    then ("runtime", usage_runtime, "MoE router: mandatory fp16 keep-list")
    else if occurs (codes "norm") name
        || ends_with (codes "bias") name
        || text_eq name (codes "model.image_newline")
        || text_eq name (codes "model.view_seperator")
    then ("runtime", usage_runtime, "fp16 keep-list for norms/biases/special embeddings")
    else ("runtime", usage_runtime, "fp16 baseline")

-- An entry of the safetensors header.
pub record HeaderEntry : Type 0 where
  pub dtype : Text
  pub shape : List ℕ
  pub data_offsets : ℕ × ℕ

abbrev pub is_position_ids : Bool → Text → Bool
is_position_ids is_v2 name = is_v2 && text_eq name clip_position_ids_name

unfoldable pub validate_header_entry : Text → HeaderEntry → Bool → Result Error (Unit {0})
validate_header_entry name e is_v2 = do
  let i64 = is_position_ids is_v2 name
  raise_if (not (text_eq e.dtype (if i64 then codes "I64" else codes "BF16"))) value_error
  raise_if (ltb e.data_offsets.1 e.data_offsets.0) value_error
  raise_if (not (e.data_offsets.1 - e.data_offsets.0 == product e.shape * (if i64 then 8 else 2)))
      value_error

-- `QPROFILE_IDS`
pub data Qprofile : Type 0 where
  fp16 mixed_q8_0 mixed_q4 : Qprofile

-- `qprofile in MIXED_QPROFILES`
abbrev pub is_mixed : Qprofile → Bool
is_mixed fp16 = false
is_mixed mixed_q8_0 = true
is_mixed mixed_q4 = true

abbrev rank_2 : List ℕ → Bool
rank_2 (x ∷ y ∷ []) = true
rank_2 [] = false
rank_2 (x ∷ []) = false
rank_2 (x ∷ y ∷ z ∷ r) = false

unfoldable pub is_mixed_q8_candidate : TensorRegistryEntry → List ℕ → ℕ → QuantConfig → Bool
is_mixed_q8_candidate e shape usage_id cfg =
    if not (usage_id == usage_runtime) || not (rank_2 shape)
    then false
    else if same_family e.family moe_router
        || same_family e.family dash_router
        || same_family e.family sparse_indexer
    then false
    else is_supported cfg e.family e.projection

-- `module_qtype`, with the fallback of a profile that has no q4_0.
abbrev pub module_qtype : Qprofile → Option Qtype → Qtype
module_qtype mixed_q4 (some q4_0) = q4_0
module_qtype mixed_q4 (some q8_0) = q8_0
module_qtype mixed_q4 none = q8_0
module_qtype fp16 t = q8_0
module_qtype mixed_q8_0 t = q8_0

-- What quantization decides of a plan.
pub record Storage : Type 0 where
  pub output_dtype : String
  pub qtype : String
  pub qtype_id : ℕ
  pub output_bytes : ℕ
  pub qweight_bytes : ℕ
  pub qscale_bytes : ℕ
  pub block_size : ℕ
  pub row_size : ℕ
  pub reason : String
  pub qtype_reason_id : ℕ

-- The fp16 baseline, where an omitted tensor has no bytes.
abbrev pub fp16_storage : ℕ → ℕ → String → Storage
fp16_storage source_bytes usage_id reason =
    let omitted = usage_id == usage_omitted_with_reason in
    let bytes = if omitted then 0 else source_bytes in
    record {
      output_dtype = if omitted then "omitted" else "F16";
      qtype = "UOCR_TENSOR_F16";
      qtype_id = tensor_f16;
      output_bytes = bytes;
      qweight_bytes = bytes;
      qscale_bytes = 0;
      block_size = 0;
      row_size = 0;
      reason = reason;
      qtype_reason_id = 1;
    }

-- `int(shape[1])`, of a rank-2 shape.
abbrev columns : List ℕ → ℕ
columns (rows ∷ cols ∷ []) = cols
columns [] = 0
columns (x ∷ []) = 0
columns (x ∷ y ∷ z ∷ r) = y

abbrev pub q8_reason : Qprofile → String
q8_reason fp16 = "fp16 embeddings+decoder cfg-gated rank-2 weight (q8_0)"
q8_reason mixed_q8_0 = "mixed-q8_0 embeddings+decoder cfg-gated rank-2 weight (q8_0)"
q8_reason mixed_q4 = "mixed-q4 embeddings+decoder cfg-gated rank-2 weight (q8_0)"

unfoldable pub quantized_storage : Qprofile → Qtype → List ℕ → ℕ → Result Error Storage
quantized_storage qprofile q4_0 shape group_size = do
  qweight_bytes ← q4_qweight_bytes shape group_size
  qscale_bytes ← q4_qscale_bytes shape group_size
  ok (record {
    output_dtype = "Q4_0";
    qtype = "UOCR_TENSOR_Q4_0";
    qtype_id = tensor_q4_0;
    output_bytes = qweight_bytes;
    qweight_bytes = qweight_bytes;
    qscale_bytes = qscale_bytes;
    block_size = group_size;
    row_size = columns shape / 2;
    reason = "mixed-q4 embeddings+decoder cfg-gated rank-2 weight (q4_0)";
    qtype_reason_id = 0;
  })
quantized_storage qprofile q8_0 shape group_size = do
  qweight_bytes ← q8_qweight_bytes shape group_size
  qscale_bytes ← q8_qscale_bytes shape group_size
  ok (record {
    output_dtype = "Q8_0";
    qtype = "UOCR_TENSOR_Q8_0";
    qtype_id = tensor_q8_0;
    output_bytes = qweight_bytes;
    qweight_bytes = qweight_bytes;
    qscale_bytes = qscale_bytes;
    block_size = group_size;
    row_size = columns shape;
    reason = q8_reason qprofile;
    qtype_reason_id = 0;
  })

-- `_make_tensor_plan`. The header's offsets are in order, as `_validate_header_entry` checks.
unfoldable pub make_tensor_plan :
    Text → HeaderEntry → Qprofile → TensorRegistryEntry → ℕ → QuantConfig → Result Error TensorPlan
unfolding usage_for_name is_mixed_q8_candidate quantized_storage
make_tensor_plan name e qprofile entry group_size cfg = do
  raise_if (not (group_size == 64)) value_error
  let source_bytes = e.data_offsets.1 - e.data_offsets.0
  let usage_id = (usage_for_name name).1
  s ←
      (if is_mixed qprofile && is_mixed_q8_candidate entry e.shape usage_id cfg
        then quantized_storage qprofile
            (module_qtype qprofile (qtype_for cfg entry.family entry.projection)) e.shape group_size
        else ok (fp16_storage source_bytes usage_id (usage_for_name name).2))
  ok (record {
    name = name;
    source_dtype = e.dtype;
    shape = e.shape;
    logical_shape = e.shape;
    physical_shape = e.shape;
    source_offsets = e.data_offsets;
    source_bytes = source_bytes;
    output_dtype = s.output_dtype;
    qtype = s.qtype;
    qtype_id = s.qtype_id;
    output_bytes = s.output_bytes;
    payload_offset = 0;
    payload_alignment = Types.payload_alignment;
    scale_offset = 0;
    scale_size = s.qscale_bytes;
    qweight_bytes = s.qweight_bytes;
    qscale_bytes = s.qscale_bytes;
    fp16_equivalent_bytes =
        if usage_id == usage_omitted_with_reason then 0 else product e.shape * 2;
    block_size = s.block_size;
    row_size = s.row_size;
    tensor_id = entry.tensor_id;
    family = entry.family;
    layer = entry.layer;
    expert = entry.expert;
    projection = entry.projection;
    usage = (usage_for_name name).0;
    usage_id = usage_id;
    reason = s.reason;
    qtype_reason_id = s.qtype_reason_id;
    promotion_reason_id = 0;
    source_layout = "row-major";
    runtime_layout = "row-major";
    layout_transform_id = 0;
    layout_flags = 1;
    transposed = false;
    layout_reason = "source payload order is preserved; no transpose is applied";
    source_file = none;
  })
