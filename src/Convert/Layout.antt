-- ===== src/Convert/Layout.antt =====
-- `_layout_dry_run_file` of src/unlimitedocr_c/convert.py. `laid_out_by_id` is a function from ids,
-- since the code only looks ids up. The loop over `index` takes fuel: one unit for each round, and
-- each round consumes at least one tensor.
pub mod Spec
pub mod Groups
pub mod Regions
pub mod Refine
pub mod Sections
use unlimitedocr_c.Prelude.{
  ℕ, zero, suc, ◌+◌, ◌-◌, ◌*◌, Bool, true, false, ◌&&◌, ◌||◌, List, [], ◌∷◌, Option, none, some,
  ◌==◌, if◌then◌else◌, Result, ok, err, Error, key_error, out_of_fuel, ◌>>=◌, or_raise, length,
  String,
}
use unlimitedocr_c.Prelude.Int.{◌==ℤ◌}
use unlimitedocr_c.Registry.Types.{same_family, moe_expert}
use unlimitedocr_c.Convert.Sizes.{align_up}
use unlimitedocr_c.Convert.Types
use unlimitedocr_c.Convert.Types.{
  TensorPlan, SectionPlan, tensor_q8_0, tensor_q4_0, usage_omitted_with_reason,
  tensor_data_alignment, file_header_size, section_entry_size, config_record_size,
  tokenizer_metadata_record_size, provenance_record_size, tensor_directory_header_size,
  tensor_entry_size, v2_config_size,
}

abbrev pub ById : Type 0
ById = ℕ → Option TensorPlan

-- `laid_out_by_id[i] = t`
abbrev pub put : ℕ → TensorPlan → ById → ById
put i t d j = if j == i then some t else d j

-- `cursor` and `laid_out_by_id`.
pub record Place : Type 0 where
  pub cursor : ℕ
  pub by_id : ById

-- `replace(tensor, payload_offset=…, payload_alignment=…)`
abbrev pub with_payload : ℕ → TensorPlan → TensorPlan
with_payload offset t = record t {
  payload_offset = offset;
  payload_alignment = Types.payload_alignment;
}

abbrev pub with_scale : ℕ → TensorPlan → TensorPlan
with_scale offset t = record t { scale_offset = offset }

-- The `replace` of a tensor that takes no room in the file.
abbrev pub without_payload : TensorPlan → TensorPlan
without_payload t = record t { payload_offset = 0; payload_alignment = 0; scale_offset = 0 }

abbrev pub takes_no_room : TensorPlan → Bool
takes_no_room t = t.usage_id == usage_omitted_with_reason || t.output_bytes == 0

-- A quantized routed-expert tensor, which starts a group.
abbrev pub starts_group : TensorPlan → Bool
starts_group t =
    (t.qtype_id == tensor_q8_0 || t.qtype_id == tensor_q4_0) && same_family t.family moe_expert

-- The condition of the `lookahead` loop.
abbrev pub joins : TensorPlan → TensorPlan → Bool
joins t u = u.qtype_id == t.qtype_id && same_family u.family moe_expert && u.layer ==ℤ t.layer

-- The tensors behind `t` that join its group, and those from `lookahead` on.
abbrev pub look_ahead : TensorPlan → List TensorPlan → List TensorPlan × List TensorPlan
look_ahead t [] = ([], [])
look_ahead t (u ∷ us) =
    let (group, rest) = look_ahead t us in if joins t u then (u ∷ group, rest) else ([], u ∷ us)

-- `group` and the tensors from `lookahead` on.
unfoldable pub split_group : TensorPlan → List TensorPlan → List TensorPlan × List TensorPlan
split_group t ts =
    if starts_group t then (t ∷ (look_ahead t ts).0, (look_ahead t ts).1) else (t ∷ [], ts)

-- The first loop over the group.
unfoldable pub place_payloads : List TensorPlan → Place → Place
place_payloads [] s = s
place_payloads (item ∷ items) s =
    let cursor = align_up s.cursor Types.payload_alignment in
    place_payloads items (record {
      cursor = cursor + item.output_bytes;
      by_id = put item.tensor_id (with_payload cursor item) s.by_id;
    })

-- The second loop over the group.
unfoldable pub place_scales : List TensorPlan → Place → Result Error Place
place_scales [] s = ok s
place_scales (item ∷ items) s = elim (item.scale_size == 0) [
  | true ↦ place_scales items s
  | false ↦
      let cursor = align_up s.cursor Types.payload_alignment in
      or_raise (s.by_id item.tensor_id) key_error >>= λ current. place_scales items (record {
        cursor = cursor + item.scale_size;
        by_id = put item.tensor_id (with_scale cursor current) s.by_id;
      })
]

-- `while index < len(tensors)`
unfoldable pub place_tensors : ℕ → List TensorPlan → Place → Result Error Place
place_tensors fuel [] s = ok s
place_tensors zero (t ∷ ts) s = err out_of_fuel
place_tensors (suc fuel) (t ∷ ts) s = elim (takes_no_room t) [
  | true ↦
      place_tensors fuel ts
        (record { cursor = s.cursor; by_id = put t.tensor_id (without_payload t) s.by_id })
  | false ↦ place_scales (split_group t ts).0 (place_payloads (split_group t ts).0 s) >>= λ s'.
      place_tensors fuel (split_group t ts).1 s'
]

-- `[laid_out_by_id[tensor.tensor_id] for tensor in tensors]`
unfoldable pub collect : ById → List TensorPlan → Result Error (List TensorPlan)
collect d [] = ok []
collect d (t ∷ ts) = or_raise (d t.tensor_id) key_error >>= λ u. collect d ts >>= λ us. ok (u ∷ us)

-- The offsets of the sections, for `count` tensors.
pub record Offsets : Type 0 where
  pub config_offset : ℕ
  pub config_size : ℕ
  pub tokenizer_offset : ℕ
  pub provenance_offset : ℕ
  pub provenance_size : ℕ
  pub tensor_dir_offset : ℕ
  pub tensor_dir_size : ℕ
  pub tensor_data_offset : ℕ

unfoldable pub section_offsets : ℕ → ℕ → Bool → Offsets
section_offsets count provenance_json_size is_v2 =
    let section_count : ℕ = 5 in
    let config_offset = align_up (file_header_size + section_count * section_entry_size) 8 in
    let config_size = config_record_size + (if is_v2 then v2_config_size else 0) in
    let tokenizer_offset = align_up (config_offset + config_size) 8 in
    let provenance_offset = align_up (tokenizer_offset + tokenizer_metadata_record_size) 8 in
    let provenance_size = provenance_record_size + provenance_json_size in
    let tensor_dir_offset = align_up (provenance_offset + provenance_size) 8 in
    let tensor_dir_size = tensor_directory_header_size + count * tensor_entry_size in
    record {
      config_offset = config_offset;
      config_size = config_size;
      tokenizer_offset = tokenizer_offset;
      provenance_offset = provenance_offset;
      provenance_size = provenance_size;
      tensor_dir_offset = tensor_dir_offset;
      tensor_dir_size = tensor_dir_size;
      tensor_data_offset = align_up (tensor_dir_offset + tensor_dir_size) tensor_data_alignment;
    }

abbrev section : ℕ → String → ℕ → ℕ → ℕ → SectionPlan
section i name offset size alignment = record {
  section_type = i;
  name = name;
  offset = offset;
  size = size;
  alignment = alignment;
}

-- The tuple `sections`; the names are those of `SECTION_NAMES`.
unfoldable pub section_plans : Offsets → ℕ → List SectionPlan
section_plans o cursor =
    section 1 "config" o.config_offset o.config_size 8
    ∷ section 3 "tokenizer-metadata" o.tokenizer_offset tokenizer_metadata_record_size 8
    ∷ section 4 "provenance" o.provenance_offset o.provenance_size 8
    ∷ section 2 "tensor-directory" o.tensor_dir_offset o.tensor_dir_size 8
    ∷ section 5 "tensor-data" o.tensor_data_offset (cursor - o.tensor_data_offset)
        tensor_data_alignment
    ∷ []

-- The four results.
pub record FileLayout : Type 0 where
  pub sections : List SectionPlan
  pub laid_out : List TensorPlan
  pub planned_file_size : ℕ
  pub metadata_bytes : ℕ

unfoldable pub layout_dry_run_file : List TensorPlan → ℕ → Bool → Result Error FileLayout
unfolding place_tensors collect section_offsets section_plans
layout_dry_run_file tensors provenance_json_size is_v2 =
    let o = section_offsets (length tensors) provenance_json_size is_v2 in
    place_tensors (length tensors) tensors
      (record { cursor = o.tensor_data_offset; by_id = λ i. none })
    >>= λ s. collect s.by_id tensors >>= λ laid_out. ok (record {
      sections = section_plans o s.cursor;
      laid_out = laid_out;
      planned_file_size = s.cursor;
      metadata_bytes = s.cursor - (s.cursor - o.tensor_data_offset);
    })
