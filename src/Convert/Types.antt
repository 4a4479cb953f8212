-- ===== src/Convert/Types.antt =====
-- The plans of src/unlimitedocr_c/convert.py. A tensor's name is its code points; the family is
-- the registry's enum member, whose `.name` the source stores. Fields that only name or number another
-- one are left out: `family_id`, `projection_id`, `qtype_reason`, `promotion_reason` and
-- `layout_transform`.
use unlimitedocr_c.Prelude.{ℕ, Bool, List, Option, String, Text}
use unlimitedocr_c.Prelude.Int.{ℤ}
use unlimitedocr_c.Registry.Types.{TensorFamily, TensorProjection}

pub record TensorPlan : Type 0 where
  pub name : Text
  pub source_dtype : Text
  pub shape : List ℕ
  pub logical_shape : List ℕ
  pub physical_shape : List ℕ
  pub source_offsets : ℕ × ℕ
  pub source_bytes : ℕ
  pub output_dtype : String
  pub qtype : String
  pub qtype_id : ℕ
  pub output_bytes : ℕ
  pub payload_offset : ℕ
  pub payload_alignment : ℕ
  pub scale_offset : ℕ
  pub scale_size : ℕ
  pub qweight_bytes : ℕ
  pub qscale_bytes : ℕ
  pub fp16_equivalent_bytes : ℕ
  pub block_size : ℕ
  pub row_size : ℕ
  pub tensor_id : ℕ
  pub family : TensorFamily
  pub layer : ℤ
  pub expert : ℤ
  pub projection : TensorProjection
  pub usage : String
  pub usage_id : ℕ
  pub reason : String
  pub qtype_reason_id : ℕ
  pub promotion_reason_id : ℕ
  pub source_layout : String
  pub runtime_layout : String
  pub layout_transform_id : ℕ
  pub layout_flags : ℕ
  pub transposed : Bool
  pub layout_reason : String
  pub source_file : Option String

pub record SectionPlan : Type 0 where
  pub section_type : ℕ
  pub name : String
  pub offset : ℕ
  pub size : ℕ
  pub alignment : ℕ

abbrev pub tensor_f16 : ℕ
tensor_f16 = 1

abbrev pub tensor_q8_0 : ℕ
tensor_q8_0 = 3

abbrev pub tensor_q4_0 : ℕ
tensor_q4_0 = 4

abbrev pub usage_runtime : ℕ
usage_runtime = 1

abbrev pub usage_omitted_with_reason : ℕ
usage_omitted_with_reason = 3

abbrev pub tensor_data_alignment : ℕ
tensor_data_alignment = 4096

abbrev pub payload_alignment : ℕ
payload_alignment = 16

abbrev pub file_header_size : ℕ
file_header_size = 112

abbrev pub section_entry_size : ℕ
section_entry_size = 32

abbrev pub config_record_size : ℕ
config_record_size = 108

abbrev pub tokenizer_metadata_record_size : ℕ
tokenizer_metadata_record_size = 92

abbrev pub provenance_record_size : ℕ
provenance_record_size = 200

abbrev pub tensor_directory_header_size : ℕ
tensor_directory_header_size = 16

abbrev pub tensor_entry_size : ℕ
tensor_entry_size = 140

-- `_V2_CONFIG_STRUCT.size`, of "<12I3f"
abbrev pub v2_config_size : ℕ
v2_config_size = 60
