-- ===== src/Examples/Converting.antt =====
-- Two routed-expert matrices and one omitted tensor, laid out.
use unlimitedocr_c.Prelude.{
  ℕ, ◌+◌, ◌*◌, ◌≤◌, ◌≡◌, false, List, [], ◌∷◌, codes, none, ok, length, arith, ◌%◌,
}
use unlimitedocr_c.Prelude.Int.{pos}
use unlimitedocr_c.Registry.Types.{moe_expert, gate}
use unlimitedocr_c.Convert.Types.{TensorPlan, tensor_q8_0, usage_runtime, usage_omitted_with_reason}
use unlimitedocr_c.Convert.Sizes.{align_up, q8_total_bytes, q4_total_bytes}
use unlimitedocr_c.Convert.Sizes.Laws.{align_up_least, q8_total_bytes_groups}
use unlimitedocr_c.Convert.Layout.{layout_dry_run_file, section_offsets}
use unlimitedocr_c.Convert.Layout.Refine.{ids, Distinct}
use unlimitedocr_c.Convert.Layout.Sections.{
  plain_layout, IsPlanned, Follow, layout_dry_run_file-plain_layout, layout_dry_run_file-IsPlanned,
  layout_dry_run_file-Follow,
}

abbrev pub expert_plan : ℕ → ℕ → TensorPlan
expert_plan i usage = record {
  name = codes "expert";
  source_dtype = codes "BF16";
  shape = 3 ∷ 64 ∷ [];
  logical_shape = 3 ∷ 64 ∷ [];
  physical_shape = 3 ∷ 64 ∷ [];
  source_offsets = (0, 384);
  source_bytes = 384;
  output_dtype = "Q8_0";
  qtype = "q8_0";
  qtype_id = tensor_q8_0;
  output_bytes = 198;
  payload_offset = 0;
  payload_alignment = 0;
  scale_offset = 0;
  scale_size = 6;
  qweight_bytes = 192;
  qscale_bytes = 6;
  fp16_equivalent_bytes = 384;
  block_size = 64;
  row_size = 64;
  tensor_id = i;
  family = moe_expert;
  layer = pos 1;
  expert = pos i;
  projection = gate;
  usage = "runtime";
  usage_id = usage;
  reason = "";
  qtype_reason_id = 0;
  promotion_reason_id = 0;
  source_layout = "row_major";
  runtime_layout = "row_major";
  layout_transform_id = 0;
  layout_flags = 0;
  transposed = false;
  layout_reason = "";
  source_file = none;
}

abbrev pub three_plans : List TensorPlan
three_plans =
    expert_plan 7 usage_runtime
    ∷ expert_plan 9 usage_runtime
    ∷ expert_plan 4 usage_omitted_with_reason
    ∷ []

pub three_plans-Distinct : Distinct (ids three_plans)
three_plans-Distinct =
    ((λ h. omega arith, (λ h. omega arith, tt)), ((λ h. omega arith, tt), (tt, tt)))

align_up_least_example :
    (13 ≤ align_up 13 8)
    × (align_up 13 8 % 8 ≡ 0)
    × ((m : ℕ) → 13 ≤ m → m % 8 ≡ 0 → align_up 13 8 ≤ m)
align_up_least_example = align_up_least 13 8 (omega arith)

q8_total_bytes_groups_example :
    (q8_total_bytes (3 ∷ 64 * 2 ∷ []) 64 ≡ ok (66 * (3 * 2)))
    × (q4_total_bytes (3 ∷ 64 * 2 ∷ []) 64 ≡ ok (34 * (3 * 2)))
q8_total_bytes_groups_example = q8_total_bytes_groups 3 2 (omega arith) (omega arith)

layout_dry_run_file-plain_layout_example :
    layout_dry_run_file three_plans 100 false ≡ ok (plain_layout three_plans 100 false)
layout_dry_run_file-plain_layout_example =
    layout_dry_run_file-plain_layout three_plans 100 false three_plans-Distinct

layout_dry_run_file-IsPlanned_example :
    IsPlanned three_plans
      (section_offsets (length three_plans) 100 false).tensor_data_offset
      (plain_layout three_plans 100 false)
layout_dry_run_file-IsPlanned_example =
    layout_dry_run_file-IsPlanned three_plans 100 false (plain_layout three_plans 100 false)
      three_plans-Distinct
      (layout_dry_run_file-plain_layout three_plans 100 false three_plans-Distinct)

layout_dry_run_file-Follow_example :
    Follow
      (112 + 5 * 32)
      (plain_layout three_plans 100 false).sections
      (plain_layout three_plans 100 false).planned_file_size
    × ((plain_layout three_plans 100 false).metadata_bytes
        ≡ (section_offsets (length three_plans) 100 false).tensor_data_offset)
layout_dry_run_file-Follow_example =
    layout_dry_run_file-Follow three_plans 100 false (plain_layout three_plans 100 false)
      three_plans-Distinct
      (layout_dry_run_file-plain_layout three_plans 100 false three_plans-Distinct)
