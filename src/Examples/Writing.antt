-- ===== src/Examples/Writing.antt =====
-- A planned file with two payloads, written and read.
use unlimitedocr_c.Prelude.{
  ℕ, ◌≤◌, ◌≡◌, inl, refl, Bool, true, false, List, [], ◌∷◌, ◌++◌, All, ok, err, Result, Error,
  length, take, drop, replicate, arith,
}
use unlimitedocr_c.Prelude.Int.{ℤ, pos, negsuc}
use unlimitedocr_c.Registry.Types.{family_id, projection_id}
use unlimitedocr_c.Convert.Types.{TensorPlan, usage_runtime}
use unlimitedocr_c.Convert.Sizes.{align_up}
use unlimitedocr_c.Convert.Structs.{Code, u32, i32, pack, unpack, calcsize, word, to_bytes}
use unlimitedocr_c.Convert.Structs.Laws.{unpack-pack}
use unlimitedocr_c.Convert.Files.{File, empty}
use unlimitedocr_c.Convert.Layout.{FileLayout, section_offsets, section_plans, split_group}
use unlimitedocr_c.Convert.Layout.Spec.{payloads, payloads_end, scales, scales_end, laid, laid_end}
use unlimitedocr_c.Convert.Layout.Sections.{plain_layout, layout_dry_run_file-plain_layout}
use unlimitedocr_c.Convert.Records.{
  Given, write_uocr_model, header_bytes, section_bytes, tensor_entry, tensor_entries,
  tensor_directory_bytes,
}
use unlimitedocr_c.Convert.Records.Views.{read_uocr_tensor_payload_view}
use unlimitedocr_c.Convert.Records.Reads.{planned_view}
use unlimitedocr_c.Convert.Records.Written.{IsGiven, plan_of, write_uocr_model-read}
use unlimitedocr_c.Examples.Converting.{expert_plan, three_plans, three_plans-Distinct}

abbrev two_values : List ℤ
two_values = pos 258 ∷ negsuc 0 ∷ []

abbrev layout : FileLayout
layout = plain_layout three_plans 100 false

abbrev second : List TensorPlan → TensorPlan
second (a ∷ b ∷ ts) = b
second _ = expert_plan 0 usage_runtime

abbrev given : Given
given = record {
  index_hash = replicate 32 7;
  config = replicate 108 1;
  tokenizer = replicate 92 2;
  provenance = replicate 300 3;
}

abbrev at_data : List (ℕ × List ℕ)
at_data = (4096, 1 ∷ 2 ∷ []) ∷ (4304, 3 ∷ []) ∷ []

abbrev written : Result Error File
written = write_uocr_model (plan_of 2 1 layout) given at_data

abbrev file_of : Result Error File → File
file_of (ok f) = f
file_of (err e) = empty

abbrev is_ok : Result Error File → Bool
is_ok (ok f) = true
is_ok (err e) = false

ok-file_of : (m : Result Error File) → is_ok m ≡ true → m ≡ ok (file_of m)
ok-file_of (ok f) h = refl
ok-file_of (err e) h = absurd (cc)

written-file_of : written ≡ ok (file_of written)
unfolding write_uocr_model header_bytes section_bytes tensor_directory_bytes tensor_entries
    tensor_entry pack word to_bytes plain_layout laid laid_end payloads payloads_end scales
    scales_end section_offsets section_plans align_up split_group family_id projection_id
written-file_of = ok-file_of written refl

layout-split :
    layout.laid_out ≡ take 1 layout.laid_out ++ second layout.laid_out ∷ drop 2 layout.laid_out
unfolding plain_layout laid payloads payloads_end scales scales_end section_offsets align_up
    split_group family_id
layout-split = refl

given-IsGiven : IsGiven (section_offsets (length three_plans) 100 false) given
unfolding section_offsets
given-IsGiven = record { hash = refl; config = refl; tokenizer = refl; provenance = refl }

at_data-behind :
    All
      (λ (w : ℕ × List ℕ).
        (section_offsets (length three_plans) 100 false).tensor_data_offset ≤ w.0)
      at_data
unfolding section_offsets align_up
at_data-behind = (omega arith, (omega arith, tt))

second-shape :
    length (second layout.laid_out).physical_shape ≡ length (second layout.laid_out).logical_shape
unfolding plain_layout laid payloads payloads_end scales scales_end section_offsets align_up
    split_group family_id
second-shape = refl

write_uocr_model-read_example :
    read_uocr_tensor_payload_view (file_of written) (second layout.laid_out).tensor_id
    ≡ ok (planned_view 2 (second layout.laid_out))
write_uocr_model-read_example =
    write_uocr_model-read three_plans 100 false layout 2 1 given at_data (take 1 layout.laid_out)
      (second layout.laid_out) (drop 2 layout.laid_out) (file_of written) three_plans-Distinct
      (layout_dry_run_file-plain_layout three_plans 100 false three_plans-Distinct) (inl refl)
      given-IsGiven at_data-behind layout-split second-shape written-file_of

abbrev u32_i32 : List Code
u32_i32 = u32 ∷ i32 ∷ []

packed : pack u32_i32 two_values ≡ ok (2 ∷ 1 ∷ 0 ∷ 0 ∷ 255 ∷ 255 ∷ 255 ∷ 255 ∷ [])
unfolding pack word to_bytes
packed = refl

unpack-pack_example :
    (8 ≡ calcsize u32_i32)
    × (unpack u32_i32 ((2 ∷ 1 ∷ 0 ∷ 0 ∷ 255 ∷ 255 ∷ 255 ∷ 255 ∷ []) ++ 9 ∷ []) ≡ two_values)
unpack-pack_example =
    unpack-pack u32_i32 two_values (2 ∷ 1 ∷ 0 ∷ 0 ∷ 255 ∷ 255 ∷ 255 ∷ 255 ∷ []) (9 ∷ []) packed
