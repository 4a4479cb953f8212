-- ===== src/Convert/Layout/Spec.antt =====
-- The layout of src/unlimitedocr_c/convert.py with no dictionary: what `_layout_dry_run_file` gives
-- each tensor, as plain recursions on the list of tensors and the cursor.
use unlimitedocr_c.Prelude.{
  ℕ, zero, suc, ◌+◌, true, false, List, [], ◌∷◌, ◌++◌, ◌==◌, if◌then◌else◌,
}
use unlimitedocr_c.Convert.Sizes.{align_up}
use unlimitedocr_c.Convert.Types.{TensorPlan}
use unlimitedocr_c.Convert.Layout.{
  with_payload, with_scale, without_payload, takes_no_room, split_group,
}

-- The payloads of a group one after the other, each at the next multiple of 16.
unfoldable pub payloads : ℕ → List TensorPlan → List TensorPlan
payloads c [] = []
payloads c (t ∷ ts) = with_payload (align_up c 16) t ∷ payloads (align_up c 16 + t.output_bytes) ts

unfoldable pub payloads_end : ℕ → List TensorPlan → ℕ
payloads_end c [] = c
payloads_end c (t ∷ ts) = payloads_end (align_up c 16 + t.output_bytes) ts

-- Then the scales of the group, where there are any.
abbrev pub scale_start : ℕ → TensorPlan → ℕ
scale_start c t = if t.scale_size == 0 then t.scale_offset else align_up c 16

abbrev pub scale_stop : ℕ → TensorPlan → ℕ
scale_stop c t = if t.scale_size == 0 then c else align_up c 16 + t.scale_size

unfoldable pub scales : ℕ → List TensorPlan → List TensorPlan
scales c [] = []
scales c (t ∷ ts) = with_scale (scale_start c t) t ∷ scales (scale_stop c t) ts

unfoldable pub scales_end : ℕ → List TensorPlan → ℕ
scales_end c [] = c
scales_end c (t ∷ ts) = scales_end (scale_stop c t) ts

-- A whole group, from cursor `c`.
abbrev pub group_laid : ℕ → List TensorPlan → List TensorPlan
group_laid c g = scales (payloads_end c g) (payloads c g)

abbrev pub group_end : ℕ → List TensorPlan → ℕ
group_end c g = scales_end (payloads_end c g) (payloads c g)

-- All tensors; `fuel` bounds the number of groups.
unfoldable pub laid : ℕ → List TensorPlan → ℕ → List TensorPlan
laid fuel [] c = []
laid zero (t ∷ ts) c = []
laid (suc fuel) (t ∷ ts) c = elim (takes_no_room t) [
  | true ↦ without_payload t ∷ laid fuel ts c
  | false ↦
      group_laid c (split_group t ts).0
      ++ laid fuel (split_group t ts).1 (group_end c (split_group t ts).0)
]

unfoldable pub laid_end : ℕ → List TensorPlan → ℕ → ℕ
laid_end fuel [] c = c
laid_end zero (t ∷ ts) c = c
laid_end (suc fuel) (t ∷ ts) c = elim (takes_no_room t) [
  | true ↦ laid_end fuel ts c
  | false ↦ laid_end fuel (split_group t ts).1 (group_end c (split_group t ts).0)
]
