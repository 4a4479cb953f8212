-- ===== src/Convert/Experts.antt =====
-- `_validate_moe_expert_interleaved_layout` of src/unlimitedocr_c/convert.py: the payloads of each
-- routed layer's experts, and their scales, form contiguous slabs.
pub mod Laws
use unlimitedocr_c.Prelude.{
  ℕ, zero, suc, ◌+◌, Bool, true, false, not, ◌&&◌, ◌||◌, List, [], ◌∷◌, ◌++◌, Option, none, some,
  ◌==◌, Result, ok, err, Error, value_error, ◌>>=◌, ◌>>◌, raise_if,
}
use unlimitedocr_c.Prelude.Int.{pos, ◌==ℤ◌}
use unlimitedocr_c.Registry.Types.{
  TensorProjection, same_family, same_projection, moe_expert, gate, up, down,
}
use unlimitedocr_c.Registry.Ids.{tensor_id_moe_expert}
use unlimitedocr_c.Convert.Types.{TensorPlan, tensor_q8_0, tensor_q4_0, usage_runtime}

-- `by_id.get(tensor_id)`: the last tensor with the id.
abbrev pub last_with : ℕ → List TensorPlan → Option TensorPlan
last_with i [] = none
last_with i (t ∷ ts) = elim (last_with i ts) [
  | some u ↦ some u
  | none ↦ elim (t.tensor_id == i) [ true ↦ some t | false ↦ none ]
]

abbrev pub Slot : Type 0
Slot = ℕ × TensorProjection

-- `n` experts from `e` on, each with `MOE_EXPERT_PROJECTION_ORDER`.
abbrev pub expert_slots_from : (e n : ℕ) → List Slot
expert_slots_from e zero = []
expert_slots_from e (suc n) = (e, gate) ∷ (e, up) ∷ (e, down) ∷ expert_slots_from (suc e) n

abbrev pub expert_slots : ℕ → List Slot
expert_slots n = expert_slots_from 0 n

-- `expected` of a layer, each tensor with its slot, and whether one is missing.
abbrev pub gather : ℕ → List TensorPlan → List Slot → Result Error (List (Slot × TensorPlan) × Bool)
gather layer ts [] = ok ([], false)
gather layer ts (s ∷ slots) = tensor_id_moe_expert layer s.0 s.1 >>= λ i.
    gather layer ts slots >>= λ later. elim (last_with i ts) [
      | none ↦ ok (later.0, true)
      | some t ↦ ok ((s, t) ∷ later.0, later.1)
    ]

-- `previous is not None and offset != previous`
abbrev pub breaks : Option ℕ → ℕ → Bool
breaks none offset = false
breaks (some end) offset = not (offset == end)

-- The checks on a tensor before its place is compared.
abbrev pub misplaced : ℕ → Slot → TensorPlan → Bool
misplaced layer s t =
    not (same_family t.family moe_expert)
    || not (t.layer ==ℤ pos layer)
    || not (t.expert ==ℤ pos s.0)
    || not (same_projection t.projection s.1)
    || not (t.usage_id == usage_runtime)
    || t.output_bytes == 0
    || t.payload_offset == 0

abbrev pub is_quantized : TensorPlan → Bool
is_quantized t = t.qtype_id == tensor_q8_0 || t.qtype_id == tensor_q4_0

-- The second loop, with `previous_end` and `previous_scale_end`.
unfoldable pub check_slab :
    ℕ → List (Slot × TensorPlan) → Option ℕ → Option ℕ → Result Error (Unit {0})
check_slab layer [] end scale_end = ok tt
check_slab layer ((s, t) ∷ rest) end scale_end = do
  raise_if (misplaced layer s t) value_error
  raise_if (breaks end t.payload_offset) value_error
  raise_if
      (is_quantized t
        && (t.scale_size == 0 || t.scale_offset == 0 || breaks scale_end t.scale_offset))
      value_error
  check_slab layer rest (some (t.payload_offset + t.output_bytes))
      (elim (is_quantized t) [ true ↦ some (t.scale_offset + t.scale_size) | false ↦ scale_end ])

-- One layer: incomplete ones are skipped, or refused where all have to be there.
unfoldable pub check_layer : List TensorPlan → Bool → ℕ → ℕ → Result Error (Unit {0})
unfolding check_slab
check_layer ts require_complete experts layer = gather layer ts (expert_slots experts) >>= λ found.
    elim found.1 [
      | true ↦ raise_if require_complete value_error
      | false ↦ check_slab layer found.0 none none
    ]

abbrev check_layers : List TensorPlan → Bool → ℕ → ℕ → ℕ → Result Error (Unit {0})
check_layers ts require_complete experts layer zero = ok tt
check_layers ts require_complete experts layer (suc n) =
    check_layer ts require_complete experts layer
    >> check_layers ts require_complete experts (suc layer) n

-- The layers from 1 on, below 12, of 64 experts.
unfoldable pub validate_moe_expert_interleaved_layout :
    List TensorPlan → Bool → Result Error (Unit {0})
unfolding check_layer
validate_moe_expert_interleaved_layout ts require_complete =
    check_layers ts require_complete 64 1 11
