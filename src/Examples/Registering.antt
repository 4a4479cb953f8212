-- ===== src/Examples/Registering.antt =====
-- A registry of two language tensors.
use unlimitedocr_c.Prelude.{
  ℕ, ◌-◌, ◌≡◌, ◌≢◌, ◌↔◌, refl, Option, none, some, List, [], ◌∷◌, Text, codes, ok, arith, leb, ◌&&◌,
  if◌then◌else◌, Pairwise,
}
use unlimitedocr_c.Registry.Types.{up}
use unlimitedocr_c.Registry.Ids.{tensor_id_moe_expert}
use unlimitedocr_c.Registry.Ids.Laws.{tensor_id_layer_injective, tensor_id_moe_expert_injective}
use unlimitedocr_c.Registry.Names.{fixed_entry}
use unlimitedocr_c.Registry.Entries.{entry_without_vision}
use unlimitedocr_c.Registry.Build.{
  Registry, resolve, build_onto, build_tensor_registry, sorted_names, is_sam, is_clip,
}
use unlimitedocr_c.Registry.Build.Laws.{
  Registers, build_tensor_registry_iff, build_tensor_registry-distinct,
}

abbrev ascii_digit : ℕ → Option ℕ
ascii_digit c = if leb 48 c && leb c 57 then some (c - 48) else none

abbrev two_names : List Text
two_names = codes "lm_head.weight" ∷ codes "model.norm.weight" ∷ []

run : (r : Registry) × (build_tensor_registry ascii_digit two_names ≡ ok r)
unfolding build_tensor_registry build_onto resolve entry_without_vision fixed_entry
run = (_, refl)

tensor_id_layer_injective_example : ◌≡◌ {A = ℕ} 3 3 × ◌≡◌ {A = ℕ} 17 17
tensor_id_layer_injective_example =
    tensor_id_layer_injective 3 3 17 17 (omega arith) (omega arith) refl

tensor_id_moe_expert_injective_example : ◌≡◌ {A = ℕ} 3 3 × ◌≡◌ {A = ℕ} 17 17 × (up ≡ up)
unfolding tensor_id_moe_expert
tensor_id_moe_expert_injective_example =
    tensor_id_moe_expert_injective 3 3 17 17 up up (omega arith) (omega arith) refl refl

build_tensor_registry_iff_example :
    (build_tensor_registry ascii_digit two_names ≡ ok run.0)
    ↔ Registers ascii_digit
        (sorted_names is_sam two_names)
        (sorted_names is_clip two_names)
        two_names
        run.0
build_tensor_registry_iff_example = build_tensor_registry_iff ascii_digit two_names run.0

build_tensor_registry-distinct_example : Pairwise (λ a b. a ≢ b) two_names
build_tensor_registry-distinct_example =
    build_tensor_registry-distinct ascii_digit two_names run.0 run.1
