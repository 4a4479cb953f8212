-- ===== src/Examples/Slabs.antt =====
-- One routed layer of a single expert, and an environment that names another repository.
use unlimitedocr_c.Prelude.{
  ℕ, ◌≢◌, refl, List, [], ◌∷◌, Option, none, some, Text, codes, text_eq, if◌then◌else◌,
}
use unlimitedocr_c.Prelude.Int.{pos}
use unlimitedocr_c.Registry.Types.{TensorProjection, gate, up, down, family_id, projection_id}
use unlimitedocr_c.Registry.Ids.{tensor_id_moe_expert, tensor_id_layer}
use unlimitedocr_c.Convert.Types.{TensorPlan, usage_runtime}
use unlimitedocr_c.Convert.Experts.{check_slab, check_layer}
use unlimitedocr_c.Convert.Experts.Laws.{Slab, check_layer-Slab}
use unlimitedocr_c.Variants.{source_model, get_model_variant, repository_of}
use unlimitedocr_c.Variants.Laws.{source_model-pinned}
use unlimitedocr_c.Examples.Converting.{expert_plan}

abbrev placed : ℕ → TensorProjection → ℕ → ℕ → TensorPlan
placed i p payload scale = record (expert_plan i usage_runtime) {
  projection = p;
  expert = pos 0;
  payload_offset = payload;
  output_bytes = 192;
  scale_offset = scale;
  scale_size = 16;
}

abbrev slab : List TensorPlan
slab = placed 11100 gate 4096 4672 ∷ placed 11101 up 4288 4688 ∷ placed 11102 down 4480 4704 ∷ []

check_layer-Slab_example : Slab slab 1 0 1 none
unfolding check_layer check_slab tensor_id_moe_expert tensor_id_layer family_id projection_id
check_layer-Slab_example = check_layer-Slab slab 1 1 refl

abbrev my_repository : Text → Option Text
my_repository key =
    if text_eq key (codes "UOCR_SOURCE_MODEL_REPO_ID") then some (codes "mine") else none

source_model-pinned_example : codes "mine" ≢ repository_of (codes "v2")
unfolding source_model get_model_variant
source_model-pinned_example = source_model-pinned my_repository (codes "mine", none) refl refl
