-- ===== src/QuantCfg/Types.antt =====
-- The config of src/unlimitedocr_c/quant_cfg.py and its queries. A set of projections is a list
-- without repetitions, and the dictionary of supported pairs an association list, newest first:
-- the code never observes an order of either.
use unlimitedocr_c.Prelude.{
  Bool, true, false, ◌&&◌, ◌||◌, List, [], ◌∷◌, Option, none, some, Text, text_eq, if◌then◌else◌,
}
use unlimitedocr_c.Prelude.Int.{ℤ}
use unlimitedocr_c.Registry.Types
use unlimitedocr_c.Registry.Types.{TensorFamily, TensorProjection, same_family, same_projection}

-- `QUANT_CFG_QTYPES`
pub data Qtype : Type 0 where
  q8_0 q4_0 : Qtype

pub record QuantModuleSpec : Type 0 where
  pub name : Text
  pub family : TensorFamily
  pub projections : List TensorProjection
  pub supported : Bool
  pub qtype : Qtype

abbrev pub Pairs : Type 0
Pairs = List ((TensorFamily × TensorProjection) × Qtype)

pub record QuantConfig : Type 0 where
  pub version : ℤ
  pub group_size : ℤ
  pub modules : List QuantModuleSpec
  pub supported_pairs : Pairs

-- `supported_pairs.get((family, projection))`
abbrev pub pair_qtype : TensorFamily → TensorProjection → Pairs → Option Qtype
pair_qtype f p [] = none
pair_qtype f p (((g, r), t) ∷ d) =
    if same_family f g && same_projection p r then some t else pair_qtype f p d

unfoldable pub qtype_for : QuantConfig → TensorFamily → TensorProjection → Option Qtype
qtype_for cfg f p = pair_qtype f p cfg.supported_pairs

unfoldable pub is_supported : QuantConfig → TensorFamily → TensorProjection → Bool
is_supported cfg f p = elim (pair_qtype f p cfg.supported_pairs) [ none ↦ false | some _ ↦ true ]

module_in : Text → List QuantModuleSpec → Option QuantModuleSpec
module_in name [] = none
module_in name (m ∷ ms) = if text_eq m.name name then some m else module_in name ms

unfoldable pub module_by_name : QuantConfig → Text → Option QuantModuleSpec
unfolding module_in
module_by_name cfg name = module_in name cfg.modules

-- `family in Q4_ALLOWED_FAMILIES`
abbrev pub q4_allowed : TensorFamily → Bool
q4_allowed f =
    same_family f Types.moe_expert
    || same_family f Types.moe_shared
    || same_family f Types.layer_dense_mlp
    || same_family f Types.lm_head
    || same_family f Types.tok_embed
    || same_family f Types.vision_sam
    || same_family f Types.vision_clip
    || same_family f Types.projector

abbrev pub contains : TensorProjection → List TensorProjection → Bool
contains p [] = false
contains p (x ∷ xs) = same_projection p x || contains p xs
