-- ===== src/Registry/Types.antt =====
-- The enums, constants and the entry of src/unlimitedocr_c/tensor_registry.py.
use unlimitedocr_c.Prelude.{ℕ, Bool, List, Option, Text, ◌==◌}
use unlimitedocr_c.Prelude.Int.{ℤ}

pub data TensorFamily : Type 0 where
  unknown tok_embed lm_head final_norm layer_attn layer_norm layer_dense_mlp : TensorFamily
  moe_router moe_expert moe_shared vision_sam vision_clip projector : TensorFamily
  image_newline view_separator dash_router sparse_indexer : TensorFamily

pub data TensorProjection : Type 0 where
  proj_none weight bias q k v o gate up down : TensorProjection
  vision_attn_qkv vision_attn_o vision_mlp_fc1 vision_mlp_fc2 : TensorProjection
  vision_patch_embed vision_conv_1x1 vision_conv_3x3 : TensorProjection
  q_norm k_norm head_cls : TensorProjection

-- `int(family)`
unfoldable pub family_id : TensorFamily → ℕ
family_id unknown = 0
family_id tok_embed = 1
family_id lm_head = 2
family_id final_norm = 3
family_id layer_attn = 4
family_id layer_norm = 5
family_id layer_dense_mlp = 6
family_id moe_router = 7
family_id moe_expert = 8
family_id moe_shared = 9
family_id vision_sam = 10
family_id vision_clip = 11
family_id projector = 12
family_id image_newline = 13
family_id view_separator = 14
family_id dash_router = 15
family_id sparse_indexer = 16

-- `int(projection)`
unfoldable pub projection_id : TensorProjection → ℕ
projection_id proj_none = 0
projection_id weight = 1
projection_id bias = 2
projection_id q = 10
projection_id k = 11
projection_id v = 12
projection_id o = 13
projection_id gate = 20
projection_id up = 21
projection_id down = 22
projection_id vision_attn_qkv = 30
projection_id vision_attn_o = 31
projection_id vision_mlp_fc1 = 32
projection_id vision_mlp_fc2 = 33
projection_id vision_patch_embed = 34
projection_id vision_conv_1x1 = 35
projection_id vision_conv_3x3 = 36
projection_id q_norm = 40
projection_id k_norm = 41
projection_id head_cls = 42

-- Members of an `IntEnum` are compared as integers.
abbrev pub same_family : TensorFamily → TensorFamily → Bool
same_family a b = family_id a == family_id b

abbrev pub same_projection : TensorProjection → TensorProjection → Bool
same_projection a b = projection_id a == projection_id b

pub record TensorRegistryEntry : Type 0 where
  pub name : Text
  pub tensor_id : ℕ
  pub family : TensorFamily
  pub layer : ℤ
  pub expert : ℤ
  pub projection : TensorProjection
  pub expected_shape : Option (List ℕ)

abbrev pub layer_base : ℕ
layer_base = 10000

abbrev pub layer_stride : ℕ
layer_stride = 1000

abbrev pub layer_moe_expert_base : ℕ
layer_moe_expert_base = 100

abbrev pub layer_moe_expert_stride : ℕ
layer_moe_expert_stride = 3

abbrev pub vision_sam_base : ℕ
vision_sam_base = 100000

abbrev pub vision_clip_base : ℕ
vision_clip_base = 200000

abbrev pub tensor_id_clip_position_ids : ℕ
tensor_id_clip_position_ids = 299999
