-- ===== src/Registry/Names.antt =====
-- The cases of `_entry_without_vision` in src/unlimitedocr_c/tensor_registry.py, one function for
-- each expression that the name is matched with. The layer and expert numbers are read by `\d+`.
use unlimitedocr_c.Prelude.{
  ℕ, ◌+◌, Bool, true, false, ◌||◌, Option, none, some, List, [], ◌∷◌, Text, codes, strip_prefix,
  text_eq, leb, if◌then◌else◌, Result, ok, err, Error, value_error,
}
use unlimitedocr_c.Prelude.Int.{ℤ, pos, negsuc}
use unlimitedocr_c.Registry.Types
use unlimitedocr_c.Registry.Types.{
  TensorFamily, TensorProjection, TensorRegistryEntry, same_projection, same_family, weight, bias,
  proj_none, q, k, q_norm, k_norm, head_cls, gate, up, vision_attn_qkv, vision_attn_o,
  vision_mlp_fc1, vision_mlp_fc2, tensor_id_clip_position_ids,
}
use unlimitedocr_c.Registry.Ids.{
  tensor_id_layer, tensor_id_layer_attn, tensor_id_dense_mlp, tensor_id_moe_shared,
  tensor_id_moe_expert,
}
use unlimitedocr_c.Registry.Patterns.{
  ◌>>=◌, at_end, line_rest, one_of, number, attn_prefixes, mlp_prefixes,
}

-- -1
abbrev pub minus_one : ℤ
minus_one = negsuc 0

abbrev entry_of : Text → ℕ → TensorFamily → ℤ → ℤ → TensorProjection → List ℕ → TensorRegistryEntry
entry_of name i family layer expert projection shape = record {
  name = name;
  tensor_id = i;
  family = family;
  layer = layer;
  expert = expert;
  projection = projection;
  expected_shape = some shape;
}

-- A value that a dictionary gave; `none` stands for its `KeyError`, which no caller here can meet.
abbrev value : Result Error ℕ → Option ℕ
value (ok i) = some i
value (err _) = none

-- An alternative's value and the rest of the text.
abbrev gate_or_up : TensorProjection → Bool
gate_or_up p = same_projection p gate || same_projection p up

abbrev pub clip_position_ids_name : Text
clip_position_ids_name = codes "model.vision_model.embeddings.position_ids"

-- The names that are compared whole.
unfoldable pub fixed_entry : Text → Option TensorRegistryEntry
fixed_entry name =
    if text_eq name (codes "model.embed_tokens.weight")
    then some (entry_of name 1 Types.tok_embed minus_one minus_one weight (129280 ∷ 1280 ∷ []))
    else if text_eq name (codes "lm_head.weight")
    then some (entry_of name 2 Types.lm_head minus_one minus_one weight (129280 ∷ 1280 ∷ []))
    else if text_eq name (codes "model.norm.weight")
    then some (entry_of name 3 Types.final_norm minus_one minus_one weight (1280 ∷ []))
    else if text_eq name (codes "model.image_newline")
    then some (entry_of name 4 Types.image_newline minus_one minus_one proj_none (1280 ∷ []))
    else if text_eq name (codes "model.view_seperator")
    then some (entry_of name 5 Types.view_separator minus_one minus_one proj_none (1280 ∷ []))
    else if text_eq name (codes "model.projector.layers.weight")
    then some (entry_of name 6 Types.projector minus_one minus_one weight (1280 ∷ 2048 ∷ []))
    else if text_eq name (codes "model.projector.layers.bias")
    then some (entry_of name 7 Types.projector minus_one minus_one bias (1280 ∷ []))
    else if text_eq name clip_position_ids_name
    then some (
        entry_of name tensor_id_clip_position_ids Types.vision_clip minus_one minus_one proj_none
          (1 ∷ 257 ∷ []))
    else none

-- `SPARSE_PROJECTIONS`
abbrev pub sparse_projections : List (Text × (ℕ × TensorProjection × List ℕ))
sparse_projections =
    (codes "q_proj.weight", (0, q, 128 ∷ 1280 ∷ []))
    ∷ (codes "k_proj.weight", (1, k, 128 ∷ 1280 ∷ []))
    ∷ (codes "q_norm.weight", (2, q_norm, 128 ∷ []))
    ∷ (codes "k_norm.weight", (3, k_norm, 128 ∷ []))
    ∷ (codes "head_cls", (4, head_cls, 128 ∷ []))
    ∷ []

abbrev lookup_text {ℓ} : {A : Type ℓ} → Text → List (Text × A) → Option A
lookup_text key [] = none
lookup_text key ((w, a) ∷ d) = if text_eq key w then some a else lookup_text key d

-- `_DENSE_MLP_RE`
pub dense_mlp_entry : Text → Option TensorRegistryEntry
unfolding tensor_id_dense_mlp
dense_mlp_entry name = do
  s ← strip_prefix (codes "model.layers.0.mlp.") name
  (projection, s') ← one_of mlp_prefixes s
  s'' ← strip_prefix (codes ".weight") s'
  _ ← at_end s''
  i ← value (tensor_id_dense_mlp projection)
  some (
      entry_of name i Types.layer_dense_mlp (pos 0) minus_one projection
        (if gate_or_up projection then 6848 ∷ 1280 ∷ [] else 1280 ∷ 6848 ∷ []))

module _ (digit_value : ℕ → Option ℕ) where
  -- `model.layers.(\d+).` at the front of five of the expressions.
  abbrev layer_prefix : Text → Option (ℕ × Text)
  layer_prefix name = do s ← strip_prefix (codes "model.layers.") name; number digit_value s

  -- `_SPARSE_RE`: the layer, whether the module is `dash_router`, and the suffix.
  pub match_sparse : Text → Option (ℕ × Bool × Text)
  unfolding number
  match_sparse name = do
    (layer, s) ← layer_prefix name
    s' ← strip_prefix (codes ".self_attn.") s
    (dash, s'') ← one_of ((codes "dash_router", true) ∷ (codes "indexer", false) ∷ []) s'
    s''' ← strip_prefix (codes ".") s''
    suffix ← line_rest s'''
    some (layer, dash, suffix)

  sparse_parts : Text → ℕ → Bool → ℕ → TensorProjection → List ℕ → TensorRegistryEntry
  unfolding tensor_id_layer
  sparse_parts name layer dash offset projection shape =
      entry_of name (tensor_id_layer layer ((if dash then 60 else 70) + offset))
        (if dash then Types.dash_router else Types.sparse_indexer) (pos layer) minus_one projection
        shape

  -- The body of `if match:` behind `_SPARSE_RE`.
  pub sparse_entry : Text → ℕ × Bool × Text → Result Error TensorRegistryEntry
  unfolding sparse_parts
  sparse_entry name (layer, dash, suffix) =
      if leb 12 layer then err value_error else elim (lookup_text suffix sparse_projections) [
        | none ↦ err value_error
        | some (offset, projection, shape) ↦
            if (if dash then false else text_eq suffix (codes "head_cls"))
            then err value_error
            else ok (sparse_parts name layer dash offset projection shape)
      ]

  -- `_LAYER_NORM_RE`
  pub layer_norm_entry : Text → Option TensorRegistryEntry
  unfolding number tensor_id_layer
  layer_norm_entry name = do
    (layer, s) ← layer_prefix name
    s' ← strip_prefix (codes ".") s
    (local, s'') ←
        one_of ((codes "input_layernorm", 1) ∷ (codes "post_attention_layernorm", 2) ∷ []) s'
    s''' ← strip_prefix (codes ".weight") s''
    _ ← at_end s'''
    some (
        entry_of name (tensor_id_layer layer local) Types.layer_norm (pos layer) minus_one weight
          (1280 ∷ []))

  -- `_ATTN_RE`
  pub attn_entry : Text → Option TensorRegistryEntry
  unfolding number tensor_id_layer_attn
  attn_entry name = do
    (layer, s) ← layer_prefix name
    s' ← strip_prefix (codes ".self_attn.") s
    (projection, s'') ← one_of attn_prefixes s'
    s''' ← strip_prefix (codes ".weight") s''
    _ ← at_end s'''
    i ← value (tensor_id_layer_attn layer projection)
    some (entry_of name i Types.layer_attn (pos layer) minus_one projection (1280 ∷ 1280 ∷ []))

  -- `_MOE_ROUTER_RE`
  pub moe_router_entry : Text → Option TensorRegistryEntry
  unfolding number tensor_id_layer
  moe_router_entry name = do
    (layer, s) ← layer_prefix name
    s' ← strip_prefix (codes ".mlp.gate.weight") s
    _ ← at_end s'
    some (
        entry_of name (tensor_id_layer layer 40) Types.moe_router (pos layer) minus_one weight
          (64 ∷ 1280 ∷ []))

  -- `_MOE_SHARED_RE`
  pub moe_shared_entry : Text → Option TensorRegistryEntry
  unfolding number tensor_id_moe_shared
  moe_shared_entry name = do
    (layer, s) ← layer_prefix name
    s' ← strip_prefix (codes ".mlp.shared_experts.") s
    (projection, s'') ← one_of mlp_prefixes s'
    s''' ← strip_prefix (codes ".weight") s''
    _ ← at_end s'''
    i ← value (tensor_id_moe_shared layer projection)
    some (
        entry_of name i Types.moe_shared (pos layer) minus_one projection
          (if gate_or_up projection then 1792 ∷ 1280 ∷ [] else 1280 ∷ 1792 ∷ []))

  -- `_MOE_EXPERT_RE`
  pub moe_expert_entry : Text → Option TensorRegistryEntry
  unfolding number tensor_id_moe_expert
  moe_expert_entry name = do
    (layer, s) ← layer_prefix name
    s' ← strip_prefix (codes ".mlp.experts.") s
    (expert, s'') ← number digit_value s'
    s''' ← strip_prefix (codes ".") s''
    (projection, t) ← one_of mlp_prefixes s'''
    t' ← strip_prefix (codes ".weight") t
    _ ← at_end t'
    i ← value (tensor_id_moe_expert layer expert projection)
    some (
        entry_of name i Types.moe_expert (pos layer) (pos expert) projection
          (if gate_or_up projection then 896 ∷ 1280 ∷ [] else 1280 ∷ 896 ∷ []))
