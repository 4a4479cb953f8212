-- ===== src/Registry/Ids.antt =====
-- The id functions of src/unlimitedocr_c/tensor_registry.py. A projection that the source's
-- dictionary literal lacks is a `KeyError`.
pub mod Laws
use unlimitedocr_c.Prelude.{ℕ, ◌+◌, ◌*◌, Result, ok, err, Error, key_error, ◌>>=◌}
use unlimitedocr_c.Registry.Types.{
  TensorProjection, q, k, v, o, gate, up, down, layer_base, layer_stride, layer_moe_expert_base,
  layer_moe_expert_stride,
}

unfoldable pub tensor_id_layer : ℕ → ℕ → ℕ
tensor_id_layer layer local_id = layer_base + layer * layer_stride + local_id

-- The dictionary from projections to local ids in `tensor_id_layer_attn`.
abbrev pub attn_local : TensorProjection → Result Error ℕ
attn_local q = ok 10
attn_local k = ok 11
attn_local v = ok 12
attn_local o = ok 13
attn_local _ = err key_error

-- The dictionaries `{GATE: a, UP: b, DOWN: c}` of the three MLP functions.
abbrev pub mlp_local : ℕ → ℕ → ℕ → TensorProjection → Result Error ℕ
mlp_local a b c gate = ok a
mlp_local a b c up = ok b
mlp_local a b c down = ok c
mlp_local a b c _ = err key_error

unfoldable pub tensor_id_layer_attn : ℕ → TensorProjection → Result Error ℕ
unfolding tensor_id_layer
tensor_id_layer_attn layer projection = do
  local ← attn_local projection
  ok (tensor_id_layer layer local)

unfoldable pub tensor_id_dense_mlp : TensorProjection → Result Error ℕ
unfolding tensor_id_layer
tensor_id_dense_mlp projection = do
  local ← mlp_local 30 31 32 projection
  ok (tensor_id_layer 0 local)

unfoldable pub tensor_id_moe_shared : ℕ → TensorProjection → Result Error ℕ
unfolding tensor_id_layer
tensor_id_moe_shared layer projection = do
  local ← mlp_local 50 51 52 projection
  ok (tensor_id_layer layer local)

unfoldable pub tensor_id_moe_expert : ℕ → ℕ → TensorProjection → Result Error ℕ
unfolding tensor_id_layer
tensor_id_moe_expert layer expert projection = do
  local ← mlp_local 0 1 2 projection
  ok (tensor_id_layer layer (layer_moe_expert_base + expert * layer_moe_expert_stride + local))
