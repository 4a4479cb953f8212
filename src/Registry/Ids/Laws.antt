-- ===== src/Registry/Ids/Laws.antt =====
-- The ids of src/unlimitedocr_c/tensor_registry.py tell tensors apart.
use unlimitedocr_c.Prelude.{ℕ, ◌<◌, ◌≡◌, ok, arith, >>=-eq-ok}
use unlimitedocr_c.Registry.Types.{TensorProjection, gate, up, down}
use unlimitedocr_c.Registry.Ids.{tensor_id_layer, tensor_id_moe_expert, mlp_local}

-- With local ids below the stride, the id of a layer's tensor determines the layer and the local id.
pub tensor_id_layer_injective :
    (l m a b : ℕ)
    → a < 1000
    → b < 1000
    → tensor_id_layer l a ≡ tensor_id_layer m b
    → (l ≡ m) × (a ≡ b)
unfolding tensor_id_layer
tensor_id_layer_injective l m a b ha hb e = (omega arith, omega arith)

mlp_local_lt : (p : TensorProjection) {a : ℕ} → mlp_local 0 1 2 p ≡ ok a → a < 3
mlp_local_lt gate h = ground arith
mlp_local_lt up h = ground arith
mlp_local_lt down h = ground arith
mlp_local_lt _ h = ground arith

mlp_local_injective :
    (p p' : TensorProjection) {a : ℕ}
    → mlp_local 0 1 2 p ≡ ok a
    → mlp_local 0 1 2 p' ≡ ok a
    → p ≡ p'
mlp_local_injective gate p' h h' = ground arith
mlp_local_injective up p' h h' = ground arith
mlp_local_injective down p' h h' = ground arith
mlp_local_injective _ p' h h' = ground arith

-- With at most 300 experts, the id of a routed-expert tensor determines its layer, its expert
-- and its projection.
pub tensor_id_moe_expert_injective :
    (l m e f : ℕ) (p p' : TensorProjection) {i : ℕ}
    → e < 300
    → f < 300
    → tensor_id_moe_expert l e p ≡ ok i
    → tensor_id_moe_expert m f p' ≡ ok i
    → (l ≡ m) × (e ≡ f) × (p ≡ p')
unfolding tensor_id_moe_expert
tensor_id_moe_expert_injective l m e f p p' he hf h h' =
    let (a, ha, ea) = >>=-eq-ok (mlp_local 0 1 2 p) _ h in
    let (b, hb, eb) = >>=-eq-ok (mlp_local 0 1 2 p') _ h' in
    let la = mlp_local_lt p ha in
    let lb = mlp_local_lt p' hb in
    let parts : (l ≡ m) × (e ≡ f) × (a ≡ b) = ground arith in
    (parts.0, parts.1, mlp_local_injective p p' ha (rw (← parts.2) at hb))
