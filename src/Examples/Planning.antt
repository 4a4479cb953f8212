-- ===== src/Examples/Planning.antt =====
-- The plan of a routed-expert matrix that a config wants as q4_0.
use unlimitedocr_c.Prelude.{[], ◌∷◌, Text, codes, some}
use unlimitedocr_c.Prelude.Int.{pos}
use unlimitedocr_c.Registry.Types.{TensorRegistryEntry, moe_expert, gate}
use unlimitedocr_c.QuantCfg.Types.{QuantConfig, q4_0}
use unlimitedocr_c.Convert.Plan.{HeaderEntry}

abbrev expert_name : Text
expert_name = codes "model.layers.1.mlp.experts.0.gate_proj.weight"

abbrev header : HeaderEntry
header = record { dtype = codes "BF16"; shape = 896 ∷ 1280 ∷ []; data_offsets = (100, 2293860) }

abbrev entry : TensorRegistryEntry
entry = record {
  name = expert_name;
  tensor_id = 11100;
  family = moe_expert;
  layer = pos 1;
  expert = pos 0;
  projection = gate;
  expected_shape = some (896 ∷ 1280 ∷ []);
}

abbrev config : QuantConfig
config = record {
  version = pos 2;
  group_size = pos 64;
  modules = [];
  supported_pairs = ((moe_expert, gate), q4_0) ∷ [];
}
