-- ===== src/QuantCfg.antt =====
-- src/unlimitedocr_c/quant_cfg.py: the quantization policy that configs/quant-cfg.yaml holds.
-- `Yaml` is what `yaml.safe_load` returns, `Types` the config and its queries, `Parse` is
-- `_parse_config`, and `Laws` is about the configs that it accepts.
pub mod Yaml
pub mod Types
pub mod Parse
pub mod Laws
