-- ===== src/Examples/Configuring.antt =====
-- The smallest accepted quantization config.
use unlimitedocr_c.Prelude.{
  ◌≡◌, refl, true, Text, codes, Result, ok, err, Error, value_error, type_error,
}
use unlimitedocr_c.Prelude.Int.{ℤ, pos}
use unlimitedocr_c.Registry.Types.{family_id, projection_id}
use unlimitedocr_c.QuantCfg.Yaml.{
  Yaml, Fields, bool, int, str, list, dict, nil, cons, end, field, Builtins,
}
use unlimitedocr_c.QuantCfg.Types.{QuantConfig}
use unlimitedocr_c.QuantCfg.Parse.{
  parse_config, parse_fields, add_modules, add_module, parse_module, add_pairs, resolve_projection,
  resolve_family, resolve_qtype, projection_set,
}
use unlimitedocr_c.QuantCfg.Laws.{IsConfig, parse_config-IsConfig}

abbrev plain_int : Yaml → Result Error ℤ
plain_int (int i) = ok i
plain_int (list xs) = err type_error
plain_int _ = err value_error

abbrev plain_str : Yaml → Text
plain_str (str s) = s
plain_str (list xs) = codes "[]"
plain_str _ = codes "?"

abbrev builtins : Builtins
builtins = record { int_of = plain_int; str_of = plain_str; strip = λ s. s; lower = λ s. s }

abbrev entry : Text → Yaml → Fields → Fields
entry key v rest = field (str key) v rest

-- version: 2, with one module of q4_0 experts.
abbrev experts_yaml : Yaml
experts_yaml = dict (
    entry (codes "version") (int (pos 2)) (
      entry (codes "modules")
        (list (
          cons
            (dict (
              entry (codes "name") (str (codes "experts")) (
                entry (codes "family") (str (codes "MOE_EXPERT")) (
                  entry (codes "projections")
                    (list (cons (str (codes "GATE")) (cons (str (codes "UP")) nil)))
                    (entry (codes "supported") (bool true)
                      (entry (codes "qtype") (str (codes "q4_0")) end))))))
            nil))
        end))

run : (cfg : QuantConfig) × (parse_config builtins experts_yaml ≡ ok cfg)
unfolding parse_config parse_fields add_modules add_module parse_module add_pairs resolve_projection
    resolve_family resolve_qtype projection_set family_id projection_id
run = (_, refl)

parse_config-IsConfig_example : IsConfig run.0
parse_config-IsConfig_example = parse_config-IsConfig builtins experts_yaml run.0 run.1
