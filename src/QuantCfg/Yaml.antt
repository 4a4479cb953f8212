-- ===== src/QuantCfg/Yaml.antt =====
-- The values of `yaml.safe_load`, and the Python built-ins that src/unlimitedocr_c/quant_cfg.py
-- applies to them.
use unlimitedocr_c.Prelude.{
  ℕ, Bool, true, false, not, ◌&&◌, [], ◌∷◌, Option, none, some, Text, text_eq, ◌==◌, ◌^◌,
  if◌then◌else◌, Result, Error,
}
use unlimitedocr_c.Prelude.Int.{ℤ, pos, ◌==ℤ◌}

mutual
  -- A float is its IEEE bit pattern.
  pub data Yaml : Type 0 where
    null : Yaml
    bool : Bool → Yaml
    int : ℤ → Yaml
    float : ℕ → Yaml
    str : Text → Yaml
    list : Items → Yaml
    dict : Fields → Yaml

  pub data Items : Type 0 where
    nil : Items
    cons : Yaml → Items → Items

  pub data Fields : Type 0 where
    end : Fields
    field : Yaml → Yaml → Fields → Fields

-- `d.get(key)` of a text key
abbrev pub get : Text → Fields → Option Yaml
get key end = none
get key (field (str k) v d) = if text_eq key k then some v else get key d
get key (field null v d) = get key d
get key (field (bool b) v d) = get key d
get key (field (int i) v d) = get key d
get key (field (float b) v d) = get key d
get key (field (list xs) v d) = get key d
get key (field (dict e) v d) = get key d

-- `bool(v)`
abbrev pub truth : Yaml → Bool
truth null = false
truth (bool b) = b
truth (int i) = not (i ==ℤ pos 0)
truth (float b) = not (b == 0) && not (b == 2 ^ 63)
truth (str []) = false
truth (str (c ∷ s)) = true
truth (list nil) = false
truth (list (cons x xs)) = true
truth (dict end) = false
truth (dict (field k v d)) = true

-- What Python computes for the values above: `int(v)`, `str(v)`, `s.strip()` and `s.lower()`.
pub record Builtins : Type 0 where
  pub int_of : Yaml → Result Error ℤ
  pub str_of : Yaml → Text
  pub strip : Text → Text
  pub lower : Text → Text
