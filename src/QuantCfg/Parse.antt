-- ===== src/QuantCfg/Parse.antt =====
-- `_parse_config` of src/unlimitedocr_c/quant_cfg.py. Every exception of it is a `ValueError`, but
-- for those of `int`.
use unlimitedocr_c.Prelude.{
  Bool, true, false, not, ◌&&◌, ◌||◌, List, [], ◌∷◌, ◌++◌, Option, none, some, Text, codes, text_eq,
  if◌then◌else◌, Result, ok, err, Error, value_error, ◌>>=◌, ◌>>◌, raise_if, or_raise,
}
use unlimitedocr_c.Prelude.Int.{ℤ, pos, ◌==ℤ◌}
use unlimitedocr_c.Registry.Types
use unlimitedocr_c.Registry.Types.{TensorFamily, TensorProjection}
use unlimitedocr_c.QuantCfg.Yaml.{
  Yaml, Items, Fields, str, int, list, dict, bool, nil, cons, get, truth, Builtins,
}
use unlimitedocr_c.QuantCfg.Types.{
  Qtype, q8_0, q4_0, QuantModuleSpec, QuantConfig, Pairs, pair_qtype, q4_allowed, contains,
}

-- `TensorFamily[name]`
abbrev pub family_names : List (Text × TensorFamily)
family_names =
    (codes "UNKNOWN", Types.unknown)
    ∷ (codes "TOK_EMBED", Types.tok_embed)
    ∷ (codes "LM_HEAD", Types.lm_head)
    ∷ (codes "FINAL_NORM", Types.final_norm)
    ∷ (codes "LAYER_ATTN", Types.layer_attn)
    ∷ (codes "LAYER_NORM", Types.layer_norm)
    ∷ (codes "LAYER_DENSE_MLP", Types.layer_dense_mlp)
    ∷ (codes "MOE_ROUTER", Types.moe_router)
    ∷ (codes "MOE_EXPERT", Types.moe_expert)
    ∷ (codes "MOE_SHARED", Types.moe_shared)
    ∷ (codes "VISION_SAM", Types.vision_sam)
    ∷ (codes "VISION_CLIP", Types.vision_clip)
    ∷ (codes "PROJECTOR", Types.projector)
    ∷ (codes "IMAGE_NEWLINE", Types.image_newline)
    ∷ (codes "VIEW_SEPARATOR", Types.view_separator)
    ∷ (codes "DASH_ROUTER", Types.dash_router)
    ∷ (codes "SPARSE_INDEXER", Types.sparse_indexer)
    ∷ []

-- `TensorProjection[name]`
abbrev pub projection_names : List (Text × TensorProjection)
projection_names =
    (codes "NONE", Types.proj_none)
    ∷ (codes "WEIGHT", Types.weight)
    ∷ (codes "BIAS", Types.bias)
    ∷ (codes "Q", Types.q)
    ∷ (codes "K", Types.k)
    ∷ (codes "V", Types.v)
    ∷ (codes "O", Types.o)
    ∷ (codes "GATE", Types.gate)
    ∷ (codes "UP", Types.up)
    ∷ (codes "DOWN", Types.down)
    ∷ (codes "VISION_ATTN_QKV", Types.vision_attn_qkv)
    ∷ (codes "VISION_ATTN_O", Types.vision_attn_o)
    ∷ (codes "VISION_MLP_FC1", Types.vision_mlp_fc1)
    ∷ (codes "VISION_MLP_FC2", Types.vision_mlp_fc2)
    ∷ (codes "VISION_PATCH_EMBED", Types.vision_patch_embed)
    ∷ (codes "VISION_CONV_1X1", Types.vision_conv_1x1)
    ∷ (codes "VISION_CONV_3X3", Types.vision_conv_3x3)
    ∷ (codes "Q_NORM", Types.q_norm)
    ∷ (codes "K_NORM", Types.k_norm)
    ∷ (codes "HEAD_CLS", Types.head_cls)
    ∷ []

abbrev named {ℓ} : {A : Type ℓ} → List (Text × A) → Text → Option A
named [] name = none
named ((w, a) ∷ d) name = if text_eq name w then some a else named d name

-- `_resolve_family`
unfoldable pub resolve_family : Text → Result Error TensorFamily
resolve_family name = or_raise (named family_names name) value_error

-- `_resolve_projection`
unfoldable pub resolve_projection : Text → Result Error TensorProjection
resolve_projection name = or_raise (named projection_names name) value_error

-- `qtype not in QUANT_CFG_QTYPES`
unfoldable pub resolve_qtype : Text → Result Error Qtype
resolve_qtype name =
    or_raise (named ((codes "q8_0", q8_0) ∷ (codes "q4_0", q4_0) ∷ []) name) value_error

abbrev get_or : Text → Yaml → Fields → Yaml
get_or key default d = elim (get key d) [ none ↦ default | some v ↦ v ]

-- `if not isinstance(v, list) or not v: raise`
abbrev pub non_empty_list : Option Yaml → Result Error Items
non_empty_list (some (list (cons x xs))) = ok (cons x xs)
non_empty_list (some (list nil)) = err value_error
non_empty_list (some (dict d)) = err value_error
non_empty_list (some _) = err value_error
non_empty_list none = err value_error

abbrev pub text_in : Text → List Text → Bool
text_in x [] = false
text_in x (y ∷ ys) = text_eq x y || text_in x ys

abbrev pub is_q4 : Qtype → Bool
is_q4 q8_0 = false
is_q4 q4_0 = true

-- `for projection in projections: …`, the loop over a supported module's pairs.
unfoldable pub add_pairs : TensorFamily → Qtype → List TensorProjection → Pairs → Result Error Pairs
add_pairs family qtype [] supported = ok supported
add_pairs family qtype (p ∷ ps) supported = elim (pair_qtype family p supported) [
  | some _ ↦ err value_error
  | none ↦ add_pairs family qtype ps (((family, p), qtype) ∷ supported)
]

-- `parsed`, `supported` and `seen_names`.
pub record State : Type 0 where
  pub parsed : List QuantModuleSpec
  pub supported : Pairs
  pub seen_names : List Text

module _ (py : Builtins) where
  open py use {int_of, str_of, strip, lower}

  -- `frozenset(_resolve_projection(str(p)) for p in raw_projections)`
  unfoldable pub projection_set : Items → Result Error (List TensorProjection)
  projection_set nil = ok []
  projection_set (cons x xs) = do
    p ← resolve_projection (str_of x)
    ps ← projection_set xs
    ok (if contains p ps then ps else p ∷ ps)

  -- The checks on one item, up to `parsed.append`.
  unfoldable pub parse_module : ℤ → List Text → Fields → Result Error QuantModuleSpec
  unfolding resolve_family projection_set resolve_qtype
  parse_module version seen item = do
    let name = strip (str_of (get_or (codes "name") (str []) item))
    raise_if (text_eq name []) value_error
    raise_if (text_in name seen) value_error
    family ← resolve_family (str_of (get_or (codes "family") (str []) item))
    raw_projections ← non_empty_list (get (codes "projections") item)
    projections ← projection_set raw_projections
    let supported = truth (get_or (codes "supported") (bool false) item)
    let raw_qtype = get_or (codes "qtype") (str (codes "q8_0")) item
    raise_if (version ==ℤ pos 1 && elim (get (codes "qtype") item) [ none ↦ false | some _ ↦ true ])
        value_error
    qtype ← resolve_qtype (lower (strip (str_of raw_qtype)))
    raise_if (is_q4 qtype && not (q4_allowed family)) value_error
    ok (record {
      name = name;
      family = family;
      projections = projections;
      supported = supported;
      qtype = qtype;
    })

  -- One round of the loop over the modules.
  unfoldable pub add_module : ℤ → State → Yaml → Result Error State
  add_module version s (dict item) = do
    m ← parse_module version s.seen_names item
    supported ←
        (if m.supported
          then add_pairs m.family m.qtype m.projections s.supported
          else ok s.supported)
    ok (record {
      parsed = s.parsed ++ m ∷ [];
      supported = supported;
      seen_names = m.name ∷ s.seen_names;
    })
  add_module version s (list xs) = err value_error
  add_module version s _ = err value_error

  unfoldable pub add_modules : ℤ → State → Items → Result Error State
  add_modules version s nil = ok s
  add_modules version s (cons x xs) = do s' ← add_module version s x; add_modules version s' xs

  -- The body behind `isinstance(raw, dict)`.
  unfoldable pub parse_fields : Fields → Result Error QuantConfig
  parse_fields raw = do
    version ← int_of (get_or (codes "version") (int (pos 1)) raw)
    raise_if (not (version ==ℤ pos 1 || version ==ℤ pos 2)) value_error
    group_size ← int_of (get_or (codes "group_size") (int (pos 64)) raw)
    raw_modules ← non_empty_list (get (codes "modules") raw)
    s ← add_modules version (record { parsed = []; supported = []; seen_names = [] }) raw_modules
    ok (record {
      version = version;
      group_size = group_size;
      modules = s.parsed;
      supported_pairs = s.supported;
    })

  unfoldable pub parse_config : Yaml → Result Error QuantConfig
  parse_config (dict raw) = parse_fields raw
  parse_config (list xs) = err value_error
  parse_config _ = err value_error
