-- ===== src/Registry/Entries.antt =====
-- `_entry_without_vision` and `_vision_entry` of src/unlimitedocr_c/tensor_registry.py: the entry of
-- a checkpoint name, by the first expression that matches.
use unlimitedocr_c.Prelude.{
  ℕ, Option, none, some, List, [], ◌∷◌, Text, codes, strip_prefix, if◌then◌else◌, Result, ok, err,
  Error,
}
use unlimitedocr_c.Registry.Types.{
  TensorFamily, TensorProjection, TensorRegistryEntry, same_family, vision_sam, vision_clip,
  proj_none, vision_attn_qkv, vision_attn_o, vision_mlp_fc1, vision_mlp_fc2,
}
use unlimitedocr_c.Registry.Patterns.{◌>>=◌, at_end, one_of, number}
use unlimitedocr_c.Registry.Names.{
  minus_one, fixed_entry, match_sparse, sparse_entry, layer_norm_entry, attn_entry, dense_mlp_entry,
  moe_router_entry, moe_shared_entry, moe_expert_entry,
}

-- `if match: return …`, else what follows.
infixr 4 ◌or_else◌
abbrev ◌or_else◌ {ℓ} : {A : Type ℓ} → Option A → Option A → Option A
none or_else b = b
some a or_else b = some a

module _ (digit_value : ℕ → Option ℕ) where
  -- Behind `_SPARSE_RE`.
  pub layered_entry : Text → Option TensorRegistryEntry
  layered_entry name =
      layer_norm_entry digit_value name
      or_else attn_entry digit_value name
      or_else dense_mlp_entry name
      or_else moe_router_entry digit_value name
      or_else moe_shared_entry digit_value name
      or_else moe_expert_entry digit_value name

  unfoldable pub entry_without_vision : Text → Result Error (Option TensorRegistryEntry)
  unfolding layered_entry
  entry_without_vision name = elim (fixed_entry name) [
    | some e ↦ ok (some e)
    | none ↦ elim (match_sparse digit_value name) [
      | some m ↦ elim (sparse_entry digit_value name m) [ ok e ↦ ok (some e) | err x ↦ err x ]
      | none ↦ ok (layered_entry name)
    ]
  ]

  -- A rank-2 weight of a vision block: `prefix(\d+)middle(a|b)\.weight$`.
  pub match_block :
      Text
      → Text
      → List (Text × (TensorProjection × List ℕ))
      → Text
      → Option (TensorProjection × List ℕ)
  unfolding number
  match_block front middle alts name = do
    s ← strip_prefix front name
    (_, s') ← number digit_value s
    s'' ← strip_prefix middle s'
    (found, t) ← one_of alts s''
    t' ← strip_prefix (codes ".weight") t
    _ ← at_end t'
    some found

  -- `_SAM_ATTN_WEIGHT_RE`, then `_SAM_MLP_WEIGHT_RE`.
  pub match_sam : Text → Option (TensorProjection × List ℕ)
  unfolding match_block
  match_sam name =
      match_block (codes "model.sam_model.blocks.") (codes ".attn.")
        ((codes "qkv", (vision_attn_qkv, 2304 ∷ 768 ∷ []))
          ∷ (codes "proj", (vision_attn_o, 768 ∷ 768 ∷ []))
          ∷ [])
        name
      or_else match_block (codes "model.sam_model.blocks.") (codes ".mlp.")
          ((codes "lin1", (vision_mlp_fc1, 3072 ∷ 768 ∷ []))
            ∷ (codes "lin2", (vision_mlp_fc2, 768 ∷ 3072 ∷ []))
            ∷ [])
          name

  -- `_CLIP_ATTN_WEIGHT_RE`, then `_CLIP_MLP_WEIGHT_RE`.
  pub match_clip : Text → Option (TensorProjection × List ℕ)
  unfolding match_block
  match_clip name =
      match_block (codes "model.vision_model.transformer.layers.") (codes ".self_attn.")
        ((codes "qkv_proj", (vision_attn_qkv, 3072 ∷ 1024 ∷ []))
          ∷ (codes "out_proj", (vision_attn_o, 1024 ∷ 1024 ∷ []))
          ∷ [])
        name
      or_else match_block (codes "model.vision_model.transformer.layers.") (codes ".mlp.")
          ((codes "fc1", (vision_mlp_fc1, 4096 ∷ 1024 ∷ []))
            ∷ (codes "fc2", (vision_mlp_fc2, 1024 ∷ 4096 ∷ []))
            ∷ [])
          name

  vision_match : Text → TensorFamily → Option (TensorProjection × List ℕ)
  vision_match name family =
      if same_family family vision_sam
      then match_sam name
      else if same_family family vision_clip
      then match_clip name
      else none

  abbrev with_match :
      Text → ℕ → TensorFamily → Option (TensorProjection × List ℕ) → TensorRegistryEntry
  with_match name i family m = record {
    name = name;
    tensor_id = i;
    family = family;
    layer = minus_one;
    expert = minus_one;
    projection = elim m [ none ↦ proj_none | some (p, _) ↦ p ];
    expected_shape = elim m [ none ↦ none | some (_, shape) ↦ some shape ];
  }

  unfoldable pub vision_entry : Text → ℕ → TensorFamily → TensorRegistryEntry
  unfolding vision_match
  vision_entry name i family = with_match name i family (vision_match name family)
