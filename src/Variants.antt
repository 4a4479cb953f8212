-- ===== src/Variants.antt =====
-- src/unlimitedocr_c/model_variants.py: the supported checkpoints, and where their files come from.
-- `get` is the environment, and an empty variable counts as unset.
pub mod Laws
use unlimitedocr_c.Prelude.{
  ℕ, Bool, true, false, ◌&&◌, List, [], ◌∷◌, Option, none, some, Text, codes, text_eq,
  if◌then◌else◌, Result, ok, err, Error, value_error, ◌>>=◌,
}

pub record ModelVariant : Type 0 where
  pub format_version : ℕ
  pub tensor_count : ℕ
  pub source_bytes : ℕ
  pub added_token_count : ℕ
  pub rope_theta : ℕ
  pub max_positions : ℕ
  pub generated_ring_window : ℕ

abbrev pub variant_v1 : ModelVariant
variant_v1 = record {
  format_version = 1;
  tensor_count = 2710;
  source_bytes = 6672212480;
  added_token_count = 830;
  rope_theta = 10000;
  max_positions = 32768;
  generated_ring_window = 128;
}

abbrev pub variant_v2 : ModelVariant
variant_v2 = record {
  format_version = 2;
  tensor_count = 2819;
  source_bytes = 6687958536;
  added_token_count = 834;
  rope_theta = 500000;
  max_positions = 131072;
  generated_ring_window = 0;
}

unfoldable pub get_model_variant : Text → Result Error ModelVariant
get_model_variant model =
    if text_eq model (codes "v1")
    then ok variant_v1
    else if text_eq model (codes "v2")
    then ok variant_v2
    else err value_error

-- `MODEL_REPOSITORIES[model]`, of a model that is known.
abbrev pub repository_of : Text → Text
repository_of model =
    if text_eq model (codes "v1")
    then codes "baidu/Unlimited-OCR"
    else codes "baidu/Unlimited-OCR-2"

abbrev pub v2_revision : Text
v2_revision = codes "c14071b549f4fcab10909f3c4acc6a2edb366947"

-- `os.environ.get(key) or None`
abbrev pub non_empty : Option Text → Option Text
non_empty none = none
non_empty (some []) = none
non_empty (some (c ∷ s)) = some (c ∷ s)

abbrev pub or_default : Option Text → Text → Text
or_default none d = d
or_default (some s) d = s

module _ (get : Text → Option Text) where
  -- The revision, which v2's official repository has pinned.
  abbrev pub pinned : Text → Text → Option Text → Option Text
  pinned model repo (some r) = some r
  pinned model repo none =
      if text_eq model (codes "v2") && text_eq repo (repository_of model)
      then some v2_revision
      else none

  unfoldable pub source_model : Text → Result Error (Text × Option Text)
  unfolding get_model_variant
  source_model model = get_model_variant model >>= λ _. ok (
    or_default (non_empty (get (codes "UOCR_SOURCE_MODEL_REPO_ID"))) (repository_of model),
    pinned model
        (or_default (non_empty (get (codes "UOCR_SOURCE_MODEL_REPO_ID"))) (repository_of model))
        (non_empty (get (codes "UOCR_SOURCE_MODEL_REVISION"))),
  )

  -- The tokenizer's revision: its own, or the model's where the repository is the same.
  abbrev pub tokenizer_revision : Text → Text × Option Text → Option Text → Option Text
  tokenizer_revision tokenizer_repo source (some r) = some r
  tokenizer_revision tokenizer_repo source none =
      if text_eq tokenizer_repo source.0 then source.1 else none

  unfoldable pub source_tokenizer : Text → Result Error (Text × Option Text)
  unfolding source_model
  source_tokenizer model = source_model model >>= λ source. ok (
    or_default (non_empty (get (codes "UOCR_TOKENIZER_REPO_ID"))) source.0,
    tokenizer_revision (or_default (non_empty (get (codes "UOCR_TOKENIZER_REPO_ID"))) source.0)
        source (non_empty (get (codes "UOCR_TOKENIZER_REVISION"))),
  )
