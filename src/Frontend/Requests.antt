-- ===== src/Frontend/Requests.antt =====
-- `prepare_image`, `prepare_pages` and `prepare_text` of src/unlimitedocr_c/frontend.py. An image is
-- its width and height: loading images and tokenizers, and pixels, are left out. `model` is known
-- to be `v1` or `v2` once `get_model_variant` has passed.
pub mod Laws
pub mod Images
use unlimitedocr_c.Prelude.{
  ℕ, zero, suc, ◌+◌, ◌*◌, Bool, true, false, not, ◌&&◌, ◌||◌, List, [], ◌∷◌, ◌++◌, Option, none,
  some, Text, codes, length, replicate, leb, ltb, ◌==◌, if◌then◌else◌, Result, ok, err, Error,
  value_error, ◌>>=◌, ◌>>◌, raise_if,
}
use unlimitedocr_c.Prelude.Int.{ℤ}
use unlimitedocr_c.Frontend.Types.{
  Preset, PresetChoice, resolve_preset, ViewKind, global, local, ImageView, PreparedRequest,
  global_visual_token_count, crop_visual_token_count, global_view_size, local_view_size,
}
use unlimitedocr_c.Frontend.Prompts.{render_prompt, count}
use unlimitedocr_c.Frontend.Sequence.{build_token_sequence, max_new_tokens_from_total}
use unlimitedocr_c.Frontend.Crops.{Ratio, Box, Floats, dynamic_preprocess}

-- `ModelName`
pub data ModelName : Type 0 where
  v1 v2 : ModelName

abbrev pub is_v2 : ModelName → Bool
is_v2 v1 = false
is_v2 v2 = true

abbrev pub page_token : Text
page_token = codes "<PAGE>"

abbrev pub page_image : Text
page_image = codes "<PAGE><image>"

-- `text * n`
abbrev pub repeat : ℕ → Text → Text
repeat zero text = []
repeat (suc n) text = text ++ repeat n text

abbrev pub prompt_or : Text → Option Text → Text
prompt_or default none = default
prompt_or default (some prompt) = prompt

-- `"<PAGE><image>" in prompt`
abbrev pub occurs : Text → Text → Bool
occurs marker text = not (count marker text == 0)

abbrev view : ViewKind → ℕ → ℕ → ImageView
view kind size i = record { size = size; kind = kind; source_index = i }

-- One view for each image, counting from `i`.
abbrev pub page_views : ℕ → ℕ → List (ℕ × ℕ) → List ImageView
page_views size i [] = []
page_views size i (image ∷ images) = view global size i ∷ page_views size (suc i) images

module _ (is_space : ℕ → Bool) (encode : Text → List ℕ) where
  -- The last part of each function: the token sequence, the budget and the record.
  unfoldable pub finish :
      Text → Text → List ℕ → List ImageView → ℕ × ℕ → ℕ → Option ℤ → Result Error PreparedRequest
  unfolding render_prompt build_token_sequence max_new_tokens_from_total
  finish mode prompt visual_counts views grid max_length max_new_tokens =
      build_token_sequence encode (render_prompt is_space prompt) visual_counts >>= λ sequence.
      max_new_tokens_from_total max_length (length sequence.0) max_new_tokens >>= λ request_max_new.
      ok (record {
        input_ids = sequence.0;
        image_mask = sequence.1;
        views = views;
        crop_grid_w = grid.0;
        crop_grid_h = grid.1;
        mode = mode;
        prompt = prompt;
        rendered_prompt = render_prompt is_space prompt;
        max_new_tokens = request_max_new;
        max_length = max_length;
      })

  unfoldable pub prepare_text : Text → ModelName → ℕ → Option ℤ → Result Error PreparedRequest
  unfolding finish
  prepare_text prompt model max_length max_new_tokens =
      raise_if (is_v2 model) value_error
      >> finish (codes "text-only") prompt [] [] (1, 1) max_length max_new_tokens

  abbrev pub pages_prompt : ModelName → ℕ → Text
  pages_prompt v1 n = codes "<image>Multi page parsing."
  pages_prompt v2 n = repeat n page_image ++ codes "Multi page parsing."

  abbrev pub pages_counts : ModelName → ℕ → ℕ → List ℕ
  pages_counts v1 size n = global_visual_token_count size * n ∷ []
  pages_counts v2 size n = replicate n (global_visual_token_count size)

  unfoldable pub prepare_pages :
      List (ℕ × ℕ) → Option Text → ModelName → ℕ → ℕ → Option ℤ → Result Error PreparedRequest
  unfolding finish
  prepare_pages images prompt model image_size max_length max_new_tokens = do
    let text = prompt_or (pages_prompt model (length images)) prompt
    raise_if (length images == 0) value_error
    raise_if (not (image_size == global_view_size)) value_error
    raise_if
        (is_v2 model
          && (not (count page_token text == length images)
              || not (count page_image text == length images)))
        value_error
    finish (codes "multi-page-base") text
        (pages_counts model image_size (length (page_views image_size 0 images)))
        (page_views image_size 0 images) (1, 1) max_length max_new_tokens

  abbrev pub image_prompt : ModelName → Text
  image_prompt v1 = codes "<image>document parsing."
  image_prompt v2 = codes "<PAGE><image>Multi page parsing."

  abbrev pub local_views : ℕ → List Box → List ImageView
  local_views size [] = []
  local_views size (b ∷ boxes) = view local size 0 ∷ local_views size boxes

  -- The crops of an image and their grid, in crop mode.
  unfoldable pub crops_of : Floats → ModelName → Preset → ℕ × ℕ → Result Error (List Box × Ratio)
  unfolding dynamic_preprocess
  crops_of floats model cfg (width, height) =
      if leb width local_view_size && leb height local_view_size
      then ok ([], (1, 1))
      else dynamic_preprocess floats width height 2 (if is_v2 model then 16 else 32) cfg.image_size

  -- The views, the grid and the count of visual tokens.
  unfoldable pub image_views :
      Floats → ModelName → Preset → ℕ × ℕ → Result Error (List ImageView × Ratio × ℕ)
  unfolding crops_of crop_visual_token_count global_visual_token_count
  image_views floats model cfg image =
      if cfg.crop_mode
      then (crops_of floats model cfg image >>= λ split.
          crop_visual_token_count split.1.0 split.1.1 >>= λ visual_count. ok (
            (if ltb 1 split.1.0 || ltb 1 split.1.1 then local_views cfg.image_size split.0 else [])
                ++ view global cfg.base_size 0 ∷ [],
            split.1,
            visual_count,
          ))
      else ok (view global cfg.image_size 0 ∷ [], (1, 1), global_visual_token_count cfg.image_size)

  unfoldable pub prepare_image :
      Floats
      → ℕ × ℕ
      → Option Text
      → ModelName
      → PresetChoice
      → ℕ
      → Option ℤ
      → Result Error PreparedRequest
  unfolding resolve_preset image_views finish
  prepare_image floats image prompt model preset max_length max_new_tokens =
      resolve_preset preset >>= λ cfg.
      let text = prompt_or (image_prompt model) prompt in
      raise_if (is_v2 model && (not (count page_token text == 1) || not (occurs page_image text)))
        value_error
      >> (image_views floats model cfg image >>= λ found.
          finish cfg.name text (found.2 ∷ []) found.0 found.1 max_length max_new_tokens)
