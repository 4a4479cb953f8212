-- ===== src/Frontend/Types.antt =====
-- The records and constants of src/unlimitedocr_c/frontend.py, without pixels, and its counts of
-- visual tokens.
use unlimitedocr_c.Prelude.{
  ℕ, ◌+◌, ◌*◌, ◌/◌, Bool, true, false, ◌&&◌, ◌||◌, List, [], ◌∷◌, Text, codes, text_eq, ◌==◌,
  if◌then◌else◌, Result, ok, err, Error, value_error,
}

abbrev pub bos_token_id : ℕ
bos_token_id = 0

abbrev pub image_token_id : ℕ
image_token_id = 128815

abbrev pub image_token : Text
image_token = codes "<image>"

abbrev pub global_view_size : ℕ
global_view_size = 1024

abbrev pub local_view_size : ℕ
local_view_size = 640

-- `math.ceil((size // PATCH_SIZE) / DOWNSAMPLE_RATIO)`, exact for sizes that a float holds.
abbrev pub queries : ℕ → ℕ
queries size = (size / 16 + 3) / 4

unfoldable pub global_visual_token_count : ℕ → ℕ
global_visual_token_count image_size = (queries image_size + 1) * queries image_size + 1

-- `GLOBAL_VISUAL_TOKENS`
abbrev pub global_visual_tokens : ℕ
global_visual_tokens = (queries global_view_size + 1) * queries global_view_size + 1

unfoldable pub crop_visual_token_count : ℕ → ℕ → Result Error ℕ
crop_visual_token_count grid_w grid_h =
    if grid_w == 0 || grid_h == 0
    then err value_error
    else if grid_w == 1 && grid_h == 1
    then ok global_visual_tokens
    else ok (
        (queries local_view_size * grid_w + 1) * (queries local_view_size * grid_h)
        + global_visual_tokens)

pub record Preset : Type 0 where
  pub name : Text
  pub base_size : ℕ
  pub image_size : ℕ
  pub crop_mode : Bool

abbrev pub gundam : Preset
gundam = record { name = codes "gundam"; base_size = 1024; image_size = 640; crop_mode = true }

abbrev pub base : Preset
base = record { name = codes "base"; base_size = 1024; image_size = 1024; crop_mode = false }

-- `str | Preset`
pub data PresetChoice : Type 0 where
  given : Preset → PresetChoice
  by_name : Text → PresetChoice

unfoldable pub resolve_preset : PresetChoice → Result Error Preset
resolve_preset (given p) = ok p
resolve_preset (by_name n) =
    if text_eq n (codes "gundam")
    then ok gundam
    else if text_eq n (codes "base")
    then ok base
    else err value_error

-- `ViewKind`
pub data ViewKind : Type 0 where
  global local : ViewKind

-- A view is square, `size` pixels wide and high.
pub record ImageView : Type 0 where
  pub size : ℕ
  pub kind : ViewKind
  pub source_index : ℕ

-- `PreparedRequest`, less the paths and image metadata and the expected output of fixtures.
pub record PreparedRequest : Type 0 where
  pub input_ids : List ℕ
  pub image_mask : List ℕ
  pub views : List ImageView
  pub crop_grid_w : ℕ
  pub crop_grid_h : ℕ
  pub mode : Text
  pub prompt : Text
  pub rendered_prompt : Text
  pub max_new_tokens : ℕ
  pub max_length : ℕ

-- `image_mask.sum`
abbrev pub sum : List ℕ → ℕ
sum [] = 0
sum (x ∷ xs) = x + sum xs

abbrev pub expected_visual_tokens : PreparedRequest → ℕ
expected_visual_tokens r = sum r.image_mask
