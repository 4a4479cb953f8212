-- ===== src/Frontend/Crops.antt =====
-- `find_closest_aspect_ratio` and `dynamic_preprocess` of src/unlimitedocr_c/frontend.py, less the
-- pixels. Arithmetic on floats is a parameter, and so is the order in which `sorted` leaves ratios of
-- the same area, which is that of a set.
pub mod Laws
use unlimitedocr_c.Prelude.{
  ℕ, zero, suc, ◌+◌, ◌*◌, ◌/◌, ◌%◌, Bool, true, false, ◌&&◌, List, [], ◌∷◌, ◌++◌, leb, ltb, ◌==◌,
  if◌then◌else◌, Result, ok, err, Error, value_error, zero_division_error,
}

abbrev pub Ratio : Type 0
Ratio = ℕ × ℕ

pub record Floats : Type 1 where
  pub Float : Type 0
  pub infinity : Float
  pub ratio : ℕ → ℕ → Float
  pub abs_diff : Float → Float → Float
  pub lt : Float → Float → Bool
  pub same : Float → Float → Bool
  -- `area > 0.5 * image_size * image_size * w * h`, of an area, a size and the ratio.
  pub fills_half : ℕ → ℕ → Ratio → Bool
  -- The order of `sorted(set(…), key=area)`.
  pub arrange : List Ratio → List Ratio

-- `range(1, n + 1)`
abbrev pub one_to : ℕ → List ℕ
one_to zero = []
one_to (suc n) = one_to n ++ suc n ∷ []

-- The `j` of one `i`, in the comprehension.
abbrev pub ratios_of : ℕ → ℕ → ℕ → List ℕ → List Ratio
ratios_of min_num max_num i [] = []
ratios_of min_num max_num i (j ∷ js) =
    if leb min_num (i * j) && leb (i * j) max_num
    then (i, j) ∷ ratios_of min_num max_num i js
    else ratios_of min_num max_num i js

abbrev pub ratios_from : ℕ → ℕ → List ℕ → List ℕ → List Ratio
ratios_from min_num max_num [] js = []
ratios_from min_num max_num (i ∷ is) js =
    ratios_of min_num max_num i js ++ ratios_from min_num max_num is js

-- The set `target_ratios`: the pairs up to `max_num` hold those of every smaller `n`, which a set
-- does not repeat.
unfoldable pub target_ratios : ℕ → ℕ → List Ratio
target_ratios min_num max_num = ratios_from min_num max_num (one_to max_num) (one_to max_num)

module _ (floats : Floats) where
  open floats use {Float, infinity, ratio, abs_diff, lt, same, fills_half, arrange}

  -- The loop of `find_closest_aspect_ratio`, with `best_ratio_diff` and `best_ratio`.
  unfoldable pub closest_from : Float → ℕ → ℕ → List Ratio → Float → Ratio → Ratio
  closest_from aspect area image_size [] best_diff best = best
  closest_from aspect area image_size (r ∷ rs) best_diff best =
      let diff = abs_diff aspect (ratio r.0 r.1) in
      elim (lt diff best_diff) [
        | true ↦ closest_from aspect area image_size rs diff r
        | false ↦ elim (same diff best_diff && fills_half area image_size r) [
          | true ↦ closest_from aspect area image_size rs best_diff r
          | false ↦ closest_from aspect area image_size rs best_diff best
        ]
      ]

  unfoldable pub find_closest_aspect_ratio : Float → List Ratio → ℕ → ℕ → ℕ → Ratio
  unfolding closest_from
  find_closest_aspect_ratio aspect ratios width height image_size =
      closest_from aspect (width * height) image_size ratios infinity (1, 1)

-- A crop box: left, upper, right, lower.
pub record Box : Type 0 where
  pub left : ℕ
  pub upper : ℕ
  pub right : ℕ
  pub lower : ℕ

-- The box of crop `i`, in a target of `columns` columns.
unfoldable pub crop_box : ℕ → ℕ → ℕ → Box
crop_box columns image_size i = record {
  left = (i % columns) * image_size;
  upper = (i / columns) * image_size;
  right = (i % columns + 1) * image_size;
  lower = (i / columns + 1) * image_size;
}

-- `range(i, i + n)`
abbrev pub boxes_from : ℕ → ℕ → ℕ → ℕ → List Box
boxes_from columns image_size i zero = []
boxes_from columns image_size i (suc n) =
    crop_box columns image_size i ∷ boxes_from columns image_size (suc i) n

-- The boxes and the grid. An image of no height has no aspect ratio, and an empty target is refused
-- when the image is resized.
unfoldable pub dynamic_preprocess : Floats → ℕ → ℕ → ℕ → ℕ → ℕ → Result Error (List Box × Ratio)
unfolding find_closest_aspect_ratio target_ratios crop_box
dynamic_preprocess floats width height min_num max_num image_size =
    let grid =
      find_closest_aspect_ratio floats (floats.ratio width height)
        (floats.arrange (target_ratios min_num max_num)) width height image_size in
    if height == 0
    then err zero_division_error
    else if image_size == 0
    then err value_error
    else ok (boxes_from (grid.0 * image_size / image_size) image_size 0 (grid.0 * grid.1), grid)
