-- ===== src/Frontend/Crops/Laws.antt =====
-- The grids and crop boxes of src/unlimitedocr_c/frontend.py.
use native.Mathlib.Nat.{
  div-add-mod, mod-lt, mul-le-mul_left, mul-le-mul_right, div-lt_iff_lt-mul, mul-div_cancel,
  mul_comm,
}
use native.Mathlib.Decide.{dec_lt}
use unlimitedocr_c.Prelude.{
  ℕ, zero, suc, ◌+◌, ◌*◌, ◌/◌, ◌%◌, ◌≤◌, ◌<◌, ◌≡◌, refl, ◌⊎◌, inl, inr, false, ◌&&◌, List, [], ◌∷◌,
  All, All-append, Pairwise, length, leb, ◌==◌, ok, arith, Bool-cases,
}
use unlimitedocr_c.Frontend.Crops.{
  Ratio, Floats, one_to, ratios_of, ratios_from, target_ratios, closest_from,
  find_closest_aspect_ratio, Box, crop_box, boxes_from, dynamic_preprocess,
}

-- A grid of at least one crop and at most `n`.
abbrev pub IsGrid : ℕ → Ratio → Type 0
IsGrid n r = (1 ≤ r.0) × (1 ≤ r.1) × (r.0 * r.1 ≤ n)

one_to-Positive : (n : ℕ) → All (λ i. 1 ≤ i) (one_to n)
one_to-Positive zero = tt
one_to-Positive (suc n) = All-append _ (one_to n) _ (one_to-Positive n) (omega arith, tt)

ratios_of-IsGrid :
    (lo hi i : ℕ) (js : List ℕ)
    → 1 ≤ i
    → All (λ j. 1 ≤ j) js
    → All (IsGrid hi) (ratios_of lo hi i js)
ratios_of-IsGrid lo hi i [] h k = tt
ratios_of-IsGrid lo hi i (j ∷ js) h k = elim (Bool-cases (leb lo (i * j) && leb (i * j) hi)) [
  | inl e ↦ rw e ((h, k.0, ground arith), ratios_of-IsGrid lo hi i js h k.1)
  | inr e ↦ rw e (ratios_of-IsGrid lo hi i js h k.1)
]

ratios_from-IsGrid :
    (lo hi : ℕ) (is js : List ℕ)
    → All (λ i. 1 ≤ i) is
    → All (λ j. 1 ≤ j) js
    → All (IsGrid hi) (ratios_from lo hi is js)
ratios_from-IsGrid lo hi [] js h k = tt
ratios_from-IsGrid lo hi (i ∷ is) js h k =
    All-append _ (ratios_of lo hi i js) _ (ratios_of-IsGrid lo hi i js h.0 k)
      (ratios_from-IsGrid lo hi is js h.1 k)

target_ratios-IsGrid : (lo hi : ℕ) → All (IsGrid hi) (target_ratios lo hi)
unfolding target_ratios
target_ratios-IsGrid lo hi =
    ratios_from-IsGrid lo hi (one_to hi) (one_to hi) (one_to-Positive hi) (one_to-Positive hi)

closest_from-All :
    (P : Ratio → Type 0) (floats : Floats) (aspect : floats.Float) (area size : ℕ) (rs : List Ratio)
    (diff : floats.Float) (best : Ratio)
    → All P rs
    → P best
    → P (closest_from floats aspect area size rs diff best)
unfolding closest_from
closest_from-All P floats aspect area size [] diff best h p = p
closest_from-All P floats aspect area size (r ∷ rs) diff best h p =
    let next = floats.abs_diff aspect (floats.ratio r.0 r.1) in
    elim (Bool-cases (floats.lt next diff)) [
      | inl e ↦ rw (e, closest_from) (closest_from-All P floats aspect area size rs next r h.1 h.0)
      | inr e ↦ elim (Bool-cases (floats.same next diff && floats.fills_half area size r)) [
        | inl f ↦
            rw (e, f, closest_from) (closest_from-All P floats aspect area size rs diff r h.1 h.0)
        | inr f ↦
            rw (e, f, closest_from) (closest_from-All P floats aspect area size rs diff best h.1 p)
      ]
    ]

-- A square of the given size within the target.
abbrev pub InTarget : Ratio → ℕ → Box → Type 0
InTarget grid size b =
    (b.right ≡ b.left + size)
    × (b.lower ≡ b.upper + size)
    × (b.right ≤ grid.0 * size)
    × (b.lower ≤ grid.1 * size)

-- Of two crops, the first lies to the left of the second or above it.
abbrev pub Apart : Box → Box → Type 0
Apart a b = (a.right ≤ b.left) ⊎ (a.lower ≤ b.upper)

next-times : (a b size : ℕ) → a < b → (a + 1) * size ≤ b * size
next-times a b size h = mul-le-mul_right {m = a + 1} {n = b} size (omega arith)

crop_box-InTarget :
    (grid : Ratio) (size i : ℕ)
    → 1 ≤ grid.0
    → i < grid.1 * grid.0
    → InTarget grid size (crop_box grid.0 size i)
unfolding crop_box
crop_box-InTarget (w, h) size i pos below =
    let column = mod-lt i pos in
    let row = (div-lt_iff_lt-mul pos).1 below in
    (omega arith, omega arith, next-times _ _ size column, next-times _ _ size row)

crop_box-Apart :
    (columns size i j : ℕ)
    → 1 ≤ columns
    → i < j
    → Apart (crop_box columns size i) (crop_box columns size j)
unfolding crop_box
crop_box-Apart columns size i j pos h = elim (dec_lt (i / columns) (j / columns)) [
  | yes row ↦ inr (next-times _ _ size row)
  | no same ↦
      let column : i % columns < j % columns = omega (
        arith,
        div-add-mod i columns,
        div-add-mod j columns,
        mul-le-mul_left {m = j / columns} {n = i / columns} columns (omega arith),
      ) in
      inl (next-times _ _ size column)
]

boxes_from-InTarget :
    (grid : Ratio) (size i n : ℕ)
    → 1 ≤ grid.0
    → i + n ≤ grid.1 * grid.0
    → All (InTarget grid size) (boxes_from grid.0 size i n)
boxes_from-InTarget grid size i zero pos h = tt
boxes_from-InTarget grid size i (suc n) pos h = (
  crop_box-InTarget grid size i pos (omega arith),
  boxes_from-InTarget grid size (suc i) n pos (omega arith),
)

boxes_from-later :
    (columns size i j n : ℕ)
    → 1 ≤ columns
    → i < j
    → All (Apart (crop_box columns size i)) (boxes_from columns size j n)
boxes_from-later columns size i j zero pos h = tt
boxes_from-later columns size i j (suc n) pos h = (
  crop_box-Apart columns size i j pos h,
  boxes_from-later columns size i (suc j) n pos (omega arith),
)

boxes_from-Apart :
    (columns size i n : ℕ) → 1 ≤ columns → Pairwise Apart (boxes_from columns size i n)
boxes_from-Apart columns size i zero pos = tt
boxes_from-Apart columns size i (suc n) pos = (
  boxes_from-later columns size i (suc i) n pos (omega arith),
  boxes_from-Apart columns size (suc i) n pos,
)

pub length-boxes_from : (columns size i n : ℕ) → length (boxes_from columns size i n) ≡ n
length-boxes_from columns size i zero = refl
length-boxes_from columns size i (suc n) = omega (arith, length-boxes_from columns size (suc i) n)

-- What a split into crops has: a grid of at most `most` crops, one square box for each, all within
-- the target and no two of them overlapping.
pub record IsSplit (most size : ℕ) (r : List Box × Ratio) : Type 0 where
  pub grid : IsGrid most r.1
  pub one_each : length r.0 ≡ r.1.0 * r.1.1
  pub inside : All (InTarget r.1 size) r.0
  pub apart : Pairwise Apart r.0

-- `sorted` keeps what holds of every ratio.
abbrev pub ArrangeKeeps : Floats → Type 1
ArrangeKeeps floats = (P : Ratio → Type 0) (rs : List Ratio) → All P rs → All P (floats.arrange rs)

-- Whatever the floats compute, an image of some height is split into a grid of at least one and at most `max_num`
-- crops, with one square box for each, all of them within the resized image and none overlapping
-- another. Crops have some size, at least one is allowed, and sorting loses or makes up no ratio.
pub dynamic_preprocess-IsSplit :
    (floats : Floats) (width height min_num max_num image_size : ℕ)
    → ArrangeKeeps floats
    → 1 ≤ height
    → 1 ≤ max_num
    → 1 ≤ image_size
    → (r : List Box × Ratio) × (dynamic_preprocess floats width height min_num max_num image_size
        ≡ ok r)
      × IsSplit max_num image_size r
unfolding dynamic_preprocess find_closest_aspect_ratio
dynamic_preprocess-IsSplit floats width height min_num max_num image_size keeps some_height
      some_crop some_size =
    let aspect = floats.ratio width height in
    let ratios = floats.arrange (target_ratios min_num max_num) in
    let grid =
      closest_from floats aspect (width * height) image_size ratios floats.infinity (1, 1) in
    let ok_grid : IsGrid max_num grid =
      closest_from-All (IsGrid max_num) floats aspect (width * height) image_size ratios
        floats.infinity (1, 1) (keeps (IsGrid max_num) _ (target_ratios-IsGrid min_num max_num))
        (omega arith, omega arith, omega arith) in
    let columns = mul-div_cancel grid.0 some_size in
    let positive : (image_size == 0) ≡ false = ground arith in
    let high : (height == 0) ≡ false = ground arith in
    let boxes = boxes_from grid.0 image_size 0 (grid.0 * grid.1) in
    (
      (boxes, grid),
      rw (high, positive, columns, dynamic_preprocess),
      record {
        grid = ok_grid;
        one_each = length-boxes_from grid.0 image_size 0 (grid.0 * grid.1);
        inside =
            boxes_from-InTarget grid image_size 0 (grid.0 * grid.1) ok_grid.0
              (omega (arith, mul_comm grid.0 grid.1));
        apart = boxes_from-Apart grid.0 image_size 0 (grid.0 * grid.1) ok_grid.0;
      },
    )
