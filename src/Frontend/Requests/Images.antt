-- ===== src/Frontend/Requests/Images.antt =====
-- `prepare_image` of src/unlimitedocr_c/frontend.py with the default preset: its crops, views and
-- visual tokens.
use mathlib.Core.Path.{subst}
use native.Mathlib.Nat.{mul-le-mul}
use unlimitedocr_c.Prelude.{
  ℕ, ◌+◌, ◌*◌, ◌≤◌, ◌≡◌, ◌⊎◌, inl, inr, refl, sym, ap, ◌∙◌, Bool, true, false, not, ◌&&◌, ◌||◌,
  List, [], ◌∷◌, ◌++◌, Option, Text, codes, length, replicate, leb, ltb, ◌==◌, if◌then◌else◌, ok,
  value_error, >>=-eq-ok, ok-injective, err_ok, raise_if, arith, Bool-cases,
}
use unlimitedocr_c.Prelude.Int.{ℤ}
use unlimitedocr_c.Frontend.Types.{
  ImageView, local, global, PreparedRequest, by_name, gundam, resolve_preset,
  expected_visual_tokens, crop_visual_token_count,
}
use unlimitedocr_c.Frontend.Prompts.{count}
use unlimitedocr_c.Frontend.Crops.{Ratio, Box, Floats, dynamic_preprocess}
use unlimitedocr_c.Frontend.Crops.Laws.{ArrangeKeeps, IsGrid, dynamic_preprocess-IsSplit}
use unlimitedocr_c.Frontend.Requests.{
  ModelName, v1, v2, prepare_image, crops_of, image_views, local_views, prompt_or, image_prompt,
  occurs, is_v2, page_token, page_image,
}
use unlimitedocr_c.Frontend.Requests.Laws.{finish-Carries}

-- A crop of 640 pixels, and the whole image at 1024.
abbrev pub crop_view : ImageView
crop_view = record { size = 640; kind = local; source_index = 0 }

abbrev pub whole_view : ImageView
whole_view = record { size = 1024; kind = global; source_index = 0 }

-- The views and visual tokens of a grid of crops: a local view and 100 tokens for each crop, a
-- separator for each of its rows of tokens, and the global view with its 273 tokens. A single cell is
-- the global view alone.
abbrev pub Shows : List ImageView → ℕ → Ratio → Type 0
Shows views tokens grid =
    ((grid.0 ≡ 1) × (grid.1 ≡ 1) × (views ≡ whole_view ∷ []) × (tokens ≡ 273))
    ⊎ ((2 ≤ grid.0 * grid.1)
        × (views ≡ replicate (grid.0 * grid.1) crop_view ++ whole_view ∷ [])
        × (tokens ≡ (10 * grid.0 + 1) * (10 * grid.1) + 273))

local_views-replicate :
    (is_space : ℕ → Bool) (encode : Text → List ℕ) (boxes : List Box)
    → local_views is_space encode 640 boxes ≡ replicate (length boxes) crop_view
local_views-replicate is_space encode [] = refl
local_views-replicate is_space encode (b ∷ boxes) =
    ap (◌∷◌ crop_view) (local_views-replicate is_space encode boxes)

pub several_cells : (w h : ℕ) → 1 ≤ w → 1 ≤ h → (ltb 1 w || ltb 1 h) ≡ true → 2 ≤ w * h
several_cells w h pw ph f = elim (Bool-cases (ltb 1 w)) [
  | inl e ↦ let wide : 2 ≤ w = ground arith in mul-le-mul wide ph
  | inr e ↦ let high : 2 ≤ h = ground arith in mul-le-mul pw high
]

module _ (is_space : ℕ → Bool) (encode : Text → List ℕ) (floats : Floats) where
  -- The crops of an image: none and a grid of one cell, or a split.
  abbrev pub Cropped : List Box × Ratio → Type 0
  Cropped split =
      ((split.1.0 ≡ 1) × (split.1.1 ≡ 1) × (split.0 ≡ []))
      ⊎ ((length split.0 ≡ split.1.0 * split.1.1) × IsGrid 32 split.1)

  pub crops_of-Cropped :
      (model : ModelName) (image : ℕ × ℕ) (split : List Box × Ratio)
      → ArrangeKeeps floats
      → crops_of is_space encode floats model gundam image ≡ ok split
      → Cropped split
  unfolding crops_of dynamic_preprocess
  crops_of-Cropped model (w, h) split keeps e = elim (Bool-cases (leb w 640 && leb h 640)) [
    | inl f ↦ subst Cropped (ok-injective (rw f at e)) (inl (refl, refl, refl))
    | inr f ↦ elim (Bool-cases (h == 0)) [
      | inl flat ↦ absurd (err_ok (rw (f, flat, dynamic_preprocess) at e))
      | inr high ↦
          let most : ℕ = if is_v2 model then 16 else 32 in
          let (r, g, s) =
            dynamic_preprocess-IsSplit floats w h 2 most 640 keeps (ground arith) (some_crops model)
              (omega arith) in
          subst Cropped (ok-injective (sym g ∙ (rw f at e)))
            (inr (s.one_each, (s.grid.0, s.grid.1, omega (arith, s.grid.2, few_crops model))))
    ]
  ]
    where
      some_crops : (m : ModelName) → 1 ≤ (if is_v2 m then 16 else 32)
      some_crops v1 = omega arith
      some_crops v2 = omega arith

      few_crops : (m : ModelName) → (if is_v2 m then 16 else 32) ≤ 32
      few_crops v1 = omega arith
      few_crops v2 = omega arith

  shown_views :
      (w h : ℕ) (crops : List ImageView) (n : ℕ)
      → 1 ≤ w
      → 1 ≤ h
      → ((w ≡ 1) × (h ≡ 1)) ⊎ (crops ≡ replicate (w * h) crop_view)
      → crop_visual_token_count w h ≡ ok n
      → Shows ((if ltb 1 w || ltb 1 h then crops else []) ++ whole_view ∷ []) n (w, h)
  unfolding crop_visual_token_count
  shown_views w h crops n pw ph each e = elim (Bool-cases (ltb 1 w || ltb 1 h)) [
    | inr f ↦
        let w1 : w ≡ 1 = ground arith in
        let h1 : h ≡ 1 = ground arith in
        inl (w1, h1, rw f refl, sym (ok-injective (rw (w1, h1) at e)))
    | inl f ↦
        let some : (w == 0 || h == 0) ≡ false = ground arith in
        let many : (w == 1 && h == 1) ≡ false = ground arith in
        let crops_each : crops ≡ replicate (w * h) crop_view = elim each [
          | inl (w1, h1) ↦ absurd (ground arith)
          | inr k ↦ k
        ] in
        inr (
          several_cells w h pw ph f,
          rw f (ap (λ c. c ++ whole_view ∷ []) crops_each),
          sym (ok-injective (rw (some, many) at e)),
        )
  ]

  Cropped-Shows :
      (split : List Box × Ratio) (n : ℕ)
      → Cropped split
      → crop_visual_token_count split.1.0 split.1.1 ≡ ok n
      → Shows
          ((if ltb 1 split.1.0 || ltb 1 split.1.1
              then local_views is_space encode 640 split.0
              else [])
            ++ whole_view ∷ [])
          n
          split.1
        × (1 ≤ split.1.0 * split.1.1)
        × (split.1.0 * split.1.1 ≤ 32)
  Cropped-Shows (boxes, (w, h)) n (inl (w1, h1, none_left)) e = (
    shown_views w h (local_views is_space encode 640 boxes) n (omega arith) (omega arith)
        (inl (w1, h1)) e,
    rw (w1, h1) (omega arith),
    rw (w1, h1) (omega arith),
  )
  Cropped-Shows (boxes, (w, h)) n (inr (each, (pw, ph, few))) e = (
    shown_views w h (local_views is_space encode 640 boxes) n pw ph
        (inr (local_views-replicate is_space encode boxes ∙ ap (λ k. replicate k crop_view) each))
        e,
    mul-le-mul pw ph,
    few,
  )

  image_views-Shows :
      (model : ModelName) (image : ℕ × ℕ) (found : List ImageView × Ratio × ℕ)
      → ArrangeKeeps floats
      → image_views is_space encode floats model gundam image ≡ ok found
      → Shows found.0 found.2 found.1 × (1 ≤ found.1.0 * found.1.1) × (found.1.0 * found.1.1 ≤ 32)
  unfolding image_views
  image_views-Shows model image found keeps h =
      let (split, a, h1) = >>=-eq-ok (crops_of is_space encode floats model gundam image) _ h in
      let (n, b, h2) = >>=-eq-ok (crop_visual_token_count split.1.0 split.1.1) _ h1 in
      subst (λ f. Shows f.0 f.2 f.1 × (1 ≤ f.1.0 * f.1.1) × (f.1.0 * f.1.1 ≤ 32)) (ok-injective h2)
        (Cropped-Shows split n (crops_of-Cropped model image split keeps a) b)

  -- With the default preset, a request for an image that is prepared shows either a grid of one cell
  -- and the global view alone, with 273 visual tokens, or one local view for each cell of a larger
  -- grid and then the global one, with 100 tokens for each cell, one for each row of them, and 273; a grid has at most 32
  -- cells, and the mask is as long as the ids. Sorting is assumed to lose or make up no ratio.
  pub prepare_image-Shows :
      (image : ℕ × ℕ) (prompt : Option Text) (model : ModelName) (max_length : ℕ)
      (max_new_tokens : Option ℤ) (r : PreparedRequest)
      → ArrangeKeeps floats
      → prepare_image is_space encode floats image prompt model
          (by_name (codes "gundam"))
          max_length
          max_new_tokens
        ≡ ok r
      → Shows r.views (expected_visual_tokens r) (r.crop_grid_w, r.crop_grid_h)
        × (1 ≤ r.crop_grid_w * r.crop_grid_h)
        × (r.crop_grid_w * r.crop_grid_h ≤ 32)
        × (length r.input_ids ≡ length r.image_mask)
  unfolding prepare_image resolve_preset
  prepare_image-Shows image prompt model max_length max_new_tokens r keeps h =
      let text = prompt_or (image_prompt is_space encode model) prompt in
      let (u, pairs, h1) =
        >>=-eq-ok
          (raise_if
            (is_v2 model && (not (count page_token text == 1) || not (occurs page_image text)))
            value_error)
          _ h in
      let (found, e, h2) = >>=-eq-ok (image_views is_space encode floats model gundam image) _ h1 in
      let c =
        finish-Carries is_space encode gundam.name text (found.2 ∷ []) found.0 found.1 max_length
          max_new_tokens r h2 in
      let s = image_views-Shows model image found keeps e in
      let tokens : expected_visual_tokens r ≡ found.2 = omega (arith, c.0.visual) in
      rw (c.0.shown, tokens, c.1, c.2) (s.0, s.1, s.2, c.0.same_length)
