-- ===== src/Ffi/Requests/Accepted.antt =====
-- `as_c_request` of src/unlimitedocr_c/ffi.py accepts what src/unlimitedocr_c/frontend.py prepares.
use mathlib.Core.Path.{subst}
use unlimitedocr_c.Prelude.{
  ℕ, ◌*◌, ◌≤◌, ◌≡◌, ◌⊎◌, inl, inr, refl, sym, ap, Bool, true, not, ◌&&◌, ◌||◌, List, [], ◌∷◌, ◌++◌,
  Text, codes, text_eq, length, Option, ltb, ◌==◌, if◌then◌else◌, ok, value_error, raise_if, arith,
  Bool-cases, ok-injective, >>=-eq-ok, err_ok,
}
use unlimitedocr_c.Prelude.Int.{ℤ}
use unlimitedocr_c.Frontend.Types.{
  ImageView, PreparedRequest, Preset, by_name, gundam, base, resolve_preset, global_view_size,
  crop_visual_token_count,
}
use unlimitedocr_c.Frontend.Prompts.{render_prompt, count}
use unlimitedocr_c.Frontend.Sequence.{build_token_sequence, max_new_tokens_from_total}
use unlimitedocr_c.Frontend.Crops.{Ratio, Box, Floats}
use unlimitedocr_c.Frontend.Crops.Laws.{ArrangeKeeps}
use unlimitedocr_c.Frontend.Requests.{
  ModelName, finish, prepare_text, prepare_pages, prepare_image, image_views, crops_of, local_views,
  page_views, pages_counts, prompt_or, image_prompt, pages_prompt, is_v2, page_token, page_image,
  occurs,
}
use unlimitedocr_c.Frontend.Requests.Laws.{finish-Carries, view_size}
use unlimitedocr_c.Frontend.Requests.Images.{Cropped, crops_of-Cropped, several_cells}
use unlimitedocr_c.Ffi.Requests.{Dtype, is_float, each}
use unlimitedocr_c.Ffi.Requests.Laws.{
  IsShown, text_only, base_view, pages, gundam_whole, gundam_crops, crops, crop, whole, hand_over,
}
use unlimitedocr_c.Ffi.Requests.Contract.{native_of, hand_over-IsShown}

module _ (is_space : ℕ → Bool) (encode : Text → List ℕ) where
  finish-accepted :
      (mode prompt : Text) (counts : List ℕ) (views : List ImageView) (grid : ℕ × ℕ)
      (max_length : ℕ) (max_new_tokens : Option ℤ) (r : PreparedRequest) (dtype : Dtype)
      → is_float dtype ≡ true
      → IsShown mode views grid.0 grid.1
      → finish is_space encode mode prompt counts views grid max_length max_new_tokens ≡ ok r
      → hand_over dtype r ≡ ok (native_of dtype r)
  unfolding finish
  finish-accepted mode prompt counts views grid max_length max_new_tokens r dtype f shown h =
      let (found, e, h1) =
        >>=-eq-ok (build_token_sequence encode (render_prompt is_space prompt) counts) _ h in
      let (n, _, h2) =
        >>=-eq-ok (max_new_tokens_from_total max_length (length found.0) max_new_tokens) _ h1 in
      let c =
        finish-Carries is_space encode mode prompt counts views grid max_length max_new_tokens r
          h in
      hand_over-IsShown dtype r f
        (subst (λ (r : PreparedRequest). IsShown r.mode r.views r.crop_grid_w r.crop_grid_h)
          (ok-injective h2) shown)
        c.0.same_length

  -- A text-only request that is prepared is accepted.
  pub prepare_text-accepted :
      (prompt : Text) (model : ModelName) (max_length : ℕ) (max_new_tokens : Option ℤ)
      (r : PreparedRequest) (dtype : Dtype)
      → is_float dtype ≡ true
      → prepare_text is_space encode prompt model max_length max_new_tokens ≡ ok r
      → hand_over dtype r ≡ ok (native_of dtype r)
  unfolding prepare_text
  prepare_text-accepted prompt model max_length max_new_tokens r dtype f h =
      let (u, _, h1) = >>=-eq-ok (raise_if (is_v2 model) value_error) _ h in
      finish-accepted (codes "text-only") prompt [] [] (1, 1) max_length max_new_tokens r dtype f
        text_only h1

  -- A request for pages that is prepared passes all checks of `as_c_request`, with pixels of either
  -- float type; the native request has the views and counts of the prepared one, modulo 2 ^ 32.
  pub prepare_pages-accepted :
      (images : List (ℕ × ℕ)) (prompt : Option Text) (model : ModelName) (image_size max_length : ℕ)
      (max_new_tokens : Option ℤ) (r : PreparedRequest) (dtype : Dtype)
      → is_float dtype ≡ true
      → prepare_pages is_space encode images prompt model image_size max_length max_new_tokens
        ≡ ok r
      → hand_over dtype r ≡ ok (native_of dtype r)
  unfolding prepare_pages
  prepare_pages-accepted images prompt model image_size max_length max_new_tokens r dtype f h =
      let text = prompt_or (pages_prompt is_space encode model (length images)) prompt in
      let (u1, some_image, h1) = >>=-eq-ok (raise_if (length images == 0) value_error) _ h in
      let (u2, size_known, h2) =
        >>=-eq-ok (raise_if (not (image_size == global_view_size)) value_error) _ h1 in
      let (u3, pairs, h3) =
        >>=-eq-ok
          (raise_if
            (is_v2 model
              && (not (count page_token text == length images)
                  || not (count page_image text == length images)))
            value_error)
          _ h2 in
      finish-accepted (codes "multi-page-base") text
        (pages_counts is_space encode model image_size (length (page_views image_size 0 images)))
        (page_views image_size 0 images) (1, 1) max_length max_new_tokens r dtype f
        (subst (λ n. IsShown (codes "multi-page-base") (page_views n 0 images) 1 1)
          (sym (view_size image_size size_known)) (shown images some_image))
        h3
    where
      shown :
          (images : List (ℕ × ℕ)) {u : Unit {0}}
          → raise_if (length images == 0) value_error ≡ ok u
          → IsShown (codes "multi-page-base") (page_views 1024 0 images) 1 1
      shown [] e = absurd (err_ok e)
      shown (page ∷ images) e = pages page images

  module _ (floats : Floats) where
    local_views-crops :
        (boxes : List Box)
        → local_views is_space encode 640 boxes ++ whole 0 ∷ [] ≡ crops (length boxes)
    local_views-crops [] = refl
    local_views-crops (b ∷ boxes) = ap (◌∷◌ crop) (local_views-crops boxes)

    Cropped-IsShown :
        (split : List Box × Ratio)
        → Cropped is_space encode floats split
        → IsShown
            (codes "gundam")
            ((if ltb 1 split.1.0 || ltb 1 split.1.1
                then local_views is_space encode 640 split.0
                else [])
              ++ whole 0 ∷ [])
            split.1.0
            split.1.1
    Cropped-IsShown (boxes, (w, h)) (inl (w1, h1, none_left)) = rw (w1, h1) gundam_whole
    Cropped-IsShown (boxes, (w, h)) (inr (each, (pw, ph, few))) =
        elim (Bool-cases (ltb 1 w || ltb 1 h)) [
          | inl f ↦
              let many : 2 ≤ w * h = several_cells w h pw ph f in
              rw (f, local_views-crops boxes, each) (gundam_crops w h many)
          | inr f ↦
              let w1 : w ≡ 1 = ground arith in
              let h1 : h ≡ 1 = ground arith in rw (w1, h1) gundam_whole
        ]

    image_views-gundam :
        (model : ModelName) (image : ℕ × ℕ) (found : List ImageView × Ratio × ℕ)
        → ArrangeKeeps floats
        → image_views is_space encode floats model gundam image ≡ ok found
        → IsShown (codes "gundam") found.0 found.1.0 found.1.1
    unfolding image_views
    image_views-gundam model image found keeps h =
        let (split, a, h1) = >>=-eq-ok (crops_of is_space encode floats model gundam image) _ h in
        let (n, b, h2) = >>=-eq-ok (crop_visual_token_count split.1.0 split.1.1) _ h1 in
        subst (λ f. IsShown (codes "gundam") f.0 f.1.0 f.1.1) (ok-injective h2)
          (Cropped-IsShown split
            (crops_of-Cropped is_space encode floats model image split keeps a))

    image_views-base :
        (model : ModelName) (image : ℕ × ℕ) (found : List ImageView × Ratio × ℕ)
        → image_views is_space encode floats model base image ≡ ok found
        → IsShown (codes "base") found.0 found.1.0 found.1.1
    unfolding image_views
    image_views-base model image found h =
        subst (λ f. IsShown (codes "base") f.0 f.1.0 f.1.1) (ok-injective h) base_view

    -- The two presets that a name resolves to.
    resolve_preset-named :
        (name : Text) (cfg : Preset)
        → resolve_preset (by_name name) ≡ ok cfg
        → (cfg ≡ gundam) ⊎ (cfg ≡ base)
    unfolding resolve_preset
    resolve_preset-named name cfg h = elim (Bool-cases (text_eq name (codes "gundam"))) [
      | inl g ↦ inl (sym (ok-injective (rw g at h)))
      | inr g ↦ elim (Bool-cases (text_eq name (codes "base"))) [
        | inl b ↦ inr (sym (ok-injective (rw (g, b) at h)))
        | inr b ↦ absurd (err_ok (rw (g, b) at h))
      ]
    ]

    -- A request for an image that is prepared with a preset by name passes all checks of
    -- `as_c_request`, with pixels of either float type; the native request has the views and counts
    -- of the prepared one, modulo 2 ^ 32. Sorting is assumed to lose or make up no ratio.
    pub prepare_image-accepted :
        (image : ℕ × ℕ) (prompt : Option Text) (model : ModelName) (name : Text) (max_length : ℕ)
        (max_new_tokens : Option ℤ) (r : PreparedRequest) (dtype : Dtype)
        → ArrangeKeeps floats
        → is_float dtype ≡ true
        → prepare_image is_space encode floats image prompt model
            (by_name name)
            max_length
            max_new_tokens
          ≡ ok r
        → hand_over dtype r ≡ ok (native_of dtype r)
    unfolding prepare_image
    prepare_image-accepted image prompt model name max_length max_new_tokens r dtype keeps f h =
        let text = prompt_or (image_prompt is_space encode model) prompt in
        let (cfg, named, h0) = >>=-eq-ok (resolve_preset (by_name name)) _ h in
        let (u, pairs, h1) =
          >>=-eq-ok
            (raise_if
              (is_v2 model && (not (count page_token text == 1) || not (occurs page_image text)))
              value_error)
            _ h0 in
        let (found, e, h2) = >>=-eq-ok (image_views is_space encode floats model cfg image) _ h1 in
        finish-accepted cfg.name text (found.2 ∷ []) found.0 found.1 max_length max_new_tokens r
          dtype f (shown cfg found (resolve_preset-named name cfg named) e) h2
      where
        shown :
            (cfg : Preset) (found : List ImageView × Ratio × ℕ)
            → (cfg ≡ gundam) ⊎ (cfg ≡ base)
            → image_views is_space encode floats model cfg image ≡ ok found
            → IsShown cfg.name found.0 found.1.0 found.1.1
        shown cfg found (inl g) e =
            subst
              (λ (cfg : Preset).
                image_views is_space encode floats model cfg image ≡ ok found
                → IsShown cfg.name found.0 found.1.0 found.1.1)
              (sym g) (image_views-gundam model image found keeps) e
        shown cfg found (inr b) e =
            subst
              (λ (cfg : Preset).
                image_views is_space encode floats model cfg image ≡ ok found
                → IsShown cfg.name found.0 found.1.0 found.1.1)
              (sym b) (image_views-base model image found) e
