-- ===== src/Frontend/Requests/Laws.antt =====
-- Requests of src/unlimitedocr_c/frontend.py: their visual tokens and views.
use mathlib.Core.Path.{subst}
use unlimitedocr_c.Prelude.{
  ℕ, zero, suc, ◌*◌, ◌≡◌, inl, inr, refl, sym, ap, ◌∙◌, Bool, not, ◌&&◌, ◌||◌, List, [], ◌∷◌,
  Option, Text, codes, length, replicate, ◌==◌, ok, err, value_error, >>=-eq-ok, ok-injective,
  err_ok, raise_if, arith, Bool-cases,
}
use unlimitedocr_c.Prelude.Int.{ℤ}
use unlimitedocr_c.Frontend.Types.{
  ImageView, PreparedRequest, expected_visual_tokens, sum, global_view_size,
  global_visual_token_count,
}
use unlimitedocr_c.Frontend.Prompts.{render_prompt, count}
use unlimitedocr_c.Frontend.Sequence.{build_token_sequence, max_new_tokens_from_total}
use unlimitedocr_c.Frontend.Sequence.Laws.{Masked-length, build_token_sequence-IsSequence}
use unlimitedocr_c.Frontend.Requests.{
  ModelName, v1, v2, finish, prepare_pages, pages_counts, page_views, prompt_or, pages_prompt,
  is_v2, page_token, page_image,
}

-- A request with the given views and number of visual tokens, whose mask goes with its ids.
pub record Carries (views : List ImageView) (tokens : ℕ) (r : PreparedRequest) : Type 0 where
  pub same_length : length r.input_ids ≡ length r.image_mask
  pub visual : expected_visual_tokens r ≡ tokens
  pub shown : r.views ≡ views

sequence_carries :
    (encode : Text → List ℕ) (prompt : Text) (counts : List ℕ) (found : List ℕ × List ℕ)
    → build_token_sequence encode prompt counts ≡ ok found
    → (length found.0 ≡ length found.1) × (sum found.1 ≡ sum counts)
sequence_carries encode prompt counts found h =
    elim (build_token_sequence-IsSequence encode prompt counts) [
      | inr (_, e) ↦ absurd (err_ok (e' e))
      | inl (_, (r, e, s)) ↦
          subst (λ f. (length f.0 ≡ length f.1) × (sum f.1 ≡ sum counts)) (ok-injective (sym e ∙ h))
            (ap suc (Masked-length s.masked), omega (arith, s.marks))
    ]
  where
    e' : build_token_sequence encode prompt counts ≡ err value_error → err value_error ≡ ok found
    e' e = sym e ∙ h

pub view_size :
    (n : ℕ) {u : Unit {0}} → raise_if (not (n == global_view_size)) value_error ≡ ok u → n ≡ 1024
view_size n h = elim (Bool-cases (n == 1024)) [
  | inl e ↦ ground arith
  | inr e ↦ absurd (err_ok (rw e at h))
]

tokens_at_1024 : (n : ℕ) → n ≡ 1024 → global_visual_token_count n ≡ 273
unfolding global_visual_token_count
tokens_at_1024 n h = rw h

module _ (is_space : ℕ → Bool) (encode : Text → List ℕ) where
  pub finish-Carries :
      (mode prompt : Text) (counts : List ℕ) (views : List ImageView) (grid : ℕ × ℕ)
      (max_length : ℕ) (max_new_tokens : Option ℤ) (r : PreparedRequest)
      → finish is_space encode mode prompt counts views grid max_length max_new_tokens ≡ ok r
      → Carries views (sum counts) r × (r.crop_grid_w ≡ grid.0) × (r.crop_grid_h ≡ grid.1)
  unfolding finish
  finish-Carries mode prompt counts views grid max_length max_new_tokens r h =
      let (found, e, h1) =
        >>=-eq-ok (build_token_sequence encode (render_prompt is_space prompt) counts) _ h in
      let (n, f, h2) =
        >>=-eq-ok (max_new_tokens_from_total max_length (length found.0) max_new_tokens) _ h1 in
      let (lengths, marks) =
        sequence_carries encode (render_prompt is_space prompt) counts found e in
      subst
        (λ r. Carries views (sum counts) r × (r.crop_grid_w ≡ grid.0) × (r.crop_grid_h ≡ grid.1))
        (ok-injective h2)
        (record { same_length = lengths; visual = marks; shown = refl }, refl, refl)

  sum-replicate : (n a : ℕ) → sum (replicate n a) ≡ a * n
  sum-replicate zero a = omega arith
  sum-replicate (suc n) a = omega (arith, sum-replicate n a)

  sum-pages_counts :
      (model : ModelName) (size n : ℕ)
      → sum (pages_counts is_space encode model size n) ≡ global_visual_token_count size * n
  sum-pages_counts v1 size n = omega arith
  sum-pages_counts v2 size n = sum-replicate n (global_visual_token_count size)

  length-page_views :
      (size i : ℕ) (images : List (ℕ × ℕ)) → length (page_views size i images) ≡ length images
  length-page_views size i [] = refl
  length-page_views size i (x ∷ xs) = ap suc (length-page_views size (suc i) xs)

  -- A request for pages has one view for each image, in order, and 273 visual tokens for each, in
  -- both models; its mask is as long as its ids.
  pub prepare_pages-Carries :
      (images : List (ℕ × ℕ)) (prompt : Option Text) (model : ModelName) (image_size max_length : ℕ)
      (max_new_tokens : Option ℤ) (r : PreparedRequest)
      → prepare_pages is_space encode images prompt model image_size max_length max_new_tokens
        ≡ ok r
      → Carries (page_views 1024 0 images) (273 * length images) r
        × (length r.views ≡ length images)
  unfolding prepare_pages
  prepare_pages-Carries images prompt model image_size max_length max_new_tokens r h =
      let text = prompt_or (pages_prompt is_space encode model (length images)) prompt in
      let (u1, some_image, h1) = >>=-eq-ok (raise_if (length images == 0) value_error) _ h in
      let (u2, size_known, h2) =
        >>=-eq-ok (raise_if (not (image_size == global_view_size)) value_error) _ h1 in
      let (u3, pairs, h3) =
        >>=-eq-ok
          (raise_if
            (is_v2 model
              && (not (count page_token text == length images)
                  || not (count page_image text == length images)))
            value_error)
          _ h2 in
      let c =
        finish-Carries (codes "multi-page-base") text
          (pages_counts is_space encode model image_size (length (page_views image_size 0 images)))
          (page_views image_size 0 images) (1, 1) max_length max_new_tokens r h3 in
      let size_is : image_size ≡ 1024 = view_size image_size size_known in
      let views = length-page_views image_size 0 images in
      let tokens : sum (
            pages_counts is_space encode model image_size (length (page_views image_size 0 images)))
          ≡ 273 * length images =
        sum-pages_counts model image_size (length (page_views image_size 0 images))
        ∙ (ap (◌*◌ (global_visual_token_count image_size)) views
            ∙ ap (λ t. t * length images) (tokens_at_1024 image_size size_is)) in
      (
        record {
          same_length = c.0.same_length;
          visual = c.0.visual ∙ tokens;
          shown = c.0.shown ∙ ap (λ n. page_views n 0 images) size_is;
        },
        ap length c.0.shown ∙ views,
      )
