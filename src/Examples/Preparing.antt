-- ===== src/Examples/Preparing.antt =====
-- Requests with a tokenizer of one token for each character, and floats in thousandths.
use unlimitedocr_c.Prelude.{
  ℕ, ◌+◌, ◌-◌, ◌*◌, ◌/◌, ◌≤◌, ◌<◌, ◌≡◌, ◌≢◌, ◌⊎◌, refl, Bool, true, false, List, [], ◌∷◌, none,
  some, Text, codes, length, ltb, ◌==◌, Result, ok, err, Error, value_error, arith,
}
use unlimitedocr_c.Prelude.Int.{pos, negsuc}
use unlimitedocr_c.Parsing.Scan.{strip}
use unlimitedocr_c.Frontend.Types.{
  PreparedRequest, expected_visual_tokens, by_name, resolve_preset, bos_token_id, image_token,
  global_visual_token_count, crop_visual_token_count,
}
use unlimitedocr_c.Frontend.Prompts.{count, split_marker, render_prompt, format_messages_plain}
use unlimitedocr_c.Frontend.Sequence.{
  build_token_sequence, token_spans, max_new_tokens_from_total, cap_max_new_tokens,
}
use unlimitedocr_c.Frontend.Sequence.Laws.{
  IsSequence, build_token_sequence-IsSequence, cap_max_new_tokens-bound,
  max_new_tokens_from_total-total,
}
use unlimitedocr_c.Frontend.Crops.{
  Ratio, Box, Floats, dynamic_preprocess, target_ratios, closest_from, find_closest_aspect_ratio,
  crop_box,
}
use unlimitedocr_c.Frontend.Crops.Laws.{IsSplit, ArrangeKeeps, dynamic_preprocess-IsSplit}
use unlimitedocr_c.Frontend.Requests.{
  v2, prepare_pages, prepare_image, finish, page_views, image_views, crops_of,
}
use unlimitedocr_c.Frontend.Requests.Laws.{Carries, prepare_pages-Carries}
use unlimitedocr_c.Frontend.Requests.Images.{Shows, prepare_image-Shows}

abbrev pub space : ℕ → Bool
space c = c == 32

abbrev pub letters : Text → List ℕ
letters s = s

abbrev pub thousandths : Floats
thousandths = record {
  Float = ℕ;
  infinity = 1000000000;
  ratio = λ w h. w * 1000 / h;
  abs_diff = λ a b. (a - b) + (b - a);
  lt = ltb;
  same = λ a b. a == b;
  fills_half = λ area size r. ltb (size * size * r.0 * r.1) (2 * area);
  arrange = λ rs. rs;
}

pub thousandths-ArrangeKeeps : ArrangeKeeps thousandths
thousandths-ArrangeKeeps P rs h = h

abbrev five_tokens : List ℕ
five_tokens = 5 ∷ []

abbrev some_request : PreparedRequest
some_request = record {
  input_ids = 0 ∷ 97 ∷ [];
  image_mask = 0 ∷ 0 ∷ [];
  views = [];
  crop_grid_w = 1;
  crop_grid_h = 1;
  mode = codes "text-only";
  prompt = codes "a";
  rendered_prompt = codes "a";
  max_new_tokens = 40;
  max_length = 42;
}

abbrev is_ok : Result Error PreparedRequest → Bool
is_ok (ok r) = true
is_ok (err e) = false

-- What a call returned.
abbrev pub returned : Result Error PreparedRequest → PreparedRequest
returned (ok r) = r
returned (err e) = some_request

ok-returned : (m : Result Error PreparedRequest) → is_ok m ≡ true → m ≡ ok (returned m)
ok-returned (ok r) h = refl
ok-returned (err e) h = absurd (cc)

dynamic_preprocess-IsSplit_example :
    (r : List Box × Ratio) × (dynamic_preprocess thousandths 1280 640 2 16 640 ≡ ok r)
    × IsSplit 16 640 r
dynamic_preprocess-IsSplit_example =
    dynamic_preprocess-IsSplit thousandths 1280 640 2 16 640 thousandths-ArrangeKeeps (omega arith)
      (omega arith) (omega arith)

build_token_sequence-IsSequence_example :
    ((count image_token (codes "a<image>b") ≡ length five_tokens)
      × ((r : List ℕ × List ℕ) × (build_token_sequence letters (codes "a<image>b") five_tokens
            ≡ ok (bos_token_id ∷ r.0, 0 ∷ r.1))
          × IsSequence five_tokens r))
    ⊎ ((count image_token (codes "a<image>b") ≢ length five_tokens)
        × (build_token_sequence letters (codes "a<image>b") five_tokens ≡ err value_error))
build_token_sequence-IsSequence_example =
    build_token_sequence-IsSequence letters (codes "a<image>b") five_tokens

max_new_tokens_from_total-total_example :
    (n : ℕ) × (max_new_tokens_from_total 300 274 none ≡ ok n)
    × ((274 + n ≡ 300) ⊎ ((n ≡ 0) × (300 < 274)))
max_new_tokens_from_total-total_example = max_new_tokens_from_total-total 300 274

abbrev pub two_pages : List (ℕ × ℕ)
two_pages = (800, 600) ∷ (600, 800) ∷ []

abbrev pub pages_call : Result Error PreparedRequest
pages_call = prepare_pages space letters two_pages none v2 1024 4096 none

pub pages_call-returned : pages_call ≡ ok (returned pages_call)
unfolding prepare_pages finish build_token_sequence token_spans max_new_tokens_from_total
    render_prompt format_messages_plain split_marker strip global_visual_token_count
pages_call-returned = ok-returned pages_call refl

prepare_pages-Carries_example :
    Carries (page_views 1024 0 two_pages) (273 * length two_pages) (returned pages_call)
    × (length (returned pages_call).views ≡ length two_pages)
prepare_pages-Carries_example =
    prepare_pages-Carries space letters two_pages none v2 1024 4096 none (returned pages_call)
      pages_call-returned

cap_max_new_tokens-bound_example :
    (cap_max_new_tokens some_request (some (negsuc 9)) ≡ err value_error)
    × ((r : PreparedRequest) × (cap_max_new_tokens some_request (some (pos 9)) ≡ ok r)
        × (r.max_new_tokens ≤ 9)
        × (r.max_new_tokens ≤ some_request.max_new_tokens)
        × ((r.max_new_tokens ≡ 9) ⊎ (r.max_new_tokens ≡ some_request.max_new_tokens))
        × (r ≡ record some_request { max_new_tokens = r.max_new_tokens }))
cap_max_new_tokens-bound_example = cap_max_new_tokens-bound some_request 9

abbrev pub image_call : Result Error PreparedRequest
image_call =
    prepare_image space letters thousandths (1280, 640) none v2 (by_name (codes "gundam")) 4096 none

pub image_call-returned : image_call ≡ ok (returned image_call)
unfolding prepare_image resolve_preset image_views crops_of crop_visual_token_count
    dynamic_preprocess target_ratios closest_from find_closest_aspect_ratio crop_box finish
    build_token_sequence token_spans max_new_tokens_from_total render_prompt format_messages_plain
    split_marker strip
image_call-returned = ok-returned image_call refl

prepare_image-Shows_example :
    Shows
      (returned image_call).views
      (expected_visual_tokens (returned image_call))
      ((returned image_call).crop_grid_w, (returned image_call).crop_grid_h)
    × (1 ≤ (returned image_call).crop_grid_w * (returned image_call).crop_grid_h)
    × ((returned image_call).crop_grid_w * (returned image_call).crop_grid_h ≤ 32)
    × (length (returned image_call).input_ids ≡ length (returned image_call).image_mask)
prepare_image-Shows_example =
    prepare_image-Shows space letters thousandths (1280, 640) none v2 4096 none
      (returned image_call) thousandths-ArrangeKeeps image_call-returned
