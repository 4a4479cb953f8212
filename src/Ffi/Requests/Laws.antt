-- ===== src/Ffi/Requests/Laws.antt =====
-- Requests that src/unlimitedocr_c/frontend.py prepares, on their way through `as_c_request` of
-- src/unlimitedocr_c/ffi.py.
use unlimitedocr_c.Prelude.{
  ℕ, zero, suc, ◌+◌, ◌*◌, ◌≤◌, ◌≡◌, refl, true, List, [], ◌∷◌, map, All, Text, codes, length, ◌==◌,
  Result, ok, Error, ◌>>=◌, arith,
}
use unlimitedocr_c.Frontend.Types.{ViewKind, global, local, ImageView, PreparedRequest}
use unlimitedocr_c.Frontend.Requests.{page_views}
use unlimitedocr_c.Ffi.Requests.{
  Dtype, float16, float32, int32, uint8, other_dtype, is_float, Array, View, preprocess_view,
  from_pixels, each, check_view, validate_c_contiguous_array, check_pages, check_crops, CImageView,
  CPreparedRequest, c_view, c_views, as_c_request,
}

abbrev pub kind_name : ViewKind → Text
kind_name global = codes "global"
kind_name local = codes "local"

-- The views with their pixels, as the frontend makes them.
unfoldable pub views_of : Dtype → List ImageView → Result Error (List View)
unfolding preprocess_view from_pixels
views_of dtype [] = ok []
views_of dtype (v ∷ vs) = preprocess_view v.size dtype >>= λ pixels.
    from_pixels pixels (kind_name v.kind) v.source_index >>= λ view.
    views_of dtype vs >>= λ views. ok (view ∷ views)

abbrev pub line : Dtype → ℕ → Array
line dtype n = record { dtype = dtype; shape = n ∷ []; c_contiguous = true }

-- A request that is prepared, and then handed over.
unfoldable pub hand_over : Dtype → PreparedRequest → Result Error CPreparedRequest
unfolding views_of as_c_request
hand_over dtype r = views_of dtype r.views >>= λ views. as_c_request (record {
  input_ids = line int32 (length r.input_ids);
  image_mask = line uint8 (length r.image_mask);
  views = views;
  crop_grid_w = r.crop_grid_w;
  crop_grid_h = r.crop_grid_h;
  mode = r.mode;
  max_new_tokens = r.max_new_tokens;
})

abbrev pub whole : ℕ → ImageView
whole i = record { size = 1024; kind = global; source_index = i }

abbrev pub crop : ImageView
crop = record { size = 640; kind = local; source_index = 0 }

abbrev pub crops : ℕ → List ImageView
crops zero = whole 0 ∷ []
crops (suc n) = crop ∷ crops n

-- What a request of each mode shows.
pub data IsShown : Text → List ImageView → ℕ → ℕ → Type 0 where
  text_only : IsShown (codes "text-only") [] 1 1
  base_view : IsShown (codes "base") (whole 0 ∷ []) 1 1
  pages :
      (page : ℕ × ℕ) (images : List (ℕ × ℕ))
      → IsShown (codes "multi-page-base") (page_views 1024 0 (page ∷ images)) 1 1
  gundam_whole : IsShown (codes "gundam") (whole 0 ∷ []) 1 1
  gundam_crops : (w h : ℕ) → 2 ≤ w * h → IsShown (codes "gundam") (crops (w * h)) w h

-- A view of one of the two sizes.
pub data Sized : ImageView → Type 0 where
  whole_view : (i : ℕ) → Sized (whole i)
  crop_view : Sized crop

abbrev pub format_code : Dtype → ℕ
format_code float16 = 0
format_code _ = 1

abbrev pub kind_code : ViewKind → ℕ
kind_code global = 0
kind_code local = 1

abbrev pub c_image : Dtype → ImageView → CImageView
c_image dtype v = record {
  width = v.size;
  height = v.size;
  format = format_code dtype;
  kind = kind_code v.kind;
}

abbrev format_name : Dtype → Text
format_name float16 = codes "f16_nchw"
format_name _ = codes "f32_nchw"

abbrev pub view_of : Dtype → ImageView → View
view_of dtype v = record {
  pixels = record { dtype = dtype; shape = 3 ∷ v.size ∷ v.size ∷ []; c_contiguous = true };
  width = v.size;
  height = v.size;
  kind = kind_name v.kind;
  format = format_name dtype;
  source_index = v.source_index;
}

pub views_of-map :
    (dtype : Dtype) (vs : List ImageView)
    → is_float dtype ≡ true
    → views_of dtype vs ≡ ok (map (view_of dtype) vs)
unfolding views_of preprocess_view from_pixels
views_of-map dtype [] h = refl
views_of-map float16 (v ∷ vs) h = rw (views_of-map float16 vs h)
views_of-map float32 (v ∷ vs) h = rw (views_of-map float32 vs h)
views_of-map int32 (v ∷ vs) h = absurd (cc)
views_of-map uint8 (v ∷ vs) h = absurd (cc)
views_of-map other_dtype (v ∷ vs) h = absurd (cc)

check_view-Sized :
    (dtype : Dtype) (v : ImageView)
    → is_float dtype ≡ true
    → Sized v
    → (check_view (view_of dtype v) ≡ ok tt) × (c_view (view_of dtype v) ≡ ok (c_image dtype v))
unfolding check_view validate_c_contiguous_array c_view
check_view-Sized float16 _ h (whole_view i) = (refl, refl)
check_view-Sized float16 _ h crop_view = (refl, refl)
check_view-Sized float32 _ h (whole_view i) = (refl, refl)
check_view-Sized float32 _ h crop_view = (refl, refl)
check_view-Sized int32 _ h s = absurd (cc)
check_view-Sized uint8 _ h s = absurd (cc)
check_view-Sized other_dtype _ h s = absurd (cc)

pub all_Sized :
    (dtype : Dtype) (vs : List ImageView)
    → is_float dtype ≡ true
    → All Sized vs
    → (each check_view (map (view_of dtype) vs) ≡ ok tt)
      × (c_views (map (view_of dtype) vs) ≡ ok (map (c_image dtype) vs))
unfolding c_views
all_Sized dtype [] h s = (refl, refl)
all_Sized dtype (v ∷ vs) h s =
    let (a, b) = check_view-Sized dtype v h s.0 in
    let (c, d) = all_Sized dtype vs h s.1 in (rw (a, c), rw (b, d))

page_views-Sized : (i : ℕ) (images : List (ℕ × ℕ)) → All Sized (page_views 1024 i images)
page_views-Sized i [] = tt
page_views-Sized i (x ∷ xs) = (whole_view i, page_views-Sized (suc i) xs)

crops-Sized : (n : ℕ) → All Sized (crops n)
crops-Sized zero = (whole_view 0, tt)
crops-Sized (suc n) = (crop_view, crops-Sized n)

pub IsShown-Sized :
    (mode : Text) (vs : List ImageView) (w h : ℕ) → IsShown mode vs w h → All Sized vs
IsShown-Sized _ _ _ _ text_only = tt
IsShown-Sized _ _ _ _ base_view = (whole_view 0, tt)
IsShown-Sized _ _ _ _ (pages page images) = page_views-Sized 0 (page ∷ images)
IsShown-Sized _ _ _ _ gundam_whole = (whole_view 0, tt)
IsShown-Sized _ _ _ _ (gundam_crops w h many) = crops-Sized (w * h)

pub check_pages-page_views :
    (dtype : Dtype) (i : ℕ) (images : List (ℕ × ℕ))
    → check_pages i (map (view_of dtype) (page_views 1024 i images)) ≡ ok tt
unfolding check_pages
check_pages-page_views dtype i [] = refl
check_pages-page_views dtype i (x ∷ xs) =
    let same : (i == i) ≡ true = ground arith in rw (same, check_pages-page_views dtype (suc i) xs)

pub check_crops-crops :
    (dtype : Dtype) (n : ℕ) → check_crops (map (view_of dtype) (crops n)) ≡ ok tt
unfolding check_crops
check_crops-crops dtype zero = refl
check_crops-crops dtype (suc zero) = refl
check_crops-crops dtype (suc (suc n)) = check_crops-crops dtype (suc n)

pub length-crops : (n : ℕ) → length (crops n) ≡ n + 1
length-crops zero = refl
length-crops (suc n) = omega (arith, length-crops n)
