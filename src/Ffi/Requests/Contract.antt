-- ===== src/Ffi/Requests/Contract.antt =====
-- The checks of src/unlimitedocr_c/ffi.py on a request that shows what its mode says.
use unlimitedocr_c.Prelude.{
  ℕ, zero, suc, ◌+◌, ◌*◌, ◌≤◌, ◌≡◌, refl, true, false, ◌||◌, List, [], ◌∷◌, map, Text, length,
  length-map, ◌==◌, ok, arith,
}
use unlimitedocr_c.Frontend.Types.{ImageView, PreparedRequest}
use unlimitedocr_c.Frontend.Requests.{page_views}
use unlimitedocr_c.Ffi.Requests.{
  Dtype, is_float, int32, uint8, Request, validate_c_contiguous_array, validate_view_pixels,
  check_gundam, validate_public_view_contract, CPreparedRequest, c_uint32, as_c_request,
}
use unlimitedocr_c.Ffi.Requests.Laws.{
  IsShown, text_only, base_view, pages, gundam_whole, gundam_crops, IsShown-Sized, all_Sized,
  views_of-map, view_of, check_pages-page_views, check_crops-crops, length-crops, crops, whole,
  line, hand_over, c_image,
}

-- The request of `as_c_request`, of views with their pixels.
abbrev handed : Dtype → Text → List ImageView → ℕ → ℕ → ℕ → ℕ → ℕ → Request
handed dtype mode vs w h ids mask budget = record {
  input_ids = line int32 ids;
  image_mask = line uint8 mask;
  views = map (view_of dtype) vs;
  crop_grid_w = w;
  crop_grid_h = h;
  mode = mode;
  max_new_tokens = budget;
}

cell_sides : (w h : ℕ) → 2 ≤ w * h → (w == 0 || h == 0) ≡ false
cell_sides zero h many = absurd (omega arith)
cell_sides (suc w) zero many = absurd (omega arith)
cell_sides (suc w) (suc h) many = ground arith

contract :
    (dtype : Dtype) (mode : Text) (vs : List ImageView) (w h ids mask budget : ℕ)
    → is_float dtype ≡ true
    → IsShown mode vs w h
    → validate_public_view_contract (handed dtype mode vs w h ids mask budget) ≡ ok tt
unfolding validate_public_view_contract validate_view_pixels check_gundam
contract dtype _ _ _ _ ids mask budget f text_only = refl
contract dtype mode vs w h ids mask budget f base_view =
    rw (all_Sized dtype (whole 0 ∷ []) f (IsShown-Sized _ _ _ _ base_view)).0
contract dtype mode vs w h ids mask budget f (pages page images) =
    let valid =
      (all_Sized dtype (page_views 1024 0 (page ∷ images)) f
        (IsShown-Sized _ _ _ _ (pages page images))).0 in
    let views = map (view_of dtype) (page_views 1024 0 (page ∷ images)) in
    let some_page : (length views == 0) ≡ false = ground arith in
    rw (valid, check_pages-page_views dtype 0 (page ∷ images), some_page)
contract dtype mode vs w h ids mask budget f gundam_whole =
    rw (all_Sized dtype (whole 0 ∷ []) f (IsShown-Sized _ _ _ _ gundam_whole)).0
contract dtype mode vs w h ids mask budget f (gundam_crops _ _ many) =
    let valid =
      (all_Sized dtype (crops (w * h)) f (IsShown-Sized _ _ _ _ (gundam_crops w h many))).0 in
    let nonempty : (w == 0 || h == 0) ≡ false = cell_sides w h many in
    let several : (w * h == 1) ≡ false = ground arith in
    let counted : (length (map (view_of dtype) (crops (w * h))) == w * h + 1) ≡ true =
      ground (arith, length-map (crops (w * h)) (view_of dtype), length-crops (w * h)) in
    rw (valid, nonempty, several, counted) (check_crops-crops dtype (w * h))

-- The native request of a prepared one.
abbrev pub native_of : Dtype → PreparedRequest → CPreparedRequest
native_of dtype r = record {
  n_tokens = c_uint32 (length r.input_ids);
  views = map (c_image dtype) r.views;
  n_views = c_uint32 (length r.views);
  crop_grid_w = c_uint32 r.crop_grid_w;
  crop_grid_h = c_uint32 r.crop_grid_h;
  max_new_tokens = c_uint32 r.max_new_tokens;
}

pub hand_over-IsShown :
    (dtype : Dtype) (r : PreparedRequest)
    → is_float dtype ≡ true
    → IsShown r.mode r.views r.crop_grid_w r.crop_grid_h
    → length r.input_ids ≡ length r.image_mask
    → hand_over dtype r ≡ ok (native_of dtype r)
unfolding hand_over as_c_request validate_c_contiguous_array
hand_over-IsShown dtype r f shown same =
    let ids = length r.input_ids in
    let mask = length r.image_mask in
    let equal : (ids == mask) ≡ true = ground arith in
    let valid =
      contract dtype r.mode r.views r.crop_grid_w r.crop_grid_h ids mask r.max_new_tokens f shown in
    let images = (all_Sized dtype r.views f (IsShown-Sized _ _ _ _ shown)).1 in
    rw (views_of-map dtype r.views f)
      (rw (equal, valid) (rw (images, length-map r.views (view_of dtype))))
