-- ===== src/Ffi/Requests.antt =====
-- `as_c_request` of src/unlimitedocr_c/ffi.py, and the checks in front of it. An array is its type
-- and shape; pointers, and what they point to, are left out. `views` are those of
-- src/unlimitedocr_c/frontend.py, as `ImageView.from_pixels` builds them from `preprocess_view`.
pub mod Laws
pub mod Contract
pub mod Accepted
use unlimitedocr_c.Prelude.{
  ℕ, suc, ◌+◌, ◌*◌, ◌%◌, ◌^◌, Bool, true, false, not, ◌&&◌, ◌||◌, List, [], ◌∷◌, map, Text, codes,
  text_eq, length, ltb, ◌==◌, if◌then◌else◌, Result, ok, err, Error, value_error, ◌>>=◌, ◌>>◌,
  raise_if,
}
use unlimitedocr_c.Frontend.Types.{
  ViewKind, global, local, PreparedRequest, global_view_size, local_view_size,
}

pub data Dtype : Type 0 where
  float16 float32 int32 uint8 other_dtype : Dtype

abbrev pub same_dtype : Dtype → Dtype → Bool
same_dtype float16 float16 = true
same_dtype float32 float32 = true
same_dtype int32 int32 = true
same_dtype uint8 uint8 = true
same_dtype other_dtype other_dtype = true
same_dtype _ _ = false

-- `np.ndarray`
pub record Array : Type 0 where
  pub dtype : Dtype
  pub shape : List ℕ
  pub c_contiguous : Bool

-- `ImageView`, with its pixels.
pub record View : Type 0 where
  pub pixels : Array
  pub width : ℕ
  pub height : ℕ
  pub kind : Text
  pub format : Text
  pub source_index : ℕ

-- What `as_c_request` reads of a `PreparedRequest`.
pub record Request : Type 0 where
  pub input_ids : Array
  pub image_mask : Array
  pub views : List View
  pub crop_grid_w : ℕ
  pub crop_grid_h : ℕ
  pub mode : Text
  pub max_new_tokens : ℕ

-- `ImageView.from_pixels`
abbrev pub pixel_format_of : Dtype → Result Error Text
pixel_format_of float16 = ok (codes "f16_nchw")
pixel_format_of float32 = ok (codes "f32_nchw")
pixel_format_of _ = err value_error

unfoldable pub from_pixels : Array → Text → ℕ → Result Error View
from_pixels pixels kind i = elim pixels.shape [
  | (channels ∷ height ∷ width ∷ []) ↦
      raise_if (not (channels == 3)) value_error
      >> (pixel_format_of pixels.dtype >>= λ format. ok (record {
        pixels = record pixels { c_contiguous = true };
        width = width;
        height = height;
        kind = kind;
        format = format;
        source_index = i;
      }))
  | _ ↦ err value_error
]

-- The array of `preprocess_view`.
abbrev pub is_float : Dtype → Bool
is_float float16 = true
is_float float32 = true
is_float _ = false

unfoldable pub preprocess_view : ℕ → Dtype → Result Error Array
preprocess_view size dtype =
    raise_if (not (is_float dtype)) value_error
    >> ok (record { dtype = dtype; shape = 3 ∷ size ∷ size ∷ []; c_contiguous = true })

-- `for item in items: …`, of a body that only checks.
abbrev pub each {ℓ} :
    {A : Type ℓ} → (A → Result Error (Unit {0})) → List A → Result Error (Unit {0})
each body [] = ok tt
each body (x ∷ xs) = body x >> each body xs

unfoldable pub validate_c_contiguous_array : Array → Dtype → ℕ → Result Error (Unit {0})
validate_c_contiguous_array array dtype ndim = do
  raise_if (not (same_dtype array.dtype dtype)) value_error
  raise_if (not (length array.shape == ndim)) value_error
  raise_if (not array.c_contiguous) value_error

abbrev pub expected_dtype : Text → Result Error Dtype
expected_dtype format =
    if text_eq format (codes "f16_nchw")
    then ok float16
    else if text_eq format (codes "f32_nchw")
    then ok float32
    else err value_error

abbrev pub check_size : View → Result Error (Unit {0})
check_size view =
    if text_eq view.kind (codes "global")
    then raise_if (not (view.width == global_view_size) || not (view.height == global_view_size))
        value_error
    else if text_eq view.kind (codes "local")
    then raise_if (not (view.width == local_view_size) || not (view.height == local_view_size))
        value_error
    else err value_error

-- The body of the loop of `_validate_view_pixels`.
unfoldable pub check_view : View → Result Error (Unit {0})
unfolding validate_c_contiguous_array
check_view view = expected_dtype view.format >>= λ dtype. do
  validate_c_contiguous_array view.pixels dtype 3
  raise_if (not (text_eq view.pixels.shape (3 ∷ view.height ∷ view.width ∷ []))) value_error
  check_size view

unfoldable pub validate_view_pixels : Request → Result Error (Unit {0})
unfolding check_view
validate_view_pixels r = each check_view r.views

abbrev pub is_kind : Text → View → Bool
is_kind kind view = text_eq view.kind kind

-- `len(views) != 1 or views[0].kind != "global"`
abbrev pub one_global : List View → Bool
one_global (v ∷ []) = is_kind (codes "global") v
one_global _ = false

-- The loop of the multi-page mode, from index `i` on.
unfoldable pub check_pages : ℕ → List View → Result Error (Unit {0})
check_pages i [] = ok tt
check_pages i (v ∷ vs) = do
  raise_if (not (is_kind (codes "global") v)) value_error
  raise_if (not (v.source_index == i)) value_error
  check_pages (suc i) vs

-- The loop over `views[:-1]`, and the check of `views[-1]`.
unfoldable pub check_crops : List View → Result Error (Unit {0})
check_crops [] = err value_error
check_crops (v ∷ []) = raise_if (not (is_kind (codes "global") v)) value_error
check_crops (v ∷ w ∷ vs) =
    raise_if (not (is_kind (codes "local") v)) value_error >> check_crops (w ∷ vs)

abbrev pub single_cell : Request → Bool
single_cell r = r.crop_grid_w == 1 && r.crop_grid_h == 1

unfoldable pub check_gundam : Request → Result Error (Unit {0})
unfolding check_crops
check_gundam r =
    raise_if (r.crop_grid_w == 0 || r.crop_grid_h == 0) value_error
    >> (if r.crop_grid_w * r.crop_grid_h == 1
        then raise_if (not (one_global r.views)) value_error
        else (raise_if (not (length r.views == r.crop_grid_w * r.crop_grid_h + 1)) value_error
            >> check_crops r.views))

unfoldable pub validate_public_view_contract : Request → Result Error (Unit {0})
unfolding validate_view_pixels check_pages check_gundam
validate_public_view_contract r =
    validate_view_pixels r
    >> (if text_eq r.mode (codes "text-only")
        then raise_if (not (length r.views == 0)) value_error
        else if text_eq r.mode (codes "base")
        then (raise_if (not (single_cell r)) value_error
            >> raise_if (not (one_global r.views)) value_error)
        else if text_eq r.mode (codes "multi-page-base")
        then (raise_if (not (single_cell r)) value_error
            >> (raise_if (length r.views == 0) value_error >> check_pages 0 r.views))
        else if text_eq r.mode (codes "gundam")
        then check_gundam r
        else ok tt)

-- `CImageView`, whose fields are 32 bits wide.
pub record CImageView : Type 0 where
  pub width : ℕ
  pub height : ℕ
  pub format : ℕ
  pub kind : ℕ

-- `CPreparedRequest`
pub record CPreparedRequest : Type 0 where
  pub n_tokens : ℕ
  pub views : List CImageView
  pub n_views : ℕ
  pub crop_grid_w : ℕ
  pub crop_grid_h : ℕ
  pub max_new_tokens : ℕ

-- `ct.c_uint32(n)`, which wraps around.
abbrev pub c_uint32 : ℕ → ℕ
c_uint32 n = n % 2 ^ 32

abbrev pub pixel_format : Text → Result Error ℕ
pixel_format name =
    if text_eq name (codes "f16_nchw")
    then ok 0
    else if text_eq name (codes "f32_nchw")
    then ok 1
    else err value_error

abbrev pub view_kind : Text → Result Error ℕ
view_kind kind =
    if text_eq kind (codes "global")
    then ok 0
    else if text_eq kind (codes "local")
    then ok 1
    else err value_error

unfoldable pub c_view : View → Result Error CImageView
c_view view = pixel_format view.format >>= λ format. view_kind view.kind >>= λ kind. ok (record {
  width = c_uint32 view.width;
  height = c_uint32 view.height;
  format = format;
  kind = kind;
})

unfoldable pub c_views : List View → Result Error (List CImageView)
unfolding c_view
c_views [] = ok []
c_views (v ∷ vs) = c_view v >>= λ c. c_views vs >>= λ cs. ok (c ∷ cs)

-- `array.shape[0]`, of an array of one dimension.
abbrev pub extent : Array → ℕ
extent array = elim array.shape [ [] ↦ 0 | (n ∷ ns) ↦ n ]

unfoldable pub as_c_request : Request → Result Error CPreparedRequest
unfolding validate_c_contiguous_array validate_public_view_contract c_views
as_c_request r =
    validate_c_contiguous_array r.input_ids int32 1
    >> (validate_c_contiguous_array r.image_mask uint8 1
        >> (raise_if (not (extent r.input_ids == extent r.image_mask)) value_error
            >> (validate_public_view_contract r
                >> (c_views r.views >>= λ cs. ok (record {
                  n_tokens = c_uint32 (extent r.input_ids);
                  views = cs;
                  n_views = c_uint32 (length r.views);
                  crop_grid_w = c_uint32 r.crop_grid_w;
                  crop_grid_h = c_uint32 r.crop_grid_h;
                  max_new_tokens = c_uint32 r.max_new_tokens;
                })))))
