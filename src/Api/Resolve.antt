-- ===== src/Api/Resolve.antt =====
-- `resolve_model_path` of src/unlimitedocr_c/api.py. Paths, the file system, the environment and the
-- normalization of a name are parameters, and so is the download with its conversion; the first 24
-- bytes of a file are those that are read. OSError is `io_error`.
pub mod Files
pub mod Search
pub mod Laws
pub mod Raises
use unlimitedocr_c.Prelude.{
  ℕ, Bool, true, false, not, ◌&&◌, ◌||◌, List, [], ◌∷◌, ◌++◌, take, drop, Option, none, some, Text,
  codes, text_eq, length, leb, ◌==◌, if◌then◌else◌, Result, ok, err, Error, value_error, io_error,
  resolution_error, ◌>>=◌, ◌>>◌, raise_if,
}
use unlimitedocr_c.Variants.{ModelVariant, get_model_variant, source_model, or_default, non_empty}
use unlimitedocr_c.Convert.Plan.{Qprofile, fp16, mixed_q8_0, mixed_q4}
use unlimitedocr_c.Convert.Structs.{from_bytes}

-- What stands at a path; a file that is locked is one that `open` fails on.
pub data Entry : Type 0 where
  missing not_file locked : Entry
  file : (prefix : List ℕ) → Entry

pub record System : Type 1 where
  pub Location : Type 0
  pub expanduser : Location → Location
  pub resolve : Location → Location
  pub join : Location → Text → Location
  pub same : Location → Location → Bool
  pub look : Location → Entry
  -- Whether `mkdir(parents=True, exist_ok=True)` returns.
  pub makes_directory : Location → Bool
  -- `Path(text)`, and its `.name`.
  pub path_of : Text → Location
  pub name_of : Text → Text
  pub default_cache_dir : Location
  pub model_cache_dir : Location → Text → Location
  -- `os.environ.get`
  pub environ : Text → Option Text
  -- `quant.strip().lower()`
  pub normalize : Text → Text

-- `QPROFILE_IDS`, and the names in it.
abbrev pub qprofile_id : Qprofile → ℕ
qprofile_id fp16 = 1
qprofile_id mixed_q8_0 = 2
qprofile_id mixed_q4 = 3

abbrev pub qprofile_name : Qprofile → Text
qprofile_name fp16 = codes "fp16"
qprofile_name mixed_q8_0 = codes "mixed-q8_0"
qprofile_name mixed_q4 = codes "mixed-q4"

abbrev is_any : Text → List Text → Bool
is_any s [] = false
is_any s (t ∷ ts) = text_eq s t || is_any s ts

-- A header of this format that is not of this version, or not of this profile.
abbrev pub is_recognized : List ℕ → Bool
is_recognized prefix = leb 8 (length prefix) && text_eq (take 4 prefix) (codes "UOCR")

abbrev pub version_of : List ℕ → ℕ
version_of prefix = from_bytes (take 4 (drop 4 prefix))

abbrev pub wrong_profile : Option Qprofile → List ℕ → Bool
wrong_profile none prefix = false
wrong_profile (some q) prefix =
    (length prefix == 24) && not (from_bytes (take 4 (drop 20 prefix)) == qprofile_id q)

module _ (system : System) where
  open system use {
    Location, expanduser, resolve, join, same, look, makes_directory, path_of, name_of,
    default_cache_dir, model_cache_dir, environ, normalize,
  }

  unfoldable pub require_existing_model : Location → Text → Option Qprofile → Result Error Location
  unfolding get_model_variant from_bytes
  require_existing_model path model qprofile = elim (look (expanduser path)) [
    | missing ↦ err resolution_error
    | not_file ↦ err resolution_error
    | locked ↦ err io_error
    | file prefix ↦
        let compared = get_model_variant model >>= λ variant.
        raise_if
          (not (version_of prefix == variant.format_version) || wrong_profile qprofile prefix)
          resolution_error in
        (if is_recognized prefix then compared else ok tt) >> ok (resolve (expanduser path))
  ]

  unfoldable pub quant_profile_for : Option Text → Result Error Qprofile
  quant_profile_for none = ok fp16
  quant_profile_for (some []) = ok fp16
  quant_profile_for (some (c ∷ s)) =
      let normalized = normalize (c ∷ s) in
      if is_any normalized (codes "q8" ∷ codes "q8_0" ∷ codes "mixed-q8_0" ∷ [])
      then ok mixed_q8_0
      else if is_any normalized (codes "q4" ∷ codes "q4_0" ∷ codes "mixed-q4" ∷ [])
      then ok mixed_q4
      else if is_any normalized (codes "fp16" ∷ codes "f16" ∷ codes "none" ∷ [])
      then ok fp16
      else err value_error

  -- `_model_filename_for`, of a profile.
  abbrev pub model_filename_for : Qprofile → Text
  model_filename_for mixed_q8_0 =
      or_default (environ (codes "UOCR_Q8_MODEL_FILENAME")) (codes "unlimitedocr-q8.uocr")
  model_filename_for mixed_q4 =
      or_default (environ (codes "UOCR_Q4_MODEL_FILENAME")) (codes "unlimitedocr-q4.uocr")
  model_filename_for fp16 =
      or_default (environ (codes "UOCR_MODEL_FILENAME")) (codes "unlimitedocr-fp16.uocr")

  -- `source_model(model) == (MODEL_REPOSITORIES["v1"], None)`
  abbrev pub is_default_source : Text × Option Text → Bool
  is_default_source (repo, none) = text_eq repo (codes "baidu/Unlimited-OCR")
  is_default_source (repo, some revision) = false

  unfoldable pub candidate_model_paths :
      Location → Text → Text → Qprofile → Result Error (List Location)
  unfolding source_model
  candidate_model_paths cache_dir filename model qprofile =
      let first = join (join (model_cache_dir cache_dir model) (qprofile_name qprofile)) filename in
      if text_eq model (codes "v1")
      then (source_model environ model >>= λ source. ok (
          first
          ∷ (if is_default_source source
              then join cache_dir filename ∷ join (join cache_dir (codes "models")) filename ∷ []
              else [])))
      else ok (first ∷ [])

  abbrev pub is_file : Location → Bool
  is_file path = elim (look path) [
    | file prefix ↦ true
    | missing ↦ false
    | not_file ↦ false
    | locked ↦ true
  ]

  abbrev pub is_seen : Location → List Location → Bool
  is_seen path [] = false
  is_seen path (p ∷ seen) = same path p || is_seen path seen

  -- The loop over the candidates; `none` where it ends without a return.
  unfoldable pub search :
      Bool → Text → Qprofile → List Location → List Location → Option (Result Error Location)
  unfolding require_existing_model
  search force model qprofile seen [] = none
  search force model qprofile seen (c ∷ candidates) =
      let candidate = expanduser c in
      let skipped = search force model qprofile seen candidates in
      let later = search force model qprofile (candidate ∷ seen) candidates in
      if is_seen candidate seen
      then skipped
      else if not force && is_file candidate
      then some (require_existing_model candidate model (some qprofile))
      else later

  -- An exception of the download or the conversion is raised again as ModelResolutionError.
  abbrev pub as_resolution : Result Error Location → Result Error Location
  as_resolution (ok path) = ok path
  as_resolution (err e) = err resolution_error

  pub record Arguments : Type 0 where
    pub model_path : Option Location
    pub cache_dir : Option Location
    pub download : Bool
    pub quant : Option Text
    pub force_reconvert : Bool
    pub model : Text

  abbrev pub cache_of : Option Location → Location
  cache_of none = default_cache_dir
  cache_of (some dir) = expanduser dir

  module _ (convert : Location → Text → Qprofile → Text → Result Error Location) where
    -- The search, and behind it the download.
    unfoldable pub found_or_converted :
        Arguments → Qprofile → Text → List Location → Result Error Location
    unfolding search
    found_or_converted a qprofile filename candidates =
        elim (search a.force_reconvert a.model qprofile [] candidates) [
          | some found ↦ found
          | none ↦
              raise_if (not a.download) resolution_error
              >> raise_if (not (makes_directory (cache_of a.cache_dir))) io_error
              >> as_resolution (convert (cache_of a.cache_dir) filename qprofile a.model)
        ]

    unfoldable pub from_filename : Arguments → Qprofile → Text → Result Error Location
    unfolding candidate_model_paths found_or_converted
    from_filename a qprofile filename =
        raise_if (length filename == 0 || not (text_eq (name_of filename) filename)) value_error
        >> (candidate_model_paths (cache_of a.cache_dir) filename a.model qprofile >>= λ candidates.
            raise_if (a.force_reconvert && not a.download) value_error
            >> found_or_converted a qprofile filename candidates)

    -- Behind the explicit path and the environment.
    unfoldable pub from_cache : Arguments → Result Error Location
    unfolding quant_profile_for from_filename
    from_cache a = quant_profile_for a.quant >>= λ qprofile.
        from_filename a qprofile (model_filename_for qprofile)

    -- Of the explicit path and the environment's, the first that is given.
    abbrev pub in_order : Arguments → Option Location → Option Text → Result Error Location
    in_order a (some path) variable = require_existing_model path a.model none
    in_order a none (some path) = require_existing_model (path_of path) a.model none
    in_order a none none = from_cache a

    unfoldable pub resolve_model_path : Arguments → Result Error Location
    unfolding require_existing_model from_cache
    resolve_model_path a = get_model_variant a.model >>= λ _.
        in_order a a.model_path (non_empty (environ (codes "UOCR_MODEL_PATH")))
