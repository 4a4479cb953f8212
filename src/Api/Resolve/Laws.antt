-- ===== src/Api/Resolve/Laws.antt =====
-- `resolve_model_path` of src/unlimitedocr_c/api.py: what a path that it returns is.
use unlimitedocr_c.Prelude.{◌≡◌, true, false, List, none, some, Text, Result, ok, Error, codes, All}
use unlimitedocr_c.Variants.{non_empty}
use unlimitedocr_c.Convert.Plan.{Qprofile}
use unlimitedocr_c.Api.Resolve.{
  System, Arguments, candidate_model_paths, quant_profile_for, cache_of,
}
use unlimitedocr_c.Api.Resolve.Files.{IsModel}
use unlimitedocr_c.Api.Resolve.Search.{Unused}

module _ (system : System) where
  open system use {Location, expanduser, resolve, look}

  module _ (convert : Location → Text → Qprofile → Text → Result Error Location) where
    -- Neither a path is given, nor one set in the environment.
    abbrev pub Unnamed : Arguments system → Type 0
    Unnamed a =
        (a.model_path ≡ none) × (non_empty (system.environ (codes "UOCR_MODEL_PATH")) ≡ none)

    -- A path that is returned: the file given; the one in the environment, where none is given; where
    -- neither is, one of the cache in the profile asked for; and what a download made, where the cache
    -- was not to be used or has no file at any of the places.
    pub data IsResolved (a : Arguments system) : Location → Type 0 where
      given :
          (path : Location)
          → a.model_path ≡ some path
          → IsModel system a.model none path
          → IsResolved a (resolve (expanduser path))
      from_environment :
          (text : Text)
          → a.model_path ≡ none
          → non_empty (system.environ (codes "UOCR_MODEL_PATH")) ≡ some text
          → IsModel system a.model none (system.path_of text)
          → IsResolved a (resolve (expanduser (system.path_of text)))
      cached :
          (qprofile : Qprofile) (path : Location)
          → quant_profile_for system a.quant ≡ ok qprofile
          → Unnamed a
          → a.force_reconvert ≡ false
          → IsModel system a.model (some qprofile) path
          → IsResolved a (resolve (expanduser path))
      converted :
          {path : Location} (qprofile : Qprofile) (filename : Text) (candidates : List Location)
          → quant_profile_for system a.quant ≡ ok qprofile
          → Unnamed a
          → candidate_model_paths system (cache_of system a.cache_dir) filename a.model qprofile
            ≡ ok candidates
          → All (Unused system a.force_reconvert) candidates
          → a.download ≡ true
          → convert (cache_of system a.cache_dir) filename qprofile a.model ≡ ok path
          → IsResolved a path
