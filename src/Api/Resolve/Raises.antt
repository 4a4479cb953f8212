-- ===== src/Api/Resolve/Raises.antt =====
-- `resolve_model_path` of src/unlimitedocr_c/api.py: the exceptions that it raises.
use unlimitedocr_c.Prelude.{
  false, Result, ok, err, Error, value_error, io_error, resolution_error, ◌≡◌,
}
use unlimitedocr_c.Api.Resolve.{System, locked}

-- A result, or an exception of those allowed.
pub data IsReport (P : Error → Type 0) {A : Type 0} : Result Error A → Type 0 where
  returned : (a : A) → IsReport P (ok a)
  raised : {e : Error} → P e → IsReport P (err e)

module _ (system : System) where
  open system use {Location, expanduser, look, name_of, environ, normalize}

  -- `ValueError`, `ModelResolutionError`, or OSError where a file cannot be opened or the directory
  -- cannot be made.
  pub data IsRaised (directory : Location) : Error → Type 0 where
    by_value : IsRaised directory value_error
    by_resolution : IsRaised directory resolution_error
    unreadable : (path : Location) → look path ≡ locked → IsRaised directory io_error
    unmade : system.makes_directory directory ≡ false → IsRaised directory io_error

module _ (system : System) (directory : system.Location) where
  open system use {Location, expanduser, resolve, look, name_of, environ, normalize}

  abbrev Raises : {A : Type 0} → Result Error A → Type 0
  Raises m = IsReport (IsRaised system directory) m
