-- ===== src/Examples/Resolving.antt =====
-- Resolving a model's path: a file given, a file of the cache, and a download.
use unlimitedocr_c.Prelude.{
  ℕ, ◌≡◌, refl, true, false, if◌then◌else◌, List, [], ◌∷◌, ◌++◌, none, some, Text, codes, text_eq,
  Result, err, Error, io_error, resolution_error,
}
use unlimitedocr_c.Convert.Plan.{Qprofile}
use unlimitedocr_c.Api.Resolve.{System, Entry, missing, file, Arguments, resolve_model_path}

-- A header of version 1, in the profile 2.
abbrev q8_header : List ℕ
q8_header =
    codes "UOCR"
    ++ 1 ∷ 0 ∷ 0 ∷ 0 ∷ 0 ∷ 0 ∷ 0 ∷ 0 ∷ 0 ∷ 0 ∷ 0 ∷ 0 ∷ 0 ∷ 0 ∷ 0 ∷ 0 ∷ 2 ∷ 0 ∷ 0 ∷ 0 ∷ []

abbrev look_up : Text → Entry
look_up path =
    let given = text_eq path (codes "cache/unlimitedocr-q8.uocr") in
    if given then file q8_header else missing

abbrev machine : System
machine = record {
  Location = Text;
  expanduser = λ p. p;
  resolve = λ p. p;
  join = λ p name. p ++ codes "/" ++ name;
  same = text_eq;
  look = look_up;
  makes_directory = λ _. true;
  path_of = λ p. p;
  name_of = λ p. p;
  default_cache_dir = codes "cache";
  model_cache_dir = λ dir model. dir ++ codes "/" ++ model;
  environ = λ _. none;
  normalize = λ t. t;
}

abbrev convert : Text → Text → Qprofile → Text → Result Error Text
convert dir filename qprofile model = err io_error

abbrev arguments : Arguments machine
arguments = record {
  model_path = none;
  cache_dir = none;
  download = false;
  quant = some (codes "q8");
  force_reconvert = false;
  model = codes "v1";
}

absent :
    resolve_model_path machine convert (record arguments { quant = none }) ≡ err resolution_error
unfolding resolve_model_path
absent = refl
