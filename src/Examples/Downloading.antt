-- ===== src/Examples/Downloading.antt =====
-- Downloading and converting a model, with a temporary file left from before.
use unlimitedocr_c.Prelude.{
  ◌≡◌, refl, true, false, if◌then◌else◌, [], ◌∷◌, ◌++◌, none, Text, codes, text_eq, Result, ok, err,
  Error, io_error,
}
use unlimitedocr_c.Convert.Plan.{mixed_q8_0}
use unlimitedocr_c.Api.Resolve.{System, Entry, missing, file}
use unlimitedocr_c.Api.Download.{
  Source, make_directory, unlink, write, replace, cached_path, write_files, download_and_convert,
}
use unlimitedocr_c.Api.Download.Laws.{IsOutcome, download_and_convert-IsOutcome}

abbrev look_up : Text → Entry
look_up path =
    let left_over = text_eq path (codes "cache/v1/mixed-q8_0/m.uocr.tmp") in
    if left_over then file [] else missing

abbrev machine : System
machine = record {
  Location = Text;
  expanduser = λ p. p;
  resolve = λ p. p;
  join = λ p name. p ++ codes "/" ++ name;
  same = text_eq;
  look = look_up;
  makes_directory = λ _. true;
  path_of = λ p. p;
  name_of = λ p. p;
  default_cache_dir = codes "cache";
  model_cache_dir = λ dir model. dir ++ codes "/" ++ model;
  environ = λ _. none;
  normalize = λ t. t;
}

-- A plan is the model that it is for.
abbrev hub : Result Error (Unit {0}) → Source Text
hub written = record {
  Snapshot = Text;
  Config = Unit;
  Plan = Text;
  snapshot_download = λ repo revision. ok repo;
  quant_cfg = ok tt;
  build_dry_run_plan = λ snapshot qprofile config. ok (codes "v1");
  model_variant = λ p. p;
  checks = λ plan. ok tt;
  sources = λ plan. ok tt;
  payloads = λ plan. written;
  report_text = λ plan. ok tt;
  report = λ plan. ok tt;
  hidden = λ p. p ++ codes ".hidden";
  parent = λ p. codes "cache/v1/mixed-q8_0";
  temporary = λ p. p ++ codes ".tmp";
  statistics = λ p. p ++ codes ".conversion-stats.json";
}

abbrev target : Text
target = codes "cache/v1/mixed-q8_0/m.uocr"

converted :
    download_and_convert machine
      (hub (ok tt))
      (codes "cache")
      (codes "m.uocr")
      mixed_q8_0
      false
      (codes "v1")
    ≡ (
      ok target,
      make_directory (codes "cache/v1/mixed-q8_0")
          ∷ unlink (target ++ codes ".tmp")
          ∷ make_directory (codes "cache/v1/mixed-q8_0")
          ∷ write (target ++ codes ".tmp.hidden")
          ∷ replace (target ++ codes ".tmp.hidden") (target ++ codes ".tmp")
          ∷ make_directory (codes "cache/v1/mixed-q8_0")
          ∷ write (target ++ codes ".conversion-stats.json.hidden")
          ∷ replace
              (target ++ codes ".conversion-stats.json.hidden")
              (target ++ codes ".conversion-stats.json")
          ∷ replace (target ++ codes ".tmp") target
          ∷ [],
    )
unfolding download_and_convert write_files
converted = refl

not_written :
    (download_and_convert machine
      (hub (err io_error))
      (codes "cache")
      (codes "m.uocr")
      mixed_q8_0
      true
      (codes "v1")).0
    ≡ err io_error
unfolding download_and_convert write_files
not_written = refl

download_and_convert-IsOutcome_example :
    IsOutcome machine
      (hub (ok tt))
      (cached_path machine (hub (ok tt)) (codes "cache") (codes "m.uocr") mixed_q8_0 (codes "v1"))
      (codes "v1")
      (download_and_convert machine
        (hub (ok tt))
        (codes "cache")
        (codes "m.uocr")
        mixed_q8_0
        false
        (codes "v1"))
download_and_convert-IsOutcome_example =
    download_and_convert-IsOutcome machine (hub (ok tt)) (codes "cache") (codes "m.uocr") mixed_q8_0
      false (codes "v1") refl
