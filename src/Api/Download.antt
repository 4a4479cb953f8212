-- ===== src/Api/Download.antt =====
-- `_download_and_convert_source_model` of src/unlimitedocr_c/api.py, with what it does to files as a
-- list in order, down to `write_uocr_model` and `_write_conversion_stats_report` of
-- src/unlimitedocr_c/convert.py. The download, the configuration, the plan and whether the parts of
-- its writing succeed are parameters; that making a directory, removing or renaming a file may fail
-- is left out.
pub mod Laws
use unlimitedocr_c.Prelude.{
  Bool, true, false, not, ◌&&◌, List, [], ◌∷◌, ◌++◌, Option, none, some, Text, text_eq,
  if◌then◌else◌, Result, ok, err, Error, value_error,
}
use unlimitedocr_c.Variants.{source_model}
use unlimitedocr_c.Convert.Plan.{Qprofile}
use unlimitedocr_c.Api.Resolve.{
  System, Entry, missing, not_file, locked, file, require_existing_model, qprofile_name,
}

-- What is done to files.
pub data Effect (Location : Type 0) : Type 0 where
  make_directory unlink write : (path : Location) → Effect Location
  replace : (source target : Location) → Effect Location

pub record Source (Location : Type 0) : Type 1 where
  pub Snapshot : Type 0
  pub Config : Type 0
  pub Plan : Type 0
  pub snapshot_download : Text → Option Text → Result Error Snapshot
  pub quant_cfg : Result Error Config
  pub build_dry_run_plan : Snapshot → Qprofile → Config → Result Error Plan
  pub model_variant : Plan → Text
  -- Of `write_uocr_model`: the checks before the directory is made, what comes between it and the
  -- `try`, and the writing of the file; and of its report, the text and the writing.
  pub checks : Plan → Result Error (Unit {0})
  pub sources : Plan → Result Error (Unit {0})
  pub payloads : Plan → Result Error (Unit {0})
  pub report_text : Plan → Result Error (Unit {0})
  pub report : Plan → Result Error (Unit {0})
  -- `with_name(f".{name}.tmp")`, and `parent`.
  pub hidden : Location → Location
  pub parent : Location → Location
  -- `with_name(name + ".tmp")`, and the path of the statistics.
  pub temporary : Location → Location
  pub statistics : Location → Location

abbrev exists : Entry → Bool
exists missing = false
exists not_file = true
exists locked = true
exists (file prefix) = true

module _ (system : System) (source : Source system.Location) where
  open system use {Location, resolve, join, look, model_cache_dir, environ}

  abbrev pub Outcome : Type 0
  Outcome = Result Error Location × List (Effect Location)

  abbrev pub Written : Type 0
  Written = Result Error (Unit {0}) × List (Effect Location)

  -- The directory, and a temporary file left from before.
  abbrev pub cleaned : Location → Location → List (Effect Location)
  cleaned dir out_path =
      make_directory dir
      ∷ (if exists (look (source.temporary out_path))
          then unlink (source.temporary out_path) ∷ []
          else [])

  -- The end of `_write_conversion_stats_report`: the report is written beside its place and moved
  -- there. On an exception `write_uocr_model` finds no hidden file to remove, which was renamed.
  abbrev pub report_moved : Location → List (Effect Location) → Result Error (Unit {0}) → Written
  report_moved stats_path done (err e) = (err e, done ++ write (source.hidden stats_path) ∷ [])
  report_moved stats_path done (ok u) = (
    ok tt,
    done ++ write (source.hidden stats_path) ∷ replace (source.hidden stats_path) stats_path ∷ [],
  )

  -- `_write_conversion_stats_report`, behind its directory.
  abbrev pub report_written :
      source.Plan → Location → List (Effect Location) → Result Error (Unit {0}) → Written
  report_written plan stats_path done (err e) = (err e, done)
  report_written plan stats_path done (ok u) = report_moved stats_path done (source.report plan)

  -- The `try` of `write_uocr_model`: the file is written under a hidden name and then renamed.
  abbrev pub renamed :
      source.Plan → Location → Location → List (Effect Location) → Result Error (Unit {0}) → Written
  renamed plan out stats_path done (err e) =
      (err e, done ++ write (source.hidden out) ∷ unlink (source.hidden out) ∷ [])
  renamed plan out stats_path done (ok u) =
      report_written plan stats_path
        (done
          ++ write (source.hidden out)
            ∷ replace (source.hidden out) out
            ∷ make_directory (source.parent stats_path)
            ∷ [])
        (source.report_text plan)

  -- A hidden file left from before.
  abbrev pub stale : Location → List (Effect Location)
  stale out = if exists (look (source.hidden out)) then unlink (source.hidden out) ∷ [] else []

  abbrev pub prepared : source.Plan → Location → Location → Result Error (Unit {0}) → Written
  prepared plan out stats_path (err e) = (err e, make_directory (source.parent out) ∷ [])
  prepared plan out stats_path (ok u) =
      renamed plan out stats_path (make_directory (source.parent out) ∷ stale out)
        (source.payloads plan)

  abbrev pub allowed : source.Plan → Location → Location → Result Error (Unit {0}) → Written
  allowed plan out stats_path (err e) = (err e, [])
  allowed plan out stats_path (ok u) = prepared plan out stats_path (source.sources plan)

  -- `write_uocr_model`, by what it does to files.
  unfoldable pub write_files : source.Plan → Location → Location → Written
  write_files plan out stats_path = allowed plan out stats_path (source.checks plan)

  abbrev pub replaced : Location → List (Effect Location) → Written → Outcome
  replaced out_path done (err e, effects) = (err e, done ++ effects)
  replaced out_path done (ok u, effects) = (
    ok (resolve out_path),
    (done ++ effects) ++ replace (source.temporary out_path) out_path ∷ [],
  )

  abbrev pub written : Location → Text → List (Effect Location) → Result Error source.Plan → Outcome
  written out_path model done (err e) = (err e, done)
  written out_path model done (ok plan) =
      if not (text_eq (source.model_variant plan) model)
      then (err value_error, done)
      else replaced out_path done
          (write_files plan (source.temporary out_path) (source.statistics out_path))

  abbrev pub planned :
      Location
      → Qprofile
      → Text
      → List (Effect Location)
      → source.Snapshot
      → Result Error source.Config
      → Outcome
  planned out_path qprofile model done snapshot (err e) = (err e, done)
  planned out_path qprofile model done snapshot (ok config) =
      written out_path model done (source.build_dry_run_plan snapshot qprofile config)

  abbrev pub downloaded :
      Location → Location → Qprofile → Text → Result Error source.Snapshot → Outcome
  downloaded dir out_path qprofile model (err e) = (err e, [])
  downloaded dir out_path qprofile model (ok snapshot) =
      planned out_path qprofile model (cleaned dir out_path) snapshot source.quant_cfg

  abbrev pub from_source :
      Location → Location → Qprofile → Text → Result Error (Text × Option Text) → Outcome
  from_source dir out_path qprofile model (err e) = (err e, [])
  from_source dir out_path qprofile model (ok (repo, revision)) =
      downloaded dir out_path qprofile model (source.snapshot_download repo revision)

  abbrev pub cached_path : Location → Text → Qprofile → Text → Location
  cached_path cache_dir filename qprofile model =
      join (join (model_cache_dir cache_dir model) (qprofile_name qprofile)) filename

  unfoldable pub download_and_convert : Location → Text → Qprofile → Bool → Text → Outcome
  unfolding source_model require_existing_model
  download_and_convert cache_dir filename qprofile force model =
      let dir = join (model_cache_dir cache_dir model) (qprofile_name qprofile) in
      let out_path = cached_path cache_dir filename qprofile model in
      if exists (look out_path) && not force
      then (require_existing_model system out_path model (some qprofile), [])
      else from_source dir out_path qprofile model (source_model environ model)
