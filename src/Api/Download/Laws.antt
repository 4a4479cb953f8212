-- ===== src/Api/Download/Laws.antt =====
-- `_download_and_convert_source_model` of src/unlimitedocr_c/api.py: what becomes of the file in place.
use unlimitedocr_c.Prelude.{
  ◌≡◌, refl, inl, inr, Bool, true, false, not, ◌&&◌, List, [], ◌∷◌, ◌++◌, Option, Text, text_eq,
  Result, ok, err, Error, Bool-cases, All, All-append,
}
use unlimitedocr_c.Variants.{source_model}
use unlimitedocr_c.Convert.Plan.{Qprofile}
use unlimitedocr_c.Api.Resolve.{System}
use unlimitedocr_c.Api.Download.{
  Effect, make_directory, unlink, write, replace, Source, Outcome, Written, exists, cleaned,
  replaced, written, planned, downloaded, from_source, cached_path, download_and_convert,
  report_moved, report_written, renamed, stale, prepared, allowed, write_files,
}

-- An effect is one of the list.
pub data Has {A : Type 0} (x : A) : List A → Type 0 where
  here : {xs : List A} → Has x (x ∷ xs)
  later : {y : A} {xs : List A} → Has x xs → Has x (y ∷ xs)

Has-append : {A : Type 0} (x : A) (xs ys : List A) → Has x xs → Has x (xs ++ ys)
Has-append x _ ys here = here
Has-append x _ ys (later h) = later (Has-append x _ ys h)

append-Has : {A : Type 0} (x : A) (xs ys : List A) → Has x ys → Has x (xs ++ ys)
append-Has x [] ys h = h
append-Has x (y ∷ xs) ys h = later (append-Has x xs ys h)

module _ (system : System) (source : Source system.Location) where
  open system use {Location, resolve, look}

  -- A change that leaves the file in place alone: of directories, of the temporary file, of the hidden
  -- ones beside it and beside the statistics, and of the statistics.
  pub data IsBeside (out_path : Location) : Effect Location → Type 0 where
    made : (path : Location) → IsBeside out_path (make_directory path)
    unlinked : IsBeside out_path (unlink (source.temporary out_path))
    cleared : IsBeside out_path (unlink (source.hidden (source.temporary out_path)))
    wrote : IsBeside out_path (write (source.hidden (source.temporary out_path)))
    named :
        IsBeside out_path
          (replace (source.hidden (source.temporary out_path)) (source.temporary out_path))
    noted : IsBeside out_path (write (source.hidden (source.statistics out_path)))
    kept :
        IsBeside out_path
          (replace (source.hidden (source.statistics out_path)) (source.statistics out_path))

  abbrev pub Temporary : Location → List (Effect Location) → Type 0
  Temporary out_path effects = All (IsBeside out_path) effects

  -- Either the file in place was left alone, or a plan for this model was written as a whole, renamed
  -- to the temporary file, and that put in place.
  pub data IsOutcome (out_path : Location) (model : Text) : Outcome system source → Type 0 where
    left :
        {e : Error} {effects : List (Effect Location)}
        → Temporary out_path effects
        → IsOutcome out_path model (err e, effects)
    put :
        {before : List (Effect Location)} (plan : source.Plan)
        → Temporary out_path before
        → text_eq (source.model_variant plan) model ≡ true
        → source.payloads plan ≡ ok tt
        → Has
            (replace (source.hidden (source.temporary out_path)) (source.temporary out_path))
            before
        → IsOutcome out_path model
            (ok (resolve out_path), before ++ replace (source.temporary out_path) out_path ∷ [])

  cleaned-Temporary :
      (dir out_path : Location) → Temporary out_path (cleaned system source dir out_path)
  cleaned-Temporary dir out_path = elim (Bool-cases (exists (look (source.temporary out_path)))) [
    | inl e ↦ rw e (made dir, (unlinked, tt))
    | inr e ↦ rw e (made dir, tt)
  ]

  stale-Temporary :
      (out_path : Location) → Temporary out_path (stale system source (source.temporary out_path))
  stale-Temporary out_path =
      elim (Bool-cases (exists (look (source.hidden (source.temporary out_path))))) [
        | inl e ↦ rw e (cleared, tt)
        | inr e ↦ rw e tt
      ]

  -- A writing of a plan that failed, or one whose payloads were written and renamed to the temporary
  -- file.
  pub data IsWritten (out_path : Location) (plan : source.Plan)
      : Written system source → Type 0 where
    broken :
        {e : Error} {effects : List (Effect Location)}
        → Temporary out_path effects
        → IsWritten out_path plan (err e, effects)
    complete :
        {effects : List (Effect Location)}
        → Temporary out_path effects
        → source.payloads plan ≡ ok tt
        → Has
            (replace (source.hidden (source.temporary out_path)) (source.temporary out_path))
            effects
        → IsWritten out_path plan (ok tt, effects)

  append-Temporary :
      (out_path : Location) (first second : List (Effect Location))
      → Temporary out_path first
      → Temporary out_path second
      → Temporary out_path (first ++ second)
  append-Temporary out_path first second h k = All-append (IsBeside out_path) first second h k

  module _ (plan : source.Plan) (out_path : Location)
      (is_complete : source.payloads plan ≡ ok tt) where
    abbrev renaming : Effect Location
    renaming = replace (source.hidden (source.temporary out_path)) (source.temporary out_path)

    report_moved-IsWritten :
        (done : List (Effect Location)) (m : Result Error (Unit {0}))
        → Temporary out_path done
        → Has renaming done
        → IsWritten out_path plan (report_moved system source (source.statistics out_path) done m)
    report_moved-IsWritten done (err e) h r =
        broken (append-Temporary out_path done _ h (noted, tt))
    report_moved-IsWritten done (ok u) h r =
        complete (append-Temporary out_path done _ h (noted, (kept, tt))) is_complete
          (Has-append renaming done _ r)

    report_written-IsWritten :
        (done : List (Effect Location)) (m : Result Error (Unit {0}))
        → Temporary out_path done
        → Has renaming done
        → IsWritten out_path plan
            (report_written system source plan (source.statistics out_path) done m)
    report_written-IsWritten done (err e) h r = broken h
    report_written-IsWritten done (ok u) h r = report_moved-IsWritten done (source.report plan) h r

  renamed-IsWritten :
      (plan : source.Plan) (out_path : Location) (done : List (Effect Location))
      (m : Result Error (Unit {0}))
      → source.payloads plan ≡ m
      → Temporary out_path done
      → IsWritten out_path plan (
          renamed system source plan
            (source.temporary out_path)
            (source.statistics out_path)
            done
            m)
  renamed-IsWritten plan out_path done (err e) k h =
      broken (append-Temporary out_path done _ h (wrote, (cleared, tt)))
  renamed-IsWritten plan out_path done (ok u) k h =
      report_written-IsWritten plan out_path k
        (done
          ++ write (source.hidden (source.temporary out_path))
            ∷ replace (source.hidden (source.temporary out_path)) (source.temporary out_path)
            ∷ make_directory (source.parent (source.statistics out_path))
            ∷ [])
        (source.report_text plan)
        (append-Temporary out_path done _ h
          (wrote, (named, (made (source.parent (source.statistics out_path)), tt))))
        (append-Has _ done _ (later here))

  write_files-IsWritten :
      (plan : source.Plan) (out_path : Location)
      → IsWritten out_path plan
          (write_files system source plan (source.temporary out_path) (source.statistics out_path))
  unfolding write_files
  write_files-IsWritten plan out_path = allowed_so (source.checks plan)
    where
      prepared_so :
          (m : Result Error (Unit {0}))
          → IsWritten out_path plan (
              prepared system source plan
                (source.temporary out_path)
                (source.statistics out_path)
                m)
      prepared_so (err e) = broken (made (source.parent (source.temporary out_path)), tt)
      prepared_so (ok u) =
          renamed-IsWritten plan out_path
            (make_directory (source.parent (source.temporary out_path))
              ∷ stale system source (source.temporary out_path))
            (source.payloads plan) refl
            (made (source.parent (source.temporary out_path)), stale-Temporary out_path)

      allowed_so :
          (m : Result Error (Unit {0}))
          → IsWritten out_path plan (
              allowed system source plan (source.temporary out_path) (source.statistics out_path) m)
      allowed_so (err e) = broken tt
      allowed_so (ok u) = prepared_so (source.sources plan)

  replaced-IsOutcome :
      (out_path : Location) (model : Text) (done : List (Effect Location)) (plan : source.Plan)
      (w : Written system source)
      → Temporary out_path done
      → text_eq (source.model_variant plan) model ≡ true
      → IsWritten out_path plan w
      → IsOutcome out_path model (replaced system source out_path done w)
  replaced-IsOutcome out_path model done plan _ h is_model (broken k) =
      left (append-Temporary out_path done _ h k)
  replaced-IsOutcome out_path model done plan _ h is_model (complete k whole r) =
      put plan (append-Temporary out_path done _ h k) is_model whole (append-Has _ done _ r)

  written-IsOutcome :
      (out_path : Location) (model : Text) (done : List (Effect Location))
      → Temporary out_path done
      → (m : Result Error source.Plan)
      → IsOutcome out_path model (written system source out_path model done m)
  written-IsOutcome out_path model done h (err e) = left h
  written-IsOutcome out_path model done h (ok plan) =
      elim (Bool-cases (text_eq (source.model_variant plan) model)) [
        | inl is_model ↦ rw is_model (
            replaced-IsOutcome out_path model done plan _ h is_model
              (write_files-IsWritten plan out_path))
        | inr is_other ↦ rw is_other (left h)
      ]

  planned-IsOutcome :
      (out_path : Location) (qprofile : Qprofile) (model : Text) (done : List (Effect Location))
      (snapshot : source.Snapshot)
      → Temporary out_path done
      → (m : Result Error source.Config)
      → IsOutcome out_path model (planned system source out_path qprofile model done snapshot m)
  planned-IsOutcome out_path qprofile model done snapshot h (err e) = left h
  planned-IsOutcome out_path qprofile model done snapshot h (ok config) =
      written-IsOutcome out_path model done h (source.build_dry_run_plan snapshot qprofile config)

  downloaded-IsOutcome :
      (dir out_path : Location) (qprofile : Qprofile) (model : Text)
      (m : Result Error source.Snapshot)
      → IsOutcome out_path model (downloaded system source dir out_path qprofile model m)
  downloaded-IsOutcome dir out_path qprofile model (err e) = left tt
  downloaded-IsOutcome dir out_path qprofile model (ok snapshot) =
      planned-IsOutcome out_path qprofile model (cleaned system source dir out_path) snapshot
        (cleaned-Temporary dir out_path) source.quant_cfg

  from_source-IsOutcome :
      (dir out_path : Location) (qprofile : Qprofile) (model : Text)
      (m : Result Error (Text × Option Text))
      → IsOutcome out_path model (from_source system source dir out_path qprofile model m)
  from_source-IsOutcome dir out_path qprofile model (err e) = left tt
  from_source-IsOutcome dir out_path qprofile model (ok (repo, revision)) =
      downloaded-IsOutcome dir out_path qprofile model (source.snapshot_download repo revision)

  -- Where no file is in place, or a conversion is forced: if `_download_and_convert_source_model`
  -- raises, it has made directories, and written, removed or renamed at most the temporary file, the
  -- hidden files beside it and beside the statistics, and the statistics. If it returns, a plan for
  -- the model asked for was written without an error and renamed to the temporary file, with the same
  -- files touched, and as the last effect that has taken the place of the file whose path it returns.
  pub download_and_convert-IsOutcome :
      (cache_dir : Location) (filename : Text) (qprofile : Qprofile) (force : Bool) (model : Text)
      → (exists (look (cached_path system source cache_dir filename qprofile model)) && not force)
        ≡ false
      → IsOutcome
          (cached_path system source cache_dir filename qprofile model)
          model
          (download_and_convert system source cache_dir filename qprofile force model)
  unfolding download_and_convert
  download_and_convert-IsOutcome cache_dir filename qprofile force model fresh =
      rw fresh (from_source-IsOutcome _ _ qprofile model (source_model system.environ model))
