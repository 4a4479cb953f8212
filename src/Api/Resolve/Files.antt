-- ===== src/Api/Resolve/Files.antt =====
-- The model files of src/unlimitedocr_c/api.py: what `_require_existing_model` accepts.
use unlimitedocr_c.Prelude.{
  ℕ, ◌≡◌, ◌⊎◌, inl, inr, refl, sym, ◌∙◌, Bool, true, false, List, Option, Text, Result, ok, err,
  Error, io_error, resolution_error, ok-injective, >>=-eq-ok, err_ok, not, ◌||◌, ◌==◌, ==_iff,
  raise_if, unnegated, neither, raise_if-ok, if◌then◌else◌, ◌>>=◌,
}
use unlimitedocr_c.Variants.{ModelVariant, get_model_variant}
use unlimitedocr_c.Convert.Plan.{Qprofile}
use unlimitedocr_c.Api.Resolve.{
  System, Entry, missing, not_file, locked, file, is_recognized, version_of, wrong_profile,
  require_existing_model,
}

-- A header that, where it is of the format, is of the model's version and of the profile.
pub record IsCompatible (model : Text) (qprofile : Option Qprofile) (prefix : List ℕ) : Type 0 where
  variant : ModelVariant
  is_variant : get_model_variant model ≡ ok variant
  version : version_of prefix ≡ variant.format_version
  profile : wrong_profile qprofile prefix ≡ false

pub Entry-cases :
    (entry : Entry)
    → (entry ≡ missing)
      ⊎ ((entry ≡ not_file) ⊎ ((entry ≡ locked) ⊎ ((prefix : List ℕ) × (entry ≡ file prefix))))
Entry-cases missing = inl refl
Entry-cases not_file = inr (inl refl)
Entry-cases locked = inr (inr (inl refl))
Entry-cases (file prefix) = inr (inr (inr (prefix, refl)))

-- The check of a header, and then the path.
abbrev checked : {A : Type 0} → Bool → Result Error (Unit {0}) → A → Result Error A
checked b compared a = (if b then compared else ok tt) >>= λ _. ok a

checked-ok :
    {A : Type 0} (b : Bool) (compared : Result Error (Unit {0})) (a : A) {result : A}
    → checked b compared a ≡ ok result
    → (b ≡ true → compared ≡ ok tt) × (result ≡ a)
checked-ok true (err why) a e = absurd (err_ok e)
checked-ok true (ok tt) a e = (λ _. refl, sym (ok-injective e))
checked-ok false compared a e = (λ h. absurd (cc), sym (ok-injective e))

module _ (system : System) where
  open system use {Location, expanduser, resolve, look}

  -- A file with a header that is no other model's.
  pub record IsModel (model : Text) (qprofile : Option Qprofile) (path : Location) : Type 0 where
    prefix : List ℕ
    found : look (expanduser path) ≡ file prefix
    compatible : is_recognized prefix ≡ true → IsCompatible model qprofile prefix

  compared-IsCompatible :
      (model : Text) (qprofile : Option Qprofile) (prefix : List ℕ) {u : Unit {0}}
      → (get_model_variant model >>= λ variant.
          raise_if
            (not (version_of prefix == variant.format_version) || wrong_profile qprofile prefix)
            resolution_error)
        ≡ ok u
      → IsCompatible model qprofile prefix
  compared-IsCompatible model qprofile prefix e =
      let (variant, is_variant, raised) =
        >>=-eq-ok (get_model_variant model)
          (λ variant.
            raise_if
              (not (version_of prefix == variant.format_version) || wrong_profile qprofile prefix)
              resolution_error)
          e in
      let (version, profile) =
        neither (not (version_of prefix == variant.format_version)) (wrong_profile qprofile prefix)
          (raise_if-ok _ _ raised) in
      record {
        variant = variant;
        is_variant = is_variant;
        version = (==_iff _ _).0 (unnegated _ version);
        profile = profile;
      }

  -- What the entry at a path makes of it.
  pub failed :
      (path : Location) (model : Text) (qprofile : Option Qprofile)
      → look (expanduser path) ≡ missing
      → require_existing_model system path model qprofile ≡ err resolution_error
  unfolding require_existing_model
  failed path model qprofile found = rw (found, require_existing_model) refl

  pub stray :
      (path : Location) (model : Text) (qprofile : Option Qprofile)
      → look (expanduser path) ≡ not_file
      → require_existing_model system path model qprofile ≡ err resolution_error
  unfolding require_existing_model
  stray path model qprofile found = rw (found, require_existing_model) refl

  pub shut :
      (path : Location) (model : Text) (qprofile : Option Qprofile)
      → look (expanduser path) ≡ locked
      → require_existing_model system path model qprofile ≡ err io_error
  unfolding require_existing_model
  shut path model qprofile found = rw (found, require_existing_model) refl

  pub opened :
      (path : Location) (model : Text) (qprofile : Option Qprofile) (prefix : List ℕ)
      → look (expanduser path) ≡ file prefix
      → require_existing_model system path model qprofile
        ≡ checked
            (is_recognized prefix)
            (get_model_variant model >>= λ variant.
              raise_if
                (not (version_of prefix == variant.format_version) || wrong_profile qprofile prefix)
                resolution_error)
            (resolve (expanduser path))
  unfolding require_existing_model
  opened path model qprofile prefix found = rw (found, require_existing_model) refl

  pub require_existing_model-IsModel :
      (path : Location) (model : Text) (qprofile : Option Qprofile) {result : Location}
      → require_existing_model system path model qprofile ≡ ok result
      → IsModel model qprofile path × (result ≡ resolve (expanduser path))
  unfolding require_existing_model
  require_existing_model-IsModel path model qprofile {result} e =
      elim (Entry-cases (look (expanduser path))) [
        | inl is_missing ↦ absurd (err_ok (sym (failed path model qprofile is_missing) ∙ e))
        | inr (inl is_dir) ↦ absurd (err_ok (sym (stray path model qprofile is_dir) ∙ e))
        | inr (inr (inl is_locked)) ↦ absurd (err_ok (sym (shut path model qprofile is_locked) ∙ e))
        | inr (inr (inr (prefix, found))) ↦
            let (compatible, is_result) =
              checked-ok (is_recognized prefix) _ (resolve (expanduser path))
                (sym (opened path model qprofile prefix found) ∙ e) in
            (
              record {
                prefix = prefix;
                found = found;
                compatible = λ h. compared-IsCompatible model qprofile prefix (compatible h);
              },
              is_result,
            )
      ]
