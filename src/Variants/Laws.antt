-- ===== src/Variants/Laws.antt =====
-- The sources that src/unlimitedocr_c/model_variants.py resolves.
use mathlib.Core.Path.{subst}
use unlimitedocr_c.Prelude.{
  ◌≡◌, ◌≢◌, true, Option, none, some, Text, codes, text_eq, text_eq_refl, ok, ok-injective,
}
use unlimitedocr_c.Variants.{get_model_variant, source_model, pinned, repository_of}

none_ne : {r : Text} → ◌≡◌ {A = Option Text} (some r) none → ⊥
none_ne h = cc

free_source :
    (get : Text → Option Text) (repo : Text) (r : Option Text)
    → pinned get (codes "v2") repo r ≡ none
    → repo ≢ repository_of (codes "v2")
free_source get repo (some r) h = absurd (cc)
free_source get repo none h = λ e.
    let same : text_eq repo (repository_of (codes "v2")) ≡ true =
      rw e (text_eq_refl (repository_of (codes "v2"))) in
    none_ne (rw same at h)

-- A source of v2 that has no revision is not the official repository, whatever the environment
-- says: that one is always pinned.
pub source_model-pinned :
    (get : Text → Option Text) (source : Text × Option Text)
    → source_model get (codes "v2") ≡ ok source
    → source.1 ≡ none
    → source.0 ≢ repository_of (codes "v2")
unfolding source_model get_model_variant
source_model-pinned get source h free =
    subst (λ s. s.1 ≡ none → s.0 ≢ repository_of (codes "v2")) (ok-injective h)
      (free_source get _ _) free
