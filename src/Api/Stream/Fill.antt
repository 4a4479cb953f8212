-- ===== src/Api/Stream/Fill.antt =====
-- The inner loop of `stream_pages` in src/unlimitedocr_c/api.py, which loads the pages in hand.
use mathlib.Core.Path.{subst}
use unlimitedocr_c.Prelude.{
  ℕ, zero, suc, ◌+◌, ◌-◌, ◌≤◌, ◌<◌, ◌≡◌, inl, inr, refl, sym, ap, ◌∙◌, true, List, [], ◌∷◌, ◌++◌,
  length, length-append, append_assoc, Result, ok, Error, ◌>>=◌, >>=-eq-ok, ok-injective,
  Bool-cases, arith,
}
use unlimitedocr_c.Api.Stream.{Size, Progress, Filled, fill, refill}

module _ {Source : Type 0} (load : Source → Result Error Size) where
  -- The sizes of all images, where each loads.
  abbrev pub load_all : List Source → Result Error (List Size)
  load_all [] = ok []
  load_all (x ∷ xs) = load x >>= λ size. load_all xs >>= λ sizes. ok (size ∷ sizes)

  -- After the inner loop: the pages in hand and those to come are those of before, there are at most
  -- `most`, and fewer only where none is to come.
  pub record Fills (before : List Size) (most sources : ℕ) (rest : List Size) (f : Filled load)
      : Type 0 where
    pub same_pages : f.pages ++ rest ≡ before
    pub loads : load_all f.source ≡ ok rest
    pub at_most : length f.pages ≤ most
    pub full : length f.pages < most → rest ≡ []
    pub at_end : f.exhausted ≡ true → f.source ≡ []
    pub counts : length f.source + length f.pages ≡ sources

  fill-Fills :
      (n : ℕ) (source : List Source) (pages rest : List Size)
      → load_all source ≡ ok rest
      → (f : Filled load) × (later : List Size) × (fill load n source pages ≡ ok f)
        × Fills (pages ++ rest) (length pages + n) (length source + length pages) later f
  unfolding fill
  fill-Fills zero source pages rest h = (
    _,
    rest,
    refl,
    record {
      same_pages = refl;
      loads = h;
      at_most = omega arith;
      full = λ k. absurd (omega arith);
      at_end = λ k. absurd (cc);
      counts = refl;
    },
  )
  fill-Fills (suc n) [] pages rest h = (
    _,
    rest,
    refl,
    record {
      same_pages = refl;
      loads = h;
      at_most = omega arith;
      full = λ k. sym (ok-injective h);
      at_end = λ k. refl;
      counts = refl;
    },
  )
  fill-Fills (suc n) (x ∷ source) pages rest h =
      let (size, e, h1) = >>=-eq-ok (load x) _ h in
      let (sizes, e', h2) = >>=-eq-ok (load_all source) _ h1 in
      let (f, later, g, k) = fill-Fills n source (pages ++ size ∷ []) sizes e' in
      (
        f,
        later,
        rw (e, fill) g,
        record {
          same_pages =
              k.same_pages
              ∙ (append_assoc pages (size ∷ []) sizes ∙ ap (◌++◌ pages) (ok-injective h2));
          loads = k.loads;
          at_most = omega (arith, k.at_most, length-append pages (size ∷ []));
          full = λ less. k.full (omega (arith, length-append pages (size ∷ [])));
          at_end = k.at_end;
          counts = omega (arith, k.counts, length-append pages (size ∷ []));
        },
      )

  -- Between two rounds: the images to come load, at most one page is in hand, and the source is
  -- empty where it is known to be exhausted.
  pub record IsProgress (rest : List Size) (p : Progress load) : Type 0 where
    pub loads : load_all p.source ≡ ok rest
    pub held : length p.pages ≤ 1
    pub at_end : p.exhausted ≡ true → p.source ≡ []

  pub refill-Fills :
      (w : ℕ) (p : Progress load) (rest : List Size)
      → 1 ≤ w
      → IsProgress rest p
      → (f : Filled load) × (later : List Size) × (refill load w p ≡ ok f)
        × Fills (p.pages ++ rest) (suc w) (length p.source + length p.pages) later f
  unfolding refill
  refill-Fills w p rest some_page h = elim (Bool-cases p.exhausted) [
    | inr e ↦
        let (f, later, g, k) = fill-Fills (w + 1 - length p.pages) p.source p.pages rest h.loads in
        let held = h.held in
        (
          f,
          later,
          rw (e, refill) g,
          subst (λ n. Fills (p.pages ++ rest) n (length p.source + length p.pages) later f)
              (omega arith) k,
        )
    | inl e ↦
        let empty : rest ≡ [] = ok-injective (sym h.loads ∙ ap load_all (h.at_end e)) in
        let held = h.held in
        (
          record { source = p.source; pages = p.pages; exhausted = true },
          rest,
          rw (e, refill),
          record {
            same_pages = refl;
            loads = h.loads;
            at_most = omega arith;
            full = λ less. empty;
            at_end = λ k. h.at_end e;
            counts = refl;
          },
        )
  ]
