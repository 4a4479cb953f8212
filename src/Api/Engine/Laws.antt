-- ===== src/Api/Engine/Laws.antt =====
-- The engine's life in src/unlimitedocr_c/api.py: never two engines open, each closed once, and none
-- lost.
use mathlib.Core.Path.{subst}
use unlimitedocr_c.Prelude.{
  ℕ, zero, suc, ◌≤◌, ◌≡◌, ◌⊎◌, inl, inr, refl, sym, ap, ◌∙◌, Bool, true, false, List, [], ◌∷◌, ◌++◌,
  Option, none, some, Text, text_eq, codes, Result, ok, err, Error, runtime_error, ok-injective,
  Bool-cases, Result-cases, Option-cases, arith, length,
}
use unlimitedocr_c.Frontend.Types.{PreparedRequest}
use unlimitedocr_c.Api.Stream.{Limits, check_limits, prompt_capacity, output_capacity}
use unlimitedocr_c.Api.Engine.{
  Ocr, Call, created, drop_engine, close, fitting, at_least_one, open_engine, opened_engine,
  ensure_engine, init, run_on, generate, enter, start_document, finish_document,
}

-- The numbers below `n`, in order.
abbrev pub below : ℕ → List ℕ
below zero = []
below (suc n) = below n ++ n ∷ []

-- Either no engine is open, and all that were are closed; or the last one opened is, and all before
-- it are closed. Engines are closed once, in the order of their opening.
pub data IsOcr : Ocr → Type 0 where
  none_open :
      (n : ℕ)
      → IsOcr (record {
        engine = none;
        prompt_capacity = 0;
        gen_capacity = 0;
        document_active = false;
        opened = n;
        closed = below n;
      })
  one_open :
      (n prompt gen : ℕ) (active : Bool)
      → IsOcr (record {
        engine = some n;
        prompt_capacity = prompt;
        gen_capacity = gen;
        document_active = active;
        opened = suc n;
        closed = below n;
      })

close-IsOcr : (s : Ocr) → IsOcr s → IsOcr (close s).1
unfolding close
close-IsOcr _ (none_open n) = none_open n
close-IsOcr _ (one_open n prompt gen true) = one_open n prompt gen true
close-IsOcr _ (one_open n prompt gen false) = none_open (suc n)

module _ (fails : ℕ → ℕ → ℕ → Option Error) where
  open_engine-IsOcr :
      (prompt gen n : ℕ)
      → IsOcr (open_engine fails prompt gen (record created { opened = n; closed = below n })).1
  unfolding open_engine
  open_engine-IsOcr prompt gen n = elim (Option-cases (fails n prompt gen)) [
    | inl e ↦ rw (e, open_engine) (one_open n prompt gen false)
    | inr (why, e) ↦ rw (e, open_engine) (none_open n)
  ]

  -- The engine at hand is kept where it has the capacity; a document in the way is an error that
  -- changes nothing; otherwise the engine is closed and another one opened.
  ensure_engine-cases :
      (prompt gen : ℕ) (s : Ocr)
      → ((h : ℕ) × (s.engine ≡ some h)
          × (prompt ≤ s.prompt_capacity)
          × (gen ≤ s.gen_capacity)
          × (ensure_engine fails prompt gen s ≡ (ok h, s)))
        ⊎ (((s.document_active ≡ true)
              × (ensure_engine fails prompt gen s ≡ (err runtime_error, s)))
            ⊎ ((s.document_active ≡ false)
                × (ensure_engine fails prompt gen s
                    ≡ open_engine fails prompt gen (drop_engine s.engine s))))
  unfolding ensure_engine close
  ensure_engine-cases prompt gen s = elim (Option-cases (fitting prompt gen s)) [
    | inr (h, e) ↦ inl (h, ground arith, ground arith, ground arith, rw (e, ensure_engine))
    | inl e ↦ inr (elim (Bool-cases s.document_active) [
      | inl active ↦ inl (active, rw (e, ensure_engine) (rw (active, close)))
      | inr idle ↦ inr (idle, rw (e, ensure_engine) (rw (idle, close)))
    ])
  ]

  ensure_engine-IsOcr :
      (prompt gen : ℕ) (s : Ocr) → IsOcr s → IsOcr (ensure_engine fails prompt gen s).1
  ensure_engine-IsOcr prompt gen s h = elim (ensure_engine-cases prompt gen s) [
    | inl (n, _, _, _, e) ↦ subst (λ (c : Call ℕ). IsOcr c.1) (sym e) h
    | inr (inl (_, e)) ↦ subst (λ (c : Call ℕ). IsOcr c.1) (sym e) h
    | inr (inr (idle, e)) ↦ subst (λ (c : Call ℕ). IsOcr c.1) (sym e) (after s h idle)
  ]
    where
      after :
          (s : Ocr)
          → IsOcr s
          → s.document_active ≡ false
          → IsOcr (open_engine fails prompt gen (drop_engine s.engine s)).1
      after _ (none_open n) idle = open_engine-IsOcr prompt gen n
      after _ (one_open n p g active) idle = rw idle (open_engine-IsOcr prompt gen (suc n))

  -- An engine that is given out is the one held, and has the capacity asked for.
  pub record Given (prompt gen h : ℕ) (s : Ocr) : Type 0 where
    pub current : s.engine ≡ some h
    pub for_prompt : prompt ≤ s.prompt_capacity
    pub for_gen : gen ≤ s.gen_capacity

  engine_out :
      (prompt gen n h : ℕ) (s s' : Ocr)
      → Given prompt gen n s
      → ◌≡◌ {A = Call ℕ} (ok n, s) (ok h, s')
      → Given prompt gen h s'
  engine_out prompt gen n h s s' given e =
      subst (λ x. Given prompt gen h x) (ap (λ (c : Call ℕ). c.1) e)
        (subst (λ x. Given prompt gen x s) (ok-injective (ap (λ (c : Call ℕ). c.0) e)) given)

  open_engine-Given :
      (prompt gen : ℕ) (s : Ocr) (h : ℕ) (s' : Ocr)
      → open_engine fails prompt gen s ≡ (ok h, s')
      → Given prompt gen h s'
  unfolding open_engine
  open_engine-Given prompt gen s h s' e = elim (Option-cases (fails s.opened prompt gen)) [
    | inl k ↦
        let opens : open_engine fails prompt gen s ≡ (ok s.opened, opened_engine prompt gen s) =
          rw (k, open_engine) in
        engine_out prompt gen s.opened h _ s'
          (record { current = refl; for_prompt = omega arith; for_gen = omega arith })
          (sym opens ∙ e)
    | inr (why, k) ↦
        let raises : open_engine fails prompt gen s ≡ (err why, s) = rw (k, open_engine) in
        absurd (cc)
  ]

  -- Where `_ensure_engine` returns an engine, it is the one held, with at least the capacities asked
  -- for.
  pub ensure_engine-Given :
      (prompt gen : ℕ) (s : Ocr) (h : ℕ) (s' : Ocr)
      → ensure_engine fails prompt gen s ≡ (ok h, s')
      → Given prompt gen h s'
  ensure_engine-Given prompt gen s h s' e = elim (ensure_engine-cases prompt gen s) [
    | inl (n, held, p, g, k) ↦
        engine_out prompt gen n h s s' (record { current = held; for_prompt = p; for_gen = g })
          (sym k ∙ e)
    | inr (inl (_, k)) ↦ absurd (cc)
    | inr (inr (idle, k)) ↦ open_engine-Given prompt gen (drop_engine s.engine s) h s' (sym k ∙ e)
  ]

  generate-IsOcr :
      (run : ℕ → PreparedRequest → Result Error (List (List ℕ)))
      (decode : List ℕ → Result Error Text) (prepared : Result Error PreparedRequest) (s : Ocr)
      → IsOcr s
      → IsOcr (generate fails run decode prepared s).1
  unfolding generate
  generate-IsOcr run decode (err e) s h = h
  generate-IsOcr run decode (ok request) s h = elim (Bool-cases s.document_active) [
    | inl active ↦
        let raises : generate fails run decode (ok request) s ≡ (err runtime_error, s) =
          rw (active, generate) in
        subst (λ (c : Call Text). IsOcr c.1) (sym raises) h
    | inr idle ↦
        let prompt = at_least_one (length request.input_ids) in
        let gen = at_least_one request.max_new_tokens in
        let runs : generate fails run decode (ok request) s
            ≡ run_on fails run decode request (ensure_engine fails prompt gen s) =
          rw (idle, generate) in
        subst (λ (c : Call Text). IsOcr c.1) (sym runs)
          (kept (ensure_engine fails prompt gen s) (ensure_engine-IsOcr prompt gen s h))
  ]
    where
      kept : (c : Call ℕ) → IsOcr c.1 → IsOcr (run_on fails run decode request c).1
      kept (err e, s) h = h
      kept (ok n, s) h = h

  active-IsOcr :
      (active : Bool) (s : Ocr) (h : ℕ)
      → s.engine ≡ some h
      → IsOcr s
      → IsOcr (record s { document_active = active })
  active-IsOcr active _ h e (none_open n) = absurd (cc)
  active-IsOcr active _ h e (one_open n prompt gen _) = one_open n prompt gen active

  start_document-IsOcr :
      (begins : ℕ → Option Error) (is_v2_metal : Bool) (l : Limits) (s : Ocr)
      → IsOcr s
      → IsOcr (start_document fails begins is_v2_metal l s).1
  unfolding start_document
  start_document-IsOcr begins is_v2_metal l s h = elim (Result-cases (check_limits is_v2_metal l)) [
    | inr (e, k) ↦ rw (k, start_document) h
    | inl (u, k) ↦ elim (Bool-cases s.document_active) [
      | inl active ↦
          let raises : start_document fails begins is_v2_metal l s ≡ (err runtime_error, s) =
            rw (k, active, start_document) in
          subst (λ (c : Call (Unit {0})). IsOcr c.1) (sym raises) h
      | inr idle ↦
          let enters : start_document fails begins is_v2_metal l s
              ≡ enter fails begins (ensure_engine fails (prompt_capacity l) (output_capacity l) s) =
            rw (k, idle, start_document) in
          subst (λ (c : Call (Unit {0})). IsOcr c.1) (sym enters)
            (entered (ensure_engine fails (prompt_capacity l) (output_capacity l) s) refl
              (ensure_engine-IsOcr (prompt_capacity l) (output_capacity l) s h))
    ]
  ]
    where
      entered :
          (c : Call ℕ)
          → ensure_engine fails (prompt_capacity l) (output_capacity l) s ≡ c
          → IsOcr c.1
          → IsOcr (enter fails begins c).1
      entered (err e, t) _ k = k
      entered (ok n, t) e k =
          let given = ensure_engine-Given (prompt_capacity l) (output_capacity l) s n t e in
          elim (Option-cases (begins n)) [
            | inl b ↦ rw (b, enter) (active-IsOcr true t n given.current k)
            | inr (_, b) ↦ rw (b, enter) (active-IsOcr false t n given.current k)
          ]

  module _ (run : ℕ → PreparedRequest → Result Error (List (List ℕ)))
      (decode : List ℕ → Result Error Text) (begins : ℕ → Option Error) where
    -- The calls on an object, one after the other.
    pub data Reachable : Ocr → Type 0 where
      opens : (model : Text) → Reachable (init fails model).1
      closes : (s : Ocr) → Reachable s → Reachable (close s).1
      generates :
          (s : Ocr) (prepared : Result Error PreparedRequest)
          → Reachable s
          → Reachable (generate fails run decode prepared s).1
      starts :
          (s : Ocr) (is_v2_metal : Bool) (l : Limits)
          → Reachable s
          → Reachable (start_document fails begins is_v2_metal l s).1
      finishes : (s : Ocr) → s.document_active ≡ true → Reachable s → Reachable (finish_document s)

    -- Behind any calls on an object, however the native side fails: where no engine is open, all that
    -- were opened are closed; otherwise the last one opened is open and all before it are closed.
    -- Each is closed once, and a document is active only with an engine open.
    pub Reachable-IsOcr : (s : Ocr) → Reachable s → IsOcr s
    unfolding init
    Reachable-IsOcr _ (opens model) = elim (Bool-cases (text_eq model (codes "v1"))) [
      | inl e ↦ rw (e, init) (ensure_engine-IsOcr 32768 32768 created (none_open 0))
      | inr e ↦ rw (e, init) (ensure_engine-IsOcr 4096 512 created (none_open 0))
    ]
    Reachable-IsOcr _ (closes s h) = close-IsOcr s (Reachable-IsOcr s h)
    Reachable-IsOcr _ (generates s prepared h) =
        generate-IsOcr run decode prepared s (Reachable-IsOcr s h)
    Reachable-IsOcr _ (starts s is_v2_metal l h) =
        start_document-IsOcr begins is_v2_metal l s (Reachable-IsOcr s h)
    Reachable-IsOcr _ (finishes s active h) = finished s (Reachable-IsOcr s h)
      where
        finished : (s : Ocr) → IsOcr s → IsOcr (finish_document s)
        finished _ (none_open n) = none_open n
        finished _ (one_open n prompt gen active) = one_open n prompt gen false
