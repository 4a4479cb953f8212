-- ===== src/Ffi/Session/Methods.antt =====
-- The methods of `Engine` in src/unlimitedocr_c/ffi.py that keep to the native protocol: the
-- beginning of a document, a window, and other generation.
use mathlib.Core.Path.{subst}
use unlimitedocr_c.Prelude.{
  ℕ, ◌≤◌, ◌≡◌, inl, inr, refl, sym, Bool, true, false, not, ◌||◌, List, [], ◌∷◌, ◌++◌, Option,
  length, ltb, ◌==◌, Result, ok, err, Error, value_error, runtime_error, ◌>>=◌, ◌>>◌, >>=-eq-ok,
  raise_if, arith, Bool-cases, Result-cases, raise_if-ok, unnegated, Option-cases,
}
use unlimitedocr_c.Ffi.Requests.{Request, CPreparedRequest, as_c_request}
use unlimitedocr_c.Ffi.Session.{
  Native, document_begin, generate_window, generate, result_free, Engine, Method, called,
  check_document, begin_document, one_output, check_window, document_window, as_c_requests,
  generate_prepared,
}
use unlimitedocr_c.Ffi.Session.Protocol.{
  running, phase_of, Protocol, begins, window_fails, window_returns, gives_up, generate_fails,
  generate_returns, Keeps, closed_idle, active_open,
}

-- What the checks in front of a document have seen.
check_document-ok :
    (has_documents : Bool) (n : ℕ) (s : Engine) {u : Unit {0}}
    → check_document has_documents n s ≡ ok u
    → (s.document_active ≡ false) × (1 ≤ n) × (n ≤ 20000) × (s.handle ≡ true)
unfolding check_document
check_document-ok has_documents n s h =
    let (_, a, h1) = >>=-eq-ok (raise_if s.document_active runtime_error) _ h in
    let (_, _, h2) = >>=-eq-ok (raise_if (not has_documents) runtime_error) _ h1 in
    let (_, b, h3) = >>=-eq-ok (raise_if (n == 0 || ltb 20000 n) value_error) _ h2 in
    let range : (n == 0 || ltb 20000 n) ≡ false = raise_if-ok (n == 0 || ltb 20000 n) _ b in
    (
      raise_if-ok s.document_active _ a,
      ground arith,
      ground arith,
      unnegated s.handle (raise_if-ok (not s.handle) _ h3),
    )

-- A method that is known to leave an object leaves one that keeps to the protocol.
leaves :
    {A : Type 0} (raised : Bool) (m : Method A) (r : Result Error A) (t : Engine)
    → m ≡ (r, t)
    → Keeps raised t
    → Keeps raised m.1
leaves {A} raised m r t e k = subst (λ (m : Method A). Keeps raised m.1) (sym e) k

-- The protocol of an object, where its flags are known, and back.
seen :
    (h a h' a' raised : Bool) (cs : List Native)
    → h ≡ h'
    → a ≡ a'
    → Protocol h (phase_of a raised) cs
    → Protocol h' (phase_of a' raised) cs
seen h a h' a' raised cs e f k =
    subst (λ h. Protocol h (phase_of a' raised) cs) e
      (subst (λ a. Protocol h (phase_of a raised) cs) f k)

-- Whether a method raised.
abbrev pub raises {ℓ} : {A : Type ℓ} → Result Error A → Bool
raises (ok a) = false
raises (err e) = true

-- The same of a method whose exception makes the caller give the document up.
raised_leaves :
    {A : Type 0} (m : Method A) (r : Result Error A) (t : Engine)
    → m ≡ (r, t)
    → Keeps (raises r) t
    → Keeps (raises m.0) m.1
raised_leaves {A} m r t e k = subst (λ (m : Method A). Keeps (raises m.0) m.1) (sym e) k

given_up :
    (raised : Bool) (cs : List Native)
    → Protocol true running cs
    → Protocol true (phase_of true raised) cs
given_up true cs k = gives_up cs k
given_up false cs k = k

module _ (s : Engine) (keeps : Keeps false s) where
  pub begin_document-Keeps :
      (native : List Native → ℕ → Bool) (has_documents : Bool) (n : ℕ)
      → Keeps false (begin_document native has_documents n s).1
  unfolding begin_document
  begin_document-Keeps native has_documents n =
      elim (Result-cases (check_document has_documents n s)) [
        | inr (e, c) ↦
            leaves false (begin_document native has_documents n s) (err e) s
              (rw (c, begin_document)) keeps
        | inl (u, c) ↦
            let (inactive, some_tokens, few_tokens, held) = check_document-ok has_documents n s c in
            let k = seen s.handle s.document_active true false false s.calls held inactive keeps in
            elim (Bool-cases (native s.calls n)) [
              | inl e ↦
                  leaves false (begin_document native has_documents n s) (ok tt)
                    (record s {
                      document_active = true;
                      calls = s.calls ++ document_begin n true ∷ [];
                    })
                    (rw (c, e, begin_document))
                    (seen true true s.handle true false _ (sym held) refl
                      (begins s.calls n true some_tokens few_tokens k))
              | inr e ↦
                  leaves false (begin_document native has_documents n s) (err runtime_error)
                    (called s (document_begin n false ∷ [])) (rw (c, e, begin_document))
                    (seen true false s.handle s.document_active false _ (sym held) (sym inactive)
                      (begins s.calls n false some_tokens few_tokens k))
            ]
      ]

  -- The checks of a window, behind its request.
  abbrev requested : Request → Result Error CPreparedRequest
  requested request = as_c_request request >>= λ c. check_window s >> ok c

  -- Within a document the engine is open, and the document runs.
  open_now : s.document_active ≡ true → s.handle ≡ true
  open_now is_active = elim (Bool-cases s.handle) [
    | inl held ↦ held
    | inr shut ↦ absurd (
        active_open false (
          closed_idle _ s.calls
            (seen s.handle s.document_active false true false s.calls shut is_active keeps)))
  ]

  in_session : s.document_active ≡ true → Protocol true running s.calls
  in_session is_active =
      seen s.handle s.document_active true true false s.calls (open_now is_active) is_active keeps

  pub document_window-Keeps :
      (native : List Native → CPreparedRequest → ℕ → ℕ → Bool → Option (List (List ℕ)))
      (request : Request) (first owned : ℕ) (lookahead : Bool)
      → s.document_active ≡ true
      → Keeps
          (raises (document_window native request first owned lookahead s).0)
          (document_window native request first owned lookahead s).1
  unfolding document_window
  document_window-Keeps native request first owned lookahead is_active =
      elim (Result-cases (requested request)) [
        | inr (e, c) ↦
            raised_leaves (document_window native request first owned lookahead s) (err e) s
              (rw (c, document_window))
              (seen true true s.handle s.document_active true s.calls (sym (open_now is_active))
                (sym is_active) (gives_up s.calls (in_session is_active)))
        | inl (c, h) ↦ elim (Option-cases (native s.calls c first owned lookahead)) [
          | inl e ↦
              raised_leaves (document_window native request first owned lookahead s)
                (err runtime_error) (called s (generate_window c first owned lookahead false ∷ []))
                (rw (h, e, document_window))
                (seen true true s.handle s.document_active true _ (sym (open_now is_active))
                  (sym is_active)
                  (window_fails s.calls c first owned lookahead (in_session is_active)))
          | inr (outputs, e) ↦
              raised_leaves (document_window native request first owned lookahead s)
                (one_output outputs)
                (called s (generate_window c first owned lookahead true ∷ result_free ∷ []))
                (rw (h, e, document_window))
                (seen true true s.handle s.document_active (raises (one_output outputs)) _
                  (sym (open_now is_active)) (sym is_active)
                  (given_up (raises (one_output outputs)) _
                    (window_returns s.calls c first owned lookahead (in_session is_active))))
        ]
      ]

  abbrev batch : List Request → Result Error (List CPreparedRequest)
  batch requests =
      raise_if (length requests == 0) value_error
      >> (as_c_requests requests >>= λ cs. raise_if (not s.handle) runtime_error >> ok cs)

  batch-ok :
      (requests : List Request) (cs : List CPreparedRequest)
      → batch requests ≡ ok cs
      → s.handle ≡ true
  batch-ok requests cs h =
      let (_, _, h1) = >>=-eq-ok (raise_if (length requests == 0) value_error) _ h in
      let (_, _, h2) = >>=-eq-ok (as_c_requests requests) _ h1 in
      let (_, held, _) = >>=-eq-ok (raise_if (not s.handle) runtime_error) _ h2 in
      unnegated s.handle (raise_if-ok (not s.handle) _ held)

  pub generate_prepared-Keeps :
      (native : List Native → List CPreparedRequest → Option (List (List ℕ)))
      (requests : List Request)
      → s.document_active ≡ false
      → Keeps false (generate_prepared native requests s).1
  unfolding generate_prepared
  generate_prepared-Keeps native requests inactive = elim (Result-cases (batch requests)) [
    | inr (e, c) ↦
        leaves false (generate_prepared native requests s) (err e) s (rw (c, generate_prepared))
          keeps
    | inl (cs, h) ↦
        let held = batch-ok requests cs h in
        let k = seen s.handle s.document_active true false false s.calls held inactive keeps in
        elim (Option-cases (native s.calls cs)) [
          | inl e ↦
              leaves false (generate_prepared native requests s) (err runtime_error)
                (called s (generate cs false ∷ [])) (rw (h, e, generate_prepared))
                (seen true false s.handle s.document_active false _ (sym held) (sym inactive)
                  (generate_fails s.calls cs k))
          | inr (outputs, e) ↦
              leaves false (generate_prepared native requests s) (ok outputs)
                (called s (generate cs true ∷ result_free ∷ [])) (rw (h, e, generate_prepared))
                (seen true false s.handle s.document_active false _ (sym held) (sym inactive)
                  (generate_returns s.calls cs k))
        ]
  ]
