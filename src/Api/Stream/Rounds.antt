-- ===== src/Api/Stream/Rounds.antt =====
-- A round of `stream_pages` in src/unlimitedocr_c/api.py, against the windows of the document.
use mathlib.Core.Path.{subst}
use unlimitedocr_c.Prelude.{
  ℕ, zero, suc, ◌+◌, ◌≤◌, ◌<◌, ◌≡◌, inl, inr, refl, sym, ap, ◌∙◌, Bool, true, false, List, [], ◌∷◌,
  ◌++◌, map, none, some, Text, length, append-nil, append_assoc, ltb, Result, ok, err, Error,
  runtime_error, Bool-cases, Result-cases, list_cases, arith,
}
use unlimitedocr_c.Frontend.Types.{PreparedRequest}
use unlimitedocr_c.Frontend.Requests.{v2, prepare_pages}
use unlimitedocr_c.Prelude.Int.{pos}
use unlimitedocr_c.Api.Stream.{
  Size, Limits, Call, Outcome, last_only, Progress, Filled, Round, finished, continues, stop,
  remaining, not_positive, token_limit, answer, run_window, call_of, window, round, min,
}
use unlimitedocr_c.Api.Stream.Windows.{Window, Windows, stopped, no_page, last_window, next_window}
use unlimitedocr_c.Api.Stream.Fill.{load_all, Fills, IsProgress, refill-Fills}

abbrev pub window_of : Call → Window
window_of c = record {
  first_page = c.first_page;
  owned_pages = c.owned_pages;
  lookahead = c.lookahead;
  shown = c.pages;
}

abbrev pub is_ok {ℓ} : {A : Type ℓ} → Result Error A → Bool
is_ok (ok a) = true
is_ok (err e) = false

min_small : (a b : ℕ) → b ≤ a → min a b ≡ b
min_small a b h = ground arith

min_large : (a b : ℕ) → a ≤ b → min a b ≡ a
min_large a b h = ground arith

pub split_last :
    (n : ℕ) (xs : List Size)
    → length xs ≡ suc n
    → (owned : List Size) × (ahead : Size) × (xs ≡ owned ++ ahead ∷ []) × (length owned ≡ n)
split_last n [] h = absurd (omega arith)
split_last zero (x ∷ []) h = ([], x, refl, refl)
split_last zero (x ∷ y ∷ xs) h = absurd (omega arith)
split_last (suc n) (x ∷ xs) h =
    let (owned, ahead, e, k) = split_last n xs (omega arith) in
    (x ∷ owned, ahead, ap (◌∷◌ x) e, ap suc k)

pub last_only-append : (xs : List Size) (a : Size) → last_only (xs ++ a ∷ []) ≡ a ∷ []
last_only-append [] a = refl
last_only-append (x ∷ []) a = refl
last_only-append (x ∷ y ∷ xs) a = last_only-append (y ∷ xs) a

abbrev pub ahead_window : ℕ → ℕ → List Size → Size → Window
ahead_window w first owned ahead = record {
  first_page = first;
  owned_pages = w;
  lookahead = true;
  shown = owned ++ ahead ∷ [];
}

module _ {Source : Type 0} (load : Source → Result Error Size) where
  module _ (is_space : ℕ → Bool) (encode : Text → List ℕ)
      (native : List Call → Call → Result Error (List ℕ))
      (decode : List ℕ → Result Error Text) where
    -- What a round does, `w` pages to a window: it ends with a front of the windows called, or all of
    -- them, or it calls one window and goes on behind it with fewer images to load.
    pub data Turns (w : ℕ) (p : Progress load) (images : List Size) : Round load → Type 0 where
      ends :
          (out : Outcome) (ws : List Window)
          → map window_of out.calls ≡ map window_of p.calls ++ ws
          → Windows w (is_ok out.ended) p.first_page images ws
          → Turns w p images (finished out)
      goes :
          (q : Progress load) (owned : List Size) (ahead : Size) (rest : List Size)
          → images ≡ owned ++ ahead ∷ rest
          → length owned ≡ w
          → map window_of q.calls
            ≡ map window_of p.calls
              ++ record {
                first_page = p.first_page;
                owned_pages = w;
                lookahead = true;
                shown = owned ++ ahead ∷ [];
              }
                ∷ []
          → q.first_page ≡ p.first_page + w
          → q.pages ≡ ahead ∷ []
          → IsProgress load rest q
          → length q.source < length p.source
          → Turns w p images (continues q)

    stop-Turns :
        (w : ℕ) (p : Progress load) (images : List Size) (e : Error)
        → Turns w p images (stop load p (err e))
    stop-Turns w p images e = ends _ [] (sym (append-nil _)) (stopped p.first_page images)

    map-last :
        (cs : List Call) (c : Call)
        → map window_of (cs ++ c ∷ []) ≡ map window_of cs ++ window_of c ∷ []
    map-last [] c = refl
    map-last (x ∷ cs) c = ap (◌∷◌ (window_of x)) (map-last cs c)

    -- A window with a page of lookahead.
    run_window-ahead :
        (w : ℕ) (p : Progress load) (f : Filled load) (call : Call) (owned : List Size)
        (ahead : Size) (later : List Size)
        → window_of call ≡ ahead_window w p.first_page owned ahead
        → f.pages ≡ owned ++ ahead ∷ []
        → length owned ≡ w
        → load_all load f.source ≡ ok later
        → (f.exhausted ≡ true → f.source ≡ [])
        → length f.source < length p.source
        → Turns w p
            (owned ++ ahead ∷ later)
            (run_window load is_space encode native decode p f call)
    unfolding run_window
    run_window-ahead w p f call owned ahead later same pages n loads at_end fewer =
        let calls = map-last p.calls call ∙ ap (λ x. map window_of p.calls ++ x ∷ []) same in
        elim (Result-cases (answer load is_space encode native decode p.calls call)) [
          | inr (e, a) ↦
              rw (a, run_window)
                (ends _ (ahead_window w p.first_page owned ahead ∷ []) calls (
                  next_window false p.first_page owned ahead later [] n
                    (stopped (p.first_page + w) (ahead ∷ later))))
          | inl (x, a) ↦
              let look : call.lookahead ≡ true = ap (λ (c : Window). c.lookahead) same in
              let own : call.owned_pages ≡ w = ap (λ (c : Window). c.owned_pages) same in
              let last : last_only f.pages ≡ ahead ∷ [] =
                ap last_only pages ∙ last_only-append owned ahead in
              rw (a, look, run_window)
                (goes _ owned ahead later refl n calls (ap (◌+◌ p.first_page) own) (rw look last)
                  (record { loads = loads; held = rw (look, last) (omega arith); at_end = at_end })
                  fewer)
        ]

    -- The last window.
    run_window-last :
        (w : ℕ) (p : Progress load) (f : Filled load) (call : Call) (images : List Size)
        → window_of call ≡ record {
          first_page = p.first_page;
          owned_pages = length images;
          lookahead = false;
          shown = images;
        }
        → 1 ≤ length images
        → length images ≤ w
        → Turns w p images (run_window load is_space encode native decode p f call)
    unfolding run_window
    run_window-last w p f call images same some_page few =
        let calls = map-last p.calls call ∙ ap (λ x. map window_of p.calls ++ x ∷ []) same in
        elim (Result-cases (answer load is_space encode native decode p.calls call)) [
          | inr (e, a) ↦
              rw (a, run_window)
                (ends _ _ calls (last_window false p.first_page images some_page few))
          | inl (x, a) ↦
              let look : call.lookahead ≡ false = ap (λ (c : Window). c.lookahead) same in
              rw (a, look, run_window)
                (ends _ _ calls (last_window true p.first_page images some_page few))
        ]

    -- A window, once its request is prepared.
    called-Turns :
        (w : ℕ) (p : Progress load) (f : Filled load) (request : PreparedRequest)
        (images later : List Size)
        → Fills load images (suc w) (length p.source + length p.pages) later f
        → length p.pages ≤ 1
        → 1 ≤ w
        → 1 ≤ length f.pages
        → Turns w p images (
            run_window load is_space encode native decode p f
              (call_of load is_space encode native decode p w f.pages request))
    called-Turns w p f request images later k held some_page in_hand =
        let most = k.at_most in
        let counts = k.counts in
        let call = call_of load is_space encode native decode p w f.pages request in
        elim (Bool-cases (ltb w (length f.pages))) [
          | inl more ↦
              let (owned, ahead, e, n) = split_last w f.pages (ground arith) in
              let own : min w (length f.pages) ≡ w = min_large w (length f.pages) (ground arith) in
              subst (λ i. Turns w p i (run_window load is_space encode native decode p f call))
                (sym (append_assoc owned (ahead ∷ []) later)
                  ∙ (ap (λ x. x ++ later) (sym e) ∙ k.same_pages))
                (run_window-ahead w p f call owned ahead later (rw (own, more, e)) e n k.loads
                  k.at_end (ground arith))
          | inr less ↦
              let few : length f.pages ≤ w = ground arith in
              let own : min w (length f.pages) ≡ length f.pages =
                min_small w (length f.pages) few in
              let end : later ≡ [] = k.full (omega arith) in
              let all : f.pages ≡ images =
                sym (append-nil f.pages) ∙ (ap (◌++◌ f.pages) (sym end) ∙ k.same_pages) in
              let same : ltb (length f.pages) (length f.pages) ≡ false = ground arith in
              subst (λ i. Turns w p i (run_window load is_space encode native decode p f call)) all
                (run_window-last w p f call f.pages (rw (own, same)) in_hand few)
        ]

    window-Turns :
        (l : Limits) (p : Progress load) (f : Filled load) (images later : List Size)
        → Fills load images (suc l.window_pages) (length p.source + length p.pages) later f
        → length p.pages ≤ 1
        → 1 ≤ l.window_pages
        → Turns l.window_pages p images (window load is_space encode native decode l p f)
    unfolding window
    window-Turns l p f images later k held some_page = elim (list_cases f.pages) [
      | inl e ↦
          let none_later : later ≡ [] = k.full (rw e (omega arith)) in
          let no_images : [] ≡ images = sym (ap (λ x. x ++ later) e ∙ none_later) ∙ k.same_pages in
          rw (e, window)
            (subst (λ i. Turns l.window_pages p i (stop load p (ok tt))) no_images
              (ends (record { calls = p.calls; chunks = p.chunks; ended = ok tt }) []
                (sym (append-nil _)) (no_page true p.first_page)))
      | inr (x, xs, e) ↦
          let limit =
            token_limit load l (remaining load l p.total_tokens)
              (min l.window_pages (length (x ∷ xs))) in
          elim (Result-cases
            (prepare_pages is_space encode (x ∷ xs) none v2 1024 131072 (some (pos limit)))) [
              | inr (why, g) ↦ rw (e, g, window) (stop-Turns l.window_pages p images why)
              | inl (request, g) ↦
                  rw (e, g, window)
                    (subst
                      (λ pages. Turns l.window_pages p images (
                        run_window load is_space encode native decode p f (
                          call_of load is_space encode native decode p l.window_pages pages
                            request)))
                      e
                      (called-Turns l.window_pages p f request images later k held some_page
                        (rw e (omega arith))))
            ]
    ]

    pub round-Turns :
        (l : Limits) (p : Progress load) (rest : List Size)
        → 1 ≤ l.window_pages
        → IsProgress load rest p
        → Turns l.window_pages p (p.pages ++ rest) (round load is_space encode native decode l p)
    unfolding round
    round-Turns l p rest some_page h =
        elim (Bool-cases (not_positive (remaining load l p.total_tokens))) [
          | inl e ↦ rw (e, round) (stop-Turns l.window_pages p (p.pages ++ rest) runtime_error)
          | inr e ↦
              let (f, later, g, k) = refill-Fills load l.window_pages p rest some_page h in
              rw (e, g, round) (window-Turns l p f (p.pages ++ rest) later k h.held some_page)
        ]
