-- ===== src/Api/Stream/Ends.antt =====
-- `stream_pages` of src/unlimitedocr_c/api.py ends, whichever images load.
use unlimitedocr_c.Prelude.{
  ℕ, zero, suc, ◌+◌, ◌-◌, ◌≤◌, ◌<◌, ◌≡◌, inl, inr, refl, sym, ap, Bool, true, false, List, [], ◌∷◌,
  ◌++◌, none, some, Text, length, length-append, Result, ok, Error, >>=-eq-ok, ok-injective,
  Bool-cases, Result-cases, arith,
}
use unlimitedocr_c.Prelude.Int.{pos}
use unlimitedocr_c.Frontend.Requests.{v2, prepare_pages}
use unlimitedocr_c.Api.Stream.{
  Size, Limits, Call, Outcome, last_only, Progress, Filled, fill, refill, Round, finished,
  continues, remaining, not_positive, token_limit, answer, run_window, call_of, window, round,
  stream_loop, stream_pages, min,
}

length-last_only : (xs : List Size) → length (last_only xs) ≤ 1
length-last_only [] = omega arith
length-last_only (x ∷ []) = omega arith
length-last_only (x ∷ y ∷ s) = length-last_only (y ∷ s)

module _ {Source : Type 0} (load : Source → Result Error Size) where
  -- No page is lost or made up while pages are loaded.
  fill-length :
      (n : ℕ) (source : List Source) (pages : List Size) (f : Filled load)
      → fill load n source pages ≡ ok f
      → length f.source + length f.pages ≡ length source + length pages
  unfolding fill
  fill-length zero source pages f h =
      sym (ap (λ (f : Filled load). length f.source + length f.pages) (ok-injective h))
  fill-length (suc n) [] pages f h =
      sym (ap (λ (f : Filled load). length f.source + length f.pages) (ok-injective h))
  fill-length (suc n) (x ∷ source) pages f h =
      let (size, e, h1) = >>=-eq-ok (load x) _ h in
      omega (arith, fill-length n source (pages ++ size ∷ []) f h1, length-append pages (size ∷ []))

  refill-length :
      (w : ℕ) (p : Progress load) (f : Filled load)
      → refill load w p ≡ ok f
      → length f.source + length f.pages ≡ length p.source + length p.pages
  unfolding refill
  refill-length w p f h = elim (Bool-cases p.exhausted) [
    | inl e ↦
        sym (ap (λ (f : Filled load). length f.source + length f.pages) (ok-injective (rw e at h)))
    | inr e ↦ fill-length (w + 1 - length p.pages) p.source p.pages f (rw e at h)
  ]

  -- A round ends the stream, or goes on with fewer images to load and at most one page in hand.
  data Shrinks (p : Progress load) : Round load → Type 0 where
    halts : (out : Outcome) → Shrinks p (finished out)
    shrinks :
        (q : Progress load)
        → length q.source < length p.source
        → length q.pages ≤ 1
        → Shrinks p (continues q)

  module _ (is_space : ℕ → Bool) (encode : Text → List ℕ)
      (native : List Call → Call → Result Error (List ℕ))
      (decode : List ℕ → Result Error Text) where
    run_window-Shrinks :
        (p : Progress load) (f : Filled load) (call : Call)
        → (call.lookahead ≡ true → length f.source < length p.source)
        → Shrinks p (run_window load is_space encode native decode p f call)
    unfolding run_window
    run_window-Shrinks p f call fewer =
        elim (Result-cases (answer load is_space encode native decode p.calls call)) [
          | inr (e, a) ↦ rw (a, run_window) (halts _)
          | inl (x, a) ↦ elim (Bool-cases call.lookahead) [
            | inl look ↦
                rw (a, look, run_window)
                  (shrinks _ (fewer look) (rw look (length-last_only f.pages)))
            | inr look ↦ rw (a, look, run_window) (halts _)
          ]
        ]

    window-Shrinks :
        (l : Limits) (p : Progress load) (source : List Source) (pages : List Size)
        (exhausted : Bool)
        → 1 ≤ l.window_pages
        → length p.pages ≤ 1
        → length source + length pages ≡ length p.source + length p.pages
        → Shrinks p (
            window load is_space encode native decode l p
              (record { source = source; pages = pages; exhausted = exhausted }))
    unfolding window
    window-Shrinks l p source [] exhausted some_page held same = halts _
    window-Shrinks l p source (page ∷ pages) exhausted some_page held same =
        let limit =
          token_limit load l (remaining load l p.total_tokens)
            (min l.window_pages (length (page ∷ pages))) in
        elim (Result-cases
          (prepare_pages is_space encode (page ∷ pages) none v2 1024 131072 (some (pos limit)))) [
            | inr (e, a) ↦ rw (a, window) (halts _)
            | inl (request, a) ↦
                rw (a, window)
                  (run_window-Shrinks p
                    (record { source = source; pages = page ∷ pages; exhausted = exhausted })
                    (call_of load is_space encode native decode p l.window_pages (page ∷ pages)
                      request)
                    (λ look. ground arith))
          ]

    round-Shrinks :
        (l : Limits) (p : Progress load)
        → 1 ≤ l.window_pages
        → length p.pages ≤ 1
        → Shrinks p (round load is_space encode native decode l p)
    unfolding round
    round-Shrinks l p some_page held =
        elim (Bool-cases (not_positive (remaining load l p.total_tokens))) [
          | inl e ↦ rw (e, round) (halts _)
          | inr e ↦ elim (Result-cases (refill load l.window_pages p)) [
            | inr (why, g) ↦ rw (e, g, round) (halts _)
            | inl (f, g) ↦
                rw (e, g, round)
                  (window-Shrinks l p f.source f.pages f.exhausted some_page held
                    (refill-length l.window_pages p f g))
          ]
        ]

    -- What is left of the loop behind a round.
    behind-Shrinks :
        (fuel : ℕ) (l : Limits) (p : Progress load) (r : Round load)
        → round load is_space encode native decode l p ≡ r
        → Shrinks p r
        → ((q : Progress load)
            → length q.source < length p.source
            → length q.pages ≤ 1
            → (out : Outcome) × (stream_loop load is_space encode native decode fuel l q
                ≡ some out))
        → (out : Outcome) × (stream_loop load is_space encode native decode (suc fuel) l p
            ≡ some out)
    unfolding stream_loop
    behind-Shrinks fuel l p _ e (halts out) again = (out, rw (e, stream_loop) refl)
    behind-Shrinks fuel l p _ e (shrinks q fewer held) again =
        let (out, k) = again q fewer held in (out, rw (e, stream_loop) k)

    stream_loop-returns :
        (fuel : ℕ) (l : Limits) (p : Progress load)
        → 1 ≤ l.window_pages
        → length p.pages ≤ 1
        → length p.source < fuel
        → (out : Outcome) × (stream_loop load is_space encode native decode fuel l p ≡ some out)
    stream_loop-returns zero l p some_page held enough = absurd (omega arith)
    stream_loop-returns (suc fuel) l p some_page held enough =
        behind-Shrinks fuel l p (round load is_space encode native decode l p) refl
          (round-Shrinks l p some_page held)
          (λ q fewer held'. stream_loop-returns fuel l q some_page held' (omega arith))

    -- A stream whose windows have a page ends, with an error or without, whichever images load and
    -- whatever the library and the tokenizer return.
    pub stream_pages-returns :
        (l : Limits) (images : List Source)
        → 1 ≤ l.window_pages
        → (out : Outcome) × (stream_pages load is_space encode native decode l images ≡ some out)
    unfolding stream_pages
    stream_pages-returns l images some_page =
        stream_loop-returns (suc (length images)) l
          (record {
            source = images;
            pages = [];
            exhausted = false;
            first_page = 0;
            total_tokens = 0;
            calls = [];
            chunks = [];
          })
          some_page (omega arith) (omega arith)
