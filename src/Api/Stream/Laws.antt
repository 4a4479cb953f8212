-- ===== src/Api/Stream/Laws.antt =====
-- `stream_pages` of src/unlimitedocr_c/api.py as a whole, against the windows of the document.
use mathlib.Core.Path.{subst}
use unlimitedocr_c.Prelude.{
  ℕ, zero, suc, ◌≤◌, ◌<◌, ◌≡◌, refl, sym, ap, ◌∙◌, Bool, false, List, [], ◌∷◌, ◌++◌, map, Option,
  some, Text, length, append_assoc, Result, ok, Error, arith,
}
use unlimitedocr_c.Api.Stream.{
  Size, Limits, Call, Outcome, Progress, Round, round, stream_loop, stream_pages,
}
use unlimitedocr_c.Api.Stream.Windows.{Window, Windows, next_window, all_owned, Windows-all_owned}
use unlimitedocr_c.Api.Stream.Fill.{load_all, IsProgress}
use unlimitedocr_c.Api.Stream.Rounds.{
  Turns, ends, goes, round-Turns, window_of, is_ok, ahead_window,
}

module _ {Source : Type 0} (load : Source → Result Error Size) where
  module _ (is_space : ℕ → Bool) (encode : Text → List ℕ)
      (native : List Call → Call → Result Error (List ℕ))
      (decode : List ℕ → Result Error Text) where
    -- The windows called on behind `p`, and how the stream ends.
    abbrev pub Streams : ℕ → List Window → ℕ → List Size → Option Outcome → Type 0
    Streams w before first images o =
        (out : Outcome) × (ws : List Window) × (o ≡ some out)
        × (map window_of out.calls ≡ before ++ ws)
        × Windows w (is_ok out.ended) first images ws

    -- A round and what comes behind it.
    turn-Streams :
        (fuel : ℕ) (l : Limits) (p : Progress load) (images : List Size) (r : Round load)
        → ((q : Progress load) (rest : List Size)
            → IsProgress load rest q
            → length q.source < length p.source
            → Streams l.window_pages
                (map window_of q.calls)
                q.first_page
                (q.pages ++ rest)
                (stream_loop load is_space encode native decode fuel l q))
        → round load is_space encode native decode l p ≡ r
        → Turns load is_space encode native decode l.window_pages p images r
        → Streams l.window_pages
            (map window_of p.calls)
            p.first_page
            images
            (stream_loop load is_space encode native decode (suc fuel) l p)
    unfolding stream_loop
    turn-Streams fuel l p _ _ again e (ends out ws calls k) =
        (out, ws, rw (e, stream_loop), calls, k)
    turn-Streams fuel l p _ _ again e
          (goes q owned ahead later images n calls first pages k fewer) =
        let (out, ws, e', calls', win) = again q later k fewer in
        let shown = ahead_window l.window_pages p.first_page owned ahead in
        let joined =
          calls'
          ∙ (ap (λ x. x ++ ws) calls ∙ append_assoc (map window_of p.calls) (shown ∷ []) ws) in
        let behind =
          subst (λ n. Windows l.window_pages (is_ok out.ended) n (ahead ∷ later) ws) first
            (subst
              (λ pages. Windows l.window_pages (is_ok out.ended) q.first_page (pages ++ later) ws)
              pages win) in
        let all =
          subst (λ i. Windows l.window_pages (is_ok out.ended) p.first_page i (shown ∷ ws))
            (sym images) (next_window _ p.first_page owned ahead later ws n behind) in
        (out, shown ∷ ws, rw (e, stream_loop) e', joined, all)

    stream_loop-Streams :
        (fuel : ℕ) (l : Limits) (p : Progress load) (rest : List Size)
        → 1 ≤ l.window_pages
        → IsProgress load rest p
        → length p.source < fuel
        → Streams l.window_pages
            (map window_of p.calls)
            p.first_page
            (p.pages ++ rest)
            (stream_loop load is_space encode native decode fuel l p)
    unfolding stream_loop
    stream_loop-Streams zero l p rest some_page h enough = absurd (omega arith)
    stream_loop-Streams (suc fuel) l p rest some_page h enough =
        turn-Streams fuel l p (p.pages ++ rest) (round load is_space encode native decode l p)
          (λ q later k fewer. stream_loop-Streams fuel l q later some_page k (omega arith)) refl
          (round-Turns load is_space encode native decode l p rest some_page h)

    -- Where all images load and a window has a page, a stream ends, and its windows are, in order, the
    -- windows of the document, or a front of them where it ends with an error: no page is skipped or owned twice,
    -- each window but the last shows the page behind it, and each is numbered by its first page.
    pub stream_pages-Windows :
        (l : Limits) (images : List Source) (sizes : List Size)
        → 1 ≤ l.window_pages
        → load_all load images ≡ ok sizes
        → (out : Outcome) × (stream_pages load is_space encode native decode l images ≡ some out)
          × Windows l.window_pages (is_ok out.ended) 0 sizes (map window_of out.calls)
    unfolding stream_pages
    stream_pages-Windows l images sizes some_page h =
        let (out, ws, e, calls, k) =
          stream_loop-Streams (suc (length images)) l
            (record {
              source = images;
              pages = [];
              exhausted = false;
              first_page = 0;
              total_tokens = 0;
              calls = [];
              chunks = [];
            })
            sizes some_page (record { loads = h; held = omega arith; at_end = λ k. absurd (cc) })
            (omega arith) in
        (out, e, subst (λ x. Windows l.window_pages (is_ok out.ended) 0 sizes x) (sym calls) k)

    -- A stream that ends without an error has owned every page of the document once, in order.
    pub stream_pages-all_owned :
        (l : Limits) (images : List Source) (sizes : List Size) (out : Outcome)
        → 1 ≤ l.window_pages
        → load_all load images ≡ ok sizes
        → stream_pages load is_space encode native decode l images ≡ some out
        → out.ended ≡ ok tt
        → all_owned (map window_of out.calls) ≡ sizes
    stream_pages-all_owned l images sizes out some_page h e well =
        let (out', e', k) = stream_pages-Windows l images sizes some_page h in
        let same : out' ≡ out = cc in
        Windows-all_owned l.window_pages 0 sizes (map window_of out.calls) (
          subst (λ b. Windows l.window_pages b 0 sizes (map window_of out.calls)) (ap is_ok well)
            (subst
              (λ (o : Outcome).
                Windows l.window_pages (is_ok o.ended) 0 sizes (map window_of o.calls))
              same k))
