-- ===== src/Examples/Streaming.antt =====
-- A stream of three pages in windows of two, and engines that always open.
use unlimitedocr_c.Prelude.{
  ℕ, ◌≡◌, refl, Bool, true, false, List, [], ◌∷◌, map, Option, none, some, Text, codes, length,
  Result, ok, err, Error, runtime_error, io_error, if◌then◌else◌, ◌==◌, arith,
}
use unlimitedocr_c.Frontend.Types.{PreparedRequest, global_visual_token_count}
use unlimitedocr_c.Frontend.Prompts.{split_marker, render_prompt, format_messages_plain}
use unlimitedocr_c.Frontend.Sequence.{build_token_sequence, token_spans, max_new_tokens_from_total}
use unlimitedocr_c.Frontend.Requests.{prepare_pages, finish}
use unlimitedocr_c.Parsing.Scan.{strip}
use unlimitedocr_c.Api.Stream.{
  Size, Limits, Call, Outcome, fill, refill, run_window, window, round, stream_loop, stream_pages,
}
use unlimitedocr_c.Api.Stream.Windows.{Windows, all_owned}
use unlimitedocr_c.Api.Stream.Rounds.{window_of, is_ok}
use unlimitedocr_c.Api.Stream.Ends.{stream_pages-returns}
use unlimitedocr_c.Api.Stream.Laws.{stream_pages-Windows, stream_pages-all_owned}
use unlimitedocr_c.Api.Engine.{Ocr, created, opened_engine, close, init, ensure_engine, open_engine}
use unlimitedocr_c.Api.Engine.Laws.{
  IsOcr, Given, closes, opens, Reachable-IsOcr, ensure_engine-Given,
}
use unlimitedocr_c.Examples.Preparing.{space, letters}

abbrev load_page : ℕ → Result Error Size
load_page n = ok (n, 600)

abbrev one_id : List Call → Call → Result Error (List ℕ)
one_id calls call = ok (length calls ∷ [])

abbrev one_letter : List ℕ → Result Error Text
one_letter ids = ok (codes "a")

abbrev limits : Limits
limits = record { window_pages = 2; max_page_tokens = 100; max_output_tokens = some 400 }

abbrev three_pages : List ℕ
three_pages = 800 ∷ 801 ∷ 802 ∷ []

abbrev three_sizes : List Size
three_sizes = (800, 600) ∷ (801, 600) ∷ (802, 600) ∷ []

abbrev streamed : Option Outcome
streamed = stream_pages load_page space letters one_id one_letter limits three_pages

abbrev outcome : Option Outcome → Outcome
outcome (some out) = out
outcome none = record { calls = []; chunks = []; ended = err runtime_error }

abbrev is_some : Option Outcome → Bool
is_some (some out) = true
is_some none = false

some-outcome : (o : Option Outcome) → is_some o ≡ true → o ≡ some (outcome o)
some-outcome (some out) h = refl
some-outcome none h = absurd (cc)

stream_pages-Windows_example :
    (out : Outcome) × (streamed ≡ some out)
    × Windows 2 (is_ok out.ended) 0 three_sizes (map window_of out.calls)
stream_pages-Windows_example =
    stream_pages-Windows load_page space letters one_id one_letter limits three_pages three_sizes
      (omega arith) refl

-- The second page does not load.
abbrev load_first : ℕ → Result Error Size
load_first n = if n == 801 then err io_error else ok (n, 600)

stream_pages-returns_example :
    (out : Outcome) × (stream_pages load_first space letters one_id one_letter limits three_pages
      ≡ some out)
stream_pages-returns_example =
    stream_pages-returns load_first space letters one_id one_letter limits three_pages (omega arith)

streamed-outcome : streamed ≡ some (outcome streamed)
unfolding stream_pages stream_loop round refill fill window run_window prepare_pages finish
    build_token_sequence token_spans max_new_tokens_from_total render_prompt format_messages_plain
    split_marker strip global_visual_token_count
streamed-outcome = some-outcome streamed refl

streamed-ended : (outcome streamed).ended ≡ ok tt
unfolding stream_pages stream_loop round refill fill window run_window prepare_pages finish
    build_token_sequence token_spans max_new_tokens_from_total render_prompt format_messages_plain
    split_marker strip global_visual_token_count
streamed-ended = refl

stream_pages-all_owned_example : all_owned (map window_of (outcome streamed).calls) ≡ three_sizes
stream_pages-all_owned_example =
    stream_pages-all_owned load_page space letters one_id one_letter limits three_pages three_sizes
      (outcome streamed) (omega arith) refl streamed-outcome streamed-ended

abbrev always : ℕ → ℕ → ℕ → Option Error
always n prompt gen = none

abbrev one_run : ℕ → PreparedRequest → Result Error (List (List ℕ))
one_run n request = ok ((1 ∷ []) ∷ [])

abbrev begins : ℕ → Option Error
begins n = none

Reachable-IsOcr_example : IsOcr (close (init always (codes "v1")).1).1
Reachable-IsOcr_example =
    Reachable-IsOcr always one_run one_letter begins (close (init always (codes "v1")).1).1
      (closes (init always (codes "v1")).1 (opens (codes "v1")))

created-opens : ensure_engine always 10 20 created ≡ (ok 0, opened_engine 10 20 created)
unfolding ensure_engine open_engine close
created-opens = refl

ensure_engine-Given_example : Given always 10 20 0 (opened_engine 10 20 created)
ensure_engine-Given_example =
    ensure_engine-Given always 10 20 created 0 (opened_engine 10 20 created) created-opens

abbrev in_document : Ocr
in_document = record (opened_engine 4096 512 created) { document_active = true }
