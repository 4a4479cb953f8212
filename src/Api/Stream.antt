-- ===== src/Api/Stream.antt =====
-- `UnlimitedOCR.stream_pages` of src/unlimitedocr_c/api.py: a document is read in windows of pages,
-- each with one page of lookahead. The native `document_window` is a function of the calls made so
-- far and the call; loading an image gives its width and height; `decode` is the tokenizer's. The
-- consumer takes every chunk. The loop takes fuel, one unit for each window.
pub mod Windows
pub mod Fill
pub mod Rounds
pub mod Ends
pub mod Laws
pub mod Budgets
use unlimitedocr_c.Prelude.{
  ℕ, zero, suc, ◌+◌, ◌-◌, ◌*◌, Bool, true, false, not, ◌&&◌, ◌||◌, List, [], ◌∷◌, ◌++◌, Option,
  none, some, Text, length, ltb, leb, ◌==◌, if◌then◌else◌, Result, ok, err, Error, value_error,
  runtime_error, ◌>>=◌, ◌>>◌, raise_if,
}
use unlimitedocr_c.Prelude.Int.{ℤ, pos}
use unlimitedocr_c.Frontend.Types.{PreparedRequest}
use unlimitedocr_c.Frontend.Requests.{v2, prepare_pages}

abbrev pub min : ℕ → ℕ → ℕ
min a b = if leb a b then a else b

abbrev pub Size : Type 0
Size = ℕ × ℕ

-- The arguments of `stream_pages` but for the images, once their types are checked.
pub record Limits : Type 0 where
  pub window_pages : ℕ
  pub max_page_tokens : ℕ
  pub max_output_tokens : Option ℕ

-- A call of `engine.document_window`, with the pages that its request was prepared from.
pub record Call : Type 0 where
  pub pages : List Size
  pub request : PreparedRequest
  pub first_page : ℕ
  pub owned_pages : ℕ
  pub lookahead : Bool

-- What a consumer sees: the calls made, the chunks yielded, and how the stream ends.
pub record Outcome : Type 0 where
  pub calls : List Call
  pub chunks : List Text
  pub ended : Result Error (Unit {0})

-- `pages[-1:]`
abbrev pub last_only {ℓ} : {A : Type ℓ} → List A → List A
last_only [] = []
last_only (x ∷ []) = x ∷ []
last_only (x ∷ y ∷ s) = last_only (y ∷ s)

abbrev pub prompt_capacity : Limits → ℕ
prompt_capacity l = 5 + (l.window_pages + 1) * 274

abbrev pub output_capacity : Limits → ℕ
output_capacity l =
    let whole = l.window_pages * l.max_page_tokens + 256 in
    elim l.max_output_tokens [ none ↦ whole | some m ↦ min whole m ]

abbrev pub not_positive : Option ℕ → Bool
not_positive none = false
not_positive (some m) = m == 0

-- The checks in front of the lock.
unfoldable pub check_limits : Bool → Limits → Result Error (Unit {0})
check_limits is_v2_metal l = do
  raise_if (not is_v2_metal) value_error
  raise_if (l.window_pages == 0) value_error
  raise_if (l.max_page_tokens == 0 || ltb 20000 l.max_page_tokens) value_error
  raise_if (not_positive l.max_output_tokens) value_error
  raise_if (ltb 131072 (prompt_capacity l + output_capacity l + 290)) value_error

module _ {Source : Type 0} (load : Source → Result Error Size) where
  -- The local variables of the loop, with what was called and yielded so far.
  pub record Progress : Type 0 where
    pub source : List Source
    pub pages : List Size
    pub exhausted : Bool
    pub first_page : ℕ
    pub total_tokens : ℕ
    pub calls : List Call
    pub chunks : List Text

  -- What the inner loop leaves.
  pub record Filled : Type 0 where
    pub source : List Source
    pub pages : List Size
    pub exhausted : Bool

  -- The inner loop, with room for `n` more pages.
  unfoldable pub fill : ℕ → List Source → List Size → Result Error Filled
  fill zero source pages = ok (record { source = source; pages = pages; exhausted = false })
  fill (suc n) [] pages = ok (record { source = []; pages = pages; exhausted = true })
  fill (suc n) (image ∷ source) pages = load image >>= λ size. fill n source (pages ++ size ∷ [])

  unfoldable pub refill : ℕ → Progress → Result Error Filled
  unfolding fill
  refill window_pages p = elim p.exhausted [
    | true ↦ ok (record { source = p.source; pages = p.pages; exhausted = true })
    | false ↦ fill (window_pages + 1 - length p.pages) p.source p.pages
  ]

  abbrev pub remaining : Limits → ℕ → Option ℕ
  remaining l total = elim l.max_output_tokens [ none ↦ none | some m ↦ some (m - total) ]

  -- `limit`
  abbrev pub token_limit : Limits → Option ℕ → ℕ → ℕ
  token_limit l left owned = elim left [
    | none ↦ owned * l.max_page_tokens + 256
    | some m ↦ min (owned * l.max_page_tokens + 256) m
  ]

  -- A round ends the stream, or goes on.
  pub data Round : Type 0 where
    finished : Outcome → Round
    continues : Progress → Round

  abbrev pub stop : Progress → Result Error (Unit {0}) → Round
  stop p e = finished (record { calls = p.calls; chunks = p.chunks; ended = e })

  module _ (is_space : ℕ → Bool) (encode : Text → List ℕ)
      (native : List Call → Call → Result Error (List ℕ))
      (decode : List ℕ → Result Error Text) where
    -- Behind the yield: the progress with the chunk and the call added.
    abbrev pub advance : Progress → Filled → Call → List ℕ → Text → Progress
    advance p f call ids text = record {
      source = f.source;
      pages = if call.lookahead then last_only f.pages else [];
      exhausted = f.exhausted;
      first_page = p.first_page + call.owned_pages;
      total_tokens = p.total_tokens + length ids;
      calls = p.calls ++ call ∷ [];
      chunks = p.chunks ++ text ∷ [];
    }

    -- The call, which is made whether or not it returns.
    abbrev pub made : Progress → Call → Progress
    made p call = record p { calls = p.calls ++ call ∷ [] }

    -- The ids of a window and their text.
    abbrev pub answer : List Call → Call → Result Error (List ℕ × Text)
    answer calls call = native calls call >>= λ ids. decode ids >>= λ text. ok (ids, text)

    unfoldable pub run_window : Progress → Filled → Call → Round
    run_window p f call = elim (answer p.calls call) [
      | err e ↦ stop (made p call) (err e)
      | ok (ids, text) ↦ elim call.lookahead [
        | true ↦ continues (advance p f call ids text)
        | false ↦ stop (advance p f call ids text) (ok tt)
      ]
    ]

    abbrev pub call_of : Progress → ℕ → List Size → PreparedRequest → Call
    call_of p window_pages pages request = record {
      pages = pages;
      request = request;
      first_page = p.first_page;
      owned_pages = min window_pages (length pages);
      lookahead = ltb (min window_pages (length pages)) (length pages);
    }

    -- With the pages of a window in hand.
    unfoldable pub window : Limits → Progress → Filled → Round
    unfolding run_window
    window l p f = elim f.pages [
      | [] ↦ stop p (ok tt)
      | page ∷ pages ↦
          let owned = min l.window_pages (length (page ∷ pages)) in
          let limit = token_limit l (remaining l p.total_tokens) owned in
          elim (prepare_pages is_space encode (page ∷ pages) none v2 1024 131072
            (some (pos limit))) [
              | err e ↦ stop p (err e)
              | ok request ↦ run_window p f (call_of p l.window_pages (page ∷ pages) request)
            ]
    ]

    unfoldable pub round : Limits → Progress → Round
    unfolding refill window
    round l p = elim (not_positive (remaining l p.total_tokens)) [
      | true ↦ stop p (err runtime_error)
      | false ↦ elim (refill l.window_pages p) [ err e ↦ stop p (err e) | ok f ↦ window l p f ]
    ]

    -- `while True`; `none` is no end of the code's, but of the fuel.
    unfoldable pub stream_loop : ℕ → Limits → Progress → Option Outcome
    stream_loop zero l p = none
    stream_loop (suc fuel) l p = elim (round l p) [
      | finished out ↦ some out
      | continues p' ↦ stream_loop fuel l p'
    ]

    -- The stream of all images, once the engine is there.
    unfoldable pub stream_pages : Limits → List Source → Option Outcome
    unfolding stream_loop
    stream_pages l images = stream_loop (suc (length images)) l (record {
      source = images;
      pages = [];
      exhausted = false;
      first_page = 0;
      total_tokens = 0;
      calls = [];
      chunks = [];
    })
