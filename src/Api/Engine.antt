-- ===== src/Api/Engine.antt =====
-- The life of the native engine in `UnlimitedOCR` of src/unlimitedocr_c/api.py: opening, growing,
-- closing, and the flag of an active document. Engines are numbered in the order in which they are
-- opened, and the numbers of the closed ones are recorded. The native side is a parameter: how the
-- n-th opening fails, how a document fails to begin, and what a run gives. Calls hold the lock, so
-- that they follow one another; a document is a call that starts it and one that finishes it.
pub mod Laws
use unlimitedocr_c.Prelude.{
  ℕ, zero, suc, Bool, true, false, ◌&&◌, List, [], ◌∷◌, ◌++◌, Option, none, some, Text, leb,
  if◌then◌else◌, Result, ok, err, Error, runtime_error, text_eq, codes, ◌>>=◌, length,
}
use unlimitedocr_c.Frontend.Types.{PreparedRequest}
use unlimitedocr_c.Api.Stream.{Limits, check_limits, prompt_capacity, output_capacity}

pub record Ocr : Type 0 where
  pub engine : Option ℕ
  pub prompt_capacity : ℕ
  pub gen_capacity : ℕ
  pub document_active : Bool
  pub opened : ℕ
  pub closed : List ℕ

-- What a call returns or raises, and the state behind it.
abbrev pub Call : Type 0 → Type 0
Call A = Result Error A × Ocr

-- In front of the first opening.
abbrev pub created : Ocr
created = record {
  engine = none;
  prompt_capacity = 0;
  gen_capacity = 0;
  document_active = false;
  opened = 0;
  closed = [];
}

abbrev pub drop_engine : Option ℕ → Ocr → Ocr
drop_engine none s = s
drop_engine (some h) s = record s {
  engine = none;
  prompt_capacity = 0;
  gen_capacity = 0;
  closed = s.closed ++ h ∷ [];
}

unfoldable pub close : Ocr → Call (Unit {0})
close s = if s.document_active then (err runtime_error, s) else (ok tt, drop_engine s.engine s)

-- The engine, where it has the capacity asked for.
abbrev pub fitting : ℕ → ℕ → Ocr → Option ℕ
fitting prompt gen s =
    if leb prompt s.prompt_capacity && leb gen s.gen_capacity then s.engine else none

-- `max(1, n)`
abbrev pub at_least_one : ℕ → ℕ
at_least_one zero = 1
at_least_one (suc n) = suc n

-- `expected one generated output`
abbrev pub single : List (List ℕ) → Result Error (List ℕ)
single (ids ∷ []) = ok ids
single outputs = err runtime_error

-- Behind an opening.
abbrev pub opened_engine : ℕ → ℕ → Ocr → Ocr
opened_engine prompt gen s = record s {
  engine = some s.opened;
  prompt_capacity = prompt;
  gen_capacity = gen;
  opened = suc s.opened;
}

module _ (fails : ℕ → ℕ → ℕ → Option Error) where
  unfoldable pub open_engine : ℕ → ℕ → Ocr → Call ℕ
  open_engine prompt gen s = elim (fails s.opened prompt gen) [
    | some e ↦ (err e, s)
    | none ↦ (ok s.opened, opened_engine prompt gen s)
  ]

  -- Behind the close.
  abbrev pub reopen : ℕ → ℕ → Call (Unit {0}) → Call ℕ
  reopen prompt gen (err e, s) = (err e, s)
  reopen prompt gen (ok _, s) = open_engine prompt gen s

  unfoldable pub ensure_engine : ℕ → ℕ → Ocr → Call ℕ
  ensure_engine prompt gen s = elim (fitting prompt gen s) [
    | some h ↦ (ok h, s)
    | none ↦ reopen prompt gen (close s)
  ]

  -- The end of `__init__`.
  unfoldable pub init : Text → Call ℕ
  init model =
      if text_eq model (codes "v1")
      then ensure_engine 32768 32768 created
      else ensure_engine 4096 512 created

  module _ (run : ℕ → PreparedRequest → Result Error (List (List ℕ)))
      (decode : List ℕ → Result Error Text) where
    -- With the engine in hand.
    abbrev pub run_on : PreparedRequest → Call ℕ → Call Text
    run_on request (err e, s) = (err e, s)
    run_on request (ok h, s) = (run h request >>= λ outputs. single outputs >>= decode, s)

    -- `generate`, with the request as the loading and the preparation gave it.
    unfoldable pub generate : Result Error PreparedRequest → Ocr → Call Text
    generate (err e) s = (err e, s)
    generate (ok request) s =
        if s.document_active
        then (err runtime_error, s)
        else run_on request (
            ensure_engine (at_least_one (length request.input_ids))
              (at_least_one request.max_new_tokens) s)

  module _ (begins : ℕ → Option Error) where
    -- `_document_active = True`, and back to `False` where the native document does not begin.
    abbrev pub enter : Call ℕ → Call (Unit {0})
    enter (err e, s) = (err e, s)
    enter (ok h, s) = elim (begins h) [
      | some e ↦ (err e, record s { document_active = false })
      | none ↦ (ok tt, record s { document_active = true })
    ]

    -- `stream_pages` up to the first window.
    unfoldable pub start_document : Bool → Limits → Ocr → Call (Unit {0})
    start_document is_v2_metal l s = elim (check_limits is_v2_metal l) [
      | err e ↦ (err e, s)
      | ok _ ↦
          if s.document_active
          then (err runtime_error, s)
          else enter (ensure_engine (prompt_capacity l) (output_capacity l) s)
    ]

-- The `finally` of `stream_pages`.
abbrev pub finish_document : Ocr → Ocr
finish_document s = record s { document_active = false }
