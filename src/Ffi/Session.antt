-- ===== src/Ffi/Session.antt =====
-- The class `Engine` of src/unlimitedocr_c/ffi.py: its handle, its document flag, and the calls of the
-- native library that it makes, in order. The library is a parameter: a status (`true` for UOCR_OK)
-- or a result for each call, by the calls made before it. A lock makes the methods follow one
-- another; `with engine.document(…)` is a beginning and an end. Reports and warmup are left out.
pub mod Protocol
pub mod Methods
pub mod Laws
use unlimitedocr_c.Prelude.{
  ℕ, Bool, true, false, not, ◌&&◌, ◌||◌, List, [], ◌∷◌, ◌++◌, Option, none, some, length, leb, ltb,
  ◌==◌, Result, ok, err, Error, value_error, runtime_error, ◌>>=◌, ◌>>◌, raise_if,
}
use unlimitedocr_c.Ffi.Requests.{Request, CPreparedRequest, as_c_request}

-- A call of the library, with its status where the code looks at it.
pub data Native : Type 0 where
  engine_open : Native
  document_begin : (max_page_tokens : ℕ) → Bool → Native
  generate_window :
      CPreparedRequest → (first_page owned_pages : ℕ) → (lookahead : Bool) → Bool → Native
  document_end : Native
  generate : List CPreparedRequest → Bool → Native
  result_free : Native
  engine_close : Native

pub record Engine : Type 0 where
  pub handle : Bool
  pub document_active : Bool
  pub calls : List Native

-- What a method returns or raises, and the object behind it.
abbrev pub Method : Type 0 → Type 0
Method A = Result Error A × Engine

abbrev pub called : Engine → List Native → Engine
called s made = record s { calls = s.calls ++ made }

-- `__init__`, where the library gives a handle.
abbrev pub opened : Engine
opened = record { handle = true; document_active = false; calls = engine_open ∷ [] }

unfoldable pub close : Engine → Method (Unit {0})
close s = elim s.document_active [
  | true ↦ (err runtime_error, s)
  | false ↦ elim s.handle [
    | true ↦ (ok tt, record s { handle = false; calls = s.calls ++ engine_close ∷ [] })
    | false ↦ (ok tt, s)
  ]
]

-- The checks of `document`, `_require_open` among them.
unfoldable pub check_document : Bool → ℕ → Engine → Result Error (Unit {0})
check_document has_documents max_page_tokens s = do
  raise_if s.document_active runtime_error
  raise_if (not has_documents) runtime_error
  raise_if (max_page_tokens == 0 || ltb 20000 max_page_tokens) value_error
  raise_if (not s.handle) runtime_error

-- `document` up to its `yield`; `has_documents` tells whether the library knows of documents.
unfoldable pub begin_document : (List Native → ℕ → Bool) → Bool → ℕ → Engine → Method (Unit {0})
unfolding check_document
begin_document begins has_documents max_page_tokens s =
    elim (check_document has_documents max_page_tokens s) [
      | err e ↦ (err e, s)
      | ok _ ↦ elim (begins s.calls max_page_tokens) [
        | false ↦ (err runtime_error, called s (document_begin max_page_tokens false ∷ []))
        | true ↦ (
          ok tt,
          record s {
            document_active = true;
            calls = s.calls ++ document_begin max_page_tokens true ∷ [];
          },
        )
      ]
    ]

-- The `finally` of `document`.
unfoldable pub end_document : Engine → Method (Unit {0})
end_document s = elim s.handle [
  | true ↦ (ok tt, record s { document_active = false; calls = s.calls ++ document_end ∷ [] })
  | false ↦ (err runtime_error, s)
]

abbrev pub one_output : List (List ℕ) → Result Error (List ℕ)
one_output (ids ∷ []) = ok ids
one_output outputs = err runtime_error

-- The checks of `document_window`, behind `as_c_request`.
abbrev pub check_window : Engine → Result Error (Unit {0})
check_window s = do
  raise_if (not s.document_active) runtime_error
  raise_if (not s.handle) runtime_error

-- The native side of a window: its outputs, where the status is UOCR_OK.
unfoldable pub document_window :
    (List Native → CPreparedRequest → ℕ → ℕ → Bool → Option (List (List ℕ)))
    → Request
    → (first_page owned_pages : ℕ) → (lookahead : Bool) → Engine
    → Method (List ℕ)
unfolding as_c_request
document_window windows request first_page owned_pages lookahead s =
    elim (as_c_request request >>= λ c. check_window s >> ok c) [
      | err e ↦ (err e, s)
      | ok c ↦ elim (windows s.calls c first_page owned_pages lookahead) [
        | none ↦ (
          err runtime_error,
          called s (generate_window c first_page owned_pages lookahead false ∷ []),
        )
        | some outputs ↦ (
          one_output outputs,
          called s (generate_window c first_page owned_pages lookahead true ∷ result_free ∷ []),
        )
      ]
    ]

abbrev pub as_c_requests : List Request → Result Error (List CPreparedRequest)
as_c_requests [] = ok []
as_c_requests (r ∷ rs) = as_c_request r >>= λ c. as_c_requests rs >>= λ cs. ok (c ∷ cs)

unfoldable pub generate_prepared :
    (List Native → List CPreparedRequest → Option (List (List ℕ)))
    → List Request
    → Engine
    → Method (List (List ℕ))
generate_prepared generates requests s =
    elim (raise_if (length requests == 0) value_error
      >> (as_c_requests requests >>= λ cs. raise_if (not s.handle) runtime_error >> ok cs)) [
        | err e ↦ (err e, s)
        | ok cs ↦ elim (generates s.calls cs) [
          | none ↦ (err runtime_error, called s (generate cs false ∷ []))
          | some outputs ↦ (ok outputs, called s (generate cs true ∷ result_free ∷ []))
        ]
      ]
