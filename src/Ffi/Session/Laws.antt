-- ===== src/Ffi/Session/Laws.antt =====
-- The native calls of `Engine` in src/unlimitedocr_c/ffi.py, over any sequence of its methods.
use unlimitedocr_c.Prelude.{ℕ, ◌≡◌, Bool, true, false, List, Option}
use unlimitedocr_c.Ffi.Requests.{Request, CPreparedRequest}
use unlimitedocr_c.Ffi.Session.{
  Native, Engine, opened, close, begin_document, end_document, document_window, generate_prepared,
}
use unlimitedocr_c.Ffi.Session.Protocol.{Protocol}
use unlimitedocr_c.Ffi.Session.Methods.{raises}

module _ (begins_ok : List Native → ℕ → Bool)
    (windows : List Native → CPreparedRequest → ℕ → ℕ → Bool → Option (List (List ℕ)))
    (generates : List Native → List CPreparedRequest → Option (List (List ℕ)))
    (has_documents : Bool) where
  -- An engine behind calls of its methods, as src/unlimitedocr_c/api.py makes them, and whether a
  -- window of its document raised: windows are within a document, whose end is next where one raises;
  -- only an active document is ended; other generation is outside of documents. Closing and beginning
  -- a document are tried at any time.
  pub data Reachable : Bool → Engine → Type 0 where
    initial : Reachable false opened
    closing : (raised : Bool) (s : Engine) → Reachable raised s → Reachable raised (close s).1
    beginning :
        (s : Engine) (n : ℕ)
        → Reachable false s
        → Reachable false (begin_document begins_ok has_documents n s).1
    ending :
        (raised : Bool) (s : Engine)
        → s.document_active ≡ true
        → Reachable raised s
        → Reachable false (end_document s).1
    in_window :
        (s : Engine) (request : Request) (first owned : ℕ) (lookahead : Bool)
        → s.document_active ≡ true
        → Reachable false s
        → Reachable
            (raises (document_window windows request first owned lookahead s).0)
            (document_window windows request first owned lookahead s).1
    generating :
        (s : Engine) (requests : List Request)
        → s.document_active ≡ false
        → Reachable false s
        → Reachable false (generate_prepared generates requests s).1
