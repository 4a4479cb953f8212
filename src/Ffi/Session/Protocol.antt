-- ===== src/Ffi/Session/Protocol.antt =====
-- The protocol of the native library's engine, and the methods of `Engine` in
-- src/unlimitedocr_c/ffi.py that keep to it.
use unlimitedocr_c.Prelude.{ℕ, ◌≤◌, ◌≡◌, ◌≢◌, refl, Bool, true, false, List, [], ◌∷◌, ◌++◌}
use unlimitedocr_c.Ffi.Requests.{CPreparedRequest}
use unlimitedocr_c.Ffi.Session.{
  Native, engine_open, document_begin, generate_window, document_end, generate, result_free,
  engine_close, Engine, close, end_document,
}

-- Where the engine stands: outside a document, in one, or in one that has failed or is given up.
pub data Phase : Type 0 where
  idle running broken : Phase

-- By whether a document is active, and whether one of its windows raised.
abbrev pub phase_of : (is_active raised : Bool) → Phase
phase_of false raised = idle
phase_of true false = running
phase_of true true = broken

-- The sequences of calls that include/unlimitedocr.h allows, with whether the engine is open, and its
-- phase, behind them: nothing follows the close, which is outside a document; documents do not nest,
-- and take from 1 to 20000 tokens a page; windows lie within a document, and behind one that failed
-- comes the document's end; other generation is outside of documents; a result is freed at once, and
-- nothing is freed that was not returned.
pub data Protocol : (is_open : Bool) → Phase → List Native → Type 0 where
  opens : Protocol true idle (engine_open ∷ [])
  begins :
      (cs : List Native) (n : ℕ) (status : Bool)
      → 1 ≤ n
      → n ≤ 20000
      → Protocol true idle cs
      → Protocol true (phase_of status false) (cs ++ document_begin n status ∷ [])
  window_fails :
      (cs : List Native) (c : CPreparedRequest) (first owned : ℕ) (lookahead : Bool)
      → Protocol true running cs
      → Protocol true broken (cs ++ generate_window c first owned lookahead false ∷ [])
  window_returns :
      (cs : List Native) (c : CPreparedRequest) (first owned : ℕ) (lookahead : Bool)
      → Protocol true running cs
      → Protocol true running
          (cs ++ generate_window c first owned lookahead true ∷ result_free ∷ [])
  gives_up : (cs : List Native) → Protocol true running cs → Protocol true broken cs
  ends :
      (cs : List Native) (raised : Bool)
      → Protocol true (phase_of true raised) cs
      → Protocol true idle (cs ++ document_end ∷ [])
  generate_fails :
      (cs : List Native) (requests : List CPreparedRequest)
      → Protocol true idle cs
      → Protocol true idle (cs ++ generate requests false ∷ [])
  generate_returns :
      (cs : List Native) (requests : List CPreparedRequest)
      → Protocol true idle cs
      → Protocol true idle (cs ++ generate requests true ∷ result_free ∷ [])
  closes :
      (cs : List Native) → Protocol true idle cs → Protocol false idle (cs ++ engine_close ∷ [])

abbrev pub Keeps : Bool → Engine → Type 0
Keeps raised s = Protocol s.handle (phase_of s.document_active raised) s.calls

abbrev object : Bool → Bool → List Native → Engine
object handle active cs = record { handle = handle; document_active = active; calls = cs }

pub closed_idle : (p : Phase) (cs : List Native) → Protocol false p cs → p ≡ idle
closed_idle _ _ (closes cs k) = refl

close-object :
    (raised h a : Bool) (cs : List Native)
    → Protocol h (phase_of a raised) cs
    → Keeps raised (close (object h a cs)).1
unfolding close
close-object raised true true cs k = k
close-object raised false true cs k = k
close-object raised true false cs k = closes cs k
close-object raised false false cs k = k

pub close-Keeps : (raised : Bool) (s : Engine) → Keeps raised s → Keeps raised (close s).1
close-Keeps raised s k = close-object raised s.handle s.document_active s.calls k

pub active_open : (raised : Bool) → phase_of true raised ≢ idle
active_open true h = absurd (cc)
active_open false h = absurd (cc)

end_document-object :
    (raised h a : Bool) (cs : List Native)
    → a ≡ true
    → Protocol h (phase_of a raised) cs
    → Keeps false (end_document (object h a cs)).1
unfolding end_document
end_document-object raised true true cs e k = ends cs raised k
end_document-object raised false true cs e k = absurd (active_open raised (closed_idle _ cs k))
end_document-object raised h false cs e k = absurd (cc)

pub end_document-Keeps :
    (raised : Bool) (s : Engine)
    → s.document_active ≡ true
    → Keeps raised s
    → Keeps false (end_document s).1
end_document-Keeps raised s e k = end_document-object raised s.handle s.document_active s.calls e k
