-- ===== src/Examples/Handing.antt =====
-- Prepared requests handed to the native library, and an engine whose native calls succeed.
use unlimitedocr_c.Prelude.{ℕ, ◌≡◌, refl, Bool, true, List, [], ◌∷◌, Option, none, some, codes, ok}
use unlimitedocr_c.Frontend.Requests.{v2}
use unlimitedocr_c.Ffi.Requests.{float16, float32, CPreparedRequest}
use unlimitedocr_c.Ffi.Requests.Laws.{hand_over}
use unlimitedocr_c.Ffi.Requests.Contract.{native_of}
use unlimitedocr_c.Ffi.Requests.Accepted.{prepare_pages-accepted, prepare_image-accepted}
use unlimitedocr_c.Ffi.Session.{Engine, Native, opened, begin_document, end_document}
use unlimitedocr_c.Ffi.Session.Protocol.{Protocol}
use unlimitedocr_c.Examples.Preparing.{
  space, letters, thousandths, thousandths-ArrangeKeeps, two_pages, pages_call, pages_call-returned,
  image_call, image_call-returned, returned,
}

prepare_pages-accepted_example :
    hand_over float16 (returned pages_call) ≡ ok (native_of float16 (returned pages_call))
prepare_pages-accepted_example =
    prepare_pages-accepted space letters two_pages none v2 1024 4096 none (returned pages_call)
      float16 refl pages_call-returned

prepare_image-accepted_example :
    hand_over float32 (returned image_call) ≡ ok (native_of float32 (returned image_call))
prepare_image-accepted_example =
    prepare_image-accepted space letters thousandths (1280, 640) none v2 (codes "gundam") 4096 none
      (returned image_call) float32 thousandths-ArrangeKeeps refl image_call-returned

abbrev begins : List Native → ℕ → Bool
begins calls n = true

abbrev windows : List Native → CPreparedRequest → ℕ → ℕ → Bool → Option (List (List ℕ))
windows calls c first owned lookahead = some ((1 ∷ []) ∷ [])

abbrev generates : List Native → List CPreparedRequest → Option (List (List ℕ))
generates calls requests = none

abbrev in_document : Engine
in_document = (begin_document begins true 100 opened).1

abbrev after_document : Engine
after_document = (end_document in_document).1
