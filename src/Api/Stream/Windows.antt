-- ===== src/Api/Stream/Windows.antt =====
-- How a document is cut into windows, without loading, budgets or an engine.
use unlimitedocr_c.Prelude.{
  ℕ, ◌+◌, ◌≤◌, ◌≡◌, refl, sym, ap, ◌∙◌, Bool, true, false, List, [], ◌∷◌, ◌++◌, take, length,
  take-append, append-nil,
}
use unlimitedocr_c.Api.Stream.{Size}

-- The pages shown, of which the first ones are owned.
pub record Window : Type 0 where
  pub first_page : ℕ
  pub owned_pages : ℕ
  pub lookahead : Bool
  pub shown : List Size

-- The windows of the images from page `first` on, `w` pages in each but the last; `whole` tells
-- whether they are all there, or a front of them.
pub data Windows (w : ℕ) : (whole : Bool) → (first : ℕ) → List Size → List Window → Type 0 where
  stopped : (first : ℕ) (images : List Size) → Windows w false first images []
  no_page : (whole : Bool) (first : ℕ) → Windows w whole first [] []
  last_window :
      (whole : Bool) (first : ℕ) (images : List Size)
      → 1 ≤ length images
      → length images ≤ w
      → Windows w whole first images (
          record {
            first_page = first;
            owned_pages = length images;
            lookahead = false;
            shown = images;
          }
          ∷ [])
  next_window :
      (whole : Bool) (first : ℕ) (owned : List Size) (ahead : Size) (rest : List Size)
      (later : List Window)
      → length owned ≡ w
      → Windows w whole (first + w) (ahead ∷ rest) later
      → Windows w whole first (owned ++ ahead ∷ rest) (
          record {
            first_page = first;
            owned_pages = w;
            lookahead = true;
            shown = owned ++ ahead ∷ [];
          }
          ∷ later)

-- The pages that the windows own, one window after the other.
abbrev pub all_owned : List Window → List Size
all_owned [] = []
all_owned (x ∷ xs) = take x.owned_pages x.shown ++ all_owned xs

take_all : (xs : List Size) → take (length xs) xs ≡ xs
take_all [] = refl
take_all (x ∷ xs) = ap (◌∷◌ x) (take_all xs)

-- All windows together own the images, each once and in order.
pub Windows-all_owned :
    (w first : ℕ) (images : List Size) (ws : List Window)
    → Windows w true first images ws
    → all_owned ws ≡ images
Windows-all_owned w _ _ _ (no_page whole first) = refl
Windows-all_owned w _ _ _ (last_window whole first images some_page h) =
    append-nil _ ∙ take_all images
Windows-all_owned w _ _ _ (next_window whole first owned ahead rest later h k) =
    ap (λ n. take n (owned ++ ahead ∷ []) ++ all_owned later) (sym h)
    ∙ (ap (λ t. t ++ all_owned later) (take-append owned (ahead ∷ []))
        ∙ ap (◌++◌ owned) (Windows-all_owned w (first + w) (ahead ∷ rest) later k))
