-- ===== src/Api/Stream/Budgets.antt =====
-- The limits of `stream_pages` in src/unlimitedocr_c/api.py against the context of the model.
use unlimitedocr_c.Prelude.{ℕ, ◌≤◌, arith}
use unlimitedocr_c.Api.Stream.{min}

min_left : (a b c : ℕ) → a ≤ b → min a c ≤ b
min_left a b c h = ground arith
