-- ===== src/Parsing/Document/Pages.antt =====
-- `_parse_v2` of src/unlimitedocr_c/parsing.py.
use mathlib.Core.Path.{subst}
use unlimitedocr_c.Prelude.{
  ℕ, zero, suc, ◌+◌, ◌≤◌, ◌<◌, ◌≡◌, false, [], ◌∷◌, Option, none, some, Text, strip_prefix, ok,
  >>=-eq-ok, ok-injective, err_ok, length, arith, Bool-cases, Option-cases, inl, inr,
}
use unlimitedocr_c.Parsing.Types.{Python, IsPython}
use unlimitedocr_c.Parsing.Scan.{skip_space}
use unlimitedocr_c.Parsing.Scan.Lengths.{length-strip_prefix, length-skip_space}
use unlimitedocr_c.Parsing.Errors.{ErrorIn, returned, raised, ErrorIn-bind}
use unlimitedocr_c.Parsing.Document.{
  read_block, V2, v2_page, v2_merge, v2_round, v2_loop, v2_finish, parse_v2, page_mark, merge_mark,
  block_mark, no_blocks, is_merged, fork_mark,
}
use unlimitedocr_c.Parsing.Document.Blocks.{read_block-ErrorIn, read_block-length}

some-injective : {a b : ℕ} → ◌≡◌ {A = Option ℕ} (some a) (some b) → a ≡ b
some-injective h = ground arith

none_ne : {b : ℕ} → ◌≡◌ {A = Option ℕ} none (some b) → ⊥
none_ne h = cc

module _ (py : Python) (lawful : IsPython py) where
  open py use {Coord, is_space}

  -- A pending `<MERGE>` stands within the text.
  abbrev MergeIn : ℕ → V2 py → Type 0
  MergeIn n s = (m : ℕ) → s.merge_offset ≡ some m → m ≤ n

  pub v2_page-ErrorIn : (n : ℕ) (s : V2 py) → MergeIn n s → ErrorIn n (v2_page py s)
  v2_page-ErrorIn n s h = elim (Option-cases s.merge_offset) [
    | inl e ↦ rw (e, v2_page) (returned _)
    | inr (m, e) ↦ rw (e, v2_page) (raised _ _ (h m e))
  ]

  pub v2_page-MergeIn : (n : ℕ) (s r : V2 py) → MergeIn n s → v2_page py s ≡ ok r → MergeIn n r
  v2_page-MergeIn n s r h k = elim (Option-cases s.merge_offset) [
    | inl e ↦ subst (MergeIn n) (ok-injective (rw (e, v2_page) at k)) h
    | inr (m, e) ↦ absurd (err_ok (rw (e, v2_page) at k))
  ]

  pub v2_merge-ErrorIn : (n at : ℕ) (s : V2 py) → at ≤ n → ErrorIn n (v2_merge py at s)
  v2_merge-ErrorIn n at s h = elim (Option-cases s.merge_offset) [
    | inr (m, e) ↦ rw (e, v2_merge) (raised _ _ h)
    | inl e ↦ elim (Bool-cases (no_blocks py s.blocks)) [
      | inl f ↦ rw (e, f, v2_merge) (raised _ _ h)
      | inr f ↦ rw (e, f, v2_merge) (returned _)
    ]
  ]

  pub v2_merge-MergeIn : (n at : ℕ) (s r : V2 py) → at ≤ n → v2_merge py at s ≡ ok r → MergeIn n r
  v2_merge-MergeIn n at s r h k = elim (Option-cases s.merge_offset) [
    | inr (m, e) ↦ absurd (err_ok (rw (e, v2_merge) at k))
    | inl e ↦ elim (Bool-cases (no_blocks py s.blocks)) [
      | inl f ↦ absurd (err_ok (rw (e, f, v2_merge) at k))
      | inr f ↦
          subst (MergeIn n) (ok-injective (rw (e, f, v2_merge) at k))
            (λ m eq. subst (λ x. x ≤ n) (some-injective eq) h)
    ]
  ]

  pub v2_round-ErrorIn :
      (n at : ℕ) (rest : Text) (s : V2 py)
      → at + length rest ≤ n
      → MergeIn n s
      → ErrorIn n (v2_round py at rest s)
  unfolding v2_round
  v2_round-ErrorIn n at rest s h k = elim (Option-cases (strip_prefix page_mark rest)) [
    | inr (t, e) ↦ rw (e, v2_round) (ErrorIn-bind n _ _ (v2_page-ErrorIn n s k) (λ r _. returned _))
    | inl e ↦ elim (Option-cases (strip_prefix merge_mark rest)) [
      | inr (t, f) ↦
          rw (e, f, v2_round)
            (ErrorIn-bind n _ _ (v2_merge-ErrorIn n at s (omega arith)) (λ r _. returned _))
      | inl f ↦ elim (Option-cases (strip_prefix block_mark rest)) [
        | inr (t, g) ↦
            let mark = length-strip_prefix block_mark rest t g in
            rw (e, f, g, v2_round)
              (ErrorIn-bind n _ _
                (read_block-ErrorIn py lawful n fork_mark 1000 false none (is_merged py s)
                  (at + length block_mark) t (omega arith))
                (λ r _. returned _))
        | inl g ↦ rw (e, f, g, v2_round) (raised _ _ (omega arith))
      ]
    ]
  ]

  -- What a round leaves: a shorter text at its offset, and a pending `<MERGE>` within the text.
  abbrev Left : ℕ → ℕ → Text → V2 py × ℕ × Text → Type 0
  Left n at rest r =
      (r.1 + length r.2 ≡ at + length rest) × (length r.2 < length rest) × MergeIn n r.0

  pub v2_round-Left :
      (n at : ℕ) (rest : Text) (s : V2 py) (r : V2 py × ℕ × Text)
      → at + length rest ≤ n
      → MergeIn n s
      → v2_round py at rest s ≡ ok r
      → Left n at rest r
  unfolding v2_round
  v2_round-Left n at rest s r h k eq = elim (Option-cases (strip_prefix page_mark rest)) [
    | inr (t, e) ↦
        let mark = length-strip_prefix page_mark rest t e in
        let gap = length-skip_space is_space t in
        let (s', f, h1) = >>=-eq-ok (v2_page py s) _ (rw e at eq) in
        subst (Left n at rest) (ok-injective h1)
          (omega arith, omega arith, v2_page-MergeIn n s s' k f)
    | inl e ↦ elim (Option-cases (strip_prefix merge_mark rest)) [
      | inr (t, f) ↦
          let mark = length-strip_prefix merge_mark rest t f in
          let gap = length-skip_space is_space t in
          let (s', g, h1) = >>=-eq-ok (v2_merge py at s) _ (rw (e, f) at eq) in
          subst (Left n at rest) (ok-injective h1)
            (omega arith, omega arith, v2_merge-MergeIn n at s s' (omega arith) g)
      | inl f ↦ elim (Option-cases (strip_prefix block_mark rest)) [
        | inr (t, g) ↦
            let mark = length-strip_prefix block_mark rest t g in
            let (x, i, h1) =
              >>=-eq-ok
                (read_block py fork_mark 1000 false none (is_merged py s) (at + length block_mark)
                  t)
                _ (rw (e, f, g) at eq) in
            let block =
              read_block-length py lawful fork_mark 1000 false none (is_merged py s)
                (at + length block_mark) t x i in
            subst (Left n at rest) (ok-injective h1)
              (omega arith, omega arith, λ m no. absurd (none_ne no))
        | inl g ↦ absurd (err_ok (rw (e, f, g) at eq))
      ]
    ]
  ]

  pub v2_loop-ErrorIn :
      (n fuel at : ℕ) (rest : Text) (s : V2 py)
      → length rest < fuel
      → at + length rest ≤ n
      → MergeIn n s
      → ErrorIn n (v2_loop py fuel at rest s)
  unfolding v2_loop
  v2_loop-ErrorIn n fuel at [] s f h k = returned _
  v2_loop-ErrorIn n zero at (c ∷ t) s f h k = absurd (omega arith)
  v2_loop-ErrorIn n (suc fuel) at (c ∷ t) s f h k =
      ErrorIn-bind n _ _ (v2_round-ErrorIn n at (c ∷ t) s h k) (λ r e.
        let left = v2_round-Left n at (c ∷ t) s r h k e in
        v2_loop-ErrorIn n fuel r.1 r.2 r.0 (omega arith) (omega arith) left.2)

  pub v2_loop-MergeIn :
      (n fuel at : ℕ) (rest : Text) (s r : V2 py)
      → at + length rest ≤ n
      → MergeIn n s
      → v2_loop py fuel at rest s ≡ ok r
      → MergeIn n r
  unfolding v2_loop
  v2_loop-MergeIn n fuel at [] s r h k eq = subst (MergeIn n) (ok-injective eq) k
  v2_loop-MergeIn n zero at (c ∷ t) s r h k eq = absurd (err_ok eq)
  v2_loop-MergeIn n (suc fuel) at (c ∷ t) s r h k eq =
      let (x, e, h1) = >>=-eq-ok (v2_round py at (c ∷ t) s) _ eq in
      let left = v2_round-Left n at (c ∷ t) s x h k e in
      v2_loop-MergeIn n fuel x.1 x.2 x.0 r (omega arith) left.2 h1

  pub v2_finish-ErrorIn : (n : ℕ) (s : V2 py) → MergeIn n s → ErrorIn n (v2_finish py s)
  v2_finish-ErrorIn n s h = elim (Option-cases s.merge_offset) [
    | inl e ↦ rw (e, v2_finish) (returned _)
    | inr (m, e) ↦ rw (e, v2_finish) (raised _ _ (h m e))
  ]

  pub parse_v2-ErrorIn :
      (n at : ℕ) (rest : Text) → at + length rest ≤ n → ErrorIn n (parse_v2 py at rest)
  unfolding parse_v2
  parse_v2-ErrorIn n at rest h =
      let gap = length-skip_space is_space rest in
      let (k, t) = skip_space is_space rest in
      let start : V2 py = record { pages = []; blocks = []; merge_offset = none } in
      let start_merge : MergeIn n start = λ m no. absurd (none_ne no) in
      ErrorIn-bind n _ _
        (v2_loop-ErrorIn n (suc (length t)) (at + k) t start (omega arith) (omega arith)
          start_merge)
        (λ s e.
          v2_finish-ErrorIn n s
            (v2_loop-MergeIn n (suc (length t)) (at + k) t start s (omega arith) start_merge e))
