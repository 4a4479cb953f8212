-- ===== src/Parsing/Document/Detections.antt =====
-- `_parse_v1` of src/unlimitedocr_c/parsing.py.
use unlimitedocr_c.Prelude.{
  ℕ, zero, suc, ◌+◌, ◌≤◌, ◌<◌, ◌≡◌, true, false, List, [], ◌∷◌, ◌++◌, none, some, Text,
  strip_prefix, ok, >>=-eq-ok, err_ok, length, arith, Option-cases, inl, inr,
}
use unlimitedocr_c.Parsing.Types.{Python, IsPython, Block}
use unlimitedocr_c.Parsing.Scan.Lengths.{length-strip_prefix}
use unlimitedocr_c.Parsing.Errors.{ErrorIn, returned, raised, ErrorIn-bind}
use unlimitedocr_c.Parsing.Document.{
  read_reference, v1_round, v1_loop, parse_v1, ref_mark, det_mark, det_end,
}
use unlimitedocr_c.Parsing.Document.Blocks.{
  read_block-ErrorIn, read_block-length, read_reference-ErrorIn, read_reference-length,
}

module _ (py : Python) (lawful : IsPython py) where
  open py use {Coord, is_space}

  pub v1_round-ErrorIn :
      (n at : ℕ) (rest : Text) → at + length rest ≤ n → ErrorIn n (v1_round py at rest)
  unfolding v1_round
  v1_round-ErrorIn n at rest h = elim (Option-cases (strip_prefix ref_mark rest)) [
    | inr (t, e) ↦
        let mark = length-strip_prefix ref_mark rest t e in
        rw (e, v1_round)
          (ErrorIn-bind n _ _
            (read_reference-ErrorIn py lawful n (at + length ref_mark) t (omega arith))
            (λ r f.
              let left = read_reference-length py lawful (at + length ref_mark) t r f in
              read_block-ErrorIn py lawful n det_end 999 true (some r.0) false r.1 r.2
                (omega arith)))
    | inl e ↦ elim (Option-cases (strip_prefix det_mark rest)) [
      | inr (t, f) ↦
          let mark = length-strip_prefix det_mark rest t f in
          rw (e, f, v1_round)
            (read_block-ErrorIn py lawful n det_end 999 true none false (at + length det_mark) t
              (omega arith))
      | inl f ↦ rw (e, f, v1_round) (raised _ _ (omega arith))
    ]
  ]

  -- A round reads on: what is left is shorter, and its offset goes with it.
  pub v1_round-length :
      (at : ℕ) (rest : Text) (r : Block Coord × ℕ × Text)
      → v1_round py at rest ≡ ok r
      → (r.1 + length r.2 ≡ at + length rest) × (length r.2 < length rest)
  unfolding v1_round
  v1_round-length at rest r h = elim (Option-cases (strip_prefix ref_mark rest)) [
    | inr (t, e) ↦
        let mark = length-strip_prefix ref_mark rest t e in
        let (x, f, h1) = >>=-eq-ok (read_reference py (at + length ref_mark) t) _ (rw e at h) in
        let left = read_reference-length py lawful (at + length ref_mark) t x f in
        let block = read_block-length py lawful det_end 999 true (some x.0) false x.1 x.2 r h1 in
        (omega arith, omega arith)
    | inl e ↦ elim (Option-cases (strip_prefix det_mark rest)) [
      | inr (t, f) ↦
          let mark = length-strip_prefix det_mark rest t f in
          let block =
            read_block-length py lawful det_end 999 true none false (at + length det_mark) t r
              (rw (e, f) at h) in
          (omega arith, omega arith)
      | inl f ↦ absurd (err_ok (rw (e, f) at h))
    ]
  ]

  pub v1_loop-ErrorIn :
      (n fuel at : ℕ) (rest : Text) (blocks : List (Block Coord))
      → length rest < fuel
      → at + length rest ≤ n
      → ErrorIn n (v1_loop py fuel at rest blocks)
  unfolding v1_loop
  v1_loop-ErrorIn n fuel at [] blocks f h = returned _
  v1_loop-ErrorIn n zero at (c ∷ s) blocks f h = absurd (omega arith)
  v1_loop-ErrorIn n (suc fuel) at (c ∷ s) blocks f h =
      ErrorIn-bind n _ _ (v1_round-ErrorIn n at (c ∷ s) h) (λ r e.
        let left = v1_round-length at (c ∷ s) r e in
        v1_loop-ErrorIn n fuel r.1 r.2 (blocks ++ r.0 ∷ []) (omega arith) (omega arith))

  pub parse_v1-ErrorIn :
      (n at : ℕ) (rest : Text) → at + length rest ≤ n → ErrorIn n (parse_v1 py at rest)
  unfolding parse_v1
  parse_v1-ErrorIn n at rest h =
      ErrorIn-bind n _ _ (v1_loop-ErrorIn n (suc (length rest)) at rest [] (omega arith) h)
        (λ blocks _. returned _)
