-- ===== src/Parsing/Document.antt =====
-- `_parse_v1`, `_parse_v2` and `parse_ocr` of src/unlimitedocr_c/parsing.py. The loops take fuel, one
-- unit for each round, and start with one more than the length of the text.
pub mod Blocks
pub mod Detections
pub mod Pages
pub mod Laws
use unlimitedocr_c.Prelude.{
  ℕ, zero, suc, ◌+◌, Bool, true, false, List, [], ◌∷◌, ◌++◌, Option, none, some, Text, codes,
  strip_prefix, if◌then◌else◌, Result, ok, err, ◌>>=◌, length,
}
use unlimitedocr_c.Parsing.Types
use unlimitedocr_c.Parsing.Types.{
  Python, BBox, Block, Page, Document, Reason, ParseError, parse_error, no_fuel, missing,
  unsupported_child, unexpected_control, invalid_reference, requires_detection, merge_crosses_page,
  merge_needs_preceding, merge_needs_following, empty_output, expected_markup,
}
use unlimitedocr_c.Parsing.Scan.{skip_space, find_marker, split_content, strip, is_kind}
use unlimitedocr_c.Parsing.Metadata.{fail, metadata}

abbrev pub page_mark : Text
page_mark = codes "<PAGE>"

abbrev pub merge_mark : Text
merge_mark = codes "<MERGE>"

abbrev pub block_mark : Text
block_mark = codes "<BLOCK>"

abbrev pub fork_mark : Text
fork_mark = codes "<FORK>"

abbrev pub ref_mark : Text
ref_mark = codes "<|ref|>"

abbrev pub ref_end : Text
ref_end = codes "<|/ref|>"

abbrev pub det_mark : Text
det_mark = codes "<|det|>"

abbrev pub det_end : Text
det_end = codes "<|/det|>"

-- `_closing`: the text up to the marker, and behind it.
unfoldable pub closing : ℕ → Text → Text → Result ParseError (Text × Text)
closing start marker rest = elim (find_marker marker rest) [
  | none ↦ fail (missing marker) start
  | some found ↦ ok found
]

-- `_unexpected`
unfoldable pub unexpected : ℕ → Text → Reason
unexpected at rest = elim (strip_prefix (codes "<CHILD>") rest) [
  | none ↦ unexpected_control
  | some _ ↦ unsupported_child
]

module _ (py : Python) where
  open py use {Coord, is_space}

  abbrev pub block_of : Text × Option (BBox Coord) × Option ℕ → Text → Bool → Block Coord
  block_of (kind, bbox, level) content merged = record {
    kind = kind;
    bbox = bbox;
    content = content;
    heading_level = level;
    merge_previous = merged;
  }

  -- A block's header from `start` on, up to `stop`, and its content: the block, the offset behind it
  -- and the text there. `kind` is the label of a reference.
  unfoldable pub read_block :
      Text → ℕ → Bool → Option Text → Bool → ℕ → Text → Result ParseError (Block Coord × ℕ × Text)
  unfolding closing
  read_block stop scale require_bbox kind merged start rest = closing start stop rest >>= λ found.
      metadata py found.0 start scale require_bbox kind >>= λ header. ok (
        block_of header (split_content is_space found.1).0 merged,
        start + length found.0 + length stop + length (split_content is_space found.1).0,
        (split_content is_space found.1).1,
      )

  -- The reference label in front of a v1 block: the label, and where the detection header starts.
  unfoldable pub read_reference : ℕ → Text → Result ParseError (Text × ℕ × Text)
  unfolding closing
  read_reference label_start rest = closing label_start ref_end rest >>= λ found.
      elim (is_kind (strip is_space found.0)) [
        | false ↦ fail invalid_reference label_start
        | true ↦
            let (n, s) = skip_space is_space found.1 in
            let at = label_start + length found.0 + length ref_end + n in
            elim (strip_prefix det_mark s) [
              | none ↦ fail requires_detection at
              | some t ↦ ok (strip is_space found.0, at + length det_mark, t)
            ]
      ]

  -- One round of `_parse_v1`.
  unfoldable pub v1_round : ℕ → Text → Result ParseError (Block Coord × ℕ × Text)
  unfolding read_block read_reference unexpected
  v1_round at rest = elim (strip_prefix ref_mark rest) [
    | some t ↦ read_reference (at + length ref_mark) t >>= λ (label, start, s).
        read_block det_end 999 true (some label) false start s
    | none ↦ elim (strip_prefix det_mark rest) [
      | some t ↦ read_block det_end 999 true none false (at + length det_mark) t
      | none ↦ fail (unexpected at rest) at
    ]
  ]

  unfoldable pub v1_loop :
      ℕ → ℕ → Text → List (Block Coord) → Result ParseError (List (Block Coord))
  v1_loop fuel at [] blocks = ok blocks
  v1_loop zero at (c ∷ s) blocks = err no_fuel
  v1_loop (suc fuel) at (c ∷ s) blocks =
      v1_round at (c ∷ s) >>= λ (block, at', s'). v1_loop fuel at' s' (blocks ++ block ∷ [])

  unfoldable pub parse_v1 : ℕ → Text → Result ParseError (Document Coord)
  parse_v1 at rest = v1_loop (suc (length rest)) at rest [] >>= λ blocks.
      ok (record { pages = record { blocks = blocks } ∷ [] })

  -- The variables of `_parse_v2`.
  pub record V2 : Type 0 where
    pub pages : List (Page Coord)
    pub blocks : List (Block Coord)
    pub merge_offset : Option ℕ

  abbrev pub v2_end_page : V2 → V2
  v2_end_page s = record {
    pages = s.pages ++ record { blocks = s.blocks } ∷ [];
    blocks = [];
    merge_offset = s.merge_offset;
  }

  -- At a `<PAGE>`.
  abbrev pub v2_page : V2 → Result ParseError V2
  v2_page s = elim s.merge_offset [ some m ↦ fail merge_crosses_page m | none ↦ ok (v2_end_page s) ]

  abbrev pub no_blocks : List (Block Coord) → Bool
  no_blocks [] = true
  no_blocks (b ∷ bs) = false

  -- At a `<MERGE>`.
  abbrev pub v2_merge : ℕ → V2 → Result ParseError V2
  v2_merge at s = elim s.merge_offset [
    | some m ↦ fail merge_needs_preceding at
    | none ↦
        if no_blocks s.blocks
        then fail merge_needs_preceding at
        else ok (record s { merge_offset = some at })
  ]

  abbrev pub is_merged : V2 → Bool
  is_merged s = elim s.merge_offset [ none ↦ false | some _ ↦ true ]

  abbrev pub v2_add : Block Coord → V2 → V2
  v2_add b s = record s { blocks = s.blocks ++ b ∷ []; merge_offset = none }

  -- One round of `_parse_v2`: the new variables, the offset and the text that is left.
  unfoldable pub v2_round : ℕ → Text → V2 → Result ParseError (V2 × ℕ × Text)
  unfolding read_block unexpected
  v2_round at rest s = elim (strip_prefix page_mark rest) [
    | some t ↦
        let (n, t') = skip_space is_space t in
        v2_page s >>= λ s'. ok (s', at + length page_mark + n, t')
    | none ↦ elim (strip_prefix merge_mark rest) [
      | some t ↦
          let (n, t') = skip_space is_space t in
          v2_merge at s >>= λ s'. ok (s', at + length merge_mark + n, t')
      | none ↦ elim (strip_prefix block_mark rest) [
        | some t ↦
            read_block fork_mark 1000 false none (is_merged s) (at + length block_mark) t
            >>= λ (block, at', t'). ok (v2_add block s, at', t')
        | none ↦ fail (unexpected at rest) at
      ]
    ]
  ]

  unfoldable pub v2_loop : ℕ → ℕ → Text → V2 → Result ParseError V2
  v2_loop fuel at [] s = ok s
  v2_loop zero at (c ∷ t) s = err no_fuel
  v2_loop (suc fuel) at (c ∷ t) s =
      v2_round at (c ∷ t) s >>= λ (s', at', t'). v2_loop fuel at' t' s'

  -- Behind the loop.
  abbrev pub v2_finish : V2 → Result ParseError (Document Coord)
  v2_finish s = elim s.merge_offset [
    | some m ↦ fail merge_needs_following m
    | none ↦ ok (record { pages = (v2_end_page s).pages })
  ]

  -- `_parse_v2`, from behind the first `<PAGE>`.
  unfoldable pub parse_v2 : ℕ → Text → Result ParseError (Document Coord)
  parse_v2 at rest =
      let (n, t) = skip_space is_space rest in
      v2_loop (suc (length t)) (at + n) t (record { pages = []; blocks = []; merge_offset = none })
      >>= v2_finish

  -- `parse_ocr` of a string.
  unfoldable pub parse_ocr : Text → Result ParseError (Document Coord)
  unfolding parse_v1 parse_v2
  parse_ocr text =
      let (n, rest) = skip_space is_space text in
      elim rest [
        | [] ↦ fail empty_output n
        | c ∷ s ↦ elim (strip_prefix page_mark (c ∷ s)) [
          | some t ↦ parse_v2 (n + length page_mark) t
          | none ↦ elim (strip_prefix det_mark (c ∷ s)) [
            | some _ ↦ parse_v1 n (c ∷ s)
            | none ↦ elim (strip_prefix ref_mark (c ∷ s)) [
              | some _ ↦ parse_v1 n (c ∷ s)
              | none ↦ fail expected_markup n
            ]
          ]
        ]
      ]
