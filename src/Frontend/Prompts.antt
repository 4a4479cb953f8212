-- ===== src/Frontend/Prompts.antt =====
-- `format_messages_plain`, `render_prompt`, `str.split` and `str.count` as
-- src/unlimitedocr_c/frontend.py uses them.
use unlimitedocr_c.Prelude.{
  ℕ, zero, suc, ◌-◌, Bool, List, [], ◌∷◌, ◌++◌, none, some, Text, strip_prefix, length,
}
use unlimitedocr_c.Parsing.Scan.{strip}

-- `"".join(parts)`, of the contents that are not empty when stripped.
abbrev pub join_contents : (ℕ → Bool) → List Text → Text
join_contents is_space [] = []
join_contents is_space (c ∷ cs) = strip is_space c ++ join_contents is_space cs

-- `format_messages_plain`, of the messages' contents; an empty part adds nothing.
unfoldable pub format_messages_plain : (ℕ → Bool) → List Text → Text
format_messages_plain is_space contents = strip is_space (join_contents is_space contents)

unfoldable pub render_prompt : (ℕ → Bool) → Text → Text
render_prompt is_space prompt = format_messages_plain is_space (prompt ∷ [] ∷ [])

-- `text.split(marker)`: the first piece and the others. `k` characters of a marker that was found
-- are still to be passed over.
unfoldable pub split_marker : ℕ → Text → Text → Text × List Text
split_marker k marker [] = ([], [])
split_marker (suc k) marker (c ∷ s) = split_marker k marker s
split_marker zero marker (c ∷ s) = elim (strip_prefix marker (c ∷ s)) [
  | some _ ↦ (
    [],
    (split_marker (length marker - 1) marker s).0 ∷ (split_marker (length marker - 1) marker s).1,
  )
  | none ↦ (c ∷ (split_marker zero marker s).0, (split_marker zero marker s).1)
]

-- `text.count(marker)`
abbrev pub count : Text → Text → ℕ
count marker text = length (split_marker 0 marker text).1
