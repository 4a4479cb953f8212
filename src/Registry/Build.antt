-- ===== src/Registry/Build.antt =====
-- `build_tensor_registry` and `validate_registry_shapes` of src/unlimitedocr_c/tensor_registry.py.
-- The dictionaries are association lists in insertion order.
pub mod Laws
use unlimitedocr_c.Prelude.{
  ℕ, suc, ◌+◌, Bool, true, false, not, ◌&&◌, Option, none, some, List, [], ◌∷◌, Text, codes,
  strip_prefix, text_eq, leb, ltb, ◌==◌, if◌then◌else◌, Result, ok, err, Error, value_error, ◌>>=◌,
  ◌>>◌, raise_if,
}
use unlimitedocr_c.Registry.Types.{
  TensorFamily, TensorRegistryEntry, vision_sam, vision_clip, vision_sam_base, vision_clip_base,
}
use unlimitedocr_c.Registry.Names.{clip_position_ids_name}
use unlimitedocr_c.Registry.Entries.{entry_without_vision, vision_entry}

abbrev pub Registry : Type 0
Registry = List (Text × TensorRegistryEntry)

-- Python orders strings by their code points.
abbrev pub text_le : Text → Text → Bool
text_le [] t = true
text_le (x ∷ s) [] = false
text_le (x ∷ s) (y ∷ t) = elim (x == y) [ true ↦ text_le s t | false ↦ ltb x y ]

pub insert_sorted : Text → List Text → List Text
insert_sorted x [] = x ∷ []
insert_sorted x (y ∷ ys) = if text_le x y then x ∷ y ∷ ys else y ∷ insert_sorted x ys

-- `sorted(name for name in names if …)`
pub sorted_names : (Text → Bool) → List Text → List Text
unfolding insert_sorted
sorted_names keep [] = []
sorted_names keep (x ∷ xs) =
    let rest = sorted_names keep xs in if keep x then insert_sorted x rest else rest

abbrev pub has_prefix : Text → Text → Bool
has_prefix p s = elim (strip_prefix p s) [ none ↦ false | some _ ↦ true ]

abbrev pub is_sam : Text → Bool
is_sam = has_prefix (codes "model.sam_model.")

abbrev pub is_clip : Text → Bool
is_clip name =
    has_prefix (codes "model.vision_model.") name && not (text_eq name clip_position_ids_name)

-- `{name: base + i for i, name in enumerate(names)}.get(key)`, counting from `i`: the last wins.
pub vision_id : ℕ → ℕ → List Text → Text → Option ℕ
vision_id base i [] key = none
vision_id base i (n ∷ ns) key = elim (vision_id base (i + 1) ns key) [
  | some j ↦ some j
  | none ↦ if text_eq key n then some (base + i) else none
]

abbrev pub used_name : ℕ → List (ℕ × Text) → Option Text
used_name i [] = none
used_name i ((j, n) ∷ d) = if i == j then some n else used_name i d

-- `registry[name] = entry`
abbrev pub insert_entry : Text → TensorRegistryEntry → Registry → Registry
insert_entry n e [] = (n, e) ∷ []
insert_entry n e ((m, d) ∷ r) = if text_eq n m then (n, e) ∷ r else (m, d) ∷ insert_entry n e r

module _ (digit_value : ℕ → Option ℕ) where
  -- The entry of `name`: the general expressions first, then the two vision towers.
  unfoldable pub resolve : List Text → List Text → Text → Result Error TensorRegistryEntry
  unfolding vision_id
  resolve sam_names clip_names name = entry_without_vision digit_value name >>= λ found.
      elim found [
        | some e ↦ ok e
        | none ↦ elim (vision_id vision_sam_base 0 sam_names name) [
          | some i ↦ ok (vision_entry digit_value name i vision_sam)
          | none ↦ elim (vision_id vision_clip_base 0 clip_names name) [
            | some i ↦ ok (vision_entry digit_value name i vision_clip)
            | none ↦ err value_error
          ]
        ]
      ]

  module _ (sam_names clip_names : List Text) where
    -- The loop over the names, with `used_ids` and `registry`.
    unfoldable pub build_onto : List Text → List (ℕ × Text) → Registry → Result Error Registry
    build_onto [] used registry = ok registry
    build_onto (name ∷ names) used registry = resolve sam_names clip_names name >>= λ entry.
        elim (leb 1 entry.tensor_id && ltb entry.tensor_id 1000000) [
          | false ↦ err value_error
          | true ↦ elim (used_name entry.tensor_id used) [
            | some _ ↦ err value_error
            | none ↦
                build_onto names ((entry.tensor_id, name) ∷ used) (insert_entry name entry registry)
          ]
        ]

  unfoldable pub build_tensor_registry : List Text → Result Error Registry
  unfolding sorted_names build_onto
  build_tensor_registry names =
      build_onto (sorted_names is_sam names) (sorted_names is_clip names) names [] []

abbrev same_shape : List ℕ → List ℕ → Bool
same_shape [] [] = true
same_shape (x ∷ xs) (y ∷ ys) = x == y && same_shape xs ys
same_shape _ _ = false

-- `actual != entry.expected_shape`, where a missing name's `None` differs from every shape.
abbrev pub shape_matches : Option (List ℕ) → List ℕ → Bool
shape_matches none expected = false
shape_matches (some actual) expected = same_shape actual expected

-- `shapes.get`
unfoldable pub validate_registry_shapes :
    Registry → (Text → Option (List ℕ)) → Result Error (Unit {0})
validate_registry_shapes [] shapes = ok tt
validate_registry_shapes ((name, entry) ∷ r) shapes =
    let rest = validate_registry_shapes r shapes in
    elim entry.expected_shape [
      | none ↦ rest
      | some expected ↦ if shape_matches (shapes name) expected then rest else err value_error
    ]
