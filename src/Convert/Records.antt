-- ===== src/Convert/Records.antt =====
-- The records in front of the tensor data of a `.uocr` file, and how `write_uocr_model` of
-- src/unlimitedocr_c/convert.py lays them and the payloads down. Hashes, and the records of config,
-- tokenizer and provenance, are given as bytes; each payload is what was written at an offset.
pub mod Views
pub mod Reads
pub mod Laws
pub mod Written
use unlimitedocr_c.Prelude.{
  ℕ, zero, suc, ◌+◌, ◌-◌, List, [], ◌∷◌, ◌++◌, map, codes, length, drop, replicate, ltb, ◌==◌,
  if◌then◌else◌, Result, ok, err, Error, value_error, key_error, ◌>>=◌, ◌>>◌, raise_if, or_raise,
  ◌||◌, Option, none, some,
}
use unlimitedocr_c.Prelude.Int.{ℤ, pos}
use unlimitedocr_c.Registry.Types.{family_id, projection_id}
use unlimitedocr_c.Convert.Types.{TensorPlan, SectionPlan, file_header_size, tensor_entry_size}
use unlimitedocr_c.Convert.Structs.{Code, u32, i32, u64, pack}
use unlimitedocr_c.Convert.Files.{File, empty, nth, write_at, truncate}

-- `_SECTION_ENTRY_STRUCT`
abbrev pub section_codes : List Code
section_codes = u32 ∷ u32 ∷ u64 ∷ u64 ∷ u64 ∷ []

-- `_TENSOR_DIRECTORY_HEADER_STRUCT`
abbrev pub directory_codes : List Code
directory_codes = u32 ∷ u32 ∷ u32 ∷ u32 ∷ []

-- `_TENSOR_ENTRY_STRUCT`
abbrev pub entry_codes : List Code
entry_codes =
    u32 ∷ u32 ∷ i32 ∷ i32 ∷ u32 ∷ u32 ∷ u32 ∷ u32 ∷ u32 ∷ u32 ∷ u32 ∷ u32 ∷ u32 ∷ u32 ∷ u32 ∷ u32
    ∷ u32 ∷ u64 ∷ u64 ∷ u32 ∷ u32 ∷ u64 ∷ u64 ∷ u64 ∷ u64 ∷ u32 ∷ u32 ∷ u32 ∷ u32 ∷ []

-- The numbers of `_FILE_HEADER_STRUCT`, behind its magic bytes.
abbrev pub header_codes : List Code
header_codes = u32 ∷ u32 ∷ u32 ∷ u32 ∷ u32 ∷ u32 ∷ u32 ∷ u64 ∷ u64 ∷ []

-- `b"UOCR"`
abbrev pub magic : List ℕ
magic = codes "UOCR"

-- `UOCR_TENSOR_DIR_MAGIC`
abbrev pub tensor_dir_magic : ℕ
tensor_dir_magic = 1380533332

abbrev pub endian_marker : ℕ
endian_marker = 16909060

abbrev pub section_values : SectionPlan → List ℤ
section_values s = pos s.section_type ∷ pos 0 ∷ pos s.offset ∷ pos s.size ∷ pos s.alignment ∷ []

unfoldable pub section_bytes : List SectionPlan → Result Error (List ℕ)
section_bytes [] = ok []
section_bytes (s ∷ sections) = pack section_codes (section_values s) >>= λ bytes.
    section_bytes sections >>= λ later. ok (bytes ++ later)

-- What the writer takes of a `DryRunPlan`, with `QPROFILE_IDS[plan.qprofile]` for its profile and the
-- version of its model variant.
pub record DryRunPlan : Type 0 where
  pub qprofile_id : ℕ
  pub format_version : ℕ
  pub tensors : List TensorPlan
  pub sections : List SectionPlan
  pub planned_file_size : ℕ

-- The first `n` of a shape, with a 0 for each that it lacks.
abbrev pub padded : ℕ → List ℕ → List ℤ
padded zero shape = []
padded (suc n) shape = pos (nth shape 0) ∷ padded n (drop 1 shape)

abbrev pub entry_values : TensorPlan → List ℤ
entry_values t =
    pos t.tensor_id
      ∷ pos (family_id t.family)
      ∷ t.layer
      ∷ t.expert
      ∷ pos (projection_id t.projection)
      ∷ pos t.usage_id
      ∷ pos t.qtype_id
      ∷ pos t.layout_flags
      ∷ pos (length t.logical_shape)
      ∷ padded 4 t.logical_shape
    ++ (padded 4 t.physical_shape
        ++ pos t.payload_offset
          ∷ pos t.output_bytes
          ∷ pos t.block_size
          ∷ pos t.row_size
          ∷ pos t.scale_offset
          ∷ pos t.scale_size
          ∷ pos 0
          ∷ pos 0
          ∷ pos t.qtype_reason_id
          ∷ pos t.promotion_reason_id
          ∷ pos 0
          ∷ pos 0
          ∷ [])

-- The entry of a tensor.
unfoldable pub tensor_entry : TensorPlan → Result Error (List ℕ)
unfolding pack
tensor_entry t =
    raise_if (ltb 4 (length t.logical_shape) || ltb 4 (length t.physical_shape)) value_error
    >> pack entry_codes (entry_values t)

unfoldable pub tensor_entries : List TensorPlan → Result Error (List ℕ)
unfolding tensor_entry
tensor_entries [] = ok []
tensor_entries (t ∷ tensors) =
    tensor_entry t >>= λ entry. tensor_entries tensors >>= λ later. ok (entry ++ later)

unfoldable pub tensor_directory_bytes : DryRunPlan → Result Error (List ℕ)
unfolding tensor_entries
tensor_directory_bytes plan =
    pack directory_codes
      (pos tensor_dir_magic ∷ pos 1 ∷ pos tensor_entry_size ∷ pos (length plan.tensors) ∷ [])
    >>= λ header. tensor_entries plan.tensors >>= λ entries. ok (header ++ entries)

abbrev pub header_values : DryRunPlan → List ℤ
header_values plan =
    pos plan.format_version
    ∷ pos file_header_size
    ∷ pos endian_marker
    ∷ pos 4096
    ∷ pos plan.qprofile_id
    ∷ pos (length plan.sections)
    ∷ pos 0
    ∷ pos plan.planned_file_size
    ∷ pos file_header_size
    ∷ []

-- `header`, with a hash of 32 bytes.
unfoldable pub header_bytes : DryRunPlan → List ℕ → Result Error (List ℕ)
unfolding pack
header_bytes plan index_hash = pack header_codes (header_values plan) >>= λ numbers.
    ok (magic ++ (numbers ++ (index_hash ++ replicate 32 0)))

-- `section_by_type[t].offset`, of a dictionary in which the last section of a type stands.
abbrev pub section_offset : ℕ → List SectionPlan → Option ℕ
section_offset t [] = none
section_offset t (s ∷ sections) = elim (section_offset t sections) [
  | some offset ↦ some offset
  | none ↦ if s.section_type == t then some s.offset else none
]

-- The payloads and scales, each written at its offset.
abbrev pub write_payloads : List (ℕ × List ℕ) → File → File
write_payloads [] f = f
write_payloads ((offset, bytes) ∷ payloads) f = write_payloads payloads (write_at offset bytes f)

-- The three records that are given as bytes.
pub record Given : Type 0 where
  pub index_hash : List ℕ
  pub config : List ℕ
  pub tokenizer : List ℕ
  pub provenance : List ℕ

unfoldable pub write_uocr_model : DryRunPlan → Given → List (ℕ × List ℕ) → Result Error File
unfolding header_bytes section_bytes tensor_directory_bytes
write_uocr_model plan given payloads =
    raise_if (length plan.tensors == 0) value_error
    >> (header_bytes plan given.index_hash >>= λ header. section_bytes plan.sections >>= λ sections.
        or_raise (section_offset 1 plan.sections) key_error >>= λ config_offset.
        or_raise (section_offset 3 plan.sections) key_error >>= λ tokenizer_offset.
        or_raise (section_offset 4 plan.sections) key_error >>= λ provenance_offset.
        or_raise (section_offset 2 plan.sections) key_error >>= λ directory_offset.
        tensor_directory_bytes plan >>= λ directory. ok (
          truncate plan.planned_file_size (
            write_payloads payloads (
              write_at directory_offset directory (
                write_at provenance_offset given.provenance (
                  write_at tokenizer_offset given.tokenizer (
                    write_at config_offset given.config
                      (write_at file_header_size sections (write_at 0 header empty)))))))))
