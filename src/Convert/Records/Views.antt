-- ===== src/Convert/Records/Views.antt =====
-- `_read_uocr_tensor_payload_view` and `_metadata_mismatches_for_compare` of
-- src/unlimitedocr_c/convert.py: the entry of a tensor as a written file has it, against its plan.
use unlimitedocr_c.Prelude.{
  ℕ, zero, suc, ◌+◌, ◌*◌, Bool, true, false, not, ◌||◌, List, [], ◌∷◌, ◌++◌, take, drop, Option,
  none, some, String, text_eq, length, ltb, ◌==◌, if◌then◌else◌, Result, ok, err, Error,
  value_error, ◌>>=◌, ◌>>◌, raise_if, or_raise,
}
use unlimitedocr_c.Prelude.Int.{ℤ, pos, negsuc}
use unlimitedocr_c.Convert.Types.{
  TensorPlan, file_header_size, section_entry_size, tensor_directory_header_size, tensor_entry_size,
}
use unlimitedocr_c.Convert.Structs.{unpack}
use unlimitedocr_c.Convert.Files.{File, read_at}
use unlimitedocr_c.Convert.Records.{
  section_codes, directory_codes, entry_codes, header_codes, magic, tensor_dir_magic, endian_marker,
  DryRunPlan,
}

-- A field of an unsigned code, which is never negative.
abbrev pub field : List ℤ → ℕ → ℕ
field [] i = 0
field (pos n ∷ values) zero = n
field (negsuc n ∷ values) zero = 0
field (v ∷ values) (suc i) = field values i

-- `n` fields from the `i`-th on.
abbrev pub fields : List ℤ → ℕ → ℕ → List ℕ
fields values i zero = []
fields values i (suc n) = field values i ∷ fields values (suc i) n

-- `_UocrTensorPayloadView`
pub record View : Type 0 where
  pub qprofile_id : ℕ
  pub tensor_id : ℕ
  pub qtype_id : ℕ
  pub flags : ℕ
  pub rank : ℕ
  pub logical_shape : List ℕ
  pub physical_shape : List ℕ
  pub payload_offset : ℕ
  pub payload_size : ℕ
  pub block_size : ℕ
  pub row_size : ℕ
  pub scale_offset : ℕ
  pub scale_size : ℕ
  pub qtype_reason_id : ℕ
  pub promotion_reason_id : ℕ

-- `f.seek(offset)` and `f.read(n)`, where all `n` bytes are there.
unfoldable pub read_exactly : File → ℕ → ℕ → Result Error (List ℕ)
unfolding read_at
read_exactly f offset n =
    raise_if (not (length (read_at f offset n) == n)) value_error >> ok (read_at f offset n)

-- The directory found so far, behind a section.
abbrev pub next_found : List ℤ → Option (ℕ × ℕ) → Option (ℕ × ℕ)
next_found section found =
    if field section 0 == 2 then some (field section 2, field section 3) else found

-- The loop over the section directory, with the offset and size found so far.
unfoldable pub find_directory : File → ℕ → ℕ → Option (ℕ × ℕ) → Result Error (Option (ℕ × ℕ))
unfolding read_exactly unpack
find_directory f zero offset found = ok found
find_directory f (suc n) offset found = read_exactly f offset section_entry_size >>= λ bytes.
    find_directory f n (offset + section_entry_size) (next_found (unpack section_codes bytes) found)

-- The view of an entry.
abbrev pub view_of : ℕ → List ℤ → View
view_of qprofile_id entry = record {
  qprofile_id = qprofile_id;
  tensor_id = field entry 0;
  qtype_id = field entry 6;
  flags = field entry 7;
  rank = field entry 8;
  logical_shape = fields entry 9 (field entry 8);
  physical_shape = fields entry 13 (field entry 8);
  payload_offset = field entry 17;
  payload_size = field entry 18;
  block_size = field entry 19;
  row_size = field entry 20;
  scale_offset = field entry 21;
  scale_size = field entry 22;
  qtype_reason_id = field entry 25;
  promotion_reason_id = field entry 26;
}

-- The body of the loop over the entries, with what the rest of the loop gives.
abbrev pub at_entry : ℕ → ℕ → List ℤ → Result Error View → Result Error View
at_entry qprofile_id tensor_id entry later =
    if field entry 0 == tensor_id
    then (if ltb 4 (field entry 8) then err value_error else ok (view_of qprofile_id entry))
    else later

unfoldable pub find_tensor : File → ℕ → ℕ → ℕ → ℕ → Result Error View
unfolding read_exactly unpack
find_tensor f qprofile_id tensor_id zero offset = err value_error
find_tensor f qprofile_id tensor_id (suc n) offset =
    read_exactly f offset tensor_entry_size >>= λ bytes.
    at_entry qprofile_id tensor_id (unpack entry_codes bytes)
      (find_tensor f qprofile_id tensor_id n (offset + tensor_entry_size))

-- The checks of the header, of its magic bytes and numbers, and of the tensor directory's.
abbrev pub check_header : File → List ℕ → List ℤ → Result Error (Unit {0})
check_header f first header = do
  raise_if (not (text_eq first magic)) value_error
  raise_if (not (field header 0 == 1 || field header 0 == 2)) value_error
  raise_if (not (field header 1 == file_header_size)) value_error
  raise_if (not (field header 2 == endian_marker)) value_error
  raise_if (not (field header 7 == f.size)) value_error

abbrev pub check_directory : ℕ → List ℤ → Result Error (Unit {0})
check_directory size header = do
  raise_if (not (field header 0 == tensor_dir_magic)) value_error
  raise_if (not (field header 1 == 1)) value_error
  raise_if (not (field header 2 == tensor_entry_size)) value_error
  raise_if (not (size == tensor_directory_header_size + field header 3 * tensor_entry_size))
      value_error

-- The entries, with the numbers of the directory's header.
abbrev pub in_directory : File → ℕ → ℕ → ℕ × ℕ → List ℤ → Result Error View
in_directory f qprofile_id tensor_id directory counts =
    check_directory directory.1 counts
    >> find_tensor f qprofile_id tensor_id (field counts 3)
        (directory.0 + tensor_directory_header_size)

-- The directory, where one is found.
abbrev pub at_directory : File → ℕ → ℕ → Option (ℕ × ℕ) → Result Error View
at_directory f qprofile_id tensor_id found = or_raise found value_error >>= λ directory.
    read_exactly f directory.0 tensor_directory_header_size >>= λ bytes.
    in_directory f qprofile_id tensor_id directory (unpack directory_codes bytes)

-- What follows the header, of its magic bytes and numbers.
abbrev pub behind_header : File → ℕ → List ℕ → List ℤ → Result Error View
behind_header f tensor_id first header =
    check_header f first header
    >> (find_directory f (field header 5) (field header 8) none >>= λ found.
        at_directory f (field header 4) tensor_id found)

unfoldable pub read_uocr_tensor_payload_view : File → ℕ → Result Error View
unfolding find_directory find_tensor
read_uocr_tensor_payload_view f tensor_id = read_exactly f 0 file_header_size >>= λ bytes.
    behind_header f tensor_id (take 4 bytes) (unpack header_codes (drop 4 bytes))

-- The message of a field, where it differs.
abbrev differs : Bool → String → List String
differs true name = []
differs false name = name ∷ []

-- `bool(n)`
abbrev pub nonzero : ℕ → Bool
nonzero n = not (n == 0)

abbrev pub same_bool : Bool → Bool → Bool
same_bool true b = b
same_bool false b = not b

-- The names of the fields that differ; the messages give the two values as well.
unfoldable pub metadata_mismatches_for_compare : DryRunPlan → TensorPlan → View → List String
metadata_mismatches_for_compare plan t v =
    differs (v.qprofile_id == plan.qprofile_id) "qprofile_id"
    ++ (differs (v.qtype_id == t.qtype_id) "qtype_id"
        ++ (differs (v.flags == t.layout_flags) "flags"
            ++ (differs (v.rank == length t.logical_shape) "rank"
                ++ (differs (text_eq v.logical_shape t.logical_shape) "logical_shape"
                    ++ (differs (text_eq v.physical_shape t.physical_shape) "physical_shape"
                        ++ (differs (v.payload_size == t.output_bytes) "payload_size"
                            ++ (differs (v.block_size == t.block_size) "block_size"
                                ++ (differs (v.row_size == t.row_size) "row_size"
                                    ++ (differs
                                          (same_bool (nonzero v.scale_offset)
                                            (nonzero t.scale_size))
                                          "scale_offset"
                                        ++ (differs (v.scale_size == t.scale_size) "scale_size"
                                            ++ (differs (v.qtype_reason_id == t.qtype_reason_id)
                                                  "qtype_reason_id"
                                                ++ differs
                                                    (v.promotion_reason_id == t.promotion_reason_id)
                                                    "promotion_reason_id")))))))))))
