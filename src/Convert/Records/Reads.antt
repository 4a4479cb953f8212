-- ===== src/Convert/Records/Reads.antt =====
-- Reading the directories of src/unlimitedocr_c/convert.py where they stand in a file.
use mathlib.Core.Path.{subst}
use unlimitedocr_c.Prelude.{
  ℕ, suc, ◌+◌, ◌≤◌, ◌≡◌, ◌≢◌, inl, inr, true, false, refl, sym, ap, ◌∙◌, ◌||◌, List, [], ◌∷◌, ◌++◌,
  All, Option, some, length, drop, append-nil, ltb, ◌==◌, if◌then◌else◌, ok, value_error, ◌>>=◌,
  >>=-eq-ok, ok-injective, raise_if, raise_if-ok, Bool-cases, arith,
}
use unlimitedocr_c.Prelude.Int.{ℤ}
use unlimitedocr_c.Convert.Types.{TensorPlan, SectionPlan, section_entry_size, tensor_entry_size}
use unlimitedocr_c.Convert.Structs.{pack, unpack}
use unlimitedocr_c.Convert.Structs.Laws.{unpack-pack}
use unlimitedocr_c.Convert.Files.{File, read_at, nth, Holds, Holds-append, Holds-read_at}
use unlimitedocr_c.Convert.Records.{
  section_codes, section_values, section_bytes, entry_codes, entry_values, tensor_entry,
  tensor_entries,
}
use unlimitedocr_c.Convert.Records.Views.{
  field, fields, View, read_exactly, next_found, find_directory, view_of, at_entry, find_tensor,
}

pub read_exactly-Holds :
    (f : File) (offset n : ℕ) (bytes : List ℕ)
    → Holds f offset bytes
    → length bytes ≡ n
    → read_exactly f offset n ≡ ok bytes
unfolding read_exactly
read_exactly-Holds f offset n bytes h e =
    let there : read_at f offset n ≡ bytes =
      subst (λ n. read_at f offset n ≡ bytes) e (Holds-read_at f offset bytes h) in
    let counted : (length bytes == n) ≡ true = ground arith in rw (there, counted)

-- The offset and size of the last section of type 2, or those found before.
abbrev pub last_directory : List SectionPlan → Option (ℕ × ℕ) → Option (ℕ × ℕ)
last_directory [] found = found
last_directory (s ∷ sections) found =
    last_directory sections (if s.section_type == 2 then some (s.offset, s.size) else found)

pub find_directory-last_directory :
    (f : File) (sections : List SectionPlan) (bytes : List ℕ) (offset : ℕ) (found : Option (ℕ × ℕ))
    → section_bytes sections ≡ ok bytes
    → Holds f offset bytes
    → find_directory f (length sections) offset found ≡ ok (last_directory sections found)
unfolding section_bytes find_directory
find_directory-last_directory f [] bytes offset found h k = refl
find_directory-last_directory f (s ∷ sections) bytes offset found h k =
    let (first, g, h1) = >>=-eq-ok (pack section_codes (section_values s)) _ h in
    let (later, g', h2) = >>=-eq-ok (section_bytes sections) _ h1 in
    let (size, back) = unpack-pack section_codes (section_values s) first [] g in
    let (here, there) =
      Holds-append f offset first later (subst (Holds f offset) (sym (ok-injective h2)) k) in
    let whole : unpack section_codes first ≡ section_values s =
      ap (unpack section_codes) (sym (append-nil first)) ∙ back in
    let rest = length sections in
    ap
      (λ m. m >>= λ bytes.
        find_directory f rest (offset + section_entry_size)
          (next_found (unpack section_codes bytes) found))
      (read_exactly-Holds f offset section_entry_size first here size)
    ∙ (ap (λ v. find_directory f rest (offset + section_entry_size) (next_found v found)) whole
        ∙ find_directory-last_directory f sections later (offset + section_entry_size) _ g'
            (subst (λ n. Holds f (offset + n) later) size there))

-- A shape of at most four fields, read back.
pub fields-shape :
    (values : List ℤ) (i : ℕ) (shape : List ℕ)
    → length shape ≤ 4
    → field values i ≡ nth shape 0
    → field values (suc i) ≡ nth shape 1
    → field values (suc (suc i)) ≡ nth shape 2
    → field values (suc (suc (suc i))) ≡ nth shape 3
    → fields values i (length shape) ≡ shape
fields-shape values i [] h a b c d = refl
fields-shape values i (p ∷ []) h a b c d = rw a
fields-shape values i (p ∷ q ∷ []) h a b c d = rw (a, b)
fields-shape values i (p ∷ q ∷ r ∷ []) h a b c d = rw (a, b, c)
fields-shape values i (p ∷ q ∷ r ∷ s ∷ []) h a b c d = rw (a, b, c, d)
fields-shape values i (p ∷ q ∷ r ∷ s ∷ t ∷ shape) h a b c d = absurd (omega arith)

-- What the view of a tensor should be.
abbrev pub planned_view : ℕ → TensorPlan → View
planned_view qprofile_id t = record {
  qprofile_id = qprofile_id;
  tensor_id = t.tensor_id;
  qtype_id = t.qtype_id;
  flags = t.layout_flags;
  rank = length t.logical_shape;
  logical_shape = t.logical_shape;
  physical_shape = t.physical_shape;
  payload_offset = t.payload_offset;
  payload_size = t.output_bytes;
  block_size = t.block_size;
  row_size = t.row_size;
  scale_offset = t.scale_offset;
  scale_size = t.scale_size;
  qtype_reason_id = t.qtype_reason_id;
  promotion_reason_id = t.promotion_reason_id;
}

behind : (s : List ℕ) (i : ℕ) → nth (drop 1 s) i ≡ nth s (suc i)
behind [] i = refl
behind (x ∷ s) i = refl

behind_two : (s : List ℕ) (i : ℕ) → nth (drop 1 (drop 1 s)) i ≡ nth s (suc (suc i))
behind_two s i = behind (drop 1 s) i ∙ behind s (suc i)

behind_three : (s : List ℕ) → nth (drop 1 (drop 1 (drop 1 s))) 0 ≡ nth s 3
behind_three s = behind_two (drop 1 s) 0 ∙ behind s 2

view_of-planned_view :
    (q : ℕ) (t : TensorPlan)
    → length t.logical_shape ≤ 4
    → length t.physical_shape ≡ length t.logical_shape
    → view_of q (entry_values t) ≡ planned_view q t
view_of-planned_view q t h e =
    let logical : fields (entry_values t) 9 (length t.logical_shape) ≡ t.logical_shape =
      fields-shape (entry_values t) 9 t.logical_shape h refl (behind t.logical_shape 0)
        (behind_two t.logical_shape 0) (behind_three t.logical_shape) in
    let few : length t.physical_shape ≤ 4 = omega arith in
    let physical : fields (entry_values t) 13 (length t.logical_shape) ≡ t.physical_shape =
      subst (λ n. fields (entry_values t) 13 n ≡ t.physical_shape) e
        (fields-shape (entry_values t) 13 t.physical_shape few refl (behind t.physical_shape 0)
          (behind_two t.physical_shape 0) (behind_three t.physical_shape)) in
    rw (logical, physical)

-- An entry that is written is 140 bytes long, and gives the values back.
pub tensor_entry-ok :
    (t : TensorPlan) (entry rest : List ℕ)
    → tensor_entry t ≡ ok entry
    → (length t.logical_shape ≤ 4)
      × (length entry ≡ tensor_entry_size)
      × (unpack entry_codes (entry ++ rest) ≡ entry_values t)
unfolding tensor_entry
tensor_entry-ok t entry rest h =
    let (_, ranks, packed) =
      >>=-eq-ok
        (raise_if (ltb 4 (length t.logical_shape) || ltb 4 (length t.physical_shape)) value_error) _
        h in
    let few =
      raise_if-ok (ltb 4 (length t.logical_shape) || ltb 4 (length t.physical_shape)) _ ranks in
    let (size, back) = unpack-pack entry_codes (entry_values t) entry rest packed in
    (ground arith, size, back)

-- The entries are scanned up to the one of the id.
pub find_tensor-planned_view :
    (f : File) (q : ℕ) (front : List TensorPlan) (t : TensorPlan) (back : List TensorPlan)
    (bytes : List ℕ) (offset : ℕ)
    → tensor_entries (front ++ t ∷ back) ≡ ok bytes
    → Holds f offset bytes
    → All (λ (u : TensorPlan). u.tensor_id ≢ t.tensor_id) front
    → length t.physical_shape ≡ length t.logical_shape
    → find_tensor f q t.tensor_id (length (front ++ t ∷ back)) offset ≡ ok (planned_view q t)
unfolding tensor_entries find_tensor
find_tensor-planned_view f q [] t back bytes offset h k fresh shapes =
    let (entry, g, h1) = >>=-eq-ok (tensor_entry t) _ h in
    let (later, _, h2) = >>=-eq-ok (tensor_entries back) _ h1 in
    let (few, size, values) = tensor_entry-ok t entry [] g in
    let (here, _) =
      Holds-append f offset entry later (subst (Holds f offset) (sym (ok-injective h2)) k) in
    let whole : unpack entry_codes entry ≡ entry_values t =
      ap (unpack entry_codes) (sym (append-nil entry)) ∙ values in
    let found : (t.tensor_id == t.tensor_id) ≡ true = ground arith in
    let low : ltb 4 (length t.logical_shape) ≡ false = ground arith in
    let rest = find_tensor f q t.tensor_id (length back) (offset + tensor_entry_size) in
    let seen : at_entry q t.tensor_id (entry_values t) rest ≡ ok (view_of q (entry_values t)) =
      rw (found, low) in
    ap (λ m. m >>= λ bytes. at_entry q t.tensor_id (unpack entry_codes bytes) rest)
      (read_exactly-Holds f offset tensor_entry_size entry here size)
    ∙ (ap (λ v. at_entry q t.tensor_id v rest) whole
        ∙ (seen ∙ ap ok (view_of-planned_view q t few shapes)))
find_tensor-planned_view f q (u ∷ front) t back bytes offset h k fresh shapes =
    let (entry, g, h1) = >>=-eq-ok (tensor_entry u) _ h in
    let (later, g', h2) = >>=-eq-ok (tensor_entries (front ++ t ∷ back)) _ h1 in
    let (_, size, values) = tensor_entry-ok u entry [] g in
    let (here, there) =
      Holds-append f offset entry later (subst (Holds f offset) (sym (ok-injective h2)) k) in
    let whole : unpack entry_codes entry ≡ entry_values u =
      ap (unpack entry_codes) (sym (append-nil entry)) ∙ values in
    let other : (u.tensor_id == t.tensor_id) ≡ false =
      elim (Bool-cases (u.tensor_id == t.tensor_id)) [
        | inl e ↦ absurd (fresh.0 (ground arith))
        | inr e ↦ e
      ] in
    let rest =
      find_tensor f q t.tensor_id (length (front ++ t ∷ back)) (offset + tensor_entry_size) in
    let passed : at_entry q t.tensor_id (entry_values u) rest ≡ rest = rw other in
    ap (λ m. m >>= λ bytes. at_entry q t.tensor_id (unpack entry_codes bytes) rest)
      (read_exactly-Holds f offset tensor_entry_size entry here size)
    ∙ (ap (λ v. at_entry q t.tensor_id v rest) whole
        ∙ (passed
            ∙ find_tensor-planned_view f q front t back later (offset + tensor_entry_size) g'
                (subst (λ n. Holds f (offset + n) later) size there) fresh.1 shapes))
