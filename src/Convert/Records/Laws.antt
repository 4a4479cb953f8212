-- ===== src/Convert/Records/Laws.antt =====
-- A `.uocr` file of src/unlimitedocr_c/convert.py that is planned, written and read again.
use mathlib.Core.Path.{subst}
use unlimitedocr_c.Prelude.{
  ℕ, ◌+◌, ◌*◌, ◌≤◌, ◌≡◌, ◌≢◌, ◌⊎◌, inl, inr, true, sym, ap, ◌∙◌, ◌||◌, List, [], ◌∷◌, ◌++◌, All,
  none, some, length, take, drop, replicate, length-append, append-nil, ◌==◌, ok, ◌>>=◌, >>=-eq-ok,
  ok-injective, arith,
}
use unlimitedocr_c.Prelude.Int.{pos}
use unlimitedocr_c.Convert.Types.{TensorPlan, SectionPlan, tensor_entry_size}
use unlimitedocr_c.Convert.Structs.{pack, unpack}
use unlimitedocr_c.Convert.Structs.Laws.{unpack-pack}
use unlimitedocr_c.Convert.Files.{File, write_at, Holds, Holds-append, kept}
use unlimitedocr_c.Convert.Records.{
  section_codes, section_values, section_bytes, tensor_entry, tensor_entries, directory_codes,
  header_codes, header_values, magic, tensor_dir_magic, DryRunPlan, tensor_directory_bytes,
  header_bytes, write_payloads,
}
use unlimitedocr_c.Convert.Records.Views.{
  find_directory, find_tensor, in_directory, at_directory, behind_header,
  read_uocr_tensor_payload_view,
}
use unlimitedocr_c.Convert.Records.Reads.{
  read_exactly-Holds, last_directory, find_directory-last_directory, planned_view,
  find_tensor-planned_view, tensor_entry-ok,
}

-- A write that leaves `n` bytes from `offset` on alone.
abbrev pub Apart : ℕ → ℕ → ℕ × List ℕ → Type 0
Apart offset n w = (offset + n ≤ w.0) ⊎ (w.0 + length w.1 ≤ offset)

pub kept_all :
    (f : File) (offset : ℕ) (bytes : List ℕ) (ws : List (ℕ × List ℕ))
    → Holds f offset bytes
    → All (Apart offset (length bytes)) ws
    → Holds (write_payloads ws f) offset bytes
kept_all f offset bytes [] h k = h
kept_all f offset bytes ((other, w) ∷ ws) h k =
    kept_all (write_at other w f) offset bytes ws (kept f offset bytes other w h k.0) k.1

-- The directory as it is read.
pub directory-read :
    (f : File) (plan : DryRunPlan) (front : List TensorPlan) (t : TensorPlan)
    (back : List TensorPlan) (bytes : List ℕ) (offset size : ℕ)
    → plan.tensors ≡ front ++ t ∷ back
    → tensor_directory_bytes plan ≡ ok bytes
    → Holds f offset bytes
    → size ≡ 16 + length plan.tensors * 140
    → All (λ (u : TensorPlan). u.tensor_id ≢ t.tensor_id) front
    → length t.physical_shape ≡ length t.logical_shape
    → at_directory f plan.qprofile_id t.tensor_id (some (offset, size))
      ≡ ok (planned_view plan.qprofile_id t)
unfolding tensor_directory_bytes
directory-read f plan front t back bytes offset size split h k sized fresh shapes =
    let values =
      pos tensor_dir_magic ∷ pos 1 ∷ pos tensor_entry_size ∷ pos (length plan.tensors) ∷ [] in
    let (header, g, h1) = >>=-eq-ok (pack directory_codes values) _ h in
    let (entries, g', h2) = >>=-eq-ok (tensor_entries plan.tensors) _ h1 in
    let (long, back_again) = unpack-pack directory_codes values header [] g in
    let (here, there) =
      Holds-append f offset header entries (subst (Holds f offset) (sym (ok-injective h2)) k) in
    let whole : unpack directory_codes header ≡ values =
      ap (unpack directory_codes) (sym (append-nil header)) ∙ back_again in
    let counted : (size == 16 + length plan.tensors * 140) ≡ true = ground arith in
    let checked : in_directory f plan.qprofile_id t.tensor_id (offset, size) values
        ≡ find_tensor f plan.qprofile_id t.tensor_id (length plan.tensors) (offset + 16) =
      rw counted in
    let scan =
      find_tensor-planned_view f plan.qprofile_id front t back entries (offset + 16)
        (ap tensor_entries (sym split) ∙ g') (subst (λ n. Holds f (offset + n) entries) long there)
        fresh shapes in
    ap
      (λ m. m >>= λ bytes.
        in_directory f plan.qprofile_id t.tensor_id (offset, size) (unpack directory_codes bytes))
      (read_exactly-Holds f offset 16 header here long)
    ∙ (ap (in_directory f plan.qprofile_id t.tensor_id (offset, size)) whole
        ∙ (checked
            ∙ (ap (λ us. find_tensor f plan.qprofile_id t.tensor_id (length us) (offset + 16)) split
                ∙ scan)))

pub header-length :
    (plan : DryRunPlan) (hash header : List ℕ)
    → header_bytes plan hash ≡ ok header
    → length hash ≡ 32
    → length header ≡ 112
unfolding header_bytes
header-length plan hash header h hashed =
    let (numbers, g, h1) = >>=-eq-ok (pack header_codes (header_values plan)) _ h in
    let tail = hash ++ replicate 32 0 in
    let (long, _) = unpack-pack header_codes (header_values plan) numbers tail g in
    let bytes_long : length numbers ≡ 44 = long in
    let tail_long : length tail ≡ 64 =
      length-append hash (replicate 32 0) ∙ ap (λ n. n + 32) hashed in
    let size : length (magic ++ (numbers ++ tail)) ≡ 112 =
      omega (arith, length-append numbers tail, bytes_long, tail_long) in
    ap length (sym (ok-injective h1)) ∙ size

-- The header as it is read, of a file of the planned size.
pub header-read :
    (f : File) (plan : DryRunPlan) (hash header sections : List ℕ) (tensor_id : ℕ)
    → header_bytes plan hash ≡ ok header
    → length hash ≡ 32
    → (plan.format_version ≡ 1) ⊎ (plan.format_version ≡ 2)
    → section_bytes plan.sections ≡ ok sections
    → Holds f 0 header
    → Holds f 112 sections
    → f.size ≡ plan.planned_file_size
    → read_uocr_tensor_payload_view f tensor_id
      ≡ at_directory f plan.qprofile_id tensor_id (last_directory plan.sections none)
unfolding header_bytes read_uocr_tensor_payload_view
header-read f plan hash header sections tensor_id h hashed version hs k ks sized =
    let (numbers, g, h1) = >>=-eq-ok (pack header_codes (header_values plan)) _ h in
    let tail = hash ++ replicate 32 0 in
    let (long, values) = unpack-pack header_codes (header_values plan) numbers tail g in
    let total = header-length plan hash header h hashed in
    let known : (plan.format_version == 1 || plan.format_version == 2) ≡ true = elim version [
      | inl e ↦ ground arith
      | inr e ↦ ground arith
    ] in
    let same_size : (plan.planned_file_size == f.size) ≡ true = ground arith in
    let passed : behind_header f tensor_id magic (header_values plan) ≡ (
        find_directory f (length plan.sections) 112 none >>= λ found.
        at_directory f plan.qprofile_id tensor_id found) =
      rw (known, same_size) in
    ap
      (λ m. m >>= λ bytes.
        behind_header f tensor_id (take 4 bytes) (unpack header_codes (drop 4 bytes)))
      (read_exactly-Holds f 0 112 header k total)
    ∙ (ap (λ bytes. behind_header f tensor_id (take 4 bytes) (unpack header_codes (drop 4 bytes)))
          (sym (ok-injective h1))
        ∙ (ap (behind_header f tensor_id magic) values
            ∙ (passed
                ∙ ap (λ m. m >>= λ found. at_directory f plan.qprofile_id tensor_id found)
                    (find_directory-last_directory f plan.sections sections 112 none hs ks))))

pub section_bytes-length :
    (sections : List SectionPlan) (bytes : List ℕ)
    → section_bytes sections ≡ ok bytes
    → length bytes ≡ length sections * 32
unfolding section_bytes
section_bytes-length [] bytes h = ap length (sym (ok-injective h))
section_bytes-length (s ∷ sections) bytes h =
    let (first, g, h1) = >>=-eq-ok (pack section_codes (section_values s)) _ h in
    let (later, g', h2) = >>=-eq-ok (section_bytes sections) _ h1 in
    let (size, _) = unpack-pack section_codes (section_values s) first [] g in
    let long : length first ≡ 32 = size in
    let rest = section_bytes-length sections later g' in
    ap length (sym (ok-injective h2)) ∙ (length-append first later ∙ omega (arith, long, rest))

tensor_entries-length :
    (ts : List TensorPlan) (bytes : List ℕ)
    → tensor_entries ts ≡ ok bytes
    → length bytes ≡ length ts * 140
unfolding tensor_entries
tensor_entries-length [] bytes h = ap length (sym (ok-injective h))
tensor_entries-length (t ∷ ts) bytes h =
    let (entry, g, h1) = >>=-eq-ok (tensor_entry t) _ h in
    let (later, g', h2) = >>=-eq-ok (tensor_entries ts) _ h1 in
    let (_, size, _) = tensor_entry-ok t entry [] g in
    let rest = tensor_entries-length ts later g' in
    ap length (sym (ok-injective h2)) ∙ (length-append entry later ∙ omega (arith, size, rest))

pub directory-length :
    (plan : DryRunPlan) (bytes : List ℕ)
    → tensor_directory_bytes plan ≡ ok bytes
    → length bytes ≡ 16 + length plan.tensors * 140
unfolding tensor_directory_bytes
directory-length plan bytes h =
    let values =
      pos tensor_dir_magic ∷ pos 1 ∷ pos tensor_entry_size ∷ pos (length plan.tensors) ∷ [] in
    let (header, g, h1) = >>=-eq-ok (pack directory_codes values) _ h in
    let (entries, g', h2) = >>=-eq-ok (tensor_entries plan.tensors) _ h1 in
    let (size, _) = unpack-pack directory_codes values header [] g in
    let long : length header ≡ 16 = size in
    let rest = tensor_entries-length plan.tensors entries g' in
    ap length (sym (ok-injective h2)) ∙ (length-append header entries ∙ omega (arith, long, rest))
