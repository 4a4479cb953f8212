-- ===== src/Convert/Records/Written.antt =====
-- A `.uocr` file of src/unlimitedocr_c/convert.py that is planned, written and read again.
use mathlib.Core.Path.{subst}
use unlimitedocr_c.Prelude.{
  ℕ, ◌+◌, ◌*◌, ◌≤◌, ◌≡◌, ◌≢◌, ◌⊎◌, inl, refl, sym, ap, ◌∙◌, Bool, List, [], ◌∷◌, ◌++◌, All,
  All-weaken, none, some, length, length-map, ◌==◌, ok, value_error, key_error, >>=-eq-ok,
  ok-injective, raise_if, or_raise, arith,
}
use unlimitedocr_c.Convert.Types.{TensorPlan}
use unlimitedocr_c.Convert.Files.{File, empty, write_at, truncate, Holds, written, kept_cut}
use unlimitedocr_c.Convert.Layout.{
  Offsets, FileLayout, section_offsets, section_plans, layout_dry_run_file,
}
use unlimitedocr_c.Convert.Layout.Sections.{
  Follow, layout_dry_run_file-section_plans, layout_dry_run_file-Follow,
  layout_dry_run_file-IsPlanned,
}
use unlimitedocr_c.Convert.Layout.Refine.{ids, Distinct}
use unlimitedocr_c.Convert.Records.{
  section_bytes, DryRunPlan, tensor_directory_bytes, header_bytes, section_offset, write_payloads,
  Given, write_uocr_model,
}
use unlimitedocr_c.Convert.Records.Views.{read_uocr_tensor_payload_view, at_directory}
use unlimitedocr_c.Convert.Records.Reads.{last_directory, planned_view}
use unlimitedocr_c.Convert.Records.Laws.{
  Apart, kept_all, header-length, section_bytes-length, directory-length, header-read,
  directory-read,
}

-- The records that are given as bytes have the sizes that were planned.
pub record IsGiven (o : Offsets) (given : Given) : Type 0 where
  pub hash : length given.index_hash ≡ 32
  pub config : length given.config ≡ o.config_size
  pub tokenizer : length given.tokenizer ≡ 92
  pub provenance : length given.provenance ≡ o.provenance_size

-- Where header, section directory and tensor directory stand in a file that is written.
record Stand (plan : DryRunPlan) (given : Given) (o : Offsets) (f : File) : Type 0 where
  header : List ℕ
  sections : List ℕ
  directory : List ℕ
  header_is : header_bytes plan given.index_hash ≡ ok header
  sections_are : section_bytes plan.sections ≡ ok sections
  directory_is : tensor_directory_bytes plan ≡ ok directory
  header_stands : Holds f 0 header
  sections_stand : Holds f 112 sections
  directory_stands : Holds f o.tensor_dir_offset directory
  sized : f.size ≡ plan.planned_file_size

module _ (plan : DryRunPlan) (given : Given) (payloads : List (ℕ × List ℕ)) (o : Offsets)
    (follow : Follow 272 (section_plans o plan.planned_file_size) plan.planned_file_size)
    (sections_planned : plan.sections ≡ section_plans o plan.planned_file_size)
    (room : o.tensor_dir_size ≡ 16 + length plan.tensors * 140) (sizes : IsGiven o given)
    (behind : All (λ (w : ℕ × List ℕ). o.tensor_data_offset ≤ w.0) payloads) where
  found :
      (t offset c : ℕ)
      → section_offset t (section_plans o plan.planned_file_size) ≡ some offset
      → or_raise (section_offset t plan.sections) key_error ≡ ok c
      → c ≡ offset
  found t offset c e h = sym (
      ok-injective (
        sym (
          ap (λ s. or_raise (section_offset t s) key_error) sections_planned
          ∙ ap (λ s. or_raise s key_error) e)
        ∙ h))

  payloads-Apart :
      (offset n : ℕ) → offset + n ≤ o.tensor_data_offset → All (Apart offset n) payloads
  payloads-Apart offset n h =
      All-weaken (λ w. o.tensor_data_offset ≤ w.0) (Apart offset n) payloads
        (λ w k. inl (omega arith)) behind

  -- The file with some offsets, and with those that the planner gave.
  abbrev file_at : (c k p d : ℕ) → List ℕ → List ℕ → List ℕ → File
  file_at c k p d header sections directory = truncate plan.planned_file_size (
      write_payloads payloads (
        write_at d directory (
          write_at p given.provenance (
            write_at k given.tokenizer
              (write_at c given.config (write_at 112 sections (write_at 0 header empty)))))))

  abbrev laid_down : List ℕ → List ℕ → List ℕ → File
  laid_down = file_at o.config_offset o.tokenizer_offset o.provenance_offset o.tensor_dir_offset

  file_at-eq :
      (c k p d c' k' p' d' : ℕ) (header sections directory : List ℕ)
      → c ≡ c'
      → k ≡ k'
      → p ≡ p'
      → d ≡ d'
      → file_at c' k' p' d' header sections directory ≡ file_at c k p d header sections directory
  file_at-eq c k p d c' k' p' d' header sections directory e1 e2 e3 e4 = rw (e1, e2, e3, e4)

  laid_down-Stand :
      (header sections directory : List ℕ)
      → header_bytes plan given.index_hash ≡ ok header
      → section_bytes plan.sections ≡ ok sections
      → tensor_directory_bytes plan ≡ ok directory
      → Stand plan given o (laid_down header sections directory)
  unfolding section_plans truncate
  laid_down-Stand header sections directory hb sb db =
      let h_long = header-length plan given.index_hash header hb sizes.hash in
      let s_long : length sections ≡ 160 =
        section_bytes-length plan.sections sections sb ∙ ap (λ s. length s * 32) sections_planned in
      let d_long = directory-length plan directory db in
      let (
        at_config,
        _,
        (at_tokenizer, _, (at_provenance, _, (at_directory, _, (at_data, _, at_end)))),
      ) =
        follow in
      let config_long = sizes.config in
      let tokenizer_long = sizes.tokenizer in
      let provenance_long = sizes.provenance in
      let last : List (ℕ × List ℕ) = (o.tensor_dir_offset, directory) ∷ payloads in
      let middle : List (ℕ × List ℕ) =
        (o.config_offset, given.config)
        ∷ (o.tokenizer_offset, given.tokenizer)
        ∷ (o.provenance_offset, given.provenance)
        ∷ last in
      record {
        header = header;
        sections = sections;
        directory = directory;
        header_is = hb;
        sections_are = sb;
        directory_is = db;
        header_stands =
            kept_cut _ 0 header plan.planned_file_size
              (kept_all (write_at 0 header empty) 0 header ((112, sections) ∷ middle)
                (written empty 0 header)
                (
                  inl (omega arith),
                  (
                    inl (omega arith),
                    (
                      inl (omega arith),
                      (
                        inl (omega arith),
                        (inl (omega arith), payloads-Apart 0 (length header) (omega arith)),
                      ),
                    ),
                  ),
                ))
              (omega arith);
        sections_stand =
            kept_cut _ 112 sections plan.planned_file_size
              (kept_all (write_at 112 sections (write_at 0 header empty)) 112 sections middle
                (written (write_at 0 header empty) 112 sections)
                (
                  inl (omega arith),
                  (
                    inl (omega arith),
                    (
                      inl (omega arith),
                      (inl (omega arith), payloads-Apart 112 (length sections) (omega arith)),
                    ),
                  ),
                ))
              (omega arith);
        directory_stands =
            kept_cut _ o.tensor_dir_offset directory plan.planned_file_size
              (kept_all _ o.tensor_dir_offset directory payloads
                (written _ o.tensor_dir_offset directory)
                (payloads-Apart o.tensor_dir_offset (length directory) (omega arith)))
              (omega arith);
        sized = refl;
      }

  stands : (f : File) → write_uocr_model plan given payloads ≡ ok f → Stand plan given o f
  unfolding write_uocr_model section_plans
  stands f h =
      let (_, _, h1) = >>=-eq-ok (raise_if (length plan.tensors == 0) value_error) _ h in
      let (header, hb, h2) = >>=-eq-ok (header_bytes plan given.index_hash) _ h1 in
      let (sections, sb, h3) = >>=-eq-ok (section_bytes plan.sections) _ h2 in
      let (c, e1, h4) = >>=-eq-ok (or_raise (section_offset 1 plan.sections) key_error) _ h3 in
      let (k, e3, h5) = >>=-eq-ok (or_raise (section_offset 3 plan.sections) key_error) _ h4 in
      let (p, e4, h6) = >>=-eq-ok (or_raise (section_offset 4 plan.sections) key_error) _ h5 in
      let (d, e2, h7) = >>=-eq-ok (or_raise (section_offset 2 plan.sections) key_error) _ h6 in
      let (directory, db, h8) = >>=-eq-ok (tensor_directory_bytes plan) _ h7 in
      let c_is = found 1 o.config_offset c refl e1 in
      let k_is = found 3 o.tokenizer_offset k refl e3 in
      let p_is = found 4 o.provenance_offset p refl e4 in
      let d_is = found 2 o.tensor_dir_offset d refl e2 in
      let same : laid_down header sections directory ≡ f =
        file_at-eq c k p d o.config_offset o.tokenizer_offset o.provenance_offset
          o.tensor_dir_offset header sections directory c_is k_is p_is d_is
        ∙ ok-injective h8 in
      subst (Stand plan given o) same (laid_down-Stand header sections directory hb sb db)

-- The plan of a layout.
abbrev pub plan_of : ℕ → ℕ → FileLayout → DryRunPlan
plan_of qprofile_id version l = record {
  qprofile_id = qprofile_id;
  format_version = version;
  tensors = l.laid_out;
  sections = l.sections;
  planned_file_size = l.planned_file_size;
}

all_at :
    (P : ℕ → Type 0) (front : List TensorPlan) (t : TensorPlan) (back : List TensorPlan)
    → All P (ids (front ++ t ∷ back))
    → P t.tensor_id
all_at P [] t back h = h.0
all_at P (u ∷ front) t back h = all_at P front t back h.1

-- In front of a tensor, no other has its id.
Distinct-front :
    (front : List TensorPlan) (t : TensorPlan) (back : List TensorPlan)
    → Distinct (ids (front ++ t ∷ back))
    → All (λ (u : TensorPlan). u.tensor_id ≢ t.tensor_id) front
Distinct-front [] t back h = tt
Distinct-front (u ∷ front) t back h =
    (all_at (λ i. u.tensor_id ≢ i) front t back h.0, Distinct-front front t back h.1)

dir_size :
    (n json_size : ℕ) (is_v2 : Bool)
    → (section_offsets n json_size is_v2).tensor_dir_size ≡ 16 + n * 140
unfolding section_offsets
dir_size n json_size is_v2 = refl

last_read :
    (o : Offsets) (f : File) (plan : DryRunPlan) (front : List TensorPlan) (t : TensorPlan)
    (back : List TensorPlan) (directory : List ℕ)
    → plan.tensors ≡ front ++ t ∷ back
    → tensor_directory_bytes plan ≡ ok directory
    → Holds f o.tensor_dir_offset directory
    → o.tensor_dir_size ≡ 16 + length plan.tensors * 140
    → All (λ (u : TensorPlan). u.tensor_id ≢ t.tensor_id) front
    → length t.physical_shape ≡ length t.logical_shape
    → at_directory f plan.qprofile_id t.tensor_id
        (last_directory (section_plans o plan.planned_file_size) none)
      ≡ ok (planned_view plan.qprofile_id t)
unfolding section_plans
last_read o f plan front t back directory split h k room fresh shapes =
    directory-read f plan front t back directory o.tensor_dir_offset o.tensor_dir_size split h k
      room fresh shapes

-- A file that is planned from tensors with distinct ids, and written with payloads in the tensor
-- data, gives each tensor back by its id as it was planned, with the offsets of its payload and
-- scales. The records of config, tokenizer and provenance have the planned sizes, and both shapes of
-- the tensor the same rank.
pub write_uocr_model-read :
    (ts : List TensorPlan) (json_size : ℕ) (is_v2 : Bool) (l : FileLayout) (q version : ℕ)
    (given : Given) (payloads : List (ℕ × List ℕ)) (front : List TensorPlan) (t : TensorPlan)
    (back : List TensorPlan) (f : File)
    → Distinct (ids ts)
    → layout_dry_run_file ts json_size is_v2 ≡ ok l
    → (version ≡ 1) ⊎ (version ≡ 2)
    → IsGiven (section_offsets (length ts) json_size is_v2) given
    → All
        (λ (w : ℕ × List ℕ). (section_offsets (length ts) json_size is_v2).tensor_data_offset ≤ w.0)
        payloads
    → l.laid_out ≡ front ++ t ∷ back
    → length t.physical_shape ≡ length t.logical_shape
    → write_uocr_model (plan_of q version l) given payloads ≡ ok f
    → read_uocr_tensor_payload_view f t.tensor_id ≡ ok (planned_view q t)
write_uocr_model-read ts json_size is_v2 l q version given payloads front t back f distinct e known
      sizes behind split shapes h =
    let o = section_offsets (length ts) json_size is_v2 in
    let plan = plan_of q version l in
    let planned = layout_dry_run_file-section_plans ts json_size is_v2 l distinct e in
    let (follow, _) = layout_dry_run_file-Follow ts json_size is_v2 l distinct e in
    let same = (layout_dry_run_file-IsPlanned ts json_size is_v2 l distinct e).same_ids in
    let count : length ts ≡ length l.laid_out =
      sym (length-map ts (λ t. t.tensor_id))
      ∙ (ap length (sym same) ∙ length-map l.laid_out (λ t. t.tensor_id)) in
    let room : o.tensor_dir_size ≡ 16 + length l.laid_out * 140 =
      dir_size (length ts) json_size is_v2 ∙ ap (λ n. 16 + n * 140) count in
    let stand =
      stands plan given payloads o (subst (λ s. Follow 272 s l.planned_file_size) planned follow)
        planned room sizes behind f h in
    let fresh =
      Distinct-front front t back
        (subst (λ us. Distinct (ids us)) split (subst Distinct (sym same) distinct)) in
    header-read f plan given.index_hash stand.header stand.sections t.tensor_id stand.header_is
      sizes.hash known stand.sections_are stand.header_stands stand.sections_stand stand.sized
    ∙ (ap (λ s. at_directory f q t.tensor_id (last_directory s none)) planned
        ∙ last_read o f plan front t back stand.directory split stand.directory_is
            stand.directory_stands room fresh shapes)
