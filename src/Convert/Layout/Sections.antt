-- ===== src/Convert/Layout/Sections.antt =====
-- `_layout_dry_run_file` of src/unlimitedocr_c/convert.py as a whole.
use mathlib.Core.Path.{subst}
use unlimitedocr_c.Prelude.{
  ℕ, ◌+◌, ◌-◌, ◌*◌, ◌%◌, ◌≤◌, ◌≡◌, Bool, List, [], ◌∷◌, arith, All, Pairwise, length, none, ok,
  ok-injective, refl, sym, ◌∙◌,
}
use unlimitedocr_c.Convert.Sizes.Laws.{align_up-8, align_up-4096}
use unlimitedocr_c.Convert.Types.{TensorPlan, SectionPlan}
use unlimitedocr_c.Convert.Layout.{
  FileLayout, Place, section_offsets, section_plans, layout_dry_run_file,
}
use unlimitedocr_c.Convert.Layout.Spec.{laid, laid_end}
use unlimitedocr_c.Convert.Layout.Refine.{ids, Distinct, place_tensors-Laid, collect-Stores}
use unlimitedocr_c.Convert.Layout.Regions.{PlacedIn, PlacedApart, laid-PlacedIn, le-laid_end}

-- The layout without dictionary, loops or fuel failures.
unfoldable pub plain_layout : List TensorPlan → ℕ → Bool → FileLayout
plain_layout ts json_size is_v2 =
    let o = section_offsets (length ts) json_size is_v2 in
    let end = laid_end (length ts) ts o.tensor_data_offset in
    record {
      sections = section_plans o end;
      laid_out = laid (length ts) ts o.tensor_data_offset;
      planned_file_size = end;
      metadata_bytes = end - (end - o.tensor_data_offset);
    }

-- Where the loop starts.
abbrev start_place : List TensorPlan → ℕ → Bool → Place
start_place ts json_size is_v2 = record {
  cursor = (section_offsets (length ts) json_size is_v2).tensor_data_offset;
  by_id = λ i. none;
}

-- For tensors with distinct ids the planner returns, and what it returns is the plain layout: the
-- dictionary lookups never fail and the loop does not run out of fuel.
pub layout_dry_run_file-plain_layout :
    (ts : List TensorPlan) (json_size : ℕ) (is_v2 : Bool)
    → Distinct (ids ts)
    → layout_dry_run_file ts json_size is_v2 ≡ ok (plain_layout ts json_size is_v2)
unfolding layout_dry_run_file plain_layout
layout_dry_run_file-plain_layout ts json_size is_v2 h =
    let (s, r, l) =
      place_tensors-Laid (length ts) ts (start_place ts json_size is_v2) (omega arith) h in
    rw r (
      rw
        (collect-Stores s.by_id ts (laid (length ts) ts (start_place ts json_size is_v2).cursor)
          (sym l.same_ids) l.stores)
        (rw l.cursor_is))

-- The ids are kept in order, every tensor lies in the file and no two of them meet.
pub record IsPlanned (ts : List TensorPlan) (start : ℕ) (l : FileLayout) : Type 0 where
  pub same_ids : ids l.laid_out ≡ ids ts
  pub inside : All (PlacedIn start l.planned_file_size) l.laid_out
  pub apart : Pairwise PlacedApart l.laid_out

plain_layout-IsPlanned :
    (ts : List TensorPlan) (json_size : ℕ) (is_v2 : Bool)
    → Distinct (ids ts)
    → IsPlanned ts
        (section_offsets (length ts) json_size is_v2).tensor_data_offset
        (plain_layout ts json_size is_v2)
unfolding plain_layout
plain_layout-IsPlanned ts json_size is_v2 h =
    let s = start_place ts json_size is_v2 in
    let (_, _, l) = place_tensors-Laid (length ts) ts s (omega arith) h in
    let (inside, apart) = laid-PlacedIn (length ts) ts s.cursor in
    record { same_ids = l.same_ids; inside = inside; apart = apart }

plain_eq :
    (ts : List TensorPlan) (json_size : ℕ) (is_v2 : Bool) (l : FileLayout)
    → Distinct (ids ts)
    → layout_dry_run_file ts json_size is_v2 ≡ ok l
    → plain_layout ts json_size is_v2 ≡ l
plain_eq ts json_size is_v2 l h e =
    ok-injective (sym (layout_dry_run_file-plain_layout ts json_size is_v2 h) ∙ e)

-- For tensors with distinct ids, a layout that is returned keeps the ids in their order, and has
-- every payload and scale block that takes room at a multiple of 16 inside the tensor data section,
-- no two of them overlapping.
pub layout_dry_run_file-IsPlanned :
    (ts : List TensorPlan) (json_size : ℕ) (is_v2 : Bool) (l : FileLayout)
    → Distinct (ids ts)
    → layout_dry_run_file ts json_size is_v2 ≡ ok l
    → IsPlanned ts (section_offsets (length ts) json_size is_v2).tensor_data_offset l
layout_dry_run_file-IsPlanned ts json_size is_v2 l h e =
    subst (IsPlanned ts (section_offsets (length ts) json_size is_v2).tensor_data_offset)
      (plain_eq ts json_size is_v2 l h e) (plain_layout-IsPlanned ts json_size is_v2 h)

-- Sections one after the other from `at` on, each at a multiple of its alignment; `end` is where
-- the last one stops.
abbrev pub Follow : ℕ → List SectionPlan → ℕ → Type 0
Follow at [] end = at ≡ end
Follow at (s ∷ ss) end =
    (at ≤ s.offset) × (s.offset % s.alignment ≡ 0) × Follow (s.offset + s.size) ss end

section_plans-Follow :
    (count json_size : ℕ) (is_v2 : Bool) (end : ℕ)
    → (section_offsets count json_size is_v2).tensor_data_offset ≤ end
    → Follow (112 + 5 * 32) (section_plans (section_offsets count json_size is_v2) end) end
unfolding section_plans section_offsets
section_plans-Follow count json_size is_v2 end h = (
  (align_up-8 _).0,
  (align_up-8 _).1,
  (
    (align_up-8 _).0,
    (align_up-8 _).1,
    (
      (align_up-8 _).0,
      (align_up-8 _).1,
      ((align_up-8 _).0, (align_up-8 _).1, ((align_up-4096 _).0, (align_up-4096 _).1, omega arith)),
    ),
  ),
)

plain_layout-Follow :
    (ts : List TensorPlan) (json_size : ℕ) (is_v2 : Bool)
    → Follow
        (112 + 5 * 32)
        (plain_layout ts json_size is_v2).sections
        (plain_layout ts json_size is_v2).planned_file_size
      × ((plain_layout ts json_size is_v2).metadata_bytes
          ≡ (section_offsets (length ts) json_size is_v2).tensor_data_offset)
unfolding plain_layout
plain_layout-Follow ts json_size is_v2 =
    let o = section_offsets (length ts) json_size is_v2 in
    let grows = le-laid_end (length ts) ts o.tensor_data_offset in
    (section_plans-Follow (length ts) json_size is_v2 _ grows, omega arith)

-- For tensors with distinct ids, the five sections of a layout that is returned follow the header
-- and the section directory without overlapping, each aligned, and the last ends where the file
-- does; the metadata takes what lies before the tensor data.
pub layout_dry_run_file-Follow :
    (ts : List TensorPlan) (json_size : ℕ) (is_v2 : Bool) (l : FileLayout)
    → Distinct (ids ts)
    → layout_dry_run_file ts json_size is_v2 ≡ ok l
    → Follow (112 + 5 * 32) l.sections l.planned_file_size
      × (l.metadata_bytes ≡ (section_offsets (length ts) json_size is_v2).tensor_data_offset)
layout_dry_run_file-Follow ts json_size is_v2 l h e =
    subst
      (λ l.
        Follow (112 + 5 * 32) l.sections l.planned_file_size
        × (l.metadata_bytes ≡ (section_offsets (length ts) json_size is_v2).tensor_data_offset))
      (plain_eq ts json_size is_v2 l h e) (plain_layout-Follow ts json_size is_v2)

plain_layout-section_plans :
    (ts : List TensorPlan) (json_size : ℕ) (is_v2 : Bool)
    → (plain_layout ts json_size is_v2).sections
      ≡ section_plans
          (section_offsets (length ts) json_size is_v2)
          (plain_layout ts json_size is_v2).planned_file_size
unfolding plain_layout
plain_layout-section_plans ts json_size is_v2 = refl

-- The sections that are returned are those of the offsets and of the size of the file.
pub layout_dry_run_file-section_plans :
    (ts : List TensorPlan) (json_size : ℕ) (is_v2 : Bool) (l : FileLayout)
    → Distinct (ids ts)
    → layout_dry_run_file ts json_size is_v2 ≡ ok l
    → l.sections ≡ section_plans (section_offsets (length ts) json_size is_v2) l.planned_file_size
layout_dry_run_file-section_plans ts json_size is_v2 l h e =
    subst
      (λ (l : FileLayout).
        l.sections
        ≡ section_plans (section_offsets (length ts) json_size is_v2) l.planned_file_size)
      (plain_eq ts json_size is_v2 l h e) (plain_layout-section_plans ts json_size is_v2)
