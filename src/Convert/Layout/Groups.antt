-- ===== src/Convert/Layout/Groups.antt =====
-- How `_layout_dry_run_file` splits the tensors into groups.
use unlimitedocr_c.Prelude.{
  ◌≤◌, ◌≡◌, refl, ap, List, [], ◌∷◌, ◌++◌, arith, length, Bool-cases, inl, inr,
}
use unlimitedocr_c.Convert.Types.{TensorPlan}
use unlimitedocr_c.Convert.Layout.{split_group, look_ahead, starts_group, joins}

look_ahead-append :
    (t : TensorPlan) (ts : List TensorPlan) → (look_ahead t ts).0 ++ (look_ahead t ts).1 ≡ ts
look_ahead-append t [] = refl
look_ahead-append t (u ∷ us) = elim (Bool-cases (joins t u)) [
  | inl e ↦ rw e (ap (◌∷◌ u) (look_ahead-append t us))
  | inr e ↦ rw e
]

pub split_group-append :
    (t : TensorPlan) (ts : List TensorPlan) → (split_group t ts).0 ++ (split_group t ts).1 ≡ t ∷ ts
unfolding split_group
split_group-append t ts = elim (Bool-cases (starts_group t)) [
  | inl e ↦ rw e (ap (◌∷◌ t) (look_ahead-append t ts))
  | inr e ↦ rw e
]

length-look_ahead : (t : TensorPlan) (ts : List TensorPlan) → length (look_ahead t ts).1 ≤ length ts
length-look_ahead t [] = omega arith
length-look_ahead t (u ∷ us) = elim (Bool-cases (joins t u)) [
  | inl e ↦ rw e (omega (arith, length-look_ahead t us))
  | inr e ↦ rw e (omega arith)
]

-- Each round of the loop consumes a tensor.
pub length-split_group :
    (t : TensorPlan) (ts : List TensorPlan) → length (split_group t ts).1 ≤ length ts
unfolding split_group
length-split_group t ts = elim (Bool-cases (starts_group t)) [
  | inl e ↦ rw e (length-look_ahead t ts)
  | inr e ↦ rw e (omega arith)
]
