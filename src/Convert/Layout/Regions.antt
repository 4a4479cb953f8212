-- ===== src/Convert/Layout/Regions.antt =====
-- Where the plain layout of src/unlimitedocr_c/convert.py puts payloads and scales: aligned, inside
-- the tensor data, and pairwise disjoint.
use unlimitedocr_c.Prelude.{
  ℕ, zero, suc, ◌+◌, ◌%◌, ◌≤◌, ◌<◌, ◌≡◌, false, List, [], ◌∷◌, ◌++◌, ◌⊎◌, inl, inr, arith, All,
  Pairwise, All-append, All-weaken, All-combine, Pairwise-combine, Pairwise-append, Bool-cases,
}
use unlimitedocr_c.Convert.Sizes.Laws.{align_up-16}
use unlimitedocr_c.Convert.Types.{TensorPlan}
use unlimitedocr_c.Convert.Layout.{with_scale, takes_no_room, split_group}
use unlimitedocr_c.Convert.Layout.Spec.{
  payloads, payloads_end, scales, scales_end, group_laid, group_end, laid, laid_end, scale_start,
  scale_stop,
}

-- The payload, and the scales where there are any, lie in [lo, hi) at multiples of 16.
pub record InFile (lo hi : ℕ) (u : TensorPlan) : Type 0 where
  pub payload_from : lo ≤ u.payload_offset
  pub payload_to : u.payload_offset + u.output_bytes ≤ hi
  pub payload_aligned : u.payload_offset % 16 ≡ 0
  pub scale_from : 0 < u.scale_size → u.payload_offset + u.output_bytes ≤ u.scale_offset
  pub scale_to : 0 < u.scale_size → u.scale_offset + u.scale_size ≤ hi
  pub scale_aligned : 0 < u.scale_size → u.scale_offset % 16 ≡ 0

-- The byte ranges [a, a + m) and [b, b + n) do not meet.
abbrev pub Disjoint : ℕ → ℕ → ℕ → ℕ → Type 0
Disjoint a m b n = (a + m ≤ b) ⊎ (b + n ≤ a)

pub record Apart (u v : TensorPlan) : Type 0 where
  pub payloads_apart : Disjoint u.payload_offset u.output_bytes v.payload_offset v.output_bytes
  pub payload_scale :
      0 < v.scale_size → Disjoint u.payload_offset u.output_bytes v.scale_offset v.scale_size
  pub scale_payload :
      0 < u.scale_size → Disjoint u.scale_offset u.scale_size v.payload_offset v.output_bytes
  pub scales_apart :
      0 < u.scale_size
      → 0 < v.scale_size
      → Disjoint u.scale_offset u.scale_size v.scale_offset v.scale_size

InFile-Apart : (a b c : ℕ) (u v : TensorPlan) → InFile a b u → InFile b c v → Apart u v
InFile-Apart a b c u v h k = record {
  payloads_apart = inl (omega arith);
  payload_scale = λ p. inl (omega (arith, k.scale_from p));
  scale_payload = λ p. inl (omega (arith, h.scale_to p));
  scales_apart = λ p q. inl (omega (arith, h.scale_to p, k.scale_from q));
}

InFile-widen : (a b c d : ℕ) (u : TensorPlan) → c ≤ a → b ≤ d → InFile a b u → InFile c d u
InFile-widen a b c d u l m h = record {
  payload_from = omega arith;
  payload_to = omega arith;
  payload_aligned = h.payload_aligned;
  scale_from = h.scale_from;
  scale_to = λ p. omega (arith, h.scale_to p);
  scale_aligned = h.scale_aligned;
}

-- After the first loop over a group.
record PayloadIn (lo hi : ℕ) (u : TensorPlan) : Type 0 where
  pub payload_from : lo ≤ u.payload_offset
  pub payload_to : u.payload_offset + u.output_bytes ≤ hi
  pub payload_aligned : u.payload_offset % 16 ≡ 0

abbrev InOrder : TensorPlan → TensorPlan → Type 0
InOrder u v = u.payload_offset + u.output_bytes ≤ v.payload_offset

le-payloads_end : (ts : List TensorPlan) (c : ℕ) → c ≤ payloads_end c ts
unfolding payloads_end
le-payloads_end [] c = omega arith
le-payloads_end (t ∷ ts) c = omega (arith, le-payloads_end ts _, align_up-16 c)

payloads-PayloadIn :
    (ts : List TensorPlan) (c lo : ℕ)
    → lo ≤ c
    → All (PayloadIn lo (payloads_end c ts)) (payloads c ts)
unfolding payloads payloads_end
payloads-PayloadIn [] c lo h = tt
payloads-PayloadIn (t ∷ ts) c lo h = (
  record {
    payload_from = omega (arith, align_up-16 c);
    payload_to = le-payloads_end ts _;
    payload_aligned = omega (arith, align_up-16 c);
  },
  payloads-PayloadIn ts _ lo (omega (arith, align_up-16 c)),
)

payloads-InOrder : (ts : List TensorPlan) (c : ℕ) → Pairwise InOrder (payloads c ts)
unfolding payloads
payloads-InOrder [] c = tt
payloads-InOrder (t ∷ ts) c = (
  All-weaken _ _ (payloads _ ts) (λ u h. h.payload_from) (payloads-PayloadIn ts _ _ (omega arith)),
  payloads-InOrder ts _,
)

le-scales_end : (us : List TensorPlan) (c : ℕ) → c ≤ scales_end c us
unfolding scales_end
le-scales_end [] c = omega arith
le-scales_end (u ∷ us) c = ground (arith, le-scales_end us (scale_stop c u), align_up-16 c)

-- The second loop puts the scales behind all payloads of the group, in order.
record ScaledIn (lo mid from hi : ℕ) (u : TensorPlan) : Type 0 where
  pub payload_in : PayloadIn lo mid u
  pub scale_from : 0 < u.scale_size → from ≤ u.scale_offset
  pub scale_to : 0 < u.scale_size → u.scale_offset + u.scale_size ≤ hi
  pub scale_aligned : 0 < u.scale_size → u.scale_offset % 16 ≡ 0

scales-ScaledIn :
    (us : List TensorPlan) (c lo mid from : ℕ)
    → from ≤ c
    → All (PayloadIn lo mid) us
    → All (ScaledIn lo mid from (scales_end c us)) (scales c us)
unfolding scales scales_end
scales-ScaledIn [] c lo mid from l h = tt
scales-ScaledIn (u ∷ us) c lo mid from l h = (
  record {
    payload_in = record {
      payload_from = h.0.payload_from;
      payload_to = h.0.payload_to;
      payload_aligned = h.0.payload_aligned;
    };
    scale_from = λ p. ground (arith, align_up-16 c);
    scale_to = λ p. ground (arith, le-scales_end us (scale_stop c u));
    scale_aligned = λ p. ground (arith, align_up-16 c);
  },
  scales-ScaledIn us (scale_stop c u) lo mid from (ground (arith, align_up-16 c)) h.1,
)

abbrev BothInOrder : TensorPlan → TensorPlan → Type 0
BothInOrder u v =
    InOrder u v
    × (0 < u.scale_size → 0 < v.scale_size → u.scale_offset + u.scale_size ≤ v.scale_offset)

scales-InOrder :
    (w : TensorPlan) (us : List TensorPlan) (c : ℕ)
    → All (InOrder w) us
    → All (InOrder w) (scales c us)
unfolding scales
scales-InOrder w [] c h = tt
scales-InOrder w (u ∷ us) c h = (h.0, scales-InOrder w us (scale_stop c u) h.1)

scales-BothInOrder :
    (us : List TensorPlan) (c lo mid : ℕ)
    → All (PayloadIn lo mid) us
    → Pairwise InOrder us
    → Pairwise BothInOrder (scales c us)
unfolding scales
scales-BothInOrder [] c lo mid h k = tt
scales-BothInOrder (u ∷ us) c lo mid h k = (
  All-combine _ _ _ (scales (scale_stop c u) us) both (scales-InOrder u us (scale_stop c u) k.0)
      (scales-ScaledIn us (scale_stop c u) lo mid (scale_stop c u) (omega arith) h.1),
  scales-BothInOrder us (scale_stop c u) lo mid h.1 k.1,
)
  where
    both :
        (v : TensorPlan)
        → InOrder u v
        → ScaledIn lo mid (scale_stop c u) (scales_end (scale_stop c u) us) v
        → BothInOrder (with_scale (scale_start c u) u) v
    both v o s = (o, λ p q. ground (arith, s.scale_from q))

le-group_end : (g : List TensorPlan) (c : ℕ) → c ≤ group_end c g
le-group_end g c =
    omega (arith, le-payloads_end g c, le-scales_end (payloads c g) (payloads_end c g))

-- A group that is laid out from `c` stays within its end, and its tensors are apart.
group-InFile :
    (g : List TensorPlan) (c : ℕ)
    → All (InFile c (group_end c g)) (group_laid c g) × Pairwise Apart (group_laid c g)
group-InFile g c =
    let mid = payloads_end c g in
    let placed = payloads-PayloadIn g c c (omega arith) in
    let scaled = scales-ScaledIn (payloads c g) mid c mid mid (omega arith) placed in
    (
      All-weaken _ _ (group_laid c g) inside scaled,
      Pairwise-combine _ _ _ (group_laid c g) apart scaled
          (scales-BothInOrder (payloads c g) mid c mid placed (payloads-InOrder g c)),
    )
  where
    inside :
        (u : TensorPlan)
        → ScaledIn c (payloads_end c g) (payloads_end c g) (group_end c g) u
        → InFile c (group_end c g) u
    inside u h = record {
      payload_from = h.payload_in.payload_from;
      payload_to =
          omega (arith, h.payload_in.payload_to, le-scales_end (payloads c g) (payloads_end c g));
      payload_aligned = h.payload_in.payload_aligned;
      scale_from = λ p. omega (arith, h.scale_from p, h.payload_in.payload_to);
      scale_to = h.scale_to;
      scale_aligned = h.scale_aligned;
    }

    apart :
        (u v : TensorPlan)
        → ScaledIn c (payloads_end c g) (payloads_end c g) (group_end c g) u
        → ScaledIn c (payloads_end c g) (payloads_end c g) (group_end c g) v
        → BothInOrder u v
        → Apart u v
    apart u v h k o = record {
      payloads_apart = inl o.0;
      payload_scale = λ p. inl (omega (arith, h.payload_in.payload_to, k.scale_from p));
      scale_payload = λ p. inr (omega (arith, k.payload_in.payload_to, h.scale_from p));
      scales_apart = λ p q. inl (o.1 p q);
    }

-- A tensor that takes room in the file.
abbrev pub HasRoom : TensorPlan → Type 0
HasRoom u = takes_no_room u ≡ false

abbrev pub PlacedIn : ℕ → ℕ → TensorPlan → Type 0
PlacedIn lo hi u = HasRoom u → InFile lo hi u

abbrev pub PlacedApart : TensorPlan → TensorPlan → Type 0
PlacedApart u v = HasRoom u → HasRoom v → Apart u v

pub le-laid_end : (fuel : ℕ) (ts : List TensorPlan) (c : ℕ) → c ≤ laid_end fuel ts c
unfolding laid_end
le-laid_end zero [] c = omega arith
le-laid_end (suc fuel) [] c = omega arith
le-laid_end zero (t ∷ ts) c = omega arith
le-laid_end (suc fuel) (t ∷ ts) c = elim (Bool-cases (takes_no_room t)) [
  | inl e ↦ rw (e, laid_end) (le-laid_end fuel ts c)
  | inr e ↦
      rw (e, laid_end)
        (omega (
          arith,
          le-group_end (split_group t ts).0 c,
          le-laid_end fuel (split_group t ts).1 (group_end c (split_group t ts).0),
        ))
]

-- A group, followed by what is laid out behind it.
append-PlacedIn :
    (xs ys : List TensorPlan) (a b c : ℕ)
    → a ≤ b
    → b ≤ c
    → All (InFile a b) xs × Pairwise Apart xs
    → All (PlacedIn b c) ys × Pairwise PlacedApart ys
    → All (PlacedIn a c) (xs ++ ys) × Pairwise PlacedApart (xs ++ ys)
append-PlacedIn xs ys a b c l m (h, k) (h', k') = (
  All-append _ xs ys (All-weaken _ _ xs (λ u i r. InFile-widen a b a c u (omega arith) m i) h)
      (All-weaken _ _ ys (λ v i r. InFile-widen b c a c v l (omega arith) (i r)) h'),
  Pairwise-append _ xs ys (Pairwise-combine _ _ _ xs (λ u v i j p r s. p) h k) k' (
      All-weaken _ _ xs (λ u i. All-weaken _ _ ys (λ v j r s. InFile-Apart a b c u v i (j s)) h')
        h),
)

-- Every tensor of the layout that takes room lies, aligned, between the start and the end, and no
-- two of their regions meet.
pub laid-PlacedIn :
    (fuel : ℕ) (ts : List TensorPlan) (c : ℕ)
    → All (PlacedIn c (laid_end fuel ts c)) (laid fuel ts c) × Pairwise PlacedApart (laid fuel ts c)
unfolding laid laid_end
laid-PlacedIn zero [] c = (tt, tt)
laid-PlacedIn (suc fuel) [] c = (tt, tt)
laid-PlacedIn zero (t ∷ ts) c = (tt, tt)
laid-PlacedIn (suc fuel) (t ∷ ts) c = elim (Bool-cases (takes_no_room t)) [
  | inl e ↦
      let (inside, apart) = laid-PlacedIn fuel ts c in
      rw (e, laid, laid_end)
        ((λ r. cc, inside), (All-weaken _ _ (laid fuel ts c) (λ v i r. cc) inside, apart))
  | inr e ↦
      rw (e, laid, laid_end)
        (let g = (split_group t ts).0 in
          append-PlacedIn (group_laid c g) _ c (group_end c g) _ (le-group_end g c)
            (le-laid_end fuel (split_group t ts).1 (group_end c g)) (group-InFile g c)
            (laid-PlacedIn fuel (split_group t ts).1 (group_end c g)))
]
