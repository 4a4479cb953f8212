-- ===== src/Convert/Plan/Candidates.antt =====
-- Which tensors src/unlimitedocr_c/convert.py quantizes: what `_usage_for_name` and
-- `_is_mixed_q8_candidate` tell of a tensor.
use unlimitedocr_c.Prelude.{
  ℕ, ◌≡◌, ◌≢◌, ◌⊎◌, inl, inr, refl, Bool, true, false, ◌||◌, List, [], ◌∷◌, Text, codes, text_eq,
  ◌==◌, ==_iff, if◌then◌else◌, ◌↔◌, Bool-cases, neither, unnegated, arith,
}
use unlimitedocr_c.Registry.Types.{
  TensorRegistryEntry, family_id, moe_router, dash_router, sparse_indexer,
}
use unlimitedocr_c.Registry.Names.{clip_position_ids_name}
use unlimitedocr_c.QuantCfg.Types.{QuantConfig, is_supported}
use unlimitedocr_c.Convert.Types.{usage_runtime}
use unlimitedocr_c.Convert.Plan.{
  is_mixed_q8_candidate, usage_for_name, occurs, ends_with, rank_2,
  is_preserved_unused_in_normal_ocr,
}

-- The names of the tensors that run time uses: not the position ids, none of an indexer, and no patch
-- embedding unless it is a DASH router's.
abbrev pub Used : Text → Type 0
Used name =
    (text_eq name clip_position_ids_name ≡ false)
    × (occurs (codes ".self_attn.indexer.") name ≡ false)
    × ((occurs (codes ".self_attn.dash_router.") name ≡ true)
        ⊎ (is_preserved_unused_in_normal_ocr name ≡ false))

usage_for_name-Used : (name : Text) → ((usage_for_name name).1 ≡ usage_runtime) ↔ Used name
unfolding usage_for_name
usage_for_name-Used name = elim (Bool-cases (text_eq name clip_position_ids_name)) [
  | inl e ↦ ((rw e (λ h. absurd (cc))), λ u. absurd (cc))
  | inr e ↦ elim (Bool-cases (occurs (codes ".self_attn.indexer.") name)) [
    | inl f ↦ ((rw (e, f) (λ h. absurd (cc))), λ u. absurd (cc))
    | inr f ↦ elim (Bool-cases (occurs (codes ".self_attn.dash_router.") name)) [
      | inl g ↦ (λ h. (e, f, inl g), λ u. rw (e, f, g) refl)
      | inr g ↦ elim (Bool-cases (is_preserved_unused_in_normal_ocr name)) [
        | inl k ↦ (
          (rw (e, f, g, k) (λ h. absurd (cc))),
          λ u. elim u.2 [ inl h ↦ absurd (cc) | inr h ↦ absurd (cc) ],
        )
        | inr k ↦ (
          λ h. (e, f, inr k),
          λ u. elim (Bool-cases (ends_with (codes ".mlp.gate.weight") name)) [
            | inl m ↦ rw (e, f, g, k, m) refl
            | inr m ↦
                elim (Bool-cases (
                  occurs (codes "norm") name
                  || ends_with (codes "bias") name
                  || text_eq name (codes "model.image_newline")
                  || text_eq name (codes "model.view_seperator"))) [
                    | inl n ↦ rw (e, f, g, k, m, n) refl
                    | inr n ↦ rw (e, f, g, k, m, n) refl
                  ]
          ],
        )
      ]
    ]
  ]
]

-- What a quantized tensor is: a matrix that run time uses, not of a router or an indexer, whose
-- family and projection the config supports.
pub record IsCandidate (name : Text) (entry : TensorRegistryEntry) (shape : List ℕ)
    (cfg : QuantConfig) : Type 0 where
  pub used : Used name
  pub matrix : (rows : ℕ) × (cols : ℕ) × (shape ≡ rows ∷ cols ∷ [])
  pub no_router : family_id entry.family ≢ family_id moe_router
  pub no_dash_router : family_id entry.family ≢ family_id dash_router
  pub no_indexer : family_id entry.family ≢ family_id sparse_indexer
  pub supported : is_supported cfg entry.family entry.projection ≡ true

rank_2-matrix :
    (shape : List ℕ) → rank_2 shape ≡ true → (rows : ℕ) × (cols : ℕ) × (shape ≡ rows ∷ cols ∷ [])
rank_2-matrix (x ∷ y ∷ []) h = (x, y, refl)
rank_2-matrix [] h = absurd (cc)
rank_2-matrix (x ∷ []) h = absurd (cc)
rank_2-matrix (x ∷ y ∷ z ∷ r) h = absurd (cc)

through :
    (a b c : Bool)
    → (if a then false else if b then false else c) ≡ true
    → (a ≡ false) × (b ≡ false) × (c ≡ true)
through false false c h = (refl, refl, h)
through true b c h = absurd (cc)
through false true c h = absurd (cc)

differ : (m n : ℕ) → (m == n) ≡ false → m ≢ n
differ m n h k = absurd (ground arith)

pub is_mixed_q8_candidate-IsCandidate :
    (name : Text) (entry : TensorRegistryEntry) (shape : List ℕ) (cfg : QuantConfig)
    → is_mixed_q8_candidate entry shape (usage_for_name name).1 cfg ≡ true
    → IsCandidate name entry shape cfg
unfolding is_mixed_q8_candidate
is_mixed_q8_candidate-IsCandidate name entry shape cfg h =
    let (plain, kept, supported) = through _ _ _ h in
    let (usage, rank) = neither _ _ plain in
    let (routers, indexer) = neither _ _ kept in
    let (router, dash) = neither _ _ routers in
    record {
      used = (usage_for_name-Used name).0 ((==_iff _ _).0 (unnegated _ usage));
      matrix = rank_2-matrix shape (unnegated _ rank);
      no_router = differ _ _ router;
      no_dash_router = differ _ _ dash;
      no_indexer = differ _ _ indexer;
      supported = supported;
    }

apart : (m n : ℕ) → m ≢ n → (m == n) ≡ false
apart m n h = elim (Bool-cases (m == n)) [ inl e ↦ absurd (h ((==_iff _ _).0 e)) | inr e ↦ e ]

pub IsCandidate-is_mixed_q8_candidate :
    (name : Text) (entry : TensorRegistryEntry) (shape : List ℕ) (cfg : QuantConfig)
    → IsCandidate name entry shape cfg
    → is_mixed_q8_candidate entry shape (usage_for_name name).1 cfg ≡ true
unfolding is_mixed_q8_candidate
IsCandidate-is_mixed_q8_candidate name entry shape cfg c =
    let usage : (usage_for_name name).1 ≡ usage_runtime = (usage_for_name-Used name).1 c.used in
    let router = apart _ _ c.no_router in
    let dash = apart _ _ c.no_dash_router in
    let indexer = apart _ _ c.no_indexer in
    let (rows, cols, matrix) = c.matrix in rw (usage, matrix, router, dash, indexer) c.supported
