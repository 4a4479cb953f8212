-- ===== src/Convert/Plan/Laws.antt =====
-- The plan of one tensor of src/unlimitedocr_c/convert.py.
use unlimitedocr_c.Prelude.{
  ℕ, ◌+◌, ◌≡◌, ◌⊎◌, refl, Bool, true, false, List, Text, ok, some, none, Option, ◌↔◌, ◌≢◌,
}
use unlimitedocr_c.Registry.Types.{TensorRegistryEntry}
use unlimitedocr_c.QuantCfg.Types.{Qtype, q8_0, q4_0, QuantConfig, qtype_for}
use unlimitedocr_c.Convert.Types.{TensorPlan, tensor_f16, tensor_q8_0, tensor_q4_0}
use unlimitedocr_c.Convert.Sizes.{q8_total_bytes, q4_total_bytes}
use unlimitedocr_c.Convert.Plan.Candidates.{IsCandidate}
use unlimitedocr_c.Convert.Plan.{
  Qprofile, mixed_q4, mixed_q8_0, fp16, HeaderEntry, Storage, module_qtype,
}

-- How a tensor of the shape is stored, by whether it is quantized and as what: as fp16 with no
-- scales, or as payload and scales that add up to the size of the format.
abbrev pub Stored : Bool → Qtype → List ℕ → ℕ → ℕ → ℕ → Type 0
Stored quantized t shape qtype_id bytes scales =
    ((quantized ≡ false) × (qtype_id ≡ tensor_f16) × (scales ≡ 0))
    ⊎ ((quantized ≡ true)
        × (((t ≡ q8_0) × (qtype_id ≡ tensor_q8_0) × (q8_total_bytes shape 64 ≡ ok (bytes + scales)))
            ⊎ ((t ≡ q4_0)
                × (qtype_id ≡ tensor_q4_0)
                × (q4_total_bytes shape 64 ≡ ok (bytes + scales)))))

abbrev StorageOf : Bool → Qtype → List ℕ → Storage → Type 0
StorageOf b t shape s =
    Stored b t shape s.qtype_id s.output_bytes s.qscale_bytes × (s.output_bytes ≡ s.qweight_bytes)

-- q4_0 is chosen for the profile that has it, where the config asks for it.
pub module_qtype-q4 :
    (p : Qprofile) (t : Option Qtype)
    → (module_qtype p t ≡ q4_0) ↔ ((p ≡ mixed_q4) × (t ≡ some q4_0))
module_qtype-q4 p t = (there p t, λ h. rw (h.0, h.1) refl)
  where
    there :
        (p : Qprofile) (t : Option Qtype)
        → module_qtype p t ≡ q4_0
        → (p ≡ mixed_q4) × (t ≡ some q4_0)
    there mixed_q4 (some q4_0) h = (refl, refl)
    there mixed_q4 (some q8_0) h = absurd (cc)
    there mixed_q4 none h = absurd (cc)
    there fp16 t h = absurd (cc)
    there mixed_q8_0 t h = absurd (cc)

-- How a tensor is stored: as fp16 with no scales, if the profile is fp16 or the tensor is none to be
-- quantized; as q4_0, if the profile has it and the config asks for it; and otherwise as q8_0. The
-- payload and the scales of a quantized one add up to the size of the format.
pub data IsStored (name : Text) (shape : List ℕ) (p : Qprofile) (entry : TensorRegistryEntry)
    (cfg : QuantConfig) (qtype_id bytes scales : ℕ) : Type 0 where
  as_fp16 :
      ((p ≡ fp16) ⊎ (IsCandidate name entry shape cfg → ⊥))
      → qtype_id ≡ tensor_f16
      → scales ≡ 0
      → IsStored name shape p entry cfg qtype_id bytes scales
  as_q8_0 :
      IsCandidate name entry shape cfg
      → p ≢ fp16
      → ((p ≡ mixed_q4) × (qtype_for cfg entry.family entry.projection ≡ some q4_0) → ⊥)
      → qtype_id ≡ tensor_q8_0
      → q8_total_bytes shape 64 ≡ ok (bytes + scales)
      → IsStored name shape p entry cfg qtype_id bytes scales
  as_q4_0 :
      IsCandidate name entry shape cfg
      → p ≡ mixed_q4
      → qtype_for cfg entry.family entry.projection ≡ some q4_0
      → qtype_id ≡ tensor_q4_0
      → q4_total_bytes shape 64 ≡ ok (bytes + scales)
      → IsStored name shape p entry cfg qtype_id bytes scales

-- The plan of a tensor: the registry's id and family, and how it is stored.
pub record IsPlan (name : Text) (e : HeaderEntry) (p : Qprofile) (entry : TensorRegistryEntry)
    (cfg : QuantConfig) (plan : TensorPlan) : Type 0 where
  pub same_id : plan.tensor_id ≡ entry.tensor_id
  pub same_family : plan.family ≡ entry.family
  pub stored : IsStored name e.shape p entry cfg plan.qtype_id plan.output_bytes plan.scale_size
  pub payload : plan.output_bytes ≡ plan.qweight_bytes
  pub scales : plan.scale_size ≡ plan.qscale_bytes
