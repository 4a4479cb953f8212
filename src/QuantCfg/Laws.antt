-- ===== src/QuantCfg/Laws.antt =====
-- What a config that src/unlimitedocr_c/quant_cfg.py has accepted guarantees.
use mathlib.Core.Path.{subst}
use unlimitedocr_c.Prelude.{
  ◌≡◌, ◌≢◌, refl, sym, ◌∙◌, ap, Bool, true, false, not, ◌&&◌, ◌||◌, List, [], ◌∷◌, ◌++◌, Option,
  none, some, Text, codes, text_eq, text_eq_refl, if◌then◌else◌, Result, ok, Error, value_error,
  raise_if, arith, Bool-cases, inl, inr, All, Pairwise, Pairwise-append, All-append, All-weaken,
  >>=-eq-ok, ok-injective, ◌⊎◌,
}
use unlimitedocr_c.Prelude.Int.{ℤ, pos, negsuc, ◌==ℤ◌}
use unlimitedocr_c.Registry.Types.{TensorFamily, TensorProjection, same_family, same_projection}
use unlimitedocr_c.QuantCfg.Yaml.{Yaml, Items, Fields, dict, nil, cons, Builtins, get}
use unlimitedocr_c.QuantCfg.Types.{
  Qtype, q4_0, QuantModuleSpec, QuantConfig, Pairs, pair_qtype, q4_allowed, contains, qtype_for,
}
use unlimitedocr_c.QuantCfg.Parse.{
  add_pairs, parse_module, add_module, add_modules, parse_fields, parse_config, State, text_in,
  is_q4, non_empty_list,
}

-- Whether module `m` declares the pair as supported.
abbrev pub declares : TensorFamily → TensorProjection → QuantModuleSpec → Bool
declares f p m = m.supported && (same_family f m.family && contains p m.projections)

-- The qtype that the modules themselves give to a pair: that of the first that declares it.
abbrev pub declared : TensorFamily → TensorProjection → List QuantModuleSpec → Option Qtype
declared f p [] = none
declared f p (m ∷ ms) = if declares f p m then some m.qtype else declared f p ms

declared-append :
    (f : TensorFamily) (p : TensorProjection) (ms : List QuantModuleSpec) (m : QuantModuleSpec)
    → declared f p (ms ++ m ∷ []) ≡ elim (declared f p ms) [
      | some t ↦ some t
      | none ↦ if declares f p m then some m.qtype else none
    ]
declared-append f p [] m = ground arith
declared-append f p (x ∷ ms) m = ground (arith, declared-append f p ms m)

-- A pair that the modules leave free is declared by none of them.
declared-none :
    (f : TensorFamily) (p : TensorProjection) (ms : List QuantModuleSpec)
    → declared f p ms ≡ none
    → All (λ m. declares f p m ≡ false) ms
declared-none f p [] h = tt
declared-none f p (m ∷ ms) h =
    let free : (declares f p m ≡ false) × (declared f p ms ≡ none) = ground arith in
    (free.0, declared-none f p ms free.1)

-- Pairs are compared by the ids of their members.
pair_qtype-same :
    (f g : TensorFamily) (p r : TensorProjection) (s : Pairs)
    → same_family f g ≡ true
    → same_projection p r ≡ true
    → pair_qtype f p s ≡ pair_qtype g r s
pair_qtype-same f g p r [] a b = refl
pair_qtype-same f g p r (((h, t), x) ∷ s) a b = ground (arith, pair_qtype-same f g p r s a b)

add_pairs-cons :
    (family : TensorFamily) (qtype : Qtype) (r : TensorProjection) (ps : List TensorProjection)
    (s : Pairs) {s' : Pairs}
    → add_pairs family qtype (r ∷ ps) s ≡ ok s'
    → (pair_qtype family r s ≡ none)
      × (add_pairs family qtype ps (((family, r), qtype) ∷ s) ≡ ok s')
unfolding add_pairs
add_pairs-cons family qtype r ps s h = ground arith

add_pairs-pair_qtype :
    (f : TensorFamily) (p : TensorProjection) (family : TensorFamily) (qtype : Qtype)
    (ps : List TensorProjection) (s : Pairs) {s' : Pairs}
    → add_pairs family qtype ps s ≡ ok s'
    → pair_qtype f p s'
      ≡ (if same_family f family && contains p ps then some qtype else pair_qtype f p s)
add_pairs-pair_qtype f p family qtype [] s {s'} h =
    let same : s ≡ s' = unfold add_pairs in ground arith in rw (← same) (ground arith)
add_pairs-pair_qtype f p family qtype (r ∷ ps) s h =
    let (free, later) = add_pairs-cons family qtype r ps s h in
    ground (arith, add_pairs-pair_qtype f p family qtype ps (((family, r), qtype) ∷ s) later)

-- A pair that a module adds was not there before.
add_pairs_fresh :
    (f : TensorFamily) (p : TensorProjection) (family : TensorFamily) (qtype : Qtype)
    (ps : List TensorProjection) (s : Pairs) {s' : Pairs}
    → add_pairs family qtype ps s ≡ ok s'
    → (same_family f family && contains p ps) ≡ true
    → pair_qtype f p s ≡ none
add_pairs_fresh f p family qtype [] s h c = ground arith
add_pairs_fresh f p family qtype (r ∷ ps) s h c =
    let (free, later) = add_pairs-cons family qtype r ps s h in
    ground (
      arith,
      pair_qtype-same f family p r s,
      add_pairs_fresh f p family qtype ps (((family, r), qtype) ∷ s) later,
    )

-- No pair is declared as supported by both.
abbrev pub Apart : QuantModuleSpec → QuantModuleSpec → Type 0
Apart a b =
    (f : TensorFamily) (p : TensorProjection) → declares f p b ≡ true → declares f p a ≡ false

abbrev pub OtherName : QuantModuleSpec → QuantModuleSpec → Type 0
OtherName a b = a.name ≢ b.name

-- A named module that requests q4_0 only for a family that has the kernels.
abbrev pub IsSound : QuantModuleSpec → Type 0
IsSound m = (m.name ≢ []) × (m.qtype ≡ q4_0 → q4_allowed m.family ≡ true)

-- The invariant of the loop over the modules.
record IsState (s : State) : Type 0 where
  agrees :
      (f : TensorFamily) (p : TensorProjection) → pair_qtype f p s.supported ≡ declared f p s.parsed
  sound : All IsSound s.parsed
  seen : All (λ m. text_in m.name s.seen_names ≡ true) s.parsed
  names : Pairwise OtherName s.parsed
  apart : Pairwise Apart s.parsed

IsState-start : IsState (record { parsed = []; supported = []; seen_names = [] })
IsState-start = record { agrees = λ f p. refl; sound = tt; seen = tt; names = tt; apart = tt }

-- The pairs that one module adds, if it is supported at all.
abbrev module_pairs : QuantModuleSpec → Pairs → Result Error Pairs
module_pairs m s = if m.supported then add_pairs m.family m.qtype m.projections s else ok s

module_pairs-pair_qtype :
    (m : QuantModuleSpec) (s : Pairs) {s' : Pairs} (f : TensorFamily) (p : TensorProjection)
    → module_pairs m s ≡ ok s'
    → (pair_qtype f p s' ≡ (if declares f p m then some m.qtype else pair_qtype f p s))
      × (declares f p m ≡ true → pair_qtype f p s ≡ none)
module_pairs-pair_qtype m s {s'} f p h = elim (Bool-cases m.supported) [
  | inl on ↦
      let h' : add_pairs m.family m.qtype m.projections s ≡ ok s' = rw on at h in
      (
        rw on (add_pairs-pair_qtype f p m.family m.qtype m.projections s h'),
        rw on (add_pairs_fresh f p m.family m.qtype m.projections s h'),
      )
  | inr off ↦ let h' : ok s ≡ ok s' = rw off at h in (rw off (ground arith), λ d. ground arith)
]

-- The state after module `m` has been taken in.
after : QuantModuleSpec → Pairs → State → State
after m supported s = record {
  parsed = s.parsed ++ m ∷ [];
  supported = supported;
  seen_names = m.name ∷ s.seen_names;
}

after-IsState :
    (m : QuantModuleSpec) (s : State) {supported : Pairs}
    → IsState s
    → IsSound m
    → text_in m.name s.seen_names ≡ false
    → module_pairs m s.supported ≡ ok supported
    → IsState (after m supported s)
unfolding after
after-IsState m s {supported} v sound new h = record {
  agrees = λ f p. ground (
    arith,
    v.agrees f p,
    declared-append f p s.parsed m,
    (module_pairs-pair_qtype m s.supported f p h).0,
    (module_pairs-pair_qtype m s.supported f p h).1,
  );
  sound = All-append IsSound s.parsed _ v.sound (sound, tt);
  seen =
      All-append _ s.parsed _ (All-weaken _ _ s.parsed still v.seen)
        (rw text_eq_refl (ground arith), tt);
  names =
      Pairwise-append OtherName s.parsed _ v.names (tt, tt)
        (All-weaken _ _ s.parsed (λ x k. (λ e. clash x e k, tt)) v.seen);
  apart = Pairwise-append Apart s.parsed _ v.apart (tt, tt) (others s.parsed keep);
}
  where
    still :
        (x : QuantModuleSpec)
        → text_in x.name s.seen_names ≡ true
        → text_in x.name (m.name ∷ s.seen_names) ≡ true
    still x k = ground arith

    clash : (x : QuantModuleSpec) → x.name ≡ m.name → text_in x.name s.seen_names ≡ true → ⊥
    clash x e k = cc (new, rw e at k)

    keep :
        (f : TensorFamily) (p : TensorProjection)
        → declares f p m ≡ true
        → All (λ x. declares f p x ≡ false) s.parsed
    keep f p d =
        declared-none f p s.parsed
          (sym (v.agrees f p) ∙ (module_pairs-pair_qtype m s.supported f p h).1 d)

    others :
        (xs : List QuantModuleSpec)
        → ((f : TensorFamily) (p : TensorProjection)
            → declares f p m ≡ true
            → All (λ x. declares f p x ≡ false) xs)
        → All (λ x. All (Apart x) (m ∷ [])) xs
    others = elim [
      | [] ↦ λ k. tt
      | x ∷ (xs → ih) ↦ λ k. ((λ f p d. (k f p d).0, tt), ih (λ f p d. (k f p d).1))
    ]

module _ (py : Builtins) where
  -- What the checks on one module establish.
  pub record IsModule (version : ℤ) (seen : List Text) (m : QuantModuleSpec) : Type 0 where
    pub named : text_eq m.name [] ≡ false
    pub new_name : text_in m.name seen ≡ false
    pub q4_family : (is_q4 m.qtype && not (q4_allowed m.family)) ≡ false

  parse_module-IsModule :
      (version : ℤ) (seen : List Text) (item : Fields) {m : QuantModuleSpec}
      → parse_module py version seen item ≡ ok m
      → IsModule version seen m
  parse_module-IsModule version seen item h = unfold parse_module in ground arith

  IsModule-IsSound :
      (version : ℤ) (seen : List Text) (m : QuantModuleSpec) → IsModule version seen m → IsSound m
  IsModule-IsSound version seen m v =
      (λ e. cc (v.named, ap (λ n. text_eq n []) e), λ e. ground (arith, v.q4_family))

  add_module-IsState :
      (version : ℤ) (s : State) (x : Yaml) {s' : State}
      → add_module py version s x ≡ ok s'
      → IsState s
      → IsState s'
  unfolding add_module after
  add_module-IsState version s (dict item) {s'} h v =
      let (m, parsed, h') = >>=-eq-ok (parse_module py version s.seen_names item) _ h in
      let (supported, added, e) = >>=-eq-ok (module_pairs m s.supported) _ h' in
      let good = parse_module-IsModule version s.seen_names item parsed in
      rw (← ok-injective e)
        (after-IsState m s v (IsModule-IsSound version s.seen_names m good) good.new_name added)
  add_module-IsState version s _ h v = absurd (cc)

  add_modules-IsState :
      (version : ℤ) (s : State) (xs : Items) {s' : State}
      → add_modules py version s xs ≡ ok s'
      → IsState s
      → IsState s'
  unfolding add_modules
  add_modules-IsState version s nil h v = rw (← ok-injective h) v
  add_modules-IsState version s (cons x xs) h v =
      let (t, step, later) = >>=-eq-ok (add_module py version s x) _ h in
      add_modules-IsState version t xs later (add_module-IsState version s x step v)

-- A config whose dictionary of supported pairs says just what its modules say.
pub record IsConfig (cfg : QuantConfig) : Type 0 where
  pub version_known : (cfg.version ≡ pos 1) ⊎ (cfg.version ≡ pos 2)
  pub agrees :
      (f : TensorFamily) (p : TensorProjection) → qtype_for cfg f p ≡ declared f p cfg.modules
  pub sound : All IsSound cfg.modules
  pub names : Pairwise OtherName cfg.modules
  pub apart : Pairwise Apart cfg.modules

-- From the loop's last state.
IsState-IsConfig :
    (version group : ℤ) (s : State)
    → (version ==ℤ pos 1 || version ==ℤ pos 2) ≡ true
    → IsState s
    → IsConfig (record {
      version = version;
      group_size = group;
      modules = s.parsed;
      supported_pairs = s.supported;
    })
unfolding qtype_for
IsState-IsConfig version group s h v = record {
  version_known = known version h;
  agrees = v.agrees;
  sound = v.sound;
  names = v.names;
  apart = v.apart;
}
  where
    known : (z : ℤ) → (z ==ℤ pos 1 || z ==ℤ pos 2) ≡ true → (z ≡ pos 1) ⊎ (z ≡ pos 2)
    known (pos n) h = ground arith
    known (negsuc n) h = absurd (cc)

raise_if-ok : (b : Bool) → raise_if (not b) value_error ≡ ok tt → b ≡ true
raise_if-ok true h = refl
raise_if-ok false h = cc

-- Whatever `_parse_config` accepts has version 1 or 2, modules with distinct and non-empty names,
-- q4_0 only for the families that have its kernels, and no pair that two modules support; the
-- qtype found for a pair is that of the module which declares it as supported, and none if no
-- module does.
pub parse_config-IsConfig :
    (py : Builtins) (raw : Yaml) (cfg : QuantConfig) → parse_config py raw ≡ ok cfg → IsConfig cfg
unfolding parse_config parse_fields
parse_config-IsConfig py (dict raw) cfg h =
    let (version, v, h1) = >>=-eq-ok (py.int_of _) _ h in
    let (u, known, h2) = >>=-eq-ok (raise_if _ value_error) _ h1 in
    let (group, g, h3) = >>=-eq-ok (py.int_of _) _ h2 in
    let (items, i, h4) = >>=-eq-ok (non_empty_list (get (codes "modules") raw)) _ h3 in
    let (s, loop, h5) = >>=-eq-ok (add_modules py version _ items) _ h4 in
    subst IsConfig (ok-injective h5) (
      IsState-IsConfig version group s (raise_if-ok _ known)
        (add_modules-IsState py version _ items loop IsState-start))
parse_config-IsConfig py _ cfg h = absurd (cc)
