-- ===== src/Convert/Files.antt =====
-- A file opened with `open(…, "w+b")`, as far as src/unlimitedocr_c/convert.py uses one: `seek` and `write`,
-- `seek` and `read`, and `truncate`. Bytes that were never written are 0.
use mathlib.Core.Path.{subst, sym}
use unlimitedocr_c.Prelude.{
  ℕ, zero, suc, ◌+◌, ◌-◌, ◌≤◌, ◌<◌, ◌≡◌, ◌⊎◌, inl, inr, refl, ap, ◌∙◌, true, false, List, [], ◌∷◌,
  ◌++◌, length, length-append, Bool-cases, leb, ltb, if◌then◌else◌, arith, ◌&&◌,
}

pub record File : Type 0 where
  pub size : ℕ
  pub byte : ℕ → ℕ

abbrev pub empty : File
empty = record { size = 0; byte = λ i. 0 }

abbrev pub nth : List ℕ → ℕ → ℕ
nth [] i = 0
nth (b ∷ bs) zero = b
nth (b ∷ bs) (suc i) = nth bs i

unfoldable pub write_at : ℕ → List ℕ → File → File
write_at offset bytes f = record {
  size = if ltb f.size (offset + length bytes) then offset + length bytes else f.size;
  byte = λ i.
      if leb offset i && ltb i (offset + length bytes) then nth bytes (i - offset) else f.byte i;
}

unfoldable pub truncate : ℕ → File → File
truncate size f = record { size = size; byte = λ i. if ltb i f.size then f.byte i else 0 }

-- At most `n` bytes from `offset` on.
unfoldable pub read_at : File → ℕ → ℕ → List ℕ
read_at f offset zero = []
read_at f offset (suc n) =
    if ltb offset f.size then f.byte offset ∷ read_at f (suc offset) n else []

-- `bytes` stand at `offset` in the file.
pub record Holds (f : File) (offset : ℕ) (bytes : List ℕ) : Type 0 where
  pub inside : 1 ≤ length bytes → offset + length bytes ≤ f.size
  pub same : (i : ℕ) → i < length bytes → f.byte (offset + i) ≡ nth bytes i

nth-left : (xs ys : List ℕ) (i : ℕ) → i < length xs → nth (xs ++ ys) i ≡ nth xs i
nth-left [] ys i h = absurd (omega arith)
nth-left (x ∷ xs) ys zero h = refl
nth-left (x ∷ xs) ys (suc i) h = nth-left xs ys i (omega arith)

nth-right : (xs ys : List ℕ) (i : ℕ) → nth (xs ++ ys) (length xs + i) ≡ nth ys i
nth-right [] ys i = let e : 0 + i ≡ i = omega arith in ap (nth ys) e
nth-right (x ∷ xs) ys i =
    let e : suc (length xs) + i ≡ suc (length xs + i) = omega arith in
    ap (nth (x ∷ (xs ++ ys))) e ∙ nth-right xs ys i

-- The parts of what stands there.
pub Holds-append :
    (f : File) (offset : ℕ) (front back : List ℕ)
    → Holds f offset (front ++ back)
    → Holds f offset front × Holds f (offset + length front) back
Holds-append f offset front back h =
    let total = length-append front back in
    (
      record {
        inside = λ k. let size = h.inside (omega arith) in omega arith;
        same = λ i k. h.same i (omega arith) ∙ nth-left front back i k;
      },
      record {
        inside = λ k. let size = h.inside (omega arith) in omega arith;
        same = λ i k.
            ap f.byte (omega arith)
            ∙ (h.same (length front + i) (omega arith) ∙ nth-right front back i);
      },
    )

-- Reading gives what stands there.
pub Holds-read_at :
    (f : File) (offset : ℕ) (bytes : List ℕ)
    → Holds f offset bytes
    → read_at f offset (length bytes) ≡ bytes
unfolding read_at
Holds-read_at f offset [] h = refl
Holds-read_at f offset (b ∷ bytes) h =
    let size = h.inside (omega arith) in
    let inside : ltb offset f.size ≡ true = ground arith in
    let first : f.byte offset ≡ b = ap f.byte (omega arith) ∙ h.same 0 (omega arith) in
    let later : Holds f (suc offset) bytes = record {
      inside = λ k. omega arith;
      same = λ i k. ap f.byte (omega arith) ∙ h.same (suc i) (omega arith);
    } in
    rw (inside, first, Holds-read_at f (suc offset) bytes later)

-- What has just been written stands there.
pub written :
    (f : File) (offset : ℕ) (bytes : List ℕ) → Holds (write_at offset bytes f) offset bytes
unfolding write_at
written f offset bytes = record {
  inside = λ k. ground arith;
  same = λ i k.
      let here : (leb offset (offset + i) && ltb (offset + i) (offset + length bytes)) ≡ true =
        ground arith in
      rw here (ap (nth bytes) (omega arith));
}

-- A write elsewhere leaves it.
pub kept :
    (f : File) (offset : ℕ) (bytes : List ℕ) (other : ℕ) (written : List ℕ)
    → Holds f offset bytes
    → (offset + length bytes ≤ other) ⊎ (other + length written ≤ offset)
    → Holds (write_at other written f) offset bytes
unfolding write_at
kept f offset bytes other written h apart = record {
  inside = λ k. let size = h.inside k in ground arith;
  same = λ i k.
      let outside : (leb other (offset + i) && ltb (offset + i) (other + length written)) ≡ false =
        elim apart [ inl l ↦ ground arith | inr l ↦ ground arith ] in
      rw outside (h.same i k);
}

-- So does cutting the file off behind it, or filling it up.
pub kept_cut :
    (f : File) (offset : ℕ) (bytes : List ℕ) (size : ℕ)
    → Holds f offset bytes
    → offset + length bytes ≤ size
    → Holds (truncate size f) offset bytes
unfolding truncate
kept_cut f offset bytes size h fits = record {
  inside = λ k. fits;
  same = λ i k.
      let end = h.inside in
      let there : ltb (offset + i) f.size ≡ true = ground arith in rw there (h.same i k);
}

-- What stands side by side stands as a whole.
pub Holds-join :
    (f : File) (offset : ℕ) (front back : List ℕ)
    → Holds f offset front
    → Holds f (offset + length front) back
    → Holds f offset (front ++ back)
Holds-join f offset front back h k =
    let total = length-append front back in
    record {
      inside = λ l. elim (Bool-cases (ltb 0 (length back))) [
        | inl e ↦ let end = k.inside (ground arith) in omega arith
        | inr e ↦
            let none_behind : length back ≡ 0 = ground arith in
            let end = h.inside (omega arith) in omega arith
      ];
      same = λ i l. elim (Bool-cases (ltb i (length front))) [
        | inl e ↦
            let early : i < length front = ground arith in
            h.same i early ∙ sym (nth-left front back i early)
        | inr e ↦
            let j : ℕ = i - length front in
            let late : i ≡ length front + j = ground arith in
            let there : offset + i ≡ offset + length front + j = omega arith in
            ap f.byte there
            ∙ (k.same j (omega arith)
                ∙ (sym (nth-right front back j) ∙ ap (nth (front ++ back)) (sym late)))
      ];
    }

-- A write behind what stands there makes it longer.
pub extended :
    (f : File) (offset : ℕ) (done bytes : List ℕ) (at : ℕ)
    → Holds f offset done
    → at ≡ offset + length done
    → Holds (write_at at bytes f) offset (done ++ bytes)
extended f offset done bytes at h e =
    Holds-join (write_at at bytes f) offset done bytes
      (kept f offset done at bytes h (inl (omega arith)))
      (subst (λ n. Holds (write_at at bytes f) n bytes) e (written f at bytes))
