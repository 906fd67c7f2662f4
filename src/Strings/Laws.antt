-- ===== src/Strings/Laws.antt =====
-- What the string functions of student-distrib/lib.c compute.
use mathlib.Core.Path.{ap₂}
use mathlib.Core.List.{append_assoc}
use virtual_operating_system.Prelude.{
  ℕ, zero, suc, ◌≤◌, ◌<◌, ℤ, pos, Option, none, some, List, [], ◌∷◌, ◌++◌, ◌≡◌, ◌≢◌, ◌↔◌, ◌⊎◌, inl,
  inr, refl, ap, sym, ◌∙◌, length-set, >>=-eq-some, some_eq, take, drop, replicate, set, length,
  length-append, ltb, ◌==◌, lt→ltb, Bool-cases, ==_iff, false, if◌then◌else◌, arith,
}
use virtual_operating_system.Strings.{
  write?, strlen, strncmp, diff8, pad_from, strncpy_from, strncpy, strcpy_from, strcpy,
}

abbrev pub NoNul : List ℕ → Type 0
NoNul [] = Unit {0}
NoNul (c ∷ s) = (c ≢ 0) × NoNul s

-- `strlen` returns the number of bytes in front of the first NUL.
pub strlen-append : (s rest : List ℕ) → NoNul s → strlen (s ++ (0 ∷ rest)) ≡ some (length s)
unfolding strlen
strlen-append [] rest h = refl
strlen-append (c ∷ s) rest h =
    let off : (c == 0) ≡ false = ground (arith, h.0) in rw (off, strlen-append s rest h.1)

-- A write at the seam of two parts replaces the first byte of the second.
pub write?-append :
    (a b : List ℕ) (x v : ℕ) → write? (a ++ (x ∷ b)) (length a) v ≡ some (a ++ (v ∷ b))
unfolding write?
write?-append a b x v =
    rw (lt→ltb (length a) (length (a ++ (x ∷ b))) (omega (arith, length-append a (x ∷ b))))
      (ap some (go a))
  where
    go : (a : List ℕ) → set (a ++ (x ∷ b)) (length a) v ≡ a ++ (v ∷ b)
    go [] = refl
    go (y ∷ a) = ap (◌∷◌ y) (go a)

pub length-snoc : (a : List ℕ) (v : ℕ) → length (a ++ (v ∷ [])) ≡ suc (length a)
length-snoc a v = omega (arith, length-append a (v ∷ []))

pad_from_lem :
    (m : ℕ) (a d : List ℕ)
    → m ≤ length d
    → pad_from (a ++ d) m (length a) ≡ some (a ++ (replicate m 0 ++ drop m d))
unfolding pad_from
pad_from_lem zero a d h = refl
pad_from_lem (suc m) a [] h = absurd (omega arith)
pad_from_lem (suc m) a (x ∷ d) h =
    let ih = pad_from_lem m (a ++ (0 ∷ [])) d (omega arith) in
    rw (write?-append a d x 0) (rw (length-snoc, append_assoc, append_assoc) at ih)

-- The `m` bytes that a copy of at most `m` bytes writes: the string, then NULs.
abbrev pub padded : ℕ → List ℕ → List ℕ
padded zero src = []
padded (suc m) [] = replicate (suc m) 0
padded (suc m) (c ∷ src) = if c == 0 then replicate (suc m) 0 else c ∷ padded m src

-- The object holds a NUL or more than `m` bytes, so that `src[m]` is the last byte read.
abbrev pub Readable : ℕ → List ℕ → Type 0
Readable m [] = ⊥
Readable zero (c ∷ src) = Unit {0}
Readable (suc m) (c ∷ src) = (c ≡ 0) ⊎ Readable m src

strncpy_from_lem :
    (m : ℕ) (src a d : List ℕ)
    → Readable m src
    → m ≤ length d
    → strncpy_from (a ++ d) src m (length a) ≡ some (a ++ (padded m src ++ drop m d))
unfolding strncpy_from
strncpy_from_lem m [] a d r h = elim r [ ]
strncpy_from_lem zero (c ∷ src) a d r h = refl
strncpy_from_lem (suc m) (c ∷ src) a [] r h = absurd (omega arith)
strncpy_from_lem (suc m) (c ∷ src) a (x ∷ d) r h = elim (Bool-cases (c == 0)) [
  | inl e ↦ rw e (pad_from_lem (suc m) a (x ∷ d) h)
  | inr ne ↦
      let more : Readable m src = elim r [ inl z ↦ absurd (ground arith) | inr more ↦ more ] in
      let ih = strncpy_from_lem m src (a ++ (c ∷ [])) d more (omega arith) in
      rw (ne, write?-append a d x c) (rw (length-snoc, append_assoc, append_assoc) at ih)
]

-- `strncpy` writes `n` bytes, those of the string and then NULs, and leaves the rest of the
-- destination alone. It needs a source with a NUL or more than `n` bytes, since it reads `src[n]`.
pub strncpy_lem :
    (dest src : List ℕ) (n : ℕ)
    → Readable n src
    → n ≤ length dest
    → strncpy dest src n ≡ some (padded n src ++ drop n dest)
unfolding strncpy
strncpy_lem dest src n r h = strncpy_from_lem n src [] dest r h

pub strcpy_from_lem :
    (s rest a d : List ℕ)
    → NoNul s
    → length s < length d
    → strcpy_from (a ++ d) (s ++ (0 ∷ rest)) (length a)
      ≡ some (a ++ (s ++ (0 ∷ drop (suc (length s)) d)))
unfolding strcpy_from
strcpy_from_lem [] rest a [] z h = absurd (omega arith)
strcpy_from_lem [] rest a (x ∷ d) z h = write?-append a d x 0
strcpy_from_lem (c ∷ s) rest a [] z h = absurd (omega arith)
strcpy_from_lem (c ∷ s) rest a (x ∷ d) z h =
    let ne : (c == 0) ≡ false = ground (arith, z.0) in
    let ih = strcpy_from_lem s rest (a ++ (c ∷ [])) d z.1 (omega arith) in
    rw (ne, write?-append a d x c) (rw (length-snoc, append_assoc, append_assoc) at ih)

-- `strcpy` writes the string and one NUL, and leaves the rest of the destination alone.
pub strcpy_lem :
    (dest s rest : List ℕ)
    → NoNul s
    → length s < length dest
    → strcpy dest (s ++ (0 ∷ rest)) ≡ some (s ++ (0 ∷ drop (suc (length s)) dest))
unfolding strcpy
strcpy_lem dest s rest z h = strcpy_from_lem s rest [] dest z h

diff8-zero : (a b : ℕ) → a < 256 → b < 256 → diff8 a b ≡ pos 0 → a ≡ b
diff8-zero a b ha hb e = ground arith

abbrev pub Bytes : List ℕ → Type 0
Bytes [] = Unit {0}
Bytes (c ∷ s) = (c < 256) × Bytes s

pub cons_head : {x y : ℕ} {a b : List ℕ} → x ∷ a ≡ y ∷ b → x ≡ y
cons_head h = cc

pub cons_tail : {x y : ℕ} {a b : List ℕ} → x ∷ a ≡ y ∷ b → a ≡ b
cons_tail h = cc

pub ne_of_test : {x y : ℕ} → (x == y) ≡ false → x ≢ y
ne_of_test h e = ground arith

-- Of strings without a NUL `strncmp` tells whether their first `n` bytes agree.
pub strncmp-eq-zero :
    (n : ℕ) (a b : List ℕ)
    → NoNul (take n a)
    → Bytes a
    → Bytes b
    → n ≤ length a
    → n ≤ length b
    → (z : ℤ) × (strncmp a b n ≡ some z) × ((z ≡ pos 0) ↔ (take n a ≡ take n b))
unfolding strncmp
strncmp-eq-zero zero a b z ba bb ha hb = (pos 0, refl, (λ _. refl, λ _. refl))
strncmp-eq-zero (suc n) [] b z ba bb ha hb = absurd (omega arith)
strncmp-eq-zero (suc n) (x ∷ a) [] z ba bb ha hb = absurd (omega arith)
strncmp-eq-zero (suc n) (x ∷ a) (y ∷ b) z ba bb ha hb = elim (Bool-cases (x == y)) [
  | inl e ↦
      let same : x ≡ y = (==_iff x y).0 e in
      let off : (x == 0) ≡ false = ground (arith, z.0) in
      let (v, p, q) = strncmp-eq-zero n a b z.1 ba.1 bb.1 (omega arith) (omega arith) in
      (v, rw (e, off) p, (λ h. ap₂ ◌∷◌ same (q.0 h), λ h. q.1 (cons_tail h)))
  | inr ne ↦ (
    diff8 x y,
    rw ne,
    (
      λ h. absurd (ne_of_test ne (diff8-zero x y ba.0 bb.0 h)),
      λ h. absurd (ne_of_test ne (cons_head h)),
    ),
  )
]

write?-length : (b : List ℕ) (i v : ℕ) (b' : List ℕ) → write? b i v ≡ some b' → length b' ≡ length b
unfolding write?
write?-length b i v b' h = elim (Bool-cases (ltb i (length b))) [
  | inl fits ↦ ap length (sym (some_eq (rw fits at h))) ∙ length-set b i v
  | inr out ↦ absurd (none_ne (rw out at h))
]
  where
    none_ne : {k : List ℕ} → ◌≡◌ {A = Option (List ℕ)} none (some k) → ⊥
    none_ne q = cc

pad_from-length : (m i : ℕ) (b b' : List ℕ) → pad_from b m i ≡ some b' → length b' ≡ length b
unfolding pad_from
pad_from-length zero i b b' h = ap length (sym (some_eq h))
pad_from-length (suc m) i b b' h =
    let (d, w, q) = >>=-eq-some (write? b i 0) (λ d. pad_from d m (suc i)) h in
    pad_from-length m (suc i) d b' q ∙ write?-length b i 0 d w

strncpy_from-length :
    (src : List ℕ) (m i : ℕ) (b b' : List ℕ)
    → strncpy_from b src m i ≡ some b'
    → length b' ≡ length b
unfolding strncpy_from
strncpy_from-length [] m i b b' h = absurd (cc)
strncpy_from-length (c ∷ src) zero i b b' h = ap length (sym (some_eq h))
strncpy_from-length (c ∷ src) (suc m) i b b' h = elim (Bool-cases (c == 0)) [
  | inl nul ↦ pad_from-length (suc m) i b b' (rw nul at h)
  | inr more ↦
      let (d, w, q) =
        >>=-eq-some (write? b i c) (λ d. strncpy_from d src m (suc i)) (rw more at h) in
      strncpy_from-length src m (suc i) d b' q ∙ write?-length b i c d w
]

-- A copy keeps the size of the destination.
pub strncpy-length :
    (dest src : List ℕ) (n : ℕ) (b : List ℕ) → strncpy dest src n ≡ some b → length b ≡ length dest
unfolding strncpy
strncpy-length dest src n b h = strncpy_from-length src n 0 dest b h
