-- ===== src/Strings/Reverse.antt =====
-- `strrev` of student-distrib/lib.c turns a string around.
use mathlib.Core.List.{reverse, reverse-cons}
use virtual_operating_system.Prelude.{
  ℕ, zero, suc, ◌+◌, ◌-◌, ◌≤◌, ◌<◌, some, List, [], ◌∷◌, ◌++◌, ◌≡◌, refl, ap, ◌∙◌, sym, inl, inr,
  true, false, ltb, leb, ltb→lt, lt→ltb, Bool-cases, get_or, set, length, length-set, length-append,
  get_elem?-eq-get_or, if◌then◌else◌, ◌&&◌, arith,
}
use virtual_operating_system.Prelude.Pointwise.{get_or-set, get_or-append, list_ext}
use virtual_operating_system.Strings.{write?, rev_loop, strrev}
use virtual_operating_system.Strings.Laws.{NoNul, strlen-append}

write?-set : (xs : List ℕ) (i v : ℕ) → i < length xs → write? xs i v ≡ some (set xs i v)
unfolding write?
write?-set xs i v h = rw (lt→ltb i (length xs) h)

-- The entry `k` of a list whose part from `b` to `e` is turned around.
abbrev mirrored : List ℕ → ℕ → ℕ → ℕ → ℕ
mirrored s b e k = if leb b k && leb k e then get_or s (b + e - k) 0 else get_or s k 0

mirrored-swap :
    (s : List ℕ) (b e k : ℕ)
    → b < e
    → e < length s
    → mirrored (set (set s e (get_or s b 0)) b (get_or s e 0)) (b + 1) (e - 1) k ≡ mirrored s b e k
mirrored-swap s b e k lt fits =
    let s1 = set s e (get_or s b 0) in
    let room : b < length s1 = omega (arith, length-set s e (get_or s b 0)) in
    let at = λ (j : ℕ). get_or-set s1 b j (get_or s e 0) 0 room in
    let at1 = λ (j : ℕ). get_or-set s e j (get_or s b 0) 0 fits in
    ground (arith, at k, at1 k, at (b + 1 + (e - 1) - k), at1 (b + 1 + (e - 1) - k))

rev_loop_lem :
    (f : ℕ) (s : List ℕ) (b e : ℕ)
    → e < length s
    → b ≤ e + 1
    → e + 2 ≤ b + f + f
    → (t : List ℕ) × (rev_loop f s b e ≡ some t)
      × (length t ≡ length s)
      × ((k : ℕ) → get_or t k 0 ≡ mirrored s b e k)
unfolding rev_loop
rev_loop_lem zero s b e fits near fuel = absurd (omega arith)
rev_loop_lem (suc f) s b e fits near fuel = elim (Bool-cases (ltb b e)) [
  | inl more ↦
      let lt : b < e = ltb→lt b e more in
      let s1 = set s e (get_or s b 0) in
      let s2 = set s1 b (get_or s e 0) in
      let l1 : length s1 ≡ length s = length-set s e (get_or s b 0) in
      let l2 : length s2 ≡ length s = length-set s1 b (get_or s e 0) ∙ l1 in
      let (t, run, l, p) =
        rev_loop_lem f s2 (b + 1) (e - 1) (omega arith) (omega arith) (omega arith) in
      (
        t,
        rw
            (
              more,
              get_elem?-eq-get_or s e 0 fits,
              get_elem?-eq-get_or s b 0 (omega arith),
              write?-set s e (get_or s b 0) fits,
              write?-set s1 b (get_or s e 0) (omega arith),
            )
            run,
        l ∙ l2,
        λ k. p k ∙ mirrored-swap s b e k lt fits,
      )
  | inr done ↦ (
    s,
    rw done,
    refl,
    λ k. elim (Bool-cases (leb b k && leb k e)) [
      | inl here ↦ let same : b + e - k ≡ k = ground arith in rw (here, same) refl
      | inr away ↦ rw away refl
    ],
  )
]

pub length-reverse : (s : List ℕ) → length (reverse s) ≡ length s
length-reverse [] = refl
length-reverse (c ∷ s) =
    ap length (reverse-cons c s)
    ∙ omega (arith, length-append (reverse s) (c ∷ []), length-reverse s)

get_or-reverse :
    (s : List ℕ) (k : ℕ) → k < length s → get_or (reverse s) k 0 ≡ get_or s (length s - 1 - k) 0
get_or-reverse [] k h = absurd (omega arith)
get_or-reverse (c ∷ s) k h =
    let len = length-reverse s in
    let at = get_or-append (reverse s) (c ∷ []) k 0 in
    ap (λ t. get_or t k 0) (reverse-cons c s) ∙ at ∙ elim (Bool-cases (ltb k (length s))) [
      | inl low ↦
          let e : suc (length s) - 1 - k ≡ suc (length s - 1 - k) = ground arith in
          rw (len, low, e) (get_or-reverse s k (ltb→lt k (length s) low))
      | inr last ↦
          let e : suc (length s) - 1 - k ≡ 0 = ground (arith, h) in
          let f : k - length s ≡ 0 = ground (arith, h) in rw (len, last, e, f) refl
    ]

reversed_at :
    (s rest : List ℕ) (k : ℕ)
    → 0 < length s
    → mirrored (s ++ (0 ∷ rest)) 0 (length s - 1) k ≡ get_or (reverse s ++ (0 ∷ rest)) k 0
reversed_at s rest k some_bytes =
    let a = get_or-append s (0 ∷ rest) in
    let b = get_or-append (reverse s) (0 ∷ rest) k 0 in
    let len = length-reverse s in
    elim (Bool-cases (ltb k (length s))) [
      | inl low ↦
          let lt = ltb→lt k (length s) low in
          let inside : (leb 0 k && leb k (length s - 1)) ≡ true = ground (arith, lt) in
          let back : ltb (0 + (length s - 1) - k) (length s) ≡ true = ground (arith, lt) in
          let e : 0 + (length s - 1) - k ≡ length s - 1 - k = omega arith in
          rw (inside, a (0 + (length s - 1) - k) 0, b, len, back, low, e)
            (sym (get_or-reverse s k lt))
      | inr past ↦
          let outside : (leb 0 k && leb k (length s - 1)) ≡ false = ground (arith, some_bytes) in
          rw (outside, a k 0, b, len, past) refl
    ]

-- `strrev` turns the bytes in front of the NUL around and leaves those behind it alone.
pub strrev_lem :
    (s rest : List ℕ) → NoNul s → strrev (s ++ (0 ∷ rest)) ≡ some (reverse s ++ (0 ∷ rest))
unfolding strrev
strrev_lem [] rest z = refl
strrev_lem (c ∷ s) rest z =
    let n = length (c ∷ s) in
    let all : n < length ((c ∷ s) ++ (0 ∷ rest)) =
      omega (arith, length-append (c ∷ s) (0 ∷ rest)) in
    let (t, run, l, p) =
      rev_loop_lem (n + 1) ((c ∷ s) ++ (0 ∷ rest)) 0 (n - 1) (omega arith) (omega arith)
        (omega arith) in
    let same : t ≡ reverse (c ∷ s) ++ (0 ∷ rest) =
      list_ext t (reverse (c ∷ s) ++ (0 ∷ rest)) 0
        (l
          ∙ length-append (c ∷ s) (0 ∷ rest)
          ∙ omega (arith, length-reverse (c ∷ s), length-append (reverse (c ∷ s)) (0 ∷ rest)))
        (λ k. p k ∙ reversed_at (c ∷ s) rest k (omega arith)) in
    rw (strlen-append (c ∷ s) rest z) (run ∙ ap some same)
