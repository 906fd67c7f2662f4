-- ===== src/Strings/Numbers/Digits.antt =====
-- The loop of `itoa` of student-distrib/lib.c writes the digits of the value, the least significant
-- first.
use mathlib.Core.List.{append_assoc}
use native.Mathlib.Nat.{
  mod-add-div, mod-lt, div-lt_iff_lt-mul, mul-le-mul_left, pow-suc, pow-zero, div-mul-le_self,
  mul-le-mul_right,
}
use virtual_operating_system.Prelude.{
  ℕ, zero, suc, ◌+◌, ◌-◌, ◌*◌, ◌/◌, ◌%◌, ◌^◌, ◌≤◌, ◌<◌, Option, some, List, [], ◌∷◌, ◌++◌, ◌≡◌, ◌≢◌,
  refl, ◌∙◌, inl, inr, true, false, ltb, ◌==◌, ==_iff, Bool-cases, get_elem?, drop, length,
  if◌then◌else◌, ◌&&◌, Bool, arith, leb, take, sym,
}
use virtual_operating_system.Strings.{write?}
use virtual_operating_system.Strings.Laws.{write?-append, length-snoc}
use virtual_operating_system.Strings.Numbers.{lookup, itoa_loop}

abbrev pub digit_value : ℕ → ℕ
digit_value c = if ltb c 58 then c - 48 else c - 55

-- The value of a numeral, read from its most significant digit on.
abbrev pub number_from : ℕ → ℕ → List ℕ → ℕ
number_from radix n [] = n
number_from radix n (c ∷ s) = number_from radix (n * radix + digit_value c) s

abbrev pub number : ℕ → List ℕ → ℕ
number radix s = number_from radix 0 s

-- The same, read from the least significant digit on.
abbrev pub low_number : ℕ → List ℕ → ℕ
low_number radix [] = 0
low_number radix (c ∷ s) = digit_value c + radix * low_number radix s

abbrev pub Digits : ℕ → List ℕ → Type 0
Digits radix [] = Unit {0}
Digits radix (c ∷ s) = ((48 ≤ c) × (digit_value c < radix)) × Digits radix s

-- Every byte of a table from `i` on is the digit of its index.
abbrev digits_in_order : ℕ → List ℕ → Bool
digits_in_order i [] = true
digits_in_order i (c ∷ cs) = (digit_value c == i && leb 48 c) && digits_in_order (suc i) cs

ordered_digit :
    (cs : List ℕ) (i k : ℕ)
    → digits_in_order i cs ≡ true
    → k < length cs
    → (c : ℕ) × (get_elem? cs k ≡ some c) × (digit_value c ≡ i + k) × (48 ≤ c)
ordered_digit [] i k h lt = absurd (omega arith)
ordered_digit (c ∷ cs) i zero h lt = (c, refl, ground (arith, h), ground (arith, h))
ordered_digit (c ∷ cs) i (suc k) h lt =
    let rest : digits_in_order (suc i) cs ≡ true = ground (arith, h) in
    let (d, at, value, nul) = ordered_digit cs (suc i) k rest (omega arith) in
    (d, at, omega (arith, value), nul)

get_elem?-take : (xs : List ℕ) (n i : ℕ) → i < n → get_elem? (take n xs) i ≡ get_elem? xs i
get_elem?-take xs zero i h = absurd (omega arith)
get_elem?-take [] (suc n) i h = refl
get_elem?-take (x ∷ xs) (suc n) zero h = refl
get_elem?-take (x ∷ xs) (suc n) (suc i) h = get_elem?-take xs n i (omega arith)

-- Behind the digits is the NUL of the string.
lookup_digit :
    (i : ℕ) → i < 36 → (c : ℕ) × (get_elem? lookup i ≡ some c) × (digit_value c ≡ i) × (48 ≤ c)
lookup_digit i h =
    let (c, at, value, nul) = ordered_digit (take 36 lookup) 0 i refl h in
    (c, sym (get_elem?-take lookup 36 i h) ∙ at, omega (arith, value), nul)

div_lt : (v r n : ℕ) → 2 ≤ r → v < 2 ^ suc n → v / r < 2 ^ n
div_lt v r n h lt =
    let most : 2 ^ n * 2 ≤ 2 ^ n * r = mul-le-mul_left (2 ^ n) h in
    (div-lt_iff_lt-mul {k = r} {x = v} {y = 2 ^ n} (omega arith)).1
      (omega (arith, most, lt, pow-suc 2 n))

-- The digits that the loop writes, and what it leaves of the buffer.
pub record Written (radix n v : ℕ) (a d : List ℕ) (o : Option (List ℕ × ℕ)) (ds : List ℕ)
    : Type 0 where
  pub run : o ≡ some (a ++ (ds ++ drop (length ds) d), length a + length ds)
  pub sum : low_number radix ds ≡ v
  pub good : Digits radix ds
  pub short : length ds ≤ n
  pub some_digit : v ≢ 0 → 1 ≤ length ds
  pub none_left : v ≡ 0 → length ds ≡ 0
  pub tight : v ≢ 0 → radix ^ length ds ≤ v * radix

stays :
    (a d : List ℕ)
    → ◌≡◌ {A = Option (List ℕ × ℕ)} (some (a ++ d, length a)) (some (a ++ d, length a + 0))
stays a d = let e : length a ≡ length a + 0 = omega arith in rw (← e) refl

itoa_loop-step :
    (f v : ℕ) (buf : List ℕ) (i radix c : ℕ)
    → (v == 0) ≡ false
    → (radix == 0) ≡ false
    → get_elem? lookup (v % radix) ≡ some c
    → (b : List ℕ) → write? buf i c ≡ some b
    → itoa_loop (suc f) v buf i radix ≡ itoa_loop f (v / radix) b (suc i) radix
unfolding itoa_loop
itoa_loop-step f v buf i radix c more nonzero at b w = rw (more, nonzero, at, w) refl

digits_tight :
    (radix v n : ℕ)
    → v ≢ 0
    → (v / radix ≢ 0 → radix ^ n ≤ v / radix * radix)
    → (v / radix ≡ 0 → n ≡ 0)
    → radix ^ suc n ≤ v * radix
digits_tight radix v n ne more last =
    let most : radix ^ n ≤ v = elim (Bool-cases (v / radix == 0)) [
      | inl e ↦
          let z : n ≡ 0 = last ((==_iff (v / radix) 0).0 e) in
          rw (z, pow-zero radix) (ground (arith, ne))
      | inr e ↦
          let le = more (λ q. absurd (ground (arith, q))) in
          omega (arith, le, div-mul-le_self v radix)
    ] in
    rw (pow-suc radix n) (mul-le-mul_right radix most)

pub itoa_loop_lem :
    (n v radix : ℕ) (a d : List ℕ)
    → 2 ≤ radix
    → radix ≤ 36
    → v < 2 ^ n
    → n ≤ length d
    → (ds : List ℕ) × Written radix n v a d (itoa_loop (suc n) v (a ++ d) (length a) radix) ds
unfolding itoa_loop
itoa_loop_lem zero v radix a d lo hi small room =
    let none_left : (v == 0) ≡ true = ground (arith, small) in
    (
      [],
      record {
        run = rw none_left (stays a d);
        sum = ground (arith, small);
        good = tt;
        short = omega arith;
        some_digit = λ ne. absurd (ne (ground (arith, small)));
        none_left = λ _. refl;
        tight = λ ne. absurd (ne (ground (arith, small)));
      },
    )
itoa_loop_lem (suc n) v radix a [] lo hi small room = absurd (omega arith)
itoa_loop_lem (suc n) v radix a (x ∷ d) lo hi small room = elim (Bool-cases (v == 0)) [
  | inl done ↦ (
    [],
    record {
      run = rw done (stays a (x ∷ d));
      sum = ground arith;
      good = tt;
      short = omega arith;
      some_digit = λ ne. absurd (ne (ground arith));
      none_left = λ _. refl;
      tight = λ ne. absurd (ne (ground arith));
    },
  )
  | inr more ↦
      let nonzero : (radix == 0) ≡ false = ground arith in
      let below : v % radix < radix = mod-lt v (omega arith) in
      let (c, at, value, nul) = lookup_digit (v % radix) (omega arith) in
      let (ds, w) =
        itoa_loop_lem n (v / radix) radix (a ++ (c ∷ [])) d lo hi (div_lt v radix n lo small)
          (omega arith) in
      (
        c ∷ ds,
        record {
          run =
              let e : suc (length a) + length ds ≡ length a + suc (length ds) = omega arith in
              itoa_loop-step (suc n) v (a ++ (x ∷ d)) (length a) radix c more nonzero at
                (a ++ (c ∷ d)) (write?-append a d x c)
              ∙ rw (length-snoc, append_assoc, append_assoc, e) at w.run;
          sum = rw (value, w.sum) (mod-add-div v radix);
          good = ((nul, omega arith), w.good);
          short = omega (arith, w.short);
          some_digit = λ _. omega arith;
          none_left = λ e. absurd (ground (arith, e));
          tight = λ ne. digits_tight radix v (length ds) ne w.tight w.none_left;
        },
      )
]
