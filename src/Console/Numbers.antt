-- ===== src/Console/Numbers.antt =====
-- What `printf` of student-distrib/lib.c shows of a number.
use mathlib.Core.List.{append_assoc}
use native.Mathlib.Nat.{pow-le-pow_right}
use virtual_operating_system.Prelude.{
  ℕ, zero, suc, ◌-◌, ◌%◌, ◌^◌, ◌≤◌, ◌<◌, true, false, some, List, [], ◌∷◌, ◌++◌, ◌≡◌, ◌⊎◌, refl, ap,
  ◌∙◌, inl, inr, take, drop, replicate, length, length-replicate, ltb, leb, Bool-cases, ltb→lt,
  length-append, ◌>>=◌, arith,
}
use virtual_operating_system.Strings.Laws.{NoNul, strlen-append}
use virtual_operating_system.Strings.Numbers.{itoa}
use virtual_operating_system.Strings.Numbers.Numerals.{Shows, Digits-NoNul, itoa_lem}
use virtual_operating_system.Strings.Numbers.Digits.{number, Digits}
use virtual_operating_system.Console.Output.{Console, puts}
use virtual_operating_system.Console.Printf.{
  Arg, word, c_string, show_hex, show_unsigned, show_signed, show_aligned, convert,
}

pub take-append : (s rest : List ℕ) → take (length s) (s ++ rest) ≡ s
take-append [] rest = refl
take-append (c ∷ s) rest = ap (◌∷◌ c) (take-append s rest)

pub c_string_lem : (s rest : List ℕ) → NoNul s → c_string (s ++ (0 ∷ rest)) ≡ some s
unfolding c_string
c_string_lem s rest z = rw (strlen-append s rest z) (ap some (take-append s (0 ∷ rest)))

shown_numeral :
    (v n radix : ℕ)
    → v < 2 ^ 32
    → 33 ≤ n
    → 2 ≤ radix
    → radix ≤ 36
    → (s : List ℕ) × ((itoa v (replicate n 0) radix >>= c_string) ≡ some s) × Shows radix v s
shown_numeral v n radix small room lo hi =
    let (s, e, h) =
      itoa_lem v radix (replicate n 0) small lo hi (omega (arith, length-replicate {A = ℕ} n 0)) in
    (
      s,
      rw e (c_string_lem s (drop (suc (length s)) (replicate n 0)) (Digits-NoNul radix s h.digits)),
      h,
    )

-- The value of a numeral of eight hexadecimal digits.
pub record ShowsAligned (v : ℕ) (s : List ℕ) : Type 0 where
  pub size : length s ≡ 8
  pub value_of : number 16 s ≡ v
  pub digits : Digits 16 s

number-zeros : (n : ℕ) (s : List ℕ) → number 16 (replicate n b'0' ++ s) ≡ number 16 s
number-zeros zero s = refl
number-zeros (suc n) s = number-zeros n s

Digits-zeros : (n : ℕ) (s : List ℕ) → Digits 16 s → Digits 16 (replicate n b'0' ++ s)
Digits-zeros zero s h = h
Digits-zeros (suc n) s h = ((omega arith, ground arith), Digits-zeros n s h)

short_hex : (v : ℕ) (s : List ℕ) → v < 2 ^ 32 → Shows 16 v s → length s ≤ 8
short_hex v s small h = elim (Bool-cases (leb (length s) 8)) [
  | inl fits ↦ ground arith
  | inr long ↦
      let most : 16 ^ 9 ≤ 16 ^ length s =
        pow-le-pow_right {n = 16} (omega arith) {i = 9} {j = length s} (ground arith) in
      absurd (omega (arith, most, h.tight, small))
]

pub show_hex_lem : (v : ℕ) → v < 2 ^ 32 → (s : List ℕ) × (show_hex v ≡ some s) × Shows 16 v s
unfolding show_hex
show_hex_lem v small = shown_numeral v 64 16 small (omega arith) (omega arith) (omega arith)

pub show_unsigned_lem :
    (v : ℕ) → v < 2 ^ 32 → (s : List ℕ) × (show_unsigned v ≡ some s) × Shows 10 v s
unfolding show_unsigned
show_unsigned_lem v small = shown_numeral v 36 10 small (omega arith) (omega arith) (omega arith)

-- A numeral with a sign in front for a word from 2 ^ 31 on.
abbrev pub ShowsSigned : ℕ → List ℕ → Type 0
ShowsSigned v s =
    ((v < 2 ^ 31) × Shows 10 v s)
    ⊎ ((2 ^ 31 ≤ v) × ((t : List ℕ) × (s ≡ b'-' ∷ t) × Shows 10 (2 ^ 32 - v) t))

pub show_signed_lem :
    (v : ℕ) → v < 2 ^ 32 → (s : List ℕ) × (show_signed v ≡ some s) × ShowsSigned v s
unfolding show_signed
show_signed_lem v small = elim (Bool-cases (ltb v (2 ^ 31))) [
  | inl low ↦
      let (s, e, h) = shown_numeral v 36 10 small (omega arith) (omega arith) (omega arith) in
      (s, rw low e, inl (ltb→lt v (2 ^ 31) low, h))
  | inr high ↦
      let (s, e, h) =
        itoa_lem (2 ^ 32 - v) 10 (replicate 35 0) (ground arith) (omega arith) (omega arith)
          (omega arith) in
      let same : (2 ^ 32 - v) % 2 ^ 32 ≡ 2 ^ 32 - v = ground (arith, small) in
      (
        b'-' ∷ s,
        rw (high, same, e)
            (c_string_lem (b'-' ∷ s) (drop (suc (length s)) (replicate 35 0))
              ((λ q. omega (arith, q)), Digits-NoNul 10 s h.digits)),
        inr (ground arith, (s, refl, h)),
      )
]

drop-take_append : (n : ℕ) (xs ys : List ℕ) → n ≤ length xs → drop n (take n xs ++ ys) ≡ ys
drop-take_append zero xs ys h = refl
drop-take_append (suc n) [] ys h = absurd (omega arith)
drop-take_append (suc n) (x ∷ xs) ys h = drop-take_append n xs ys (omega arith)

zeros-NoNul : (n : ℕ) (s : List ℕ) → NoNul s → NoNul (replicate n b'0' ++ s)
zeros-NoNul zero s z = z
zeros-NoNul (suc n) s z = ((λ q. omega (arith, q)), zeros-NoNul n s z)

aligned_string :
    (s rest : List ℕ)
    → NoNul s
    → length s ≤ 8
    → c_string (
        drop
          (length s)
          (take (length s) (replicate 8 0) ++ (replicate (8 - length s) b'0' ++ (s ++ (0 ∷ rest)))))
      ≡ some (replicate (8 - length s) b'0' ++ s)
aligned_string s rest z short =
    let zeros : List ℕ = replicate (8 - length s) b'0' in
    rw
      (
        drop-take_append (length s) (replicate 8 0) (zeros ++ (s ++ (0 ∷ rest))) short,
        ← append_assoc zeros s (0 ∷ rest),
      )
      (c_string_lem (zeros ++ s) rest (zeros-NoNul (8 - length s) s z))

pub show_aligned_lem :
    (v : ℕ) → v < 2 ^ 32 → (s : List ℕ) × (show_aligned v ≡ some s) × ShowsAligned v s
unfolding show_aligned
show_aligned_lem v small =
    let (s, e, h) =
      itoa_lem v 16 (replicate 56 0) small (omega arith) (omega arith) (omega arith) in
    let z = Digits-NoNul 16 s h.digits in
    let rest : List ℕ = drop (suc (length s)) (replicate {A = ℕ} 56 0) in
    let short = short_hex v s small h in
    (
      replicate (8 - length s) b'0' ++ s,
      rw (e, strlen-append s rest z) (aligned_string s rest z short),
      record {
        size =
            length-append (replicate (8 - length s) b'0') s
            ∙ omega (arith, length-replicate {A = ℕ} (8 - length s) b'0', short);
        value_of = number-zeros (8 - length s) s ∙ h.value_of;
        digits = Digits-zeros (8 - length s) s h.digits;
      },
    )

-- Behind a `%`, each conversion of a number prints a numeral of the word on the stack, which is
-- below 2 ^ 32, and takes the word off: `x` one in base 16, `u` one in base 10, `d` one in base 10
-- of the two's complement value with its sign, and `#x` eight digits in base 16.
pub convert_number :
    (v : ℕ) (args : List Arg) (k : Console)
    → v < 2 ^ 32
    → ((s : List ℕ) × Shows 16 v s
        × (convert false b'x' (word v ∷ args) k ≡ (puts s k >>= λ k'. some (args, k'))))
      × ((s : List ℕ) × Shows 10 v s
          × (convert false b'u' (word v ∷ args) k ≡ (puts s k >>= λ k'. some (args, k'))))
      × ((s : List ℕ) × ShowsSigned v s
          × (convert false b'd' (word v ∷ args) k ≡ (puts s k >>= λ k'. some (args, k'))))
      × ((s : List ℕ) × ShowsAligned v s
          × (convert true b'x' (word v ∷ args) k ≡ (puts s k >>= λ k'. some (args, k'))))
unfolding convert
convert_number v args k small =
    let (x, ex, hx) = show_hex_lem v small in
    let (u, eu, hu) = show_unsigned_lem v small in
    let (d, ed, hd) = show_signed_lem v small in
    let (a, ea, ha) = show_aligned_lem v small in
    ((x, hx, rw ex refl), (u, hu, rw eu refl), (d, hd, rw ed refl), (a, ha, rw ea refl))
