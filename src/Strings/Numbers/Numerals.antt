-- ===== src/Strings/Numbers/Numerals.antt =====
-- The numerals that `itoa` of student-distrib/lib.c writes.
use mathlib.Core.List.{reverse, reverse-cons}
use native.Mathlib.Nat.{pow-suc, pow-zero, mul_comm, add_comm, zero-add}
use virtual_operating_system.Prelude.{
  ℕ, zero, suc, ◌+◌, ◌*◌, ◌^◌, ◌≤◌, ◌<◌, some, List, [], ◌∷◌, ◌++◌, ◌≡◌, refl, ap, ◌∙◌, inl, inr,
  ◌==◌, Bool-cases, drop, max, length, ◌>>=◌, arith,
}
use virtual_operating_system.Strings.{write?, strrev}
use virtual_operating_system.Strings.Laws.{NoNul, write?-append}
use virtual_operating_system.Strings.Reverse.{strrev_lem, length-reverse}
use virtual_operating_system.Strings.Numbers.{itoa}
use virtual_operating_system.Strings.Numbers.Digits.{
  digit_value, number_from, number, low_number, Digits, itoa_loop_lem,
}

-- What a numeral of `value` is. It has no more digits than the value needs.
pub record Shows (radix value : ℕ) (s : List ℕ) : Type 0 where
  pub value_of : number radix s ≡ value
  pub digits : Digits radix s
  pub some_digit : 1 ≤ length s
  pub short : length s ≤ 32
  pub tight : radix ^ length s ≤ max 1 value * radix

number_from-append :
    (radix n : ℕ) (s : List ℕ) (c : ℕ)
    → number_from radix n (s ++ (c ∷ [])) ≡ number_from radix n s * radix + digit_value c
number_from-append radix n [] c = refl
number_from-append radix n (x ∷ s) c = number_from-append radix (n * radix + digit_value x) s c

number-reverse : (radix : ℕ) (ds : List ℕ) → number radix (reverse ds) ≡ low_number radix ds
number-reverse radix [] = refl
number-reverse radix (c ∷ ds) =
    ap (number radix) (reverse-cons c ds)
    ∙ number_from-append radix 0 (reverse ds) c
    ∙ (rw (number-reverse radix ds, mul_comm (low_number radix ds) radix)
        (add_comm (radix * low_number radix ds) (digit_value c)))

Digits-append :
    (radix : ℕ) (s : List ℕ) (c : ℕ)
    → Digits radix s
    → (48 ≤ c) × (digit_value c < radix)
    → Digits radix (s ++ (c ∷ []))
Digits-append radix [] c h g = (g, tt)
Digits-append radix (x ∷ s) c h g = (h.0, Digits-append radix s c h.1 g)

Digits-reverse : (radix : ℕ) (ds : List ℕ) → Digits radix ds → Digits radix (reverse ds)
Digits-reverse radix [] h = tt
Digits-reverse radix (c ∷ ds) h =
    rw (reverse-cons c ds) (Digits-append radix (reverse ds) c (Digits-reverse radix ds h.1) h.0)

pub Digits-NoNul : (radix : ℕ) (s : List ℕ) → Digits radix s → NoNul s
Digits-NoNul radix [] h = tt
Digits-NoNul radix (c ∷ s) h = ((λ e. omega (arith, e, h.0.0)), Digits-NoNul radix s h.1)

drop_more : (buf : List ℕ) (n : ℕ) → n < length buf → (x : ℕ) × (drop n buf ≡ x ∷ drop (suc n) buf)
drop_more [] n h = absurd (omega arith)
drop_more (x ∷ buf) zero h = (x, refl)
drop_more (x ∷ buf) (suc n) h = drop_more buf n (omega arith)

zero_written :
    (x y : ℕ) (d : List ℕ) → (write? (x ∷ y ∷ d) 0 b'0' >>= λ b. write? b 1 0) ≡ some (b'0' ∷ 0 ∷ d)
zero_written x y d = rw (write?-append [] (y ∷ d) x b'0', write?-append (b'0' ∷ []) d y 0) refl

-- The NUL behind the digits, and the digits turned around.
finished :
    (ds buf : List ℕ)
    → NoNul ds
    → length ds < length buf
    → (write? (ds ++ drop (length ds) buf) (length ds) 0 >>= λ b. strrev b)
      ≡ some (reverse ds ++ (0 ∷ drop (suc (length (reverse ds))) buf))
finished ds buf z room =
    let (x, e) = drop_more buf (length ds) room in
    rw (e, write?-append ds (drop (suc (length ds)) buf) x 0, length-reverse ds)
      (strrev_lem ds (drop (suc (length ds)) buf) z)

-- `itoa` writes a numeral of the value, with at most 32 digits and a NUL behind it, and leaves the
-- rest of the buffer alone: the numeral, read in the same base, is the value. The value is below
-- 2 ^ 32, the base is from 2 to 36, and the buffer has room for 33 bytes.
pub itoa_lem :
    (value radix : ℕ) (buf : List ℕ)
    → value < 2 ^ 32
    → 2 ≤ radix
    → radix ≤ 36
    → 33 ≤ length buf
    → (s : List ℕ) × (itoa value buf radix ≡ some (s ++ (0 ∷ drop (suc (length s)) buf)))
      × Shows radix value s
unfolding itoa
itoa_lem value radix [] small lo hi room = absurd (omega arith)
itoa_lem value radix (x ∷ []) small lo hi room = absurd (omega arith)
itoa_lem value radix (x ∷ y ∷ d) small lo hi room = elim (Bool-cases (value == 0)) [
  | inl null ↦ (
    b'0' ∷ [],
    rw null (zero_written x y d),
    record {
      value_of = ground arith;
      digits = ((omega arith, omega arith), tt);
      some_digit = omega arith;
      short = omega arith;
      tight =
          let e : max 1 value ≡ 1 = ground arith in
          rw (e, pow-suc radix 0, pow-zero radix) (omega arith);
    },
  )
  | inr more ↦
      let buf = x ∷ y ∷ d in
      let (ds, w) = itoa_loop_lem 32 value radix [] buf lo hi small (omega arith) in
      let len = length-reverse ds in
      (
        reverse ds,
        rw (more, w.run, zero-add (length ds))
            (finished ds buf (Digits-NoNul radix ds w.good) (omega (arith, w.short))),
        record {
          value_of = number-reverse radix ds ∙ w.sum;
          digits = Digits-reverse radix ds w.good;
          some_digit = omega (arith, len, w.some_digit (ground arith));
          short = omega (arith, len, w.short);
          tight =
              let e : max 1 value ≡ value = ground arith in rw (e, len) (w.tight (ground arith));
        },
      )
]
