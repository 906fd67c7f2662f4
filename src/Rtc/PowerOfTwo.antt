-- ===== src/Rtc/PowerOfTwo.antt =====
-- `powerOfTwo` of student-distrib/rtc.c decides the powers of two among the positive numbers, and
-- does not return for 0.
use native.Mathlib.Nat.{pow-suc}
use virtual_operating_system.Prelude.{
  ℕ, zero, suc, ◌*◌, ◌/◌, ◌%◌, ◌^◌, ◌<◌, ◌≡◌, ◌↔◌, refl, inl, inr, Bool, true, Option, none, some,
  pos, Bool-cases, ◌==◌, ==_iff, arith,
}
use virtual_operating_system.Rtc.{power_of_two}

abbrev pub IsPower : ℕ → Type 0
IsPower n = (k : ℕ) × (n ≡ 2 ^ k)

pow_suc : (k : ℕ) → 2 ^ suc k ≡ 2 * 2 ^ k
pow_suc k = simp pow-suc (omega arith)

-- Halving an even number keeps it a power of two or not one.
half-IsPower : (n : ℕ) → n % 2 ≡ 0 → 0 < n → IsPower (n / 2) ↔ IsPower n
half-IsPower n e h = (up, down)
  where
    up : IsPower (n / 2) → IsPower n
    up (k, p) = (suc k, omega (arith, pow_suc k))

    down : IsPower n → IsPower (n / 2)
    down (zero, p) = absurd (omega arith)
    down (suc k, p) = (k, omega (arith, pow_suc k))

odd-IsPower : (n : ℕ) → n % 2 ≡ 1 → IsPower n → n ≡ 1
odd-IsPower n o (zero, p) = p
odd-IsPower n o (suc k, p) = absurd (omega (arith, pow_suc k))

abbrev pub Decides : Option Bool → ℕ → Type 0
Decides o n = (b : Bool) × (o ≡ some b) × ((b ≡ true) ↔ IsPower n)

power_of_two_odd : (f n : ℕ) → n % 2 ≡ 1 → Decides (power_of_two (suc f) (pos n)) n
unfolding power_of_two
power_of_two_odd f n o = (
  n / 2 == 0,
  (let e : (n % 2 == 1) ≡ true = ground arith in rw e),
  (λ h. (0, ground arith), λ p. ground (arith, odd-IsPower n o p)),
)

-- With a bound on the bits of a positive number for fuel, `powerOfTwo` returns whether it is a
-- power of two.
pub power_of_two_lem : (f n : ℕ) → 0 < n → n < 2 ^ f → Decides (power_of_two f (pos n)) n
unfolding power_of_two
power_of_two_lem zero n h b = absurd (omega arith)
power_of_two_lem (suc f) n h b = elim (Bool-cases (n % 2 == 1)) [
  | inl o ↦ power_of_two_odd f n ((==_iff _ _).0 o)
  | inr e ↦
      let even : n % 2 ≡ 0 = ground arith in
      let (r, p, q) = power_of_two_lem f (n / 2) (omega arith) (omega (arith, pow_suc f)) in
      let step = half-IsPower n even h in (r, rw e p, (λ x. step.0 (q.0 x), λ x. q.1 (step.1 x)))
]

-- For 0 no fuel is enough: the loop of `powerOfTwo` does not end.
power_of_two-zero : (f : ℕ) → power_of_two f (pos 0) ≡ none
unfolding power_of_two
power_of_two-zero zero = refl
power_of_two-zero (suc f) = power_of_two-zero f
