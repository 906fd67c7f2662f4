-- ===== src/User/Support/Numbers.antt =====
-- The numerals of syscalls/ece391support.c against those of student-distrib/lib.c.
use virtual_operating_system.Prelude.{
  Option, ℕ, zero, suc, ◌/◌, true, false, ltb, ◌==◌, ◌+◌, ◌-◌, some, List, ◌≡◌, refl, inl, inr, leb,
  Option-cases, Bool-cases, fun_ext, arith,
}
use virtual_operating_system.Strings.{strlen, rev_loop, strrev}
use virtual_operating_system.Strings.Numbers.{itoa_loop, itoa}
use virtual_operating_system.User.Support.{
  ece391_rev_loop, ece391_strrev, ece391_itoa_loop, ece391_itoa,
}

ece391_rev_loop-rev_loop :
    (f : ℕ) (s : List ℕ) (beg end : ℕ) → ece391_rev_loop f s beg end ≡ rev_loop f s beg end
unfolding ece391_rev_loop rev_loop
ece391_rev_loop-rev_loop zero s beg end = refl
ece391_rev_loop-rev_loop (suc f) s beg end =
    let ih : (λ (t : List ℕ). ece391_rev_loop f t (beg + 1) (end - 1))
        ≡ (λ (t : List ℕ). rev_loop f t (beg + 1) (end - 1)) =
      fun_ext λ t. ece391_rev_loop-rev_loop f t (beg + 1) (end - 1) in
    elim (Bool-cases (ltb beg end)) [ inl more ↦ rw (more, ih) refl | inr done ↦ rw done refl ]

rev_loop-same : (f : ℕ) (s : List ℕ) → rev_loop (suc f) s 0 0 ≡ some s
unfolding rev_loop
rev_loop-same f s = refl

ece391_strrev-strrev : (s : List ℕ) → ece391_strrev s ≡ strrev s
unfolding ece391_strrev strrev
ece391_strrev-strrev s = elim (Option-cases (strlen s)) [
  | inl e ↦ rw e refl
  | inr (n, e) ↦ elim (Bool-cases (leb n 1)) [
    | inl short ↦
        let rounds : n + 1 ≡ suc n = omega arith in
        let last : n - 1 ≡ 0 = ground (arith, short) in
        rw (e, short, rounds, last, rev_loop-same n s) refl
    | inr long ↦ rw (e, long) (ece391_rev_loop-rev_loop (n + 1) s 0 (n - 1))
  ]
]

ece391_itoa_loop-itoa_loop :
    (f v : ℕ) (buf : List ℕ) (i radix : ℕ)
    → ece391_itoa_loop f v buf i radix ≡ itoa_loop f v buf i radix
unfolding ece391_itoa_loop itoa_loop
ece391_itoa_loop-itoa_loop zero v buf i radix = refl
ece391_itoa_loop-itoa_loop (suc f) v buf i radix =
    let next : i + 1 ≡ suc i = omega arith in
    let ih : ◌≡◌ {A = List ℕ → Option (List ℕ × ℕ)}
        (λ b. ece391_itoa_loop f (v / radix) b (suc i) radix)
        (λ b. itoa_loop f (v / radix) b (suc i) radix) =
      fun_ext λ b. ece391_itoa_loop-itoa_loop f (v / radix) b (suc i) radix in
    elim (Bool-cases (v == 0)) [
      | inl done ↦
          let none_left : ltb 0 v ≡ false = ground (arith, done) in rw (none_left, done) refl
      | inr more ↦
          let left : ltb 0 v ≡ true = ground (arith, more) in
          elim (Bool-cases (radix == 0)) [
            | inl zero_radix ↦ rw (left, more, zero_radix) refl
            | inr fine ↦ rw (left, more, fine, next, ih) refl
          ]
    ]

-- The numeral that a program writes is the one of the kernel's `itoa`, byte for byte, also where either
-- faults: for every number, buffer and base.
pub ece391_itoa-itoa :
    (value radix : ℕ) (buf : List ℕ) → ece391_itoa value buf radix ≡ itoa value buf radix
unfolding ece391_itoa itoa
ece391_itoa-itoa value radix buf =
    let same : ece391_strrev ≡ strrev = fun_ext ece391_strrev-strrev in
    rw (ece391_itoa_loop-itoa_loop 33 value buf 0 radix, same) refl
