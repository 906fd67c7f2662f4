-- ===== src/Prelude/Tables.antt =====
-- Proofs by checking every value of a small range.
use Prim.Native.Nat.{ℕ, zero, suc, ◌<◌, ◌≤◌, ◌+◌}
use mathlib.Core.Path.{◌≡◌, ap, ◌∙◌}
use mathlib.Core.Logic.{inl, inr}
use mathlib.Core.Bool.{Bool, true, false}
use native.Mathlib.Omega.{arith}
use virtual_operating_system.Prelude.Tests.{◌==◌, ==_iff, if◌then◌else◌, Bool-cases}

-- The test holds at the `r` values from `i` on.
unfoldable passes : (ℕ → Bool) → ℕ → ℕ → Bool
passes test i zero = true
passes test i (suc r) = let above = passes test (suc i) r in if test i then above else false

unfoldable pub all_below : ℕ → (ℕ → Bool) → Bool
unfolding passes
all_below n test = passes test 0 n

passes_sound :
    (test : ℕ → Bool) (i r x : ℕ) → passes test i r ≡ true → i ≤ x → x < i + r → test x ≡ true
unfolding passes
passes_sound test i zero x done lo hi = absurd (omega (arith, lo, hi))
passes_sound test i (suc r) x done lo hi = elim (Bool-cases (test i)) [
  | inl good ↦ elim (Bool-cases (x == i)) [
    | inl first ↦ ap test ((==_iff x i).0 first) ∙ good
    | inr later ↦ passes_sound test (suc i) r x (rw good at done) (ground arith) (omega arith)
  ]
  | inr bad ↦ absurd (no (rw bad at done))
]
  where
    no : false ≡ true → ⊥
    no e = cc

pub all_below_sound :
    (n : ℕ) (test : ℕ → Bool) (x : ℕ) → all_below n test ≡ true → x < n → test x ≡ true
unfolding all_below
all_below_sound n test x done hi = passes_sound test 0 n x done (omega arith) (omega arith)
