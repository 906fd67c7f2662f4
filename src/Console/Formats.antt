-- ===== src/Console/Formats.antt =====
-- `printf` of student-distrib/lib.c on a format without conversions.
use virtual_operating_system.Prelude.{
  ℕ, suc, ◌+◌, some, List, [], ◌∷◌, ◌++◌, ◌≡◌, ◌≢◌, refl, inl, inr, false, length, ◌==◌,
  Option-cases, ◌>>=◌, arith,
}
use virtual_operating_system.Console.Output.{Console, putc, puts}
use virtual_operating_system.Console.Printf.{Arg, plain, printf_from, printf}

abbrev pub PlainText : List ℕ → Type 0
PlainText [] = Unit {0}
PlainText (c ∷ s) = ((c ≢ 0) × (c ≢ b'%')) × PlainText s

printf_from-puts :
    (s : List ℕ) (args : List Arg) (n : ℕ) (k : Console)
    → PlainText s
    → printf_from plain (s ++ (0 ∷ [])) args n k ≡ (puts s k >>= λ k'. some (n + length s, k'))
unfolding printf_from puts
printf_from-puts [] args n k z = let e : n ≡ n + 0 = omega arith in rw (← e) refl
printf_from-puts (c ∷ s) args n k z =
    let off : (c == 0) ≡ false = ground (arith, z.0.0) in
    let other : (c == b'%') ≡ false = ground (arith, z.0.1) in
    elim (Option-cases (putc c k)) [
      | inl e ↦ rw (off, other, e) refl
      | inr (k1, e) ↦
          let count : suc n + length s ≡ n + suc (length s) = omega arith in
          rw (off, other, e) (rw count at (printf_from-puts s args (suc n) k1 z.1))
    ]

-- A format with no `%` is printed as `puts` prints it, whatever is on the stack, and the result is
-- its length.
printf-puts :
    (s : List ℕ) (args : List Arg) (k : Console)
    → PlainText s
    → printf (s ++ (0 ∷ [])) args k ≡ (puts s k >>= λ k'. some (length s, k'))
unfolding printf
printf-puts s args k z =
    let e : 0 + length s ≡ length s = omega arith in rw e at (printf_from-puts s args 0 k z)
