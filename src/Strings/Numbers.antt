-- ===== src/Strings/Numbers.antt =====
-- `itoa` of student-distrib/lib.c.
pub mod Digits
pub mod Numerals
use virtual_operating_system.Prelude.{
  ℕ, zero, suc, ◌/◌, ◌%◌, Option, none, some, List, [], ◌∷◌, get_elem?, ◌==◌, if◌then◌else◌, ◌>>=◌,
}
use virtual_operating_system.Strings.{write?, strrev}

-- `"0123456789ABCDEFGHIJKLMNOPQRSTUVWXYZ"`.
abbrev pub lookup : List ℕ
lookup =
    48 ∷ 49 ∷ 50 ∷ 51 ∷ 52 ∷ 53 ∷ 54 ∷ 55 ∷ 56 ∷ 57 ∷ 65 ∷ 66 ∷ 67 ∷ 68 ∷ 69 ∷ 70 ∷ 71 ∷ 72 ∷ 73
    ∷ 74 ∷ 75 ∷ 76 ∷ 77 ∷ 78 ∷ 79 ∷ 80 ∷ 81 ∷ 82 ∷ 83 ∷ 84 ∷ 85 ∷ 86 ∷ 87 ∷ 88 ∷ 89 ∷ 90 ∷ 0 ∷ []

-- `while (newval > 0)`, with `newbuf` at the index `i`: the buffer and the index behind the digits.
-- A division by zero is a fault.
unfoldable pub itoa_loop : ℕ → ℕ → List ℕ → ℕ → ℕ → Option (List ℕ × ℕ)
unfolding write?
itoa_loop zero newval buf i radix = none
itoa_loop (suc f) newval buf i radix =
    let digit = if radix == 0 then none else get_elem? lookup (newval % radix) in
    let next =
      digit >>= λ c. write? buf i c >>= λ b. itoa_loop f (newval / radix) b (suc i) radix in
    if newval == 0 then some (buf, i) else next

-- A value below 2 ^ 32 has at most 32 digits.
unfoldable pub itoa : ℕ → List ℕ → ℕ → Option (List ℕ)
itoa value buf radix =
    let digits = itoa_loop 33 value buf 0 radix >>= λ r. write? r.0 r.1 0 >>= λ b. strrev b in
    if value == 0 then (write? buf 0 b'0' >>= λ b. write? b 1 0) else digits
