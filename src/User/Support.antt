-- ===== src/User/Support.antt =====
-- syscalls/ece391support.c.
pub mod Numbers
use virtual_operating_system.Prelude.{
  ℕ, zero, suc, ◌+◌, ◌-◌, ℤ, pos, Option, none, some, List, [], ◌∷◌, ◌/◌, ◌%◌, get_elem?, ltb, leb,
  ◌==◌, if◌then◌else◌, ◌>>=◌, ◌||◌,
}
use virtual_operating_system.Prelude.Int.{sub_ℕ}
use virtual_operating_system.Strings.{write?, strlen}

unfoldable pub ece391_strcmp : List ℕ → List ℕ → Option ℤ
ece391_strcmp [] s2 = none
ece391_strcmp (a ∷ s1) [] = none
ece391_strcmp (a ∷ s1) (b ∷ s2) =
    let rest = ece391_strcmp s1 s2 in
    if a == b then (if a == 0 then some (pos 0) else rest) else some (sub_ℕ a b)

unfoldable pub ece391_strncmp : List ℕ → List ℕ → ℕ → Option ℤ
ece391_strncmp s1 s2 zero = some (pos 0)
ece391_strncmp [] s2 (suc n) = none
ece391_strncmp (a ∷ s1) [] (suc n) = none
ece391_strncmp (a ∷ s1) (b ∷ s2) (suc n) =
    let rest = ece391_strncmp s1 s2 n in
    if a == b then (if a == 0 || n == 0 then some (pos 0) else rest) else some (sub_ℕ a b)

-- The loop of `ece391_strrev`, for `beg < end`, with rounds to spare.
unfoldable pub ece391_rev_loop : ℕ → List ℕ → ℕ → ℕ → Option (List ℕ)
ece391_rev_loop zero s beg end = none
ece391_rev_loop (suc f) s beg end =
    let more : List ℕ → Option (List ℕ) = λ s2. ece391_rev_loop f s2 (beg + 1) (end - 1) in
    if ltb beg end
    then (get_elem? s end >>= λ tmp.
        get_elem? s beg >>= λ b. write? s end b >>= λ s1. write? s1 beg tmp >>= λ s2. more s2)
    else some s

-- Unlike `strrev` of the kernel, it leaves strings of at most one byte early.
unfoldable pub ece391_strrev : List ℕ → Option (List ℕ)
ece391_strrev s = strlen s >>= λ n. if leb n 1 then some s else ece391_rev_loop (n + 1) s 0 (n - 1)

-- `"0123456789ABCDEFGHIJKLMNOPQRSTUVWXYZ"`.
abbrev pub ece391_lookup : List ℕ
ece391_lookup =
    48 ∷ 49 ∷ 50 ∷ 51 ∷ 52 ∷ 53 ∷ 54 ∷ 55 ∷ 56 ∷ 57 ∷ 65 ∷ 66 ∷ 67 ∷ 68 ∷ 69 ∷ 70 ∷ 71 ∷ 72 ∷ 73
    ∷ 74 ∷ 75 ∷ 76 ∷ 77 ∷ 78 ∷ 79 ∷ 80 ∷ 81 ∷ 82 ∷ 83 ∷ 84 ∷ 85 ∷ 86 ∷ 87 ∷ 88 ∷ 89 ∷ 90 ∷ 0 ∷ []

-- `while (newval > 0)`, with `newbuf` at the index `i`: the buffer, and the index behind the digits. A
-- division by zero is a fault.
unfoldable pub ece391_itoa_loop : ℕ → ℕ → List ℕ → ℕ → ℕ → Option (List ℕ × ℕ)
ece391_itoa_loop zero newval buf i radix = none
ece391_itoa_loop (suc f) newval buf i radix =
    let more : List ℕ → Option (List ℕ × ℕ) =
      λ b. ece391_itoa_loop f (newval / radix) b (i + 1) radix in
    if ltb 0 newval
    then if radix == 0
      then none
      else (get_elem? ece391_lookup (newval % radix) >>= λ c. write? buf i c >>= λ b. more b)
    else some (buf, i)

unfoldable pub ece391_itoa : ℕ → List ℕ → ℕ → Option (List ℕ)
ece391_itoa value buf radix =
    let digits =
      ece391_itoa_loop 33 value buf 0 radix >>= λ r. write? r.0 r.1 0 >>= λ b. ece391_strrev b in
    if value == 0 then (write? buf 0 b'0' >>= λ b. write? b 1 0) else digits
