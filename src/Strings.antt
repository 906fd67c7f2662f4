-- ===== src/Strings.antt =====
-- The string functions of student-distrib/lib.c, over the bytes of the objects that the pointers
-- point into. A read or write outside the object is the fault `none`.
pub mod Laws
pub mod Reverse
pub mod Numbers
use virtual_operating_system.Prelude.{
  ℕ, zero, suc, ◌+◌, ◌-◌, ◌/◌, ◌%◌, ℤ, pos, negsuc, Option, none, some, List, [], ◌∷◌, get_elem?,
  set, length, ltb, ◌==◌, if◌then◌else◌, ◌>>=◌, ◌||◌, ◌&&◌, not,
}
use virtual_operating_system.Prelude.Int.{sub_ℕ}

-- A write at an index that the code computes.
unfoldable pub write? : List ℕ → ℕ → ℕ → Option (List ℕ)
write? buf i v = if ltb i (length buf) then some (set buf i v) else none

-- `while (s[len] != '\0') len++`, over the bytes from `s` to the end of the object.
unfoldable pub strlen : List ℕ → Option ℕ
strlen [] = none
strlen (c ∷ s) = if c == 0 then some 0 else (strlen s >>= λ n. some (suc n))

-- `s1[i] - s2[i]` on `int8_t`, for bit patterns below 256.
abbrev pub diff8 : ℕ → ℕ → ℤ
diff8 a b =
    if ltb a 128
    then (if ltb b 128 then sub_ℕ a b else pos (a + (256 - b)))
    else (if ltb b 128 then negsuc (255 - a + b) else sub_ℕ a b)

unfoldable pub strncmp : List ℕ → List ℕ → ℕ → Option ℤ
strncmp s1 s2 zero = some (pos 0)
strncmp [] s2 (suc n) = none
strncmp (a ∷ s1) [] (suc n) = none
strncmp (a ∷ s1) (b ∷ s2) (suc n) =
    if not (a == b) || a == 0 then some (diff8 a b) else strncmp s1 s2 n

-- The loops of `strcpy` and `strncpy` from the index `i` on; `src` is what remains to be read.
unfoldable pub strcpy_from : List ℕ → List ℕ → ℕ → Option (List ℕ)
unfolding write?
strcpy_from dest [] i = none
strcpy_from dest (c ∷ src) i =
    let rest = write? dest i c >>= λ d. strcpy_from d src (suc i) in
    if c == 0 then write? dest i 0 else rest

unfoldable pub strcpy : List ℕ → List ℕ → Option (List ℕ)
unfolding strcpy_from
strcpy dest src = strcpy_from dest src 0

-- `while (i < n) { dest[i] = '\0'; i++; }` with `m` rounds left.
unfoldable pub pad_from : List ℕ → ℕ → ℕ → Option (List ℕ)
unfolding write?
pad_from dest zero i = some dest
pad_from dest (suc m) i = write? dest i 0 >>= λ d. pad_from d m (suc i)

-- The code reads `src[i]` before it tests `i < n`.
unfoldable pub strncpy_from : List ℕ → List ℕ → ℕ → ℕ → Option (List ℕ)
unfolding write? pad_from
strncpy_from dest [] m i = none
strncpy_from dest (c ∷ src) zero i = some dest
strncpy_from dest (c ∷ src) (suc m) i =
    let rest = write? dest i c >>= λ d. strncpy_from d src m (suc i) in
    if c == 0 then pad_from dest (suc m) i else rest

unfoldable pub strncpy : List ℕ → List ℕ → ℕ → Option (List ℕ)
unfolding strncpy_from
strncpy dest src n = strncpy_from dest src n 0

-- The loop of `strrev`, for `beg < end`, with rounds to spare.
unfoldable pub rev_loop : ℕ → List ℕ → ℕ → ℕ → Option (List ℕ)
unfolding write?
rev_loop zero s beg end = none
rev_loop (suc f) s beg end =
    let swapped = get_elem? s end >>= λ tmp. get_elem? s beg >>= λ b.
    write? s end b >>= λ s1. write? s1 beg tmp >>= λ s2. rev_loop f s2 (beg + 1) (end - 1) in
    if ltb beg end then swapped else some s

-- `end` starts at -1 for the empty string; then the loop makes no round, as from 0.
unfoldable pub strrev : List ℕ → Option (List ℕ)
unfolding strlen rev_loop
strrev s = strlen s >>= λ n. rev_loop (n + 1) s 0 (n - 1)
