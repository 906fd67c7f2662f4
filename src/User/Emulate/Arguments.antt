-- ===== src/User/Emulate/Arguments.antt =====
-- `ece391_getargs` of syscalls/ece391emulate.c.
use mathlib.Core.Path.{ap₂}
use mathlib.Core.List.{append_assoc}
use virtual_operating_system.Prelude.{
  ℕ, suc, ◌+◌, ◌-◌, ◌≤◌, ◌<◌, pos, false, none, some, List, [], ◌∷◌, ◌++◌, ◌≡◌, refl, ap, ◌∙◌, sym,
  drop, length, length-append, length-drop, ltb, arith,
}
use virtual_operating_system.Strings.{write?, strlen, strcpy_from}
use virtual_operating_system.Strings.Laws.{
  NoNul, write?-append, length-snoc, strlen-append, strcpy_from_lem,
}
use virtual_operating_system.User.Cat.Reading.{drop-drop}
use virtual_operating_system.User.Emulate.{copy_args, emulated_getargs}

-- The arguments with a space between two.
abbrev pub joined : List (List ℕ) → List ℕ
joined [] = []
joined (s ∷ []) = s
joined (s ∷ t ∷ ss) = s ++ (32 ∷ joined (t ∷ ss))

-- As strings in the memory of the process.
abbrev pub as_strings : List (List ℕ) → List (List ℕ)
as_strings [] = []
as_strings (s ∷ ss) = (s ++ (0 ∷ [])) ∷ as_strings ss

abbrev pub NoNuls : List (List ℕ) → Type 0
NoNuls [] = Unit {0}
NoNuls (s ∷ ss) = NoNul s × NoNuls ss

copy_args_lem :
    (ss : List (List ℕ)) (a d : List ℕ) (n : ℕ)
    → NoNuls ss
    → length (joined ss) < n
    → n ≤ length d
    → copy_args (as_strings ss) (a ++ d) (length a) n
      ≡ some (pos 0, a ++ (joined ss ++ (0 ∷ drop (suc (length (joined ss))) d)))
unfolding copy_args
copy_args_lem [] a [] n z h k = absurd (omega arith)
copy_args_lem [] a (x ∷ d) n z h k =
    let room : ltb n 1 ≡ false = ground arith in rw (room, write?-append a d x 0) refl
copy_args_lem (s ∷ []) a d n z h k =
    let room : ltb n (length s) ≡ false = ground arith in
    let left : ltb (n - length s) 1 ≡ false = ground arith in
    let rest = drop (suc (length s)) d in
    let copied = strcpy_from_lem s [] a d z.0 (omega arith) in
    let seam : write? (a ++ (s ++ (0 ∷ rest))) (length a + length s) 0
        ≡ some (a ++ (s ++ (0 ∷ rest))) =
      rw (append_assoc a s (0 ∷ rest), length-append a s) at (write?-append (a ++ s) rest 0 0) in
    rw (strlen-append s [] z.0, room, copied, left, seam) refl
copy_args_lem (s ∷ t ∷ ss) a d n z h k =
    let tail = joined (t ∷ ss) in
    let size : length (s ++ (32 ∷ tail)) ≡ length s + suc (length tail) =
      length-append s (32 ∷ tail) in
    let room : ltb n (length s) ≡ false = ground (arith, size) in
    let left : ltb (n - length s) 1 ≡ false = ground (arith, size) in
    let rest = drop (suc (length s)) d in
    let copied = strcpy_from_lem s [] a d z.0 (omega (arith, size)) in
    let seam : write? (a ++ (s ++ (0 ∷ rest))) (length a + length s) 32
        ≡ some (a ++ (s ++ (32 ∷ rest))) =
      rw (append_assoc a s (0 ∷ rest), append_assoc a s (32 ∷ rest), length-append a s) at
        (write?-append (a ++ s) rest 0 32) in
    let ih =
      copy_args_lem (t ∷ ss) (a ++ (s ++ (32 ∷ []))) rest (n - length s - 1) z.1
        (omega (arith, size)) (omega (arith, size, length-drop (suc (length s)) d)) in
    let front : (y : List ℕ) → (a ++ (s ++ (32 ∷ []))) ++ y ≡ a ++ (s ++ (32 ∷ y)) = λ y.
      append_assoc a (s ++ (32 ∷ [])) y
      ∙ ap (λ (x : List ℕ). a ++ x) (append_assoc s (32 ∷ []) y) in
    let at : length (a ++ (s ++ (32 ∷ []))) ≡ suc (length a + length s) =
      length-append a (s ++ (32 ∷ [])) ∙ omega (arith, length-snoc s 32) in
    let count : suc (length s) + suc (length tail) ≡ suc (length (s ++ (32 ∷ tail))) =
      omega (arith, size) in
    let behind : drop (suc (length tail)) rest ≡ drop (suc (length (s ++ (32 ∷ tail)))) d =
      drop-drop (suc (length tail)) (suc (length s)) d ∙ ap (λ (j : ℕ). drop j d) count in
    let whole : s ++ (32 ∷ (tail ++ (0 ∷ drop (suc (length tail)) rest)))
        ≡ (s ++ (32 ∷ tail)) ++ (0 ∷ drop (suc (length (s ++ (32 ∷ tail)))) d) =
      ap (λ (y : List ℕ). s ++ (32 ∷ (tail ++ (0 ∷ y)))) behind
      ∙ sym (append_assoc s (32 ∷ tail) (0 ∷ drop (suc (length (s ++ (32 ∷ tail)))) d)) in
    let next =
      ap₂ (λ (b : List ℕ) (i : ℕ). copy_args (as_strings (t ∷ ss)) b i (n - length s - 1))
        (sym (front rest)) (sym at)
      ∙ ih
      ∙ ap (λ (b : List ℕ). some (pos 0, b))
          (front (tail ++ (0 ∷ drop (suc (length tail)) rest))
            ∙ ap (λ (b : List ℕ). a ++ b) whole) in
    rw (strlen-append s [] z.0, room, copied, left, seam) next

-- With room for the arguments and a NUL, the emulated `getargs` returns 0 and puts the arguments into
-- the buffer with one space between two and a NUL behind. The rest of the buffer, which is at least as
-- long as the size that is passed, is left alone. The arguments have no NULs.
pub emulated_getargs_lem :
    (ss : List (List ℕ)) (buf : List ℕ) (n : ℕ)
    → NoNuls ss
    → length (joined ss) < n
    → n ≤ length buf
    → emulated_getargs (as_strings ss) buf (pos n)
      ≡ some (pos 0, joined ss ++ (0 ∷ drop (suc (length (joined ss))) buf))
unfolding emulated_getargs
emulated_getargs_lem ss buf n z h k = copy_args_lem ss [] buf n z h k

-- An argument as long as the buffer leaves no room for the NUL behind it, which `ece391_strcpy` then
-- writes past the end: with one byte, the argument `a`.
emulated_getargs_overflow : emulated_getargs ((b'a' ∷ 0 ∷ []) ∷ []) (0 ∷ []) (pos 1) ≡ none
unfolding emulated_getargs copy_args strcpy_from strlen write?
emulated_getargs_overflow = refl
