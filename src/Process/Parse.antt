-- ===== src/Process/Parse.antt =====
-- The command line that `execute` of student-distrib/syscall.c takes apart.
use mathlib.Core.Path.{ap₂}
use virtual_operating_system.Prelude.{
  ℕ, zero, suc, ◌-◌, ◌≤◌, ◌<◌, true, false, none, some, List, [], ◌∷◌, ◌++◌, ◌≡◌, ◌≢◌, refl, ap,
  ◌∙◌, sym, drop, replicate, length, ◌==◌, Option-cases, ◌⊎◌, arith, inl, inr, le→ltb,
}
use virtual_operating_system.Strings.{strncpy, write?}
use virtual_operating_system.Strings.Laws.{
  Readable, padded, strncpy_lem, write?-append, strncpy-length,
}
use virtual_operating_system.Process.{
  skip_spaces, word_length, take_word, parse, ends_word, blank_line,
}

-- A word has no space, newline or NUL.
abbrev pub IsWord : List ℕ → Type 0
IsWord [] = Unit {0}
IsWord (c ∷ s) = (ends_word c ≡ false) × IsWord s

skip_spaces-append :
    (a : ℕ) (c : ℕ) (s : List ℕ) → c ≢ 32 → skip_spaces (replicate a 32 ++ (c ∷ s)) ≡ some (c ∷ s)
unfolding skip_spaces
skip_spaces-append zero c s ne = let off : (c == 32) ≡ false = ground (arith, ne) in rw off
skip_spaces-append (suc a) c s ne = skip_spaces-append a c s ne

word_length-append :
    (word rest : List ℕ) (c : ℕ)
    → IsWord word
    → ends_word c ≡ true
    → word_length (word ++ (c ∷ rest)) ≡ some (length word)
unfolding word_length
word_length-append [] rest c w e = rw e
word_length-append (x ∷ word) rest c w e = rw (w.0, word_length-append word rest c w.1 e)

Readable-word : (word rest : List ℕ) (c : ℕ) → Readable (length word) (word ++ (c ∷ rest))
Readable-word [] rest c = tt
Readable-word (x ∷ word) rest c = inr (Readable-word word rest c)

padded-word : (word rest : List ℕ) → IsWord word → padded (length word) (word ++ rest) ≡ word
padded-word [] rest w = refl
padded-word (x ∷ word) rest w =
    let off : (x == 0) ≡ false = ground (arith, w.0) in
    rw off (ap (◌∷◌ x) (padded-word word rest w.1))

drop-replicate : (n m : ℕ) → drop {A = ℕ} n (replicate m 0) ≡ replicate (m - n) 0
drop-replicate zero m = ap (λ (k : ℕ). replicate {A = ℕ} k 0) (omega arith)
drop-replicate (suc n) zero =
    let e : 0 - suc n ≡ 0 = omega arith in ap (λ (k : ℕ). replicate {A = ℕ} k 0) (sym e)
drop-replicate (suc n) (suc m) =
    drop-replicate n m ∙ ap (λ (k : ℕ). replicate {A = ℕ} k 0) (omega arith)

pub drop-word : (word rest : List ℕ) → drop (length word) (word ++ rest) ≡ rest
drop-word [] rest = refl
drop-word (x ∷ word) rest = drop-word word rest

-- The word at the front of `s`, in an array of 128 bytes.
word_copied :
    (word rest : List ℕ) (c : ℕ)
    → IsWord word
    → length word ≤ 128
    → strncpy blank_line (word ++ (c ∷ rest)) (length word)
      ≡ some (word ++ replicate (128 - length word) 0)
word_copied word rest c w h =
    strncpy_lem blank_line (word ++ (c ∷ rest)) (length word) (Readable-word word rest c)
      (omega (arith, h))
    ∙ ap some (ap₂ ◌++◌ (padded-word word (c ∷ rest) w) (drop-replicate (length word) 128))

end_written :
    (word : List ℕ)
    → length word < 128
    → write? (word ++ replicate (128 - length word) 0) (length word) 0
      ≡ some (word ++ replicate (128 - length word) 0)
end_written word h =
    let e : 128 - length word ≡ suc (127 - length word) = omega arith in
    rw e (write?-append word (replicate (127 - length word) 0) 0 0)

module _ (word rest : List ℕ) (c : ℕ) (w : IsWord word) (e : ends_word c ≡ true) where
  -- A word of at most 127 bytes, after any number of spaces, is copied with NULs behind it, and
  -- what follows it is left.
  take_word_lem :
      (s : List ℕ)
      → length word < 128
      → skip_spaces s ≡ some (word ++ (c ∷ rest))
      → take_word s ≡ some (word ++ replicate (128 - length word) 0, c ∷ rest)
  unfolding take_word
  take_word_lem s h skip = rw (
    skip,
    word_length-append word rest c w e,
    word_copied word rest c w (omega arith),
    end_written word h,
    drop-word word (c ∷ rest),
  )

skip_spaces-word :
    (a : ℕ) (word rest : List ℕ) (y : ℕ)
    → IsWord word
    → y ≢ 32
    → skip_spaces (replicate a 32 ++ (word ++ (y ∷ rest))) ≡ some (word ++ (y ∷ rest))
skip_spaces-word a [] rest y w ne = skip_spaces-append a y rest ne
skip_spaces-word a (x ∷ word) rest y w ne =
    skip_spaces-append a x (word ++ (y ∷ rest)) (ground (arith, w.0))

-- The 128 bytes of a word with NULs behind it.
abbrev pub line_of : List ℕ → List ℕ
line_of word = word ++ replicate (128 - length word) 0

-- The end of a command line: a newline or a NUL.
abbrev pub IsEnd : ℕ → Type 0
IsEnd y = (y ≡ 10) ⊎ (y ≡ 0)

end_facts : (y : ℕ) → IsEnd y → (ends_word y ≡ true) × (y ≢ 32)
end_facts y h = (ground (arith, h), omega (arith, h))

parse_tail :
    (b : ℕ) (name arg rest : List ℕ) (n y : ℕ)
    → IsWord (n ∷ name)
    → IsWord arg
    → IsEnd y
    → (b ≡ 0 → arg ≡ [])
    → length (n ∷ name) < 128
    → (c : ℕ) × (s : List ℕ) × ((replicate b 32 ++ (arg ++ (y ∷ rest))) ≡ c ∷ s)
      × (ends_word c ≡ true)
parse_tail zero name arg rest n y w v e gap h =
    (y, rest, ap (λ (l : List ℕ). l ++ (y ∷ rest)) (gap refl), (end_facts y e).0)
parse_tail (suc b) name arg rest n y w v e gap h =
    (32, replicate b 32 ++ (arg ++ (y ∷ rest)), refl, refl)

-- A command line of spaces, a name, spaces, an argument and a newline or NUL is taken apart into
-- the name and the argument, each in 128 bytes with NULs behind it. The name is not empty, the
-- argument may be, both are words of at most 127 bytes, and an argument has a space before it.
pub parse_lem :
    (a b : ℕ) (n : ℕ) (name arg rest : List ℕ) (y : ℕ)
    → IsWord (n ∷ name)
    → IsWord arg
    → IsEnd y
    → (b ≡ 0 → arg ≡ [])
    → length (n ∷ name) < 128
    → length arg < 128
    → parse (replicate a 32 ++ ((n ∷ name) ++ (replicate b 32 ++ (arg ++ (y ∷ rest)))))
      ≡ some (line_of (n ∷ name), line_of arg)
unfolding parse
parse_lem a b n name arg rest y w v e gap h1 h2 =
    let (c, s, cut, ends) = parse_tail b name arg rest n y w v e gap h1 in
    let t = replicate b 32 ++ (arg ++ (y ∷ rest)) in
    let first : take_word (replicate a 32 ++ ((n ∷ name) ++ t)) ≡ some (line_of (n ∷ name), t) =
      rw cut (
        take_word_lem (n ∷ name) s c w ends (replicate a 32 ++ ((n ∷ name) ++ (c ∷ s))) h1
          (skip_spaces-append a n (name ++ (c ∷ s)) (ground (arith, w.0)))) in
    let second : take_word t ≡ some (line_of arg, y ∷ rest) =
      take_word_lem arg rest y v (end_facts y e).0 t h2
        (skip_spaces-word b arg rest y v (end_facts y e).1) in
    rw (first, second)

-- A word of 128 bytes or more writes outside the array that it is copied to.
pub take_word_overflow :
    (word rest : List ℕ) (c : ℕ) (s : List ℕ)
    → IsWord word
    → ends_word c ≡ true
    → 128 ≤ length word
    → skip_spaces s ≡ some (word ++ (c ∷ rest))
    → take_word s ≡ none
unfolding take_word write?
take_word_overflow word rest c s w e h skip =
    rw (skip, word_length-append word rest c w e)
      (elim (Option-cases (strncpy blank_line (word ++ (c ∷ rest)) (length word))) [
        | inl out ↦ rw out
        | inr (b, at) ↦
            let size : length b ≡ 128 =
              strncpy-length blank_line (word ++ (c ∷ rest)) (length word) b at in
            rw (at, le→ltb (length word) (length b) (omega arith))
      ])
