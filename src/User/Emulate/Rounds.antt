-- ===== src/User/Emulate/Rounds.antt =====
-- One round of the loop over the arguments in `ece391_execute` of syscalls/ece391emulate.c.
use mathlib.Core.List.{append_assoc}
use virtual_operating_system.Prelude.{
  ℕ, zero, suc, ◌<◌, true, false, Option, some, List, [], ◌∷◌, ◌++◌, ◌≡◌, ◌≢◌, inl, inr, refl, ◌∙◌,
  sym, drop, get_elem?, length, ◌==◌, Bool-cases, if◌then◌else◌, ◌>>=◌, ◌||◌, arith,
}
use virtual_operating_system.Strings.Laws.{NoNul, write?-append, length-snoc}
use virtual_operating_system.Console.Printf.{c_string}
use virtual_operating_system.Console.Numbers.{c_string_lem}
use virtual_operating_system.Terminal.Lines.{get_elem?-append}
use virtual_operating_system.Process.Parse.{drop-word}
use virtual_operating_system.User.Emulate.{
  stops, word_end, blanks_end, end_word, split_args, strings,
}
use virtual_operating_system.User.Emulate.Words.{Word, word_end_lem}

-- The arguments are in the array behind `pre`, which is left alone.
pub record Split (pre : List ℕ) (args : List (List ℕ)) (o : Option (List ℕ × List ℕ)) : Type 0 where
  pub buf : List ℕ
  pub behind : List ℕ
  pub at : List ℕ
  pub run : o ≡ some (buf, at)
  pub kept : buf ≡ pre ++ behind
  pub found : strings buf at ≡ some args

-- A round that finds the end of the line.
pub last_round :
    (r c n : ℕ) (line post : List ℕ)
    → blanks_end 1026 (line ++ (c ∷ post)) n ≡ some (length line)
    → (c == 0 || c == 10) ≡ true
    → split_args (suc r) (line ++ (c ∷ post)) n ≡ some (line ++ (0 ∷ post), [])
unfolding split_args
last_round r c n line post e stop =
    rw (e, get_elem?-append line post c, stop, write?-append line post c 0) refl

-- A round that finds a word, which ends at `c`. A byte that is not the NUL becomes one.
pub word_round :
    (r n x c : ℕ) (line word post : List ℕ)
    → blanks_end 1026 (line ++ ((x ∷ word) ++ (c ∷ post))) n ≡ some (length line)
    → (x == 0 || x == 10) ≡ false
    → word_end 1026 (line ++ ((x ∷ word) ++ (c ∷ post))) (length line)
      ≡ some (length (line ++ (x ∷ word)))
    → split_args (suc r) (line ++ ((x ∷ word) ++ (c ∷ post))) n ≡ (
        (if c == 0
          then split_args r ((line ++ (x ∷ word)) ++ (c ∷ post)) (length (line ++ (x ∷ word)))
          else split_args r
              ((line ++ (x ∷ word)) ++ (0 ∷ post))
              (suc (length (line ++ (x ∷ word)))))
        >>= λ a. some (a.0, length line ∷ a.1))
unfolding split_args end_word
word_round r n x c line word post e go w =
    let front = line ++ (x ∷ word) in
    let joined : line ++ ((x ∷ word) ++ (c ∷ post)) ≡ front ++ (c ∷ post) =
      sym (append_assoc line (x ∷ word) (c ∷ post)) in
    let here : get_elem? (front ++ (c ∷ post)) (length line) ≡ some x =
      rw (← joined) (get_elem?-append line (word ++ (c ∷ post)) x) in
    elim (Bool-cases (c == 0)) [
      | inl nul ↦
          rw joined
            (rw (rw joined at e, here, go, rw joined at w, get_elem?-append front post c, nul) refl)
      | inr ne ↦ rw joined (
          rw
            (
              rw joined at e,
              here,
              go,
              rw joined at w,
              get_elem?-append front post c,
              ne,
              write?-append front post c 0,
            )
            refl)
    ]

-- The first argument is the word between `line` and a NUL.
pub first_found :
    (line word behind buf at : List ℕ) (args : List (List ℕ))
    → buf ≡ line ++ (word ++ (0 ∷ behind))
    → NoNul word
    → strings buf at ≡ some args
    → strings buf (length line ∷ at) ≡ some (word ∷ args)
first_found line word behind buf at args e z h =
    let here : c_string (drop (length line) buf) ≡ some word =
      rw (e, drop-word line (word ++ (0 ∷ behind))) (c_string_lem word behind z) in
    rw (here, h) refl

pub NoNul-parts : (a b : List ℕ) → NoNul (a ++ b) → NoNul a × NoNul b
NoNul-parts [] b z = (tt, z)
NoNul-parts (c ∷ a) b z = let (p, q) = NoNul-parts a b z.1 in ((z.0, p), q)

word_end-step :
    (r n x : ℕ) (buf : List ℕ)
    → get_elem? buf n ≡ some x
    → stops x ≡ false
    → word_end (suc r) buf n ≡ word_end r buf (suc n)
unfolding word_end
word_end-step r n x buf at go = rw (at, go) refl

-- A word from its first byte `x` on.
pub Word-from :
    (x : ℕ) (t line post : List ℕ)
    → stops x ≡ false
    → length t < 1025
    → NoNul t
    → Word
        (line ++ (x ∷ []))
        t
        post
        (x ∷ [])
        (word_end 1026 (line ++ ((x ∷ t) ++ (0 ∷ post))) (length line))
Word-from x t line post go k z =
    let w = word_end_lem t (line ++ (x ∷ [])) post (x ∷ []) 1025 k z in
    let e =
      word_end-step 1025 (length line) x (line ++ (x ∷ (t ++ (0 ∷ post))))
        (get_elem?-append line (t ++ (0 ∷ post)) x) go in
    record {
      word = w.word;
      rest = w.rest;
      parts = w.parts;
      ends = e ∙ rw (append_assoc line (x ∷ []) (t ++ (0 ∷ post)), length-snoc line x) at w.ends;
      last = w.last;
    }

blanks_end-none :
    (r n c : ℕ) (buf : List ℕ)
    → get_elem? buf n ≡ some c
    → c ≢ 32
    → blanks_end (suc r) buf n ≡ some n
unfolding blanks_end
blanks_end-none r n c buf at ne =
    let off : (c == 32) ≡ false = ground (arith, ne) in rw (at, off) refl

-- A round at a NUL behind a word.
pub nul_round :
    (r : ℕ) (front post : List ℕ)
    → 0 < r
    → split_args r (front ++ (0 ∷ post)) (length front) ≡ some (front ++ (0 ∷ post), [])
nul_round zero front post h = absurd (omega arith)
nul_round (suc r) front post h =
    last_round r 0 (length front) front post
      (blanks_end-none 1025 (length front) 0 (front ++ (0 ∷ post)) (get_elem?-append front post 0)
        (λ q. omega (arith, q)))
      refl
