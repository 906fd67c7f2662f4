-- ===== src/User/Emulate/Roundtrip.antt =====
-- `ece391_execute` and `ece391_getargs` of syscalls/ece391emulate.c together.
use mathlib.Core.Path.{ap₂}
use mathlib.Core.List.{append_assoc, append-nil}
use virtual_operating_system.Prelude.{
  ℕ, suc, ◌≤◌, ◌<◌, pos, false, none, some, List, [], ◌∷◌, ◌++◌, ◌≡◌, refl, ◌∙◌, sym, drop, length,
  ◌==◌, ◌||◌, arith,
}
use virtual_operating_system.Strings.Laws.{NoNul}
use virtual_operating_system.User.Emulate.{stops, exec_line, emulated_getargs}
use virtual_operating_system.User.Emulate.Words.{words}
use virtual_operating_system.User.Emulate.Execute.{here, exec_line_lem}
use virtual_operating_system.User.Emulate.Arguments.{
  joined, as_strings, NoNuls, emulated_getargs_lem,
}

-- A word has a byte, and no space, newline or NUL.
abbrev pub NoStops : List ℕ → Type 0
NoStops [] = Unit {0}
NoStops (c ∷ s) = (stops c ≡ false) × NoStops s

abbrev pub IsWords : List (List ℕ) → Type 0
IsWords [] = Unit {0}
IsWords ([] ∷ ss) = ⊥
IsWords ((c ∷ s) ∷ ss) = NoStops (c ∷ s) × IsWords ss

words-rest :
    (s w : List ℕ) (ss : List (List ℕ)) (u : List ℕ)
    → NoStops s
    → words none u ≡ ss
    → words (some w) (s ++ (32 ∷ u)) ≡ (w ++ s) ∷ ss
words-rest [] w ss u h e = rw (append-nil w, e) refl
words-rest (c ∷ s) w ss u h e =
    let on : (c == 32 || c == 10) ≡ false = ground (arith, h.0) in
    rw on (words-rest s (w ++ (c ∷ [])) ss u h.1 e ∙ rw (append_assoc w (c ∷ []) s) refl)

words-last : (s w : List ℕ) → NoStops s → words (some w) s ≡ (w ++ s) ∷ []
words-last [] w h = rw (append-nil w) refl
words-last (c ∷ s) w h =
    let on : (c == 32 || c == 10) ≡ false = ground (arith, h.0) in
    rw on (words-last s (w ++ (c ∷ [])) h.1 ∙ rw (append_assoc w (c ∷ []) s) refl)

words-joined : (ss : List (List ℕ)) → IsWords ss → words none (joined ss) ≡ ss
words-joined [] h = refl
words-joined ([] ∷ ss) h = elim h [ ]
words-joined ((c ∷ s) ∷ []) h =
    let a : (c == 32) ≡ false = ground (arith, h.0.0) in
    let b : (c == 10) ≡ false = ground (arith, h.0.0) in rw (a, b) (words-last s (c ∷ []) h.0.1)
words-joined ((c ∷ s) ∷ t ∷ ss) h =
    let a : (c == 32) ≡ false = ground (arith, h.0.0) in
    let b : (c == 10) ≡ false = ground (arith, h.0.0) in
    rw (a, b) (words-rest s (c ∷ []) (t ∷ ss) (joined (t ∷ ss)) h.0.1 (words-joined (t ∷ ss) h.1))

NoStops-NoNul : (s : List ℕ) → NoStops s → NoNul s
NoStops-NoNul [] h = tt
NoStops-NoNul (c ∷ s) h = ((λ q. absurd (ground (arith, h.0, q))), NoStops-NoNul s h.1)

IsWords-NoNuls : (ss : List (List ℕ)) → IsWords ss → NoNuls ss
IsWords-NoNuls [] h = tt
IsWords-NoNuls ([] ∷ ss) h = elim h [ ]
IsWords-NoNuls ((c ∷ s) ∷ ss) h = (NoStops-NoNul (c ∷ s) h.0, IsWords-NoNuls ss h.1)

NoNul-append : (a b : List ℕ) → NoNul a → NoNul b → NoNul (a ++ b)
NoNul-append [] b h k = k
NoNul-append (c ∷ a) b h k = (h.0, NoNul-append a b h.1 k)

NoNul-joined : (ss : List (List ℕ)) → NoNuls ss → NoNul (joined ss)
NoNul-joined [] h = tt
NoNul-joined (s ∷ []) h = h.0
NoNul-joined (s ∷ t ∷ ss) h =
    NoNul-append s (32 ∷ joined (t ∷ ss)) h.0 ((λ q. omega (arith, q)), NoNul-joined (t ∷ ss) h.1)

-- A command made of a name and words with one space between two comes back from the started
-- program's `getargs`: the file `name` is started with the words as its arguments, and `getargs` on
-- these arguments returns 0 and the words with one space between two. Neither the name nor a word
-- has a space, a newline or a NUL, no word is empty, the command has at most 1023 bytes, and
-- the buffer has room for the words and a NUL within the size that is passed.
pub exec_line-emulated_getargs :
    (name : List ℕ) (ss : List (List ℕ)) (post buf : List ℕ) (n : ℕ)
    → NoStops name
    → IsWords ss
    → length (name ++ (32 ∷ joined ss)) ≤ 1023
    → length (joined ss) < n
    → n ≤ length buf
    → (exec_line ((name ++ (32 ∷ joined ss)) ++ (0 ∷ post))
        ≡ some (here ++ name, (here ++ name) ∷ ss))
      × (emulated_getargs (as_strings ss) buf (pos n)
          ≡ some (pos 0, joined ss ++ (0 ∷ drop (suc (length (joined ss))) buf)))
exec_line-emulated_getargs name ss post buf n named listed short room fits =
    let z = IsWords-NoNuls ss listed in
    let whole : NoNul (name ++ (32 ∷ joined ss)) =
      NoNul-append name (32 ∷ joined ss) (NoStops-NoNul name named)
        ((λ q. omega (arith, q)), NoNul-joined ss z) in
    let (path, args, e, run) = exec_line_lem (name ++ (32 ∷ joined ss)) post whole short in
    let split = words-rest name here ss (joined ss) named (words-joined ss listed) in
    let same : (here ++ name) ∷ ss ≡ path ∷ args = sym split ∙ e in
    let at : here ++ name ≡ path = cc in
    let these : ss ≡ args = cc in
    (
      run ∙ ap₂ (λ (p : List ℕ) (a : List (List ℕ)). some (p, p ∷ a)) (sym at) (sym these),
      emulated_getargs_lem ss buf n z room fits,
    )
