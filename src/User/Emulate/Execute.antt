-- ===== src/User/Emulate/Execute.antt =====
-- `ece391_execute` of syscalls/ece391emulate.c.
use mathlib.Core.List.{append_assoc, append-nil}
use virtual_operating_system.Prelude.{
  ℕ, suc, ◌+◌, ◌≤◌, ◌<◌, ◌≢◌, negsuc, false, Option, none, some, List, [], ◌∷◌, ◌++◌, ◌≡◌, inl, inr,
  refl, ap, ◌∙◌, drop, replicate, length, length-append, length-replicate, ltb, ◌==◌, ◌||◌,
  Bool-cases, if◌then◌else◌, arith,
}
use virtual_operating_system.Strings.Laws.{
  NoNul, write?-append, length-snoc, strlen-append, strcpy_from_lem,
}
use virtual_operating_system.Console.Printf.{c_string}
use virtual_operating_system.Console.Numbers.{c_string_lem}
use virtual_operating_system.Terminal.Lines.{get_elem?-append}
use virtual_operating_system.User.Emulate.{
  Host, Emulator, word_end, command_line, exec_line, status_of, emulated_execute,
}
use virtual_operating_system.User.Emulate.Words.{words, word_end_lem}
use virtual_operating_system.User.Emulate.Rounds.{NoNul-parts}
use virtual_operating_system.User.Emulate.Splitting.{split_args_lem}

-- `"./"`.
abbrev pub here : List ℕ
here = 46 ∷ 47 ∷ []

abbrev behind_line : List ℕ → List ℕ
behind_line s = drop (suc (length s)) (replicate 1024 0)

command_line_lem :
    (s post : List ℕ)
    → NoNul s
    → length s ≤ 1023
    → command_line (s ++ (0 ∷ post)) ≡ some (here ++ (s ++ (0 ∷ behind_line s)))
unfolding command_line
command_line_lem s post z h =
    strcpy_from_lem s post here (replicate 1024 0) z
      (omega (arith, length-replicate {A = ℕ} 1024 0))

-- What `execv` gets.
abbrev pub ExecLine : List ℕ → Option (List ℕ × List (List ℕ)) → Type 0
ExecLine s o =
    (path : List ℕ) × (args : List (List ℕ)) × (words (some here) s ≡ path ∷ args)
    × (o ≡ some (path, path ∷ args))

-- The line in the array has one word, `path`.
exec_line_one :
    (command path tail : List ℕ)
    → command_line command ≡ some (path ++ (0 ∷ tail))
    → word_end 1026 (path ++ (0 ∷ tail)) 2 ≡ some (length path)
    → NoNul path
    → exec_line command ≡ some (path, path ∷ [])
unfolding exec_line
exec_line_one command path tail line ends z =
    rw (line, ends, get_elem?-append path tail 0, c_string_lem path tail z) refl

-- The first word `path` of the line ends at `c`, and `u` is behind it.
exec_line_more :
    (command path u tail : List ℕ) (c : ℕ)
    → command_line command ≡ some (path ++ (c ∷ (u ++ (0 ∷ tail))))
    → word_end 1026 (path ++ (c ∷ (u ++ (0 ∷ tail)))) 2 ≡ some (length path)
    → NoNul path
    → c ≢ 0
    → NoNul u
    → length u < 1023
    → exec_line command ≡ some (path, path ∷ words none u)
unfolding exec_line
exec_line_more command path u tail c line ends z ne zu small =
    let off : (c == 0) ≡ false = ground (arith, ne) in
    let i = split_args_lem 1023 u (path ++ (0 ∷ [])) tail small (omega (arith, small)) zu in
    let run = rw (append_assoc path (0 ∷ []) (u ++ (0 ∷ tail)), length-snoc path 0) at i.run in
    let named : c_string i.buf ≡ some path =
      rw (i.kept, append_assoc path (0 ∷ []) i.behind) (c_string_lem path i.behind z) in
    rw
      (
        line,
        ends,
        get_elem?-append path (u ++ (0 ∷ tail)) c,
        off,
        write?-append path (u ++ (0 ∷ tail)) c 0,
        run,
        named,
        i.found,
      )
      refl

pub exec_line_lem :
    (s post : List ℕ) → NoNul s → length s ≤ 1023 → ExecLine s (exec_line (s ++ (0 ∷ post)))
exec_line_lem s post z h =
    let tail = behind_line s in
    let w = word_end_lem s here tail here 1026 (omega arith) z in
    let path = here ++ w.word in
    let zp : NoNul path = (
      (λ q. omega (arith, q)),
      ((λ q. omega (arith, q)), (NoNul-parts w.word w.rest (rw w.parts at z)).0),
    ) in
    let line = command_line_lem s post z h in
    elim w.last [
      | inl (none_left, all) ↦
          let whole : s ≡ w.word = w.parts ∙ rw none_left (append-nil w.word) in
          let joined : here ++ (s ++ (0 ∷ tail)) ≡ path ++ (0 ∷ tail) =
            ap (λ (t : List ℕ). here ++ (t ++ (0 ∷ tail))) whole in
          (
            path,
            [],
            all,
            exec_line_one (s ++ (0 ∷ post)) path tail (line ∙ ap some joined) (rw joined at w.ends)
                zp,
          )
      | inr (c, u, more, ne, all) ↦
          let parts : s ≡ w.word ++ (c ∷ u) = w.parts ∙ ap (λ (t : List ℕ). w.word ++ t) more in
          let joined : here ++ (s ++ (0 ∷ tail)) ≡ path ++ (c ∷ (u ++ (0 ∷ tail))) =
            ap (λ (t : List ℕ). here ++ (t ++ (0 ∷ tail))) parts
            ∙ ap (λ (t : List ℕ). here ++ t) (append_assoc w.word (c ∷ u) (0 ∷ tail)) in
          let size : length s ≡ length w.word + suc (length u) =
            ap length parts ∙ length-append w.word (c ∷ u) in
          let zu : NoNul u = (NoNul-parts w.word (c ∷ u) (rw parts at z)).1.1 in
          (
            path,
            words none u,
            all,
            exec_line_more (s ++ (0 ∷ post)) path u tail c (line ∙ ap some joined)
                (rw joined at w.ends) zp ne zu (omega (arith, size, h)),
          )
    ]

first_word :
    (s w : List ℕ) → (path : List ℕ) × (args : List (List ℕ)) × (words (some w) s ≡ path ∷ args)
first_word [] w = (w, [], refl)
first_word (c ∷ s) w = elim (Bool-cases (c == 32 || c == 10)) [
  | inl stop ↦ (w, words none s, rw stop refl)
  | inr more ↦ let (path, args, e) = first_word s (w ++ (c ∷ [])) in (path, args, rw more e)
]

-- On a command of at most 1023 bytes, the emulated `execute` starts the file in the current directory
-- that the first word names, with the words of the command as its arguments: the words end at
-- spaces and newlines, and a newline where a word could start ends them. It returns the status with
-- which the child exits, -1 if signal 9 ended it, and 256 if another one did. A longer command is
-- refused with -1.
pub emulated_execute_lem :
    {S D : Type 0} (linux : Host S D) (st : Emulator S D) (s post : List ℕ)
    → NoNul s
    → (path : List ℕ) × (args : List (List ℕ)) × (words (some here) s ≡ path ∷ args)
      × (emulated_execute linux st (s ++ (0 ∷ post)) ≡ (
          if ltb 1023 (length s)
          then some (negsuc 0, st)
          else (let r = linux.spawn st.host path (path ∷ args) in
              some (status_of r.0, record st { host = r.1 }))))
unfolding emulated_execute
emulated_execute_lem linux st s post z = elim (Bool-cases (ltb 1023 (length s))) [
  | inl long ↦
      let (path, args, e) = first_word s here in
      (path, args, e, rw (strlen-append s post z, long) refl)
  | inr fits ↦
      let (path, args, e, run) = exec_line_lem s post z (ground (arith, fits)) in
      (path, args, e, rw (strlen-append s post z, fits, run) refl)
]
