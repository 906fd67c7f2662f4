-- ===== src/User/Shell/Sessions.antt =====
-- What the loop of syscalls/ece391shell.c asks of the system calls, and what it then does.
use mathlib.Core.List.{append_assoc, append-nil}
use virtual_operating_system.Prelude.{
  ℕ, zero, suc, ◌+◌, ◌≤◌, ◌<◌, ℤ, pos, negsuc, false, true, take, some, List, [], ◌∷◌, ◌++◌, ◌≡◌,
  refl, ◌∙◌, inl, inr, drop, get_elem?, length, length-append, length-drop, Bool-cases,
  if◌then◌else◌, ◌==◌, ◌>>=◌, arith,
}
use virtual_operating_system.Console.Total.{NoBackspace, has_no_backspace, NoBackspace-test}
use virtual_operating_system.FileSystem.Directory.{same}
use virtual_operating_system.Strings.{write?, strlen}
use virtual_operating_system.Strings.Laws.{NoNul, write?-append}
use virtual_operating_system.Terminal.Lines.{get_elem?-append}
use virtual_operating_system.User.{Calls, fdputs}
use virtual_operating_system.User.Shell.{
  prompt, no_command, by_exception, abnormally, line_end, report, shell_loop,
}
use virtual_operating_system.User.Shell.Compare.{ece391_strcmp_lem}

-- `At st lines ran` says that `lines` are still to be typed, and that the commands `ran` have been
-- executed. A read gets the next line with its newline, a string without backspaces can be output, and
-- `execute` comes back.
pub record Session {S : Type 0} (sys : Calls S) : Type 1 where
  pub At : S → List (List ℕ) → List (List ℕ) → Type 0
  pub read_line :
      (st : S) (line : List ℕ) (lines ran : List (List ℕ)) (buf : List ℕ)
      → At st (line ∷ lines) ran
      → length buf ≡ 1024
      → (st' : S) × (sys.read st (pos 0) buf (pos 1023)
          ≡ some (pos (length line + 1), (line ++ (10 ∷ [])) ++ drop (length line + 1) buf, st'))
        × At st' lines ran
  pub output :
      (st : S) (lines ran : List (List ℕ)) (s : List ℕ) (n : ℕ)
      → At st lines ran
      → n ≤ length s
      → NoBackspace (take n s)
      → (z : ℤ) × (st' : S) × (sys.write st (pos 1) s (pos n) ≡ some (z, st')) × At st' lines ran
  pub run :
      (st : S) (lines ran : List (List ℕ)) (command rest : List ℕ)
      → At st lines ran
      → NoNul command
      → (z : ℤ) × (st' : S) × (sys.execute st (command ++ (0 ∷ rest)) ≡ some (z, st'))
        × At st' lines (ran ++ (command ∷ []))

-- `"exit"`, and the lines up to it.
abbrev pub exit_line : List ℕ
exit_line = 101 ∷ 120 ∷ 105 ∷ 116 ∷ []

-- The commands of the lines in front of the first `exit`, where a line that is empty is none.
abbrev pub commands : List (List ℕ) → List (List ℕ)
commands [] = []
commands ([] ∷ lines) = commands lines
commands ((c ∷ s) ∷ lines) =
    let more = commands lines in if same (c ∷ s) exit_line then [] else (c ∷ s) ∷ more

-- What is left to be typed behind the first `exit`.
abbrev pub unread : List (List ℕ) → List (List ℕ)
unread [] = []
unread (line ∷ lines) = let more = unread lines in if same line exit_line then lines else more

abbrev pub HasExit : List (List ℕ) → Type 0
HasExit [] = ⊥
HasExit (line ∷ lines) = if same line exit_line then Unit {0} else HasExit lines

-- Lines that fit the array, without NULs.
abbrev pub Typed : List (List ℕ) → Type 0
Typed [] = Unit {0}
Typed (line ∷ lines) = (NoNul line × (length line < 1023)) × Typed lines

exit-NoNul : NoNul exit_line
exit-NoNul = (
  (λ q. omega (arith, q)),
  ((λ q. omega (arith, q)), ((λ q. omega (arith, q)), ((λ q. omega (arith, q)), tt))),
)

-- The newline is found, and a NUL written over it.
cut_newline :
    (line buf : List ℕ)
    → let b = (line ++ (10 ∷ [])) ++ buf in
      (line_end b (length line + 1) ≡ some (length line))
      × (write? b (length line) 0 ≡ some (line ++ (0 ∷ buf)))
unfolding line_end
cut_newline line buf =
    let e : (line ++ (10 ∷ [])) ++ buf ≡ line ++ (10 ∷ buf) = append_assoc line (10 ∷ []) buf in
    let n : length line + 1 ≡ suc (length line) = omega arith in
    (rw (e, n, get_elem?-append line buf 10) refl, rw e (write?-append line buf 10 0))

module _ {S : Type 0} {sys : Calls S} (session : Session sys) where
  -- A string of the shell is output.
  put :
      (st : S) (lines ran : List (List ℕ)) (s : List ℕ) (n : ℕ)
      → session.At st lines ran
      → strlen s ≡ some n
      → n ≤ length s
      → has_no_backspace (take n s) ≡ true
      → (st' : S) × (fdputs sys st (pos 1) s ≡ some st') × session.At st' lines ran
  unfolding fdputs
  put st lines ran s n at e room b =
      let (r, st1, w, at1) =
        session.output st lines ran s n at room (NoBackspace-test (take n s) b) in
      (st1, rw (e, w) refl, at1)

  report_lem :
      (st : S) (lines ran : List (List ℕ)) (z : ℤ)
      → session.At st lines ran
      → (st' : S) × (report sys st z ≡ some st') × session.At st' lines ran
  unfolding report strlen
  report_lem st lines ran (negsuc zero) at =
      put st lines ran no_command 16 at refl (omega arith) refl
  report_lem st lines ran (negsuc (suc n)) at =
      put st lines ran abnormally 30 at refl (omega arith) refl
  report_lem st lines ran (pos n) at = elim (Bool-cases (n == 256)) [
    | inl e ↦
        let (st1, w, at1) = put st lines ran by_exception 32 at refl (omega arith) refl in
        (st1, rw e w, at1)
    | inr ne ↦ elim (Bool-cases (n == 0)) [
      | inl e ↦ (st, rw (ne, e) refl, at)
      | inr more ↦
          let (st1, w, at1) = put st lines ran abnormally 30 at refl (omega arith) refl in
          (st1, rw (ne, more) w, at1)
    ]
  ]

  -- The array behind a line.
  abbrev rest_of : List ℕ → List ℕ → List ℕ
  rest_of line buf = drop (length line + 1) buf

  -- A round up to the test for `exit`: the line is read, and its newline becomes a NUL.
  round :
      (f : ℕ) (st : S) (line : List ℕ) (lines ran : List (List ℕ)) (buf : List ℕ)
      → session.At st (line ∷ lines) ran
      → NoNul line
      → length buf ≡ 1024
      → (st' : S) × session.At st' lines ran
        × (shell_loop sys (suc f) st buf ≡ (
            let b = line ++ (0 ∷ rest_of line buf) in
            get_elem? b 0 >>= λ first.
            if same line exit_line
            then some (0, st')
            else if first == 0
            then shell_loop sys f st' b
            else (sys.execute st' b >>= λ e. report sys e.1 e.0 >>= λ s2. shell_loop sys f s2 b)))
  unfolding shell_loop strlen
  round f st line lines ran buf at z len =
      let (s1, asked, at1) = put st (line ∷ lines) ran prompt 7 at refl (omega arith) refl in
      let (s2, got, at2) = session.read_line s1 line lines ran buf at1 len in
      let (ends, cut) = cut_newline line (rest_of line buf) in
      let (order, compared, equal) =
        ece391_strcmp_lem line exit_line (rest_of line buf) [] z exit-NoNul in
      (s2, at2, rw (asked, got, ends, cut, compared, equal) refl)

  length-line :
      (line buf : List ℕ)
      → length line < 1023
      → length buf ≡ 1024
      → length (line ++ (0 ∷ rest_of line buf)) ≡ 1024
  length-line line buf h len =
      length-append line (0 ∷ rest_of line buf)
      ∙ omega (arith, len, length-drop (length line + 1) buf)

  -- The commands in front of `exit` are executed, each once and in their order.
  pub shell_loop_lem :
      (f : ℕ) (st : S) (lines ran : List (List ℕ)) (buf : List ℕ)
      → session.At st lines ran
      → Typed lines
      → HasExit lines
      → length buf ≡ 1024
      → length lines ≤ f
      → (st' : S) × (shell_loop sys f st buf ≡ some (0, st'))
        × session.At st' (unread lines) (ran ++ commands lines)
  shell_loop_lem f st [] ran buf at t e len fuel = absurd e
  shell_loop_lem zero st (line ∷ lines) ran buf at t e len fuel = absurd (omega arith)
  shell_loop_lem (suc f) st ([] ∷ lines) ran buf at t e len fuel =
      let (s1, at1, run) = round f st [] lines ran buf at t.0.0 len in
      let (s2, done, at2) =
        shell_loop_lem f s1 lines ran (0 ∷ rest_of [] buf) at1 t.1 e (length-line [] buf t.0.1 len)
          (omega arith) in
      (s2, run ∙ done, at2)
  shell_loop_lem (suc f) st ((c ∷ s) ∷ lines) ran buf at t e len fuel =
      let line : List ℕ = c ∷ s in
      let (s1, at1, run) = round f st line lines ran buf at t.0.0 len in
      elim (Bool-cases (same line exit_line)) [
        | inl leave ↦ (s1, run ∙ rw leave refl, rw (leave, append-nil) at1)
        | inr stay ↦
            let first : (c == 0) ≡ false = ground (arith, t.0.0.0) in
            let (z, s2, ran_it, at2) = session.run s1 lines ran line (rest_of line buf) at1 t.0.0 in
            let (s3, told, at3) = report_lem s2 lines (ran ++ (line ∷ [])) z at2 in
            let (s4, done, at4) =
              shell_loop_lem f s3 lines (ran ++ (line ∷ [])) (line ++ (0 ∷ rest_of line buf)) at3
                t.1 (rw stay at e) (length-line line buf t.0.1 len) (omega arith) in
            (
              s4,
              run ∙ rw (stay, first, ran_it, told) done,
              rw stay (rw (append_assoc ran (line ∷ []) (commands lines)) at at4),
            )
      ]
