-- ===== src/User/Syserr/Kernel.antt =====
-- The tests of syscalls/ece391syserr.c on the system calls of student-distrib/syscall.c.
use virtual_operating_system.Prelude.{
  ℕ, zero, suc, ◌+◌, ◌≤◌, ◌<◌, ℤ, pos, negsuc, Bool, true, false, not, Option, none, some, List, [],
  ◌∷◌, ◌++◌, ◌≡◌, ◌≢◌, refl, inl, inr, Bool-cases, leb, ◌||◌, ◌==◌, ◌&&◌, arith,
}
use virtual_operating_system.Strings.Laws.{NoNul}
use virtual_operating_system.Console.Output.{Console, puts}
use virtual_operating_system.Console.Isolation.{CursorsValid}
use virtual_operating_system.Console.Total.{NoBackspace}
use virtual_operating_system.Machine.{Machine, FileDesc}
use virtual_operating_system.Syscall.{read, write, close, bad_call, call_write}
use virtual_operating_system.Syscall.Files.{descriptor, good_read}
use virtual_operating_system.User.Kernel.{kernel}
use virtual_operating_system.User.Kernel.Output.{HasTerminal, shown_as, fdputs_total}
use virtual_operating_system.User.Syserr.Messages.{
  neg_fd_failed, neg_fd_passed, big_fd_failed, big_fd_passed, stdin_out_failed, stdin_out_passed,
}
use virtual_operating_system.User.Syserr.{
  verdict, try_fd, err_neg_fd, err_big_fd, err_stdin_out, unopened_closes, unopened_reads,
  unopened_writes, err_unopened,
}

-- A message without its NUL.
abbrev pub body : List ℕ → List ℕ
body [] = []
body (c ∷ []) = []
body (c ∷ d ∷ s) = c ∷ body (d ∷ s)

abbrev is_text : List ℕ → Bool
is_text [] = true
is_text (c ∷ s) = (not (c == 0) && not (c == 8)) && is_text s

is_text-NoNul : (s : List ℕ) → is_text s ≡ true → NoNul s × NoBackspace s
is_text-NoNul [] h = (tt, tt)
is_text-NoNul (c ∷ s) h =
    let (n, b) = is_text-NoNul s (ground (arith, h)) in
    let z : c ≢ 0 = λ e. absurd (ground (arith, h, e)) in
    let w : c ≢ 8 = λ e. absurd (ground (arith, h, e)) in ((z, n), (w, b))

-- A process that has never opened a file: descriptors 2 to 7 are free, and have no operations.
abbrev pub NeverOpened : Machine → Type 0
NeverOpened m =
    (j : ℕ)
    → 2 ≤ j
    → j < 8
    → (d : FileDesc) × (descriptor m j ≡ some d) × (d.flags ≡ 0) × (d.fops ≡ none)

-- The text is on the terminal, nothing else has changed, and the value is 0.
abbrev pub Passes : Machine → List ℕ → Option (ℕ × Machine) → Type 0
Passes m text e = (k : Console) × (puts text m.console ≡ some k) × (e ≡ some (0, shown_as m k))

module _ (run : Machine → List ℕ → Option (ℤ × Machine)) (call : Machine → ℤ → Option (ℤ × Machine))
    (user_table_at : ℕ) where
  verdict-Passes :
      (m : Machine) (failed s : List ℕ)
      → is_text s ≡ true
      → HasTerminal m
      → CursorsValid m.console
      → Passes m s (verdict (kernel run call user_table_at) failed (s ++ (0 ∷ [])) (0, m))
  verdict-Passes m failed s good t v =
      let (z, b) = is_text-NoNul s good in
      let (k, e, w, done) = fdputs_total run call user_table_at m s [] t v z b in
      (k, e, rw done refl)

  -- On every machine whose descriptor 1 is the terminal and whose cursors are on the screen, the
  -- kernel passes the tests with a negative descriptor, with one that is too large, and of writing
  -- to descriptor 0 and reading from descriptor 1: each says so on the terminal, returns 0, and
  -- changes nothing else.
  pub err_fd-Passes :
      (m : Machine) (buf : List ℕ)
      → HasTerminal m
      → CursorsValid m.console
      → Passes m (body neg_fd_passed) (err_neg_fd (kernel run call user_table_at) m buf)
        × Passes m (body big_fd_passed) (err_big_fd (kernel run call user_table_at) m buf)
        × Passes m (body stdin_out_passed) (err_stdin_out (kernel run call user_table_at) m buf)
  unfolding err_neg_fd err_big_fd err_stdin_out try_fd kernel read write close bad_call
  err_fd-Passes m buf t v = (
    verdict-Passes m neg_fd_failed (body neg_fd_passed) refl t v,
    verdict-Passes m big_fd_failed (body big_fd_passed) refl t v,
    verdict-Passes m stdin_out_failed (body stdin_out_passed) refl t v,
  )

  close_refused :
      (m : Machine) (j : ℕ) → NeverOpened m → j < 8 → close m (pos j) ≡ some (negsuc 0, m)
  unfolding close
  close_refused m j h hi = elim (Bool-cases (leb j 1)) [
    | inl low ↦ rw low refl
    | inr high ↦
        let (d, at, off, none_set) = h j (ground arith) hi in
        let range : (leb j 1 || leb 8 j) ≡ false = ground arith in rw (range, at, off) refl
  ]

  closes_refused :
      (m : Machine) (r i fail : ℕ)
      → NeverOpened m
      → i + r ≡ 8
      → unopened_closes (kernel run call user_table_at) r i fail m ≡ some (fail, m)
  unfolding unopened_closes kernel
  closes_refused m zero i fail h sum = refl
  closes_refused m (suc r) i fail h sum =
      rw (close_refused m i h (omega arith)) (closes_refused m r (i + 1) fail h (omega arith))

  reads_refused :
      (m : Machine) (buf : List ℕ) (r i fail : ℕ)
      → NeverOpened m
      → 2 ≤ i
      → i + r ≡ 8
      → unopened_reads (kernel run call user_table_at) r i fail m buf ≡ some (fail, buf, m)
  unfolding unopened_reads kernel read
  reads_refused m buf zero i fail h lo sum = refl
  reads_refused m buf (suc r) i fail h lo sum =
      let (d, at, off, none_set) = h i lo (omega arith) in
      rw (good_read i 31 buf (omega arith) (omega arith), at, off)
        (reads_refused m buf r (i + 1) fail h (omega arith) (omega arith))

  -- In a process that has never opened a file, the test of unopened descriptors never ends: the
  -- closes and reads are refused, but the first write is a call through a NULL pointer.
  err_unopened_faults :
      (m : Machine) (buf : List ℕ)
      → NeverOpened m
      → err_unopened (kernel run call user_table_at) m buf ≡ none
  unfolding err_unopened unopened_writes kernel write bad_call call_write
  err_unopened_faults m buf h =
      let (d, at, off, none_set) = h 2 (omega arith) (omega arith) in
      rw
        (
          closes_refused m 8 0 0 h (omega arith),
          reads_refused m buf 6 2 0 h (omega arith) (omega arith),
          at,
          none_set,
        )
        refl
