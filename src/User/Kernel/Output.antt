-- ===== src/User/Kernel/Output.antt =====
-- What a program writes to descriptor 1 is on its terminal: `write` of student-distrib/syscall.c with
-- `terminal_write`, and `ece391_fdputs` of syscalls/ece391support.c.
use virtual_operating_system.Prelude.{
  ℕ, zero, suc, ◌+◌, ◌≤◌, ℤ, pos, Option, some, List, [], ◌∷◌, ◌++◌, ◌≡◌, refl, ◌∙◌, inl, inr, take,
  length, length-append, Option-cases, ◌>>=◌, arith,
}
use virtual_operating_system.Strings.Laws.{NoNul, strlen-append}
use virtual_operating_system.Console.Output.{Console, putc, puts}
use virtual_operating_system.Console.Numbers.{take-append}
use virtual_operating_system.Console.Isolation.{CursorsValid}
use virtual_operating_system.Console.Total.{NoBackspace, puts_total}
use virtual_operating_system.Terminal.{write_from, terminal_write}
use virtual_operating_system.Machine.{Machine, FileDesc, term}
use virtual_operating_system.Syscall.{write, bad_call, write_with, call_write}
use virtual_operating_system.Syscall.Files.{descriptor}
use virtual_operating_system.User.{fdputs}
use virtual_operating_system.User.Kernel.{kernel}

write_from-puts :
    (buf : List ℕ) (k : Console) (n i : ℕ)
    → n ≤ length buf
    → write_from k buf n i ≡ (puts (take n buf) k >>= λ k'. some (pos (i + n), k'))
unfolding write_from puts
write_from-puts buf k zero i h = let e : i ≡ i + 0 = omega arith in rw (← e) refl
write_from-puts [] k (suc n) i h = absurd (omega arith)
write_from-puts (c ∷ buf) k (suc n) i h = elim (Option-cases (putc c k)) [
  | inl e ↦ rw e refl
  | inr (k1, e) ↦
      let count : suc i + n ≡ i + suc n = omega arith in
      rw e (rw count at (write_from-puts buf k1 n (suc i) (omega arith)))
]

-- Descriptor 1 of the process that runs is the terminal.
abbrev pub HasTerminal : Machine → Type 0
HasTerminal m = (d : FileDesc) × (descriptor m 1 ≡ some d) × (d.fops ≡ some term)

abbrev pub shown_as : Machine → Console → Machine
shown_as m k = record m { console = k }

pub write-puts :
    (m : Machine) (buf : List ℕ) (n : ℕ)
    → HasTerminal m
    → n ≤ length buf
    → write m (pos 1) (some buf) (pos n)
      ≡ (puts (take n buf) m.console >>= λ k. some (pos n, shown_as m k))
unfolding write bad_call call_write write_with terminal_write
write-puts m buf n (d, at, ops) h =
    let written = write_from-puts buf m.console n 0 h in
    let e : 0 + n ≡ n = omega arith in
    elim (Option-cases (puts (take n buf) m.console)) [
      | inl fault ↦ rw (at, ops, written, fault) refl
      | inr (k, run) ↦ rw (at, ops, written, run, e) refl
    ]

module _ (run : Machine → List ℕ → Option (ℤ × Machine)) (call : Machine → ℤ → Option (ℤ × Machine))
    (user_table_at : ℕ) where
  fdputs-puts :
      (m : Machine) (s rest : List ℕ)
      → HasTerminal m
      → NoNul s
      → fdputs (kernel run call user_table_at) m (pos 1) (s ++ (0 ∷ rest))
        ≡ (puts s m.console >>= λ k. some (shown_as m k))
  unfolding fdputs kernel
  fdputs-puts m s rest t z =
      let room : length s ≤ length (s ++ (0 ∷ rest)) = omega (arith, length-append s (0 ∷ rest)) in
      elim (Option-cases (puts s m.console)) [
        | inl fault ↦
            rw
              (
                strlen-append s rest z,
                write-puts m (s ++ (0 ∷ rest)) (length s) t room,
                take-append s (0 ∷ rest),
                fault,
              )
              refl
        | inr (k, run) ↦
            rw
              (
                strlen-append s rest z,
                write-puts m (s ++ (0 ∷ rest)) (length s) t room,
                take-append s (0 ∷ rest),
                run,
              )
              refl
      ]

  -- A string without backspaces is shown in full.
  pub fdputs_total :
      (m : Machine) (s rest : List ℕ)
      → HasTerminal m
      → CursorsValid m.console
      → NoNul s
      → NoBackspace s
      → (k : Console) × (puts s m.console ≡ some k)
        × CursorsValid k
        × (fdputs (kernel run call user_table_at) m (pos 1) (s ++ (0 ∷ rest)) ≡ some (shown_as m k))
  fdputs_total m s rest t v z b =
      let (k, e, w) = puts_total s m.console v b in (k, e, w, fdputs-puts m s rest t z ∙ rw e refl)
