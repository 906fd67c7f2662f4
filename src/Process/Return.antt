-- ===== src/Process/Return.antt =====
-- `execute` of student-distrib/syscall.c followed by the `halt` of the program that it entered.
use virtual_operating_system.Prelude.{
  ℕ, zero, suc, ◌+◌, ◌^◌, ◌≤◌, ◌<◌, Option, some, List, [], ◌∷◌, ◌≡◌, ◌≢◌, inl, inr, refl, ap, ◌∙◌,
  sym, true, get_elem?, set, length, ◌==◌, ==_iff, Bool-cases, some_eq, arith,
}
use virtual_operating_system.Prelude.Ensures.{Ensures-eq_some}
use virtual_operating_system.Console.Output.{Console, current, update}
use virtual_operating_system.Machine.{Machine, Pcb, current_pcb, pcb_address, pcb_mask}
use virtual_operating_system.Process.{
  pde_index, program_pde, kernel_stack, pcb_location, Outcome, entered, resumed, execute, retire,
  halt,
}
use virtual_operating_system.Process.Lifecycle.{Entered, execute-Entered}
use virtual_operating_system.Process.Closing.{HasOperations}
use virtual_operating_system.Process.Halt.{Left, halt-Left, retire_pcb}
use virtual_operating_system.Invariant.{IsSound}
use virtual_operating_system.Invariant.Programs.{machine_of, execute-IsSound}
use virtual_operating_system.Process.Terminals.{
  enter, retired, resume, retire_console, resume-enter,
}

-- Process `p` runs on the current terminal.
pub record IsRunning (m : Machine) (p : ℕ) : Type 0 where
  pub low : 1 ≤ p
  pub high : p ≤ 5
  pub used : get_elem? m.process p ≡ some 1
  pub stack : m.esp0 ≡ kernel_stack p
  pub mapped : m.page_directory pde_index ≡ program_pde p
  pub terminal : (current m.console).process_num ≡ p
  pub flagged : (current m.console).flag ≡ 1
  pub counted : 1 ≤ (current m.console).total_process
  pub room : (current m.console).total_process + 1 < 2 ^ 32

-- Everything that `execute` changes is as in `m` again, but for the control block of process `n`.
pub record Restored (m : Machine) (n : ℕ) (m' : Machine) : Type 0 where
  pub stack : m'.esp0 ≡ m.esp0
  pub directory : (i : ℕ) → m'.page_directory i ≡ m.page_directory i
  pub process : m'.process ≡ m.process
  pub terminals : (j : ℕ) → m'.console.terminals j ≡ m.console.terminals j
  pub terminal_num : m'.console.terminal_num ≡ m.console.terminal_num
  pub caller : current_pcb m' ≡ current_pcb m
  pub others : (a : ℕ) → a ≢ pcb_location n → m'.pcbs a ≡ m.pcbs a

set-set : (xs : List ℕ) (i a b : ℕ) → get_elem? xs i ≡ some a → set (set xs i b) i a ≡ xs
set-set [] i a b h = refl
set-set (x ∷ xs) zero a b h = ap (λ y. y ∷ xs) (sym (some_eq h))
set-set (x ∷ xs) (suc i) a b h = ap (◌∷◌ x) (set-set xs i a b h)

get_elem?-lt : {p : ℕ} (xs : List ℕ) (i : ℕ) → get_elem? xs i ≡ some p → i < length xs
get_elem?-lt [] i h = absurd (cc)
get_elem?-lt (x ∷ xs) zero h = omega arith
get_elem?-lt (x ∷ xs) (suc i) h = omega (arith, get_elem?-lt xs i h)

-- The control block that the kernel stack of a process leads to is its own.
pcb_mask-kernel_stack : (n : ℕ) → n ≤ 5 → pcb_mask (kernel_stack n) ≡ pcb_location n
pcb_mask-kernel_stack n hi = omega arith

pcb_location_ne : (n p : ℕ) → n ≤ 5 → p ≤ 5 → p ≢ n → pcb_location p ≢ pcb_location n
pcb_location_ne n p hi hp ne = omega arith

sound-HasOperations : (m : Machine) → IsSound m → HasOperations m
sound-HasOperations m h j d lo hi at used =
    (h.blocks (pcb_address m)).usable j d at (omega (arith, used))

resume_console :
    (m1 m2 : Machine) (k : Console) (n : ℕ)
    → Left (retire m1) m2
    → m1.console ≡ enter n k
    → m2.console ≡ resume (current_pcb (retire m1)).process_num_prev (retired (enter n k))
resume_console m1 m2 k n l e =
    l.console
    ∙ ap (resume (current_pcb (retire m1)).process_num_prev) (retire_console m1 ∙ ap retired e)

retired_address : (m : Machine) → pcb_address (retire m) ≡ pcb_address m
unfolding retire
retired_address m = refl

retired_pcbs : (m : Machine) (a : ℕ) → (retire m).pcbs a ≡ m.pcbs a
unfolding retire
retired_pcbs m a = refl

retired_directory : (m : Machine) → (retire m).page_directory ≡ m.page_directory
unfolding retire
retired_directory m = refl

update_back :
    (f f1 f2 f3 : ℕ → ℕ) (x y : ℕ)
    → f1 ≡ update f pde_index x
    → f2 ≡ f1
    → f3 ≡ update f2 pde_index y
    → f pde_index ≡ y
    → (i : ℕ) → f3 i ≡ f i
update_back f f1 f2 f3 x y e1 e2 e3 at i =
    rw (e3, e2, e1)
      (elim (Bool-cases (i == pde_index)) [
        | inl here ↦
            let z : i ≡ pde_index = (==_iff i pde_index).0 here in rw here (sym at ∙ ap f (sym z))
        | inr away ↦ rw away refl
      ])

-- Process `p` enters a program as process `n`.
module _ (m m1 : Machine) (p n : ℕ) (ent : Entered m n m1) (runs : IsRunning m p)
    (room : n ≤ 5) where
  apart : p ≢ n
  apart q =
      let same : ◌≡◌ {A = Option ℕ} (some 1) (some 0) =
        sym runs.used ∙ ap (get_elem? m.process) q ∙ ent.first_free.free in
      absurd (omega (arith, some_eq same))

  own_block : pcb_address m1 ≡ pcb_location n
  own_block = ap pcb_mask ent.stack ∙ pcb_mask-kernel_stack n room

  total : (current m1.console).total_process ≡ (current m.console).total_process + 1
  total =
      let self : (m.console.terminal_num == m.console.terminal_num) ≡ true = ground arith in
      ap (λ (k : Console). (current k).total_process) ent.console
      ∙ rw self (omega (arith, runs.room))

  caller_num : (current_pcb (retire m1)).process_num_prev ≡ p
  caller_num =
      ap (λ (x : Pcb). x.process_num_prev) (retire_pcb m1 ∙ ap m1.pcbs own_block)
      ∙ ent.parent
      ∙ runs.terminal

  -- A return to the parent puts everything back.
  Left-Restored :
      (m2 : Machine)
      → Left (retire m1) m2
      → m2.process ≡ set m1.process (current m1.console).process_num 0
      → Restored m n m2
  Left-Restored m2 l table =
      let console : m2.console ≡ resume p (retired (enter n m.console)) =
        resume_console m1 m2 m.console n l ent.console
        ∙ ap (λ q. resume q (retired (enter n m.console))) caller_num in
      let back : m2.esp0 ≡ m.esp0 = l.stack ∙ ap kernel_stack caller_num ∙ sym runs.stack in
      let others : (a : ℕ) → a ≢ pcb_location n → m2.pcbs a ≡ m.pcbs a = λ a away.
        l.others_kept a (λ q. away (q ∙ retired_address m1 ∙ own_block))
        ∙ retired_pcbs m1 a
        ∙ ent.others_kept a away in
      let at_p : pcb_address m ≡ pcb_location p =
        ap pcb_mask runs.stack ∙ pcb_mask-kernel_stack p runs.high in
      record {
        stack = back;
        directory =
            update_back m.page_directory m1.page_directory (retire m1).page_directory
              m2.page_directory (program_pde n) (program_pde p) ent.directory (retired_directory m1)
              (l.directory
                ∙ ap (λ q. update (retire m1).page_directory pde_index (program_pde q)) caller_num)
              runs.mapped;
        process =
            table
            ∙ ap (λ q. set q (current m1.console).process_num 0) ent.marked
            ∙ ap (λ q. set (set m.process n 1) q 0) ent.terminal
            ∙ set-set m.process n 0 1 ent.first_free.free;
        terminals = λ j.
            ap (λ (k : Console). k.terminals j) console
            ∙ resume-enter m.console n p j runs.terminal runs.flagged runs.room;
        terminal_num = ap (λ (k : Console). k.terminal_num) console;
        caller =
            ap m2.pcbs (ap pcb_mask back)
            ∙ others (pcb_address m) (λ q. pcb_location_ne n p room runs.high apart (sym at_p ∙ q));
        others = others;
      }

-- For a machine whose table and control blocks are sound, and whose process, one of 1 to 5, is marked
-- and has its kernel stack, its memory and its terminal as `execute` sets them, where the terminal
-- counts at least one process and fewer than 2 ^ 32 - 1: when `execute` enters a program, a `halt` of
-- that program at once resumes the process. The kernel stack, the page directory, the process table,
-- every terminal, the control block of the process and every other one but that of the program are
-- then as they were before the program was started.
pub halt-execute :
    (m m1 : Machine) (p e status : ℕ) (command : List ℕ)
    → IsSound m
    → IsRunning m p
    → execute m (some command) ≡ some (entered e m1)
    → (n : ℕ) × (m2 : Machine) × (halt m1 status ≡ some (resumed status m2)) × Restored m n m2
halt-execute m m1 p e status command sound runs h =
    let (n, ent) = execute-Entered m command e m1 h in
    let o : IsSound m1 =
      Ensures-eq_some (λ (x : Outcome). IsSound (machine_of x)) (execute m (some command))
        (execute-IsSound m (some command) sound) h in
    let room : n ≤ 5 = omega (arith, get_elem?-lt m.process n ent.first_free.free, sound.table) in
    let more = total m m1 p n ent runs room in
    let (m2, run, l, table) =
      halt-Left m1 status ((o.blocks (pcb_address m1)).size) (sound-HasOperations m1 o)
        (omega (arith, more, runs.counted)) (omega (arith, more, runs.room)) in
    (n, m2, run, Left-Restored m m1 p n ent runs room m2 l table)
