-- ===== src/Process/Halt.antt =====
-- How `halt` of student-distrib/syscall.c ends.
use virtual_operating_system.Prelude.{
  ℕ, ◌+◌, ◌-◌, ◌%◌, ◌^◌, ◌≤◌, ◌<◌, ℤ, true, false, Option, some, ◌≡◌, ◌≢◌, inl, inr, refl, ap, ◌∙◌,
  sym, get_elem?, set, length, ◌==◌, Bool-cases, >>=-eq-some, some_eq, arith,
}
use virtual_operating_system.Console.Output.{current, Console, update, set_terminal}
use virtual_operating_system.Machine.{
  Machine, Pcb, FileDesc, current_pcb, pcb_address, pcb_mask, fd_n,
}
use virtual_operating_system.Process.{
  after_shell, pde_index, program_pde, kernel_stack, Outcome, returned, entered, resumed, execute,
  close_all, leave, retire, halt, shell_command,
}
use virtual_operating_system.Process.Closing.{close_all-Freed, HasOperations, close_all_total}

-- What `halt` has done when it resumes the parent of the process that ran.
pub record Left (m : Machine) (m' : Machine) : Type 0 where
  pub stack : m'.esp0 ≡ kernel_stack (current_pcb m).process_num_prev
  pub same_process : m'.process ≡ m.process
  pub mapped : m'.page_directory pde_index ≡ program_pde (current_pcb m).process_num_prev
  pub terminal : (current m'.console).process_num ≡ (current_pcb m).process_num_prev
  pub none_open :
      (j : ℕ) (d : FileDesc)
      → 2 ≤ j
      → j < 8
      → get_elem? (m'.pcbs (pcb_address m)).file_desc_array j ≡ some d
      → d.flags ≢ 1
  pub others_kept : (a : ℕ) → a ≢ pcb_address m → m'.pcbs a ≡ m.pcbs a
  pub console :
      m'.console
      ≡ set_terminal m.console m.console.terminal_num
          (record (current m.console) { process_num = (current_pcb m).process_num_prev })
  pub directory :
      m'.page_directory
      ≡ update m.page_directory pde_index (program_pde (current_pcb m).process_num_prev)

leave-Left :
    (m : Machine) (status : ℕ) (o : Outcome)
    → length (current_pcb m).file_desc_array ≡ 8
    → leave m status ≡ some o
    → (m' : Machine) × (o ≡ resumed status m') × Left m m'
unfolding leave
leave-Left m status o len h =
    let parent = (current_pcb m).process_num_prev in
    let t = current m.console in
    let back : Machine = record m {
      console = set_terminal m.console m.console.terminal_num (record t { process_num = parent });
      page_directory = update m.page_directory pde_index (program_pde parent);
    } in
    let (closed, c, q) =
      >>=-eq-some {B = Outcome} (close_all (fd_n - 2) 2 back)
        (λ closed. some (resumed status (record closed { esp0 = kernel_stack parent }))) h in
    let f = close_all-Freed 6 2 back closed refl (omega arith) len c in
    let self : (m.console.terminal_num == m.console.terminal_num) ≡ true = ground arith in
    (
      record closed { esp0 = kernel_stack parent },
      sym (some_eq q),
      record {
        stack = refl;
        same_process = f.same_process;
        mapped = ap (λ (g : ℕ → ℕ). g pde_index) f.same_directory;
        terminal = ap (λ (k : Console). (current k).process_num) f.same_console ∙ rw self refl;
        none_open = λ j d lo hi e. f.none_open j d lo hi (
            ap (λ (a : ℕ). get_elem? (closed.pcbs (pcb_mask a)).file_desc_array j) f.same_stack
            ∙ e);
        others_kept = f.others_kept;
        console = f.same_console;
        directory = f.same_directory;
      },
    )

retire_more :
    (m : Machine)
    → 1 < (current m.console).total_process
    → (current m.console).total_process < 2 ^ 32
    → ((current (retire m).console).total_process == 0) ≡ false
unfolding retire
retire_more m lo hi =
    let self : (m.console.terminal_num == m.console.terminal_num) ≡ true = ground arith in
    let more : ((current m.console).total_process + 2 ^ 32 - 1) % 2 ^ 32 ≢ 0 =
      omega (arith, lo, hi) in
    rw self (ground (arith, more))

pub retire_pcb : (m : Machine) → current_pcb (retire m) ≡ current_pcb m
unfolding retire
retire_pcb m = refl

retire_process :
    (m : Machine) → (retire m).process ≡ set m.process (current m.console).process_num 0
unfolding retire
retire_process m = refl

leave_total :
    (m : Machine) (status : ℕ)
    → length (current_pcb m).file_desc_array ≡ 8
    → HasOperations m
    → (m' : Machine) × (leave m status ≡ some (resumed status m'))
unfolding leave
leave_total m status len ops =
    let parent = (current_pcb m).process_num_prev in
    let t = current m.console in
    let back : Machine = record m {
      console = set_terminal m.console m.console.terminal_num (record t { process_num = parent });
      page_directory = update m.page_directory pde_index (program_pde parent);
    } in
    let (closed, c) = close_all_total 6 2 back refl (omega arith) len ops in
    (record closed { esp0 = kernel_stack parent }, rw c)

retire-HasOperations : (m : Machine) → HasOperations m → HasOperations (retire m)
unfolding retire
retire-HasOperations m ops = ops

-- When a process halts that is not the last of its terminal, with eight descriptors in its control
-- block and operations in each that is in use, the process is free again. The parent resumes, with
-- its memory mapped, its kernel stack set and its number in the terminal, and no descriptor from 2
-- on of the process that halted is still in use.
pub halt-Left :
    (m : Machine) (status : ℕ)
    → length (current_pcb m).file_desc_array ≡ 8
    → HasOperations m
    → 1 < (current m.console).total_process
    → (current m.console).total_process < 2 ^ 32
    → (m' : Machine) × (halt m status ≡ some (resumed status m'))
      × Left (retire m) m'
      × (m'.process ≡ set m.process (current m.console).process_num 0)
unfolding halt
halt-Left m status len ops lo hi =
    let len1 : length (current_pcb (retire m)).file_desc_array ≡ 8 =
      ap (λ (p : Pcb). length p.file_desc_array) (retire_pcb m) ∙ len in
    let (m1, run) = leave_total (retire m) status len1 (retire-HasOperations m ops) in
    let (m', e, l) = leave-Left (retire m) status (resumed status m1) len1 run in
    (m', rw (retire_more m lo hi) (run ∙ ap some e), l, l.same_process ∙ retire_process m)

leave_resumes :
    (m : Machine) (status : ℕ) (z : ℤ) (m' : Machine) → leave m status ≢ some (returned z m')
unfolding leave
leave_resumes m status z m' h =
    let parent = (current_pcb m).process_num_prev in
    let t = current m.console in
    let back : Machine = record m {
      console = set_terminal m.console m.console.terminal_num (record t { process_num = parent });
      page_directory = update m.page_directory pde_index (program_pde parent);
    } in
    let (closed, _, q) =
      >>=-eq-some {B = Outcome} (close_all (fd_n - 2) 2 back)
        (λ closed. some (resumed status (record closed { esp0 = kernel_stack parent }))) h in
    absurd (resumed_ne q)
  where
    resumed_ne :
        {s : ℕ} {z : ℤ} {a b : Machine}
        → ◌≡◌ {A = Option Outcome} (some (resumed s a)) (some (returned z b))
        → ⊥
    resumed_ne q = cc

after_shell_leaves :
    (status : ℕ) (o : Outcome) (z : ℤ) (m' : Machine) → after_shell status o ≢ some (returned z m')
after_shell_leaves status (returned y m) z m' h = leave_resumes m status z m' h
after_shell_leaves status (entered e m) z m' h = cc
after_shell_leaves status (resumed s m) z m' h = cc

-- `halt` never returns to the program that called it, also when no new shell can be started.
pub halt_leaves :
    (m : Machine) (status : ℕ) (z : ℤ) (m' : Machine) → halt m status ≢ some (returned z m')
unfolding halt
halt_leaves m status z m' h = elim (Bool-cases ((current (retire m).console).total_process == 0)) [
  | inl last ↦
      let (o, _, q) =
        >>=-eq-some {B = Outcome} (execute (retire m) (some shell_command)) (after_shell status)
          (rw last at h) in
      after_shell_leaves status o z m' q
  | inr more ↦ leave_resumes (retire m) status z m' (rw more at h)
]
