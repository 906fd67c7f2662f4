-- ===== src/Process/Terminals.antt =====
-- What `execute` and `halt` of student-distrib/syscall.c do to the terminal of the process.
use virtual_operating_system.Prelude.{
  ℕ, ◌+◌, ◌-◌, ◌%◌, ◌^◌, ◌<◌, ◌≡◌, inl, inr, refl, true, ◌==◌, if◌then◌else◌, ==_iff, Bool-cases,
  arith,
}
use virtual_operating_system.Console.Output.{Terminal, Console, current, set_terminal}
use virtual_operating_system.Machine.{Machine}
use virtual_operating_system.Process.{retire}

abbrev pub enter : ℕ → Console → Console
enter n k = set_terminal k k.terminal_num (record (current k) {
  flag = 1;
  process_num = n;
  total_process = ((current k).total_process + 1) % 2 ^ 32;
})

abbrev pub lower : ℕ → ℕ
lower total = (total + 2 ^ 32 - 1) % 2 ^ 32

abbrev pub retired : Console → Console
retired k =
    let last = lower (current k).total_process in
    set_terminal k k.terminal_num (record (current k) {
      total_process = last;
      process_num = (if last == 0 then 0 else (current k).process_num);
    })

abbrev pub resume : ℕ → Console → Console
resume p k = set_terminal k k.terminal_num (record (current k) { process_num = p })

pub retire_console : (m : Machine) → (retire m).console ≡ retired m.console
unfolding retire
retire_console m = refl

terminal_eq :
    (t : Terminal) (p f x : ℕ)
    → t.process_num ≡ p
    → t.flag ≡ f
    → x ≡ t.total_process
    → record t { process_num = p; flag = f; total_process = x } ≡ t
terminal_eq t p f x at flagged same = rw (← at, ← flagged, same)

-- The terminal is as it was before the program started.
pub resume-enter :
    (k : Console) (n p j : ℕ)
    → (current k).process_num ≡ p
    → (current k).flag ≡ 1
    → (current k).total_process + 1 < 2 ^ 32
    → (resume p (retired (enter n k))).terminals j ≡ k.terminals j
resume-enter k n p j at flagged room =
    let self : (k.terminal_num == k.terminal_num) ≡ true = ground arith in
    let same : lower (((current k).total_process + 1) % 2 ^ 32) ≡ (current k).total_process =
      omega (arith, room) in
    elim (Bool-cases (j == k.terminal_num)) [
      | inl here ↦
          let e : j ≡ k.terminal_num = (==_iff j k.terminal_num).0 here in
          rw (e, self)
            (terminal_eq (current k) p 1 (lower (((current k).total_process + 1) % 2 ^ 32)) at
              flagged same)
      | inr away ↦ rw away refl
    ]
