-- ===== src/Process/Lifecycle.antt =====
-- How `execute` of student-distrib/syscall.c picks a process and enters it.
use virtual_operating_system.Prelude.{
  ℕ, ◌+◌, ◌%◌, ◌^◌, ◌≤◌, ℤ, pos, negsuc, Bool, true, false, not, Option, none, some, List, ◌≡◌, ◌≢◌,
  refl, get_elem?, set, length, replicate, ◌==◌, >>=-eq-some, if◌then◌else◌, ◌>>=◌, arith,
}
use virtual_operating_system.Console.Output.{current, puts, update, set_terminal}
use virtual_operating_system.Strings.{strcpy}
use virtual_operating_system.FileSystem.{
  read_data, read_dentry_by_name, blank_dentry, is_zero, inode_num, little_endian,
}
use virtual_operating_system.Syscall.{dentry_or_blank}
use virtual_operating_system.Machine.{Machine}
use virtual_operating_system.Process.{
  find_free, process_num_max, pde_index, program_pde, kernel_stack, pcb_location, start, Outcome,
  parse, returned, entered, load, load_program, program_image, load_free, no_more_process, execute,
  exe_magic_number, same_bytes,
}
use virtual_operating_system.Process.Search.{IsFirstFree, find_free-IsFirstFree, find_free_full}

-- What `execute` has done when it enters the program of process `n`.
pub record Entered (m : Machine) (n : ℕ) (m' : Machine) : Type 0 where
  pub first_free : IsFirstFree m.process 1 n
  pub marked : m'.process ≡ set m.process n 1
  pub mapped : m'.page_directory pde_index ≡ program_pde n
  pub stack : m'.esp0 ≡ kernel_stack n
  pub control : (m'.pcbs (pcb_location n)).process_num ≡ n
  pub parent : (m'.pcbs (pcb_location n)).process_num_prev ≡ (current m.console).process_num
  pub terminal : (current m'.console).process_num ≡ n
  pub others_kept : (a : ℕ) → a ≢ pcb_location n → m'.pcbs a ≡ m.pcbs a
  pub directory : m'.page_directory ≡ update m.page_directory pde_index (program_pde n)
  pub console :
      m'.console
      ≡ set_terminal m.console m.console.terminal_num (record (current m.console) {
        flag = 1;
        process_num = n;
        total_process = ((current m.console).total_process + 1) % 2 ^ 32;
      })

abbrev Step : Type 0
Step = Option Outcome

entered_ne :
    {z : ℤ} {e : ℕ} {a b : Machine} → ◌≡◌ {A = Step} (some (returned z a)) (some (entered e b)) → ⊥
entered_ne h = cc

entered_eq :
    {d e : ℕ} {a b : Machine} → ◌≡◌ {A = Step} (some (entered d a)) (some (entered e b)) → a ≡ b
entered_eq h = ground arith

start-Entered :
    (m : Machine) (n : ℕ) (loaded argument : List ℕ)
    → IsFirstFree m.process 1 n
    → m.current_process_num ≡ (current m.console).process_num
    → Entered m n (start m n loaded argument)
unfolding start
start-Entered m n loaded argument h prev =
    let self : (pcb_location n == pcb_location n) ≡ true = ground arith in
    let term : (m.console.terminal_num == m.console.terminal_num) ≡ true = ground arith in
    record {
      first_free = h;
      marked = refl;
      mapped = refl;
      stack = refl;
      control = rw self;
      parent = rw (self, prev);
      terminal = rw term;
      others_kept = λ a ne. let off : (a == pcb_location n) ≡ false = ground (arith, ne) in rw off;
      directory = refl;
      console = refl;
    }

not_returned :
    (b : Bool) (z : ℤ) (m m' : Machine) (e : ℕ) (o : Step)
    → ◌≡◌ {A = Step} (if b then some (returned z m) else o) (some (entered e m'))
    → o ≡ some (entered e m')
not_returned true z m m' e o h = absurd (entered_ne h)
not_returned false z m m' e o h = h

load_program-entered :
    (m : Machine) (n inode : ℕ) (c : List ℕ) (e : ℕ) (m' : Machine)
    → load_program m n inode c ≡ some (entered e m')
    → (loaded : List ℕ) × (argument : List ℕ) × (start m n loaded argument ≡ m')
unfolding load_program
load_program-entered m n inode c e m' h =
    let copy = λ (entry : ℤ × List ℕ) (loaded : List ℕ).
      strcpy (m.pcbs (pcb_location n)).argument c >>= λ copied.
      some (entered (little_endian entry.1) (start m n loaded copied)) in
    let fill = λ (entry : ℤ × List ℕ). program_image m.fs inode >>= λ loaded. copy entry loaded in
    let rest = read_data m.fs inode 24 (replicate 4 0) 4 >>= λ entry. fill entry in
    let (header, _, q) =
      >>=-eq-some {B = Outcome} (read_data m.fs inode 0 (replicate 4 0) 4)
        (λ header.
          if not (same_bytes header.1 exe_magic_number) then some (returned (negsuc 0) m) else rest)
        h in
    let q2 = not_returned (not (same_bytes header.1 exe_magic_number)) (negsuc 0) m m' e rest q in
    let (entry, _, q3) =
      >>=-eq-some {B = Outcome} (read_data m.fs inode 24 (replicate 4 0) 4) fill q2 in
    let (loaded, _, q4) = >>=-eq-some {B = Outcome} (program_image m.fs inode) (copy entry) q3 in
    let (copied, _, q5) =
      >>=-eq-some {B = Outcome} (strcpy (m.pcbs (pcb_location n)).argument c)
        (λ copied. some (entered (little_endian entry.1) (start m n loaded copied))) q4 in
    (loaded, copied, entered_eq q5)

load-entered :
    (m : Machine) (n : ℕ) (c : List ℕ) (e : ℕ) (m' : Machine)
    → load m n c ≡ some (entered e m')
    → (loaded : List ℕ) × (argument : List ℕ) × (start m n loaded argument ≡ m')
unfolding load
load-entered m n c e m' h =
    let (words, _, q) =
      >>=-eq-some {B = Outcome} (parse c)
        (λ words. read_dentry_by_name m.fs words.0 (some blank_dentry) >>= λ found.
          if not (is_zero found.0)
          then some (returned (negsuc 0) m)
          else load_program m n (inode_num (dentry_or_blank found.1)) words.1)
        h in
    let (found, _, q2) =
      >>=-eq-some {B = Outcome} (read_dentry_by_name m.fs words.0 (some blank_dentry))
        (λ found.
          if not (is_zero found.0)
          then some (returned (negsuc 0) m)
          else load_program m n (inode_num (dentry_or_blank found.1)) words.1)
        q in
    load_program-entered m n (inode_num (dentry_or_blank found.1)) words.1 e m' (
      not_returned (not (is_zero found.0)) (negsuc 0) m m' e
        (load_program m n (inode_num (dentry_or_blank found.1)) words.1) q2)

load_free-Entered :
    (m : Machine) (c : List ℕ) (o : Option ℕ) (e : ℕ) (m' : Machine)
    → find_free m.process process_num_max 1 ≡ some o
    → m.current_process_num ≡ (current m.console).process_num
    → load_free m c o ≡ some (entered e m')
    → (n : ℕ) × Entered m n m'
load_free-Entered m c none e m' at prev h =
    let (k, _, q) =
      >>=-eq-some {B = Outcome} (puts no_more_process m.console)
        (λ k. some (returned (pos 0) (record m { console = k }))) h in
    absurd (entered_ne q)
load_free-Entered m c (some n) e m' at prev h =
    let (b, a, s) = load-entered m n c e m' h in
    (n, rw (← s) (start-Entered m n b a (find_free-IsFirstFree m.process 6 1 n at) prev))

-- When `execute` enters a program, its process is the lowest free one from 1 on. The process is
-- marked in the table, its memory is mapped, its kernel stack is set, its control block holds its
-- number and that of the process that ran on the terminal, which it replaces there, and all other
-- control blocks are kept.
pub execute-Entered :
    (m : Machine) (c : List ℕ) (e : ℕ) (m' : Machine)
    → execute m (some c) ≡ some (entered e m')
    → (n : ℕ) × Entered m n m'
unfolding execute
execute-Entered m c e m' h =
    let m0 = record m { current_process_num = (current m.console).process_num } in
    let (o, at, q) =
      >>=-eq-some {B = Outcome} (find_free m.process process_num_max 1) (load_free m0 c) h in
    let (n, r) = load_free-Entered m0 c o e m' at refl q in
    (
      n,
      record {
        first_free = r.first_free;
        marked = r.marked;
        mapped = r.mapped;
        stack = r.stack;
        control = r.control;
        parent = r.parent;
        terminal = r.terminal;
        others_kept = r.others_kept;
        directory = r.directory;
        console = r.console;
      },
    )

-- With six entries in the process table and the processes 1 to 5 in use, `execute` looks at a sixth entry, which the table does not have.
pub execute_full :
    (m : Machine) (c : List ℕ)
    → length m.process ≡ 6
    → ((l p : ℕ) → 1 ≤ l → get_elem? m.process l ≡ some p → p ≢ 0)
    → execute m (some c) ≡ none
unfolding execute
execute_full m c len used =
    rw (find_free_full m.process process_num_max 1 (omega (arith, len)) (omega (arith, len)) used)
