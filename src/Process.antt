-- ===== src/Process.antt =====
-- student-distrib/syscall.c: `execute` and `halt`. The assembly that switches stacks is not
-- modelled: `execute` ends by entering the program and `halt` by resuming the parent.
pub mod Parse
pub mod Search
pub mod Lifecycle
pub mod Loading
pub mod Frames
pub mod Closing
pub mod Halt
pub mod Terminals
pub mod Return
pub mod Arguments
use Prim.Native.Nat.{bit_or}
use virtual_operating_system.Prelude.{
  ℕ, zero, suc, ◌+◌, ◌-◌, ◌*◌, ◌%◌, ◌^◌, ℤ, pos, negsuc, Bool, true, false, not, Option, none, some,
  List, [], ◌∷◌, drop, replicate, get_elem?, set, length, ltb, leb, ◌==◌, if◌then◌else◌, ◌>>=◌,
  ◌||◌, ◌&&◌,
}
use virtual_operating_system.Strings.{strncpy, strcpy, write?}
use virtual_operating_system.Console.Output.{Console, Terminal, current, set_terminal, update, puts}
use virtual_operating_system.FileSystem.{
  FileSystem, load32, inode_address, read_dentry_by_name, read_data, inode_num, blank_dentry,
  little_endian, is_zero, Dentry,
}
use virtual_operating_system.Machine.{
  Machine, term, FileDesc, Pcb, current_pcb, eight_mb, four_mb, eight_kb, fd_n,
}
use virtual_operating_system.Syscall.{close, dentry_or_blank}

-- The bytes from the first one on that is no space.
unfoldable pub skip_spaces : List ℕ → Option (List ℕ)
skip_spaces [] = none
skip_spaces (c ∷ s) = if c == b' ' then skip_spaces s else some (c ∷ s)

abbrev pub ends_word : ℕ → Bool
ends_word c = c == b' ' || c == 10 || c == 0

-- `end - start`: the bytes in front of the first space, newline or NUL.
unfoldable pub word_length : List ℕ → Option ℕ
word_length [] = none
word_length (c ∷ s) = if ends_word c then some 0 else (word_length s >>= λ n. some (suc n))

-- The local arrays `cmd` and `argument` before they are written.
abbrev pub blank_line : List ℕ
blank_line = replicate 128 0

-- One word copied into an array of 128 bytes with a NUL behind it, and what follows the word.
unfoldable pub take_word : List ℕ → Option (List ℕ × List ℕ)
unfolding skip_spaces word_length
take_word command = skip_spaces command >>= λ s.
    word_length s >>= λ n. strncpy blank_line s n >>= λ b. write? b n 0 >>= λ w. some (w, drop n s)

-- The command and its argument.
unfoldable pub parse : List ℕ → Option (List ℕ × List ℕ)
unfolding take_word
parse command = take_word command >>= λ c. take_word c.1 >>= λ a. some (c.0, a.0)

-- `for (i = 1; i <= PROCESS_NUM_MAX; i++)` with `r` rounds left. The array has entries 0 to 5.
unfoldable pub find_free : List ℕ → ℕ → ℕ → Option (Option ℕ)
find_free process zero i = some none
find_free process (suc r) i =
    let rest = find_free process r (suc i) in
    get_elem? process i >>= λ p. if p == 0 then some (some i) else rest

abbrev pub process_num_max : ℕ
process_num_max = 6

-- `PROGRAM_IMAGE_ADDR/FOUR_MB`.
abbrev pub pde_index : ℕ
pde_index = 32

-- The page directory entry of the program of process `n`. For `n = 0` the 32-bit arithmetic gives
-- the page below 8 MB.
abbrev pub program_pde : ℕ → ℕ
program_pde n = bit_or (bit_or (bit_or (eight_mb + n * four_mb - four_mb) 0x80) 0x03) 0x04

-- `EIGHT_MB - EIGHT_KB * (n - 1) - BYTE`.
abbrev pub kernel_stack : ℕ → ℕ
kernel_stack n = eight_mb + eight_kb - eight_kb * n - 4

abbrev pub pcb_location : ℕ → ℕ
pcb_location n = eight_mb - eight_kb * n

abbrev pub exe_magic_number : List ℕ
exe_magic_number = 0x7f ∷ 0x45 ∷ 0x4c ∷ 0x46 ∷ []

abbrev pub same_bytes : List ℕ → List ℕ → Bool
same_bytes [] [] = true
same_bytes [] (y ∷ ys) = false
same_bytes (x ∷ xs) [] = false
same_bytes (x ∷ xs) (y ∷ ys) = x == y && same_bytes xs ys

-- The descriptors 0 and 1 become the terminal.
abbrev pub open_std : List FileDesc → List FileDesc
open_std [] = []
open_std (d0 ∷ []) = record d0 { fops = some term; flags = 1 } ∷ []
open_std (d0 ∷ d1 ∷ ds) =
    record d0 { fops = some term; flags = 1 } ∷ record d1 { fops = some term; flags = 1 } ∷ ds

-- The control block of the new process `next`, started from the process `prev`.
unfoldable pub new_pcb : Pcb → ℕ → ℕ → List ℕ → Pcb
new_pcb p next prev argument = record {
  file_desc_array = open_std p.file_desc_array;
  process_num_prev = prev;
  process_num = next;
  argument = argument;
}

-- What `execute` does once the program is found: everything from the paging on.
unfoldable pub start : Machine → ℕ → List ℕ → List ℕ → Machine
unfolding new_pcb
start m next loaded argument =
    let t = current m.console in
    record m {
      page_directory = update m.page_directory pde_index (program_pde next);
      user_image = update m.user_image next loaded;
      process = set m.process next 1;
      pcbs =
          update m.pcbs (pcb_location next)
            (new_pcb (m.pcbs (pcb_location next)) next m.current_process_num argument);
      esp0 = kernel_stack next;
      console = set_terminal m.console m.console.terminal_num (record t {
        flag = 1;
        process_num = next;
        total_process = (t.total_process + 1) % 2 ^ 32;
      });
    }

-- How a call that may leave the kernel ends.
pub data Outcome : Type 0 where
  returned : ℤ → Machine → Outcome
  entered : ℕ → Machine → Outcome
  resumed : ℕ → Machine → Outcome

-- The memory from the program's address 0x8048000 to the end of the process's page at 0x8400000.
abbrev pub image_room : ℕ
image_room = 0x3B8000

-- The bytes that `read_data` writes at the program's address: no more than the file has, and no more
-- than 4 MB. Behind the page of the process there is no memory that is its own: a fault.
unfoldable pub program_image : FileSystem → ℕ → Option (List ℕ)
program_image fs inode =
    read_data fs inode 0 (replicate (load32 fs (inode_address fs inode)) 0) four_mb >>= λ r.
    if ltb image_room (length r.1) then none else some r.1

-- What `execute` does with the inode of the program. The result of `read_data` is not looked at.
unfoldable pub load_program : Machine → ℕ → ℕ → List ℕ → Option Outcome
unfolding program_image start
load_program m next inode argument = read_data m.fs inode 0 (replicate 4 0) 4 >>= λ header.
    if not (same_bytes header.1 exe_magic_number)
    then some (returned (negsuc 0) m)
    else (read_data m.fs inode 24 (replicate 4 0) 4 >>= λ entry.
        program_image m.fs inode >>= λ loaded.
        strcpy (m.pcbs (pcb_location next)).argument argument >>= λ copied.
        some (entered (little_endian entry.1) (start m next loaded copied)))

-- `execute` with the free process `next`.
unfoldable pub load : Machine → ℕ → List ℕ → Option Outcome
unfolding parse load_program
load m next command = parse command >>= λ words.
    read_dentry_by_name m.fs words.0 (some blank_dentry) >>= λ found.
    if not (is_zero found.0)
    then some (returned (negsuc 0) m)
    else load_program m next (inode_num (dentry_or_blank found.1)) words.1

-- `"no more process\n"`.
abbrev pub no_more_process : List ℕ
no_more_process =
    110 ∷ 111 ∷ 32 ∷ 109 ∷ 111 ∷ 114 ∷ 101 ∷ 32 ∷ 112 ∷ 114 ∷ 111 ∷ 99 ∷ 101 ∷ 115 ∷ 115 ∷ 10 ∷ []

-- The branches behind the search for a free process.
abbrev pub load_free : Machine → List ℕ → Option ℕ → Option Outcome
load_free m command none =
    puts no_more_process m.console >>= λ k. some (returned (pos 0) (record m { console = k }))
load_free m command (some next) = load m next command

unfoldable pub execute : Machine → Option (List ℕ) → Option Outcome
unfolding find_free
execute m command =
    let m0 = record m { current_process_num = (current m.console).process_num } in
    elim command [
      | none ↦ some (returned (negsuc 0) m0)
      | some c ↦ find_free m.process process_num_max 1 >>= load_free m0 c
    ]

-- The loop of `halt` over the descriptors, with `r` left, from `i`.
unfoldable pub close_all : ℕ → ℕ → Machine → Option Machine
close_all zero i m = some m
close_all (suc r) i m =
    let rest : Machine → Option Machine = λ k. close_all r (suc i) k in
    get_elem? (current_pcb m).file_desc_array i >>= λ d.
    if d.flags == 1 then (close m (pos i) >>= λ s. rest s.1) else rest m

-- `"shell"`.
abbrev pub shell_command : List ℕ
shell_command = 115 ∷ 104 ∷ 101 ∷ 108 ∷ 108 ∷ 0 ∷ []

-- Steps 1 to 4 of `halt`.
unfoldable pub leave : Machine → ℕ → Option Outcome
unfolding close_all
leave m status =
    let parent = (current_pcb m).process_num_prev in
    let t = current m.console in
    let back = record m {
      console = set_terminal m.console m.console.terminal_num (record t { process_num = parent });
      page_directory = update m.page_directory pde_index (program_pde parent);
    } in
    close_all (fd_n - 2) 2 back >>= λ closed.
    some (resumed status (record closed { esp0 = kernel_stack parent }))

-- The process and its terminal are marked first. A terminal's last process is replaced by a shell.
unfoldable pub retire : Machine → Machine
retire m =
    let t = current m.console in
    let last = (t.total_process + 2 ^ 32 - 1) % 2 ^ 32 in
    record m {
      current_process_num = t.process_num;
      process = set m.process t.process_num 0;
      console = set_terminal m.console m.console.terminal_num (record t {
        total_process = last;
        process_num = (if last == 0 then 0 else t.process_num);
      });
    }

-- If the new shell cannot be started, `halt` goes on.
abbrev pub after_shell : ℕ → Outcome → Option Outcome
after_shell status (returned z m) = leave m status
after_shell status (entered e m) = some (entered e m)
after_shell status (resumed s m) = some (resumed s m)

unfoldable pub halt : Machine → ℕ → Option Outcome
unfolding retire execute leave
halt m status =
    let m1 = retire m in
    if (current m1.console).total_process == 0
    then (execute m1 (some shell_command) >>= after_shell status)
    else leave m1 status
