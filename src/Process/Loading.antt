-- ===== src/Process/Loading.antt =====
-- `execute` of student-distrib/syscall.c on a program that the file system holds.
use mathlib.Core.List.{append-nil}
use virtual_operating_system.Prelude.{
  ℕ, zero, suc, ◌+◌, ◌-◌, ◌≤◌, ◌<◌, pos, true, false, some, List, [], ◌∷◌, ◌++◌, ◌≡◌, ◌≢◌, refl, ap,
  ◌∙◌, inl, inr, take, drop, replicate, get_elem?, set, ltb, ◌%◌, ◌^◌, length, length-replicate,
  min, ◌==◌, ==_iff, Bool-cases, arith,
}
use virtual_operating_system.Strings.{strcpy}
use virtual_operating_system.Strings.Laws.{NoNul, strcpy_lem}
use virtual_operating_system.FileSystem.{
  FileSystem, Dentry, read_data, read_dentry_by_name, blank_dentry, inode_num, little_endian,
}
use virtual_operating_system.FileSystem.Contents.{Stores, read_data_fits}
use virtual_operating_system.Console.Output.{current}
use virtual_operating_system.Machine.{Machine, four_mb}
use virtual_operating_system.Process.{
  find_free, process_num_max, parse, program_image, image_room, open_std, new_pcb, pde_index,
  program_pde, kernel_stack, load_program, load, execute, start, entered, same_bytes,
  exe_magic_number, pcb_location,
}
use virtual_operating_system.Process.Search.{IsFirstFree}
use virtual_operating_system.Process.Parse.{line_of}

module _ {fs : FileSystem} {inode : ℕ} {content : List ℕ} (held : Stores fs inode content) where
  read_four :
      (offset : ℕ)
      → offset + 4 ≤ length content
      → read_data fs inode offset (replicate 4 0) 4 ≡ some (pos 4, take 4 (drop offset content))
  read_four offset room =
      let four : min (length content - offset) 4 ≡ 4 = omega arith in
      let e =
        read_data_fits held offset 4 (replicate 4 0) (omega (arith, held.small)) (omega arith) in
      rw (four, append-nil) at e

  -- The image that is loaded is the file.
  program_image_lem : length content ≤ image_room → program_image fs inode ≡ some content
  unfolding program_image
  program_image_lem small =
      let all : min (length content - 0) four_mb ≡ length content = omega arith in
      let room : min (length content - 0) four_mb ≤ length (replicate (length content) 0) =
        omega (arith, length-replicate {A = ℕ} (length content) 0) in
      let e =
        read_data_fits held 0 four_mb (replicate (length content) 0) (omega (arith, small)) room in
      let fits : ltb image_room (length content) ≡ false = ground (arith, small) in
      rw held.size (rw (rw all at e) (rw (whole content, fits) refl))
    where
      whole : (c : List ℕ) → take (length c) c ++ drop (length c) (replicate (length c) 0) ≡ c
      whole [] = refl
      whole (x ∷ c) = ap (◌∷◌ x) (whole c)

-- The search finds the first free process, if it is before the end of the search.
find_free_lem :
    (process : List ℕ) (r i n : ℕ)
    → IsFirstFree process i n
    → n < i + r
    → find_free process r i ≡ some (some n)
unfolding find_free
find_free_lem process zero i n h hi = absurd (omega (arith, h.from))
find_free_lem process (suc r) i n h hi = elim (Bool-cases (i == n)) [
  | inl here ↦ let e : i ≡ n = (==_iff i n).0 here in rw e (rw h.free refl)
  | inr away ↦
      let ne : i ≢ n = ground arith in
      let (p, at) = earlier process i n (omega (arith, h.from)) h.free in
      let used : (p == 0) ≡ false = ground (
        arith,
        λ (z : p ≡ 0). h.lower_used i (omega arith) (omega (arith, h.from)) (at ∙ ap some z),
      ) in
      rw (at, used)
        (find_free_lem process r (suc i) n
          (record {
            from = omega (arith, h.from);
            free = h.free;
            lower_used = λ l lo. h.lower_used l (omega (arith, lo));
          })
          (omega arith))
]
  where
    earlier :
        (xs : List ℕ) (i n : ℕ)
        → i ≤ n
        → get_elem? xs n ≡ some 0
        → (p : ℕ) × (get_elem? xs i ≡ some p)
    earlier [] i n h e = absurd (cc)
    earlier (x ∷ xs) zero n h e = (x, refl)
    earlier (x ∷ xs) (suc i) zero h e = absurd (omega arith)
    earlier (x ∷ xs) (suc i) (suc n) h e = earlier xs i n (omega arith) e

-- The file system has a program of that name.
pub record IsProgram (fs : FileSystem) (name content : List ℕ) : Type 0 where
  pub entry : Dentry
  pub named : read_dentry_by_name fs (line_of name) (some blank_dentry) ≡ some (pos 0, some entry)
  pub held : Stores fs (inode_num entry) content
  pub magic : same_bytes (take 4 content) exe_magic_number ≡ true
  pub header : 28 ≤ length content
  pub small : length content ≤ image_room

-- The address at which a program starts.
abbrev pub start_address : List ℕ → ℕ
start_address content = little_endian (take 4 (drop 24 content))

-- The argument in the control block.
abbrev pub stored : List ℕ → List ℕ → List ℕ
stored argument old = argument ++ (0 ∷ drop (suc (length argument)) old)

strcpy_line :
    (old argument : List ℕ)
    → NoNul argument
    → length argument < 128
    → length old ≡ 128
    → strcpy old (line_of argument) ≡ some (stored argument old)
strcpy_line old argument z h size =
    let e : 128 - length argument ≡ suc (127 - length argument) = omega arith in
    rw e (strcpy_lem old argument (replicate (127 - length argument) 0) z (omega arith))

-- `execute` finds the program and leads to `start`.
pub execute-start :
    (m : Machine) (command name argument content : List ℕ) (n : ℕ)
    → IsProgram m.fs name content
    → parse command ≡ some (line_of name, line_of argument)
    → NoNul argument
    → length argument < 128
    → IsFirstFree m.process 1 n
    → n ≤ 6
    → length (m.pcbs (pcb_location n)).argument ≡ 128
    → execute m (some command)
      ≡ some (
          entered (start_address content) (
            start
              (record m { current_process_num = (current m.console).process_num })
              n
              content
              (stored argument (m.pcbs (pcb_location n)).argument)))
unfolding execute load load_program
execute-start m command name argument content n p words z short free hi size = rw (
  find_free_lem m.process process_num_max 1 n free (omega arith),
  words,
  p.named,
  read_four p.held 0 (omega (arith, p.header)),
  p.magic,
  read_four p.held 24 (omega (arith, p.header)),
  program_image_lem p.held p.small,
  strcpy_line (m.pcbs (pcb_location n)).argument argument z short size,
)

-- Process `n`, which was free, runs the program in `m'`: its file is at the address of the image, and its
-- page, its kernel stack and the terminal are switched to it. The parent and the argument are in
-- its control block, where descriptors 0 and 1 are open, and nothing else is changed.
pub record Runs (m : Machine) (n : ℕ) (content argument : List ℕ) (m' : Machine) : Type 0 where
  pub image : m'.user_image n ≡ content
  pub other_images : (i : ℕ) → i ≢ n → m'.user_image i ≡ m.user_image i
  pub used : m'.process ≡ set m.process n 1
  pub mapped : m'.page_directory pde_index ≡ program_pde n
  pub other_pages : (i : ℕ) → i ≢ pde_index → m'.page_directory i ≡ m.page_directory i
  pub stack : m'.esp0 ≡ kernel_stack n
  pub number : (m'.pcbs (pcb_location n)).process_num ≡ n
  pub parent : (m'.pcbs (pcb_location n)).process_num_prev ≡ (current m.console).process_num
  pub argument_at :
      (m'.pcbs (pcb_location n)).argument ≡ stored argument (m.pcbs (pcb_location n)).argument
  pub opened :
      (m'.pcbs (pcb_location n)).file_desc_array
      ≡ open_std (m.pcbs (pcb_location n)).file_desc_array
  pub other_blocks : (a : ℕ) → a ≢ pcb_location n → m'.pcbs a ≡ m.pcbs a
  pub on_terminal : (current m'.console).process_num ≡ n
  pub running : (current m'.console).flag ≡ 1
  pub counted :
      (current m'.console).total_process ≡ ((current m.console).total_process + 1) % 2 ^ 32
  pub screens : m'.console.video_mem ≡ m.console.video_mem
  pub files : m'.fs ≡ m.fs
  pub clock : m'.clock ≡ m.clock

pub start-Runs :
    (m : Machine) (n : ℕ) (content argument : List ℕ)
    → Runs m n content argument (
        start
          (record m { current_process_num = (current m.console).process_num })
          n
          content
          (stored argument (m.pcbs (pcb_location n)).argument))
unfolding start new_pcb
start-Runs m n content argument =
    let self : (n == n) ≡ true = ground arith in
    let block : (pcb_location n == pcb_location n) ≡ true = ground arith in
    let on : (m.console.terminal_num == m.console.terminal_num) ≡ true = ground arith in
    record {
      image = rw self refl;
      other_images = λ i ne. let off : (i == n) ≡ false = ground (arith, ne) in rw off refl;
      used = refl;
      mapped = refl;
      other_pages = λ i ne. let off : (i == pde_index) ≡ false = ground (arith, ne) in rw off refl;
      stack = refl;
      number = rw block refl;
      parent = rw block refl;
      argument_at = rw block refl;
      opened = rw block refl;
      other_blocks =
          λ a ne. let off : (a == pcb_location n) ≡ false = ground (arith, ne) in rw off refl;
      on_terminal = rw on refl;
      running = rw on refl;
      counted = rw on refl;
      screens = refl;
      files = refl;
      clock = refl;
    }

-- On the name of a program, with a process free, `execute` enters the program at the address in its
-- header, in the lowest free process, with the whole file loaded. The process is then marked, and
-- its page, its kernel stack and its terminal are set. Its control block has the argument, the
-- number of its parent, and the descriptors with 0 and 1 opened. The other images, pages and
-- control blocks, the display, the files and the clock are as before. The file is no larger than the
-- memory from 0x8048000 to the end of the page.
pub execute_program :
    (m : Machine) (command name argument content : List ℕ) (n : ℕ)
    → IsProgram m.fs name content
    → parse command ≡ some (line_of name, line_of argument)
    → NoNul argument
    → length argument < 128
    → IsFirstFree m.process 1 n
    → n ≤ 6
    → length (m.pcbs (pcb_location n)).argument ≡ 128
    → (m' : Machine) × (execute m (some command) ≡ some (entered (start_address content) m'))
      × Runs m n content argument m'
execute_program m command name argument content n p words z short free hi size = (
  _,
  execute-start m command name argument content n p words z short free hi size,
  start-Runs m n content argument,
)
