-- ===== src/Tests/Runs.antt =====
-- Programs that run on the sample machine.
use virtual_operating_system.Prelude.{
  ℕ, zero, suc, ◌-◌, ◌≤◌, ◌<◌, pos, some, Option, List, [], ◌∷◌, ◌++◌, ◌≡◌, refl, ap, sym, some_eq,
  arith, replicate, get_elem?, length, drop,
}
use virtual_operating_system.FileSystem.{
  Dentry, read_dentry_by_name, load32, names, load_bytes, read_data, data_byte, dir_count,
  file_type, blank_dentry,
}
use virtual_operating_system.FileSystem.Directory.{entry_at}
use virtual_operating_system.FileSystem.Contents.{Stores}
use virtual_operating_system.Strings.{strlen, strncpy, strncmp, strcpy}
use virtual_operating_system.Machine.{Machine, FileDesc, term, file}
use virtual_operating_system.Syscall.{getargs, open_file, close}
use virtual_operating_system.Process.{
  Outcome, returned, entered, resumed, execute, load, halt, parse, program_pde,
}
use virtual_operating_system.Process.Search.{IsFirstFree}
use virtual_operating_system.Process.Parse.{line_of}
use virtual_operating_system.Process.Loading.{IsProgram, start_address, Runs, execute_program}
use virtual_operating_system.Process.Arguments.{getargs-execute}
use virtual_operating_system.Process.Return.{IsRunning, Restored, halt-execute}
use virtual_operating_system.Scheduling.{Layout}
use virtual_operating_system.Invariant.{IsSound, IsPcb, Usable}
use virtual_operating_system.Invariant.Reach.{here, next, happen, opens, halts, Reach-IsSound}
use virtual_operating_system.Tests.Files.{disk-Stores}
use virtual_operating_system.Tests.{sample_machine, sample_pcb, disk, program, value_of, free_desc}

-- Process 2 runs, and is mapped.
abbrev running : Machine
running = record sample_machine { page_directory = λ i. program_pde 2 }

known_types : (i : ℕ) → i < dir_count disk → file_type (entry_at disk i) < 3
unfolding load32 load_bytes
known_types i h = let e : i ≡ 0 = omega (arith, h) in rw e (omega arith)

free_rest : (j : ℕ) (d : FileDesc) → get_elem? (replicate 5 free_desc) j ≡ some d → d.flags ≡ 0
free_rest j d at = ground (arith, at)

sample-IsPcb : IsPcb sample_pcb
sample-IsPcb = record { size = refl; usable = usable }
  where
    usable : (j : ℕ) (d : FileDesc) → get_elem? sample_pcb.file_desc_array j ≡ some d → Usable d
    usable zero d at used = (term, ap (λ (x : FileDesc). x.fops) (sym (some_eq at)))
    usable (suc zero) d at used = (term, ap (λ (x : FileDesc). x.fops) (sym (some_eq at)))
    usable (suc (suc zero)) d at used = (file, ap (λ (x : FileDesc). x.fops) (sym (some_eq at)))
    usable (suc (suc (suc j))) d at used = absurd (used (free_rest j d at))

running-IsSound : IsSound running
running-IsSound = record { table = refl; blocks = λ a. sample-IsPcb; types = known_types }

running-IsRunning : IsRunning running 2
running-IsRunning = record {
  low = omega arith;
  high = omega arith;
  used = refl;
  stack = refl;
  mapped = refl;
  terminal = refl;
  flagged = refl;
  counted = omega arith;
  room = omega arith;
}

abbrev command : List ℕ
command = 97 ∷ 98 ∷ 32 ∷ 99 ∷ 0 ∷ []

abbrev entered_machine : Outcome → Machine
entered_machine (returned z m) = m
entered_machine (entered e m) = m
entered_machine (resumed s m) = m

abbrev started : Machine
started = entered_machine (value_of (returned (pos 0) running) (execute running (some command)))

started_run : execute running (some command) ≡ some (entered 16 started)
unfolding execute load strncpy read_dentry_by_name strlen load32 names load_bytes strncmp read_data
    data_byte strcpy
started_run = refl

halt-execute_example :
    (n : ℕ) × (m2 : Machine) × (halt started 7 ≡ some (resumed 7 m2)) × Restored running n m2
halt-execute_example =
    halt-execute running started 2 16 7 command running-IsSound running-IsRunning started_run

abbrev layout : Layout
layout = record { user_table_at = 0x9000; video_table_at = 0xA000; video_memory_at = λ i. 0xB000 }

abbrev after_open : Machine
after_open = value_of running (happen layout (opens (some (97 ∷ 98 ∷ 0 ∷ []))) running)

opens_run : happen layout (opens (some (97 ∷ 98 ∷ 0 ∷ []))) running ≡ some after_open
unfolding happen open_file read_dentry_by_name strlen load32 names load_bytes strncmp
opens_run = refl

abbrev after_halt : Machine
after_halt = value_of after_open (happen layout (halts 7) after_open)

halts_run : happen layout (halts 7) after_open ≡ some after_halt
unfolding happen open_file read_dentry_by_name strlen load32 names load_bytes strncmp halt close
halts_run = refl

Reach-IsSound_example : IsSound after_halt
Reach-IsSound_example =
    Reach-IsSound layout
      (next (next here (opens (some (97 ∷ 98 ∷ 0 ∷ []))) opens_run) (halts 7) halts_run)
      running-IsSound

abbrev first_entry : Dentry
first_entry = entry_at disk 0

named_first :
    read_dentry_by_name disk (line_of (97 ∷ 98 ∷ [])) (some blank_dentry)
    ≡ some (pos 0, some first_entry)
unfolding read_dentry_by_name strlen load32 names load_bytes strncmp
named_first = refl

first-Stores : Stores disk 0 program
first-Stores = disk-Stores

disk-IsProgram : IsProgram disk (97 ∷ 98 ∷ []) program
unfolding load_bytes
disk-IsProgram = record {
  entry = first_entry;
  named = named_first;
  held = first-Stores;
  magic = refl;
  header = omega arith;
  small = omega arith;
}

parsed : parse command ≡ some (line_of (97 ∷ 98 ∷ []), line_of (99 ∷ []))
unfolding parse strncpy
parsed = refl

third_free : IsFirstFree sample_machine.process 1 3
third_free = record {
  from = omega arith;
  free = refl;
  lower_used = λ l lo hi e. absurd (busy l lo hi e);
}
  where
    busy :
        (l : ℕ)
        → 1 ≤ l
        → l < 3
        → ◌≡◌ {A = Option ℕ} (get_elem? sample_machine.process l) (some 0)
        → ⊥
    busy l lo hi e = ground (arith, e)

execute_program_example :
    (m' : Machine) × (execute sample_machine (some command)
      ≡ some (entered (start_address program) m'))
    × Runs sample_machine 3 program (99 ∷ []) m'
execute_program_example =
    execute_program sample_machine command (97 ∷ 98 ∷ []) (99 ∷ []) program 3 disk-IsProgram parsed
      ((λ q. omega (arith, q)), tt) (omega arith) third_free (omega arith) refl

getargs-execute_example :
    (m1 : Machine) × (execute sample_machine (some command)
      ≡ some (entered (start_address program) m1))
    × (getargs m1 (some (7 ∷ 7 ∷ 7 ∷ 7 ∷ [])) (pos 3)
        ≡ some (
          pos 0,
          ((99 ∷ []) ++ replicate (3 - length {A = ℕ} (99 ∷ [])) 0) ++ drop 3 (7 ∷ 7 ∷ 7 ∷ 7 ∷ []),
        ))
getargs-execute_example =
    getargs-execute sample_machine command (97 ∷ 98 ∷ []) program [] (7 ∷ 7 ∷ 7 ∷ 7 ∷ []) 99 3 3
      disk-IsProgram parsed ((λ q. omega (arith, q)), tt) (omega arith) third_free (omega arith)
      refl (omega arith) (omega arith)
