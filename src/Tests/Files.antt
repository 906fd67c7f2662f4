-- ===== src/Tests/Files.antt =====
-- The file system and the system calls on files, on the sample image.
use virtual_operating_system.Prelude.{
  ℕ, ◌<◌, pos, negsuc, true, some, [], ◌∷◌, ◌≡◌, refl, ◌==◌, ==_iff, arith, inl, inr, get_or,
}
use virtual_operating_system.Prelude.Tables.{all_below, all_below_sound}
use virtual_operating_system.Strings.{strncmp, strlen}
use virtual_operating_system.Strings.Laws.{Bytes}
use virtual_operating_system.FileSystem.{
  dir_count, load32, load_bytes, data_byte, read_dentry_by_name, blank_dentry, names,
}
use virtual_operating_system.FileSystem.Contents.{Stores}
use virtual_operating_system.FileSystem.Directory.{
  IsDirectory, HasNul, entry_at, read_dentry_by_name_lem, found, find_entry, entries,
}
use virtual_operating_system.Terminal.{returns}
use virtual_operating_system.Machine.{Machine, set_fd}
use virtual_operating_system.Syscall.{read, close, open_file}
use virtual_operating_system.Syscall.Files.{read_file, Opened, open_file-Opened}
use virtual_operating_system.Tests.{disk, program, sample_machine, file_desc, Bytes-test, value_of}

byte_table : all_below 28 (λ k. data_byte disk 0 k == get_or program k 0) ≡ true
unfolding all_below data_byte load32
byte_table = refl

-- The image holds the program at inode 0.
pub disk-Stores : Stores disk 0 program
unfolding load32
disk-Stores = record {
  known = omega arith;
  size = refl;
  small = omega arith;
  bytes = λ k h.
      (==_iff _ _).0
        (all_below_sound 28 (λ k. data_byte disk 0 k == get_or program k 0) k byte_table h);
}

one_entry : (i : ℕ) → i < dir_count disk → i ≡ 0
unfolding load32
one_entry i h = omega (arith, h)

first_stops : HasNul (entry_at disk 0)
unfolding load_bytes
first_stops = inr (inr (inl refl))

first-Bytes : Bytes (entry_at disk 0)
unfolding load_bytes
first-Bytes = Bytes-test (entry_at disk 0) refl

disk-IsDirectory : IsDirectory disk
disk-IsDirectory = record {
  stops = λ i h. (let e = one_entry i h in rw e first_stops);
  bytes = λ i h. (let e = one_entry i h in rw e first-Bytes);
}

read_dentry_by_name_lem_example :
    read_dentry_by_name disk (97 ∷ 98 ∷ 0 ∷ []) (some blank_dentry) ≡ (
      let r = found blank_dentry (find_entry (97 ∷ 98 ∷ []) (entries disk)) in some (r.0, some r.1))
read_dentry_by_name_lem_example =
    read_dentry_by_name_lem disk-IsDirectory (97 ∷ 98 ∷ []) []
      (λ q. omega arith, (λ q. omega arith, tt)) (omega arith, (omega arith, tt)) (omega arith)
      blank_dentry (omega arith)

read_file_example :
    read sample_machine (pos 2) (some (9 ∷ 9 ∷ [])) (pos 2)
    ≡ some
        (returns (pos 2, 0 ∷ 0 ∷ [], set_fd sample_machine 2 (record file_desc { file_pos = 6 })))
read_file_example =
    read_file sample_machine 2 2 file_desc (9 ∷ 9 ∷ []) program (omega arith) (omega arith) refl
      (omega arith) refl disk-Stores (omega arith) (omega arith)

-- The machine after `ab` has been opened.
abbrev opened : Machine
opened =
    (value_of (negsuc 0, sample_machine) (open_file sample_machine (some (97 ∷ 98 ∷ 0 ∷ [])))).1

opened_run : open_file sample_machine (some (97 ∷ 98 ∷ 0 ∷ [])) ≡ some (pos 3, opened)
unfolding open_file read_dentry_by_name strlen load32 names load_bytes strncmp
opened_run = refl

open_file-Opened_example : Opened sample_machine 3 opened
open_file-Opened_example =
    open_file-Opened sample_machine (97 ∷ 98 ∷ 0 ∷ []) 3 opened refl opened_run

abbrev closed : Machine
closed = set_fd sample_machine 2 (record file_desc { flags = 0 })

closed_run : close sample_machine (pos 2) ≡ some (pos 0, closed)
unfolding close
closed_run = refl
