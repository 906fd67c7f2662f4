-- ===== src/User/Ls/Entries.antt =====
-- syscalls/ece391ls.c on the system calls of student-distrib/syscall.c.
use virtual_operating_system.Prelude.{
  ℕ, zero, suc, ◌<◌, ℤ, pos, Option, some, List, [], ◌∷◌, map, ◌≡◌, refl, ap, ◌∙◌, true, length,
  ◌==◌, arith,
}
use virtual_operating_system.Console.Output.{puts}
use virtual_operating_system.Console.Isolation.{CursorsValid}
use virtual_operating_system.FileSystem.{
  FileSystem, Dentry, dir_count, dir_open, blank_dentry, file_type, read_dentry_by_name,
}
use virtual_operating_system.FileSystem.Directory.{
  entry_name, entries_from, entries, find_entry, IsDirectory, read_dentry_by_name_lem,
}
use virtual_operating_system.Machine.{Machine, FileDesc, dir, current_pcb, set_fd}
use virtual_operating_system.Syscall.{open_file, open_slot, open_type}
use virtual_operating_system.Syscall.Files.{descriptor, descriptor-set_fd}
use virtual_operating_system.User.Cat.File.{puts_nil}
use virtual_operating_system.User.Kernel.{kernel}
use virtual_operating_system.User.Kernel.Output.{HasTerminal}
use virtual_operating_system.User.Ls.{directory, ls}
use virtual_operating_system.User.Ls.Prints.{listing, ls_loop_lem}
use virtual_operating_system.User.Ls.Reading.{CanBeListed, names_of, Lists, listed}

-- The directory is opened at descriptor 2, if that is free.
open_directory :
    (m : Machine) (d : FileDesc) (e : Dentry)
    → descriptor m 2 ≡ some d
    → d.flags ≡ 0
    → read_dentry_by_name m.fs directory (some blank_dentry) ≡ some (pos 0, some e)
    → file_type e ≡ 1
    → open_file m (some directory)
      ≡ some (
        pos 2,
        set_fd
            (record m { fs = record m.fs { dir_index = 0 } })
            2
            (record d { fops = some dir; inode = 0; flags = 1; file_pos = 0 }),
      )
unfolding open_file open_slot open_type dir_open
open_directory m d e at free found type =
    let none_set : (d.flags == 0) ≡ true = ground (arith, free) in
    rw (found, at, none_set, type) refl

length-entries_from : (fs : FileSystem) (r i : ℕ) → length (names_of (entries_from fs r i)) ≡ r
length-entries_from fs zero i = refl
length-entries_from fs (suc r) i = ap suc (length-entries_from fs r (suc i))

-- `ls` prints the names of all entries of the directory in their order, each on a line of its own, and
-- returns 0, whatever the number of entries. The process has eight descriptors, of which 1 is the
-- terminal and 2 is free, and an array of 33 bytes. The entries are bytes with a NUL each, their
-- names are not empty and have no backspaces, and the first one with the name `.` has the type of
-- directories. Every cursor is on the screen, and the loop has one more round of fuel than the
-- directory has entries.
pub ls-puts :
    (run : Machine → List ℕ → Option (ℤ × Machine)) (call : Machine → ℤ → Option (ℤ × Machine))
    (user_table_at f : ℕ) (m : Machine) (buf : List ℕ) (d : FileDesc) (e : Dentry)
    → length buf ≡ 33
    → length (current_pcb m).file_desc_array ≡ 8
    → descriptor m 2 ≡ some d
    → d.flags ≡ 0
    → HasTerminal m
    → CursorsValid m.console
    → IsDirectory m.fs
    → CanBeListed m.fs
    → find_entry (46 ∷ []) (entries m.fs) ≡ some e
    → file_type e ≡ 1
    → dir_count m.fs < f
    → (m' : Machine) × (ls (kernel run call user_table_at) f m buf ≡ some (0, m'))
      × (puts (listing (map entry_name (entries m.fs))) m.console ≡ some m'.console)
unfolding ls kernel
ls-puts run call user_table_at f m buf d e len size at free t v good fine dot type fuel =
    let found : read_dentry_by_name m.fs directory (some blank_dentry) ≡ some (pos 0, some e) =
      read_dentry_by_name_lem good (46 ∷ []) [] (ground arith, tt) (ground arith, tt) (omega arith)
        blank_dentry (omega arith)
      ∙ rw dot refl in
    let d1 : FileDesc = record d { fops = some dir; inode = 0; flags = 1; file_pos = 0 } in
    let m0 : Machine = record m { fs = record m.fs { dir_index = 0 } } in
    let m1 : Machine = set_fd m0 2 d1 in
    let now = λ (l : ℕ). descriptor-set_fd m0 2 l d1 (omega (arith, size)) in
    let (t1, at1, ops1) = t in
    let start : Lists run call user_table_at m.console m.fs good fine 2 m1 (names_of (entries m.fs))
        [] =
      record {
        desc = d1;
        at = now 2;
        used = λ q. omega (arith, q);
        ops = refl;
        next = 0;
        left = dir_count m.fs;
        total = omega arith;
        image = refl;
        rest = refl;
        terminal = (t1, now 1 ∙ at1, ops1);
        cursors = v;
        shown = puts_nil m.console;
      } in
    let (m2, looped, done) =
      ls_loop_lem
        (listed run call user_table_at m.console m.fs good fine 2 (omega arith)
          (λ q. omega (arith, q)))
        f m1 (names_of (entries m.fs)) [] buf start len
        (omega (arith, length-entries_from m.fs (dir_count m.fs) 0)) in
    (m2, rw (open_directory m d e at free found type) looped, done.shown)
