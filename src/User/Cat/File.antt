-- ===== src/User/Cat/File.antt =====
-- syscalls/ece391cat.c on the system calls of student-distrib/syscall.c, for a file of the image.
use mathlib.Core.List.{append-nil}
use virtual_operating_system.Prelude.{
  ℕ, zero, suc, ◌-◌, ◌≤◌, ◌<◌, ℤ, pos, Option, some, List, [], ◌∷◌, ◌++◌, ◌≡◌, refl, ◌∙◌, drop,
  true, length, length-append, length-replicate, replicate, ◌==◌, arith,
}
use virtual_operating_system.Strings.Laws.{NoNul}
use virtual_operating_system.Console.Output.{Console, puts}
use virtual_operating_system.Console.Isolation.{CursorsValid}
use virtual_operating_system.Console.Total.{NoBackspace}
use virtual_operating_system.FileSystem.{
  Dentry, read_dentry_by_name, blank_dentry, file_type, inode_num,
}
use virtual_operating_system.FileSystem.Contents.{Stores}
use virtual_operating_system.Machine.{Machine, FileDesc, file, current_pcb, set_fd}
use virtual_operating_system.Syscall.{open_file, open_slot, open_type}
use virtual_operating_system.Syscall.Files.{descriptor, descriptor-set_fd}
use virtual_operating_system.Process.Arguments.{getargs_lem}
use virtual_operating_system.User.Cat.{cat}
use virtual_operating_system.User.Kernel.{kernel}
use virtual_operating_system.User.Kernel.Output.{HasTerminal}
use virtual_operating_system.User.Cat.Reading.{Reads, set_fd-length, cat_loop-Reads}

-- A file is opened at descriptor 2, if that is free.
open_first :
    (m : Machine) (name : List ℕ) (d : FileDesc) (e : Dentry)
    → descriptor m 2 ≡ some d
    → d.flags ≡ 0
    → read_dentry_by_name m.fs name (some blank_dentry) ≡ some (pos 0, some e)
    → file_type e ≡ 2
    → open_file m (some name)
      ≡ some (
        pos 2,
        set_fd m 2 (record d { fops = some file; inode = inode_num e; flags = 1; file_pos = 0 }),
      )
unfolding open_file open_slot open_type
open_first m name d e at free found type =
    let none_set : (d.flags == 0) ≡ true = ground (arith, free) in
    rw (found, at, none_set, type) refl

-- The argument in an array of 1024 bytes.
abbrev pub name_in_array : List ℕ → List ℕ
name_in_array name = name ++ replicate (1024 - length name) 0

drop_all : (xs : List ℕ) (n : ℕ) → length xs ≤ n → drop n xs ≡ []
drop_all [] zero h = refl
drop_all (x ∷ xs) zero h = absurd (omega arith)
drop_all [] (suc n) h = refl
drop_all (x ∷ xs) (suc n) h = drop_all xs n (omega arith)

pub puts_nil : (k : Console) → puts [] k ≡ some k
unfolding puts
puts_nil k = refl

-- The descriptor of a file that has just been opened.
abbrev opened : FileDesc → Dentry → FileDesc
opened d e = record d { fops = some file; inode = inode_num e; flags = 1; file_pos = 0 }

-- After the file is opened at descriptor 2, all of it is still to be read.
opened-Reads :
    (run : Machine → List ℕ → Option (ℤ × Machine)) (call : Machine → ℤ → Option (ℤ × Machine))
    (user_table_at : ℕ) (m : Machine) (content : List ℕ) (d : FileDesc) (e : Dentry)
    → length (current_pcb m).file_desc_array ≡ 8
    → HasTerminal m
    → CursorsValid m.console
    → Stores m.fs (inode_num e) content
    → Reads run call user_table_at m.console 2 (set_fd m 2 (opened d e)) content []
opened-Reads run call user_table_at m content d e size (t, at, ops) v held =
    let now = λ (l : ℕ). descriptor-set_fd m 2 l (opened d e) (omega (arith, size)) in
    record {
      size = set_fd-length m 2 (opened d e) ∙ size;
      desc = opened d e;
      at = now 2;
      used = λ q. omega (arith, q);
      ops = refl;
      content = content;
      held = held;
      inside = omega arith;
      remains = refl;
      terminal = (t, now 1 ∙ at, ops);
      cursors = v;
      shown = puts_nil m.console;
    }

-- `cat` prints the file that its argument names, to the end, and returns 0, whatever the length of
-- the file. The process has eight descriptors, of which 1 is the terminal and 2 is free, and an
-- array of 1024 bytes. Its argument is not empty, has no NUL and fewer than 1024 bytes. The look-up
-- of that name finds an entry of the type of files, whose inode has the file. The file has no
-- backspaces, every cursor is on the screen, and the loop has one more round of fuel than the file
-- has bytes.
pub cat-puts :
    (run : Machine → List ℕ → Option (ℤ × Machine)) (call : Machine → ℤ → Option (ℤ × Machine))
    (user_table_at f : ℕ) (m : Machine) (buf name rest content : List ℕ) (c : ℕ) (d : FileDesc)
    (e : Dentry)
    → length buf ≡ 1024
    → (current_pcb m).argument ≡ (c ∷ name) ++ (0 ∷ rest)
    → NoNul (c ∷ name)
    → length (c ∷ name) < 1024
    → length (current_pcb m).file_desc_array ≡ 8
    → descriptor m 2 ≡ some d
    → d.flags ≡ 0
    → HasTerminal m
    → CursorsValid m.console
    → read_dentry_by_name m.fs (name_in_array (c ∷ name)) (some blank_dentry) ≡ some (pos 0, some e)
    → file_type e ≡ 2
    → Stores m.fs (inode_num e) content
    → NoBackspace content
    → length content < f
    → (m' : Machine) × (cat (kernel run call user_table_at) f m buf ≡ some (0, m'))
      × (puts content m.console ≡ some m'.console)
unfolding cat kernel
cat-puts run call user_table_at f m buf name rest content c d e len argument nul short size at free
      t v found type held fine fuel =
    let none_left : drop 1024 buf ≡ [] = drop_all buf 1024 (omega arith) in
    let args = getargs_lem m buf name rest c 1024 argument nul short (omega arith) in
    let open_run = open_first m (name_in_array (c ∷ name)) d e at free found type in
    let ready = opened-Reads run call user_table_at m content d e size t v held in
    let line : length (name_in_array (c ∷ name)) ≡ 1024 =
      length-append (c ∷ name) (replicate (1024 - length (c ∷ name)) 0)
      ∙ omega (arith, short, length-replicate {A = ℕ} (1024 - length (c ∷ name)) 0) in
    let (m2, looped, done) =
      cat_loop-Reads run call user_table_at m.console 2 f (set_fd m 2 (opened d e)) content
        (name_in_array (c ∷ name)) (omega arith) (omega arith) ready fine line fuel in
    (m2, rw (rw (none_left, append-nil) at args, open_run) looped, done)
