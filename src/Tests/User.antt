-- ===== src/Tests/User.antt =====
-- The programs of syscalls/ on the sample machine.
use virtual_operating_system.Prelude.{
  ℕ, zero, suc, ◌<◌, ℤ, pos, none, some, Option, List, [], ◌∷◌, ◌≡◌, refl, arith, replicate,
  get_elem?,
}
use virtual_operating_system.Console.Output.{puts}
use virtual_operating_system.Console.Total.{NoBackspace-test}
use virtual_operating_system.FileSystem.{
  read_dentry_by_name, load32, names, load_bytes, blank_dentry, file_type, inode_num,
}
use virtual_operating_system.FileSystem.Directory.{entry_at}
use virtual_operating_system.FileSystem.Contents.{Stores}
use virtual_operating_system.Strings.{strlen, strncmp}
use virtual_operating_system.Machine.{Machine, FileDesc}
use virtual_operating_system.User.Cat.{cat}
use virtual_operating_system.User.Cat.File.{cat-puts, name_in_array}
use virtual_operating_system.User.Kernel.{kernel}
use virtual_operating_system.User.Syserr.{err_neg_fd, err_big_fd, err_stdin_out}
use virtual_operating_system.User.Syserr.Messages.{neg_fd_passed, big_fd_passed, stdin_out_passed}
use virtual_operating_system.User.Syserr.Kernel.{Passes, body, err_fd-Passes, NeverOpened}
use virtual_operating_system.Tests.Files.{disk-Stores}
use virtual_operating_system.Tests.Screens.{sample-CursorsValid}
use virtual_operating_system.Tests.{sample_machine, sample_pcb, disk, program, term_desc, free_desc}

abbrev pub no_child : Machine → List ℕ → Option (ℤ × Machine)
no_child m command = none

abbrev pub no_call : Machine → ℤ → Option (ℤ × Machine)
no_call m number = none

-- Process 2 has just started with the argument `ab`.
abbrev pub fresh_machine : Machine
fresh_machine = record sample_machine {
  pcbs = λ a. record sample_pcb {
    file_desc_array = term_desc ∷ term_desc ∷ replicate 6 free_desc;
    argument = 97 ∷ 98 ∷ 0 ∷ replicate 125 0;
  };
}

named_ab :
    read_dentry_by_name disk (name_in_array (97 ∷ 98 ∷ [])) (some blank_dentry)
    ≡ some (pos 0, some (entry_at disk 0))
unfolding read_dentry_by_name strlen load32 names load_bytes strncmp
named_ab = refl

ab-Stores : Stores disk (inode_num (entry_at disk 0)) program
unfolding load_bytes
ab-Stores = disk-Stores

is_file : file_type (entry_at disk 0) ≡ 2
unfolding load_bytes
is_file = refl

cat-puts_example :
    (m' : Machine) × (cat (kernel no_child no_call 0x9000) 29 fresh_machine (replicate 1024 0)
      ≡ some (0, m'))
    × (puts program fresh_machine.console ≡ some m'.console)
cat-puts_example =
    cat-puts no_child no_call 0x9000 29 fresh_machine (replicate 1024 0) (98 ∷ []) (replicate 125 0)
      program 97 free_desc (entry_at disk 0) refl refl
      ((λ q. omega (arith, q)), ((λ q. omega (arith, q)), tt)) (omega arith) refl refl refl
      (term_desc, refl, refl) sample-CursorsValid named_ab is_file ab-Stores
      (NoBackspace-test program refl) (omega arith)

err_fd-Passes_example :
    Passes fresh_machine
      (body neg_fd_passed)
      (err_neg_fd (kernel no_child no_call 0x9000) fresh_machine (7 ∷ []))
    × Passes fresh_machine
        (body big_fd_passed)
        (err_big_fd (kernel no_child no_call 0x9000) fresh_machine (7 ∷ []))
    × Passes fresh_machine
        (body stdin_out_passed)
        (err_stdin_out (kernel no_child no_call 0x9000) fresh_machine (7 ∷ []))
err_fd-Passes_example =
    err_fd-Passes no_child no_call 0x9000 fresh_machine (7 ∷ []) (term_desc, refl, refl)
      sample-CursorsValid

fresh-NeverOpened : NeverOpened fresh_machine
fresh-NeverOpened zero lo hi = absurd (omega arith)
fresh-NeverOpened (suc zero) lo hi = absurd (omega arith)
fresh-NeverOpened (suc (suc j)) lo hi = rest 6 j (omega arith)
  where
    rest :
        (n j : ℕ)
        → j < n
        → (d : FileDesc) × (get_elem? (replicate n free_desc) j ≡ some d)
          × (d.flags ≡ 0)
          × (d.fops ≡ none)
    rest zero j h = absurd (omega arith)
    rest (suc n) zero h = (free_desc, refl, refl, refl)
    rest (suc n) (suc j) h = rest n j (omega arith)
