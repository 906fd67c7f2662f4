-- ===== src/Invariant/Programs.antt =====
-- `execute` and `halt` of student-distrib/syscall.c, and the switches between terminals, keep the
-- control blocks sound.
use virtual_operating_system.Prelude.{
  ℕ, zero, suc, ◌-◌, pos, negsuc, not, Option, none, some, List, [], ◌∷◌, ◌≡◌, inl, inr, refl, ap,
  ◌∙◌, sym, ◌==◌, Bool-cases, get_elem?, length, length-set, replicate, some_eq,
}
use virtual_operating_system.Prelude.Ensures.{Ensures, Ensures-bind, Ensures-step, Ensures-if}
use virtual_operating_system.Strings.{strcpy}
use virtual_operating_system.Console.Output.{current, puts, update, set_terminal}
use virtual_operating_system.FileSystem.{
  read_data, read_dentry_by_name, is_zero, inode_num, blank_dentry,
}
use virtual_operating_system.Machine.{Machine, term, FileDesc, current_pcb, fd_n}
use virtual_operating_system.Syscall.{close, dentry_or_blank}
use virtual_operating_system.Process.{
  Outcome, returned, entered, resumed, parse, find_free, process_num_max, start, new_pcb, open_std,
  pcb_location, load, load_program, load_free, program_image, no_more_process, execute, close_all,
  leave, retire, halt, after_shell, same_bytes, exe_magic_number, pde_index, program_pde,
  shell_command,
}
use virtual_operating_system.Invariant.{IsSound, Usable}
use virtual_operating_system.Invariant.Calls.{close-IsSound}

-- The machine when a call ends, however it does.
abbrev pub machine_of : Outcome → Machine
machine_of (returned z m) = m
machine_of (entered e m) = m
machine_of (resumed s m) = m

abbrev SoundAfter : Option Outcome → Type 0
SoundAfter = Ensures (λ o. IsSound (machine_of o))

open_std-length : (xs : List FileDesc) → length (open_std xs) ≡ length xs
open_std-length [] = refl
open_std-length (d0 ∷ []) = refl
open_std-length (d0 ∷ d1 ∷ ds) = refl

open_std-Usable :
    (xs : List FileDesc) (j : ℕ) (d : FileDesc)
    → ((i : ℕ) (e : FileDesc) → get_elem? xs i ≡ some e → Usable e)
    → get_elem? (open_std xs) j ≡ some d
    → Usable d
open_std-Usable [] j d h at = h j d at
open_std-Usable (d0 ∷ []) zero d h at =
    λ u. (term, ap (λ (x : FileDesc). x.fops) (sym (some_eq at)))
open_std-Usable (d0 ∷ []) (suc j) d h at = h (suc j) d at
open_std-Usable (d0 ∷ d1 ∷ ds) zero d h at =
    λ u. (term, ap (λ (x : FileDesc). x.fops) (sym (some_eq at)))
open_std-Usable (d0 ∷ d1 ∷ ds) (suc zero) d h at =
    λ u. (term, ap (λ (x : FileDesc). x.fops) (sym (some_eq at)))
open_std-Usable (d0 ∷ d1 ∷ ds) (suc (suc j)) d h at = h (suc (suc j)) d at

start-IsSound :
    (m : Machine) (n : ℕ) (loaded argument : List ℕ)
    → IsSound m
    → IsSound (start m n loaded argument)
unfolding start new_pcb
start-IsSound m n loaded argument h =
    let p = m.pcbs (pcb_location n) in
    record {
      table = length-set m.process n 1 ∙ h.table;
      blocks = λ a. elim (Bool-cases (a == pcb_location n)) [
        | inl here ↦ rw here (record {
          size = open_std-length p.file_desc_array ∙ (h.blocks (pcb_location n)).size;
          usable = λ j d. open_std-Usable p.file_desc_array j d (h.blocks (pcb_location n)).usable;
        })
        | inr away ↦ rw away (h.blocks a)
      ];
      types = h.types;
    }

load_program-IsSound :
    (m : Machine) (n inode : ℕ) (c : List ℕ) → IsSound m → SoundAfter (load_program m n inode c)
unfolding load_program
load_program-IsSound m n inode c h =
    let P : Outcome → Type 0 = λ o. IsSound (machine_of o) in
    Ensures-step P (read_data m.fs inode 0 (replicate 4 0) 4) _ (λ header.
      Ensures-if P (not (same_bytes header.1 exe_magic_number)) (some (returned (negsuc 0) m)) _ h (
        Ensures-step P (read_data m.fs inode 24 (replicate 4 0) 4) _ (λ entry.
          Ensures-step P (program_image m.fs inode) _ (λ loaded.
            Ensures-step P (strcpy (m.pcbs (pcb_location n)).argument c) _
              (λ copied. start-IsSound m n loaded copied h)))))

load-IsSound : (m : Machine) (n : ℕ) (c : List ℕ) → IsSound m → SoundAfter (load m n c)
unfolding load
load-IsSound m n c h =
    let P : Outcome → Type 0 = λ o. IsSound (machine_of o) in
    Ensures-step P (parse c) _ (λ words.
      Ensures-step P (read_dentry_by_name m.fs words.0 (some blank_dentry)) _ (λ found.
        Ensures-if P (not (is_zero found.0)) (some (returned (negsuc 0) m)) _ h
          (load_program-IsSound m n (inode_num (dentry_or_blank found.1)) words.1 h)))

load_free-IsSound :
    (m : Machine) (c : List ℕ) (o : Option ℕ) → IsSound m → SoundAfter (load_free m c o)
load_free-IsSound m c none h =
    Ensures-step (λ o. IsSound (machine_of o)) (puts no_more_process m.console) _
      (λ k. record { table = h.table; blocks = h.blocks; types = h.types })
load_free-IsSound m c (some n) h = load-IsSound m n c h

pub execute-IsSound :
    (m : Machine) (command : Option (List ℕ))
    → IsSound m
    → Ensures (λ o. IsSound (machine_of o)) (execute m command)
unfolding execute
execute-IsSound m none h = record { table = h.table; blocks = h.blocks; types = h.types }
execute-IsSound m (some c) h =
    let m0 : Machine = record m { current_process_num = (current m.console).process_num } in
    let h0 : IsSound m0 = record { table = h.table; blocks = h.blocks; types = h.types } in
    Ensures-step (λ o. IsSound (machine_of o)) (find_free m.process process_num_max 1) _
      (λ o. load_free-IsSound m0 c o h0)

close_all-IsSound : (r i : ℕ) (m : Machine) → IsSound m → Ensures IsSound (close_all r i m)
unfolding close_all
close_all-IsSound zero i m h = h
close_all-IsSound (suc r) i m h =
    Ensures-step IsSound (get_elem? (current_pcb m).file_desc_array i) _ (λ d.
      Ensures-if IsSound (d.flags == 1) _ _
        (Ensures-bind (λ s. IsSound s.1) IsSound (close m (pos i)) _ (close-IsSound m (pos i) h)
          (λ s k. close_all-IsSound r (suc i) s.1 k))
        (close_all-IsSound r (suc i) m h))

leave-IsSound : (m : Machine) (status : ℕ) → IsSound m → SoundAfter (leave m status)
unfolding leave
leave-IsSound m status h =
    let parent = (current_pcb m).process_num_prev in
    let t = current m.console in
    let back : Machine = record m {
      console = set_terminal m.console m.console.terminal_num (record t { process_num = parent });
      page_directory = update m.page_directory pde_index (program_pde parent);
    } in
    Ensures-bind IsSound (λ o. IsSound (machine_of o)) (close_all (fd_n - 2) 2 back) _
      (close_all-IsSound (fd_n - 2) 2 back
        (record { table = h.table; blocks = h.blocks; types = h.types }))
      (λ closed k. record { table = k.table; blocks = k.blocks; types = k.types })

retire-IsSound : (m : Machine) → IsSound m → IsSound (retire m)
unfolding retire
retire-IsSound m h = record {
  table = length-set m.process (current m.console).process_num 0 ∙ h.table;
  blocks = h.blocks;
  types = h.types;
}

after_shell-IsSound :
    (status : ℕ) (o : Outcome) → IsSound (machine_of o) → SoundAfter (after_shell status o)
after_shell-IsSound status (returned z m) h = leave-IsSound m status h
after_shell-IsSound status (entered e m) h = h
after_shell-IsSound status (resumed s m) h = h

pub halt-IsSound :
    (m : Machine) (status : ℕ) → IsSound m → Ensures (λ o. IsSound (machine_of o)) (halt m status)
unfolding halt
halt-IsSound m status h =
    let P : Outcome → Type 0 = λ o. IsSound (machine_of o) in
    let k = retire-IsSound m h in
    Ensures-if P ((current (retire m).console).total_process == 0) _ _
      (Ensures-bind P P (execute (retire m) (some shell_command)) _
        (execute-IsSound (retire m) (some shell_command) k) (λ o s. after_shell-IsSound status o s))
      (leave-IsSound (retire m) status k)
