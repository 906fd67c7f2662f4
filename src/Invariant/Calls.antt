-- ===== src/Invariant/Calls.antt =====
-- The file system calls of student-distrib/syscall.c keep the control blocks sound.
use mathlib.Core.Path.{subst}
use virtual_operating_system.Prelude.{
  ℕ, zero, suc, ◌+◌, ℤ, pos, negsuc, Option, none, some, List, ◌≡◌, ◌⊎◌, [], ◌∷◌, inl, inr, refl,
  ap, ◌∙◌, get_elem?, set, length-set, leb, ◌==◌, Bool-cases, Option-cases, some_eq, ◌>>=◌, ◌||◌,
}
use virtual_operating_system.Prelude.Int.{to_ℕ}
use virtual_operating_system.Prelude.Ensures.{Ensures, Ensures-bind, Ensures-step, Ensures-if}
use virtual_operating_system.FileSystem.{
  FileSystem, dir_count, load32, load_bytes, read_data, min_length, filename_len,
  read_dentry_by_index, blank_dentry, is_zero, dir_read,
}
use virtual_operating_system.Strings.{strlen, strncpy}
use virtual_operating_system.Terminal.{Reading, waits, returns, terminal_read, terminal_write}
use virtual_operating_system.Console.Output.{Console}
use virtual_operating_system.Rtc.{rtc_write, int_bits}
use virtual_operating_system.Machine.{
  Machine, Fops, rtc, dir, file, term, FileDesc, Pcb, current_pcb, pcb_address, set_fd, fd_n,
}
use virtual_operating_system.Syscall.{
  read, write, close, bad_call, bytes_of, call_read, call_write, call_close, read_with, write_with,
  file_read,
}
use virtual_operating_system.Invariant.{IsSound, IsPcb, Usable, KnownTypes}

-- The machine that a read ends in or waits in.
abbrev pub state_of : {A B : Type 0} → Reading Machine (A × B × Machine) → Machine
state_of (waits m) = m
state_of (returns r) = r.2

get_elem?-set :
    (xs : List FileDesc) (i j : ℕ) (v d : FileDesc)
    → get_elem? (set xs i v) j ≡ some d
    → ((j ≡ i) × (v ≡ d)) ⊎ (get_elem? xs j ≡ some d)
get_elem?-set [] i j v d h = inr h
get_elem?-set (x ∷ xs) zero zero v d h = inl (refl, some_eq h)
get_elem?-set (x ∷ xs) zero (suc j) v d h = inr h
get_elem?-set (x ∷ xs) (suc i) zero v d h = inr h
get_elem?-set (x ∷ xs) (suc i) (suc j) v d h = elim (get_elem?-set xs i j v d h) [
  | inl (e, f) ↦ inl (ap suc e, f)
  | inr e ↦ inr e
]

IsPcb-set :
    (p : Pcb) (i : ℕ) (d : FileDesc)
    → Usable d
    → IsPcb p
    → IsPcb (record p { file_desc_array = set p.file_desc_array i d })
IsPcb-set p i d u h = record {
  size = length-set p.file_desc_array i d ∙ h.size;
  usable = λ j e at. elim (get_elem?-set p.file_desc_array i j d e at) [
    | inl (_, same) ↦ subst Usable same u
    | inr old ↦ h.usable j e old
  ];
}

pub set_fd-IsSound :
    (m : Machine) (i : ℕ) (d : FileDesc) → Usable d → IsSound m → IsSound (set_fd m i d)
set_fd-IsSound m i d u h = record {
  table = h.table;
  blocks = λ a. elim (Bool-cases (a == pcb_address m)) [
    | inl here ↦ rw here (IsPcb-set (current_pcb m) i d u (h.blocks (pcb_address m)))
    | inr away ↦ rw away (h.blocks a)
  ];
  types = h.types;
}

abbrev Sound : {A B : Type 0} → Option (Reading Machine (A × B × Machine)) → Type 0
Sound = Ensures (λ r. IsSound (state_of r))

abbrev Kept : Option (ℤ × Machine) → Type 0
Kept = Ensures (λ r. IsSound r.1)

pub KnownTypes-index :
    (fs : FileSystem) (n : ℕ) → KnownTypes fs → KnownTypes (record fs { dir_index = n })
unfolding load32 load_bytes
KnownTypes-index fs n h = h

dir_read-KnownTypes :
    (fs : FileSystem) (buf : List ℕ) (n : ℕ)
    → KnownTypes fs
    → Ensures (λ r. KnownTypes r.2) (dir_read fs buf n)
unfolding dir_read
dir_read-KnownTypes fs buf n h =
    let cur = (read_dentry_by_index fs fs.dir_index blank_dentry).1 in
    let read_name = strlen cur >>= λ k.
    let len = min_length (min_length k filename_len) n in
    strncpy buf cur len >>= λ b. some (pos len, b, record fs { dir_index = fs.dir_index + 1 }) in
    let P : ℤ × List ℕ × FileSystem → Type 0 = λ r. KnownTypes r.2 in
    Ensures-if P (leb (dir_count fs) fs.dir_index) (some (pos 0, buf, fs)) _ h (
      Ensures-if P (is_zero (read_dentry_by_index fs fs.dir_index blank_dentry).0) read_name
        (some (negsuc 0, buf, fs))
        (Ensures-step P (strlen cur) _ (λ k.
          Ensures-step P (strncpy buf cur (min_length (min_length k filename_len) n)) _
            (λ b. KnownTypes-index fs (fs.dir_index + 1) h)))
        h)

IsSound-waits :
    (m : Machine) (r : Reading Console (ℤ × List ℕ × Console))
    → IsSound m
    → Sound {A = ℤ} {B = List ℕ} (elim r [
      | waits k ↦ some (waits (record m { console = k }))
      | returns r ↦ some (returns (r.0, r.1, record m { console = r.2 }))
    ])
IsSound-waits m (waits k) h = record { table = h.table; blocks = h.blocks; types = h.types }
IsSound-waits m (returns r) h = record { table = h.table; blocks = h.blocks; types = h.types }

read_with-IsSound :
    (f : Fops) (m : Machine) (fd : ℕ) (d : FileDesc) (buf : List ℕ) (n : ℕ)
    → Usable d
    → IsSound m
    → Sound (read_with f m fd d buf n)
unfolding read_with file_read
read_with-IsSound rtc m fd d buf n u h = record {
  table = h.table;
  blocks = h.blocks;
  types = h.types;
}
read_with-IsSound dir m fd d buf n u h =
    Ensures-bind (λ r. KnownTypes r.2) (λ r. IsSound (state_of r)) (dir_read m.fs buf n)
      (λ r. some (returns (r.0, r.1, record m { fs = r.2 })))
      (dir_read-KnownTypes m.fs buf n h.types)
      (λ r t. record { table = h.table; blocks = h.blocks; types = t })
read_with-IsSound file m fd d buf n u h =
    Ensures-bind (λ r. IsSound r.2) (λ r. IsSound (state_of r)) (file_read m fd d buf n)
      (λ r. some (returns r))
      (Ensures-step (λ r. IsSound r.2) (read_data m.fs d.inode d.file_pos buf n) _
        (λ r. set_fd-IsSound m fd _ u h))
      (λ r s. s)
read_with-IsSound term m fd d buf n u h =
    Ensures-step (λ r. IsSound (state_of r)) (terminal_read m.console buf n) _
      (λ r. IsSound-waits m r h)

-- A number outside the table gives no descriptor; one inside gives a usable one.
descriptor-Usable :
    (m : Machine) (i : ℕ) → IsSound m → Ensures Usable (get_elem? (current_pcb m).file_desc_array i)
descriptor-Usable m i h = elim (Option-cases (get_elem? (current_pcb m).file_desc_array i)) [
  | inl e ↦ rw e tt
  | inr (d, e) ↦ rw e ((h.blocks (pcb_address m)).usable i d e)
]

call_read-IsSound :
    (f : Option Fops) (m : Machine) (fd : ℕ) (d : FileDesc) (buf : List ℕ) (n : ℕ)
    → Usable d
    → IsSound m
    → Sound (call_read f m fd d buf n)
unfolding call_read
call_read-IsSound none m fd d buf n u h = tt
call_read-IsSound (some f) m fd d buf n u h = read_with-IsSound f m fd d buf n u h

-- The state that a read ends in, or waits in, is sound.
pub read-IsSound :
    (m : Machine) (fd : ℤ) (buf : Option (List ℕ)) (n : ℤ)
    → IsSound m
    → Ensures (λ r. IsSound (state_of r)) (read m fd buf n)
unfolding read
read-IsSound m fd buf n h =
    let P : Reading Machine (ℤ × List ℕ × Machine) → Type 0 = λ r. IsSound (state_of r) in
    Ensures-if P (bad_call 1 fd buf n) (some (returns (negsuc 0, bytes_of buf, m))) _ h (
      Ensures-bind Usable P (get_elem? (current_pcb m).file_desc_array (to_ℕ fd)) _
        (descriptor-Usable m (to_ℕ fd) h)
        (λ d u.
          Ensures-if P (d.flags == 0) (some (returns (negsuc 0, bytes_of buf, m))) _ h
            (call_read-IsSound d.fops m (to_ℕ fd) d (bytes_of buf) (to_ℕ n) u h)))

write_with-IsSound :
    (f : Fops) (m : Machine) (buf : List ℕ) (n : ℕ) → IsSound m → Kept (write_with f m buf n)
unfolding write_with
write_with-IsSound rtc m buf n h =
    Ensures-step (λ r. IsSound r.1) (rtc_write int_bits _ m.clock) _
      (λ r. record { table = h.table; blocks = h.blocks; types = h.types })
write_with-IsSound dir m buf n h = h
write_with-IsSound file m buf n h = h
write_with-IsSound term m buf n h =
    Ensures-step (λ r. IsSound r.1) (terminal_write m.console buf n) _
      (λ r. record { table = h.table; blocks = h.blocks; types = h.types })

call_write-IsSound :
    (f : Option Fops) (m : Machine) (buf : List ℕ) (n : ℕ) → IsSound m → Kept (call_write f m buf n)
unfolding call_write
call_write-IsSound none m buf n h = tt
call_write-IsSound (some f) m buf n h = write_with-IsSound f m buf n h

pub write-IsSound :
    (m : Machine) (fd : ℤ) (buf : Option (List ℕ)) (n : ℤ)
    → IsSound m
    → Ensures (λ r. IsSound r.1) (write m fd buf n)
unfolding write
write-IsSound m fd buf n h =
    let P : ℤ × Machine → Type 0 = λ r. IsSound r.1 in
    Ensures-if P (bad_call 0 fd buf n) (some (negsuc 0, m)) _ h (
      Ensures-step P (get_elem? (current_pcb m).file_desc_array (to_ℕ fd)) _
        (λ d. call_write-IsSound d.fops m (bytes_of buf) (to_ℕ n) h))

free_Usable : (d : FileDesc) → Usable (record d { flags = 0 })
free_Usable d u = absurd (u refl)

pub close-IsSound : (m : Machine) (fd : ℤ) → IsSound m → Ensures (λ r. IsSound r.1) (close m fd)
unfolding close
close-IsSound m (negsuc n) h = h
close-IsSound m (pos fd) h =
    let P : ℤ × Machine → Type 0 = λ r. IsSound r.1 in
    Ensures-if P (leb fd 1 || leb fd_n fd) (some (negsuc 0, m)) _ h (
      Ensures-step P (get_elem? (current_pcb m).file_desc_array fd) _ (λ d.
        Ensures-if P (d.flags == 0) (some (negsuc 0, m)) _ h
          (Ensures-step P (call_close d.fops) _ (λ s. set_fd-IsSound m fd _ (free_Usable d) h))))
