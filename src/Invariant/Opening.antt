-- ===== src/Invariant/Opening.antt =====
-- `open` of student-distrib/syscall.c keeps the control blocks sound.
use virtual_operating_system.Prelude.{
  ℕ, zero, suc, ◌+◌, ◌-◌, ◌<◌, ℤ, pos, negsuc, true, false, Option, none, some, List, ◌≡◌, inl, inr,
  refl, leb, ltb, ◌==◌, Bool-cases, get_elem?, ◌||◌, arith,
}
use virtual_operating_system.Prelude.Ensures.{Ensures, Ensures-bind, Ensures-step, Ensures-if}
use virtual_operating_system.Strings.{strlen}
use virtual_operating_system.FileSystem.{
  FileSystem, Dentry, dir_count, file_type, read_dentry_by_name, read_dentry_by_index, search_from,
  blank_dentry, is_zero, dir_open, names, filename_len,
}
use virtual_operating_system.FileSystem.Directory.{entry_at}
use virtual_operating_system.Rtc.{rtc_open}
use virtual_operating_system.Machine.{Machine, Fops, rtc, dir, file, FileDesc, current_pcb, fd_n}
use virtual_operating_system.Syscall.{open_file, open_slot, open_type, dentry_or_blank}
use virtual_operating_system.Invariant.{IsSound, KnownTypes}
use virtual_operating_system.Invariant.Calls.{set_fd-IsSound, KnownTypes-index}

-- A look-up that succeeds gives an entry of a known type.
abbrev Typed : ℤ → Dentry → Type 0
Typed z e = is_zero z ≡ true → file_type e < 3

search_from-Typed :
    (fs : FileSystem) (name : List ℕ) (len r i : ℕ) (old : Dentry)
    → KnownTypes fs
    → i + r ≡ dir_count fs
    → Ensures (λ x. Typed x.0 x.1) (search_from fs name len r i old)
unfolding search_from read_dentry_by_index
search_from-Typed fs name len zero i old h sum = λ q. cc
search_from-Typed fs name len (suc r) i old h sum =
    let inside : leb (dir_count fs) i ≡ false = ground arith in
    rw inside (
      Ensures-step (λ x. Typed x.0 x.1) (names name len (entry_at fs i)) _
        (λ hit.
          Ensures-if (λ x. Typed x.0 x.1) hit (some (pos 0, entry_at fs i)) _
            (λ q. h i (omega arith)) (search_from-Typed fs name len r (suc i) old h (omega arith))))

read_dentry_by_name-Typed :
    (fs : FileSystem) (name : List ℕ) (old : Dentry)
    → KnownTypes fs
    → Ensures (λ x. Typed x.0 (dentry_or_blank x.1)) (read_dentry_by_name fs name (some old))
unfolding read_dentry_by_name
read_dentry_by_name-Typed fs name old h =
    let P : ℤ × Option Dentry → Type 0 = λ x. Typed x.0 (dentry_or_blank x.1) in
    Ensures-step P (strlen name) _ (λ n.
      Ensures-if P (leb n 0 || ltb filename_len n) (some (negsuc 0, some old)) _ (λ q. cc)
        (Ensures-bind (λ x. Typed x.0 x.1) P (search_from fs name n (dir_count fs) 0 old) _
          (search_from-Typed fs name n (dir_count fs) 0 old h (omega arith)) (λ x t. t)))

-- The descriptor that `open` fills has operations.
abbrev Filled : FileDesc × Machine → Type 0
Filled o = IsSound o.1 × (f : Fops) × (o.0.fops ≡ some f)

open_type-Filled :
    (m : Machine) (d : FileDesc) (e : Dentry)
    → IsSound m
    → file_type e < 3
    → Ensures Filled (open_type m d e)
unfolding open_type dir_open
open_type-Filled m d e h t = elim (Bool-cases (file_type e == 0)) [
  | inl clock ↦ rw clock (
      Ensures-step Filled (rtc_open m.clock) _
        (λ r. (record { table = h.table; blocks = h.blocks; types = h.types }, rtc, refl)))
  | inr no_clock ↦ rw no_clock (elim (Bool-cases (file_type e == 1)) [
    | inl is_dir ↦ rw is_dir (
      record { table = h.table; blocks = h.blocks; types = KnownTypes-index m.fs 0 h.types },
      dir,
      refl,
    )
    | inr no_dir ↦
        let is_file : (file_type e == 2) ≡ true = ground (arith, t) in
        rw (no_dir, is_file) (h, file, refl)
  ])
]

open_slot-IsSound :
    (r : ℕ) (m : Machine) (e : Dentry) (i : ℕ)
    → IsSound m
    → file_type e < 3
    → Ensures (λ x. IsSound x.1) (open_slot m e r i)
unfolding open_slot
open_slot-IsSound zero m e i h t = h
open_slot-IsSound (suc r) m e i h t =
    let P : ℤ × Machine → Type 0 = λ x. IsSound x.1 in
    let rest = open_slot-IsSound r m e (suc i) h t in
    Ensures-step P (get_elem? (current_pcb m).file_desc_array i) _ (λ d.
      Ensures-if P (d.flags == 0) _ _
        (Ensures-bind Filled P (open_type m d e) _ (open_type-Filled m d e h t) (λ o f.
          set_fd-IsSound o.1 i (record o.0 { flags = 1; file_pos = 0 }) (λ u. (f.1, f.2)) f.0))
        rest)

pub open_file-IsSound :
    (m : Machine) (name : Option (List ℕ))
    → IsSound m
    → Ensures (λ r. IsSound r.1) (open_file m name)
unfolding open_file
open_file-IsSound m none h = h
open_file-IsSound m (some name) h =
    Ensures-bind (λ x. Typed x.0 (dentry_or_blank x.1)) (λ r. IsSound r.1)
      (read_dentry_by_name m.fs name (some blank_dentry)) _
      (read_dentry_by_name-Typed m.fs name blank_dentry h.types)
      (λ r t. elim (Bool-cases (is_zero r.0)) [
        | inl ok ↦ rw ok (open_slot-IsSound (fd_n - 2) m (dentry_or_blank r.1) 2 h (t ok))
        | inr bad ↦ rw bad h
      ])
