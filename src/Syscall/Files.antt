-- ===== src/Syscall/Files.antt =====
-- The descriptors of a process under the calls of student-distrib/syscall.c.
use native.Mathlib.Nat.{mod-eq_of_lt}
use virtual_operating_system.Prelude.{
  ℕ, zero, suc, ◌+◌, ◌-◌, ◌%◌, ◌≤◌, ◌<◌, ℤ, pos, negsuc, true, false, Option, none, some, List, [],
  ◌∷◌, ◌++◌, ◌≡◌, ◌≢◌, inl, inr, >>=-eq-some, some_eq, ==_iff, refl, ap, ◌∙◌, sym, get_elem?,
  get_or, set, take, drop, length, get_elem?-eq-get_or, ◌==◌, Bool-cases, if◌then◌else◌, ◌>>=◌, min,
  arith,
}
use virtual_operating_system.FileSystem.{Dentry, word, read_dentry_by_name, blank_dentry, is_zero}
use virtual_operating_system.FileSystem.Contents.{Stores, read_data_lem}
use virtual_operating_system.Terminal.{returns}
use virtual_operating_system.Machine.{
  Machine, file, FileDesc, Pcb, current_pcb, set_fd, fd_n, pcb_address, pcb_mask,
}
use virtual_operating_system.Syscall.{
  read, bad_call, read_with, file_read, open_slot, open_type, open_file, dentry_or_blank,
}

-- A descriptor of a zeroed process control block.
abbrev pub empty_desc : FileDesc
empty_desc = record { fops = none; inode = 0; file_pos = 0; flags = 0 }

-- The descriptor `fd` of the current process.
abbrev pub descriptor : Machine → ℕ → Option FileDesc
descriptor m fd = get_elem? (current_pcb m).file_desc_array fd

pub good_read :
    (fd n : ℕ) (buf : List ℕ) → fd < 8 → fd ≢ 1 → bad_call 1 (pos fd) (some buf) (pos n) ≡ false
unfolding bad_call
good_read fd n buf h1 h2 = ground arith

-- On a descriptor other than 1 that is in use for a file that the image holds, with room in the
-- buffer and a position within the file, a read returns the next bytes of the file, as many as it still has and the caller
-- asks for, moves the position behind them, and changes nothing else.
pub read_file :
    (m : Machine) (fd n : ℕ) (d : FileDesc) (buf content : List ℕ)
    → fd < 8
    → fd ≢ 1
    → descriptor m fd ≡ some d
    → d.flags ≢ 0
    → d.fops ≡ some file
    → Stores m.fs d.inode content
    → d.file_pos ≤ length content
    → n ≤ length buf
    → let k = min (length content - d.file_pos) n in
      read m (pos fd) (some buf) (pos n)
      ≡ some (
          returns (
            pos k,
            take k (drop d.file_pos content) ++ drop k buf,
            set_fd m fd (record d { file_pos = d.file_pos + k }),
          ))
unfolding read file_read read_with
read_file m fd n d buf content h1 h2 e used ops held at room =
    let in_use : (d.flags == 0) ≡ false = ground (arith, used) in
    let k = min (length content - d.file_pos) n in
    let wrap : (d.file_pos + k) % word ≡ d.file_pos + k =
      mod-eq_of_lt {n = d.file_pos + k} {m = word} (omega (arith, held.small)) in
    rw (
      good_read fd n buf h1 h2,
      e,
      in_use,
      ops,
      read_data_lem held d.file_pos n buf (omega (arith, held.small)) room,
      wrap,
    )

get_elem?-set :
    (xs : List FileDesc) (i j : ℕ) (v : FileDesc)
    → i < length xs
    → get_elem? (set xs i v) j ≡ (if j == i then some v else get_elem? xs j)
get_elem?-set [] i j v h = absurd (omega arith)
get_elem?-set (x ∷ xs) zero zero v h = refl
get_elem?-set (x ∷ xs) zero (suc j) v h = ground arith
get_elem?-set (x ∷ xs) (suc i) zero v h = ground arith
get_elem?-set (x ∷ xs) (suc i) (suc j) v h = ground (arith, get_elem?-set xs i j v)

pub descriptor-set_fd :
    (m : Machine) (fd j : ℕ) (d : FileDesc)
    → fd < length (current_pcb m).file_desc_array
    → descriptor (set_fd m fd d) j ≡ (if j == fd then some d else descriptor m j)
descriptor-set_fd m fd j d h =
    let same : (pcb_address m == pcb_address m) ≡ true = ground arith in
    rw same (get_elem?-set (current_pcb m).file_desc_array fd j d h)

-- What a call of `open` that returns `j` has done.
pub record Opened (m : Machine) (j : ℕ) (m' : Machine) : Type 0 where
  pub in_range : (2 ≤ j) × (j < 8)
  pub was_free : (d : FileDesc) → descriptor m j ≡ some d → d.flags ≡ 0
  pub lower_used : (l : ℕ) (d : FileDesc) → 2 ≤ l → l < j → descriptor m l ≡ some d → d.flags ≢ 0
  pub now_used : (d : FileDesc) × (descriptor m' j ≡ some d) × (d.flags ≡ 1) × (d.file_pos ≡ 0)
  pub others_kept : (l : ℕ) → l ≢ j → descriptor m' l ≡ descriptor m l

open_type-keeps :
    (m : Machine) (d : FileDesc) (e : Dentry) (d' : FileDesc) (m' : Machine)
    → open_type m d e ≡ some (d', m')
    → (m'.pcbs ≡ m.pcbs) × (m'.esp0 ≡ m.esp0)
unfolding open_type
open_type-keeps m d e d' m' h = ground arith

same_pcb :
    (m m1 : Machine) → (m1.pcbs ≡ m.pcbs) × (m1.esp0 ≡ m.esp0) → current_pcb m1 ≡ current_pcb m
same_pcb m m1 keeps i = keeps.0 i (pcb_mask (keeps.1 i))

abbrev LowerUsed : Machine → ℕ → Type 0
LowerUsed m j = (l : ℕ) (d : FileDesc) → 2 ≤ l → l < j → descriptor m l ≡ some d → d.flags ≢ 0

-- The slot `i` is free and is filled.
slot_filled :
    (m m1 : Machine) (i : ℕ) (d new : FileDesc)
    → 2 ≤ i
    → i < 8
    → length (current_pcb m).file_desc_array ≡ 8
    → descriptor m i ≡ some d
    → d.flags ≡ 0
    → LowerUsed m i
    → current_pcb m1 ≡ current_pcb m
    → new.flags ≡ 1
    → new.file_pos ≡ 0
    → Opened m i (set_fd m1 i new)
slot_filled m m1 i d new lo hi len at free used pcb flag start =
    let room : i < length (current_pcb m1).file_desc_array =
      omega (arith, ap (λ (p : Pcb). length p.file_desc_array) pcb) in
    let now = λ (l : ℕ). descriptor-set_fd m1 i l new room in
    let self : (i == i) ≡ true = ground arith in
    record {
      in_range = (lo, hi);
      was_free = λ d2 e. ap (λ (x : FileDesc). x.flags) (some_eq (sym e ∙ at)) ∙ free;
      lower_used = used;
      now_used = (new, now i ∙ rw self, flag, start);
      others_kept = λ l ne.
          now l
          ∙ (let off : (l == i) ≡ false = ground (arith, ne) in rw off)
          ∙ ap (λ (p : Pcb). get_elem? p.file_desc_array l) pcb;
    }

used_above :
    (m : Machine) (i : ℕ) (d : FileDesc)
    → descriptor m i ≡ some d
    → d.flags ≢ 0
    → LowerUsed m i
    → LowerUsed m (suc i)
used_above m i d at used lower l d2 lo hi e f = elim (Bool-cases (l == i)) [
  | inl same ↦
      let li : l ≡ i = (==_iff _ _).0 same in
      used (ap (λ (x : FileDesc). x.flags) (some_eq (sym at ∙ (rw li at e))) ∙ f)
  | inr ne ↦ lower l d2 lo (ground arith) e f
]

abbrev pub Answer : Type 0
Answer = Option (ℤ × Machine)

pub refused_ne :
    {m m' : Machine} {j : ℕ} → ◌≡◌ {A = Answer} (some (negsuc 0, m)) (some (pos j, m')) → ⊥
refused_ne h = absurd_sign (ap status h)
  where
    status : Answer → ℤ
    status none = pos 0
    status (some r) = r.0

    absurd_sign : {a b : ℕ} → negsuc a ≡ pos b → ⊥
    absurd_sign q = cc

pub answer_eq :
    {i j : ℕ} {a b : Machine}
    → ◌≡◌ {A = Answer} (some (pos i, a)) (some (pos j, b))
    → (i ≡ j) × (a ≡ b)
answer_eq h = ground arith

open_slot-Opened :
    (r : ℕ) (m : Machine) (e : Dentry) (i j : ℕ) (m' : Machine)
    → i + r ≡ 8
    → 2 ≤ i
    → length (current_pcb m).file_desc_array ≡ 8
    → LowerUsed m i
    → open_slot m e r i ≡ some (pos j, m')
    → Opened m j m'
unfolding open_slot
open_slot-Opened zero m e i j m' sum lo len lower h = absurd (refused_ne h)
open_slot-Opened (suc r) m e i j m' sum lo len lower h =
    let d = get_or (current_pcb m).file_desc_array i empty_desc in
    let at : descriptor m i ≡ some d =
      get_elem?-eq-get_or (current_pcb m).file_desc_array i empty_desc (omega arith) in
    let h2 = rw at at h in
    elim (Bool-cases (d.flags == 0)) [
      | inl free ↦ filled d at ((==_iff d.flags 0).0 free) (rw free at h2)
      | inr busy ↦
          open_slot-Opened r m e (suc i) j m' (omega arith) (omega arith) len
            (used_above m i d at (ground arith) lower) (rw busy at h2)
    ]
  where
    filled :
        (d : FileDesc)
        → descriptor m i ≡ some d
        → d.flags ≡ 0
        → (◌>>=◌ {B = ℤ × Machine}
            (open_type m d e)
            (λ o. some (pos i, set_fd o.1 i (record o.0 { flags = 1; file_pos = 0 }))))
          ≡ some (pos j, m')
        → Opened m j m'
    filled d at free q =
        let ((d', m1), o, p) =
          >>=-eq-some {B = ℤ × Machine} (open_type m d e)
            (λ o. some (pos i, set_fd o.1 i (record o.0 { flags = 1; file_pos = 0 }))) q in
        let (ij, mm) = answer_eq p in
        let pcb = same_pcb m m1 (open_type-keeps m d e d' m1 o) in
        rw (← ij, ← mm)
          (slot_filled m m1 i d (record d' { flags = 1; file_pos = 0 }) lo (omega arith) len at free
            lower pcb refl refl)

-- With eight descriptors in the control block, an `open` that succeeds returns the lowest free descriptor from 2 on. That descriptor is then in
-- use at position 0, and the other descriptors of the process are as they were.
pub open_file-Opened :
    (m : Machine) (filename : List ℕ) (j : ℕ) (m' : Machine)
    → length (current_pcb m).file_desc_array ≡ 8
    → open_file m (some filename) ≡ some (pos j, m')
    → Opened m j m'
unfolding open_file
open_file-Opened m filename j m' len h =
    let (r, _, q) =
      >>=-eq-some {B = ℤ × Machine} (read_dentry_by_name m.fs filename (some blank_dentry))
        (λ r.
          if is_zero r.0
          then open_slot m (dentry_or_blank r.1) (fd_n - 2) 2
          else some (negsuc 0, m))
        h in
    found r q
  where
    found :
        (r : ℤ × Option Dentry)
        → ◌≡◌ {A = Answer}
            (if is_zero r.0
              then open_slot m (dentry_or_blank r.1) (fd_n - 2) 2
              else some (negsuc 0, m))
            (some (pos j, m'))
        → Opened m j m'
    found r q = elim (Bool-cases (is_zero r.0)) [
      | inl ok ↦
          open_slot-Opened 6 m (dentry_or_blank r.1) 2 j m' refl (omega arith) len
            (λ l d lo hi. absurd (omega arith)) (rw ok at q)
      | inr no_file ↦ absurd (refused_ne (rw no_file at q))
    ]
