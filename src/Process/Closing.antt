-- ===== src/Process/Closing.antt =====
-- The loop of `halt` in student-distrib/syscall.c that closes the descriptors.
use virtual_operating_system.Prelude.{
  ℕ, zero, suc, ◌+◌, ◌≤◌, ◌<◌, ℤ, pos, negsuc, true, false, some, ◌≡◌, ◌≢◌, inl, inr, refl, ap, ◌∙◌,
  sym, length, length-set, get_or, get_elem?-eq-get_or, leb, ◌==◌, ==_iff, Bool-cases, >>=-eq-some,
  some_eq, if◌then◌else◌, ◌>>=◌, ◌||◌, arith,
}
use virtual_operating_system.Machine.{Machine, FileDesc, current_pcb, pcb_address, pcb_mask, set_fd}
use virtual_operating_system.Machine.{Fops}
use virtual_operating_system.Prelude.{negsuc, leb, ◌||◌, if◌then◌else◌, false}
use virtual_operating_system.FileSystem.{is_zero}
use virtual_operating_system.Syscall.{close_with, close, call_close}
use virtual_operating_system.Syscall.Files.{descriptor, descriptor-set_fd, empty_desc}
use virtual_operating_system.Process.{close_all}

-- The descriptor that a call of `close` gets to is freed.
close_frees :
    (m : Machine) (i : ℕ) (d : FileDesc) (r : ℤ × Machine)
    → 2 ≤ i
    → i < 8
    → descriptor m i ≡ some d
    → d.flags ≡ 1
    → close m (pos i) ≡ some r
    → r.1 ≡ set_fd m i (record d { flags = 0 })
unfolding close call_close
close_frees m i d r lo hi at used h =
    let range : (leb i 1 || leb 8 i) ≡ false = ground arith in
    let (s, _, q) =
      >>=-eq-some {B = ℤ × Machine} (call_close d.fops)
        (λ s. some (if is_zero s then pos 0 else negsuc 0, set_fd m i (record d { flags = 0 })))
        (rw (range, at, used) at h) in
    ap (λ (x : ℤ × Machine). x.1) (sym (some_eq q))

-- What the loop over the descriptors from `i` on has done.
pub record Freed (m : Machine) (i : ℕ) (m' : Machine) : Type 0 where
  pub same_stack : m'.esp0 ≡ m.esp0
  pub same_directory : m'.page_directory ≡ m.page_directory
  pub same_console : m'.console ≡ m.console
  pub same_process : m'.process ≡ m.process
  pub none_open : (j : ℕ) (d : FileDesc) → i ≤ j → j < 8 → descriptor m' j ≡ some d → d.flags ≢ 1
  pub lower_kept : (j : ℕ) → j < i → descriptor m' j ≡ descriptor m j
  pub others_kept : (a : ℕ) → a ≢ pcb_address m → m'.pcbs a ≡ m.pcbs a

desc_flags : {d e : FileDesc} → some d ≡ some e → d.flags ≡ e.flags
desc_flags h = ap (λ (x : FileDesc). x.flags) (some_eq h)

slot-Freed :
    (m m' m1 : Machine) (i : ℕ) (d : FileDesc)
    → (m1.esp0 ≡ m.esp0)
      × (m1.page_directory ≡ m.page_directory)
      × (m1.console ≡ m.console)
      × (m1.process ≡ m.process)
    → descriptor m1 i ≡ some d
    → d.flags ≢ 1
    → ((j : ℕ) → j < i → descriptor m1 j ≡ descriptor m j)
    → ((a : ℕ) → a ≢ pcb_address m → m1.pcbs a ≡ m.pcbs a)
    → Freed m1 (suc i) m'
    → Freed m i m'
slot-Freed m m' m1 i d same at off lower others f = record {
  same_stack = f.same_stack ∙ same.0;
  same_directory = f.same_directory ∙ same.1;
  same_console = f.same_console ∙ same.2;
  same_process = f.same_process ∙ same.3;
  none_open = λ j e lo hi h. elim (Bool-cases (j == i)) [
    | inl here ↦
        let ji : j ≡ i = (==_iff j i).0 here in
        let at_i : descriptor m' i ≡ some e = rw ji at h in
        λ q. off (desc_flags (sym at ∙ sym (f.lower_kept i (omega arith)) ∙ at_i) ∙ q)
    | inr above ↦ f.none_open j e (ground arith) hi h
  ];
  lower_kept = λ j lt. f.lower_kept j (omega (arith, lt)) ∙ lower j lt;
  others_kept = λ a ne. f.others_kept a (λ e. ne (e ∙ ap pcb_mask same.0)) ∙ others a ne;
}

pub close_all-Freed :
    (r i : ℕ) (m m' : Machine)
    → i + r ≡ 8
    → 2 ≤ i
    → length (current_pcb m).file_desc_array ≡ 8
    → close_all r i m ≡ some m'
    → Freed m i m'
unfolding close_all
close_all-Freed zero i m m' sum lo len h =
    let e : m ≡ m' = some_eq h in
    rw (← e) (record {
      same_stack = refl;
      same_directory = refl;
      same_console = refl;
      same_process = refl;
      none_open = λ j d a b. absurd (omega (arith, a, b));
      lower_kept = λ j lt. refl;
      others_kept = λ a ne. refl;
    })
close_all-Freed (suc r) i m m' sum lo len h =
    let d = get_or (current_pcb m).file_desc_array i empty_desc in
    let at : descriptor m i ≡ some d =
      get_elem?-eq-get_or (current_pcb m).file_desc_array i empty_desc (omega arith) in
    let q = rw at at h in
    elim (Bool-cases (d.flags == 1)) [
      | inl busy ↦
          closed d at ((==_iff d.flags 1).0 busy)
            (λ m1 len1 p. close_all-Freed r (suc i) m1 m' (omega arith) (omega arith) len1 p)
            (rw busy at q)
      | inr off ↦
          slot-Freed m m' m i d (refl, refl, refl, refl) at (ground arith) (λ j lt. refl)
            (λ a ne. refl)
            (close_all-Freed r (suc i) m m' (omega arith) (omega arith) len (rw off at q))
    ]
  where
    closed :
        (d : FileDesc)
        → descriptor m i ≡ some d
        → d.flags ≡ 1
        → ((m1 : Machine)
            → length (current_pcb m1).file_desc_array ≡ 8
            → close_all r (suc i) m1 ≡ some m'
            → Freed m1 (suc i) m')
        → (◌>>=◌ {B = Machine} (close m (pos i)) (λ s. close_all r (suc i) s.1)) ≡ some m'
        → Freed m i m'
    closed d at used ih q =
        let (s, c, p) =
          >>=-eq-some {B = Machine} (close m (pos i)) (λ s. close_all r (suc i) s.1) q in
        let e = close_frees m i d s lo (omega arith) at used c in
        let m1 = set_fd m i (record d { flags = 0 }) in
        let now =
          λ (l : ℕ). descriptor-set_fd m i l (record d { flags = 0 }) (omega (arith, len)) in
        let self : (i == i) ≡ true = ground arith in
        let addr : (pcb_address m == pcb_address m) ≡ true = ground arith in
        let len1 : length (current_pcb m1).file_desc_array ≡ 8 =
          rw addr (length-set (current_pcb m).file_desc_array i (record d { flags = 0 }) ∙ len) in
        slot-Freed m m' m1 i (record d { flags = 0 }) (refl, refl, refl, refl) (rw self at (now i))
          (omega arith)
          (λ j lt. now j ∙ (let off : (j == i) ≡ false = ground (arith, lt) in rw off))
          (λ a ne. let off : (a == pcb_address m) ≡ false = ground (arith, ne) in rw off refl)
          (ih m1 len1 (rw e at p))

-- Every descriptor in use from 2 on has operations.
abbrev pub HasOperations : Machine → Type 0
HasOperations m =
    (j : ℕ) (d : FileDesc)
    → 2 ≤ j
    → j < 8
    → descriptor m j ≡ some d
    → d.flags ≡ 1
    → (f : Fops) × (d.fops ≡ some f)

close_total :
    (m : Machine) (i : ℕ) (d : FileDesc) (f : Fops)
    → 2 ≤ i
    → i < 8
    → descriptor m i ≡ some d
    → d.flags ≡ 1
    → d.fops ≡ some f
    → (z : ℤ) × (close m (pos i) ≡ some (z, set_fd m i (record d { flags = 0 })))
unfolding close call_close
close_total m i d f lo hi at used ops =
    let range : (leb i 1 || leb 8 i) ≡ false = ground arith in
    (if is_zero (close_with f) then pos 0 else negsuc 0, rw (range, at, used, ops))

set_fd-HasOperations :
    (m : Machine) (i : ℕ) (d : FileDesc)
    → i < length (current_pcb m).file_desc_array
    → HasOperations m
    → HasOperations (set_fd m i (record d { flags = 0 }))
set_fd-HasOperations m i d room ops j e lo hi at used =
    let now = descriptor-set_fd m i j (record d { flags = 0 }) room in
    elim (Bool-cases (j == i)) [
      | inl here ↦ absurd (omega (arith, used, desc_flags (sym at ∙ (rw here at now))))
      | inr away ↦ ops j e lo hi (sym (rw away at now) ∙ at) used
    ]

pub close_all_total :
    (r i : ℕ) (m : Machine)
    → i + r ≡ 8
    → 2 ≤ i
    → length (current_pcb m).file_desc_array ≡ 8
    → HasOperations m
    → (m' : Machine) × (close_all r i m ≡ some m')
unfolding close_all
close_all_total zero i m sum lo len ops = (m, refl)
close_all_total (suc r) i m sum lo len ops =
    let d = get_or (current_pcb m).file_desc_array i empty_desc in
    let at : descriptor m i ≡ some d =
      get_elem?-eq-get_or (current_pcb m).file_desc_array i empty_desc (omega arith) in
    elim (Bool-cases (d.flags == 1)) [
      | inl busy ↦
          let (f, has) = ops i d lo (omega arith) at ((==_iff d.flags 1).0 busy) in
          let (z, c) = close_total m i d f lo (omega arith) at ((==_iff d.flags 1).0 busy) has in
          let m1 : Machine = set_fd m i (record d { flags = 0 }) in
          let addr : (pcb_address m == pcb_address m) ≡ true = ground arith in
          let len1 : length (current_pcb m1).file_desc_array ≡ 8 =
            rw addr (length-set (current_pcb m).file_desc_array i (record d { flags = 0 }) ∙ len) in
          let (m', e) =
            close_all_total r (suc i) m1 (omega arith) (omega arith) len1
              (set_fd-HasOperations m i d (omega (arith, len)) ops) in
          (m', rw (at, busy, c, e))
      | inr off ↦
          let (m', e) = close_all_total r (suc i) m (omega arith) (omega arith) len ops in
          (m', rw (at, off, e))
    ]
