-- ===== src/Syscall/Errors.antt =====
-- Which calls of student-distrib/syscall.c fail, and one that does not.
use virtual_operating_system.Prelude.{
  ℕ, ◌≤◌, ◌<◌, ℤ, pos, negsuc, true, false, Option, none, some, List, ◌≡◌, ◌≢◌, inl, inr, refl,
  length, leb, ◌==◌, if◌then◌else◌, ◌>>=◌, ◌||◌, arith, Bool-cases, ◌∙◌, >>=-eq-some, get_or,
  get_elem?-eq-get_or,
}
use virtual_operating_system.FileSystem.{is_zero}
use virtual_operating_system.Terminal.{returns}
use virtual_operating_system.Machine.{Machine, FileDesc, current_pcb, set_fd}
use virtual_operating_system.Syscall.{read, write, close, bad_call, call_close, bytes_of}
use virtual_operating_system.Syscall.Files.{
  descriptor, descriptor-set_fd, good_read, Answer, refused_ne, empty_desc,
}

-- A descriptor number that no process has.
abbrev pub NoDescriptor : ℤ → Type 0
NoDescriptor (pos n) = 8 ≤ n
NoDescriptor (negsuc n) = Unit {0}

-- On a number outside 0 to 7 `read`, `write` and `close` return -1 and change nothing, whatever the
-- buffer and the count.
no_descriptor :
    (m : Machine) (fd : ℤ) (buf : Option (List ℕ)) (n : ℤ)
    → NoDescriptor fd
    → (read m fd buf n ≡ some (returns (negsuc 0, bytes_of buf, m)))
      × (write m fd buf n ≡ some (negsuc 0, m))
      × (close m fd ≡ some (negsuc 0, m))
unfolding read write close
no_descriptor m (pos k) none n h = (refl, refl, ground arith)
no_descriptor m (pos k) (some b) n h =
    let big : leb 8 k ≡ true = ground arith in (rw big, rw big, ground arith)
no_descriptor m (negsuc k) none n h = (refl, refl, refl)
no_descriptor m (negsuc k) (some b) n h = (refl, refl, refl)

answer_status : {z : ℤ} {a b : Machine} → ◌≡◌ {A = Answer} (some (z, a)) (some (pos 0, b)) → a ≡ b
answer_status h = ground arith

close_flags :
    (m m' : Machine) (fd : ℕ) (d : FileDesc)
    → ◌≡◌ {A = Answer}
        (if d.flags == 0
          then some (negsuc 0, m)
          else (call_close d.fops >>= λ s.
              some (if is_zero s then pos 0 else negsuc 0, set_fd m fd (record d { flags = 0 }))))
        (some (pos 0, m'))
    → set_fd m fd (record d { flags = 0 }) ≡ m'
unfolding call_close
close_flags m m' fd d h = elim (Bool-cases (d.flags == 0)) [
  | inl free ↦ absurd (refused_ne (rw free at h))
  | inr busy ↦
      let q = rw busy at h in
      let (s, _, p) =
        >>=-eq-some {B = ℤ × Machine} (call_close d.fops)
          (λ s. some (if is_zero s then pos 0 else negsuc 0, set_fd m fd (record d { flags = 0 })))
          q in
      (answer_status p)
]

close_inversion :
    (m m' : Machine) (fd : ℕ)
    → length (current_pcb m).file_desc_array ≡ 8
    → close m (pos fd) ≡ some (pos 0, m')
    → (d : FileDesc) × (1 < fd) × (fd < 8) × (set_fd m fd (record d { flags = 0 }) ≡ m')
unfolding close
close_inversion m m' fd len h = elim (Bool-cases (leb fd 1 || leb 8 fd)) [
  | inl bad ↦ absurd (refused_ne (rw bad at h))
  | inr good ↦
      let q = rw good at h in
      let d = get_or (current_pcb m).file_desc_array fd empty_desc in
      let at : descriptor m fd ≡ some d =
        get_elem?-eq-get_or (current_pcb m).file_desc_array fd empty_desc (ground (arith, len)) in
      (d, ground arith, ground arith, close_flags m m' fd d (rw at at q))
]

-- A `read` on a descriptor that is not in use returns -1 and changes nothing.
read_closed :
    (m : Machine) (fd n : ℕ) (d : FileDesc) (buf : List ℕ)
    → fd < 8
    → fd ≢ 1
    → descriptor m fd ≡ some d
    → d.flags ≡ 0
    → read m (pos fd) (some buf) (pos n) ≡ some (returns (negsuc 0, buf, m))
unfolding read
read_closed m fd n d buf hi ne at free = rw (good_read fd n buf hi ne, at, free)

-- With eight descriptors in the control block, after a `close` that returns 0 the descriptor is from 2 to 7, a `read` on it returns -1 and
-- changes nothing, and the other descriptors are as they were.
read-close :
    (m m' : Machine) (fd n : ℕ) (buf : List ℕ)
    → length (current_pcb m).file_desc_array ≡ 8
    → close m (pos fd) ≡ some (pos 0, m')
    → (1 < fd)
      × (fd < 8)
      × (read m' (pos fd) (some buf) (pos n) ≡ some (returns (negsuc 0, buf, m')))
      × ((l : ℕ) → l ≢ fd → descriptor m' l ≡ descriptor m l)
unfolding read
read-close m m' fd n buf len h =
    let (d, lo, hi, e) = close_inversion m m' fd len h in
    let now = λ (l : ℕ). descriptor-set_fd m fd l (record d { flags = 0 }) (rw len hi) in
    let self : (fd == fd) ≡ true = ground arith in
    (
      lo,
      hi,
      rw (← e) (
          read_closed (set_fd m fd (record d { flags = 0 })) fd n (record d { flags = 0 }) buf hi
            (omega arith) (rw self at (now fd)) refl),
      λ l ne. rw (← e) (now l ∙ (let off : (l == fd) ≡ false = ground (arith, ne) in rw off)),
    )

-- `write` on a descriptor from 1 to 7 that was never opened calls through a NULL pointer: unlike `read` it does
-- not look at `flags`.
write_unopened :
    (m : Machine) (fd n : ℕ) (d : FileDesc) (buf : List ℕ)
    → fd < 8
    → fd ≢ 0
    → descriptor m fd ≡ some d
    → d.fops ≡ none
    → write m (pos fd) (some buf) (pos n) ≡ none
unfolding write
write_unopened m fd n d buf lo ne at ops =
    let good : bad_call 0 (pos fd) (some buf) (pos n) ≡ false = ground arith in rw (good, at, ops)
