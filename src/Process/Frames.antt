-- ===== src/Process/Frames.antt =====
-- The memory of the processes that student-distrib/syscall.c runs: 4 MB of user memory each, and
-- 8 kB of kernel memory with the control block and the kernel stack.
use virtual_operating_system.Prelude.{
  ℕ, ◌+◌, ◌-◌, ◌*◌, ◌/◌, ◌^◌, ◌≤◌, ◌<◌, ◌≡◌, true, ◌==◌, ==_iff, refl, arith,
}
use virtual_operating_system.Prelude.Tables.{all_below, all_below_sound}
use virtual_operating_system.Machine.{eight_mb, four_mb, eight_kb, pcb_mask}
use virtual_operating_system.Process.{program_pde, kernel_stack, pcb_location}

-- The first address of the 4 MB that a page directory entry maps.
abbrev pub frame : ℕ → ℕ
frame e = e / 2 ^ 22 * 2 ^ 22

frame_table : all_below 6 (λ n. frame (program_pde (n + 1)) == eight_mb + n * four_mb) ≡ true
unfolding all_below
frame_table = refl

frame_lem : (n : ℕ) → 1 ≤ n → n ≤ 6 → frame (program_pde n) ≡ eight_mb + (n - 1) * four_mb
frame_lem n lo hi =
    let e : n - 1 + 1 ≡ n = omega (arith, lo) in
    let at =
      all_below_sound 6 (λ n. frame (program_pde (n + 1)) == eight_mb + n * four_mb) (n - 1)
        frame_table (omega (arith, lo, hi)) in
    rw e at ((==_iff (frame (program_pde (n - 1 + 1))) (eight_mb + (n - 1) * four_mb)).0 at)

-- Two of the processes 1 to 6 share no memory: their 4 MB of user memory lie above the kernel's and
-- do not meet, and their control blocks, each found by masking the kernel stack pointer, are 8 kB
-- apart below 8 MB.
frames_apart :
    (i j : ℕ)
    → 1 ≤ i
    → i < j
    → j ≤ 6
    → (eight_mb ≤ frame (program_pde i))
      × (frame (program_pde i) + four_mb ≤ frame (program_pde j))
      × (pcb_mask (kernel_stack i) ≡ pcb_location i)
      × (pcb_mask (kernel_stack j) ≡ pcb_location j)
      × (pcb_location j + eight_kb ≤ pcb_location i)
      × (kernel_stack i < eight_mb)
frames_apart i j lo lt hi =
    let ei = frame_lem i lo (omega (arith, lt, hi)) in
    let ej = frame_lem j (omega (arith, lo, lt)) hi in
    (omega (arith, ei), omega (arith, ei, ej), omega arith, omega arith, omega arith, omega arith)
