-- ===== src/Boot/Lines.antt =====
-- The interrupt lines after the initialisers of student-distrib/kernel.c.
use Prim.Native.Nat.{bit_and}
use virtual_operating_system.Prelude.{
  ℕ, ◌<◌, ◌≡◌, refl, true, ltb→lt, ◌-◌, Bool, false, inl, inr, ltb, Bool-cases, ◌==◌, if◌then◌else◌,
  ◌||◌, arith,
}
use virtual_operating_system.Prelude.Tables.{all_below, all_below_sound}
use virtual_operating_system.Pic.{bitmask, complement8, Pic, outb, enable_irq, i8259_init}
use virtual_operating_system.Pic.Masks.{IsValid, line, line-enable_irq}
use virtual_operating_system.Rtc.{rtc_init}
use virtual_operating_system.Scheduling.{pit_init}
use virtual_operating_system.Idt.{add_irq}
use virtual_operating_system.Boot.{Kernel, init_devices, keyboard_init}

-- With both masks bytes in `q`, the lines that `used` names are unmasked, and the others as in `p`.
record Opens (p q : Pic) (used : ℕ → Bool) : Type 0 where
  valid : IsValid q
  lines : (k : ℕ) → k < 16 → line q k ≡ (if used k then 0 else line p k)

small_row : ℕ → Bool
small_row m = all_below 8 λ n. ltb (bit_and m (complement8 (bitmask n))) 256

small_table : all_below 256 small_row ≡ true
unfolding all_below small_row
small_table = refl

mask_small : (m n : ℕ) → m < 256 → n < 8 → bit_and m (complement8 (bitmask n)) < 256
unfolding small_row
mask_small m n hm hn = ltb→lt _ _ (
    all_below_sound 8 (λ i. ltb (bit_and m (complement8 (bitmask i))) 256) n
      (all_below_sound 256 small_row m small_table hm) hn)

Opens-outb :
    {p q : Pic} {used : ℕ → Bool} (value port : ℕ)
    → Opens p q used
    → Opens p (outb value port q) used
unfolding outb line
Opens-outb value port o = record {
  valid = record { master = o.valid.master; slave = o.valid.slave };
  lines = o.lines;
}

Opens-enable_irq :
    {p : Pic} {used : ℕ → Bool} (irq : ℕ) (q : Pic)
    → irq < 16
    → Opens p q used
    → Opens p (enable_irq irq q) (λ k. k == irq || used k)
unfolding enable_irq outb
Opens-enable_irq {p} {used} irq q hi o = record {
  valid = elim (Bool-cases (ltb irq 8)) [
    | inl low ↦ rw low (record {
      master = mask_small q.master_mask irq o.valid.master (ltb→lt irq 8 low);
      slave = o.valid.slave;
    })
    | inr high ↦ rw high (record {
      master = o.valid.master;
      slave = mask_small q.slave_mask (irq - 8) o.valid.slave (ground arith);
    })
  ];
  lines = λ k small. ground (arith, line-enable_irq q irq k o.valid hi small, o.lines k small);
}

Opens-i8259_init :
    {p q : Pic} {used : ℕ → Bool} → Opens p q used → Opens p (i8259_init q) (λ k. k == 2 || used k)
unfolding i8259_init
Opens-i8259_init {q = q} o = Opens-enable_irq 2 _ (omega arith) (
    Opens-outb _ _ (
      Opens-outb _ _ (
        Opens-outb _ _ (
          Opens-outb _ _ (
            Opens-outb _ _ (
              Opens-outb _ _
                (Opens-outb _ _ (Opens-outb _ _ (Opens-outb _ _ (Opens-outb _ _ o))))))))))

-- The four lines that the initialisers unmask: the timer, the clock, the keyboard and the second
-- controller.
abbrev pub is_used : ℕ → Bool
is_used k = k == 0 || (k == 8 || (k == 1 || (k == 2 || false)))

-- After the initialisers, with both masks bytes before, the lines 0, 1, 2 and 8 are unmasked and
-- the other lines below 16 are masked as they were.
pub line-init_devices :
    (table_at start k : ℕ) (b : Kernel)
    → IsValid b.machine.clock.pic
    → k < 16
    → line (init_devices table_at start b).machine.clock.pic k
      ≡ (if is_used k then 0 else line b.machine.clock.pic k)
unfolding init_devices keyboard_init add_irq rtc_init pit_init
line-init_devices table_at start k b v hi =
    let p = b.machine.clock.pic in
    let begun : Opens p p (λ k. false) = record { valid = v; lines = λ k _. refl } in
    let keys = Opens-enable_irq 1 (i8259_init p) (omega arith) (Opens-i8259_init begun) in
    let clock =
      Opens-enable_irq 8 _ (omega arith) (Opens-outb _ _ (Opens-outb _ _ (Opens-outb _ _ keys))) in
    let timer =
      Opens-enable_irq 0 _ (omega arith) (Opens-outb _ _ (Opens-outb _ _ (Opens-outb _ _ clock))) in
    timer.lines k hi
