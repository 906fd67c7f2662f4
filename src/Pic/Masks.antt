-- ===== src/Pic/Masks.antt =====
-- Which interrupt lines student-distrib/i8259.c masks.
use Prim.Native.Nat.{bit_and}
use virtual_operating_system.Prelude.{
  ℕ, ◌-◌, ◌/◌, ◌%◌, ◌^◌, ◌<◌, ◌≡◌, refl, true, ltb, Bool, ◌==◌, ==_iff, if◌then◌else◌, arith, ◌||◌,
  not,
}
use virtual_operating_system.Prelude.Tables.{all_below, all_below_sound}
use virtual_operating_system.Pic.{Pic, enable_irq, disable_irq, bitmask, complement8}

-- Both masks are bytes.
pub record IsValid (p : Pic) : Type 0 where
  pub master : p.master_mask < 256
  pub slave : p.slave_mask < 256

abbrev bit : ℕ → ℕ → ℕ
bit m k = m / 2 ^ k % 2

-- The mask bit of an interrupt line: 1 if the line is masked.
unfoldable pub line : Pic → ℕ → ℕ
line p k = if ltb k 8 then bit p.master_mask k else bit p.slave_mask (k - 8)

abbrev clear_row : ℕ → Bool
clear_row r = all_below 8 λ n.
    all_below 8 λ k. bit (bit_and r (complement8 (bitmask n))) k == (if k == n then 0 else bit r k)

clear_table : all_below 256 clear_row ≡ true
unfolding all_below
clear_table = refl

abbrev keep_row : ℕ → Bool
keep_row r =
    all_below 8
      λ n. all_below 8 λ k. bit (bit_and r (bitmask n)) k == (if k == n then bit r k else 0)

keep_table : all_below 256 keep_row ≡ true
unfolding all_below
keep_table = refl

-- A table over a byte and two lines, read at one entry.
table_entry :
    (p : ℕ → ℕ → ℕ → Bool) (m n k : ℕ)
    → all_below 256 (λ r. all_below 8 (λ i. all_below 8 (p r i))) ≡ true
    → m < 256
    → n < 8
    → k < 8
    → p m n k ≡ true
table_entry p m n k t hm hn hk =
    all_below_sound 8 (p m n) k
      (all_below_sound 8 (λ i. all_below 8 (p m i)) n
        (all_below_sound 256 (λ r. all_below 8 (λ i. all_below 8 (p r i))) m t hm) hn)
      hk

bit-clear :
    (m n k : ℕ)
    → m < 256
    → n < 8
    → k < 8
    → bit (bit_and m (complement8 (bitmask n))) k ≡ (if k == n then 0 else bit m k)
bit-clear m n k hm hn hk = (==_iff _ _).0 (
    table_entry
      (λ r n k. bit (bit_and r (complement8 (bitmask n))) k == (if k == n then 0 else bit r k)) m n
      k clear_table hm hn hk)

bit-keep :
    (m n k : ℕ)
    → m < 256
    → n < 8
    → k < 8
    → bit (bit_and m (bitmask n)) k ≡ (if k == n then bit m k else 0)
bit-keep m n k hm hn hk = (==_iff _ _).0 (
    table_entry (λ r n k. bit (bit_and r (bitmask n)) k == (if k == n then bit r k else 0)) m n k
      keep_table hm hn hk)

-- With both masks bytes, for a line below 16, `enable_irq` unmasks its line and leaves the other fifteen as they are.
pub line-enable_irq :
    (p : Pic) (irq k : ℕ)
    → IsValid p
    → irq < 16
    → k < 16
    → line (enable_irq irq p) k ≡ (if k == irq then 0 else line p k)
unfolding line enable_irq
line-enable_irq p irq k v hi hk = ground (
  arith,
  bit-clear p.master_mask irq k v.master,
  bit-clear p.slave_mask (irq - 8) (k - 8) v.slave,
)

-- With both masks bytes, for a line below 16, `disable_irq` masks nothing: it leaves its own line as it is and unmasks the seven other lines of
-- the same controller. The lines of the other controller stay.
pub line-disable_irq :
    (p : Pic) (irq k : ℕ)
    → IsValid p
    → irq < 16
    → k < 16
    → line (disable_irq irq p) k ≡ (if k == irq || not (k / 8 == irq / 8) then line p k else 0)
unfolding line disable_irq
line-disable_irq p irq k v hi hk =
    ground (
      arith,
      bit-keep p.master_mask irq k v.master,
      bit-keep p.slave_mask (irq - 8) (k - 8) v.slave,
    )
