-- ===== src/Pic.antt =====
-- student-distrib/i8259.c: the interrupt masks of the two controllers and what is sent to them.
pub mod Masks
use Prim.Native.Nat.{bit_and, bit_or}
use virtual_operating_system.Prelude.{ℕ, ◌-◌, ◌%◌, ◌^◌, List, [], ◌∷◌, ltb, if◌then◌else◌}

-- `outs` holds the port and the byte of every `outb`, the newest first.
pub record Pic : Type 0 where
  pub master_mask : ℕ
  pub slave_mask : ℕ
  pub outs : List (ℕ × ℕ)

abbrev pub master_command : ℕ
master_command = 0x20

abbrev pub slave_command : ℕ
slave_command = 0xA0

abbrev pub master_data : ℕ
master_data = 0x21

abbrev pub slave_data : ℕ
slave_data = 0xA1

abbrev pub eoi : ℕ
eoi = 0x60

abbrev pub irq_slave : ℕ
irq_slave = 2

unfoldable pub outb : ℕ → ℕ → Pic → Pic
outb value port p = record p { outs = (port, value) ∷ p.outs }

-- `0x01 << irq_num` as a `uint8_t`, and its complement.
abbrev pub bitmask : ℕ → ℕ
bitmask irq_num = 2 ^ irq_num % 256

abbrev pub complement8 : ℕ → ℕ
complement8 b = 255 - b

unfoldable pub enable_irq : ℕ → Pic → Pic
unfolding outb
enable_irq irq_num p =
    if ltb irq_num 8
    then (let m = bit_and p.master_mask (complement8 (bitmask irq_num)) in
        outb m master_data (record p { master_mask = m }))
    else (let m = bit_and p.slave_mask (complement8 (bitmask (irq_num - 8))) in
        outb m slave_data (record p { slave_mask = m }))

unfoldable pub disable_irq : ℕ → Pic → Pic
unfolding outb
disable_irq irq_num p =
    if ltb irq_num 8
    then (let m = bit_and p.master_mask (bitmask irq_num) in
        outb m master_data (record p { master_mask = m }))
    else (let m = bit_and p.slave_mask (bitmask (irq_num - 8)) in
        outb m slave_data (record p { slave_mask = m }))

unfoldable pub send_eoi : ℕ → Pic → Pic
unfolding outb
send_eoi irq_num p =
    if ltb irq_num 8
    then outb (bit_or irq_num eoi) master_command p
    else outb (bit_or irq_slave eoi) master_command
        (outb (bit_or (irq_num - 8) eoi) slave_command p)

unfoldable pub i8259_init : Pic → Pic
unfolding outb enable_irq
i8259_init p =
    let masked = outb p.slave_mask slave_data (outb p.master_mask master_data p) in
    let icw1 = outb 0x11 slave_command (outb 0x11 master_command masked) in
    let icw2 = outb 0x28 slave_data (outb 0x20 master_data icw1) in
    let icw3 = outb 0x02 slave_data (outb 0x04 master_data icw2) in
    let icw4 = outb 0x01 slave_data (outb 0x01 master_data icw3) in enable_irq irq_slave icw4
