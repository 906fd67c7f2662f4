-- ===== src/Rtc.antt =====
-- student-distrib/rtc.c: the real-time clock and its rate.
pub mod PowerOfTwo
pub mod Rate
use Prim.Native.Nat.{bit_and, bit_or}
use virtual_operating_system.Prelude.{
  ℕ, zero, suc, ◌+◌, ◌-◌, ◌/◌, ◌%◌, ℤ, pos, negsuc, Bool, true, false, not, Option, none, some, ltb,
  ◌==◌, if◌then◌else◌, ◌>>=◌, ◌||◌,
}
use virtual_operating_system.Pic.{Pic, outb, enable_irq, disable_irq, send_eoi}

-- `register_a` and `register_b` are what the clock answers when they are read; `rtc_flag` holds the
-- terminals that wait for a tick.
pub record Rtc : Type 0 where
  pub pic : Pic
  pub register_a : ℕ
  pub register_b : ℕ
  pub rtc_flag : ℕ → ℕ

abbrev pub rtc_port : ℕ
rtc_port = 0x70

abbrev pub cmos_port : ℕ
cmos_port = 0x71

abbrev pub irq_rtc : ℕ
irq_rtc = 8

abbrev pub max_rtc_rate : ℕ
max_rtc_rate = 9

-- `n & 1` and `n >> 1` on an `int`.
abbrev pub is_odd : ℤ → Bool
is_odd (pos n) = n % 2 == 1
is_odd (negsuc n) = n % 2 == 0

abbrev pub half : ℤ → ℤ
half (pos n) = pos (n / 2)
half (negsuc n) = negsuc (n / 2)

abbrev pub is_zero : ℤ → Bool
is_zero (pos n) = n == 0
is_zero (negsuc n) = false

-- `while (!(n & 0x1)) n >>= 1;` on fuel; `none` means that the fuel ran out.
unfoldable pub strip_zeros : ℕ → ℤ → Option ℤ
strip_zeros zero n = none
strip_zeros (suc f) n = let rest = strip_zeros f (half n) in if is_odd n then some n else rest

unfoldable pub power_of_two : ℕ → ℤ → Option Bool
unfolding strip_zeros
power_of_two f n = strip_zeros f n >>= λ m. some (is_zero (half m))

-- `while (freq != 0 && rate < MAX_RTC_RATE)` with `r` values of `rate` left.
unfoldable pub rate_loop : ℕ → ℤ → ℕ → ℕ
rate_loop zero freq rate = rate
rate_loop (suc r) freq rate =
    let rest = rate_loop r (half freq) (rate + 1) in if is_zero freq then rate else rest

-- `freq > 1024`.
abbrev pub too_fast : ℤ → Bool
too_fast (pos n) = ltb 1024 n
too_fast (negsuc n) = false

-- What `outb` writes to register A: the upper half is kept.
abbrev pub register_value : ℕ → ℕ → ℕ
register_value prev rate = bit_or (bit_and prev 0xF0) (bit_and (255 - rate) 0x0F)

unfoldable pub set_rate : ℕ → Rtc → Rtc
set_rate rate d =
    let off = outb 0x8A rtc_port (outb 0x8A rtc_port (disable_irq irq_rtc d.pic)) in
    let v = register_value d.register_a rate in
    record d { pic = enable_irq irq_rtc (outb v cmos_port off); register_a = v }

-- `rtc_write` at the frequency that the buffer holds.
unfoldable pub rtc_write : ℕ → ℤ → Rtc → Option (ℤ × Rtc)
rtc_write fuel asked d = power_of_two fuel asked >>= λ ok.
    let freq = if not ok || too_fast asked then pos 512 else asked in
    some (pos 0, set_rate (rate_loop max_rtc_rate (half (half freq)) 0) d)

-- The fuel that is enough for every `int` but 0.
abbrev pub int_bits : ℕ
int_bits = 32

unfoldable pub rtc_open : Rtc → Option (ℤ × Rtc)
unfolding rtc_write
rtc_open d = rtc_write int_bits (pos 2) d >>= λ r. some (pos 0, r.1)

unfoldable pub rtc_close : ℤ
rtc_close = pos 0

unfoldable pub rtc_init : Rtc → Rtc
rtc_init d =
    let selected = outb 0x8B rtc_port (outb 0x8B rtc_port d.pic) in
    let v = bit_or d.register_b 0x40 in
    record d { pic = enable_irq irq_rtc (outb v cmos_port selected); register_b = v }

unfoldable pub rtc_handler : Rtc → Rtc
rtc_handler d = record d {
  pic = outb 0x0C rtc_port (send_eoi irq_rtc d.pic);
  rtc_flag = λ i. if ltb i 3 then 0 else d.rtc_flag i;
}

-- `rtc_read`: the flag is set, and the call returns at the first check that finds it cleared.
unfoldable pub rtc_read_start : ℕ → Rtc → Rtc
rtc_read_start terminal_num d = record d {
  rtc_flag = λ i. if i == terminal_num then 1 else d.rtc_flag i;
}

unfoldable pub rtc_read_check : ℕ → Rtc → Option ℤ
rtc_read_check terminal_num d = if d.rtc_flag terminal_num == 0 then some (pos 0) else none
