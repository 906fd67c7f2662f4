-- ===== src/Rtc/Rate.antt =====
-- The rate that `rtc_write` of student-distrib/rtc.c programs, and what it does to the masks.
use Prim.Native.Nat.{bit_and}
use virtual_operating_system.Prelude.{
  ℕ, suc, ◌-◌, ◌/◌, ◌%◌, ◌^◌, ◌≤◌, ◌<◌, ◌≡◌, ◌⊎◌, refl, inl, inr, Bool, true, false, not, Option,
  none, some, pos, ◌==◌, ltb, ==_iff, ◌&&◌, ◌||◌, arith, lt→ltb, ltb→lt,
}
use virtual_operating_system.Prelude.Tables.{all_below, all_below_sound}
use virtual_operating_system.Pic.{Pic, outb, disable_irq, bitmask}
use virtual_operating_system.Pic.Masks.{IsValid, line, line-enable_irq, line-disable_irq}
use virtual_operating_system.Rtc.{
  Rtc, rtc_write, power_of_two, rate_loop, set_rate, half, register_value, strip_zeros, irq_rtc,
  rtc_port, cmos_port,
}
use virtual_operating_system.Rtc.PowerOfTwo.{IsPower, power_of_two_lem}

-- The periodic rate that the clock's data sheet gives for the lower half of register A.
pub hertz : ℕ → ℕ
hertz r = 2 ^ 15 / 2 ^ (r % 16 - 1)

abbrev value_row : ℕ → Bool
value_row prev = all_below 10 λ rate.
    (register_value prev rate % 16 == 15 - rate) && (register_value prev rate / 16 == prev / 16)

value_table : all_below 256 value_row ≡ true
unfolding all_below
value_table = refl

and_parts : {a b : Bool} → (a && b) ≡ true → (a ≡ true) × (b ≡ true)
and_parts h = ground arith

register_value_lem :
    (prev rate : ℕ)
    → prev < 256
    → rate < 10
    → (register_value prev rate % 16 ≡ 15 - rate) × (register_value prev rate / 16 ≡ prev / 16)
register_value_lem prev rate hp hr =
    let p = and_parts (
      all_below_sound 10
        (λ rate.
          (register_value prev rate % 16 == 15 - rate)
          && (register_value prev rate / 16 == prev / 16))
        rate (all_below_sound 256 value_row prev value_table hp) hr) in
    ((==_iff _ _).0 p.0, (==_iff _ _).0 p.1)

abbrev rate_of : ℕ → ℕ
rate_of freq = rate_loop 9 (half (half (pos freq))) 0

abbrev is_yes : Option Bool → Bool
is_yes none = false
is_yes (some b) = b

not-true : {b : Bool} → not b ≡ true → b ≡ false
not-true h = ground arith

is_yes-eq : {o : Option Bool} → is_yes o ≡ true → o ≡ some true
is_yes-eq {o} h = ground arith

abbrev rate_row : ℕ → Bool
rate_row k =
    is_yes (power_of_two 32 (pos (2 ^ suc k)))
    && (rate_of (2 ^ suc k) == k)
    && (2 ^ 15 / 2 ^ (15 - k - 1) == 2 ^ suc k)
    && not (ltb 1024 (2 ^ suc k))

rate_table : all_below 10 rate_row ≡ true
unfolding all_below power_of_two rate_loop strip_zeros
rate_table = refl

rate_facts :
    (k : ℕ)
    → k < 10
    → (power_of_two 32 (pos (2 ^ suc k)) ≡ some true)
      × (rate_of (2 ^ suc k) ≡ k)
      × (2 ^ 15 / 2 ^ (15 - k - 1) ≡ 2 ^ suc k)
      × (ltb 1024 (2 ^ suc k) ≡ false)
rate_facts k h =
    let a = and_parts (all_below_sound 10 rate_row k rate_table h) in
    let b = and_parts a.0 in
    let c = and_parts b.0 in (is_yes-eq c.0, (==_iff _ _).0 c.1, (==_iff _ _).0 b.1, not-true a.1)

-- With a byte in register A, each of the ten rates from 2 to 1024 Hz is programmed as asked for: the call returns 0, the clock
-- then ticks at that rate, and the upper half of register A is kept.
pub rtc_write-hertz :
    (k : ℕ) (d : Rtc)
    → k < 10
    → d.register_a < 256
    → (d' : Rtc) × (rtc_write 32 (pos (2 ^ suc k)) d ≡ some (pos 0, d'))
      × (hertz d'.register_a ≡ 2 ^ suc k)
      × (d'.register_a / 16 ≡ d.register_a / 16)
unfolding rtc_write set_rate hertz
rtc_write-hertz k d hk hd =
    let (p, r, t, slow) = rate_facts k hk in
    let v = register_value_lem d.register_a k hd hk in
    (set_rate k d, rw (p, slow, r), rw v.0 t, v.1)

replaced :
    (n : ℕ) (r : Bool)
    → (r ≡ true → IsPower n)
    → ¬ IsPower n ⊎ 1024 < n
    → (not r || ltb 1024 n) ≡ true
replaced n false q c = refl
replaced n true q (inl odd) = absurd (odd (q refl))
replaced n true q (inr big) = lt→ltb 1024 n big

-- A positive frequency that is no power of two, or above 1024 Hz, is programmed as 512 Hz.
rtc_write-fallback :
    (n : ℕ) (d : Rtc)
    → 0 < n
    → n < 2 ^ 31
    → ¬ IsPower n ⊎ 1024 < n
    → rtc_write 32 (pos n) d ≡ rtc_write 32 (pos 512) d
unfolding rtc_write
rtc_write-fallback n d h b c =
    let (r, p, q) = power_of_two_lem 32 n h (omega arith) in
    rw (p, (rate_facts 8 (omega arith)).0, replaced n r q.0 c)

low_row : ℕ → Bool
low_row m = ltb (bit_and m (bitmask 0)) 256

low_table : all_below 256 low_row ≡ true
unfolding all_below low_row
low_table = refl

disable_rtc-IsValid : {p : Pic} → IsValid p → IsValid (disable_irq irq_rtc p)
unfolding disable_irq low_row
disable_rtc-IsValid {p} v = record {
  master = v.master;
  slave = ltb→lt _ _ (all_below_sound 256 low_row p.slave_mask low_table v.slave);
}

line-outb : (a b k : ℕ) (p : Pic) → line (outb a b p) k ≡ line p k
unfolding line outb
line-outb a b k p = refl

outb-IsValid : (a b : ℕ) {p : Pic} → IsValid p → IsValid (outb a b p)
unfolding outb
outb-IsValid a b v = record { master = v.master; slave = v.slave }

-- With both masks bytes, once the rate is set every interrupt line of the second controller is unmasked, those of other
-- devices too.
line-set_rate :
    (rate : ℕ) (d : Rtc) (i : ℕ) → IsValid d.pic → 8 ≤ i → i < 16 → line (set_rate rate d).pic i ≡ 0
unfolding set_rate
line-set_rate rate d i v lo hi =
    let w =
      outb-IsValid (register_value d.register_a rate) cmos_port
        (outb-IsValid 0x8A rtc_port (outb-IsValid 0x8A rtc_port (disable_rtc-IsValid v))) in
    ground (
      arith,
      line-enable_irq _ irq_rtc i w (omega arith) hi,
      line-outb (register_value d.register_a rate) cmos_port i
          (outb 0x8A rtc_port (outb 0x8A rtc_port (disable_irq irq_rtc d.pic))),
      line-outb 0x8A rtc_port i (outb 0x8A rtc_port (disable_irq irq_rtc d.pic)),
      line-outb 0x8A rtc_port i (disable_irq irq_rtc d.pic),
      line-disable_irq d.pic irq_rtc i v (omega arith) hi,
    )
