-- ===== src/Tests/Devices.antt =====
-- The interrupt controller, the clock, the page tables and the interrupt table.
use virtual_operating_system.Prelude.{ℕ, ◌/◌, pos, none, some, ◌≡◌, refl, arith}
use virtual_operating_system.Pic.{disable_irq}
use virtual_operating_system.Pic.Masks.{IsValid, line, line-disable_irq}
use virtual_operating_system.Rtc.{Rtc, rtc_write}
use virtual_operating_system.Rtc.Rate.{hertz, rtc_write-hertz}
use virtual_operating_system.Paging.{Tables, page_init}
use virtual_operating_system.Paging.Identity.{translate, page_init_identity}
use virtual_operating_system.Idt.{Gate}
use virtual_operating_system.Tests.{sample_pic, sample_rtc}

pic-IsValid : IsValid sample_pic
pic-IsValid = record { master = omega arith; slave = omega arith }

-- Disabling the keyboard opens the line of the timer.
line-disable_irq_example : line (disable_irq 1 sample_pic) 0 ≡ 0
line-disable_irq_example = line-disable_irq sample_pic 1 0 pic-IsValid (omega arith) (omega arith)

rtc_write-hertz_example :
    (d : Rtc) × (rtc_write 32 (pos 32) sample_rtc ≡ some (pos 0, d))
    × (hertz d.register_a ≡ 32)
    × (d.register_a / 16 ≡ 2)
rtc_write-hertz_example = rtc_write-hertz 4 sample_rtc (omega arith) (omega arith)

abbrev pub no_tables : Tables
no_tables = record { directory = λ i. 0; table = λ i. 0 }

page_init_identity_example :
    translate 0x401000 (page_init 0x401000 no_tables) 0xB8010 ≡ some 0xB8010
page_init_identity_example = page_init_identity 0x401000 no_tables refl 0xB8010 (omega arith)

abbrev no_gates : ℕ → Gate
no_gates i = record {
  handler = none;
  seg_selector = 0;
  reserved4 = 0;
  reserved3 = 0;
  reserved2 = 0;
  reserved1 = 0;
  size = 0;
  reserved0 = 0;
  dpl = 0;
  present = 0;
}
