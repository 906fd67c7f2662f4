-- ===== src/Boot/Ready.antt =====
-- What the initialisers of student-distrib/kernel.c leave, all of them together.
use Prim.Native.Nat.{bit_or}
use virtual_operating_system.Prelude.{
  ℕ, suc, ◌+◌, ◌%◌, ◌^◌, ◌<◌, ◌≡◌, refl, none, some, List, [], ◌∷◌, set, get_elem?, leb, ltb, ◌==◌,
  if◌then◌else◌, ◌&&◌, ◌||◌, arith,
}
use virtual_operating_system.Rtc.{rtc_init}
use virtual_operating_system.Pic.{Pic, i8259_init, enable_irq, outb}
use virtual_operating_system.Scheduling.{pit_init}
use virtual_operating_system.Pic.Masks.{IsValid, line}
use virtual_operating_system.Idt.{
  Call, call_halt, call_execute, call_read, call_write, call_open, call_close, call_getargs,
  call_vidmap, exception_handlers, itr_irq, itr_sys, init_syscall, add_irq,
}
use virtual_operating_system.Idt.Gates.{
  idt_init_access, idt_init_irq, idt_init_exception, idt_init_syscall,
}
use virtual_operating_system.FileSystem.{filesystem_init}
use virtual_operating_system.Paging.Identity.{translate, page_init_identity}
use virtual_operating_system.Boot.{
  Kernel, keyboard_driver, rtc_driver, pit_driver, keyboard_init, init_devices,
}
use virtual_operating_system.Boot.Lines.{is_used, line-init_devices}

-- The functions behind the numbers 1 to 8.
abbrev pub system_calls : List Call
system_calls =
    call_halt ∷ call_execute ∷ call_read ∷ call_write ∷ call_open ∷ call_close ∷ call_getargs
    ∷ call_vidmap ∷ []

-- The writes to the ports, the newest first: the two controllers in cascade with their vectors from 0x20
-- and 0x28, the line of the keyboard, the periodic ticks of the clock, and the timer at 59659 =
-- 0xE90B cycles of its 1193180 Hz for a tick. Behind each of the four a mask is written.
abbrev pub Programmed : ℕ → Pic → Pic → Type 0
Programmed register_b p q =
    (cascade : ℕ) × (keys : ℕ) × (clock : ℕ) × (timer : ℕ) × (q.outs
      ≡ (0x21, timer)
        ∷ (0x40, 0xE9)
        ∷ (0x40, 0x0B)
        ∷ (0x43, 0x36)
        ∷ (0xA1, clock)
        ∷ (0x71, bit_or register_b 0x40)
        ∷ (0x70, 0x8B)
        ∷ (0x70, 0x8B)
        ∷ (0x21, keys)
        ∷ (0x21, cascade)
        ∷ (0xA1, 0x01)
        ∷ (0x21, 0x01)
        ∷ (0xA1, 0x02)
        ∷ (0x21, 0x04)
        ∷ (0xA1, 0x28)
        ∷ (0x21, 0x20)
        ∷ (0xA0, 0x11)
        ∷ (0x20, 0x11)
        ∷ (0xA1, p.slave_mask)
        ∷ (0x21, p.master_mask)
        ∷ p.outs)

-- After the initialisers on `b`, with `PageTable` at `table_at` and the files at `start`, in `q`: the lines
-- of the timer, the clock, the keyboard and the second controller are open, and their handlers set.
-- The gates lead to the stubs, the numbers to the system calls. The display and the kernel are
-- mapped, and nothing else. The ports are programmed, process 0 is reserved, and the files are at `start`.
pub record IsReady (table_at start : ℕ) (b q : Kernel) : Type 0 where
  pub lines :
      (k : ℕ)
      → k < 16
      → line q.machine.clock.pic k ≡ (if is_used k then 0 else line b.machine.clock.pic k)
  pub ports : Programmed b.machine.clock.register_b b.machine.clock.pic q.machine.clock.pic
  pub timer_driver : q.irq_handler_jumptable 0 ≡ some pit_driver
  pub key_driver : q.irq_handler_jumptable 1 ≡ some keyboard_driver
  pub clock_driver : q.irq_handler_jumptable 8 ≡ some rtc_driver
  pub gates :
      (v : ℕ) → v < 256 → ((q.idt v).present ≡ 1) × ((q.idt v).dpl ≡ (if v == 0x80 then 3 else 0))
  pub exceptions : (n : ℕ) → n < 32 → (q.idt n).handler ≡ get_elem? exception_handlers n
  pub interrupts : (n : ℕ) → n < 16 → (q.idt (0x20 + n)).handler ≡ some (itr_irq n)
  pub system_gate : (q.idt 0x80).handler ≡ some itr_sys
  pub calls : (n : ℕ) → n < 8 → q.syscall_jumptable (suc n) ≡ get_elem? system_calls n
  pub no_call : q.syscall_jumptable 0 ≡ none
  pub pages :
      (a : ℕ)
      → a < 2 ^ 32
      → translate table_at (record { directory = q.machine.page_directory; table = q.page_table }) a
        ≡ (if leb 0x400000 a && ltb a 0x800000 || leb 0xB8000 a && ltb a 0xB9000
            then some a
            else none)
  pub ticks : q.machine.clock.register_b ≡ bit_or b.machine.clock.register_b 0x40
  pub reserved : q.machine.process ≡ set b.machine.process 0 1
  pub files : q.machine.fs.filesystem_start ≡ start

pub init_devices-IsReady :
    (table_at start : ℕ) (b : Kernel)
    → IsValid b.machine.clock.pic
    → table_at % 2 ^ 12 ≡ 0
    → IsReady table_at start b (init_devices table_at start b)
unfolding init_devices init_syscall keyboard_init filesystem_init add_irq rtc_init pit_init
    i8259_init enable_irq outb
init_devices-IsReady table_at start b v aligned = record {
  lines = λ k hi. line-init_devices table_at start k b v hi;
  ports = (_, _, _, _, refl);
  timer_driver = refl;
  key_driver = refl;
  clock_driver = refl;
  gates = λ n hi. let (present, level, _) = idt_init_access b.idt n hi in (present, level);
  exceptions = idt_init_exception b.idt;
  interrupts = idt_init_irq b.idt;
  system_gate = idt_init_syscall b.idt;
  calls = λ n hi. ground (arith, hi);
  no_call = refl;
  pages =
      page_init_identity table_at
        (record { directory = b.machine.page_directory; table = b.page_table }) aligned;
  ticks = refl;
  reserved = refl;
  files = refl;
}
