-- ===== src/User/Pingpong/Clock.antt =====
-- syscalls/ece391pingpong.c on the system calls of student-distrib/syscall.c, with the clock of
-- student-distrib/rtc.c ticking.
use virtual_operating_system.Prelude.{
  ℕ, ◌≤◌, ◌<◌, ℤ, pos, true, false, Option, none, some, List, [], ◌∷◌, ◌++◌, ◌≡◌, ◌≢◌, refl, ◌∙◌,
  take, length, ◌==◌, if◌then◌else◌, ltb, ◌>>=◌, arith,
}
use virtual_operating_system.Console.Output.{Console, puts}
use virtual_operating_system.Console.Isolation.{CursorsValid}
use virtual_operating_system.Console.Total.{NoBackspace, puts_total, puts-append}
use virtual_operating_system.Rtc.{Rtc, rtc_handler, rtc_read_start, rtc_read_check}
use virtual_operating_system.Rtc.Rate.{rtc_write-hertz}
use virtual_operating_system.Terminal.{Reading, waits, returns}
use virtual_operating_system.Machine.{Machine, FileDesc, rtc}
use virtual_operating_system.Syscall.{
  read, write, bad_call, call_read, call_write, read_with, write_with,
}
use virtual_operating_system.Syscall.Files.{descriptor}
use virtual_operating_system.User.{Calls}
use virtual_operating_system.User.Kernel.{kernel}
use virtual_operating_system.User.Kernel.Output.{HasTerminal, shown_as, write-puts}
use virtual_operating_system.User.Shell.Typed.{puts-KeepsLine}
use virtual_operating_system.User.Pingpong.Frames.{Animation}

-- What a read comes to when the clock ticks once: `while (rtc_flag[terminal_num]);` ends behind the handler
-- of the interrupt. A read that waits for something else does not come back.
unfoldable pub after_tick :
    List ℕ → Reading Machine (ℤ × List ℕ × Machine) → Option (ℤ × List ℕ × Machine)
after_tick buf (returns r) = some r
after_tick buf (waits m) =
    let t = m.console.terminal_num in
    let ticked = rtc_handler m.clock in
    if m.clock.rtc_flag t == 0
    then none
    else (rtc_read_check t ticked >>= λ z. some (z, buf, record m { clock = ticked }))

module _ (run : Machine → List ℕ → Option (ℤ × Machine)) (call : Machine → ℤ → Option (ℤ × Machine))
    (user_table_at : ℕ) where
  -- The system calls while the clock ticks.
  unfoldable pub ticking : Calls Machine
  ticking = record (kernel run call user_table_at) {
    read = λ m fd buf n. read m fd (some buf) n >>= after_tick buf;
  }

  -- Descriptor 2 is the clock, and `out` has been shown since the console was `k0`.
  record Ticks (k0 : Console) (m : Machine) (out : List ℕ) : Type 0 where
    desc : FileDesc
    at : descriptor m 2 ≡ some desc
    used : desc.flags ≢ 0
    ops : desc.fops ≡ some rtc
    terminal : HasTerminal m
    cursors : CursorsValid m.console
    shown : puts out k0 ≡ some m.console
    slot : m.console.terminal_num < 3
    byte : m.clock.register_a < 256

  write_frame :
      (k0 : Console) (m : Machine) (out s : List ℕ) (n : ℕ)
      → Ticks k0 m out
      → n ≤ length s
      → NoBackspace (take n s)
      → (z : ℤ) × (m' : Machine) × (ticking.write m (pos 1) s (pos n) ≡ some (z, m'))
        × Ticks k0 m' (out ++ take n s)
  unfolding ticking kernel
  write_frame k0 m out s n a room b =
      let (k, e, v) = puts_total (take n s) m.console a.cursors b in
      let kept = puts-KeepsLine (take n s) m.console k e in
      (
        pos n,
        shown_as m k,
        write-puts m s n a.terminal room ∙ rw e refl,
        record {
          desc = a.desc;
          at = a.at;
          used = a.used;
          ops = a.ops;
          terminal = a.terminal;
          cursors = v;
          shown = puts-append out (take n s) k0 m.console k a.shown e;
          slot = omega (arith, kept.num, a.slot);
          byte = a.byte;
        },
      )

  -- The clock, set or ticked, is all that changes.
  Ticks-clock :
      (k0 : Console) (m : Machine) (out : List ℕ) (c : Rtc)
      → c.register_a < 256
      → Ticks k0 m out
      → Ticks k0 (record m { clock = c }) out
  Ticks-clock k0 m out c small a = record {
    desc = a.desc;
    at = a.at;
    used = a.used;
    ops = a.ops;
    terminal = a.terminal;
    cursors = a.cursors;
    shown = a.shown;
    slot = a.slot;
    byte = small;
  }

  set_clock :
      (k0 : Console) (m : Machine) (out : List ℕ)
      → Ticks k0 m out
      → (z : ℤ) × (m' : Machine) × (ticking.write m (pos 2) (32 ∷ 0 ∷ 0 ∷ 0 ∷ []) (pos 4)
          ≡ some (z, m'))
        × Ticks k0 m' out
  unfolding ticking kernel write bad_call call_write write_with
  set_clock k0 m out a =
      let (c, set_to, _, upper) = rtc_write-hertz 4 m.clock (omega arith) a.byte in
      (
        pos 0,
        record m { clock = c },
        rw (a.at, a.ops, set_to) refl,
        Ticks-clock k0 m out c (omega (arith, upper, a.byte)) a,
      )

  wait_clock :
      (k0 : Console) (m : Machine) (out garbage : List ℕ)
      → Ticks k0 m out
      → (z : ℤ) × (b : List ℕ) × (m' : Machine) × (ticking.read m (pos 2) garbage (pos 4)
          ≡ some (z, b, m'))
        × Ticks k0 m' out
  unfolding ticking read bad_call call_read read_with after_tick rtc_read_start rtc_handler
      rtc_read_check
  wait_clock k0 m out garbage a =
      let t = m.console.terminal_num in
      let off : (a.desc.flags == 0) ≡ false = ground (arith, a.used) in
      let self : (t == t) ≡ true = ground arith in
      let low : ltb t 3 ≡ true = ground (arith, a.slot) in
      let ticked = rtc_handler (rtc_read_start t m.clock) in
      (
        pos 0,
        garbage,
        record m { clock = ticked },
        rw (a.at, off, a.ops, self, low) refl,
        Ticks-clock k0 m out ticked a.byte a,
      )

  abbrev on_clock : Console → Animation ticking (pos 2)
  on_clock k0 = record {
    At = Ticks k0;
    output = write_frame k0;
    sets = set_clock k0;
    waits = wait_clock k0;
  }
