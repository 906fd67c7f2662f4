-- ===== src/Scheduling.antt =====
-- student-distrib/pit.c and `switch_terminal` of student-distrib/lib.c: which terminal runs and
-- which is displayed. The saved stack pointers are not modelled.
pub mod Fairness
pub mod Switch
use Prim.Native.Nat.{bit_and}
use virtual_operating_system.Prelude.{
  ℕ, zero, suc, ◌+◌, ◌-◌, ◌*◌, ◌/◌, ◌%◌, ◌^◌, ℤ, pos, Option, none, some, List, not, ◌==◌,
  if◌then◌else◌, ◌>>=◌, ◌&&◌,
}
use virtual_operating_system.Console.Output.{
  Console, Terminal, current, shown, set_terminal, update, draw_cursor, clear,
}
use virtual_operating_system.Keyboard.{Keys, keyboard_key}
use virtual_operating_system.Pic.{Pic, outb, send_eoi, enable_irq}
use virtual_operating_system.Machine.{Machine}
use virtual_operating_system.Paging.{with_flags, mb_132, rw_enable, present, user_enable}
use virtual_operating_system.Machine.{four_mb}
use virtual_operating_system.Process.{
  Outcome, returned, entered, resumed, execute, shell_command, pde_index, program_pde, kernel_stack,
}

-- `PIT_RATE`.
abbrev pub pit_rate : ℕ
pit_rate = 1193180 / 20

unfoldable pub pit_init : Pic → Pic
unfolding outb enable_irq
pit_init p =
    enable_irq 0
      (outb (pit_rate / 2 ^ 8) 0x40 (outb (bit_and pit_rate 0xFF) 0x40 (outb 0x36 0x43 p)))

-- `while (!terminal_t[terminal_num].flag) ...`, with rounds to spare.
unfoldable pub next_running : (ℕ → Terminal) → ℕ → ℕ → Option ℕ
next_running terminals zero n = none
next_running terminals (suc r) n =
    let rest = next_running terminals r ((n + 1) % 3) in
    if (terminals n).flag == 0 then rest else some n

-- The low 12 bits of a pointer to a page: present, writable, and open to programs.
abbrev pub user_page : ℕ → ℕ
user_page base = with_flags (with_flags base (rw_enable + present)) user_enable

-- The addresses that the linker and `main` have chosen: of `UserPageTable`, of `VideoPageTable`
-- and of the `video_memory` of each terminal.
pub record Layout : Type 0 where
  pub user_table_at : ℕ
  pub video_table_at : ℕ
  pub video_memory_at : ℕ → ℕ

-- The context switch to the terminal `n`.
unfoldable pub context_switch : Layout → ℕ → Machine → Machine
context_switch l n m =
    let next = (m.console.terminals n).process_num in
    let on_display = n == m.console.terminal_displayed in
    let directory = update m.page_directory pde_index (program_pde next) in
    record m {
      console = record m.console { terminal_num = n };
      page_directory =
          update directory (mb_132 / four_mb)
            (user_page (if on_display then l.user_table_at else l.video_table_at));
      user_page_table =
          if on_display then update m.user_page_table 0 (user_page 0xB8000) else m.user_page_table;
      video_page_table =
          if on_display
          then m.video_page_table
          else update m.video_page_table 0 (user_page (l.video_memory_at n));
      esp0 = kernel_stack next;
    }

-- `pit_handler`. Three rounds of the loop are enough.
unfoldable pub pit_handler : Layout → Machine → Option Machine
unfolding next_running context_switch
pit_handler l m =
    let k = m.console in
    let clock = m.clock in
    let m0 = record m { clock = record clock { pic = send_eoi 0 clock.pic } } in
    if (k.terminals 1).flag == 0 && (k.terminals 2).flag == 0
    then some m0
    else (next_running k.terminals 3 ((k.terminal_num + 1) % 3) >>= λ n.
        some (context_switch l n m0))

-- The screen part of `switch_terminal`.
unfoldable pub switch_screen : Console → ℕ → Console
unfolding draw_cursor
switch_screen k new =
    let t = shown k in
    let saved = set_terminal k k.terminal_displayed (record t { video_memory = k.video_mem }) in
    draw_cursor
      (record saved { video_mem = (saved.terminals new).video_memory; terminal_displayed = new })

-- What `switch_terminal` does when `execute` returns.
abbrev pub after_execute : ℕ → Outcome → Outcome
after_execute old (returned z m) =
    let k = m.console in returned (pos 0) (record m { console = record k { terminal_num = old } })
after_execute old (entered e m) = entered e m
after_execute old (resumed s m) = resumed s m

-- A terminal that is not running gets a shell. The first terminal does not.
unfoldable pub switch_terminal : Machine → ℕ → Option Outcome
unfolding switch_screen execute clear
switch_terminal m new =
    let k = switch_screen m.console new in
    if not (new == 0) && (k.terminals new).flag == 0
    then (execute (record m { console = clear (record k { terminal_num = new }) })
          (some shell_command)
        >>= λ o. some (after_execute k.terminal_num o))
    else some (returned (pos 0) (record m { console = k }))

-- The keys F1 to F3 with ALT, by the number of the terminal.
unfoldable pub function_key : ℕ → Machine → Option Outcome
unfolding switch_terminal
function_key n m =
    if n == m.console.terminal_displayed then some (returned (pos 0) m) else switch_terminal m n

-- A key F1 to F3 is looked at only with ALT.
abbrev pub f_key : ℕ → Keys → Machine → Option (Keys × Outcome)
f_key n keys m =
    if keys.alt then (function_key n m >>= λ o. some (keys, o)) else some (keys, returned (pos 0) m)

-- `keyboard_handler` on a scancode.
unfoldable pub keyboard_handler : ℕ → Keys → Machine → Option (Keys × Outcome)
unfolding function_key keyboard_key
keyboard_handler scancode keys m =
    let clock = m.clock in
    let m0 : Machine = record m { clock = record clock { pic = send_eoi 1 clock.pic } } in
    if scancode == 0x3B
    then f_key 0 keys m0
    else if scancode == 0x3C
    then f_key 1 keys m0
    else if scancode == 0x3D
    then f_key 2 keys m0
    else (keyboard_key scancode (record { keys = keys; console = m0.console }) >>= λ s.
        some (s.keys, returned (pos 0) (record m0 { console = s.console })))
