-- ===== src/Tests/Screens.antt =====
-- Output, keys, lines and terminals, on the sample console.
use virtual_operating_system.Prelude.{
  ℕ, ◌+◌, ◌%◌, pos, none, some, [], ◌∷◌, ◌++◌, ◌≡◌, refl, arith, inl, inr, replicate,
}
use virtual_operating_system.Console.Screen.{Screen, emit, character, scroll, newline}
use virtual_operating_system.Console.Output.{
  Console, Terminal, puts, putc, putc2screen, shown, current, draw_cursor,
}
use virtual_operating_system.Console.Isolation.{CursorsValid, HiddenOutput, puts-HiddenOutput}
use virtual_operating_system.Keyboard.{type_key, enter_key, backspace_key, tab_loop}
use virtual_operating_system.Keyboard.Buffer.{Holds, Typed, on_display, type_key-Typed}
use virtual_operating_system.Keyboard.Lines.{enter_backspace, tab_overflow}
use virtual_operating_system.Terminal.{take_line, minus}
use virtual_operating_system.Terminal.Lines.{take_line_lem}
use virtual_operating_system.Machine.{Machine}
use virtual_operating_system.Process.{returned, pde_index, program_pde, kernel_stack}
use virtual_operating_system.Scheduling.{switch_terminal, pit_handler, Layout}
use virtual_operating_system.Scheduling.Switch.{screen, switch_terminal_running}
use virtual_operating_system.Scheduling.Fairness.{IsNext, pit_handler-IsNext}
use virtual_operating_system.Tests.{sample_terminal, sample_console, sample_machine, value_of}

pub sample-CursorsValid : CursorsValid sample_console
sample-CursorsValid i = record { x_in = omega arith; y_in = omega arith; start_in = omega arith }

sample-Holds : Holds (shown sample_console) 0
sample-Holds = record { size = refl; count = refl }

abbrev said : Console
said = value_of sample_console (puts (104 ∷ 105 ∷ []) sample_console)

said_run : puts (104 ∷ 105 ∷ []) sample_console ≡ some said
unfolding puts putc emit character scroll
said_run = refl

puts-HiddenOutput_example : HiddenOutput sample_console said
puts-HiddenOutput_example =
    puts-HiddenOutput (104 ∷ 105 ∷ []) sample_console (λ q. omega (arith, q)) said_run

abbrev near_start : Screen
near_start = record { cells = λ i. 65; x = 3; y = 1; start = pos 81 }

type_key-Typed_example :
    (k : Console) × (type_key 97 sample_console ≡ some k)
    × Typed 97 0 sample_console k
    × (emit 97 (on_display sample_console) ≡ some (on_display k))
type_key-Typed_example =
    type_key-Typed 97 sample_console 0 sample-CursorsValid sample-Holds (λ q. omega arith)
      (omega arith)

-- A screen on which a full buffer has been typed.
abbrev full_console : Console
full_console = record sample_console {
  terminals = λ i. record sample_terminal { num_buf = pos 126 };
}

tab_overflow_example : tab_loop 4 full_console ≡ none
tab_overflow_example =
    tab_overflow 4 full_console 126
      (λ i. record { x_in = omega arith; y_in = omega arith; start_in = omega arith })
      (record { size = refl; count = refl }) (omega arith) (omega arith)

abbrev entered_line : Console
entered_line = value_of sample_console (enter_key sample_console)

entered_run : enter_key sample_console ≡ some entered_line
unfolding enter_key putc2screen emit
entered_run = refl

abbrev taken_back : Console
taken_back = value_of sample_console (backspace_key entered_line)

taken_back_run : backspace_key entered_line ≡ some taken_back
unfolding backspace_key enter_key putc2screen emit character scroll draw_cursor newline
taken_back_run = refl

enter_backspace_example : Holds (shown taken_back) 0 × ((shown taken_back).buf_flag ≡ 1)
enter_backspace_example =
    enter_backspace sample_console entered_line taken_back 0 sample-CursorsValid sample-Holds
      (omega arith) entered_run taken_back_run

-- `"a\n"` and then `"b"` have been typed.
abbrev typed_terminal : Terminal
typed_terminal = record sample_terminal {
  key_buf = 97 ∷ 10 ∷ 98 ∷ replicate 125 0;
  num_buf = pos 3;
  buf_flag = 1;
}

take_line_lem_example :
    take_line typed_terminal (9 ∷ 9 ∷ 9 ∷ []) 3
    ≡ some (
      2,
      97 ∷ 10 ∷ 9 ∷ [],
      record typed_terminal {
        key_buf = (98 ∷ replicate 125 0) ++ replicate 2 0;
        num_buf = minus (pos 3) 2;
        buf_flag = 0;
      },
    )
take_line_lem_example =
    take_line_lem typed_terminal (97 ∷ []) (98 ∷ replicate 125 0) (9 ∷ 9 ∷ 9 ∷ []) 3 refl refl
      (λ q. omega arith, tt) (omega arith) (omega arith)

switch_terminal_running_example :
    (k : Console) × (switch_terminal sample_machine 2
      ≡ some (returned (pos 0) (record sample_machine { console = k })))
    × (k.terminal_displayed ≡ 2)
    × ((i : ℕ) → screen k i ≡ screen sample_console i)
switch_terminal_running_example =
    switch_terminal_running sample_machine 2 (inr (λ q. omega (arith, q)))

abbrev sample_layout : Layout
sample_layout = record {
  user_table_at = 0x403000;
  video_table_at = 0x404000;
  video_memory_at = λ i. 0x405000 + i % 3;
}

pit_handler-IsNext_example :
    (m : Machine) × (pit_handler sample_layout sample_machine ≡ some m)
    × IsNext sample_console.terminals 1 m.console.terminal_num
    × (m.page_directory pde_index ≡ program_pde (current m.console).process_num)
    × (m.esp0 ≡ kernel_stack (current m.console).process_num)
pit_handler-IsNext_example =
    pit_handler-IsNext sample_layout sample_machine (omega arith) (inl (λ q. omega (arith, q)))
