-- ===== src/Tests/Loops.antt =====
-- The loops of the programs on the sample machine.
use virtual_operating_system.Prelude.{
  ℕ, ℤ, pos, some, Option, List, [], ◌∷◌, ◌++◌, ◌≡◌, refl, replicate, length, ◌>>=◌, arith,
}
use virtual_operating_system.Console.Output.{puts}
use virtual_operating_system.Console.Printf.{c_string}
use virtual_operating_system.Machine.{Machine}
use virtual_operating_system.User.Kernel.{kernel}
use virtual_operating_system.User.Shell.Sessions.{exit_line}
use virtual_operating_system.User.Ls.Prints.{listing}
use virtual_operating_system.User.Counter.{count_loop}
use virtual_operating_system.User.Counter.Prints.{Counts, count_loop-puts}
use virtual_operating_system.Tests.{sample_console, sample_terminal, term_desc}
use virtual_operating_system.Tests.User.{no_child, no_call, fresh_machine}
use virtual_operating_system.Tests.Screens.{sample-CursorsValid}

-- `ls`, a line without a command, `exit`, and a line behind it.
abbrev typed : List (List ℕ)
typed = (108 ∷ 115 ∷ []) ∷ [] ∷ exit_line ∷ (97 ∷ []) ∷ []

abbrev typed_machine : Machine
typed_machine = record fresh_machine {
  console = record sample_console {
    terminals = λ i. record sample_terminal {
      key_buf = listing typed ++ replicate 117 0;
      num_buf = pos 11;
      buf_flag = 4;
    };
  };
}

-- A child that writes its command line into its image, and ends.
abbrev note_child : Machine → List ℕ → Option (ℤ × Machine)
note_child m command = c_string command >>= λ c.
    some (pos 0, record m { user_image = λ i. m.user_image 0 ++ listing (c ∷ []) })

abbrev Noted : Machine → List (List ℕ) → Type 0
Noted m cs = m.user_image 0 ≡ listing cs

count_loop-puts_example :
    (m' : Machine) × (texts : List (List ℕ)) × (count_loop
        (kernel no_child no_call 0x9000)
        3
        8
        fresh_machine
        (replicate 33 0)
      ≡ some (0, m'))
    × (length texts ≡ 3)
    × Counts 9 texts
    × (puts (listing texts) fresh_machine.console ≡ some m'.console)
count_loop-puts_example =
    count_loop-puts no_child no_call 0x9000 3 8 fresh_machine (replicate 33 0) (omega arith)
      (omega arith) (term_desc, refl, refl) sample-CursorsValid
