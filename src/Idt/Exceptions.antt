-- ===== src/Idt/Exceptions.antt =====
-- What the exception handlers of student-distrib/idt.c do to the program.
use virtual_operating_system.Prelude.{ℤ, some, ◌≢◌, >>=-eq-some}
use virtual_operating_system.Console.Output.{puts, clear}
use virtual_operating_system.Machine.{Machine}
use virtual_operating_system.Process.{Outcome, returned, halt}
use virtual_operating_system.Process.Halt.{halt_leaves}
use virtual_operating_system.Idt.{Exception, message, raise}

-- A program is never resumed after an exception.
raise_leaves :
    (e : Exception) (m : Machine) (z : ℤ) (m' : Machine) → raise e m ≢ some (returned z m')
unfolding raise
raise_leaves e m z m' h =
    let (k, _, q) =
      >>=-eq-some {B = Outcome} (puts (message e) (clear m.console))
        (λ k. halt (record m { console = k }) 256) h in
    halt_leaves (record m { console = k }) 256 z m' q
