-- ===== src/User/Kernel.antt =====
-- The system calls of the programs of syscalls/ are those of student-distrib/syscall.c. What runs a
-- child process and the assembly that looks a number up are parameters.
pub mod Output
use virtual_operating_system.Prelude.{ℕ, ℤ, Option, none, some, List, ◌>>=◌}
use virtual_operating_system.Terminal.{Reading, waits, returns}
use virtual_operating_system.Machine.{Machine}
use virtual_operating_system.Syscall.{read, write, open_file, close, getargs}
use virtual_operating_system.Paging.{vidmap}
use virtual_operating_system.User.{Calls}

-- A read that waits does not come back by itself.
abbrev pub finished : Reading Machine (ℤ × List ℕ × Machine) → Option (ℤ × List ℕ × Machine)
finished (waits m) = none
finished (returns r) = some r

-- `run` is a child process from its start to its `halt`, `call` an `int 0x80` with any number, and
-- `user_table_at` the address of the page table of `vidmap`.
unfoldable pub kernel :
    (Machine → List ℕ → Option (ℤ × Machine))
    → (Machine → ℤ → Option (ℤ × Machine))
    → ℕ
    → Calls Machine
kernel run call user_table_at = record {
  execute = run;
  read = λ m fd buf n. read m fd (some buf) n >>= finished;
  write = λ m fd buf n. write m fd (some buf) n;
  open_file = λ m name. open_file m (some name);
  close = close;
  getargs = λ m buf n. getargs m (some buf) n >>= λ r. some (r.0, r.1, m);
  vidmap = λ m screen_start. let r = vidmap user_table_at m screen_start in some (r.0, r.1);
  call_sys = call;
}
