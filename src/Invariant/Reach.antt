-- ===== src/Invariant/Reach.antt =====
-- Every state that the kernel of student-distrib/ reaches from a sound one, by system calls, timer
-- ticks, clock ticks and keys in any order, is sound.
use virtual_operating_system.Prelude.{
  ℕ, ◌+◌, ◌%◌, ℤ, pos, not, Option, some, List, ◌≡◌, ◌==◌, ◌>>=◌, ◌&&◌, ◌||◌, ◌-◌, ltb, Bool-cases,
  inl, inr,
}
use virtual_operating_system.Prelude.Ensures.{
  Ensures, Ensures-bind, Ensures-step, Ensures-if, Ensures-eq_some,
}
use virtual_operating_system.Console.Output.{clear}
use virtual_operating_system.Rtc.{rtc_handler}
use virtual_operating_system.Pic.{send_eoi}
use virtual_operating_system.Machine.{Machine, four_mb}
use virtual_operating_system.Paging.{vidmap, mb_132}
use virtual_operating_system.Syscall.{read, write, open_file, close}
use virtual_operating_system.Process.{
  Outcome, returned, entered, resumed, execute, halt, shell_command,
}
use virtual_operating_system.Keyboard.{Keys, keyboard_key}
use virtual_operating_system.Scheduling.{
  Layout, context_switch, pit_handler, next_running, switch_screen, switch_terminal, after_execute,
  function_key, f_key, keyboard_handler,
}
use virtual_operating_system.Invariant.{IsSound}
use virtual_operating_system.Invariant.Calls.{state_of, read-IsSound, write-IsSound, close-IsSound}
use virtual_operating_system.Invariant.Opening.{open_file-IsSound}
use virtual_operating_system.Invariant.Programs.{machine_of, execute-IsSound, halt-IsSound}

-- What may happen next: a system call of the running program, or an interrupt.
pub data Event : Type 0 where
  reads : ℤ → Option (List ℕ) → ℤ → Event
  writes : ℤ → Option (List ℕ) → ℤ → Event
  opens : Option (List ℕ) → Event
  closes : ℤ → Event
  maps : ℕ → Event
  executes : Option (List ℕ) → Event
  halts : ℕ → Event
  timer : Event
  clock : Event
  key : Keys → ℕ → Event

unfoldable pub happen : Layout → Event → Machine → Option Machine
unfolding read write open_file close execute halt pit_handler keyboard_handler vidmap rtc_handler
happen l (reads fd buf n) m = read m fd buf n >>= λ r. some (state_of r)
happen l (writes fd buf n) m = write m fd buf n >>= λ r. some r.1
happen l (opens name) m = open_file m name >>= λ r. some r.1
happen l (closes fd) m = close m fd >>= λ r. some r.1
happen l (maps screen_start) m = some (vidmap l.user_table_at m screen_start).1
happen l (executes command) m = execute m command >>= λ o. some (machine_of o)
happen l (halts status) m = halt m status >>= λ o. some (machine_of o)
happen l timer m = pit_handler l m
happen l clock m = some (record m { clock = rtc_handler m.clock })
happen l (key keys scancode) m = keyboard_handler scancode keys m >>= λ r. some (machine_of r.1)

pub data Reach (l : Layout) (m : Machine) : Machine → Type 0 where
  here : Reach l m m
  next : {k k' : Machine} → Reach l m k → (e : Event) → happen l e k ≡ some k' → Reach l m k'

vidmap-IsSound : (at : ℕ) (m : Machine) (p : ℕ) → IsSound m → IsSound (vidmap at m p).1
unfolding vidmap
vidmap-IsSound at m p h = elim (Bool-cases (p == 0 || ltb mb_132 p || ltb p (mb_132 - four_mb))) [
  | inl bad ↦ rw bad h
  | inr good ↦ rw good (record { table = h.table; blocks = h.blocks; types = h.types })
]

pit_handler-IsSound : (l : Layout) (m : Machine) → IsSound m → Ensures IsSound (pit_handler l m)
unfolding pit_handler context_switch
pit_handler-IsSound l m h =
    let c = m.clock in
    let m0 : Machine = record m { clock = record c { pic = send_eoi 0 c.pic } } in
    Ensures-if IsSound ((m.console.terminals 1).flag == 0 && (m.console.terminals 2).flag == 0)
      (some m0) _ (record { table = h.table; blocks = h.blocks; types = h.types })
      (Ensures-step IsSound (next_running m.console.terminals 3 ((m.console.terminal_num + 1) % 3))
        (λ n. some (context_switch l n m0))
        (λ n. record { table = h.table; blocks = h.blocks; types = h.types }))

after_execute-IsSound :
    (old : ℕ) (o : Outcome) → IsSound (machine_of o) → IsSound (machine_of (after_execute old o))
after_execute-IsSound old (returned z m) h = record {
  table = h.table;
  blocks = h.blocks;
  types = h.types;
}
after_execute-IsSound old (entered e m) h = h
after_execute-IsSound old (resumed s m) h = h

switch_terminal-IsSound :
    (m : Machine) (new : ℕ)
    → IsSound m
    → Ensures (λ o. IsSound (machine_of o)) (switch_terminal m new)
unfolding switch_terminal
switch_terminal-IsSound m new h =
    let P : Outcome → Type 0 = λ o. IsSound (machine_of o) in
    let k = switch_screen m.console new in
    let m1 : Machine = record m { console = clear (record k { terminal_num = new }) } in
    Ensures-if P (not (new == 0) && (k.terminals new).flag == 0) _
      (some (returned (pos 0) (record m { console = k })))
      (Ensures-bind P P (execute m1 (some shell_command)) _
        (execute-IsSound m1 (some shell_command)
          (record { table = h.table; blocks = h.blocks; types = h.types }))
        (λ o s. after_execute-IsSound k.terminal_num o s))
      (record { table = h.table; blocks = h.blocks; types = h.types })

function_key-IsSound :
    (n : ℕ) (m : Machine) → IsSound m → Ensures (λ o. IsSound (machine_of o)) (function_key n m)
unfolding function_key
function_key-IsSound n m h =
    Ensures-if (λ o. IsSound (machine_of o)) (n == m.console.terminal_displayed) _ _ h
      (switch_terminal-IsSound m n h)

f_key-IsSound :
    (n : ℕ) (keys : Keys) (m : Machine)
    → IsSound m
    → Ensures (λ r. IsSound (machine_of r.1)) (f_key n keys m)
f_key-IsSound n keys m h =
    Ensures-if (λ r. IsSound (machine_of r.1)) keys.alt _ _
      (Ensures-bind (λ o. IsSound (machine_of o)) (λ r. IsSound (machine_of r.1)) (function_key n m)
        _ (function_key-IsSound n m h) (λ o s. s))
      h

keyboard_handler-IsSound :
    (scancode : ℕ) (keys : Keys) (m : Machine)
    → IsSound m
    → Ensures (λ r. IsSound (machine_of r.1)) (keyboard_handler scancode keys m)
unfolding keyboard_handler
keyboard_handler-IsSound scancode keys m h =
    let c = m.clock in
    let m0 : Machine = record m { clock = record c { pic = send_eoi 1 c.pic } } in
    let h0 : IsSound m0 = record { table = h.table; blocks = h.blocks; types = h.types } in
    let P : Keys × Outcome → Type 0 = λ r. IsSound (machine_of r.1) in
    Ensures-if P (scancode == 0x3B) _ _ (f_key-IsSound 0 keys m0 h0) (
      Ensures-if P (scancode == 0x3C) _ _ (f_key-IsSound 1 keys m0 h0) (
        Ensures-if P (scancode == 0x3D) _ _ (f_key-IsSound 2 keys m0 h0) (
          Ensures-step P (keyboard_key scancode (record { keys = keys; console = m0.console })) _
            (λ s. record { table = h.table; blocks = h.blocks; types = h.types }))))

happen-IsSound : (l : Layout) (e : Event) (m : Machine) → IsSound m → Ensures IsSound (happen l e m)
unfolding happen
happen-IsSound l (reads fd buf n) m h =
    Ensures-bind (λ r. IsSound (state_of r)) IsSound (read m fd buf n) _ (read-IsSound m fd buf n h)
      (λ r k. k)
happen-IsSound l (writes fd buf n) m h =
    Ensures-bind (λ r. IsSound r.1) IsSound (write m fd buf n) _ (write-IsSound m fd buf n h)
      (λ r k. k)
happen-IsSound l (opens name) m h =
    Ensures-bind (λ r. IsSound r.1) IsSound (open_file m name) _ (open_file-IsSound m name h)
      (λ r k. k)
happen-IsSound l (closes fd) m h =
    Ensures-bind (λ r. IsSound r.1) IsSound (close m fd) _ (close-IsSound m fd h) (λ r k. k)
happen-IsSound l (maps p) m h = vidmap-IsSound l.user_table_at m p h
happen-IsSound l (executes c) m h =
    Ensures-bind (λ o. IsSound (machine_of o)) IsSound (execute m c) _ (execute-IsSound m c h)
      (λ o k. k)
happen-IsSound l (halts s) m h =
    Ensures-bind (λ o. IsSound (machine_of o)) IsSound (halt m s) _ (halt-IsSound m s h) (λ o k. k)
happen-IsSound l timer m h = pit_handler-IsSound l m h
happen-IsSound l clock m h = record { table = h.table; blocks = h.blocks; types = h.types }
happen-IsSound l (key keys scancode) m h =
    Ensures-bind (λ r. IsSound (machine_of r.1)) IsSound (keyboard_handler scancode keys m) _
      (keyboard_handler-IsSound scancode keys m h) (λ r k. k)

-- From a state in which the process table has six entries, every control block has eight
-- descriptors of which those in use have operations, and the directory has known types only, all
-- system calls, timer and clock ticks and keys, in any order, lead to such states again.
pub Reach-IsSound : (l : Layout) {m k : Machine} → Reach l m k → IsSound m → IsSound k
Reach-IsSound l here h = h
Reach-IsSound l (next {k} r e step) h =
    Ensures-eq_some IsSound (happen l e k) (happen-IsSound l e k (Reach-IsSound l r h)) step
