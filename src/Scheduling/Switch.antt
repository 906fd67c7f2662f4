-- ===== src/Scheduling/Switch.antt =====
-- What `switch_terminal` of student-distrib/lib.c keeps.
use virtual_operating_system.Prelude.{
  ℕ, pos, true, false, not, ◌≡◌, ◌≢◌, ◌⊎◌, inl, inr, refl, ap, sym, some, ◌==◌, ==_iff, Bool-cases,
  if◌then◌else◌, ◌&&◌, arith,
}
use virtual_operating_system.Console.Output.{Console, draw_cursor}
use virtual_operating_system.Console.Screen.{Cells}
use virtual_operating_system.Machine.{Machine}
use virtual_operating_system.Process.{returned}
use virtual_operating_system.Scheduling.{switch_screen, switch_terminal}

-- The screen of a terminal: the display if it is displayed, else its own copy.
abbrev pub screen : Console → ℕ → Cells
screen k i = if i == k.terminal_displayed then k.video_mem else (k.terminals i).video_memory

screen-switch_screen : (k : Console) (new i : ℕ) → screen (switch_screen k new) i ≡ screen k i
unfolding switch_screen draw_cursor
screen-switch_screen k new i =
    let same : (new == new) ≡ true = ground arith in
    elim (Bool-cases (i == new)) [
      | inl here ↦
          let e : i ≡ new = (==_iff i new).0 here in
          rw (e, same)
            (elim (Bool-cases (new == k.terminal_displayed)) [
              | inl old ↦ rw old
              | inr off ↦ rw off
            ])
      | inr away ↦
          rw away
            (elim (Bool-cases (i == k.terminal_displayed)) [ inl old ↦ rw old | inr off ↦ rw off ])
    ]

flag_kept :
    (k : Console) (new i : ℕ) → ((switch_screen k new).terminals i).flag ≡ (k.terminals i).flag
unfolding switch_screen draw_cursor
flag_kept k new i = elim (Bool-cases (i == k.terminal_displayed)) [
  | inl same ↦
      let e : i ≡ k.terminal_displayed = (==_iff i k.terminal_displayed).0 same in
      rw same (ap (λ (j : ℕ). (k.terminals j).flag) (sym e))
  | inr off ↦ rw off
]

displayed : (k : Console) (new : ℕ) → (switch_screen k new).terminal_displayed ≡ new
unfolding switch_screen draw_cursor
displayed k new = refl

-- A switch to a terminal that runs, or to the first, displays it and keeps the screen of every
-- terminal.
pub switch_terminal_running :
    (m : Machine) (new : ℕ)
    → (new ≡ 0) ⊎ ((m.console.terminals new).flag ≢ 0)
    → (k : Console) × (switch_terminal m new ≡ some (returned (pos 0) (record m { console = k })))
      × (k.terminal_displayed ≡ new)
      × ((i : ℕ) → screen k i ≡ screen m.console i)
unfolding switch_terminal
switch_terminal_running m new run =
    let k = switch_screen m.console new in
    let stay : (not (new == 0) && (k.terminals new).flag == 0) ≡ false =
      rw (flag_kept m.console new new) (ground (arith, run)) in
    (k, rw stay, displayed m.console new, λ i. screen-switch_screen m.console new i)
