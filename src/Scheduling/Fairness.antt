-- ===== src/Scheduling/Fairness.antt =====
-- Which terminal the timer interrupt of student-distrib/pit.c runs next.
use virtual_operating_system.Prelude.{
  ℕ, zero, suc, ◌+◌, ◌-◌, ◌%◌, ◌≤◌, ◌<◌, false, some, ◌≡◌, ◌≢◌, ◌⊎◌, inl, inr, refl, ap, ◌∙◌, sym,
  ◌==◌, ==_iff, Bool-cases, ◌&&◌, arith,
}
use virtual_operating_system.Console.Output.{Terminal, current}
use virtual_operating_system.Pic.{send_eoi}
use virtual_operating_system.Machine.{Machine}
use virtual_operating_system.Process.{pde_index, program_pde, kernel_stack}
use virtual_operating_system.Scheduling.{next_running, context_switch, pit_handler, Layout}

-- The terminal `d` places behind `n`.
abbrev pub behind : ℕ → ℕ → ℕ
behind n d = (n + d) % 3

-- The first running terminal behind `n`, in a circle of three.
pub record IsNext (terminals : ℕ → Terminal) (n next : ℕ) : Type 0 where
  pub distance : ℕ
  pub near : (1 ≤ distance) × (distance ≤ 3)
  pub place : next ≡ behind n distance
  pub running : (terminals next).flag ≢ 0
  pub skipped : (d : ℕ) → 1 ≤ d → d < distance → (terminals (behind n d)).flag ≡ 0

next_running-IsNext :
    (terminals : ℕ → Terminal) (r n d : ℕ)
    → 1 ≤ d
    → d + r ≡ 4
    → ((e : ℕ) → 1 ≤ e → e < d → (terminals (behind n e)).flag ≡ 0)
    → ((e : ℕ) × ((d ≤ e) × (e < 4) × ((terminals (behind n e)).flag ≢ 0)))
    → (next : ℕ) × (next_running terminals r (behind n d) ≡ some next) × IsNext terminals n next
unfolding next_running
next_running-IsNext terminals zero n d lo sum before (e, w) = absurd (omega (arith, w))
next_running-IsNext terminals (suc r) n d lo sum before (e, w) =
    elim (Bool-cases ((terminals (behind n d)).flag == 0)) [
      | inl idle ↦
          let z : (terminals (behind n d)).flag ≡ 0 = (==_iff _ 0).0 idle in
          let step : (behind n d + 1) % 3 ≡ behind n (suc d) = omega arith in
          let later : d ≢ e =
            λ q. w.2 (ap (λ (x : ℕ). (terminals (behind n x)).flag) (sym q) ∙ z) in
          let (next, found, is_next) =
            next_running-IsNext terminals r n (suc d) (omega arith) (omega arith)
              (λ c a b. elim (Bool-cases (c == d)) [
                | inl same ↦ ap (λ (x : ℕ). (terminals (behind n x)).flag) ((==_iff c d).0 same) ∙ z
                | inr off ↦ before c a (ground arith)
              ])
              (e, (omega (arith, later, w), w.1, w.2)) in
          (next, rw idle (ap (next_running terminals r) step) ∙ found, is_next)
      | inr busy ↦ (
        behind n d,
        rw busy,
        record {
          distance = d;
          near = (lo, omega arith);
          place = refl;
          running = ground arith;
          skipped = before;
        },
      )
    ]

place :
    (terminals : ℕ → Terminal) (n t : ℕ)
    → n < 3
    → t < 3
    → (terminals t).flag ≢ 0
    → t ≢ n
    → (e : ℕ) × ((1 ≤ e) × (e < 4) × ((terminals (behind n e)).flag ≢ 0))
place terminals n t h lt r ne =
    let d = (t + 3 - n) % 3 in
    let e : behind n d ≡ t = omega (arith, ne) in (d, (omega (arith, ne), omega arith, rw e r))

-- A running terminal is met within three places.
reach :
    (terminals : ℕ → Terminal) (n t : ℕ)
    → n < 3
    → t < 3
    → (terminals t).flag ≢ 0
    → (e : ℕ) × ((1 ≤ e) × (e < 4) × ((terminals (behind n e)).flag ≢ 0))
reach terminals n t h lt r = elim (Bool-cases (t == n)) [
  | inl same ↦
      let e : behind n 3 ≡ t = omega (arith, (==_iff t n).0 same) in
      (3, (omega arith, omega arith, rw e r))
  | inr off ↦ place terminals n t h lt r (ground arith)
]

-- The terminal that is chosen: the next one that runs, if the second or the third terminal runs.
pub choose_lem :
    (terminals : ℕ → Terminal) (n : ℕ)
    → n < 3
    → ((terminals 1).flag ≢ 0) ⊎ ((terminals 2).flag ≢ 0)
    → (next : ℕ) × (next_running terminals 3 ((n + 1) % 3) ≡ some next) × IsNext terminals n next
choose_lem terminals n h run =
    next_running-IsNext terminals 3 n 1 (omega arith) refl (λ e a b. absurd (omega (arith, a, b)))
      (elim run [
        | inl r ↦ reach terminals n 1 h (omega arith) r
        | inr r ↦ reach terminals n 2 h (omega arith) r
      ])

-- If one of the three terminals is current and the second or the third runs, a tick of the timer gives the processor to the next
-- terminal that runs, in a circle of three, with the memory and the kernel stack of its process.
-- Terminals that do not run are passed over, none that runs is.
pub pit_handler-IsNext :
    (l : Layout) (m : Machine)
    → m.console.terminal_num < 3
    → ((m.console.terminals 1).flag ≢ 0) ⊎ ((m.console.terminals 2).flag ≢ 0)
    → (m' : Machine) × (pit_handler l m ≡ some m')
      × IsNext m.console.terminals m.console.terminal_num m'.console.terminal_num
      × (m'.page_directory pde_index ≡ program_pde (current m'.console).process_num)
      × (m'.esp0 ≡ kernel_stack (current m'.console).process_num)
unfolding pit_handler context_switch
pit_handler-IsNext l m h run =
    let (next, found, is_next) = choose_lem m.console.terminals m.console.terminal_num h run in
    let some_runs : ((m.console.terminals 1).flag == 0 && (m.console.terminals 2).flag == 0)
        ≡ false =
      ground (arith, run) in
    let clock = m.clock in
    let m0 = record m { clock = record clock { pic = send_eoi 0 clock.pic } } in
    (context_switch l next m0, rw (some_runs, found), is_next, refl, refl)
