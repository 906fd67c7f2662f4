-- ===== src/Console/Total.antt =====
-- Output without backspaces never faults, and leaves every cursor on the screen.
use virtual_operating_system.Prelude.{
  ℕ, ◌≡◌, refl, ◌≢◌, some, List, [], ◌∷◌, ◌==◌, arith, inl, inr, Bool-cases, false, Bool, true, not,
  ◌&&◌, ◌++◌, >>=-eq-some, some_eq,
}
use virtual_operating_system.Console.Bounds.{IsValid, emit_total}
use virtual_operating_system.Console.Output.{
  Terminal, Console, shown, screen_of, putc, putc2screen, puts, hide, show, draw_cursor,
  set_terminal, move_cursor,
}
use virtual_operating_system.Console.Isolation.{CursorsValid, same_cursor}

-- A terminal with a valid cursor may take the place of any.
pub set_terminal-CursorsValid :
    (k : Console) (i : ℕ) (t : Terminal)
    → CursorsValid k
    → IsValid (screen_of t.video_memory t)
    → CursorsValid (set_terminal k i t)
set_terminal-CursorsValid k i t v w j = elim (Bool-cases (j == i)) [
  | inl e ↦ rw e w
  | inr n ↦ rw n (v j)
]

pub putc2screen_total :
    (c : ℕ) (k : Console)
    → CursorsValid k
    → c ≢ 8
    → (k' : Console) × (putc2screen c k ≡ some k') × CursorsValid k'
unfolding putc2screen draw_cursor
putc2screen_total c k v h =
    let (t, e, w) = emit_total c (same_cursor k.video_mem (v k.terminal_displayed)) h in
    let off : (c == 8) ≡ false = ground arith in
    (
      draw_cursor (show k t),
      rw (e, off),
      set_terminal-CursorsValid k k.terminal_displayed (move_cursor (shown k) t) v
          (same_cursor (shown k).video_memory w),
    )

pub putc_total :
    (c : ℕ) (k : Console)
    → CursorsValid k
    → c ≢ 8
    → (k' : Console) × (putc c k ≡ some k') × CursorsValid k'
unfolding putc
putc_total c k v h = elim (Bool-cases (k.terminal_num == k.terminal_displayed)) [
  | inl on ↦ rw on (putc2screen_total c k v h)
  | inr off ↦
      let (t, e, w) = emit_total c (v k.terminal_num) h in
      (hide k t, rw (off, e), set_terminal-CursorsValid k k.terminal_num _ v w)
]

abbrev pub NoBackspace : List ℕ → Type 0
NoBackspace [] = Unit {0}
NoBackspace (c ∷ s) = (c ≢ 8) × NoBackspace s

abbrev pub has_no_backspace : List ℕ → Bool
has_no_backspace [] = true
has_no_backspace (c ∷ s) = not (c == 8) && has_no_backspace s

pub NoBackspace-test : (s : List ℕ) → has_no_backspace s ≡ true → NoBackspace s
NoBackspace-test [] h = tt
NoBackspace-test (c ∷ s) h =
    ((λ e. absurd (ground (arith, h, e))), NoBackspace-test s (ground (arith, h)))

-- With every cursor on the screen, a string without backspaces is output in full, whatever its length and to whichever terminal,
-- with no access outside the display memory, and every cursor is on the screen afterwards.
pub puts_total :
    (s : List ℕ) (k : Console)
    → CursorsValid k
    → NoBackspace s
    → (k' : Console) × (puts s k ≡ some k') × CursorsValid k'
unfolding puts
puts_total [] k v h = (k, refl, v)
puts_total (c ∷ s) k v h =
    let (k1, e, w) = putc_total c k v h.0 in
    let (k2, e2, w2) = puts_total s k1 w h.1 in (k2, rw (e, e2), w2)

pub puts-append :
    (a b : List ℕ) (k k1 k2 : Console)
    → puts a k ≡ some k1
    → puts b k1 ≡ some k2
    → puts (a ++ b) k ≡ some k2
unfolding puts
puts-append [] b k k1 k2 h1 h2 = let e : k ≡ k1 = some_eq h1 in rw e h2
puts-append (c ∷ a) b k k1 k2 h1 h2 =
    let (k3, e, q) = >>=-eq-some {B = Console} (putc c k) (puts a) h1 in
    rw e (puts-append a b k3 k1 k2 q h2)
