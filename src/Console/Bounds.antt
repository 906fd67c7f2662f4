-- ===== src/Console/Bounds.antt =====
-- The cursor stays on the screen, and no output goes outside the display memory.
use virtual_operating_system.Prelude.{
  ℕ, zero, suc, ◌+◌, ◌-◌, max, ◌*◌, ◌≤◌, ◌<◌, ◌≡◌, refl, ◌≢◌, ℤ, pos, negsuc, some, Bool-cases,
  arith, inl, inr, ap, true, false,
}
use virtual_operating_system.Console.Screen.{
  Screen, position, emit, scroll, newline, backspace, advance, character, at_start, step_back,
  is_newline, put, Cells,
}

abbrev pub LineStart : ℤ → ℕ → Type 0
LineStart (pos n) p = n ≤ p
LineStart (negsuc n) p = Unit {0}

-- The cursor is on the screen, and the line starts no later than it.
pub record IsValid (s : Screen) : Type 0 where
  pub x_in : s.x < 80
  pub y_in : s.y < 25
  pub start_in : LineStart s.start (position s)

-- A cursor that may stand just below the last row, before scrolling.
record IsNear (s : Screen) : Type 0 where
  x_in : s.x < 80
  y_in : s.y ≤ 25
  start_in : LineStart s.start (position s)

scroll-IsValid : {s : Screen} → IsNear s → IsValid (scroll s)
unfolding scroll
scroll-IsValid {s} v = ground arith

-- The screen that printing the character `c` leaves, before scrolling.
printed : ℕ → Screen → Screen
printed c s =
    advance (record s { cells = put (put s.cells (position s * 2) c) (position s * 2 + 1) 7 })

character-eq-some :
    (c : ℕ) {s : Screen} → IsValid s → (character c s ≡ some (printed c s)) × IsNear (printed c s)
unfolding character printed
character-eq-some c {s} v = ground arith

newline-IsNear : {s : Screen} → IsValid s → IsNear (newline s)
unfolding newline
newline-IsNear v = ground arith

-- Any byte but a backspace is output without a fault, and the screen stays valid.
pub emit_total :
    (c : ℕ) {s : Screen} → IsValid s → c ≢ 8 → (t : Screen) × (emit c s ≡ some t) × IsValid t
unfolding emit
emit_total c {s} v h = elim (Bool-cases (is_newline c)) [
  | inl e ↦ (scroll (newline s), rw (e), scroll-IsValid (newline-IsNear v))
  | inr e ↦ (
    scroll (printed c s),
    ground (arith, (character-eq-some c v).0),
    scroll-IsValid (character-eq-some c v).1,
  )
]

-- The cursor and the cells after deleting a character.
deleted : Cells → ℕ → ℕ → ℤ → Screen
deleted cells x y start =
    let i = (80 * y + x) * 2 in record { cells = put cells i 0; x = x; y = y; start = start }

backspace_back :
    (s : Screen) (x y : ℕ)
    → step_back s.x s.y ≡ some (x, y)
    → x < 80
    → y < 25
    → backspace s ≡ some (deleted s.cells x y s.start)
unfolding backspace deleted
backspace_back s x y e hx hy = rw e (ground arith)

scroll-eq : (s : Screen) → s.y < 25 → scroll s ≡ s
unfolding scroll
scroll-eq s h = ground arith

step_back-some :
    (x y : ℕ)
    → x < 80
    → y < 25
    → 0 < 80 * y + x
    → (x' y' : ℕ) × (step_back x y ≡ some (x', y'))
      × (x' < 80)
      × (y' < 25)
      × (80 * y' + x' ≡ 80 * y + x - 1)
step_back-some zero zero hx hy h = absurd (omega arith)
step_back-some zero (suc y) hx hy h = (79, y, refl, omega arith, omega arith, omega arith)
step_back-some (suc x) y hx hy h = (x, y, refl, omega arith, omega arith, omega arith)

emit_deletes :
    (s : Screen) {t : Screen}
    → at_start s ≡ false
    → backspace s ≡ some t
    → t.y < 25
    → emit 8 s ≡ some t
unfolding emit
emit_deletes s {t} off e h = rw (off, e) (ap some (scroll-eq t h))

emit_ignored : (s : Screen) → at_start s ≡ true → emit 8 s ≡ some s
unfolding emit
emit_ignored s at = rw at

-- With the line starting on the screen a backspace is no fault either, the line still starts on
-- the screen, and the cursor moves back by one unless it is at the start of the line.
emit_backspace :
    (n : ℕ) {s : Screen}
    → IsValid s
    → s.start ≡ pos n
    → (t : Screen) × (emit 8 s ≡ some t)
      × IsValid t
      × (t.start ≡ pos n)
      × (position t ≡ max n (position s - 1))
unfolding deleted
emit_backspace n {s} v e = elim (Bool-cases (at_start s)) [
  | inl at ↦ (s, emit_ignored s at, v, e, ground arith)
  | inr off ↦
      let (x, y, back, hx, hy, p) =
        step_back-some s.x s.y v.x_in v.y_in (ground (arith, v.start_in)) in
      (
        deleted s.cells x y s.start,
        emit_deletes s off (backspace_back s x y back hx hy) hy,
        ground (arith, v.start_in),
        e,
        ground (arith, v.start_in),
      )
]
