-- ===== src/Console/Scroll.antt =====
-- What the scrolling and clearing loops of student-distrib/lib.c leave in the display memory.
use native.Mathlib.Nat.{add-zero}
use virtual_operating_system.Prelude.{
  ℕ, zero, suc, ◌+◌, ◌*◌, ◌/◌, ◌%◌, ◌≡◌, ltb, leb, ◌==◌, if◌then◌else◌, ◌&&◌, arith, inl, inr,
  Bool-cases, ==_iff,
}
use virtual_operating_system.Console.Screen.{
  Cells, Screen, put, shift_cols, shift_rows, blank_row, scroll_cells, clear_cells, clear_screen,
}

-- The characters of the first `n` cells come from the row below, all else stays.
abbrev shifted : Cells → ℕ → Cells
shifted cells n j = if j % 2 == 0 && ltb (j / 2) n then cells (j + 160) else cells j

shifted_step :
    (cells done : Cells) (ptr : ℕ)
    → ((j : ℕ) → done j ≡ shifted cells ptr j)
    → (j : ℕ) → put done (ptr * 2) (done ((ptr + 80) * 2)) j ≡ shifted cells (suc ptr) j
shifted_step cells done ptr h j = elim (Bool-cases (j == ptr * 2)) [
  | inl e ↦ let q : j ≡ ptr * 2 = (==_iff _ _).0 e in rw (e) (ground (arith, h ((ptr + 80) * 2)))
  | inr n ↦ rw n (ground (arith, h j))
]

shift_cols_from :
    (cells done : Cells) (y x : ℕ)
    → ((j : ℕ) → done j ≡ shifted cells (80 * y) j)
    → (j : ℕ) → shift_cols done y x j ≡ shifted cells (80 * y + x) j
unfolding shift_cols
shift_cols_from cells done y zero h j = rw add-zero (h j)
shift_cols_from cells done y (suc x) h j =
    let e : 80 * y + suc x ≡ suc (80 * y + x) = omega arith in
    rw e
      (shifted_step cells (shift_cols done y x) (80 * y + x) (shift_cols_from cells done y x h) j)

shift_rows_lem : (cells : Cells) (y j : ℕ) → shift_rows cells y j ≡ shifted cells (80 * y) j
unfolding shift_rows
shift_rows_lem cells zero j = ground arith
shift_rows_lem cells (suc y) j =
    let e : 80 * y + 80 ≡ 80 * suc y = omega arith in
    rw (← e) (shift_cols_from cells (shift_rows cells y) y 80 (shift_rows_lem cells y) j)

blank_row_lem :
    (cells : Cells) (n j : ℕ)
    → blank_row cells n j
      ≡ (if j % 2 == 0 && leb 1920 (j / 2) && ltb (j / 2) (1920 + n) then 0 else cells j)
unfolding blank_row
blank_row_lem cells zero j = ground arith
blank_row_lem cells (suc n) j = ground (arith, blank_row_lem cells n j)

-- After scrolling, the character of every cell but those of the last row is that of the cell one
-- row below, the last row is blank, and every attribute byte and every byte outside the screen is
-- what it was.
scroll_cells_lem :
    (cells : Cells) (j : ℕ)
    → scroll_cells cells j ≡ (
        if j % 2 == 0 && ltb j 3840
        then cells (j + 160)
        else if j % 2 == 0 && ltb j 4000
        then 0
        else cells j)
unfolding scroll_cells
scroll_cells_lem cells j =
    ground (arith, blank_row_lem (shift_rows cells 24) 80 j, shift_rows_lem cells 24 j)

clear_cells_from :
    (cells : Cells) (n j : ℕ)
    → clear_cells cells n j ≡ (if ltb j (n * 2) then (if j % 2 == 0 then 32 else 7) else cells j)
unfolding clear_cells
clear_cells_from cells zero j = ground arith
clear_cells_from cells (suc n) j = ground (arith, clear_cells_from cells n j)

-- `clear` leaves a space in the standard attribute in each of the 2000 cells, and nothing else
-- changes.
pub clear_screen_cells :
    (s : Screen) (j : ℕ)
    → (clear_screen s).cells j ≡ (if ltb j 4000 then (if j % 2 == 0 then 32 else 7) else s.cells j)
unfolding clear_screen
clear_screen_cells s j = clear_cells_from s.cells 2000 j
