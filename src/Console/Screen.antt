-- ===== src/Console/Screen.antt =====
-- student-distrib/lib.c: one text screen, that is 4000 bytes of display memory with the cursor and
-- the start of the line of the terminal that it shows. `none` is an access outside that memory.
use virtual_operating_system.Prelude.{
  ℕ, zero, suc, ◌+◌, ◌-◌, ◌*◌, ◌%◌, ℤ, pos, negsuc, Bool, false, ◌&&◌, ◌||◌, Option, none, some,
  ltb, leb, ◌==◌, if◌then◌else◌, ◌>>=◌,
}
use virtual_operating_system.Prelude.Int.{sub_ℕ}

abbrev pub num_cols : ℕ
num_cols = 80

abbrev pub num_rows : ℕ
num_rows = 25

-- The light grey on black attribute of a cell.
abbrev pub attrib : ℕ
attrib = 7

-- `2 * NUM_ROWS * NUM_COLS` bytes.
abbrev pub screen_bytes : ℕ
screen_bytes = 4000

abbrev pub Cells : Type 0
Cells = ℕ → ℕ

pub record Screen : Type 0 where
  pub cells : Cells
  pub x : ℕ
  pub y : ℕ
  pub start : ℤ

abbrev pub put : Cells → ℕ → ℕ → Cells
put cells i v j = if j == i then v else cells j

-- A write at an index that the code computes.
unfoldable pub store : Cells → ℕ → ℕ → Option Cells
store cells i v = if ltb i screen_bytes then some (put cells i v) else none

-- `NUM_COLS * screen_y + screen_x`.
abbrev pub position : Screen → ℕ
position s = num_cols * s.y + s.x

-- The columns of row `y` below `x` take the characters of the row under it.
unfoldable pub shift_cols : Cells → ℕ → ℕ → Cells
shift_cols cells y zero = cells
shift_cols cells y (suc x) =
    let done = shift_cols cells y x in
    let ptr = num_cols * y + x in put done (ptr * 2) (done ((ptr + num_cols) * 2))

unfoldable pub shift_rows : Cells → ℕ → Cells
shift_rows cells zero = cells
shift_rows cells (suc y) = shift_cols (shift_rows cells y) y num_cols

unfoldable pub blank_row : Cells → ℕ → Cells
blank_row cells zero = cells
blank_row cells (suc x) = put (blank_row cells x) (((num_rows - 1) * num_cols + x) * 2) 0

unfoldable pub scroll_cells : Cells → Cells
scroll_cells cells = blank_row (shift_rows cells (num_rows - 1)) num_cols

abbrev pub minus_cols : ℤ → ℤ
minus_cols (pos n) = sub_ℕ n num_cols
minus_cols (negsuc n) = negsuc (n + num_cols)

-- The last part of `putc`: a full screen moves up by one row.
unfoldable pub scroll : Screen → Screen
scroll s =
    if s.y == num_rows
    then record s { cells = scroll_cells s.cells; y = s.y - 1; start = minus_cols s.start }
    else s

abbrev pub eq_ℤ : ℤ → ℕ → Bool
eq_ℤ (pos n) p = n == p
eq_ℤ (negsuc n) p = false

-- Nothing is left to delete in the line.
abbrev pub at_start : Screen → Bool
at_start s = eq_ℤ s.start (position s)

unfoldable pub newline : Screen → Screen
newline s = record s { x = 0; y = s.y + 1; start = pos ((s.y + 1) * num_cols) }

-- `screen_x--`, or the end of the row above. Above row 0 the write below is outside the memory.
abbrev pub step_back : ℕ → ℕ → Option (ℕ × ℕ)
step_back zero zero = none
step_back zero (suc y) = some (num_cols - 1, y)
step_back (suc x) y = some (x, y)

unfoldable pub backspace : Screen → Option Screen
unfolding store
backspace s = step_back s.x s.y >>= λ p. store s.cells ((num_cols * p.1 + p.0) * 2) 0 >>= λ cells.
    some (record s { cells = cells; x = p.0; y = p.1 })

unfoldable pub advance : Screen → Screen
advance s =
    if leb num_cols (s.x + 1)
    then record s { x = (s.x + 1) % num_cols; y = s.y + 1 }
    else record s { x = s.x + 1 }

unfoldable pub character : ℕ → Screen → Option Screen
unfolding store advance
character c s = store s.cells (position s * 2) c >>= λ low.
    store low (position s * 2 + 1) attrib >>= λ cells. some (advance (record s { cells = cells }))

abbrev pub is_newline : ℕ → Bool
is_newline c = c == 10 || c == 13

-- `c == '\b'` and nothing to delete: the early return.
abbrev pub ignored : ℕ → Screen → Bool
ignored c s = c == 8 && at_start s

-- The body that `putc` and `putc2screen` share.
unfoldable pub emit : ℕ → Screen → Option Screen
emit c s =
    if is_newline c
    then some (scroll (newline s))
    else if c == 8
    then if at_start s then some s else (backspace s >>= λ t. some (scroll t))
    else (character c s >>= λ t. some (scroll t))

-- The loop of `clear` after `i` rounds.
unfoldable pub clear_cells : Cells → ℕ → Cells
clear_cells cells zero = cells
clear_cells cells (suc i) = put (put (clear_cells cells i) (i * 2) b' ') (i * 2 + 1) attrib

unfoldable pub clear_screen : Screen → Screen
clear_screen s = record {
  cells = clear_cells s.cells (num_rows * num_cols);
  x = 0;
  y = 0;
  start = pos 0;
}
