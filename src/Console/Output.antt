-- ===== src/Console/Output.antt =====
-- student-distrib/lib.h and lib.c: the three terminals, the display, and the functions that write
-- to them. A terminal that is not displayed is written in its own copy of the display memory.
use virtual_operating_system.Prelude.{
  ℕ, ◌+◌, ◌*◌, ◌/◌, ◌%◌, ◌^◌, ℤ, Option, some, List, [], ◌∷◌, ◌==◌, if◌then◌else◌, ◌>>=◌,
}
use virtual_operating_system.Console.Screen.{Cells, Screen, num_cols, emit, ignored, clear_screen}

-- `struct terminal`. The counter `buf_flag` is an `int8_t`, kept as its bit pattern.
pub record Terminal : Type 0 where
  pub video_memory : Cells
  pub key_buf : List ℕ
  pub num_buf : ℤ
  pub buf_flag : ℕ
  pub screen_x : ℕ
  pub screen_y : ℕ
  pub start_line_ptr : ℤ
  pub process_num : ℕ
  pub flag : ℕ
  pub total_process : ℕ

-- `crtc` holds the words written to port 0x03D4, the newest first.
pub record Console : Type 0 where
  pub terminals : ℕ → Terminal
  pub video_mem : Cells
  pub terminal_num : ℕ
  pub terminal_displayed : ℕ
  pub crtc : List ℕ

abbrev pub update {ℓ} : {A : Type ℓ} → (ℕ → A) → ℕ → A → ℕ → A
update f i a j = if j == i then a else f j

abbrev pub set_terminal : Console → ℕ → Terminal → Console
set_terminal k i t = record k { terminals = update k.terminals i t }

abbrev pub screen_of : Cells → Terminal → Screen
screen_of cells t = record {
  cells = cells;
  x = t.screen_x;
  y = t.screen_y;
  start = t.start_line_ptr;
}

abbrev pub move_cursor : Terminal → Screen → Terminal
move_cursor t s = record t { screen_x = s.x; screen_y = s.y; start_line_ptr = s.start }

abbrev pub shown : Console → Terminal
shown k = k.terminals k.terminal_displayed

abbrev pub current : Console → Terminal
current k = k.terminals k.terminal_num

-- `uint16_t pos`.
abbrev pub cursor_pos : Console → ℕ
cursor_pos k = (num_cols * (shown k).screen_y + (shown k).screen_x) % 2 ^ 16

-- `(pos << 8) | 0x0F` and `(pos & 0xFF00) | 0x0E`, of which `outw` sends the low 16 bits.
unfoldable pub draw_cursor : Console → Console
draw_cursor k =
    let pos = cursor_pos k in
    record k { crtc = (pos / 256 * 256 + 0x0E) ∷ ((pos * 256 + 0x0F) % 2 ^ 16) ∷ k.crtc }

-- The display and the cursor of the displayed terminal become those of `s`.
abbrev pub show : Console → Screen → Console
show k s = record (set_terminal k k.terminal_displayed (move_cursor (shown k) s)) {
  video_mem = s.cells;
}

-- The saved display memory and the cursor of the current terminal become those of `s`.
abbrev pub hide : Console → Screen → Console
hide k s =
    set_terminal k k.terminal_num (record (move_cursor (current k) s) { video_memory = s.cells })

unfoldable pub putc2screen : ℕ → Console → Option Console
putc2screen c k =
    let s = screen_of k.video_mem (shown k) in
    emit c s >>= λ t. some (if ignored c s then k else draw_cursor (show k t))

unfoldable pub putc : ℕ → Console → Option Console
putc c k =
    if k.terminal_num == k.terminal_displayed
    then putc2screen c k
    else (emit c (screen_of (current k).video_memory (current k)) >>= λ t. some (hide k t))

-- `puts`, over the bytes of the string in front of its NUL.
unfoldable pub puts : List ℕ → Console → Option Console
puts [] k = some k
puts (c ∷ s) k = putc c k >>= λ k'. puts s k'

unfoldable pub clear : Console → Console
clear k = draw_cursor (
    if k.terminal_num == k.terminal_displayed
    then show k (clear_screen (screen_of k.video_mem (shown k)))
    else hide k (clear_screen (screen_of (current k).video_memory (current k))))
