-- ===== src/Keyboard.antt =====
-- student-distrib/keyboard.c: what a key does to the button states, the keyboard buffer of the
-- displayed terminal and the screen. The keys F1 to F3 are in `Scheduling`.
pub mod Keymaps
pub mod Buffer
pub mod Lines
use virtual_operating_system.Prelude.{
  ℕ, zero, suc, ◌+◌, ◌-◌, ◌%◌, ℤ, pos, negsuc, Bool, true, false, not, Option, none, some, List,
  replicate, ltb, leb, ◌==◌, if◌then◌else◌, ◌>>=◌, ◌&&◌, ◌||◌,
}
use virtual_operating_system.Prelude.Int.{is_neg}
use virtual_operating_system.Strings.{write?}
use virtual_operating_system.Console.Output.{
  Console, Terminal, shown, set_terminal, putc2screen, clear,
}
use Keymaps.{original_table, capslock_table, shift_table, capsshift_table, key_at}

-- The `..._PRESS` variables, which are 0 or 1.
pub record Keys : Type 0 where
  pub ctrl : Bool
  pub capslock : Bool
  pub shift : Bool
  pub alt : Bool

pub record Keyboard : Type 0 where
  pub keys : Keys
  pub console : Console

abbrev pub buf_size : ℕ
buf_size = 128

abbrev pub increment : ℤ → ℤ
increment (pos n) = pos (suc n)
increment (negsuc zero) = pos 0
increment (negsuc (suc n)) = negsuc n

abbrev pub decrement : ℤ → ℤ
decrement (pos zero) = negsuc 0
decrement (pos (suc n)) = pos n
decrement (negsuc n) = negsuc (suc n)

-- `key_buf[num_buf++] = c`. An index below 0 or from 128 on is outside the buffer.
unfoldable pub append_key : ℕ → Terminal → Option Terminal
unfolding write?
append_key c t = elim t.num_buf [
  | pos n ↦
      write? t.key_buf n c >>= λ b. some (record t { key_buf = b; num_buf = increment (pos n) })
  | negsuc n ↦ none
]

-- The same on the displayed terminal.
unfoldable pub store_key : ℕ → Console → Option Console
unfolding append_key
store_key c k = append_key c (shown k) >>= λ t. some (set_terminal k k.terminal_displayed t)

-- Output a character and store it.
unfoldable pub type_key : ℕ → Console → Option Console
unfolding store_key
type_key c k = putc2screen c k >>= λ k'. store_key c k'

-- The case TAB, with `r` of the four rounds left.
unfoldable pub tab_loop : ℕ → Console → Option Console
unfolding type_key
tab_loop zero k = some k
tab_loop (suc r) k = type_key b' ' k >>= λ k'. tab_loop r k'

-- `num_buf > 0`.
abbrev pub positive : ℤ → Bool
positive (pos n) = ltb 0 n
positive (negsuc n) = false

-- `num_buf >= k`.
abbrev pub at_least : ℤ → ℕ → Bool
at_least (pos n) k = leb k n
at_least (negsuc n) k = false

-- `num_buf == k`.
abbrev pub equals : ℤ → ℕ → Bool
equals (pos n) k = n == k
equals (negsuc n) k = false

unfoldable pub delete_key : Terminal → Terminal
delete_key t = record t { num_buf = decrement t.num_buf }

-- The case BACKSPACE.
unfoldable pub backspace_key : Console → Option Console
unfolding delete_key
backspace_key k =
    if positive (shown k).num_buf
    then (putc2screen 8 k >>= λ k'.
        some (set_terminal k' k'.terminal_displayed (delete_key (shown k'))))
    else some k

-- `buf_flag++` on an `int8_t`.
unfoldable pub count_line : Terminal → Terminal
count_line t = record t { buf_flag = (t.buf_flag + 1) % 256 }

-- The case ENTER: stored first, then output, then counted.
unfoldable pub enter_key : Console → Option Console
unfolding store_key count_line
enter_key k =
    if equals (shown k).num_buf buf_size
    then some k
    else (store_key 10 k >>= λ k1. putc2screen 10 k1 >>= λ k2.
        some (set_terminal k2 k2.terminal_displayed (count_line (shown k2))))

-- What CTRL and L leave of the displayed terminal.
unfoldable pub reset_terminal : Terminal → Terminal
reset_terminal t = record t {
  key_buf = replicate buf_size 0;
  num_buf = pos 0;
  buf_flag = 0;
  screen_x = 0;
  screen_y = 0;
  start_line_ptr = pos 0;
}

-- `terminal_num` is the displayed terminal while `clear` runs.
unfoldable pub clear_shown : Console → Console
unfolding reset_terminal
clear_shown k =
    let reset = set_terminal k k.terminal_displayed (reset_terminal (shown k)) in
    let cleared = clear (record reset { terminal_num = reset.terminal_displayed }) in
    record cleared { terminal_num = k.terminal_num }

-- The table for the button states.
unfoldable pub key_char : Keys → ℕ → ℕ
key_char s scancode =
    if s.capslock && not s.shift
    then key_at capslock_table scancode
    else if not s.capslock && s.shift
    then key_at shift_table scancode
    else if s.capslock && s.shift
    then key_at capsshift_table scancode
    else key_at original_table scancode

unfoldable pub keyboard_print : ℕ → Keyboard → Option Console
unfolding type_key key_char clear_shown
keyboard_print scancode s =
    if leb 0x60 scancode
    then some s.console
    else if s.keys.ctrl && key_at original_table scancode == b'l'
    then some (clear_shown s.console)
    else if at_least (shown s.console).num_buf (buf_size - 1)
    then some s.console
    else if key_char s.keys scancode == 0
    then some s.console
    else type_key (key_char s.keys scancode) s.console

-- `keyboard_handler` behind the end-of-interrupt, for the scancodes other than F1 to F3.
unfoldable pub keyboard_key : ℕ → Keyboard → Option Keyboard
unfolding tab_loop backspace_key enter_key keyboard_print
keyboard_key scancode s =
    let keys = s.keys in
    let on_console : Option Console → Option Keyboard =
      λ o. o >>= λ k. some (record s { console = k }) in
    let press : Keys → Option Keyboard = λ k. some (record s { keys = k }) in
    if scancode == 0x1D
    then press (record keys { ctrl = true })
    else if scancode == 0x2A || scancode == 0x36
    then press (record keys { shift = true })
    else if scancode == 0x38
    then press (record keys { alt = true })
    else if scancode == 0x3A
    then press (record keys { capslock = not keys.capslock })
    else if scancode == 0x9D
    then press (record keys { ctrl = false })
    else if scancode == 0xAA || scancode == 0xB6
    then press (record keys { shift = false })
    else if scancode == 0xB8
    then press (record keys { alt = false })
    else if scancode == 0x0F
    then on_console (tab_loop 4 s.console)
    else if scancode == 0x0E
    then on_console (backspace_key s.console)
    else if scancode == 0x1C
    then on_console (enter_key s.console)
    else on_console (keyboard_print scancode s)
