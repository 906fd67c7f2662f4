-- ===== src/Terminal.antt =====
-- student-distrib/terminal.c: reading a typed line and writing to the screen.
pub mod Lines
use virtual_operating_system.Prelude.{
  ℕ, zero, suc, ◌+◌, ◌-◌, ◌%◌, ℤ, pos, negsuc, Option, none, some, List, [], ◌∷◌, ltb, leb, ◌==◌,
  get_elem?, if◌then◌else◌, ◌>>=◌,
}
use virtual_operating_system.Prelude.Int.{sub_ℕ}
use virtual_operating_system.Strings.{write?}
use virtual_operating_system.Console.Output.{Console, Terminal, current, set_terminal, putc}

-- `KEYBOARD_BUF_SIZE`.
abbrev pub buf_size : ℕ
buf_size = 128

-- The copying loop with `r` of the `nbytes` rounds left: the bytes in the buffer of the caller, and
-- `byte_read`. It stops behind a newline.
unfoldable pub read_line : List ℕ → List ℕ → ℕ → ℕ → Option (List ℕ × ℕ)
unfolding write?
read_line keys buf zero i = some (buf, i)
read_line keys buf (suc r) i = get_elem? keys i >>= λ c. write? buf i c >>= λ b.
    let rest = read_line keys b r (suc i) in if c == 10 then some (b, suc i) else rest

-- `for (j = 0; j < KEYBOARD_BUF_SIZE - byte_read; j++)` with `r` rounds left: the bytes move down.
unfoldable pub shift_keys : List ℕ → ℕ → ℕ → ℕ → Option (List ℕ)
unfolding write?
shift_keys keys byte_read zero j = some keys
shift_keys keys byte_read (suc r) j = get_elem? keys (j + byte_read) >>= λ c.
    write? keys j c >>= λ ks. shift_keys ks byte_read r (suc j)

-- `for (j = 1; j <= byte_read; j++)` with `r` rounds left. An index below 0 is outside the buffer.
unfoldable pub clear_keys : List ℕ → ℕ → ℕ → Option (List ℕ)
unfolding write?
clear_keys keys zero j = some keys
clear_keys keys (suc r) j =
    if ltb buf_size j
    then none
    else (write? keys (buf_size - j) 0 >>= λ ks. clear_keys ks r (suc j))

abbrev pub minus : ℤ → ℕ → ℤ
minus (pos n) m = sub_ℕ n m
minus (negsuc n) m = negsuc (n + m)

-- The body of `terminal_read` once `buf_flag` is set.
unfoldable pub take_line : Terminal → List ℕ → ℕ → Option (ℕ × List ℕ × Terminal)
unfolding read_line shift_keys clear_keys
take_line t buf nbytes = read_line t.key_buf buf nbytes 0 >>= λ r.
    shift_keys t.key_buf r.1 (buf_size - r.1) 0 >>= λ shifted.
    clear_keys shifted r.1 1 >>= λ cleared. some (
      r.1,
      r.0,
      record t {
        key_buf = cleared;
        num_buf = minus t.num_buf r.1;
        buf_flag = (t.buf_flag + 255) % 256;
      },
    )

-- What a call comes to: it spins in the state that it has reached, or it returns.
pub data Reading (S A : Type 0) : Type 0 where
  waits : S → Reading S A
  returns : A → Reading S A

unfoldable pub terminal_read :
    Console → List ℕ → ℕ → Option (Reading Console (ℤ × List ℕ × Console))
unfolding take_line
terminal_read k buf nbytes =
    if (current k).buf_flag == 0
    then some (waits k)
    else (take_line (current k) buf nbytes >>= λ r.
        some (returns (pos r.0, r.1, set_terminal k k.terminal_num r.2)))

-- `terminal_write` of the bytes of the buffer: `putc` in turn, then the count.
unfoldable pub write_from : Console → List ℕ → ℕ → ℕ → Option (ℤ × Console)
write_from k buf zero i = some (pos i, k)
write_from k [] (suc r) i = none
write_from k (c ∷ buf) (suc r) i = putc c k >>= λ k'. write_from k' buf r (suc i)

unfoldable pub terminal_write : Console → List ℕ → ℕ → Option (ℤ × Console)
unfolding write_from
terminal_write k buf nbytes = write_from k buf nbytes 0

unfoldable pub terminal_open : ℤ
terminal_open = pos 0

unfoldable pub terminal_close : ℤ
terminal_close = pos 0
