-- ===== src/User/Pingpong.antt =====
-- syscalls/ece391pingpong.c. The animation does not end, so its rounds are counted.
pub mod Frames
pub mod Rounds
pub mod Clock
use virtual_operating_system.Prelude.{
  ℕ, zero, suc, ◌+◌, ◌-◌, ◌%◌, ℤ, pos, Option, none, some, List, [], ◌∷◌, ◌++◌, replicate, ltb,
  ◌==◌, if◌then◌else◌, ◌>>=◌,
}
use virtual_operating_system.Strings.{write?}
use virtual_operating_system.User.{Calls, fdputs}

-- `BUFMAX`. The macros have no parentheses: `LOOPMAX` is 79 + 2 - 2 - 1.
abbrev pub buf_max : ℕ
buf_max = 81

abbrev pub start_loop : ℕ
start_loop = 2

abbrev pub loop_max : ℕ
loop_max = 78

-- `"rtc"`.
abbrev pub rtc_name : List ℕ
rtc_name = 114 ∷ 116 ∷ 99 ∷ 0 ∷ []

-- `for (...; i < ...; i++) buf[i] = ' ';`, with `r` rounds left, from `i`.
unfoldable pub blank_from : ℕ → List ℕ → ℕ → Option (List ℕ)
blank_from zero buf i = some buf
blank_from (suc r) buf i = write? buf i 32 >>= λ b. blank_from r b (suc i)

-- The walls.
unfoldable pub start_buf : List ℕ → Option (List ℕ)
unfolding blank_from
start_buf buf = blank_from buf_max buf 0 >>= λ b0.
    write? b0 80 0 >>= λ b1. write? b1 79 10 >>= λ b2. write? b2 78 b'|' >>= λ b3. write? b3 1 b'|'

-- The next character.
unfoldable pub next_char : ℕ → ℕ
next_char c = if c == b'Z' then b'A' else (c + 1) % 256

module _ {S : Type 0} (sys : Calls S) where
  -- One step of either loop: the inner part is cleared, the character drawn, and the clock waited for.
  -- `garbage` are the four bytes of the `int`.
  unfoldable pub draw : S → ℤ → List ℕ → List ℕ → ℕ → ℕ → Option (List ℕ × List ℕ × S)
  draw st fd garbage buf c j = blank_from (loop_max - start_loop) buf start_loop >>= λ b0.
      write? b0 j c >>= λ b1.
      fdputs sys st (pos 1) b1 >>= λ s1. sys.read s1 fd garbage (pos 4) >>= λ r. some (b1, r.1, r.2)

  -- `for(j = STARTLOOP; j < LOOPMAX; j++)`, with `r` steps left.
  unfoldable pub move_out : ℕ → S → ℤ → List ℕ → List ℕ → ℕ → ℕ → Option (List ℕ × List ℕ × S)
  move_out zero st fd garbage buf c j = some (buf, garbage, st)
  move_out (suc r) st fd garbage buf c j =
      draw st fd garbage buf c j >>= λ d. move_out r d.2 fd d.1 d.0 c (suc j)

  -- `for(j = LOOPMAX - 1; j >= STARTLOOP; j--)`, with `r` steps left, at `STARTLOOP + r - 1`.
  unfoldable pub move_back : ℕ → S → ℤ → List ℕ → List ℕ → ℕ → Option (List ℕ × List ℕ × S)
  move_back zero st fd garbage buf c = some (buf, garbage, st)
  move_back (suc r) st fd garbage buf c =
      draw st fd garbage buf c (start_loop + r) >>= λ d. move_back r d.2 fd d.1 d.0 c

  -- The state after `n` rounds of `while(1)`.
  unfoldable pub rounds : ℕ → S → ℤ → List ℕ → List ℕ → ℕ → Option (List ℕ × List ℕ × ℕ × S)
  rounds zero st fd garbage buf c = some (buf, garbage, c, st)
  rounds (suc n) st fd garbage buf c =
      move_out (loop_max - start_loop) st fd garbage buf c start_loop >>= λ o.
      move_back (loop_max - start_loop) o.2 fd o.1 o.0 c >>= λ b.
      rounds n b.2 fd b.1 b.0 (next_char c)

  -- `main` up to the end of `n` rounds, with the `int` 32 as its four bytes.
  unfoldable pub pingpong : ℕ → S → List ℕ → List ℕ → Option (List ℕ × List ℕ × ℕ × S)
  pingpong n st garbage buf = start_buf buf >>= λ b. sys.open_file st rtc_name >>= λ o.
      sys.write o.1 o.0 (32 ∷ 0 ∷ 0 ∷ 0 ∷ []) (pos 4) >>= λ w. rounds n w.1 o.0 garbage b b'A'
