-- ===== src/User/Shell.antt =====
-- syscalls/ece391shell.c.
pub mod Compare
pub mod Sessions
pub mod Typed
use virtual_operating_system.Prelude.{
  ℕ, zero, suc, ℤ, pos, negsuc, Option, none, some, List, [], ◌∷◌, get_elem?, ◌==◌, if◌then◌else◌,
  ◌>>=◌,
}
use virtual_operating_system.FileSystem.{is_zero}
use virtual_operating_system.Strings.{write?}
use virtual_operating_system.User.{Calls, Exit, is_minus_one, index, fdputs, give_up}
use virtual_operating_system.User.Support.{ece391_strcmp}

-- `"Starting 391 Shell\n"`.
abbrev pub starting : List ℕ
starting =
    83 ∷ 116 ∷ 97 ∷ 114 ∷ 116 ∷ 105 ∷ 110 ∷ 103 ∷ 32 ∷ 51 ∷ 57 ∷ 49 ∷ 32 ∷ 83 ∷ 104 ∷ 101 ∷ 108
    ∷ 108 ∷ 10 ∷ 0 ∷ []

-- `"391OS> "`.
abbrev pub prompt : List ℕ
prompt = 51 ∷ 57 ∷ 49 ∷ 79 ∷ 83 ∷ 62 ∷ 32 ∷ 0 ∷ []

-- `"read from keyboard failed\n"`.
abbrev pub keyboard_failed : List ℕ
keyboard_failed =
    114 ∷ 101 ∷ 97 ∷ 100 ∷ 32 ∷ 102 ∷ 114 ∷ 111 ∷ 109 ∷ 32 ∷ 107 ∷ 101 ∷ 121 ∷ 98 ∷ 111 ∷ 97 ∷ 114
    ∷ 100 ∷ 32 ∷ 102 ∷ 97 ∷ 105 ∷ 108 ∷ 101 ∷ 100 ∷ 10 ∷ 0 ∷ []

-- `"exit"`.
abbrev pub exit_command : List ℕ
exit_command = 101 ∷ 120 ∷ 105 ∷ 116 ∷ 0 ∷ []

-- `"no such command\n"`.
abbrev pub no_command : List ℕ
no_command =
    110 ∷ 111 ∷ 32 ∷ 115 ∷ 117 ∷ 99 ∷ 104 ∷ 32 ∷ 99 ∷ 111 ∷ 109 ∷ 109 ∷ 97 ∷ 110 ∷ 100 ∷ 10 ∷ 0 ∷ []

-- `"program terminated by exception\n"`.
abbrev pub by_exception : List ℕ
by_exception =
    112 ∷ 114 ∷ 111 ∷ 103 ∷ 114 ∷ 97 ∷ 109 ∷ 32 ∷ 116 ∷ 101 ∷ 114 ∷ 109 ∷ 105 ∷ 110 ∷ 97 ∷ 116 ∷ 101
    ∷ 100 ∷ 32 ∷ 98 ∷ 121 ∷ 32 ∷ 101 ∷ 120 ∷ 99 ∷ 101 ∷ 112 ∷ 116 ∷ 105 ∷ 111 ∷ 110 ∷ 10 ∷ 0 ∷ []

-- `"program terminated abnormally\n"`.
abbrev pub abnormally : List ℕ
abnormally =
    112 ∷ 114 ∷ 111 ∷ 103 ∷ 114 ∷ 97 ∷ 109 ∷ 32 ∷ 116 ∷ 101 ∷ 114 ∷ 109 ∷ 105 ∷ 110 ∷ 97 ∷ 116 ∷ 101
    ∷ 100 ∷ 32 ∷ 97 ∷ 98 ∷ 110 ∷ 111 ∷ 114 ∷ 109 ∷ 97 ∷ 108 ∷ 108 ∷ 121 ∷ 10 ∷ 0 ∷ []

-- `if (cnt > 0 && '\n' == buf[cnt - 1]) cnt--;`.
unfoldable pub line_end : List ℕ → ℕ → Option ℕ
line_end buf zero = some zero
line_end buf (suc n) = get_elem? buf n >>= λ c. some (if c == 10 then n else suc n)

module _ {S : Type 0} (sys : Calls S) where
  -- What the shell says of the value that the program ended with.
  unfoldable pub report : S → ℤ → Option S
  report st rval = if is_minus_one rval then fdputs sys st (pos 1) no_command else elim rval [
    | pos n ↦
        if n == 256
        then fdputs sys st (pos 1) by_exception
        else if n == 0
        then some st
        else fdputs sys st (pos 1) abnormally
    | negsuc n ↦ fdputs sys st (pos 1) abnormally
  ]

  -- The loop over the command lines, on fuel.
  unfoldable pub shell_loop : ℕ → S → List ℕ → Exit S
  shell_loop zero st buf = none
  shell_loop (suc f) st buf =
      let more : S → List ℕ → Exit S = λ st' buf'. shell_loop f st' buf' in
      fdputs sys st (pos 1) prompt >>= λ s1. sys.read s1 (pos 0) buf (pos 1023) >>= λ r.
      if is_minus_one r.0
      then give_up sys r.2 keyboard_failed 3
      else (index r.0 >>= λ cnt. line_end r.1 cnt >>= λ n. write? r.1 n 0 >>= λ b.
          ece391_strcmp b exit_command >>= λ same. get_elem? b 0 >>= λ first.
          if is_zero same
          then some (0, r.2)
          else if first == 0
          then more r.2 b
          else (sys.execute r.2 b >>= λ e. report e.1 e.0 >>= λ s2. more s2 b))

  -- `main`, with the array `buf` of 1024 bytes.
  unfoldable pub shell : ℕ → S → List ℕ → Exit S
  unfolding shell_loop
  shell f st buf = fdputs sys st (pos 1) starting >>= λ s1. shell_loop f s1 buf
