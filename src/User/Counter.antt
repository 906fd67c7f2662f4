-- ===== src/User/Counter.antt =====
-- syscalls/ece391counter.c.
pub mod Prints
use virtual_operating_system.Prelude.{
  ℕ, zero, suc, ◌+◌, pos, Bool, some, List, [], ◌∷◌, get_elem?, ltb, ◌==◌, if◌then◌else◌, ◌>>=◌,
  ◌||◌, ◌&&◌,
}
use virtual_operating_system.Strings.{write?, strlen}
use virtual_operating_system.User.{Calls, Exit, is_minus_one, index, fdputs, give_up}
use virtual_operating_system.User.Support.{ece391_itoa}

-- `"Enter the Test Number: (0): 100, (1): 10000, (2): 100000\n"`.
abbrev pub menu : List ℕ
menu =
    69 ∷ 110 ∷ 116 ∷ 101 ∷ 114 ∷ 32 ∷ 116 ∷ 104 ∷ 101 ∷ 32 ∷ 84 ∷ 101 ∷ 115 ∷ 116 ∷ 32 ∷ 78 ∷ 117
    ∷ 109 ∷ 98 ∷ 101 ∷ 114 ∷ 58 ∷ 32 ∷ 40 ∷ 48 ∷ 41 ∷ 58 ∷ 32 ∷ 49 ∷ 48 ∷ 48 ∷ 44 ∷ 32 ∷ 40 ∷ 49
    ∷ 41 ∷ 58 ∷ 32 ∷ 49 ∷ 48 ∷ 48 ∷ 48 ∷ 48 ∷ 44 ∷ 32 ∷ 40 ∷ 50 ∷ 41 ∷ 58 ∷ 32 ∷ 49 ∷ 48 ∷ 48 ∷ 48
    ∷ 48 ∷ 48 ∷ 10 ∷ 0 ∷ []

-- `"Can't read the number from keyboard.\n"`.
abbrev pub no_number : List ℕ
no_number =
    67 ∷ 97 ∷ 110 ∷ 39 ∷ 116 ∷ 32 ∷ 114 ∷ 101 ∷ 97 ∷ 100 ∷ 32 ∷ 116 ∷ 104 ∷ 101 ∷ 32 ∷ 110 ∷ 117
    ∷ 109 ∷ 98 ∷ 101 ∷ 114 ∷ 32 ∷ 102 ∷ 114 ∷ 111 ∷ 109 ∷ 32 ∷ 107 ∷ 101 ∷ 121 ∷ 98 ∷ 111 ∷ 97 ∷ 114
    ∷ 100 ∷ 46 ∷ 10 ∷ 0 ∷ []

-- `"Wrong Choice!\n"`.
abbrev pub wrong_choice : List ℕ
wrong_choice = 87 ∷ 114 ∷ 111 ∷ 110 ∷ 103 ∷ 32 ∷ 67 ∷ 104 ∷ 111 ∷ 105 ∷ 99 ∷ 101 ∷ 33 ∷ 10 ∷ 0 ∷ []

-- `"\n"`.
abbrev pub newline : List ℕ
newline = 10 ∷ 0 ∷ []

-- The `switch` on the choice. Another one leaves `max` at 0.
unfoldable pub count_of : ℕ → ℕ
count_of c = if c == b'0' then 100 else if c == b'1' then 10000 else if c == b'2' then 100000 else 0

-- The test for a wrong choice, on a string of `n` bytes that starts with `c`.
unfoldable pub is_wrong : ℕ → ℕ → Bool
is_wrong n c = ltb 2 n || (n == 2 && (ltb c b'0' || ltb b'2' c))

module _ {S : Type 0} (sys : Calls S) where
  -- The loop, with `r` rounds left, at `i`.
  unfoldable pub count_loop : ℕ → ℕ → S → List ℕ → Exit S
  count_loop zero i st buf = some (0, st)
  count_loop (suc r) i st buf =
      let more : S → List ℕ → Exit S = λ st' buf'. count_loop r (i + 1) st' buf' in
      ece391_itoa (i + 1) buf 10 >>= λ b.
      fdputs sys st (pos 1) b >>= λ s1. fdputs sys s1 (pos 1) newline >>= λ s2. more s2 b

  -- `main`, with the array `buf` of 1024 bytes.
  unfoldable pub counter : S → List ℕ → Exit S
  unfolding count_loop count_of is_wrong
  counter st buf = fdputs sys st (pos 1) menu >>= λ s1. sys.read s1 (pos 0) buf (pos 1023) >>= λ r.
      if is_minus_one r.0
      then give_up sys r.2 no_number 3
      else (index r.0 >>= λ cnt. write? r.1 cnt 0 >>= λ b. strlen b >>= λ n. get_elem? b 0 >>= λ c.
          if is_wrong n c then give_up sys r.2 wrong_choice 0 else count_loop (count_of c) 0 r.2 b)
