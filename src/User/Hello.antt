-- ===== src/User/Hello.antt =====
-- syscalls/ece391hello.c and syscalls/ece391testprint.c.
use virtual_operating_system.Prelude.{ℕ, pos, some, List, [], ◌∷◌, if◌then◌else◌, ◌>>=◌}
use virtual_operating_system.Strings.{write?}
use virtual_operating_system.User.{Calls, Exit, is_minus_one, index, fdputs, give_up}

-- `"Hi, what's your name? "`.
abbrev pub question : List ℕ
question =
    72 ∷ 105 ∷ 44 ∷ 32 ∷ 119 ∷ 104 ∷ 97 ∷ 116 ∷ 39 ∷ 115 ∷ 32 ∷ 121 ∷ 111 ∷ 117 ∷ 114 ∷ 32 ∷ 110
    ∷ 97 ∷ 109 ∷ 101 ∷ 63 ∷ 32 ∷ 0 ∷ []

-- `"Can't read name from keyboard.\n"`.
abbrev pub no_name : List ℕ
no_name =
    67 ∷ 97 ∷ 110 ∷ 39 ∷ 116 ∷ 32 ∷ 114 ∷ 101 ∷ 97 ∷ 100 ∷ 32 ∷ 110 ∷ 97 ∷ 109 ∷ 101 ∷ 32 ∷ 102
    ∷ 114 ∷ 111 ∷ 109 ∷ 32 ∷ 107 ∷ 101 ∷ 121 ∷ 98 ∷ 111 ∷ 97 ∷ 114 ∷ 100 ∷ 46 ∷ 10 ∷ 0 ∷ []

-- `"Hello, "`.
abbrev pub greeting : List ℕ
greeting = 72 ∷ 101 ∷ 108 ∷ 108 ∷ 111 ∷ 44 ∷ 32 ∷ 0 ∷ []

-- `"Hello, if this ran, the program was correct. Yay!\n"`.
abbrev pub correct : List ℕ
correct =
    72 ∷ 101 ∷ 108 ∷ 108 ∷ 111 ∷ 44 ∷ 32 ∷ 105 ∷ 102 ∷ 32 ∷ 116 ∷ 104 ∷ 105 ∷ 115 ∷ 32 ∷ 114 ∷ 97
    ∷ 110 ∷ 44 ∷ 32 ∷ 116 ∷ 104 ∷ 101 ∷ 32 ∷ 112 ∷ 114 ∷ 111 ∷ 103 ∷ 114 ∷ 97 ∷ 109 ∷ 32 ∷ 119 ∷ 97
    ∷ 115 ∷ 32 ∷ 99 ∷ 111 ∷ 114 ∷ 114 ∷ 101 ∷ 99 ∷ 116 ∷ 46 ∷ 32 ∷ 89 ∷ 97 ∷ 121 ∷ 33 ∷ 10 ∷ 0 ∷ []

module _ {S : Type 0} (sys : Calls S) where
  -- `main`, with the array `buf` of 1024 bytes.
  unfoldable pub hello : S → List ℕ → Exit S
  hello st buf = fdputs sys st (pos 1) question >>= λ s1.
      sys.read s1 (pos 0) buf (pos 1023) >>= λ r.
      if is_minus_one r.0
      then give_up sys r.2 no_name 3
      else (index r.0 >>= λ cnt. write? r.1 cnt 0 >>= λ b.
          fdputs sys r.2 (pos 1) greeting >>= λ s2. fdputs sys s2 (pos 1) b >>= λ s3. some (0, s3))

  unfoldable pub testprint : S → Exit S
  testprint st = fdputs sys st (pos 1) correct >>= λ s1. some (0, s1)
