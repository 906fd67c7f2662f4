-- ===== src/User/Sigtest.antt =====
-- syscalls/ece391sigtest.c. The kernel of student-distrib/ has no signals: what `set_handler` and a fault
-- do is a parameter.
use virtual_operating_system.Prelude.{
  ℕ, pos, Bool, true, not, Option, none, some, List, [], ◌∷◌, get_elem?, ◌==◌, if◌then◌else◌, ◌>>=◌,
}
use virtual_operating_system.FileSystem.{is_zero}
use virtual_operating_system.Strings.{write?}
use virtual_operating_system.User.{Calls, is_minus_one, index, fdputs}

-- `"could not read argument\n"`.
abbrev pub no_argument : List ℕ
no_argument =
    99 ∷ 111 ∷ 117 ∷ 108 ∷ 100 ∷ 32 ∷ 110 ∷ 111 ∷ 116 ∷ 32 ∷ 114 ∷ 101 ∷ 97 ∷ 100 ∷ 32 ∷ 97 ∷ 114
    ∷ 103 ∷ 117 ∷ 109 ∷ 101 ∷ 110 ∷ 116 ∷ 10 ∷ 0 ∷ []

-- `"Installing signal handlers\n"`.
abbrev pub installing : List ℕ
installing =
    73 ∷ 110 ∷ 115 ∷ 116 ∷ 97 ∷ 108 ∷ 108 ∷ 105 ∷ 110 ∷ 103 ∷ 32 ∷ 115 ∷ 105 ∷ 103 ∷ 110 ∷ 97 ∷ 108
    ∷ 32 ∷ 104 ∷ 97 ∷ 110 ∷ 100 ∷ 108 ∷ 101 ∷ 114 ∷ 115 ∷ 10 ∷ 0 ∷ []

-- `"Hi, what's your name? "`.
abbrev pub whats_your_name : List ℕ
whats_your_name =
    72 ∷ 105 ∷ 44 ∷ 32 ∷ 119 ∷ 104 ∷ 97 ∷ 116 ∷ 39 ∷ 115 ∷ 32 ∷ 121 ∷ 111 ∷ 117 ∷ 114 ∷ 32 ∷ 110
    ∷ 97 ∷ 109 ∷ 101 ∷ 63 ∷ 32 ∷ 0 ∷ []

-- `"Can't read name from keyboard.\n"`.
abbrev pub no_name : List ℕ
no_name =
    67 ∷ 97 ∷ 110 ∷ 39 ∷ 116 ∷ 32 ∷ 114 ∷ 101 ∷ 97 ∷ 100 ∷ 32 ∷ 110 ∷ 97 ∷ 109 ∷ 101 ∷ 32 ∷ 102
    ∷ 114 ∷ 111 ∷ 109 ∷ 32 ∷ 107 ∷ 101 ∷ 121 ∷ 98 ∷ 111 ∷ 97 ∷ 114 ∷ 100 ∷ 46 ∷ 10 ∷ 0 ∷ []

-- `"Hello, "`.
abbrev pub hello_line : List ℕ
hello_line = 72 ∷ 101 ∷ 108 ∷ 108 ∷ 111 ∷ 44 ∷ 32 ∷ 0 ∷ []

-- `"success\n"`.
abbrev pub success : List ℕ
success = 115 ∷ 117 ∷ 99 ∷ 99 ∷ 101 ∷ 115 ∷ 115 ∷ 10 ∷ 0 ∷ []

-- `"failure\n"`.
abbrev pub failure : List ℕ
failure = 102 ∷ 97 ∷ 105 ∷ 108 ∷ 117 ∷ 114 ∷ 101 ∷ 10 ∷ 0 ∷ []

-- `"Segfault signal handler called, signum: "`.
abbrev pub segfault_called : List ℕ
segfault_called =
    83 ∷ 101 ∷ 103 ∷ 102 ∷ 97 ∷ 117 ∷ 108 ∷ 116 ∷ 32 ∷ 115 ∷ 105 ∷ 103 ∷ 110 ∷ 97 ∷ 108 ∷ 32 ∷ 104
    ∷ 97 ∷ 110 ∷ 100 ∷ 108 ∷ 101 ∷ 114 ∷ 32 ∷ 99 ∷ 97 ∷ 108 ∷ 108 ∷ 101 ∷ 100 ∷ 44 ∷ 32 ∷ 115 ∷ 105
    ∷ 103 ∷ 110 ∷ 117 ∷ 109 ∷ 58 ∷ 32 ∷ 0 ∷ []

-- `"Alarm signal handler called, signum: "`.
abbrev pub alarm_called : List ℕ
alarm_called =
    65 ∷ 108 ∷ 97 ∷ 114 ∷ 109 ∷ 32 ∷ 115 ∷ 105 ∷ 103 ∷ 110 ∷ 97 ∷ 108 ∷ 32 ∷ 104 ∷ 97 ∷ 110 ∷ 100
    ∷ 108 ∷ 101 ∷ 114 ∷ 32 ∷ 99 ∷ 97 ∷ 108 ∷ 108 ∷ 101 ∷ 100 ∷ 44 ∷ 32 ∷ 115 ∷ 105 ∷ 103 ∷ 110 ∷ 117
    ∷ 109 ∷ 58 ∷ 32 ∷ 0 ∷ []

-- `"Press enter to continue...\n"`.
abbrev pub press_enter : List ℕ
press_enter =
    80 ∷ 114 ∷ 101 ∷ 115 ∷ 115 ∷ 32 ∷ 101 ∷ 110 ∷ 116 ∷ 101 ∷ 114 ∷ 32 ∷ 116 ∷ 111 ∷ 32 ∷ 99 ∷ 111
    ∷ 110 ∷ 116 ∷ 105 ∷ 110 ∷ 117 ∷ 101 ∷ 46 ∷ 46 ∷ 46 ∷ 10 ∷ 0 ∷ []

-- `"Signal handler returning\n"`.
abbrev pub returning : List ℕ
returning =
    83 ∷ 105 ∷ 103 ∷ 110 ∷ 97 ∷ 108 ∷ 32 ∷ 104 ∷ 97 ∷ 110 ∷ 100 ∷ 108 ∷ 101 ∷ 114 ∷ 32 ∷ 114 ∷ 101
    ∷ 116 ∷ 117 ∷ 114 ∷ 110 ∷ 105 ∷ 110 ∷ 103 ∷ 10 ∷ 0 ∷ []

-- `"invalid\n"`.
abbrev pub invalid : List ℕ
invalid = 105 ∷ 110 ∷ 118 ∷ 97 ∷ 108 ∷ 105 ∷ 100 ∷ 10 ∷ 0 ∷ []

-- The file's variables, and the register `%eax` of the code that a signal interrupts, as what the two
-- pointers point to: NULL, or `charbuf`.
pub record Sig (S : Type 0) : Type 0 where
  pub sys : S
  pub charbuf : ℕ
  pub badbuf : Bool
  pub eax : Bool

-- The two handlers.
pub data SigHandler : Type 0 where
  segfault alarm : SigHandler

-- The numbers 0 to 3 with a newline, and what is printed of another one.
abbrev pub signum_line : ℕ → List ℕ
signum_line n =
    if n == 0
    then 48 ∷ 10 ∷ 0 ∷ []
    else if n == 1
    then 49 ∷ 10 ∷ 0 ∷ []
    else if n == 2
    then 50 ∷ 10 ∷ 0 ∷ []
    else if n == 3
    then 51 ∷ 10 ∷ 0 ∷ []
    else invalid

module _ {S : Type 0} (sys : Calls S) (set_handler : S → SigHandler → S)
    (fault : Sig S → Option (Sig S)) where
  abbrev put : Sig S → List ℕ → Option (Sig S)
  put st s = fdputs sys st.sys (pos 1) s >>= λ s'. some (record st { sys = s' })

  -- The local `buf` of one byte.
  unfoldable pub segfault_sighandler : Sig S → ℕ → ℕ → Option (Sig S)
  segfault_sighandler st signum buf = put st segfault_called >>= λ s1.
      put s1 (signum_line signum) >>= λ s2. put s2 press_enter >>= λ s3.
      sys.read s3.sys (pos 0) (buf ∷ []) (pos 1) >>= λ r.
      put (record s3 { sys = r.2; badbuf = true; eax = true }) returning

  unfoldable pub alarm_sighandler : Sig S → ℕ → Option (Sig S)
  alarm_sighandler st signum = put st alarm_called >>= λ s1. put s1 (signum_line signum)

  -- `(*badbuf) = 1`. The store through NULL faults, and is done again with the register that a handler
  -- leaves.
  unfoldable pub store_badbuf : Sig S → Option (Sig S)
  store_badbuf st =
      let again = fault st >>= λ s1. if s1.eax then some (record s1 { charbuf = 1 }) else none in
      if st.badbuf then some (record st { charbuf = 1 }) else again

  -- `main`, with the array `buf` of 1024 bytes.
  unfoldable pub sigtest : Sig S → List ℕ → Option (ℕ × Sig S)
  unfolding store_badbuf
  sigtest st buf = sys.getargs st.sys buf (pos 1024) >>= λ a.
      let s0 = record st { sys = a.2 } in
      if not (is_zero a.0)
      then (put s0 no_argument >>= λ s1. some (3, s1))
      else (get_elem? a.1 0 >>= λ first.
          (if first == b'1'
            then (put s0 installing >>= λ s1.
                some (record s1 { sys = set_handler (set_handler s1.sys segfault) alarm }))
            else some s0)
          >>= λ s2. put s2 whats_your_name >>= λ s3. sys.read s3.sys (pos 0) a.1 (pos 1023) >>= λ r.
              let s4 = record s3 { sys = r.2 } in
              if is_minus_one r.0
              then (put s4 no_name >>= λ s5. some (3, s5))
              else (store_badbuf s4 >>= λ s5. index r.0 >>= λ cnt. write? r.1 cnt 0 >>= λ b.
                  put s5 hello_line >>= λ s6. put s6 b >>= λ s7.
                  put s7 (if s7.charbuf == 1 then success else failure) >>= λ s8. some (0, s8)))
