-- ===== src/User/Ls.antt =====
-- syscalls/ece391ls.c.
pub mod Prints
pub mod Reading
pub mod Entries
use virtual_operating_system.Prelude.{
  ℕ, zero, suc, ◌+◌, ℤ, pos, none, some, List, [], ◌∷◌, if◌then◌else◌, ◌>>=◌,
}
use virtual_operating_system.FileSystem.{is_zero}
use virtual_operating_system.Strings.{write?}
use virtual_operating_system.User.{Calls, Exit, is_minus_one, index, give_up}

-- `"."`.
abbrev pub directory : List ℕ
directory = 46 ∷ 0 ∷ []

-- `"directory open failed\n"`.
abbrev pub open_failed : List ℕ
open_failed =
    100 ∷ 105 ∷ 114 ∷ 101 ∷ 99 ∷ 116 ∷ 111 ∷ 114 ∷ 121 ∷ 32 ∷ 111 ∷ 112 ∷ 101 ∷ 110 ∷ 32 ∷ 102 ∷ 97
    ∷ 105 ∷ 108 ∷ 101 ∷ 100 ∷ 10 ∷ 0 ∷ []

-- `"directory entry read failed\n"`.
abbrev pub entry_failed : List ℕ
entry_failed =
    100 ∷ 105 ∷ 114 ∷ 101 ∷ 99 ∷ 116 ∷ 111 ∷ 114 ∷ 121 ∷ 32 ∷ 101 ∷ 110 ∷ 116 ∷ 114 ∷ 121 ∷ 32 ∷ 114
    ∷ 101 ∷ 97 ∷ 100 ∷ 32 ∷ 102 ∷ 97 ∷ 105 ∷ 108 ∷ 101 ∷ 100 ∷ 10 ∷ 0 ∷ []

module _ {S : Type 0} (sys : Calls S) where
  -- The loop over the entries, on fuel. A name is written with a newline behind it.
  unfoldable pub ls_loop : ℕ → S → ℤ → List ℕ → Exit S
  ls_loop zero st fd buf = none
  ls_loop (suc f) st fd buf =
      let more : S → List ℕ → Exit S = λ st' buf'. ls_loop f st' fd buf' in
      sys.read st fd buf (pos 32) >>= λ r.
      if is_zero r.0
      then some (0, r.2)
      else if is_minus_one r.0
      then give_up sys r.2 entry_failed 3
      else (index r.0 >>= λ cnt. write? r.1 cnt 10 >>= λ b.
          sys.write r.2 (pos 1) b (pos (cnt + 1)) >>= λ w.
          if is_minus_one w.0 then some (3, w.1) else more w.1 b)

  -- `main`, with the array `buf` of 33 bytes.
  unfoldable pub ls : ℕ → S → List ℕ → Exit S
  unfolding ls_loop
  ls f st buf = sys.open_file st directory >>= λ o.
      if is_minus_one o.0 then give_up sys o.1 open_failed 2 else ls_loop f o.1 o.0 buf
