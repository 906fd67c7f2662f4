-- ===== src/User/Cat.antt =====
-- syscalls/ece391cat.c.
pub mod Prints
pub mod Reading
pub mod File
use virtual_operating_system.Prelude.{
  ℕ, zero, suc, ℤ, pos, not, Option, none, some, List, [], ◌∷◌, if◌then◌else◌, ◌>>=◌,
}
use virtual_operating_system.FileSystem.{is_zero}
use virtual_operating_system.User.{Calls, Exit, is_minus_one, fdputs, give_up}

-- `"could not read arguments\n"`.
abbrev pub no_arguments : List ℕ
no_arguments =
    99 ∷ 111 ∷ 117 ∷ 108 ∷ 100 ∷ 32 ∷ 110 ∷ 111 ∷ 116 ∷ 32 ∷ 114 ∷ 101 ∷ 97 ∷ 100 ∷ 32 ∷ 97 ∷ 114
    ∷ 103 ∷ 117 ∷ 109 ∷ 101 ∷ 110 ∷ 116 ∷ 115 ∷ 10 ∷ 0 ∷ []

-- `"file not found\n"`.
abbrev pub not_found : List ℕ
not_found =
    102 ∷ 105 ∷ 108 ∷ 101 ∷ 32 ∷ 110 ∷ 111 ∷ 116 ∷ 32 ∷ 102 ∷ 111 ∷ 117 ∷ 110 ∷ 100 ∷ 10 ∷ 0 ∷ []

-- `"file read failed\n"`.
abbrev pub read_failed : List ℕ
read_failed =
    102 ∷ 105 ∷ 108 ∷ 101 ∷ 32 ∷ 114 ∷ 101 ∷ 97 ∷ 100 ∷ 32 ∷ 102 ∷ 97 ∷ 105 ∷ 108 ∷ 101 ∷ 100 ∷ 10
    ∷ 0 ∷ []

module _ {S : Type 0} (sys : Calls S) where
  -- The loop over the file, on fuel.
  unfoldable pub cat_loop : ℕ → S → ℤ → List ℕ → Exit S
  cat_loop zero st fd buf = none
  cat_loop (suc f) st fd buf =
      let more : S → List ℕ → Exit S = λ st' buf'. cat_loop f st' fd buf' in
      sys.read st fd buf (pos 1024) >>= λ r.
      if is_zero r.0
      then some (0, r.2)
      else if is_minus_one r.0
      then give_up sys r.2 read_failed 3
      else (sys.write r.2 (pos 1) r.1 r.0 >>= λ w.
          if is_minus_one w.0 then some (3, w.1) else more w.1 r.1)

  -- `main`, with the array `buf` of 1024 bytes.
  unfoldable pub cat : ℕ → S → List ℕ → Exit S
  unfolding cat_loop
  cat f st buf = sys.getargs st buf (pos 1024) >>= λ a.
      if not (is_zero a.0)
      then give_up sys a.2 no_arguments 3
      else (sys.open_file a.2 a.1 >>= λ o.
          if is_minus_one o.0 then give_up sys o.1 not_found 2 else cat_loop f o.1 o.0 a.1)
