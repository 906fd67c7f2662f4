-- ===== src/User.antt =====
-- The programs of syscalls/, over the system calls that they make. A call that does not come back,
-- since it faults or waits for ever, is `none`. A buffer is the bytes from the pointer on.
pub mod Support
pub mod Kernel
pub mod Cat
pub mod Ls
pub mod Shell
pub mod Hello
pub mod Counter
pub mod Grep
pub mod Syserr
pub mod Emulate
pub mod Pingpong
pub mod Sigtest
use virtual_operating_system.Prelude.{
  ℕ, zero, suc, ℤ, pos, negsuc, Bool, true, false, Option, none, some, List, [], ◌∷◌, ◌>>=◌,
}
use virtual_operating_system.Strings.{strlen}

-- The wrappers of syscalls/ece391syscall.h that the programs use, on the states of the system.
pub record Calls (S : Type 0) : Type 0 where
  pub execute : S → List ℕ → Option (ℤ × S)
  pub read : S → ℤ → List ℕ → ℤ → Option (ℤ × List ℕ × S)
  pub write : S → ℤ → List ℕ → ℤ → Option (ℤ × S)
  pub open_file : S → List ℕ → Option (ℤ × S)
  pub close : S → ℤ → Option (ℤ × S)
  pub getargs : S → List ℕ → ℤ → Option (ℤ × List ℕ × S)
  pub vidmap : S → ℕ → Option (ℤ × S)
  pub call_sys : S → ℤ → Option (ℤ × S)

-- `-1 ==`.
abbrev pub is_minus_one : ℤ → Bool
is_minus_one (pos n) = false
is_minus_one (negsuc zero) = true
is_minus_one (negsuc (suc n)) = false

-- An index into an array. A negative one is outside.
abbrev pub index : ℤ → Option ℕ
index (pos n) = some n
index (negsuc n) = none

-- How `main` ends: the value that it returns, and the state.
abbrev pub Exit : Type 0 → Type 0
Exit S = Option (ℕ × S)

module _ {S : Type 0} (sys : Calls S) where
  unfoldable pub fdputs : S → ℤ → List ℕ → Option S
  fdputs st fd s = strlen s >>= λ n. sys.write st fd s (pos n) >>= λ r. some r.1

  -- A message, and the end of `main`.
  abbrev pub give_up : S → List ℕ → ℕ → Exit S
  give_up st message status = fdputs st (pos 1) message >>= λ st'. some (status, st')
