-- ===== src/Tests/Grep.antt =====
-- `do_one_file` of syscalls/ece391grep.c over a file that comes in pieces of at most seven bytes.
use virtual_operating_system.Prelude.{
  ℕ, pos, Option, none, some, List, [], ◌∷◌, ◌++◌, ◌≡◌, refl, take, drop, length, replicate, min,
  true, Bool,
}
use virtual_operating_system.Prelude.Int.{to_ℕ}
use virtual_operating_system.Strings.{strlen, write?}
use virtual_operating_system.User.{Calls, fdputs}
use virtual_operating_system.User.Support.{ece391_strncmp}
use virtual_operating_system.User.Grep.{do_one_file}

-- What is still to be read, and what has been written.
abbrev Pieces : Type 0
Pieces = List ℕ × List ℕ

abbrev pieces : Calls Pieces
pieces = record {
  execute = λ s c. none;
  read = λ s fd buf n.
      let k = min (length s.0) (min 7 (to_ℕ n)) in
      some (pos k, take k s.0 ++ drop k buf, (drop k s.0, s.1));
  write = λ s fd buf n. some (n, (s.0, s.1 ++ take (to_ℕ n) buf));
  open_file = λ s n. some (pos 2, s);
  close = λ s fd. some (pos 0, s);
  getargs = λ s b n. none;
  vidmap = λ s a. none;
  call_sys = λ s n. none;
}

-- `"ab\ncbcbc\nd\n"`, searched for `"bc"`, as the file `"F"`.
abbrev searched : Option (Bool × Pieces)
searched =
    do_one_file pieces 20 (97 ∷ 98 ∷ 10 ∷ 99 ∷ 98 ∷ 99 ∷ 98 ∷ 99 ∷ 10 ∷ 100 ∷ 10 ∷ [], [])
      (98 ∷ 99 ∷ 0 ∷ []) (70 ∷ 0 ∷ []) (replicate 1025 1)

-- The line that has it is printed in full, once: `"F:cbcbc\n"`.
do_one_file_run : searched ≡ some (true, ([], 70 ∷ 58 ∷ 99 ∷ 98 ∷ 99 ∷ 98 ∷ 99 ∷ 10 ∷ []))
unfolding do_one_file strlen write? ece391_strncmp fdputs
do_one_file_run = refl
