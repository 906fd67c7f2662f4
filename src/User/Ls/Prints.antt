-- ===== src/User/Ls/Prints.antt =====
-- What the loop of syscalls/ece391ls.c asks of the system calls, and what it then does.
use mathlib.Core.Path.{subst}
use mathlib.Core.List.{append_assoc, append-nil}
use virtual_operating_system.Prelude.{
  ℕ, zero, suc, ◌+◌, ◌≤◌, ◌<◌, ℤ, pos, some, List, [], ◌∷◌, ◌++◌, ◌≡◌, refl, ◌∙◌, drop, false,
  length, length-drop, length-append, ◌==◌, arith,
}
use virtual_operating_system.Strings.{write?}
use virtual_operating_system.Strings.Laws.{write?-append, length-snoc}
use virtual_operating_system.User.{Calls}
use virtual_operating_system.User.Ls.{ls_loop}

-- The names, each with a newline behind it.
abbrev pub listing : List (List ℕ) → List ℕ
listing [] = []
listing (name ∷ names) = (name ++ (10 ∷ [])) ++ listing names

-- `At st names out` says that `names` are still to be read at the descriptor `fd`, and that `out` has
-- been written to descriptor 1. A name has 1 to 32 bytes that a write can output.
pub record Names {S : Type 0} (sys : Calls S) (fd : ℤ) : Type 1 where
  pub At : S → List (List ℕ) → List ℕ → Type 0
  pub Fine : List ℕ → Type 0
  pub fits :
      (st : S) (name : List ℕ) (names : List (List ℕ)) (out : List ℕ)
      → At st (name ∷ names) out
      → (0 < length name) × (length name ≤ 32) × Fine (name ++ (10 ∷ []))
  pub read_end :
      (st : S) (out buf : List ℕ)
      → At st [] out
      → length buf ≡ 33
      → sys.read st fd buf (pos 32) ≡ some (pos 0, buf, st)
  pub read_name :
      (st : S) (name : List ℕ) (names : List (List ℕ)) (out buf : List ℕ)
      → At st (name ∷ names) out
      → length buf ≡ 33
      → (st' : S) × (sys.read st fd buf (pos 32)
          ≡ some (pos (length name), name ++ drop (length name) buf, st'))
        × At st' names out
  pub write_out :
      (st : S) (names : List (List ℕ)) (out s rest : List ℕ)
      → At st names out
      → Fine s
      → (st' : S) × (sys.write st (pos 1) (s ++ rest) (pos (length s)) ≡ some (pos (length s), st'))
        × At st' names (out ++ s)

-- The newline goes behind the name.
end_name :
    (name buf : List ℕ)
    → length name < length buf
    → write? (name ++ drop (length name) buf) (length name) 10
      ≡ some ((name ++ (10 ∷ [])) ++ drop (suc (length name)) buf)
end_name name buf room =
    let (c, e) = head buf (length name) room in
    rw (e, append_assoc name (10 ∷ []) (drop (suc (length name)) buf))
      (write?-append name (drop (suc (length name)) buf) c 10)
  where
    head : (xs : List ℕ) (n : ℕ) → n < length xs → (c : ℕ) × (drop n xs ≡ c ∷ drop (suc n) xs)
    head [] n h = absurd (omega arith)
    head (x ∷ xs) zero h = (x, refl)
    head (x ∷ xs) (suc n) h = head xs n (omega arith)

module _ {S : Type 0} {sys : Calls S} {fd : ℤ} (dir : Names sys fd) where
  -- The loop writes every name on a line of its own, and returns 0.
  pub ls_loop_lem :
      (f : ℕ) (st : S) (names : List (List ℕ)) (out buf : List ℕ)
      → dir.At st names out
      → length buf ≡ 33
      → length names < f
      → (st' : S) × (ls_loop sys f st fd buf ≡ some (0, st')) × dir.At st' [] (out ++ listing names)
  unfolding ls_loop
  ls_loop_lem zero st names out buf at len fuel = absurd (omega arith)
  ls_loop_lem (suc f) st [] out buf at len fuel =
      (st, rw (dir.read_end st out buf at len) refl, rw append-nil at)
  ls_loop_lem (suc f) st (name ∷ names) out buf at len fuel =
      let (some_bytes, short, fine) = dir.fits st name names out at in
      let (st1, run, at1) = dir.read_name st name names out buf at len in
      let line = name ++ (10 ∷ []) in
      let rest = drop (suc (length name)) buf in
      let (st2, wrote, at2) = dir.write_out st1 names out line rest at1 fine in
      let size : length line ≡ length name + 1 = omega (arith, length-snoc name 10) in
      let len1 : length (line ++ rest) ≡ 33 =
        length-append line rest ∙ omega (arith, size, len, length-drop (suc (length name)) buf) in
      let more : (length name == 0) ≡ false = ground (arith, some_bytes) in
      let (st3, rest_run, at3) =
        ls_loop_lem f st2 names (out ++ line) (line ++ rest) at2 len1 (omega arith) in
      (
        st3,
        rw (run, more, end_name name buf (omega arith)) (rw (rw size at wrote) rest_run),
        subst (dir.At st3 []) (append_assoc out line (listing names)) at3,
      )
