-- ===== src/User/Cat/Prints.antt =====
-- What the loop of syscalls/ece391cat.c asks of the system calls, and what it then does.
use mathlib.Core.Path.{subst}
use mathlib.Core.List.{append_assoc, append-nil}
use virtual_operating_system.Prelude.{
  ℕ, zero, suc, ◌≤◌, ◌<◌, ℤ, pos, some, List, [], ◌∷◌, ◌++◌, ◌≡◌, refl, ap, ◌∙◌, sym, take, drop,
  false, length, length-take, length-drop, length-append, min, ◌==◌, arith,
}
use virtual_operating_system.Console.Numbers.{take-append}
use virtual_operating_system.User.{Calls}
use virtual_operating_system.User.Cat.{cat_loop}

-- `At st rest out` says that `rest` is still to be read at the descriptor `fd`, and that `out` has been
-- written to descriptor 1. A read gets the next bytes. A write of `Fine` bytes succeeds.
pub record Streams {S : Type 0} (sys : Calls S) (fd : ℤ) : Type 1 where
  pub At : S → List ℕ → List ℕ → Type 0
  pub Fine : List ℕ → Type 0
  pub fine_take : (n : ℕ) (xs : List ℕ) → Fine xs → Fine (take n xs)
  pub fine_drop : (n : ℕ) (xs : List ℕ) → Fine xs → Fine (drop n xs)
  pub read_next :
      (st : S) (rest out buf : List ℕ)
      → At st rest out
      → length buf ≡ 1024
      → let n = min (length rest) 1024 in
        (st' : S) × (sys.read st fd buf (pos 1024) ≡ some (pos n, take n rest ++ drop n buf, st'))
        × At st' (drop n rest) out
  pub write_out :
      (st : S) (rest out buf : List ℕ) (n : ℕ)
      → At st rest out
      → n ≤ length buf
      → Fine (take n buf)
      → (st' : S) × (sys.write st (pos 1) buf (pos n) ≡ some (pos n, st'))
        × At st' rest (out ++ take n buf)

take-drop : (n : ℕ) (xs : List ℕ) → take n xs ++ drop n xs ≡ xs
take-drop zero xs = refl
take-drop (suc n) [] = refl
take-drop (suc n) (x ∷ xs) = ap (◌∷◌ x) (take-drop n xs)

module _ {S : Type 0} {sys : Calls S} {fd : ℤ} (streams : Streams sys fd) where
  -- The loop writes what it reads to the end of the file, and returns 0.
  pub cat_loop_lem :
      (f : ℕ) (st : S) (rest out buf : List ℕ)
      → streams.At st rest out
      → streams.Fine rest
      → length buf ≡ 1024
      → length rest < f
      → (st' : S) × (cat_loop sys f st fd buf ≡ some (0, st')) × streams.At st' [] (out ++ rest)
  unfolding cat_loop
  cat_loop_lem zero st rest out buf at fine len fuel = absurd (omega arith)
  cat_loop_lem (suc f) st [] out buf at fine len fuel =
      let (st1, run, at1) = streams.read_next st [] out buf at len in
      let e : min 0 1024 ≡ 0 = omega arith in (st1, rw run refl, rw append-nil at1)
  cat_loop_lem (suc f) st (c ∷ rest) out buf at fine len fuel =
      let all : List ℕ = c ∷ rest in
      let n = min (length all) 1024 in
      let (st1, run, at1) = streams.read_next st all out buf at len in
      let some_bytes : (n == 0) ≡ false = ground arith in
      let size : length (take n all) ≡ n = omega (arith, length-take n all) in
      let buf1 = take n all ++ drop n buf in
      let same : take n buf1 ≡ take n all =
        ap (λ (j : ℕ). take j buf1) (sym size) ∙ take-append (take n all) (drop n buf) in
      let len1 : length buf1 ≡ 1024 =
        length-append (take n all) (drop n buf) ∙ omega (arith, size, length-drop n buf, len) in
      let (st2, wrote, at2) =
        streams.write_out st1 (drop n all) out buf1 n at1 (omega (arith, len1))
          (rw same (streams.fine_take n all fine)) in
      let (st3, rest_run, at3) =
        cat_loop_lem f st2 (drop n all) (out ++ take n buf1) buf1 at2 (streams.fine_drop n all fine)
          len1 (omega (arith, length-drop n all, fuel)) in
      let whole : (out ++ take n buf1) ++ drop n all ≡ out ++ all =
        append_assoc out (take n buf1) (drop n all)
        ∙ ap (λ (t : List ℕ). out ++ t)
            (ap (λ (t : List ℕ). t ++ drop n all) same ∙ take-drop n all) in
      (st3, rw (run, some_bytes, wrote) rest_run, subst (streams.At st3 []) whole at3)
