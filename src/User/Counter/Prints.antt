-- ===== src/User/Counter/Prints.antt =====
-- What syscalls/ece391counter.c shows.
use mathlib.Core.Path.{subst}
use mathlib.Core.List.{append_assoc, append-nil}
use virtual_operating_system.Prelude.{
  ℕ, zero, suc, ◌+◌, ◌≤◌, ◌<◌, ◌^◌, ℤ, pos, Option, some, List, [], ◌∷◌, ◌++◌, ◌≡◌, refl, ap, ◌∙◌,
  take, drop, length, length-append, length-drop, arith,
}
use virtual_operating_system.Strings.Laws.{NoNul, strlen-append}
use virtual_operating_system.Strings.Numbers.Numerals.{Shows, Digits-NoNul, itoa_lem}
use virtual_operating_system.Console.Numbers.{take-append}
use virtual_operating_system.Console.Output.{Console, puts}
use virtual_operating_system.Console.Isolation.{CursorsValid}
use virtual_operating_system.Console.Total.{NoBackspace, puts_total, puts-append}
use virtual_operating_system.Console.Conversions.{Digits-NoBackspace}
use virtual_operating_system.Machine.{Machine}
use virtual_operating_system.User.Kernel.{kernel}
use virtual_operating_system.User.Kernel.Output.{HasTerminal, shown_as, write-puts}
use virtual_operating_system.User.Cat.File.{puts_nil}
use virtual_operating_system.User.{Calls, fdputs}
use virtual_operating_system.User.Support.Numbers.{ece391_itoa-itoa}
use virtual_operating_system.User.Ls.Prints.{listing}
use virtual_operating_system.User.Counter.{count_loop}

-- `At st out` says that `out` has been written to descriptor 1, to which a string without backspaces
-- can be written.
pub record Output {S : Type 0} (sys : Calls S) : Type 1 where
  pub At : S → List ℕ → Type 0
  pub output :
      (st : S) (out s : List ℕ) (n : ℕ)
      → At st out
      → n ≤ length s
      → NoBackspace (take n s)
      → (z : ℤ) × (st' : S) × (sys.write st (pos 1) s (pos n) ≡ some (z, st'))
        × At st' (out ++ take n s)

-- Decimal numerals of the numbers from `i` on.
abbrev pub Counts : ℕ → List (List ℕ) → Type 0
Counts i [] = Unit {0}
Counts i (s ∷ ss) = Shows 10 i s × Counts (suc i) ss

module _ {S : Type 0} {sys : Calls S} (out_to : Output sys) where
  put :
      (st : S) (out s rest : List ℕ)
      → out_to.At st out
      → NoNul s
      → NoBackspace s
      → (st' : S) × (fdputs sys st (pos 1) (s ++ (0 ∷ rest)) ≡ some st') × out_to.At st' (out ++ s)
  unfolding fdputs
  put st out s rest at z b =
      let same : take (length s) (s ++ (0 ∷ rest)) ≡ s = take-append s (0 ∷ rest) in
      let (r, st1, w, at1) =
        out_to.output st out (s ++ (0 ∷ rest)) (length s) at
          (omega (arith, length-append s (0 ∷ rest))) (rw same b) in
      (
        st1,
        rw (strlen-append s rest z, w) refl,
        subst (λ (t : List ℕ). out_to.At st1 (out ++ t)) same at1,
      )

  -- The numerals are written, each with a newline.
  pub count_loop_lem :
      (r i : ℕ) (st : S) (out buf : List ℕ)
      → i + r < 2 ^ 32
      → 33 ≤ length buf
      → out_to.At st out
      → (st' : S) × (texts : List (List ℕ)) × (count_loop sys r i st buf ≡ some (0, st'))
        × (length texts ≡ r)
        × Counts (suc i) texts
        × out_to.At st' (out ++ listing texts)
  unfolding count_loop
  count_loop_lem zero i st out buf small room at = (st, [], refl, refl, tt, rw append-nil at)
  count_loop_lem (suc r) i st out buf small room at =
      let (s, written, shows) =
        itoa_lem (suc i) 10 buf (omega arith) (omega arith) (omega arith) room in
      let rest = drop (suc (length s)) buf in
      let e : i + 1 ≡ suc i = omega arith in
      let (s1, told, at1) =
        put st out s rest at (Digits-NoNul 10 s shows.digits)
          (Digits-NoBackspace 10 s (omega arith) shows.digits) in
      let (s2, ended, at2) =
        put s1 (out ++ s) (10 ∷ []) [] at1 ((λ q. omega (arith, q)), tt)
          ((λ q. omega (arith, q)), tt) in
      let (s3, texts, ran, len, counts, at3) =
        count_loop_lem r (suc i) s2 ((out ++ s) ++ (10 ∷ [])) (s ++ (0 ∷ rest)) (omega arith)
          (omega (arith, length-append s (0 ∷ rest), length-drop (suc (length s)) buf)) at2 in
      let whole : ((out ++ s) ++ (10 ∷ [])) ++ listing texts ≡ out ++ listing (s ∷ texts) =
        ap (λ (t : List ℕ). t ++ listing texts) (append_assoc out s (10 ∷ []))
        ∙ append_assoc out (s ++ (10 ∷ [])) (listing texts) in
      (
        s3,
        s ∷ texts,
        rw (e, ece391_itoa-itoa (suc i) 10 buf, written, told, ended) ran,
        ap suc len,
        (shows, counts),
        subst (out_to.At s3) whole at3,
      )

-- What has been put on the terminal since the console was `k0`, where the kernel serves the calls.
record Shown (k0 : Console) (m : Machine) (out : List ℕ) : Type 0 where
  terminal : HasTerminal m
  cursors : CursorsValid m.console
  shown : puts out k0 ≡ some m.console

module _ (run : Machine → List ℕ → Option (ℤ × Machine)) (call : Machine → ℤ → Option (ℤ × Machine))
    (user_table_at : ℕ) where
  write_text :
      (k0 : Console) (m : Machine) (out s : List ℕ) (n : ℕ)
      → Shown k0 m out
      → n ≤ length s
      → NoBackspace (take n s)
      → (z : ℤ) × (m' : Machine) × ((kernel run call user_table_at).write m (pos 1) s (pos n)
          ≡ some (z, m'))
        × Shown k0 m' (out ++ take n s)
  unfolding kernel
  write_text k0 m out s n l room b =
      let (k, e, v) = puts_total (take n s) m.console l.cursors b in
      (
        pos n,
        shown_as m k,
        write-puts m s n l.terminal room ∙ rw e refl,
        record {
          terminal = l.terminal;
          cursors = v;
          shown = puts-append out (take n s) k0 m.console k l.shown e;
        },
      )

  -- The kernel outputs what a program writes to descriptor 1.
  on_terminal : Console → Output (kernel run call user_table_at)
  on_terminal k0 = record { At = Shown k0; output = write_text k0 }

  -- On the kernel, the loop of `counter` prints the decimal numerals of the next `r` numbers behind `i` on the
  -- terminal, each on a line of its own, and returns 0. The last number is below 2 ^ 32, the array
  -- has 33 bytes at least, descriptor 1 is the terminal, and every cursor is on the screen.
  pub count_loop-puts :
      (r i : ℕ) (m : Machine) (buf : List ℕ)
      → i + r < 2 ^ 32
      → 33 ≤ length buf
      → HasTerminal m
      → CursorsValid m.console
      → (m' : Machine) × (texts : List (List ℕ)) × (count_loop
            (kernel run call user_table_at)
            r
            i
            m
            buf
          ≡ some (0, m'))
        × (length texts ≡ r)
        × Counts (suc i) texts
        × (puts (listing texts) m.console ≡ some m'.console)
  unfolding on_terminal
  count_loop-puts r i m buf small room t v =
      let begun : Shown m.console m [] = record {
        terminal = t;
        cursors = v;
        shown = puts_nil m.console;
      } in
      let (m1, texts, ran, len, counts, done) =
        count_loop_lem (on_terminal m.console) r i m [] buf small room begun in
      (m1, texts, ran, len, counts, done.shown)
