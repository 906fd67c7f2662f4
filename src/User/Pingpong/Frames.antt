-- ===== src/User/Pingpong/Frames.antt =====
-- What syscalls/ece391pingpong.c asks of the system calls, and what it then shows.
use mathlib.Core.List.{append_assoc}
use virtual_operating_system.Prelude.{
  ℕ, zero, suc, ◌+◌, ◌-◌, ◌≤◌, ℤ, pos, some, List, [], ◌∷◌, ◌++◌, ◌≡◌, ◌≢◌, refl, ap, ◌∙◌, sym,
  take, replicate, length, length-append, length-replicate, ◌>>=◌, arith,
}
use virtual_operating_system.Strings.{write?}
use virtual_operating_system.Strings.Laws.{NoNul, write?-append, length-snoc}
use virtual_operating_system.Console.Total.{NoBackspace}
use virtual_operating_system.User.{Calls}
use virtual_operating_system.User.Pingpong.{start_loop, loop_max, blank_from, next_char}

-- `At st out` says that `out` has been written to descriptor 1. A string without backspaces can
-- be output, the descriptor `fd` is the clock, which can be set, and a wait for it comes back.
pub record Animation {S : Type 0} (sys : Calls S) (fd : ℤ) : Type 1 where
  pub At : S → List ℕ → Type 0
  pub output :
      (st : S) (out s : List ℕ) (n : ℕ)
      → At st out
      → n ≤ length s
      → NoBackspace (take n s)
      → (z : ℤ) × (st' : S) × (sys.write st (pos 1) s (pos n) ≡ some (z, st'))
        × At st' (out ++ take n s)
  pub sets :
      (st : S) (out : List ℕ)
      → At st out
      → (z : ℤ) × (st' : S) × (sys.write st fd (32 ∷ 0 ∷ 0 ∷ 0 ∷ []) (pos 4) ≡ some (z, st'))
        × At st' out
  pub waits :
      (st : S) (out : List ℕ) (garbage : List ℕ)
      → At st out
      → (z : ℤ) × (b : List ℕ) × (st' : S) × (sys.read st fd garbage (pos 4) ≡ some (z, b, st'))
        × At st' out

-- A line with the character `c` in column `a + 2`, and `b` columns behind it.
abbrev pub frame : ℕ → ℕ → ℕ → List ℕ
frame c a b = 32 ∷ b'|' ∷ (replicate a 32 ++ (c ∷ (replicate b 32 ++ (b'|' ∷ 10 ∷ []))))

-- The frames from the column `a` on to the right, and from the column `r - 1` back to the left.
abbrev pub frames_out : ℕ → ℕ → ℕ → List ℕ
frames_out c zero a = []
frames_out c (suc r) a = frame c a r ++ frames_out c r (suc a)

abbrev pub frames_back : ℕ → ℕ → ℕ → List ℕ
frames_back c zero b = []
frames_back c (suc r) b = frame c r b ++ frames_back c r (suc b)

-- The animation: the characters from `c` on go to the right wall and back.
abbrev pub animation : ℕ → ℕ → List ℕ
animation zero c = []
animation (suc n) c = (frames_out c 76 0 ++ frames_back c 76 0) ++ animation n (next_char c)

-- The array between two steps.
pub record HasWalls (buf : List ℕ) : Type 0 where
  pub inner : List ℕ
  pub size : length inner ≡ 76
  pub walls : buf ≡ 32 ∷ b'|' ∷ (inner ++ (b'|' ∷ 10 ∷ 0 ∷ []))

pub blank_from_lem :
    (d a w : List ℕ)
    → blank_from (length d) (a ++ (d ++ w)) (length a) ≡ some (a ++ (replicate (length d) 32 ++ w))
unfolding blank_from
blank_from_lem [] a w = refl
blank_from_lem (x ∷ d) a w =
    let ih = blank_from_lem d (a ++ (32 ∷ [])) w in
    rw (write?-append a (d ++ w) x 32) (
      rw
        (
          length-snoc,
          append_assoc a (32 ∷ []) (d ++ w),
          append_assoc a (32 ∷ []) (replicate (length d) 32 ++ w),
        )
        at ih)

replicate-split :
    (a b : ℕ) (w : List ℕ)
    → replicate (a + suc b) 32 ++ w ≡ replicate a 32 ++ (32 ∷ (replicate b 32 ++ w))
replicate-split zero b w = let e : 0 + suc b ≡ suc b = omega arith in rw e refl
replicate-split (suc a) b w =
    let e : suc a + suc b ≡ suc (a + suc b) = omega arith in
    rw e (ap (λ (s : List ℕ). 32 ∷ s) (replicate-split a b w))

spaces-NoNul : (n : ℕ) (s : List ℕ) → NoNul s → NoNul (replicate n 32 ++ s)
spaces-NoNul zero s z = z
spaces-NoNul (suc n) s z = ((λ q. omega (arith, q)), spaces-NoNul n s z)

pub frame-NoNul : (c a b : ℕ) → c ≢ 0 → NoNul (frame c a b)
frame-NoNul c a b ne = (
  (λ q. omega (arith, q)),
  (
    (λ q. omega (arith, q)),
    spaces-NoNul a (c ∷ (replicate b 32 ++ (b'|' ∷ 10 ∷ []))) (
      ne,
      spaces-NoNul b (b'|' ∷ 10 ∷ []) ((λ q. omega (arith, q)), ((λ q. omega (arith, q)), tt)),
    ),
  ),
)

spaces-NoBackspace : (n : ℕ) (s : List ℕ) → NoBackspace s → NoBackspace (replicate n 32 ++ s)
spaces-NoBackspace zero s z = z
spaces-NoBackspace (suc n) s z = ((λ q. omega (arith, q)), spaces-NoBackspace n s z)

pub frame-NoBackspace : (c a b : ℕ) → c ≢ 8 → NoBackspace (frame c a b)
frame-NoBackspace c a b ne = (
  (λ q. omega (arith, q)),
  (
    (λ q. omega (arith, q)),
    spaces-NoBackspace a (c ∷ (replicate b 32 ++ (b'|' ∷ 10 ∷ []))) (
      ne,
      spaces-NoBackspace b (b'|' ∷ 10 ∷ [])
          ((λ q. omega (arith, q)), ((λ q. omega (arith, q)), tt)),
    ),
  ),
)

-- The array with a frame in it.
framed :
    (c a b : ℕ)
    → frame c a b ++ (0 ∷ [])
      ≡ 32 ∷ b'|' ∷ (replicate a 32 ++ (c ∷ (replicate b 32 ++ (b'|' ∷ 10 ∷ 0 ∷ []))))
framed c a b =
    ap (λ (s : List ℕ). 32 ∷ b'|' ∷ s)
      (append_assoc (replicate a 32) (c ∷ (replicate b 32 ++ (b'|' ∷ 10 ∷ []))) (0 ∷ [])
        ∙ ap (λ (s : List ℕ). replicate a 32 ++ (c ∷ s))
            (append_assoc (replicate b 32) (b'|' ∷ 10 ∷ []) (0 ∷ [])))

pub framed-HasWalls : (c a b : ℕ) → a + suc b ≡ 76 → HasWalls (frame c a b ++ (0 ∷ []))
framed-HasWalls c a b sum = record {
  inner = replicate a 32 ++ (c ∷ replicate b 32);
  size =
      length-append (replicate a 32) (c ∷ replicate b 32)
      ∙ omega (arith, sum, length-replicate {A = ℕ} a 32, length-replicate {A = ℕ} b 32);
  walls =
      framed c a b
      ∙ ap (λ (s : List ℕ). 32 ∷ b'|' ∷ s)
          (sym (append_assoc (replicate a 32) (c ∷ replicate b 32) (b'|' ∷ 10 ∷ 0 ∷ [])));
}

-- The inner part is cleared, and the character put into it.
pub drawn :
    (c a b : ℕ) (buf : List ℕ)
    → a + suc b ≡ 76
    → HasWalls buf
    → (blank_from (loop_max - start_loop) buf start_loop >>= λ b0. write? b0 (start_loop + a) c)
      ≡ some (frame c a b ++ (0 ∷ []))
drawn c a b buf sum w =
    let tail : List ℕ = b'|' ∷ 10 ∷ 0 ∷ [] in
    let front : List ℕ = 32 ∷ b'|' ∷ replicate a 32 in
    let blank = rw w.size at (blank_from_lem w.inner (32 ∷ b'|' ∷ []) tail) in
    let split : replicate 76 32 ++ tail ≡ replicate a 32 ++ (32 ∷ (replicate b 32 ++ tail)) =
      ap (λ (n : ℕ). replicate {A = ℕ} n 32 ++ tail) (sym sum) ∙ replicate-split a b tail in
    let at : length front ≡ 2 + a = omega (arith, length-replicate {A = ℕ} a 32) in
    let put = rw at at (write?-append front (replicate b 32 ++ tail) 32 c) in
    rw (w.walls, blank, split, put) (ap some (sym (framed c a b)))
