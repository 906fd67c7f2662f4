-- ===== src/User/Pingpong/Rounds.antt =====
-- The animation of syscalls/ece391pingpong.c, round after round.
use mathlib.Core.Path.{subst}
use mathlib.Core.List.{append_assoc, append-nil}
use virtual_operating_system.Prelude.{
  >>=-eq-some, ℕ, zero, suc, ◌+◌, ◌-◌, ◌≤◌, ◌<◌, ℤ, Option, some, List, [], ◌∷◌, ◌++◌, ◌≡◌, refl,
  ap, ◌∙◌, sym, take, replicate, length, length-append, arith,
}
use virtual_operating_system.Strings.{write?}
use virtual_operating_system.Strings.Laws.{strlen-append}
use virtual_operating_system.Console.Total.{NoBackspace}
use virtual_operating_system.Console.Numbers.{take-append}
use virtual_operating_system.User.{Calls, fdputs}
use virtual_operating_system.User.Pingpong.{
  buf_max, start_loop, loop_max, rtc_name, blank_from, start_buf, next_char, draw, move_out,
  move_back, rounds, pingpong,
}
use virtual_operating_system.User.Pingpong.Frames.{
  Animation, frame, frames_out, frames_back, animation, HasWalls, blank_from_lem, drawn,
  framed-HasWalls, frame-NoNul, frame-NoBackspace,
}

module _ {S : Type 0} {sys : Calls S} {fd : ℤ} (show : Animation sys fd) where
  -- What a loop leaves: the array, the `int` and the state.
  Left : List ℕ → Option (List ℕ × List ℕ × S) → Type 0
  Left out o = (r : List ℕ × List ℕ × S) × (o ≡ some r) × HasWalls r.0 × show.At r.2 out

  draw_lem :
      (st : S) (out garbage buf : List ℕ) (c a b : ℕ)
      → 10 < c
      → a + suc b ≡ 76
      → HasWalls buf
      → show.At st out
      → Left (out ++ frame c a b) (draw sys st fd garbage buf c (start_loop + a))
  unfolding draw Left fdputs
  draw_lem st out garbage buf c a b ne sum w at =
      let s = frame c a b in
      let same : take (length s) (s ++ (0 ∷ [])) ≡ s = take-append s (0 ∷ []) in
      let plain = frame-NoBackspace c a b (λ q. omega (arith, q, ne)) in
      let (z1, s1, wrote, at1) =
        show.output st out (s ++ (0 ∷ [])) (length s) at (omega (arith, length-append s (0 ∷ [])))
          (subst NoBackspace (sym same) plain) in
      let (z2, g, s2, waited, at2) =
        show.waits s1 (out ++ take (length s) (s ++ (0 ∷ []))) garbage at1 in
      let (b0, cleared, put) =
        >>=-eq-some {B = List ℕ} (blank_from (loop_max - start_loop) buf start_loop)
          (λ b0. write? b0 (start_loop + a) c) (drawn c a b buf sum w) in
      (
        (s ++ (0 ∷ []), g, s2),
        rw
            (
              cleared,
              put,
              strlen-append s [] (frame-NoNul c a b (λ q. omega (arith, q, ne))),
              wrote,
              waited,
            )
            refl,
        framed-HasWalls c a b sum,
        subst (λ (t : List ℕ). show.At s2 (out ++ t)) same at2,
      )

  move_out_lem :
      (r : ℕ) (st : S) (out garbage buf : List ℕ) (c a : ℕ)
      → 10 < c
      → a + r ≡ 76
      → HasWalls buf
      → show.At st out
      → Left (out ++ frames_out c r a) (move_out sys r st fd garbage buf c (start_loop + a))
  unfolding move_out Left
  move_out_lem zero st out garbage buf c a ne sum w at =
      ((buf, garbage, st), refl, w, rw append-nil at)
  move_out_lem (suc r) st out garbage buf c a ne sum w at =
      let ((b1, g1, s1), drew, w1, at1) = draw_lem st out garbage buf c a r ne sum w at in
      let (o, moved, w2, at2) =
        move_out_lem r s1 (out ++ frame c a r) g1 b1 c (suc a) ne (omega (arith, sum)) w1 at1 in
      let next : start_loop + suc a ≡ suc (start_loop + a) = omega arith in
      (
        o,
        rw drew (rw next at moved),
        w2,
        subst (show.At o.2) (append_assoc out (frame c a r) (frames_out c r (suc a))) at2,
      )

  move_back_lem :
      (r : ℕ) (st : S) (out garbage buf : List ℕ) (c b : ℕ)
      → 10 < c
      → r + b ≡ 76
      → HasWalls buf
      → show.At st out
      → Left (out ++ frames_back c r b) (move_back sys r st fd garbage buf c)
  unfolding move_back Left
  move_back_lem zero st out garbage buf c b ne sum w at =
      ((buf, garbage, st), refl, w, rw append-nil at)
  move_back_lem (suc r) st out garbage buf c b ne sum w at =
      let ((b1, g1, s1), drew, w1, at1) =
        draw_lem st out garbage buf c r b ne (omega (arith, sum)) w at in
      let (o, moved, w2, at2) =
        move_back_lem r s1 (out ++ frame c r b) g1 b1 c (suc b) ne (omega (arith, sum)) w1 at1 in
      (
        o,
        rw drew moved,
        w2,
        subst (show.At o.2) (append_assoc out (frame c r b) (frames_back c r (suc b))) at2,
      )

  -- A capital letter.
  abbrev IsLetter : ℕ → Type 0
  IsLetter c = (b'A' ≤ c) × (c ≤ b'Z')

  next_char-IsLetter : (c : ℕ) → IsLetter c → IsLetter (next_char c)
  unfolding next_char
  next_char-IsLetter c h = ground (arith, h)

  rounds_lem :
      (n : ℕ) (st : S) (out garbage buf : List ℕ) (c : ℕ)
      → IsLetter c
      → HasWalls buf
      → show.At st out
      → (b : List ℕ) × (g : List ℕ) × (c' : ℕ) × (st' : S) × (rounds sys n st fd garbage buf c
          ≡ some (b, g, c', st'))
        × show.At st' (out ++ animation n c)
  unfolding rounds Left
  rounds_lem zero st out garbage buf c l w at = (buf, garbage, c, st, refl, rw append-nil at)
  rounds_lem (suc n) st out garbage buf c l w at =
      let ne : 10 < c = omega (arith, l.0) in
      let ((b1, g1, s1), moved, w1, at1) = move_out_lem 76 st out garbage buf c 0 ne refl w at in
      let ((b2, g2, s2), back, w2, at2) =
        move_back_lem 76 s1 (out ++ frames_out c 76 0) g1 b1 c 0 ne refl w1 at1 in
      let (b3, g3, c3, s3, ran, at3) =
        rounds_lem n s2 ((out ++ frames_out c 76 0) ++ frames_back c 76 0) g2 b2 (next_char c)
          (next_char-IsLetter c l) w2 at2 in
      let whole : ((out ++ frames_out c 76 0) ++ frames_back c 76 0) ++ animation n (next_char c)
          ≡ out ++ animation (suc n) c =
        ap (λ (t : List ℕ). t ++ animation n (next_char c))
          (append_assoc out (frames_out c 76 0) (frames_back c 76 0))
        ∙ append_assoc out (frames_out c 76 0 ++ frames_back c 76 0) (animation n (next_char c)) in
      (b3, g3, c3, s3, rw (moved, back) ran, subst (show.At s3) whole at3)

  start_buf_lem :
      (buf : List ℕ) → length buf ≡ buf_max → (b : List ℕ) × (start_buf buf ≡ some b) × HasWalls b
  unfolding start_buf write?
  start_buf_lem buf len =
      let blank = rw (len, append-nil) at (blank_from_lem buf [] []) in
      (
        32 ∷ b'|' ∷ (replicate 76 32 ++ (b'|' ∷ 10 ∷ 0 ∷ [])),
        rw blank refl,
        record { inner = replicate 76 32; size = refl; walls = refl },
      )

-- Behind the opening of the clock, `n` rounds show the letters.
pub pingpong_lem :
    {S : Type 0} {sys : Calls S} {fd : ℤ} (show : Animation sys fd) (n : ℕ) (st st1 : S)
    (garbage buf : List ℕ)
    → length buf ≡ buf_max
    → sys.open_file st rtc_name ≡ some (fd, st1)
    → show.At st1 []
    → (b : List ℕ) × (g : List ℕ) × (c : ℕ) × (st' : S) × (pingpong sys n st garbage buf
        ≡ some (b, g, c, st'))
      × show.At st' (animation n b'A')
unfolding pingpong
pingpong_lem show n st st1 garbage buf len opened at1 =
    let (b, filled, w) = start_buf_lem show buf len in
    let (z, s2, set_rate, at2) = show.sets st1 [] at1 in
    let (b3, g3, c3, s3, ran, at3) =
      rounds_lem show n s2 [] garbage b b'A' (omega arith, omega arith) w at2 in
    (b3, g3, c3, s3, rw (filled, opened, set_rate) ran, at3)
