-- ===== src/Console/Isolation.antt =====
-- What output to one terminal leaves alone, and that it cannot fail.
use mathlib.Core.Path.{subst}
use virtual_operating_system.Prelude.{
  ℕ, ◌≡◌, refl, ◌≢◌, some, List, [], ◌∷◌, ◌==◌, arith, false, ◌∙◌, >>=-eq-some, some_eq,
}
use virtual_operating_system.Console.Screen.{Cells, Screen, emit}
use virtual_operating_system.Console.Bounds.{IsValid}
use virtual_operating_system.Console.Output.{Console, current, screen_of, putc, puts, hide}

-- The cursor of every terminal is on the screen.
abbrev pub CursorsValid : Console → Type 0
CursorsValid k = (i : ℕ) → IsValid (screen_of (k.terminals i).video_memory (k.terminals i))

-- Validity does not depend on what is displayed.
pub same_cursor : {s : Screen} (cells : Cells) → IsValid s → IsValid (record s { cells = cells })
same_cursor cells v = record { x_in = v.x_in; y_in = v.y_in; start_in = v.start_in }

-- What output to a terminal that is not displayed leaves alone.
pub record HiddenOutput (k k' : Console) : Type 0 where
  pub video_kept : k'.video_mem ≡ k.video_mem
  pub others_kept : (i : ℕ) → i ≢ k.terminal_num → k'.terminals i ≡ k.terminals i
  pub keys_kept : (current k').key_buf ≡ (current k).key_buf
  pub crtc_kept : k'.crtc ≡ k.crtc
  pub num_kept : k'.terminal_num ≡ k.terminal_num
  pub displayed_kept : k'.terminal_displayed ≡ k.terminal_displayed

hide-HiddenOutput : (k : Console) (t : Screen) → HiddenOutput k (hide k t)
hide-HiddenOutput k t = record {
  video_kept = refl;
  others_kept = λ i ne. ground arith;
  keys_kept = ground arith;
  crtc_kept = refl;
  num_kept = refl;
  displayed_kept = refl;
}

putc_hidden :
    (c : ℕ) (k : Console) {k' : Console}
    → k.terminal_num ≢ k.terminal_displayed
    → putc c k ≡ some k'
    → (t : Screen) × (hide k t ≡ k')
unfolding putc
putc_hidden c k {k'} h e =
    let off : (k.terminal_num == k.terminal_displayed) ≡ false = ground arith in
    let (t, _, q) =
      >>=-eq-some (emit c (screen_of (current k).video_memory (current k))) (λ t. some (hide k t))
        (rw off at e) in
    (t, some_eq q)

putc-HiddenOutput :
    (c : ℕ) (k : Console) {k' : Console}
    → k.terminal_num ≢ k.terminal_displayed
    → putc c k ≡ some k'
    → HiddenOutput k k'
putc-HiddenOutput c k {k'} h e =
    let (t, q) = putc_hidden c k h e in subst (HiddenOutput k) q (hide-HiddenOutput k t)

HiddenOutput-trans : {a b c : Console} → HiddenOutput a b → HiddenOutput b c → HiddenOutput a c
HiddenOutput-trans {a} {b} {c} p q = record {
  video_kept = q.video_kept ∙ p.video_kept;
  others_kept = λ i ne. q.others_kept i (λ e. ne (e ∙ p.num_kept)) ∙ p.others_kept i ne;
  keys_kept = q.keys_kept ∙ p.keys_kept;
  crtc_kept = q.crtc_kept ∙ p.crtc_kept;
  num_kept = q.num_kept ∙ p.num_kept;
  displayed_kept = q.displayed_kept ∙ p.displayed_kept;
}

-- Output of a string on a terminal that is not displayed changes neither the display, nor the
-- hardware cursor, nor another terminal, nor the characters typed into its own.
pub puts-HiddenOutput :
    (s : List ℕ) (k : Console) {k' : Console}
    → k.terminal_num ≢ k.terminal_displayed
    → puts s k ≡ some k'
    → HiddenOutput k k'
unfolding puts
puts-HiddenOutput [] k h e = subst (HiddenOutput k) (some_eq e) record {
  video_kept = refl;
  others_kept = λ i ne. refl;
  keys_kept = refl;
  crtc_kept = refl;
  num_kept = refl;
  displayed_kept = refl;
}
puts-HiddenOutput (c ∷ s) k {k'} h e =
    let (k1, p, q) = >>=-eq-some (putc c k) (λ k1. puts s k1) e in
    let first = putc-HiddenOutput c k h p in
    HiddenOutput-trans first
      (puts-HiddenOutput s k1 (rw (first.num_kept, first.displayed_kept) h) q)
