-- ===== src/Keyboard/Buffer.antt =====
-- The keyboard buffer under the keys of student-distrib/keyboard.c.
use mathlib.Core.Path.{subst}
use virtual_operating_system.Prelude.{
  ℕ, suc, ◌≤◌, ◌<◌, pos, true, false, none, some, List, ◌≡◌, ◌≢◌, refl, ap, ◌∙◌, sym, inl, inr, set,
  length, length-set, ltb, ◌==◌, lt→ltb, le→ltb, Bool-cases, >>=-eq-some, some_eq, if◌then◌else◌,
  arith,
}
use virtual_operating_system.Console.Screen.{Screen, emit, ignored}
use virtual_operating_system.Console.Output.{
  Console, Terminal, shown, set_terminal, putc2screen, screen_of, show, draw_cursor,
}
use virtual_operating_system.Console.Isolation.{CursorsValid}
use virtual_operating_system.Console.Total.{putc2screen_total, set_terminal-CursorsValid}
use virtual_operating_system.Keyboard.{append_key, store_key, type_key}

-- The screen that is displayed.
abbrev pub on_display : Console → Screen
on_display k = screen_of k.video_mem (shown k)

-- `putc2screen` puts on the display what the character makes of the screen.
putc2screen-emit :
    (c : ℕ) (k k' : Console)
    → c ≢ 8
    → putc2screen c k ≡ some k'
    → emit c (on_display k) ≡ some (on_display k')
unfolding putc2screen draw_cursor
putc2screen-emit c k k' ne h =
    let s = on_display k in
    let (t, e, q) =
      >>=-eq-some (emit c s) (λ t. some (if ignored c s then k else draw_cursor (show k t))) h in
    let off : (c == 8) ≡ false = ground (arith, ne) in
    let self : (k.terminal_displayed == k.terminal_displayed) ≡ true = ground arith in
    let drawn : on_display (draw_cursor (show k t)) ≡ t = rw self refl in
    e ∙ ap some (sym drawn ∙ ap on_display (some_eq (rw off at q)))

-- Two terminals with the same typed characters.
pub record SameKeys (t t' : Terminal) : Type 0 where
  pub key_buf : t'.key_buf ≡ t.key_buf
  pub num_buf : t'.num_buf ≡ t.num_buf
  pub buf_flag : t'.buf_flag ≡ t.buf_flag

-- What output to the display leaves alone.
pub record Displays (k k' : Console) : Type 0 where
  pub keys : SameKeys (shown k) (shown k')
  pub displayed : k'.terminal_displayed ≡ k.terminal_displayed
  pub others : (i : ℕ) → i ≢ k.terminal_displayed → k'.terminals i ≡ k.terminals i

show-Displays : (k : Console) (s : Screen) → Displays k (draw_cursor (show k s))
unfolding draw_cursor
show-Displays k s =
    let self : (k.terminal_displayed == k.terminal_displayed) ≡ true = ground arith in
    record {
      keys = record { key_buf = rw self; num_buf = rw self; buf_flag = rw self };
      displayed = refl;
      others =
          λ i ne. (let off : (i == k.terminal_displayed) ≡ false = ground (arith, ne) in rw off);
    }

pub Displays-refl : (k : Console) → Displays k k
Displays-refl k = record {
  keys = record { key_buf = refl; num_buf = refl; buf_flag = refl };
  displayed = refl;
  others = λ i ne. refl;
}

pub putc2screen-Displays : (c : ℕ) (k k' : Console) → putc2screen c k ≡ some k' → Displays k k'
unfolding putc2screen
putc2screen-Displays c k k' h =
    let s = screen_of k.video_mem (shown k) in
    let (t, _, q) =
      >>=-eq-some (emit c s) (λ t. some (if ignored c s then k else draw_cursor (show k t))) h in
    elim (Bool-cases (ignored c s)) [
      | inl e ↦ subst (Displays k) (rw e at (some_eq q)) (Displays-refl k)
      | inr e ↦ subst (Displays k) (rw e at (some_eq q)) (show-Displays k t)
    ]

-- The buffer has its 128 bytes and holds `n` characters.
pub record Holds (t : Terminal) (n : ℕ) : Type 0 where
  pub size : length t.key_buf ≡ 128
  pub count : t.num_buf ≡ pos n

pub append_key-full : (c : ℕ) (t : Terminal) (n : ℕ) → Holds t n → 128 ≤ n → append_key c t ≡ none
unfolding append_key
append_key-full c t n h full =
    let off : ltb n (length t.key_buf) ≡ false = le→ltb n _ (omega (arith, h.size)) in
    rw (h.count, off)

pub append_key-some :
    (c : ℕ) (t : Terminal) (n : ℕ)
    → Holds t n
    → n < 128
    → append_key c t ≡ some (record t { key_buf = set t.key_buf n c; num_buf = pos (suc n) })
unfolding append_key
append_key-some c t n h room =
    let on : ltb n (length t.key_buf) ≡ true = lt→ltb n _ (omega (arith, h.size)) in
    rw (h.count, on)

pub shown_set : (k : Console) (t : Terminal) → shown (set_terminal k k.terminal_displayed t) ≡ t
shown_set k t =
    let self : (k.terminal_displayed == k.terminal_displayed) ≡ true = ground arith in rw self

-- What typing the character `c` behind `n` others does.
pub record Typed (c n : ℕ) (k k' : Console) : Type 0 where
  pub holds : Holds (shown k') (suc n)
  pub stored : (shown k').key_buf ≡ set (shown k).key_buf n c
  pub lines : (shown k').buf_flag ≡ (shown k).buf_flag
  pub cursors : CursorsValid k'
  pub displayed : k'.terminal_displayed ≡ k.terminal_displayed

pub Typed-set :
    (c n : ℕ) (k : Console) (t : Terminal)
    → CursorsValid k
    → Holds (shown k) n
    → t ≡ record (shown k) { key_buf = set (shown k).key_buf n c; num_buf = pos (suc n) }
    → Typed c n k (set_terminal k k.terminal_displayed t)
Typed-set c n k t v h e =
    let at = shown_set k t ∙ e in
    record {
      holds = record {
        size =
            ap (λ (x : Terminal). length x.key_buf) at
            ∙ (length-set (shown k).key_buf n c ∙ h.size);
        count = ap (λ (x : Terminal). x.num_buf) at;
      };
      stored = ap (λ (x : Terminal). x.key_buf) at;
      lines = ap (λ (x : Terminal). x.buf_flag) at;
      cursors =
          set_terminal-CursorsValid k k.terminal_displayed t v (rw e (v k.terminal_displayed));
      displayed = refl;
    }

pub store_key-some :
    (c : ℕ) (k : Console) (n : ℕ)
    → CursorsValid k
    → Holds (shown k) n
    → n < 128
    → (k' : Console) × (store_key c k ≡ some k') × Typed c n k k' × (on_display k' ≡ on_display k)
unfolding store_key
store_key-some c k n v h room =
    let t = record (shown k) { key_buf = set (shown k).key_buf n c; num_buf = pos (suc n) } in
    (
      set_terminal k k.terminal_displayed t,
      rw (append_key-some c (shown k) n h room),
      Typed-set c n k t v h refl,
      (let self : (k.terminal_displayed == k.terminal_displayed) ≡ true = ground arith in
          rw self refl),
    )

pub Holds-same : {t t' : Terminal} {n : ℕ} → SameKeys t t' → Holds t n → Holds t' n
Holds-same s h = record { size = ap length s.key_buf ∙ h.size; count = s.num_buf ∙ h.count }

-- With every cursor on the screen, a character that is no backspace is stored behind the others while
-- there is room, and is shown: the display and its cursor become what the output of the character
-- makes of them. The line count and which terminal is displayed stay.
pub type_key-Typed :
    (c : ℕ) (k : Console) (n : ℕ)
    → CursorsValid k
    → Holds (shown k) n
    → c ≢ 8
    → n < 128
    → (k' : Console) × (type_key c k ≡ some k')
      × Typed c n k k'
      × (emit c (on_display k) ≡ some (on_display k'))
unfolding type_key
type_key-Typed c k n v h ne room =
    let (k1, e, w) = putc2screen_total c k v ne in
    let d = putc2screen-Displays c k k1 e in
    let (k2, e2, t, kept) = store_key-some c k1 n w (Holds-same d.keys h) room in
    (
      k2,
      rw (e, e2),
      record {
        holds = t.holds;
        stored = t.stored ∙ ap (λ (b : List ℕ). set b n c) d.keys.key_buf;
        lines = t.lines ∙ d.keys.buf_flag;
        cursors = t.cursors;
        displayed = t.displayed ∙ d.displayed;
      },
      putc2screen-emit c k k1 ne e ∙ ap some (sym kept),
    )

pub type_key-full :
    (c : ℕ) (k : Console) (n : ℕ)
    → CursorsValid k
    → Holds (shown k) n
    → c ≢ 8
    → 128 ≤ n
    → type_key c k ≡ none
unfolding type_key store_key
type_key-full c k n v h ne full =
    let (k1, e, w) = putc2screen_total c k v ne in
    let d = putc2screen-Displays c k k1 e in
    rw (e, append_key-full c (shown k1) n (Holds-same d.keys h) full)
