-- ===== src/Keyboard/Lines.antt =====
-- TAB, BACKSPACE and ENTER of student-distrib/keyboard.c and the typed lines.
use virtual_operating_system.Prelude.{
  ℕ, zero, suc, ◌+◌, ◌%◌, ◌≤◌, ◌<◌, pos, true, false, none, some, ◌≡◌, refl, ap, ◌∙◌, sym, inl, inr,
  set, length, ltb, ltb→lt, Bool-cases, >>=-eq-some, some_eq, arith,
}
use virtual_operating_system.Console.Output.{Console, Terminal, shown, set_terminal, putc2screen}
use virtual_operating_system.Console.Isolation.{CursorsValid}
use virtual_operating_system.Console.Total.{putc2screen_total, set_terminal-CursorsValid}
use virtual_operating_system.Keyboard.{
  tab_loop, backspace_key, enter_key, positive, equals, decrement, delete_key, count_line,
}
use virtual_operating_system.Keyboard.Buffer.{
  Displays, putc2screen-Displays, Holds, shown_set, store_key-some, Holds-same, type_key-Typed,
  type_key-full,
}

-- TAB stores its four blanks if they fit.
pub tab_loop-some :
    (r : ℕ) (k : Console) (n : ℕ)
    → CursorsValid k
    → Holds (shown k) n
    → n + r ≤ 128
    → (k' : Console) × (tab_loop r k ≡ some k')
      × Holds (shown k') (n + r)
      × CursorsValid k'
      × ((shown k').buf_flag ≡ (shown k).buf_flag)
unfolding tab_loop
tab_loop-some zero k n v h room = (k, refl, (let e : n + 0 ≡ n = omega arith in rw e h), v, refl)
tab_loop-some (suc r) k n v h room =
    let (k1, e, t, _) = type_key-Typed 32 k n v h (λ q. omega arith) (omega arith) in
    let (k2, e2, h2, v2, f2) = tab_loop-some r k1 (suc n) t.cursors t.holds (omega arith) in
    let sum : n + suc r ≡ suc n + r = omega arith in (k2, rw (e, e2), rw sum h2, v2, f2 ∙ t.lines)

-- TAB has no test for room: with every cursor on the screen, `r` blanks left to store, and fewer
-- than `r` free bytes, it writes behind the end of the
-- keyboard buffer.
pub tab_overflow :
    (r : ℕ) (k : Console) (n : ℕ)
    → CursorsValid k
    → Holds (shown k) n
    → n ≤ 128
    → 128 < n + r
    → tab_loop r k ≡ none
unfolding tab_loop
tab_overflow zero k n v h in_range over = absurd (omega arith)
tab_overflow (suc r) k n v h in_range over = elim (Bool-cases (ltb n 128)) [
  | inl room ↦
      let (k1, e, t, _) = type_key-Typed 32 k n v h (λ q. omega arith) (ltb→lt n 128 room) in
      rw e (tab_overflow r k1 (suc n) t.cursors t.holds (ltb→lt n 128 room) (omega arith))
  | inr full ↦ rw (type_key-full 32 k n v h (λ q. omega arith) (ground arith))
]

backspace_inversion :
    (k k2 : Console) (n : ℕ)
    → (shown k).num_buf ≡ pos (suc n)
    → backspace_key k ≡ some k2
    → (k1 : Console) × Displays k k1
      × (set_terminal k1 k1.terminal_displayed (delete_key (shown k1)) ≡ k2)
unfolding backspace_key
backspace_inversion k k2 n e h =
    let some_keys : positive (shown k).num_buf ≡ true = rw e (ground arith) in
    let (k1, p, q) =
      >>=-eq-some (putc2screen 8 k)
        (λ k'. some (set_terminal k' k'.terminal_displayed (delete_key (shown k'))))
        (rw some_keys at h) in
    (k1, putc2screen-Displays 8 k k1 p, some_eq q)

-- BACKSPACE takes back the last stored character, whatever it is, and does not touch the count of
-- lines.
pub backspace_key-drops :
    (k k2 : Console) (n : ℕ)
    → (shown k).num_buf ≡ pos (suc n)
    → backspace_key k ≡ some k2
    → ((shown k2).num_buf ≡ pos n)
      × ((shown k2).key_buf ≡ (shown k).key_buf)
      × ((shown k2).buf_flag ≡ (shown k).buf_flag)
unfolding delete_key
backspace_key-drops k k2 n e h =
    let (k1, d, q) = backspace_inversion k k2 n e h in
    let at = ap shown (sym q) ∙ shown_set k1 (delete_key (shown k1)) in
    (
      ap (λ (x : Terminal). x.num_buf) at ∙ ap decrement (d.keys.num_buf ∙ e),
      ap (λ (x : Terminal). x.key_buf) at ∙ d.keys.key_buf,
      ap (λ (x : Terminal). x.buf_flag) at ∙ d.keys.buf_flag,
    )

-- With every cursor on the screen, ENTER stores the newline, shows it and counts the line, if there is room.
enter_key-counts :
    (k : Console) (n : ℕ)
    → CursorsValid k
    → Holds (shown k) n
    → n < 128
    → (k' : Console) × (enter_key k ≡ some k')
      × Holds (shown k') (suc n)
      × ((shown k').key_buf ≡ set (shown k).key_buf n 10)
      × ((shown k').buf_flag ≡ ((shown k).buf_flag + 1) % 256)
      × CursorsValid k'
unfolding enter_key count_line
enter_key-counts k n v h room =
    let fits : equals (shown k).num_buf 128 ≡ false = rw h.count (ground arith) in
    let (k1, e1, t, _) = store_key-some 10 k n v h room in
    let (k2, e2, w) = putc2screen_total 10 k1 t.cursors (λ q. omega arith) in
    let d = putc2screen-Displays 10 k1 k2 e2 in
    let done = count_line (shown k2) in
    let at = shown_set k2 done in
    let kept = Holds-same d.keys t.holds in
    (
      set_terminal k2 k2.terminal_displayed done,
      rw (fits, e1, e2),
      record {
        size = ap (λ (x : Terminal). length x.key_buf) at ∙ kept.size;
        count = ap (λ (x : Terminal). x.num_buf) at ∙ kept.count;
      },
      ap (λ (x : Terminal). x.key_buf) at ∙ (d.keys.key_buf ∙ t.stored),
      ap (λ (x : Terminal). x.buf_flag) at
          ∙ ap (λ (x : ℕ). (x + 1) % 256) (d.keys.buf_flag ∙ t.lines),
      set_terminal-CursorsValid k2 k2.terminal_displayed done w (w k2.terminal_displayed),
    )

-- With every cursor on the screen and room in the buffer, a line that is entered and then taken back
-- with BACKSPACE is gone from the buffer and still
-- counted: the buffer holds as many characters as before, and `buf_flag` is one higher.
pub enter_backspace :
    (k k1 k2 : Console) (n : ℕ)
    → CursorsValid k
    → Holds (shown k) n
    → n < 128
    → enter_key k ≡ some k1
    → backspace_key k1 ≡ some k2
    → Holds (shown k2) n × ((shown k2).buf_flag ≡ ((shown k).buf_flag + 1) % 256)
enter_backspace k k1 k2 n v h room e b =
    let (k1', e', h1, s1, f1, v1) = enter_key-counts k n v h room in
    let same : k1' ≡ k1 = some_eq (sym e' ∙ e) in
    let flag : (shown k1).buf_flag ≡ ((shown k).buf_flag + 1) % 256 = rw same at f1 in
    let held : Holds (shown k1) (suc n) = rw same at h1 in
    let (c, s, f) = backspace_key-drops k1 k2 n held.count b in
    (record { size = ap length s ∙ held.size; count = c }, f ∙ flag)
