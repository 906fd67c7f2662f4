-- ===== src/User/Shell/Typed.antt =====
-- The shell of syscalls/ece391shell.c on the system calls of student-distrib/syscall.c, with the lines
-- typed ahead.
use mathlib.Core.Path.{subst}
use mathlib.Core.List.{append_assoc}
use virtual_operating_system.Prelude.{
  ℕ, suc, ◌+◌, ◌%◌, ◌≤◌, ◌<◌, ℤ, pos, true, false, Option, some, List, [], ◌∷◌, ◌++◌, ◌≡◌, ◌≢◌,
  refl, ap, ◌∙◌, inl, inr, take, drop, replicate, length, length-append, length-replicate,
  Bool-cases, >>=-eq-some, some_eq, ◌==◌, ==_iff, ◌>>=◌, if◌then◌else◌, arith,
}
use virtual_operating_system.Strings.Laws.{NoNul}
use virtual_operating_system.Console.Screen.{Screen, emit, ignored}
use virtual_operating_system.Console.Output.{
  Console, Terminal, current, shown, screen_of, set_terminal, show, hide, draw_cursor, putc,
  putc2screen, puts,
}
use virtual_operating_system.Console.Isolation.{CursorsValid}
use virtual_operating_system.Console.Total.{NoBackspace, puts_total, set_terminal-CursorsValid}
use virtual_operating_system.Terminal.{terminal_read, minus}
use virtual_operating_system.Terminal.Lines.{NoNewline, take_line_lem}
use virtual_operating_system.Machine.{Machine, FileDesc, term}
use virtual_operating_system.Syscall.{read, call_read, read_with}
use virtual_operating_system.Syscall.Files.{descriptor}
use virtual_operating_system.User.Kernel.{kernel, finished}
use virtual_operating_system.User.Kernel.Output.{HasTerminal, shown_as, write-puts}
use virtual_operating_system.User.Ls.Prints.{listing}
use virtual_operating_system.User.Shell.Sessions.{Session}

-- Output leaves what has been typed on the current terminal alone.
pub record KeepsLine (k k' : Console) : Type 0 where
  pub num : k'.terminal_num ≡ k.terminal_num
  pub keys : (current k').key_buf ≡ (current k).key_buf
  pub lines : (current k').buf_flag ≡ (current k).buf_flag

KeepsLine-trans : {a b c : Console} → KeepsLine a b → KeepsLine b c → KeepsLine a c
KeepsLine-trans p q = record {
  num = q.num ∙ p.num;
  keys = q.keys ∙ p.keys;
  lines = q.lines ∙ p.lines;
}

show-KeepsLine :
    (k : Console) (s : Screen)
    → k.terminal_num ≡ k.terminal_displayed
    → KeepsLine k (draw_cursor (show k s))
unfolding draw_cursor
show-KeepsLine k s e =
    let on : (k.terminal_num == k.terminal_displayed) ≡ true = ground (arith, e) in
    record { num = refl; keys = rw (on, e) refl; lines = rw (on, e) refl }

hide-KeepsLine : (k : Console) (s : Screen) → KeepsLine k (hide k s)
hide-KeepsLine k s =
    let on : (k.terminal_num == k.terminal_num) ≡ true = ground arith in
    record { num = refl; keys = rw on refl; lines = rw on refl }

putc2screen-KeepsLine :
    (c : ℕ) (k k' : Console)
    → k.terminal_num ≡ k.terminal_displayed
    → putc2screen c k ≡ some k'
    → KeepsLine k k'
unfolding putc2screen
putc2screen-KeepsLine c k k' on h =
    let s = screen_of k.video_mem (shown k) in
    let (t, _, q) =
      >>=-eq-some (emit c s) (λ t. some (if ignored c s then k else draw_cursor (show k t))) h in
    elim (Bool-cases (ignored c s)) [
      | inl e ↦
          subst (KeepsLine k) (rw e at (some_eq q))
            (record { num = refl; keys = refl; lines = refl })
      | inr e ↦ subst (KeepsLine k) (rw e at (some_eq q)) (show-KeepsLine k t on)
    ]

putc-KeepsLine : (c : ℕ) (k k' : Console) → putc c k ≡ some k' → KeepsLine k k'
unfolding putc
putc-KeepsLine c k k' h = elim (Bool-cases (k.terminal_num == k.terminal_displayed)) [
  | inl on ↦
      putc2screen-KeepsLine c k k' ((==_iff k.terminal_num k.terminal_displayed).0 on) (rw on at h)
  | inr off ↦
      let (t, _, q) =
        >>=-eq-some (emit c (screen_of (current k).video_memory (current k))) (λ t. some (hide k t))
          (rw off at h) in
      subst (KeepsLine k) (some_eq q) (hide-KeepsLine k t)
]

pub puts-KeepsLine : (s : List ℕ) (k k' : Console) → puts s k ≡ some k' → KeepsLine k k'
unfolding puts
puts-KeepsLine [] k k' h =
    subst (KeepsLine k) (some_eq h) (record { num = refl; keys = refl; lines = refl })
puts-KeepsLine (c ∷ s) k k' h =
    let (k1, e, q) = >>=-eq-some {B = Console} (putc c k) (puts s) h in
    KeepsLine-trans (putc-KeepsLine c k k1 e) (puts-KeepsLine s k1 k' q)

-- The lines have no newlines inside.
abbrev pub NoNewlines : List (List ℕ) → Type 0
NoNewlines [] = Unit {0}
NoNewlines (line ∷ lines) = NoNewline line × NoNewlines lines

-- Descriptor 0 is the keyboard and descriptor 1 the screen of the current terminal, on which `lines` have
-- been typed, each with its newline, and counted.
pub record Awaits (m : Machine) (lines : List (List ℕ)) : Type 0 where
  pub desc : FileDesc
  pub at : descriptor m 0 ≡ some desc
  pub used : desc.flags ≢ 0
  pub ops : desc.fops ≡ some term
  pub terminal : HasTerminal m
  pub cursors : CursorsValid m.console
  pub behind : List ℕ
  pub keys : (current m.console).key_buf ≡ listing lines ++ behind
  pub size : length (current m.console).key_buf ≡ 128
  pub counted : (current m.console).buf_flag ≡ length lines
  pub few : length lines < 256
  pub single : NoNewlines lines

write_out :
    (m : Machine) (lines : List (List ℕ)) (s : List ℕ) (n : ℕ)
    → Awaits m lines
    → n ≤ length s
    → NoBackspace (take n s)
    → (k : Console) × (puts (take n s) m.console ≡ some k) × Awaits (shown_as m k) lines
write_out m lines s n a room b =
    let (k, e, v) = puts_total (take n s) m.console a.cursors b in
    let kept = puts-KeepsLine (take n s) m.console k e in
    (
      k,
      e,
      record {
        desc = a.desc;
        at = a.at;
        used = a.used;
        ops = a.ops;
        terminal = a.terminal;
        cursors = v;
        behind = a.behind;
        keys = kept.keys ∙ a.keys;
        size = ap length kept.keys ∙ a.size;
        counted = kept.lines ∙ a.counted;
        few = a.few;
        single = a.single;
      },
    )

-- The terminal behind a read of the first line.
abbrev rest_typed : Machine → List ℕ → List ℕ → Terminal
rest_typed m line rest = record (current m.console) {
  key_buf = rest ++ replicate (suc (length line)) 0;
  num_buf = minus (current m.console).num_buf (suc (length line));
  buf_flag = ((current m.console).buf_flag + 255) % 256;
}

read_first :
    (m : Machine) (line rest buf : List ℕ) (d : FileDesc)
    → descriptor m 0 ≡ some d
    → d.flags ≢ 0
    → d.fops ≡ some term
    → (current m.console).buf_flag ≢ 0
    → (current m.console).key_buf ≡ line ++ (10 ∷ rest)
    → length (current m.console).key_buf ≡ 128
    → NoNewline line
    → length buf ≡ 1024
    → (read m (pos 0) (some buf) (pos 1023) >>= finished)
      ≡ some (
        pos (suc (length line)),
        line ++ (10 ∷ drop (suc (length line)) buf),
        shown_as m (set_terminal m.console m.console.terminal_num (rest_typed m line rest)),
      )
unfolding read call_read read_with terminal_read
read_first m line rest buf d at used ops some_line keys size single len =
    let off : (d.flags == 0) ≡ false = ground (arith, used) in
    let typed : ((current m.console).buf_flag == 0) ≡ false = ground (arith, some_line) in
    let short : length line < 128 =
      omega (arith, size, ap length keys, length-append line (10 ∷ rest)) in
    let taken =
      take_line_lem (current m.console) line rest buf 1023 keys size single (omega (arith, short))
        (omega (arith, short, len)) in
    rw (at, off, ops, typed, taken) refl

read_on :
    (m : Machine) (line : List ℕ) (lines : List (List ℕ))
    → (a : Awaits m (line ∷ lines))
    → Awaits
        (shown_as m (
          set_terminal m.console m.console.terminal_num
            (rest_typed m line (listing lines ++ a.behind))))
        lines
read_on m line lines a =
    let self : (m.console.terminal_num == m.console.terminal_num) ≡ true = ground arith in
    let t = rest_typed m line (listing lines ++ a.behind) in
    let zeros = replicate (suc (length line)) 0 in
    let whole : listing (line ∷ lines) ++ a.behind ≡ line ++ (10 ∷ (listing lines ++ a.behind)) =
      split line (listing lines) a.behind in
    let size = ap length (a.keys ∙ whole) in
    record {
      desc = a.desc;
      at = a.at;
      used = a.used;
      ops = a.ops;
      terminal = a.terminal;
      cursors =
          set_terminal-CursorsValid m.console m.console.terminal_num t a.cursors
            (a.cursors m.console.terminal_num);
      behind = a.behind ++ zeros;
      keys = rw self (append_assoc (listing lines) a.behind zeros);
      size = rw self (
          omega (
            arith,
            a.size,
            size,
            length-append line (10 ∷ (listing lines ++ a.behind)),
            length-append (listing lines ++ a.behind) zeros,
            length-replicate {A = ℕ} (suc (length line)) 0,
          ));
      counted = rw self (omega (arith, a.counted, a.few));
      few = omega (arith, a.few);
      single = a.single.1;
    }
  where
    split : (line l b : List ℕ) → ((line ++ (10 ∷ [])) ++ l) ++ b ≡ line ++ (10 ∷ (l ++ b))
    split line l b = append_assoc (line ++ (10 ∷ [])) l b ∙ append_assoc line (10 ∷ []) (l ++ b)

-- `run` runs a child process from its start to its `halt`, and `Ran m cs` says that the commands `cs` have
-- been run. The shell's input and output do not touch that. A child comes back, and leaves the
-- descriptors and what has been typed to the shell.
module _ (run : Machine → List ℕ → Option (ℤ × Machine)) (call : Machine → ℤ → Option (ℤ × Machine))
    (user_table_at : ℕ) (Ran : Machine → List (List ℕ) → Type 0)
    (ran_shown : (m : Machine) (k : Console) (cs : List (List ℕ))
      → Ran m cs
      → Ran (shown_as m k) cs)
    (run_back : (m : Machine) (lines cs : List (List ℕ)) (command rest : List ℕ)
      → Awaits m lines
      → Ran m cs
      → NoNul command
      → (z : ℤ) × (m' : Machine) × (run m (command ++ (0 ∷ rest)) ≡ some (z, m'))
        × Awaits m' lines
        × Ran m' (cs ++ (command ∷ []))) where
  read_typed :
      (m : Machine) (line : List ℕ) (lines cs : List (List ℕ)) (buf : List ℕ)
      → Awaits m (line ∷ lines) × Ran m cs
      → length buf ≡ 1024
      → (m' : Machine) × ((kernel run call user_table_at).read m (pos 0) buf (pos 1023)
          ≡ some (pos (length line + 1), (line ++ (10 ∷ [])) ++ drop (length line + 1) buf, m'))
        × (Awaits m' lines × Ran m' cs)
  unfolding kernel
  read_typed m line lines cs buf (a, r) len =
      let rest = listing lines ++ a.behind in
      let whole : (current m.console).key_buf ≡ line ++ (10 ∷ rest) =
        a.keys
        ∙ append_assoc (line ++ (10 ∷ [])) (listing lines) a.behind
        ∙ append_assoc line (10 ∷ []) rest in
      let n : length line + 1 ≡ suc (length line) = omega arith in
      let joined : (line ++ (10 ∷ [])) ++ drop (suc (length line)) buf
          ≡ line ++ (10 ∷ drop (suc (length line)) buf) =
        append_assoc line (10 ∷ []) (drop (suc (length line)) buf) in
      let k1 = set_terminal m.console m.console.terminal_num (rest_typed m line rest) in
      (
        shown_as m k1,
        rw (n, joined)
            (read_first m line rest buf a.desc a.at a.used a.ops (λ q. omega (arith, q, a.counted))
              whole a.size a.single.0 len),
        (read_on m line lines a, ran_shown m k1 cs r),
      )

  write_typed :
      (m : Machine) (lines cs : List (List ℕ)) (s : List ℕ) (n : ℕ)
      → Awaits m lines × Ran m cs
      → n ≤ length s
      → NoBackspace (take n s)
      → (z : ℤ) × (m' : Machine) × ((kernel run call user_table_at).write m (pos 1) s (pos n)
          ≡ some (z, m'))
        × (Awaits m' lines × Ran m' cs)
  unfolding kernel
  write_typed m lines cs s n (a, r) room b =
      let (k, e, a1) = write_out m lines s n a room b in
      (pos n, shown_as m k, write-puts m s n a.terminal room ∙ rw e refl, (a1, ran_shown m k cs r))

  session : Session (kernel run call user_table_at)
  unfolding kernel
  session = record {
    At = λ m lines cs. Awaits m lines × Ran m cs;
    read_line = read_typed;
    output = write_typed;
    run = λ m lines cs command rest (a, r) z.
        let (v, m1, e, a1, r1) = run_back m lines cs command rest a r z in (v, m1, e, (a1, r1));
  }
