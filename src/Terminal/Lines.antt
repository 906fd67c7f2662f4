-- ===== src/Terminal/Lines.antt =====
-- `terminal_read` of student-distrib/terminal.c takes the first typed line.
use mathlib.Core.List.{append_assoc}
use native.Mathlib.Nat.{zero-add}
use virtual_operating_system.Prelude.{
  ℕ, zero, suc, ◌+◌, ◌-◌, ◌%◌, ◌≤◌, ◌<◌, Option, some, List, [], ◌∷◌, ◌++◌, ◌≡◌, ◌≢◌, refl, ltb,
  leb, ◌==◌, get_elem?, get_or, set, drop, replicate, length, length-set, length-append,
  length-replicate, get_elem?-eq-get_or, if◌then◌else◌, lt→ltb, le→ltb, ◌&&◌, arith, false,
}
use virtual_operating_system.Prelude.Pointwise.{
  get_or-set, get_or-append, get_or-replicate, get_or-past, list_ext,
}
use virtual_operating_system.Strings.{write?}
use virtual_operating_system.Strings.Laws.{write?-append, length-snoc}
use virtual_operating_system.Terminal.{read_line, shift_keys, clear_keys, take_line, minus}
use virtual_operating_system.Console.Output.{Terminal}

write?-set : (xs : List ℕ) (i v : ℕ) → i < length xs → write? xs i v ≡ some (set xs i v)
unfolding write?
write?-set xs i v h = rw (lt→ltb i (length xs) h)

-- The lists that the loop over the keys may end in: of the old length, with these entries.
abbrev Ends : Option (List ℕ) → ℕ → (ℕ → ℕ) → Type 0
Ends o n entry =
    (ks : List ℕ) × (o ≡ some ks) × (length ks ≡ n) × ((k : ℕ) → get_or ks k 0 ≡ entry k)

shift_keys_lem :
    (keys : List ℕ) (m r j : ℕ)
    → j + r + m ≤ length keys
    → Ends
        (shift_keys keys m r j)
        (length keys)
        (λ k. if leb j k && ltb k (j + r) then get_or keys (k + m) 0 else get_or keys k 0)
unfolding shift_keys
shift_keys_lem keys m zero j h = (keys, refl, refl, λ k. ground arith)
shift_keys_lem keys m (suc r) j h =
    let v = get_or keys (j + m) 0 in
    let next = set keys j v in
    let (ks, e, l, p) = shift_keys_lem next m r (suc j) (omega (arith, length-set keys j v)) in
    (
      ks,
      rw (get_elem?-eq-get_or keys (j + m) 0 (omega arith), write?-set keys j v (omega arith)) e,
      omega (arith, l, length-set keys j v),
      λ k. ground (arith, p k, get_or-set keys j k v 0, get_or-set keys j (k + m) v 0),
    )

clear_keys_lem :
    (keys : List ℕ) (r j : ℕ)
    → length keys ≡ 128
    → 0 < j
    → j + r ≤ 129
    → Ends
        (clear_keys keys r j)
        128
        (λ k. if leb (129 - j - r) k && ltb k (129 - j) then 0 else get_or keys k 0)
unfolding clear_keys
clear_keys_lem keys zero j l h b = (keys, refl, l, λ k. ground arith)
clear_keys_lem keys (suc r) j l h b =
    let (ks, e, l', p) =
      clear_keys_lem (set keys (128 - j) 0) r (suc j) (omega (arith, length-set keys (128 - j) 0))
        (omega arith) (omega arith) in
    (
      ks,
      rw (le→ltb 128 j (omega arith), write?-set keys (128 - j) 0 (omega arith)) e,
      l',
      λ k. ground (arith, p k, get_or-set keys (128 - j) k 0 0),
    )

abbrev pub NoNewline : List ℕ → Type 0
NoNewline [] = Unit {0}
NoNewline (c ∷ s) = (c ≢ 10) × NoNewline s

pub get_elem?-append : (p q : List ℕ) (x : ℕ) → get_elem? (p ++ (x ∷ q)) (length p) ≡ some x
get_elem?-append [] q x = refl
get_elem?-append (y ∷ p) q x = get_elem?-append p q x

read_line_lem :
    (line rest p b d : List ℕ) (r : ℕ)
    → NoNewline line
    → length line < r
    → length line < length d
    → length p ≡ length b
    → read_line (p ++ (line ++ (10 ∷ rest))) (b ++ d) r (length b)
      ≡ some (b ++ (line ++ (10 ∷ drop (suc (length line)) d)), length b + suc (length line))
unfolding read_line
read_line_lem line rest p b d zero z h k e = absurd (omega arith)
read_line_lem line rest p b [] (suc r) z h k e = absurd (omega arith)
read_line_lem [] rest p b (x ∷ d) (suc r) z h k e =
    let got : get_elem? (p ++ (10 ∷ rest)) (length b) ≡ some 10 =
      rw (← e) (get_elem?-append p rest 10) in
    let one : length b + 1 ≡ suc (length b) = omega arith in rw (got, write?-append b d x 10, one)
read_line_lem (c ∷ line) rest p b (x ∷ d) (suc r) z h k e =
    let q = line ++ (10 ∷ rest) in
    let got : get_elem? (p ++ (c ∷ q)) (length b) ≡ some c = rw (← e) (get_elem?-append p q c) in
    let off : (c == 10) ≡ false = ground (arith, z.0) in
    let count : length b + suc (suc (length line)) ≡ suc (length b) + suc (length line) =
      omega arith in
    let ih =
      read_line_lem line rest (p ++ (c ∷ [])) (b ++ (c ∷ [])) d r z.1 (omega arith) (omega arith)
        (omega (arith, length-snoc p c, length-snoc b c)) in
    rw (got, write?-append b d x c, off, count)
      (rw (length-snoc, append_assoc, append_assoc, append_assoc) at ih)

read_first :
    (line rest buf : List ℕ) (nbytes : ℕ)
    → NoNewline line
    → length line < nbytes
    → length line < length buf
    → read_line (line ++ (10 ∷ rest)) buf nbytes 0
      ≡ some (line ++ (10 ∷ drop (suc (length line)) buf), suc (length line))
read_first line rest buf nbytes z h k =
    rw zero-add at (read_line_lem line rest [] [] buf nbytes z h k refl)

get_or_behind :
    (line rest : List ℕ) (k : ℕ)
    → get_or (line ++ (10 ∷ rest)) (k + suc (length line)) 0 ≡ get_or rest k 0
get_or_behind [] rest k = let e : k + 1 ≡ suc k = omega arith in rw e
get_or_behind (c ∷ line) rest k =
    let e : k + suc (suc (length line)) ≡ suc (k + suc (length line)) = omega arith in
    rw e (get_or_behind line rest k)

entry_moved :
    (line rest : List ℕ) (k a b : ℕ)
    → length line + suc (length rest) ≡ 128
    → a ≡ (if leb (129 - 1 - suc (length line)) k && ltb k (129 - 1) then 0 else b)
    → b ≡ (
        if leb 0 k && ltb k (0 + (128 - suc (length line)))
        then get_or (line ++ (10 ∷ rest)) (k + suc (length line)) 0
        else get_or (line ++ (10 ∷ rest)) k 0)
    → a ≡ get_or (rest ++ replicate (suc (length line)) 0) k 0
entry_moved line rest k a b len p q = ground (
  arith,
  get_or-append rest (replicate (suc (length line)) 0) k 0,
  get_or-replicate {A = ℕ} (suc (length line)) (k - length rest) 0,
  get_or_behind line rest k,
  get_or-past rest k 0,
  get_or-past (line ++ (10 ∷ rest)) k 0,
  length-append line (10 ∷ rest),
)

-- The bytes behind the line move to the front, and as many NULs as bytes were read follow.
remove_line :
    (line rest : List ℕ)
    → length (line ++ (10 ∷ rest)) ≡ 128
    → let m = suc (length line) in
      (shifted : List ℕ) × (shift_keys (line ++ (10 ∷ rest)) m (128 - m) 0 ≡ some shifted)
      × (clear_keys shifted m 1 ≡ some (rest ++ replicate m 0))
remove_line line rest l =
    let m : ℕ = suc (length line) in
    let keys : List ℕ = line ++ (10 ∷ rest) in
    let len : length line + suc (length rest) ≡ 128 =
      omega (arith, length-append line (10 ∷ rest)) in
    let (shifted, se, sl, sp) = shift_keys_lem keys m (128 - m) 0 (omega arith) in
    let (cleared, ce, cl, cp) =
      clear_keys_lem shifted m 1 (omega arith) (omega arith) (omega arith) in
    let same : cleared ≡ rest ++ replicate m 0 =
      list_ext cleared (rest ++ replicate m 0) 0
        (omega (arith, length-append rest (replicate m 0), length-replicate {A = ℕ} m 0))
        (λ k.
          entry_moved line rest k (get_or cleared k 0) (get_or shifted k 0) len (cp k) (sp k)) in
    (shifted, se, rw (← same) ce)

-- A terminal whose keyboard buffer has 128 bytes and starts with a typed line, which with its newline
-- is no longer than the caller's count and buffer, gives up that line: the caller's buffer
-- starts with the line and its newline, their number is returned, and what was typed behind the
-- line is now at the front of the keyboard buffer, with NULs behind it.
pub take_line_lem :
    (t : Terminal) (line rest buf : List ℕ) (nbytes : ℕ)
    → t.key_buf ≡ line ++ (10 ∷ rest)
    → length t.key_buf ≡ 128
    → NoNewline line
    → length line < nbytes
    → length line < length buf
    → let m = suc (length line) in
      take_line t buf nbytes
      ≡ some (
        m,
        line ++ (10 ∷ drop m buf),
        record t {
          key_buf = rest ++ replicate m 0;
          num_buf = minus t.num_buf m;
          buf_flag = (t.buf_flag + 255) % 256;
        },
      )
unfolding take_line
take_line_lem t line rest buf nbytes e l z h k =
    let m = suc (length line) in
    let (shifted, s, c) = remove_line line rest (rw (← e) l) in
    rw (e, read_first line rest buf nbytes z h k, s, c)
