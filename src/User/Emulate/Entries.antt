-- ===== src/User/Emulate/Entries.antt =====
-- `ece391_read` of syscalls/ece391emulate.c on the directory.
use mathlib.Core.List.{append_assoc}
use virtual_operating_system.Prelude.{
  ℕ, zero, suc, ◌+◌, ◌≤◌, ◌<◌, ℤ, pos, false, true, some, List, [], ◌∷◌, ◌++◌, ◌≡◌, inl, inr, refl,
  drop, replicate, length, min, ltb, ◌==◌, ◌&&◌, Bool-cases, arith,
}
use virtual_operating_system.Strings.Laws.{NoNul, padded, write?-append, length-snoc}
use virtual_operating_system.User.Emulate.{
  Host, Emulator, pad_entry, copy_entry, dir_at, read_entry, read_from, emulated_read,
}

pad_entry_lem :
    (m r : ℕ) (a d : List ℕ) (n : ℕ)
    → length a + m ≡ min n 32
    → m ≤ r
    → m ≤ length d
    → pad_entry r (a ++ d) n (length a) ≡ some (min n 32, a ++ (replicate m 0 ++ drop m d))
unfolding pad_entry
pad_entry_lem zero zero a d n h k l = let e : length a ≡ min n 32 = omega arith in rw e refl
pad_entry_lem zero (suc r) a d n h k l =
    let e : length a ≡ min n 32 = omega arith in
    let full : (ltb (min n 32) n && ltb (min n 32) 32) ≡ false = ground arith in rw (e, full) refl
pad_entry_lem (suc m) zero a d n h k l = absurd (omega arith)
pad_entry_lem (suc m) (suc r) a [] n h k l = absurd (omega arith)
pad_entry_lem (suc m) (suc r) a (x ∷ d) n h k l =
    let more : (ltb (length a) n && ltb (length a) 32) ≡ true = ground (arith, h) in
    let ih =
      pad_entry_lem m r (a ++ (0 ∷ [])) d n (omega (arith, length-snoc a 0)) (omega arith)
        (omega arith) in
    rw (more, write?-append a d x 0) (rw (length-snoc, append_assoc, append_assoc) at ih)

copy_entry_lem :
    (s rest a d : List ℕ) (m n : ℕ)
    → NoNul s
    → length a + suc m ≡ min n 32
    → suc m ≤ length d
    → copy_entry (s ++ (0 ∷ rest)) (a ++ d) n (length a)
      ≡ some (min n 32, a ++ (padded (suc m) s ++ drop (suc m) d))
unfolding copy_entry
copy_entry_lem [] rest a d m n z h l = pad_entry_lem (suc m) 32 a d n h (omega arith) l
copy_entry_lem (c ∷ s) rest a [] m n z h l = absurd (omega arith)
copy_entry_lem (c ∷ s) rest a (x ∷ d) zero n z h l =
    let nul : (c == 0) ≡ false = ground (arith, z.0) in
    elim (Bool-cases (suc (length a) == n)) [
      | inl end ↦
          let all : n ≡ min n 32 = ground (arith, h, end) in
          rw (nul, write?-append a d x c, end, ← all) refl
      | inr more ↦
          let last : (suc (length a) == 32) ≡ true = ground (arith, h, more) in
          let all : 32 ≡ min n 32 = ground (arith, h, more) in
          rw (nul, write?-append a d x c, more, last, ← all) refl
    ]
copy_entry_lem (c ∷ s) rest a (x ∷ d) (suc m) n z h l =
    let nul : (c == 0) ≡ false = ground (arith, z.0) in
    let below : (suc (length a) == n) ≡ false = ground (arith, h) in
    let short : (suc (length a) == 32) ≡ false = ground (arith, h) in
    let ih =
      copy_entry_lem s rest (a ++ (c ∷ [])) d m n z.1 (omega (arith, h, length-snoc a c))
        (omega arith) in
    rw (nul, write?-append a d x c, below, short)
      (rw (length-snoc, append_assoc, append_assoc) at ih)

-- A read of at least one byte at the descriptor of the directory gets the next name, cut off or filled
-- up with NULs to 32 bytes, or to the size that is asked for if that is less, and returns that
-- many. The name has no NULs before its end, and the buffer has room for what is returned.
pub emulated_read_lem :
    {S D : Type 0} (linux : Host S D) (st : Emulator S D) (fd : ℤ) (d : D) (name rest buf : List ℕ)
    (next : S) (n : ℕ)
    → dir_at linux st fd ≡ some d
    → linux.readdir st.host d ≡ (some (name ++ (0 ∷ rest)), next)
    → NoNul name
    → 0 < n
    → min n 32 ≤ length buf
    → let k = min n 32 in
      emulated_read linux st fd buf (pos n)
      ≡ some (pos k, padded k name ++ drop k buf, record st { host = next })
unfolding emulated_read read_from read_entry
emulated_read_lem linux st fd d name rest buf next n at named z some_bytes room =
    let (m, e) = one_less (min n 32) (omega (arith, some_bytes)) in
    let copied =
      copy_entry_lem name rest [] buf m n z (omega (arith, e)) (omega (arith, e, room)) in
    rw (at, named, copied, e) refl
  where
    one_less : (k : ℕ) → 0 < k → (m : ℕ) × (k ≡ suc m)
    one_less zero h = absurd (omega arith)
    one_less (suc m) h = (m, refl)
