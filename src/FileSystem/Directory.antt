-- ===== src/FileSystem/Directory.antt =====
-- The look-up of a name in student-distrib/filesystem.c against a search by names.
use virtual_operating_system.Prelude.{
  ℕ, zero, suc, ◌+◌, ◌*◌, ◌≤◌, ◌<◌, ℤ, pos, negsuc, Bool, true, false, Option, none, some, List, [],
  ◌∷◌, ◌++◌, ◌≡◌, ◌⊎◌, refl, ap, take, length, Bool-cases, ltb, leb, ◌==◌, inl, inr, arith,
  if◌then◌else◌, ◌&&◌, ◌||◌,
}
use virtual_operating_system.Strings.{strlen, strncmp, diff8}
use virtual_operating_system.Strings.Laws.{NoNul, Bytes, strlen-append}
use virtual_operating_system.FileSystem.{
  FileSystem, Dentry, dir_count, load_bytes, names, search_from, read_dentry_by_index,
  read_dentry_by_name, is_zero,
}

-- The bytes in front of the first NUL.
abbrev pub until_nul : List ℕ → List ℕ
until_nul [] = []
until_nul (c ∷ s) = if c == 0 then [] else c ∷ until_nul s

-- The name of an entry: at most 32 bytes, with no NUL needed after 32.
abbrev pub entry_name : Dentry → List ℕ
entry_name d = until_nul (take 32 d)

abbrev pub same : List ℕ → List ℕ → Bool
same [] [] = true
same [] (y ∷ ys) = false
same (x ∷ xs) [] = false
same (x ∷ xs) (y ∷ ys) = x == y && same xs ys

-- The first entry of that name.
abbrev pub find_entry : List ℕ → List Dentry → Option Dentry
find_entry name [] = none
find_entry name (d ∷ ds) = if same name (entry_name d) then some d else find_entry name ds

-- The `n` entries of the image from the index `i` on.
abbrev pub entries_from : FileSystem → ℕ → ℕ → List Dentry
entries_from fs zero i = []
entries_from fs (suc n) i =
    load_bytes fs (fs.filesystem_start + 64 + i * 64) 64 ∷ entries_from fs n (suc i)

abbrev pub entries : FileSystem → List Dentry
entries fs = entries_from fs (dir_count fs) 0

-- An entry of 64 bytes whose type or reserved bytes stop the `strlen` of its name.
abbrev pub HasNul : List ℕ → Type 0
HasNul [] = ⊥
HasNul (c ∷ s) = (c ≡ 0) ⊎ HasNul s

pub strlen_total : (s : List ℕ) → HasNul s → (n : ℕ) × (strlen s ≡ some n)
unfolding strlen
strlen_total [] h = elim h [ ]
strlen_total (c ∷ s) h = elim (Bool-cases (c == 0)) [
  | inl e ↦ (0, rw e)
  | inr ne ↦
      let more : HasNul s = elim h [ inl z ↦ absurd (ground arith) | inr m ↦ m ] in
      let (n, e) = strlen_total s more in (suc n, rw (ne, e))
]

-- What the two calls on an entry return, and the test made of them.
abbrev Tested : List ℕ → List ℕ → List ℕ → ℕ → Type 0
Tested name rest cur width =
    (m : ℕ) × (z : ℤ) × (strlen cur ≡ some m)
    × (strncmp (name ++ (0 ∷ rest)) cur (length name) ≡ some z)
    × ((is_zero z && (length name == m || length name == width))
        ≡ same name (until_nul (take width cur)))

longer : (m width : ℕ) → (0 == suc m || 0 == suc width) ≡ false
longer m width = ground arith

test_step :
    (z : ℤ) (m n width : ℕ) {b : Bool}
    → (is_zero z && (n == m || n == width)) ≡ b
    → (is_zero z && (suc n == suc m || suc n == suc width)) ≡ b
test_step z m n width h = ground arith

Tested-empty :
    (width : ℕ) (rest cur : List ℕ) → HasNul cur → width ≤ length cur → Tested [] rest cur width
unfolding strncmp strlen
Tested-empty width rest [] h k = elim h [ ]
Tested-empty zero rest (c ∷ cur) h k =
    let (m, e) = strlen_total (c ∷ cur) h in (m, pos 0, e, refl, ground arith)
Tested-empty (suc width) rest (c ∷ cur) h k = elim (Bool-cases (c == 0)) [
  | inl e ↦ (0, pos 0, rw e, refl, rw e)
  | inr ne ↦
      let more : HasNul cur = elim h [ inl z ↦ absurd (ground arith) | inr m ↦ m ] in
      let (m, e) = strlen_total cur more in (suc m, pos 0, rw (ne, e), refl, rw ne (longer m width))
]

diff8-ne : (a b : ℕ) → a < 256 → b < 256 → (a == b) ≡ false → is_zero (diff8 a b) ≡ false
diff8-ne a b ha hb ne = ground arith

Tested_lem :
    (width : ℕ) (name rest cur : List ℕ)
    → NoNul name
    → Bytes name
    → Bytes cur
    → HasNul cur
    → length name ≤ width
    → width ≤ length cur
    → Tested name rest cur width
unfolding strncmp strlen
Tested_lem width [] rest cur z bn bc h l k = Tested-empty width rest cur h k
Tested_lem zero (x ∷ name) rest cur z bn bc h l k = absurd (omega arith)
Tested_lem (suc width) (x ∷ name) rest [] z bn bc h l k = elim h [ ]
Tested_lem (suc width) (x ∷ name) rest (c ∷ cur) z bn bc h l k = elim (Bool-cases (x == c)) [
  | inl e ↦
      let nx : (x == 0) ≡ false = ground (arith, z.0) in
      let nc : (c == 0) ≡ false = ground (arith, z.0) in
      let more : HasNul cur = elim h [ inl q ↦ absurd (ground arith) | inr q ↦ q ] in
      let (m, v, p, q, t) =
        Tested_lem width name rest cur z.1 bn.1 bc.1 more (omega arith) (omega arith) in
      (suc m, v, rw (nc, p), rw (e, nx, q), rw (nc, e) (test_step v m (length name) width t))
  | inr ne ↦
      let (m, p) = strlen_total (c ∷ cur) h in
      (m, diff8 x c, p, rw ne, rw (diff8-ne x c bn.0 bc.0 ne) (ground arith))
]

pub length-load_bytes : (fs : FileSystem) (a n : ℕ) → length (load_bytes fs a n) ≡ n
unfolding load_bytes
length-load_bytes fs a zero = refl
length-load_bytes fs a (suc n) = ap suc (length-load_bytes fs (a + 1) n)

abbrev pub entry_at : FileSystem → ℕ → Dentry
entry_at fs i = load_bytes fs (fs.filesystem_start + 64 + i * 64) 64

-- The entries of the image are bytes, and none lets the `strlen` of its name run past its end.
pub record IsDirectory (fs : FileSystem) : Type 0 where
  pub stops : (i : ℕ) → i < dir_count fs → HasNul (entry_at fs i)
  pub bytes : (i : ℕ) → i < dir_count fs → Bytes (entry_at fs i)

names_lem :
    (name rest cur : List ℕ)
    → NoNul name
    → Bytes name
    → Bytes cur
    → HasNul cur
    → length name ≤ 32
    → 32 ≤ length cur
    → names (name ++ (0 ∷ rest)) (length name) cur ≡ some (same name (entry_name cur))
unfolding names
names_lem name rest cur z bn bc h l k =
    let (m, v, p, q, t) = Tested_lem 32 name rest cur z bn bc h l k in rw (p, q, t)

-- The status and the dentry that the search leaves behind the pointer.
abbrev pub found : Dentry → Option Dentry → ℤ × Dentry
found old none = (negsuc 0, old)
found old (some d) = (pos 0, d)

module _ {fs : FileSystem} (dir : IsDirectory fs) (name rest : List ℕ) (z : NoNul name)
    (b : Bytes name) (short : length name ≤ 32) where
  search_from_lem :
      (r i : ℕ) (old : Dentry)
      → i + r ≤ dir_count fs
      → search_from fs (name ++ (0 ∷ rest)) (length name) r i old
        ≡ some (found old (find_entry name (entries_from fs r i)))
  unfolding search_from read_dentry_by_index
  search_from_lem zero i old h = refl
  search_from_lem (suc r) i old h =
      let known : leb (dir_count fs) i ≡ false = ground arith in
      let test =
        names_lem name rest (entry_at fs i) z b (dir.bytes i (omega arith))
          (dir.stops i (omega arith)) short
          (omega (arith, length-load_bytes fs (fs.filesystem_start + 64 + i * 64) 64)) in
      elim (Bool-cases (same name (entry_name (entry_at fs i)))) [
        | inl e ↦ rw (known, test, e)
        | inr ne ↦ rw (known, test, ne) (search_from_lem r (suc i) old (omega arith))
      ]

  -- In a directory whose entries are bytes and have a NUL, for a name of 1 to 32 bytes,
  -- `read_dentry_by_name` finds the first entry of the directory with exactly that name, copies it
  -- out and returns 0; without such an entry it returns -1 and leaves the dentry alone. This takes
  -- in names of the full 32 bytes, which are stored without a NUL.
  pub read_dentry_by_name_lem :
      (old : Dentry)
      → 0 < length name
      → read_dentry_by_name fs (name ++ (0 ∷ rest)) (some old)
        ≡ (let r = found old (find_entry name (entries fs)) in some (r.0, some r.1))
  unfolding read_dentry_by_name
  read_dentry_by_name_lem old some_name =
      let guard : (leb (length name) 0 || ltb 32 (length name)) ≡ false = ground arith in
      rw (strlen-append name rest z, guard, search_from_lem (dir_count fs) 0 old (omega arith))

-- The empty name and names of more than 32 bytes are refused, whatever the directory holds.
read_dentry_by_name_refused :
    (fs : FileSystem) (name rest : List ℕ) (old : Dentry)
    → NoNul name
    → (length name ≡ 0) ⊎ (32 < length name)
    → read_dentry_by_name fs (name ++ (0 ∷ rest)) (some old) ≡ some (negsuc 0, some old)
unfolding read_dentry_by_name
read_dentry_by_name_refused fs name rest old z h =
    let guard : (leb (length name) 0 || ltb 32 (length name)) ≡ true = ground arith in
    rw (strlen-append name rest z, guard)
