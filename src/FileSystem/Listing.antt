-- ===== src/FileSystem/Listing.antt =====
-- What `dir_read` of student-distrib/filesystem.c returns for the entries one after the other.
use virtual_operating_system.Prelude.{
  ℕ, zero, suc, ◌+◌, ◌*◌, ◌%◌, ◌≤◌, ◌<◌, pos, some, List, [], ◌∷◌, ◌++◌, ◌≡◌, inl, inr, refl, ap,
  take, drop, length, min, leb, ◌==◌, Bool-cases, false, true, some_eq, >>=-eq-some, arith,
}
use virtual_operating_system.Strings.{strlen}
use virtual_operating_system.Strings.Laws.{Readable, padded, strncpy_lem}
use virtual_operating_system.FileSystem.{
  FileSystem, dir_count, load_bytes, read_dentry_by_index, min_length, dir_read, load32,
}
use virtual_operating_system.FileSystem.Directory.{
  until_nul, entry_name, entry_at, HasNul, IsDirectory, strlen_total, length-load_bytes,
}

until_nul-take :
    (cur : List ℕ) (k w : ℕ)
    → strlen cur ≡ some k
    → w ≤ length cur
    → length (until_nul (take w cur)) ≡ min k w
unfolding strlen
until_nul-take [] k w h l = ground arith
until_nul-take (c ∷ cur) k zero h l = omega arith
until_nul-take (c ∷ cur) k (suc w) h l = elim (Bool-cases (c == 0)) [
  | inl e ↦ let q : 0 ≡ k = some_eq (rw e at h) in rw e (omega (arith, q))
  | inr ne ↦
      let (k1, e, q) = >>=-eq-some {B = ℕ} (strlen cur) (λ n. some (suc n)) (rw ne at h) in
      let p : suc k1 ≡ k = some_eq q in
      rw ne (omega (arith, until_nul-take cur k1 w e (omega arith)))
]

-- A copy that stops in front of the first NUL.
padded-until_nul :
    (cur : List ℕ) (w : ℕ) → padded (length (until_nul (take w cur))) cur ≡ until_nul (take w cur)
padded-until_nul [] zero = refl
padded-until_nul [] (suc w) = refl
padded-until_nul (c ∷ cur) zero = refl
padded-until_nul (c ∷ cur) (suc w) = elim (Bool-cases (c == 0)) [
  | inl e ↦ rw e refl
  | inr ne ↦ rw (ne, ne) (ap (◌∷◌ c) (padded-until_nul cur w))
]

Readable-HasNul : (cur : List ℕ) (n : ℕ) → HasNul cur → Readable n cur
Readable-HasNul [] n h = elim h [ ]
Readable-HasNul (c ∷ cur) zero h = tt
Readable-HasNul (c ∷ cur) (suc n) h = elim h [
  | inl z ↦ inl z
  | inr more ↦ inr (Readable-HasNul cur n more)
]

-- The image is the same wherever the directory is read.
load_bytes-dir_index :
    (fs : FileSystem) (i a n : ℕ) → load_bytes (record fs { dir_index = i }) a n ≡ load_bytes fs a n
unfolding load_bytes
load_bytes-dir_index fs i a zero = refl
load_bytes-dir_index fs i a (suc n) =
    ap (◌∷◌ (fs.mem (a % 4294967296))) (load_bytes-dir_index fs i (a + 1) n)

pub dir_count-dir_index :
    (fs : FileSystem) (i : ℕ) → dir_count (record fs { dir_index = i }) ≡ dir_count fs
unfolding load32
dir_count-dir_index fs i = refl

-- With every entry read, a read of the directory returns 0.
pub dir_read-end :
    (fs : FileSystem) (i n : ℕ) (buf : List ℕ)
    → dir_count fs ≤ i
    → let at = record fs { dir_index = i } in dir_read at buf n ≡ some (pos 0, buf, at)
unfolding dir_read
dir_read-end fs i n buf h =
    let past : leb (dir_count fs) i ≡ true = ground arith in rw (dir_count-dir_index fs i, past)

-- With entries left, a read of 32 bytes returns the name of the next one, without a NUL behind it.
pub dir_read-entry_name :
    (fs : FileSystem) (i : ℕ) (buf : List ℕ)
    → IsDirectory fs
    → i < dir_count fs
    → 32 ≤ length buf
    → let name = entry_name (entry_at fs i) in
      dir_read (record fs { dir_index = i }) buf 32
      ≡ some (pos (length name), name ++ drop (length name) buf, record fs { dir_index = suc i })
unfolding dir_read read_dentry_by_index
dir_read-entry_name fs i buf dir left room =
    let cur = entry_at fs i in
    let name = entry_name cur in
    let known : leb (dir_count fs) i ≡ false = ground arith in
    let (k, e) = strlen_total cur (dir.stops i left) in
    let size : length cur ≡ 64 = length-load_bytes fs (fs.filesystem_start + 64 + i * 64) 64 in
    let n = until_nul-take cur k 32 e (omega arith) in
    let len : min_length (min_length k 32) 32 ≡ length name = ground (arith, n) in
    let after : i + 1 ≡ suc i = omega arith in
    let copied =
      strncpy_lem buf cur (length name) (Readable-HasNul cur (length name) (dir.stops i left))
        (omega (arith, n)) in
    rw
      (
        dir_count-dir_index fs i,
        known,
        load_bytes-dir_index fs i (fs.filesystem_start + 64 + i * 64) 64,
        e,
        len,
        copied,
        padded-until_nul cur 32,
        after,
      )
      refl
