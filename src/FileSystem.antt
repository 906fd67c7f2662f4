-- ===== src/FileSystem.antt =====
-- student-distrib/filesystem.c: the read-only file system image in memory. The memory is a function
-- from 32-bit addresses to bytes; buffers and names are the bytes of the object pointed into.
pub mod Contents
pub mod Directory
pub mod Listing
use virtual_operating_system.Prelude.{
  ℕ, zero, suc, ◌+◌, ◌-◌, ◌*◌, ◌/◌, ◌%◌, ◌^◌, ℤ, pos, negsuc, Bool, true, false, Option, none, some,
  List, [], ◌∷◌, take, drop, replicate, get_or, ltb, leb, ◌==◌, if◌then◌else◌, ◌>>=◌, ◌&&◌, ◌||◌,
}
use virtual_operating_system.Strings.{strlen, strncmp, strncpy, write?}

abbrev pub word : ℕ
word = 2 ^ 32

abbrev pub block_size : ℕ
block_size = 4096

abbrev pub filename_len : ℕ
filename_len = 32

-- `dir_index` is an `int` that only grows while it is below the 32-bit `dir_count`.
pub record FileSystem : Type 0 where
  pub mem : ℕ → ℕ
  pub filesystem_start : ℕ
  pub dir_index : ℕ

-- The byte at an address, which wraps.
abbrev pub load8 : FileSystem → ℕ → ℕ
load8 fs a = fs.mem (a % word)

-- A little-endian `uint32_t`.
unfoldable pub load32 : FileSystem → ℕ → ℕ
load32 fs a =
    load8 fs a + load8 fs (a + 1) * 2 ^ 8 + load8 fs (a + 2) * 2 ^ 16 + load8 fs (a + 3) * 2 ^ 24

unfoldable pub load_bytes : FileSystem → ℕ → ℕ → List ℕ
load_bytes fs a zero = []
load_bytes fs a (suc n) = load8 fs a ∷ load_bytes fs (a + 1) n

abbrev pub dir_count : FileSystem → ℕ
dir_count fs = load32 fs fs.filesystem_start

abbrev pub inode_count : FileSystem → ℕ
inode_count fs = load32 fs (fs.filesystem_start + 4)

-- The 64 bytes of a `dentry_t`: the name, the type, the inode and 24 reserved bytes.
abbrev pub Dentry : Type 0
Dentry = List ℕ

abbrev pub little_endian : List ℕ → ℕ
little_endian b =
    get_or b 0 0 + get_or b 1 0 * 2 ^ 8 + get_or b 2 0 * 2 ^ 16 + get_or b 3 0 * 2 ^ 24

abbrev pub file_type : Dentry → ℕ
file_type d = little_endian (drop 32 d)

abbrev pub inode_num : Dentry → ℕ
inode_num d = little_endian (drop 36 d)

-- A local `dentry_t` before anything is copied into it.
abbrev pub blank_dentry : Dentry
blank_dentry = replicate 64 0

unfoldable pub filesystem_init : FileSystem → ℕ → FileSystem
filesystem_init fs address = record fs { filesystem_start = address; dir_index = 0 }

-- The result and the dentry behind the pointer.
unfoldable pub read_dentry_by_index : FileSystem → ℕ → Dentry → ℤ × Dentry
read_dentry_by_index fs index dentry =
    if leb (dir_count fs) index
    then (negsuc 0, dentry)
    else (pos 0, load_bytes fs (fs.filesystem_start + 64 + index * 64) 64)

abbrev pub is_zero : ℤ → Bool
is_zero (pos n) = n == 0
is_zero (negsuc n) = false

-- The loop body's test on the entry `cur`.
unfoldable pub names : List ℕ → ℕ → Dentry → Option Bool
names fname fname_length cur = strlen cur >>= λ cur_length.
    strncmp fname cur fname_length >>= λ order.
    some (is_zero order && (fname_length == cur_length || fname_length == filename_len))

-- The loop with `r` entries left, from the index `i`.
unfoldable pub search_from : FileSystem → List ℕ → ℕ → ℕ → ℕ → Dentry → Option (ℤ × Dentry)
unfolding read_dentry_by_index
search_from fs fname fname_length zero i dentry = some (negsuc 0, dentry)
search_from fs fname fname_length (suc r) i dentry =
    let cur = (read_dentry_by_index fs i blank_dentry).1 in
    let rest = search_from fs fname fname_length r (suc i) dentry in
    names fname fname_length cur >>= λ hit. if hit then some (pos 0, cur) else rest

-- The pointer `dentry` may be NULL, `none`.
unfoldable pub read_dentry_by_name :
    FileSystem → List ℕ → Option Dentry → Option (ℤ × Option Dentry)
unfolding search_from
read_dentry_by_name fs fname none = strlen fname >>= λ n. some (negsuc 0, none)
read_dentry_by_name fs fname (some dentry) = strlen fname >>= λ n.
    if leb n 0 || ltb filename_len n
    then some (negsuc 0, some dentry)
    else (search_from fs fname n (dir_count fs) 0 dentry >>= λ r. some (r.0, some r.1))

-- `inode_start + inode * BLOCK_SIZE_IN_BYTES`.
abbrev pub inode_address : FileSystem → ℕ → ℕ
inode_address fs inode = (fs.filesystem_start + block_size + inode * block_size) % word

abbrev pub data_start : FileSystem → ℕ
data_start fs = (fs.filesystem_start + block_size + inode_count fs * block_size) % word

-- The byte of the file at the `uint32_t` position `p`.
unfoldable pub data_byte : FileSystem → ℕ → ℕ → ℕ
data_byte fs inode p =
    let block = load32 fs (inode_address fs inode + 4 + p / block_size * 4) in
    load8 fs (data_start fs + block * block_size + p % block_size)

-- The copying loop with `r` rounds left.
unfoldable pub copy_from : FileSystem → ℕ → ℕ → List ℕ → ℕ → ℕ → Option (List ℕ)
unfolding write?
copy_from fs inode offset buf zero i = some buf
copy_from fs inode offset buf (suc r) i =
    write? buf i (data_byte fs inode ((offset + i) % word)) >>= λ b.
    copy_from fs inode offset b r (suc i)

-- `MIN((cur_length - offset), length)` on `uint32_t`.
abbrev pub copy_length : ℕ → ℕ → ℕ → ℕ
copy_length cur_length offset length =
    let left = (cur_length + word - offset) % word in if ltb left length then left else length

unfoldable pub read_data : FileSystem → ℕ → ℕ → List ℕ → ℕ → Option (ℤ × List ℕ)
unfolding copy_from
read_data fs inode offset buf length =
    let cur_length = load32 fs (inode_address fs inode) in
    let n = copy_length cur_length offset length in
    if leb (inode_count fs) inode
    then some (negsuc 0, buf)
    else if leb cur_length offset
    then some (pos 0, buf)
    else (copy_from fs inode offset buf n 0 >>= λ b. some (pos n, b))

abbrev pub min_length : ℕ → ℕ → ℕ
min_length x y = if ltb x y then x else y

-- `dir_read`. The name is copied out of the whole dentry, whose `file_name` may lack a NUL.
unfoldable pub dir_read : FileSystem → List ℕ → ℕ → Option (ℤ × List ℕ × FileSystem)
unfolding read_dentry_by_index
dir_read fs buf nbytes =
    if leb (dir_count fs) fs.dir_index
    then some (pos 0, buf, fs)
    else let (status, cur) = read_dentry_by_index fs fs.dir_index blank_dentry in
      if is_zero status
      then (strlen cur >>= λ n.
          let len = min_length (min_length n filename_len) nbytes in
          strncpy buf cur len >>= λ b.
          some (pos len, b, record fs { dir_index = fs.dir_index + 1 }))
      else some (negsuc 0, buf, fs)

unfoldable pub dir_open : FileSystem → ℤ × FileSystem
dir_open fs = (pos 0, record fs { dir_index = 0 })

-- `dir_write` and `file_write` fail, `dir_close`, `file_open` and `file_close` succeed: none has an
-- effect.
unfoldable pub dir_write : ℤ
dir_write = negsuc 0

unfoldable pub file_write : ℤ
file_write = negsuc 0

unfoldable pub dir_close : ℤ
dir_close = pos 0

unfoldable pub file_open : ℤ
file_open = pos 0

unfoldable pub file_close : ℤ
file_close = pos 0
