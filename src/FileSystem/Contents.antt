-- ===== src/FileSystem/Contents.antt =====
-- `read_data` of student-distrib/filesystem.c against the contents of a file.
use mathlib.Core.List.{append_assoc}
use native.Mathlib.Nat.{mod-eq_of_lt, add-zero}
use virtual_operating_system.Prelude.{
  ℕ, zero, suc, ◌+◌, ◌-◌, ◌%◌, ◌≤◌, ◌<◌, pos, negsuc, some, List, [], ◌∷◌, ◌++◌, ◌≡◌, refl, take,
  drop, get_or, length, Bool-cases, leb, inl, inr, arith, min, true, false,
}
use virtual_operating_system.Strings.Laws.{write?-append, length-snoc}
use virtual_operating_system.FileSystem.{
  FileSystem, word, load32, inode_count, inode_address, data_byte, copy_from, read_data,
  copy_length,
}

-- The image holds the file `content` at `inode`: the length in the inode and the byte behind each
-- position, through the block table of the inode.
pub record Stores (fs : FileSystem) (inode : ℕ) (content : List ℕ) : Type 0 where
  pub known : inode < inode_count fs
  pub size : load32 fs (inode_address fs inode) ≡ length content
  pub small : length content < word
  pub bytes : (k : ℕ) → k < length content → data_byte fs inode k ≡ get_or content k 0

take-drop-suc :
    (r p : ℕ) (xs : List ℕ)
    → p < length xs
    → take (suc r) (drop p xs) ≡ get_or xs p 0 ∷ take r (drop (suc p) xs)
take-drop-suc r p [] h = absurd (omega arith)
take-drop-suc r zero (x ∷ xs) h = refl
take-drop-suc r (suc p) (x ∷ xs) h = take-drop-suc r p xs (omega arith)

module _ {fs : FileSystem} {inode : ℕ} {content : List ℕ} (held : Stores fs inode content) where
  copy_from_lem :
      (offset r : ℕ) (done todo : List ℕ)
      → offset + length done + r ≤ length content
      → r ≤ length todo
      → copy_from fs inode offset (done ++ todo) r (length done)
        ≡ some (done ++ (take r (drop (offset + length done) content) ++ drop r todo))
  unfolding copy_from
  copy_from_lem offset zero done todo h k = refl
  copy_from_lem offset (suc r) done [] h k = absurd (omega arith)
  copy_from_lem offset (suc r) done (x ∷ todo) h k =
      let p = offset + length done in
      let v = get_or content p 0 in
      let inside : p < length content = omega arith in
      let byte : data_byte fs inode (p % word) ≡ v =
        rw (mod-eq_of_lt {n = p} {m = word} (omega (arith, held.small))) (held.bytes p inside) in
      let next : offset + suc (length done) ≡ suc p = omega arith in
      let ih =
        copy_from_lem offset r (done ++ (v ∷ [])) todo (omega (arith, length-snoc done v))
          (omega arith) in
      rw (byte, write?-append done todo x v, take-drop-suc r p content inside)
        (rw (length-snoc, next, append_assoc, append_assoc) at ih)

  -- The same where the buffer has room for what the file still has, if not for what is asked for.
  pub read_data_fits :
      (offset len : ℕ) (buf : List ℕ)
      → offset < word
      → min (length content - offset) len ≤ length buf
      → let n = min (length content - offset) len in
        read_data fs inode offset buf len ≡ some (pos n, take n (drop offset content) ++ drop n buf)
  unfolding read_data
  read_data_fits offset len buf small room =
      let known : leb (inode_count fs) inode ≡ false = ground (arith, held.known) in
      elim (Bool-cases (leb (length content) offset)) [
        | inl over ↦
            let z : min (length content - offset) len ≡ 0 = ground arith in
            rw (known, held.size, over, z)
        | inr inside ↦
            let n = min (length content - offset) len in
            let size : copy_length (length content) offset len ≡ n = ground (arith, held.small) in
            let copied = copy_from_lem offset n [] buf (ground arith) (omega arith) in
            rw (known, held.size, inside, size, copied, add-zero)
      ]

  -- `read_data` copies the bytes of the file from `offset` on, as many as the file still has and
  -- the caller asks for, returns their number, and leaves the rest of the buffer alone. At or
  -- behind the end of the file that is nothing.
  pub read_data_lem :
      (offset len : ℕ) (buf : List ℕ)
      → offset < word
      → len ≤ length buf
      → let n = min (length content - offset) len in
        read_data fs inode offset buf len ≡ some (pos n, take n (drop offset content) ++ drop n buf)
  read_data_lem offset len buf small room = read_data_fits offset len buf small (omega arith)

-- An inode number that the image does not have is refused, and the buffer is left alone.
pub read_data_unknown :
    (fs : FileSystem) (inode offset len : ℕ) (buf : List ℕ)
    → inode_count fs ≤ inode
    → read_data fs inode offset buf len ≡ some (negsuc 0, buf)
unfolding read_data
read_data_unknown fs inode offset len buf h =
    let known : leb (inode_count fs) inode ≡ true = ground arith in rw known
