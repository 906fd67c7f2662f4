-- ===== src/User/Ls/Reading.antt =====
-- How the entries of a directory are read and written, for syscalls/ece391ls.c.
use virtual_operating_system.Prelude.{
  ℕ, zero, suc, ◌+◌, ◌≤◌, ◌<◌, ℤ, pos, Option, some, List, [], ◌∷◌, ◌++◌, map, ◌≡◌, ◌≢◌, refl, ◌∙◌,
  take, drop, false, length, length-append, length-take, ◌==◌, arith,
}
use virtual_operating_system.Console.Numbers.{take-append}
use virtual_operating_system.Console.Output.{Console, puts}
use virtual_operating_system.Console.Isolation.{CursorsValid}
use virtual_operating_system.Console.Total.{NoBackspace, puts_total, puts-append}
use virtual_operating_system.FileSystem.{FileSystem, Dentry, dir_count, dir_read}
use virtual_operating_system.FileSystem.Directory.{
  until_nul, entry_name, entry_at, entries_from, IsDirectory,
}
use virtual_operating_system.FileSystem.Listing.{dir_read-end, dir_read-entry_name}
use virtual_operating_system.Machine.{Machine, FileDesc, dir}
use virtual_operating_system.Syscall.{read, read_with}
use virtual_operating_system.Syscall.Files.{descriptor, good_read}
use virtual_operating_system.User.Kernel.{kernel}
use virtual_operating_system.User.Kernel.Output.{HasTerminal, shown_as, write-puts}
use virtual_operating_system.User.Ls.Prints.{Names}

-- A read of a directory at a descriptor other than 1 that is in use.
read-dir :
    (m : Machine) (fd n : ℕ) (d : FileDesc) (buf : List ℕ)
    → fd < 8
    → fd ≢ 1
    → descriptor m fd ≡ some d
    → d.flags ≢ 0
    → d.fops ≡ some dir
    → read m (pos fd) (some buf) (pos n) ≡ read_with dir m fd d buf n
unfolding read
read-dir m fd n d buf h1 h2 e used ops =
    let in_use : (d.flags == 0) ≡ false = ground (arith, used) in
    rw (good_read fd n buf h1 h2, e, in_use, ops) refl

-- Every name can be shown: it is not empty and has no backspaces.
abbrev pub CanBeListed : FileSystem → Type 0
CanBeListed fs =
    (i : ℕ)
    → i < dir_count fs
    → (0 < length (entry_name (entry_at fs i))) × NoBackspace (entry_name (entry_at fs i))

until_nul-short : (s : List ℕ) → length (until_nul s) ≤ length s
until_nul-short [] = omega arith
until_nul-short (c ∷ s) = ground (arith, until_nul-short s)

NoBackspace-snoc : (s : List ℕ) → NoBackspace s → NoBackspace (s ++ (10 ∷ []))
NoBackspace-snoc [] h = (ground arith, tt)
NoBackspace-snoc (c ∷ s) h = (h.0, NoBackspace-snoc s h.1)

abbrev pub names_of : List Dentry → List (List ℕ)
names_of = map entry_name

module _ (run : Machine → List ℕ → Option (ℤ × Machine)) (call : Machine → ℤ → Option (ℤ × Machine))
    (user_table_at : ℕ) (k0 : Console) (fs : FileSystem) (good : IsDirectory fs)
    (fine : CanBeListed fs) (j : ℕ) where
  -- Descriptor `j` is the directory, of which the entries from `next` on are left, and `out` has been
  -- shown since the console was `k0`.
  pub record Lists (m : Machine) (names : List (List ℕ)) (out : List ℕ) : Type 0 where
    pub desc : FileDesc
    pub at : descriptor m j ≡ some desc
    pub used : desc.flags ≢ 0
    pub ops : desc.fops ≡ some dir
    pub next : ℕ
    pub left : ℕ
    pub total : next + left ≡ dir_count fs
    pub image : m.fs ≡ record fs { dir_index = next }
    pub rest : names ≡ names_of (entries_from fs left next)
    pub terminal : HasTerminal m
    pub cursors : CursorsValid m.console
    pub shown : puts out k0 ≡ some m.console

  first_left :
      (m : Machine) (name : List ℕ) (names : List (List ℕ)) (out : List ℕ)
      → (l : Lists m (name ∷ names) out)
      → (n : ℕ) × (l.left ≡ suc n)
        × (name ≡ entry_name (entry_at fs l.next))
        × (names ≡ names_of (entries_from fs n (suc l.next)))
  first_left m name names out l = go l.left l.next l.rest
    where
      go :
          (r i : ℕ)
          → name ∷ names ≡ names_of (entries_from fs r i)
          → (n : ℕ) × (r ≡ suc n)
            × (name ≡ entry_name (entry_at fs i))
            × (names ≡ names_of (entries_from fs n (suc i)))
      go zero i e = absurd cc
      go (suc n) i e = (n, refl, cc, cc)

  pub fits :
      (m : Machine) (name : List ℕ) (names : List (List ℕ)) (out : List ℕ)
      → Lists m (name ∷ names) out
      → (0 < length name) × (length name ≤ 32) × NoBackspace (name ++ (10 ∷ []))
  fits m name names out l =
      let (n, e, here, _) = first_left m name names out l in
      let (some_bytes, shows) = fine l.next (omega (arith, l.total, e)) in
      let short = until_nul-short (take 32 (entry_at fs l.next)) in
      rw here (
        some_bytes,
        omega (arith, short, length-take 32 (entry_at fs l.next)),
        NoBackspace-snoc (entry_name (entry_at fs l.next)) shows,
      )

  pub read_end :
      (m : Machine) (out buf : List ℕ)
      → j < 8
      → j ≢ 1
      → Lists m [] out
      → length buf ≡ 33
      → (kernel run call user_table_at).read m (pos j) buf (pos 32) ≡ some (pos 0, buf, m)
  unfolding kernel read_with
  read_end m out buf hi ne l len =
      let none_left : l.left ≡ 0 = empty l.left l.next l.rest in
      let past : dir_read m.fs buf 32 ≡ some (pos 0, buf, m.fs) =
        rw l.image (dir_read-end fs l.next 32 buf (omega (arith, l.total, none_left))) in
      rw (read-dir m j 32 l.desc buf hi ne l.at l.used l.ops, past) refl
    where
      empty : (r i : ℕ) → ◌≡◌ {A = List (List ℕ)} [] (names_of (entries_from fs r i)) → r ≡ 0
      empty zero i e = refl
      empty (suc r) i e = absurd cc

  pub read_name :
      (m : Machine) (name : List ℕ) (names : List (List ℕ)) (out buf : List ℕ)
      → j < 8
      → j ≢ 1
      → Lists m (name ∷ names) out
      → length buf ≡ 33
      → (m' : Machine) × ((kernel run call user_table_at).read m (pos j) buf (pos 32)
          ≡ some (pos (length name), name ++ drop (length name) buf, m'))
        × Lists m' names out
  unfolding kernel read_with
  read_name m name names out buf hi ne l len =
      let (n, more, here, tail) = first_left m name names out l in
      let got =
        dir_read-entry_name fs l.next buf good (omega (arith, l.total, more))
          (omega (arith, len)) in
      let got1 : dir_read m.fs buf 32
          ≡ some (
            pos (length name),
            name ++ drop (length name) buf,
            record fs { dir_index = suc l.next },
          ) =
        rw (l.image, here) got in
      let m1 : Machine = record m { fs = record fs { dir_index = suc l.next } } in
      (
        m1,
        rw (read-dir m j 32 l.desc buf hi ne l.at l.used l.ops, got1) refl,
        record {
          desc = l.desc;
          at = l.at;
          used = l.used;
          ops = l.ops;
          next = suc l.next;
          left = n;
          total = omega (arith, l.total, more);
          image = refl;
          rest = tail;
          terminal = l.terminal;
          cursors = l.cursors;
          shown = l.shown;
        },
      )

  pub write_out :
      (m : Machine) (names : List (List ℕ)) (out s rest : List ℕ)
      → Lists m names out
      → NoBackspace s
      → (m' : Machine) × ((kernel run call user_table_at).write m
            (pos 1)
            (s ++ rest)
            (pos (length s))
          ≡ some (pos (length s), m'))
        × Lists m' names (out ++ s)
  unfolding kernel
  write_out m names out s rest l shows =
      let (k, e, v) = puts_total s m.console l.cursors shows in
      let room : length s ≤ length (s ++ rest) = omega (arith, length-append s rest) in
      (
        shown_as m k,
        write-puts m (s ++ rest) (length s) l.terminal room ∙ rw (take-append s rest, e) refl,
        record {
          desc = l.desc;
          at = l.at;
          used = l.used;
          ops = l.ops;
          next = l.next;
          left = l.left;
          total = l.total;
          image = l.image;
          rest = l.rest;
          terminal = l.terminal;
          cursors = v;
          shown = puts-append out s k0 m.console k l.shown e;
        },
      )

  abbrev pub listed : j < 8 → j ≢ 1 → Names (kernel run call user_table_at) (pos j)
  listed hi ne = record {
    At = Lists;
    Fine = NoBackspace;
    fits = fits;
    read_end = λ m out buf l len. read_end m out buf hi ne l len;
    read_name = λ m name names out buf l len. read_name m name names out buf hi ne l len;
    write_out = write_out;
  }
