-- ===== src/User/Cat/Reading.antt =====
-- A file read at a descriptor and the bytes written to the terminal, on the system calls of
-- student-distrib/syscall.c, as the loop of syscalls/ece391cat.c asks for.
use virtual_operating_system.Prelude.{
  ℕ, zero, suc, ◌+◌, ◌-◌, ◌≤◌, ◌<◌, ℤ, pos, Option, some, List, [], ◌∷◌, ◌++◌, ◌≡◌, ◌≢◌, refl, ap,
  ◌∙◌, sym, take, drop, false, true, length, length-drop, length-set, min, ◌==◌, arith,
}
use virtual_operating_system.Console.Output.{Console, puts}
use virtual_operating_system.Console.Isolation.{CursorsValid}
use virtual_operating_system.Console.Total.{NoBackspace, puts_total, puts-append}
use virtual_operating_system.FileSystem.Contents.{Stores}
use virtual_operating_system.Machine.{Machine, FileDesc, file, current_pcb, pcb_address, set_fd}
use virtual_operating_system.Syscall.Files.{descriptor, descriptor-set_fd, read_file}
use virtual_operating_system.User.Cat.{cat_loop}
use virtual_operating_system.User.Cat.Prints.{Streams, cat_loop_lem}
use virtual_operating_system.User.Kernel.{kernel}
use virtual_operating_system.User.Kernel.Output.{HasTerminal, shown_as, write-puts}

NoBackspace-take : (n : ℕ) (s : List ℕ) → NoBackspace s → NoBackspace (take n s)
NoBackspace-take zero s h = tt
NoBackspace-take (suc n) [] h = tt
NoBackspace-take (suc n) (c ∷ s) h = (h.0, NoBackspace-take n s h.1)

NoBackspace-drop : (n : ℕ) (s : List ℕ) → NoBackspace s → NoBackspace (drop n s)
NoBackspace-drop zero s h = h
NoBackspace-drop (suc n) [] h = tt
NoBackspace-drop (suc n) (c ∷ s) h = NoBackspace-drop n s h.1

pub drop-drop : (i j : ℕ) (xs : List ℕ) → drop i (drop j xs) ≡ drop (j + i) xs
drop-drop i zero xs = let e : 0 + i ≡ i = omega arith in rw e refl
drop-drop i (suc j) [] = drop_nil i ∙ sym (drop_nil (suc j + i))
  where
    drop_nil : (n : ℕ) → drop {A = ℕ} n [] ≡ []
    drop_nil zero = refl
    drop_nil (suc n) = refl
drop-drop i (suc j) (x ∷ xs) =
    let e : suc j + i ≡ suc (j + i) = omega arith in rw e (drop-drop i j xs)

pub set_fd-length :
    (m : Machine) (j : ℕ) (d : FileDesc)
    → length (current_pcb (set_fd m j d)).file_desc_array ≡ length (current_pcb m).file_desc_array
set_fd-length m j d =
    let addr : (pcb_address m == pcb_address m) ≡ true = ground arith in
    rw addr (length-set (current_pcb m).file_desc_array j d)

module _ (run : Machine → List ℕ → Option (ℤ × Machine)) (call : Machine → ℤ → Option (ℤ × Machine))
    (user_table_at : ℕ) (k0 : Console) (j : ℕ) where
  -- Descriptor `j` is at `rest` of a file, and `out` has been shown since the console was `k0`.
  pub record Reads (m : Machine) (rest out : List ℕ) : Type 0 where
    pub size : length (current_pcb m).file_desc_array ≡ 8
    pub desc : FileDesc
    pub at : descriptor m j ≡ some desc
    pub used : desc.flags ≢ 0
    pub ops : desc.fops ≡ some file
    pub content : List ℕ
    pub held : Stores m.fs desc.inode content
    pub inside : desc.file_pos ≤ length content
    pub remains : drop desc.file_pos content ≡ rest
    pub terminal : HasTerminal m
    pub cursors : CursorsValid m.console
    pub shown : puts out k0 ≡ some m.console

  read_next :
      (m : Machine) (rest out buf : List ℕ)
      → 2 ≤ j
      → j < 8
      → Reads m rest out
      → length buf ≡ 1024
      → let n = min (length rest) 1024 in
        (m' : Machine) × ((kernel run call user_table_at).read m (pos j) buf (pos 1024)
          ≡ some (pos n, take n rest ++ drop n buf, m'))
        × Reads m' (drop n rest) out
  unfolding kernel
  read_next m rest out buf lo hi r len =
      let n = min (length rest) 1024 in
      let left : length r.content - r.desc.file_pos ≡ length rest =
        sym (length-drop r.desc.file_pos r.content) ∙ ap length r.remains in
      let d : FileDesc = record r.desc { file_pos = r.desc.file_pos + n } in
      let e =
        read_file m j 1024 r.desc buf r.content hi (omega arith) r.at r.used r.ops r.held r.inside
          (omega arith) in
      let now = λ (l : ℕ). descriptor-set_fd m j l d (omega (arith, r.size)) in
      let self : (j == j) ≡ true = ground arith in
      let other : (1 == j) ≡ false = ground (arith, lo) in
      let (t, at1, ops1) = r.terminal in
      (
        set_fd m j d,
        rw (rw (left, r.remains) at e) refl,
        record {
          size = set_fd-length m j d ∙ r.size;
          desc = d;
          at = now j ∙ rw self refl;
          used = r.used;
          ops = r.ops;
          content = r.content;
          held = r.held;
          inside = omega (arith, left, r.inside);
          remains = sym (drop-drop n r.desc.file_pos r.content) ∙ ap (drop n) r.remains;
          terminal = (t, now 1 ∙ rw other at1, ops1);
          cursors = r.cursors;
          shown = r.shown;
        },
      )

  write_out :
      (m : Machine) (rest out buf : List ℕ) (n : ℕ)
      → Reads m rest out
      → n ≤ length buf
      → NoBackspace (take n buf)
      → (m' : Machine) × ((kernel run call user_table_at).write m (pos 1) buf (pos n)
          ≡ some (pos n, m'))
        × Reads m' rest (out ++ take n buf)
  unfolding kernel
  write_out m rest out buf n r room fine =
      let (k, e, v) = puts_total (take n buf) m.console r.cursors fine in
      (
        shown_as m k,
        write-puts m buf n r.terminal room ∙ rw e refl,
        record {
          size = r.size;
          desc = r.desc;
          at = r.at;
          used = r.used;
          ops = r.ops;
          content = r.content;
          held = r.held;
          inside = r.inside;
          remains = r.remains;
          terminal = r.terminal;
          cursors = v;
          shown = puts-append out (take n buf) k0 m.console k r.shown e;
        },
      )

  abbrev reading : 2 ≤ j → j < 8 → Streams (kernel run call user_table_at) (pos j)
  reading lo hi = record {
    At = Reads;
    Fine = NoBackspace;
    fine_take = NoBackspace-take;
    fine_drop = NoBackspace-drop;
    read_next = λ m rest out buf r len. read_next m rest out buf lo hi r len;
    write_out = write_out;
  }

  -- The loop of `cat` shows the rest of the file.
  pub cat_loop-Reads :
      (f : ℕ) (m : Machine) (rest buf : List ℕ)
      → 2 ≤ j
      → j < 8
      → Reads m rest []
      → NoBackspace rest
      → length buf ≡ 1024
      → length rest < f
      → (m' : Machine) × (cat_loop (kernel run call user_table_at) f m (pos j) buf ≡ some (0, m'))
        × (puts rest k0 ≡ some m'.console)
  cat_loop-Reads f m rest buf lo hi r fine len fuel =
      let (m', looped, done) = cat_loop_lem (reading lo hi) f m rest [] buf r fine len fuel in
      (m', looped, done.shown)
