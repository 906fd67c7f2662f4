-- ===== src/Paging/Identity.antt =====
-- Which addresses the tables of student-distrib/page.c map, and where to.
use virtual_operating_system.Prelude.{
  ℕ, zero, suc, ◌+◌, ◌*◌, ◌/◌, ◌%◌, ◌^◌, ◌≤◌, ◌<◌, true, false, Option, none, some, ◌≡◌, inl, inr,
  refl, ltb, leb, ◌==◌, ==_iff, Bool-cases, if◌then◌else◌, ◌-◌, ◌>>=◌, ◌&&◌, ◌||◌, arith,
}
use virtual_operating_system.Console.Output.{update}
use virtual_operating_system.Paging.{Tables, with_flags, fill, page_init, rw_enable}

-- The entry that the processor reads at the physical address `at`. `PageTable` is at `table_at`; what
-- memory holds elsewhere is not known.
abbrev pub entry_at : ℕ → Tables → ℕ → Option ℕ
entry_at table_at t at =
    if leb table_at at && ltb at (table_at + 2 ^ 12)
    then some (t.table ((at - table_at) / 4))
    else none

-- The address that an entry of a page table leads to.
abbrev pub in_page : ℕ → ℕ → Option ℕ
in_page a e = if e % 2 == 0 then none else some (e / 2 ^ 12 * 2 ^ 12 + a % 2 ^ 12)

-- The translation of a 32-bit address by the processor: the entry of the directory has a page of 4 MB,
-- or the address of the page table.
abbrev pub translate : ℕ → Tables → ℕ → Option ℕ
translate table_at t a =
    let d = t.directory (a / 2 ^ 22) in
    if d % 2 == 0
    then none
    else if d / 2 ^ 7 % 2 == 1
    then some (d / 2 ^ 22 * 2 ^ 22 + a % 2 ^ 22)
    else (entry_at table_at t (d / 2 ^ 12 * 2 ^ 12 + a / 2 ^ 12 % 2 ^ 10 * 4) >>= in_page a)

fill-past :
    (r i : ℕ) (t : Tables) (j : ℕ)
    → j < i
    → ((fill r i t).directory j ≡ t.directory j) × ((fill r i t).table j ≡ t.table j)
unfolding fill
fill-past zero i t j h = (refl, refl)
fill-past (suc r) i t j h =
    let off : (j == i) ≡ false = ground arith in
    let ih =
      fill-past r (suc i)
        (record {
          directory = update t.directory i rw_enable;
          table = update t.table i (with_flags (i * 2 ^ 12) rw_enable);
        })
        j (omega arith) in
    (rw off at ih)

fill_lem :
    (r i : ℕ) (t : Tables) (j : ℕ)
    → i ≤ j
    → j < i + r
    → ((fill r i t).directory j ≡ rw_enable)
      × ((fill r i t).table j ≡ with_flags (j * 2 ^ 12) rw_enable)
unfolding fill
fill_lem zero i t j lo hi = absurd (omega arith)
fill_lem (suc r) i t j lo hi =
    let next : Tables = record {
      directory = update t.directory i rw_enable;
      table = update t.table i (with_flags (i * 2 ^ 12) rw_enable);
    } in
    elim (Bool-cases (j == i)) [
      | inl same ↦
          let e : j ≡ i = (==_iff j i).0 same in
          let self : (i == i) ≡ true = ground arith in
          rw e (rw self at (fill-past r (suc i) next i (omega arith)))
      | inr off ↦ fill_lem r (suc i) next j (ground arith) (omega arith)
    ]

plain_entry : (b : ℕ) → b % 2 ^ 12 ≡ 0 → with_flags b rw_enable ≡ b + 2
plain_entry b h = rw h (omega (arith, h))

table_entry : (b : ℕ) → b % 2 ^ 12 ≡ 0 → with_flags b 3 ≡ b + 3
table_entry b h = rw h (omega (arith, h))

module _ (table_at : ℕ) (t : Tables) (aligned : table_at % 2 ^ 12 ≡ 0) where
  directory_lem :
      (j : ℕ)
      → j < 1024
      → (page_init table_at t).directory j
        ≡ (if j == 1 then 0x400083 else if j == 0 then table_at + 3 else 2)
  unfolding page_init
  directory_lem j h =
      rw (table_entry table_at aligned, (fill_lem 1024 0 t j (omega arith) (omega arith)).0) refl

  table_lem :
      (j : ℕ)
      → j < 1024
      → (page_init table_at t).table j ≡ (if j == 0xB8 then 0xB8003 else j * 2 ^ 12 + 2)
  unfolding page_init
  table_lem j h =
      rw
        (
          (fill_lem 1024 0 t 0xB8 (omega arith) (omega arith)).1,
          (fill_lem 1024 0 t j (omega arith) (omega arith)).1,
          plain_entry (j * 2 ^ 12) (omega arith),
        )
        refl

  -- The entry of the directory leads to the page table.
  entry_at_lem :
      (j : ℕ)
      → j < 1024
      → entry_at table_at (page_init table_at t) ((table_at + 3) / 2 ^ 12 * 2 ^ 12 + j * 4)
        ≡ some (if j == 0xB8 then 0xB8003 else j * 2 ^ 12 + 2)
  entry_at_lem j h =
      let at : (table_at + 3) / 2 ^ 12 * 2 ^ 12 + j * 4 ≡ table_at + j * 4 =
        omega (arith, aligned) in
      let inside : (leb table_at (table_at + j * 4) && ltb (table_at + j * 4) (table_at + 2 ^ 12))
          ≡ true =
        ground (arith, h) in
      let index : (table_at + j * 4 - table_at) / 4 ≡ j = omega arith in
      rw (at, inside, index, table_lem j h) refl

  -- With the page table at a multiple of 4096, after `page_init` the page of the display memory and the 4 MB of the kernel are mapped, each
  -- address to itself, and no other address of the 32-bit space is. The processor finds the page table
  -- where the directory says that it is.
  pub page_init_identity :
      (a : ℕ)
      → a < 2 ^ 32
      → translate table_at (page_init table_at t) a ≡ (
          if leb 0x400000 a && ltb a 0x800000 || leb 0xB8000 a && ltb a 0xB9000
          then some a
          else none)
  page_init_identity a h = elim (Bool-cases (a / 2 ^ 22 == 0)) [
    | inl low ↦
        let d0 : a / 2 ^ 22 ≡ 0 = (==_iff (a / 2 ^ 22) 0).0 low in
        let present : ((table_at + 3) % 2 == 0) ≡ false = ground (arith, aligned) in
        let small : ((table_at + 3) / 2 ^ 7 % 2 == 1) ≡ false = ground (arith, aligned) in
        rw
          (
            directory_lem (a / 2 ^ 22) (omega arith),
            d0,
            present,
            small,
            entry_at_lem (a / 2 ^ 12 % 2 ^ 10) (omega arith),
          )
          (ground (arith, d0))
    | inr high ↦ rw (directory_lem (a / 2 ^ 22) (omega arith), high) (ground (arith, high))
  ]
