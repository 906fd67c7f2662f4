-- ===== src/KernelTests/Pages.antt =====
-- The tests of pages in student-distrib/tests.c on the tables of student-distrib/page.c, and the test of
-- the terminal.
use virtual_operating_system.Prelude.{
  ℕ, zero, suc, ◌+◌, ◌*◌, ◌%◌, ◌^◌, ◌≤◌, ◌<◌, true, false, none, some, ◌≡◌, refl, inl, inr, ltb,
  leb, Bool, ◌⊎◌, ◌∙◌, Bool-cases, ◌&&◌, ◌||◌, arith,
}
use virtual_operating_system.Paging.{Tables, page_init}
use virtual_operating_system.Paging.Identity.{translate, page_init_identity}
use virtual_operating_system.KernelTests.{
  pass, read_int, read_pages, paging_video_test, paging_kernel_test, page_fault_test,
}

abbrev is_mapped : ℕ → Bool
is_mapped a = leb 0x400000 a && ltb a 0x800000 || leb 0xB8000 a && ltb a 0xB9000

module _ (table_at : ℕ) (t : Tables) (aligned : table_at % 2 ^ 12 ≡ 0) where
  abbrev pub pages : Tables
  pages = page_init table_at t

  mapped : (a : ℕ) → a < 2 ^ 32 → is_mapped a ≡ true → translate table_at pages a ≡ some a
  mapped a h m = page_init_identity table_at t aligned a h ∙ rw m refl

  unmapped : (a : ℕ) → a < 2 ^ 32 → is_mapped a ≡ false → translate table_at pages a ≡ none
  unmapped a h m = page_init_identity table_at t aligned a h ∙ rw m refl

  -- An `int` inside the mapped memory.
  abbrev Inside : ℕ → Type 0
  Inside c = ((0x400000 ≤ c) × (c + 3 < 0x800000)) ⊎ ((0xB8000 ≤ c) × (c + 3 < 0xB9000))

  read_int_lem : (c : ℕ) → Inside c → read_int table_at pages c ≡ some (c + 3)
  unfolding read_int
  read_int_lem c h =
      let e0 = mapped c (ground (arith, h)) (ground (arith, h)) in
      let e1 = mapped (c + 1) (ground (arith, h)) (ground (arith, h)) in
      let e2 = mapped (c + 2) (ground (arith, h)) (ground (arith, h)) in
      let e3 = mapped (c + 3) (ground (arith, h)) (ground (arith, h)) in rw (e0, e1, e2, e3) refl

  -- The loop ends with `PASS`, if all that it reads is inside.
  read_pages_lem :
      (f c end : ℕ)
      → ((d : ℕ) → c ≤ d → d < end → d % 16 ≡ c % 16 → Inside d)
      → c < end + 16
      → end + 16 ≤ c + 16 * f
      → read_pages f table_at pages c end ≡ some pass
  unfolding read_pages
  read_pages_lem zero c end inside near fuel = absurd (omega arith)
  read_pages_lem (suc f) c end inside near fuel = elim (Bool-cases (ltb c end)) [
    | inl more ↦
        let here = read_int_lem c (inside c (omega arith) (ground (arith, more)) refl) in
        rw (more, here)
          (read_pages_lem f (c + 16) end (λ d lo hi m. inside d (omega arith) hi (omega (arith, m)))
            (ground (arith, more)) (omega arith))
    | inr done ↦ rw done refl
  ]

  -- After `page_init`, with the page table at a multiple of 4096, the tests of the display memory and of
  -- the kernel's memory pass: every `int` that they read is mapped. The test of the page fault
  -- does not come back, since the last three of its four bytes are behind the 4 MB of the kernel.
  pub paging_video_test-page_init :
      (paging_video_test table_at pages ≡ some pass)
      × (paging_kernel_test table_at pages ≡ some pass)
      × (page_fault_test table_at pages ≡ none)
  unfolding paging_video_test paging_kernel_test page_fault_test read_int
  paging_video_test-page_init = (
    read_pages_lem 257 0xB8000 0xB9000 (λ d lo hi m. inr (lo, omega (arith, m))) (omega arith)
        (omega arith),
    read_pages_lem 0x40001 0x400000 0x800000 (λ d lo hi m. inl (lo, omega (arith, m))) (omega arith)
        (omega arith),
    rw (mapped 0x7FFFFF (omega arith) refl, unmapped 0x800000 (omega arith) refl) refl,
  )
