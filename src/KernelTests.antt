-- ===== src/KernelTests.antt =====
-- student-distrib/tests.c: the tests of the display memory, the pages and the terminal.
pub mod Pages
use virtual_operating_system.Prelude.{
  ℕ, zero, suc, ◌+◌, ◌*◌, ◌/◌, ◌%◌, ℤ, pos, Bool, Option, none, some, List, [], ◌∷◌, ◌++◌, ltb,
  if◌then◌else◌, ◌>>=◌,
}
use virtual_operating_system.Console.Output.{Console, clear}
use virtual_operating_system.Paging.{Tables}
use virtual_operating_system.Paging.Identity.{translate}
use virtual_operating_system.Terminal.{terminal_write}

-- `PASS` and `FAIL`.
abbrev pub pass : ℕ
pass = 1

abbrev pub fail : ℕ
fail = 0

-- `b = *(c)`: the four bytes of an `int` are in mapped memory, or the read faults. `PageTable` is at `p`.
unfoldable pub read_int : ℕ → Tables → ℕ → Option ℕ
read_int p t c = translate p t c >>= λ a0.
    translate p t (c + 1) >>= λ a1. translate p t (c + 2) >>= λ a2. translate p t (c + 3)

-- `for (c = (int*)start; c < (int*)end; c += PG_STEP) b = *(c);`, on fuel. The pointer moves on by four
-- ints.
unfoldable pub read_pages : ℕ → ℕ → Tables → ℕ → ℕ → Option ℕ
unfolding read_int
read_pages zero p t c end = none
read_pages (suc f) p t c end =
    let more = read_int p t c >>= λ b. read_pages f p t (c + 4 * 4) end in
    if ltb c end then more else some pass

unfoldable pub paging_video_test : ℕ → Tables → Option ℕ
paging_video_test p t = read_pages 257 p t 0xB8000 0xB9000

unfoldable pub paging_kernel_test : ℕ → Tables → Option ℕ
paging_kernel_test p t = read_pages 0x40001 p t 0x400000 0x800000

unfoldable pub page_fault_test : ℕ → Tables → Option ℕ
unfolding read_int
page_fault_test p t = read_int p t 0x7FFFFF >>= λ b. some fail

-- The rows of `test_buf`: the number of the row, and `"hello world!!!\n"`.
abbrev pub test_row : ℕ → List ℕ
test_row i =
    (48 + i / 10)
    ∷ (48 + i % 10)
    ∷ 104
    ∷ 101
    ∷ 108
    ∷ 108
    ∷ 111
    ∷ 32
    ∷ 119
    ∷ 111
    ∷ 114
    ∷ 108
    ∷ 100
    ∷ 33
    ∷ 33
    ∷ 33
    ∷ 10
    ∷ []

abbrev pub test_rows : ℕ → ℕ → List ℕ
test_rows zero i = []
test_rows (suc r) i = test_row i ++ test_rows r (suc i)

abbrev pub test_buf : List ℕ
test_buf = test_rows 31 0

-- The `if` in front of `return PASS` is empty, so that the comparison decides nothing.
unfoldable pub terminal_write_test : Console → Option (ℕ × Console)
terminal_write_test k = terminal_write (clear k) test_buf (17 * 31) >>= λ r. some (pass, r.1)
