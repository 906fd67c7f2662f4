-- ===== src/Paging.antt =====
-- student-distrib/page.c: the page tables before the first program runs, and `vidmap` of
-- student-distrib/syscall.c. The loads of the control registers are not modelled.
pub mod Identity
use Prim.Native.Nat.{bit_or}
use virtual_operating_system.Prelude.{
  ℕ, zero, suc, ◌+◌, ◌-◌, ◌*◌, ◌/◌, ◌%◌, ◌^◌, ℤ, pos, negsuc, Option, none, some, ltb, ◌||◌, ◌==◌,
  if◌then◌else◌,
}
use virtual_operating_system.Console.Output.{update}
use virtual_operating_system.Machine.{Machine, four_mb}

-- `base | flags` for flags below 2^12, which meet the low 12 bits of `base` only.
abbrev pub with_flags : ℕ → ℕ → ℕ
with_flags base flags = base / 2 ^ 12 * 2 ^ 12 + bit_or (base % 2 ^ 12) flags

abbrev pub num_entries : ℕ
num_entries = 1024

abbrev pub rw_enable : ℕ
rw_enable = 0x02

abbrev pub present : ℕ
present = 0x01

abbrev pub user_enable : ℕ
user_enable = 0x04

abbrev pub video_mem : ℕ
video_mem = 0xB8000

-- `PageDirectory` and `PageTable`.
pub record Tables : Type 0 where
  pub directory : ℕ → ℕ
  pub table : ℕ → ℕ

-- The loop with `r` rounds left, from the entry `i`.
unfoldable pub fill : ℕ → ℕ → Tables → Tables
fill zero i t = t
fill (suc r) i t = fill r (suc i) (record {
  directory = update t.directory i rw_enable;
  table = update t.table i (with_flags (i * 2 ^ 12) rw_enable);
})

-- `page_init`, where the linker has put `PageTable` at `table_at`.
unfoldable pub page_init : ℕ → Tables → Tables
unfolding fill
page_init table_at t =
    let f = fill num_entries 0 t in
    let rw_present = bit_or rw_enable present in
    record {
      directory =
          update (update f.directory 0 (with_flags table_at rw_present)) 1
            (with_flags (with_flags 0x400000 0x80) rw_present);
      table =
          update f.table (video_mem / 2 ^ 12)
            (with_flags (f.table (video_mem / 2 ^ 12)) rw_present);
    }

abbrev pub mb_132 : ℕ
mb_132 = 0x8400000

-- `vidmap` on the pointer `screen_start`, with `UserPageTable` at `user_table_at`. The third result
-- is what is stored at the pointer.
unfoldable pub vidmap : ℕ → Machine → ℕ → ℤ × Machine × Option ℕ
vidmap user_table_at m screen_start =
    if screen_start == 0 || ltb mb_132 screen_start || ltb screen_start (mb_132 - four_mb)
    then (negsuc 0, m, none)
    else (
      pos mb_132,
      record m {
        page_directory =
            update m.page_directory (mb_132 / four_mb)
              (with_flags (with_flags user_table_at (bit_or rw_enable present)) user_enable);
        user_page_table =
            update m.user_page_table 0
              (with_flags (with_flags video_mem (bit_or rw_enable present)) user_enable);
      },
      some mb_132,
    )
