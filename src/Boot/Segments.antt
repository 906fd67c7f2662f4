-- ===== src/Boot/Segments.antt =====
-- The descriptors of the LDT and the TSS that `entry` of student-distrib/kernel.c puts into the GDT, with
-- the macros of student-distrib/x86_desc.h.
use virtual_operating_system.Prelude.{ℕ, ◌+◌, ◌*◌, ◌/◌, ◌%◌, ◌^◌, ◌<◌, ◌≡◌, arith}

-- `seg_desc_t`.
pub record SegDesc : Type 0 where
  pub seg_lim_15_00 : ℕ
  pub base_15_00 : ℕ
  pub base_23_16 : ℕ
  pub type : ℕ
  pub sys : ℕ
  pub dpl : ℕ
  pub present : ℕ
  pub seg_lim_19_16 : ℕ
  pub avail : ℕ
  pub reserved : ℕ
  pub opsize : ℕ
  pub granularity : ℕ
  pub base_31_24 : ℕ

-- The fields of the `tss_t` that the kernel writes. `esp0` is part of the machine.
pub record Tss : Type 0 where
  pub ldt_segment_selector : ℕ
  pub ss0 : ℕ

-- Where student-distrib/x86_desc.S puts the two tables, and the sizes that it gives.
pub record Symbols : Type 0 where
  pub ldt : ℕ
  pub ldt_size : ℕ
  pub tss : ℕ
  pub tss_size : ℕ

abbrev pub kernel_ds : ℕ
kernel_ds = 0x18

abbrev pub kernel_ldt : ℕ
kernel_ldt = 0x38

-- `TSS_SIZE`.
abbrev pub tss_bytes : ℕ
tss_bytes = 104

-- `SET_LDT_PARAMS` and `SET_TSS_PARAMS`, which are the same.
unfoldable pub set_params : SegDesc → ℕ → ℕ → SegDesc
set_params str addr lim = record str {
  base_31_24 = addr / 2 ^ 24 % 2 ^ 8;
  base_23_16 = addr / 2 ^ 16 % 2 ^ 8;
  base_15_00 = addr % 2 ^ 16;
  seg_lim_19_16 = lim / 2 ^ 16 % 2 ^ 4;
  seg_lim_15_00 = lim % 2 ^ 16;
}

-- `the_ldt_desc`. What the macro is to write is still indeterminate, and 0 here.
unfoldable pub the_ldt_desc : Symbols → SegDesc
unfolding set_params
the_ldt_desc s =
    set_params
      (record {
        seg_lim_15_00 = 0;
        base_15_00 = 0;
        base_23_16 = 0;
        type = 0x2;
        sys = 0x0;
        dpl = 0x0;
        present = 0x1;
        seg_lim_19_16 = 0;
        avail = 0x0;
        reserved = 0x0;
        opsize = 0x1;
        granularity = 0x0;
        base_31_24 = 0;
      })
      s.ldt s.ldt_size

-- `the_tss_desc`.
unfoldable pub the_tss_desc : Symbols → SegDesc
unfolding set_params
the_tss_desc s =
    set_params
      (record {
        seg_lim_15_00 = tss_bytes % 2 ^ 16;
        base_15_00 = 0;
        base_23_16 = 0;
        type = 0x9;
        sys = 0x0;
        dpl = 0x0;
        present = 0x1;
        seg_lim_19_16 = 0;
        avail = 0x0;
        reserved = 0x0;
        opsize = 0x0;
        granularity = 0x0;
        base_31_24 = 0;
      })
      s.tss s.tss_size

-- `tss` after the block that sets it.
unfoldable pub set_tss : Tss → Tss
set_tss t = record t { ldt_segment_selector = kernel_ldt; ss0 = kernel_ds }

-- The eight bytes of a descriptor as one number, by the layout of `seg_desc_t`.
abbrev pub packed : SegDesc → ℕ
packed d =
    d.seg_lim_15_00
    + d.base_15_00 * 2 ^ 16
    + d.base_23_16 * 2 ^ 32
    + d.type * 2 ^ 40
    + d.sys * 2 ^ 44
    + d.dpl * 2 ^ 45
    + d.present * 2 ^ 47
    + d.seg_lim_19_16 * 2 ^ 48
    + d.avail * 2 ^ 52
    + d.reserved * 2 ^ 53
    + d.opsize * 2 ^ 54
    + d.granularity * 2 ^ 55
    + d.base_31_24 * 2 ^ 56

-- How the processor reads them: the base, the limit and the access byte.
abbrev pub base_of : ℕ → ℕ
base_of v = v / 2 ^ 16 % 2 ^ 24 + v / 2 ^ 56 % 2 ^ 8 * 2 ^ 24

abbrev pub limit_of : ℕ → ℕ
limit_of v = v % 2 ^ 16 + v / 2 ^ 48 % 2 ^ 4 * 2 ^ 16

abbrev pub access_of : ℕ → ℕ
access_of v = v / 2 ^ 40 % 2 ^ 8

-- What a descriptor means.
pub record Describes (d : SegDesc) (addr lim access : ℕ) : Type 0 where
  pub base : base_of (packed d) ≡ addr
  pub limit : limit_of (packed d) ≡ lim
  pub rights : access_of (packed d) ≡ access

-- The GDT entries that are set at the start lead the processor to the LDT and to the TSS: for 32-bit
-- addresses and sizes below 2^20, the base and the limit that it puts together from the eight
-- bytes are the ones that were set. Both are present, at level 0, and of the type of an LDT and of
-- an available 32-bit TSS.
pub the_ldt_desc-the_tss_desc :
    (s : Symbols)
    → s.ldt < 2 ^ 32
    → s.ldt_size < 2 ^ 20
    → s.tss < 2 ^ 32
    → s.tss_size < 2 ^ 20
    → Describes (the_ldt_desc s) s.ldt s.ldt_size 0x82
      × Describes (the_tss_desc s) s.tss s.tss_size 0x89
unfolding the_ldt_desc the_tss_desc set_params
the_ldt_desc-the_tss_desc s a b c d = (
  record { base = omega arith; limit = omega arith; rights = omega arith },
  record { base = omega arith; limit = omega arith; rights = omega arith },
)
