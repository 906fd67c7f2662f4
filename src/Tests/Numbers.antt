-- ===== src/Tests/Numbers.antt =====
-- Numbers, printed texts and the start of the kernel, on small concrete states.
use virtual_operating_system.Prelude.{
  ℕ, suc, none, some, List, [], ◌∷◌, ◌++◌, ◌≡◌, arith, true, false, replicate, length, drop, ◌>>=◌,
  if◌then◌else◌,
}
use virtual_operating_system.Console.Output.{puts}
use virtual_operating_system.Console.Printf.{word, convert}
use virtual_operating_system.Console.Numbers.{ShowsSigned, ShowsAligned, convert_number}
use virtual_operating_system.Strings.Numbers.{itoa}
use virtual_operating_system.Strings.Numbers.Numerals.{Shows, itoa_lem}
use virtual_operating_system.Pic.Masks.{line}
use virtual_operating_system.Idt.{Gate}
use virtual_operating_system.Boot.{Kernel, init_devices}
use virtual_operating_system.Boot.Segments.{
  SegDesc, Symbols, Describes, the_ldt_desc, the_tss_desc, the_ldt_desc-the_tss_desc,
}
use virtual_operating_system.Boot.Lines.{is_used, line-init_devices}
use virtual_operating_system.Tests.{sample_machine, sample_console, sample_pic}

itoa_lem_example :
    (s : List ℕ) × (itoa 255 (replicate 40 7) 16
      ≡ some (s ++ (0 ∷ drop (suc (length s)) (replicate 40 7))))
    × Shows 16 255 s
itoa_lem_example =
    itoa_lem 255 16 (replicate 40 7) (omega arith) (omega arith) (omega arith) (omega arith)

convert_number_example :
    ((s : List ℕ) × Shows 16 0xFFFFFFFE s
      × (convert false b'x' (word 0xFFFFFFFE ∷ []) sample_console
          ≡ (puts s sample_console >>= λ k'. some ([], k'))))
    × ((s : List ℕ) × Shows 10 0xFFFFFFFE s
        × (convert false b'u' (word 0xFFFFFFFE ∷ []) sample_console
            ≡ (puts s sample_console >>= λ k'. some ([], k'))))
    × ((s : List ℕ) × ShowsSigned 0xFFFFFFFE s
        × (convert false b'd' (word 0xFFFFFFFE ∷ []) sample_console
            ≡ (puts s sample_console >>= λ k'. some ([], k'))))
    × ((s : List ℕ) × ShowsAligned 0xFFFFFFFE s
        × (convert true b'x' (word 0xFFFFFFFE ∷ []) sample_console
            ≡ (puts s sample_console >>= λ k'. some ([], k'))))
convert_number_example = convert_number 0xFFFFFFFE [] sample_console (omega arith)

abbrev pub blank_gate : Gate
blank_gate = record {
  handler = none;
  seg_selector = 0;
  reserved4 = 0;
  reserved3 = 0;
  reserved2 = 0;
  reserved1 = 0;
  size = 0;
  reserved0 = 0;
  dpl = 0;
  present = 0;
}

abbrev pub blank_seg : SegDesc
blank_seg = record {
  seg_lim_15_00 = 0;
  base_15_00 = 0;
  base_23_16 = 0;
  type = 0;
  sys = 0;
  dpl = 0;
  present = 0;
  seg_lim_19_16 = 0;
  avail = 0;
  reserved = 0;
  opsize = 0;
  granularity = 0;
  base_31_24 = 0;
}

abbrev pub sample_kernel : Kernel
sample_kernel = record {
  machine = sample_machine;
  idt = λ i. blank_gate;
  syscall_jumptable = λ i. none;
  irq_handler_jumptable = λ i. none;
  page_table = λ i. 0;
  ldt_desc = blank_seg;
  tss_desc = blank_seg;
  tss = record { ldt_segment_selector = 0; ss0 = 0 };
}

line-init_devices_example :
    line (init_devices 0x5000 0x100000 sample_kernel).machine.clock.pic 8
    ≡ (if is_used 8 then 0 else line sample_pic 8)
line-init_devices_example =
    line-init_devices 0x5000 0x100000 8 sample_kernel
      (record { master = omega arith; slave = omega arith }) (omega arith)

abbrev pub sample_symbols : Symbols
sample_symbols = record { ldt = 0x401080; ldt_size = 31; tss = 0x401000; tss_size = 103 }

the_ldt_desc-the_tss_desc_example :
    Describes (the_ldt_desc sample_symbols) 0x401080 31 0x82
    × Describes (the_tss_desc sample_symbols) 0x401000 103 0x89
the_ldt_desc-the_tss_desc_example =
    the_ldt_desc-the_tss_desc sample_symbols (omega arith) (omega arith) (omega arith) (omega arith)
