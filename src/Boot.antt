-- ===== src/Boot.antt =====
-- student-distrib/kernel.c: `entry`, from the Multiboot information to the first shell.
pub mod Messages
pub mod Lines
pub mod Segments
pub mod Starts
pub mod Ready
pub mod Shell
use Prim.Native.Nat.{bit_and}
use virtual_operating_system.Prelude.{
  ℕ, zero, suc, ◌+◌, ◌-◌, ◌%◌, ◌^◌, Bool, true, false, not, Option, none, some, List, [], ◌∷◌, ltb,
  ◌==◌, if◌then◌else◌, ◌>>=◌, ◌&&◌,
}
use virtual_operating_system.Console.Output.{Console, clear, update}
use virtual_operating_system.Console.Printf.{Arg, word, text, printf}
use virtual_operating_system.FileSystem.{filesystem_init}
use virtual_operating_system.Pic.{Pic, i8259_init}
use virtual_operating_system.Rtc.{Rtc, rtc_init}
use virtual_operating_system.Scheduling.{pit_init}
use virtual_operating_system.Machine.{Machine}
use virtual_operating_system.Idt.{Gate, Irq, Call, idt_init, init_syscall, add_irq}
use virtual_operating_system.Paging.{Tables, page_init}
use virtual_operating_system.Process.{Outcome, execute, shell_command}
use virtual_operating_system.Boot.Segments.{
  SegDesc, Tss, Symbols, the_ldt_desc, the_tss_desc, set_tss,
}
use virtual_operating_system.Boot.Messages.{
  invalid_magic, flags_line, mem_line, boot_device_line, cmdline_line, loaded_line, ends_line,
  first_bytes, byte_shown, newline, both_bits, elf_line, mmap_line, entry_line,
}

-- `module_t`, with the 16 bytes at its start.
pub record Module : Type 0 where
  pub mod_start : ℕ
  pub mod_end : ℕ
  pub first : List ℕ

-- `memory_map_t`.
pub record MemoryMap : Type 0 where
  pub size : ℕ
  pub base_addr_low : ℕ
  pub base_addr_high : ℕ
  pub length_low : ℕ
  pub length_high : ℕ
  pub type : ℕ

-- `multiboot_info_t`, with what its addresses lead to: the command line, the modules, and the
-- entries of the memory map that the loop comes to.
pub record MultibootInfo : Type 0 where
  pub flags : ℕ
  pub mem_lower : ℕ
  pub mem_upper : ℕ
  pub boot_device : ℕ
  pub cmdline : List ℕ
  pub mods : List Module
  pub elf_num : ℕ
  pub elf_size : ℕ
  pub elf_addr : ℕ
  pub elf_shndx : ℕ
  pub mmap_addr : ℕ
  pub mmap_length : ℕ
  pub mmap : List MemoryMap

-- `MULTIBOOT_BOOTLOADER_MAGIC`.
abbrev pub bootloader_magic : ℕ
bootloader_magic = 0x2BADB002

-- `CHECK_FLAG`.
abbrev pub check_flag : ℕ → ℕ → Bool
check_flag flags bit = not (bit_and flags (2 ^ bit) == 0)

-- `printf`, whose result is not looked at.
abbrev pub print : List ℕ → List Arg → Console → Option Console
print format args k = printf format args k >>= λ r. some r.1

abbrev pub print_if : Bool → List ℕ → List Arg → Console → Option Console
print_if b format args k = if b then print format args k else some k

-- A `char` as the word that `printf` is given: with its sign.
abbrev pub char_word : ℕ → ℕ
char_word c = if ltb c 128 then c else 2 ^ 32 - 256 + c

unfoldable pub print_bytes : List ℕ → Console → Option Console
print_bytes [] k = some k
print_bytes (c ∷ cs) k = print byte_shown (word (char_word c) ∷ []) k >>= λ k'. print_bytes cs k'

-- The loop over the modules, from number `mod_count` on, with the start of the file system so far.
unfoldable pub print_modules : ℕ → List Module → ℕ → Console → Option (ℕ × Console)
unfolding print_bytes
print_modules mod_count [] start k = some (start, k)
print_modules mod_count (m ∷ mods) start k =
    print loaded_line (word mod_count ∷ word m.mod_start ∷ []) k >>= λ k1.
    print ends_line (word mod_count ∷ word m.mod_end ∷ []) k1 >>= λ k2.
    print first_bytes [] k2 >>= λ k3. print_bytes m.first k3 >>= λ k4.
    print newline [] k4 >>= λ k5. print_modules (suc mod_count) mods m.mod_start k5

unfoldable pub print_map : List MemoryMap → Console → Option Console
print_map [] k = some k
print_map (e ∷ es) k =
    print entry_line
      (word e.size
        ∷ word e.base_addr_high
        ∷ word e.base_addr_low
        ∷ word e.type
        ∷ word e.length_high
        ∷ word e.length_low
        ∷ [])
      k
    >>= λ k'. print_map es k'

-- What is printed of the information up to the check of the bits 4 and 5, and `filesystem_start`.
unfoldable pub print_info : MultibootInfo → ℕ → Console → Option (ℕ × Console)
unfolding print_modules
print_info mbi start k = print flags_line (word mbi.flags ∷ []) k >>= λ k1.
    print_if (check_flag mbi.flags 0) mem_line (word mbi.mem_lower ∷ word mbi.mem_upper ∷ []) k1
    >>= λ k2.
        print_if (check_flag mbi.flags 1) boot_device_line (word mbi.boot_device ∷ []) k2 >>= λ k3.
        print_if (check_flag mbi.flags 2) cmdline_line (text mbi.cmdline ∷ []) k3 >>= λ k4.
        if check_flag mbi.flags 3 then print_modules 0 mbi.mods start k4 else some (start, k4)

-- What is printed behind that check.
unfoldable pub print_tables : MultibootInfo → Console → Option Console
unfolding print_map
print_tables mbi k =
    print_if (check_flag mbi.flags 5) elf_line
      (word mbi.elf_num ∷ word mbi.elf_size ∷ word mbi.elf_addr ∷ word mbi.elf_shndx ∷ []) k
    >>= λ k1.
        if check_flag mbi.flags 6
        then (print mmap_line (word mbi.mmap_addr ∷ word mbi.mmap_length ∷ []) k1 >>= λ k2.
            print_map mbi.mmap k2)
        else some k1

-- The functions in the jump table of the interrupt lines.
pub data Driver : Type 0 where
  keyboard_driver rtc_driver pit_driver : Driver

-- The machine, and the tables that only the start of the kernel writes.
pub record Kernel : Type 0 where
  pub machine : Machine
  pub idt : ℕ → Gate
  pub syscall_jumptable : ℕ → Option Call
  pub irq_handler_jumptable : ℕ → Option Driver
  pub page_table : ℕ → ℕ
  pub ldt_desc : SegDesc
  pub tss_desc : SegDesc
  pub tss : Tss

abbrev pub irq_keyboard : ℕ
irq_keyboard = 1

-- `keyboard_init`.
unfoldable pub keyboard_init : Irq Driver → Irq Driver
keyboard_init s = add_irq irq_keyboard keyboard_driver s

-- The LDT and the TSS: `ldt_desc_ptr`, `tss_desc_ptr` and `tss`.
unfoldable pub set_segments : Symbols → Kernel → Kernel
unfolding the_ldt_desc the_tss_desc set_tss
set_segments s b = record b {
  machine = record b.machine { esp0 = 0x800000 };
  ldt_desc = the_ldt_desc s;
  tss_desc = the_tss_desc s;
  tss = set_tss b.tss;
}

-- The initialisers in their order, with `PageTable` at `table_at`. The clock and the timer put their
-- handlers into the jump table as the keyboard does.
unfoldable pub init_devices : ℕ → ℕ → Kernel → Kernel
unfolding keyboard_init
init_devices table_at start b =
    let m = b.machine in
    let calls = init_syscall b.syscall_jumptable m.process in
    let pages =
      page_init table_at (record { directory = m.page_directory; table = b.page_table }) in
    let keys =
      keyboard_init (record {
        irq_handler_jumptable = b.irq_handler_jumptable;
        pic = i8259_init m.clock.pic;
      }) in
    let clock = rtc_init (record m.clock { pic = keys.pic }) in
    let timer = pit_init clock.pic in
    record b {
      machine = record m {
        fs = filesystem_init m.fs start;
        clock = record clock { pic = timer };
        page_directory = pages.directory;
        process = calls.1;
      };
      idt = idt_init b.idt;
      syscall_jumptable = calls.0;
      irq_handler_jumptable =
          update (update keys.irq_handler_jumptable 8 (some rtc_driver)) 0 (some pit_driver);
      page_table = pages.table;
    }

-- How `entry` ends: it returns to the assembly, or the first program is executed.
pub data Started : Type 0 where
  gave_up : Machine → Started
  executed : Kernel → Outcome → Started

-- `start` is `filesystem_start` before any module is found.
unfoldable pub entry : Symbols → ℕ → ℕ → ℕ → MultibootInfo → Kernel → Option Started
unfolding print_info print_tables set_segments init_devices
entry symbols table_at start magic mbi b =
    let m = b.machine in
    let cleared = clear m.console in
    if not (magic == bootloader_magic)
    then (print invalid_magic (word magic ∷ []) cleared >>= λ k.
        some (gave_up (record m { console = k })))
    else (print_info mbi start cleared >>= λ r.
        if check_flag mbi.flags 4 && check_flag mbi.flags 5
        then (print both_bits [] r.1 >>= λ k. some (gave_up (record m { console = k })))
        else (print_tables mbi r.1 >>= λ k.
            let ready =
              init_devices table_at r.0
                (set_segments symbols (record b { machine = record m { console = k } })) in
            execute ready.machine (some shell_command) >>= λ o. some (executed ready o)))
