-- ===== src/Tests/Starts.antt =====
-- An image with a directory `.` and the program `shell`, and the start of the kernel on it.
use virtual_operating_system.Prelude.{
  ℕ, List, some, [], ◌∷◌, ◌≡◌, refl, ◌==◌, arith, replicate, if◌then◌else◌,
}
use virtual_operating_system.Console.Printf.{word, plain, printf}
use virtual_operating_system.Console.Isolation.{CursorsValid}
use virtual_operating_system.Console.Output.{Console, puts}
use virtual_operating_system.Console.Formatted.{Prints, printf_total}
use virtual_operating_system.FileSystem.{FileSystem}
use virtual_operating_system.Machine.{Machine}
use virtual_operating_system.Boot.{Kernel, MultibootInfo}
use virtual_operating_system.Boot.Messages.{loaded_line}
use virtual_operating_system.Tests.{sample_machine}
use virtual_operating_system.Tests.Numbers.{sample_kernel}
use virtual_operating_system.Tests.Screens.{sample-CursorsValid}

abbrev pub boot_image : ℕ → ℕ
boot_image a =
    if a == 0
    then 2
    else if a == 4
    then 1
    else if a == 64
    then 46
    else if a == 96
    then 1
    else if a == 128
    then 115
    else if a == 129
    then 104
    else if a == 130
    then 101
    else if a == 131
    then 108
    else if a == 132
    then 108
    else if a == 160
    then 2
    else if a == 4096
    then 28
    else if a == 8192
    then 0x7f
    else if a == 8193
    then 0x45
    else if a == 8194
    then 0x4c
    else if a == 8195
    then 0x46
    else if a == 8216
    then 16
    else 0

abbrev pub boot_disk : FileSystem
boot_disk = record { mem = boot_image; filesystem_start = 0; dir_index = 0 }

-- One module, at 0.
abbrev boot_info : MultibootInfo
boot_info = record {
  flags = 8;
  mem_lower = 0;
  mem_upper = 0;
  boot_device = 0;
  cmdline = 0 ∷ [];
  mods = record { mod_start = 0; mod_end = 8220; first = replicate 16 0 } ∷ [];
  elf_num = 0;
  elf_size = 0;
  elf_addr = 0;
  elf_shndx = 0;
  mmap_addr = 0;
  mmap_length = 0;
  mmap = [];
}

-- The kernel before its start, with no process.
abbrev cold_kernel : Kernel
cold_kernel = record sample_kernel {
  machine = record sample_machine { fs = boot_disk; process = replicate 6 0 };
}

printf_total_example :
    (t : List ℕ) × (r : ℕ × Console) × (printf loaded_line
        (word 7 ∷ word 0xB8000 ∷ [])
        sample_machine.console
      ≡ some r)
    × Prints plain loaded_line (word 7 ∷ word 0xB8000 ∷ []) t
    × (puts t sample_machine.console ≡ some r.1)
    × CursorsValid r.1
printf_total_example =
    printf_total loaded_line (word 7 ∷ word 0xB8000 ∷ []) sample_machine.console refl
      (omega arith, (omega arith, tt)) sample-CursorsValid
