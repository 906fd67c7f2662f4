-- ===== src/Boot/Messages.antt =====
-- The formats of student-distrib/kernel.c.
use virtual_operating_system.Prelude.{ℕ, List, [], ◌∷◌}

-- `"Invalid magic number: 0x%#x\n"`.
abbrev pub invalid_magic : List ℕ
invalid_magic =
    73 ∷ 110 ∷ 118 ∷ 97 ∷ 108 ∷ 105 ∷ 100 ∷ 32 ∷ 109 ∷ 97 ∷ 103 ∷ 105 ∷ 99 ∷ 32 ∷ 110 ∷ 117 ∷ 109
    ∷ 98 ∷ 101 ∷ 114 ∷ 58 ∷ 32 ∷ 48 ∷ 120 ∷ 37 ∷ 35 ∷ 120 ∷ 10 ∷ 0 ∷ []

-- `"flags = 0x%#x\n"`.
abbrev pub flags_line : List ℕ
flags_line = 102 ∷ 108 ∷ 97 ∷ 103 ∷ 115 ∷ 32 ∷ 61 ∷ 32 ∷ 48 ∷ 120 ∷ 37 ∷ 35 ∷ 120 ∷ 10 ∷ 0 ∷ []

-- `"mem_lower = %uKB, mem_upper = %uKB\n"`.
abbrev pub mem_line : List ℕ
mem_line =
    109 ∷ 101 ∷ 109 ∷ 95 ∷ 108 ∷ 111 ∷ 119 ∷ 101 ∷ 114 ∷ 32 ∷ 61 ∷ 32 ∷ 37 ∷ 117 ∷ 75 ∷ 66 ∷ 44 ∷ 32
    ∷ 109 ∷ 101 ∷ 109 ∷ 95 ∷ 117 ∷ 112 ∷ 112 ∷ 101 ∷ 114 ∷ 32 ∷ 61 ∷ 32 ∷ 37 ∷ 117 ∷ 75 ∷ 66 ∷ 10
    ∷ 0 ∷ []

-- `"boot_device = 0x%#x\n"`.
abbrev pub boot_device_line : List ℕ
boot_device_line =
    98 ∷ 111 ∷ 111 ∷ 116 ∷ 95 ∷ 100 ∷ 101 ∷ 118 ∷ 105 ∷ 99 ∷ 101 ∷ 32 ∷ 61 ∷ 32 ∷ 48 ∷ 120 ∷ 37 ∷ 35
    ∷ 120 ∷ 10 ∷ 0 ∷ []

-- `"cmdline = %s\n"`.
abbrev pub cmdline_line : List ℕ
cmdline_line = 99 ∷ 109 ∷ 100 ∷ 108 ∷ 105 ∷ 110 ∷ 101 ∷ 32 ∷ 61 ∷ 32 ∷ 37 ∷ 115 ∷ 10 ∷ 0 ∷ []

-- `"Module %d loaded at address: 0x%#x\n"`.
abbrev pub loaded_line : List ℕ
loaded_line =
    77 ∷ 111 ∷ 100 ∷ 117 ∷ 108 ∷ 101 ∷ 32 ∷ 37 ∷ 100 ∷ 32 ∷ 108 ∷ 111 ∷ 97 ∷ 100 ∷ 101 ∷ 100 ∷ 32
    ∷ 97 ∷ 116 ∷ 32 ∷ 97 ∷ 100 ∷ 100 ∷ 114 ∷ 101 ∷ 115 ∷ 115 ∷ 58 ∷ 32 ∷ 48 ∷ 120 ∷ 37 ∷ 35 ∷ 120
    ∷ 10 ∷ 0 ∷ []

-- `"Module %d ends at address: 0x%#x\n"`.
abbrev pub ends_line : List ℕ
ends_line =
    77 ∷ 111 ∷ 100 ∷ 117 ∷ 108 ∷ 101 ∷ 32 ∷ 37 ∷ 100 ∷ 32 ∷ 101 ∷ 110 ∷ 100 ∷ 115 ∷ 32 ∷ 97 ∷ 116
    ∷ 32 ∷ 97 ∷ 100 ∷ 100 ∷ 114 ∷ 101 ∷ 115 ∷ 115 ∷ 58 ∷ 32 ∷ 48 ∷ 120 ∷ 37 ∷ 35 ∷ 120 ∷ 10 ∷ 0 ∷ []

-- `"First few bytes of module:\n"`.
abbrev pub first_bytes : List ℕ
first_bytes =
    70 ∷ 105 ∷ 114 ∷ 115 ∷ 116 ∷ 32 ∷ 102 ∷ 101 ∷ 119 ∷ 32 ∷ 98 ∷ 121 ∷ 116 ∷ 101 ∷ 115 ∷ 32 ∷ 111
    ∷ 102 ∷ 32 ∷ 109 ∷ 111 ∷ 100 ∷ 117 ∷ 108 ∷ 101 ∷ 58 ∷ 10 ∷ 0 ∷ []

-- `"0x%x "`.
abbrev pub byte_shown : List ℕ
byte_shown = 48 ∷ 120 ∷ 37 ∷ 120 ∷ 32 ∷ 0 ∷ []

-- `"\n"`.
abbrev pub newline : List ℕ
newline = 10 ∷ 0 ∷ []

-- `"Both bits 4 and 5 are set.\n"`.
abbrev pub both_bits : List ℕ
both_bits =
    66 ∷ 111 ∷ 116 ∷ 104 ∷ 32 ∷ 98 ∷ 105 ∷ 116 ∷ 115 ∷ 32 ∷ 52 ∷ 32 ∷ 97 ∷ 110 ∷ 100 ∷ 32 ∷ 53 ∷ 32
    ∷ 97 ∷ 114 ∷ 101 ∷ 32 ∷ 115 ∷ 101 ∷ 116 ∷ 46 ∷ 10 ∷ 0 ∷ []

-- `"elf_sec: num = %u, size = 0x%#x, addr = 0x%#x, shndx = 0x%#x\n"`.
abbrev pub elf_line : List ℕ
elf_line =
    101 ∷ 108 ∷ 102 ∷ 95 ∷ 115 ∷ 101 ∷ 99 ∷ 58 ∷ 32 ∷ 110 ∷ 117 ∷ 109 ∷ 32 ∷ 61 ∷ 32 ∷ 37 ∷ 117 ∷ 44
    ∷ 32 ∷ 115 ∷ 105 ∷ 122 ∷ 101 ∷ 32 ∷ 61 ∷ 32 ∷ 48 ∷ 120 ∷ 37 ∷ 35 ∷ 120 ∷ 44 ∷ 32 ∷ 97 ∷ 100
    ∷ 100 ∷ 114 ∷ 32 ∷ 61 ∷ 32 ∷ 48 ∷ 120 ∷ 37 ∷ 35 ∷ 120 ∷ 44 ∷ 32 ∷ 115 ∷ 104 ∷ 110 ∷ 100 ∷ 120
    ∷ 32 ∷ 61 ∷ 32 ∷ 48 ∷ 120 ∷ 37 ∷ 35 ∷ 120 ∷ 10 ∷ 0 ∷ []

-- `"mmap_addr = 0x%#x, mmap_length = 0x%x\n"`.
abbrev pub mmap_line : List ℕ
mmap_line =
    109 ∷ 109 ∷ 97 ∷ 112 ∷ 95 ∷ 97 ∷ 100 ∷ 100 ∷ 114 ∷ 32 ∷ 61 ∷ 32 ∷ 48 ∷ 120 ∷ 37 ∷ 35 ∷ 120 ∷ 44
    ∷ 32 ∷ 109 ∷ 109 ∷ 97 ∷ 112 ∷ 95 ∷ 108 ∷ 101 ∷ 110 ∷ 103 ∷ 116 ∷ 104 ∷ 32 ∷ 61 ∷ 32 ∷ 48 ∷ 120
    ∷ 37 ∷ 120 ∷ 10 ∷ 0 ∷ []

-- `"    size = 0x%x, base_addr = 0x%#x%#x\n    type = 0x%x,  length    = 0x%#x%#x\n"`.
abbrev pub entry_line : List ℕ
entry_line =
    32 ∷ 32 ∷ 32 ∷ 32 ∷ 115 ∷ 105 ∷ 122 ∷ 101 ∷ 32 ∷ 61 ∷ 32 ∷ 48 ∷ 120 ∷ 37 ∷ 120 ∷ 44 ∷ 32 ∷ 98
    ∷ 97 ∷ 115 ∷ 101 ∷ 95 ∷ 97 ∷ 100 ∷ 100 ∷ 114 ∷ 32 ∷ 61 ∷ 32 ∷ 48 ∷ 120 ∷ 37 ∷ 35 ∷ 120 ∷ 37 ∷ 35
    ∷ 120 ∷ 10 ∷ 32 ∷ 32 ∷ 32 ∷ 32 ∷ 116 ∷ 121 ∷ 112 ∷ 101 ∷ 32 ∷ 61 ∷ 32 ∷ 48 ∷ 120 ∷ 37 ∷ 120 ∷ 44
    ∷ 32 ∷ 32 ∷ 108 ∷ 101 ∷ 110 ∷ 103 ∷ 116 ∷ 104 ∷ 32 ∷ 32 ∷ 32 ∷ 32 ∷ 61 ∷ 32 ∷ 48 ∷ 120 ∷ 37 ∷ 35
    ∷ 120 ∷ 37 ∷ 35 ∷ 120 ∷ 10 ∷ 0 ∷ []
