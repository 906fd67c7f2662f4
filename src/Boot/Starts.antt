-- ===== src/Boot/Starts.antt =====
-- `entry` of student-distrib/kernel.c from the Multiboot information to the first shell.
use virtual_operating_system.Prelude.{
  ℕ, suc, ◌^◌, ◌<◌, Bool, true, false, Option, some, List, [], ◌∷◌, ◌≡◌, refl, inl, inr, ◌==◌,
  Bool-cases, if◌then◌else◌, arith,
}
use virtual_operating_system.Strings.Laws.{Bytes}
use virtual_operating_system.Console.Output.{
  Console, clear, shown, current, screen_of, draw_cursor, move_cursor,
}
use virtual_operating_system.Console.Bounds.{IsValid}
use virtual_operating_system.Console.Screen.{Cells, Screen, clear_screen}
use virtual_operating_system.Console.Isolation.{CursorsValid}
use virtual_operating_system.Console.Total.{set_terminal-CursorsValid}
use virtual_operating_system.Console.Printf.{Arg, word, text, plain}
use virtual_operating_system.Console.Conversions.{Printable}
use virtual_operating_system.Console.Formatted.{fits, printf_total}
use virtual_operating_system.Boot.{
  MultibootInfo, Module, MemoryMap, check_flag, print, print_if, char_word, print_bytes,
  print_modules, print_map, print_info, print_tables,
}
use virtual_operating_system.Boot.Messages.{
  flags_line, mem_line, boot_device_line, cmdline_line, loaded_line, ends_line, first_bytes,
  byte_shown, newline, elf_line, mmap_line, entry_line,
}

-- The modules from number `n` on: addresses of 32 bits, and bytes.
abbrev pub ModulesFit : ℕ → List Module → Type 0
ModulesFit n [] = Unit {0}
ModulesFit n (m ∷ mods) =
    (Printable (word n ∷ word m.mod_start ∷ [])
      × Printable (word n ∷ word m.mod_end ∷ [])
      × Bytes m.first)
    × ModulesFit (suc n) mods

abbrev pub MapFits : List MemoryMap → Type 0
MapFits [] = Unit {0}
MapFits (e ∷ es) =
    Printable (
      word e.size
      ∷ word e.base_addr_high
      ∷ word e.base_addr_low
      ∷ word e.type
      ∷ word e.length_high
      ∷ word e.length_low
      ∷ [])
    × MapFits es

-- The fields of the information are words, and the command line ends and has no backspaces.
pub record IsInfo (mbi : MultibootInfo) : Type 0 where
  pub flags : mbi.flags < 2 ^ 32
  pub memory : Printable (word mbi.mem_lower ∷ word mbi.mem_upper ∷ [])
  pub boot_device : mbi.boot_device < 2 ^ 32
  pub cmdline : Printable (text mbi.cmdline ∷ [])
  pub mods : ModulesFit 0 mbi.mods
  pub elf :
      Printable (word mbi.elf_num ∷ word mbi.elf_size ∷ word mbi.elf_addr ∷ word mbi.elf_shndx ∷ [])
  pub map : Printable (word mbi.mmap_addr ∷ word mbi.mmap_length ∷ []) × MapFits mbi.mmap

-- Output that ends, with every cursor on the screen.
abbrev pub Printed : Option Console → Type 0
Printed o = (k : Console) × (o ≡ some k) × CursorsValid k

print_total :
    (format : List ℕ) (args : List Arg) (k : Console)
    → fits plain format args ≡ true
    → Printable args
    → CursorsValid k
    → Printed (print format args k)
print_total format args k h q v =
    let (t, r, e, _, _, w) = printf_total format args k h q v in (r.1, rw e refl, w)

print_if_total :
    (b : Bool) (format : List ℕ) (args : List Arg) (k : Console)
    → fits plain format args ≡ true
    → Printable args
    → CursorsValid k
    → Printed (print_if b format args k)
print_if_total true format args k h q v = print_total format args k h q v
print_if_total false format args k h q v = (k, refl, v)

print_bytes_total :
    (cs : List ℕ) (k : Console) → Bytes cs → CursorsValid k → Printed (print_bytes cs k)
unfolding print_bytes
print_bytes_total [] k b v = (k, refl, v)
print_bytes_total (c ∷ cs) k b v =
    let small : char_word c < 2 ^ 32 = ground (arith, b.0) in
    let (k1, e1, v1) = print_total byte_shown (word (char_word c) ∷ []) k refl (small, tt) v in
    let (k2, e2, v2) = print_bytes_total cs k1 b.1 v1 in (k2, rw (e1, e2) refl, v2)

-- Where the file system starts: at the last module.
abbrev pub last_start : List Module → ℕ → ℕ
last_start [] start = start
last_start (m ∷ mods) start = last_start mods m.mod_start

abbrev pub FoundAt : ℕ → Option (ℕ × Console) → Type 0
FoundAt start o = (k : Console) × (o ≡ some (start, k)) × CursorsValid k

print_modules_total :
    (n : ℕ) (mods : List Module) (start : ℕ) (k : Console)
    → ModulesFit n mods
    → CursorsValid k
    → FoundAt (last_start mods start) (print_modules n mods start k)
unfolding print_modules
print_modules_total n [] start k h v = (k, refl, v)
print_modules_total n (m ∷ mods) start k ((from, to, bytes), more) v =
    let (k1, e1, v1) = print_total loaded_line (word n ∷ word m.mod_start ∷ []) k refl from v in
    let (k2, e2, v2) = print_total ends_line (word n ∷ word m.mod_end ∷ []) k1 refl to v1 in
    let (k3, e3, v3) = print_total first_bytes [] k2 refl tt v2 in
    let (k4, e4, v4) = print_bytes_total m.first k3 bytes v3 in
    let (k5, e5, v5) = print_total newline [] k4 refl tt v4 in
    let (k6, e6, v6) = print_modules_total (suc n) mods m.mod_start k5 more v5 in
    (k6, rw (e1, e2, e3, e4, e5, e6) refl, v6)

print_map_total :
    (es : List MemoryMap) (k : Console) → MapFits es → CursorsValid k → Printed (print_map es k)
unfolding print_map
print_map_total [] k h v = (k, refl, v)
print_map_total (e ∷ es) k (line, more) v =
    let words : List Arg =
      word e.size
      ∷ word e.base_addr_high
      ∷ word e.base_addr_low
      ∷ word e.type
      ∷ word e.length_high
      ∷ word e.length_low
      ∷ [] in
    let (k1, e1, v1) = print_total entry_line words k refl line v in
    let (k2, e2, v2) = print_map_total es k1 more v1 in (k2, rw (e1, e2) refl, v2)

-- The start of the file system, which is the last module where there are any.
abbrev pub found_start : MultibootInfo → ℕ → ℕ
found_start mbi start = if check_flag mbi.flags 3 then last_start mbi.mods start else start

pub print_info_total :
    (mbi : MultibootInfo) (start : ℕ) (k : Console)
    → IsInfo mbi
    → CursorsValid k
    → FoundAt (found_start mbi start) (print_info mbi start k)
unfolding print_info
print_info_total mbi start k h v =
    let (k1, e1, v1) = print_total flags_line (word mbi.flags ∷ []) k refl (h.flags, tt) v in
    let (k2, e2, v2) =
      print_if_total (check_flag mbi.flags 0) mem_line
        (word mbi.mem_lower ∷ word mbi.mem_upper ∷ []) k1 refl h.memory v1 in
    let (k3, e3, v3) =
      print_if_total (check_flag mbi.flags 1) boot_device_line (word mbi.boot_device ∷ []) k2 refl
        (h.boot_device, tt) v2 in
    let (k4, e4, v4) =
      print_if_total (check_flag mbi.flags 2) cmdline_line (text mbi.cmdline ∷ []) k3 refl h.cmdline
        v3 in
    elim (Bool-cases (check_flag mbi.flags 3)) [
      | inl on ↦
          let (k5, e5, v5) = print_modules_total 0 mbi.mods start k4 h.mods v4 in
          (k5, rw (e1, e2, e3, e4, on, e5) refl, v5)
      | inr off ↦ (k4, rw (e1, e2, e3, e4, off) refl, v4)
    ]

pub print_tables_total :
    (mbi : MultibootInfo) (k : Console) → IsInfo mbi → CursorsValid k → Printed (print_tables mbi k)
unfolding print_tables
print_tables_total mbi k h v =
    let (k1, e1, v1) =
      print_if_total (check_flag mbi.flags 5) elf_line
        (word mbi.elf_num ∷ word mbi.elf_size ∷ word mbi.elf_addr ∷ word mbi.elf_shndx ∷ []) k refl
        h.elf v in
    elim (Bool-cases (check_flag mbi.flags 6)) [
      | inl on ↦
          let (k2, e2, v2) =
            print_total mmap_line (word mbi.mmap_addr ∷ word mbi.mmap_length ∷ []) k1 refl h.map.0
              v1 in
          let (k3, e3, v3) = print_map_total mbi.mmap k2 h.map.1 v2 in
          (k3, rw (e1, on, e2, e3) refl, v3)
      | inr off ↦ (k1, rw (e1, off) refl, v1)
    ]

corner : (cells : Cells) (s : Screen) → IsValid (record (clear_screen s) { cells = cells })
unfolding clear_screen
corner cells s = record { x_in = omega arith; y_in = omega arith; start_in = omega arith }

pub clear-CursorsValid : (k : Console) → CursorsValid k → CursorsValid (clear k)
unfolding clear draw_cursor clear_screen
clear-CursorsValid k v = elim (Bool-cases (k.terminal_num == k.terminal_displayed)) [
  | inl on ↦
      let s = screen_of k.video_mem (shown k) in
      rw on (
        set_terminal-CursorsValid k k.terminal_displayed (move_cursor (shown k) (clear_screen s)) v
          (corner (shown k).video_memory s))
  | inr off ↦
      let s = screen_of (current k).video_memory (current k) in
      rw off (
        set_terminal-CursorsValid k k.terminal_num
          (record (move_cursor (current k) (clear_screen s)) {
            video_memory = (clear_screen s).cells;
          })
          v (corner (clear_screen s).cells s))
]
