-- ===== src/Tests.antt =====
-- Small concrete states, and the theorems applied to them.
mod Files
mod Programs
mod Screens
mod Devices
mod Runs
mod Numbers
mod User
mod Grep
mod Starts
mod Listing
mod Emulation
mod Loops
mod Clock
use virtual_operating_system.Prelude.{
  ℕ, zero, suc, ◌<◌, ℤ, pos, Bool, true, false, Option, none, some, List, [], ◌∷◌, ◌++◌, ◌≡◌, refl,
  ltb, ltb→lt, replicate, ◌==◌, if◌then◌else◌, ◌&&◌, Bool-cases, inl, inr, arith,
}
use virtual_operating_system.Strings.Laws.{Bytes}
use virtual_operating_system.Console.Output.{Terminal, Console}
use virtual_operating_system.FileSystem.{FileSystem}
use virtual_operating_system.Pic.{Pic}
use virtual_operating_system.Rtc.{Rtc}
use virtual_operating_system.Machine.{Machine, FileDesc, Pcb, term, file}

-- An image with one file `ab` of 28 bytes, a program that starts at 16.
abbrev pub image : ℕ → ℕ
image a =
    if a == 0
    then 1
    else if a == 4
    then 1
    else if a == 64
    then 97
    else if a == 65
    then 98
    else if a == 96
    then 2
    else if a == 4096
    then 28
    else if a == 8192
    then 0x7f
    else if a == 8193
    then 0x45
    else if a == 8194
    then 0x4c
    else if a == 8195
    then 0x46
    else if a == 8216
    then 16
    else 0

abbrev pub disk : FileSystem
disk = record { mem = image; filesystem_start = 0; dir_index = 0 }

abbrev pub program : List ℕ
program = 0x7f ∷ 0x45 ∷ 0x4c ∷ 0x46 ∷ (replicate 20 0 ++ (16 ∷ 0 ∷ 0 ∷ 0 ∷ []))

abbrev pub sample_terminal : Terminal
sample_terminal = record {
  video_memory = λ i. 0;
  key_buf = replicate 128 0;
  num_buf = pos 0;
  buf_flag = 0;
  screen_x = 0;
  screen_y = 0;
  start_line_ptr = pos 0;
  process_num = 2;
  flag = 1;
  total_process = 2;
}

abbrev pub sample_console : Console
sample_console = record {
  terminals = λ i. sample_terminal;
  video_mem = λ i. 0;
  terminal_num = 1;
  terminal_displayed = 0;
  crtc = [];
}

abbrev pub sample_pic : Pic
sample_pic = record { master_mask = 0xFF; slave_mask = 0xFF; outs = [] }

abbrev pub sample_rtc : Rtc
sample_rtc = record { pic = sample_pic; register_a = 0x26; register_b = 2; rtc_flag = λ i. 0 }

abbrev pub term_desc : FileDesc
term_desc = record { fops = some term; inode = 0; file_pos = 0; flags = 1 }

abbrev pub file_desc : FileDesc
file_desc = record { fops = some file; inode = 0; file_pos = 4; flags = 1 }

abbrev pub free_desc : FileDesc
free_desc = record { fops = none; inode = 0; file_pos = 0; flags = 0 }

abbrev pub sample_pcb : Pcb
sample_pcb = record {
  file_desc_array =
      term_desc ∷ term_desc ∷ file_desc ∷ free_desc ∷ free_desc ∷ free_desc ∷ free_desc ∷ free_desc
      ∷ [];
  process_num_prev = 1;
  process_num = 2;
  argument = replicate 128 0;
}

-- Process 2 runs, started by process 1.
abbrev pub sample_machine : Machine
sample_machine = record {
  console = sample_console;
  fs = disk;
  clock = sample_rtc;
  page_directory = λ i. 0;
  user_page_table = λ i. 0;
  video_page_table = λ i. 0;
  user_image = λ i. [];
  process = 1 ∷ 1 ∷ 1 ∷ 0 ∷ 0 ∷ 0 ∷ [];
  pcbs = λ a. sample_pcb;
  esp0 = 0x7FDFFC;
  current_process_num = 2;
}

abbrev pub full_machine : Machine
full_machine = record sample_machine { process = 1 ∷ 1 ∷ 1 ∷ 1 ∷ 1 ∷ 1 ∷ [] }

-- The value of a run that does not fault.
abbrev pub value_of {ℓ} : {A : Type ℓ} → A → Option A → A
value_of a none = a
value_of a (some b) = b

abbrev pub are_bytes : List ℕ → Bool
are_bytes [] = true
are_bytes (c ∷ s) = ltb c 256 && are_bytes s

pub Bytes-test : (s : List ℕ) → are_bytes s ≡ true → Bytes s
Bytes-test [] h = tt
Bytes-test (c ∷ s) h = elim (Bool-cases (ltb c 256)) [
  | inl e ↦ (ltb→lt c 256 e, Bytes-test s (rw e at h))
  | inr e ↦ absurd (ne (rw e at h))
]
  where
    ne : false ≡ true → ⊥
    ne q = cc
