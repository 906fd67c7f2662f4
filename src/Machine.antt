-- ===== src/Machine.antt =====
-- The state that the parts of the kernel share: terminals, file system, clock and interrupt masks,
-- page directory, process table and process control blocks (student-distrib/syscall.h).
use virtual_operating_system.Prelude.{ℕ, ◌*◌, ◌/◌, ◌^◌, Option, List, set}
use virtual_operating_system.Console.Output.{Console, update}
use virtual_operating_system.FileSystem.{FileSystem}
use virtual_operating_system.Rtc.{Rtc}

-- The rows of `fops_table`, by `FILE_TYPE_RTC` to `FILE_TYPE_TERM`.
pub data Fops : Type 0 where
  rtc dir file term : Fops

-- `file_desc_t`. A descriptor that was never opened has no operations: `fops` is NULL.
pub record FileDesc : Type 0 where
  pub fops : Option Fops
  pub inode : ℕ
  pub file_pos : ℕ
  pub flags : ℕ

-- `pcb_t` without the saved stack pointers.
pub record Pcb : Type 0 where
  pub file_desc_array : List FileDesc
  pub process_num_prev : ℕ
  pub process_num : ℕ
  pub argument : List ℕ

-- `user_image` is what was loaded at 0x8048000 in the memory of each process. Page tables map an
-- index to an entry. A process control block lies at its address, and the
-- current one is found by masking the kernel stack pointer `esp0`.
pub record Machine : Type 0 where
  pub console : Console
  pub fs : FileSystem
  pub clock : Rtc
  pub page_directory : ℕ → ℕ
  pub user_page_table : ℕ → ℕ
  pub video_page_table : ℕ → ℕ
  pub process : List ℕ
  pub user_image : ℕ → List ℕ
  pub pcbs : ℕ → Pcb
  pub esp0 : ℕ
  pub current_process_num : ℕ

abbrev pub eight_mb : ℕ
eight_mb = 0x800000

abbrev pub four_mb : ℕ
four_mb = 0x400000

abbrev pub eight_kb : ℕ
eight_kb = 0x2000

abbrev pub fd_n : ℕ
fd_n = 8

-- `x & PCB_MASK`, with the mask 0xFFFFE000.
abbrev pub pcb_mask : ℕ → ℕ
pcb_mask x = x / 2 ^ 13 * 2 ^ 13

abbrev pub pcb_address : Machine → ℕ
pcb_address m = pcb_mask m.esp0

abbrev pub current_pcb : Machine → Pcb
current_pcb m = m.pcbs (pcb_address m)

abbrev pub set_pcb : Machine → Pcb → Machine
set_pcb m p = record m { pcbs = update m.pcbs (pcb_address m) p }

abbrev pub set_fd : Machine → ℕ → FileDesc → Machine
set_fd m fd d =
    let p = current_pcb m in set_pcb m (record p { file_desc_array = set p.file_desc_array fd d })
