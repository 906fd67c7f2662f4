-- ===== src/Boot/Shell.antt =====
-- `entry` of student-distrib/kernel.c up to the first program.
use virtual_operating_system.Prelude.{ℕ, some, List, [], ◌∷◌, ◌≡◌, get_elem?}
use virtual_operating_system.Console.Output.{Console, current}
use virtual_operating_system.FileSystem.{FileSystem, filesystem_init}
use virtual_operating_system.Machine.{Machine, current_pcb}
use virtual_operating_system.Boot.{Kernel, MultibootInfo}
use virtual_operating_system.Boot.Segments.{
  Symbols, the_ldt_desc, the_tss_desc, kernel_ldt, kernel_ds,
}
use virtual_operating_system.Boot.Starts.{found_start}

-- `"shell"`.
abbrev pub shell_name : List ℕ
shell_name = 115 ∷ 104 ∷ 101 ∷ 108 ∷ 108 ∷ []

-- The file system that the devices are initialised with.
abbrev pub disk_of : ℕ → MultibootInfo → Kernel → FileSystem
disk_of at mbi b = filesystem_init b.machine.fs (found_start mbi at)

-- Process 1 runs the file: it is loaded, and on the terminal, with the process number 1.
pub record RunsFirst (m : Machine) (content : List ℕ) : Type 0 where
  pub image : m.user_image 1 ≡ content
  pub used : get_elem? m.process 1 ≡ some 1
  pub on_terminal : (current m.console).process_num ≡ 1
  pub block : (current_pcb m).process_num ≡ 1

-- The segments as the symbols of the linker say, and the stack on which the interrupts enter the kernel.
pub record HasSegments (symbols : Symbols) (b q : Kernel) : Type 0 where
  pub ldt : q.ldt_desc ≡ the_ldt_desc symbols
  pub tss : q.tss_desc ≡ the_tss_desc symbols
  pub selector : q.tss.ldt_segment_selector ≡ kernel_ldt
  pub stack_segment : q.tss.ss0 ≡ kernel_ds
  pub stack : q.machine.esp0 ≡ 0x800000
