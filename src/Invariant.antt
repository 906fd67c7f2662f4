-- ===== src/Invariant.antt =====
-- What holds of the process table and of every control block between the system calls of
-- student-distrib/syscall.c.
pub mod Calls
pub mod Opening
pub mod Programs
pub mod Reach
use virtual_operating_system.Prelude.{ℕ, ◌<◌, ◌≡◌, ◌≢◌, Option, some, List, get_elem?, length}
use virtual_operating_system.FileSystem.{FileSystem, dir_count, file_type}
use virtual_operating_system.FileSystem.Directory.{entry_at}
use virtual_operating_system.Machine.{Machine, Fops, FileDesc, Pcb}

-- A descriptor in use has operations.
abbrev pub Usable : FileDesc → Type 0
Usable d = d.flags ≢ 0 → (f : Fops) × (d.fops ≡ some f)

-- Eight descriptors, each usable.
pub record IsPcb (p : Pcb) : Type 0 where
  pub size : length p.file_desc_array ≡ 8
  pub usable : (j : ℕ) (d : FileDesc) → get_elem? p.file_desc_array j ≡ some d → Usable d

-- The directory has entries of the three known types only.
abbrev pub KnownTypes : FileSystem → Type 0
KnownTypes fs = (i : ℕ) → i < dir_count fs → file_type (entry_at fs i) < 3

pub record IsSound (m : Machine) : Type 0 where
  pub table : length m.process ≡ 6
  pub blocks : (a : ℕ) → IsPcb (m.pcbs a)
  pub types : KnownTypes m.fs
