-- ===== src/Process/Arguments.antt =====
-- The argument of a command line, from `execute` to `getargs` of student-distrib/syscall.c.
use virtual_operating_system.Prelude.{
  ℕ, zero, suc, ◌-◌, ◌≤◌, ◌<◌, pos, some, List, [], ◌∷◌, ◌++◌, ◌≡◌, inl, inr, refl, ap, true, false,
  drop, replicate, length, ◌==◌, arith,
}
use virtual_operating_system.Strings.Laws.{NoNul, Readable, padded, strncpy_lem}
use virtual_operating_system.Console.Output.{current}
use virtual_operating_system.Machine.{Machine, current_pcb, pcb_mask}
use virtual_operating_system.Syscall.{getargs}
use virtual_operating_system.Process.{
  parse, execute, start, new_pcb, entered, kernel_stack, pcb_location,
}
use virtual_operating_system.Process.Search.{IsFirstFree}
use virtual_operating_system.Process.Parse.{line_of}
use virtual_operating_system.Process.Loading.{IsProgram, start_address, stored, execute-start}

Readable-string : (s rest : List ℕ) (k : ℕ) → length s < k → Readable k (s ++ (0 ∷ rest))
Readable-string s rest zero h = absurd (omega arith)
Readable-string [] rest (suc k) h = inl refl
Readable-string (c ∷ s) rest (suc k) h = inr (Readable-string s rest k (omega arith))

padded-string :
    (s rest : List ℕ) (k : ℕ)
    → NoNul s
    → length s < k
    → padded k (s ++ (0 ∷ rest)) ≡ s ++ replicate (k - length s) 0
padded-string s rest zero z h = absurd (omega arith)
padded-string [] rest (suc k) z h =
    let e : suc k ≡ suc k - 0 = omega arith in ap (λ (j : ℕ). replicate {A = ℕ} j 0) e
padded-string (c ∷ s) rest (suc k) z h =
    let off : (c == 0) ≡ false = ground (arith, z.0) in
    let e : suc k - suc (length s) ≡ k - length s = omega arith in
    rw (off, e) (ap (◌∷◌ c) (padded-string s rest k z.1 (omega arith)))

-- The block that a process starts with holds its argument.
start-argument :
    (m : Machine) (n : ℕ) (loaded argument : List ℕ)
    → 1 ≤ n
    → n ≤ 6
    → (current_pcb (start m n loaded argument)).argument ≡ argument
unfolding start new_pcb
start-argument m n loaded argument lo hi =
    let here : pcb_mask (kernel_stack n) ≡ pcb_location n = omega arith in
    let self : (pcb_location n == pcb_location n) ≡ true = ground arith in rw (here, self) refl

pub getargs_lem :
    (m : Machine) (buf s rest : List ℕ) (c k : ℕ)
    → (current_pcb m).argument ≡ (c ∷ s) ++ (0 ∷ rest)
    → NoNul (c ∷ s)
    → length (c ∷ s) < k
    → k ≤ length buf
    → getargs m (some buf) (pos k)
      ≡ some (pos 0, ((c ∷ s) ++ replicate (k - length (c ∷ s)) 0) ++ drop k buf)
unfolding getargs
getargs_lem m buf s rest c k at z short room =
    let off : (c == 0) ≡ false = ground (arith, z.0) in
    let e = strncpy_lem buf ((c ∷ s) ++ (0 ∷ rest)) k (Readable-string (c ∷ s) rest k short) room in
    rw (at, off, e, padded-string (c ∷ s) rest k z short)

-- What `getargs` gives a program is the argument of the command line that `execute` was called
-- with. The command names a program that the file system holds, a process is free, and the
-- argument is not empty, has no NUL byte, fits in the control block and is shorter than the number
-- of bytes asked for, for which the buffer has room. The bytes behind the argument become zero.
pub getargs-execute :
    (m : Machine) (command name content argument buf : List ℕ) (c n k : ℕ)
    → IsProgram m.fs name content
    → parse command ≡ some (line_of name, line_of (c ∷ argument))
    → NoNul (c ∷ argument)
    → length (c ∷ argument) < 128
    → IsFirstFree m.process 1 n
    → n ≤ 6
    → length (m.pcbs (pcb_location n)).argument ≡ 128
    → length (c ∷ argument) < k
    → k ≤ length buf
    → (m1 : Machine) × (execute m (some command) ≡ some (entered (start_address content) m1))
      × (getargs m1 (some buf) (pos k)
          ≡ some (pos 0, ((c ∷ argument) ++ replicate (k - length (c ∷ argument)) 0) ++ drop k buf))
getargs-execute m command name content argument buf c n k p words z short free hi size more room =
    let m0 : Machine = record m { current_process_num = (current m.console).process_num } in
    let old = (m.pcbs (pcb_location n)).argument in
    (
      start m0 n content (stored (c ∷ argument) old),
      execute-start m command name (c ∷ argument) content n p words z short free hi size,
      getargs_lem (start m0 n content (stored (c ∷ argument) old)) buf argument
          (drop (suc (length (c ∷ argument))) old) c k
          (start-argument m0 n content (stored (c ∷ argument) old) free.from hi) z more room,
    )
