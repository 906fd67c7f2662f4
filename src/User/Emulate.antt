-- ===== src/User/Emulate.antt =====
-- syscalls/ece391emulate.c, which fish/ece391emulate.c copies: the system calls on Linux. What Linux does is
-- a parameter.
pub mod Words
pub mod Rounds
pub mod Splitting
pub mod Execute
pub mod Arguments
pub mod Roundtrip
pub mod Entries
use virtual_operating_system.Prelude.{
  ℕ, zero, suc, ◌+◌, ◌-◌, ℤ, pos, negsuc, Bool, false, Option, none, some, List, [], ◌∷◌, replicate,
  get_elem?, drop, ltb, leb, ◌==◌, if◌then◌else◌, ◌>>=◌, ◌&&◌, ◌||◌,
}
use virtual_operating_system.Prelude.Int.{to_ℕ}
use virtual_operating_system.FileSystem.{is_zero}
use virtual_operating_system.Strings.{write?, strlen, strcpy_from}
use virtual_operating_system.Console.Printf.{c_string}
use virtual_operating_system.User.{is_minus_one}
use virtual_operating_system.User.Support.{ece391_strcmp}

-- How a child process ended: `WIFEXITED` with its status, or by a signal.
pub data Ended : Type 0 where
  exited signalled : ℕ → Ended

-- Linux and its C library, with the directories that it opens. `spawn` is `fork`, `execv` with a path and
-- its arguments, and `wait`. The three calls with underscores are assembly around `int 0x80`, and
-- `open_call` is one of number 5, with its unsigned result.
pub record Host (S D : Type 0) : Type 0 where
  pub spawn : S → List ℕ → List (List ℕ) → Ended × S
  pub open_call : S → List ℕ → ℕ × S
  pub open_null : S → ℤ × S
  pub opendir : S → Option D × S
  pub readdir : S → D → Option (List ℕ) × S
  pub closedir : S → D → S
  pub close_fd : S → ℤ → S
  pub read_call : S → ℤ → List ℕ → ℤ → ℤ × List ℕ × S
  pub write_call : S → ℤ → List ℕ → ℤ → ℤ × S
  pub close_call : S → ℤ → ℤ × S
  pub open_mem : S → ℤ × S
  pub mmap : S → ℤ → Option ℕ × S

-- The file's static variables, and `mem_fd` of `ece391_vidmap`.
pub record Emulator (S D : Type 0) : Type 0 where
  pub host : S
  pub dir : Option D
  pub dir_fd : ℤ
  pub mem_fd : ℤ

-- `'\0' == *scan || ' ' == *scan || '\n' == *scan`.
abbrev pub stops : ℕ → Bool
stops c = c == 0 || (c == 32 || c == 10)

-- The scan of a word, with `r` bytes left in the array.
unfoldable pub word_end : ℕ → List ℕ → ℕ → Option ℕ
word_end zero buf scan = none
word_end (suc r) buf scan =
    let rest = word_end r buf (suc scan) in
    get_elem? buf scan >>= λ c. if stops c then some scan else rest

-- `while (' ' == *scan) scan++;`.
unfoldable pub blanks_end : ℕ → List ℕ → ℕ → Option ℕ
blanks_end zero buf scan = none
blanks_end (suc r) buf scan =
    let rest = blanks_end r buf (suc scan) in
    get_elem? buf scan >>= λ c. if c == 32 then rest else some scan

-- `if ('\0' != *scan) *scan++ = '\0';`.
unfoldable pub end_word : List ℕ → ℕ → Option (List ℕ × ℕ)
end_word buf scan = get_elem? buf scan >>= λ c.
    if c == 0 then some (buf, scan) else (write? buf scan 0 >>= λ b. some (b, suc scan))

-- The loop over the arguments, with `r` entries of `args` left: the array, and where the arguments
-- begin in it. The last round stores none.
unfoldable pub split_args : ℕ → List ℕ → ℕ → Option (List ℕ × List ℕ)
split_args zero buf scan = none
split_args (suc r) buf scan =
    let more : List ℕ × ℕ → Option (List ℕ × List ℕ) = λ e. split_args r e.0 e.1 in
    blanks_end 1026 buf scan >>= λ s. get_elem? buf s >>= λ c.
    if c == 0 || c == 10
    then (write? buf s 0 >>= λ b. some (b, []))
    else (word_end 1026 buf s >>= λ e. end_word buf e >>= λ w. more w >>= λ a. some (a.0, s ∷ a.1))

-- The strings at the places `at` of the array.
abbrev pub strings : List ℕ → List ℕ → Option (List (List ℕ))
strings buf [] = some []
strings buf (i ∷ at) = c_string (drop i buf) >>= λ s. strings buf at >>= λ ss. some (s ∷ ss)

-- `buf` with `./` and the command in it. Behind the string its contents are indeterminate, and not read.
unfoldable pub command_line : List ℕ → Option (List ℕ)
command_line command = strcpy_from (b'.' ∷ b'/' ∷ replicate 1024 0) command 2

-- The path and the arguments that `execv` gets. Of the 1024 entries of `args` the first is the path and
-- one is the NULL behind the last.
unfoldable pub exec_line : List ℕ → Option (List ℕ × List (List ℕ))
exec_line command = command_line command >>= λ buf. word_end 1026 buf 2 >>= λ scan.
    get_elem? buf scan >>= λ c.
    (if c == 0 then some (buf, []) else (write? buf scan 0 >>= λ b. split_args 1023 b (suc scan)))
    >>= λ a. c_string a.0 >>= λ path. strings a.0 a.1 >>= λ args. some (path, path ∷ args)

-- What the wait for the child gives.
abbrev pub status_of : Ended → ℤ
status_of (exited n) = pos n
status_of (signalled n) = if n == 9 then negsuc 0 else pos 256

-- The copying of `ece391_getargs`, with the arguments left, at `i` in the buffer.
unfoldable pub copy_args : List (List ℕ) → List ℕ → ℕ → ℕ → Option (ℤ × List ℕ)
copy_args [] buf i nbytes =
    if ltb nbytes 1 then some (negsuc 0, buf) else (write? buf i 0 >>= λ b. some (pos 0, b))
copy_args (arg ∷ args) buf i nbytes = strlen arg >>= λ len.
    let left = nbytes - len in
    let j = i + len in
    let next : List ℕ → Option (ℤ × List ℕ) = λ b. copy_args args b (suc j) (left - 1) in
    if ltb nbytes len
    then some (negsuc 0, buf)
    else (strcpy_from buf arg i >>= λ b. elim args [
      | [] ↦ if ltb left 1 then some (negsuc 0, b) else (write? b j 0 >>= λ d. some (pos 0, d))
      | arg' ∷ args' ↦ if ltb left 1 then some (negsuc 0, b) else (write? b j b' ' >>= λ d. next d)
    ])

-- `ece391_getargs`, on the arguments behind the name. A negative size is less than any length and
-- less than 1.
unfoldable pub emulated_getargs : List (List ℕ) → List ℕ → ℤ → Option (ℤ × List ℕ)
emulated_getargs args buf (negsuc n) = some (negsuc 0, buf)
emulated_getargs args buf (pos n) = copy_args args buf 0 n

-- `while (nbytes > copied && 32 > copied)`, with `r` rounds left.
unfoldable pub pad_entry : ℕ → List ℕ → ℕ → ℕ → Option (ℕ × List ℕ)
pad_entry zero buf nbytes copied = some (copied, buf)
pad_entry (suc r) buf nbytes copied =
    let rest = write? buf copied 0 >>= λ b. pad_entry r b nbytes (suc copied) in
    if ltb copied nbytes && ltb copied 32 then rest else some (copied, buf)

-- The copying of a name to `buf` in `ece391_read`, with what is left of the name.
unfoldable pub copy_entry : List ℕ → List ℕ → ℕ → ℕ → Option (ℕ × List ℕ)
copy_entry [] buf nbytes copied = none
copy_entry (c ∷ name) buf nbytes copied =
    let copy = write? buf copied c >>= λ b.
    if suc copied == nbytes
    then some (nbytes, b)
    else if suc copied == 32
    then some (32, b)
    else copy_entry name b nbytes (suc copied) in
    if c == 0 then pad_entry 32 buf nbytes copied else copy

module _ {S D : Type 0} (linux : Host S D) where
  unfoldable pub emulated_execute : Emulator S D → List ℕ → Option (ℤ × Emulator S D)
  emulated_execute st command = strlen command >>= λ n.
      if ltb 1023 n
      then some (negsuc 0, st)
      else (exec_line command >>= λ e.
          let r = linux.spawn st.host e.0 e.1 in some (status_of r.0, record st { host = r.1 }))

  unfoldable pub emulated_open : Emulator S D → List ℕ → Option (ℤ × Emulator S D)
  emulated_open st filename = ece391_strcmp filename (b'.' ∷ 0 ∷ []) >>= λ z.
      if is_zero z
      then (let d = linux.opendir st.host in
          let n = linux.open_null d.1 in
          some (n.0, record st { host = n.1; dir = d.0; dir_fd = n.0 }))
      else (let r = linux.open_call st.host filename in
          let st1 = record st { host = r.1 } in
          if ltb 0xFFFFC000 r.0
          then some (negsuc 0, st1)
          else if ltb r.0 0x80000000
          then some (pos r.0, st1)
          else some (negsuc (0xFFFFFFFF - r.0), st1))

  -- `dir_fd == fd`.
  abbrev pub same_fd : ℤ → ℤ → Bool
  same_fd (pos a) (pos b) = a == b
  same_fd (pos a) (negsuc b) = false
  same_fd (negsuc a) (pos b) = false
  same_fd (negsuc a) (negsuc b) = a == b

  -- The directory, if `fd` is open on it.
  abbrev pub dir_at : Emulator S D → ℤ → Option D
  dir_at st fd = st.dir >>= λ d. if same_fd st.dir_fd fd then some d else none

  -- What `readdir` has found is copied. A negative size is never reached by the count.
  unfoldable pub read_entry :
      Option (List ℕ) → List ℕ → ℤ → Emulator S D → Option (ℤ × List ℕ × Emulator S D)
  read_entry none buf nbytes st = some (pos 0, buf, st)
  read_entry (some name) buf nbytes st =
      copy_entry name buf (to_ℕ nbytes) 0 >>= λ c. some (pos c.0, c.1, st)

  unfoldable pub read_from :
      Option D → Emulator S D → ℤ → List ℕ → ℤ → Option (ℤ × List ℕ × Emulator S D)
  unfolding read_entry
  read_from none st fd buf nbytes =
      let r = linux.read_call st.host fd buf nbytes in some (r.0, r.1, record st { host = r.2 })
  read_from (some d) st fd buf nbytes =
      let e = linux.readdir st.host d in read_entry e.0 buf nbytes (record st { host = e.1 })

  unfoldable pub emulated_read : Emulator S D → ℤ → List ℕ → ℤ → Option (ℤ × List ℕ × Emulator S D)
  unfolding read_from
  emulated_read st fd buf nbytes = read_from (dir_at st fd) st fd buf nbytes

  unfoldable pub emulated_write : Emulator S D → ℤ → List ℕ → ℤ → ℤ × Emulator S D
  emulated_write st fd buf nbytes = elim (dir_at st fd) [
    | none ↦ let r = linux.write_call st.host fd buf nbytes in (r.0, record st { host = r.1 })
    | some d ↦ (negsuc 0, st)
  ]

  unfoldable pub emulated_close : Emulator S D → ℤ → ℤ × Emulator S D
  emulated_close st fd = elim (dir_at st fd) [
    | none ↦ let r = linux.close_call st.host fd in (r.0, record st { host = r.1 })
    | some d ↦
        let closed = linux.close_fd (linux.closedir st.host d) st.dir_fd in
        (pos 0, record st { host = closed; dir = none; dir_fd = negsuc 0 })
  ]

  -- The address of the screen, where there is one.
  unfoldable pub emulated_vidmap : Emulator S D → ℤ × Option ℕ × Emulator S D
  emulated_vidmap st =
      let opened = linux.open_mem st.host in
      let st1 =
        if is_minus_one st.mem_fd then record st { host = opened.1; mem_fd = opened.0 } else st in
      let r = linux.mmap st1.host st1.mem_fd in
      elim r.0 [
        | none ↦ (negsuc 0, none, record st1 { host = r.1 })
        | some image ↦ (pos 0, some (image + 0xb8000), record st1 { host = r.1 })
      ]
