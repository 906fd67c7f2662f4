-- ===== src/Syscall.antt =====
-- student-distrib/syscall.c: the file system calls. A result `none` is a fault: a call through a
-- NULL pointer, or an access outside an object.
pub mod Files
pub mod Errors
use virtual_operating_system.Prelude.{
  ℕ, zero, suc, ◌+◌, ◌-◌, ◌*◌, ◌/◌, ◌%◌, ◌^◌, ℤ, pos, negsuc, Bool, true, false, Option, none, some,
  List, [], ◌∷◌, get_elem?, set, length, get_or, ltb, leb, ◌==◌, if◌then◌else◌, ◌>>=◌, ◌||◌,
}
use virtual_operating_system.Prelude.Int.{is_neg, to_ℕ}
use virtual_operating_system.Strings.{strncpy}
use virtual_operating_system.Console.Output.{Console}
use virtual_operating_system.FileSystem.{
  FileSystem, read_data, read_dentry_by_name, dir_read, dir_open, dir_write, dir_close, file_open,
  file_write, file_close, file_type, inode_num, blank_dentry, little_endian, Dentry, word, is_zero,
}
use virtual_operating_system.Rtc.{Rtc, rtc_write, rtc_open, rtc_close, rtc_read_start, int_bits}
use virtual_operating_system.Terminal.{
  Reading, waits, returns, terminal_read, terminal_write, terminal_close,
}
use virtual_operating_system.Machine.{
  Machine, Fops, rtc, dir, file, term, FileDesc, Pcb, current_pcb, set_fd, fd_n,
}

-- `fd < 0 || fd >= FD_N || buf == NULL || nbytes < 0 || fd == barred`. A NULL buffer is `none`.
unfoldable pub bad_call : ℕ → ℤ → Option (List ℕ) → ℤ → Bool
bad_call barred fd none nbytes = true
bad_call barred (negsuc n) (some b) nbytes = true
bad_call barred (pos n) (some b) nbytes = leb fd_n n || is_neg nbytes || n == barred

-- `file_read` on a descriptor `d` of the current process.
unfoldable pub file_read : Machine → ℕ → FileDesc → List ℕ → ℕ → Option (ℤ × List ℕ × Machine)
file_read m fd d buf nbytes = read_data m.fs d.inode d.file_pos buf nbytes >>= λ r. some (
  r.0,
  r.1,
  set_fd m fd (record d {
    file_pos = (if is_neg r.0 then d.file_pos + word - 1 else d.file_pos + to_ℕ r.0) % word;
  }),
)

-- What `fops->read` does. A read of the clock sets the flag and waits for the next tick, and a read
-- of a terminal waits for a line.
unfoldable pub read_with :
    Fops → Machine → ℕ → FileDesc → List ℕ → ℕ → Option (Reading Machine (ℤ × List ℕ × Machine))
unfolding file_read
read_with rtc m fd d buf nbytes =
    some (waits (record m { clock = rtc_read_start m.console.terminal_num m.clock }))
read_with dir m fd d buf nbytes =
    dir_read m.fs buf nbytes >>= λ r. some (returns (r.0, r.1, record m { fs = r.2 }))
read_with file m fd d buf nbytes = file_read m fd d buf nbytes >>= λ r. some (returns r)
read_with term m fd d buf nbytes = terminal_read m.console buf nbytes >>= elim [
  | waits k ↦ some (waits (record m { console = k }))
  | returns r ↦ some (returns (r.0, r.1, record m { console = r.2 }))
]

unfoldable pub call_read :
    Option Fops
    → Machine
    → ℕ
    → FileDesc
    → List ℕ
    → ℕ
    → Option (Reading Machine (ℤ × List ℕ × Machine))
unfolding read_with
call_read none m fd d buf nbytes = none
call_read (some f) m fd d buf nbytes = read_with f m fd d buf nbytes

-- The bytes of the buffer after a call that fails or that is given NULL.
abbrev pub bytes_of : Option (List ℕ) → List ℕ
bytes_of none = []
bytes_of (some b) = b

unfoldable pub read :
    Machine → ℤ → Option (List ℕ) → ℤ → Option (Reading Machine (ℤ × List ℕ × Machine))
unfolding bad_call call_read
read m fd buf nbytes =
    let b = bytes_of buf in
    if bad_call 1 fd buf nbytes
    then some (returns (negsuc 0, b, m))
    else (get_elem? (current_pcb m).file_desc_array (to_ℕ fd) >>= λ d.
        if d.flags == 0
        then some (returns (negsuc 0, b, m))
        else call_read d.fops m (to_ℕ fd) d b (to_ℕ nbytes))

-- `*((int*)buf)`.
abbrev pub int_at : List ℕ → ℤ
int_at b = let v = little_endian b in if ltb v (2 ^ 31) then pos v else negsuc (2 ^ 32 - 1 - v)

unfoldable pub write_with : Fops → Machine → List ℕ → ℕ → Option (ℤ × Machine)
write_with rtc m buf nbytes =
    rtc_write int_bits (int_at buf) m.clock >>= λ r. some (r.0, record m { clock = r.1 })
write_with dir m buf nbytes = some (dir_write, m)
write_with file m buf nbytes = some (file_write, m)
write_with term m buf nbytes =
    terminal_write m.console buf nbytes >>= λ r. some (r.0, record m { console = r.1 })

unfoldable pub call_write : Option Fops → Machine → List ℕ → ℕ → Option (ℤ × Machine)
unfolding write_with
call_write none m buf nbytes = none
call_write (some f) m buf nbytes = write_with f m buf nbytes

-- Unlike `read`, `write` does not look at `flags`.
unfoldable pub write : Machine → ℤ → Option (List ℕ) → ℤ → Option (ℤ × Machine)
unfolding bad_call call_write
write m fd buf nbytes =
    if bad_call 0 fd buf nbytes
    then some (negsuc 0, m)
    else (get_elem? (current_pcb m).file_desc_array (to_ℕ fd) >>= λ d.
        call_write d.fops m (bytes_of buf) (to_ℕ nbytes))

-- The `switch` on the file type. Another type leaves the operations as they are. The calls of
-- `rtc_open`, `dir_open` and `file_open` return 0, so the code's checks of that never fail.
unfoldable pub open_type : Machine → FileDesc → Dentry → Option (FileDesc × Machine)
open_type m d e =
    let t = file_type e in
    if t == 0
    then (rtc_open m.clock >>= λ r.
        some (record d { fops = some rtc; inode = 0 }, record m { clock = r.1 }))
    else if t == 1
    then some (record d { fops = some dir; inode = 0 }, record m { fs = (dir_open m.fs).1 })
    else if t == 2
    then some (record d { fops = some file; inode = inode_num e }, m)
    else some (d, m)

-- The search for a free slot, with `r` slots left, from `i`.
unfoldable pub open_slot : Machine → Dentry → ℕ → ℕ → Option (ℤ × Machine)
unfolding open_type
open_slot m e zero i = some (negsuc 0, m)
open_slot m e (suc r) i =
    let rest = open_slot m e r (suc i) in
    get_elem? (current_pcb m).file_desc_array i >>= λ d.
    if d.flags == 0
    then (open_type m d e >>= λ o.
        some (pos i, set_fd o.1 i (record o.0 { flags = 1; file_pos = 0 })))
    else rest

-- The dentry that the look-up has filled in.
abbrev pub dentry_or_blank : Option Dentry → Dentry
dentry_or_blank none = blank_dentry
dentry_or_blank (some e) = e

unfoldable pub open_file : Machine → Option (List ℕ) → Option (ℤ × Machine)
unfolding open_slot
open_file m none = some (negsuc 0, m)
open_file m (some filename) = read_dentry_by_name m.fs filename (some blank_dentry) >>= λ r.
    if is_zero r.0 then open_slot m (dentry_or_blank r.1) (fd_n - 2) 2 else some (negsuc 0, m)

-- Every `fops->close` returns 0.
unfoldable pub close_with : Fops → ℤ
unfolding rtc_close dir_close file_close terminal_close
close_with rtc = rtc_close
close_with dir = dir_close
close_with file = file_close
close_with term = terminal_close

unfoldable pub call_close : Option Fops → Option ℤ
unfolding close_with
call_close none = none
call_close (some f) = some (close_with f)

unfoldable pub close : Machine → ℤ → Option (ℤ × Machine)
unfolding call_close
close m (negsuc n) = some (negsuc 0, m)
close m (pos fd) =
    if leb fd 1 || leb fd_n fd
    then some (negsuc 0, m)
    else (get_elem? (current_pcb m).file_desc_array fd >>= λ d.
        if d.flags == 0
        then some (negsuc 0, m)
        else (call_close d.fops >>= λ s.
            some (if is_zero s then pos 0 else negsuc 0, set_fd m fd (record d { flags = 0 }))))

unfoldable pub getargs : Machine → Option (List ℕ) → ℤ → Option (ℤ × List ℕ)
getargs m none nbytes = some (negsuc 0, [])
getargs m (some buf) (negsuc n) = some (negsuc 0, buf)
getargs m (some buf) (pos n) = get_elem? (current_pcb m).argument 0 >>= λ c.
    if c == 0
    then some (negsuc 0, buf)
    else (strncpy buf (current_pcb m).argument n >>= λ b. some (pos 0, b))
