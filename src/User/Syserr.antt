-- ===== src/User/Syserr.antt =====
-- syscalls/ece391syserr.c: the tests that a program runs on the system calls. A test ends with 0 if
-- it passes and with 2 if it fails. The arrays `buf` have indeterminate contents.
pub mod Messages
pub mod Kernel
use virtual_operating_system.Prelude.{
  ℕ, zero, suc, ◌+◌, ℤ, pos, negsuc, Option, none, some, List, get_elem?, ◌==◌, if◌then◌else◌,
  ◌>>=◌,
}
use virtual_operating_system.User.{Calls, Exit, is_minus_one, fdputs, give_up}
use virtual_operating_system.User.Syserr.Messages.{
  read_fail, write_fail, close_fail, neg_fd_failed, neg_fd_passed, big_fd_failed, big_fd_passed,
  open_lots_failed, open_lots_passed, open_failed, open_passed, unopened_failed, unopened_passed,
  vidmap_failed, vidmap_passed, stdin_out_failed, stdin_out_passed, syscall_num_failed,
  syscall_num_passed, dot, helloo, helloo_fail, shel, shel_fail, empty, empty_fail,
  close_unopened_fail, read_unopened_fail, write_unopened_fail, null_fail, kernel_fail, stdin_fail,
  stdout_fail, zero_call_fail, big_call_fail, neg_call_fail, choose, cannot_read, overall_failed,
  overall_passed, invalid_number,
}

-- `NEG_FD`, which is also `NEG_NUM`, and `BIG_FD`, which is also `BIG_NUM`.
abbrev pub neg_fd : ℤ
neg_fd = negsuc 1073741822

abbrev pub big_fd : ℤ
big_fd = pos 1073741823

module _ {S : Type 0} (sys : Calls S) where
  -- A call that is to be refused, with `fail` before it: if it is not, the message and 2.
  abbrev pub refused : ℕ → List ℕ → ℤ × S → Exit S
  refused fail message r =
      if is_minus_one r.0
      then some (fail, r.1)
      else (fdputs sys r.1 (pos 1) message >>= λ st. some (2, st))

  abbrev pub read_refused : ℕ → List ℕ → ℤ × List ℕ × S → Option (ℕ × List ℕ × S)
  read_refused fail message r = refused fail message (r.0, r.2) >>= λ e. some (e.0, r.1, e.1)

  -- The last lines of a test.
  abbrev pub verdict : List ℕ → List ℕ → ℕ × S → Exit S
  verdict failed passed e =
      fdputs sys e.1 (pos 1) (if e.0 == 0 then passed else failed) >>= λ st. some (e.0, st)

  -- The three calls that `err_neg_fd` and `err_big_fd` make.
  unfoldable pub try_fd : ℤ → S → List ℕ → Exit S
  try_fd fd st buf = sys.read st fd buf (pos 31) >>= read_refused 0 read_fail >>= λ a.
      sys.write a.2 fd a.1 (pos 31) >>= refused a.0 write_fail >>= λ b.
      sys.close b.1 fd >>= refused b.0 close_fail

  unfoldable pub err_neg_fd : S → List ℕ → Exit S
  unfolding try_fd
  err_neg_fd st buf = try_fd neg_fd st buf >>= verdict neg_fd_failed neg_fd_passed

  unfoldable pub err_big_fd : S → List ℕ → Exit S
  unfolding try_fd
  err_big_fd st buf = try_fd big_fd st buf >>= verdict big_fd_failed big_fd_passed

  -- `for (i = 0; i < 7; i++)` with `r` rounds left: how many opens are refused.
  unfoldable pub open_lots_loop : ℕ → ℕ → S → Exit S
  open_lots_loop zero cnt st = some (cnt, st)
  open_lots_loop (suc r) cnt st =
      sys.open_file st dot >>= λ o. open_lots_loop r (if is_minus_one o.0 then cnt + 1 else cnt) o.1

  -- The closes of `i` and on, with `r` left. The results are not looked at.
  unfoldable pub close_lots : ℕ → ℕ → S → Option S
  close_lots zero i st = some st
  close_lots (suc r) i st = sys.close st (pos i) >>= λ c. close_lots r (i + 1) c.1

  unfoldable pub err_open_lots : S → Exit S
  unfolding open_lots_loop close_lots
  err_open_lots st = open_lots_loop 7 0 st >>= λ o. close_lots 6 2 o.1 >>= λ st'.
      if o.0 == 1 then give_up sys st' open_lots_passed 0 else give_up sys st' open_lots_failed 2

  unfoldable pub err_open : S → Exit S
  err_open st = sys.open_file st helloo >>= refused 0 helloo_fail >>= λ a.
      sys.open_file a.1 shel >>= refused a.0 shel_fail >>= λ b.
      sys.open_file b.1 empty >>= refused b.0 empty_fail >>= verdict open_failed open_passed

  -- The three loops of `err_unopened`, each with `r` rounds left, at `i`.
  unfoldable pub unopened_closes : ℕ → ℕ → ℕ → S → Exit S
  unopened_closes zero i fail st = some (fail, st)
  unopened_closes (suc r) i fail st =
      sys.close st (pos i) >>= refused fail close_unopened_fail >>= λ e.
      unopened_closes r (i + 1) e.0 e.1

  unfoldable pub unopened_reads : ℕ → ℕ → ℕ → S → List ℕ → Option (ℕ × List ℕ × S)
  unopened_reads zero i fail st buf = some (fail, buf, st)
  unopened_reads (suc r) i fail st buf =
      sys.read st (pos i) buf (pos 31) >>= read_refused fail read_unopened_fail >>= λ e.
      unopened_reads r (i + 1) e.0 e.2 e.1

  unfoldable pub unopened_writes : ℕ → ℕ → ℕ → S → List ℕ → Exit S
  unopened_writes zero i fail st buf = some (fail, st)
  unopened_writes (suc r) i fail st buf =
      sys.write st (pos i) buf (pos 31) >>= refused fail write_unopened_fail >>= λ e.
      unopened_writes r (i + 1) e.0 e.1 buf

  unfoldable pub err_unopened : S → List ℕ → Exit S
  unfolding unopened_closes unopened_reads unopened_writes
  err_unopened st buf = unopened_closes 8 0 0 st >>= λ a. unopened_reads 6 2 a.0 a.1 buf >>= λ b.
      unopened_writes 6 2 b.0 b.2 b.1 >>= verdict unopened_failed unopened_passed

  unfoldable pub err_vidmap : S → Exit S
  err_vidmap st = sys.vidmap st 0 >>= refused 0 null_fail >>= λ a.
      sys.vidmap a.1 0x400000 >>= refused a.0 kernel_fail >>= verdict vidmap_failed vidmap_passed

  unfoldable pub err_stdin_out : S → List ℕ → Exit S
  err_stdin_out st buf = sys.write st (pos 0) buf (pos 31) >>= refused 0 stdin_fail >>= λ a.
      sys.read a.1 (pos 1) buf (pos 31) >>= read_refused a.0 stdout_fail >>= λ b.
      verdict stdin_out_failed stdin_out_passed (b.0, b.2)

  unfoldable pub err_syscall_num : S → Exit S
  err_syscall_num st = sys.call_sys st big_fd >>= refused 0 zero_call_fail >>= λ a.
      sys.call_sys a.1 neg_fd >>= refused a.0 big_call_fail >>= λ b.
      sys.call_sys b.1 (pos 0)
      >>= refused b.0 neg_call_fail
      >>= verdict syscall_num_failed syscall_num_passed

  -- `case 0` of `main`: all tests, each with its own array.
  unfoldable pub run_all : S → List ℕ → Exit S
  unfolding err_neg_fd err_big_fd err_open_lots err_open err_unopened err_vidmap err_stdin_out
      err_syscall_num
  run_all st buf = err_neg_fd st buf >>= λ a. err_big_fd a.1 buf >>= λ b. err_open_lots b.1 >>= λ c.
      err_open c.1 >>= λ d. err_unopened d.1 buf >>= λ e. err_vidmap e.1 >>= λ f.
      err_stdin_out f.1 buf >>= λ g. err_syscall_num g.1 >>= λ h.
      let fail = a.0 + b.0 + c.0 + d.0 + e.0 + f.0 + g.0 + h.0 in
      give_up sys h.1 (if fail == 0 then overall_passed else overall_failed) fail

  -- The `switch` of `main` on the byte typed.
  unfoldable pub run_one : ℕ → S → List ℕ → Exit S
  unfolding run_all
  run_one c st buf =
      if c == b'0'
      then run_all st buf
      else if c == b'1'
      then err_neg_fd st buf
      else if c == b'2'
      then err_big_fd st buf
      else if c == b'3'
      then err_open_lots st
      else if c == b'4'
      then err_open st
      else if c == b'5'
      then err_unopened st buf
      else if c == b'6'
      then err_vidmap st
      else if c == b'7'
      then err_stdin_out st buf
      else if c == b'8'
      then err_syscall_num st
      else give_up sys st invalid_number 0

  -- `main`, with its array `line` of 128 bytes.
  unfoldable pub syserr : S → List ℕ → List ℕ → Exit S
  unfolding run_one
  syserr st line buf = fdputs sys st (pos 1) choose >>= λ s1.
      sys.read s1 (pos 0) line (pos 127) >>= λ r.
      if is_minus_one r.0
      then give_up sys r.2 cannot_read 2
      else (get_elem? r.1 0 >>= λ c. run_one c r.2 buf)
