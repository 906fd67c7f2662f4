-- ===== src/User/Grep.antt =====
-- syscalls/ece391grep.c.
pub mod Search
use virtual_operating_system.Prelude.{
  ℕ, zero, suc, ◌+◌, ◌-◌, ℤ, pos, Bool, true, false, not, Option, none, some, List, [], ◌∷◌, drop,
  get_elem?, leb, ◌==◌, if◌then◌else◌, ◌>>=◌, ◌&&◌,
}
use virtual_operating_system.FileSystem.{is_zero}
use virtual_operating_system.Strings.{write?, strlen}
use virtual_operating_system.User.{Calls, is_minus_one, index, fdputs, Exit, give_up}
use virtual_operating_system.User.Support.{ece391_strncmp}
use virtual_operating_system.User.Ls.{directory, open_failed, entry_failed}

-- `"file open failed\n"`.
abbrev pub file_open_failed : List ℕ
file_open_failed =
    102 ∷ 105 ∷ 108 ∷ 101 ∷ 32 ∷ 111 ∷ 112 ∷ 101 ∷ 110 ∷ 32 ∷ 102 ∷ 97 ∷ 105 ∷ 108 ∷ 101 ∷ 100 ∷ 10
    ∷ 0 ∷ []

-- `"file read failed\n"`.
abbrev pub file_read_failed : List ℕ
file_read_failed =
    102 ∷ 105 ∷ 108 ∷ 101 ∷ 32 ∷ 114 ∷ 101 ∷ 97 ∷ 100 ∷ 32 ∷ 102 ∷ 97 ∷ 105 ∷ 108 ∷ 101 ∷ 100 ∷ 10
    ∷ 0 ∷ []

-- `"file close failed\n"`.
abbrev pub file_close_failed : List ℕ
file_close_failed =
    102 ∷ 105 ∷ 108 ∷ 101 ∷ 32 ∷ 99 ∷ 108 ∷ 111 ∷ 115 ∷ 101 ∷ 32 ∷ 102 ∷ 97 ∷ 105 ∷ 108 ∷ 101 ∷ 100
    ∷ 10 ∷ 0 ∷ []

-- `":"`.
abbrev pub colon : List ℕ
colon = 58 ∷ 0 ∷ []

-- `"\n"`.
abbrev pub newline : List ℕ
newline = 10 ∷ 0 ∷ []

-- `"could not read argument\n"`.
abbrev pub no_argument : List ℕ
no_argument =
    99 ∷ 111 ∷ 117 ∷ 108 ∷ 100 ∷ 32 ∷ 110 ∷ 111 ∷ 116 ∷ 32 ∷ 114 ∷ 101 ∷ 97 ∷ 100 ∷ 32 ∷ 97 ∷ 114
    ∷ 103 ∷ 117 ∷ 109 ∷ 101 ∷ 110 ∷ 116 ∷ 10 ∷ 0 ∷ []

-- `while (line_end < last && '\n' != data[line_end]) line_end++;` with `r` bytes left up to `last`.
unfoldable pub find_end : ℕ → List ℕ → ℕ → Option ℕ
find_end zero buf line_end = some line_end
find_end (suc r) buf line_end =
    let rest = find_end r buf (suc line_end) in
    get_elem? buf line_end >>= λ c. if c == 10 then some line_end else rest

-- `ece391_strcpy (data, data + line_start)`: the copy is within one array, from the index `from` to
-- the index `to`, with `r` bytes left up to the end of the array.
unfoldable pub move_down : ℕ → List ℕ → ℕ → ℕ → Option (List ℕ)
move_down zero buf from to = none
move_down (suc r) buf from to = get_elem? buf from >>= λ c. write? buf to c >>= λ b.
    let rest = move_down r b (suc from) (suc to) in if c == 0 then some b else rest

-- The search of the line from `check` on, with `r` positions left: whether `s` is found.
unfoldable pub search_line : ℕ → List ℕ → List ℕ → ℕ → ℕ → Option Bool
search_line zero s buf s_len check = some false
search_line (suc r) s buf s_len check =
    let rest = search_line r s buf s_len (suc check) in
    get_elem? s 0 >>= λ a. get_elem? buf check >>= λ b.
    if a == b
    then (ece391_strncmp (drop check buf) s s_len >>= λ z. if is_zero z then some true else rest)
    else rest

-- The array, with what was read behind its first `last` bytes.
abbrev pub refill : ℕ → List ℕ → List ℕ → List ℕ
refill zero buf tail = tail
refill (suc last) [] tail = tail
refill (suc last) (x ∷ buf) tail = x ∷ refill last buf tail

module _ {S : Type 0} (sys : Calls S) where
  -- The name of the file, and the line.
  unfoldable pub print_line : S → List ℕ → List ℕ → Option S
  print_line st fname line = fdputs sys st (pos 1) fname >>= λ s1.
      fdputs sys s1 (pos 1) colon >>= λ s2.
      fdputs sys s2 (pos 1) line >>= λ s3. fdputs sys s3 (pos 1) newline

  -- The loop over the lines of `data`, on fuel: the new `last`, the data and the state. The byte at
  -- `line_end` is looked at also where `line_end` is `last`.
  unfoldable pub lines_loop :
      ℕ → S → List ℕ → List ℕ → ℕ → ℕ → ℕ → ℕ → List ℕ → Option (ℕ × List ℕ × S)
  unfolding find_end move_down search_line print_line
  lines_loop zero st s fname s_len cnt line_start last buf = none
  lines_loop (suc f) st s fname s_len cnt line_start last buf =
      let more : S → ℕ → List ℕ → Option (ℕ × List ℕ × S) =
        λ st' start buf'. lines_loop f st' s fname s_len cnt start last buf' in
      find_end (last - line_start) buf line_start >>= λ line_end. get_elem? buf line_end >>= λ c.
      write? buf line_end 0 >>= λ b.
      if not (c == 10) && not (cnt == 0) && not (line_start == 0)
      then (move_down (suc last) b line_start 0 >>= λ moved. some (last - line_start, moved, st))
      else (search_line (line_end - line_start) s b s_len line_start >>= λ found.
          (if found then print_line st fname (drop line_start b) else some st) >>= λ st'.
          if leb last (line_end + 1) then some (0, b, st') else more st' (line_end + 1) b)

  -- The loop that reads the file, on fuel, with `last` bytes of an unfinished line in `data`.
  unfoldable pub grep_loop : ℕ → S → ℤ → List ℕ → List ℕ → ℕ → ℕ → List ℕ → Option (Bool × S)
  unfolding lines_loop
  grep_loop zero st fd s fname s_len last buf = none
  grep_loop (suc f) st fd s fname s_len last buf =
      let more : S → ℕ → List ℕ → Option (Bool × S) =
        λ st' last' buf'. grep_loop f st' fd s fname s_len last' buf' in
      sys.read st fd (drop last buf) (pos (1024 - last)) >>= λ r.
      if is_minus_one r.0
      then (fdputs sys r.2 (pos 1) file_read_failed >>= λ st'. some (false, st'))
      else (index r.0 >>= λ cnt.
          lines_loop (suc (last + cnt)) r.2 s fname s_len cnt 0 (last + cnt) (refill last buf r.1)
          >>= λ l. if cnt == 0 then some (true, l.2) else more l.2 l.0 l.1)

  -- Whether the file was searched to the end (0 in the code, not -1), with the array `data` of 1025
  -- bytes.
  unfoldable pub do_one_file : ℕ → S → List ℕ → List ℕ → List ℕ → Option (Bool × S)
  unfolding grep_loop
  do_one_file f st s fname buf = strlen s >>= λ s_len. sys.open_file st fname >>= λ o.
      if is_minus_one o.0
      then (fdputs sys o.1 (pos 1) file_open_failed >>= λ st'. some (false, st'))
      else (grep_loop f o.1 o.0 s fname s_len 0 buf >>= λ g.
          if not g.0
          then some g
          else (sys.close g.1 o.0 >>= λ c.
              if is_minus_one c.0
              then (fdputs sys c.1 (pos 1) file_close_failed >>= λ st'. some (false, st'))
              else some (true, c.1)))

  -- The loop over the entries of the directory, on fuel. Each call has a fresh array `data`.
  unfoldable pub files_loop : ℕ → S → ℤ → List ℕ → List ℕ → List ℕ → Exit S
  unfolding do_one_file
  files_loop zero st fd search buf fresh = none
  files_loop (suc f) st fd search buf fresh =
      let more : S → List ℕ → Exit S = λ st' buf'. files_loop f st' fd search buf' fresh in
      sys.read st fd buf (pos 32) >>= λ r.
      if is_zero r.0
      then some (0, r.2)
      else if is_minus_one r.0
      then give_up sys r.2 entry_failed 3
      else (get_elem? r.1 0 >>= λ first.
          if first == b'.'
          then more r.2 r.1
          else (index r.0 >>= λ cnt. write? r.1 cnt 0 >>= λ b.
              do_one_file f r.2 search b fresh >>= λ g. if g.0 then more g.1 b else some (3, g.1)))

  -- `main`, with the arrays `buf` of 33 and `search` of 1024 bytes.
  unfoldable pub grep : ℕ → S → List ℕ → List ℕ → List ℕ → Exit S
  unfolding files_loop
  grep f st buf search fresh = sys.getargs st search (pos 1024) >>= λ a.
      if not (is_zero a.0)
      then give_up sys a.2 no_argument 3
      else (sys.open_file a.2 directory >>= λ o.
          if is_minus_one o.0
          then give_up sys o.1 open_failed 2
          else files_loop f o.1 o.0 a.1 buf fresh)
