-- ===== src/Fish.antt =====
-- fish/fish.c: the demonstration program, over the system calls. The blinking itself is the assembly of
-- fish/blink.S, a parameter.
pub mod Blocks
use virtual_operating_system.Prelude.{
  ℕ, zero, suc, ◌+◌, ◌*◌, ◌-◌, ℤ, pos, negsuc, Bool, true, false, not, Option, none, some, List, [],
  ◌∷◌, replicate, get_elem?, set, length, ltb, ◌==◌, if◌then◌else◌, ◌>>=◌, ◌&&◌, ◌||◌,
}
use virtual_operating_system.Prelude.Int.{is_neg}
use virtual_operating_system.FileSystem.{is_zero}
use virtual_operating_system.Strings.{write?}
use virtual_operating_system.User.{Calls, is_minus_one}

-- `struct mp1_blink_struct`.
pub record Blink : Type 0 where
  pub location : ℕ
  pub on_char : ℕ
  pub off_char : ℕ
  pub on_length : ℕ
  pub off_length : ℕ
  pub countdown : ℕ
  pub status : ℕ
  pub next : ℕ

abbrev pub zeroed : Blink
zeroed = record {
  location = 0;
  on_char = 0;
  off_char = 0;
  on_length = 0;
  off_length = 0;
  countdown = 0;
  status = 0;
  next = 0;
}

-- `blink_array`.
abbrev pub Blocks : Type 0
Blocks = List Blink

abbrev pub blocks : ℕ
blocks = 80 * 25

-- `ece391_memset` with the byte 0 on one block, the only use of it.
unfoldable pub clear_block : Blocks → ℕ → Option Blocks
clear_block array i = if ltb i (length array) then some (set array i zeroed) else none

-- The search for a block whose location is 0, with `r` blocks left, from `i`. NULL is `none`.
unfoldable pub free_block : ℕ → Blocks → ℕ → Option (Option ℕ)
free_block zero array i = some none
free_block (suc r) array i =
    let rest = free_block r array (suc i) in
    get_elem? array i >>= λ b. if b.location == 0 then some (some i) else rest

-- The size is not looked at.
unfoldable pub mp1_malloc : Blocks → ℤ → Option (Option ℕ)
mp1_malloc array size = free_block blocks array 0

unfoldable pub mp1_free : Blocks → ℕ → Option Blocks
unfolding clear_block
mp1_free array i = clear_block array i

-- `ece391_memcpy`, with `r` bytes left, from the index `i`.
unfoldable pub memcpy_from : ℕ → List ℕ → List ℕ → ℕ → Option (List ℕ)
memcpy_from zero dest src i = some dest
memcpy_from (suc r) dest src i =
    get_elem? src i >>= λ c. write? dest i c >>= λ d. memcpy_from r d src (suc i)

unfoldable pub ece391_memcpy : List ℕ → List ℕ → ℕ → Option (ℤ × List ℕ)
unfolding memcpy_from
ece391_memcpy dest src n = memcpy_from n dest src 0 >>= λ d. some (pos 0, d)

-- The program's state: the system, the blocks, and the address of the screen.
pub record Fish (S : Type 0) : Type 0 where
  pub sys : S
  pub blink_array : Blocks

-- The functions of fish/blink.S, and where the address of the screen is stored.
pub record Mp1 (S : Type 0) : Type 0 where
  pub mp1_ioctl_add : Blink → Fish S → Fish S
  pub mp1_ioctl : ℕ → ℕ → Fish S → Fish S
  pub mp1_rtc_tasklet : List ℕ → Fish S → Fish S
  pub vmem_base_addr : ℕ

-- How a function ends that may call `ece391_halt`.
pub data Ending (S : Type 0) : Type 0 where
  halts : ℕ → Fish S → Ending S
  returns : Fish S → Ending S

-- A file that is read byte by byte: its descriptor, the last byte, and whether it has ended.
pub record Source : Type 0 where
  pub fd : ℤ
  pub c : ℕ
  pub eof : Bool

abbrev pub newline : ℕ
newline = 10

abbrev pub rtc_add : ℕ
rtc_add = 0

abbrev pub rtc_remove : ℕ
rtc_remove = 1

abbrev pub rtc_sync : ℕ
rtc_sync = 3

-- `"rtc"`.
abbrev pub rtc_name : List ℕ
rtc_name = 114 ∷ 116 ∷ 99 ∷ 0 ∷ []

-- `"frame0.txt"`.
abbrev pub file0 : List ℕ
file0 = 102 ∷ 114 ∷ 97 ∷ 109 ∷ 101 ∷ 48 ∷ 46 ∷ 116 ∷ 120 ∷ 116 ∷ 0 ∷ []

-- `"frame1.txt"`.
abbrev pub file1 : List ℕ
file1 = 102 ∷ 114 ∷ 97 ∷ 109 ∷ 101 ∷ 49 ∷ 46 ∷ 116 ∷ 120 ∷ 116 ∷ 0 ∷ []

module _ {S : Type 0} (sys : Calls S) (mp1 : Mp1 S) where
  -- `if (c != '\n') { ... }`: the next byte, where the line has not ended.
  unfoldable pub next_byte : Fish S → Source → Option (Source × Fish S)
  next_byte st f =
      let got = sys.read st.sys f.fd (f.c ∷ []) (pos 1) >>= λ r. get_elem? r.1 0 >>= λ c. some (
        if is_zero r.0 then record f { c = newline; eof = true } else record f { c = c },
        record st { sys = r.2 },
      ) in
      if f.c == newline then some (f, st) else got

  -- `(c == '\n') ? ' ' : c`.
  abbrev pub shown_byte : ℕ → ℕ
  shown_byte c = if c == newline then 32 else c

  abbrev pub is_blank : ℕ → Bool
  is_blank c = c == 32 || c == newline

  -- The block for the two bytes at a place of the screen.
  abbrev pub blink_at : ℕ → ℕ → ℕ → ℕ → Blink
  blink_at row col c0 c1 = record zeroed {
    on_char = shown_byte c0;
    off_char = shown_byte c1;
    on_length = 15;
    off_length = 15;
    location = row * 80 + col + 40;
  }

  -- The loop over a row, on fuel.
  unfoldable pub row_loop : ℕ → Fish S → Source → Source → ℕ → ℕ → Option (Source × Source × Fish S)
  unfolding next_byte
  row_loop zero st f0 f1 row col = none
  row_loop (suc n) st f0 f1 row col =
      let more : Fish S → Source → Source → Option (Source × Source × Fish S) =
        λ st' g0 g1. row_loop n st' g0 g1 row (suc col) in
      next_byte st f0 >>= λ r0. next_byte r0.1 f1 >>= λ r1.
      if r0.0.c == newline && r1.0.c == newline
      then some (r0.0, r1.0, r1.1)
      else more
          (if is_blank r0.0.c && is_blank r1.0.c
            then r1.1
            else mp1.mp1_ioctl_add (blink_at row col r0.0.c r1.0.c) r1.1)
          r0.0 r1.0

  -- What is done with a file behind a row. A file that has ended is closed behind every further row.
  unfoldable pub end_row : Fish S → Source → Option (Source × Fish S)
  end_row st f =
      let closed =
        sys.close st.sys f.fd >>= λ r. some (record f { c = newline }, record st { sys = r.1 }) in
      if f.eof then closed else some (record f { c = b'0' }, st)

  -- The loop over the rows, on fuel.
  unfoldable pub rows_loop : ℕ → Fish S → Source → Source → ℕ → Option (Fish S)
  unfolding row_loop end_row
  rows_loop zero st f0 f1 row = none
  rows_loop (suc n) st f0 f1 row =
      let more : Fish S → Source → Source → Option (Fish S) =
        λ st' g0 g1. rows_loop n st' g0 g1 (suc row) in
      if f0.eof && f1.eof
      then some st
      else (row_loop n st f0 f1 row 0 >>= λ r.
          end_row r.2 r.0 >>= λ e0. end_row e0.1 r.1 >>= λ e1. more e1.1 e0.0 e1.0)

  unfoldable pub add_frames : ℕ → Fish S → List ℕ → List ℕ → Option (Ending S)
  unfolding rows_loop
  add_frames n st name0 name1 = sys.open_file st.sys name0 >>= λ o0.
      let st0 = record st { sys = o0.1 } in
      if is_neg o0.0
      then some (halts 255 st0)
      else (sys.open_file o0.1 name1 >>= λ o1.
          let st1 = record st { sys = o1.1 } in
          if is_neg o1.0
          then some (halts 255 st1)
          else (rows_loop n st1 (record { fd = o0.0; c = b'0'; eof = false })
                (record { fd = o1.0; c = b'0'; eof = false }) 0
              >>= λ st2. some (returns st2)))

  -- `for (i=0; i<WAIT; i++)`, with `r` rounds left: a tick of the clock, and the blinking.
  unfoldable pub wait_ticks : ℕ → Fish S → ℤ → List ℕ → Option (List ℕ × Fish S)
  wait_ticks zero st fd garbage = some (garbage, st)
  wait_ticks (suc r) st fd garbage = sys.read st.sys fd garbage (pos 4) >>= λ t.
      wait_ticks r (mp1.mp1_rtc_tasklet t.1 (record st { sys = t.2 })) fd t.1

  -- `I` and `M` at the place 6 * 80 + 60.
  abbrev pub blink_im : Blink
  blink_im = record zeroed {
    on_char = b'I';
    off_char = b'M';
    on_length = 7;
    off_length = 6;
    location = 6 * 80 + 60;
  }

  -- The part of `main` behind `add_frames`, with the `int` 32 as its four bytes.
  unfoldable pub blinking : Fish S → ℤ → List ℕ → Option (ℕ × Fish S)
  unfolding wait_ticks
  blinking st fd garbage = sys.write st.sys fd (32 ∷ 0 ∷ 0 ∷ 0 ∷ []) (pos 4) >>= λ w.
      wait_ticks 100 (record st { sys = w.1 }) fd garbage >>= λ a.
      wait_ticks 100 (mp1.mp1_ioctl_add blink_im a.1) fd a.0 >>= λ b.
      wait_ticks 100 (mp1.mp1_ioctl (40 * 65536 + (6 * 80 + 60)) rtc_sync b.1) fd b.0 >>= λ c.
      wait_ticks 100 (mp1.mp1_ioctl (6 * 80 + 60) rtc_remove c.1) fd c.0 >>= λ d.
      sys.close d.1.sys fd >>= λ e. some (0, record d.1 { sys = e.1 })

  -- `main`, with the value that it returns or halts with. -1 as a status is 255.
  unfoldable pub fish : ℕ → Fish S → List ℕ → Option (ℕ × Fish S)
  unfolding add_frames blinking
  fish n st garbage =
      let cleared = record st { blink_array = replicate blocks zeroed } in
      sys.vidmap cleared.sys mp1.vmem_base_addr >>= λ v.
      let st1 = record cleared { sys = v.1 } in
      if is_minus_one v.0
      then some (255, st1)
      else (sys.open_file v.1 rtc_name >>= λ o.
          add_frames n (record st1 { sys = o.1 }) file0 file1 >>= λ a. elim a [
            | halts status st2 ↦ some (status, st2)
            | returns st2 ↦ blinking st2 o.0 garbage
          ])
