-- ===== src/Console/Printf.antt =====
-- `printf` of student-distrib/lib.c. The bytes of the format string go up to its NUL.
use virtual_operating_system.Prelude.{
  ℕ, suc, ◌-◌, ◌%◌, ◌^◌, Bool, true, false, Option, none, some, List, [], ◌∷◌, ◌++◌, take, drop,
  replicate, ltb, ◌==◌, if◌then◌else◌, ◌>>=◌,
}
use virtual_operating_system.Strings.{strlen}
use virtual_operating_system.Strings.Numbers.{itoa}
use virtual_operating_system.Console.Output.{Console, putc, puts}

-- What lies on the stack behind the format: a word, or a pointer to a string with its NUL.
pub data Arg : Type 0 where
  word : ℕ → Arg
  text : List ℕ → Arg

-- The bytes in front of the NUL.
unfoldable pub c_string : List ℕ → Option (List ℕ)
c_string s = strlen s >>= λ n. some (take n s)

-- `conv_buf` has indeterminate contents. Everything that is printed of it has been written first.
abbrev conv_buf : ℕ → List ℕ
conv_buf n = replicate n 0

-- `%x`, `%u` and `%d`: the numeral in `conv_buf`.
unfoldable pub show_hex : ℕ → Option (List ℕ)
show_hex v = itoa v (conv_buf 64) 16 >>= c_string

unfoldable pub show_unsigned : ℕ → Option (List ℕ)
show_unsigned v = itoa v (conv_buf 36) 10 >>= c_string

-- A word from 2 ^ 31 on is negative.
unfoldable pub show_signed : ℕ → Option (List ℕ)
show_signed v =
    if ltb v (2 ^ 31)
    then (itoa v (conv_buf 36) 10 >>= c_string)
    else (itoa ((2 ^ 32 - v) % 2 ^ 32) (conv_buf 35) 10 >>= λ b. c_string (b'-' ∷ b))

-- `%#x`: the numeral is at `conv_buf[8]`, and zeros are written from `conv_buf[strlen]` up to there.
unfoldable pub show_aligned : ℕ → Option (List ℕ)
show_aligned v = itoa v (conv_buf 56) 16 >>= λ b.
    strlen b >>= λ n. c_string (drop n (take n (conv_buf 8) ++ (replicate (8 - n) b'0' ++ b)))

-- The word on the stack. A conversion of a number that is given a pointer would print the address,
-- which the model does not have.
abbrev pub pop_word : List Arg → Option (ℕ × List Arg)
pop_word [] = none
pop_word (word v ∷ args) = some (v, args)
pop_word (text s ∷ args) = none

abbrev pub pop_text : List Arg → Option (List ℕ × List Arg)
pop_text [] = none
pop_text (word v ∷ args) = none
pop_text (text s ∷ args) = some (s, args)

-- One number, shown by `show`.
abbrev pub put_number : (ℕ → Option (List ℕ)) → List Arg → Console → Option (List Arg × Console)
put_number show args k = pop_word args >>= λ a. show a.0 >>= λ s. puts s k >>= λ k'. some (a.1, k')

-- The `switch` behind `%`, with `alternate` set by a `#`.
unfoldable pub convert : Bool → ℕ → List Arg → Console → Option (List Arg × Console)
unfolding show_hex show_unsigned show_signed show_aligned
convert alternate c args k =
    if c == b'%'
    then (putc b'%' k >>= λ k'. some (args, k'))
    else if c == b'x'
    then (if alternate then put_number show_aligned args k else put_number show_hex args k)
    else if c == b'u'
    then put_number show_unsigned args k
    else if c == b'd'
    then put_number show_signed args k
    else if c == b'c'
    then (pop_word args >>= λ a. putc (a.0 % 256) k >>= λ k'. some (a.1, k'))
    else if c == b's'
    then (pop_text args >>= λ a. c_string a.0 >>= λ s. puts s k >>= λ k'. some (a.1, k'))
    else some (args, k)

-- Where the loop stands: at a plain character, or behind a `%`.
pub data Place : Type 0 where
  plain : Place
  behind : Bool → Place

-- The loop over the format, with `n` characters behind it. The character behind a `%` is passed over
-- whatever it is, also when it is the NUL.
unfoldable pub printf_from : Place → List ℕ → List Arg → ℕ → Console → Option (ℕ × Console)
unfolding convert
printf_from p [] args n k = none
printf_from plain (c ∷ format) args n k =
    let conversion = printf_from (behind false) format args (suc n) k in
    let next = putc c k >>= λ k'. printf_from plain format args (suc n) k' in
    if c == 0 then some (n, k) else if c == b'%' then conversion else next
printf_from (behind alternate) (c ∷ format) args n k =
    let aligned = printf_from (behind true) format args (suc n) k in
    let next = convert alternate c args k >>= λ r. printf_from plain format r.0 (suc n) r.1 in
    if c == b'#' then aligned else next

-- The count is that of the characters of the format.
unfoldable pub printf : List ℕ → List Arg → Console → Option (ℕ × Console)
unfolding printf_from
printf format args k = printf_from plain format args 0 k
