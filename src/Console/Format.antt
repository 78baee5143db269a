-- ===== src/Console/Format.antt =====
-- `printf`: the loop over the format and what it does at each `%`.
--
-- A format and a string are their bytes up to the terminating 0, which is the list's end. An
-- argument is a 64-bit slot or a pointer to a string. The result is the bytes handed to
-- `uart_putchar` in order, or `wild` where C leaves the run undefined: a missing argument, an
-- argument of the wrong kind, an integer overflow, a write behind `tmp`, a read behind the format.
pub mod Total
pub mod Pieces
use gquuuuuunix.Base.{
  ℕ, zero, suc, ◌+◌, ◌-◌, ◌*◌, ◌/◌, ◌%◌, ◌^◌, ◌&&◌, Bool, true, false, Option, none, some, List, [],
  ◌∷◌, ◌++◌, ltb, leb, ◌==◌, if◌then◌else◌, length,
}
use gquuuuuunix.Console.Decimal.{int_limit, long_limit, put_signed, put_padded}
use gquuuuuunix.Console.Hex.{put_hex}

pub data Arg : Type 0 where
  word : ℕ → Arg
  str : List ℕ → Arg

-- What one directive does: it prints, leaves the rest of the format and of the arguments, and the
-- loop goes on; or it ends the output; or the run is undefined.
pub data Next : Type 0 where
  next : (out fmt : List ℕ) → List Arg → Next
  stop : List ℕ → Next
  undefined : Next

-- `starved` would be a loop that runs out of rounds.
pub data Printed : Type 0 where
  printed : List ℕ → Printed
  wild : Printed
  starved : Printed

-- `va_arg` of an integer: the argument's slot, and what is printed of it.
abbrev pub with_word : (ℕ → Option (List ℕ)) → (fmt : List ℕ) → List Arg → Next
with_word show fmt [] = undefined
with_word show fmt (str _ ∷ args) = undefined
with_word show fmt (word w ∷ args) = elim (show w) [
  | none ↦ undefined
  | some out ↦ next out fmt args
]

abbrev pub with_str : (fmt : List ℕ) → List Arg → Next
with_str fmt [] = undefined
with_str fmt (word _ ∷ args) = undefined
with_str fmt (str s ∷ args) = next s fmt args

-- `va_arg(vargs, int)` takes the low half of a slot.
abbrev pub as_int : ℕ → ℕ
as_int w = w % 2 ^ 32

abbrev pub show_int : ℕ → Option (List ℕ)
show_int w = put_signed int_limit (as_int w)

abbrev pub show_long : ℕ → Option (List ℕ)
show_long w = put_signed long_limit (w % 2 ^ 64)

abbrev pub show_hex32 : ℕ → Option (List ℕ)
show_hex32 w = some (put_hex 8 (as_int w))

abbrev pub show_hex64 : ℕ → Option (List ℕ)
show_hex64 w = some (put_hex 16 (w % 2 ^ 64))

-- Behind `%ll`, and behind `%l`.
unfoldable pub long_long : List ℕ → List Arg → Next
long_long [] args = undefined
long_long (d ∷ fmt) args =
    if d == b'x'
    then with_word show_hex64 fmt args
    else if d == b'd'
    then with_word show_long fmt args
    else next [] fmt args

unfoldable pub long_directive : List ℕ → List Arg → Next
unfolding long_long
long_directive [] args = next (b'l' ∷ []) [] args
long_directive (c ∷ fmt) args =
    if c == b'x'
    then with_word show_hex64 fmt args
    else if c == b'l'
    then long_long fmt args
    else next (b'l' ∷ []) (c ∷ fmt) args

-- The digits that `while (*fmt >= '0' && *fmt <= '9')` copies to `tmp`, and what is behind them.
unfoldable pub span_digits : List ℕ → List ℕ × List ℕ
span_digits [] = ([], [])
span_digits (c ∷ fmt) =
    let more = span_digits fmt in
    if leb b'0' c && leb c b'9' then (c ∷ more.0, more.1) else ([], c ∷ fmt)

-- `multiplend`: ten to the number of digits less one, in an `int`.
unfoldable pub multiplend : ℕ → ℕ → Option ℕ
multiplend zero m = some m
multiplend (suc i) m =
    let more = multiplend i (m * 10) in if leb int_limit (m * 10) then none else more

-- `zero_padding_cnt += (tmp[i] - '0') * multiplend; multiplend /= 10;`
unfoldable pub padding_sum : List ℕ → ℕ → ℕ → Option ℕ
padding_sum [] m cnt = some cnt
padding_sum (c ∷ cs) m cnt =
    let cnt' = cnt + (c - b'0') * m in
    let more = padding_sum cs (m / 10) cnt' in if leb int_limit cnt' then none else more

-- The width that the digits spell; `tmp` has 1024 places.
unfoldable pub padding_count : List ℕ → Option ℕ
unfolding multiplend padding_sum
padding_count ds =
    if ltb 1024 (length ds)
    then none
    else elim (multiplend (length ds - 1) 1) [ none ↦ none | some m ↦ padding_sum ds m 0 ]

-- Behind `%0…ll`, behind `%0…l`, and behind `%0` and its digits.
unfoldable pub padded_long_long : ℕ → List ℕ → List Arg → Next
padded_long_long width [] args = undefined
padded_long_long width (e ∷ fmt) args =
    if e == b'x'
    then with_word show_hex64 fmt args
    else if e == b'd'
    then with_word (λ w. put_padded long_limit width (w % 2 ^ 64)) fmt args
    else next [] fmt args

unfoldable pub padded_long : ℕ → List ℕ → List Arg → Next
unfolding padded_long_long
padded_long width [] args = undefined
padded_long width (d ∷ fmt) args =
    if d == b'x'
    then with_word show_hex64 fmt args
    else if d == b'l'
    then padded_long_long width fmt args
    else next [] fmt args

unfoldable pub padded_directive : ℕ → List ℕ → List Arg → Next
unfolding padded_long
padded_directive width [] args = undefined
padded_directive width (c ∷ fmt) args =
    if c == b'd'
    then with_word (λ w. put_padded int_limit width (as_int w)) fmt args
    else if c == b'x'
    then with_word show_hex32 fmt args
    else if c == b'l'
    then padded_long width fmt args
    else next (c ∷ []) fmt args

unfoldable pub zero_directive : List ℕ → List Arg → Next
unfolding span_digits padding_count padded_directive
zero_directive fmt args =
    let (ds, rest) = span_digits fmt in
    elim (padding_count ds) [ none ↦ undefined | some width ↦ padded_directive width rest args ]

-- Behind a `%`.
unfoldable pub directive : List ℕ → List Arg → Next
unfolding long_directive zero_directive
directive [] args = stop (b'%' ∷ [])
directive (c ∷ fmt) args =
    if c == b'%'
    then next (b'%' ∷ []) fmt args
    else if c == b's'
    then with_str fmt args
    else if c == b'd'
    then with_word show_int fmt args
    else if c == b'x'
    then with_word show_hex32 fmt args
    else if c == b'l'
    then long_directive fmt args
    else if c == b'0'
    then zero_directive fmt args
    else next (c ∷ []) fmt args

abbrev pub prefix : List ℕ → Printed → Printed
prefix out (printed rest) = printed (out ++ rest)
prefix out wild = wild
prefix out starved = starved

-- The round of the loop at a format that is not at its end.
abbrev pub round : ℕ → List ℕ → List Arg → Next
round c fmt args = if c == b'%' then directive fmt args else next (c ∷ []) fmt args

unfoldable pub print_loop : ℕ → List ℕ → List Arg → Printed
unfolding directive
print_loop zero fmt args = starved
print_loop (suc fuel) [] args = printed []
print_loop (suc fuel) (c ∷ fmt) args = elim (round c fmt args) [
  | next out fmt' args' ↦ prefix out (print_loop fuel fmt' args')
  | stop out ↦ printed out
  | undefined ↦ wild
]

-- Each round takes a character at least, so one round more than characters is enough.
unfoldable pub printf : List ℕ → List Arg → Printed
unfolding print_loop
printf fmt args = print_loop (suc (length fmt)) fmt args
