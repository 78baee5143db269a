-- ===== src/Trap/Line.antt =====
-- The line that the trap handler prints.
use gquuuuuunix.Base.{ℕ, ◌%◌, ◌^◌, ◌<◌, ◌≡◌, refl, some, List, [], ◌∷◌, ◌++◌, ◌∙◌, ap, arith}
use gquuuuuunix.Console.Decimal.{int_limit, long_limit, put_padded}
use gquuuuuunix.Console.Decimal.RoundTrip.{IsDecimal}
use gquuuuuunix.Console.Decimal.Padding.{padded, put_padded-shows}
use gquuuuuunix.Console.Format.{word, printf, as_int, printed, padding_count}
use gquuuuuunix.Console.Format.Pieces.{
  fmts, args, outs, Piece, plain, padded_decimal, padded_long_decimal, printf-pieces,
}
use gquuuuuunix.Time.{FixedPoint, fixed_point_get_integer, get_time_decimal, get_time_decimal_lem}
use gquuuuuunix.Trap.{line_end, yield_line}

five : padding_count (b'5' ∷ []) ≡ some 5
unfolding padding_count
five = refl

end_pieces : List Piece
end_pieces =
    plain b']' (omega arith)
    ∷ plain b' ' (omega arith)
    ∷ plain b'y' (omega arith)
    ∷ plain b'i' (omega arith)
    ∷ plain b'e' (omega arith)
    ∷ plain b'l' (omega arith)
    ∷ plain b'd' (omega arith)
    ∷ plain b' ' (omega arith)
    ∷ plain b'.' (omega arith)
    ∷ plain b'.' (omega arith)
    ∷ plain b'.' (omega arith)
    ∷ plain 10 (omega arith)
    ∷ []

integer_small :
    (time : FixedPoint)
    → time.mantissa_bit ≡ 32
    → time.data_bits < 2 ^ 64
    → fixed_point_get_integer time < 2 ^ 32
unfolding fixed_point_get_integer
integer_small time bits word64 = rw bits (omega (arith, word64))

-- A line that begins with the clock in brackets, `"[%05lld.%05d"`, and goes on with `ends`.
abbrev pub clock_fmt : List ℕ → List ℕ
clock_fmt tail =
    b'[' ∷ b'%' ∷ b'0' ∷ b'5' ∷ b'l' ∷ b'l' ∷ b'd' ∷ b'.' ∷ b'%' ∷ b'0' ∷ b'5' ∷ b'd' ∷ tail

pub clock_line_lem :
    (ends : List Piece) (time : FixedPoint)
    → time.mantissa_bit ≡ 32
    → time.data_bits < 2 ^ 64
    → (secs decimals : List ℕ) × IsDecimal (fixed_point_get_integer time) secs
      × IsDecimal (get_time_decimal time) decimals
      × (printf
            (clock_fmt (fmts ends))
            (word (fixed_point_get_integer time) ∷ word (get_time_decimal time) ∷ args ends [])
          ≡ printed (
              b'['
              ∷ (padded 5 (fixed_point_get_integer time) secs
                  ++ b'.' ∷ (padded 5 (get_time_decimal time) decimals ++ outs ends))))
clock_line_lem ends time bits word64 =
    let int = fixed_point_get_integer time in
    let part = get_time_decimal time in
    let small = integer_small time bits word64 in
    let few = (get_time_decimal_lem time (omega (arith, bits))).0 in
    let whole : int % 2 ^ 64 ≡ int = omega (arith, small) in
    let kept : as_int part ≡ part = omega (arith, few) in
    let (secs, spelled, found) =
      put_padded-shows long_limit 5 int (omega (arith, small)) (omega (arith, small)) in
    let (decimals, spelled', found') =
      put_padded-shows int_limit 5 part (omega (arith, few)) (omega (arith, few)) in
    let pieces : List Piece =
      plain b'[' (omega arith)
      ∷ padded_long_decimal (b'5' ∷ []) 5 int (padded 5 int secs) refl five
          (ap (put_padded long_limit 5) whole ∙ found)
      ∷ plain b'.' (omega arith)
      ∷ padded_decimal (b'5' ∷ []) 5 part (padded 5 part decimals) refl five
          (ap (put_padded int_limit 5) kept ∙ found')
      ∷ ends in
    (secs, decimals, spelled, spelled', printf-pieces pieces [])

-- With the kernel's 32 bits after the point, at every time of the clock: the handler's line is printed
-- without overflow; in it stand the decimal digits of the integer part behind zeros to five places, a
-- point, and the digits of the time's five decimals behind zeros to five places, where the digit of a
-- zero is put behind all five.
pub yield_line_lem :
    (time : FixedPoint)
    → time.mantissa_bit ≡ 32
    → time.data_bits < 2 ^ 64
    → (secs decimals : List ℕ) × IsDecimal (fixed_point_get_integer time) secs
      × IsDecimal (get_time_decimal time) decimals
      × (get_time_decimal time < 100000)
      × (yield_line time
          ≡ printed (
              b'['
              ∷ (padded 5 (fixed_point_get_integer time) secs
                  ++ b'.' ∷ (padded 5 (get_time_decimal time) decimals ++ line_end))))
unfolding yield_line end_pieces
yield_line_lem time bits word64 =
    let (secs, decimals, spelled, spelled', run) = clock_line_lem end_pieces time bits word64 in
    (secs, decimals, spelled, spelled', (get_time_decimal_lem time (omega (arith, bits))).0, run)
