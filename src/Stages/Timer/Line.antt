-- ===== src/Stages/Timer/Line.antt =====
-- The line that the handler of 02.TimerInterrupt prints.
use gquuuuuunix.Base.{ℕ, ◌^◌, ◌<◌, ◌≡◌, List, [], ◌∷◌, ◌++◌, arith}
use gquuuuuunix.Console.Decimal.RoundTrip.{IsDecimal}
use gquuuuuunix.Console.Decimal.Padding.{padded}
use gquuuuuunix.Console.Format.{printed}
use gquuuuuunix.Console.Format.Pieces.{Piece, plain}
use gquuuuuunix.Time.{FixedPoint, fixed_point_get_integer, get_time_decimal}
use gquuuuuunix.Trap.Line.{clock_line_lem}
use gquuuuuunix.Stages.Timer.{tick_end, tick_line}

end_pieces : List Piece
end_pieces =
    plain b']' (omega arith)
    ∷ plain b' ' (omega arith)
    ∷ tick (
        tick (
          plain b't' (omega arith)
          ∷ plain b'i' (omega arith)
          ∷ plain b'c' (omega arith)
          ∷ plain b'k' (omega arith)
          ∷ plain b'.' (omega arith)
          ∷ plain b'.' (omega arith)
          ∷ plain b'.' (omega arith)
          ∷ plain 10 (omega arith)
          ∷ []))
  where
    -- `"tick "`.
    tick : List Piece → List Piece
    tick rest =
        plain b't' (omega arith)
        ∷ plain b'i' (omega arith)
        ∷ plain b'c' (omega arith)
        ∷ plain b'k' (omega arith)
        ∷ plain b' ' (omega arith)
        ∷ rest

-- What hart 0 prints at a tick, at every time of the clock with 32 bits after the point, has the
-- digits of the integer part and of the five decimals of the time, each behind zeros to five places.
pub tick_line_lem :
    (time : FixedPoint)
    → time.mantissa_bit ≡ 32
    → time.data_bits < 2 ^ 64
    → (secs decimals : List ℕ) × IsDecimal (fixed_point_get_integer time) secs
      × IsDecimal (get_time_decimal time) decimals
      × (tick_line time
          ≡ printed (
              b'['
              ∷ (padded 5 (fixed_point_get_integer time) secs
                  ++ b'.' ∷ (padded 5 (get_time_decimal time) decimals ++ tick_end))))
unfolding tick_line end_pieces fixed_point_get_integer
tick_line_lem time bits word64 = clock_line_lem end_pieces time bits word64
