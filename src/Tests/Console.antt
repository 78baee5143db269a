-- ===== src/Tests/Console.antt =====
-- The console's theorems on concrete formats and numbers.
use Prim.Native.Nat.{max}
use gquuuuuunix.Base.{
  ℕ, ◌+◌, ◌-◌, ◌*◌, ◌%◌, ◌^◌, ◌<◌, ◌≤◌, ◌≡◌, ◌≢◌, some, none, List, [], ◌∷◌, length, ltb,
  if◌then◌else◌, arith,
}
use gquuuuuunix.Console.Decimal.{int_limit, put_signed, put_padded, abs_pattern}
use gquuuuuunix.Console.Decimal.RoundTrip.{IsDecimal}
use gquuuuuunix.Console.Decimal.Overflow.{IsSignedDecimal, put_signed_lem}
use gquuuuuunix.Console.Decimal.Padding.{put_padded-length}
use gquuuuuunix.Console.Hex.{put_hex}
use gquuuuuunix.Console.Hex.RoundTrip.{read_hex, put_hex_lem}
use gquuuuuunix.Console.Format.{word, printed, printf}
use gquuuuuunix.Console.Format.Pieces.{
  Piece, plain, percent, string, hex, fmts, args, outs, printf-pieces,
}

-- The pieces of `%s=%x%%`.
abbrev pieces : List Piece
pieces = string (b'a' ∷ b'b' ∷ []) ∷ plain b'=' (omega arith) ∷ hex 255 ∷ percent ∷ []

printf-pieces_example : printf (fmts pieces) (args pieces (word 1 ∷ [])) ≡ printed (outs pieces)
printf-pieces_example = printf-pieces pieces (word 1 ∷ [])

-- -42 as an `int`.
abbrev minus_42 : ℕ
minus_42 = 4294967254

put_signed_lem_example :
    (minus_42 ≢ int_limit
      → (if ltb minus_42 int_limit then minus_42 else 2 * int_limit - minus_42) < 10000000000
      → (out : List ℕ) × (put_signed int_limit minus_42 ≡ some out)
        × IsSignedDecimal int_limit minus_42 out)
    × (minus_42 ≡ int_limit → put_signed int_limit minus_42 ≡ none)
    × (10000000000 ≤ (if ltb minus_42 int_limit then minus_42 else 2 * int_limit - minus_42)
        → put_signed int_limit minus_42 ≡ none)
put_signed_lem_example = put_signed_lem int_limit minus_42 (omega arith)

put_padded-length_example :
    (out : List ℕ) × (put_padded int_limit 5 42 ≡ some out)
    × (ds : List ℕ) × IsDecimal (abs_pattern int_limit 42) ds
    × (0 < abs_pattern int_limit 42
        → length out ≡ max 5 (length ds) + (if ltb 42 int_limit then 0 else 1))
    × (abs_pattern int_limit 42 ≡ 0 → length out ≡ 5 + 1)
put_padded-length_example =
    put_padded-length int_limit 5 42 (omega arith) (omega arith) (ground arith)

put_hex_lem_example :
    (read_hex 0 (put_hex 8 3735928559) ≡ 0 * 2 ^ (8 * 4) + 3735928559 % 2 ^ (8 * 4))
    × (length (put_hex 8 3735928559) ≡ 8)
put_hex_lem_example = put_hex_lem 8 3735928559 0
