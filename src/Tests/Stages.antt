-- ===== src/Tests/Stages.antt =====
-- The earlier stages on concrete values.
use gquuuuuunix.Base.{◌*◌, ℕ, ◌+◌, ◌%◌, ◌^◌, ◌≡◌, refl, List, [], ◌∷◌, arith}
use gquuuuuunix.Console.Format as Last
use gquuuuuunix.Console.Format.{Arg, word, str}
use gquuuuuunix.Trap.{Clock}
use gquuuuuunix.Stages.Hello.{printf}
use gquuuuuunix.Stages.Hello.Same.{printf_same}
use gquuuuuunix.Stages.Timer.Storm.{handled, handled-counts}
use gquuuuuunix.Tests.Data.{csrs_of}

-- `"%s=%x%%\n"`.
abbrev fmt : List ℕ
fmt = b'%' ∷ b's' ∷ b'=' ∷ b'%' ∷ b'x' ∷ b'%' ∷ b'%' ∷ 10 ∷ []

abbrev args : List Arg
args = str (b'a' ∷ b'b' ∷ []) ∷ word 255 ∷ []

printf_same_example : Last.printf fmt args ≡ printf fmt args
printf_same_example = printf_same fmt args refl

abbrev clock : Clock
clock = record { gticks = 41; time = record { data_bits = 0; mantissa_bit = 32 } }

handled-counts_example :
    ((handled 3 (clock, csrs_of 0)).1 ≡ csrs_of 0)
    × ((handled 3 (clock, csrs_of 0)).0.gticks ≡ (41 + 3) % 2 ^ 64)
    × ((handled 3 (clock, csrs_of 0)).0.time.data_bits ≡ (0 + 3 * 262143) % 2 ^ 64)
handled-counts_example = handled-counts 3 clock (csrs_of 0) refl refl (omega arith) (omega arith)
