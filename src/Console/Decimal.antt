-- ===== src/Console/Decimal.antt =====
-- Decimal output: the loops behind `%d` and `%lld`, and the digit count behind the padded forms.
--
-- `none` is a computation that overflows an `int` or a `long long`, which C leaves undefined.
pub mod RoundTrip
pub mod Overflow
pub mod Padding
use gquuuuuunix.Base.{
  ℕ, zero, suc, ◌+◌, ◌-◌, ◌*◌, ◌/◌, ◌%◌, ◌^◌, Bool, Option, none, some, List, [], ◌∷◌, ◌++◌, ltb,
  leb, ◌==◌, if◌then◌else◌, replicate,
}

-- The first value that an `int` cannot hold, and a `long long`.
abbrev pub int_limit : ℕ
int_limit = 2 ^ 31

abbrev pub long_limit : ℕ
long_limit = 2 ^ 63

-- `while (value / divisor > 9) divisor *= 10;` for `value` not negative. The divisor is an `int`, so
-- it overflows in the tenth round at the latest, and ten tests are all there can be.
unfoldable pub find_divisor : ℕ → ℕ → ℕ → Option ℕ
find_divisor zero value divisor = none
find_divisor (suc fuel) value divisor =
    let again =
      if leb int_limit (divisor * 10) then none else find_divisor fuel value (divisor * 10) in
    if ltb 9 (value / divisor) then again else some divisor

-- `while (divisor > 0) { uart_putchar('0' + value / divisor); value %= divisor; divisor /= 10; }`
unfoldable pub put_digits : ℕ → ℕ → ℕ → List ℕ
put_digits zero value divisor = []
put_digits (suc fuel) value divisor =
    let rest = put_digits fuel (value % divisor) (divisor / 10) in
    if divisor == 0 then [] else (b'0' + value / divisor) % 256 ∷ rest

-- The two loops, for `value` not negative.
unfoldable pub put_unsigned : ℕ → Option (List ℕ)
unfolding find_divisor put_digits
put_unsigned value = elim (find_divisor 10 value 1) [
  | none ↦ none
  | some divisor ↦ some (put_digits 11 value divisor)
]

-- `if (value < 0) { uart_putchar('-'); value = -value; }`: the sign and the magnitude of a pattern
-- whose sign bit is worth `limit`; the least value has no negative.
unfoldable pub magnitude : ℕ → ℕ → Option (List ℕ × ℕ)
magnitude limit w =
    if ltb w limit
    then some ([], w)
    else if w == limit
    then none
    else some (b'-' ∷ [], 2 * limit - w)

-- `%d` with limit `2 ^ 31`, `%lld` with limit `2 ^ 63`.
unfoldable pub put_signed : ℕ → ℕ → Option (List ℕ)
unfolding magnitude put_unsigned
put_signed limit w = elim (magnitude limit w) [
  | none ↦ none
  | some (sign, value) ↦ elim (put_unsigned value) [ none ↦ none | some ds ↦ some (sign ++ ds) ]
]

-- `while (decimal_value) { decimal_value /= 10; ++number_decimal_digit; }` on the magnitude: a
-- 64-bit value has at most 19 digits.
unfoldable pub count_digits : ℕ → ℕ → ℕ
count_digits zero value = 0
count_digits (suc fuel) value =
    let rest = count_digits fuel (value / 10) in if value == 0 then 0 else suc rest

-- The magnitude alone, for the digit count; division by ten goes towards zero on both signs.
abbrev pub abs_pattern : ℕ → ℕ → ℕ
abs_pattern limit w = if ltb w limit then w else 2 * limit - w

-- `%0…d` and `%0…lld`: the zeros come before the sign.
unfoldable pub put_padded : ℕ → ℕ → ℕ → Option (List ℕ)
unfolding put_signed count_digits
put_padded limit width w = elim (put_signed limit w) [
  | none ↦ none
  | some ds ↦ some (replicate (width - count_digits 20 (abs_pattern limit w)) b'0' ++ ds)
]
