-- ===== src/Time.antt =====
-- 03.Scheduler/include/fixed_point.h and `get_time_decimal` of lib/trap.c: the kernel's clock, a
-- binary fraction.
use native.Mathlib.Nat.{
  div-add-mod, pow-le-pow_right, one-le-pow, mod-lt, mod-eq_of_lt, div-lt_iff_lt-mul,
}
use gquuuuuunix.Base.{ℕ, ◌+◌, ◌*◌, ◌/◌, ◌%◌, ◌^◌, ◌≤◌, ◌<◌, ◌≡◌, arith}

-- `fixed_point_t`: `data` is a `u64`, `mantissa_bit` a `u8`.
pub record FixedPoint : Type 0 where
  pub data_bits : ℕ
  pub mantissa_bit : ℕ

-- A shift right is a division and the mask of the low bits a remainder.
unfoldable pub fixed_point_get_integer : FixedPoint → ℕ
fixed_point_get_integer fp = fp.data_bits / 2 ^ fp.mantissa_bit

unfoldable pub fixed_point_get_mantissa : FixedPoint → ℕ
fixed_point_get_mantissa fp = fp.data_bits % 2 ^ fp.mantissa_bit

-- The product is a `u64` and the result a `u32`.
unfoldable pub get_time_decimal : FixedPoint → ℕ
get_time_decimal fp =
    let mantissa = fp.data_bits % 2 ^ fp.mantissa_bit in
    let denom = 2 ^ fp.mantissa_bit in mantissa * 100000 % 2 ^ 64 / denom % 2 ^ 32

scaled-small :
    (q p : ℕ)
    → 0 < p
    → q < p
    → p ≤ 2 ^ 47
    → (q * 100000 % 2 ^ 64 ≡ q * 100000) × (q * 100000 / p < 100000)
scaled-small q p pos lt le =
    (mod-eq_of_lt (omega (arith, lt, le)), (div-lt_iff_lt-mul pos).1 (omega (arith, lt)))

bounds :
    (r q d p x : ℕ)
    → p * r + q ≡ x
    → p * d + (q * 100000) % p ≡ q * 100000
    → (q * 100000) % p < p
    → ((r * 100000 + d) * p ≤ x * 100000) × (x * 100000 < (r * 100000 + d + 1) * p)
bounds r q d p x whole part rest =
    (omega (arith, whole, part, rest), omega (arith, whole, part, rest))

-- With at most 47 bits after the point (the kernel uses 32) nothing wraps around: the integer part
-- and the five decimals that `get_time_decimal` returns are the value of the fixed-point number,
-- rounded down to a multiple of 1/100000.
pub get_time_decimal_lem :
    (fp : FixedPoint)
    → fp.mantissa_bit ≤ 47
    → let p = 2 ^ fp.mantissa_bit in
      let value = fixed_point_get_integer fp * 100000 + get_time_decimal fp in
      (get_time_decimal fp < 100000)
      × (value * p ≤ fp.data_bits * 100000)
      × (fp.data_bits * 100000 < (value + 1) * p)
unfolding fixed_point_get_integer get_time_decimal
get_time_decimal_lem fp bits =
    let p = 2 ^ fp.mantissa_bit in
    let x = fp.data_bits in
    let pos : 0 < p = one-le-pow fp.mantissa_bit 2 (omega arith) in
    let small = scaled-small (x % p) p pos (mod-lt x pos) (pow-le-pow_right (omega arith) bits) in
    let word : x % p * 100000 / p % 2 ^ 32 ≡ x % p * 100000 / p =
      mod-eq_of_lt (omega (arith, small.1)) in
    let (low, high) =
      bounds (x / p) (x % p) (x % p * 100000 / p) p x (div-add-mod x p)
        (div-add-mod (x % p * 100000) p) (mod-lt (x % p * 100000) pos) in
    rw (small.0, word) (small.1, low, high)
