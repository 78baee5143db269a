-- ===== src/Console/Decimal/Overflow.antt =====
-- Where the decimal loops overflow, and what the padded form does with a zero.
use native.Mathlib.Nat.{div-add-mod}
use gquuuuuunix.Base.{
  ℕ, zero, suc, ◌+◌, ◌-◌, ◌*◌, ◌/◌, ◌≤◌, ◌<◌, ◌≡◌, ◌≢◌, refl, none, some, List, [], ◌∷◌, ◌++◌, ltb,
  if◌then◌else◌, ap, arith,
}
use gquuuuuunix.Console.Decimal.{find_divisor, put_unsigned, put_signed}
use gquuuuuunix.Console.Decimal.RoundTrip.{
  p10, p10-pos, p10_mono, turned, IsDecimal, put_unsigned_lem,
}

ten-quotient : (k value : ℕ) → p10 (suc k) ≤ value → 9 < value / p10 k
ten-quotient k value h = grind (arith, p10-pos k, div-add-mod value (p10 k))

find_divisor-none :
    (j k value : ℕ) → k + j ≡ 9 → p10 10 ≤ value → find_divisor (suc j) value (p10 k) ≡ none
unfolding find_divisor
find_divisor-none zero k value e h =
    let nine : k ≡ 9 = omega arith in rw nine (ground (arith, ten-quotient 9 value h))
find_divisor-none (suc j) k value e h = ground (
  arith,
  ten-quotient k value (omega (arith, p10_mono (suc k) 10 (omega arith))),
  p10_mono k 8 (omega arith),
  ap (λ (t : ℕ). find_divisor (suc j) value t) (turned k),
  find_divisor-none j (suc k) value (omega arith) h,
)

-- From ten to the ten on, the `int` divisor of `%lld` overflows.
pub put_unsigned-overflow : (value : ℕ) → 10000000000 ≤ value → put_unsigned value ≡ none
unfolding put_unsigned
put_unsigned-overflow value h = ground (arith, find_divisor-none 9 0 value refl h)

-- What `%d` (limit `2 ^ 31`) and `%lld` (limit `2 ^ 63`) print of a value: a minus sign if it is
-- negative, and the decimal text of its magnitude.
pub record IsSignedDecimal (limit w : ℕ) (out : List ℕ) : Type 0 where
  pub ds : List ℕ
  pub text : out ≡ (if ltb w limit then [] else b'-' ∷ []) ++ ds
  pub decimal : IsDecimal (if ltb w limit then w else 2 * limit - w) ds

put_signed-some :
    (limit w : ℕ) {ds : List ℕ}
    → w ≢ limit
    → put_unsigned (if ltb w limit then w else 2 * limit - w) ≡ some ds
    → put_signed limit w ≡ some ((if ltb w limit then [] else b'-' ∷ []) ++ ds)
unfolding put_signed
put_signed-some limit w ne found = ground (arith, ne, found)

put_signed-none :
    (limit w : ℕ)
    → put_unsigned (if ltb w limit then w else 2 * limit - w) ≡ none
    → put_signed limit w ≡ none
unfolding put_signed
put_signed-none limit w found = ground (arith, found)

-- Of a pattern with the sign bit `limit`: a value that is not the least is printed as its signed
-- decimal text if its magnitude is below ten to the ten; the least value and every magnitude from
-- there on overflow.
pub put_signed_lem :
    (limit w : ℕ)
    → w < 2 * limit
    → let value = if ltb w limit then w else 2 * limit - w in
      (w ≢ limit
        → value < 10000000000
        → (out : List ℕ) × (put_signed limit w ≡ some out) × IsSignedDecimal limit w out)
      × (w ≡ limit → put_signed limit w ≡ none)
      × (10000000000 ≤ value → put_signed limit w ≡ none)
unfolding put_signed
put_signed_lem limit w h =
    let value : ℕ = if ltb w limit then w else 2 * limit - w in
    (
      λ ne small.
          let (ds, found, dec) = put_unsigned_lem value small in
          (
            (if ltb w limit then [] else b'-' ∷ []) ++ ds,
            put_signed-some limit w ne found,
            record { ds = ds; text = refl; decimal = dec },
          ),
      λ least. ground (arith, least),
      λ large. put_signed-none limit w (put_unsigned-overflow value large),
    )
