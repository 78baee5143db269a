-- ===== src/Console/Decimal/RoundTrip.antt =====
-- What the decimal loops print reads back as the number.
use native.Mathlib.Nat.{div-add-mod}
use gquuuuuunix.Base.{
  ℕ, zero, suc, ◌+◌, ◌-◌, ◌*◌, ◌/◌, ◌%◌, ◌≤◌, ◌<◌, ◌≡◌, refl, ◌⊎◌, inl, inr, false, some, List, [],
  ◌∷◌, ltb, ltb→lt, ◌==◌, length, Bool-cases, ap, ◌∙◌, arith,
}
use gquuuuuunix.Console.Decimal.{find_divisor, put_digits, put_unsigned}

-- Ten to the `k`.
abbrev pub p10 : ℕ → ℕ
p10 zero = 1
p10 (suc k) = 10 * p10 k

pub p10-pos : (k : ℕ) → 0 < p10 k
p10-pos zero = omega arith
p10-pos (suc k) = omega (arith, p10-pos k)

-- The number that decimal digits spell behind `acc`.
abbrev pub read : ℕ → List ℕ → ℕ
read acc [] = acc
read acc (c ∷ cs) = read (acc * 10 + (c - b'0')) cs

abbrev pub AreDigits : List ℕ → Type 0
AreDigits [] = Unit
AreDigits (c ∷ cs) = (b'0' ≤ c) × (c ≤ b'9') × AreDigits cs

digit-bound : (k value : ℕ) → value < p10 (suc k) → value / p10 k < 10
digit-bound k value h = grind arith

-- One round of the printing loop.
put_digits_step :
    (k fuel value : ℕ)
    → value < p10 (suc (suc k))
    → put_digits (suc fuel) value (p10 (suc k))
      ≡ (b'0' + value / p10 (suc k)) ∷ put_digits fuel (value % p10 (suc k)) (p10 k)
unfolding put_digits
put_digits_step k fuel value h =
    let some_left : (p10 (suc k) == 0) ≡ false = ground (arith, p10-pos (suc k)) in
    let small : (b'0' + value / p10 (suc k)) % 256 ≡ b'0' + value / p10 (suc k) =
      omega (arith, digit-bound (suc k) value h) in
    let next : p10 (suc k) / 10 ≡ p10 k = omega arith in rw (some_left, small, next)

split-value :
    (k value acc : ℕ)
    → (acc * 10 + value / p10 (suc k)) * p10 (suc k) + value % p10 (suc k)
      ≡ acc * p10 (suc (suc k)) + value
split-value k value acc = omega (arith, div-add-mod value (p10 (suc k)))

-- With a divisor of ten to the `k` the loop prints `k + 1` digits, which spell the value.
pub put_digits_lem :
    (k fuel value acc : ℕ)
    → suc k < fuel
    → value < p10 (suc k)
    → (read acc (put_digits fuel value (p10 k)) ≡ acc * p10 (suc k) + value)
      × AreDigits (put_digits fuel value (p10 k))
      × (length (put_digits fuel value (p10 k)) ≡ suc k)
unfolding put_digits
put_digits_lem k zero value acc f h = absurd (omega arith)
put_digits_lem zero (suc zero) value acc f h = absurd (omega arith)
put_digits_lem zero (suc (suc fuel)) value acc f h = (omega arith, omega arith, refl)
put_digits_lem (suc k) (suc fuel) value acc f h =
    let d = value / p10 (suc k) in
    let rest =
      put_digits_lem k fuel (value % p10 (suc k)) (acc * 10 + (b'0' + d - b'0')) (omega arith)
        (omega (arith, p10-pos (suc k))) in
    rw (put_digits_step k fuel value h) (
      rest.0
          ∙ ap (λ z. (acc * 10 + z) * p10 (suc k) + value % p10 (suc k)) (plain d)
          ∙ split-value k value acc,
      (omega arith, omega (arith, digit-bound (suc k) value h), rest.1),
      omega (arith, rest.2),
    )
  where
    plain : (d : ℕ) → b'0' + d - b'0' ≡ d
    plain d = omega arith

pub p10_mono : (k m : ℕ) → k ≤ m → p10 k ≤ p10 m
p10_mono zero m h = p10-pos m
p10_mono (suc k) zero h = absurd (omega arith)
p10_mono (suc k) (suc m) h = omega (arith, p10_mono k m (omega arith))

pub turned : (k : ℕ) → p10 k * 10 ≡ p10 (suc k)
turned k = omega arith

next-le : (k value : ℕ) → 9 < value / p10 k → p10 (suc k) ≤ value
next-le k value h = grind (arith, p10-pos k)

below-next : (k value : ℕ) → value / p10 k ≤ 9 → value < p10 (suc k)
below-next k value h = grind (arith, p10-pos k, div-add-mod value (p10 k))

-- `divisor` ends as the greatest power of ten that is at most the value, or as one.
find_divisor_lem :
    (j fuel k value : ℕ)
    → k + j ≡ 9
    → j < fuel
    → value < p10 10
    → (k ≡ 0) ⊎ (p10 k ≤ value)
    → (r : ℕ) × (find_divisor fuel value (p10 k) ≡ some (p10 r))
      × (r ≤ 9)
      × (value < p10 (suc r))
      × ((r ≡ 0) ⊎ (p10 r ≤ value))
unfolding find_divisor
find_divisor_lem j zero k value e f h low = absurd (omega arith)
find_divisor_lem zero (suc fuel) k value e f h low =
    let nine : k ≡ 9 = omega arith in
    let stop : ltb 9 (value / p10 k) ≡ false = rw nine (ground (arith, digit-bound 9 value h)) in
    (k, rw stop, omega arith, rw nine h, low)
find_divisor_lem (suc j) (suc fuel) k value e f h low = elim (Bool-cases (ltb 9 (value / p10 k))) [
  | inl more ↦
      let (r, found, bound, above, below) =
        find_divisor_lem j fuel (suc k) value (omega arith) (omega arith) h
          (inr (next-le k value (ltb→lt 9 _ more))) in
      (
        r,
        ground (
          arith,
          more,
          found,
          p10_mono k 8 (omega arith),
          ap (λ (t : ℕ). find_divisor fuel value t) (turned k),
        ),
        bound,
        above,
        below,
      )
  | inr stop ↦ (k, rw stop, omega arith, below-next k value (ground (arith, stop)), low)
]

put_unsigned-some :
    (value : ℕ) {d : ℕ}
    → find_divisor 10 value 1 ≡ some d
    → put_unsigned value ≡ some (put_digits 11 value d)
unfolding put_unsigned
put_unsigned-some value e = ground (arith, e)

-- The decimal text of a number: digits that spell it, as few as that takes.
pub record IsDecimal (value : ℕ) (ds : List ℕ) : Type 0 where
  pub digits : AreDigits ds
  pub spells : read 0 ds ≡ value
  pub some_digit : 0 < length ds
  pub fits : value < p10 (length ds)
  pub shortest : (length ds ≡ 1) ⊎ (p10 (length ds - 1) ≤ value)

shortest-digits :
    (r size value : ℕ)
    → size ≡ suc r
    → (r ≡ 0) ⊎ (p10 r ≤ value)
    → (size ≡ 1) ⊎ (p10 (size - 1) ≤ value)
shortest-digits r size value e (inl one) = inl (omega arith)
shortest-digits r size value e (inr low) = let e' : size - 1 ≡ r = omega arith in inr (rw e' low)

-- The two loops print the decimal text of every number below ten to the ten.
pub put_unsigned_lem :
    (value : ℕ)
    → value < 10000000000
    → (ds : List ℕ) × (put_unsigned value ≡ some ds) × IsDecimal value ds
put_unsigned_lem value h =
    let (r, found, bound, above, below) =
      find_divisor_lem 9 10 0 value refl (omega arith) h (inl refl) in
    let (spelled, digits, size) = put_digits_lem r 11 value 0 (omega arith) above in
    (
      put_digits 11 value (p10 r),
      put_unsigned-some value found,
      record {
        digits = digits;
        spells = spelled ∙ omega arith;
        some_digit = omega (arith, size);
        fits = rw size above;
        shortest = shortest-digits r (length (put_digits 11 value (p10 r))) value size below;
      },
    )
