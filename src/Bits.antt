-- ===== src/Bits.antt =====
-- Laws of the bitwise operations at variables, for the masks of the control registers.
use Prim.Native.Nat.{min, max, digits, bit_and-bitwise, bit_or-bitwise}
use native.Mathlib.Nat.{pow-suc, one-le-pow, div-div-eq-div-mul}
use gquuuuuunix.Base.{
  ℕ, zero, suc, ◌+◌, ◌-◌, ◌*◌, ◌/◌, ◌%◌, ◌^◌, ◌≤◌, ◌<◌, bit_and, bit_or, ◌≡◌, refl, ap, sym, ◌∙◌,
  arith,
}

-- Both operations are recursions on binary digits: `over` is what is left when the first operand has
-- no digit any more, and `op` combines two digits.
module _ (over : ℕ → ℕ) (op : ℕ → ℕ → ℕ) where
  digits-over : (rounds y : ℕ) → digits over op rounds 0 y ≡ over y
  digits-over zero y = refl
  digits-over (suc rounds) y = refl

  -- More rounds than the first operand needs give the same.
  spare_rounds :
      (few many x y : ℕ) → few ≤ many → x ≤ few → digits over op many x y ≡ digits over op few x y
  spare_rounds few many zero y le need = digits-over many y ∙ sym (digits-over few y)
  spare_rounds zero many (suc x) y le need = absurd (omega arith)
  spare_rounds (suc few) zero (suc x) y le need = absurd (omega arith)
  spare_rounds (suc few) (suc many) (suc x) y le need =
      let upper = spare_rounds few many (suc x / 2) (y / 2) (omega arith) (omega arith) in
      ap (λ t. t * 2 + op (suc x % 2) (y % 2)) upper

  lowest_digit :
      (x y : ℕ)
      → over y ≡ over (y / 2) * 2 + op 0 (y % 2)
      → digits over op x x y ≡ digits over op (x / 2) (x / 2) (y / 2) * 2 + op (x % 2) (y % 2)
  lowest_digit zero y splits = splits
  lowest_digit (suc x) y splits =
      let upper = spare_rounds (suc x / 2) x (suc x / 2) (y / 2) (omega arith) (omega arith) in
      ap (λ t. t * 2 + op (suc x % 2) (y % 2)) upper

-- The lowest digit of a conjunction, and the digits above it.
pub bit_and_step : (a b : ℕ) → bit_and a b ≡ bit_and (a / 2) (b / 2) * 2 + min (a % 2) (b % 2)
bit_and_step a b =
    let low = lowest_digit (λ _. 0) min a b (omega arith) in
    omega (arith, low, bit_and-bitwise a b, bit_and-bitwise (a / 2) (b / 2))

-- The lowest digit of a disjunction, and the digits above it.
pub bit_or_step : (a b : ℕ) → bit_or a b ≡ bit_or (a / 2) (b / 2) * 2 + max (a % 2) (b % 2)
bit_or_step a b =
    let low = lowest_digit (λ y. y) max a b (omega arith) in
    omega (arith, low, bit_or-bitwise a b, bit_or-bitwise (a / 2) (b / 2))

digits-min_zero : (rounds x : ℕ) → digits (λ _. 0) min rounds x 0 ≡ 0
digits-min_zero zero x = refl
digits-min_zero (suc rounds) zero = refl
digits-min_zero (suc rounds) (suc x) = omega (arith, digits-min_zero rounds (suc x / 2))

pub bit_and-zero : (a : ℕ) → bit_and a 0 ≡ 0
bit_and-zero a = bit_and-bitwise a 0 ∙ digits-min_zero a a

digits-max_zero : (rounds x : ℕ) → x ≤ rounds → digits (λ y. y) max rounds x 0 ≡ x
digits-max_zero zero x need = omega arith
digits-max_zero (suc rounds) zero need = refl
digits-max_zero (suc rounds) (suc x) need =
    let upper = digits-max_zero rounds (suc x / 2) (omega arith) in omega (arith, upper)

pub bit_or-zero : (a : ℕ) → bit_or a 0 ≡ a
bit_or-zero a = bit_or-bitwise a 0 ∙ digits-max_zero a a (omega arith)

-- A word of `n` digits is left alone by a mask of `n` ones.
pub bit_and-ones_of_lt : (n a : ℕ) → a < 2 ^ n → bit_and a (2 ^ n - 1) ≡ a
bit_and-ones_of_lt zero a h = omega (arith, bit_and-zero a)
bit_and-ones_of_lt (suc n) a h = omega (
  arith,
  pow-suc 2 n,
  one-le-pow n 2,
  bit_and_step a (2 ^ suc n - 1),
  ap (λ (t : ℕ). bit_and (a / 2) t) (halved n),
  bit_and-ones_of_lt n (a / 2) (omega (arith, pow-suc 2 n)),
)
  where
    halved : (k : ℕ) → (2 ^ suc k - 1) / 2 ≡ 2 ^ k - 1
    halved k = omega (arith, pow-suc 2 k)

-- Bit 1: reading, setting and clearing it, as arithmetic.
pub bit_and-two : (a : ℕ) → bit_and a 2 ≡ a / 2 % 2 * 2
bit_and-two a = omega (arith, bit_and_step a 2, bit_and_step (a / 2) 1, bit_and-zero (a / 2 / 2))

pub bit_or-two : (a : ℕ) → bit_or a 2 ≡ a + (1 - a / 2 % 2) * 2
bit_or-two a = omega (arith, bit_or_step a 2, bit_or_step (a / 2) 1, bit_or-zero (a / 2 / 2))

pub bit_and-not_two : (a : ℕ) → a < 2 ^ 64 → bit_and a (2 ^ 64 - 1 - 2) ≡ a - a / 2 % 2 * 2
bit_and-not_two a h = omega (
  arith,
  bit_and_step a (2 ^ 64 - 1 - 2),
  bit_and_step (a / 2) (2 ^ 63 - 2),
  bit_and-ones_of_lt 62 (a / 2 / 2) (omega arith),
)

-- A mask of ones takes the remainder.
mul-two-pow : (q n : ℕ) → q * 2 ^ suc n ≡ 2 * (q * 2 ^ n)
mul-two-pow q n = omega (arith, ap (λ (t : ℕ). q * t) (pow-suc 2 n))

fields-bit_and-ones : (n q r : ℕ) → r < 2 ^ n → bit_and (q * 2 ^ n + r) (2 ^ n - 1) ≡ r
fields-bit_and-ones zero q r h = omega (arith, bit_and-zero (q * 2 ^ zero + r))
fields-bit_and-ones (suc n) q r h = ground (
  arith,
  bit_and_step (q * 2 ^ suc n + r) (2 ^ suc n - 1),
  mul-two-pow q n,
  pow-suc 2 n,
  one-le-pow n 2,
  fields-bit_and-ones n q (r / 2) (omega (arith, pow-suc 2 n)),
)

pub bit_and-ones : (n a : ℕ) → bit_and a (2 ^ n - 1) ≡ a % 2 ^ n
bit_and-ones n a = ground (arith, one-le-pow n 2, fields-bit_and-ones n (a / 2 ^ n) (a % 2 ^ n))

-- The digits one by one.
pub upper-digit : (n x : ℕ) → x / 2 ^ suc n ≡ x / 2 / 2 ^ n
upper-digit n x =
    ap (λ p. x / p) (omega (arith, pow-suc 2 n)) ∙ sym (div-div-eq-div-mul x 2 (2 ^ n))

pub bit_and-digit : (n a b : ℕ) → bit_and a b / 2 ^ n % 2 ≡ min (a / 2 ^ n % 2) (b / 2 ^ n % 2)
bit_and-digit zero a b = omega (arith, bit_and_step a b)
bit_and-digit (suc n) a b =
    let above : bit_and a b / 2 ≡ bit_and (a / 2) (b / 2) = omega (arith, bit_and_step a b) in
    rw (upper-digit n (bit_and a b), upper-digit n a, upper-digit n b, above)
      (bit_and-digit n (a / 2) (b / 2))

pub bit_or-digit : (n a b : ℕ) → bit_or a b / 2 ^ n % 2 ≡ max (a / 2 ^ n % 2) (b / 2 ^ n % 2)
bit_or-digit zero a b = omega (arith, bit_or_step a b)
bit_or-digit (suc n) a b =
    let above : bit_or a b / 2 ≡ bit_or (a / 2) (b / 2) = omega (arith, bit_or_step a b) in
    rw (upper-digit n (bit_or a b), upper-digit n a, upper-digit n b, above)
      (bit_or-digit n (a / 2) (b / 2))

pub bit_or-lt : (n a b : ℕ) → a < 2 ^ n → b < 2 ^ n → bit_or a b < 2 ^ n
bit_or-lt zero a b h k =
    let none_a : a ≡ 0 = omega (arith, h) in
    let none_b : b ≡ 0 = omega (arith, k) in omega (arith, h, bit_or_zeros a b none_a none_b)
  where
    bit_or_zeros : (x y : ℕ) → x ≡ 0 → y ≡ 0 → bit_or x y ≡ 0
    bit_or_zeros x y e f = ap (bit_or x) f ∙ bit_or-zero x ∙ e
bit_or-lt (suc n) a b h k = omega (
  arith,
  bit_or_step a b,
  bit_or-lt n (a / 2) (b / 2) (omega (arith, h, pow-suc 2 n)) (omega (arith, k, pow-suc 2 n)),
  pow-suc 2 n,
)

pub bit_and-lt : (n a b : ℕ) → a < 2 ^ n → bit_and a b < 2 ^ n
bit_and-lt zero a b h =
    let none : a ≡ 0 = omega (arith, h) in
    omega (arith, h, ap (λ x. bit_and x b) none, bit_and-bitwise 0 b)
bit_and-lt (suc n) a b h = omega (
  arith,
  bit_and_step a b,
  bit_and-lt n (a / 2) (b / 2) (omega (arith, h, pow-suc 2 n)),
  pow-suc 2 n,
)
