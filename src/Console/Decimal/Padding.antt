-- ===== src/Console/Decimal/Padding.antt =====
-- The width of `%0…d`.
use Prim.Native.Nat.{max}
use native.Mathlib.Decide.{dec_lt}
use gquuuuuunix.Base.{
  ℕ, zero, suc, ◌+◌, ◌-◌, ◌*◌, ◌/◌, ◌≤◌, ◌<◌, ◌≡◌, ◌≢◌, refl, ◌⊎◌, inl, inr, true, some, List, [],
  ◌∷◌, ◌++◌, ltb, if◌then◌else◌, ◌==◌, Bool-cases, length, replicate, length-append,
  length-replicate, ap, subst, ◌∙◌, arith,
}
use gquuuuuunix.Console.Decimal.{put_signed, count_digits, put_padded, abs_pattern}
use gquuuuuunix.Console.Decimal.RoundTrip.{p10, p10-pos, p10_mono, IsDecimal}
use gquuuuuunix.Console.Decimal.Overflow.{IsSignedDecimal, put_signed_lem}

count_digits_lem :
    (k fuel value : ℕ)
    → k < fuel
    → p10 k ≤ value
    → value < p10 (suc k)
    → count_digits (suc fuel) value ≡ suc k
unfolding count_digits
count_digits_lem zero zero value f lo hi = absurd (omega arith)
count_digits_lem zero (suc fuel) value f lo hi = ground arith
count_digits_lem (suc k) zero value f lo hi = absurd (omega arith)
count_digits_lem (suc k) (suc fuel) value f lo hi = ground (
  arith,
  p10-pos k,
  count_digits_lem k fuel (value / 10) (omega arith) (omega arith) (omega arith),
)

-- The digit count of a positive number is the length of its decimal text; that of zero is 0.
count_digits-IsDecimal :
    (value : ℕ) (ds : List ℕ)
    → 0 < value
    → value < 10000000000
    → IsDecimal value ds
    → count_digits 20 value ≡ length ds
count_digits-IsDecimal value ds pos small d = go (length ds) d.some_digit d.fits d.shortest
  where
    go :
        (n : ℕ)
        → 0 < n
        → value < p10 n
        → (n ≡ 1) ⊎ (p10 (n - 1) ≤ value)
        → count_digits 20 value ≡ n
    go zero p hi lo = absurd (omega arith)
    go (suc zero) p hi lo = count_digits_lem 0 19 value (omega arith) pos hi
    go (suc (suc k)) p hi (inl one) = absurd (omega arith)
    go (suc (suc k)) p hi (inr lo) =
        let less : suc (suc k) - 1 ≡ suc k = omega arith in
        let low : p10 (suc k) ≤ value = subst (λ m. p10 m ≤ value) less lo in
        count_digits_lem (suc k) 19 value
          (elim (dec_lt k 18) [
            | yes few ↦ omega arith
            | no many ↦ absurd (omega (arith, p10_mono 10 (suc k) (omega arith)))
          ])
          low hi

count_digits-zero : count_digits 20 0 ≡ 0
unfolding count_digits
count_digits-zero = refl

put_padded-some :
    (limit width w : ℕ) {ds : List ℕ}
    → put_signed limit w ≡ some ds
    → put_padded limit width w
      ≡ some (replicate (width - count_digits 20 (abs_pattern limit w)) b'0' ++ ds)
unfolding put_padded
put_padded-some limit width w e = ground (arith, e)

zeros-length : (n : ℕ) (out : List ℕ) → length (replicate n b'0' ++ out) ≡ n + length out
zeros-length n out =
    omega (arith, length-append (replicate n b'0') out, length-replicate {A = ℕ} n b'0')

signed-length :
    (limit w : ℕ) {out : List ℕ} (text : IsSignedDecimal limit w out)
    → length out ≡ length text.ds + (if ltb w limit then 0 else 1)
signed-length limit w text = ap length text.text ∙ ground (arith, length-append (b'-' ∷ []) text.ds)

module _ (limit width w : ℕ) {out : List ℕ} (text : IsSignedDecimal limit w out) where
  width-pos :
      0 < abs_pattern limit w
      → abs_pattern limit w < 10000000000
      → length (replicate (width - count_digits 20 (abs_pattern limit w)) b'0' ++ out)
        ≡ max width (length text.ds) + (if ltb w limit then 0 else 1)
  width-pos pos small =
      let count = count_digits-IsDecimal (abs_pattern limit w) text.ds pos small text.decimal in
      rw count
        (omega (arith, zeros-length (width - length text.ds) out, signed-length limit w text))

  width-zero :
      w < 2 * limit
      → abs_pattern limit w ≡ 0
      → length (replicate (width - count_digits 20 (abs_pattern limit w)) b'0' ++ out) ≡ width + 1
  width-zero h nought =
      let one : length text.ds ≡ 1 = one-digit (length text.ds) text.decimal.shortest in
      let plus : ltb w limit ≡ true = ground (arith, nought) in
      rw (nought, count_digits-zero)
        (ground (arith, zeros-length width out, signed-length limit w text, one, plus))
    where
      one-digit : (n : ℕ) → (n ≡ 1) ⊎ (p10 (n - 1) ≤ abs_pattern limit w) → n ≡ 1
      one-digit n (inl e) = e
      one-digit n (inr lo) = absurd (omega (arith, p10-pos (n - 1), nought))

-- Of a number that is not the least and whose magnitude is below ten to the ten: the padded text
-- is as wide as asked for, or as its digits need, with one place more for a minus sign; but zero
-- is one place wider than asked for.
pub put_padded-length :
    (limit width w : ℕ)
    → w < 2 * limit
    → w ≢ limit
    → abs_pattern limit w < 10000000000
    → (out : List ℕ) × (put_padded limit width w ≡ some out)
      × (ds : List ℕ) × IsDecimal (abs_pattern limit w) ds
      × (0 < abs_pattern limit w
          → length out ≡ max width (length ds) + (if ltb w limit then 0 else 1))
      × (abs_pattern limit w ≡ 0 → length out ≡ width + 1)
put_padded-length limit width w h ne small =
    let (out, found, text) = (put_signed_lem limit w h).0 ne small in
    let zeros = replicate (width - count_digits 20 (abs_pattern limit w)) b'0' in
    (
      zeros ++ out,
      put_padded-some limit width w found,
      text.ds,
      text.decimal,
      λ pos. width-pos limit width w text pos small,
      λ nought. width-zero limit width w text h nought,
    )

-- Digits of `value` behind zeros up to `width` places, where the digit of zero does not count.
abbrev pub padded : ℕ → ℕ → List ℕ → List ℕ
padded width value ds = replicate (width - (if value == 0 then 0 else length ds)) b'0' ++ ds

-- The padded text of a number that is not negative and is below ten to the ten.
pub put_padded-shows :
    (limit width w : ℕ)
    → w < limit
    → w < 10000000000
    → (ds : List ℕ) × IsDecimal w ds × (put_padded limit width w ≡ some (padded width w ds))
put_padded-shows limit width w pos small =
    let plus : abs_pattern limit w ≡ w = ground (arith, pos) in
    let (out, found, text) =
      (put_signed_lem limit w (omega (arith, pos))).0 (omega (arith, pos))
        (omega (arith, plus, small)) in
    let bare : out ≡ text.ds = text.text ∙ ground (arith, pos) in
    let decimal : IsDecimal w text.ds = subst (λ v. IsDecimal v text.ds) plus text.decimal in
    let count : count_digits 20 w ≡ (if w == 0 then 0 else length text.ds) =
      elim (Bool-cases (w == 0)) [
        | inl zero_w ↦ ground (arith, zero_w, count_digits-zero)
        | inr ne ↦
            let same = count_digits-IsDecimal w text.ds (ground (arith, ne)) small decimal in
            ground (arith, ne, same)
      ] in
    (
      text.ds,
      decimal,
      put_padded-some limit width w found
          ∙ ap (λ v. some (replicate (width - count_digits 20 v) b'0' ++ out)) plus
          ∙ ap (λ c. some (replicate (width - c) b'0' ++ out)) count
          ∙ ap (λ l. some (replicate (width - (if w == 0 then 0 else length text.ds)) b'0' ++ l))
              bare,
    )
