-- ===== src/Console/Hex/RoundTrip.antt =====
-- What the hexadecimal loops print reads back as the value.
use native.Mathlib.Nat.{div-add-mod, one-le-pow, mul-add-mod_self_left, mod-eq_of_lt}
use native.Mathlib.Numerals.{towards_suc}
use gquuuuuunix.Base.{
  ℕ, zero, suc, ◌+◌, ◌-◌, ◌*◌, ◌/◌, ◌%◌, ◌^◌, ◌<◌, ◌≡◌, refl, List, [], ◌∷◌, length, bit_and, ltb,
  if◌then◌else◌, ap, sym, ◌∙◌, arith,
}
use gquuuuuunix.Bits.{bit_and-ones}
use gquuuuuunix.Console.Hex.{hex_char, put_hex}

-- The value of a hexadecimal digit, and of a text.
abbrev pub hex_value : ℕ → ℕ
hex_value c = if ltb c b'a' then c - b'0' else c - b'a' + 10

abbrev pub read_hex : ℕ → List ℕ → ℕ
read_hex acc [] = acc
read_hex acc (c ∷ cs) = read_hex (acc * 16 + hex_value c) cs

hex_value-hex_char : (d : ℕ) → d < 16 → hex_value (hex_char d) ≡ d
unfolding hex_char
hex_value-hex_char d h = ground arith

nibble-mod : (value i : ℕ) → bit_and (value / 2 ^ (i * 4)) 0xf ≡ value / 2 ^ (i * 4) % 16
nibble-mod value i = bit_and-ones 4 (value / 2 ^ (i * 4))

pow16 : (n : ℕ) → 2 ^ (suc n * 4) ≡ 16 * 2 ^ (n * 4)
pow16 n = ap (λ (t : ℕ). 2 ^ t) (more n) ∙ simp towards_suc (omega arith)
  where
    more : (k : ℕ) → suc k * 4 ≡ k * 4 + 4
    more k = omega arith

mod-split : (p value : ℕ) → 0 < p → value % (16 * p) ≡ value / p % 16 * p + value % p
mod-split p value h =
    ap (λ t. t % (16 * p)) whole
    ∙ mul-add-mod_self_left (16 * p) (value / p / 16) (value / p % 16 * p + value % p)
    ∙ mod-eq_of_lt low
  where
    whole : value ≡ 16 * p * (value / p / 16) + (value / p % 16 * p + value % p)
    whole = omega (arith, div-add-mod value p, ap (λ t. p * t) (div-add-mod (value / p) 16))

    low : value / p % 16 * p + value % p < 16 * p
    low = grind arith

hex_step :
    (p value acc d : ℕ)
    → 0 < p
    → d ≡ value / p % 16
    → (acc * 16 + d) * p + value % p ≡ acc * (16 * p) + value % (16 * p)
hex_step p value acc d h e = rw e (omega (arith, mod-split p value h))

-- `n` hexadecimal digits are printed; behind the value `acc` of digits read before them, they read
-- as the low `n * 4` bits of the number.
pub put_hex_lem :
    (n value acc : ℕ)
    → (read_hex acc (put_hex n value) ≡ acc * 2 ^ (n * 4) + value % 2 ^ (n * 4))
      × (length (put_hex n value) ≡ n)
unfolding put_hex
put_hex_lem zero value acc = (omega arith, refl)
put_hex_lem (suc n) value acc =
    let d = bit_and (value / 2 ^ (n * 4)) 0xf in
    let digit : hex_value (hex_char d) ≡ value / 2 ^ (n * 4) % 16 =
      hex_value-hex_char d (omega (arith, nibble-mod value n)) ∙ nibble-mod value n in
    let rest = put_hex_lem n value (acc * 16 + hex_value (hex_char d)) in
    (
      rest.0
          ∙ hex_step (2 ^ (n * 4)) value acc (hex_value (hex_char d))
              (one-le-pow (n * 4) 2 (omega arith)) digit
          ∙ ap (λ (t : ℕ). acc * t + value % t) (sym (pow16 n)),
      ap suc rest.1,
    )
