-- ===== src/Console/Hex.antt =====
-- Hexadecimal output: the loops behind `%x`, `%lx` and `%llx`.
pub mod RoundTrip
use gquuuuuunix.Base.{
  ◌-◌, ℕ, zero, suc, ◌+◌, ◌*◌, ◌/◌, ◌^◌, ◌≤◌, List, [], ◌∷◌, bit_and, ltb, if◌then◌else◌,
}

-- `"0123456789abcdef"[nibble]`.
unfoldable pub hex_char : ℕ → ℕ
hex_char nibble = if ltb nibble 10 then b'0' + nibble else b'a' + nibble - 10

-- `for (i = n - 1; i >= 0; i--) { nibble = (value >> (i * 4)) & 0xf; … }` on the value's pattern. The
-- shift fills with the sign from above the pattern, which the mask takes away again.
unfoldable pub put_hex : ℕ → ℕ → List ℕ
unfolding hex_char
put_hex zero value = []
put_hex (suc i) value = hex_char (bit_and (value / 2 ^ (i * 4)) 0xf) ∷ put_hex i value
