-- ===== src/Riscv/Interrupts.antt =====
-- `intr_on`, `intr_off` and `intr_get` switch one bit of `sstatus`.
use gquuuuuunix.Base.{
  ℕ, ◌+◌, ◌*◌, ◌-◌, ◌/◌, ◌%◌, ◌^◌, ◌<◌, ◌≡◌, refl, ap, true, false, not, bit_and, ◌==◌, arith,
}
use gquuuuuunix.Bits.{bit_and-two, bit_or-two, bit_and-not_two}
use gquuuuuunix.Riscv.{Csrs, intr_on, intr_off, intr_get}

-- `sstatus` holds a 64-bit word.
abbrev pub Fits : Csrs → Type 0
Fits c = c.sstatus < 2 ^ 64

-- The interrupt bit as a number.
abbrev pub sie_bit : Csrs → ℕ
sie_bit c = c.sstatus / 2 % 2

pub intr_get-sie_bit : (c : Csrs) → intr_get c ≡ not (sie_bit c == 0)
unfolding intr_get
intr_get-sie_bit c = ground (arith, bit_and-two c.sstatus)

pub intr_on-sstatus : (c : Csrs) → (intr_on c).sstatus ≡ c.sstatus + (1 - sie_bit c) * 2
unfolding intr_on
intr_on-sstatus c = bit_or-two c.sstatus

pub intr_off-sstatus : (c : Csrs) → Fits c → (intr_off c).sstatus ≡ c.sstatus - sie_bit c * 2
unfolding intr_off
intr_off-sstatus c h = bit_and-not_two c.sstatus h

pub intr_get-intr_on : (c : Csrs) → intr_get (intr_on c) ≡ true
intr_get-intr_on c = ground (arith, intr_get-sie_bit (intr_on c), intr_on-sstatus c)

pub intr_get-intr_off : (c : Csrs) → Fits c → intr_get (intr_off c) ≡ false
intr_get-intr_off c h = ground (arith, intr_get-sie_bit (intr_off c), intr_off-sstatus c h)

pub intr_on-Fits : (c : Csrs) → Fits c → Fits (intr_on c)
intr_on-Fits c h = omega (arith, intr_on-sstatus c)

pub intr_off-Fits : (c : Csrs) → Fits c → Fits (intr_off c)
intr_off-Fits c h = omega (arith, intr_off-sstatus c h)

-- Switching off does nothing when interrupts are off, and switching on nothing when they are on.
pub intr_off_id : (c : Csrs) → Fits c → intr_get c ≡ false → intr_off c ≡ c
unfolding intr_off
intr_off_id c h off =
    ap (λ (t : ℕ). record c { sstatus = t })
      (ground (arith, intr_get-sie_bit c, bit_and-not_two c.sstatus h))

-- Off and on again is where it was, if interrupts were on.
pub intr_on-intr_off : (c : Csrs) → Fits c → intr_get c ≡ true → intr_on (intr_off c) ≡ c
unfolding intr_on intr_off
intr_on-intr_off c h on =
    ap (λ (t : ℕ). record c { sstatus = t })
      (ground (
        arith,
        intr_get-sie_bit c,
        bit_and-not_two c.sstatus h,
        bit_or-two (bit_and c.sstatus (2 ^ 64 - 1 - 2)),
      ))

-- Nothing but `sstatus` changes.
pub intr_on-tp : (c : Csrs) → (intr_on c).tp ≡ c.tp
unfolding intr_on
intr_on-tp c = refl

pub intr_off-tp : (c : Csrs) → (intr_off c).tp ≡ c.tp
unfolding intr_off
intr_off-tp c = refl
