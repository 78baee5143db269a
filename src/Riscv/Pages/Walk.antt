-- ===== src/Riscv/Pages/Walk.antt =====
-- Entries give their page and flags back, and the indices of the three levels give the address back.
use gquuuuuunix.Base.{
  ℕ, zero, suc, ◌+◌, ◌-◌, ◌*◌, ◌/◌, ◌%◌, ◌^◌, ◌≤◌, ◌<◌, ◌≡◌, bit_and, bit_or, ap, ◌∙◌, arith,
}
use Prim.Native.Nat.{min, max}
use native.Mathlib.Nat.{pow-suc}
use gquuuuuunix.Bits.{
  upper-digit, bit_and_step, bit_or_step, bit_or-zero, bit_and-ones, bit_and-ones_of_lt,
}
use gquuuuuunix.Riscv.{not64}
use gquuuuuunix.Riscv.Pages.{pgsize, pgroundup, pgrounddown, pa2pte, pte2pa, pte_flags, px, maxva}

none_left : (f : ℕ) → f < 2 ^ 0 → f ≡ 0
none_left f h = omega (arith, h)

double : (n x : ℕ) → x * 2 ^ suc n ≡ x * 2 ^ n * 2
double n x = grind (arith, pow-suc 2 n)

-- A mask without its lowest `n` ones, and a word with its lowest `n` digits free.
bit_and-high : (n a mask : ℕ) → bit_and a (mask * 2 ^ n) ≡ bit_and (a / 2 ^ n) mask * 2 ^ n
bit_and-high zero a mask =
    let same_mask : mask * 2 ^ 0 ≡ mask = omega arith in
    let same_word : a / 2 ^ 0 ≡ a = omega arith in rw (same_mask, same_word) (omega arith)
bit_and-high (suc n) a mask =
    let half : mask * 2 ^ suc n / 2 ≡ mask * 2 ^ n = omega (arith, double n mask) in
    let even : min (a % 2) (mask * 2 ^ suc n % 2) ≡ 0 = omega (arith, double n mask) in
    bit_and_step a (mask * 2 ^ suc n)
    ∙ rw (half, even, upper-digit n a, bit_and-high n (a / 2) mask)
        (omega (arith, double n (bit_and (a / 2 / 2 ^ n) mask)))

bit_or-low : (n x f : ℕ) → f < 2 ^ n → bit_or (x * 2 ^ n) f ≡ x * 2 ^ n + f
bit_or-low zero x f h =
    omega (arith, bit_or-zero (x * 2 ^ 0), ap (bit_or (x * 2 ^ 0)) (none_left f h))
bit_or-low (suc n) x f h =
    let half : x * 2 ^ suc n / 2 ≡ x * 2 ^ n = omega (arith, double n x) in
    let even : max (x * 2 ^ suc n % 2) (f % 2) ≡ f % 2 = omega (arith, double n x) in
    bit_or_step (x * 2 ^ suc n) f
    ∙ rw (half, even, bit_or-low n x (f / 2) (omega (arith, h, pow-suc 2 n)))
        (omega (arith, double n x))

page_mask : (a : ℕ) → a < 2 ^ 64 → bit_and a (not64 (pgsize - 1)) ≡ a / 4096 * 4096
page_mask a h =
    bit_and-high 12 a (2 ^ 52 - 1)
    ∙ ap (λ t. t * 4096) (bit_and-ones_of_lt 52 (a / 4096) (omega (arith, h)))

px-digits : (level va : ℕ) → px level va ≡ va / 2 ^ (12 + 9 * level) % 512
unfolding px
px-digits level va = bit_and-ones 9 (va / 2 ^ (12 + 9 * level))

-- An entry made of a physical address and flags gives the page and the flags back, and a virtual
-- address below `MAXVA` is put together again from the indices of its three levels, each of which fits
-- a table of 512 entries, and its offset in the page.
pub walk_lem :
    (pa flags va : ℕ)
    → pa < 2 ^ 56
    → flags < 1024
    → va < maxva
    → (pte2pa (bit_or (pa2pte pa) flags) ≡ pgrounddown pa)
      × (pte_flags (bit_or (pa2pte pa) flags) ≡ flags)
      × (px 2 va * 2 ^ 30 + px 1 va * 2 ^ 21 + px 0 va * 2 ^ 12 + (va - pgrounddown va) ≡ va)
      × ((level : ℕ) → px level va < 512)
unfolding pa2pte pte2pa pte_flags pgrounddown
walk_lem pa flags va small few below =
    let whole : pa / 2 ^ 12 * 2 ^ 10 % 2 ^ 64 ≡ pa / 2 ^ 12 * 2 ^ 10 = omega (arith, small) in
    let entry = ap (λ x. bit_or x flags) whole ∙ bit_or-low 10 (pa / 2 ^ 12) flags few in
    let page = page_mask pa (omega (arith, small)) in
    let offset = page_mask va (omega (arith, below)) in
    (
      omega (arith, entry, page, few, small),
      bit_and-ones 10 (bit_or (pa2pte pa) flags) ∙ omega (arith, entry, few),
      omega (arith, px-digits 2 va, px-digits 1 va, px-digits 0 va, offset, below),
      λ level. omega (arith, px-digits level va),
    )

-- Rounding up, where it does not overflow, gives the least multiple of the page size that is not below.
pub pgroundup_lem :
    (sz : ℕ)
    → sz + 4095 < 2 ^ 64
    → (pgroundup sz % pgsize ≡ 0)
      × (sz ≤ pgroundup sz)
      × ((b : ℕ) → b % pgsize ≡ 0 → sz ≤ b → pgroundup sz ≤ b)
unfolding pgroundup
pgroundup_lem sz h =
    let down = page_mask ((sz + pgsize - 1) % 2 ^ 64) (omega arith) in
    (omega (arith, down, h), omega (arith, down, h), λ b even le. omega (arith, down, h, even, le))
