-- ===== src/Riscv/Pages.antt =====
-- 03.Scheduler/include/riscv.h: the macros for pages, page-table entries and virtual addresses, on
-- 64-bit words.
pub mod Walk
use gquuuuuunix.Base.{ℕ, ◌+◌, ◌-◌, ◌*◌, ◌/◌, ◌%◌, ◌^◌, bit_and}
use gquuuuuunix.Riscv.{not64}

abbrev pub pgsize : ℕ
pgsize = 4096

abbrev pub pgshift : ℕ
pgshift = 12

-- The mask `~(PGSIZE-1)` is an `int`, which is extended with its sign.
unfoldable pub pgroundup : ℕ → ℕ
pgroundup sz = bit_and ((sz + pgsize - 1) % 2 ^ 64) (not64 (pgsize - 1))

unfoldable pub pgrounddown : ℕ → ℕ
pgrounddown a = bit_and a (not64 (pgsize - 1))

-- `<<` by `n` on 64 bits.
abbrev pub shl : ℕ → ℕ → ℕ
shl x n = x * 2 ^ n % 2 ^ 64

unfoldable pub pa2pte : ℕ → ℕ
pa2pte pa = shl (pa / 2 ^ 12) 10

unfoldable pub pte2pa : ℕ → ℕ
pte2pa pte = shl (pte / 2 ^ 10) 12

unfoldable pub pte_flags : ℕ → ℕ
pte_flags pte = bit_and pte 1023

abbrev pub pxmask : ℕ
pxmask = 511

abbrev pub pxshift : ℕ → ℕ
pxshift level = pgshift + 9 * level

unfoldable pub px : ℕ → ℕ → ℕ
px level va = bit_and (va / 2 ^ pxshift level) pxmask

abbrev pub maxva : ℕ
maxva = 2 ^ (9 + 9 + 9 + 12 - 1)
