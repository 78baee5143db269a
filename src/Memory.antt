-- ===== src/Memory.antt =====
-- 03.Scheduler/lib/string.c: `memcpy` and `strlen` over a byte memory.
--
-- A memory maps addresses to bytes; objects do not wrap around the address space. A 64-, 32- or
-- 16-bit assignment reads its bytes before it writes them. At an address that is not aligned to its
-- size it is undefined in C and may trap: a fault.
pub mod Chunks
pub mod Copy
pub mod Length
use gquuuuuunix.Base.{
  ℕ, zero, suc, ◌+◌, ◌-◌, ◌*◌, ◌/◌, ◌%◌, ◌<◌, Bool, true, false, ◌&&◌, ◌||◌, ltb, leb, ◌==◌,
  if◌then◌else◌,
}
use gquuuuuunix.Outcome.{Outcome, ok, ◌>>=◌, panic, hang, fault, panic_if, strlen_null}

abbrev pub Mem : Type 0
Mem = ℕ → ℕ

-- One assignment of `k` bytes through the two pointers.
abbrev pub copy_chunk : ℕ → ℕ → ℕ → Mem → Mem
copy_chunk k dst src m a = if leb dst a && ltb a (dst + k) then m (src + (a - dst)) else m a

-- `while (cnt--) *dst++ = *src++;` over items of `k` bytes.
unfoldable pub copy_loop : ℕ → ℕ → ℕ → ℕ → Mem → Mem
copy_loop k zero dst src m = m
copy_loop k (suc cnt) dst src m = copy_loop k cnt (dst + k) (src + k) (copy_chunk k dst src m)

unfoldable pub memcpy_1 : ℕ → ℕ → ℕ → Mem → Mem
unfolding copy_loop
memcpy_1 dst src n m = copy_loop 1 n dst src m

-- The loop over items of `k` bytes, where an item that is not aligned is a fault. The step of both
-- pointers is `k`, so that they are aligned at all items or at none.
unfoldable pub copy_items : ℕ → ℕ → ℕ → ℕ → Mem → Outcome Mem
unfolding copy_loop
copy_items k cnt dst src m =
    if cnt == 0 || dst % k == 0 && src % k == 0 then ok (copy_loop k cnt dst src m) else fault

unfoldable pub memcpy_n : ℕ → ℕ → ℕ → Mem → Outcome Mem
unfolding copy_items
memcpy_n dst src n m =
    let eight = n / 8 in
    let four = (n - eight * 8) / 4 in
    let two = (n - eight * 8 - four * 4) / 2 in
    let one = n - eight * 8 - four * 4 - two * 2 in
    do
      m8 ← copy_items 8 eight dst src m
      m4 ← copy_items 4 four (dst + eight * 8) (src + eight * 8) m8
      m2 ← copy_items 2 two (dst + eight * 8 + four * 4) (src + eight * 8 + four * 4) m4
      copy_items 1 one (dst + eight * 8 + four * 4 + two * 2) (src + eight * 8 + four * 4 + two * 2)
          m2

-- With equal misalignments the code copies that many bytes first, whatever `n` is. If `n` is less,
-- the count that is left is negative, one of the four loops of `memcpy_n` starts at a negative
-- count and does not end before it has run over all of memory: a fault.
unfoldable pub memcpy : ℕ → ℕ → ℕ → Mem → Outcome Mem
unfolding memcpy_1 memcpy_n
memcpy dst src n m =
    let dst_align = dst % 8 in
    let src_align = src % 8 in
    if dst_align == 0 && src_align == 0
    then memcpy_n dst src n m
    else if ltb 0 dst_align && ltb 0 src_align && dst_align == src_align
    then (if ltb n src_align
        then fault
        else memcpy_n (dst + dst_align) (src + dst_align) (n - src_align)
            (memcpy_1 dst src dst_align m))
    else ok (memcpy_1 dst src n m)

-- `while (*str++ != '\\0') ++len;`
unfoldable pub strlen_loop : ℕ → ℕ → ℕ → Mem → Outcome ℕ
strlen_loop zero str len m = hang
strlen_loop (suc fuel) str len m =
    let again = strlen_loop fuel (str + 1) (len + 1) m in if m str == 0 then ok len else again

-- The null pointer is address 0.
unfoldable pub strlen : ℕ → ℕ → Mem → Outcome ℕ
unfolding strlen_loop
strlen fuel str m = panic_if (str == 0) strlen_null (strlen_loop fuel str 0 m)
