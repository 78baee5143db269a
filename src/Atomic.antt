-- ===== src/Atomic.antt =====
-- 03.Scheduler/include/atomic.h: read-modify-write operations on a shared word.
--
-- A word is its pattern, below `2 ^ 32` or `2 ^ 64`. An operation takes the word at the moment of
-- its memory instruction, which the hardware makes indivisible, and returns the old word, the new
-- word and the hart's own state. All but the compare-and-exchange and the load mask interrupts
-- around the instruction. The assembly of the 64-bit stores lacks the end of a line; it is taken as if
-- it had it.
pub mod Laws
pub mod Typed
pub mod Reservation
use gquuuuuunix.Base.{
  ℕ, ◌+◌, ◌-◌, ltb, ◌%◌, ◌^◌, List, [], ◌∷◌, bit_and, bit_or, bit_xor, ◌==◌, if◌then◌else◌,
}
use gquuuuuunix.Outcome.{Outcome, ok, hang, ◌>>=◌}
use gquuuuuunix.Cpu.{Core, push_off, pop_off}

-- What one instruction leaves: the old word, the new word, and the hart.
pub record Rmw : Type 0 where
  pub old : ℕ
  pub word : ℕ
  pub core : Core

-- The memory instructions, by the width of the word: the new word from the operand and the old one.
abbrev pub amoswap : ℕ → ℕ → ℕ → ℕ
amoswap w val old = val % 2 ^ w

abbrev pub amoadd : ℕ → ℕ → ℕ → ℕ
amoadd w val old = (old + val) % 2 ^ w

abbrev pub amoand : ℕ → ℕ → ℕ → ℕ
amoand w val old = bit_and old val

abbrev pub amoor : ℕ → ℕ → ℕ → ℕ
amoor w val old = bit_or old val

abbrev pub amoxor : ℕ → ℕ → ℕ → ℕ
amoxor w val old = bit_xor old val

-- `push_off(); amo…; pop_off(); return old;`
unfoldable pub masked_amo : (ℕ → ℕ) → ℕ → Core → Outcome Rmw
masked_amo instr word c = do
  c' ← pop_off (push_off c)
  ok (record { old = word; word = instr word; core = c' })

unfoldable pub test_set_i32 : ℕ → Core → Outcome Rmw
unfolding masked_amo
test_set_i32 = masked_amo (amoswap 32 1)

unfoldable pub test_set_i64 : ℕ → Core → Outcome Rmw
unfolding masked_amo
test_set_i64 = masked_amo (amoswap 64 1)

unfoldable pub test_set_u64 : ℕ → Core → Outcome Rmw
unfolding masked_amo
test_set_u64 = masked_amo (amoswap 64 1)

-- What other harts do between a load-reserved and its store-conditional: nothing, so that the store
-- succeeds, or something that loses the reservation and leaves another word.
pub data Try : Type 0 where
  kept : Try
  lost : ℕ → Try

-- `1: lr; bne 2f; sc; bnez 1b; 2:`, over the tries that the hardware grants.
unfoldable pub cmp_xchg : List Try → ℕ → ℕ → ℕ → Outcome (ℕ × ℕ)
cmp_xchg [] word expected desired = hang
cmp_xchg (kept ∷ ts) word expected desired =
    if word == expected then ok (word, desired) else ok (word, word)
cmp_xchg (lost word' ∷ ts) word expected desired =
    let again = cmp_xchg ts word' expected desired in
    if word == expected then again else ok (word, word)

unfoldable pub cmp_xchg_i32 : List Try → ℕ → ℕ → ℕ → Outcome (ℕ × ℕ)
unfolding cmp_xchg
cmp_xchg_i32 = cmp_xchg

unfoldable pub cmp_xchg_i64 : List Try → ℕ → ℕ → ℕ → Outcome (ℕ × ℕ)
unfolding cmp_xchg
cmp_xchg_i64 = cmp_xchg

unfoldable pub cmp_xchg_u64 : List Try → ℕ → ℕ → ℕ → Outcome (ℕ × ℕ)
unfolding cmp_xchg
cmp_xchg_u64 = cmp_xchg

unfoldable pub atomic_load_i32 : ℕ → ℕ
atomic_load_i32 word = word

unfoldable pub atomic_load_i64 : ℕ → ℕ
atomic_load_i64 word = word

-- Its result is declared as an `int`, whose sign is extended in the caller's `unsigned long`.
unfoldable pub atomic_load_u64 : ℕ → ℕ
atomic_load_u64 word =
    let low = word % 2 ^ 32 in if ltb low (2 ^ 31) then low else low + (2 ^ 64 - 2 ^ 32)

-- `1: lr; sc; bnez 1b`.
unfoldable pub store_loop : List Try → ℕ → Outcome ℕ
store_loop [] val = hang
store_loop (kept ∷ ts) val = ok val
store_loop (lost _ ∷ ts) val = store_loop ts val

-- The store loop behind `push_off`; returns the word and the hart.
unfoldable pub masked_store : List Try → ℕ → Core → Outcome (ℕ × Core)
unfolding store_loop
masked_store ts val c = do word ← store_loop ts val; c' ← pop_off (push_off c); ok (word, c')

unfoldable pub atomic_store_i32 : List Try → ℕ → Core → Outcome (ℕ × Core)
unfolding masked_store
atomic_store_i32 = masked_store

unfoldable pub fetch_add_i32 : ℕ → ℕ → Core → Outcome Rmw
unfolding masked_amo
fetch_add_i32 word val = masked_amo (amoadd 32 val) word

unfoldable pub fetch_add_i64 : ℕ → ℕ → Core → Outcome Rmw
unfolding masked_amo
fetch_add_i64 word val = masked_amo (amoadd 64 val) word

unfoldable pub fetch_add_u64 : ℕ → ℕ → Core → Outcome Rmw
unfolding masked_amo
fetch_add_u64 word val = masked_amo (amoadd 64 val) word

-- The source subtracts by `amoadd` of `val` itself, not of its negation.
unfoldable pub fetch_sub_i32 : ℕ → ℕ → Core → Outcome Rmw
unfolding masked_amo
fetch_sub_i32 word val = masked_amo (amoadd 32 val) word

unfoldable pub fetch_sub_i64 : ℕ → ℕ → Core → Outcome Rmw
unfolding masked_amo
fetch_sub_i64 word val = masked_amo (amoadd 64 val) word

unfoldable pub fetch_sub_u64 : ℕ → ℕ → Core → Outcome Rmw
unfolding masked_amo
fetch_sub_u64 word val = masked_amo (amoadd 64 val) word

unfoldable pub fetch_and_i32 : ℕ → ℕ → Core → Outcome Rmw
unfolding masked_amo
fetch_and_i32 word val = masked_amo (amoand 32 val) word

unfoldable pub fetch_and_i64 : ℕ → ℕ → Core → Outcome Rmw
unfolding masked_amo
fetch_and_i64 word val = masked_amo (amoand 64 val) word

unfoldable pub fetch_and_u64 : ℕ → ℕ → Core → Outcome Rmw
unfolding masked_amo
fetch_and_u64 word val = masked_amo (amoand 64 val) word

unfoldable pub fetch_or_i32 : ℕ → ℕ → Core → Outcome Rmw
unfolding masked_amo
fetch_or_i32 word val = masked_amo (amoor 32 val) word

unfoldable pub fetch_or_i64 : ℕ → ℕ → Core → Outcome Rmw
unfolding masked_amo
fetch_or_i64 word val = masked_amo (amoor 64 val) word

unfoldable pub fetch_or_u64 : ℕ → ℕ → Core → Outcome Rmw
unfolding masked_amo
fetch_or_u64 word val = masked_amo (amoor 64 val) word

unfoldable pub fetch_xor_i32 : ℕ → ℕ → Core → Outcome Rmw
unfolding masked_amo
fetch_xor_i32 word val = masked_amo (amoxor 32 val) word

unfoldable pub fetch_xor_i64 : ℕ → ℕ → Core → Outcome Rmw
unfolding masked_amo
fetch_xor_i64 word val = masked_amo (amoxor 64 val) word

unfoldable pub fetch_xor_u64 : ℕ → ℕ → Core → Outcome Rmw
unfolding masked_amo
fetch_xor_u64 word val = masked_amo (amoxor 64 val) word
