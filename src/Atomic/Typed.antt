-- ===== src/Atomic/Typed.antt =====
-- The macros `TEST_SET`, `ATOMIC_LOAD` and `ATOMIC_STORE` of 03.Scheduler/include/atomic.h, which
-- choose a function by the type of the word, and the types, from include/types.h.
--
-- The 64-bit stores lack the end of a line in their assembly, which does not assemble, so that
-- `ATOMIC_STORE` is there for `atomic_int_t` alone. `CMP_XCHG` gives its locals the type of the struct, and the `ATOMIC_FETCH` macros misspell their
-- parameter, so that neither can be expanded.
use gquuuuuunix.Base.{
  ℕ, suc, ◌^◌, ◌<◌, ◌≡◌, ◌≢◌, ◌↔◌, ◌⊎◌, ◌≤◌, ◌-◌, inl, inr, refl, List, ◌∷◌, ◌++◌, arith,
}
use gquuuuuunix.Outcome.{Outcome, ok}
use gquuuuuunix.Cpu.{Core}
use gquuuuuunix.Cpu.Nesting.{IsNested, outer_ena}
use gquuuuuunix.Atomic.{
  Rmw, Try, kept, amoswap, test_set_i32, test_set_i64, test_set_u64, atomic_load_i32,
  atomic_load_i64, atomic_load_u64, atomic_store_i32,
}
use gquuuuuunix.Atomic.Laws.{masked_amo_lem, masked_store_lem}

pub data AtomicType : Type 0 where
  atomic_int atomic_long atomic_ulong : AtomicType

abbrev pub width : AtomicType → ℕ
width atomic_int = 32
width atomic_long = 64
width atomic_ulong = 64

unfoldable pub test_set : AtomicType → ℕ → Core → Outcome Rmw
test_set atomic_int = test_set_i32
test_set atomic_long = test_set_i64
test_set atomic_ulong = test_set_u64

unfoldable pub atomic_load : AtomicType → ℕ → ℕ
atomic_load atomic_int = atomic_load_i32
atomic_load atomic_long = atomic_load_i64
atomic_load atomic_ulong = atomic_load_u64

set-word :
    (t : AtomicType) (word room : ℕ) (c : Core)
    → IsNested (suc room) c
    → test_set t word c ≡ ok (record { old = word; word = 1; core = outer_ena c })
unfolding test_set test_set_i32 test_set_i64 test_set_u64
set-word atomic_int word room c v = masked_amo_lem (amoswap 32 1) word room c v
set-word atomic_long word room c v = masked_amo_lem (amoswap 64 1) word room c v
set-word atomic_ulong word room c v = masked_amo_lem (amoswap 64 1) word room c v

load-word :
    (t : AtomicType) (word : ℕ)
    → word < 2 ^ width t
    → atomic_load t word ≡ word ↔ ((t ≢ atomic_ulong) ⊎ (word < 2 ^ 31) ⊎ (2 ^ 64 - 2 ^ 31 ≤ word))
unfolding atomic_load atomic_load_i32 atomic_load_i64 atomic_load_u64
load-word atomic_int word h = (λ _. inl (λ e. cc), λ _. refl)
load-word atomic_long word h = (λ _. inl (λ e. cc), λ _. refl)
load-word atomic_ulong word h = (
  λ e. inr (ground (arith, e, h)),
  λ s. elim s [ inl ne ↦ absurd (ne refl) | inr ends ↦ ground (arith, ends, h) ],
)

-- At every type, on a value of that type and a hart with room for one more interrupt lock: `TEST_SET`
-- on it returns it and leaves 1, with the hart's interrupts as before; the load returns the value,
-- except at `atomic_ulong_t`, where it goes through an `int`, for a value from 2^31 to below
-- 2^64 - 2^31; and at `atomic_int_t` the store leaves the value, once a reservation is kept.
pub typed_lem :
    (t : AtomicType) (before after : List Try) (val room : ℕ) (c : Core)
    → val < 2 ^ width t
    → IsNested (suc room) c
    → (test_set t val c ≡ ok (record { old = val; word = 1; core = outer_ena c }))
      × (atomic_load t val ≡ val ↔ ((t ≢ atomic_ulong) ⊎ (val < 2 ^ 31) ⊎ (2 ^ 64 - 2 ^ 31 ≤ val)))
      × (t ≡ atomic_int → atomic_store_i32 (before ++ kept ∷ after) val c ≡ ok (val, outer_ena c))
unfolding atomic_store_i32
typed_lem t before after val room c h v =
    (set-word t val room c v, load-word t val h, λ _. masked_store_lem before after val room c v)
