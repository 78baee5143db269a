-- ===== src/SpinLock/Sequential.antt =====
-- The spin lock as one hart sees it: every outcome of `acquire` and of `release`.
use gquuuuuunix.Base.{
  ℕ, suc, ◌≡◌, refl, true, false, Option, none, some, List, [], ◌∷◌, ◌++◌, ◌==◌, ==_refl,
  if◌then◌else◌, arith,
}
use gquuuuuunix.Outcome.{
  Outcome, ok, panic, hang, fault, ◌>>=◌, acquire_is_holding, release_not_holding,
}
use gquuuuuunix.Riscv.Interrupts.{intr_off-tp}
use gquuuuuunix.Cpu.{Core, get_cpuid, push_off, pop_off}
use gquuuuuunix.Cpu.Nesting.{
  IsNested, outer_ena, pop_off-push_off, push_off-IsNested, push_off-nonzero,
}
use gquuuuuunix.Atomic.{Try, kept, test_set_i32, amoswap, atomic_store_i32}
use gquuuuuunix.Atomic.Laws.{masked_amo_lem, masked_store_lem}
use gquuuuuunix.SpinLock.{SpinLock, is_holding_lk, spin, acquire, release}

-- The lock as a waiting hart first finds it free, with the 1 that each try leaves; `none` if the
-- other harts keep it locked throughout.
unfoldable pub first_free : List (SpinLock → SpinLock) → SpinLock → Option SpinLock
first_free [] lk = none
first_free (others ∷ world) lk =
    let rest = first_free world (record (others lk) { is_locked = 1 }) in
    if (others lk).is_locked == 0 then some (record (others lk) { is_locked = 1 }) else rest

-- Within an interrupt lock a further one changes nothing when it is undone.
outer_ena-nested : (c : Core) → (c.cpu.off_nrs == 0) ≡ false → outer_ena c ≡ c
outer_ena-nested c h = rw h

pub get_cpuid-push_off : (c : Core) → get_cpuid (push_off c) ≡ get_cpuid c
unfolding get_cpuid push_off
get_cpuid-push_off c = rw (intr_off-tp c.csrs)

-- The lock word and the hart after the wait.
pub waited : Core → Option SpinLock → Outcome (SpinLock × Core)
waited c none = hang
waited c (some lk) = ok (lk, c)

spin_lem :
    (world : List (SpinLock → SpinLock)) (lk : SpinLock) (room : ℕ) (c : Core)
    → IsNested (suc room) c
    → (c.cpu.off_nrs == 0) ≡ false
    → spin world lk c ≡ waited c (first_free world lk)
unfolding spin first_free waited test_set_i32
spin_lem [] lk room c v n = refl
spin_lem (others ∷ world) lk room c v n =
    rw (masked_amo_lem (amoswap 32 1) (others lk).is_locked room c v, outer_ena-nested c n)
      (ground (arith, spin_lem world (record (others lk) { is_locked = 1 }) room c v n))

-- The lock that `acquire` hands over.
abbrev pub owned : ℕ → SpinLock → SpinLock
owned id lk = record lk { cpu = some id }

unfoldable pub acquired : Core → Option SpinLock → Outcome (SpinLock × Core)
acquired c none = hang
acquired c (some lk) = ok (owned (get_cpuid c) lk, push_off c)

is_holding-push_off :
    (lk : SpinLock) (c : Core) → is_holding_lk lk (push_off c) ≡ is_holding_lk lk c
unfolding is_holding_lk
is_holding-push_off lk c = rw (get_cpuid-push_off c)

-- What `acquire` does, whatever other harts do to the lock meanwhile, for an initialised lock that
-- this hart does not hold and a hart with room for two more interrupt locks: it hangs if the lock
-- never comes free, and otherwise hands the lock over with interrupts masked once more.
pub acquire_lem :
    (world : List (SpinLock → SpinLock)) (lk : SpinLock) (room : ℕ) (c : Core)
    → IsNested (suc (suc room)) c
    → lk.ops ≡ true
    → is_holding_lk lk c ≡ false
    → acquire world lk c ≡ acquired c (first_free world lk)
unfolding acquire waited acquired
acquire_lem world lk room c v set free = ground (
  arith,
  set,
  free,
  is_holding-push_off lk c,
  get_cpuid-push_off c,
  spin_lem world lk room (push_off c) (push_off-IsNested (suc room) c v)
      (push_off-nonzero (suc room) c v),
)

-- A hart that already holds the lock does not wait for itself: the kernel stops.
pub acquire-held :
    (world : List (SpinLock → SpinLock)) (lk : SpinLock) (c : Core)
    → lk.ops ≡ true
    → is_holding_lk lk c ≡ true
    → acquire world lk c ≡ panic acquire_is_holding
unfolding acquire
acquire-held world lk c set held = ground (arith, set, held, is_holding-push_off lk c)

-- Before `init_spin_lock` the pointers are null.
pub acquire-unset :
    (world : List (SpinLock → SpinLock)) (lk : SpinLock) (c : Core)
    → lk.ops ≡ false
    → acquire world lk c ≡ fault
unfolding acquire
acquire-unset world lk c unset = ground (arith, unset)

-- `release` by the holder frees the lock and takes back one interrupt lock, once a reservation for
-- the store is kept.
pub release_lem :
    (before after : List Try) (lk : SpinLock) (room : ℕ) (c : Core)
    → IsNested (suc room) c
    → (c.cpu.off_nrs == 0) ≡ false
    → lk.ops ≡ true
    → is_holding_lk lk c ≡ true
    → release (before ++ kept ∷ after) lk c
      ≡ (pop_off c >>= λ c'. ok (record { is_locked = 0; cpu = none; ops = true }, c'))
unfolding release atomic_store_i32
release_lem before after lk room c v n set held =
    ground (arith, set, held, masked_store_lem before after 0 room c v, outer_ena-nested c n)

-- Anyone else who releases stops the kernel.
pub release-not_holding :
    (tries : List Try) (lk : SpinLock) (c : Core)
    → lk.ops ≡ true
    → is_holding_lk lk c ≡ false
    → release tries lk c ≡ panic release_not_holding
unfolding release
release-not_holding tries lk c set free = ground (arith, set, free)

pub first_free-locked :
    (world : List (SpinLock → SpinLock)) (lk : SpinLock) {lk' : SpinLock}
    → first_free world lk ≡ some lk'
    → lk'.is_locked ≡ 1
unfolding first_free
first_free-locked [] lk h = cc
first_free-locked (others ∷ world) lk {lk'} h =
    ground (arith, h, first_free-locked world (record (others lk) { is_locked = 1 }) {lk' = lk'})

pub is_holding-owned :
    (lk : SpinLock) (c : Core)
    → lk.is_locked ≡ 1
    → is_holding_lk (owned (get_cpuid c) lk) (push_off c) ≡ true
unfolding is_holding_lk
is_holding-owned lk c h = ground (arith, get_cpuid-push_off c, ==_refl (get_cpuid c))

-- For an initialised lock that this hart does not hold but finds free and initialised while it
-- waits, on a hart with room for two more interrupt locks: `acquire` takes it, and the `release`
-- that follows, once a reservation of its store is kept, leaves it free and the hart as it was,
-- but for `intr_ena_before` at the outermost level.
pub release-acquire :
    (world : List (SpinLock → SpinLock)) (before after : List Try) (lk lk' : SpinLock) (room : ℕ)
    (c : Core)
    → IsNested (suc (suc room)) c
    → lk.ops ≡ true
    → is_holding_lk lk c ≡ false
    → first_free world lk ≡ some lk'
    → lk'.ops ≡ true
    → (acquire world lk c >>= λ (got, c'). release (before ++ kept ∷ after) got c')
      ≡ ok (record { is_locked = 0; cpu = none; ops = true }, outer_ena c)
unfolding acquired
release-acquire world before after lk lk' room c v set free found set' = rw (
  acquire_lem world lk room c v set free,
  found,
  release_lem before after (owned (get_cpuid c) lk') room (push_off c)
      (push_off-IsNested (suc room) c v) (push_off-nonzero (suc room) c v) set'
      (is_holding-owned lk' c (first_free-locked world lk found)),
  pop_off-push_off (suc room) c v,
)
