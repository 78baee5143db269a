-- ===== src/SpinLock.antt =====
-- 03.Scheduler/include/spin_lock.h and lib/spin_lock.c: the spin lock.
--
-- The functions here run on one hart and are given what the others do to the lock meanwhile: one
-- entry of `world` before each try of the spin loop. Memory is sequentially consistent, so that the
-- fences of `smp_mb` are no step. SpinLock/Protocol.antt has all harts at once, access by access.
pub mod Sequential
pub mod Protocol
pub mod Ordering
use gquuuuuunix.Base.{
  ℕ, Bool, true, false, not, ◌&&◌, Option, none, some, List, [], ◌∷◌, ◌==◌, if◌then◌else◌,
}
use gquuuuuunix.Outcome.{
  Outcome, ok, hang, fault, ◌>>=◌, panic_if, acquire_is_holding, release_not_holding,
}
use gquuuuuunix.Cpu.{Core, get_cpuid, push_off, pop_off}
use gquuuuuunix.Atomic.{Rmw, Try, test_set_i32, atomic_store_i32}

-- `ops` says that the three function pointers are set: `init_spin_lock` sets them all, and a zeroed
-- lock has none.
pub record SpinLock : Type 0 where
  pub is_locked : ℕ
  pub cpu : Option ℕ
  pub ops : Bool

abbrev pub same_cpu : Option ℕ → ℕ → Bool
same_cpu none id = false
same_cpu (some owner) id = owner == id

unfoldable pub init_spin_lock : SpinLock → SpinLock
init_spin_lock lk = record { is_locked = 0; cpu = none; ops = true }

unfoldable pub is_holding_lk : SpinLock → Core → Bool
is_holding_lk lk c = not (lk.is_locked == 0) && same_cpu lk.cpu (get_cpuid c)

-- A call through one of the lock's function pointers.
abbrev pub call_op {ℓ} : {A : Type ℓ} → SpinLock → Outcome A → Outcome A
call_op lk body = if lk.ops then body else fault

-- `while (TEST_SET(&lk->isLocked) != 0);`
unfoldable pub spin : List (SpinLock → SpinLock) → SpinLock → Core → Outcome (SpinLock × Core)
spin [] lk c = hang
spin (others ∷ world) lk c = do
  r ← test_set_i32 (others lk).is_locked c
  let lk' = record (others lk) { is_locked = r.word }
  let again = spin world lk' r.core
  if r.old == 0 then ok (lk', r.core) else again

unfoldable pub acquire_lk : List (SpinLock → SpinLock) → SpinLock → Core → Outcome (SpinLock × Core)
unfolding spin
acquire_lk world lk c =
    let c1 = push_off c in
    call_op lk (
      panic_if (is_holding_lk lk c1) acquire_is_holding
        (do (lk', c2) ← spin world lk c1; ok (record lk' { cpu = some (get_cpuid c2) }, c2)))

unfoldable pub release_lk : List Try → SpinLock → Core → Outcome (SpinLock × Core)
release_lk tries lk c = call_op lk (
    panic_if (not (is_holding_lk lk c)) release_not_holding (do
      let lk1 = record lk { cpu = none }
      (word, c1) ← atomic_store_i32 tries 0 c
      c2 ← pop_off c1
      ok (record lk1 { is_locked = word }, c2)))

-- `lk.acquire(&lk)` and the other two, as the kernel calls them.
unfoldable pub acquire : List (SpinLock → SpinLock) → SpinLock → Core → Outcome (SpinLock × Core)
unfolding acquire_lk
acquire world lk c = call_op lk (acquire_lk world lk c)

unfoldable pub release : List Try → SpinLock → Core → Outcome (SpinLock × Core)
unfolding release_lk
release tries lk c = call_op lk (release_lk tries lk c)

unfoldable pub is_holding : SpinLock → Core → Outcome Bool
is_holding lk c = call_op lk (ok (is_holding_lk lk c))
