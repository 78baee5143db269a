-- ===== src/SpinLock/Protocol.antt =====
-- The spin lock under any number of harts, one shared access at a time: `acquire_lk` and
-- `release_lk` of 03.Scheduler/lib/spin_lock.c as a step relation.
--
-- A shared access is a read of `isLocked`, a read of `cpu`, the exchange of `TEST_SET`, a write of
-- `cpu`, or the store that frees the lock. `push_off` and `pop_off` touch only the hart's own state
-- and are no step here. A hart number stands for the pointer that `get_cur_cpu` returns.
pub mod Safety
pub mod Abstract
pub mod Code
use gquuuuuunix.Base.{ℕ, ◌≡◌, ◌≢◌, Bool, true, false, Option, none, some, update}

-- The lock's two words.
pub record Shared : Type 0 where
  pub is_locked : ℕ
  pub cpu : Option ℕ

-- Where a hart stands.
pub data Pc : Type 0 where
  outside : Pc  -- in neither function, without the lock
  check_word : Pc  -- `acquire_lk`: `is_holding` reads `isLocked`
  check_cpu : Pc  -- `acquire_lk`: `isLocked` was set, `is_holding` reads `cpu`
  trying : Pc  -- `acquire_lk`: before `TEST_SET`
  taken : Pc  -- `acquire_lk`: `TEST_SET` returned 0, `cpu` not yet written
  critical : Pc  -- between the two functions, with the lock
  leave_word : Pc  -- `release_lk`: `is_holding` reads `isLocked`
  leave_cpu : Pc  -- `release_lk`: `isLocked` was set, `is_holding` reads `cpu`
  leaving : Pc  -- `release_lk`: before `lk->cpu = NULL`
  freeing : Pc  -- `release_lk`: before the store of 0
  stopped : Pc  -- in `PANIC`

-- One access by hart `h`.
pub data Move (h : ℕ) (m : Shared) : Pc → Shared → Pc → Type 0 where
  enter : Move h m outside m check_word
  word_free : m.is_locked ≡ 0 → Move h m check_word m trying
  word_set : m.is_locked ≢ 0 → Move h m check_word m check_cpu
  cpu_other : m.cpu ≢ some h → Move h m check_cpu m trying
  cpu_self : m.cpu ≡ some h → Move h m check_cpu m stopped
  test_set_fails : m.is_locked ≢ 0 → Move h m trying (record m { is_locked = 1 }) trying
  test_set_wins : m.is_locked ≡ 0 → Move h m trying (record m { is_locked = 1 }) taken
  write_cpu : Move h m taken (record m { cpu = some h }) critical
  exit : Move h m critical m leave_word
  leave_free : m.is_locked ≡ 0 → Move h m leave_word m stopped
  leave_set : m.is_locked ≢ 0 → Move h m leave_word m leave_cpu
  leave_other : m.cpu ≢ some h → Move h m leave_cpu m stopped
  leave_self : m.cpu ≡ some h → Move h m leave_cpu m leaving
  clear_cpu : Move h m leaving (record m { cpu = none }) freeing
  free_word : Move h m freeing (record m { is_locked = 0 }) outside

pub record System : Type 0 where
  pub mem : Shared
  pub pc : ℕ → Pc

-- Any hart may move next.
pub data Step (s : System) : System → Type 0 where
  pick :
      (h : ℕ) {m : Shared} {p : Pc}
      → Move h s.mem (s.pc h) m p
      → Step s (record { mem = m; pc = update s.pc h p })

-- After `init_spin_lock`, with no hart near the lock.
abbrev pub init : System
init = record { mem = record { is_locked = 0; cpu = none }; pc = λ _. outside }

pub data Reach : System → Type 0 where
  start : Reach init
  later : {s t : System} → Reach s → Step s t → Reach t

-- From the winning `TEST_SET` to the store that frees the lock.
abbrev pub owns : Pc → Bool
owns outside = false
owns check_word = false
owns check_cpu = false
owns trying = false
owns stopped = false
owns _ = true
