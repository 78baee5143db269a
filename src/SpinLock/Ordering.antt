-- ===== src/SpinLock/Ordering.antt =====
-- The spin lock of 03.Scheduler/lib/spin_lock.c where memory is not sequentially consistent: a hart's
-- plain store of `lk->cpu` may be performed later than what follows it in the program, as the RISC-V
-- manual has it for RVWMO.
--
-- The exchange of `TEST_SET` is `amoswap.w.aqrl`, and waits for the hart's earlier stores. The store of 0
-- in `release_lk` is the `sc.w` of `__atomic_store_i32`, which has no ordering of its own; `fenced` says
-- whether the fence of `smp_mb` stands before it, as in the source. A hart reads its own late stores, and its
-- loads are performed in order.
pub mod Late
pub mod Needed
use gquuuuuunix.Base.{ℕ, ◌≡◌, ◌≢◌, Bool, true, Option, none, some, update}
use gquuuuuunix.SpinLock.Protocol.{
  Shared, Pc, outside, check_word, check_cpu, trying, taken, critical, leave_word, leave_cpu,
  leaving, freeing, stopped,
}

-- A hart's stores of `lk->cpu` that are yet to be performed: that of its own pointer, that of NULL, or
-- the one before the other. There are no more, since `TEST_SET` waits for them.
pub data Pending : Type 0 where
  nothing : Pending
  own : Pending
  null : Pending
  own_null : Pending

-- What hart `h` reads from `lk->cpu`, which is `cpu` in memory.
abbrev pub seen : ℕ → Pending → Option ℕ → Option ℕ
seen h nothing cpu = cpu
seen h own cpu = some h
seen h null cpu = none
seen h own_null cpu = none

-- One access by hart `h`, or one of its late stores.
pub data Move (fenced : Bool) (h : ℕ) (m : Shared)
    : Pending → Pc → Shared → Pending → Pc → Type 0 where
  enter : {l : Pending} → Move fenced h m l outside m l check_word
  word_free : {l : Pending} → m.is_locked ≡ 0 → Move fenced h m l check_word m l trying
  word_set : {l : Pending} → m.is_locked ≢ 0 → Move fenced h m l check_word m l check_cpu
  cpu_other : {l : Pending} → seen h l m.cpu ≢ some h → Move fenced h m l check_cpu m l trying
  cpu_self : {l : Pending} → seen h l m.cpu ≡ some h → Move fenced h m l check_cpu m l stopped
  test_set_fails :
      m.is_locked ≢ 0 → Move fenced h m nothing trying (record m { is_locked = 1 }) nothing trying
  test_set_wins :
      m.is_locked ≡ 0 → Move fenced h m nothing trying (record m { is_locked = 1 }) nothing taken
  store_cpu : Move fenced h m nothing taken m own critical
  exit : {l : Pending} → Move fenced h m l critical m l leave_word
  leave_free : {l : Pending} → m.is_locked ≡ 0 → Move fenced h m l leave_word m l stopped
  leave_set : {l : Pending} → m.is_locked ≢ 0 → Move fenced h m l leave_word m l leave_cpu
  leave_other : {l : Pending} → seen h l m.cpu ≢ some h → Move fenced h m l leave_cpu m l stopped
  leave_self : {l : Pending} → seen h l m.cpu ≡ some h → Move fenced h m l leave_cpu m l leaving
  store_null : Move fenced h m nothing leaving m null freeing
  store_null_late : Move fenced h m own leaving m own_null freeing
  free_word :
      {l : Pending}
      → (fenced ≡ true → l ≡ nothing)
      → Move fenced h m l freeing (record m { is_locked = 0 }) l outside
  perform_own : {p : Pc} → Move fenced h m own p (record m { cpu = some h }) nothing p
  perform_null : {p : Pc} → Move fenced h m null p (record m { cpu = none }) nothing p
  perform_first : {p : Pc} → Move fenced h m own_null p (record m { cpu = some h }) null p

pub record System : Type 0 where
  pub mem : Shared
  pub late : ℕ → Pending
  pub pc : ℕ → Pc

pub data Step (fenced : Bool) (s : System) : System → Type 0 where
  pick :
      (h : ℕ) {m : Shared} {l l' : Pending} {p p' : Pc}
      → s.late h ≡ l
      → s.pc h ≡ p
      → Move fenced h s.mem l p m l' p'
      → Step fenced s (record { mem = m; late = update s.late h l'; pc = update s.pc h p' })

-- After `init_spin_lock`, with no hart near the lock.
abbrev pub init : System
init = record { mem = record { is_locked = 0; cpu = none }; late = λ _. nothing; pc = λ _. outside }

pub data Reach (fenced : Bool) : System → Type 0 where
  start : Reach fenced init
  later : {s t : System} → Reach fenced s → Step fenced s t → Reach fenced t
