-- ===== src/Sched/System.antt =====
-- All harts and tasks together: the scheduler's loop, `yield` and `dummy_task` as a step relation.
--
-- A step is what one hart does between two places where others may interfere: from an `acquire`
-- to the switch or the release that follows it, or a release. An `acquire` is enabled while the lock
-- is free (SpinLock/Protocol.antt has its accesses one by one). The functions are those of
-- Sched.antt; a step is there where its function returns.
pub mod Moved
pub mod Ops
pub mod Harts
pub mod Take
pub mod Give
pub mod Contexts
pub mod Registers
pub mod Safety
pub mod Solo
pub mod Progress
pub mod RoundRobin
use gquuuuuunix.Base.{
  ℕ, zero, suc, ◌<◌, ◌≤◌, ◌≡◌, Bool, true, false, Option, none, some, List, [], ◌∷◌, ◌++◌, update,
}
use gquuuuuunix.Outcome.{ok}
use gquuuuuunix.Riscv.{Csrs}
use gquuuuuunix.Cpu.{Context, get_cur_task}
use gquuuuuunix.Atomic.{Try, kept}
use gquuuuuunix.SpinLock.{SpinLock}
use gquuuuuunix.Task.{Task, task_max_nrs}
use gquuuuuunix.Sched.{
  Hart, switched, passed, scan_out, scan_in, round_start, yield_out, yield_in, first_run,
}

-- Where a hart stands.
pub data Pc : Type 0 where
  scanning : ℕ → Pc  -- in the scheduler's inner loop, before slot `i`
  entering : ℕ → Pc  -- switched to task `i`, which has not yet released its lock
  user : ℕ → Pc  -- in the code of task `i`
  back : ℕ → Pc  -- switched back from task `i`, in the scheduler, before `cur_cpu->task = NULL`

-- `ena` is the local variable of the `sched` in which a task waits; `started` says that a task has
-- run before, so that a switch to it returns into `sched` and not to the head of `dummy_task`.
pub record World : Type 0 where
  pub tasks : ℕ → Task
  pub harts : ℕ → Hart
  pub pc : ℕ → Pc
  pub ena : ℕ → Bool
  pub started : ℕ → Bool

-- One try of the spin loop, with nothing done by others before it.
abbrev pub now : List (SpinLock → SpinLock)
now = (λ l. l) ∷ []

-- A store whose reservation is kept at once.
abbrev pub at_once : List Try
at_once = kept ∷ []

abbrev pub moved : World → ℕ → ℕ → Task → Hart → Pc → World
moved w h i t x p = record w {
  tasks = update w.tasks i t;
  harts = update w.harts h x;
  pc = update w.pc h p;
}

abbrev pub stayed : World → ℕ → Hart → Pc → World
stayed w h x p = record w { harts = update w.harts h x; pc = update w.pc h p }

-- `n` harts take steps.
pub data Step (n : ℕ) (w : World) : World → Type 0 where
  round :
      (h : ℕ)
      → h < n
      → w.pc h ≡ scanning task_max_nrs
      → Step n w (stayed w h (round_start (w.harts h)) (scanning 0))
  pass :
      (h i : ℕ) {t : Task} {x : Hart}
      → h < n
      → i < task_max_nrs
      → w.pc h ≡ scanning i
      → scan_out now at_once i (w.tasks i) (w.harts h) ≡ ok (passed t x)
      → Step n w (moved w h i t x (scanning (suc i)))
  dispatch :
      (h i : ℕ) {t : Task} {x : Hart}
      → h < n
      → i < task_max_nrs
      → w.pc h ≡ scanning i
      → scan_out now at_once i (w.tasks i) (w.harts h) ≡ ok (switched t x)
      → Step n w (moved w h i t x (entering i))
  first :
      (h i : ℕ) {t : Task} {x : Hart}
      → h < n
      → w.pc h ≡ entering i
      → w.started i ≡ false
      → first_run at_once (w.tasks i) (w.harts h) ≡ ok (t, x)
      → Step n w (record (moved w h i t x (user i)) { started = update w.started i true })
  resume :
      (h i : ℕ) {t : Task} {x : Hart}
      → h < n
      → w.pc h ≡ entering i
      → w.started i ≡ true
      → yield_in at_once (w.ena i) (w.tasks i) (w.harts h) ≡ ok (t, x)
      → Step n w (moved w h i t x (user i))
  -- The task's own code, and traps that do not yield: any registers but `tp`, any interrupt state.
  work :
      (h i : ℕ) (regs : Context) (csrs : Csrs)
      → h < n
      → w.pc h ≡ user i
      → csrs.tp ≡ (w.harts h).core.csrs.tp
      → csrs.sstatus < 18446744073709551616
      → Step n w (
          stayed w h
            (record { core = record (w.harts h).core { csrs = csrs }; regs = regs })
            (user i))
  -- A trap between two slots, where the scheduler holds no lock.
  interrupted :
      (h i : ℕ) (csrs : Csrs)
      → h < n
      → w.pc h ≡ scanning i
      → csrs.tp ≡ (w.harts h).core.csrs.tp
      → csrs.sstatus < 18446744073709551616
      → Step n w (
          stayed w h
            (record (w.harts h) { core = record (w.harts h).core { csrs = csrs } })
            (scanning i))
  yield :
      (h i j : ℕ) {e : Bool} {t : Task} {x : Hart}
      → h < n
      → w.pc h ≡ user i
      → get_cur_task (w.harts h).core ≡ some j
      → yield_out now (w.tasks j) (w.harts h) ≡ ok (e, t, x)
      → Step n w (record (moved w h j t x (back i)) { ena = update w.ena j e })
  finish :
      (h i : ℕ) {t : Task} {x : Hart}
      → h < n
      → w.pc h ≡ back i
      → scan_in at_once (w.tasks i) (w.harts h) ≡ ok (t, x)
      → Step n w (moved w h i t x (scanning (suc i)))

-- The hart that takes a step.
abbrev pub mover : {n : ℕ} {w w' : World} → Step n w w' → ℕ
mover (round h _ _) = h
mover (pass h _ _ _ _ _) = h
mover (dispatch h _ _ _ _ _) = h
mover (first h _ _ _ _ _) = h
mover (resume h _ _ _ _ _) = h
mover (work h _ _ _ _ _ _ _) = h
mover (interrupted h _ _ _ _ _ _) = h
mover (yield h _ _ _ _ _ _) = h
mover (finish h _ _ _ _) = h
