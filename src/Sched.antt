-- ===== src/Sched.antt =====
-- 03.Scheduler/lib/sched.c and lib/switch.s: the scheduler loop, `sched` and `yield`.
--
-- A call of `switch_to` returns only when some hart switches back, so a function is cut there: what
-- it does up to the switch and what it does after it are two functions here (`…_out` and `…_in`).
-- The message that the scheduler prints is in Messages.
pub mod Cycle
pub mod System
use gquuuuuunix.Base.{ℕ, Bool, true, false, not, Option, none, some, List, [], ◌∷◌, if◌then◌else◌}
use gquuuuuunix.Outcome.{
  Outcome, ok, fault, ◌>>=◌, panic_if, lock_not_holding, task_running, interruptible,
}
use gquuuuuunix.Riscv.{intr_on, intr_get}
use gquuuuuunix.Cpu.{Context, Core, get_cur_task}
use gquuuuuunix.Atomic.{Try}
use gquuuuuunix.SpinLock.{SpinLock, acquire, release, is_holding}
use gquuuuuunix.Task.{TaskState, unused, used, sleeping, runnable, running, zombie, Task}

-- A hart with the registers that `switch_to` saves and loads.
pub record Hart : Type 0 where
  pub core : Core
  pub regs : Context

-- `switch_to(old, new)`: what it stores in `old`, and the registers it returns with.
unfoldable pub switch_to : Context → Context → Context × Context
switch_to regs new = (regs, new)

abbrev pub is_runnable : TaskState → Bool
is_runnable runnable = true
is_runnable _ = false

abbrev pub is_running : TaskState → Bool
is_running running = true
is_running _ = false

abbrev pub set_task : Option ℕ → Core → Core
set_task o c = record c { cpu = record c.cpu { task = o } }

-- What a round of the scheduler's inner loop does with a slot before it goes on: it switches to the
-- task, or it passes the slot by.
pub data Scan : Type 0 where
  switched : Task → Hart → Scan
  passed : Task → Hart → Scan

-- `switch_to(&cur_cpu->context, &t->context)` with what stands before it in the branch.
unfoldable pub dispatch : ℕ → Task → Hart → Scan
unfolding switch_to
dispatch i t h =
    let c = set_task (some i) h.core in
    let (saved, loaded) = switch_to h.regs t.context in
    switched (record t { state = running })
      (record { core = record c { cpu = record c.cpu { context = saved } }; regs = loaded })

-- The inner loop's body at slot `i`, up to the switch or to the end.
unfoldable pub scan_out : List (SpinLock → SpinLock) → List Try → ℕ → Task → Hart → Outcome Scan
unfolding dispatch
scan_out world tries i t h = do
  (lk, c) ← acquire world t.lk h.core
  let held = record t { lk = lk }
  let h1 = record h { core = c }
  let skip = (do
    (lk', c') ← release tries lk c
    ok (passed (record held { lk = lk' }) (record h { core = c' })))
  if is_runnable t.state then ok (dispatch i held h1) else skip

-- The rest of the body, once a task switches back: `cur_cpu->task = NULL` and the release.
unfoldable pub scan_in : List Try → Task → Hart → Outcome (Task × Hart)
scan_in tries t h = do
  (lk, c) ← release tries t.lk (set_task none h.core)
  ok (record t { lk = lk }, record h { core = c })

-- The head of the scheduler's outer loop, and its entry.
unfoldable pub round_start : Hart → Hart
round_start h = record h { core = record h.core { csrs = intr_on h.core.csrs } }

unfoldable pub scheduler_start : Hart → Hart
scheduler_start h = record h { core = set_task none h.core }

-- `sched` up to the switch: the local variable, the task with its context saved, and the hart.
unfoldable pub sched_out : Task → Hart → Outcome (Bool × Task × Hart)
unfolding switch_to
sched_out t h = do
  holding ← is_holding t.lk h.core
  panic_if (not holding) lock_not_holding (
      panic_if (is_running t.state) task_running (
        panic_if (intr_get h.core.csrs) interruptible (
          let (saved, loaded) = switch_to h.regs h.core.cpu.context in
          ok (
            h.core.cpu.intr_ena_before,
            record t { context = saved },
            record h { regs = loaded },
          ))))

-- `sched` after the switch, on the hart that switched back.
unfoldable pub sched_in : Bool → Hart → Hart
sched_in ena h = record h {
  core = record h.core { cpu = record h.core.cpu { intr_ena_before = ena } };
}

-- `yield` up to the switch; `t` is the task that `get_cur_task` finds.
unfoldable pub yield_out : List (SpinLock → SpinLock) → Task → Hart → Outcome (Bool × Task × Hart)
unfolding sched_out
yield_out world t h = do
  (lk, c) ← acquire world t.lk h.core
  sched_out (record t { lk = lk; state = runnable }) (record h { core = c })

-- `yield` after the switch.
unfoldable pub yield_in : List Try → Bool → Task → Hart → Outcome (Task × Hart)
unfolding sched_in
yield_in tries ena t h = do
  let h1 = sched_in ena h
  (lk, c) ← release tries t.lk h1.core
  ok (record t { lk = lk }, record h1 { core = c })

-- A new task starts in `dummy_task`, with the lock that the scheduler took, and gives it back.
unfoldable pub first_run : List Try → Task → Hart → Outcome (Task × Hart)
first_run tries t h = do
  (lk, c) ← release tries t.lk h.core
  ok (record t { lk = lk }, record h { core = record c { csrs = intr_on c.csrs } })
