-- ===== src/Tests/Sched.antt =====
-- The scheduler's theorems on two harts and their tasks.
use gquuuuuunix.Base.{Bool, ℕ, ◌≡◌, ◌≢◌, refl, false, some, inl, ◌⊎◌, ◌<◌, ◌↔◌, sym, subst, arith}
use gquuuuuunix.Riscv.{intr_on, intr_get}
use gquuuuuunix.Cpu.{Core, get_cpuid, push_off}
use gquuuuuunix.Cpu.Nesting.{IsNested}
use gquuuuuunix.SpinLock.{is_holding_lk}
use gquuuuuunix.SpinLock.Sequential.{first_free, owned}
use gquuuuuunix.Task.{task_max_nrs, running}
use gquuuuuunix.Sched.{round_start}
use gquuuuuunix.Sched.Cycle.{scan_out-runnable}
use gquuuuuunix.Sched.System.{
  World, scanning, entering, now, at_once, Step, round, dispatch, back, moved, stayed,
}
use gquuuuuunix.Sched.System.Moved.{runs, holds}
use gquuuuuunix.Sched.System.Safety.{
  Proceeds, IsBooted, Reach, here, later, one_hart_per_task, never_stops, no_deadlock,
}
use gquuuuuunix.Tests.Data.{context_at, hart_of, open_lock, ready_task}

-- `ran` says whether the tasks have run before.
abbrev pub booted : Bool → World
booted ran = record {
  tasks = λ _. ready_task;
  harts = hart_of;
  pc = λ _. scanning task_max_nrs;
  ena = λ _. false;
  started = λ _. ran;
}

pub booted-IsBooted : (ran : Bool) → IsBooted 2 (booted ran)
unfolding get_cpuid
booted-IsBooted ran = record {
  at_scheduler = λ h. refl;
  id = λ h lt. omega (arith, lt);
  fits = λ h lt. omega arith;
  unmasked = λ h lt. refl;
  idle = λ h lt. refl;
  unlocked = λ i. refl;
  at_rest = λ i e. cc;
}

hart_of-IsNested : IsNested 2 (hart_of 0).core
hart_of-IsNested = record { fits = omega arith; bounded = omega arith; masked = inl refl }

open-first_free : first_free now open_lock ≡ some (record open_lock { is_locked = 1 })
unfolding first_free
open-first_free = refl

open-is_holding : (c : Core) → is_holding_lk open_lock c ≡ false
unfolding is_holding_lk
open-is_holding c = refl

round_start-hart : (h : ℕ) → round_start (hart_of h) ≡ hart_of h
unfolding round_start intr_on
round_start-hart h = refl

-- Both harts begin a round.
abbrev pub started_one : Bool → World
started_one ran = stayed (booted ran) 0 (round_start (hart_of 0)) (scanning 0)

abbrev pub started_two : Bool → World
started_two ran = stayed (started_one ran) 1 (round_start (hart_of 1)) (scanning 0)

two_rounds : (ran : Bool) → Reach 2 (booted ran) (started_two ran)
two_rounds ran = later (later here (round 0 (omega arith) refl)) (round 1 (omega arith) refl)

-- Hart 0 switches to task 0, and hart 1 is left to wait for its lock.
abbrev pub first_dispatched : Bool → World
first_dispatched ran =
    let c = push_off (round_start (hart_of 0)).core in
    moved (started_two ran) 0 0
      (record ready_task {
        state = running;
        lk = owned (get_cpuid (round_start (hart_of 0)).core) (record open_lock { is_locked = 1 });
      })
      (record {
        core = record c { cpu = record c.cpu { task = some 0; context = context_at 200 } };
        regs = context_at 300;
      })
      (entering 0)

round_start-IsNested : IsNested 2 (round_start (hart_of 0)).core
round_start-IsNested = subst (λ z. IsNested 2 z.core) (sym (round_start-hart 0)) hart_of-IsNested

switch : (ran : Bool) → Step 2 (started_two ran) (first_dispatched ran)
unfolding round_start
switch ran = dispatch 0 0 (omega arith) (omega arith) refl (
    scan_out-runnable now ready_task (round_start (hart_of 0)) 0 round_start-IsNested refl
      (open-is_holding (round_start (hart_of 0)).core) open-first_free at_once 0 refl)

pub dispatched_reached : (ran : Bool) → Reach 2 (booted ran) (first_dispatched ran)
dispatched_reached ran = later (two_rounds ran) (switch ran)

one_hart_per_task_example :
    ((h k : ℕ)
      → runs ((first_dispatched false).pc h) ≡ some 0
      → runs ((first_dispatched false).pc k) ≡ some 0
      → h ≡ k)
    × (((first_dispatched false).tasks 0).state ≡ running
        ↔ ((h : ℕ) × (runs ((first_dispatched false).pc h) ≡ some 0)))
    × (((first_dispatched false).tasks 0).lk.is_locked ≢ 0
        ↔ ((h : ℕ) × (holds ((first_dispatched false).pc h) ≡ some 0)))
    × ((h : ℕ)
        → holds ((first_dispatched false).pc h) ≡ some 0
        → (((first_dispatched false).tasks 0).lk.cpu ≡ some h)
          × (h < 2 → intr_get ((first_dispatched false).harts h).core.csrs ≡ false))
one_hart_per_task_example = one_hart_per_task (booted-IsBooted false) (dispatched_reached false) 0

never_stops_example : Proceeds (first_dispatched false) 0 ((first_dispatched false).pc 0)
never_stops_example = never_stops (booted-IsBooted false) (dispatched_reached false) 0 (omega arith)

no_deadlock_example :
    (k : ℕ) × (k < 2)
    × (k ≢ 1)
    × (((first_dispatched false).pc k ≡ entering 0) ⊎ ((first_dispatched false).pc k ≡ back 0))
    × Proceeds (first_dispatched false) k ((first_dispatched false).pc k)
no_deadlock_example =
    no_deadlock (booted-IsBooted false) (dispatched_reached false) 1 0 (inl refl) (omega arith)
