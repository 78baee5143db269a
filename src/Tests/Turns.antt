-- ===== src/Tests/Turns.antt =====
-- Turns of tasks, and the traps that end them, on one hart of two.
use gquuuuuunix.Base.{
  Bool, bit_and, Bool-cases, ◌⊎◌, inl, inr, sym, ◌∙◌, ◌==◌, ℕ, ◌≡◌, ◌≢◌, refl, true, false, none,
  some, update, arith,
}
use gquuuuuunix.Outcome.{ok, hang}
use gquuuuuunix.Riscv.{Csrs, intr_get}
use gquuuuuunix.Cpu.{get_cur_task}
use gquuuuuunix.Task.{Task, runnable}
use gquuuuuunix.Sched.{Hart, first_run, yield_in}
use gquuuuuunix.Sched.System.{World, entering, user, back, now, at_once, round, first, moved}
use gquuuuuunix.Sched.System.Safety.{Reach, here, later, never_stops, one_hart_per_task}
use gquuuuuunix.Sched.System.Moved.{holds}
use gquuuuuunix.Sched.System.Registers as Registers
use gquuuuuunix.Sched.System.Registers.{left, resumes_where_it_left}
use gquuuuuunix.Sched.System.RoundRobin.{round_robin}
use gquuuuuunix.Sched.System.Solo.{NoneLocked, TakesUp}
use gquuuuuunix.Sched.System.Progress.{IsEarlier, finds_work}
use gquuuuuunix.Trap.{Clock, tick, Frame, gave_up, trap_enter, trap_exit}
use gquuuuuunix.Trap.Steps.{IsTrap, trapped, given_up, user_trap, user_return}
use gquuuuuunix.Tests.Sched.{
  booted, booted-IsBooted, started_one, first_dispatched, dispatched_reached,
}

-- Hart 0 has begun a round.
one_round : Reach 2 (booted false) (started_one false)
one_round = later here (round 0 (omega arith) refl)

finds_work_example :
    (task : ℕ) × TakesUp 2 0 (started_one false) task
    × (((started_one false).tasks task).state ≡ runnable)
    × ((k : ℕ) → IsEarlier 0 k task → ((started_one false).tasks k).state ≢ runnable)
finds_work_example =
    finds_work (booted-IsBooted false) 0 (omega arith) 0 5 (started_one false) one_round
      (omega arith) refl (λ k. refl) (omega arith) refl

resumes_where_it_left_example :
    ((first_dispatched false).pc 0 ≡ entering 0
      → (((first_dispatched false).harts 0).regs ≡ Registers.given_up (dispatched_reached false) 0)
        × ((t : Task) (x : Hart)
            → yield_in at_once
                ((first_dispatched false).ena 0)
                ((first_dispatched false).tasks 0)
                ((first_dispatched false).harts 0)
              ≡ ok (t, x)
            → x.regs ≡ Registers.given_up (dispatched_reached false) 0)
        × ((t : Task) (x : Hart)
            → first_run at_once
                ((first_dispatched false).tasks 0)
                ((first_dispatched false).harts 0)
              ≡ ok (t, x)
            → x.regs ≡ Registers.given_up (dispatched_reached false) 0))
    × ((first_dispatched false).pc 0 ≡ back 0
        → ((first_dispatched false).harts 0).regs ≡ left (dispatched_reached false) 0)
resumes_where_it_left_example =
    resumes_where_it_left (booted-IsBooted false) (dispatched_reached false) 0 0 (omega arith)

-- The registers of hart `x` when a trap has come in.
abbrev with_cause : ℕ → Hart → Csrs
with_cause cause x = record x.core.csrs { sstatus = 256; scause = cause }

with_cause-IsTrap : (cause : ℕ) (x : Hart) → IsTrap x.core.csrs (with_cause cause x)
unfolding intr_get
with_cause-IsTrap cause x = record {
  same = refl;
  fits = omega arith;
  from_supervisor = omega arith;
  masked = refl;
}

abbrev clock : Clock
clock = record { gticks = 0; time = record { data_bits = 0; mantissa_bit = 32 } }

-- Hart 0 runs task 0 for the first time.
first_turn :
    (r : Task × Hart) × (first_run at_once
        ((first_dispatched false).tasks 0)
        ((first_dispatched false).harts 0)
      ≡ ok r)
first_turn = (never_stops (booted-IsBooted false) (dispatched_reached false) 0 (omega arith)).0

abbrev in_task : World
in_task = record (moved (first_dispatched false) 0 0 first_turn.0.0 first_turn.0.1 (user 0)) {
  started = update (λ _. false) 0 true;
}

in_task_reached : Reach 2 (booted false) in_task
in_task_reached = later (dispatched_reached false) (first 0 0 (omega arith) refl refl first_turn.1)

some-none : {k : ℕ} → some k ≢ none
some-none e = cc

in_task-holds : (h : ℕ) → holds (in_task.pc h) ≡ none
in_task-holds h = ground arith

in_task-NoneLocked : NoneLocked in_task
in_task-NoneLocked k = elim (Bool-cases ((in_task.tasks k).lk.is_locked == 0)) [
  | inl e ↦ ground (arith, e)
  | inr ne ↦
      let held = (one_hart_per_task (booted-IsBooted false) in_task_reached k).2.0 in
      let (h, own) = held (ground (arith, ne)) in absurd (some-none (sym own ∙ in_task-holds h))
]

round_robin_example :
    (task : ℕ) × TakesUp 2 0 in_task task
    × ((task ≡ 0) ⊎ ((in_task.tasks task).state ≡ runnable))
    × ((k : ℕ) → IsEarlier 1 k task → (in_task.tasks k).state ≢ runnable)
round_robin_example =
    round_robin (booted-IsBooted false) 0 (omega arith) 0 in_task in_task_reached refl
      in_task-NoneLocked

abbrev task_csrs : Csrs
task_csrs = with_cause 9223372036854775809 (in_task.harts 0)

user_trap_example :
    (get_cur_task (in_task.harts 0).core ≡ some 0)
    × ((in_task.tasks 0).lk.is_locked ≡ 0
        → (e : Bool) × (t' : Task) × (x' : Hart) × (trap_enter now
              (some (in_task.tasks 0))
              clock
              (trapped task_csrs (in_task.harts 0))
            ≡ ok (
              tick task_csrs clock,
              gave_up (record { sepc = task_csrs.sepc; sstatus = 256 }) e t' x',
            ))
          × Reach 2 in_task (given_up in_task 0 0 e t' x'))
    × ((in_task.tasks 0).lk.is_locked ≢ 0
        → trap_enter now (some (in_task.tasks 0)) clock (trapped task_csrs (in_task.harts 0))
          ≡ hang)
user_trap_example =
    user_trap (booted-IsBooted false) in_task_reached 0 (omega arith) task_csrs 0 clock
      (with_cause-IsTrap 9223372036854775809 (in_task.harts 0)) refl refl

abbrev frame : Frame
frame = record { sepc = 2147483648; sstatus = 256 }

-- The tasks have run before, and wait in `sched`.
user_return_example :
    (t : Task) × (x : Hart) × (trap_exit at_once frame false
        ((first_dispatched true).tasks 0)
        ((first_dispatched true).harts 0)
      ≡ ok (t, x))
    × (x.core.csrs.sepc ≡ 2147483648)
    × (x.core.csrs.sstatus ≡ 256)
    × (bit_and x.core.csrs.sip 2 ≡ 0)
    × Reach 2 (first_dispatched true) (moved (first_dispatched true) 0 0 t x (user 0))
user_return_example =
    user_return (booted-IsBooted true) (dispatched_reached true) 0 (omega arith) frame 0
      (omega arith) refl refl
