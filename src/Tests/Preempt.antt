-- ===== src/Tests/Preempt.antt =====
-- A task of hart 0 that the timer interrupts and that hart 0 takes up again.
use gquuuuuunix.Base.{
  Bool, Bool-cases, inl, inr, sym, ap, ◌∙◌, ◌==◌, ℕ, ◌<◌, ◌≡◌, ◌≢◌, refl, true, none, some, update,
  if◌then◌else◌, arith,
}
use gquuuuuunix.Outcome.{Outcome, ok}
use gquuuuuunix.Riscv.{r_sstatus, intr_get}
use gquuuuuunix.Cpu.{push_off, get_cpuid}
use gquuuuuunix.Task.{Task}
use gquuuuuunix.Sched.{Hart, yield_in, yield_out}
use gquuuuuunix.Sched.System.{
  World, user, entering, scanning, now, at_once, moved, stayed, resume, finish, dispatch,
}
use gquuuuuunix.Sched.System.Take as Take
use gquuuuuunix.Sched.System.Give as Give
use gquuuuuunix.Sched.System.Safety.{Reach, here, later, Reach-Inv, never_stops, one_hart_per_task}
use gquuuuuunix.Sched.System.Moved.{holds, Inv}
use gquuuuuunix.Trap.{Clock, tick, gave_up, trap_enter, trap_exit}
use gquuuuuunix.Trap.Steps.{IsTrap, timer_cause, trapped, given_up, interrupts, yields, user_return}
use gquuuuuunix.Asm.{sp, tp, Machine, exec}
use gquuuuuunix.Asm.Kernelvec.{kernelvec}
use gquuuuuunix.Asm.Trap.{take_trap, view}
use gquuuuuunix.Asm.Preempt.{called_in, frame_of, take_trap-IsTrap, Reach-Reach, preempted_goes_on}
use gquuuuuunix.Tests.Sched.{booted, booted-IsBooted, first_dispatched, dispatched_reached}

-- The task has run before; hart 0 is about to take it up.
abbrev taken_up : World
taken_up = first_dispatched true

turn :
    (o : Task × Hart) × (yield_in at_once (taken_up.ena 0) (taken_up.tasks 0) (taken_up.harts 0)
      ≡ ok o)
turn =
    (never_stops (booted-IsBooted true) (dispatched_reached true) 0 (omega arith)).1
      (taken_up.ena 0)

-- Hart 0 is in the task's code.
abbrev in_task : World
in_task = record (moved taken_up 0 0 turn.0.0 turn.0.1 (user 0)) { started = taken_up.started }

in_task_reached : Reach 2 (booted true) in_task
in_task_reached = later (dispatched_reached true) (resume 0 0 (omega arith) refl refl turn.1)

some-none : {k : ℕ} → some k ≢ none
some-none e = cc

in_task-holds : (h : ℕ) → holds (in_task.pc h) ≡ none
in_task-holds h = ground arith

unlocked : (in_task.tasks 0).lk.is_locked ≡ 0
unlocked = elim (Bool-cases ((in_task.tasks 0).lk.is_locked == 0)) [
  | inl e ↦ ground (arith, e)
  | inr ne ↦
      let held = (one_hart_per_task (booted-IsBooted true) in_task_reached 0).2.0 in
      let (h, own) = held (ground (arith, ne)) in absurd (some-none (sym own ∙ in_task-holds h))
]

-- The task at 500, with interrupts enabled.
abbrev interrupted : Machine
interrupted = record {
  regs = λ q. if q == sp then 8192 else if q == tp then (in_task.harts 0).core.csrs.tp else q;
  csrs = record (in_task.harts 0).core.csrs { sstatus = 2 };
  mem = λ a. 0;
  pc = 500;
}

abbrev at_handler : Machine
at_handler = called_in 77 interrupted

trap : IsTrap (in_task.harts 0).core.csrs (view at_handler)
trap = take_trap-IsTrap 77 interrupted (in_task.harts 0).core.csrs refl (omega arith)

-- The trap has come in.
abbrev in_trap : World
in_trap = stayed in_task 0 (trapped (view at_handler) (in_task.harts 0)) (user 0)

in_trap-Inv : Inv 2 in_trap.tasks in_trap.harts in_trap.pc
in_trap-Inv = Reach-Inv (booted-IsBooted true) (
    later in_task_reached (
      interrupts (booted-IsBooted true) in_task_reached 0 (omega arith) (view at_handler) 0 trap
        refl))

zero_runs : 0 < 2
zero_runs = omega arith

one_runs : 1 < 2
one_runs = omega arith

abbrev waiting_task : Task
waiting_task = Take.yielded_task in_trap-Inv 0 0 zero_runs refl

abbrev left_hart : Hart
left_hart = Take.yielded_hart in_trap-Inv 0 0 zero_runs refl

abbrev ena : Bool
ena = (push_off (trapped (view at_handler) (in_task.harts 0)).core).cpu.intr_ena_before

yielded :
    yield_out now (in_task.tasks 0) (trapped (view at_handler) (in_task.harts 0))
    ≡ ok (ena, waiting_task, left_hart)
yielded = Take.yield_out-now in_trap-Inv 0 0 zero_runs refl ∙ ground (arith, unlocked)

-- Hart 0 is back in the scheduler, gives the task's lock back, and hart 1 takes the task up.
abbrev gave : World
gave = given_up in_task 0 0 ena waiting_task left_hart

gave_reached : Reach 2 (booted true) gave
gave_reached = Reach-Reach in_task_reached (
    yields (booted-IsBooted true) in_task_reached 0 zero_runs (view at_handler) 0 trap refl yielded)

gave-Inv : Inv 2 gave.tasks gave.harts gave.pc
gave-Inv = Reach-Inv (booted-IsBooted true) gave_reached

abbrev finished : World
finished =
    moved gave 0 0 (Give.unlocked gave-Inv 0 0 zero_runs refl)
      (Give.returned_hart gave-Inv 0 0 zero_runs refl) (scanning 1)

goes_on : Reach 2 gave finished
goes_on = later here (finish 0 0 zero_runs refl (Give.scan_in-ok gave-Inv 0 0 zero_runs refl))

finished-Inv : Inv 2 finished.tasks finished.harts finished.pc
finished-Inv = Reach-Inv (booted-IsBooted true) (Reach-Reach gave_reached goes_on)

abbrev taken_again : World
taken_again =
    moved finished 1 0 (Take.dispatched_task finished-Inv 1 0 one_runs refl)
      (Take.dispatched_hart finished-Inv 1 0 one_runs refl) (entering 0)

taken_again_reached : Reach 2 gave taken_again
taken_again_reached =
    later goes_on
      (dispatch 1 0 one_runs (omega arith) refl (Take.scan_out-now finished-Inv 1 0 one_runs refl))

back_in_task :
    (t : Task) × (x : Hart) × (trap_exit at_once
        (frame_of 77 interrupted)
        (taken_again.ena 0)
        (taken_again.tasks 0)
        (taken_again.harts 1)
      ≡ ok (t, x))
back_in_task =
    let (t, x, run, _, _, _, _) =
      user_return (booted-IsBooted true) (Reach-Reach gave_reached taken_again_reached) 1 one_runs
        (frame_of 77 interrupted) 0 trap.fits refl refl in
    (t, x, run)

-- Code that leaves the control registers of `trap_exit`.
abbrev compiled : Machine → Machine
compiled m = let c = back_in_task.1.core.csrs in record m { regs = update m.regs tp c.tp; csrs = c }

abbrev clock : Clock
clock = record { gticks = 0; time = record { data_bits = 0; mantissa_bit = 32 } }

ok_injective : {A : Type 0} {x y : A} → ok x ≡ ok y → x ≡ y
ok_injective e = cc

same_csrs :
    (o p : Task × Hart)
    → ◌≡◌ {A = Outcome (Task × Hart)} (ok o) (ok p)
    → o.1.core.csrs ≡ p.1.core.csrs
same_csrs o p e = ap (λ z. z.1.core.csrs) (ok_injective e)

preempted_goes_on_example :
    (trap_enter now (some (in_task.tasks 0)) clock (trapped (view at_handler) (in_task.harts 0))
      ≡ ok (
        tick (view at_handler) clock,
        gave_up (frame_of 77 interrupted) ena waiting_task left_hart,
      ))
    × Reach 2 in_task gave
    × (t' : Task) × (x' : Hart) × (trap_exit at_once
          (frame_of 77 interrupted)
          (taken_again.ena 0)
          (taken_again.tasks 0)
          (taken_again.harts 1)
        ≡ ok (t', x'))
    × Reach 2 taken_again (moved taken_again 1 0 t' x' (user 0))
    × (get_cpuid x'.core ≡ 1)
    × (m' : Machine) × (exec
          (kernelvec 77 (λ m. ok (compiled m)))
          (take_trap timer_cause interrupted)
        ≡ ok m')
    × (m'.pc ≡ 500)
    × ((q : ℕ) → 0 < q → q < 32 → q ≢ tp → m'.regs q ≡ interrupted.regs q)
    × (m'.regs tp ≡ x'.core.csrs.tp)
    × (intr_get m'.csrs ≡ true)
unfolding intr_get r_sstatus
preempted_goes_on_example =
    preempted_goes_on (booted-IsBooted true) in_task_reached 0 1 0 zero_runs one_runs 77
      (λ m. ok (compiled m)) interrupted (compiled at_handler) clock ena waiting_task left_hart refl
      (omega arith) refl yielded taken_again_reached refl refl refl (omega arith) (omega arith) refl
      refl (λ j lt. refl)
      (λ t' x' e. same_csrs (back_in_task.0, back_in_task.1) (t', x') (sym back_in_task.2 ∙ e))
