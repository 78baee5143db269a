-- ===== src/Sched/Cycle.antt =====
-- A task's turn, from the scheduler to the task and back.
use gquuuuuunix.Base.{ℕ, suc, ◌≡◌, refl, true, false, some, List, ap, ◌∙◌, arith}
use gquuuuuunix.Outcome.{ok}
use gquuuuuunix.Riscv.{intr_get}
use gquuuuuunix.Riscv.Interrupts.{intr_get-intr_off, Fits}
use gquuuuuunix.Cpu.{Core, get_cpuid, push_off}
use gquuuuuunix.Cpu.Nesting.{IsNested}
use gquuuuuunix.Atomic.{Try}
use gquuuuuunix.SpinLock.{SpinLock, is_holding, is_holding_lk, acquire}
use gquuuuuunix.SpinLock.Sequential.{
  first_free, acquired, owned, acquire_lem, is_holding-owned, first_free-locked,
}
use gquuuuuunix.Task.{runnable, running, Task}
use gquuuuuunix.Sched.{Hart, Scan, switched, scan_out, yield_out}

pub intr_get-push_off : (c : Core) → Fits c.csrs → intr_get (push_off c).csrs ≡ false
unfolding push_off
intr_get-push_off c fits = intr_get-intr_off c.csrs fits

pub push_off-context : (c : Core) → (push_off c).cpu.context ≡ c.cpu.context
unfolding push_off
push_off-context c = refl

-- What the scheduler leaves when it switches to the task in slot `i`.
abbrev pub dispatched : ℕ → SpinLock → Task → Hart → Scan
dispatched i lk t h =
    let c = push_off h.core in
    switched (record t { state = running; lk = owned (get_cpuid h.core) lk })
      (record {
        core = record c { cpu = record c.cpu { task = some i; context = h.regs } };
        regs = t.context;
      })

module _ (world : List (SpinLock → SpinLock)) (t : Task) (h : Hart) (room : ℕ) {lk : SpinLock}
    (nested : IsNested (suc (suc room)) h.core) (set : t.lk.ops ≡ true)
    (mine : is_holding_lk t.lk h.core ≡ false) (found : first_free world t.lk ≡ some lk) where
  pub acquire-found : acquire world t.lk h.core ≡ ok (owned (get_cpuid h.core) lk, push_off h.core)
  unfolding acquired
  acquire-found = acquire_lem world t.lk room h.core nested set mine ∙ ap (acquired h.core) found

  -- On a hart with room for two more interrupt locks, for a task whose lock is initialised, not
  -- held by this hart, and comes free while it waits: a runnable task is dispatched. It is marked
  -- running with its lock held, the hart has its saved registers, and the scheduler's own
  -- registers are in the hart's context.
  pub scan_out-runnable :
      (tries : List Try) (i : ℕ)
      → t.state ≡ runnable
      → scan_out world tries i t h ≡ ok (dispatched i lk t h)
  unfolding scan_out
  scan_out-runnable tries i r = rw (acquire-found, r)

  -- On a hart with room for two more interrupt locks, for a task whose lock is initialised, not
  -- held by this hart, and comes free while it waits: `yield` passes every check of `sched` if the
  -- lock is still initialised when it is taken. The task is runnable again with its lock held and
  -- its registers saved, and the hart is back with the registers of its scheduler.
  pub yield_out_lem :
      lk.ops ≡ true
      → yield_out world t h
        ≡ ok (
          (push_off h.core).cpu.intr_ena_before,
          record t { context = h.regs; state = runnable; lk = owned (get_cpuid h.core) lk },
          record { core = push_off h.core; regs = h.core.cpu.context },
        )
  unfolding yield_out is_holding
  yield_out_lem set' = rw acquire-found (
      ground (
        arith,
        set',
        is_holding-owned lk h.core (first_free-locked world t.lk found),
        intr_get-push_off h.core nested.fits,
        push_off-context h.core,
      ))
