-- ===== src/Sched/System/Ops.antt =====
-- What the scheduler's functions return in a hart that is as the invariant says.
use gquuuuuunix.Base.{
  ℕ, ◌≡◌, ◌≢◌, refl, inr, Bool, true, false, Option, none, some, [], ==_refl, if◌then◌else◌, sym,
  ◌∙◌, arith,
}
use gquuuuuunix.Outcome.{ok}
use gquuuuuunix.Riscv.{intr_on, intr_get}
use gquuuuuunix.Riscv.Interrupts.{Fits, intr_on-Fits, intr_on-tp, intr_off-Fits}
use gquuuuuunix.Cpu.{Context, Core, get_cpuid, push_off, pop_off}
use gquuuuuunix.Cpu.Nesting.{IsNested}
use gquuuuuunix.SpinLock.{SpinLock, is_holding_lk, release}
use gquuuuuunix.SpinLock.Sequential.{first_free, release_lem, get_cpuid-push_off}
use gquuuuuunix.Sched.{Hart, set_task}
use gquuuuuunix.Sched.Cycle.{intr_get-push_off}
use gquuuuuunix.Sched.System.{Pc, now, at_once}
use gquuuuuunix.Sched.System.Moved.{HartOk, locks, current}

abbrev pub free_lock : SpinLock
free_lock = record { is_locked = 0; cpu = none; ops = true }

-- The hart after its only interrupt lock is taken back.
abbrev pub released : Core → Core
released c = record {
  csrs = if c.cpu.intr_ena_before then intr_on c.csrs else c.csrs;
  cpu = record c.cpu { off_nrs = 0 };
}

pub now-free :
    (lk : SpinLock) → lk.is_locked ≡ 0 → first_free now lk ≡ some (record lk { is_locked = 1 })
unfolding first_free
now-free lk e = rw e

pub now-locked : (lk : SpinLock) → lk.is_locked ≢ 0 → first_free now lk ≡ none
unfolding first_free
now-locked lk e = ground arith

-- A released core: same hart, no interrupt lock.
pub released-id : (c : Core) → get_cpuid (released c) ≡ get_cpuid c
unfolding get_cpuid
released-id c = ground (arith, intr_on-tp c.csrs)

pub released-Fits : (c : Core) → Fits c.csrs → Fits (released c).csrs
released-Fits c f = ground (arith, intr_on-Fits c.csrs f)

-- A hart with one interrupt lock, and what is left of it when only `cpu`'s other fields change.
pub record IsLocked (h : ℕ) (c : Core) : Type 0 where
  pub id : get_cpuid c ≡ h
  pub fits : Fits c.csrs
  pub one : c.cpu.off_nrs ≡ 1
  pub masked : intr_get c.csrs ≡ false

module _ {h : ℕ} {c : Core} (v : IsLocked h c) where
  holding-mine : (lk : SpinLock) → lk.is_locked ≡ 1 → lk.cpu ≡ some h → is_holding_lk lk c ≡ true
  unfolding is_holding_lk
  holding-mine lk word cpu = ground (arith, word, cpu, v.id, ==_refl h)

  -- A hart that holds a task's lock can release it, and is then without interrupt locks.
  pub release-mine :
      (lk : SpinLock)
      → lk.ops ≡ true
      → lk.is_locked ≡ 1
      → lk.cpu ≡ some h
      → release at_once lk c ≡ ok (free_lock, released c)
  unfolding pop_off
  release-mine lk set word cpu =
      release_lem [] [] lk 0 c
        (record { fits = v.fits; bounded = ground (arith, v.one); masked = inr v.masked })
        (ground (arith, v.one)) set (holding-mine lk word cpu)
      ∙ ground (arith, v.one, v.masked)

  pub IsLocked-set_task : (o : Option ℕ) → IsLocked h (set_task o c)
  unfolding get_cpuid
  IsLocked-set_task o = record { id = v.id; fits = v.fits; one = v.one; masked = v.masked }

  pub IsLocked-dispatch :
      (o : Option ℕ) (k : Context)
      → IsLocked h (record c { cpu = record c.cpu { task = o; context = k } })
  unfolding get_cpuid
  IsLocked-dispatch o k = record { id = v.id; fits = v.fits; one = v.one; masked = v.masked }

  pub IsLocked-sched_in :
      (ena : Bool) → IsLocked h (record c { cpu = record c.cpu { intr_ena_before = ena } })
  unfolding get_cpuid
  IsLocked-sched_in ena = record { id = v.id; fits = v.fits; one = v.one; masked = v.masked }

push_off-one : (c : Core) → c.cpu.off_nrs ≡ 0 → (push_off c).cpu.off_nrs ≡ 1
unfolding push_off
push_off-one c e = ground (arith, e)

pub push_off-task : (c : Core) → (push_off c).cpu.task ≡ c.cpu.task
unfolding push_off
push_off-task c = refl

push_off-Fits : (c : Core) → Fits c.csrs → Fits (push_off c).csrs
unfolding push_off
push_off-Fits c f = intr_off-Fits c.csrs f

module _ {h : ℕ} {p : Pc} {x : Hart} (v : HartOk h p x) where
  pub HartOk-IsNested : IsNested 2 x.core
  HartOk-IsNested = record {
    fits = v.fits;
    bounded = ground (arith, v.nrs);
    masked = ground (arith, v.nrs, v.masked);
  }

  pub HartOk-IsLocked : locks p ≡ 1 → IsLocked h x.core
  HartOk-IsLocked e = record {
    id = v.id;
    fits = v.fits;
    one = omega (arith, v.nrs);
    masked = v.masked e;
  }

  pub push_off-IsLocked : locks p ≡ 0 → IsLocked h (push_off x.core)
  push_off-IsLocked e = record {
    id = get_cpuid-push_off x.core ∙ v.id;
    fits = push_off-Fits x.core v.fits;
    one = push_off-one x.core (v.nrs ∙ e);
    masked = intr_get-push_off x.core v.fits;
  }

-- A hart that is without locks after a release, at a program point that holds none.
pub released-HartOk :
    {h : ℕ} {c : Core} (p : Pc) (regs : Context)
    → IsLocked h c
    → locks p ≡ 0
    → c.cpu.task ≡ current p
    → HartOk h p (record { core = released c; regs = regs })
released-HartOk {c} p regs v e cur = record {
  id = released-id c ∙ v.id;
  fits = released-Fits c v.fits;
  nrs = sym e;
  masked = λ one. absurd (omega arith);
  cur = cur;
}

-- A hart that holds a lock, at a program point that does.
pub locked-HartOk :
    {h : ℕ} {c : Core} (p : Pc) (regs : Context)
    → IsLocked h c
    → locks p ≡ 1
    → c.cpu.task ≡ current p
    → HartOk h p (record { core = c; regs = regs })
locked-HartOk p regs v e cur = record {
  id = v.id;
  fits = v.fits;
  nrs = v.one ∙ sym e;
  masked = λ _. v.masked;
  cur = cur;
}

-- `intr_on` where no lock is held.
pub HartOk-intr_on :
    {h : ℕ} {p : Pc} (x : Hart)
    → HartOk h p x
    → locks p ≡ 0
    → HartOk h p (record x { core = record x.core { csrs = intr_on x.core.csrs } })
unfolding get_cpuid
HartOk-intr_on x v e = record {
  id = ground (arith, v.id, intr_on-tp x.core.csrs);
  fits = intr_on-Fits x.core.csrs v.fits;
  nrs = v.nrs;
  masked = λ one. absurd (omega arith);
  cur = v.cur;
}
