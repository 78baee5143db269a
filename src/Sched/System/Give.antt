-- ===== src/Sched/System/Give.antt =====
-- The steps that give a lock back: a task's first run, its return into `yield`, and the scheduler's
-- return from a task.
use gquuuuuunix.Base.{
  ℕ, suc, ◌<◌, ◌≡◌, refl, inl, inr, Bool, none, some, ap, subst₂, sym, ◌∙◌, arith,
}
use gquuuuuunix.Outcome.{Outcome, ok}
use gquuuuuunix.Riscv.{intr_on}
use gquuuuuunix.Cpu.{Core}
use gquuuuuunix.SpinLock.{release}
use gquuuuuunix.Task.{Task}
use gquuuuuunix.Sched.{Hart, scan_in, sched_in, yield_in, first_run, set_task}
use gquuuuuunix.Sched.System.{Pc, scanning, entering, user, back, at_once}
use gquuuuuunix.Sched.System.Moved.{holds, runs, locks, current, HartOk, Inv, same, Moved}
use gquuuuuunix.Sched.System.Ops.{
  free_lock, released, IsLocked, release-mine, IsLocked-set_task, IsLocked-sched_in,
  HartOk-IsLocked, HartOk-intr_on, released-HartOk,
}

-- A returned value, read backwards.
pub ok_inv :
    {a t : Task} {b x : Hart}
    → ◌≡◌ {A = Outcome (Task × Hart)} (ok (a, b)) (ok (t, x))
    → (a ≡ t) × (b ≡ x)
ok_inv {a} {t} {b} {x} e = ground arith

module _ {n : ℕ} {tasks : ℕ → Task} {harts : ℕ → Hart} {pc : ℕ → Pc} (inv : Inv n tasks harts pc)
    (h i : ℕ) (lt : h < n) (inside : holds (pc h) ≡ some i) where
  abbrev pub x : Hart
  x = harts h

  abbrev pub t : Task
  t = tasks i

  v : HartOk h (pc h) x
  v = inv.hart h lt

  one_lock : locks (pc h) ≡ 1
  one_lock = go (pc h) inside
    where
      go : (p : Pc) → holds p ≡ some i → locks p ≡ 1
      go (scanning j) e = cc
      go (entering j) e = refl
      go (user j) e = cc
      go (back j) e = refl

  mine : IsLocked h x.core
  mine = HartOk-IsLocked v one_lock

  release-own : {c : Core} → IsLocked h c → release at_once t.lk c ≡ ok (free_lock, released c)
  release-own w =
      release-mine w t.lk (inv.ops i) (inv.word_of_holder h i inside) (inv.cpu_of_holder h i inside)

  abbrev pub unlocked : Task
  unlocked = record t { lk = free_lock }

  abbrev pub first_hart : Hart
  first_hart = let c = released x.core in record x { core = record c { csrs = intr_on c.csrs } }

  abbrev pub resumed_hart : Bool → Hart
  resumed_hart ena = record x { core = released (sched_in ena x).core }

  abbrev pub returned_hart : Hart
  returned_hart = record x { core = released (set_task none x.core) }

  -- None of the three can stop the kernel.
  pub first_run-ok : first_run at_once t x ≡ ok (unlocked, first_hart)
  unfolding first_run
  first_run-ok = rw (release-own mine)

  pub yield_in-ok : (ena : Bool) → yield_in at_once ena t x ≡ ok (unlocked, resumed_hart ena)
  unfolding yield_in
  yield_in-ok ena = rw (release-own (IsLocked-sched_in mine ena))

  pub scan_in-ok : scan_in at_once t x ≡ ok (unlocked, returned_hart)
  unfolding scan_in
  scan_in-ok = rw (release-own (IsLocked-set_task mine none))

  given :
      (p' : Pc) {x' : Hart}
      → holds p' ≡ none
      → runs p' ≡ runs (pc h)
      → HartOk h p' x'
      → Moved h i (pc h) t p' unlocked x'
  given p' out keeps ok' = record {
    hart = ok';
    ops = refl;
    before = inr inside;
    after = inl (out, refl);
    turn = same keeps refl;
  }

  pub first-Moved :
      {t' : Task} {x' : Hart}
      → pc h ≡ entering i
      → first_run at_once t x ≡ ok (t', x')
      → Moved h i (pc h) t (user i) t' x'
  first-Moved {t'} {x'} at e =
      let (et, ex) = ok_inv (sym first_run-ok ∙ e) in
      subst₂ (λ t' x'. Moved h i (pc h) t (user i) t' x') et ex
        (given (user i) refl (sym (ap runs at)) (
          HartOk-intr_on (record x { core = released x.core })
            (released-HartOk (user i) x.regs mine refl (v.cur ∙ ap current at)) refl))

  pub resume-Moved :
      (ena : Bool) {t' : Task} {x' : Hart}
      → pc h ≡ entering i
      → yield_in at_once ena t x ≡ ok (t', x')
      → Moved h i (pc h) t (user i) t' x'
  unfolding sched_in
  resume-Moved ena {t'} {x'} at e =
      let (et, ex) = ok_inv (sym (yield_in-ok ena) ∙ e) in
      subst₂ (λ t' x'. Moved h i (pc h) t (user i) t' x') et ex
        (given (user i) refl (sym (ap runs at)) (
          released-HartOk (user i) x.regs (IsLocked-sched_in mine ena) refl
            (v.cur ∙ ap current at)))

  pub finish-Moved :
      {t' : Task} {x' : Hart}
      → pc h ≡ back i
      → scan_in at_once t x ≡ ok (t', x')
      → Moved h i (pc h) t (scanning (suc i)) t' x'
  finish-Moved {t'} {x'} at e =
      let (et, ex) = ok_inv (sym scan_in-ok ∙ e) in
      subst₂ (λ t' x'. Moved h i (pc h) t (scanning (suc i)) t' x') et ex
        (given (scanning (suc i)) refl (sym (ap runs at))
          (released-HartOk (scanning (suc i)) x.regs (IsLocked-set_task mine none) refl refl))
