-- ===== src/Sched/System/Contexts.antt =====
-- What each of the scheduler's functions does with saved contexts and registers.
use gquuuuuunix.Base.{ℕ, ◌<◌, ◌≡◌, refl, Bool, none, some, ◌==◌, ap, subst₂, sym, ◌∙◌}
use gquuuuuunix.Outcome.{ok}
use gquuuuuunix.Sched.Cycle.{push_off-context}
use gquuuuuunix.Task.{Task}
use gquuuuuunix.Sched.{
  Hart, switched, passed, is_runnable, scan_out, scan_in, yield_out, yield_in, first_run, sched_in,
}
use gquuuuuunix.Sched.System.{Pc, now, at_once}
use gquuuuuunix.Sched.System.Moved.{holds, Inv}
use gquuuuuunix.Sched.System.Take as Take
use gquuuuuunix.Sched.System.Give as Give
use gquuuuuunix.Sched.System.Give.{ok_inv}
use gquuuuuunix.Sched.System.Take.{passed_inv, switched_inv, yielded_inv}

-- The task's saved context, the hart's registers and the scheduler's saved context are left alone.
pub record Keeps (t : Task) (x : Hart) (t' : Task) (x' : Hart) : Type 0 where
  pub context : t'.context ≡ t.context
  pub regs : x'.regs ≡ x.regs
  pub scheduler : x'.core.cpu.context ≡ x.core.cpu.context

-- The task's context is loaded and the scheduler's registers are saved.
pub record Loads (t : Task) (x : Hart) (t' : Task) (x' : Hart) : Type 0 where
  pub context : t'.context ≡ t.context
  pub regs : x'.regs ≡ t.context
  pub scheduler : x'.core.cpu.context ≡ x.regs

-- The task's registers are saved and the scheduler's context is loaded.
pub record Saves (t : Task) (x : Hart) (t' : Task) (x' : Hart) : Type 0 where
  pub context : t'.context ≡ x.regs
  pub regs : x'.regs ≡ x.core.cpu.context

module _ {n : ℕ} {tasks : ℕ → Task} {harts : ℕ → Hart} {pc : ℕ → Pc} (inv : Inv n tasks harts pc)
    (h i : ℕ) (lt : h < n) {t' : Task} {x' : Hart} where
  pub pass-Keeps :
      holds (pc h) ≡ none
      → scan_out now at_once i (tasks i) (harts h) ≡ ok (passed t' x')
      → Keeps (tasks i) (harts h) t' x'
  pass-Keeps out e =
      let (free, fit, et, ex) =
        passed_inv ((tasks i).lk.is_locked == 0) (is_runnable (tasks i).state)
          (Take.dispatched_task inv h i lt out) (Take.passed_task inv h i lt out)
          (Take.dispatched_hart inv h i lt out) (Take.passed_hart inv h i lt out)
          (sym (Take.scan_out-now inv h i lt out) ∙ e) in
      subst₂ (Keeps (tasks i) (harts h)) et ex
        (record { context = refl; regs = refl; scheduler = push_off-context (harts h).core })

  pub dispatch-Loads :
      holds (pc h) ≡ none
      → scan_out now at_once i (tasks i) (harts h) ≡ ok (switched t' x')
      → Loads (tasks i) (harts h) t' x'
  dispatch-Loads out e =
      let (free, fit, et, ex) =
        switched_inv ((tasks i).lk.is_locked == 0) (is_runnable (tasks i).state)
          (Take.dispatched_task inv h i lt out) (Take.passed_task inv h i lt out)
          (Take.dispatched_hart inv h i lt out) (Take.passed_hart inv h i lt out)
          (sym (Take.scan_out-now inv h i lt out) ∙ e) in
      subst₂ (Loads (tasks i) (harts h)) et ex
        (record { context = refl; regs = refl; scheduler = refl })

  pub yield-Saves :
      {b : Bool}
      → holds (pc h) ≡ none
      → yield_out now (tasks i) (harts h) ≡ ok (b, t', x')
      → Saves (tasks i) (harts h) t' x'
  yield-Saves {b} out e =
      let (free, er) =
        yielded_inv ((tasks i).lk.is_locked == 0) _ (sym (Take.yield_out-now inv h i lt out) ∙ e) in
      subst₂ (Saves (tasks i) (harts h)) (ap (λ (r : Bool × Task × Hart). r.1) er)
        (ap (λ (r : Bool × Task × Hart). r.2) er) (record { context = refl; regs = refl })

  pub first-Keeps :
      holds (pc h) ≡ some i
      → first_run at_once (tasks i) (harts h) ≡ ok (t', x')
      → Keeps (tasks i) (harts h) t' x'
  first-Keeps inside e =
      let (et, ex) = ok_inv (sym (Give.first_run-ok inv h i lt inside) ∙ e) in
      subst₂ (Keeps (tasks i) (harts h)) et ex
        (record { context = refl; regs = refl; scheduler = refl })

  pub resume-Keeps :
      (ena : Bool)
      → holds (pc h) ≡ some i
      → yield_in at_once ena (tasks i) (harts h) ≡ ok (t', x')
      → Keeps (tasks i) (harts h) t' x'
  unfolding sched_in
  resume-Keeps ena inside e =
      let (et, ex) = ok_inv (sym (Give.yield_in-ok inv h i lt inside ena) ∙ e) in
      subst₂ (Keeps (tasks i) (harts h)) et ex
        (record { context = refl; regs = refl; scheduler = refl })

  pub finish-Keeps :
      holds (pc h) ≡ some i
      → scan_in at_once (tasks i) (harts h) ≡ ok (t', x')
      → Keeps (tasks i) (harts h) t' x'
  finish-Keeps inside e =
      let (et, ex) = ok_inv (sym (Give.scan_in-ok inv h i lt inside) ∙ e) in
      subst₂ (Keeps (tasks i) (harts h)) et ex
        (record { context = refl; regs = refl; scheduler = refl })
