-- ===== src/Sched/System/Solo.antt =====
-- The steps of one hart that scans the table while the others stand still.
use gquuuuuunix.Base.{ℕ, suc, ◌<◌, ◌≡◌, ◌≢◌, refl, false, none, ==_refl, ap, ◌∙◌, arith}
use gquuuuuunix.Outcome.{ok}
use gquuuuuunix.Task.{runnable, task_max_nrs}
use gquuuuuunix.Sched.{switched, passed, is_runnable, scan_out, round_start}
use gquuuuuunix.Sched.System.{
  scanning, entering, World, now, at_once, moved, stayed, round, pass, dispatch, Step, mover,
}
use gquuuuuunix.Sched.System.Moved.{holds, runs}
use gquuuuuunix.Sched.System.Take as Take
use gquuuuuunix.Sched.System.Take.{is_runnable-true}
use gquuuuuunix.Sched.System.Safety.{IsBooted, Reach, later, Reach-Inv}

abbrev pub NoneLocked : World → Type 0
NoneLocked u = (k : ℕ) → (u.tasks k).lk.is_locked ≡ 0

-- A run from `u` of steps of hart `h` alone, none of which takes a task up.
pub data Alone (n h : ℕ) (u : World) : World → Type 0 where
  still : Alone n h u u
  goes :
      {v w : World}
      → Alone n h u v
      → (st : Step n v w) → mover st ≡ h
      → runs (w.pc h) ≡ none
      → Alone n h u w

pub Alone-Alone : {n h : ℕ} {u v w : World} → Alone n h u v → Alone n h v w → Alone n h u w
Alone-Alone r still = r
Alone-Alone r (goes r' st own out) = goes (Alone-Alone r r') st own out

-- By steps of its own from `u`, hart `h` switches to the task, and to no other before it.
pub record TakesUp (n h : ℕ) (u : World) (task : ℕ) : Type 0 where
  pub before : World
  pub after : World
  pub run : Alone n h u before
  pub step : Step n before after
  pub own : mover step ≡ h
  pub switched_to : after.pc h ≡ entering task
  pub others : (m : ℕ) → m ≢ h → after.pc m ≡ u.pc m

module _ {n : ℕ} {w0 : World} (b : IsBooted n w0) (h : ℕ) (lt : h < n) where
  -- From `u`, by steps of hart `h` alone that take up no task.
  pub record Solo (u v : World) : Type 0 where
    pub reached : Reach n w0 v
    pub run : Alone n h u v
    pub free : NoneLocked v
    pub states : (k : ℕ) → (v.tasks k).state ≡ (u.tasks k).state
    pub others : (m : ℕ) → m ≢ h → v.pc m ≡ u.pc m

  pub Solo-TakesUp : {task : ℕ} {u v : World} → Solo u v → TakesUp n h v task → TakesUp n h u task
  Solo-TakesUp s f = record {
    before = f.before;
    after = f.after;
    run = Alone-Alone s.run f.run;
    step = f.step;
    own = f.own;
    switched_to = f.switched_to;
    others = λ m out. f.others m out ∙ s.others m out;
  }

  module _ {u : World} (r : Reach n w0 u) (i : ℕ) (bound : i < task_max_nrs)
      (place : u.pc h ≡ scanning i) (free : NoneLocked u) where
    out : holds (u.pc h) ≡ none
    out = ap holds place

    -- A slot whose task is runnable.
    pub takes : (u.tasks i).state ≡ runnable → TakesUp n h u i
    takes ready =
        let inv = Reach-Inv b r in
        let run : scan_out now at_once i (u.tasks i) (u.harts h)
            ≡ ok (
                switched (Take.dispatched_task inv h i lt out)
                  (Take.dispatched_hart inv h i lt out)) =
          Take.scan_out-now inv h i lt out ∙ ground (arith, free i, ready) in
        record {
          after =
              moved u h i (Take.dispatched_task inv h i lt out)
                (Take.dispatched_hart inv h i lt out) (entering i);
          before = u;
          run = still;
          step = dispatch h i lt bound place run;
          own = refl;
          switched_to = rw (==_refl h) refl;
          others = λ m away. ground (arith, away);
        }

    -- A slot whose task is not.
    pub skips :
        is_runnable (u.tasks i).state ≡ false → (v : World) × Solo u v × (v.pc h ≡ scanning (suc i))
    skips unready =
        let inv = Reach-Inv b r in
        let t = Take.passed_task inv h i lt out in
        let x = Take.passed_hart inv h i lt out in
        let run : scan_out now at_once i (u.tasks i) (u.harts h) ≡ ok (passed t x) =
          Take.scan_out-now inv h i lt out ∙ ground (arith, free i, unready) in
        (
          moved u h i t x (scanning (suc i)),
          record {
            reached = later r (pass h i lt bound place run);
            run = goes still (pass h i lt bound place run) refl (rw (==_refl h) refl);
            free = λ k. ground (arith, free k);
            states = λ k. ground arith;
            others = λ m away. ground (arith, away);
          },
          rw (==_refl h) refl,
        )

  pub Solo-Solo : {u v w : World} → Solo u v → Solo v w → Solo u w
  Solo-Solo s t = record {
    reached = t.reached;
    run = Alone-Alone s.run t.run;
    free = t.free;
    states = λ k. t.states k ∙ s.states k;
    others = λ m away. t.others m away ∙ s.others m away;
  }

  -- The head of the outer loop.
  pub begins_round :
      {u : World}
      → Reach n w0 u
      → u.pc h ≡ scanning task_max_nrs
      → NoneLocked u
      → (v : World) × Solo u v × (v.pc h ≡ scanning 0)
  begins_round {u} r place free = (
    stayed u h (round_start (u.harts h)) (scanning 0),
    record {
      reached = later r (round h lt place);
      run = goes still (round h lt place) refl (rw (==_refl h) refl);
      free = free;
      states = λ k. refl;
      others = λ m away. ground (arith, away);
    },
    rw (==_refl h) refl,
  )
