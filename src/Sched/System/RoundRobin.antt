-- ===== src/Sched/System/RoundRobin.antt =====
-- A turn that ends goes to the next task round the table.
use gquuuuuunix.Base.{
  ℕ, suc, ◌<◌, ◌≡◌, ◌≢◌, ◌⊎◌, inl, inr, refl, none, some, ◌==◌, ==_refl, Bool-cases, update, subst,
  ap, sym, ◌∙◌, arith,
}
use gquuuuuunix.Task.{TaskState, runnable, running, task_max_nrs}
use gquuuuuunix.Sched.System.{
  Pc, scanning, entering, user, back, World, moved, Step, round, pass, dispatch, first, resume,
  work, interrupted, yield, finish,
}
use gquuuuuunix.Sched.System.Moved.{holds, runs, current, Turn, same, begins, ends}
use gquuuuuunix.Sched.System.Take.{yield-Moved}
use gquuuuuunix.Sched.System.Give.{finish-Moved}
use gquuuuuunix.Sched.System.Safety.{IsBooted, Reach, here, later, Reach-Inv, Proceeds, never_stops}
use gquuuuuunix.Sched.System.Solo.{NoneLocked, Alone, still, goes, Alone-Alone, TakesUp}
use gquuuuuunix.Sched.System.Progress.{IsEarlier, finds_work}

-- Only tasks of the table get turns.
Bounded : World → Type 0
Bounded u = (h i : ℕ) → current (u.pc h) ≡ some i → i < task_max_nrs

-- A hart's step to a place with a task of the table, or with none.
Bounded-step :
    (u : World) (h : ℕ) (p : Pc)
    → Bounded u
    → ((i : ℕ) → current p ≡ some i → i < task_max_nrs)
    → (k i : ℕ) → current (update u.pc h p k) ≡ some i
    → i < task_max_nrs
unfolding Bounded
Bounded-step u h p all at k i e = elim (Bool-cases (h == k)) [
  | inl me ↦ at i (ground (arith, me, e))
  | inr other ↦ all k i (ground (arith, other, e))
]

Step-Bounded : {n : ℕ} {u v : World} → Step n u v → Bounded u → Bounded v
unfolding Bounded
Step-Bounded {u = u} (round h lt place) all = Bounded-step u h (scanning 0) all (λ i e. cc)
Step-Bounded {u = u} (pass h i lt bound place run) all =
    Bounded-step u h (scanning (suc i)) all (λ k e. cc)
Step-Bounded {u = u} (dispatch h i lt bound place run) all =
    Bounded-step u h (entering i) all (λ k e. ground (arith, bound, e))
Step-Bounded {u = u} (first h i lt place new run) all =
    Bounded-step u h (user i) all (λ k e. all h k (ap current place ∙ e))
Step-Bounded {u = u} (resume h i lt place old run) all =
    Bounded-step u h (user i) all (λ k e. all h k (ap current place ∙ e))
Step-Bounded {u = u} (work h i regs csrs lt place tp fits) all =
    Bounded-step u h (user i) all (λ k e. all h k (ap current place ∙ e))
Step-Bounded {u = u} (interrupted h i csrs lt place tp fits) all =
    Bounded-step u h (scanning i) all (λ k e. cc)
Step-Bounded {u = u} (yield h i j lt place cur run) all =
    Bounded-step u h (back i) all (λ k e. all h k (ap current place ∙ e))
Step-Bounded {u = u} (finish h i lt place run) all =
    Bounded-step u h (scanning (suc i)) all (λ k e. cc)

Reach-Bounded : {n : ℕ} {w u : World} → IsBooted n w → Reach n w u → Bounded u
unfolding Bounded
Reach-Bounded b here = λ h i e. ground (arith, b.at_scheduler h, e)
Reach-Bounded b (later r st) = Step-Bounded st (Reach-Bounded b r)

Bounded_lem :
    {n : ℕ} {w u : World}
    → IsBooted n w
    → Reach n w u
    → (h i : ℕ) → current (u.pc h) ≡ some i
    → i < task_max_nrs
unfolding Bounded
Bounded_lem b r = Reach-Bounded b r

Turn-ended :
    {i : ℕ} {p p' : Pc} {s s' : TaskState}
    → Turn i p p' s s'
    → runs p ≡ some i
    → runs p' ≡ none
    → s' ≡ runnable
Turn-ended (same e _) from to = cc
Turn-ended (begins e _ _ _) from to = cc
Turn-ended (ends _ _ e) from to = e

Turn-kept :
    {i : ℕ} {p p' : Pc} {s s' : TaskState}
    → Turn i p p' s s'
    → runs p ≡ none
    → runs p' ≡ none
    → s' ≡ s
Turn-kept (same _ e) from to = e
Turn-kept (begins _ e _ _) from to = cc
Turn-kept (ends e _ _) from to = cc

module _ {n : ℕ} {w0 : World} (b : IsBooted n w0) (h : ℕ) (lt : h < n) where
  -- If no lock is held but by hart `h` before, none is taken now that `h` holds none.
  NoneLocked-later :
      {u v : World}
      → Reach n w0 u
      → Reach n w0 v
      → NoneLocked u
      → holds (v.pc h) ≡ none
      → ((m : ℕ) → m ≢ h → v.pc m ≡ u.pc m)
      → NoneLocked v
  NoneLocked-later {u} {v} r r' free out others k =
      elim (Bool-cases ((v.tasks k).lk.is_locked == 0)) [
        | inl e ↦ ground (arith, e)
        | inr ne ↦
            let (m, own) = (Reach-Inv b r').holder_of_word k (ground (arith, ne)) in
            elim (Bool-cases (m == h)) [
              | inl me ↦ ground (arith, me, own, out)
              | inr other ↦
                  ground (arith, other, own, others m, (Reach-Inv b r).word_of_holder m k, free k)
            ]
      ]

  -- After a turn of task `i` that began in `u`.
  record IsOver (i : ℕ) (u v : World) : Type 0 where
    reached : Reach n w0 v
    run : Alone n h u v
    scans : v.pc h ≡ scanning (suc i)
    free : NoneLocked v
    ready : (v.tasks i).state ≡ runnable
    states : (k : ℕ) → k ≢ i → (v.tasks k).state ≡ (u.tasks k).state
    others : (m : ℕ) → m ≢ h → v.pc m ≡ u.pc m

  turn-IsOver :
      (i : ℕ) (u : World)
      → Reach n w0 u
      → u.pc h ≡ user i
      → NoneLocked u
      → (v : World) × IsOver i u v
  turn-IsOver i u r place free =
      let goes_to : Proceeds u h (user i) = subst (Proceeds u h) place (never_stops b r h lt) in
      let ((e, t, x), run) = goes_to.1 (free i) in
      let u1 : World = record (moved u h i t x (back i)) { ena = update u.ena i e } in
      let r1 : Reach n w0 u1 = later r (yield h i i lt place goes_to.0 run) in
      let at : u1.pc h ≡ back i = rw (==_refl h) refl in
      let returns : Proceeds u1 h (back i) = subst (Proceeds u1 h) at (never_stops b r1 h lt) in
      let ((t', x'), run') = returns in
      let v : World = moved u1 h i t' x' (scanning (suc i)) in
      let r2 : Reach n w0 v = later r1 (finish h i lt at run') in
      let yields = yield-Moved (Reach-Inv b r) h i lt (ap holds place) place run in
      let ends_turn : t.state ≡ runnable = Turn-ended yields.turn (ap runs place) refl in
      let keeps : t'.state ≡ (u1.tasks i).state =
        Turn-kept (finish-Moved (Reach-Inv b r1) h i lt (ap holds at) at run').turn (ap runs at)
          refl in
      let away : (m : ℕ) → m ≢ h → v.pc m ≡ u.pc m = λ m ne. ground (arith, ne) in
      (
        v,
        record {
          reached = r2;
          run =
              goes (goes still (yield h i i lt place goes_to.0 run) refl (rw (==_refl h) refl))
                (finish h i lt at run') refl (rw (==_refl h) refl);
          scans = rw (==_refl h) refl;
          free = NoneLocked-later r r2 free (rw (==_refl h) refl) away;
          ready = rw (==_refl i) (keeps ∙ rw (==_refl i) ends_turn);
          states = λ k ne. ground (arith, ne);
          others = away;
        },
      )

  was_ready :
      (i k : ℕ) (u : World) {v : World}
      → IsOver i u v
      → (v.tasks k).state ≡ runnable
      → (k ≡ i) ⊎ ((u.tasks k).state ≡ runnable)
  was_ready i k u o ready = elim (Bool-cases (k == i)) [
    | inl e ↦ inl (ground (arith, e))
    | inr ne ↦ inr (sym (o.states k (ground (arith, ne))) ∙ ready)
  ]

  not_ready :
      (i k : ℕ) (u : World) {v : World}
      → IsOver i u v
      → (u.tasks i).state ≡ running
      → (v.tasks k).state ≢ runnable
      → (u.tasks k).state ≢ runnable
  not_ready i k u o occupied unready ready = elim (Bool-cases (k == i)) [
    | inl e ↦ ground (arith, e, occupied, ready)
    | inr ne ↦ unready (o.states k (ground (arith, ne)) ∙ ready)
  ]

  -- Round robin: in any state that booted harts reach in which hart `h` runs task `i` and no task's
  -- lock is taken, the hart has a run of its own steps from there that gives the turn up and switches to
  -- the next task round the table, and to no other before it: one that was runnable, with no runnable task between it and `i`, or `i`
  -- itself if no other was.
  pub round_robin :
      (i : ℕ) (u : World)
      → Reach n w0 u
      → u.pc h ≡ user i
      → NoneLocked u
      → (task : ℕ) × TakesUp n h u task
        × ((task ≡ i) ⊎ ((u.tasks task).state ≡ runnable))
        × ((k : ℕ) → IsEarlier (suc i) k task → (u.tasks k).state ≢ runnable)
  round_robin i u r place free =
      let bound : i < task_max_nrs = Bounded_lem b r h i (ap current place) in
      let (v, o) = turn-IsOver i u r place free in
      let (task, f, ready, earlier) =
        finds_work b h lt (suc i) i v o.reached (omega arith) o.scans o.free bound o.ready in
      let occupied = (Reach-Inv b r).state_of_runner h i (ap runs place) in
      (
        task,
        record {
          before = f.before;
          after = f.after;
          run = Alone-Alone o.run f.run;
          step = f.step;
          own = f.own;
          switched_to = f.switched_to;
          others = λ m ne. f.others m ne ∙ o.others m ne;
        },
        was_ready i task u o ready,
        λ k e. not_ready i k u o occupied (earlier k e),
      )
