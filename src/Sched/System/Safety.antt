-- ===== src/Sched/System/Safety.antt =====
-- What holds in every reachable state of the scheduler.
use native.Mathlib.Decide.{dec_lt}
use gquuuuuunix.Base.{
  ℕ, ◌<◌, ◌≤◌, ◌≡◌, ◌≢◌, ◌↔◌, refl, ◌⊎◌, inl, inr, Bool, false, none, some, ap, ◌∙◌, sym, arith,
}
use gquuuuuunix.Outcome.{ok, hang}
use gquuuuuunix.Riscv.{intr_get}
use gquuuuuunix.Riscv.Interrupts.{Fits}
use gquuuuuunix.Cpu.{get_cpuid, get_cur_task}
use gquuuuuunix.Task.{Task, running, task_max_nrs}
use gquuuuuunix.Sched.{Hart, Scan, scan_out, scan_in, yield_out, yield_in, first_run}
use gquuuuuunix.Sched.System.{
  Pc, scanning, entering, user, back, World, now, at_once, Step, round, pass, dispatch, first,
  resume, work, interrupted, yield, finish,
}
use gquuuuuunix.Sched.System.Moved.{holds, runs, locks, Inv, Moved-Inv, Stayed-Inv}
use gquuuuuunix.Sched.System.Harts.{round-HartOk, csrs-HartOk, cur_task}
use gquuuuuunix.Sched.System.Ops.{free_lock}
use gquuuuuunix.Sched.System.Take.{
  pass-Moved, dispatch-Moved, yield-Moved, scan_out-now, scan_out-free, yield_out-free,
  yield_out-now,
}
use gquuuuuunix.Sched.System.Give.{
  first-Moved, resume-Moved, finish-Moved, first_run-ok, yield_in-ok, scan_in-ok,
}

abbrev WorldInv : ℕ → World → Type 0
WorldInv n w = Inv n w.tasks w.harts w.pc

-- The state in which the harts enter `scheduler`, after the boot: each hart has its own number and
-- no interrupt lock, every lock is initialised and free, and no task is running.
pub record IsBooted (n : ℕ) (w : World) : Type 0 where
  pub at_scheduler : (h : ℕ) → w.pc h ≡ scanning task_max_nrs
  pub id : (h : ℕ) → h < n → get_cpuid (w.harts h).core ≡ h
  pub fits : (h : ℕ) → h < n → Fits (w.harts h).core.csrs
  pub unmasked : (h : ℕ) → h < n → (w.harts h).core.cpu.off_nrs ≡ 0
  pub idle : (h : ℕ) → h < n → (w.harts h).core.cpu.task ≡ none
  pub unlocked : (i : ℕ) → (w.tasks i).lk ≡ free_lock
  pub at_rest : (i : ℕ) → (w.tasks i).state ≢ running

pub data Reach (n : ℕ) (w : World) : World → Type 0 where
  here : Reach n w w
  later : {u v : World} → Reach n w u → Step n u v → Reach n w v

IsBooted-Inv : {n : ℕ} {w : World} → IsBooted n w → WorldInv n w
IsBooted-Inv {n} {w} b = record {
  hart = λ h lt. record {
    id = b.id h lt;
    fits = b.fits h lt;
    nrs = ground (arith, b.unmasked h lt, b.at_scheduler h);
    masked = λ e. ground (arith, b.at_scheduler h);
    cur = ground (arith, b.idle h lt, b.at_scheduler h);
  };
  ops = λ i. ap (λ l. l.ops) (b.unlocked i);
  word_of_holder = λ h i e. ground (arith, b.at_scheduler h);
  cpu_of_holder = λ h i e. ground (arith, b.at_scheduler h);
  holder_of_word = λ i e. absurd (e (ap (λ l. l.is_locked) (b.unlocked i)));
  state_of_runner = λ h i e. ground (arith, b.at_scheduler h);
  runner_of_state = λ i e. absurd (b.at_rest i e);
  unique = λ h k i e f. ground (arith, b.at_scheduler h);
}

-- Every step of every hart keeps the invariant.
pub Step-Inv : {n : ℕ} {w w' : World} → Step n w w' → WorldInv n w → WorldInv n w'
Step-Inv {w} (round h lt place) inv =
    Stayed-Inv inv h (round-HartOk (w.pc h) (w.harts h) (inv.hart h lt) place)
      (sym (ap holds place)) (sym (ap runs place))
Step-Inv {w} (pass h i lt bound place e) inv =
    Moved-Inv inv h i (pass-Moved inv h i lt (ap holds place) i place e)
Step-Inv {w} (dispatch h i lt bound place e) inv =
    Moved-Inv inv h i (dispatch-Moved inv h i lt (ap holds place) i place e)
Step-Inv {w} (first h i lt place new e) inv =
    Moved-Inv inv h i (first-Moved inv h i lt (ap holds place) place e)
Step-Inv {w} (resume h i lt place old e) inv =
    Moved-Inv inv h i (resume-Moved inv h i lt (ap holds place) (w.ena i) place e)
Step-Inv {w} (work h i regs csrs lt place same fits) inv =
    Stayed-Inv inv h
      (csrs-HartOk (w.pc h) (w.harts h) regs csrs (user i) (inv.hart h lt) place refl same fits)
      (sym (ap holds place)) (sym (ap runs place))
Step-Inv {w} (interrupted h i csrs lt place same fits) inv =
    Stayed-Inv inv h
      (csrs-HartOk (w.pc h) (w.harts h) (w.harts h).regs csrs (scanning i) (inv.hart h lt) place
        refl same fits)
      (sym (ap holds place)) (sym (ap runs place))
Step-Inv {w} (yield h i j lt place cur e) inv =
    let found : some i ≡ some j = sym (cur_task (w.pc h) (w.harts h) (inv.hart h lt) place) ∙ cur in
    let one : i ≡ j = cc in
    Moved-Inv inv h j (rw one (yield-Moved inv h j lt (ap holds place) (place ∙ ap user one) e))
Step-Inv {w} (finish h i lt place e) inv =
    Moved-Inv inv h i (finish-Moved inv h i lt (ap holds place) place e)

pub Reach-Inv : {n : ℕ} {w u : World} → IsBooted n w → Reach n w u → WorldInv n u
Reach-Inv b here = IsBooted-Inv b
Reach-Inv b (later r st) = Step-Inv st (Reach-Inv b r)

holds-locks : (p : Pc) (i : ℕ) → holds p ≡ some i → locks p ≡ 1
holds-locks p i e = ground (arith, e)

-- In every state that booted harts reach, no two harts are in the turn of the same task; a task is
-- marked running exactly when some hart is in its turn; and its lock word is set exactly when some
-- hart stands between taking that lock and giving it back, and then the lock names that hart and that
-- hart has interrupts masked.
pub one_hart_per_task :
    {n : ℕ} {w u : World}
    → IsBooted n w
    → Reach n w u
    → (i : ℕ)
    → ((h k : ℕ) → runs (u.pc h) ≡ some i → runs (u.pc k) ≡ some i → h ≡ k)
      × ((u.tasks i).state ≡ running ↔ ((h : ℕ) × (runs (u.pc h) ≡ some i)))
      × ((u.tasks i).lk.is_locked ≢ 0 ↔ ((h : ℕ) × (holds (u.pc h) ≡ some i)))
      × ((h : ℕ)
          → holds (u.pc h) ≡ some i
          → ((u.tasks i).lk.cpu ≡ some h) × (h < n → intr_get (u.harts h).core.csrs ≡ false))
one_hart_per_task {u = u} b r i =
    let inv = Reach-Inv b r in
    (
      λ h k. inv.unique h k i,
      (inv.runner_of_state i, λ (h, e). inv.state_of_runner h i e),
      (inv.holder_of_word i, λ (h, e). ground (arith, inv.word_of_holder h i e)),
      λ h e. (inv.cpu_of_holder h i e, λ lt. (inv.hart h lt).masked (holds-locks (u.pc h) i e)),
    )

-- What a hart does next cannot stop the kernel: what runs under a lock returns, and what takes a
-- lock returns if the lock is free and waits if it is not.
abbrev pub Proceeds : World → ℕ → Pc → Type 0
Proceeds u h (scanning i) =
    ((u.tasks i).lk.is_locked ≡ 0
      → (s : Scan) × (scan_out now at_once i (u.tasks i) (u.harts h) ≡ ok s))
    × ((u.tasks i).lk.is_locked ≢ 0 → scan_out now at_once i (u.tasks i) (u.harts h) ≡ hang)
Proceeds u h (entering i) =
    ((r : Task × Hart) × (first_run at_once (u.tasks i) (u.harts h) ≡ ok r))
    × ((ena : Bool) → (r : Task × Hart) × (yield_in at_once ena (u.tasks i) (u.harts h) ≡ ok r))
Proceeds u h (user i) =
    (get_cur_task (u.harts h).core ≡ some i)
    × ((u.tasks i).lk.is_locked ≡ 0
        → (r : Bool × Task × Hart) × (yield_out now (u.tasks i) (u.harts h) ≡ ok r))
    × ((u.tasks i).lk.is_locked ≢ 0 → yield_out now (u.tasks i) (u.harts h) ≡ hang)
Proceeds u h (back i) = (r : Task × Hart) × (scan_in at_once (u.tasks i) (u.harts h) ≡ ok r)

Inv-Proceeds :
    {n : ℕ} (u : World) → WorldInv n u → (h : ℕ) → h < n → (p : Pc) → u.pc h ≡ p → Proceeds u h p
Inv-Proceeds u inv h lt (scanning i) e = (
  scan_out-free inv h i lt (ap holds e),
  λ busy. scan_out-now inv h i lt (ap holds e) ∙ ground (arith, busy),
)
Inv-Proceeds u inv h lt (entering i) e =
    ((_, first_run-ok inv h i lt (ap holds e)), λ ena. (_, yield_in-ok inv h i lt (ap holds e) ena))
Inv-Proceeds u inv h lt (user i) e = (
  cur_task (u.pc h) (u.harts h) (inv.hart h lt) e,
  yield_out-free inv h i lt (ap holds e),
  λ busy. yield_out-now inv h i lt (ap holds e) ∙ ground (arith, busy),
)
Inv-Proceeds u inv h lt (back i) e = (_, scan_in-ok inv h i lt (ap holds e))

-- In every state that booted harts reach, the code at each hart's place returns, or waits for a
-- task's lock whose word is set: no `PANIC` of `acquire`, `release`, `sched` or `pop_off` is
-- reached, and no null pointer is called.
pub never_stops :
    {n : ℕ} {w u : World} → IsBooted n w → Reach n w u → (h : ℕ) → h < n → Proceeds u h (u.pc h)
never_stops {u} b r h lt = Inv-Proceeds u (Reach-Inv b r) h lt (u.pc h) refl

-- A hart that takes no steps stays where it was.
Step-outside : {n : ℕ} {w w' : World} (k : ℕ) → Step n w w' → n ≤ k → w'.pc k ≡ w.pc k
Step-outside k (round h lt _) out = ground arith
Step-outside k (pass h i lt _ _ _) out = ground arith
Step-outside k (dispatch h i lt _ _ _) out = ground arith
Step-outside k (first h i lt _ _ _) out = ground arith
Step-outside k (resume h i lt _ _ _) out = ground arith
Step-outside k (work h i _ _ lt place _ _) out = ground arith
Step-outside k (interrupted h i _ lt place _ _) out = ground arith
Step-outside k (yield h i j lt _ _ _) out = ground arith
Step-outside k (finish h i lt _ _) out = ground arith

Reach-stays : {n : ℕ} {w u : World} (k : ℕ) → Reach n w u → n ≤ k → u.pc k ≡ w.pc k
Reach-stays k here out = refl
Reach-stays k (later r st) out = Step-outside k st out ∙ Reach-stays k r out

holder_place : (p : Pc) (i : ℕ) → holds p ≡ some i → (p ≡ entering i) ⊎ (p ≡ back i)
holder_place (scanning j) i e = cc
holder_place (entering j) i e = inl (cc)
holder_place (user j) i e = cc
holder_place (back j) i e = inr (cc)

-- No deadlock, in every state that booted harts reach: while a hart is at a place where it takes a
-- task's lock next, and the lock's word is set, another hart holds that lock and gives it back in
-- its next step, which returns.
pub no_deadlock :
    {n : ℕ} {w u : World}
    → IsBooted n w
    → Reach n w u
    → (h i : ℕ) → (u.pc h ≡ scanning i) ⊎ (u.pc h ≡ user i)
    → (u.tasks i).lk.is_locked ≢ 0
    → (k : ℕ) × (k < n)
      × (k ≢ h)
      × ((u.pc k ≡ entering i) ⊎ (u.pc k ≡ back i))
      × Proceeds u k (u.pc k)
no_deadlock {n} {u} b r h i waits busy =
    let (k, own) = (Reach-Inv b r).holder_of_word i busy in
    let within : k < n = elim (dec_lt k n) [
      | yes lt ↦ lt
      | no out ↦ ground (arith, own, Reach-stays k r (omega arith), b.at_scheduler k)
    ] in
    (
      k,
      within,
      λ same. ground (arith, own, waits, same),
      holder_place (u.pc k) i own,
      never_stops b r k within,
    )
