-- ===== src/Sched/System/Take.antt =====
-- The steps that take a lock: a slot passed by, a dispatch, and a `yield`.
use gquuuuuunix.Base.{
  ℕ, suc, ◌<◌, ◌≡◌, ◌≢◌, refl, inl, inr, Bool, true, false, none, some, ◌==◌, ==_iff, if◌then◌else◌,
  Bool-cases, ap, subst₂, sym, ◌∙◌, arith,
}
use gquuuuuunix.Outcome.{ok, hang}
use gquuuuuunix.Cpu.{push_off}
use gquuuuuunix.SpinLock.{SpinLock, is_holding_lk, acquire, release}
use gquuuuuunix.SpinLock.Sequential.{acquired, owned, acquire_lem}
use gquuuuuunix.Task.{TaskState, runnable, running, Task}
use gquuuuuunix.Sched.{Hart, Scan, switched, passed, is_runnable, scan_out, yield_out}
use gquuuuuunix.Sched.Cycle.{acquire-found, yield_out_lem}
use gquuuuuunix.Sched.System.{Pc, scanning, entering, user, back, now, at_once}
use gquuuuuunix.Sched.System.Moved.{
  holds, runs, current, locks, HartOk, Inv, same, begins, ends, Moved,
}
use gquuuuuunix.Sched.System.Ops.{
  free_lock, released, now-free, now-locked, IsLocked, release-mine, IsLocked-dispatch,
  HartOk-IsNested, push_off-IsLocked, push_off-task, released-HartOk, locked-HartOk,
}

-- The lock as `acquire` hands it to hart `h`.
abbrev pub taken_by : ℕ → SpinLock → SpinLock
taken_by h lk = owned h (record lk { is_locked = 1 })

-- The outcomes of the loop's body, read backwards.
pub passed_inv :
    (free fit : Bool) (a c : Task) (b d : Hart) {t : Task} {x : Hart}
    → (if free then if fit then ok (switched a b) else ok (passed c d) else hang) ≡ ok (passed t x)
    → (free ≡ true) × (fit ≡ false) × (c ≡ t) × (d ≡ x)
passed_inv free fit a c b d e = ground arith

pub switched_inv :
    (free fit : Bool) (a c : Task) (b d : Hart) {t : Task} {x : Hart}
    → (if free then if fit then ok (switched a b) else ok (passed c d) else hang)
      ≡ ok (switched t x)
    → (free ≡ true) × (fit ≡ true) × (a ≡ t) × (b ≡ x)
switched_inv free fit a c b d e = ground arith

pub yielded_inv {ℓ} :
    {A : Type ℓ} (free : Bool) (a : A) {r : A}
    → (if free then ok a else hang) ≡ ok r
    → (free ≡ true) × (a ≡ r)
yielded_inv free a e = ground arith

pub is_runnable-true : (s : TaskState) → is_runnable s ≡ true → s ≡ runnable
is_runnable-true s e = ground arith

module _ {n : ℕ} {tasks : ℕ → Task} {harts : ℕ → Hart} {pc : ℕ → Pc} (inv : Inv n tasks harts pc)
    (h i : ℕ) (lt : h < n) (out : holds (pc h) ≡ none) where
  abbrev pub x : Hart
  x = harts h

  abbrev pub t : Task
  t = tasks i

  v : HartOk h (pc h) x
  v = inv.hart h lt

  no_locks : locks (pc h) ≡ 0
  no_locks = go (pc h) out
    where
      go : (p : Pc) → holds p ≡ none → locks p ≡ 0
      go (scanning j) e = refl
      go (entering j) e = cc
      go (user j) e = refl
      go (back j) e = cc

  -- A hart between turns is not taken for the holder of a lock.
  pub not_mine : is_holding_lk t.lk x.core ≡ false
  unfolding is_holding_lk
  not_mine = elim (Bool-cases (t.lk.is_locked == 0)) [
    | inl e ↦ ground (arith, e)
    | inr e ↦
        let (k, own) = inv.holder_of_word i (ground (arith, e)) in
        ground (arith, own, inv.cpu_of_holder k i own, v.id, out)
  ]

  -- It gets the lock if the lock is free, and waits if not.
  acquire-now : t.lk.is_locked ≡ 0 → acquire now t.lk x.core ≡ ok (taken_by h t.lk, push_off x.core)
  acquire-now free =
      acquire-found now t x 0 (HartOk-IsNested v) (inv.ops i) not_mine (now-free t.lk free)
      ∙ ap (λ id. ok (owned id (record t.lk { is_locked = 1 }), push_off x.core)) v.id

  acquire-wait : t.lk.is_locked ≢ 0 → acquire now t.lk x.core ≡ hang
  unfolding acquired
  acquire-wait busy =
      acquire_lem now t.lk 0 x.core (HartOk-IsNested v) (inv.ops i) not_mine
      ∙ ap (acquired x.core) (now-locked t.lk busy)

  mine : IsLocked h (push_off x.core)
  mine = push_off-IsLocked v no_locks

  release-taken :
      release at_once (taken_by h t.lk) (push_off x.core)
      ≡ ok (free_lock, released (push_off x.core))
  release-taken = release-mine mine (taken_by h t.lk) (inv.ops i) refl refl

  abbrev pub dispatched_task : Task
  dispatched_task = record t { state = running; lk = taken_by h t.lk }

  abbrev pub dispatched_hart : Hart
  dispatched_hart =
      let c = push_off x.core in
      record {
        core = record c { cpu = record c.cpu { task = some i; context = x.regs } };
        regs = t.context;
      }

  abbrev pub passed_task : Task
  passed_task = record t { lk = free_lock }

  abbrev pub passed_hart : Hart
  passed_hart = record x { core = released (push_off x.core) }

  -- The body of the scheduler's loop in one formula.
  pub scan_out-now : scan_out now at_once i t x ≡ (
      if t.lk.is_locked == 0
      then if is_runnable t.state
        then ok (switched dispatched_task dispatched_hart)
        else ok (passed passed_task passed_hart)
      else hang)
  unfolding scan_out
  scan_out-now = elim (Bool-cases (t.lk.is_locked == 0)) [
    | inl e ↦ rw (acquire-now ((==_iff _ 0).0 e)) (ground (arith, e, release-taken))
    | inr e ↦ ground (arith, e, acquire-wait (ground (arith, e)))
  ]

  pub scan_out-free : t.lk.is_locked ≡ 0 → (s : Scan) × (scan_out now at_once i t x ≡ ok s)
  scan_out-free free = elim (Bool-cases (is_runnable t.state)) [
    | inl e ↦ (switched dispatched_task dispatched_hart, scan_out-now ∙ ground (arith, free, e))
    | inr e ↦ (passed passed_task passed_hart, scan_out-now ∙ ground (arith, free, e))
  ]

  dispatched-HartOk : HartOk h (entering i) dispatched_hart
  dispatched-HartOk =
      locked-HartOk (entering i) t.context (IsLocked-dispatch mine (some i) x.regs) refl refl

  passed-HartOk : (j : ℕ) → pc h ≡ scanning j → HartOk h (scanning (suc j)) passed_hart
  passed-HartOk j e =
      released-HartOk (scanning (suc j)) x.regs mine refl
        (push_off-task x.core ∙ v.cur ∙ ap current e)

  -- A slot that is passed by keeps its state, and its lock is free before and after.
  pub pass-Moved :
      (j : ℕ) {t' : Task} {x' : Hart}
      → pc h ≡ scanning j
      → scan_out now at_once i t x ≡ ok (passed t' x')
      → Moved h i (pc h) t (scanning (suc j)) t' x'
  pass-Moved j {t'} {x'} at e =
      let (free, fit, et, ex) =
        passed_inv (t.lk.is_locked == 0) (is_runnable t.state) dispatched_task passed_task
          dispatched_hart passed_hart (sym scan_out-now ∙ e) in
      subst₂ (λ t' x'. Moved h i (pc h) t (scanning (suc j)) t' x') et ex
        (record {
          hart = passed-HartOk j at;
          ops = refl;
          before = inl (out, (==_iff _ 0).0 free);
          after = inl (refl, refl);
          turn = same (sym (ap runs at)) refl;
        })

  -- A dispatch begins the turn of a runnable task.
  pub dispatch-Moved :
      (j : ℕ) {t' : Task} {x' : Hart}
      → pc h ≡ scanning j
      → scan_out now at_once i t x ≡ ok (switched t' x')
      → Moved h i (pc h) t (entering i) t' x'
  dispatch-Moved j {t'} {x'} at e =
      let (free, fit, et, ex) =
        switched_inv (t.lk.is_locked == 0) (is_runnable t.state) dispatched_task passed_task
          dispatched_hart passed_hart (sym scan_out-now ∙ e) in
      subst₂ (λ t' x'. Moved h i (pc h) t (entering i) t' x') et ex
        (record {
          hart = dispatched-HartOk;
          ops = inv.ops i;
          before = inl (out, (==_iff _ 0).0 free);
          after = inr (refl, refl, refl);
          turn = begins (ap runs at) refl (is_runnable-true t.state fit) refl;
        })

  -- A task that yields: its turn ends, runnable, with its lock held by the hart it leaves.
  abbrev pub yielded_task : Task
  yielded_task = record t { context = x.regs; state = runnable; lk = taken_by h t.lk }

  abbrev pub yielded_hart : Hart
  yielded_hart = record { core = push_off x.core; regs = x.core.cpu.context }

  pub yield_out-now : yield_out now t x ≡ (
      if t.lk.is_locked == 0
      then ok ((push_off x.core).cpu.intr_ena_before, yielded_task, yielded_hart)
      else hang)
  unfolding yield_out
  yield_out-now = elim (Bool-cases (t.lk.is_locked == 0)) [
    | inl e ↦ ground (
      arith,
      e,
      v.id,
      yield_out_lem now t x 0 (HartOk-IsNested v) (inv.ops i) not_mine
          (now-free t.lk ((==_iff _ 0).0 e)) (inv.ops i),
    )
    | inr e ↦ ground (arith, e, acquire-wait (ground (arith, e)))
  ]

  pub yield_out-free : t.lk.is_locked ≡ 0 → (r : Bool × Task × Hart) × (yield_out now t x ≡ ok r)
  yield_out-free free = (
    ((push_off x.core).cpu.intr_ena_before, yielded_task, yielded_hart),
    yield_out-now ∙ ground (arith, free),
  )

  yielded-HartOk : pc h ≡ user i → HartOk h (back i) yielded_hart
  yielded-HartOk at =
      locked-HartOk (back i) x.core.cpu.context mine refl
        (push_off-task x.core ∙ v.cur ∙ ap current at)

  pub yield-Moved :
      {b : Bool} {t' : Task} {x' : Hart}
      → pc h ≡ user i
      → yield_out now t x ≡ ok (b, t', x')
      → Moved h i (pc h) t (back i) t' x'
  yield-Moved {b} {t'} {x'} at e =
      let (free, er) =
        yielded_inv (t.lk.is_locked == 0)
          ((push_off x.core).cpu.intr_ena_before, yielded_task, yielded_hart)
          (sym yield_out-now ∙ e) in
      subst₂ (λ t' x'. Moved h i (pc h) t (back i) t' x') (ap (λ (r : Bool × Task × Hart). r.1) er)
        (ap (λ (r : Bool × Task × Hart). r.2) er)
        (record {
          hart = yielded-HartOk at;
          ops = inv.ops i;
          before = inl (out, (==_iff _ 0).0 free);
          after = inr (refl, refl, refl);
          turn = ends (ap runs at) refl refl;
        })
