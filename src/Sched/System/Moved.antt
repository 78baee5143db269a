-- ===== src/Sched/System/Moved.antt =====
-- The invariant of the scheduler, and that a hart's step at one task keeps it.
use gquuuuuunix.Base.{
  ℕ, ◌<◌, ◌≡◌, ◌≢◌, ◌⊎◌, inl, inr, true, false, Option, none, some, update, ◌==◌, ==_refl, ==_iff,
  Bool-cases, subst, arith,
}
use gquuuuuunix.Riscv.{intr_get}
use gquuuuuunix.Riscv.Interrupts.{Fits}
use gquuuuuunix.Cpu.{get_cpuid}
use gquuuuuunix.Task.{Task, TaskState, runnable, running}
use gquuuuuunix.Sched.{Hart}
use gquuuuuunix.Sched.System.{Pc, scanning, entering, user, back}

-- The lock that a hart holds.
abbrev pub holds : Pc → Option ℕ
holds (scanning _) = none
holds (entering i) = some i
holds (user _) = none
holds (back i) = some i

-- The task whose turn a hart is in.
abbrev pub runs : Pc → Option ℕ
runs (scanning _) = none
runs (entering i) = some i
runs (user i) = some i
runs (back _) = none

-- `cur_cpu->task`.
abbrev pub current : Pc → Option ℕ
current (scanning _) = none
current (entering i) = some i
current (user i) = some i
current (back i) = some i

abbrev pub locks : Pc → ℕ
locks (scanning _) = 0
locks (entering _) = 1
locks (user _) = 0
locks (back _) = 1

-- A hart's own state at its program point.
pub record HartOk (h : ℕ) (p : Pc) (x : Hart) : Type 0 where
  pub id : get_cpuid x.core ≡ h
  pub fits : Fits x.core.csrs
  pub nrs : x.core.cpu.off_nrs ≡ locks p
  pub masked : locks p ≡ 1 → intr_get x.core.csrs ≡ false
  pub cur : x.core.cpu.task ≡ current p

pub record Inv (n : ℕ) (tasks : ℕ → Task) (harts : ℕ → Hart) (pc : ℕ → Pc) : Type 0 where
  pub hart : (h : ℕ) → h < n → HartOk h (pc h) (harts h)
  pub ops : (i : ℕ) → (tasks i).lk.ops ≡ true
  pub word_of_holder : (h i : ℕ) → holds (pc h) ≡ some i → (tasks i).lk.is_locked ≡ 1
  pub cpu_of_holder : (h i : ℕ) → holds (pc h) ≡ some i → (tasks i).lk.cpu ≡ some h
  pub holder_of_word : (i : ℕ) → (tasks i).lk.is_locked ≢ 0 → (h : ℕ) × (holds (pc h) ≡ some i)
  pub state_of_runner : (h i : ℕ) → runs (pc h) ≡ some i → (tasks i).state ≡ running
  pub runner_of_state : (i : ℕ) → (tasks i).state ≡ running → (h : ℕ) × (runs (pc h) ≡ some i)
  pub unique : (h k i : ℕ) → runs (pc h) ≡ some i → runs (pc k) ≡ some i → h ≡ k

-- How a turn goes on at task `i`: it does not change, it begins, or it ends.
pub data Turn (i : ℕ) (p p' : Pc) (s s' : TaskState) : Type 0 where
  same : runs p' ≡ runs p → s' ≡ s → Turn i p p' s s'
  begins : runs p ≡ none → runs p' ≡ some i → s ≡ runnable → s' ≡ running → Turn i p p' s s'
  ends : runs p ≡ some i → runs p' ≡ none → s' ≡ runnable → Turn i p p' s s'

-- What a step of hart `h` at task `i` does, from `p`, `t` to `p'`, `t'`, `x'`.
pub record Moved (h i : ℕ) (p : Pc) (t : Task) (p' : Pc) (t' : Task) (x' : Hart) : Type 0 where
  pub hart : HartOk h p' x'
  pub ops : t'.lk.ops ≡ true
  pub before : (holds p ≡ none) × (t.lk.is_locked ≡ 0) ⊎ (holds p ≡ some i)
  pub after :
      (holds p' ≡ none) × (t'.lk.is_locked ≡ 0)
      ⊎ (holds p' ≡ some i) × (t'.lk.is_locked ≡ 1) × (t'.lk.cpu ≡ some h)
  pub turn : Turn i p p' t.state t'.state

module _ {n : ℕ} {tasks : ℕ → Task} {harts : ℕ → Hart} {pc : ℕ → Pc} (inv : Inv n tasks harts pc)
    (h i : ℕ) {p' : Pc} {t' : Task} {x' : Hart} (m : Moved h i (pc h) (tasks i) p' t' x') where
  open inv use {
    word_of_holder, cpu_of_holder, holder_of_word, state_of_runner, runner_of_state, unique,
  }

  Moved-hart : (k : ℕ) → k < n → HartOk k (update pc h p' k) (update harts h x' k)
  Moved-hart k lt = elim (Bool-cases (h == k)) [
    | inl e ↦
        subst (λ z. HartOk z (update pc h p' z) (update harts h x' z)) ((==_iff h k).0 e)
          (rw (==_refl h) m.hart)
    | inr e ↦ rw e (inv.hart k lt)
  ]

  Moved-ops : (j : ℕ) → (update tasks i t' j).lk.ops ≡ true
  Moved-ops j = ground (arith, m.ops, inv.ops j)

  Moved-word :
      (k j : ℕ) → holds (update pc h p' k) ≡ some j → (update tasks i t' j).lk.is_locked ≡ 1
  Moved-word k j e =
      ground (arith, m.before, m.after, word_of_holder k j, cpu_of_holder k j, cpu_of_holder h i)

  Moved-cpu : (k j : ℕ) → holds (update pc h p' k) ≡ some j → (update tasks i t' j).lk.cpu ≡ some k
  Moved-cpu k j e =
      ground (arith, m.before, m.after, word_of_holder k j, cpu_of_holder k j, cpu_of_holder h i)

  Moved-holder :
      (j : ℕ)
      → (update tasks i t' j).lk.is_locked ≢ 0
      → (k : ℕ) × (holds (update pc h p' k) ≡ some j)
  Moved-holder j e = elim (Bool-cases (i == j)) [
    | inl here ↦ (h, ground (arith, m.after, ==_refl h))
    | inr other ↦
        let (k, own) = holder_of_word j (ground (arith, e)) in (k, ground (arith, own, m.before))
  ]

  Turn-state :
      Turn i (pc h) p' (tasks i).state t'.state
      → (k j : ℕ) → runs (update pc h p' k) ≡ some j
      → (update tasks i t' j).state ≡ running
  Turn-state (same e s) k j r = ground (arith, state_of_runner k j, state_of_runner k i)
  Turn-state (begins e e' s s') k j r = ground (arith, state_of_runner k j)
  Turn-state (ends e e' s') k j r = ground (arith, state_of_runner k j, unique h k i)

  Turn-runner :
      Turn i (pc h) p' (tasks i).state t'.state
      → (j : ℕ) → (update tasks i t' j).state ≡ running
      → (k : ℕ) × (runs (update pc h p' k) ≡ some j)
  Turn-runner (same e s) j r =
      let (k, own) = runner_of_state j (ground (arith)) in (k, ground arith)
  Turn-runner (begins e e' s s') j r = elim (Bool-cases (i == j)) [
    | inl here ↦ (h, ground (arith, ==_refl h))
    | inr other ↦ let (k, own) = runner_of_state j (ground (arith)) in (k, ground arith)
  ]
  Turn-runner (ends e e' s') j r =
      let (k, own) = runner_of_state j (ground (arith)) in (k, ground arith)

  Turn-unique :
      Turn i (pc h) p' (tasks i).state t'.state
      → (k l j : ℕ) → runs (update pc h p' k) ≡ some j
      → runs (update pc h p' l) ≡ some j
      → k ≡ l
  Turn-unique (same e s) k l j r q = ground (arith, unique k l j)
  Turn-unique (begins e e' s s') k l j r q =
      ground (arith, unique k l j, state_of_runner k i, state_of_runner l i)
  Turn-unique (ends e e' s') k l j r q = ground (arith, unique k l j)

  -- A step at one task under its lock keeps the invariant.
  pub Moved-Inv : Inv n (update tasks i t') (update harts h x') (update pc h p')
  Moved-Inv = record {
    hart = Moved-hart;
    ops = Moved-ops;
    word_of_holder = Moved-word;
    cpu_of_holder = Moved-cpu;
    holder_of_word = Moved-holder;
    state_of_runner = Turn-state m.turn;
    runner_of_state = Turn-runner m.turn;
    unique = Turn-unique m.turn;
  }

-- A step that touches no task and neither begins nor ends a turn keeps it too.
module _ {n : ℕ} {tasks : ℕ → Task} {harts : ℕ → Hart} {pc : ℕ → Pc} (inv : Inv n tasks harts pc)
    (h : ℕ) {p' : Pc} {x' : Hart} (ok' : HartOk h p' x') (holding : holds p' ≡ holds (pc h))
    (running' : runs p' ≡ runs (pc h)) where
  open inv use {
    word_of_holder, cpu_of_holder, holder_of_word, state_of_runner, runner_of_state, unique,
  }

  Stayed-hart : (k : ℕ) → k < n → HartOk k (update pc h p' k) (update harts h x' k)
  Stayed-hart k lt = elim (Bool-cases (h == k)) [
    | inl e ↦
        subst (λ z. HartOk z (update pc h p' z) (update harts h x' z)) ((==_iff h k).0 e)
          (rw (==_refl h) ok')
    | inr e ↦ rw e (inv.hart k lt)
  ]

  pub Stayed-Inv : Inv n tasks (update harts h x') (update pc h p')
  Stayed-Inv = record {
    hart = Stayed-hart;
    ops = inv.ops;
    word_of_holder = λ k j e. ground (arith, word_of_holder k j);
    cpu_of_holder = λ k j e. ground (arith, cpu_of_holder k j);
    holder_of_word = λ j e. let (k, own) = holder_of_word j e in (k, ground arith);
    state_of_runner = λ k j e. ground (arith, state_of_runner k j);
    runner_of_state = λ j e. let (k, own) = runner_of_state j e in (k, ground arith);
    unique = λ k l j r q. ground (arith, unique k l j);
  }
