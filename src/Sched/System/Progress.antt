-- ===== src/Sched/System/Progress.antt =====
-- A hart that is left to run by itself finds a task that is ready.
use gquuuuuunix.Base.{
  ℕ, zero, suc, ◌+◌, ◌-◌, ◌<◌, ◌≤◌, ◌≡◌, ◌≢◌, ◌⊎◌, inl, inr, refl, false, ◌==◌, Bool-cases, subst,
  ap, sym, ◌∙◌, arith,
}
use gquuuuuunix.Task.{TaskState, runnable, task_max_nrs}
use gquuuuuunix.Sched.{is_runnable}
use gquuuuuunix.Sched.System.{scanning, World}
use gquuuuuunix.Sched.System.Take.{is_runnable-true}
use gquuuuuunix.Sched.System.Safety.{IsBooted, Reach}
use gquuuuuunix.Sched.System.Solo.{
  NoneLocked, Solo, still, TakesUp, Solo-TakesUp, takes, skips, Solo-Solo, begins_round,
}

-- No task of the slots from `i` to before `j` is runnable.
abbrev NoneReady : ℕ → ℕ → World → Type 0
NoneReady i j u = (k : ℕ) → i ≤ k → k < j → is_runnable (u.tasks k).state ≡ false

NoneReady-states :
    (i j : ℕ) (u v : World)
    → ((k : ℕ) → (v.tasks k).state ≡ (u.tasks k).state)
    → NoneReady i j v
    → NoneReady i j u
NoneReady-states i j u v same none_ready k le lt =
    ap is_runnable (sym (same k)) ∙ none_ready k le lt

NoneReady-suc :
    (i j : ℕ) (u : World)
    → is_runnable (u.tasks i).state ≡ false
    → NoneReady (suc i) j u
    → NoneReady i j u
NoneReady-suc i j u unready none_ready k le lt = elim (Bool-cases (i == k)) [
  | inl e ↦ ground (arith, unready, e)
  | inr ne ↦ none_ready k (ground (arith, ne, le)) lt
]

-- Slot `k` comes before slot `j` in a scan from slot `i` on.
abbrev pub IsEarlier : ℕ → ℕ → ℕ → Type 0
IsEarlier i k j =
    ((i ≤ k) × (k < j)) ⊎ ((j < i) × ((i ≤ k) × (k < task_max_nrs))) ⊎ ((j < i) × (k < j))

unready-runnable : (s : TaskState) → is_runnable s ≡ false → s ≢ runnable
unready-runnable s unready e = ground (arith, unready, e)

earlier_in_round :
    (i j : ℕ) (u : World)
    → i ≤ j
    → NoneReady i j u
    → (k : ℕ) → IsEarlier i k j
    → (u.tasks k).state ≢ runnable
earlier_in_round i j u le before k (inl (from, to)) =
    unready-runnable (u.tasks k).state (before k from to)
earlier_in_round i j u le before k (inr (inl (wrap, _))) = absurd (omega (arith, wrap, le))
earlier_in_round i j u le before k (inr (inr (wrap, _))) = absurd (omega (arith, wrap, le))

earlier_in_next :
    (i j : ℕ) (u : World)
    → j < task_max_nrs
    → NoneReady i task_max_nrs u
    → NoneReady 0 j u
    → (k : ℕ) → IsEarlier i k j
    → (u.tasks k).state ≢ runnable
earlier_in_next i j u lt' rest before k (inl (from, to)) =
    unready-runnable (u.tasks k).state (rest k from (omega (arith, to, lt')))
earlier_in_next i j u lt' rest before k (inr (inl (_, (from, to)))) =
    unready-runnable (u.tasks k).state (rest k from to)
earlier_in_next i j u lt' rest before k (inr (inr (_, to))) =
    unready-runnable (u.tasks k).state (before k (omega arith) to)

module _ {n : ℕ} {w0 : World} (b : IsBooted n w0) (h : ℕ) (lt : h < n) where
  -- A task in a slot from `i` to before `j`, and none before it.
  abbrev FindsIn : ℕ → ℕ → World → Type 0
  FindsIn i j u =
      (task : ℕ) × TakesUp n h u task
      × (i ≤ task)
      × (task < j)
      × NoneReady i task u
      × ((u.tasks task).state ≡ runnable)

  FindsIn-suc :
      (i j : ℕ) {u v : World}
      → Solo b h lt u v
      → is_runnable (u.tasks i).state ≡ false
      → FindsIn (suc i) j v
      → FindsIn i j u
  FindsIn-suc i j {u} {v} s unready (task, f, le, below, before, ready) = (
    task,
    Solo-TakesUp b h lt s f,
    omega (arith, le),
    below,
    NoneReady-suc i task u unready (NoneReady-states (suc i) task u v s.states before),
    sym (s.states task) ∙ ready,
  )

  -- The scan up to slot `i + d`: a task on the way, or the slot itself.
  scan_to :
      (d i : ℕ) {u : World}
      → i + d ≤ task_max_nrs
      → Reach n w0 u
      → u.pc h ≡ scanning i
      → NoneLocked u
      → FindsIn i (i + d) u
        ⊎ ((v : World) × Solo b h lt u v × (v.pc h ≡ scanning (i + d)) × NoneReady i (i + d) u)
  scan_to zero i {u} bound r place free = inr (
    u,
    record { reached = r; run = still; free = free; states = λ k. refl; others = λ m away. refl },
    place ∙ ap scanning (omega arith),
    λ k le lt. absurd (omega (arith, le, lt)),
  )
  scan_to (suc d) i {u} bound r place free = elim (Bool-cases (is_runnable (u.tasks i).state)) [
    | inl ready ↦ inl (
      i,
      takes b h lt r i (omega arith) place free (is_runnable-true (u.tasks i).state ready),
      omega arith,
      omega arith,
      λ k le lt. absurd (omega (arith, le, lt)),
      is_runnable-true (u.tasks i).state ready,
    )
    | inr unready ↦
        let (v, s, place') = skips b h lt r i (omega arith) place free unready in
        let same : suc i + d ≡ i + suc d = omega arith in
        elim (scan_to d (suc i) (omega arith) s.reached place' s.free) [
          | inl f ↦ inl (subst (λ z. FindsIn i z u) same (FindsIn-suc i (suc i + d) s unready f))
          | inr (w, s', place'', before) ↦ inr (
            w,
            Solo-Solo b h lt s s',
            place'' ∙ ap scanning same,
            subst (λ z. NoneReady i z u) same
                (NoneReady-suc i (suc i + d) u unready
                  (NoneReady-states (suc i) (suc i + d) u v s.states before)),
          )
        ]
  ]

  -- Work is found in the order of the table: from any state that booted harts reach in which no task's
  -- lock is taken and some task is runnable, a hart that scans the table at or before its end has a run
  -- of its own steps from there that switches to a task that was runnable, and to no other before; and no
  -- task between the hart's slot and that one, going round the table, was runnable.
  pub finds_work :
      (i j : ℕ) (u : World)
      → Reach n w0 u
      → i ≤ task_max_nrs
      → u.pc h ≡ scanning i
      → NoneLocked u
      → j < task_max_nrs
      → (u.tasks j).state ≡ runnable
      → (task : ℕ) × TakesUp n h u task
        × ((u.tasks task).state ≡ runnable)
        × ((k : ℕ) → IsEarlier i k task → (u.tasks k).state ≢ runnable)
  finds_work i j u r le place free bound ready =
      let to_end : i + (task_max_nrs - i) ≡ task_max_nrs = omega arith in
      elim (scan_to (task_max_nrs - i) i (omega arith) r place free) [
        | inl (task, f, from, below, before, was) ↦
            (task, f, was, earlier_in_round i task u from before)
        | inr (v, s, place', before) ↦
            let (w, s', start) =
              begins_round b h lt s.reached (place' ∙ ap scanning to_end) s.free in
            let all = Solo-Solo b h lt s s' in
            elim (scan_to task_max_nrs 0 (omega arith) all.reached start all.free) [
              | inl (task, f, from, below, before', was) ↦ (
                task,
                Solo-TakesUp b h lt all f,
                sym (all.states task) ∙ was,
                earlier_in_next i task u below (λ k from' to. before k from' (omega (arith, to)))
                    (NoneReady-states 0 task u w all.states before'),
              )
              | inr (x, s'', place'', before') ↦ absurd (
                  unready-runnable ((u.tasks j).state)
                    (NoneReady-states 0 task_max_nrs u w all.states before' j (omega arith) bound)
                    ready)
            ]
      ]
