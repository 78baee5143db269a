-- ===== src/Boot/World.antt =====
-- From the boot to the scheduler: the state that the boot leaves is one from which the scheduler's
-- theorems hold.
use mathlib.Core.Option
use gquuuuuunix.Base.{
  ℕ, zero, suc, ◌+◌, ◌*◌, ◌^◌, ◌≤◌, ◌<◌, ◌≡◌, ◌≢◌, ◌⊎◌, inl, inr, refl, false, Option, none, some,
  List, [], ◌∷◌, length, replicate, get_elem?, ap, sym, subst, ◌∙◌, arith,
}
use gquuuuuunix.Riscv.Interrupts.{Fits}
use gquuuuuunix.Cpu.{Context, Cpu, get_cpuid}
use gquuuuuunix.SpinLock.{init_spin_lock}
use gquuuuuunix.Task.{
  unused, running, Task, Image, Table, task_max_nrs, stack_size, with_lock, boot_tasks,
}
use gquuuuuunix.Task.Placement.{boot_tasks_lem}
use gquuuuuunix.Sched.{scheduler_start}
use gquuuuuunix.Sched.System.{World, scanning}
use gquuuuuunix.Sched.System.Moved.{runs}
use gquuuuuunix.Sched.System.Ops.{free_lock}
use gquuuuuunix.Sched.System.Safety.{IsBooted, Proceeds, one_hart_per_task, never_stops}
use gquuuuuunix.Sched.System.Safety as Safety
use gquuuuuunix.Boot.{in_scheduler, Kernel, Reach, IsPowered}
use gquuuuuunix.Boot.Order.{Reach-Inv, boot_order}

-- Static storage, which starts as zeros.
abbrev pub zero_context : Context
zero_context = record {
  ra = 0;
  sp = 0;
  s0 = 0;
  s1 = 0;
  s2 = 0;
  s3 = 0;
  s4 = 0;
  s5 = 0;
  s6 = 0;
  s7 = 0;
  s8 = 0;
  s9 = 0;
  s10 = 0;
  s11 = 0;
}

abbrev pub zero_task : Task
zero_task = record {
  pid = 0;
  context = zero_context;
  state = unused;
  lk = record { is_locked = 0; cpu = none; ops = false };
}

abbrev pub zero_table : Table
zero_table = record { tasks = replicate 64 zero_task; task_nrs = 0 }

abbrev pub zero_cpu : Cpu
zero_cpu = record { task = none; context = zero_context; off_nrs = 0; intr_ena_before = false }

-- The slots of the table; there are no others.
abbrev pub slot : Option Task → Task
slot none = with_lock zero_task
slot (some t) = t

-- The harts at the head of `scheduler`, each with its entry of `gCpus`; `regs` is what the harts'
-- other registers hold.
abbrev pub scheduler_world : Kernel → (ℕ → Context) → World
scheduler_world u regs = record {
  tasks = λ i. slot (get_elem? u.table.tasks i);
  harts = λ h.
      scheduler_start (record { core = record { csrs = u.csrs h; cpu = zero_cpu }; regs = regs h });
  pc = λ _. scanning task_max_nrs;
  ena = λ _. false;
  started = λ _. false;
}

get_elem?-cases {ℓ} :
    {A : Type ℓ} (l : List A) (i : ℕ)
    → ((a : A) × (get_elem? l i ≡ some a)) ⊎ ((length l ≤ i) × (get_elem? l i ≡ none))
get_elem?-cases [] i = inr (omega arith, refl)
get_elem?-cases (x ∷ l) zero = inl (x, refl)
get_elem?-cases (x ∷ l) (suc i) = elim (get_elem?-cases l i) [
  | inl (a, e) ↦ inl (a, e)
  | inr (long, e) ↦ inr (omega (arith, long), e)
]

get_elem?-replicate {ℓ} :
    {A : Type ℓ} (n i : ℕ) (a : A)
    → (get_elem? (replicate n a) i ≡ some a) ⊎ (get_elem? (replicate n a) i ≡ none)
get_elem?-replicate zero i a = inr refl
get_elem?-replicate (suc n) zero a = inl refl
get_elem?-replicate (suc n) (suc i) a = get_elem?-replicate n i a

abbrev AtRest : Task → Type 0
AtRest t = (t.lk ≡ free_lock) × (t.state ≢ running)

empty-AtRest :
    (o : Option Task) → (o ≡ some zero_task) ⊎ (o ≡ none) → AtRest (slot (Option.map with_lock o))
unfolding init_spin_lock
empty-AtRest o (inl e) = subst (λ z. AtRest (slot (Option.map with_lock z))) (sym e) (refl, λ r. cc)
empty-AtRest o (inr e) = subst (λ z. AtRest (slot (Option.map with_lock z))) (sym e) (refl, λ r. cc)

module _ (img : Image) (statics : List Task) (few : length statics ≤ task_max_nrs)
    (fits : img.task_stack + task_max_nrs * stack_size < 2 ^ 64) where
  slot-AtRest : (i : ℕ) → AtRest (slot (get_elem? (boot_tasks img statics zero_table).tasks i))
  slot-AtRest i =
      let (nrs, filled, empty) = boot_tasks_lem img statics zero_table refl refl few fits in
      elim (get_elem?-cases statics i) [
        | inl (s, e) ↦
            let (t, at_slot, placed) = filled i s e in
            subst (λ z. AtRest (slot z)) (sym at_slot)
              (placed.free, λ r. let p = placed.runnable_state in cc)
        | inr (beyond, e) ↦
            subst (λ z. AtRest (slot z)) (sym (empty i beyond))
              (empty-AtRest (get_elem? zero_table.tasks i) (get_elem?-replicate 64 i zero_task))
      ]

  module _ (n kernelvec : ℕ) (few_harts : n ≤ 2 ^ 32) (b : Kernel) {u : Kernel} (on : IsPowered b)
      (zeros : b.table ≡ zero_table) (boot : Reach n img kernelvec statics b u)
      (up : u.pc 0 ≡ in_scheduler) (fit : (h : ℕ) → Fits (u.csrs h)) (regs : ℕ → Context) where
    in_place : u.table ≡ boot_tasks img statics zero_table
    in_place =
        ((boot_order n img kernelvec statics b on boot 0).0 up).0
        ∙ ap (boot_tasks img statics) zeros

    -- From static storage, with at most `task_max_nrs` tasks and stacks below 2^64, the boot leaves
    -- the scheduler a state in which every lock is initialised and free and no task is running.
    pub boot-IsBooted : IsBooted n (scheduler_world u regs)
    unfolding scheduler_start get_cpuid
    boot-IsBooted =
        let inv = Reach-Inv n img kernelvec statics b on boot in
        let rest : (i : ℕ) → AtRest (slot (get_elem? u.table.tasks i)) =
          λ i. subst (λ z. AtRest (slot (get_elem? z.tasks i))) (sym in_place) (slot-AtRest i) in
        record {
          at_scheduler = λ h. refl;
          id = λ h lt. omega (arith, inv.id h);
          fits = λ h lt. fit h;
          unmasked = λ h lt. refl;
          idle = λ h lt. refl;
          unlocked = λ i. (rest i).0;
          at_rest = λ i. (rest i).1;
        }

    -- The kernel from power-on, with a zeroed table, at most `task_max_nrs` tasks, stacks below 2^64,
    -- at most 2^32 harts and a 64-bit `sstatus` on each: once hart 0 is in the scheduler, whatever
    -- the harts and the tasks do in the scheduler's system from there, no two harts run the same
    -- task, and the code at each hart's place returns or waits for a lock that is taken: no `PANIC`
    -- of the scheduler or of its locks is reached.
    pub kernel_is_safe :
        {w : World}
        → Safety.Reach n (scheduler_world u regs) w
        → ((h k i : ℕ) → runs (w.pc h) ≡ some i → runs (w.pc k) ≡ some i → h ≡ k)
          × ((h : ℕ) → h < n → Proceeds w h (w.pc h))
    kernel_is_safe run = (
      λ h k i. (one_hart_per_task boot-IsBooted run i).0 h k,
      λ h lt. never_stops boot-IsBooted run h lt,
    )
