-- ===== src/Task/Placement.antt =====
-- Where `spawn` puts a task and its stack.
use mathlib.Core.Option
use gquuuuuunix.Base.{
  ℕ, zero, suc, ◌+◌, ◌*◌, ◌%◌, ◌^◌, ◌≤◌, ◌<◌, ◌≡◌, refl, ◌==◌, if◌then◌else◌, ==_refl, Option, none,
  some, List, [], ◌∷◌, map, length, set, get_elem?, ap, ◌∙◌, true, arith,
}
use gquuuuuunix.SpinLock.{init_spin_lock}
use gquuuuuunix.Task.{
  Task, runnable, Table, Image, stack_size, task_max_nrs, init_task, add_task, spawn, init_locks,
  spawn_all, boot_tasks, with_lock,
}

-- The top of the stack that belongs to slot `i`.
abbrev pub stack_top : Image → ℕ → ℕ
stack_top img i = img.task_stack + i * stack_size + stack_size

-- What slot `j` holds after tasks with pids from `pid` on have been spawned, if it held `old`.
pub expected : Image → ℕ → List Task → ℕ → Option Task → Option Task
expected img pid [] j old = old
expected img pid (task ∷ rest) j old =
    if pid == j then some (init_task img pid task pid) else expected img (suc pid) rest j old

get_elem?-set {ℓ} :
    {A : Type ℓ} (xs : List A) (i j : ℕ) (v : A)
    → i < length xs
    → get_elem? (set xs i v) j ≡ (if i == j then some v else get_elem? xs j)
get_elem?-set [] i j v h = absurd (omega arith)
get_elem?-set (x ∷ xs) zero zero v h = refl
get_elem?-set (x ∷ xs) zero (suc j) v h = ground arith
get_elem?-set (x ∷ xs) (suc i) zero v h = ground arith
get_elem?-set (x ∷ xs) (suc i) (suc j) v h = ground (arith, get_elem?-set xs i j v (omega arith))

length-set {ℓ} : {A : Type ℓ} (xs : List A) (i : ℕ) (v : A) → length (set xs i v) ≡ length xs
length-set [] i v = refl
length-set (x ∷ xs) zero v = refl
length-set (x ∷ xs) (suc i) v = ap suc (length-set xs i v)

expected-below :
    (img : Image) (pid : ℕ) (l : List Task) (j : ℕ) (a : Option Task)
    → j < pid
    → expected img pid l j a ≡ a
unfolding expected
expected-below img pid [] j a h = refl
expected-below img pid (t ∷ l) j a h = ground (arith, expected-below img (suc pid) l j a)

-- A spawn below the size of the table fills the slot that the counter names.
spawn_lem :
    (img : Image) (t : Task) (pid : ℕ) (table : Table)
    → table.task_nrs ≡ pid
    → pid < task_max_nrs
    → spawn img t pid table
      ≡ record { tasks = set table.tasks pid (init_task img pid t pid); task_nrs = suc pid }
unfolding spawn add_task
spawn_lem img t pid table nrs h =
    let small : table.task_nrs % task_max_nrs ≡ pid = omega arith in
    let next : (table.task_nrs + 1) % 2 ^ 64 ≡ suc pid = omega arith in rw (small, next, nrs)

spawn_all_lem :
    (img : Image) (pid : ℕ) (l : List Task) (table : Table)
    → length table.tasks ≡ task_max_nrs
    → table.task_nrs ≡ pid
    → pid + length l ≤ task_max_nrs
    → ((spawn_all img pid l table).task_nrs ≡ pid + length l)
      × ((j : ℕ)
          → get_elem? (spawn_all img pid l table).tasks j
            ≡ expected img pid l j (get_elem? table.tasks j))
unfolding spawn_all expected
spawn_all_lem img pid [] table size nrs fits = (omega arith, λ j. refl)
spawn_all_lem img pid (t ∷ l) table size nrs fits =
    let filled = set table.tasks pid (init_task img pid t pid) in
    let next : Table = record { tasks = filled; task_nrs = suc pid } in
    let rest =
      spawn_all_lem img (suc pid) l next
        (length-set table.tasks pid (init_task img pid t pid) ∙ size) refl (omega arith) in
    rw (spawn_all, spawn_lem img t pid table nrs (omega arith))
      (
        omega (arith, rest.0),
        λ j. ground (
          arith,
          rest.1 j,
          get_elem?-set table.tasks pid j (init_task img pid t pid) (omega arith),
          expected-below img (suc pid) l j (some (init_task img pid t pid)),
        ),
      )

get_elem?-map-with_lock :
    (l : List Task) (j : ℕ) → get_elem? (map with_lock l) j ≡ Option.map with_lock (get_elem? l j)
get_elem?-map-with_lock [] j = refl
get_elem?-map-with_lock (t ∷ l) zero = refl
get_elem?-map-with_lock (t ∷ l) (suc j) = get_elem?-map-with_lock l j

length-map-with_lock : (l : List Task) → length (map with_lock l) ≡ length l
length-map-with_lock [] = refl
length-map-with_lock (t ∷ l) = ap suc (length-map-with_lock l)

expected-at :
    (img : Image) (pid : ℕ) (l : List Task) (j k : ℕ) (a : Option Task) {s : Task}
    → k ≡ pid + j
    → get_elem? l j ≡ some s
    → expected img pid l k a ≡ some (init_task img k s k)
unfolding expected
expected-at img pid [] j k a e h = cc
expected-at img pid (t ∷ l) zero k a {s} e h =
    let here : pid ≡ k = omega arith in let same : t ≡ s = cc in rw (here, same, ==_refl k)
expected-at img pid (t ∷ l) (suc j) k a {s} e h =
    ground (arith, expected-at img (suc pid) l j k a {s = s} (omega arith) h)

expected-above :
    (img : Image) (pid : ℕ) (l : List Task) (j : ℕ) (a : Option Task)
    → pid + length l ≤ j
    → expected img pid l j a ≡ a
unfolding expected
expected-above img pid [] j a h = refl
expected-above img pid (t ∷ l) j a h = ground (arith, expected-above img (suc pid) l j a)

-- What a task's slot holds after the boot.
pub record IsPlaced (img : Image) (j : ℕ) (t : Task) : Type 0 where
  pub runnable_state : t.state ≡ runnable
  pub pid : t.pid ≡ j
  pub entry : t.context.ra ≡ img.dummy_task
  pub stack : t.context.sp ≡ stack_top img j
  pub free : t.lk ≡ record { is_locked = 0; cpu = none; ops = true }

init_task-IsPlaced :
    (img : Image) (j : ℕ) (s : Task)
    → j < task_max_nrs
    → img.task_stack + task_max_nrs * stack_size < 2 ^ 64
    → IsPlaced img j (init_task img j s j)
unfolding init_task init_spin_lock
init_task-IsPlaced img j s h fits = record {
  runnable_state = refl;
  pid = refl;
  entry = refl;
  stack = omega arith;
  free = refl;
}

get_elem?-lt {ℓ} : {A : Type ℓ} (l : List A) (j : ℕ) {a : A} → get_elem? l j ≡ some a → j < length l
get_elem?-lt [] j h = cc
get_elem?-lt (x ∷ l) zero h = omega arith
get_elem?-lt (x ∷ l) (suc j) h = omega (arith, get_elem?-lt l j h)

-- From an empty table of `task_max_nrs` slots, with no more tasks than slots and the stacks below
-- 2^64: the boot counts the tasks, puts the `j`th into slot `j` with pid `j`, ready to run
-- `dummy_task` on the `j`th stack, and leaves every slot that it does not fill as it was but with
-- an initialised lock.
pub boot_tasks_lem :
    (img : Image) (statics : List Task) (table : Table)
    → length table.tasks ≡ task_max_nrs
    → table.task_nrs ≡ 0
    → length statics ≤ task_max_nrs
    → img.task_stack + task_max_nrs * stack_size < 2 ^ 64
    → ((boot_tasks img statics table).task_nrs ≡ length statics)
      × ((j : ℕ) (s : Task)
          → get_elem? statics j ≡ some s
          → (t : Task) × (get_elem? (boot_tasks img statics table).tasks j ≡ some t)
            × IsPlaced img j t)
      × ((j : ℕ)
          → length statics ≤ j
          → get_elem? (boot_tasks img statics table).tasks j
            ≡ Option.map with_lock (get_elem? table.tasks j))
unfolding boot_tasks
boot_tasks_lem img statics table size nrs few fits =
    let all =
      spawn_all_lem img 0 statics (init_locks table) (locks_size ∙ size) nrs (omega arith) in
    (
      omega (arith, all.0),
      λ j s h. (
        init_task img j s j,
        all.1 j
            ∙ expected-at img 0 statics j j (get_elem? (init_locks table).tasks j) (omega arith) h,
        init_task-IsPlaced img j s (omega (arith, get_elem?-lt statics j h)) fits,
      ),
      λ j h.
          all.1 j
          ∙ expected-above img 0 statics j (get_elem? (init_locks table).tasks j) (omega arith)
          ∙ get_elem?-map-with_lock table.tasks j,
    )
  where
    locks_size : length (init_locks table).tasks ≡ length table.tasks
    locks_size = length-map-with_lock table.tasks
