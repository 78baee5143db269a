-- ===== src/Task/Bytes/Add.antt =====
-- `addTask` in memory does to the table what `add_task` does to its model.
use gquuuuuunix.Base.{
  ℕ, ◌+◌, ◌*◌, ◌%◌, ◌^◌, ◌≤◌, ◌<◌, ◌≡◌, ◌≢◌, refl, ◌⊎◌, sym, ◌∙◌, subst, subst₂, List, some, set,
  get_elem?, arith,
}
use native.Mathlib.Decide.{ℕ_discrete}
use gquuuuuunix.Outcome.{ok}
use gquuuuuunix.Memory.{Mem, copy_chunk, memcpy}
use gquuuuuunix.Memory.Chunks.{Apart}
use gquuuuuunix.Memory.Copy.{memcpy_lem}
use gquuuuuunix.Task.{Task, Table, task_max_nrs, add_task}
use gquuuuuunix.Task.Bytes.{Symbols, task_size, store64, TaskAt, TableAt, add_task_bytes}
use gquuuuuunix.Task.Bytes.Layout.{
  Same, same64, TaskAt-Same, load64-store64, get_elem?-set_self, get_elem?-set_other,
}

-- `n` bytes at `a` and `k` bytes at `b` do not overlap.
abbrev pub Disjoint : ℕ → ℕ → ℕ → ℕ → Type 0
Disjoint a n b k = (a + n ≤ b) ⊎ (b + k ≤ a)

-- The table, the counter and the source are different objects, aligned as their attributes say.
pub record AreObjects (sy : Symbols) (task : ℕ) : Type 0 where
  pub tasks_aligned : sy.tasks % 8 ≡ 0
  pub task_aligned : task % 8 ≡ 0
  pub source_apart : Disjoint sy.tasks (task_max_nrs * task_size) task task_size
  pub counter_apart : Disjoint sy.tasks (task_max_nrs * task_size) sy.task_nrs 8
  pub source_kept : Disjoint task task_size sy.task_nrs 8

module _ {sy : Symbols} {task : ℕ} (objects : AreObjects sy task) (m : Mem) (nrs : ℕ) where
  open objects use {tasks_aligned, task_aligned, source_apart, counter_apart, source_kept}

  abbrev dst : ℕ
  dst = sy.tasks + nrs % task_max_nrs * task_size

  abbrev counted : Mem
  counted = store64 sy.task_nrs ((nrs + 1) % 2 ^ 64) m

  abbrev added : Mem
  added = copy_chunk task_size dst task counted

  dst-Apart : Apart task_size dst task
  dst-Apart = ground (arith, source_apart)

  copied : memcpy dst task task_size counted ≡ ok added
  copied =
      let run = memcpy_lem dst task task_size counted dst-Apart in
      ground (arith, run, tasks_aligned)

  source-Same : Same task_size m task added dst
  source-Same i lt = ground (arith, source_kept)

  slot-Same :
      (i : ℕ)
      → i < task_max_nrs
      → i ≢ nrs % task_max_nrs
      → Same task_size m (sy.tasks + i * task_size) added (sy.tasks + i * task_size)
  slot-Same i few other j lt = ground (arith, counter_apart)

  counter-Same : Same 8 counted sy.task_nrs added sy.task_nrs
  counter-Same i lt = ground (arith, counter_apart)

  kept : (b : ℕ) → Disjoint dst task_size b 1 → Disjoint sy.task_nrs 8 b 1 → added b ≡ m b
  kept b off_slot off_counter = ground (arith, off_slot, off_counter)

  added_entry :
      {t : Task} (tasks : List Task)
      → TaskAt sy m task t
      → ((i : ℕ) (t' : Task)
          → i < task_max_nrs
          → get_elem? tasks i ≡ some t'
          → TaskAt sy m (sy.tasks + i * task_size) t')
      → (i : ℕ) (t' : Task) → i < task_max_nrs
      → get_elem? (set tasks (nrs % task_max_nrs) t) i ≡ some t'
      → TaskAt sy added (sy.tasks + i * task_size) t'
  added_entry {t} tasks source before i t' few found = elim (ℕ_discrete i (nrs % task_max_nrs)) [
    | yes here ↦
        (let same_task : t ≡ t' =
            get_elem?-set_self tasks (nrs % task_max_nrs)
              (subst (λ j. get_elem? (set tasks (nrs % task_max_nrs) t) j ≡ some t') here found) in
          subst₂ (λ j u. TaskAt sy added (sy.tasks + j * task_size) u) (sym here) same_task
            (TaskAt-Same m added sy task dst source-Same source))
    | no other ↦
        (let there = get_elem?-set_other tasks (nrs % task_max_nrs) i t (λ e. other (sym e)) in
          TaskAt-Same m added sy (sy.tasks + i * task_size) (sy.tasks + i * task_size)
            (slot-Same i few other) (before i t' few (sym there ∙ found)))
  ]

  TableAt-added :
      {t : Task} {table : Table}
      → table.task_nrs ≡ nrs
      → TaskAt sy m task t
      → TableAt sy m table
      → TableAt sy added (add_task t table)
  unfolding add_task
  TableAt-added {t} {table} count source before = rw count (record {
    tasks = added_entry table.tasks source before.tasks;
    task_nrs =
        same64 counted added sy.task_nrs sy.task_nrs counter-Same
        ∙ load64-store64 sy.task_nrs _ m (omega arith);
  })

-- Where the table, its counter and the task to be added are different objects in memory, aligned to 8:
-- `addTask` ends, without undefined behaviour; memory then holds the table as `add_task` of the model
-- leaves it, each entry whole; and no byte but those of the slot and of the counter has changed.
pub add_task_bytes_lem :
    (sy : Symbols) (task : ℕ) (m : Mem) {t : Task} {table : Table}
    → AreObjects sy task
    → TableAt sy m table
    → TaskAt sy m task t
    → (m' : Mem) × (add_task_bytes sy task m ≡ ok m')
      × TableAt sy m' (add_task t table)
      × ((b : ℕ)
          → Disjoint (sy.tasks + table.task_nrs % task_max_nrs * task_size) task_size b 1
          → Disjoint sy.task_nrs 8 b 1
          → m' b ≡ m b)
unfolding add_task_bytes
add_task_bytes_lem sy task m {t} {table} objects before source = (
  added objects m table.task_nrs,
  rw before.task_nrs (copied objects m table.task_nrs),
  TableAt-added objects m table.task_nrs refl source before,
  kept objects m table.task_nrs,
)
