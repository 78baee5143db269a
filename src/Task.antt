-- ===== src/Task.antt =====
-- 03.Scheduler/include/task.h and lib/task.c: a task, its set-up, and the table of tasks with
-- `addTask` of lib/sched.c and the boot sequence of main.c that fills it.
pub mod Placement
pub mod Bytes
use gquuuuuunix.Base.{ℕ, zero, suc, ◌+◌, ◌*◌, ◌%◌, ◌^◌, List, [], ◌∷◌, map, set}
use gquuuuuunix.Cpu.{Context}
use gquuuuuunix.SpinLock.{SpinLock, init_spin_lock}

pub data TaskState : Type 0 where
  unused used sleeping runnable running zombie : TaskState

-- `struct task_struct`; `pid` is the 32-bit pattern of an `int`.
pub record Task : Type 0 where
  pub pid : ℕ
  pub context : Context
  pub state : TaskState
  pub lk : SpinLock

abbrev pub stack_size : ℕ
stack_size = 4096

abbrev pub task_max_nrs : ℕ
task_max_nrs = 64

-- Addresses that the linker chooses.
pub record Image : Type 0 where
  pub dummy_task : ℕ
  pub task_stack : ℕ

-- `gTasks` and `taskNrs`; the counter is the 64-bit pattern of a `long`, never negative.
pub record Table : Type 0 where
  pub tasks : List Task
  pub task_nrs : ℕ

unfoldable pub init_task : Image → ℕ → Task → ℕ → Task
init_task img task_nrs task pid = record task {
  state = runnable;
  pid = pid;
  context = record task.context {
    ra = img.dummy_task;
    sp = (img.task_stack + task_nrs % task_max_nrs * stack_size + stack_size) % 2 ^ 64;
  };
  lk = init_spin_lock task.lk;
}

-- `memcpy` of the whole struct into the slot; Memory.antt has `memcpy` itself.
unfoldable pub add_task : Task → Table → Table
add_task task table = record {
  tasks = set table.tasks (table.task_nrs % task_max_nrs) task;
  task_nrs = (table.task_nrs + 1) % 2 ^ 64;
}

-- `init_task(&task, pid); addTask(&task);`
unfoldable pub spawn : Image → Task → ℕ → Table → Table
spawn img task pid table = add_task (init_task img table.task_nrs task pid) table

abbrev pub with_lock : Task → Task
with_lock t = record t { lk = init_spin_lock t.lk }

-- `for (i = 0; i < TASK_MAX_NRS; i++) init_spin_lock(&gTasks[i].lk);`
unfoldable pub init_locks : Table → Table
init_locks table = record table { tasks = map with_lock table.tasks }

-- Hart 0's part of `kernel_main`: the locks, then the tasks with pids 0, 1, ….
unfoldable pub spawn_all : Image → ℕ → List Task → Table → Table
spawn_all img pid [] table = table
spawn_all img pid (task ∷ rest) table = spawn_all img (suc pid) rest (spawn img task pid table)

unfoldable pub boot_tasks : Image → List Task → Table → Table
unfolding init_locks spawn_all
boot_tasks img statics table = spawn_all img 0 statics (init_locks table)
