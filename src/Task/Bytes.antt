-- ===== src/Task/Bytes.antt =====
-- How a task and the table of tasks lie in memory (03.Scheduler/include/task.h, include/spin_lock.h),
-- and `addTask` of lib/sched.c with the `memcpy` that it calls, byte by byte.
--
-- Memory is little-endian. A `struct task_struct` takes 168 bytes: `pid` at 0, the fourteen registers
-- of the context from 8, `state` at 120 and the lock from 128, with its word, the pointer to the owner
-- and three pointers to functions. A `struct cpu` takes 128.
pub mod Layout
pub mod Add
use gquuuuuunix.Base.{
  ℕ, ◌+◌, ◌*◌, ◌/◌, ◌%◌, ◌^◌, ◌<◌, ◌≡◌, ◌-◌, true, Option, none, some, get_elem?, ltb, leb, ◌&&◌,
  if◌then◌else◌,
}
use gquuuuuunix.Outcome.{Outcome}
use gquuuuuunix.Memory.{Mem, memcpy}
use gquuuuuunix.Cpu.{Context}
use gquuuuuunix.SpinLock.{SpinLock}
use gquuuuuunix.Task.{
  TaskState, unused, used, sleeping, runnable, running, zombie, Task, Table, task_max_nrs,
}

-- Where the linker puts the global objects, and the functions that `init_spin_lock` stores.
pub record Symbols : Type 0 where
  pub tasks : ℕ
  pub task_nrs : ℕ
  pub cpus : ℕ
  pub acquire : ℕ
  pub release : ℕ
  pub is_holding : ℕ

abbrev pub task_size : ℕ
task_size = 168

abbrev pub cpu_size : ℕ
cpu_size = 128

-- `enum taskstate`.
abbrev pub state_code : TaskState → ℕ
state_code unused = 0
state_code used = 1
state_code sleeping = 2
state_code runnable = 3
state_code running = 4
state_code zombie = 5

abbrev pub cpu_pointer : Symbols → Option ℕ → ℕ
cpu_pointer sy none = 0
cpu_pointer sy (some i) = sy.cpus + i * cpu_size

abbrev pub load32 : Mem → ℕ → ℕ
load32 m a = m a + 2 ^ 8 * m (a + 1) + 2 ^ 16 * m (a + 2) + 2 ^ 24 * m (a + 3)

abbrev pub load64 : Mem → ℕ → ℕ
load64 m a = load32 m a + 2 ^ 32 * load32 m (a + 4)

abbrev pub store64 : ℕ → ℕ → Mem → Mem
store64 a v m b = if leb a b && ltb b (a + 8) then v / 2 ^ (8 * (b - a)) % 256 else m b

pub record ContextAt (m : Mem) (a : ℕ) (c : Context) : Type 0 where
  pub ra : load64 m a ≡ c.ra
  pub sp : load64 m (a + 8) ≡ c.sp
  pub s0 : load64 m (a + 16) ≡ c.s0
  pub s1 : load64 m (a + 24) ≡ c.s1
  pub s2 : load64 m (a + 32) ≡ c.s2
  pub s3 : load64 m (a + 40) ≡ c.s3
  pub s4 : load64 m (a + 48) ≡ c.s4
  pub s5 : load64 m (a + 56) ≡ c.s5
  pub s6 : load64 m (a + 64) ≡ c.s6
  pub s7 : load64 m (a + 72) ≡ c.s7
  pub s8 : load64 m (a + 80) ≡ c.s8
  pub s9 : load64 m (a + 88) ≡ c.s9
  pub s10 : load64 m (a + 96) ≡ c.s10
  pub s11 : load64 m (a + 104) ≡ c.s11

pub record LockAt (sy : Symbols) (m : Mem) (a : ℕ) (lk : SpinLock) : Type 0 where
  pub is_locked : load32 m a ≡ lk.is_locked
  pub cpu : load64 m (a + 8) ≡ cpu_pointer sy lk.cpu
  pub acquire : lk.ops ≡ true → load64 m (a + 16) ≡ sy.acquire
  pub release : lk.ops ≡ true → load64 m (a + 24) ≡ sy.release
  pub is_holding : lk.ops ≡ true → load64 m (a + 32) ≡ sy.is_holding

-- The struct at address `a` is the task `t`.
pub record TaskAt (sy : Symbols) (m : Mem) (a : ℕ) (t : Task) : Type 0 where
  pub pid : load32 m a ≡ t.pid
  pub context : ContextAt m (a + 8) t.context
  pub state : load32 m (a + 120) ≡ state_code t.state
  pub lk : LockAt sy m (a + 128) t.lk

-- `gTasks` and `taskNrs` are the table.
pub record TableAt (sy : Symbols) (m : Mem) (table : Table) : Type 0 where
  pub tasks :
      (i : ℕ) (t : Task)
      → i < task_max_nrs
      → get_elem? table.tasks i ≡ some t
      → TaskAt sy m (sy.tasks + i * task_size) t
  pub task_nrs : load64 m sy.task_nrs ≡ table.task_nrs

-- `memcpy(&gTasks[taskNrs++ % TASK_MAX_NRS], task, sizeof(struct task_struct));`
unfoldable pub add_task_bytes : Symbols → ℕ → Mem → Outcome Mem
add_task_bytes sy task m =
    let nrs = load64 m sy.task_nrs in
    memcpy (sy.tasks + nrs % task_max_nrs * task_size) task task_size
      (store64 sy.task_nrs ((nrs + 1) % 2 ^ 64) m)
