-- ===== src/Cpu.antt =====
-- The processor's own part of the kernel (03.Scheduler/include/task.h, lib/task.c): saved contexts,
-- `struct cpu` and the counter of nested interrupt locks.
--
-- A `Core` is one hart as its code sees it: its registers and the entry of `gCpus` that
-- `get_cur_cpu` finds by `tp`. A pointer to a `struct cpu` is that entry's number, a pointer into
-- `gTasks` an index; the null pointer is `none`.
pub mod Nesting
use gquuuuuunix.Base.{
  ℕ, ◌+◌, ◌-◌, ◌%◌, ◌^◌, Bool, true, false, ◌&&◌, ◌||◌, Option, none, some, ◌==◌, leb,
  if◌then◌else◌,
}
use gquuuuuunix.Outcome.{Outcome, ok, panic, panic_if, pop_off_interruptible, pop_off_nrs}
use gquuuuuunix.Riscv.{Csrs, r_tp, intr_on, intr_off, intr_get}

-- `struct context`: what a context switch saves.
pub record Context : Type 0 where
  pub ra : ℕ
  pub sp : ℕ
  pub s0 : ℕ
  pub s1 : ℕ
  pub s2 : ℕ
  pub s3 : ℕ
  pub s4 : ℕ
  pub s5 : ℕ
  pub s6 : ℕ
  pub s7 : ℕ
  pub s8 : ℕ
  pub s9 : ℕ
  pub s10 : ℕ
  pub s11 : ℕ

-- `off_nrs` is the 32-bit pattern of an `int`; `intr_ena_before` is an `int` that only ever holds
-- the truth value of a comparison.
pub record Cpu : Type 0 where
  pub task : Option ℕ
  pub context : Context
  pub off_nrs : ℕ
  pub intr_ena_before : Bool

pub record Core : Type 0 where
  pub csrs : Csrs
  pub cpu : Cpu

unfoldable pub init_context : Context → Context
init_context ctx = record {
  ra = 0;
  sp = 0;
  s0 = 0;
  s1 = 0;
  s2 = 0;
  s3 = 0;
  s4 = 0;
  s5 = 0;
  s6 = 0;
  s7 = 0;
  s8 = 0;
  s9 = 0;
  s10 = 0;
  s11 = 0;
}

unfoldable pub init_cpu : Cpu → Cpu
init_cpu cpu = record cpu { context = init_context cpu.context; task = none }

-- `int id = r_tp();`
unfoldable pub get_cpuid : Core → ℕ
unfolding r_tp
get_cpuid c = r_tp c.csrs % 2 ^ 32

-- The task that this hart runs.
unfoldable pub get_cur_task : Core → Option ℕ
get_cur_task c = c.cpu.task

-- `nrs < 1` of an `int`: zero, or a pattern with the sign bit set.
abbrev pub lt_one : ℕ → Bool
lt_one nrs = nrs == 0 || leb (2 ^ 31) nrs

unfoldable pub push_off : Core → Core
push_off c =
    let old = intr_get c.csrs in
    record {
      csrs = intr_off c.csrs;
      cpu = record c.cpu {
        intr_ena_before = if c.cpu.off_nrs == 0 then old else c.cpu.intr_ena_before;
        off_nrs = (c.cpu.off_nrs + 1) % 2 ^ 32;
      };
    }

unfoldable pub pop_off : Core → Outcome Core
pop_off c = panic_if (intr_get c.csrs) pop_off_interruptible (
    panic_if (lt_one c.cpu.off_nrs) pop_off_nrs (
      let nrs = c.cpu.off_nrs - 1 in
      ok (record {
        csrs = if nrs == 0 && c.cpu.intr_ena_before then intr_on c.csrs else c.csrs;
        cpu = record c.cpu { off_nrs = nrs };
      })))
