-- ===== src/Boot.antt =====
-- 03.Scheduler/main.c: `kernel_main`, which every hart runs from the machine-mode start to the
-- scheduler, as a step relation of all harts on the start flag and the table of tasks.
--
-- A step is one access to what harts share. The lines that hart 0 prints are in Messages. The address
-- of `kernelvec` and the stacks are the linker's; the five tasks of the source are `statics`.
pub mod Order
pub mod Flag
pub mod Release
pub mod World
pub mod Whole
pub mod Ordering
use gquuuuuunix.Base.{ℕ, ◌<◌, ◌≡◌, ◌≢◌, Bool, true, false, List, ◌==◌, if◌then◌else◌, update}
use gquuuuuunix.Riscv.{Csrs, r_tp, w_stvec}
use gquuuuuunix.Task.{Task, Image, Table, boot_tasks}
use gquuuuuunix.Time.{FixedPoint}

-- Where a hart stands.
pub data Pc : Type 0 where
  entry : Pc  -- before `start.val = 0`
  cleared : Pc  -- before `w_stvec`
  booting : Pc  -- hart 0, before it sets the clock, the locks and the tasks up
  placed : Pc  -- hart 0, before `ATOMIC_STORE(&start, 1)`
  waiting : Pc  -- another hart, in `while (ATOMIC_LOAD(&start) == 0);`
  in_scheduler : Pc

pub record Kernel : Type 0 where
  pub flag : ℕ
  pub table : Table
  pub clock : FixedPoint
  pub csrs : ℕ → Csrs
  pub pc : ℕ → Pc

-- `time.data = 0x0; time.mantissa_bit = 32;`
abbrev pub zero_clock : FixedPoint
zero_clock = record { data_bits = 0; mantissa_bit = 32 }

-- The branch on `cpu_id`.
unfoldable pub branch : Csrs → Pc
unfolding r_tp
branch c = if r_tp c == 0 then booting else waiting

abbrev pub at_pc : Kernel → ℕ → Pc → Kernel
at_pc b h p = record b { pc = update b.pc h p }

-- `n` harts take steps.
pub data Step (n : ℕ) (img : Image) (kernelvec : ℕ) (statics : List Task) (b : Kernel)
    : Kernel → Type 0 where
  clear :
      (h : ℕ)
      → h < n
      → b.pc h ≡ entry
      → Step n img kernelvec statics b (record (at_pc b h cleared) { flag = 0 })
  vector :
      (h : ℕ)
      → h < n
      → b.pc h ≡ cleared
      → Step n img kernelvec statics b (record (at_pc b h (branch (b.csrs h))) {
        csrs = update b.csrs h (w_stvec kernelvec (b.csrs h));
      })
  place :
      (h : ℕ)
      → h < n
      → b.pc h ≡ booting
      → Step n img kernelvec statics b
          (record (at_pc b h placed) { clock = zero_clock; table = boot_tasks img statics b.table })
  publish :
      (h : ℕ)
      → h < n
      → b.pc h ≡ placed
      → Step n img kernelvec statics b (record (at_pc b h in_scheduler) { flag = 1 })
  enter :
      (h : ℕ)
      → h < n
      → b.pc h ≡ waiting
      → b.flag ≢ 0
      → Step n img kernelvec statics b (at_pc b h in_scheduler)

-- A load that finds 0 changes nothing, and is no step.
pub data Reach (n : ℕ) (img : Image) (kernelvec : ℕ) (statics : List Task) (b : Kernel)
    : Kernel → Type 0 where
  here : Reach n img kernelvec statics b b
  later :
      {u v : Kernel}
      → Reach n img kernelvec statics b u
      → Step n img kernelvec statics u v
      → Reach n img kernelvec statics b v

-- Power-on: every hart is at the entry with its own number in `tp`; the memory is arbitrary.
pub record IsPowered (b : Kernel) : Type 0 where
  pub at_entry : (h : ℕ) → b.pc h ≡ entry
  pub id : (h : ℕ) → (b.csrs h).tp ≡ h
