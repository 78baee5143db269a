-- ===== src/Boot/Ordering.antt =====
-- 03.Scheduler/main.c where memory is not sequentially consistent: the stores by which hart 0 sets the
-- clock and the table of tasks up may be performed later than what follows them in the program, as the
-- RISC-V manual has it for RVWMO.
--
-- They are plain stores. The store of 1 to the start flag is the `sc.w` of `__atomic_store_i32`
-- (include/atomic.h), which has no ordering of its own; `fenced` says whether a fence stands before it,
-- as in `release_lk` of lib/spin_lock.c; in `kernel_main` there is none. Hart 0 reads its own late
-- stores. The set-up counts as two stores, of the clock and of the table.
pub mod Needed
use gquuuuuunix.Base.{ℕ, ◌<◌, ◌≡◌, ◌≢◌, Bool, true, false, List, update}
use gquuuuuunix.Riscv.{w_stvec}
use gquuuuuunix.Task.{Task, Image, boot_tasks}
use gquuuuuunix.Boot.{
  entry, cleared, booting, placed, waiting, in_scheduler, Kernel, zero_clock, branch, at_pc,
}

-- One access to what harts share, or one of hart 0's late stores. The Booleans say whether the clock
-- and the table are yet to be stored; `b` is what is in memory.
pub data Step (fenced : Bool) (n : ℕ) (img : Image) (kernelvec : ℕ) (statics : List Task)
    (b : Kernel) : Bool → Bool → Kernel → Bool → Bool → Type 0 where
  clear :
      {clock table : Bool} (h : ℕ)
      → h < n
      → b.pc h ≡ entry
      → Step fenced n img kernelvec statics b clock table
          (record (at_pc b h cleared) { flag = 0 })
          clock
          table
  vector :
      {clock table : Bool} (h : ℕ)
      → h < n
      → b.pc h ≡ cleared
      → Step fenced n img kernelvec statics b clock table
          (record (at_pc b h (branch (b.csrs h))) {
            csrs = update b.csrs h (w_stvec kernelvec (b.csrs h));
          })
          clock
          table
  place :
      {clock table : Bool} (h : ℕ)
      → h < n
      → b.pc h ≡ booting
      → Step fenced n img kernelvec statics b clock table (at_pc b h placed) true true
  publish :
      {clock table : Bool} (h : ℕ)
      → h < n
      → b.pc h ≡ placed
      → (fenced ≡ true → (clock ≡ false) × (table ≡ false))
      → Step fenced n img kernelvec statics b clock table
          (record (at_pc b h in_scheduler) { flag = 1 })
          clock
          table
  enter :
      {clock table : Bool} (h : ℕ)
      → h < n
      → b.pc h ≡ waiting
      → b.flag ≢ 0
      → Step fenced n img kernelvec statics b clock table (at_pc b h in_scheduler) clock table
  perform_clock :
      {table : Bool}
      → Step fenced n img kernelvec statics b true table
          (record b { clock = zero_clock })
          false
          table
  perform_table :
      {clock : Bool}
      → Step fenced n img kernelvec statics b clock true
          (record b { table = boot_tasks img statics b.table })
          clock
          false

pub data Reach (fenced : Bool) (n : ℕ) (img : Image) (kernelvec : ℕ) (statics : List Task)
    (b : Kernel) : Kernel → Bool → Bool → Type 0 where
  here : Reach fenced n img kernelvec statics b b false false
  later :
      {u v : Kernel} {clock clock' table table' : Bool}
      → Reach fenced n img kernelvec statics b u clock table
      → Step fenced n img kernelvec statics u clock table v clock' table'
      → Reach fenced n img kernelvec statics b v clock' table'
