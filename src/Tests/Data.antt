-- ===== src/Tests/Data.antt =====
-- Harts, tasks and locks to try things on.
use gquuuuuunix.Base.{ℕ, false, true, none, ◌+◌}
use gquuuuuunix.Riscv.{Csrs}
use gquuuuuunix.Cpu.{Context, Core}
use gquuuuuunix.SpinLock.{SpinLock}
use gquuuuuunix.Task.{runnable, Task}
use gquuuuuunix.Sched.{Hart}

-- Hart `h` with interrupts enabled in supervisor mode.
abbrev pub csrs_of : ℕ → Csrs
csrs_of h = record {
  mhartid = h;
  mstatus = 0;
  mepc = 0;
  sstatus = 2;
  sip = 2;
  sie = 0;
  mie = 0;
  sepc = 0;
  medeleg = 0;
  mideleg = 0;
  stvec = 0;
  mtvec = 0;
  pmpcfg0 = 0;
  pmpaddr0 = 0;
  pmpaddr1 = 0;
  satp = 0;
  mscratch = 0;
  scause = 9223372036854775809;
  stval = 0;
  mcounteren = 0;
  time = 0;
  tp = h;
}

abbrev pub context_at : ℕ → Context
context_at pc = record {
  ra = pc;
  sp = pc + 4096;
  s0 = 0;
  s1 = 0;
  s2 = 0;
  s3 = 0;
  s4 = 0;
  s5 = 0;
  s6 = 0;
  s7 = 0;
  s8 = 0;
  s9 = 0;
  s10 = 0;
  s11 = 0;
}

abbrev pub core_of : ℕ → Core
core_of h = record {
  csrs = csrs_of h;
  cpu = record { task = none; context = context_at 100; off_nrs = 0; intr_ena_before = false };
}

abbrev pub hart_of : ℕ → Hart
hart_of h = record { core = core_of h; regs = context_at 200 }

abbrev pub open_lock : SpinLock
open_lock = record { is_locked = 0; cpu = none; ops = true }

abbrev pub ready_task : Task
ready_task = record { pid = 0; context = context_at 300; state = runnable; lk = open_lock }
