-- ===== src/Lib.antt =====
-- A verification of the kernel of GQuuuuuunix, a small RISC-V kernel for several harts. The files
-- model the last stage, 03.Scheduler, and what the two stages before it have of their own; paths
-- are from the repository's root.
--
-- The parts and their files:
--   Riscv          03.Scheduler/include/riscv.h: the registers and the interrupt switch;
--                  Riscv/Pages has the macros for page tables
--   Cpu            03.Scheduler/lib/task.c, include/task.h: contexts, `struct cpu`, `push_off`,
--                  `pop_off`, `get_cpuid`, `get_cur_task`
--   Atomic         03.Scheduler/include/atomic.h: exchange, compare-and-exchange, stores, fetches;
--                  Atomic/Reservation has all harts, instruction by instruction, with the
--                  reservations of `lr` and `sc`, and Atomic/Typed the macros
--   SpinLock       03.Scheduler/lib/spin_lock.c on one hart; SpinLock/Protocol has all harts, one
--                  shared access at a time, with the abstract lock in Protocol/Abstract and the
--                  way from the functions to the accesses in Protocol/Code; SpinLock/Ordering has the
--                  accesses where plain stores may be performed late
--   Task           03.Scheduler/lib/task.c `init_task`, lib/sched.c `addTask`, and what hart 0 does
--                  in `kernel_main` of main.c to fill the table of tasks; Task/Bytes has the tasks
--                  as bytes, and `addTask` with its `memcpy`
--   Boot           03.Scheduler/main.c: `kernel_main` on all harts, with the start flag; Boot/World
--                  leads from there to the scheduler's system, and Boot/Whole has both at
--                  once; Boot/Ordering has `kernel_main` where plain stores may be performed late
--   Sched          03.Scheduler/lib/sched.c and lib/switch.s: `scheduler`, `sched`, `yield`, cut at
--                  the context switch; Sched/System has all harts and tasks as a step relation
--   Console        03.Scheduler/lib/console.c: the UART, `puts`, `printf`
--   Messages       03.Scheduler/include/console.h, `PANIC` and `PRINTK`, and what main.c, lib/sched.c
--                  and lib/task.c print
--   Memory         03.Scheduler/lib/string.c: `memcpy`, `strlen`
--   Time, Trap     03.Scheduler/include/fixed_point.h and lib/trap.c: the clock, the trap handler and
--                  its line; Trap/Steps has the handler as runs of the scheduler's system
--   Start          03.Scheduler/start.c: machine mode, the timer and delegation
--   Asm            03.Scheduler/entry.s, lib/switch.s, lib/kvec.s as lists of instructions on one
--                  hart's registers and memory: Asm/Entry, Asm/Switch, Asm/Kernelvec, Asm/Timer;
--                  Asm/Tick joins `timer_vec` to start.c, Asm/Trap `kernelvec` to lib/trap.c, and
--                  Asm/PowerOn entry.s to start.c; Asm/Preempt joins the way
--                  through a trap to the scheduler's system
--   Stages         01.HelloWorld: `printf` of lib/console.c, start.c and main.c; 02.TimerInterrupt: the
--                  handler of lib/trap.c and main.c
--   Outcome        how a function ends: a result, a `PANIC`, an endless wait, undefined behaviour
--   Base, Bits     shared names and the laws of lists, tests and bit operations
--   Tests          concrete states with the theorems applied to them
--
-- How they interact. `acquire` of a lock masks interrupts with `push_off` and spins on `TEST_SET`;
-- `release` stores 0 and undoes the mask with `pop_off`. The scheduler of each hart walks the table,
-- takes each task's lock and, if the task is runnable, switches to it with the lock held; the task
-- gives the lock back, and takes it again in `yield`, which the timer's trap calls. In the scheduler's
-- system (Sched/System) a trap that does not yield is a change of a hart's control registers that
-- leaves `tp` alone, at the places where the hart holds no lock: a step `work` in a task, a step
-- `interrupted` in the scheduler.
--
-- The assembly. `switch_to` is there twice: as the exchange of two contexts in Sched, and as its
-- instructions in Asm/Switch, which compares the two. A trap goes through `kernelvec` to the handler and
-- back with `sret` (Asm/Trap), where the compiled handler is a function of the machine that is taken to
-- do to the control registers what the model of lib/trap.c does, and to keep the stack. Memory there is
-- 64-bit words at aligned addresses; the addresses of the linker and the links of calls are parameters.
--
-- State. A `Core` is one hart's registers and its `struct cpu`; a `Hart` has the saved registers
-- too. Pointers into `gTasks` and `gCpus` are indices. A `u64` is a native natural below 2^64 with
-- `% 2 ^ 64` written out where the code may wrap around, an `int` its 32-bit pattern.
--
-- What other harts do is data: the spin loop takes a list `world` of changes to the lock, one before
-- each try; a store-conditional takes a list of tries that are kept or lost; the UART takes the list
-- of values of its status register. A list that ends first is an endless wait, `hang`. Memory is
-- sequentially consistent but in SpinLock/Ordering
-- and Boot/Ordering.
--
-- Fuel. `find_divisor` has 10 rounds and `put_digits` 11, which an `int` divisor cannot exceed
-- without overflow; `count_digits` has 20, the digits of a 64-bit number; `printf` has one round more
-- than its format has characters; `strlen` takes its rounds as an argument.
--
-- Not modelled: when a line is printed, since the output is no part of the state (what is printed
-- are functions of their own); the files of the earlier stages that the last stage has unchanged
-- (start.c, console.c, riscv.h, fixed_point.h and the assembly of 02.TimerInterrupt, entry.s and the
-- UART of 01.HelloWorld) or extended (riscv.h of 01.HelloWorld); the macros of atomic.h that cannot be
-- expanded, and its 64-bit stores, which do not assemble; the build files.
--
-- Assumed. A task's own code may do anything to its hart's registers but `tp`, and reach `yield` at
-- any time. There are at most `MAX_CPU_NUMS` harts, the rows of `gCpus` and `timer_scratch`: the
-- theorems hold for any number of harts with a row each, and do not say that a row is missing.
pub mod Base
pub mod Bits
pub mod Outcome
pub mod Riscv
pub mod Cpu
pub mod Atomic
pub mod SpinLock
pub mod Task
pub mod Asm
pub mod Sched
pub mod Boot
pub mod Console
pub mod Memory
pub mod Messages
pub mod Time
pub mod Trap
pub mod Start
pub mod Stages
pub mod Tests
