-- ===== src/Tests/Kernel.antt =====
-- Boot, memory, clock and traps on concrete values.
use mathlib.Core.Option
use gquuuuuunix.Base.{
  ◌++◌, ℕ, ◌+◌, ◌*◌, ◌%◌, ◌^◌, ◌<◌, ◌≤◌, ◌≡◌, refl, inl, true, false, some, List, [], ◌∷◌, length,
  replicate, get_elem?, arith,
}
use gquuuuuunix.Outcome.{ok}
use gquuuuuunix.Riscv.{w_sepc, w_sstatus, w_sip, r_sip, intr_off, intr_get}
use gquuuuuunix.Cpu.{get_cpuid, push_off, pop_off}
use gquuuuuunix.Atomic.{atomic_store_i32}
use gquuuuuunix.Task.{Task, Image, Table, with_lock, boot_tasks, running}
use gquuuuuunix.Task.Placement.{IsPlaced, boot_tasks_lem}
use gquuuuuunix.Memory.{Mem, copy_chunk, memcpy, strlen}
use gquuuuuunix.Console.Decimal.RoundTrip.{IsDecimal}
use gquuuuuunix.Console.Decimal.Padding.{padded}
use gquuuuuunix.Console.Format.{printed}
use gquuuuuunix.Trap.{line_end, yield_line}
use gquuuuuunix.Trap.Line.{yield_line_lem}
use gquuuuuunix.Memory.Copy.{memcpy_lem}
use gquuuuuunix.Memory.Length.{strlen_lem}
use gquuuuuunix.Time.{FixedPoint, fixed_point_get_integer, get_time_decimal, get_time_decimal_lem}
use gquuuuuunix.Sched.{Hart, yield_in}
use gquuuuuunix.SpinLock.{is_holding_lk, release}
use gquuuuuunix.Sched.System.{at_once}
use gquuuuuunix.Trap.{restore, clear_ssip, Clock, Frame, trap_exit}
use gquuuuuunix.Tests.Data.{hart_of, ready_task}

abbrev image : Image
image = record { dummy_task = 2147487744; task_stack = 2147500032 }

abbrev statics : List Task
statics = ready_task ∷ ready_task ∷ []

abbrev table : Table
table = record { tasks = replicate 64 ready_task; task_nrs = 0 }

boot_tasks_lem_example :
    ((boot_tasks image statics table).task_nrs ≡ length statics)
    × ((j : ℕ) (s : Task)
        → get_elem? statics j ≡ some s
        → (t : Task) × (get_elem? (boot_tasks image statics table).tasks j ≡ some t)
          × IsPlaced image j t)
    × ((j : ℕ)
        → length statics ≤ j
        → get_elem? (boot_tasks image statics table).tasks j
          ≡ Option.map with_lock (get_elem? table.tasks j))
boot_tasks_lem_example = boot_tasks_lem image statics table refl refl (omega arith) (omega arith)

-- Address `a` holds `a % 7`.
abbrev bytes : Mem
bytes a = a % 7

memcpy_lem_example : memcpy 1004 2004 21 bytes ≡ ok (copy_chunk 21 1004 2004 bytes)
memcpy_lem_example = memcpy_lem 1004 2004 21 bytes (inl (omega arith))

-- The byte at 1000 is 6, and the next is 0.
strlen_lem_example : strlen 10 1000 bytes ≡ ok 1
strlen_lem_example =
    strlen_lem 1 10 1000 bytes (omega arith) (omega arith) (λ i lt. ground (arith, lt)) refl

-- 1.5 with the kernel's 32 bits after the point.
abbrev one_half : FixedPoint
one_half = record { data_bits = 6442450944; mantissa_bit = 32 }

get_time_decimal_lem_example :
    let p = 2 ^ one_half.mantissa_bit in
    let value = fixed_point_get_integer one_half * 100000 + get_time_decimal one_half in
    (get_time_decimal one_half < 100000)
    × (value * p ≤ one_half.data_bits * 100000)
    × (one_half.data_bits * 100000 < (value + 1) * p)
get_time_decimal_lem_example = get_time_decimal_lem one_half (omega arith)

-- A timer interrupt has come in supervisor mode: interrupts are off.
abbrev trapped : Hart
trapped = record (hart_of 0) {
  core = record (hart_of 0).core {
    csrs = record (hart_of 0).core.csrs { sstatus = 256 + 32; sepc = 2147483648 };
  };
}

abbrev interrupted : Task
interrupted = record ready_task { state = running }

abbrev clock : Clock
clock = record { gticks = 0; time = record { data_bits = 0; mantissa_bit = 32 } }

-- A task that was switched to again, with its lock held by hart 0.
abbrev resumed : Task
resumed = record interrupted { lk = record { is_locked = 1; cpu = some 0; ops = true } }

abbrev resuming : Hart
resuming = record trapped {
  core = record trapped.core { cpu = record trapped.core.cpu { off_nrs = 1; task = some 0 } };
}

abbrev frame : Frame
frame = record { sepc = 4096; sstatus = 288 }

abbrev returned : Hart
returned = record resuming {
  core = record resuming.core {
    csrs = record resuming.core.csrs { sepc = 4096; sstatus = 288; sip = 0 };
    cpu = record resuming.core.cpu { off_nrs = 0; intr_ena_before = false };
  };
}

trap_exit-resumed : trap_exit at_once frame false resumed resuming ≡ ok (interrupted, returned)
unfolding trap_exit yield_in release is_holding_lk get_cpuid atomic_store_i32 pop_off intr_get
    push_off intr_off restore clear_ssip w_sepc w_sstatus w_sip r_sip
trap_exit-resumed = refl

yield_line_lem_example :
    (secs decimals : List ℕ) × IsDecimal (fixed_point_get_integer one_half) secs
    × IsDecimal (get_time_decimal one_half) decimals
    × (get_time_decimal one_half < 100000)
    × (yield_line one_half
        ≡ printed (
            b'['
            ∷ (padded 5 (fixed_point_get_integer one_half) secs
                ++ b'.' ∷ (padded 5 (get_time_decimal one_half) decimals ++ line_end))))
yield_line_lem_example = yield_line_lem one_half refl (omega arith)
