-- ===== src/Tests/Asm.antt =====
-- The assembly on concrete machines.
use gquuuuuunix.Base.{
  ℕ, ◌+◌, ◌≤◌, ◌<◌, ◌≡◌, ◌≢◌, ◌⊎◌, none, inl, refl, ◌==◌, if◌then◌else◌, update, arith,
}
use gquuuuuunix.Outcome.{Outcome, ok}
use gquuuuuunix.Sched as Sched
use gquuuuuunix.Sched.{Hart}
use gquuuuuunix.Sched.System.{now}
use gquuuuuunix.Trap.{Clock, tick, served, restore, clear_ssip, timer_case, trap_enter}
use gquuuuuunix.Riscv.{r_sepc, r_sstatus, r_scause, r_sip, w_sip, w_sepc, w_sstatus, r_tp, intr_get}
use gquuuuuunix.Start.{clint_mtimecmp, start}
use gquuuuuunix.Asm.{sp, tp, t0, a0, a1, Machine, mret, step, exec}
use gquuuuuunix.Asm.Blocks.{Avoids}
use gquuuuuunix.Asm.Switch.{switch_to, switched_regs, context_at, context_of, switch_to_lem}
use gquuuuuunix.Asm.Timer.{timer_vec}
use gquuuuuunix.Asm.Tick.{IsArmed, timer_ticks}
use gquuuuuunix.Asm.Kernelvec.{kernelvec, entered}
use gquuuuuunix.Asm.Trap.{take_trap, view, serves, trap_goes_on}
use gquuuuuunix.Asm.Entry.{entry}
use gquuuuuunix.Asm.PowerOn.{previous_mode, power_on}
use gquuuuuunix.Tests.Data.{csrs_of, core_of, hart_of}

-- Every word holds the number behind its address; the contexts are at 4096 and 8192.
abbrev switching : Machine
switching = record {
  regs = λ r. if r == a0 then 4096 else if r == a1 then 8192 else r;
  csrs = csrs_of 0;
  mem = λ a. a + 1;
  pc = 0;
}

switch_to_lem_example :
    (m' : Machine) × (exec switch_to switching ≡ ok m')
    × (context_at m'.mem 4096 ≡ context_of switching.regs)
    × (context_of m'.regs ≡ context_at switching.mem 8192)
    × (m'.pc ≡ 8193)
    × ((b : ℕ) → (b < 4096) ⊎ (4208 ≤ b) → m'.mem b ≡ b + 1)
    × ((r : ℕ) → Avoids r switched_regs → m'.regs r ≡ switching.regs r)
    × (m'.csrs ≡ csrs_of 0)
unfolding Sched.switch_to
switch_to_lem_example =
    switch_to_lem switching refl refl (omega arith) (omega arith) (inl (omega arith))

-- Hart 1, with its row of the array at 0x80001000 and its comparison register at 500.
abbrev ticking : Machine
ticking = record {
  regs = λ r. r;
  csrs = record (csrs_of 1) { mscratch = 2147487784; mepc = 600; sip = 0; mstatus = 128 };
  mem = λ a.
      if a == 2147487808
      then clint_mtimecmp 1
      else if a == 2147487816
      then 10000
      else if a == clint_mtimecmp 1
      then 500
      else 0;
  pc = 0;
}

timer_ticks_example :
    (m' : Machine) × (exec timer_vec ticking ≡ ok m')
    × (m'.mem (clint_mtimecmp 1) ≡ 10500)
    × (m'.csrs ≡ record ticking.csrs { sip = 2; mstatus = 136 })
    × (m'.pc ≡ 600)
    × ((r : ℕ) → m'.regs r ≡ r)
    × IsArmed 2147487744 1 m'
    × ((b : ℕ)
        → b ≢ clint_mtimecmp 1
        → (b < 2147487784) ⊎ (2147487808 ≤ b)
        → m'.mem b ≡ ticking.mem b)
timer_ticks_example =
    timer_ticks 2147487744 1 ticking
      (record { few = omega arith; row_aligned = refl; above = omega arith; fits = omega arith })
      (record { row = refl; register = refl; interval = refl })

-- Hart 0 in the scheduler, with interrupts enabled, and a stack from 8192 down.
abbrev scheduling : Machine
scheduling = record {
  regs = λ r. if r == sp then 8192 else if r == tp then 0 else r + 100;
  csrs = csrs_of 0;
  mem = λ a. 0;
  pc = 500;
}

abbrev trapped : Machine
trapped = entered 77 (take_trap 9223372036854775809 scheduling)

-- Code that takes the pending bit back and uses `t0` on the way.
abbrev compiled : Machine → Outcome Machine
compiled m = ok (record m { regs = update m.regs t0 0; csrs = record m.csrs { sip = 0 } })

abbrev handled : Machine
handled = record trapped { regs = update trapped.regs t0 0; csrs = record trapped.csrs { sip = 0 } }

abbrev with_csrs : Machine → Hart
with_csrs m = record (hart_of 0) { core = record (core_of 0) { csrs = view m } }

abbrev clock : Clock
clock = record { gticks = 0; time = record { data_bits = 0; mantissa_bit = 32 } }

trap_enter-trapped :
    trap_enter now none clock (with_csrs trapped)
    ≡ ok (tick (view trapped) clock, served (with_csrs handled))
unfolding trap_enter timer_case tick r_sepc r_sstatus r_scause intr_get restore clear_ssip w_sepc
    w_sstatus w_sip r_sip r_tp
trap_enter-trapped = refl

trap_goes_on_example :
    (m' : Machine) × (exec (kernelvec 77 compiled) (take_trap 9223372036854775809 scheduling)
      ≡ ok m')
    × (m'.pc ≡ 500)
    × ((r : ℕ) → 0 < r → r < 32 → r ≢ tp → m'.regs r ≡ scheduling.regs r)
    × (m'.regs tp ≡ 0)
    × (intr_get m'.csrs ≡ intr_get (csrs_of 0))
    × (m'.mem ≡ handled.mem)
trap_goes_on_example =
    trap_goes_on 77 compiled 9223372036854775809 scheduling handled refl (omega arith) (omega arith)
      refl refl (λ j lt. refl)
      (serves now none clock (tick (view trapped) clock) (with_csrs trapped) (with_csrs handled)
        refl refl trap_enter-trapped)

abbrev starting : ℕ → Machine
starting h = record { regs = λ r. r; csrs = csrs_of h; mem = λ a. 0; pc = 0 }

power_on_example :
    (m1 : Machine) × (exec (entry 2147500032 2147483700 2147483652) (starting 3) ≡ ok m1)
    × (m1.pc ≡ 2147483700)
    × (m1.regs sp ≡ 2147516416)
    × let (c, timer) = start 2147487744 5 2147520000 2147483904 m1.csrs in
      (timer.scratch3 ≡ clint_mtimecmp 3)
      × (previous_mode c.mstatus ≡ 1)
      × (m2 : Machine) × (step mret
            (record { regs = λ r. 0; csrs = c; mem = λ a. 0; pc = 2147483900 })
          ≡ ok m2)
      × (m2.pc ≡ 2147487744)
      × (m2.csrs.tp ≡ 3)
      × (m2.csrs.mscratch ≡ 2147520120)
      × (m2.csrs.mtvec ≡ 2147483904)
      × (m2.csrs.mideleg ≡ 65535)
power_on_example =
    power_on 2147500032 2147483700 2147483652 2147487744 5 2147520000 2147483904 (starting 3)
      (λ r. 0) (λ a. 0) 2147483900 (omega arith) (omega arith)
