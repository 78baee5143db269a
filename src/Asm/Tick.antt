-- ===== src/Asm/Tick.antt =====
-- What start.c sets up and what `timer_vec` makes of it at every interrupt of the timer.
use gquuuuuunix.Base.{ℕ, ◌+◌, ◌*◌, ◌%◌, ◌^◌, ◌≤◌, ◌<◌, ◌≡◌, ◌≢◌, ◌⊎◌, ap, sym, ◌∙◌, arith}
use gquuuuuunix.Outcome.{ok}
use gquuuuuunix.Riscv.{
  Csrs, r_mhartid, r_mstatus, w_mstatus, w_mepc, w_satp, w_medeleg, w_mideleg, r_sie, w_sie,
  w_pmpaddr0, w_pmpcfg0, r_mie, w_mie, w_mtvec, w_mscratch, w_tp,
}
use gquuuuuunix.Start.{clint_mtimecmp, init_timer, delegate, start}
use gquuuuuunix.Asm.{Machine, after_mret, exec}
use gquuuuuunix.Asm.Blocks.{word}
use gquuuuuunix.Asm.Timer.{timer_vec, timer_vec_lem}

-- Hart `h` has its row of `timer_scratch`, and in it the address of its comparison register and the
-- interval.
pub record IsArmed (timer_scratch h : ℕ) (m : Machine) : Type 0 where
  pub row : m.csrs.mscratch ≡ timer_scratch + 40 * h
  pub register : word m.mem (timer_scratch + 40 * h) 3 ≡ clint_mtimecmp h
  pub interval : word m.mem (timer_scratch + 40 * h) 4 ≡ 10000

-- `start` arms the timer: a machine with the registers that it leaves, and the words that it writes.
pub start-IsArmed :
    (kernel_main mtime timer_scratch vec : ℕ) (c : Csrs) (m : Machine)
    → let (c', timer) = start kernel_main mtime timer_scratch vec c in
      m.csrs ≡ c'
      → word m.mem c'.mscratch 3 ≡ timer.scratch3
      → word m.mem c'.mscratch 4 ≡ timer.scratch4
      → IsArmed timer_scratch c.mhartid m
unfolding start init_timer delegate r_mhartid r_mstatus w_mstatus w_mepc w_satp w_medeleg w_mideleg
    w_sie r_sie w_pmpaddr0 w_pmpcfg0 w_mscratch w_mtvec r_mie w_mie w_tp
start-IsArmed kernel_main mtime timer_scratch vec c m regs three four = record {
  row = ap (λ z. z.mscratch) regs;
  register = three;
  interval = four;
}

-- The addresses of the timer: fewer than 4096 harts, and the rows in memory, above the devices.
pub record IsLaidOut (timer_scratch h : ℕ) : Type 0 where
  pub few : h < 4096
  pub row_aligned : timer_scratch % 8 ≡ 0
  pub above : 2147483648 ≤ timer_scratch
  pub fits : timer_scratch + 163840 ≤ 2 ^ 64

-- At every interrupt of an armed timer the hart's comparison register moves on by the interval of
-- start.c, the supervisor gets its software interrupt, the interrupted code goes on with all its
-- registers and as `mret` has it, and the timer is armed as before; no memory changes but the register and the first three
-- words of the hart's row.
pub timer_ticks :
    (timer_scratch h : ℕ) (m : Machine)
    → IsLaidOut timer_scratch h
    → IsArmed timer_scratch h m
    → (m' : Machine) × (exec timer_vec m ≡ ok m')
      × (m'.mem (clint_mtimecmp h) ≡ (m.mem (clint_mtimecmp h) + 10000) % 2 ^ 64)
      × (m'.csrs ≡ after_mret (record m.csrs { sip = 2 }))
      × (m'.pc ≡ m.csrs.mepc)
      × ((r : ℕ) → m'.regs r ≡ m.regs r)
      × IsArmed timer_scratch h m'
      × ((b : ℕ)
          → b ≢ clint_mtimecmp h
          → (b < timer_scratch + 40 * h) ⊎ (timer_scratch + 40 * h + 24 ≤ b)
          → m'.mem b ≡ m.mem b)
timer_ticks timer_scratch h m laid armed =
    let cmp : word m.mem m.csrs.mscratch 3 ≡ clint_mtimecmp h =
      ap (λ a. word m.mem a 3) armed.row ∙ armed.register in
    let step : word m.mem m.csrs.mscratch 4 ≡ 10000 =
      ap (λ a. word m.mem a 4) armed.row ∙ armed.interval in
    let (m', run, ticked, untouched, regs, csrs, back) =
      timer_vec_lem m (omega (arith, armed.row, laid.row_aligned))
        (omega (arith, armed.row, laid.few, laid.fits)) (omega (arith, cmp))
        (omega (arith, cmp, laid.few)) (omega (arith, cmp, armed.row, laid.few, laid.above)) in
    let alone : (b : ℕ)
        → b ≢ clint_mtimecmp h
        → (b < timer_scratch + 40 * h) ⊎ (timer_scratch + 40 * h + 24 ≤ b)
        → m'.mem b ≡ m.mem b =
      λ b ne out. untouched b (ground (arith, ne, cmp)) (omega (arith, out, armed.row)) in
    (
      m',
      run,
      ap m'.mem (sym cmp) ∙ ticked ∙ omega (arith, ap m.mem cmp, step),
      csrs,
      back,
      regs,
      record {
        row = ap (λ z. z.mscratch) csrs ∙ armed.row;
        register =
            alone (timer_scratch + 40 * h + 24) (omega (arith, laid.few, laid.above)) (omega arith)
            ∙ armed.register;
        interval =
            alone (timer_scratch + 40 * h + 32) (omega (arith, laid.few, laid.above)) (omega arith)
            ∙ armed.interval;
      },
      alone,
    )
