-- ===== src/Start.antt =====
-- 03.Scheduler/start.c: what every hart does in machine mode before `mret`.
--
-- The addresses of `kernel_main`, `timer_vec` and `timer_scratch` are the linker's: parameters.
-- The timer's registers are memory-mapped: `mtime` is what the read of `CLINT_MTIME` finds, and the
-- write to `CLINT_MTIMECMP` is part of the result. The address of a row of `timer_scratch` is taken
-- not to wrap around.
use gquuuuuunix.Base.{ℕ, ◌+◌, ◌-◌, ◌*◌, ◌/◌, ◌%◌, ◌^◌, ◌≤◌, ◌<◌, ◌≡◌, refl, bit_and, bit_or, arith}
use gquuuuuunix.Riscv.{
  Csrs, r_mhartid, r_mstatus, w_mstatus, w_mepc, w_satp, w_medeleg, w_mideleg, r_sie, w_sie,
  w_pmpaddr0, w_pmpcfg0, r_mie, w_mie, w_mtvec, w_mscratch, w_tp, not64,
}

abbrev pub clint_mtimecmp : ℕ → ℕ
clint_mtimecmp hartid = 33554432 + 16384 + 8 * hartid

-- What `init_timer` leaves outside the registers: the hart's comparison register and two words of
-- its row of `timer_scratch`.
pub record Timer : Type 0 where
  pub mtimecmp : ℕ
  pub scratch3 : ℕ
  pub scratch4 : ℕ

unfoldable pub init_timer : ℕ → ℕ → ℕ → Csrs → Csrs × Timer
unfolding r_mhartid w_mscratch w_mtvec w_mstatus r_mstatus w_mie r_mie
init_timer mtime timer_scratch timer_vec c =
    let hart_id = r_mhartid c in
    let c1 = w_mscratch (timer_scratch + 40 * hart_id) c in
    let c2 = w_mtvec timer_vec c1 in
    let c3 = w_mstatus (bit_or (r_mstatus c2) 8) c2 in
    (
      w_mie (bit_or (r_mie c3) 128) c3,
      record {
        mtimecmp = (mtime + 10000) % 2 ^ 64;
        scratch3 = clint_mtimecmp hart_id;
        scratch4 = 10000;
      },
    )

-- The registers of `start` before `init_timer`.
unfoldable pub delegate : ℕ → Csrs → Csrs
unfolding r_mstatus w_mstatus w_mepc w_satp w_medeleg w_mideleg w_sie r_sie w_pmpaddr0 w_pmpcfg0
delegate kernel_main c =
    let x = bit_or (bit_and (r_mstatus c) (not64 6144)) 2048 in
    let c1 = w_satp 0 (w_mepc kernel_main (w_mstatus x c)) in
    let c2 = w_mideleg 65535 (w_medeleg 65535 c1) in
    let c3 = w_sie (bit_or (bit_or (bit_or (r_sie c2) 512) 32) 2) c2 in
    w_pmpcfg0 15 (w_pmpaddr0 18014398509481983 c3)

-- `tp` gets the hart's number through an `int`: sign extension of its low 32 bits.
unfoldable pub start : ℕ → ℕ → ℕ → ℕ → Csrs → Csrs × Timer
unfolding init_timer delegate r_mhartid w_tp
start kernel_main mtime timer_scratch timer_vec c =
    let (c1, timer) = init_timer mtime timer_scratch timer_vec (delegate kernel_main c) in
    let id = r_mhartid c1 % 2 ^ 32 in
    (w_tp ((id + (id / 2 ^ 31) * (2 ^ 64 - 2 ^ 32)) % 2 ^ 64) c1, timer)

-- A hart whose number is below 2^31 enters `kernel_main` with that number in `tp`, though `start`
-- passes it through an `int`; the timer's handler finds the hart's own comparison register in the
-- hart's own row of `timer_scratch`, and no row overlaps another's.
pub start-identifies :
    (kernel_main mtime timer_scratch timer_vec : ℕ) (c d : Csrs)
    → c.mhartid < 2 ^ 31
    → c.mhartid < d.mhartid
    → let (c', timer) = start kernel_main mtime timer_scratch timer_vec c in
      let (d', _) = start kernel_main mtime timer_scratch timer_vec d in
      (c'.tp ≡ c.mhartid)
      × (c'.mepc ≡ kernel_main)
      × (c'.mtvec ≡ timer_vec)
      × (timer.scratch3 ≡ clint_mtimecmp c.mhartid)
      × (c'.mscratch + 40 ≤ d'.mscratch)
unfolding start init_timer delegate r_mhartid r_mstatus w_mstatus w_mepc w_satp w_medeleg w_mideleg
    w_sie r_sie w_pmpaddr0 w_pmpcfg0 w_mscratch w_mtvec r_mie w_mie w_tp
start-identifies kernel_main mtime timer_scratch timer_vec c d small other =
    (omega (arith, small), refl, refl, refl, omega (arith, other))
