-- ===== src/Stages/Timer/Storm.antt =====
-- The handler of 02.TimerInterrupt does not take the software interrupt back by which the machine
-- mode announces a tick, so that one announcement is counted again and again.
use gquuuuuunix.Base.{◌*◌, ℕ, zero, suc, ◌+◌, ◌%◌, ◌^◌, ◌<◌, ◌≡◌, refl, ◌∙◌, arith}
use gquuuuuunix.Riscv.{Csrs}
use gquuuuuunix.Trap.{Clock}
use gquuuuuunix.Stages.Timer.{kernel_trap_handler}

-- The handler, `n` times: a trap that is still pending is taken again at once.
pub handled : ℕ → Clock × Csrs → Clock × Csrs
handled zero s = s
handled (suc n) s = handled n (kernel_trap_handler s.0 s.1)

handler_lem : (k : Clock) (c : Csrs) → (kernel_trap_handler k c).1 ≡ c
unfolding kernel_trap_handler
handler_lem k c = refl

handler_counts :
    (k : Clock) (c : Csrs)
    → c.tp ≡ 0
    → c.scause ≡ 9223372036854775809
    → ((kernel_trap_handler k c).0.gticks ≡ (k.gticks + 1) % 2 ^ 64)
      × ((kernel_trap_handler k c).0.time.data_bits ≡ (k.time.data_bits + 262143) % 2 ^ 64)
unfolding kernel_trap_handler
handler_counts k c hart timer = (ground (arith, hart, timer), ground (arith, hart, timer))

-- On hart 0, for counters of 64 bits: after any number of runs of the handler for one announced tick,
-- the hart's registers are as before, the pending interrupt included, a tick has been counted for each
-- run, and the clock has moved on by a tick for each.
pub handled-counts :
    (n : ℕ) (k : Clock) (c : Csrs)
    → c.tp ≡ 0
    → c.scause ≡ 9223372036854775809
    → k.gticks < 2 ^ 64
    → k.time.data_bits < 2 ^ 64
    → ((handled n (k, c)).1 ≡ c)
      × ((handled n (k, c)).0.gticks ≡ (k.gticks + n) % 2 ^ 64)
      × ((handled n (k, c)).0.time.data_bits ≡ (k.time.data_bits + n * 262143) % 2 ^ 64)
unfolding handled kernel_trap_handler
handled-counts zero k c hart timer word word' = (refl, omega (arith, word), omega (arith, word'))
handled-counts (suc n) k c hart timer word word' =
    let (once, once') = handler_counts k c hart timer in
    let small : (kernel_trap_handler k c).0.gticks < 2 ^ 64 = omega (arith, once) in
    let small' : (kernel_trap_handler k c).0.time.data_bits < 2 ^ 64 = omega (arith, once') in
    let rest = handled-counts n (kernel_trap_handler k c).0 c hart timer small small' in
    (rest.0, rest.1 ∙ omega (arith, once), rest.2 ∙ omega (arith, once'))
