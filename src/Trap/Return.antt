-- ===== src/Trap/Return.antt =====
-- What the trap handler leaves behind for the code that it interrupted.
use gquuuuuunix.Base.{
  ℕ, ◌-◌, ◌/◌, ◌^◌, ◌≡◌, ◌≢◌, Bool, false, some, List, bit_and, arith, ap, sym, ◌∙◌,
}
use gquuuuuunix.Bits.{bit_and-two, bit_and_step}
use gquuuuuunix.Outcome.{ok, >>=-eq-ok}
use gquuuuuunix.Riscv.{
  r_sepc, r_sstatus, r_scause, r_sip, w_sip, w_sepc, w_sstatus, intr_get, not64, sstatus_spp,
}
use gquuuuuunix.Atomic.{Try}
use gquuuuuunix.SpinLock.{SpinLock}
use gquuuuuunix.Task.{running, Task}
use gquuuuuunix.Sched.{Hart, yield_out, yield_in}
use gquuuuuunix.Trap.{
  on_csrs, restore, clear_ssip, Clock, tick, Frame, gave_up, timer_case, trap_enter, trap_exit,
}

bit_and-cleared : (a : ℕ) → bit_and (bit_and a (not64 2)) 2 ≡ 0
bit_and-cleared a = omega (
  arith,
  bit_and-two (bit_and a (2 ^ 64 - 1 - 2)),
  bit_and_step a (2 ^ 64 - 1 - 2),
  bit_and_step (a / 2) (2 ^ 63 - 2),
)

-- Whatever happened to the hart while the task was away, if the handler returns then the trap
-- registers are the ones that its frame saved, and the supervisor's software interrupt is no longer
-- pending.
pub trap_exit-restores :
    (tries : List Try) (f : Frame) (ena : Bool) (t t' : Task) (h h' : Hart)
    → trap_exit tries f ena t h ≡ ok (t', h')
    → (h'.core.csrs.sepc ≡ f.sepc)
      × (h'.core.csrs.sstatus ≡ f.sstatus)
      × (bit_and h'.core.csrs.sip 2 ≡ 0)
unfolding trap_exit restore clear_ssip w_sepc w_sstatus r_sip w_sip
trap_exit-restores tries f ena t t' h h' e =
    let (back, ran, ret) = >>=-eq-ok (yield_in tries ena t h) _ e in
    let clear = bit_and-cleared back.1.core.csrs.sip in
    let same : on_csrs (λ c. restore f (clear_ssip c)) back.1 ≡ h' = cc in
    (
      sym (ap (λ z. z.core.csrs.sepc) same),
      sym (ap (λ z. z.core.csrs.sstatus) same),
      ap (λ z. bit_and z.core.csrs.sip 2) (sym same) ∙ clear,
    )

-- A trap from supervisor mode with interrupts off, raised by the timer on a hart whose task is
-- running, gives the turn up as `yield` does, with the trap registers in the frame.
pub trap_enter-gives_up :
    (world : List (SpinLock → SpinLock)) (t t' : Task) (k : Clock) (h h' : Hart) (ena : Bool)
    → bit_and h.core.csrs.sstatus sstatus_spp ≢ 0
    → intr_get h.core.csrs ≡ false
    → h.core.csrs.scause ≡ 9223372036854775809
    → t.state ≡ running
    → yield_out world t h ≡ ok (ena, t', h')
    → trap_enter world (some t) k h
      ≡ ok (
        tick h.core.csrs k,
        gave_up (record { sepc = h.core.csrs.sepc; sstatus = h.core.csrs.sstatus }) ena t' h',
      )
unfolding trap_enter timer_case r_sepc r_sstatus r_scause
trap_enter-gives_up world t t' k h h' ena spp off timer run out =
    ground (arith, spp, off, timer, run, out)
