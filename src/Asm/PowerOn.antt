-- ===== src/Asm/PowerOn.antt =====
-- From 03.Scheduler/entry.s through start.c to `kernel_main`.
use Prim.Native.Nat.{min, max}
use gquuuuuunix.Base.{ℕ, ◌+◌, ◌*◌, ◌/◌, ◌%◌, ◌^◌, ◌<◌, ◌≡◌, refl, bit_and, bit_or, ap, ◌∙◌, arith}
use gquuuuuunix.Bits.{bit_and-digit, bit_or-digit}
use gquuuuuunix.Outcome.{ok}
use gquuuuuunix.Riscv.{
  r_mhartid, r_mstatus, w_mstatus, w_mepc, w_satp, w_medeleg, w_mideleg, r_sie, w_sie, w_pmpaddr0,
  w_pmpcfg0, r_mie, w_mie, w_mtvec, w_mscratch, w_tp, not64,
}
use gquuuuuunix.Task.{stack_size}
use gquuuuuunix.Start.{clint_mtimecmp, init_timer, delegate, start}
use gquuuuuunix.Asm.{sp, Machine, mret, step, exec}
use gquuuuuunix.Asm.Entry.{entry}

-- The previous mode (bits 12 and 11), which `mret` goes to; the supervisor's is 1.
abbrev pub previous_mode : ℕ → ℕ
previous_mode status = status / 2 ^ 11 % 2 + 2 * (status / 2 ^ 12 % 2)

-- What `start` makes of `mstatus`.
abbrev started_status : ℕ → ℕ
started_status s = bit_or (bit_or (bit_and s (not64 6144)) 2048) 8

no_digit : (a : ℕ) → max (min a 0) 0 ≡ 0
no_digit a = omega arith

one_digit : (a : ℕ) → max (max (min a 0) 1) 0 ≡ 1
one_digit a = omega arith

to_supervisor : (s : ℕ) → previous_mode (started_status s) ≡ 1
to_supervisor s =
    let x = bit_and s (not64 6144) in
    let low : started_status s / 2 ^ 11 % 2 ≡ 1 =
      bit_or-digit 11 (bit_or x 2048) 8
      ∙ ap (λ d. max d 0) (bit_or-digit 11 x 2048)
      ∙ ap (λ d. max (max d 1) 0) (bit_and-digit 11 s (not64 6144))
      ∙ one_digit (s / 2 ^ 11 % 2) in
    let high : started_status s / 2 ^ 12 % 2 ≡ 0 =
      bit_or-digit 12 (bit_or x 2048) 8
      ∙ ap (λ d. max d 0) (bit_or-digit 12 x 2048)
      ∙ ap (λ d. max (max d 0) 0) (bit_and-digit 12 s (not64 6144))
      ∙ ap (λ d. max d 0) (no_digit (s / 2 ^ 12 % 2)) in
    omega (arith, low, high)

-- A hart whose number is below 2^31, on a stack array that does not wrap around, comes from the entry to
-- `start` with the end of its own stack in `sp`; and from the control registers that `start` leaves, whatever
-- the others and memory are by then, `mret` goes in supervisor mode to `kernel_main`, with the hart's number in `tp`, its row of
-- `timer_scratch` in `mscratch`, its comparison register in the row, and the timer's handler and the
-- delegation of traps in place.
pub power_on :
    (kstack start_at link kernel_main mtime timer_scratch vec : ℕ) (m : Machine) (regs mem : ℕ → ℕ)
    (at_mret : ℕ)
    → m.csrs.mhartid < 2 ^ 31
    → kstack + stack_size * (m.csrs.mhartid + 1) < 2 ^ 64
    → (m1 : Machine) × (exec (entry kstack start_at link) m ≡ ok m1)
      × (m1.pc ≡ start_at)
      × (m1.regs sp ≡ kstack + stack_size * (m.csrs.mhartid + 1))
      × let (c, timer) = start kernel_main mtime timer_scratch vec m1.csrs in
        (timer.scratch3 ≡ clint_mtimecmp m.csrs.mhartid)
        × (previous_mode c.mstatus ≡ 1)
        × (m2 : Machine) × (step mret (record { regs = regs; csrs = c; mem = mem; pc = at_mret })
            ≡ ok m2)
        × (m2.pc ≡ kernel_main)
        × (m2.csrs.tp ≡ m.csrs.mhartid)
        × (m2.csrs.mscratch ≡ timer_scratch + 40 * m.csrs.mhartid)
        × (m2.csrs.mtvec ≡ vec)
        × (m2.csrs.mideleg ≡ 65535)
unfolding entry exec step start init_timer delegate r_mhartid r_mstatus w_mstatus w_mepc w_satp
    w_medeleg w_mideleg w_sie r_sie w_pmpaddr0 w_pmpcfg0 w_mscratch w_mtvec r_mie w_mie w_tp
power_on kstack start_at link kernel_main mtime timer_scratch vec m regs mem at_mret few fits = (
  _,
  refl,
  refl,
  omega (arith, few, fits),
  (refl, to_supervisor m.csrs.mstatus, _, refl, refl, omega (arith, few), refl, refl, refl),
)
