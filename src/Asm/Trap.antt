-- ===== src/Asm/Trap.antt =====
-- A trap from the processor's side to the return: lib/kvec.s around the handler of lib/trap.c.
use Prim.Native.Nat.{min, max}
use gquuuuuunix.Base.{
  ℕ, ◌-◌, ◌*◌, ◌/◌, ◌%◌, ◌^◌, ◌≤◌, ◌<◌, ◌≡◌, ◌≢◌, refl, Bool, true, false, not, Option, none, some,
  List, ◌==◌, if◌then◌else◌, bit_and, bit_or, inl, inr, Bool-cases, subst, ap, sym, ◌∙◌, arith,
}
use gquuuuuunix.Bits.{bit_and_step, bit_and-zero, bit_and-two, bit_and-digit, bit_or-digit}
use gquuuuuunix.Outcome.{Outcome, ok, panic, hang, fault, ◌>>=◌}
use gquuuuuunix.Riscv.{
  Csrs, r_sepc, r_sstatus, r_scause, r_sip, w_sip, w_sepc, w_sstatus, intr_get, not64, sstatus_spp,
}
use gquuuuuunix.Atomic.{Try}
use gquuuuuunix.SpinLock.{SpinLock}
use gquuuuuunix.Task.{Task}
use gquuuuuunix.Sched.{Hart, is_running, yield_out}
use gquuuuuunix.Trap.{
  Clock, tick, Frame, Trapped, served, gave_up, restore, clear_ssip, timer_case, trap_enter,
  trap_exit,
}
use gquuuuuunix.Trap.Return.{trap_exit-restores}
use gquuuuuunix.Asm.{sp, tp, Machine, exec}
use gquuuuuunix.Asm.Blocks.{word}
use gquuuuuunix.Asm.Kernelvec.{kernelvec, entered}
use gquuuuuunix.Asm.Kernelvec.Return.{kernelvec_lem}

-- What the processor does at a trap from supervisor mode: the previous mode is the supervisor's (bit
-- 8), the previous interrupt enable (bit 5) is the enable (bit 1), and interrupts are off.
abbrev pub take_trap : ℕ → Machine → Machine
take_trap cause m =
    let kept = bit_and m.csrs.sstatus (not64 290) in
    let enable = if intr_get m.csrs then 288 else 256 in
    record m {
      csrs = record m.csrs { sepc = m.pc; scause = cause; sstatus = bit_or kept enable };
      pc = m.csrs.stvec;
    }

-- The control registers as the functions of the kernel see them.
abbrev pub view : Machine → Csrs
view m = record m.csrs { tp = m.regs tp }

-- From the registers `c` the handler comes to its end with the registers `c'`: it serves the trap, or it
-- gives the turn up and returns after the task was switched to again, on any hart.
pub data Handles (c c' : Csrs) : Type 0 where
  serves :
      (world : List (SpinLock → SpinLock)) (current : Option Task) (k k' : Clock) (h h' : Hart)
      → h.core.csrs ≡ c
      → h'.core.csrs ≡ c'
      → trap_enter world current k h ≡ ok (k', served h')
      → Handles c c'
  comes_back :
      (world : List (SpinLock → SpinLock)) (current : Option Task) (k k' : Clock)
      (h h1 h2 h' : Hart) (f : Frame) (ena ena' : Bool) (t t2 t' : Task) (tries : List Try)
      → h.core.csrs ≡ c
      → h'.core.csrs ≡ c'
      → trap_enter world current k h ≡ ok (k', gave_up f ena t h1)
      → trap_exit tries f ena' t2 h2 ≡ ok (t', h')
      → Handles c c'

-- A served trap, or a frame, has the address and the `sstatus` that the trap left.
abbrev Keeps : ℕ → ℕ → Outcome (Clock × Trapped) → Type 0
Keeps pc status (ok (_, served h)) = (h.core.csrs.sepc ≡ pc) × (h.core.csrs.sstatus ≡ status)
Keeps pc status (ok (_, gave_up f _ _ _)) = (f.sepc ≡ pc) × (f.sstatus ≡ status)
Keeps pc status _ = Unit {0}

if-Keeps :
    (pc status : ℕ) (b : Bool) (x y : Outcome (Clock × Trapped))
    → Keeps pc status x
    → Keeps pc status y
    → Keeps pc status (if b then x else y)
if-Keeps pc status true x y p q = p
if-Keeps pc status false x y p q = q

give_up-Keeps :
    (k : Clock) (f : Frame) (o : Outcome (Bool × Task × Hart))
    → Keeps f.sepc f.sstatus
        (do out ← (do (ena, t', h') ← o; ok (gave_up f ena t' h')); ok (k, out))
give_up-Keeps k f (ok (ena, t', h')) = (refl, refl)
give_up-Keeps k f (panic p) = tt
give_up-Keeps k f hang = tt
give_up-Keeps k f fault = tt

timer_case-Keeps :
    (world : List (SpinLock → SpinLock)) (current : Option Task) (k : Clock) (f : Frame) (h : Hart)
    → Keeps f.sepc f.sstatus (do out ← timer_case world f current h; ok (k, out))
unfolding timer_case restore clear_ssip w_sepc w_sstatus w_sip r_sip
timer_case-Keeps world none k f h = (refl, refl)
timer_case-Keeps world (some t) k f h = elim (Bool-cases (is_running t.state)) [
  | inl e ↦ rw e (give_up-Keeps k f (yield_out world t h))
  | inr e ↦ rw e (refl, refl)
]

trap_enter-Keeps :
    (world : List (SpinLock → SpinLock)) (current : Option Task) (k : Clock) (h : Hart)
    → Keeps h.core.csrs.sepc h.core.csrs.sstatus (trap_enter world current k h)
unfolding trap_enter restore r_sepc r_sstatus r_scause w_sepc w_sstatus
trap_enter-Keeps world current k h =
    let c = h.core.csrs in
    let f : Frame = record { sepc = c.sepc; sstatus = c.sstatus } in
    if-Keeps c.sepc c.sstatus (bit_and c.sstatus sstatus_spp == 0) _ _ tt (
      if-Keeps c.sepc c.sstatus (intr_get c) _ _ tt (
        if-Keeps c.sepc c.sstatus (c.scause == 9223372036854775809) _ _
          (timer_case-Keeps world current (tick c k) f h) (refl, refl)))

Handles-keeps : {c c' : Csrs} → Handles c c' → (c'.sepc ≡ c.sepc) × (c'.sstatus ≡ c.sstatus)
Handles-keeps (serves world current k k' h h' at to run) =
    let (pc, status) =
      subst (Keeps h.core.csrs.sepc h.core.csrs.sstatus) run (trap_enter-Keeps world current k h) in
    (
      sym (ap (λ z. z.sepc) to) ∙ pc ∙ ap (λ z. z.sepc) at,
      sym (ap (λ z. z.sstatus) to) ∙ status ∙ ap (λ z. z.sstatus) at,
    )
Handles-keeps (comes_back world current k k' h h1 h2 h' f ena ena' t t2 t' tries at to run ret) =
    let (pc, status) =
      subst (Keeps h.core.csrs.sepc h.core.csrs.sstatus) run (trap_enter-Keeps world current k h) in
    let (pc', status', _) = trap_exit-restores tries f ena' t2 t' h2 h' ret in
    (
      sym (ap (λ z. z.sepc) to) ∙ pc' ∙ pc ∙ ap (λ z. z.sepc) at,
      sym (ap (λ z. z.sstatus) to) ∙ status' ∙ status ∙ ap (λ z. z.sstatus) at,
    )

-- `sstatus` behind a trap, by the interrupt enable before it, and behind the `sret`.
abbrev pub status_in : Bool → ℕ → ℕ
status_in on s = bit_or (bit_and s (not64 290)) (if on then 288 else 256)

abbrev status_out : ℕ → ℕ
status_out s = bit_or (bit_and s (not64 290)) (if bit_and s 32 == 0 then 32 else 34)

bit_and-thirty_two : (a : ℕ) → bit_and a 32 ≡ a / 32 % 2 * 32
bit_and-thirty_two a = omega (
  arith,
  bit_and_step a 32,
  bit_and_step (a / 2) 16,
  bit_and_step (a / 2 / 2) 8,
  bit_and_step (a / 2 / 2 / 2) 4,
  bit_and_step (a / 2 / 2 / 2 / 2) 2,
  bit_and_step (a / 2 / 2 / 2 / 2 / 2) 1,
  bit_and-zero (a / 2 / 2 / 2 / 2 / 2 / 2),
)

min-zero : (a : ℕ) → min a 0 ≡ 0
min-zero a = omega arith

masked_digit : (s : ℕ) → max (min (s / 32 % 2) (not64 290 / 32 % 2)) 0 ≡ 0
masked_digit s = ap (λ d. max d 0) (min-zero (s / 32 % 2))

status_in-enable : (on : Bool) (s : ℕ) → bit_and (status_in on s) 32 ≡ (if on then 32 else 0)
status_in-enable true s =
    let high : max (bit_and s (not64 290) / 32 % 2) 1 ≡ 1 = omega arith in
    bit_and-thirty_two (status_in true s)
    ∙ ap (λ d. d * 32) (bit_or-digit 5 (bit_and s (not64 290)) 288 ∙ high)
status_in-enable false s =
    bit_and-thirty_two (status_in false s)
    ∙ ap (λ d. d * 32)
        (bit_or-digit 5 (bit_and s (not64 290)) 256
          ∙ ap (λ d. max d 0) (bit_and-digit 5 s (not64 290))
          ∙ masked_digit s)

pub enable-digit :
    (s enable : ℕ) → bit_and (bit_or (bit_and s (not64 290)) enable) 2 ≡ enable / 2 % 2 * 2
enable-digit s enable =
    let low : max 0 (enable / 2 % 2) ≡ enable / 2 % 2 = omega arith in
    bit_and-two (bit_or (bit_and s (not64 290)) enable)
    ∙ ap (λ d. d * 2)
        (bit_or-digit 1 (bit_and s (not64 290)) enable
          ∙ ap (λ d. max d (enable / 2 % 2)) (bit_and-digit 1 s (not64 290) ∙ min-zero (s / 2 % 2))
          ∙ low)

status_out-enable : (s : ℕ) → bit_and (status_out s) 2 ≡ (if bit_and s 32 == 0 then 0 else 2)
status_out-enable s = ground (arith, enable-digit s 32, enable-digit s 34)

-- The enable comes through a trap and the `sret` unchanged.
status_through : (on : Bool) (s : ℕ) → not (bit_and (status_out (status_in on s)) 2 == 0) ≡ on
status_through true s = rw (status_out-enable (status_in true s), status_in-enable true s) refl
status_through false s = rw (status_out-enable (status_in false s), status_in-enable false s) refl

module _ (link : ℕ) (handler : Machine → Outcome Machine) (cause : ℕ) (m m2 : Machine)
    (al : m.regs sp % 8 ≡ 0) (room : 256 ≤ m.regs sp) (fits : m.regs sp < 2 ^ 64)
    (called : handler (entered link (take_trap cause m)) ≡ ok m2)
    (same_sp : m2.regs sp ≡ m.regs sp - 256)
    (kept : (j : ℕ)
      → j < 31
      → word m2.mem (m.regs sp - 256) j
        ≡ word (entered link (take_trap cause m)).mem (m.regs sp - 256) j)
    (handles : Handles (view (entered link (take_trap cause m))) (view m2)) where
  -- From the trap to the `sret`: with 256 bytes of aligned stack below `sp`, and a compiled handler that
  -- does to the control registers what lib/trap.c does, served or with the turn given up and taken up
  -- again on any hart, and returns with `sp` and the saved words as it got them, the interrupted code
  -- goes on where it was, with `x1` to `x31` as they were but for `tp`, which is that of the hart, and
  -- with interrupts enabled exactly if they were.
  pub trap_goes_on :
      (m' : Machine) × (exec (kernelvec link handler) (take_trap cause m) ≡ ok m')
      × (m'.pc ≡ m.pc)
      × ((r : ℕ) → 0 < r → r < 32 → r ≢ tp → m'.regs r ≡ m.regs r)
      × (m'.regs tp ≡ m2.regs tp)
      × (intr_get m'.csrs ≡ intr_get m.csrs)
      × (m'.mem ≡ m2.mem)
  unfolding intr_get r_sstatus
  trap_goes_on =
      let (m', run, regs, hart, pc, mem, csrs) =
        kernelvec_lem link handler (take_trap cause m) m2 al room fits called same_sp kept in
      let (sepc, status) = Handles-keeps handles in
      (
        m',
        run,
        pc ∙ sepc,
        regs,
        hart,
        ap (λ c. not (bit_and c.sstatus 2 == 0)) csrs
            ∙ ap (λ s. not (bit_and (status_out s) 2 == 0)) status
            ∙ status_through (intr_get m.csrs) m.csrs.sstatus,
        mem,
      )
