-- ===== src/Asm/Preempt.antt =====
-- A task that the timer interrupts, from the trap on one hart to its next turn on any: the assembly, the
-- handler and the scheduler together.
use Prim.Native.Nat.{min, max}
use gquuuuuunix.Base.{
  ℕ, ◌-◌, ◌/◌, ◌%◌, ◌^◌, ◌≤◌, ◌<◌, ◌≡◌, ◌≢◌, refl, true, false, not, some, bit_and, bit_or, Bool,
  ◌==◌, ap, subst, ==_refl, sym, ◌∙◌, arith,
}
use gquuuuuunix.Outcome.{Outcome, ok}
use gquuuuuunix.Riscv.{Csrs, intr_get, r_sstatus, not64, sstatus_spp}
use gquuuuuunix.Bits.{bit_and-digit, bit_or-digit, bit_or-lt, bit_and-lt}
use gquuuuuunix.Cpu.{get_cpuid}
use gquuuuuunix.Task.{Task}
use gquuuuuunix.Sched.{Hart, yield_out}
use gquuuuuunix.Sched.System.{World, entering, user, now, at_once, moved}
use gquuuuuunix.Sched.System.Safety.{IsBooted, Reach, here, later, Reach-Inv}
use gquuuuuunix.Trap.{Clock, Frame, tick, gave_up, trap_enter, trap_exit}
use gquuuuuunix.Trap.Steps.{IsTrap, timer_cause, trapped, given_up, enters, yields, user_return}
use gquuuuuunix.Asm.{sp, tp, Machine, exec}
use gquuuuuunix.Asm.Blocks.{word}
use gquuuuuunix.Asm.Kernelvec.{kernelvec, entered}
use gquuuuuunix.Asm.Trap.{
  take_trap, view, Handles, comes_back, status_in, enable-digit, trap_goes_on,
}

supervisor_digit :
    (s enable : ℕ) → enable / 2 ^ 8 % 2 ≡ 1 → bit_and (bit_or s enable) sstatus_spp ≢ 0
supervisor_digit s enable one none =
    let set : bit_and (bit_or s enable) 256 / 2 ^ 8 % 2 ≡ 1 =
      bit_and-digit 8 (bit_or s enable) 256
      ∙ ap (λ d. min d 1) (bit_or-digit 8 s enable ∙ ap (max (s / 2 ^ 8 % 2)) one)
      ∙ omega arith in
    absurd (omega (arith, set, none))

status_in-lt : (on : Bool) (s : ℕ) → s < 2 ^ 64 → status_in on s < 2 ^ 64
status_in-lt true s h =
    bit_or-lt 64 (bit_and s (not64 290)) 288 (bit_and-lt 64 s (not64 290) h) (omega arith)
status_in-lt false s h =
    bit_or-lt 64 (bit_and s (not64 290)) 256 (bit_and-lt 64 s (not64 290) h) (omega arith)

status_in-supervisor : (on : Bool) (s : ℕ) → bit_and (status_in on s) sstatus_spp ≢ 0
status_in-supervisor true s = supervisor_digit (bit_and s (not64 290)) 288 refl
status_in-supervisor false s = supervisor_digit (bit_and s (not64 290)) 256 refl

status_in-masked : (on : Bool) (s : ℕ) → not (bit_and (status_in on s) 2 == 0) ≡ false
status_in-masked true s = rw (enable-digit s 288) refl
status_in-masked false s = rw (enable-digit s 256) refl

-- What the handler finds in the control registers is a trap, for a machine whose `tp` is the hart's.
pub take_trap-IsTrap :
    (link : ℕ) (m : Machine) (hart : Csrs)
    → m.regs tp ≡ hart.tp
    → m.csrs.sstatus < 2 ^ 64
    → IsTrap hart (view (entered link (take_trap timer_cause m)))
unfolding intr_get r_sstatus
take_trap-IsTrap link m hart same_tp fits = record {
  same = same_tp;
  fits = status_in-lt (intr_get m.csrs) m.csrs.sstatus fits;
  from_supervisor = status_in-supervisor (intr_get m.csrs) m.csrs.sstatus;
  masked = status_in-masked (intr_get m.csrs) m.csrs.sstatus;
}

pub Reach-Reach : {n : ℕ} {u v w : World} → Reach n u v → Reach n v w → Reach n u w
Reach-Reach r here = r
Reach-Reach r (later r' st) = later (Reach-Reach r r') st

-- The machine in which the handler is called, at the timer's interrupt of `m`.
abbrev pub called_in : ℕ → Machine → Machine
called_in link m = entered link (take_trap timer_cause m)

-- Its trap registers, as the handler keeps them.
abbrev pub frame_of : ℕ → Machine → Frame
frame_of link m = let c = view (called_in link m) in record { sepc = c.sepc; sstatus = c.sstatus }

module _ {n : ℕ} {w0 w w' : World} (b : IsBooted n w0) (r : Reach n w0 w) (h h' i : ℕ) (lt : h < n)
    (lt' : h' < n) (link : ℕ) (handler : Machine → Outcome Machine) (m m2 : Machine) (k : Clock)
    (e : Bool) (t : Task) (x : Hart) where
  -- In any state `w` that booted harts reach, let the timer interrupt the machine `m` of hart `h`, with
  -- the hart's `tp`, a 64-bit `sstatus` and 256 bytes of aligned stack below `sp`, in the code of task
  -- `i`, and let `yield` get as far as the switch. Then the handler counts the tick and gives the turn up
  -- there, which is a run of the scheduler's system from `w`. Let any run go on from the state that this
  -- leaves, to a state `w'` in which hart `h'` takes the task up again. Then the rest of the handler
  -- returns, which is a run from `w'` to the task's code. And if the compiled handler ends with the
  -- control registers that it leaves, and with `sp` and the saved words of the stack as it got them, then
  -- the machine goes on where it was interrupted, with `x1` to `x31` as they were but for `tp`, which is
  -- that of hart `h'`, and with interrupts enabled exactly if they were.
  pub preempted_goes_on :
      m.regs tp ≡ (w.harts h).core.csrs.tp
      → m.csrs.sstatus < 2 ^ 64
      → w.pc h ≡ user i
      → yield_out now (w.tasks i) (trapped (view (called_in link m)) (w.harts h)) ≡ ok (e, t, x)
      → Reach n (given_up w h i e t x) w'
      → w'.pc h' ≡ entering i
      → w'.started i ≡ true
      → m.regs sp % 8 ≡ 0
      → 256 ≤ m.regs sp
      → m.regs sp < 2 ^ 64
      → handler (called_in link m) ≡ ok m2
      → m2.regs sp ≡ m.regs sp - 256
      → ((j : ℕ)
          → j < 31
          → word m2.mem (m.regs sp - 256) j ≡ word (called_in link m).mem (m.regs sp - 256) j)
      → ((t' : Task) (x' : Hart)
          → trap_exit at_once (frame_of link m) (w'.ena i) (w'.tasks i) (w'.harts h') ≡ ok (t', x')
          → view m2 ≡ x'.core.csrs)
      → (trap_enter now (some (w.tasks i)) k (trapped (view (called_in link m)) (w.harts h))
          ≡ ok (tick (view (called_in link m)) k, gave_up (frame_of link m) e t x))
        × Reach n w (given_up w h i e t x)
        × (t' : Task) × (x' : Hart) × (trap_exit at_once
              (frame_of link m)
              (w'.ena i)
              (w'.tasks i)
              (w'.harts h')
            ≡ ok (t', x'))
        × Reach n w' (moved w' h' i t' x' (user i))
        × (get_cpuid x'.core ≡ h')
        × (m' : Machine) × (exec (kernelvec link handler) (take_trap timer_cause m) ≡ ok m')
        × (m'.pc ≡ m.pc)
        × ((q : ℕ) → 0 < q → q < 32 → q ≢ tp → m'.regs q ≡ m.regs q)
        × (m'.regs tp ≡ x'.core.csrs.tp)
        × (intr_get m'.csrs ≡ intr_get m.csrs)
  preempted_goes_on same_tp fits64 place out goes_on place' old al room fits called same_sp kept
        compiled =
      let c = view (called_in link m) in
      let trap = take_trap-IsTrap link m (w.harts h).core.csrs same_tp fits64 in
      let run = enters b r h lt c i k trap place refl out in
      let given = yields b r h lt c i trap place out in
      let r' = Reach-Reach r (Reach-Reach given goes_on) in
      let (t', x', ret, _, _, _, back_in) =
        user_return b r' h' lt' (frame_of link m) i trap.fits place' old in
      let same = compiled t' x' ret in
      let handles : Handles c (view m2) =
        comes_back now (some (w.tasks i)) k (tick c k) (trapped c (w.harts h)) x (w'.harts h') x'
          (frame_of link m) e (w'.ena i) t (w'.tasks i) t' at_once refl (sym same) run ret in
      let (m', goes, pc, regs, hart, ena, _) =
        trap_goes_on link handler timer_cause m m2 al room fits called same_sp kept handles in
      let in_code = Reach-Inv b (Reach-Reach r' back_in) in
      let at_x : (moved w' h' i t' x' (user i)).harts h' ≡ x' = rw (==_refl h') refl in
      (
        run,
        given,
        t',
        x',
        ret,
        back_in,
        subst (λ z. get_cpuid z.core ≡ h') at_x (in_code.hart h' lt').id,
        m',
        goes,
        pc,
        regs,
        hart ∙ ap (λ z. z.tp) same,
        ena,
      )
