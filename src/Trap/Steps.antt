-- ===== src/Trap/Steps.antt =====
-- The trap handler among all harts: what it does in any reachable state of the scheduler is a run of
-- the scheduler's own steps, and none of its checks fails.
--
-- A trap is taken by the processor: it comes from supervisor mode, masks interrupts, and leaves
-- `tp` alone.
use gquuuuuunix.Base.{
  ℕ, ◌<◌, ◌^◌, ◌≡◌, ◌≢◌, refl, true, false, none, some, ◌==◌, ==_refl, bit_and, update, subst,
  subst₂, sym, fun_ext, Bool, ap, ◌∙◌, inl, inr, Bool-cases, arith,
}
use gquuuuuunix.Outcome.{ok, hang}
use gquuuuuunix.Riscv.{
  Csrs, r_sepc, r_sstatus, r_scause, r_sip, w_sip, w_sepc, w_sstatus, intr_get, sstatus_spp,
}
use gquuuuuunix.Cpu.{get_cur_task}
use gquuuuuunix.Task.{Task, running}
use gquuuuuunix.Sched.{Hart, yield_out}
use gquuuuuunix.Sched.System.{
  scanning, entering, user, back, World, now, at_once, moved, stayed, Step, work, interrupted,
  yield, resume,
}
use gquuuuuunix.Sched.System.Moved.{runs, current}
use gquuuuuunix.Sched.System.Harts.{cur_task}
use gquuuuuunix.Sched.System.Safety.{IsBooted, Reach, here, later, Reach-Inv, Proceeds, never_stops}
use gquuuuuunix.Trap.{
  restore, clear_ssip, Clock, tick, Frame, served, gave_up, timer_case, trap_enter, trap_exit,
}
use gquuuuuunix.Trap.Return.{trap_enter-gives_up, trap_exit-restores}

-- What the processor leaves in the registers when it takes a trap from supervisor mode.
pub record IsTrap (before after : Csrs) : Type 0 where
  pub same : after.tp ≡ before.tp
  pub fits : after.sstatus < 2 ^ 64
  pub from_supervisor : bit_and after.sstatus sstatus_spp ≢ 0
  pub masked : intr_get after ≡ false

abbrev pub trapped : Csrs → Hart → Hart
trapped c x = record x { core = record x.core { csrs = c } }

abbrev pub timer_cause : ℕ
timer_cause = 9223372036854775809

-- A trap that finds no task, or is not the timer's, is served.
module _ (c : Csrs) (x : Hart) (spp : bit_and c.sstatus sstatus_spp ≢ 0)
    (off : intr_get c ≡ false) where
  serves :
      (k : Clock)
      → (k' : Clock) × (c' : Csrs) × (trap_enter now none k (trapped c x)
          ≡ ok (k', served (trapped c' x)))
        × (c'.tp ≡ c.tp)
        × (c'.sstatus ≡ c.sstatus)
  unfolding trap_enter timer_case r_sepc r_sstatus r_scause restore clear_ssip w_sepc w_sstatus
      w_sip r_sip
  serves k = elim (Bool-cases (c.scause == timer_cause)) [
    | inl timer ↦ (
      tick c k,
      restore (record { sepc = c.sepc; sstatus = c.sstatus }) (clear_ssip c),
      ground (arith, spp, off, timer),
      refl,
      refl,
    )
    | inr other ↦ (
      k,
      restore (record { sepc = c.sepc; sstatus = c.sstatus }) c,
      ground (arith, spp, off, other),
      refl,
      refl,
    )
  ]

trap_enter-waits :
    (t : Task) (k : Clock) (x : Hart)
    → bit_and x.core.csrs.sstatus sstatus_spp ≢ 0
    → intr_get x.core.csrs ≡ false
    → x.core.csrs.scause ≡ timer_cause
    → t.state ≡ running
    → yield_out now t x ≡ hang
    → trap_enter now (some t) k x ≡ hang
unfolding trap_enter timer_case r_sepc r_sstatus r_scause
trap_enter-waits t k x spp off timer run out = ground (arith, spp, off, timer, run, out)

update-update {ℓ} :
    {A : Type ℓ} (f : ℕ → A) (h : ℕ) (x y : A) → update (update f h x) h y ≡ update f h y
update-update f h x y = fun_ext λ k. ground arith

-- Hart `h` is back in the scheduler from task `i`, which waits in `sched` with `e` as its `ena`.
abbrev pub given_up : World → ℕ → ℕ → Bool → Task → Hart → World
given_up w h i e t x = record (moved w h i t x (back i)) { ena = update w.ena i e }

module _ {n : ℕ} {w0 w : World} (b : IsBooted n w0) (r : Reach n w0 w) (h : ℕ) (lt : h < n) where
  -- In every state that booted harts reach: a trap from supervisor mode that the scheduler takes
  -- between two slots finds no current task, is served, and is a step that leaves the hart where it
  -- was, with other registers at most.
  pub scheduler_trap :
      (c : Csrs) (i : ℕ) (k : Clock)
      → IsTrap (w.harts h).core.csrs c
      → w.pc h ≡ scanning i
      → (get_cur_task (w.harts h).core ≡ none)
        × (k' : Clock) × (x : Hart) × (trap_enter now none k (trapped c (w.harts h))
            ≡ ok (k', served x))
        × Step n w (stayed w h x (scanning i))
  unfolding get_cur_task
  scheduler_trap c i k t place =
      let inv = Reach-Inv b r in
      let (k', c', run, tp, sstatus) = serves c (w.harts h) t.from_supervisor t.masked k in
      (
        (inv.hart h lt).cur ∙ ap current place,
        k',
        trapped c' (w.harts h),
        run,
        interrupted h i c' lt place (tp ∙ t.same) (omega (arith, sstatus, t.fits)),
      )

  pub interrupts :
      (c : Csrs) (i : ℕ)
      → IsTrap (w.harts h).core.csrs c
      → w.pc h ≡ user i
      → Step n w (stayed w h (trapped c (w.harts h)) (user i))
  interrupts c i t place = work h i (w.harts h).regs c lt place t.same t.fits

  pub yields :
      (c : Csrs) (i : ℕ) {e : Bool} {t' : Task} {x' : Hart}
      → IsTrap (w.harts h).core.csrs c
      → w.pc h ≡ user i
      → yield_out now (w.tasks i) (trapped c (w.harts h)) ≡ ok (e, t', x')
      → Reach n w (given_up w h i e t' x')
  unfolding get_cur_task
  yields c i {e} {t'} {x'} t place out =
      let x = trapped c (w.harts h) in
      let u : World = stayed w h x (user i) in
      let at_x : u.harts h ≡ x = rw (==_refl h) refl in
      let at_user : u.pc h ≡ user i = rw (==_refl h) refl in
      let cur : get_cur_task (u.harts h).core ≡ some i =
        subst (λ z. get_cur_task z.core ≡ some i) (sym at_x)
          (cur_task (w.pc h) (w.harts h) ((Reach-Inv b r).hart h lt) place) in
      let run : yield_out now (w.tasks i) (u.harts h) ≡ ok (e, t', x') =
        subst (λ z. yield_out now (w.tasks i) z ≡ ok (e, t', x')) (sym at_x) out in
      subst₂ (λ hs ps. Reach n w (record (given_up w h i e t' x') { harts = hs; pc = ps }))
        (update-update w.harts h x x') (update-update w.pc h (user i) (back i))
        (later (later here (interrupts c i t place)) (yield h i i lt at_user cur run))

  pub enters :
      (c : Csrs) (i : ℕ) (k : Clock) {e : Bool} {t' : Task} {x' : Hart}
      → IsTrap (w.harts h).core.csrs c
      → w.pc h ≡ user i
      → c.scause ≡ timer_cause
      → yield_out now (w.tasks i) (trapped c (w.harts h)) ≡ ok (e, t', x')
      → trap_enter now (some (w.tasks i)) k (trapped c (w.harts h))
        ≡ ok (tick c k, gave_up (record { sepc = c.sepc; sstatus = c.sstatus }) e t' x')
  enters c i k {e} {t'} {x'} t place timer out =
      trap_enter-gives_up now (w.tasks i) t' k (trapped c (w.harts h)) x' e t.from_supervisor
        t.masked timer ((Reach-Inv b r).state_of_runner h i (ap runs place)) out

  -- In every state `w` that booted harts reach: when a timer trap from supervisor mode interrupts a task,
  -- the handler finds that task running. If its lock is free, the handler counts the tick and gives the
  -- turn up, with the trap registers in its frame; and from `w` there is a run of the scheduler's steps to
  -- the very state that this leaves: the hart back in the scheduler, with the registers, the task and
  -- the `ena` that the handler leaves, and all else as in `w`. If the lock is taken, the handler waits
  -- for it.
  pub user_trap :
      (c : Csrs) (i : ℕ) (k : Clock)
      → IsTrap (w.harts h).core.csrs c
      → w.pc h ≡ user i
      → c.scause ≡ timer_cause
      → (get_cur_task (w.harts h).core ≡ some i)
        × ((w.tasks i).lk.is_locked ≡ 0
            → (e : Bool) × (t' : Task) × (x' : Hart) × (trap_enter now
                  (some (w.tasks i))
                  k
                  (trapped c (w.harts h))
                ≡ ok (tick c k, gave_up (record { sepc = c.sepc; sstatus = c.sstatus }) e t' x'))
              × Reach n w (given_up w h i e t' x'))
        × ((w.tasks i).lk.is_locked ≢ 0
            → trap_enter now (some (w.tasks i)) k (trapped c (w.harts h)) ≡ hang)
  user_trap c i k t place timer =
      let x = trapped c (w.harts h) in
      let r' : Reach n w0 (stayed w h x (user i)) = later r (interrupts c i t place) in
      let at_x : update (w.harts) h x h ≡ x = rw (==_refl h) refl in
      let at_user : update (w.pc) h (user i) h ≡ user i = rw (==_refl h) refl in
      let goes : Proceeds (stayed w h x (user i)) h (user i) =
        subst (Proceeds (stayed w h x (user i)) h) at_user (never_stops b r' h lt) in
      let state = (Reach-Inv b r).state_of_runner h i (ap runs place) in
      (
        cur_task (w.pc h) (w.harts h) ((Reach-Inv b r).hart h lt) place,
        λ free.
            let ((e, t', x'), run) = goes.1 free in
            let out : yield_out now (w.tasks i) x ≡ ok (e, t', x') =
              subst (λ z. yield_out now (w.tasks i) z ≡ ok (e, t', x')) at_x run in
            (e, t', x', enters c i k t place timer out, yields c i t place out),
        λ busy.
            trap_enter-waits (w.tasks i) k x t.from_supervisor t.masked timer state
              (subst (λ z. yield_out now (w.tasks i) z ≡ hang) at_x (goes.2 busy)),
      )

  -- In every state `w` that booted harts reach: when a task that gave its turn up in the handler, with a
  -- 64-bit `sstatus` saved, has been switched to again, the handler returns, with the saved `sepc` and
  -- `sstatus` in the registers and the supervisor's software interrupt no longer pending; and from `w`
  -- there is a run of the scheduler's steps to the very state that this leaves, with the hart in the
  -- task's code and all else as in `w`.
  pub user_return :
      (f : Frame) (i : ℕ)
      → f.sstatus < 2 ^ 64
      → w.pc h ≡ entering i
      → w.started i ≡ true
      → (t : Task) × (x : Hart) × (trap_exit at_once f (w.ena i) (w.tasks i) (w.harts h)
          ≡ ok (t, x))
        × (x.core.csrs.sepc ≡ f.sepc)
        × (x.core.csrs.sstatus ≡ f.sstatus)
        × (bit_and x.core.csrs.sip 2 ≡ 0)
        × Reach n w (moved w h i t x (user i))
  unfolding trap_exit restore clear_ssip w_sepc w_sstatus w_sip r_sip
  user_return f i fits place old =
      let goes : Proceeds w h (entering i) = subst (Proceeds w h) place (never_stops b r h lt) in
      let ((t, x), run) = goes.1 (w.ena i) in
      let w1 : World = moved w h i t x (user i) in
      let r1 : Reach n w w1 = later here (resume h i lt place old run) in
      let csrs = restore f (clear_ssip x.core.csrs) in
      let x' : Hart = trapped csrs x in
      let exits : trap_exit at_once f (w.ena i) (w.tasks i) (w.harts h) ≡ ok (t, x') =
        rw run refl in
      let (sepc, sstatus, sip) =
        trap_exit-restores at_once f (w.ena i) (w.tasks i) t (w.harts h) x' exits in
      let at_x : w1.harts h ≡ x = rw (==_refl h) refl in
      let at_user : w1.pc h ≡ user i = rw (==_refl h) refl in
      let same_tp : csrs.tp ≡ (w1.harts h).core.csrs.tp = ap (λ z. z.core.csrs.tp) (sym at_x) in
      let left : Csrs → Hart → Hart =
        λ c z. record { core = record z.core { csrs = c }; regs = x.regs } in
      (
        t,
        x',
        exits,
        sepc,
        sstatus,
        sip,
        subst₂ (λ hs ps. Reach n w (record (moved w h i t x' (user i)) { harts = hs; pc = ps }))
            (update-update w.harts h x (left csrs (w1.harts h))
              ∙ ap (λ z. update w.harts h (left csrs z)) at_x)
            (update-update w.pc h (user i) (user i))
            (later r1 (work h i x.regs csrs lt at_user same_tp fits)),
      )
