-- ===== src/Boot/Whole/Safety.antt =====
-- Every run of the whole kernel is a run of the scheduler's system.
use native.Mathlib.Decide.{ℕ_discrete}
use gquuuuuunix.Base.{
  ℕ, ◌≤◌, ◌<◌, ◌^◌, ◌+◌, ◌*◌, ◌≡◌, ◌≢◌, refl, Bool, true, false, List, length, ◌==◌, if◌then◌else◌,
  update, ==_refl, none, some, fun_ext, subst, ap, sym, ◌∙◌, arith,
}
use gquuuuuunix.Riscv.{Csrs, w_stvec}
use gquuuuuunix.Riscv.Interrupts.{Fits}
use gquuuuuunix.Cpu.{Context}
use gquuuuuunix.Task.{Task, Image, task_max_nrs, stack_size}
use gquuuuuunix.Sched.{Hart, scheduler_start}
use gquuuuuunix.Sched.System.{
  World, Pc, scanning, stayed, round, pass, dispatch, first, resume, work, interrupted, yield,
  finish,
}
use gquuuuuunix.Sched.System as Sched
use gquuuuuunix.Sched.System.Moved.{runs}
use gquuuuuunix.Sched.System.Safety.{IsBooted, Reach-Inv, Proceeds, one_hart_per_task, never_stops}
use gquuuuuunix.Sched.System.Safety as System
use gquuuuuunix.Boot.{
  cleared, placed, in_scheduler, branch, at_pc, Kernel, clear, vector, place, publish, enter,
  IsPowered,
}
use gquuuuuunix.Boot as Boot
use gquuuuuunix.Boot.World.{zero_table, scheduler_world, boot-IsBooted}
use gquuuuuunix.Boot.Whole.{is_in, mover, joined, booting, scheduling, Reach, here, later}

-- A step of one hart leaves the others' registers and places alone.
Step-others :
    {n : ℕ} {w w' : World} (st : Sched.Step n w w') (j : ℕ)
    → j ≢ mover st
    → (w'.pc j ≡ w.pc j) × (w'.harts j ≡ w.harts j)
Step-others (round h _ _) j ne = (ground (arith, ne), ground (arith, ne))
Step-others (pass h _ _ _ _ _) j ne = (ground (arith, ne), ground (arith, ne))
Step-others (dispatch h _ _ _ _ _) j ne = (ground (arith, ne), ground (arith, ne))
Step-others (first h _ _ _ _ _) j ne = (ground (arith, ne), ground (arith, ne))
Step-others (resume h _ _ _ _ _) j ne = (ground (arith, ne), ground (arith, ne))
Step-others (work h _ _ _ _ _ _ _) j ne = (ground (arith, ne), ground (arith, ne))
Step-others (interrupted h _ _ _ _ _ _) j ne = (ground (arith, ne), ground (arith, ne))
Step-others (yield h _ _ _ _ _ _) j ne = (ground (arith, ne), ground (arith, ne))
Step-others (finish h _ _ _ _) j ne = (ground (arith, ne), ground (arith, ne))

-- A hart in `kernel_main` is at the head of `scheduler` in the scheduler's system, with its registers.
record Waits (k : Kernel) (w : World) (h : ℕ) : Type 0 where
  at_head : w.pc h ≡ scanning task_max_nrs
  own_csrs : (w.harts h).core.csrs ≡ k.csrs h

abbrev with_csrs : Csrs → Hart → Hart
with_csrs c x = record x { core = record x.core { csrs = c } }

with_csrs-same :
    (b : Bool) (c : Csrs) (x : Hart)
    → (b ≡ false → x.core.csrs ≡ c)
    → (if b then x else with_csrs c x) ≡ x
with_csrs-same true c x same = refl
with_csrs-same false c x same = ap (λ d. with_csrs d x) (sym (same refl))

-- If no control register changes, a step in `kernel_main` is none of the scheduler's system.
joined-same :
    (k k' : Kernel) (w : World)
    → ((h : ℕ) → is_in (k.pc h) ≡ false → (w.harts h).core.csrs ≡ k'.csrs h)
    → joined k k' w ≡ w
joined-same k k' w same = λ i. record w {
  harts = fun_ext (λ h. with_csrs-same (is_in (k.pc h)) (k'.csrs h) (w.harts h) (same h)) i;
}

module _ (k : Kernel) (w : World) (h : ℕ) (c : Csrs) (out : is_in (k.pc h) ≡ false)
    (waits : (j : ℕ) → is_in (k.pc j) ≡ false → Waits k w j) where
  changed-hart :
      (j : ℕ)
      → (if is_in (k.pc j) then w.harts j else with_csrs (update k.csrs h c j) (w.harts j))
        ≡ update w.harts h (with_csrs c (w.harts h)) j
  changed-hart j = elim (ℕ_discrete h j) [
    | yes e ↦
        subst
          (λ j.
            (if is_in (k.pc j) then w.harts j else with_csrs (update k.csrs h c j) (w.harts j))
            ≡ update w.harts h (with_csrs c (w.harts h)) j)
          e (rw (out, ==_refl h) refl)
    | no ne ↦
        let other : (h == j) ≡ false = ground (arith, ne) in
        rw other
          (with_csrs-same (is_in (k.pc j)) (k.csrs j) (w.harts j) (λ e. (waits j e).own_csrs))
  ]

  still-pc : update w.pc h (scanning task_max_nrs) ≡ w.pc
  still-pc = fun_ext (λ j. ground (arith, (waits h out).at_head))

  -- The hart's own registers are changed as by a trap at the head of `scheduler`.
  joined-stayed :
      (k' : Kernel)
      → k'.csrs ≡ update k.csrs h c
      → joined k k' w ≡ stayed w h (with_csrs c (w.harts h)) (scanning task_max_nrs)
  joined-stayed k' e =
      ap
        (λ (f : ℕ → Csrs). record w {
          harts = λ j. if is_in (k.pc j) then w.harts j else with_csrs (f j) (w.harts j);
        })
        e
      ∙ (λ i. record w { harts = fun_ext changed-hart i; pc = sym still-pc i })

is_in-≢ : (p : Boot.Pc) → is_in p ≡ false → p ≢ in_scheduler
is_in-≢ p out e = ground (arith, out, e)

is_in-false : (p : Boot.Pc) → p ≢ in_scheduler → is_in p ≡ false
is_in-false p out = ground (arith, out)

moved_out :
    (f : ℕ → Boot.Pc) (h : ℕ) (p : Boot.Pc) (j : ℕ)
    → is_in (f h) ≡ false
    → is_in (update f h p j) ≡ false
    → is_in (f j) ≡ false
moved_out f h p j out e = ground (arith, out, e)

joined-Waits :
    (k k' : Kernel) (w : World) (j : ℕ)
    → is_in (k.pc j) ≡ false
    → w.pc j ≡ scanning task_max_nrs
    → Waits k' (joined k k' w) j
joined-Waits k k' w j out at = record { at_head = at; own_csrs = rw out refl }

-- The whole kernel's state and the scheduler's, which its run has reached.
record Sim (n : ℕ) (img : Image) (kernelvec : ℕ) (statics : List Task) (b : Kernel) (v : World)
    (k : Kernel) (w : World) : Type 0 where
  boot : Boot.Reach n img kernelvec statics b k
  run : System.Reach n v w
  waits : (h : ℕ) → is_in (k.pc h) ≡ false → Waits k w h

module _ {n : ℕ} {img : Image} {kernelvec : ℕ} {statics : List Task} {b : Kernel} {v : World}
    (on : IsBooted n v) {k : Kernel} {w : World} (sim : Sim n img kernelvec statics b v k w) where
  open sim use {boot, run, waits}

  -- A step that moves hart `h` and leaves the control registers alone, and one that sets `stvec`.
  quiet :
      (k' : Kernel) (h : ℕ) (p : Boot.Pc)
      → Boot.Step n img kernelvec statics k k'
      → k'.csrs ≡ k.csrs
      → k'.pc ≡ update k.pc h p
      → is_in (k.pc h) ≡ false
      → Sim n img kernelvec statics b v k' (joined k k' w)
  quiet k' h p st csrs pc out = record {
    boot = Boot.later boot st;
    run =
        subst (System.Reach n v)
          (sym (joined-same k k' w (λ j e. (waits j e).own_csrs ∙ ap (λ f. f j) (sym csrs)))) run;
    waits = λ j e. joined-Waits k k' w j (stays_out j e) (waits j (stays_out j e)).at_head;
  }
    where
      stays_out : (j : ℕ) → is_in (k'.pc j) ≡ false → is_in (k.pc j) ≡ false
      stays_out j e = moved_out k.pc h p j out (ap (λ f. is_in (f j)) (sym pc) ∙ e)

  booting-Sim :
      {k' : Kernel}
      → Boot.Step n img kernelvec statics k k'
      → Sim n img kernelvec statics b v k' (joined k k' w)
  unfolding w_stvec
  booting-Sim (clear h lt at) = quiet _ h cleared (clear h lt at) refl refl (ap is_in at)
  booting-Sim (vector h lt at) =
      let c = w_stvec kernelvec (k.csrs h) in
      let k' : Kernel = record (at_pc k h (branch (k.csrs h))) { csrs = update k.csrs h c } in
      let out = ap is_in at in
      let ok = (Reach-Inv on run).hart h lt in
      let own = (waits h out).own_csrs in
      record {
        boot = Boot.later boot (vector h lt at);
        run = subst (System.Reach n v) (sym (joined-stayed k w h c out waits k' refl)) (
            System.later run (
              interrupted h task_max_nrs c lt (waits h out).at_head (ap (λ z. z.tp) (sym own))
                (subst Fits own ok.fits)));
        waits = λ j e.
            let before = moved_out k.pc h (branch (k.csrs h)) j out e in
            joined-Waits k k' w j before (waits j before).at_head;
      }
  booting-Sim (place h lt at) = quiet _ h placed (place h lt at) refl refl (ap is_in at)
  booting-Sim (publish h lt at) = quiet _ h in_scheduler (publish h lt at) refl refl (ap is_in at)
  booting-Sim (enter h lt at set) =
      quiet _ h in_scheduler (enter h lt at set) refl refl (ap is_in at)

  scheduling-Sim :
      {w' : World} (st : Sched.Step n w w')
      → k.pc (mover st) ≡ in_scheduler
      → Sim n img kernelvec statics b v k w'
  scheduling-Sim st up = record {
    boot = boot;
    run = System.later run st;
    waits = λ h out.
        let ne : h ≢ mover st = λ e. is_in-≢ (k.pc h) out (ap k.pc e ∙ up) in
        let (pc, hart) = Step-others st h ne in
        record {
          at_head = pc ∙ (waits h out).at_head;
          own_csrs = ap (λ x. x.core.csrs) hart ∙ (waits h out).own_csrs;
        };
  }

module _ (img : Image) (statics : List Task) (few : length statics ≤ task_max_nrs)
    (fits : img.task_stack + task_max_nrs * stack_size < 2 ^ 64) (n kernelvec : ℕ)
    (few_harts : n ≤ 2 ^ 32) (b : Kernel) {u : Kernel} (on : IsPowered b)
    (zeros : b.table ≡ zero_table) (boot : Boot.Reach n img kernelvec statics b u)
    (up : u.pc 0 ≡ in_scheduler) (fit : (h : ℕ) → Fits (u.csrs h)) (regs : ℕ → Context) where
  Reach-Sim :
      {k : Kernel} {w : World}
      → Reach n img kernelvec statics u (scheduler_world u regs) k w
      → Sim n img kernelvec statics b (scheduler_world u regs) k w
  unfolding scheduler_start
  Reach-Sim here = record {
    boot = boot;
    run = System.here;
    waits = λ h e. record { at_head = refl; own_csrs = refl };
  }
  Reach-Sim (later r (booting st)) =
      booting-Sim
        (boot-IsBooted img statics few fits n kernelvec few_harts b on zeros boot up fit regs)
        (Reach-Sim r) st
  Reach-Sim (later r (scheduling st at)) =
      scheduling-Sim
        (boot-IsBooted img statics few fits n kernelvec few_harts b on zeros boot up fit regs)
        (Reach-Sim r) st at

  -- The kernel from power-on, with a zeroed table, at most `task_max_nrs` tasks, stacks below 2^64, at
  -- most 2^32 harts and a 64-bit `sstatus` on each: from the moment that hart 0 is in the scheduler,
  -- whatever the harts do there, in the tasks, and in `kernel_main` if they are late, no two harts run the
  -- same task; the code at each hart's place returns or waits for a lock that is taken, and no `PANIC` of
  -- the scheduler or of its locks is reached; and a hart that is still in `kernel_main` is in no task's
  -- turn.
  pub whole_is_safe :
      {k : Kernel} {w : World}
      → Reach n img kernelvec statics u (scheduler_world u regs) k w
      → ((h j i : ℕ) → runs (w.pc h) ≡ some i → runs (w.pc j) ≡ some i → h ≡ j)
        × ((h : ℕ) → h < n → Proceeds w h (w.pc h))
        × ((h : ℕ) → k.pc h ≢ in_scheduler → runs (w.pc h) ≡ none)
  whole_is_safe r =
      let booted =
        boot-IsBooted img statics few fits n kernelvec few_harts b on zeros boot up fit regs in
      let sim = Reach-Sim r in
      (
        λ h j i. (one_hart_per_task booted sim.run i).0 h j,
        λ h lt. never_stops booted sim.run h lt,
        λ h out. ap runs (sim.waits h (is_in-false _ out)).at_head,
      )
