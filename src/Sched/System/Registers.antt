-- ===== src/Sched/System/Registers.antt =====
-- A task goes on with the registers that it had, on whichever hart, and so does each scheduler.
use gquuuuuunix.Base.{ℕ, suc, ◌<◌, ◌≡◌, ◌≢◌, ◌⊎◌, inl, inr, refl, some, update, ap, sym, ◌∙◌, arith}
use gquuuuuunix.Outcome.{ok}
use gquuuuuunix.Cpu.{Context}
use gquuuuuunix.Task.{Task}
use gquuuuuunix.Sched.{Hart, yield_in, first_run, round_start}
use gquuuuuunix.Sched.System.{
  Pc, scanning, entering, user, back, World, at_once, Step, round, pass, dispatch, first, resume,
  work, interrupted, yield, finish,
}
use gquuuuuunix.Sched.System.Moved.{holds, Inv}
use gquuuuuunix.Sched.System.Harts.{cur_task}
use gquuuuuunix.Sched.System.Contexts.{
  Keeps, Loads, Saves, pass-Keeps, dispatch-Loads, yield-Saves, first-Keeps, resume-Keeps,
  finish-Keeps,
}
use gquuuuuunix.Sched.System.Safety.{IsBooted, Reach, here, later, Reach-Inv}

-- A step that gives a turn up records the task's registers, and one that begins a turn the hart's.
unfoldable pub remember_task : {n : ℕ} {u v : World} → Step n u v → (ℕ → Context) → ℕ → Context
remember_task {u = u} (yield h i j lt place cur e) saved = update saved j (u.harts h).regs
remember_task _ saved = saved

unfoldable pub remember_hart : {n : ℕ} {u v : World} → Step n u v → (ℕ → Context) → ℕ → Context
remember_hart {u = u} (dispatch h i lt bound place e) parked = update parked h (u.harts h).regs
remember_hart _ parked = parked

-- The registers that each task had when it last gave its turn up; at first, those that the boot gave
-- it.
unfoldable pub given_up : {n : ℕ} {w u : World} → Reach n w u → ℕ → Context
unfolding remember_task
given_up {w = w} here = λ i. (w.tasks i).context
given_up (later r st) = remember_task st (given_up r)

-- The registers that each hart's scheduler had when it last switched to a task.
unfoldable pub left : {n : ℕ} {w u : World} → Reach n w u → ℕ → Context
unfolding remember_hart
left {w = w} here = λ h. (w.harts h).core.cpu.context
left (later r st) = remember_hart st (left r)

pub record Saved (saved parked : ℕ → Context) (tasks : ℕ → Task) (harts : ℕ → Hart) (pc : ℕ → Pc)
    : Type 0 where
  pub kept : (j : ℕ) → (tasks j).context ≡ saved j
  pub loaded : (h j : ℕ) → pc h ≡ entering j → (harts h).regs ≡ saved j
  pub waits :
      (h j : ℕ) → (pc h ≡ entering j) ⊎ (pc h ≡ user j) → (harts h).core.cpu.context ≡ parked h
  pub restored : (h j : ℕ) → pc h ≡ back j → (harts h).regs ≡ parked h

module _ {saved parked : ℕ → Context} {tasks : ℕ → Task} {harts : ℕ → Hart} {pc : ℕ → Pc}
    (s : Saved saved parked tasks harts pc) (h : ℕ) where
  open s use {kept, loaded, waits, restored}

  -- A step to the task's code or to the scan, at any task.
  Keeps-Saved :
      (i : ℕ) (t : Task) (x : Hart) (p : Pc)
      → t.context ≡ (tasks i).context
      → x.core.cpu.context ≡ (harts h).core.cpu.context
      → ((j : ℕ) → (p ≢ entering j) × (p ≢ back j))
      → ((j : ℕ) → p ≡ user j → (pc h ≡ entering j) ⊎ (pc h ≡ user j))
      → Saved saved parked (update tasks i t) (update harts h x) (update pc h p)
  Keeps-Saved i t x p ct cx quiet from = record {
    kept = λ j. ground (arith, kept j, kept i, ct);
    loaded = λ k j e. ground (arith, loaded k j, quiet j);
    waits = λ k j e. ground (arith, waits k j, waits h j, quiet j, from j, cx);
    restored = λ k j e. ground (arith, restored k j, quiet j);
  }

  Stays-Saved :
      (x : Hart) (p : Pc)
      → x.core.cpu.context ≡ (harts h).core.cpu.context
      → ((j : ℕ) → (p ≢ entering j) × (p ≢ back j))
      → ((j : ℕ) → p ≡ user j → (pc h ≡ entering j) ⊎ (pc h ≡ user j))
      → Saved saved parked tasks (update harts h x) (update pc h p)
  Stays-Saved x p cx quiet from = record {
    kept = kept;
    loaded = λ k j e. ground (arith, loaded k j, quiet j);
    waits = λ k j e. ground (arith, waits k j, waits h j, quiet j, from j, cx);
    restored = λ k j e. ground (arith, restored k j, quiet j);
  }

  Loads-Saved :
      (i : ℕ) {t : Task} {x : Hart}
      → Loads (tasks i) (harts h) t x
      → Saved saved
          (update parked h (harts h).regs)
          (update tasks i t)
          (update harts h x)
          (update pc h (entering i))
  Loads-Saved i l = record {
    kept = λ j. ground (arith, kept j, kept i, l.context);
    loaded = λ k j e. ground (arith, loaded k j, l.regs, kept i);
    waits = λ k j e. ground (arith, waits k j, l.scheduler);
    restored = λ k j e. ground (arith, restored k j);
  }

  Saves-Saved :
      (i j : ℕ) {t : Task} {x : Hart}
      → ((k : ℕ) → pc k ≢ entering j)
      → pc h ≡ user i
      → Saves (tasks j) (harts h) t x
      → Saved
          (update saved j (harts h).regs)
          parked
          (update tasks j t)
          (update harts h x)
          (update pc h (back i))
  Saves-Saved i j alone place l = record {
    kept = λ m. ground (arith, kept m, l.context);
    loaded = λ k m e. ground (arith, loaded k m, alone k);
    waits = λ k m e. ground (arith, waits k m);
    restored = λ k m e. ground (arith, restored k m, l.regs, waits h i, place);
  }

-- A place that is neither just loaded nor just left.
abbrev IsQuiet : Pc → Type 0
IsQuiet p = (j : ℕ) → (p ≢ entering j) × (p ≢ back j)

abbrev CameFrom : Pc → Pc → Type 0
CameFrom q p = (j : ℕ) → p ≡ user j → (q ≡ entering j) ⊎ (q ≡ user j)

entered : {i j : ℕ} → user i ≡ user j → entering i ≡ entering j
entered {i} {j} e = ground arith

module _ {saved parked : ℕ → Context} {n : ℕ} (u : World)
    (s : Saved saved parked u.tasks u.harts u.pc) (inv : Inv n u.tasks u.harts u.pc) where
  kept_at :
      (h i : ℕ) (t : Task) (x : Hart) (p : Pc)
      → Keeps (u.tasks i) (u.harts h) t x
      → IsQuiet p
      → CameFrom (u.pc h) p
      → Saved saved parked (update u.tasks i t) (update u.harts h x) (update u.pc h p)
  kept_at h i t x p k quiet from = Keeps-Saved s h i t x p k.context k.scheduler quiet from

  Step-Saved :
      {v : World} (r' : Step n u v)
      → Saved (remember_task r' saved) (remember_hart r' parked) v.tasks v.harts v.pc
  unfolding remember_task remember_hart round_start
  Step-Saved (round h lt place) =
      Stays-Saved s h _ (scanning 0) refl (λ j. (λ e. cc, λ e. cc)) (λ j e. cc)
  Step-Saved (pass h i {t} {x} lt bound place e) =
      kept_at h i t x (scanning (suc i)) (pass-Keeps inv h i lt (ap holds place) e)
        (λ j. (λ e. cc, λ e. cc)) (λ j e. cc)
  Step-Saved (dispatch h i lt bound place e) =
      Loads-Saved s h i (dispatch-Loads inv h i lt (ap holds place) e)
  Step-Saved (first h i {t} {x} lt place new e) =
      kept_at h i t x (user i) (first-Keeps inv h i lt (ap holds place) e) (λ j. (λ e. cc, λ e. cc))
        (λ j e. inl (place ∙ entered e))
  Step-Saved (resume h i {t} {x} lt place old e) =
      kept_at h i t x (user i) (resume-Keeps inv h i lt (u.ena i) (ap holds place) e)
        (λ j. (λ e. cc, λ e. cc)) (λ j e. inl (place ∙ entered e))
  Step-Saved (work h i regs csrs lt place same fits) =
      Stays-Saved s h _ (user i) refl (λ j. (λ e. cc, λ e. cc)) (λ j e. inr (place ∙ e))
  Step-Saved (interrupted h i csrs lt place same fits) =
      Stays-Saved s h _ (scanning i) refl (λ j. (λ e. cc, λ e. cc)) (λ j e. cc)
  Step-Saved (yield h i j lt place cur e) =
      let turn : some i ≡ some j =
        sym (cur_task (u.pc h) (u.harts h) (inv.hart h lt) place) ∙ cur in
      let alone : (k : ℕ) → u.pc k ≢ entering j =
        λ k en. ground (arith, inv.unique h k j, place, turn, en) in
      Saves-Saved s h i j alone place (yield-Saves inv h j lt (ap holds place) e)
  Step-Saved (finish h i {t} {x} lt place e) =
      kept_at h i t x (scanning (suc i)) (finish-Keeps inv h i lt (ap holds place) e)
        (λ j. (λ e. cc, λ e. cc)) (λ j e. cc)

Reach-Saved :
    {n : ℕ} {w u : World}
    → IsBooted n w
    → (r : Reach n w u) → Saved (given_up r) (left r) u.tasks u.harts u.pc
unfolding given_up left
Reach-Saved b here = record {
  kept = λ j. refl;
  loaded = λ h j e. ground (arith, b.at_scheduler h);
  waits = λ h j e. ground (arith, b.at_scheduler h);
  restored = λ h j e. ground (arith, b.at_scheduler h);
}
Reach-Saved b (later r st) = Step-Saved _ (Reach-Saved b r) (Reach-Inv b r) st

-- In every run of booted harts: a hart that has switched to a task, and the task's code when it goes
-- on there, have the registers that the task had when it last gave its turn up, on whichever hart (or
-- those that the boot gave it); and a hart that has come back from a task has the registers that its
-- scheduler had when it last switched to one.
pub resumes_where_it_left :
    {n : ℕ} {w u : World}
    → IsBooted n w
    → (r : Reach n w u) (h i : ℕ) → h < n
    → (u.pc h ≡ entering i
        → ((u.harts h).regs ≡ given_up r i)
          × ((t : Task) (x : Hart)
              → yield_in at_once (u.ena i) (u.tasks i) (u.harts h) ≡ ok (t, x)
              → x.regs ≡ given_up r i)
          × ((t : Task) (x : Hart)
              → first_run at_once (u.tasks i) (u.harts h) ≡ ok (t, x)
              → x.regs ≡ given_up r i))
      × (u.pc h ≡ back i → (u.harts h).regs ≡ left r h)
resumes_where_it_left {u = u} b r h i lt =
    let s = Reach-Saved b r in
    let inv = Reach-Inv b r in
    (
      λ place. (
        s.loaded h i place,
        λ t x e. (resume-Keeps inv h i lt (u.ena i) (ap holds place) e).regs ∙ s.loaded h i place,
        λ t x e. (first-Keeps inv h i lt (ap holds place) e).regs ∙ s.loaded h i place,
      ),
      s.restored h i,
    )
