-- ===== src/Boot/Ordering/Needed.antt =====
-- When the other harts find what hart 0 has set up.
use gquuuuuunix.Base.{ℕ, ◌<◌, ◌≡◌, ◌≢◌, ◌↔◌, refl, Bool, true, false, List, if◌then◌else◌, arith}
use gquuuuuunix.Task.{Task, Image, boot_tasks}
use gquuuuuunix.Boot as Boot
use gquuuuuunix.Boot.{
  Pc, entry, cleared, booting, placed, waiting, in_scheduler, Kernel, zero_clock, branch, at_pc,
  IsPowered,
}
use gquuuuuunix.Boot.Order.{Reach-Inv, boot_order}
use gquuuuuunix.Boot.Ordering.{
  Step, clear, vector, place, publish, enter, perform_clock, perform_table, Reach, here, later,
}

module _ (n : ℕ) (img : Image) (kernelvec : ℕ) (statics : List Task) (b : Kernel) where
  -- With all late stores performed.
  abbrev seen : Kernel → Bool → Bool → Kernel
  seen u clock table = record u {
    clock = if clock then zero_clock else u.clock;
    table = if table then boot_tasks img statics u.table else u.table;
  }

  place-booted :
      (u : Kernel) (clock : Bool) {h : ℕ} (table : Bool)
      → table ≡ false
      → h < n
      → u.pc h ≡ booting
      → Boot.Reach n img kernelvec statics b (seen u clock table)
      → Boot.Reach n img kernelvec statics b (seen (at_pc u h placed) true true)
  place-booted u clock {h} false e lt p r = Boot.later r (Boot.place h lt p)
  place-booted u clock true e lt p r = absurd (cc)

  -- Behind a fence, what is late is late while hart 0 is before its store of the flag.
  record IsFenced (u : Kernel) (clock table : Bool) : Type 0 where
    booted : Boot.Reach n img kernelvec statics b (seen u clock table)
    clock_waits : clock ≡ true → u.pc 0 ≡ placed
    table_waits : table ≡ true → u.pc 0 ≡ placed

  module _ (on : IsPowered b) where
    Step-IsFenced :
        {u v : Kernel} {clock clock' table table' : Bool}
        → Step true n img kernelvec statics u clock table v clock' table'
        → IsFenced u clock table
        → IsFenced v clock' table'
    Step-IsFenced (clear h lt p) s = record {
      booted = Boot.later s.booted (Boot.clear h lt p);
      clock_waits = λ e. ground (arith, s.clock_waits e, p);
      table_waits = λ e. ground (arith, s.table_waits e, p);
    }
    Step-IsFenced (vector h lt p) s = record {
      booted = Boot.later s.booted (Boot.vector h lt p);
      clock_waits = λ e. ground (arith, s.clock_waits e, p);
      table_waits = λ e. ground (arith, s.table_waits e, p);
    }
    Step-IsFenced {u} {clock = clock} {table = table} (place h lt p) s =
        let zero = (Reach-Inv n img kernelvec statics b on s.booted).only_zero h in
        record {
          booted =
              place-booted u clock table (ground (arith, s.table_waits, zero, p)) lt p s.booted;
          clock_waits = λ e. ground (arith, zero, p);
          table_waits = λ e. ground (arith, zero, p);
        }
    Step-IsFenced (publish h lt p fence) s = record {
      booted = Boot.later s.booted (Boot.publish h lt p);
      clock_waits = λ e. ground (arith, fence refl, e);
      table_waits = λ e. ground (arith, fence refl, e);
    }
    Step-IsFenced (enter h lt p f) s = record {
      booted = Boot.later s.booted (Boot.enter h lt p f);
      clock_waits = λ e. ground (arith, s.clock_waits e, p);
      table_waits = λ e. ground (arith, s.table_waits e, p);
    }
    Step-IsFenced perform_clock s = record {
      booted = s.booted;
      clock_waits = λ e. ground (arith, e);
      table_waits = s.table_waits;
    }
    Step-IsFenced perform_table s = record {
      booted = s.booted;
      clock_waits = s.clock_waits;
      table_waits = λ e. ground (arith, e);
    }

    Reach-IsFenced :
        {u : Kernel} {clock table : Bool}
        → Reach true n img kernelvec statics b u clock table
        → IsFenced u clock table
    Reach-IsFenced here = record {
      booted = Boot.here;
      clock_waits = λ e. ground (arith, e);
      table_waits = λ e. ground (arith, e);
    }
    Reach-IsFenced (later r st) = Step-IsFenced st (Reach-IsFenced r)

    fence_publishes :
        {u : Kernel} {clock table : Bool}
        → Reach true n img kernelvec statics b u clock table
        → (h : ℕ) → u.pc h ≡ in_scheduler
        → (u.table ≡ boot_tasks img statics b.table) × (u.clock ≡ zero_clock)
    fence_publishes {u} {clock} {table} r h p =
        let s = Reach-IsFenced r in
        let inv = Reach-Inv n img kernelvec statics b on s.booted in
        let (placed_there, set, _) = (boot_order n img kernelvec statics b on s.booted h).0 p in
        (
          ground (arith, s.table_waits, inv.entered h, p, placed_there),
          ground (arith, s.clock_waits, inv.entered h, p, set),
        )

    -- Hart 0 passes its store of the flag and hart 1 enters, with the set-up still to be performed.
    enters_early :
        1 < n
        → (u : Kernel) × Reach false n img kernelvec statics b u true true
          × (u.pc 1 ≡ in_scheduler)
          × (u.table ≡ b.table)
    unfolding branch
    enters_early lt =
        let zero_runs : 0 < n = omega arith in
        let boots : branch (b.csrs 0) ≡ booting = ground (arith, on.id 0) in
        let waits : branch (b.csrs 1) ≡ waiting = ground (arith, on.id 1) in
        let raised : ◌≢◌ {A = ℕ} 1 0 = omega arith in
        let zero_in =
          later (later here (clear 0 zero_runs (on.at_entry 0))) (vector 0 zero_runs refl) in
        let late = later zero_in (place 0 zero_runs boots) in
        let one_in = later (later late (clear 1 lt (on.at_entry 1))) (vector 1 lt refl) in
        let flagged = later one_in (publish 0 zero_runs refl (λ e. ground (arith, e))) in
        (_, later flagged (enter 1 lt waits raised), refl, refl)

-- On a memory that performs plain stores late, of a machine with two harts or more whose table is not
-- yet what the boot makes of it: every other hart that is in the scheduler finds the table and the
-- clock as hart 0 has set them up, on every run, exactly if a fence stands before the store of the start
-- flag. The source has none.
pub set_up_published :
    (fenced : Bool) (n : ℕ) (img : Image) (kernelvec : ℕ) (statics : List Task) (b : Kernel)
    → IsPowered b
    → 1 < n
    → b.table ≢ boot_tasks img statics b.table
    → ((u : Kernel) (clock table : Bool)
        → Reach fenced n img kernelvec statics b u clock table
        → (h : ℕ) → u.pc h ≡ in_scheduler
        → h ≢ 0
        → (u.table ≡ boot_tasks img statics b.table) × (u.clock ≡ zero_clock))
      ↔ fenced ≡ true
set_up_published true n img kernelvec statics b on lt blank =
    (λ _. refl, λ _ u clock table r h p _. fence_publishes n img kernelvec statics b on r h p)
set_up_published false n img kernelvec statics b on lt blank = (
  λ safe.
      let (u, r, p, same) = enters_early n img kernelvec statics b on lt in
      let (placed_there, _) = safe u true true r 1 p (omega arith) in absurd (blank (cc)),
  λ e. absurd (cc),
)
