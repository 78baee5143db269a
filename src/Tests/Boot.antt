-- ===== src/Tests/Boot.antt =====
-- Three harts boot, one of them late.
use gquuuuuunix.Base.{
  ap, none, some, Bool, true, false, ◌↔◌, ℕ, ◌≤◌, ◌<◌, ◌≡◌, ◌≢◌, refl, List, [], ◌∷◌, update, arith,
}
use gquuuuuunix.Riscv.{w_stvec}
use gquuuuuunix.Cpu.{Context}
use gquuuuuunix.Task.{Task, Image, add_task, spawn, spawn_all, init_locks, boot_tasks}
use gquuuuuunix.Boot.{
  entry, cleared, booting, placed, waiting, in_scheduler, Kernel, zero_clock, branch, at_pc, Step,
  clear, vector, place, publish, Reach, here, later, IsPowered,
}
use gquuuuuunix.Boot.Order.{boot_order}
use gquuuuuunix.Boot.Flag.{late_clear}
use gquuuuuunix.Boot.Release.{everyone_enters}
use gquuuuuunix.Boot.World.{zero_table, scheduler_world}
use gquuuuuunix.Boot.Whole as Whole
use gquuuuuunix.Boot.Whole.{scheduling}
use gquuuuuunix.Boot.Whole.Safety.{whole_is_safe}
use gquuuuuunix.Boot.Ordering as Ordering
use gquuuuuunix.Boot.Ordering.Needed.{set_up_published}
use gquuuuuunix.Sched.System.{World, round}
use gquuuuuunix.Sched.System.Moved.{runs}
use gquuuuuunix.Sched.System.Safety.{Proceeds}
use gquuuuuunix.Tests.Data.{csrs_of, context_at, ready_task}

abbrev image : Image
image = record { dummy_task = 2147487744; task_stack = 2147500032 }

abbrev statics : List Task
statics = ready_task ∷ ready_task ∷ []

abbrev kernelvec : ℕ
kernelvec = 2147484672

abbrev powered : Kernel
powered = record {
  flag = 1;
  table = zero_table;
  clock = zero_clock;
  csrs = csrs_of;
  pc = λ _. entry;
}

powered-IsPowered : IsPowered powered
powered-IsPowered = record { at_entry = λ h. refl; id = λ h. refl }

-- Hart 0 boots, with harts 1 and 2 still at the entry.
abbrev zero_cleared : Kernel
zero_cleared = record (at_pc powered 0 cleared) { flag = 0 }

abbrev zero_armed : Kernel
zero_armed = record (at_pc zero_cleared 0 (branch (csrs_of 0))) {
  csrs = update csrs_of 0 (w_stvec kernelvec (csrs_of 0));
}

abbrev zero_placed : Kernel
zero_placed = record (at_pc zero_armed 0 placed) {
  clock = zero_clock;
  table = boot_tasks image statics zero_table;
}

-- Hart 1 comes to its wait.
abbrev one_cleared : Kernel
one_cleared = record (at_pc zero_placed 1 cleared) { flag = 0 }

abbrev one_armed : Kernel
one_armed = record (at_pc one_cleared 1 (branch (csrs_of 1))) {
  csrs = update one_cleared.csrs 1 (w_stvec kernelvec (csrs_of 1));
}

abbrev published : Kernel
published = record (at_pc one_armed 0 in_scheduler) { flag = 1 }

-- Harts 0 and 1 can do this with any others beside them.
boots : (n : ℕ) → 2 ≤ n → Reach n image kernelvec statics powered published
unfolding branch
boots n le =
    later
      (later
        (later
          (later (later (later here (clear 0 (omega arith) refl)) (vector 0 (omega arith) refl))
            (place 0 (omega arith) refl))
          (clear 1 (omega arith) refl))
        (vector 1 (omega arith) refl))
      (publish 0 (omega arith) refl)

published_reached : Reach 3 image kernelvec statics powered published
published_reached = boots 3 (omega arith)

boot_order_example :
    (published.pc 0 ≡ in_scheduler
      → (published.table ≡ boot_tasks image statics zero_table)
        × (published.clock ≡ zero_clock)
        × ((published.csrs 0).stvec ≡ kernelvec))
    × (published.pc 0 ≡ booting → ◌≡◌ {A = ℕ} 0 0)
boot_order_example =
    boot_order 3 image kernelvec statics powered powered-IsPowered published_reached 0

-- Hart 2 is still at the entry.
waits_at : published.pc 1 ≡ waiting
unfolding branch
waits_at = refl

late_clear_example :
    (u' : Kernel) × Step 3 image kernelvec statics published u'
    × ((v : Kernel) → Reach 3 image kernelvec statics u' v → v.pc 1 ≡ waiting)
late_clear_example =
    late_clear 3 image kernelvec statics powered powered-IsPowered published_reached 2 1
      (omega arith) refl refl waits_at

-- With the two harts alone, hart 1 goes on.
two_cleared : (h : ℕ) → h < 2 → published.pc h ≢ entry
unfolding branch
two_cleared h lt = ground (arith, lt)

everyone_enters_example :
    (w : Kernel) × Reach 2 image kernelvec statics published w
    × ((h : ℕ) → h < 2 → w.pc h ≡ in_scheduler)
everyone_enters_example =
    everyone_enters 2 image kernelvec statics powered powered-IsPowered (boots 2 (omega arith))
      (omega arith) two_cleared here

abbrev regs : ℕ → Context
regs h = context_at 200

published-Fits : (h : ℕ) → (published.csrs h).sstatus < 18446744073709551616
unfolding w_stvec
published-Fits h = ground arith

-- Hart 2 clears the flag while hart 0 begins a round.
abbrev late_two :
    (k : Kernel) × (w : World) × Whole.Reach 3 image kernelvec statics published
      (scheduler_world published regs)
      k
      w
late_two = (
  _,
  _,
  Whole.later (Whole.later Whole.here (Whole.booting (clear 2 (omega arith) refl)))
      (scheduling (round 0 (omega arith) refl) refl),
)

whole_is_safe_example :
    ((h j i : ℕ) → runs (late_two.1.pc h) ≡ some i → runs (late_two.1.pc j) ≡ some i → h ≡ j)
    × ((h : ℕ) → h < 3 → Proceeds late_two.1 h (late_two.1.pc h))
    × ((h : ℕ) → late_two.0.pc h ≢ in_scheduler → runs (late_two.1.pc h) ≡ none)
whole_is_safe_example =
    whole_is_safe image statics (omega arith) (omega arith) 3 kernelvec (omega arith) powered
      powered-IsPowered refl published_reached refl published-Fits regs late_two.2

zero_table-IsBlank : zero_table ≢ boot_tasks image statics zero_table
unfolding boot_tasks spawn_all spawn add_task init_locks
zero_table-IsBlank e = let counts : ◌≡◌ {A = ℕ} 0 2 = ap (λ t. t.task_nrs) e in omega arith

set_up_published_example :
    ((u : Kernel) (clock table : Bool)
      → Ordering.Reach false 3 image kernelvec statics powered u clock table
      → (h : ℕ) → u.pc h ≡ in_scheduler
      → h ≢ 0
      → (u.table ≡ boot_tasks image statics zero_table) × (u.clock ≡ zero_clock))
    ↔ ◌≡◌ {A = Bool} false true
set_up_published_example =
    set_up_published false 3 image kernelvec statics powered powered-IsPowered (omega arith)
      zero_table-IsBlank
