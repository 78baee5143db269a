-- ===== src/Boot/Order.antt =====
-- No hart schedules before the tasks are in place.
use gquuuuuunix.Base.{ℕ, ◌≡◌, ◌≢◌, refl, Bool, true, false, List, if◌then◌else◌, update, arith}
use gquuuuuunix.Riscv.{w_stvec}
use gquuuuuunix.Task.{Task, Image, boot_tasks}
use gquuuuuunix.Boot.{
  Pc, entry, cleared, booting, placed, waiting, in_scheduler, Kernel, zero_clock, branch, Step,
  clear, vector, place, publish, enter, Reach, here, later, IsPowered,
}

abbrev of_hart_zero : Pc → Bool
of_hart_zero booting = true
of_hart_zero placed = true
of_hart_zero _ = false

abbrev has_placed : Pc → Bool
has_placed placed = true
has_placed in_scheduler = true
has_placed _ = false

-- Behind `w_stvec`.
abbrev armed : Pc → Bool
armed entry = false
armed cleared = false
armed _ = true

module _ (n : ℕ) (img : Image) (kernelvec : ℕ) (statics : List Task) (b : Kernel) where
  pub record Inv (u : Kernel) : Type 0 where
    pub id : (h : ℕ) → (u.csrs h).tp ≡ h
    pub only_zero : (h : ℕ) → of_hart_zero (u.pc h) ≡ true → h ≡ 0
    pub zero_goes_on : u.pc 0 ≢ waiting
    pub vector_set : (h : ℕ) → armed (u.pc h) ≡ true → (u.csrs h).stvec ≡ kernelvec
    pub flag_set : (h : ℕ) → u.pc h ≢ entry → u.flag ≢ 0 → u.pc 0 ≡ in_scheduler
    pub entered : (h : ℕ) → u.pc h ≡ in_scheduler → u.pc 0 ≡ in_scheduler
    pub table : u.table ≡ (if has_placed (u.pc 0) then boot_tasks img statics b.table else b.table)
    pub clock : u.clock ≡ (if has_placed (u.pc 0) then zero_clock else b.clock)

  module _ {u : Kernel} (inv : Inv u) where
    open inv use {id, only_zero, zero_goes_on, vector_set, flag_set, entered, table, clock}

    clear-Inv : (h : ℕ) → u.pc h ≡ entry → Inv (record u { flag = 0; pc = update u.pc h cleared })
    clear-Inv h p = record {
      id = id;
      only_zero = λ k e. ground (arith, only_zero k);
      zero_goes_on = ground (arith, zero_goes_on);
      vector_set = λ k e. ground (arith, vector_set k);
      flag_set = λ k e f. absurd (f refl);
      entered = λ k e. ground (arith, entered k, p);
      table = ground (arith, table, p);
      clock = ground (arith, clock, p);
    }

    publish-Inv :
        (h : ℕ) → u.pc h ≡ placed → Inv (record u { flag = 1; pc = update u.pc h in_scheduler })
    publish-Inv h p = record {
      id = id;
      only_zero = λ k e. ground (arith, only_zero k);
      zero_goes_on = ground (arith, zero_goes_on);
      vector_set = λ k e. ground (arith, vector_set k, vector_set h, p);
      flag_set = λ k e f. ground (arith, only_zero h, p);
      entered = λ k e. ground (arith, only_zero h, p);
      table = ground (arith, table, p, only_zero h);
      clock = ground (arith, clock, p, only_zero h);
    }

    vector-Inv :
        (h : ℕ)
        → u.pc h ≡ cleared
        → Inv (record u {
          pc = update u.pc h (branch (u.csrs h));
          csrs = update u.csrs h (w_stvec kernelvec (u.csrs h));
        })
    unfolding branch w_stvec
    vector-Inv h p = record {
      id = λ k. ground (arith, id k, id h);
      only_zero = λ k e. ground (arith, only_zero k, id h, p);
      zero_goes_on = ground (arith, zero_goes_on, id h, p);
      vector_set = λ k e. ground (arith, vector_set k);
      flag_set = λ k e f. ground (arith, flag_set k, flag_set h, p, f);
      entered = λ k e. ground (arith, entered k, p);
      table = ground (arith, table, p);
      clock = ground (arith, clock, p);
    }

    place-Inv :
        (h : ℕ)
        → u.pc h ≡ booting
        → Inv (record u {
          pc = update u.pc h placed;
          clock = zero_clock;
          table = boot_tasks img statics u.table;
        })
    place-Inv h p = record {
      id = id;
      only_zero = λ k e. ground (arith, only_zero k, only_zero h, p);
      zero_goes_on = ground (arith, zero_goes_on);
      vector_set = λ k e. ground (arith, vector_set k, vector_set h, p);
      flag_set = λ k e f. ground (arith, flag_set k, flag_set h, p, f, only_zero h);
      entered = λ k e. ground (arith, entered k, p, only_zero h);
      table = ground (arith, table, p, only_zero h);
      clock = ground (arith, clock, p, only_zero h);
    }

    enter-Inv :
        (h : ℕ) → u.pc h ≡ waiting → u.flag ≢ 0 → Inv (record u { pc = update u.pc h in_scheduler })
    enter-Inv h p f = record {
      id = id;
      only_zero = λ k e. ground (arith, only_zero k);
      zero_goes_on = ground (arith, zero_goes_on);
      vector_set = λ k e. ground (arith, vector_set k, vector_set h, p);
      flag_set = λ k e f'. ground (arith, flag_set h, p, f);
      entered = λ k e. ground (arith, flag_set h, p, f);
      table = ground (arith, table, p, zero_goes_on);
      clock = ground (arith, clock, p, zero_goes_on);
    }

  Step-Inv : {u v : Kernel} → Step n img kernelvec statics u v → Inv u → Inv v
  Step-Inv (clear h lt p) inv = clear-Inv inv h p
  Step-Inv (vector h lt p) inv = vector-Inv inv h p
  Step-Inv (place h lt p) inv = place-Inv inv h p
  Step-Inv (publish h lt p) inv = publish-Inv inv h p
  Step-Inv (enter h lt p f) inv = enter-Inv inv h p f

  pub Reach-Inv : {u : Kernel} → IsPowered b → Reach n img kernelvec statics b u → Inv u
  Reach-Inv on here = record {
    id = on.id;
    only_zero = λ h e. ground (arith, on.at_entry h);
    zero_goes_on = ground (arith, on.at_entry 0);
    vector_set = λ h e. ground (arith, on.at_entry h);
    flag_set = λ h e f. absurd (e (on.at_entry h));
    entered = λ h e. ground (arith, on.at_entry h);
    table = ground (arith, on.at_entry 0);
    clock = ground (arith, on.at_entry 0);
  }
  Reach-Inv on (later r st) = Step-Inv st (Reach-Inv on r)

-- Whatever memory holds when the harts come to `kernel_main`, each with its own number in `tp`, and
-- in every order of their steps: a hart is in the scheduler only when hart 0 has put the tasks in
-- place and set the clock, once and for all, and it has its own trap vector set; and no hart but 0
-- sets anything up.
pub boot_order :
    (n : ℕ) (img : Image) (kernelvec : ℕ) (statics : List Task) (b : Kernel) {u : Kernel}
    → IsPowered b
    → Reach n img kernelvec statics b u
    → (h : ℕ)
    → (u.pc h ≡ in_scheduler
        → (u.table ≡ boot_tasks img statics b.table)
          × (u.clock ≡ zero_clock)
          × ((u.csrs h).stvec ≡ kernelvec))
      × (u.pc h ≡ booting → h ≡ 0)
boot_order n img kernelvec statics b on r h =
    let inv = Reach-Inv n img kernelvec statics b on r in
    (
      λ e. (
        ground (arith, inv.table, inv.entered h),
        ground (arith, inv.clock, inv.entered h),
        ground (arith, inv.vector_set h),
      ),
      λ e. ground (arith, inv.only_zero h),
    )
