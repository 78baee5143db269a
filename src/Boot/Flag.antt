-- ===== src/Boot/Flag.antt =====
-- The start flag: who may lose it, and when it lets every hart go on.
use gquuuuuunix.Base.{ℕ, ◌<◌, ◌≡◌, ◌≢◌, refl, List, arith}
use gquuuuuunix.Riscv.{w_stvec}
use gquuuuuunix.Task.{Task, Image}
use gquuuuuunix.Boot.{
  entry, cleared, booting, placed, waiting, in_scheduler, Kernel, branch, at_pc, Step, clear,
  vector, place, publish, enter, Reach, here, later, IsPowered,
}
use gquuuuuunix.Boot.Order.{Reach-Inv}

module _ (n : ℕ) (img : Image) (kernelvec : ℕ) (statics : List Task) where
  -- Hart 0 has passed its store and the flag is 0 again.
  record IsStranded (k : ℕ) (u : Kernel) : Type 0 where
    flag_lost : u.flag ≡ 0
    zero_gone : u.pc 0 ≡ in_scheduler
    id : (h : ℕ) → (u.csrs h).tp ≡ h
    nobody_sets_up : (h : ℕ) → (u.pc h ≢ booting) × (u.pc h ≢ placed)
    waits : u.pc k ≡ waiting

  Step-IsStranded :
      {k : ℕ} {u v : Kernel} → Step n img kernelvec statics u v → IsStranded k u → IsStranded k v
  unfolding branch w_stvec
  Step-IsStranded {k} (clear h lt p) s = record {
    flag_lost = refl;
    zero_gone = ground (arith, s.zero_gone, p);
    id = s.id;
    nobody_sets_up = λ j. ground (arith, s.nobody_sets_up j);
    waits = ground (arith, s.waits, p);
  }
  Step-IsStranded {k} (vector h lt p) s = record {
    flag_lost = s.flag_lost;
    zero_gone = ground (arith, s.zero_gone, p);
    id = λ j. ground (arith, s.id j, s.id h);
    nobody_sets_up = λ j. ground (arith, s.nobody_sets_up j, s.id h, s.zero_gone, p);
    waits = ground (arith, s.waits, p);
  }
  Step-IsStranded {k} (place h lt p) s = ground (arith, s.nobody_sets_up h, p)
  Step-IsStranded {k} (publish h lt p) s = ground (arith, s.nobody_sets_up h, p)
  Step-IsStranded {k} (enter h lt p f) s = absurd (f s.flag_lost)

  Reach-IsStranded :
      {k : ℕ} {u v : Kernel} → Reach n img kernelvec statics u v → IsStranded k u → IsStranded k v
  Reach-IsStranded here s = s
  Reach-IsStranded (later r st) s = Step-IsStranded st (Reach-IsStranded r s)

  -- Every hart that takes part is behind its clearing of the flag.
  pub record IsReleased (u : Kernel) : Type 0 where
    pub raised : u.flag ≢ 0
    pub all_cleared : (h : ℕ) → h < n → u.pc h ≢ entry

  Step-IsReleased : {u v : Kernel} → Step n img kernelvec statics u v → IsReleased u → IsReleased v
  unfolding branch
  Step-IsReleased (clear h lt p) s = absurd (s.all_cleared h lt p)
  Step-IsReleased (vector h lt p) s = record {
    raised = s.raised;
    all_cleared = λ j within. ground (arith, s.all_cleared j within);
  }
  Step-IsReleased (place h lt p) s = record {
    raised = s.raised;
    all_cleared = λ j within. ground (arith, s.all_cleared j within);
  }
  Step-IsReleased (publish h lt p) s = record {
    raised = omega arith;
    all_cleared = λ j within. ground (arith, s.all_cleared j within);
  }
  Step-IsReleased (enter h lt p f) s = record {
    raised = s.raised;
    all_cleared = λ j within. ground (arith, s.all_cleared j within);
  }

  pub Reach-IsReleased :
      {u v : Kernel} → Reach n img kernelvec statics u v → IsReleased u → IsReleased v
  Reach-IsReleased here s = s
  Reach-IsReleased (later r st) s = Step-IsReleased st (Reach-IsReleased r s)

  -- If the flag is set once every hart has cleared it, it stays set, and every hart that waits can go
  -- on at any time.
  pub flag_stays :
      {u v : Kernel}
      → u.flag ≢ 0
      → ((h : ℕ) → h < n → u.pc h ≢ entry)
      → Reach n img kernelvec statics u v
      → (v.flag ≢ 0)
        × ((k : ℕ)
            → k < n
            → v.pc k ≡ waiting
            → Step n img kernelvec statics v (at_pc v k in_scheduler))
  flag_stays set all r =
      let s = Reach-IsReleased r (record { raised = set; all_cleared = all }) in
      (s.raised, λ k within p. enter k within p s.raised)

  -- A hart that comes late loses the flag: in any reachable state where hart 0 is in the scheduler,
  -- hart `k` waits and hart `h` has yet to clear the flag, its next step leads to a state from which
  -- no run lets hart `k` go on.
  pub late_clear :
      (b : Kernel) {u : Kernel}
      → IsPowered b
      → Reach n img kernelvec statics b u
      → (h k : ℕ) → h < n
      → u.pc 0 ≡ in_scheduler
      → u.pc h ≡ entry
      → u.pc k ≡ waiting
      → (u' : Kernel) × Step n img kernelvec statics u u'
        × ((v : Kernel) → Reach n img kernelvec statics u' v → v.pc k ≡ waiting)
  late_clear b {u} on r h k lt zero late waits =
      let inv = Reach-Inv n img kernelvec statics b on r in
      let s : IsStranded k (record (at_pc u h cleared) { flag = 0 }) = record {
        flag_lost = refl;
        zero_gone = ground (arith, zero, late);
        id = inv.id;
        nobody_sets_up = λ j. ground (arith, inv.only_zero j, zero);
        waits = ground (arith, waits, late);
      } in
      (
        record (at_pc u h cleared) { flag = 0 },
        clear h lt late,
        λ v far. (Reach-IsStranded far s).waits,
      )
