-- ===== src/Boot/Release.antt =====
-- Once the flag is set for good, every hart comes to the scheduler.
use gquuuuuunix.Base.{ℕ, zero, suc, ◌≤◌, ◌<◌, ◌≡◌, ◌≢◌, refl, List, ==_refl, update, ◌∙◌, arith}
use gquuuuuunix.Riscv.{w_stvec}
use gquuuuuunix.Task.{Task, Image}
use gquuuuuunix.Boot.{
  Pc, entry, cleared, booting, placed, waiting, in_scheduler, Kernel, branch, at_pc, vector, enter,
  Reach, here, later, IsPowered,
}
use gquuuuuunix.Boot.Order.{Reach-Inv}
use gquuuuuunix.Boot.Flag.{IsReleased, Reach-IsReleased}

module _ (n : ℕ) (img : Image) (kernelvec : ℕ) (statics : List Task) where
  Reach-trans :
      {u v w : Kernel}
      → Reach n img kernelvec statics u v
      → Reach n img kernelvec statics v w
      → Reach n img kernelvec statics u w
  Reach-trans r here = r
  Reach-trans r (later s st) = later (Reach-trans r s) st

  -- Hart `k` comes to the scheduler by itself.
  abbrev Enters : ℕ → Kernel → Type 0
  Enters k u =
      (v : Kernel) × Reach n img kernelvec statics u v
      × (v.pc k ≡ in_scheduler)
      × ((j : ℕ) → j ≢ k → v.pc j ≡ u.pc j)

  waiting-Enters : (k : ℕ) (u : Kernel) → k < n → u.flag ≢ 0 → u.pc k ≡ waiting → Enters k u
  waiting-Enters k u lt set p = (
    at_pc u k in_scheduler,
    later here (enter k lt p set),
    rw (==_refl k) refl,
    λ j ne. ground (arith, ne),
  )

  -- A hart other than 0 that has yet to set its vector.
  cleared-Enters :
      (k : ℕ) (u : Kernel)
      → k < n
      → u.flag ≢ 0
      → (u.csrs k).tp ≡ k
      → k ≢ 0
      → u.pc k ≡ cleared
      → Enters k u
  unfolding branch
  cleared-Enters k u lt set id other p =
      let w : Kernel = record (at_pc u k (branch (u.csrs k))) {
        csrs = update u.csrs k (w_stvec kernelvec (u.csrs k));
      } in
      let (v, r, in_place, others) = waiting-Enters k w lt set (ground (arith, id, other)) in
      (
        v,
        Reach-trans (later here (vector k lt p)) r,
        in_place,
        λ j ne. others j ne ∙ ground (arith, ne),
      )

  module _ (b : Kernel) (on : IsPowered b) where
    each-Enters :
        (k : ℕ) (u : Kernel)
        → k < n
        → Reach n img kernelvec statics b u
        → IsReleased n img kernelvec statics u
        → (p : Pc) → u.pc k ≡ p
        → Enters k u
    each-Enters k u lt r s entry e = absurd (s.all_cleared k lt e)
    each-Enters k u lt r s cleared e =
        let inv = Reach-Inv n img kernelvec statics b on r in
        cleared-Enters k u lt s.raised (inv.id k)
          (λ zero_hart. ground (arith, inv.flag_set k, e, s.raised, zero_hart)) e
    each-Enters k u lt r s booting e =
        let inv = Reach-Inv n img kernelvec statics b on r in
        ground (arith, inv.flag_set k, inv.only_zero k, e, s.raised)
    each-Enters k u lt r s placed e =
        let inv = Reach-Inv n img kernelvec statics b on r in
        ground (arith, inv.flag_set k, inv.only_zero k, e, s.raised)
    each-Enters k u lt r s waiting e = waiting-Enters k u lt s.raised e
    each-Enters k u lt r s in_scheduler e = (u, here, e, λ j ne. refl)

    all_enter :
        (m : ℕ) (u : Kernel)
        → m ≤ n
        → Reach n img kernelvec statics b u
        → IsReleased n img kernelvec statics u
        → (v : Kernel) × Reach n img kernelvec statics u v
          × ((h : ℕ) → h < m → v.pc h ≡ in_scheduler)
    all_enter zero u le r s = (u, here, λ h lt. absurd (omega (arith, lt)))
    all_enter (suc m) u le r s =
        let (v, far, all) = all_enter m u (omega (arith, le)) r s in
        let s' = Reach-IsReleased n img kernelvec statics far s in
        let (w, on_the_way, in_place, others) =
          each-Enters m v (omega (arith, le)) (Reach-trans r far) s' (v.pc m) refl in
        (w, Reach-trans far on_the_way, λ h lt. ground (arith, lt, in_place, others h, all h))

  -- From power-on, if the flag is set once every hart has cleared it, every hart comes to the scheduler:
  -- whatever the harts have done since, there is a run from there in which all of them do.
  pub everyone_enters :
      (b : Kernel) {u v : Kernel}
      → IsPowered b
      → Reach n img kernelvec statics b u
      → u.flag ≢ 0
      → ((h : ℕ) → h < n → u.pc h ≢ entry)
      → Reach n img kernelvec statics u v
      → (w : Kernel) × Reach n img kernelvec statics v w × ((h : ℕ) → h < n → w.pc h ≡ in_scheduler)
  everyone_enters b {u} {v} on r set all far =
      all_enter b on n v (omega arith) (Reach-trans r far)
        (Reach-IsReleased n img kernelvec statics far (record { raised = set; all_cleared = all }))
