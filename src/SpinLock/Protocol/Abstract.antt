-- ===== src/SpinLock/Protocol/Abstract.antt =====
-- What a lock is for its users: at most one hart has it. The access-by-access lock of
-- SpinLock/Protocol.antt refines this.
use gquuuuuunix.Base.{
  ℕ, ◌≡◌, refl, ◌⊎◌, inl, inr, true, false, Option, none, some, List, [], ◌∷◌, update, ◌==◌,
  ==_refl, if◌then◌else◌, ◌↔◌, ap, ◌∙◌, arith,
}
use gquuuuuunix.SpinLock.Protocol.{
  Shared, Pc, stopped, Move, enter, word_free, word_set, cpu_other, cpu_self, test_set_fails,
  test_set_wins, write_cpu, exit, leave_free, leave_set, leave_other, leave_self, clear_cpu,
  free_word, System, pick, Reach, start, later, owns,
}
use gquuuuuunix.SpinLock.Protocol.Safety.{Inv, Reach-Inv}

-- What a user of the lock sees.
pub data Event : Type 0 where
  acquired released : ℕ → Event

-- The abstract lock: who has it. A hart acquires it if nobody has it, and releases it if it has it.
unfoldable pub accept : Event → Option ℕ → Option (Option ℕ)
accept (acquired h) none = some (some h)
accept (acquired h) (some k) = none
accept (released h) none = none
accept (released h) (some k) = if k == h then some none else none

-- A run of the abstract lock over events, the oldest first; `none` where it refuses one.
unfoldable pub accepts : List Event → Option (Option ℕ)
accepts [] = some none
accepts (e ∷ past) = elim (accepts past) [ none ↦ none | some holder ↦ accept e holder ]

-- The winning exchange acquires the lock, and the store of 0 releases it.
unfoldable pub remember :
    {h : ℕ} {m m' : Shared} {p p' : Pc} → Move h m p m' p' → List Event → List Event
remember {h} (test_set_wins _) past = acquired h ∷ past
remember {h} free_word past = released h ∷ past
remember _ past = past

-- What the users saw up to a reachable state, the latest event first.
unfoldable pub history : {s : System} → Reach s → List Event
unfolding remember
history start = []
history (later r (pick h mv)) = remember mv (history r)

module _ (h : ℕ) where
  effect :
      {m m' : Shared} {p p' : Pc} (mv : Move h m p m' p') (past : List Event)
      → ((remember mv past ≡ past) × (owns p' ≡ owns p))
        ⊎ ((remember mv past ≡ acquired h ∷ past) × (m.is_locked ≡ 0) × (owns p' ≡ true))
        ⊎ ((remember mv past ≡ released h ∷ past) × (owns p ≡ true) × (owns p' ≡ false))
        ⊎ (p' ≡ stopped)
  unfolding remember
  effect enter past = inl (refl, refl)
  effect (word_free g) past = inl (refl, refl)
  effect (word_set g) past = inl (refl, refl)
  effect (cpu_other g) past = inl (refl, refl)
  effect (cpu_self g) past = inr (inr (inr refl))
  effect (test_set_fails g) past = inl (refl, refl)
  effect (test_set_wins g) past = inr (inl (refl, g, refl))
  effect write_cpu past = inl (refl, refl)
  effect exit past = inl (refl, refl)
  effect (leave_free g) past = inr (inr (inr refl))
  effect (leave_set g) past = inl (refl, refl)
  effect (leave_other g) past = inr (inr (inr refl))
  effect (leave_self g) past = inl (refl, refl)
  effect clear_cpu past = inl (refl, refl)
  effect free_word past = inr (inr (inl (refl, refl, refl)))

abbrev Holds : System → Option ℕ → Type 0
Holds s holder = (h : ℕ) → (holder ≡ some h) ↔ (owns (s.pc h) ≡ true)

accept-acquired :
    (past : List Event) (o : Option ℕ) (h : ℕ)
    → accepts past ≡ some o
    → o ≡ none
    → accepts (acquired h ∷ past) ≡ some (some h)
unfolding accepts accept
accept-acquired past o h run free = rw (run, free) refl

accept-released :
    (past : List Event) (o : Option ℕ) (h : ℕ)
    → accepts past ≡ some o
    → o ≡ some h
    → accepts (released h ∷ past) ≡ some none
unfolding accepts accept
accept-released past o h run mine = rw (run, mine, ==_refl h) refl

-- While the word is 0 the abstract lock is free.
free_holder :
    (o : Option ℕ) {s : System} → Inv s.mem s.pc → Holds s o → s.mem.is_locked ≡ 0 → o ≡ none
free_holder none inv holds free = refl
free_holder (some k) inv holds free = absurd (inv.word_of_owner k ((holds k).0 refl) free)

-- One access, matched by the abstract lock.
step_refines :
    {s : System} (past : List Event) (o : Option ℕ) (h : ℕ) {m : Shared} {p : Pc}
    (mv : Move h s.mem (s.pc h) m p)
    → Inv s.mem s.pc
    → Inv m (update s.pc h p)
    → accepts past ≡ some o
    → Holds s o
    → (o' : Option ℕ) × (accepts (remember mv past) ≡ some o')
      × Holds (record { mem = m; pc = update s.pc h p }) o'
step_refines {s} past o h mv inv inv' run holds = elim (effect h mv past) [
  | inl (same, own) ↦ (o, ap accepts same ∙ run, λ k. ground (arith, own, holds k))
  | inr (inl (e, free, own)) ↦ (
    some h,
    ap accepts e ∙ accept-acquired past o h run (free_holder o inv holds free),
    λ k. ground (arith, own, free, inv.word_of_owner k),
  )
  | inr (inr (inl (e, own, own'))) ↦ (
    none,
    ap accepts e ∙ accept-released past o h run ((holds h).1 own),
    λ k. ground (arith, own, own', inv.unique h k),
  )
  | inr (inr (inr e)) ↦ absurd (inv'.alive h (rw (==_refl h) e))
]

-- The lock refines the abstract one: what its users see in any run is a run of the abstract lock,
-- and the hart that has the abstract lock at the end is the one between its winning `TEST_SET` and
-- its store of 0.
pub lock_refines :
    {s : System} (r : Reach s)
    → (holder : Option ℕ) × (accepts (history r) ≡ some holder)
      × ((h : ℕ) → (holder ≡ some h) ↔ (owns (s.pc h) ≡ true))
unfolding history accepts
lock_refines start = (none, refl, λ h. ((λ e. cc), (λ e. cc)))
lock_refines (later r (pick h mv)) =
    let (o, run, holds) = lock_refines r in
    step_refines (history r) o h mv (Reach-Inv r) (Reach-Inv (later r (pick h mv))) run holds
