-- ===== src/SpinLock/Protocol/Safety.antt =====
-- Mutual exclusion, and no hart stops in a `PANIC`.
use gquuuuuunix.Base.{update}
use gquuuuuunix.Base.{ℕ, ◌≡◌, ◌≢◌, ◌↔◌, refl, Bool, true, false, some, ==_refl, arith}
use gquuuuuunix.SpinLock.Protocol.{
  Shared, Pc, critical, leave_word, leave_cpu, leaving, stopped, Move, enter, word_free, word_set,
  cpu_other, cpu_self, test_set_fails, test_set_wins, leave_free, leave_set, leave_other,
  leave_self, free_word, System, Step, pick, Reach, start, later, owns,
}

-- Between the two writes of `cpu` the owner is named there; outside them nobody is.
abbrev pub named : Pc → Bool
named critical = true
named leave_word = true
named leave_cpu = true
named leaving = true
named _ = false

pub record Inv (m : Shared) (pc : ℕ → Pc) : Type 0 where
  pub alive : (h : ℕ) → pc h ≢ stopped
  pub word_of_owner : (h : ℕ) → owns (pc h) ≡ true → m.is_locked ≢ 0
  pub unique : (h k : ℕ) → owns (pc h) ≡ true → owns (pc k) ≡ true → h ≡ k
  pub cpu_of_named : (h : ℕ) → named (pc h) ≡ true → m.cpu ≡ some h
  pub named_of_cpu : (h : ℕ) → m.cpu ≡ some h → named (pc h) ≡ true
  pub held : m.is_locked ≢ 0 → (h : ℕ) × (owns (pc h) ≡ true)

-- The premise of a move, for the catch-all clauses below.
abbrev Guard : {h : ℕ} {m m' : Shared} {p p' : Pc} → Move h m p m' p' → Type 0
Guard {m} (word_free _) = m.is_locked ≡ 0
Guard {m} (word_set _) = m.is_locked ≢ 0
Guard {h} {m} (cpu_other _) = m.cpu ≢ some h
Guard {h} {m} (cpu_self _) = m.cpu ≡ some h
Guard {m} (test_set_fails _) = m.is_locked ≢ 0
Guard {m} (test_set_wins _) = m.is_locked ≡ 0
Guard {m} (leave_free _) = m.is_locked ≡ 0
Guard {m} (leave_set _) = m.is_locked ≢ 0
Guard {h} {m} (leave_other _) = m.cpu ≢ some h
Guard {h} {m} (leave_self _) = m.cpu ≡ some h
Guard _ = Unit

guard : {h : ℕ} {m m' : Shared} {p p' : Pc} (mv : Move h m p m' p') → Guard mv
guard (word_free g) = g
guard (word_set g) = g
guard (cpu_other g) = g
guard (cpu_self g) = g
guard (test_set_fails g) = g
guard (test_set_wins g) = g
guard (leave_free g) = g
guard (leave_set g) = g
guard (leave_other g) = g
guard (leave_self g) = g
guard _ = tt

module _ {m : Shared} {pc : ℕ → Pc} (inv : Inv m pc) (h : ℕ) where
  open inv use {alive, word_of_owner, unique, cpu_of_named, named_of_cpu, held}

  -- The mover's own facts, at its program point `p`.
  Move-alive :
      {p p' : Pc} {m' : Shared} → Move h m p m' p' → pc h ≡ p → (k : ℕ) → update pc h p' k ≢ stopped
  Move-alive enter e k = ground (arith, alive k)
  Move-alive mv e k =
      ground (arith, guard mv, alive k, word_of_owner h, cpu_of_named h, named_of_cpu h)

  Move-word :
      {p p' : Pc} {m' : Shared}
      → Move h m p m' p'
      → pc h ≡ p
      → (k : ℕ) → owns (update pc h p' k) ≡ true
      → m'.is_locked ≢ 0
  Move-word enter e k o = ground (arith, word_of_owner k)
  Move-word mv e k o = ground (arith, guard mv, word_of_owner h, word_of_owner k, unique h k)

  Move-unique :
      {p p' : Pc} {m' : Shared}
      → Move h m p m' p'
      → pc h ≡ p
      → (j k : ℕ) → owns (update pc h p' j) ≡ true
      → owns (update pc h p' k) ≡ true
      → j ≡ k
  Move-unique enter e j k oj ok = ground (arith, unique j k)
  Move-unique mv e j k oj ok =
      ground (arith, guard mv, unique j k, word_of_owner j, word_of_owner k)

  Move-cpu :
      {p p' : Pc} {m' : Shared}
      → Move h m p m' p'
      → pc h ≡ p
      → (k : ℕ) → named (update pc h p' k) ≡ true
      → m'.cpu ≡ some k
  Move-cpu enter e k o = ground (arith, cpu_of_named k)
  Move-cpu mv e k o = ground (arith, guard mv, cpu_of_named k, cpu_of_named h, unique h k)

  Move-named :
      {p p' : Pc} {m' : Shared}
      → Move h m p m' p'
      → pc h ≡ p
      → (k : ℕ) → m'.cpu ≡ some k
      → named (update pc h p' k) ≡ true
  Move-named enter e k o = ground (arith, named_of_cpu k)
  Move-named mv e k o = ground (arith, guard mv, named_of_cpu k, named_of_cpu h, word_of_owner h)

  Move-held :
      {p p' : Pc} {m' : Shared}
      → Move h m p m' p'
      → pc h ≡ p
      → m'.is_locked ≢ 0
      → (k : ℕ) × (owns (update pc h p' k) ≡ true)
  Move-held (test_set_wins g) e o = (h, ground (arith, ==_refl h))
  Move-held (free_word) e o = absurd (o refl)
  Move-held (test_set_fails g) e o = let (k, own) = held g in (k, ground (arith, ==_refl h))
  Move-held mv e o =
      let (k, own) = held o in
      (k, ground (arith, guard mv, word_of_owner h, cpu_of_named h, named_of_cpu h))

  pub Move-Inv : {p' : Pc} {m' : Shared} → Move h m (pc h) m' p' → Inv m' (update pc h p')
  Move-Inv mv = record {
    alive = Move-alive mv refl;
    word_of_owner = Move-word mv refl;
    unique = Move-unique mv refl;
    cpu_of_named = Move-cpu mv refl;
    named_of_cpu = Move-named mv refl;
    held = Move-held mv refl;
  }

-- Every access by any hart keeps the invariant.
pub Step-Inv : {s t : System} → Step s t → Inv s.mem s.pc → Inv t.mem t.pc
Step-Inv (pick h mv) inv = Move-Inv inv h mv

pub Reach-Inv : {s : System} → Reach s → Inv s.mem s.pc
Reach-Inv start = record {
  alive = λ h. cc;
  word_of_owner = λ h o. cc;
  unique = λ h k o. cc;
  cpu_of_named = λ h o. cc;
  named_of_cpu = λ h o. cc;
  held = λ o. absurd (o refl);
}
Reach-Inv (later r st) = Step-Inv st (Reach-Inv r)

-- At every moment at most one hart is between its winning `TEST_SET` and its store of 0; there is
-- such a hart exactly when the lock word is not 0; and no hart ever stops in a `PANIC` of the lock.
pub mutual_exclusion :
    {s : System}
    → Reach s
    → ((h k : ℕ) → owns (s.pc h) ≡ true → owns (s.pc k) ≡ true → h ≡ k)
      × (s.mem.is_locked ≢ 0 ↔ ((h : ℕ) × (owns (s.pc h) ≡ true)))
      × ((h : ℕ) → s.pc h ≢ stopped)
mutual_exclusion r =
    let inv = Reach-Inv r in (inv.unique, (inv.held, λ (h, o). inv.word_of_owner h o), inv.alive)

-- The test that `is_holding` makes is exact: a hart in the critical section, or in the checks of
-- `release_lk`, finds the word set and its own number; a hart that has yet to win `TEST_SET` never
-- finds its own number.
pub is_holding_exact :
    {s : System}
    → Reach s
    → (h : ℕ)
    → (named (s.pc h) ≡ true → (s.mem.is_locked ≢ 0) × (s.mem.cpu ≡ some h))
      × (owns (s.pc h) ≡ false → s.mem.cpu ≢ some h)
is_holding_exact {s} r h =
    let inv = Reach-Inv r in
    (
      λ n. (ground (arith, inv.word_of_owner h), inv.cpu_of_named h n),
      λ out e. ground (arith, inv.named_of_cpu h e),
    )
