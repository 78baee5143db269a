-- ===== src/SpinLock/Ordering/Late.antt =====
-- With the fence of `release_lk`, late stores do no harm to the spin lock.
use gquuuuuunix.Base.{ℕ, ◌≡◌, ◌≢◌, refl, true, none, some, update, arith}
use gquuuuuunix.SpinLock.Protocol.{Shared, Pc, freeing, stopped, owns}
use gquuuuuunix.SpinLock.Protocol.Safety.{named}
use gquuuuuunix.SpinLock.Ordering.{
  Pending, nothing, seen, Move, enter, word_free, word_set, cpu_other, cpu_self, test_set_fails,
  test_set_wins, leave_free, leave_set, leave_other, leave_self, free_word, System, pick, Reach,
  start, later,
}

record Inv (m : Shared) (late : ℕ → Pending) (pc : ℕ → Pc) : Type 0 where
  alive : (h : ℕ) → pc h ≢ stopped
  word_of_owner : (h : ℕ) → owns (pc h) ≡ true → m.is_locked ≢ 0
  unique : (h k : ℕ) → owns (pc h) ≡ true → owns (pc k) ≡ true → h ≡ k
  owner_of_late : (h : ℕ) → late h ≢ nothing → owns (pc h) ≡ true
  owner_of_cpu : (h : ℕ) → m.cpu ≡ some h → owns (pc h) ≡ true
  named_seen : (h : ℕ) → named (pc h) ≡ true → seen h (late h) m.cpu ≡ some h
  null_seen : (h : ℕ) → pc h ≡ freeing → seen h (late h) m.cpu ≡ none

-- The premise of a move, for the catch-all clauses below.
abbrev Guard :
    {h : ℕ} {m m' : Shared} {l l' : Pending} {p p' : Pc} → Move true h m l p m' l' p' → Type 0
Guard {m} (word_free _) = m.is_locked ≡ 0
Guard {m} (word_set _) = m.is_locked ≢ 0
Guard {h} {m} {l = l} (cpu_other _) = seen h l m.cpu ≢ some h
Guard {h} {m} {l = l} (cpu_self _) = seen h l m.cpu ≡ some h
Guard {m} (test_set_fails _) = m.is_locked ≢ 0
Guard {m} (test_set_wins _) = m.is_locked ≡ 0
Guard {m} (leave_free _) = m.is_locked ≡ 0
Guard {m} (leave_set _) = m.is_locked ≢ 0
Guard {h} {m} {l = l} (leave_other _) = seen h l m.cpu ≢ some h
Guard {h} {m} {l = l} (leave_self _) = seen h l m.cpu ≡ some h
Guard {l = l} (free_word _) = l ≡ nothing
Guard _ = Unit {0}

guard :
    {h : ℕ} {m m' : Shared} {l l' : Pending} {p p' : Pc} (mv : Move true h m l p m' l' p')
    → Guard mv
guard (word_free g) = g
guard (word_set g) = g
guard (cpu_other g) = g
guard (cpu_self g) = g
guard (test_set_fails g) = g
guard (test_set_wins g) = g
guard (leave_free g) = g
guard (leave_set g) = g
guard (leave_other g) = g
guard (leave_self g) = g
guard (free_word g) = g refl
guard _ = tt

module _ {m : Shared} {late : ℕ → Pending} {pc : ℕ → Pc} (inv : Inv m late pc) (h : ℕ) where
  open inv use {alive, word_of_owner, unique, owner_of_late, owner_of_cpu, named_seen, null_seen}

  -- The invariant at one hart.
  facts :
      (k : ℕ)
      → (pc k ≢ stopped)
        × (owns (pc k) ≡ true → m.is_locked ≢ 0)
        × (late k ≢ nothing → owns (pc k) ≡ true)
        × (m.cpu ≡ some k → owns (pc k) ≡ true)
        × (named (pc k) ≡ true → seen k (late k) m.cpu ≡ some k)
        × (pc k ≡ freeing → seen k (late k) m.cpu ≡ none)
  facts k = (alive k, word_of_owner k, owner_of_late k, owner_of_cpu k, named_seen k, null_seen k)

  Move-alive :
      {m' : Shared} {l l' : Pending} {p p' : Pc}
      → Move true h m l p m' l' p'
      → late h ≡ l
      → pc h ≡ p
      → (k : ℕ) → update pc h p' k ≢ stopped
  Move-alive enter at place k = ground (arith, at, place, facts h, facts k, unique h k)
  Move-alive mv at place k = ground (arith, guard mv, at, place, facts h, facts k, unique h k)

  Move-word_of_owner :
      {m' : Shared} {l l' : Pending} {p p' : Pc}
      → Move true h m l p m' l' p'
      → late h ≡ l
      → pc h ≡ p
      → (k : ℕ) → owns (update pc h p' k) ≡ true
      → m'.is_locked ≢ 0
  Move-word_of_owner enter at place k o = ground (arith, at, place, facts h, facts k, unique h k)
  Move-word_of_owner mv at place k o =
      ground (arith, guard mv, at, place, facts h, facts k, unique h k)

  Move-unique :
      {m' : Shared} {l l' : Pending} {p p' : Pc}
      → Move true h m l p m' l' p'
      → late h ≡ l
      → pc h ≡ p
      → (j k : ℕ) → owns (update pc h p' j) ≡ true
      → owns (update pc h p' k) ≡ true
      → j ≡ k
  Move-unique enter at place j k oj ok =
      ground (arith, at, place, unique j k, word_of_owner j, word_of_owner k)
  Move-unique mv at place j k oj ok =
      ground (arith, guard mv, at, place, unique j k, word_of_owner j, word_of_owner k)

  Move-owner_of_late :
      {m' : Shared} {l l' : Pending} {p p' : Pc}
      → Move true h m l p m' l' p'
      → late h ≡ l
      → pc h ≡ p
      → (k : ℕ) → update late h l' k ≢ nothing
      → owns (update pc h p' k) ≡ true
  Move-owner_of_late enter at place k o = ground (arith, at, place, facts h, facts k, unique h k)
  Move-owner_of_late mv at place k o =
      ground (arith, guard mv, at, place, facts h, facts k, unique h k)

  Move-owner_of_cpu :
      {m' : Shared} {l l' : Pending} {p p' : Pc}
      → Move true h m l p m' l' p'
      → late h ≡ l
      → pc h ≡ p
      → (k : ℕ) → m'.cpu ≡ some k
      → owns (update pc h p' k) ≡ true
  Move-owner_of_cpu enter at place k o = ground (arith, at, place, facts h, facts k, unique h k)
  Move-owner_of_cpu mv at place k o =
      ground (arith, guard mv, at, place, facts h, facts k, unique h k)

  Move-named_seen :
      {m' : Shared} {l l' : Pending} {p p' : Pc}
      → Move true h m l p m' l' p'
      → late h ≡ l
      → pc h ≡ p
      → (k : ℕ) → named (update pc h p' k) ≡ true
      → seen k (update late h l' k) m'.cpu ≡ some k
  Move-named_seen enter at place k o = ground (arith, at, place, facts h, facts k, unique h k)
  Move-named_seen mv at place k o =
      ground (arith, guard mv, at, place, facts h, facts k, unique h k)

  Move-null_seen :
      {m' : Shared} {l l' : Pending} {p p' : Pc}
      → Move true h m l p m' l' p'
      → late h ≡ l
      → pc h ≡ p
      → (k : ℕ) → update pc h p' k ≡ freeing
      → seen k (update late h l' k) m'.cpu ≡ none
  Move-null_seen enter at place k o = ground (arith, at, place, facts h, facts k, unique h k)
  Move-null_seen mv at place k o = ground (arith, guard mv, at, place, facts h, facts k, unique h k)

  Move-Inv :
      {m' : Shared} {l l' : Pending} {p p' : Pc}
      → Move true h m l p m' l' p'
      → late h ≡ l
      → pc h ≡ p
      → Inv m' (update late h l') (update pc h p')
  Move-Inv mv at place = record {
    alive = Move-alive mv at place;
    word_of_owner = Move-word_of_owner mv at place;
    unique = Move-unique mv at place;
    owner_of_late = Move-owner_of_late mv at place;
    owner_of_cpu = Move-owner_of_cpu mv at place;
    named_seen = Move-named_seen mv at place;
    null_seen = Move-null_seen mv at place;
  }

Reach-Inv : {s : System} → Reach true s → Inv s.mem s.late s.pc
Reach-Inv start = record {
  alive = λ h. cc;
  word_of_owner = λ h o. cc;
  unique = λ h k o. cc;
  owner_of_late = λ h ne. absurd (ne refl);
  owner_of_cpu = λ h o. cc;
  named_seen = λ h o. cc;
  null_seen = λ h o. cc;
}
Reach-Inv (later r (pick h at place mv)) = Move-Inv (Reach-Inv r) h mv at place

-- With the fence, no hart stops in a `PANIC` of the lock, and at most one owns it.
pub late-safe :
    {s : System}
    → Reach true s
    → ((h : ℕ) → s.pc h ≢ stopped)
      × ((h k : ℕ) → owns (s.pc h) ≡ true → owns (s.pc k) ≡ true → h ≡ k)
late-safe r = let inv = Reach-Inv r in (inv.alive, inv.unique)
