-- ===== src/SpinLock/Ordering/Needed.antt =====
-- What could happen if `release_lk` had no fence before the store that frees the lock.
use gquuuuuunix.Base.{
  ℕ, ◌≡◌, ◌≢◌, ◌↔◌, refl, Bool, true, false, none, some, ◌==◌, ==_refl, if◌then◌else◌, update,
  fun_ext, subst, arith,
}
use gquuuuuunix.SpinLock.Protocol.{Shared, Pc, outside, critical, stopped}
use gquuuuuunix.SpinLock.Ordering.{
  Pending, nothing, null, Move, enter, word_free, test_set_wins, store_cpu, exit, leave_set,
  leave_other, leave_self, store_null, free_word, perform_own, perform_null, System, pick, init,
  Reach, start, later,
}
use gquuuuuunix.SpinLock.Ordering.Late.{late-safe}

-- One value for `h`, one for `k`, and one for all others.
abbrev two {ℓ} : {A : Type ℓ} → ℕ → ℕ → A → A → A → ℕ → A
two h k a b c j = if j == h then a else if j == k then b else c

two-same {ℓ} : {A : Type ℓ} (h k : ℕ) (c : A) → (λ _. c) ≡ two h k c c c
two-same h k c = fun_ext (λ j. ground arith)

two-first {ℓ} : {A : Type ℓ} (h k : ℕ) (a b c a' : A) → update (two h k a b c) h a' ≡ two h k a' b c
two-first h k a b c a' = fun_ext (λ j. ground arith)

two-second {ℓ} :
    {A : Type ℓ} (h k : ℕ) (a b c b' : A) → h ≢ k → update (two h k a b c) k b' ≡ two h k a b' c
two-second h k a b c b' ne = fun_ext (λ j. ground (arith, ne))

module _ (h k : ℕ) (ne : h ≢ k) where
  -- Both harts somewhere, and all others outside.
  abbrev both_at : Shared → Pending → Pc → Pending → Pc → System
  both_at m l p l' p' = record { mem = m; late = two h k l l' nothing; pc = two h k p p' outside }

  at_second {ℓ} : {A : Type ℓ} (a b c : A) → two h k a b c k ≡ b
  at_second a b c = ground (arith, ne)

  first_moves :
      (q : Pending) (r : Pc) {m m' : Shared} {l l' : Pending} {p p' : Pc}
      → Reach false (both_at m l p q r)
      → Move false h m l p m' l' p'
      → Reach false (both_at m' l' p' q r)
  first_moves q r {m' = m'} {l = l} {l' = l'} {p = p} {p' = p'} run mv =
      let next : System = record {
        mem = m';
        late = update (two h k l q nothing) h l';
        pc = update (two h k p r outside) h p';
      } in
      let there : next ≡ both_at m' l' p' q r = λ i. record {
        mem = m';
        late = two-first h k l q nothing l' i;
        pc = two-first h k p r outside p' i;
      } in
      subst (Reach false) there (later run (pick h (rw (==_refl h) refl) (rw (==_refl h) refl) mv))

  second_moves :
      (l : Pending) (p : Pc) {m m' : Shared} {q q' : Pending} {r r' : Pc}
      → Reach false (both_at m l p q r)
      → Move false k m q r m' q' r'
      → Reach false (both_at m' l p q' r')
  second_moves l p {m' = m'} {q = q} {q' = q'} {r = r} {r' = r'} run mv =
      let next : System = record {
        mem = m';
        late = update (two h k l q nothing) k q';
        pc = update (two h k p r outside) k r';
      } in
      let there : next ≡ both_at m' l p q' r' = λ i. record {
        mem = m';
        late = two-second h k l q nothing q' ne i;
        pc = two-second h k p r outside r' ne i;
      } in
      subst (Reach false) there
        (later run (pick k (at_second l q nothing) (at_second p r outside) mv))

  begin :
      Reach false (both_at (record { is_locked = 0; cpu = none }) nothing outside nothing outside)
  begin =
      let there : init
          ≡ both_at (record { is_locked = 0; cpu = none }) nothing outside nothing outside =
        λ i. record {
          mem = record { is_locked = 0; cpu = none };
          late = two-same h k nothing i;
          pc = two-same h k outside i;
        } in
      subst (Reach false) there start

  -- Hart `h` takes the lock and frees it while its store of NULL is still to come.
  freed_early :
      Reach false (both_at (record { is_locked = 0; cpu = some h }) null outside nothing outside)
  freed_early =
      let in_lock =
        first_moves nothing outside
          (first_moves nothing outside
            (first_moves nothing outside
              (first_moves nothing outside (first_moves nothing outside begin enter)
                (word_free refl))
              (test_set_wins refl))
            store_cpu)
          perform_own in
      let leaves =
        first_moves nothing outside
          (first_moves nothing outside (first_moves nothing outside in_lock exit)
            (leave_set (omega arith)))
          (leave_self refl) in
      first_moves nothing outside (first_moves nothing outside leaves store_null)
        (free_word (λ e. cc))

  -- Hart `k` takes it, and the store of NULL is performed over its own pointer.
  overwritten :
      Reach false (both_at (record { is_locked = 1; cpu = none }) nothing outside nothing critical)
  overwritten =
      let in_lock =
        second_moves null outside
          (second_moves null outside
            (second_moves null outside
              (second_moves null outside (second_moves null outside freed_early enter)
                (word_free refl))
              (test_set_wins refl))
            store_cpu)
          perform_own in
      first_moves nothing critical in_lock perform_null

  -- Its `release` then finds another owner.
  panics :
      Reach false (both_at (record { is_locked = 1; cpu = none }) nothing outside nothing stopped)
  panics =
      second_moves nothing outside
        (second_moves nothing outside (second_moves nothing outside overwritten exit)
          (leave_set (omega arith)))
        (leave_other (λ e. cc))

-- On a memory that performs plain stores late, the lock's checks never stop a hart in a `PANIC` exactly if
-- `release_lk` has a fence, as in the source, before the store that frees the lock.
pub fence_needed :
    (fenced : Bool) → ((s : System) → Reach fenced s → (h : ℕ) → s.pc h ≢ stopped) ↔ fenced ≡ true
fence_needed true = (λ _. refl, λ _ s r h. (late-safe r).0 h)
fence_needed false = (λ safe. absurd (safe _ (panics 0 1 (omega arith)) 1 refl), λ e. absurd (cc))
