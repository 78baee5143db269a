-- ===== src/Tests/Protocol.antt =====
-- Two harts and one lock, access by access, and the code that makes these accesses.
use gquuuuuunix.Base.{
  ◌∙◌, ℕ, ◌≡◌, ◌≢◌, ◌↔◌, Bool, refl, Option, none, some, true, List, [], ◌∷◌, ◌++◌, inl, arith,
}
use gquuuuuunix.Outcome.{ok, ◌>>=◌}
use gquuuuuunix.Cpu.{get_cpuid, push_off, pop_off}
use gquuuuuunix.Cpu.Nesting.{IsNested, push_off-IsNested, push_off-nonzero}
use gquuuuuunix.Atomic.{kept, lost}
use gquuuuuunix.SpinLock.{SpinLock, acquire, release}
use gquuuuuunix.SpinLock.Sequential.{get_cpuid-push_off}
use gquuuuuunix.SpinLock.Protocol.{
  Shared, System, init, outside, check_word, trying, taken, critical, leave_word, leave_cpu,
  leaving, freeing, enter, word_free, test_set_wins, write_cpu, exit, leave_set, leave_self,
  clear_cpu, free_word, stopped, Reach, start, owns,
}
use gquuuuuunix.SpinLock.Protocol.Abstract.{accepts, history, lock_refines}
use gquuuuuunix.SpinLock.Protocol.Code.{
  view, set_to, go, Others, still, other, Waits, wins, fails, acquire_runs, release_runs,
}
use gquuuuuunix.SpinLock.Ordering as Ordering
use gquuuuuunix.SpinLock.Ordering.Needed.{fence_needed}
use gquuuuuunix.Tests.Data.{core_of}

abbrev free_words : Shared
free_words = record { is_locked = 0; cpu = none }

abbrev taken_words : Shared
taken_words = record { is_locked = 1; cpu = none }

abbrev owned_words : Shared
owned_words = record { is_locked = 1; cpu = some 1 }

-- Hart 0 is about to try; hart 1 takes the lock first.
abbrev zero_tries : System
zero_tries = go init 0 free_words trying

abbrev one_has_won : System
one_has_won =
    go (go (go zero_tries 1 free_words check_word) 1 free_words trying) 1 taken_words taken

one_takes : Others 0 zero_tries one_has_won
one_takes =
    other (other (other still (omega arith) enter) (omega arith) (word_free refl)) (omega arith)
      (test_set_wins refl)

-- Hart 0's first try has failed, and hart 1 gives the lock back.
abbrev zero_failed : System
zero_failed = go one_has_won 0 taken_words trying

abbrev one_is_in : System
one_is_in = go zero_failed 1 owned_words critical

abbrev one_is_out : System
one_is_out =
    go
      (go
        (go (go (go one_is_in 1 owned_words leave_word) 1 owned_words leave_cpu) 1 owned_words
          leaving)
        1 taken_words freeing)
      1 free_words outside

one_gives_back : Others 0 zero_failed one_is_out
one_gives_back =
    other
      (other
        (other
          (other (other (other still (omega arith) write_cpu) (omega arith) exit) (omega arith)
            (leave_set (omega arith)))
          (omega arith) (leave_self refl))
        (omega arith) clear_cpu)
      (omega arith) free_word

abbrev zero_has_won : System
zero_has_won = go one_is_out 0 taken_words taken

abbrev world : List (SpinLock → SpinLock)
world = set_to taken_words ∷ set_to free_words ∷ []

zero-Waits : Waits 0 zero_tries world zero_has_won
zero-Waits = fails one_takes (omega arith) (wins [] one_gives_back refl)

core_of-IsNested : IsNested 2 (core_of 0)
core_of-IsNested = record { fits = omega arith; bounded = omega arith; masked = inl refl }

core_of-get_cpuid : get_cpuid (core_of 0) ≡ 0
unfolding get_cpuid
core_of-get_cpuid = refl

abbrev zero_is_in : System
zero_is_in = go zero_has_won 0 (record { is_locked = 1; cpu = some 0 }) critical

acquire_runs_example :
    Reach zero_is_in
    × (acquire world (view free_words) (core_of 0)
        ≡ ok (view (record { is_locked = 1; cpu = some 0 }), push_off (core_of 0)))
acquire_runs_example =
    acquire_runs 0 0 (core_of 0) start refl core_of-get_cpuid core_of-IsNested zero-Waits

zero_reached : Reach zero_is_in
zero_reached =
    (acquire_runs 0 0 (core_of 0) start refl core_of-get_cpuid core_of-IsNested zero-Waits).0

-- The first store-conditional fails.
release_runs_example :
    Reach (go zero_is_in 0 free_words outside)
    × (release
          ((lost 1 ∷ []) ++ kept ∷ [])
          (view (record { is_locked = 1; cpu = some 0 }))
          (push_off (core_of 0))
        ≡ (pop_off (push_off (core_of 0)) >>= λ c'. ok (view free_words, c')))
release_runs_example =
    release_runs 0 0 (push_off (core_of 0)) (lost 1 ∷ []) [] zero_reached refl
      (get_cpuid-push_off (core_of 0) ∙ core_of-get_cpuid)
      (push_off-IsNested 1 (core_of 0) core_of-IsNested)
      (push_off-nonzero 1 (core_of 0) core_of-IsNested)

lock_refines_example :
    (holder : Option ℕ) × (accepts (history zero_reached) ≡ some holder)
    × ((h : ℕ) → (holder ≡ some h) ↔ (owns (zero_is_in.pc h) ≡ true))
lock_refines_example = lock_refines zero_reached

fence_needed_example :
    ((s : Ordering.System) → Ordering.Reach true s → (h : ℕ) → s.pc h ≢ stopped)
    ↔ ◌≡◌ {A = Bool} true true
fence_needed_example = fence_needed true
