-- ===== src/Tests/Locks.antt =====
-- Locks, the interrupt counter and the atomic operations on concrete values.
use gquuuuuunix.Base.{
  ℕ, ◌+◌, ◌-◌, ◌%◌, ◌^◌, ◌≡◌, ◌≢◌, ◌↔◌, ◌⊎◌, inl, refl, true, false, none, some, List, [], ◌∷◌,
  ◌++◌, update, arith,
}
use gquuuuuunix.Outcome.{ok, ◌>>=◌}
use gquuuuuunix.Cpu.Nesting.{
  IsNested, outer_ena, Nest, done, region, depth, run_nest, settle, run_nest-restores,
}
use gquuuuuunix.Atomic.{Rmw, kept, fetch_sub_i32}
use gquuuuuunix.Atomic.Laws.{fetch_sub_i32-adds}
use gquuuuuunix.SpinLock.{SpinLock, is_holding_lk, acquire, release}
use gquuuuuunix.SpinLock.Sequential.{first_free, release-acquire}
use gquuuuuunix.SpinLock.Protocol.{
  System, init, check_word, trying, taken, stopped, enter, word_free, test_set_wins, pick, Reach,
  start, later, owns,
}
use gquuuuuunix.SpinLock.Protocol.Safety.{mutual_exclusion}
use gquuuuuunix.Tests.Data.{core_of, open_lock}

core_of-IsNested : IsNested 4 (core_of 1)
core_of-IsNested = record { fits = omega arith; bounded = omega arith; masked = inl refl }

core_of-IsNested_two : IsNested 2 (core_of 1)
core_of-IsNested_two = record { fits = omega arith; bounded = omega arith; masked = inl refl }

open-is_holding : is_holding_lk open_lock (core_of 1) ≡ false
unfolding is_holding_lk
open-is_holding = refl

-- Another hart has taken the lock, and gives it back before the second try.
abbrev others : List (SpinLock → SpinLock)
others =
    (λ lk. record lk { is_locked = 1; cpu = some 0 })
    ∷ (λ lk. record lk { is_locked = 0; cpu = none })
    ∷ []

others-first_free : first_free others open_lock ≡ some (record open_lock { is_locked = 1 })
unfolding first_free
others-first_free = refl

release-acquire_example :
    (acquire others open_lock (core_of 1) >>= λ (got, c'). release ([] ++ kept ∷ []) got c')
    ≡ ok (record { is_locked = 0; cpu = none; ops = true }, outer_ena (core_of 1))
release-acquire_example =
    release-acquire others [] [] open_lock (record open_lock { is_locked = 1 }) 0 (core_of 1)
      core_of-IsNested_two refl open-is_holding others-first_free refl

abbrev nest : Nest
nest = region (region done done) (region done done)

nest-IsNested : IsNested (depth nest) (core_of 1)
unfolding depth
nest-IsNested = record { fits = omega arith; bounded = omega arith; masked = inl refl }

run_nest-restores_example : run_nest nest (core_of 1) ≡ ok (settle nest (core_of 1))
run_nest-restores_example = run_nest-restores nest (core_of 1) nest-IsNested

-- Hart 0 has won the lock while hart 1 is about to try.
abbrev won : System
won = record {
  mem = record { is_locked = 1; cpu = none };
  pc =
      update (update (update (update (update init.pc 0 check_word) 1 check_word) 0 trying) 1 trying)
        0 taken;
}

won_reached : Reach won
won_reached =
    later
      (later (later (later (later start (pick 0 enter)) (pick 1 enter)) (pick 0 (word_free refl)))
        (pick 1 (word_free refl)))
      (pick 0 (test_set_wins refl))

mutual_exclusion_example :
    ((h k : ℕ) → owns (won.pc h) ≡ true → owns (won.pc k) ≡ true → h ≡ k)
    × (won.mem.is_locked ≢ 0 ↔ ((h : ℕ) × (owns (won.pc h) ≡ true)))
    × ((h : ℕ) → won.pc h ≢ stopped)
mutual_exclusion_example = mutual_exclusion won_reached

fetch_sub_i32-adds_example :
    (r : Rmw) × (fetch_sub_i32 7 3 (core_of 1) ≡ ok r)
    × (r.old ≡ 7)
    × (r.word ≡ (7 + 3) % 2 ^ 32)
    × (r.word ≡ (7 + 2 ^ 32 - 3) % 2 ^ 32 ↔ (◌≡◌ {A = ℕ} 3 0 ⊎ ◌≡◌ {A = ℕ} 3 (2 ^ 31)))
fetch_sub_i32-adds_example =
    fetch_sub_i32-adds 7 3 3 (core_of 1) (omega arith) (omega arith) core_of-IsNested
