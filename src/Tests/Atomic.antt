-- ===== src/Tests/Atomic.antt =====
-- Two harts at one word, instruction by instruction, and words of a type.
use gquuuuuunix.Base.{◌≤◌, ◌-◌, ℕ, ◌^◌, ◌<◌, ◌≡◌, ◌≢◌, ◌↔◌, ◌⊎◌, inl, refl, some, [], ◌∷◌, arith}
use gquuuuuunix.Outcome.{ok}
use gquuuuuunix.Cpu.Nesting.{IsNested, outer_ena}
use gquuuuuunix.Atomic.{kept, lost}
use gquuuuuunix.Atomic.{atomic_store_i32}
use gquuuuuunix.Atomic.Typed.{atomic_int, atomic_ulong, test_set, atomic_load, typed_lem}
use gquuuuuunix.Atomic.Reservation.{
  Op, cmp_xchg, finished, call, lr_cmp_xchg, differs, sc_cmp_xchg, sc_cmp_xchg_fails, System, pick,
  Reach, start, later,
}
use gquuuuuunix.Atomic.Reservation.Linear.{
  replay, history, calls, pending, prepend, ops_of, latest, linearizable,
}
use gquuuuuunix.Tests.Data.{core_of}

-- Both harts read 0 for a compare-and-exchange; hart 1 writes first, so that hart 0 fails and reads
-- again.
abbrev contended : (s : System) × Reach 0 s
contended = (
  _,
  later
      (later
        (later
          (later
            (later
              (later
                (later (later start (pick 0 (call (cmp_xchg 0 1)))) (pick 1 (call (cmp_xchg 0 2))))
                (pick 0 (lr_cmp_xchg 0 1)))
              (pick 1 (lr_cmp_xchg 0 2)))
            (pick 1 (sc_cmp_xchg refl refl)))
          (pick 0 (sc_cmp_xchg_fails refl)))
        (pick 0 (lr_cmp_xchg 0 1)))
      (pick 0 (differs (omega arith))),
)

linearizable_example :
    (replay 0 (history contended.1) ≡ some 2)
    × ((h : ℕ)
        → calls h contended.1
          ≡ prepend (pending (contended.0.pc h)) (ops_of h (history contended.1)))
    × ((h old : ℕ) (op : Op)
        → contended.0.pc h ≡ finished op old
        → latest h (history contended.1) ≡ some (op, old))
linearizable_example = linearizable contended.1

core_of-IsNested : IsNested 4 (core_of 1)
core_of-IsNested = record { fits = omega arith; bounded = omega arith; masked = inl refl }

typed_lem_example :
    (test_set atomic_int 5 (core_of 1)
      ≡ ok (record { old = 5; word = 1; core = outer_ena (core_of 1) }))
    × (atomic_load atomic_int 5 ≡ 5
        ↔ ((atomic_int ≢ atomic_ulong) ⊎ (5 < 2 ^ 31) ⊎ (2 ^ 64 - 2 ^ 31 ≤ 5)))
    × (atomic_int ≡ atomic_int
        → atomic_store_i32 (lost 8 ∷ kept ∷ []) 5 (core_of 1) ≡ ok (5, outer_ena (core_of 1)))
typed_lem_example =
    typed_lem atomic_int (lost 8 ∷ []) [] 5 3 (core_of 1) (omega arith) core_of-IsNested
