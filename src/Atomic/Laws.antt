-- ===== src/Atomic/Laws.antt =====
-- What the atomic operations do to the word and to the interrupt state.
use gquuuuuunix.Base.{
  ℕ, suc, ◌++◌, ◌↔◌, ◌+◌, ◌-◌, ◌%◌, ◌^◌, ◌<◌, ◌≡◌, refl, ◌⊎◌, List, [], ◌∷◌, ◌==◌, if◌then◌else◌,
  arith,
}
use gquuuuuunix.Outcome.{ok}
use gquuuuuunix.Cpu.{Core}
use gquuuuuunix.Cpu.Nesting.{IsNested, outer_ena, pop_off-push_off}
use gquuuuuunix.Atomic.{
  Rmw, amoadd, masked_amo, Try, kept, lost, cmp_xchg, store_loop, masked_store, fetch_sub_i32,
}

-- An operation that masks interrupts leaves the hart as it was, and hands out the old word.
pub masked_amo_lem :
    (instr : ℕ → ℕ) (word room : ℕ) (c : Core)
    → IsNested (suc room) c
    → masked_amo instr word c ≡ ok (record { old = word; word = instr word; core = outer_ena c })
unfolding masked_amo
masked_amo_lem instr word room c v = rw (pop_off-push_off room c v)

pub store_loop_total :
    (before after : List Try) (val : ℕ) → store_loop (before ++ kept ∷ after) val ≡ ok val
unfolding store_loop
store_loop_total [] after val = refl
store_loop_total (kept ∷ ts) after val = refl
store_loop_total (lost w ∷ ts) after val = store_loop_total ts after val

-- The store goes through once a reservation is kept, and leaves the hart as it was.
pub masked_store_lem :
    (before after : List Try) (val room : ℕ) (c : Core)
    → IsNested (suc room) c
    → masked_store (before ++ kept ∷ after) val c ≡ ok (val, outer_ena c)
unfolding masked_store
masked_store_lem before after val room c v =
    rw (store_loop_total before after val, pop_off-push_off room c v)

-- The word that a compare-and-exchange meets: the first that differs from `expected`, or the one
-- whose reservation is kept.
pub met : List Try → ℕ → ℕ → ℕ
met [] word expected = word
met (kept ∷ ts) word expected = word
met (lost word' ∷ ts) word expected =
    let later = met ts word' expected in if word == expected then later else word

-- However many reservations are lost before one is kept, compare-and-exchange returns the word
-- that its deciding read met, and leaves `desired` exactly when that word is `expected`, else the
-- word itself.
pub cmp_xchg_decides :
    (before after : List Try) (word expected desired : ℕ)
    → let seen = met (before ++ kept ∷ after) word expected in
      cmp_xchg (before ++ kept ∷ after) word expected desired
      ≡ ok (seen, if seen == expected then desired else seen)
unfolding cmp_xchg met
cmp_xchg_decides [] after word expected desired = ground arith
cmp_xchg_decides (kept ∷ ts) after word expected desired = ground arith
cmp_xchg_decides (lost w ∷ ts) after word expected desired =
    ground (arith, cmp_xchg_decides ts after w expected desired)

-- On words of 32 bits, and a hart with room for one more interrupt lock, `fetch_sub` returns the
-- old word and adds its operand: the new word is the difference only for an operand of 0 or `2 ^
-- 31`.
pub fetch_sub_i32-adds :
    (word val room : ℕ) (c : Core)
    → word < 2 ^ 32
    → val < 2 ^ 32
    → IsNested (suc room) c
    → (r : Rmw) × (fetch_sub_i32 word val c ≡ ok r)
      × (r.old ≡ word)
      × (r.word ≡ (word + val) % 2 ^ 32)
      × (r.word ≡ (word + 2 ^ 32 - val) % 2 ^ 32 ↔ ((val ≡ 0) ⊎ (val ≡ 2 ^ 31)))
unfolding fetch_sub_i32
fetch_sub_i32-adds word val room c hw hv v = (
  _,
  masked_amo_lem (amoadd 32 val) word room c v,
  refl,
  refl,
  (λ e. ground arith, λ e. ground arith),
)
