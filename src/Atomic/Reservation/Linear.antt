-- ===== src/Atomic/Reservation/Linear.antt =====
-- The operations are atomic: what any run of them returns and leaves is what the operations do one
-- after the other, each at one moment of its call.
use gquuuuuunix.Base.{
  ℕ, ◌≡◌, refl, true, Option, none, some, List, [], ◌∷◌, ◌==◌, if◌then◌else◌, update, ap, arith,
}
use gquuuuuunix.Atomic.Reservation.{
  Op, cmp_xchg, store, load, amo, Shared, Pc, outside, before, behind, finished, Move, call,
  lr_cmp_xchg, lr_store, lr_load, differs, sc_cmp_xchg, sc_store, sc_cmp_xchg_fails, sc_store_fails,
  amo_runs, returns, loses, System, pick, init, Reach, start, later,
}

-- What an operation makes of the word, at once.
abbrev pub effect : Op → ℕ → ℕ
effect (cmp_xchg expected desired) w = if w == expected then desired else w
effect (store val) w = val
effect load w = w
effect (amo f) w = f w

-- Hart `hart` does `op` and sees `old`.
pub record Event : Type 0 where
  pub hart : ℕ
  pub op : Op
  pub old : ℕ

abbrev happens : ℕ → Op → ℕ → Event
happens h op w = record { hart = h; op = op; old = w }

-- The word after the events, the latest first; `none` where one has not seen the word.
unfoldable pub replay : ℕ → List Event → Option ℕ
replay w [] = some w
replay w (e ∷ past) = elim (replay w past) [
  | none ↦ none
  | some now ↦ if now == e.old then some (effect e.op now) else none
]

-- The moment at which an operation happens: its write, or its read if there is none.
unfoldable pub remember :
    {h : ℕ} {m m' : Shared} {p p' : Pc} → Move h m p m' p' → List Event → List Event
remember {h} {m} (lr_cmp_xchg expected desired) past =
    if m.word == expected then past else happens h (cmp_xchg expected desired) m.word ∷ past
remember {h} {m} lr_load past = happens h load m.word ∷ past
remember {h} {m} (sc_cmp_xchg {expected} {desired} {old} _ _) past =
    happens h (cmp_xchg expected desired) old ∷ past
remember {h} {m} (sc_store {val} {old} _) past = happens h (store val) old ∷ past
remember {h} {m} (amo_runs f) past = happens h (amo f) m.word ∷ past
remember _ past = past

unfoldable pub history : {w : ℕ} {s : System} → Reach w s → List Event
unfolding remember
history start = []
history (later r (pick h mv)) = remember mv (history r)

-- The operations that hart `k` has called, the latest first.
unfoldable pub called :
    (k : ℕ) {h : ℕ} {m m' : Shared} {p p' : Pc} → Move h m p m' p' → List Op → List Op
called k {h} (call op) past = if h == k then op ∷ past else past
called k _ past = past

unfoldable pub calls : {w : ℕ} {s : System} → ℕ → Reach w s → List Op
unfolding called
calls k start = []
calls k (later r (pick h mv)) = called k mv (calls k r)

-- The operations of hart `k` that have happened, and what the latest of them has seen.
unfoldable pub ops_of : ℕ → List Event → List Op
ops_of k [] = []
ops_of k (e ∷ past) = let rest = ops_of k past in if e.hart == k then e.op ∷ rest else rest

unfoldable pub latest : ℕ → List Event → Option (Op × ℕ)
latest k [] = none
latest k (e ∷ past) = let rest = latest k past in if e.hart == k then some (e.op, e.old) else rest

-- The operation that a hart is in and that has yet to happen.
abbrev pub pending : Pc → Option Op
pending outside = none
pending (before op) = some op
pending (behind (cmp_xchg expected desired) old) =
    if old == expected then some (cmp_xchg expected desired) else none
pending (behind op old) = some op
pending (finished op old) = none

abbrev pub prepend : Option Op → List Op → List Op
prepend none ops = ops
prepend (some op) ops = op ∷ ops

-- The operation that a hart is in and that has happened, and what it will return.
abbrev pub settled : Pc → Option (Op × ℕ)
settled (behind (cmp_xchg expected desired) old) =
    if old == expected then none else some (cmp_xchg expected desired, old)
settled (finished op old) = some (op, old)
settled _ = none

-- The word that a hart read and counts on, while its reservation stands.
abbrev counted_on : Pc → Option ℕ
counted_on (behind op old) = some old
counted_on _ = none

record Inv (s : System) (past : List Event) (made : ℕ → List Op) (w : ℕ) : Type 0 where
  replayed : replay w past ≡ some s.mem.word
  reads : (h old : ℕ) → s.mem.reserved h ≡ true → counted_on (s.pc h) ≡ some old → s.mem.word ≡ old
  once : (h : ℕ) → made h ≡ prepend (pending (s.pc h)) (ops_of h past)
  seen : (h : ℕ) (x : Op × ℕ) → settled (s.pc h) ≡ some x → latest h past ≡ some x

module _ {s : System} {past : List Event} {made : ℕ → List Op} {w : ℕ} (inv : Inv s past made w)
    (h : ℕ) where
  open inv use {replayed, reads, once, seen}

  Move-Inv :
      {m : Shared} {p q : Pc}
      → (place : s.pc h ≡ q) → (mv : Move h s.mem q m p)
      → Inv
          (record { mem = m; pc = update s.pc h p })
          (remember mv past)
          (λ k. called k mv (made k))
          w
  unfolding remember called replay ops_of latest
  Move-Inv place (call op) = record {
    replayed = replayed;
    reads = λ k old. ground (arith, reads k old, place);
    once = λ k. ground (arith, once k, place);
    seen = λ k x. ground (arith, seen k x, place);
  }
  Move-Inv place (lr_cmp_xchg expected desired) = record {
    replayed = ground (arith, replayed);
    reads = λ k old. ground (arith, reads k old, place);
    once = λ k. ground (arith, once k, place);
    seen = λ k x. ground (arith, seen k x, place);
  }
  Move-Inv place (lr_store val) = record {
    replayed = replayed;
    reads = λ k old. ground (arith, reads k old, place);
    once = λ k. ground (arith, once k, place);
    seen = λ k x. ground (arith, seen k x, place);
  }
  Move-Inv place lr_load = record {
    replayed = ground (arith, replayed);
    reads = λ k old. ground (arith, reads k old, place);
    once = λ k. ground (arith, once k, place);
    seen = λ k x. ground (arith, seen k x, place);
  }
  Move-Inv place (differs ne) = record {
    replayed = replayed;
    reads = λ k old. ground (arith, reads k old, place);
    once = λ k. ground (arith, once k, place);
    seen = λ k x. ground (arith, seen k x, place);
  }
  Move-Inv place (sc_cmp_xchg {old = old} e on) = record {
    replayed = ground (arith, replayed, place, on, e, reads h old);
    reads = λ k old. ground (arith, reads k old, place);
    once = λ k. ground (arith, once k, place);
    seen = λ k x. ground (arith, seen k x, place);
  }
  Move-Inv place (sc_store {old = old} on) = record {
    replayed = ground (arith, replayed, place, on, reads h old);
    reads = λ k old. ground (arith, reads k old, place);
    once = λ k. ground (arith, once k, place);
    seen = λ k x. ground (arith, seen k x, place);
  }
  Move-Inv place (sc_cmp_xchg_fails e) = record {
    replayed = replayed;
    reads = λ k old. ground (arith, reads k old, place);
    once = λ k. ground (arith, once k, place);
    seen = λ k x. ground (arith, seen k x, place);
  }
  Move-Inv place sc_store_fails = record {
    replayed = replayed;
    reads = λ k old. ground (arith, reads k old, place);
    once = λ k. ground (arith, once k, place);
    seen = λ k x. ground (arith, seen k x, place);
  }
  Move-Inv place (amo_runs f) = record {
    replayed = ground (arith, replayed);
    reads = λ k old. ground (arith, reads k old, place);
    once = λ k. ground (arith, once k, place);
    seen = λ k x. ground (arith, seen k x, place);
  }
  Move-Inv place returns = record {
    replayed = replayed;
    reads = λ k old. ground (arith, reads k old, place);
    once = λ k. ground (arith, once k, place);
    seen = λ k x. ground (arith, seen k x, place);
  }
  Move-Inv place loses = record {
    replayed = replayed;
    reads = λ k old. ground (arith, reads k old, place);
    once = λ k. ground (arith, once k, place);
    seen = λ k x. ground (arith, seen k x, place);
  }

init-Inv : (w : ℕ) → Inv (init w) [] (λ _. []) w
unfolding replay ops_of latest
init-Inv w = record {
  replayed = refl;
  reads = λ h old on e. ground (arith, on);
  once = λ h. refl;
  seen = λ h x e. ground (arith, e);
}

Reach-Inv : {w : ℕ} {s : System} (r : Reach w s) → Inv s (history r) (λ k. calls k r) w
unfolding history calls
Reach-Inv start = init-Inv _
Reach-Inv (later r (pick h mv)) = Move-Inv (Reach-Inv r) h refl mv

-- Any run of the operations from a word `w` has a sequence of them, each recorded with the word that it
-- saw, in which every operation saw what those before it made of `w`, and which leaves the word as it
-- is. Every hart has in it exactly the operations that it called, in that order, but for one that it is
-- in and that has yet to happen; and what an operation is about to return is what it saw there.
pub linearizable :
    {w : ℕ} {s : System} (r : Reach w s)
    → (replay w (history r) ≡ some s.mem.word)
      × ((h : ℕ) → calls h r ≡ prepend (pending (s.pc h)) (ops_of h (history r)))
      × ((h old : ℕ) (op : Op) → s.pc h ≡ finished op old → latest h (history r) ≡ some (op, old))
linearizable r =
    let inv = Reach-Inv r in
    (inv.replayed, inv.once, λ h old op e. inv.seen h (op, old) (ap settled e))
