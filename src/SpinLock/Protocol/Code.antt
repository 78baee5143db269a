-- ===== src/SpinLock/Protocol/Code.antt =====
-- The functions of lib/spin_lock.c and the accesses of SpinLock/Protocol.antt: a call of `acquire`
-- or `release` among harts that follow the protocol is a run of the protocol.
use gquuuuuunix.Base.{
  not, ◌&&◌, ℕ, suc, ◌≡◌, ◌≢◌, refl, inl, inr, true, false, Option, none, some, List, ◌∷◌, ◌++◌,
  ◌==◌, ==_refl, ==_iff, Bool-cases, update, ap, sym, subst, ◌∙◌, fun_ext, arith,
}
use gquuuuuunix.Outcome.{ok, ◌>>=◌}
use gquuuuuunix.Cpu.{Core, get_cpuid, push_off, pop_off}
use gquuuuuunix.Cpu.Nesting.{IsNested}
use gquuuuuunix.Atomic.{Try, kept}
use gquuuuuunix.SpinLock.{SpinLock, same_cpu, is_holding_lk, acquire, release}
use gquuuuuunix.SpinLock.Sequential.{first_free, acquired, acquire_lem, release_lem}
use gquuuuuunix.SpinLock.Protocol.{
  Shared, Pc, outside, trying, taken, critical, Move, enter, word_free, word_set, cpu_other,
  test_set_fails, test_set_wins, write_cpu, exit, leave_set, leave_self, clear_cpu, free_word,
  System, pick, Reach, later, owns,
}
use gquuuuuunix.SpinLock.Protocol.Safety.{named, is_holding_exact}

-- The lock as a hart's code sees it.
abbrev pub view : Shared → SpinLock
view m = record { is_locked = m.is_locked; cpu = m.cpu; ops = true }

-- What the other harts leave before a try.
abbrev pub set_to : Shared → SpinLock → SpinLock
set_to m lk = record lk { is_locked = m.is_locked; cpu = m.cpu }

abbrev pub go : System → ℕ → Shared → Pc → System
go s h m p = record { mem = m; pc = update s.pc h p }

-- Accesses of other harts than `h`.
pub data Others (h : ℕ) (s : System) : System → Type 0 where
  still : Others h s s
  other :
      {t : System} {k : ℕ} {m : Shared} {p : Pc}
      → Others h s t
      → k ≢ h
      → Move k t.mem (t.pc k) m p
      → Others h s (go t k m p)

-- Hart `h` waits from `s` on, with other harts' accesses before each try, and wins at `t`; `world` is
-- what they do to the lock.
pub data Waits (h : ℕ) : System → List (SpinLock → SpinLock) → System → Type 0 where
  wins :
      {s u : System} (rest : List (SpinLock → SpinLock))
      → Others h s u
      → u.mem.is_locked ≡ 0
      → Waits h s (set_to u.mem ∷ rest) (go u h (record u.mem { is_locked = 1 }) taken)
  fails :
      {s u t : System} {world : List (SpinLock → SpinLock)}
      → Others h s u
      → u.mem.is_locked ≢ 0
      → Waits h (go u h (record u.mem { is_locked = 1 }) trying) world t
      → Waits h s (set_to u.mem ∷ world) t

Others-Reach : {h : ℕ} {s t : System} → Reach s → Others h s t → Reach t
Others-Reach r still = r
Others-Reach r (other o ne mv) = later (Others-Reach r o) (pick _ mv)

Others-pc : {h : ℕ} {s t : System} → Others h s t → t.pc h ≡ s.pc h
Others-pc still = refl
Others-pc (other o ne mv) = ground (arith, ne, Others-pc o)

-- A move from the place where the hart is known to stand.
move_from :
    {s : System} {m : Shared} {p q : Pc} (h : ℕ)
    → Reach s
    → s.pc h ≡ q
    → Move h s.mem q m p
    → Reach (go s h m p)
move_from {s} {m} {p} h r e mv = later r (pick h (subst (λ z. Move h s.mem z m p) (sym e) mv))

at_pc : (s : System) (h : ℕ) (m : Shared) (p : Pc) → (go s h m p).pc h ≡ p
at_pc s h m p = rw (==_refl h) refl

-- The wait is a run of the protocol, and the lock that the code's loop finds is the lock there.
Waits_lem :
    {h : ℕ} {s t : System} {world : List (SpinLock → SpinLock)}
    → Reach s
    → s.pc h ≡ trying
    → Waits h s world t
    → Reach t × (t.pc h ≡ taken) × (first_free world (view s.mem) ≡ some (view t.mem))
unfolding first_free
Waits_lem {h} r place (wins {u} rest o free) = (
  move_from h (Others-Reach r o) (Others-pc o ∙ place) (test_set_wins free),
  at_pc u h (record u.mem { is_locked = 1 }) taken,
  ground (arith, free),
)
Waits_lem {h} r place (fails {u} o busy w) =
    let r' = move_from h (Others-Reach r o) (Others-pc o ∙ place) (test_set_fails busy) in
    let (reached, won, found) =
      Waits_lem r' (at_pc u h (record u.mem { is_locked = 1 }) trying) w in
    (reached, won, ground (arith, busy, found))

-- Two steps of one hart, seen as one.
go-go : (s : System) (h : ℕ) (m m' : Shared) (p q : Pc) → go (go s h m p) h m' q ≡ go s h m' q
go-go s h m m' p q = ap (λ f. record { mem = m'; pc = f }) (fun_ext (λ k. ground (arith)))

-- A further access of the hart that moved last.
advance :
    (s : System) {m m' : Shared} {p q : Pc} (h : ℕ)
    → Reach (go s h m p)
    → Move h m p m' q
    → Reach (go s h m' q)
advance s {m} {m'} {p} {q} h r mv =
    subst Reach (go-go s h m m' p q) (move_from h r (at_pc s h m p) mv)

-- `is_holding` at the start of `acquire_lk`, with no other hart between its two reads.
checked : {s : System} (h : ℕ) → Reach s → s.pc h ≡ outside → Reach (go s h s.mem trying)
checked {s} h r place =
    let entered = move_from h r place enter in
    let other = (is_holding_exact r h).1 (ap owns place) in
    elim (Bool-cases (s.mem.is_locked == 0)) [
      | inl free ↦ advance s h entered (word_free (ground (arith, free)))
      | inr busy ↦
          advance s h (advance s h entered (word_set (ground (arith, busy)))) (cpu_other other)
    ]

-- The five accesses of `release_lk`.
released :
    {s : System} (h : ℕ)
    → Reach s
    → s.pc h ≡ critical
    → Reach (go s h (record { is_locked = 0; cpu = none }) outside)
released {s} h r place =
    let (locked, mine) = (is_holding_exact r h).0 (ap named place) in
    let left = advance s h (move_from h r place exit) (leave_set locked) in
    advance s h (advance s h (advance s h left (leave_self mine)) clear_cpu) free_word

holding_self : (word id : ℕ) → word ≢ 0 → (not (word == 0) && (id == id)) ≡ true
holding_self word id locked = ground (arith, locked)

holding_other :
    (word : ℕ) (cpu : Option ℕ) (id : ℕ)
    → cpu ≢ some id
    → (not (word == 0) && same_cpu cpu id) ≡ false
holding_other word none id ne = ground arith
holding_other word (some k) id ne = elim (Bool-cases (k == id)) [
  | inl e ↦ absurd (ne (ap some ((==_iff k id).0 e)))
  | inr d ↦ ground (arith, d)
]

not_holding :
    (m : Shared) (c : Core) → m.cpu ≢ some (get_cpuid c) → is_holding_lk (view m) c ≡ false
unfolding is_holding_lk
not_holding m c ne = holding_other m.is_locked m.cpu (get_cpuid c) ne

-- A call of `acquire` by a hart outside the lock, with room for two more interrupt locks, is a run of
-- the protocol, whatever the other harts do to the lock while the hart waits, as long as they too
-- follow the protocol: if the run of accesses wins the lock, the call returns it, with the lock that
-- the run leaves and interrupts masked once more.
pub acquire_runs :
    {s t : System} {world : List (SpinLock → SpinLock)} (h room : ℕ) (c : Core)
    → Reach s
    → s.pc h ≡ outside
    → get_cpuid c ≡ h
    → IsNested (suc (suc room)) c
    → Waits h (go s h s.mem trying) world t
    → Reach (go t h (record t.mem { cpu = some h }) critical)
      × (acquire world (view s.mem) c ≡ ok (view (record t.mem { cpu = some h }), push_off c))
unfolding acquired
acquire_runs {s} {t} {world} h room c r place id v w =
    let (reached, won, found) = Waits_lem (checked h r place) (at_pc s h s.mem trying) w in
    let other = (is_holding_exact r h).1 (ap owns place) in
    let ne = subst (λ k. s.mem.cpu ≢ some k) (sym id) other in
    (
      move_from h reached won write_cpu,
      acquire_lem world (view s.mem) room c v refl (not_holding s.mem c ne) ∙ rw (found, id) refl,
    )

-- A call of `release` by the hart in the critical section, within an interrupt lock, is a run of the
-- protocol: it frees the lock and undoes one `push_off`, whatever store-conditionals fail first.
pub release_runs :
    {s : System} (h room : ℕ) (c : Core) (before after : List Try)
    → Reach s
    → s.pc h ≡ critical
    → get_cpuid c ≡ h
    → IsNested (suc room) c
    → (c.cpu.off_nrs == 0) ≡ false
    → Reach (go s h (record { is_locked = 0; cpu = none }) outside)
      × (release (before ++ kept ∷ after) (view s.mem) c
          ≡ (pop_off c >>= λ c'. ok (view (record { is_locked = 0; cpu = none }), c')))
unfolding is_holding_lk
release_runs {s} h room c before after r place id v n =
    let (locked, mine) = (is_holding_exact r h).0 (ap named place) in
    (
      released h r place,
      release_lem before after (view s.mem) room c v n refl
          (rw (mine, id) (holding_self s.mem.is_locked h locked)),
    )
