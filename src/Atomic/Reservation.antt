-- ===== src/Atomic/Reservation.antt =====
-- The operations of 03.Scheduler/include/atomic.h on one shared word under any number of harts, one
-- memory instruction at a time, with the reservations of `lr` and `sc` as the RISC-V manual has them:
-- `lr` reserves the word for its hart, every write of the word by any hart takes all reservations
-- back, and `sc` writes only if its hart's reservation stands. It may fail at any time.
--
-- `push_off` and `pop_off` touch only the hart's own state and are no step here.
pub mod Linear
use gquuuuuunix.Base.{ℕ, ◌≡◌, ◌≢◌, Bool, true, false, List, [], ◌∷◌, ◌==◌, if◌then◌else◌, update}

-- The operations: compare-and-exchange with what it expects and desires, a store, a load, and an
-- `amo` instruction with what it makes of the word.
pub data Op : Type 0 where
  cmp_xchg : ℕ → ℕ → Op
  store : ℕ → Op
  load : Op
  amo : (ℕ → ℕ) → Op

pub record Shared : Type 0 where
  pub word : ℕ
  pub reserved : ℕ → Bool

-- Where a hart stands: in none of the operations, before an operation's `lr` or `amo`, behind its `lr`
-- with the word that it read, or at the end with the word that it returns.
pub data Pc : Type 0 where
  outside : Pc
  before : Op → Pc
  behind : Op → ℕ → Pc
  finished : Op → ℕ → Pc

abbrev pub reserve : ℕ → Shared → Shared
reserve h m = record m { reserved = update m.reserved h true }

abbrev pub release : ℕ → Shared → Shared
release h m = record m { reserved = update m.reserved h false }

abbrev pub write : ℕ → Shared → Shared
write w m = record { word = w; reserved = λ _. false }

-- One instruction of hart `h`.
pub data Move (h : ℕ) (m : Shared) : Pc → Shared → Pc → Type 0 where
  call : (op : Op) → Move h m outside m (before op)
  lr_cmp_xchg :
      (expected desired : ℕ)
      → Move h m
          (before (cmp_xchg expected desired))
          (reserve h m)
          (behind (cmp_xchg expected desired) m.word)
  lr_store : (val : ℕ) → Move h m (before (store val)) (reserve h m) (behind (store val) m.word)
  lr_load : Move h m (before load) (reserve h m) (finished load m.word)
  differs :
      {expected desired old : ℕ}
      → old ≢ expected
      → Move h m
          (behind (cmp_xchg expected desired) old)
          m
          (finished (cmp_xchg expected desired) old)
  sc_cmp_xchg :
      {expected desired old : ℕ}
      → old ≡ expected
      → m.reserved h ≡ true
      → Move h m
          (behind (cmp_xchg expected desired) old)
          (write desired m)
          (finished (cmp_xchg expected desired) old)
  sc_store :
      {val old : ℕ}
      → m.reserved h ≡ true
      → Move h m (behind (store val) old) (write val m) (finished (store val) old)
  sc_cmp_xchg_fails :
      {expected desired old : ℕ}
      → old ≡ expected
      → Move h m
          (behind (cmp_xchg expected desired) old)
          (release h m)
          (before (cmp_xchg expected desired))
  sc_store_fails :
      {val old : ℕ} → Move h m (behind (store val) old) (release h m) (before (store val))
  amo_runs : (f : ℕ → ℕ) → Move h m (before (amo f)) (write (f m.word) m) (finished (amo f) m.word)
  returns : {op : Op} {old : ℕ} → Move h m (finished op old) m outside
  loses : {p : Pc} → Move h m p (release h m) p

pub record System : Type 0 where
  pub mem : Shared
  pub pc : ℕ → Pc

pub data Step (s : System) : System → Type 0 where
  pick :
      (h : ℕ) {m : Shared} {p : Pc}
      → Move h s.mem (s.pc h) m p
      → Step s (record { mem = m; pc = update s.pc h p })

-- From a word `w`, with no reservation and no hart in an operation.
abbrev pub init : ℕ → System
init w = record { mem = record { word = w; reserved = λ _. false }; pc = λ _. outside }

pub data Reach (w : ℕ) : System → Type 0 where
  start : Reach w (init w)
  later : {s t : System} → Reach w s → Step s t → Reach w t
