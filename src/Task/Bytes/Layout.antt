-- ===== src/Task/Bytes/Layout.antt =====
-- Equal bytes are equal tasks, and a word that is stored is read back.
use gquuuuuunix.Base.{
  ℕ, zero, suc, ◌+◌, ◌-◌, ◌*◌, ◌/◌, ◌%◌, ◌^◌, ◌≤◌, ◌<◌, ◌≡◌, ◌≢◌, refl, ap, ◌∙◌, List, [], ◌∷◌,
  some, get_elem?, set, arith,
}
use gquuuuuunix.Memory.{Mem}
use gquuuuuunix.Cpu.{Context}
use gquuuuuunix.SpinLock.{SpinLock}
use gquuuuuunix.Task.{Task}
use gquuuuuunix.Task.Bytes.{Symbols, task_size, load32, load64, store64, ContextAt, LockAt, TaskAt}

-- `n` bytes at `a` in one memory are the bytes at `b` in another.
abbrev pub Same : ℕ → Mem → ℕ → Mem → ℕ → Type 0
Same n m a m' b = (i : ℕ) → i < n → m' (b + i) ≡ m (a + i)

part :
    {n : ℕ} (m m' : Mem) (a b off k : ℕ)
    → off + k ≤ n
    → Same n m a m' b
    → Same k m (a + off) m' (b + off)
part m m' a b off k le same i lt = ground (arith, same (off + i) (omega arith))

first : {n : ℕ} (m m' : Mem) (a b k : ℕ) → k ≤ n → Same n m a m' b → Same k m a m' b
first m m' a b k le same i lt = same i (omega (arith, le, lt))

same32 : (m m' : Mem) (a b : ℕ) → Same 4 m a m' b → load32 m' b ≡ load32 m a
same32 m m' a b same =
    ground (
      arith,
      same 0 (omega arith),
      same 1 (omega arith),
      same 2 (omega arith),
      same 3 (omega arith),
    )

pub same64 : (m m' : Mem) (a b : ℕ) → Same 8 m a m' b → load64 m' b ≡ load64 m a
same64 m m' a b same =
    let low = same32 m m' a b (first m m' a b 4 (omega arith) same) in
    let high = same32 m m' (a + 4) (b + 4) (part m m' a b 4 4 (omega arith) same) in omega arith

module _ (m m' : Mem) where
  at64 :
      {n : ℕ} (a b off : ℕ) {v : ℕ}
      → off + 8 ≤ n
      → Same n m a m' b
      → load64 m (a + off) ≡ v
      → load64 m' (b + off) ≡ v
  at64 a b off le same e = same64 m m' (a + off) (b + off) (part m m' a b off 8 le same) ∙ e

  ContextAt-Same : (a b : ℕ) {c : Context} → Same 112 m a m' b → ContextAt m a c → ContextAt m' b c
  ContextAt-Same a b same at = record {
    ra = same64 m m' a b (first m m' a b 8 (omega arith) same) ∙ at.ra;
    sp = at64 a b 8 (omega arith) same at.sp;
    s0 = at64 a b 16 (omega arith) same at.s0;
    s1 = at64 a b 24 (omega arith) same at.s1;
    s2 = at64 a b 32 (omega arith) same at.s2;
    s3 = at64 a b 40 (omega arith) same at.s3;
    s4 = at64 a b 48 (omega arith) same at.s4;
    s5 = at64 a b 56 (omega arith) same at.s5;
    s6 = at64 a b 64 (omega arith) same at.s6;
    s7 = at64 a b 72 (omega arith) same at.s7;
    s8 = at64 a b 80 (omega arith) same at.s8;
    s9 = at64 a b 88 (omega arith) same at.s9;
    s10 = at64 a b 96 (omega arith) same at.s10;
    s11 = at64 a b 104 (omega arith) same at.s11;
  }

  LockAt-Same :
      (sy : Symbols) (a b : ℕ) {lk : SpinLock}
      → Same 40 m a m' b
      → LockAt sy m a lk
      → LockAt sy m' b lk
  LockAt-Same sy a b same at = record {
    is_locked = same32 m m' a b (first m m' a b 4 (omega arith) same) ∙ at.is_locked;
    cpu = at64 a b 8 (omega arith) same at.cpu;
    acquire = λ set_up. at64 a b 16 (omega arith) same (at.acquire set_up);
    release = λ set_up. at64 a b 24 (omega arith) same (at.release set_up);
    is_holding = λ set_up. at64 a b 32 (omega arith) same (at.is_holding set_up);
  }

  pub TaskAt-Same :
      (sy : Symbols) (a b : ℕ) {t : Task}
      → Same task_size m a m' b
      → TaskAt sy m a t
      → TaskAt sy m' b t
  TaskAt-Same sy a b same at = record {
    pid = same32 m m' a b (first m m' a b 4 (omega arith) same) ∙ at.pid;
    context = ContextAt-Same (a + 8) (b + 8) (part m m' a b 8 112 (omega arith) same) at.context;
    state = same32 m m' (a + 120) (b + 120) (part m m' a b 120 4 (omega arith) same) ∙ at.state;
    lk = LockAt-Same sy (a + 128) (b + 128) (part m m' a b 128 40 (omega arith) same) at.lk;
  }

store64-byte : (a v : ℕ) (m : Mem) (i : ℕ) → i < 8 → store64 a v m (a + i) ≡ v / 2 ^ (8 * i) % 256
store64-byte a v m i lt = let off : a + i - a ≡ i = omega arith in ground (arith, off)

-- A word is its eight bytes.
bytes_of_word :
    (v : ℕ)
    → v < 2 ^ 64
    → v % 256
        + 2 ^ 8 * (v / 2 ^ 8 % 256)
        + 2 ^ 16 * (v / 2 ^ 16 % 256)
        + 2 ^ 24 * (v / 2 ^ 24 % 256)
        + 2 ^ 32
          * (v / 2 ^ 32 % 256
              + 2 ^ 8 * (v / 2 ^ 40 % 256)
              + 2 ^ 16 * (v / 2 ^ 48 % 256)
              + 2 ^ 24 * (v / 2 ^ 56 % 256))
      ≡ v
bytes_of_word v lt = omega arith

-- A word that is stored is read back.
pub load64-store64 : (a v : ℕ) (m : Mem) → v < 2 ^ 64 → load64 (store64 a v m) a ≡ v
load64-store64 a v m lt =
    let b0 : store64 a v m a ≡ v % 256 = ground arith in
    let b1 : store64 a v m (a + 1) ≡ v / 2 ^ 8 % 256 = store64-byte a v m 1 (omega arith) in
    let b2 : store64 a v m (a + 2) ≡ v / 2 ^ 16 % 256 = store64-byte a v m 2 (omega arith) in
    let b3 : store64 a v m (a + 3) ≡ v / 2 ^ 24 % 256 = store64-byte a v m 3 (omega arith) in
    let b4 : store64 a v m (a + 4) ≡ v / 2 ^ 32 % 256 = store64-byte a v m 4 (omega arith) in
    let b5 : store64 a v m (a + 4 + 1) ≡ v / 2 ^ 40 % 256 = upper 1 (omega arith) in
    let b6 : store64 a v m (a + 4 + 2) ≡ v / 2 ^ 48 % 256 = upper 2 (omega arith) in
    let b7 : store64 a v m (a + 4 + 3) ≡ v / 2 ^ 56 % 256 = upper 3 (omega arith) in
    rw b0 (rw b1 (rw b2 (rw b3 (rw b4 (rw b5 (rw b6 (rw b7 (bytes_of_word v lt))))))))
  where
    upper : (i : ℕ) → i < 4 → store64 a v m (a + 4 + i) ≡ v / 2 ^ (8 * (4 + i)) % 256
    upper i few = ap (store64 a v m) (omega arith) ∙ store64-byte a v m (4 + i) (omega arith)

module _ {ℓ} {A : Type ℓ} where
  pub get_elem?-set_self :
      (xs : List A) (i : ℕ) {v w : A} → get_elem? (set xs i v) i ≡ some w → v ≡ w
  get_elem?-set_self [] i e = absurd (cc)
  get_elem?-set_self (x ∷ xs) zero e = cc
  get_elem?-set_self (x ∷ xs) (suc i) e = get_elem?-set_self xs i e

  pub get_elem?-set_other :
      (xs : List A) (i j : ℕ) (v : A) → i ≢ j → get_elem? (set xs i v) j ≡ get_elem? xs j
  get_elem?-set_other [] i j v ne = refl
  get_elem?-set_other (x ∷ xs) zero zero v ne = absurd (ne refl)
  get_elem?-set_other (x ∷ xs) zero (suc j) v ne = refl
  get_elem?-set_other (x ∷ xs) (suc i) zero v ne = refl
  get_elem?-set_other (x ∷ xs) (suc i) (suc j) v ne =
      get_elem?-set_other xs i j v (ground (arith, ne))
