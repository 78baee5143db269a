-- ===== src/Asm/Switch.antt =====
-- 03.Scheduler/lib/switch.s: the context switch, and that it is the `switch_to` of Sched.antt.
use gquuuuuunix.Base.{
  ℕ, ◌+◌, ◌*◌, ◌%◌, ◌^◌, ◌≤◌, ◌<◌, ◌≡◌, ◌⊎◌, refl, List, [], ◌∷◌, ◌++◌, ap, ◌∙◌, arith,
}
use gquuuuuunix.Outcome.{ok}
use gquuuuuunix.Cpu.{Context}
use gquuuuuunix.Sched as Sched
use gquuuuuunix.Asm.{
  ra, sp, s0, s1, s2, s3, s4, s5, s6, s7, s8, s9, s10, s11, a0, a1, Machine, Instr, sd, ld, ret,
  step, exec,
}
use gquuuuuunix.Asm.Blocks.{
  word, saves, loads, stored, loaded, Avoids, exec-saves, exec-loads, stored-outside, stored-at,
  loaded-outside,
}

unfoldable pub switch_to : List Instr
switch_to =
    sd ra 0 a0
    ∷ sd sp 8 a0
    ∷ sd s0 16 a0
    ∷ sd s1 24 a0
    ∷ sd s2 32 a0
    ∷ sd s3 40 a0
    ∷ sd s4 48 a0
    ∷ sd s5 56 a0
    ∷ sd s6 64 a0
    ∷ sd s7 72 a0
    ∷ sd s8 80 a0
    ∷ sd s9 88 a0
    ∷ sd s10 96 a0
    ∷ sd s11 104 a0
    ∷ ld ra 0 a1
    ∷ ld sp 8 a1
    ∷ ld s0 16 a1
    ∷ ld s1 24 a1
    ∷ ld s2 32 a1
    ∷ ld s3 40 a1
    ∷ ld s4 48 a1
    ∷ ld s5 56 a1
    ∷ ld s6 64 a1
    ∷ ld s7 72 a1
    ∷ ld s8 80 a1
    ∷ ld s9 88 a1
    ∷ ld s10 96 a1
    ∷ ld s11 104 a1
    ∷ ret
    ∷ []

-- The registers that are switched, in the order of `struct context`.
abbrev pub switched_regs : List ℕ
switched_regs = ra ∷ sp ∷ s0 ∷ s1 ∷ s2 ∷ s3 ∷ s4 ∷ s5 ∷ s6 ∷ s7 ∷ s8 ∷ s9 ∷ s10 ∷ s11 ∷ []

-- A `struct context` from its words.
abbrev pub context_from : (ℕ → ℕ) → Context
context_from f = record {
  ra = f 0;
  sp = f 1;
  s0 = f 2;
  s1 = f 3;
  s2 = f 4;
  s3 = f 5;
  s4 = f 6;
  s5 = f 7;
  s6 = f 8;
  s7 = f 9;
  s8 = f 10;
  s9 = f 11;
  s10 = f 12;
  s11 = f 13;
}

-- The `struct context` at an address, and the one that the registers hold.
abbrev pub context_at : (ℕ → ℕ) → ℕ → Context
context_at mem a = context_from (word mem a)

abbrev pub context_of : (ℕ → ℕ) → Context
context_of regs = record {
  ra = regs ra;
  sp = regs sp;
  s0 = regs s0;
  s1 = regs s1;
  s2 = regs s2;
  s3 = regs s3;
  s4 = regs s4;
  s5 = regs s5;
  s6 = regs s6;
  s7 = regs s7;
  s8 = regs s8;
  s9 = regs s9;
  s10 = regs s10;
  s11 = regs s11;
}

context_from-eq : (f g : ℕ → ℕ) → ((i : ℕ) → i < 14 → f i ≡ g i) → context_from f ≡ context_from g
context_from-eq f g h = λ j. record {
  ra = h 0 (omega arith) j;
  sp = h 1 (omega arith) j;
  s0 = h 2 (omega arith) j;
  s1 = h 3 (omega arith) j;
  s2 = h 4 (omega arith) j;
  s3 = h 5 (omega arith) j;
  s4 = h 6 (omega arith) j;
  s5 = h 7 (omega arith) j;
  s6 = h 8 (omega arith) j;
  s7 = h 9 (omega arith) j;
  s8 = h 10 (omega arith) j;
  s9 = h 11 (omega arith) j;
  s10 = h 12 (omega arith) j;
  s11 = h 13 (omega arith) j;
}

switch_to-blocks : switch_to ≡ saves a0 0 switched_regs ++ (loads a1 0 switched_regs ++ ret ∷ [])
unfolding switch_to
switch_to-blocks = refl

saved-context :
    (regs : ℕ → ℕ) (a : ℕ) (mem : ℕ → ℕ)
    → context_at (stored regs a 0 switched_regs mem) a ≡ context_of regs
saved-context regs a mem = λ j. record {
  ra = stored-at regs a 0 switched_regs mem 0 refl j;
  sp = stored-at regs a 0 switched_regs mem 1 refl j;
  s0 = stored-at regs a 0 switched_regs mem 2 refl j;
  s1 = stored-at regs a 0 switched_regs mem 3 refl j;
  s2 = stored-at regs a 0 switched_regs mem 4 refl j;
  s3 = stored-at regs a 0 switched_regs mem 5 refl j;
  s4 = stored-at regs a 0 switched_regs mem 6 refl j;
  s5 = stored-at regs a 0 switched_regs mem 7 refl j;
  s6 = stored-at regs a 0 switched_regs mem 8 refl j;
  s7 = stored-at regs a 0 switched_regs mem 9 refl j;
  s8 = stored-at regs a 0 switched_regs mem 10 refl j;
  s9 = stored-at regs a 0 switched_regs mem 11 refl j;
  s10 = stored-at regs a 0 switched_regs mem 12 refl j;
  s11 = stored-at regs a 0 switched_regs mem 13 refl j;
}

loaded-context :
    (mem : ℕ → ℕ) (a : ℕ) (regs : ℕ → ℕ)
    → context_of (loaded mem a 0 switched_regs regs) ≡ context_at mem a
unfolding loaded
loaded-context mem a regs = refl

-- The assembly does what the scheduler's model takes `switch_to` to do, for contexts that lie apart, at
-- aligned addresses and below 2^64: it stores the switched registers in the old context, returns to
-- the address in the new one with the registers from there, and leaves all other memory, the other
-- registers and the control registers alone.
pub switch_to_lem :
    (m : Machine)
    → m.regs a0 % 8 ≡ 0
    → m.regs a1 % 8 ≡ 0
    → m.regs a0 + 112 ≤ 2 ^ 64
    → m.regs a1 + 112 ≤ 2 ^ 64
    → (m.regs a0 + 112 ≤ m.regs a1) ⊎ (m.regs a1 + 112 ≤ m.regs a0)
    → let (saved, new) = Sched.switch_to (context_of m.regs) (context_at m.mem (m.regs a1)) in
      (m' : Machine) × (exec switch_to m ≡ ok m')
      × (context_at m'.mem (m.regs a0) ≡ saved)
      × (context_of m'.regs ≡ new)
      × (m'.pc ≡ new.ra)
      × ((b : ℕ) → (b < m.regs a0) ⊎ (m.regs a0 + 112 ≤ b) → m'.mem b ≡ m.mem b)
      × ((r : ℕ) → Avoids r switched_regs → m'.regs r ≡ m.regs r)
      × (m'.csrs ≡ m.csrs)
unfolding Sched.switch_to exec step
switch_to_lem m al al' fits fits' apart =
    let mem = stored m.regs (m.regs a0) 0 switched_regs m.mem in
    let regs = loaded mem (m.regs a1) 0 switched_regs m.regs in
    let m1 : Machine = record m { mem = mem } in
    let untouched : (i : ℕ) → i < 14 → word mem (m.regs a1) i ≡ word m.mem (m.regs a1) i = λ i lt.
      stored-outside m.regs (m.regs a0) 0 switched_regs m.mem (m.regs a1 + 8 * i)
        (omega (arith, apart, lt)) in
    let new =
      loaded-context mem (m.regs a1) m.regs
      ∙ context_from-eq (word mem (m.regs a1)) (word m.mem (m.regs a1)) untouched in
    (
      record m { regs = regs; mem = mem; pc = regs ra },
      ap (λ p. exec p m) switch_to-blocks
          ∙ exec-saves a0 0 switched_regs (loads a1 0 switched_regs ++ ret ∷ []) m al
              (omega (arith, fits))
          ∙ exec-loads a1 0 switched_regs (ret ∷ []) m1 (omega arith) al' (omega (arith, fits')),
      saved-context m.regs (m.regs a0) m.mem,
      new,
      ap (λ c. c.ra) new,
      λ b out. stored-outside m.regs (m.regs a0) 0 switched_regs m.mem b (omega (arith, out)),
      λ r av. loaded-outside mem (m.regs a1) 0 switched_regs m.regs r av,
      refl,
    )
