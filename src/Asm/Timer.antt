-- ===== src/Asm/Timer.antt =====
-- 03.Scheduler/lib/kvec.s, `timer_vec`: the machine-mode handler of the timer.
use gquuuuuunix.Base.{
  ℕ, ◌+◌, ◌*◌, ◌%◌, ◌^◌, ◌≤◌, ◌<◌, ◌≡◌, ◌≢◌, ◌⊎◌, refl, false, List, [], ◌∷◌, ◌==◌, ==_refl, update,
  get_elem?, some, fun_ext, ap, ◌∙◌, arith,
}
use gquuuuuunix.Outcome.{ok}
use gquuuuuunix.Asm.{
  a0, a1, a2, a3, mscratch, sip, Machine, Instr, sd, ld, add, li, csrw, csrrw, mret, after_mret,
  step, exec,
}
use gquuuuuunix.Asm.Blocks.{
  word, stored, exec-saves, exec-cons, step-ld, step-sd, stored-outside, stored-at,
}

unfoldable pub timer_vec : List Instr
timer_vec =
    csrrw a0 mscratch a0
    ∷ sd a1 0 a0
    ∷ sd a2 8 a0
    ∷ sd a3 16 a0
    ∷ ld a1 24 a0
    ∷ ld a2 32 a0
    ∷ ld a3 0 a1
    ∷ add a3 a3 a2
    ∷ sd a3 0 a1
    ∷ li a1 2
    ∷ csrw sip a1
    ∷ ld a3 16 a0
    ∷ ld a2 8 a0
    ∷ ld a1 0 a0
    ∷ csrrw a0 mscratch a0
    ∷ mret
    ∷ []

abbrev scratch_regs : List ℕ
scratch_regs = a1 ∷ a2 ∷ a3 ∷ []

-- Behind the stores.
abbrev leaving : List Instr
leaving =
    li a1 2 ∷ csrw sip a1 ∷ ld a3 16 a0 ∷ ld a2 8 a0 ∷ ld a1 0 a0 ∷ csrrw a0 mscratch a0 ∷ mret ∷ []

-- `a3` is written twice.
overwrite : (regs : ℕ → ℕ) (v w : ℕ) → update (update regs a3 v) a3 w ≡ update regs a3 w
overwrite regs v w = fun_ext (λ r. ground arith)

module _ (m : Machine) (al : m.csrs.mscratch % 8 ≡ 0) (fits : m.csrs.mscratch + 40 ≤ 2 ^ 64)
    (al_cmp : word m.mem m.csrs.mscratch 3 % 8 ≡ 0)
    (fits_cmp : word m.mem m.csrs.mscratch 3 + 8 ≤ 2 ^ 64)
    (apart : (word m.mem m.csrs.mscratch 3 + 8 ≤ m.csrs.mscratch)
      ⊎ (m.csrs.mscratch + 40 ≤ word m.mem m.csrs.mscratch 3)) where
  abbrev row : ℕ
  row = m.csrs.mscratch

  abbrev cmp : ℕ
  cmp = word m.mem row 3

  -- After the stores to the scratch row.
  abbrev saved : Machine
  saved = record m {
    regs = update m.regs a0 row;
    csrs = record m.csrs { mscratch = m.regs a0 };
    mem = stored (update m.regs a0 row) row 0 scratch_regs m.mem;
  }

  saved-beyond : (b : ℕ) → (b < row) ⊎ (row + 24 ≤ b) → saved.mem b ≡ m.mem b
  saved-beyond b out =
      stored-outside (update m.regs a0 row) row 0 scratch_regs m.mem b (omega (arith, out))

  -- After the next comparison value is stored.
  abbrev next_cmp : ℕ
  next_cmp = (m.mem cmp + word m.mem row 4) % 2 ^ 64

  abbrev scheduled : Machine
  scheduled = record saved {
    regs = update (update (update (update m.regs a0 row) a1 cmp) a2 (word m.mem row 4)) a3 next_cmp;
    mem = update saved.mem cmp next_cmp;
  }

  at_cmp : cmp + 0 ≡ cmp
  at_cmp = omega arith

  schedules :
      exec (ld a1 24 a0 ∷ ld a2 32 a0 ∷ ld a3 0 a1 ∷ add a3 a3 a2 ∷ sd a3 0 a1 ∷ leaving) saved
      ≡ exec leaving scheduled
  unfolding exec step
  schedules =
      let m1 : Machine = record saved { regs = update saved.regs a1 cmp } in
      let m2 : Machine = record saved { regs = update m1.regs a2 (word m.mem row 4) } in
      let m3 : Machine = record saved { regs = update m2.regs a3 (m.mem cmp) } in
      let m4 : Machine = record saved { regs = scheduled.regs } in
      exec-cons (ld a1 24 a0) (ld a2 32 a0 ∷ ld a3 0 a1 ∷ add a3 a3 a2 ∷ sd a3 0 a1 ∷ leaving) saved
        (step-ld a1 3 a0 saved al (omega (arith, fits))
          ∙ ap (λ v. ok (record saved { regs = update saved.regs a1 v }))
              (saved-beyond (row + 24) (omega arith)))
      ∙ exec-cons (ld a2 32 a0) (ld a3 0 a1 ∷ add a3 a3 a2 ∷ sd a3 0 a1 ∷ leaving) m1 (
          step-ld a2 4 a0 m1 al (omega (arith, fits))
          ∙ ap (λ v. ok (record saved { regs = update m1.regs a2 v }))
              (saved-beyond (row + 32) (omega arith)))
      ∙ exec-cons (ld a3 0 a1) (add a3 a3 a2 ∷ sd a3 0 a1 ∷ leaving) m2 (
          step-ld a3 0 a1 m2 al_cmp (omega (arith, fits_cmp))
          ∙ ap (λ v. ok (record saved { regs = update m2.regs a3 v }))
              (ap saved.mem at_cmp ∙ saved-beyond cmp (omega (arith, apart))))
      ∙ ap (λ f. exec (sd a3 0 a1 ∷ leaving) (record saved { regs = f }))
          (overwrite m2.regs (m.mem cmp) next_cmp)
      ∙ exec-cons (sd a3 0 a1) leaving m4 (
          step-sd a3 0 a1 m4 al_cmp (omega (arith, fits_cmp))
          ∙ ap (λ a. ok (record m4 { mem = update saved.mem a next_cmp })) at_cmp)

  -- The saved registers are still in the row.
  kept :
      (j : ℕ) {r : ℕ}
      → j < 3
      → get_elem? scratch_regs j ≡ some r
      → word scheduled.mem row j ≡ update m.regs a0 row r
  kept j lt e =
      let away : (cmp == row + 8 * j) ≡ false = ground (arith, apart, lt) in
      let there : j ≡ 0 + j = omega arith in
      rw away (
        ap (λ k. saved.mem (row + 8 * k)) there
        ∙ stored-at (update m.regs a0 row) row 0 scratch_regs m.mem j e)

  -- After the registers are loaded again.
  abbrev left : Machine
  left = record scheduled {
    regs =
        update (update (update (update scheduled.regs a1 2) a3 (m.regs a3)) a2 (m.regs a2)) a1
          (m.regs a1);
    csrs = record m.csrs { mscratch = m.regs a0; sip = 2 };
  }

  leaves : exec leaving scheduled ≡ exec (csrrw a0 mscratch a0 ∷ mret ∷ []) left
  unfolding exec step
  leaves =
      let m1 : Machine = record left { regs = update scheduled.regs a1 2 } in
      let m2 : Machine = record left { regs = update m1.regs a3 (m.regs a3) } in
      let m3 : Machine = record left { regs = update m2.regs a2 (m.regs a2) } in
      exec-cons (ld a3 16 a0) (ld a2 8 a0 ∷ ld a1 0 a0 ∷ csrrw a0 mscratch a0 ∷ mret ∷ []) m1 (
        step-ld a3 2 a0 m1 al (omega (arith, fits))
        ∙ ap (λ v. ok (record left { regs = update m1.regs a3 v })) (kept 2 (omega arith) refl))
      ∙ exec-cons (ld a2 8 a0) (ld a1 0 a0 ∷ csrrw a0 mscratch a0 ∷ mret ∷ []) m2 (
          step-ld a2 1 a0 m2 al (omega (arith, fits))
          ∙ ap (λ v. ok (record left { regs = update m2.regs a2 v })) (kept 1 (omega arith) refl))
      ∙ exec-cons (ld a1 0 a0) (csrrw a0 mscratch a0 ∷ mret ∷ []) m3 (
          step-ld a1 0 a0 m3 al (omega (arith, fits))
          ∙ ap (λ v. ok (record left { regs = update m3.regs a1 v })) (kept 0 (omega arith) refl))

  -- What the handler does on a hart whose `mscratch` points to a row of five aligned words, the fourth
  -- of which holds the aligned address of the hart's comparison register, which lies outside the row:
  -- the register moves on by the row's fifth word, the supervisor's software interrupt is pending, and
  -- the hart is back at the interrupted instruction with all its registers, its control registers
  -- being as `mret` leaves them; no memory but the register and the row's first three words changes.
  pub timer_vec_lem :
      (m' : Machine) × (exec timer_vec m ≡ ok m')
      × (m'.mem cmp ≡ (m.mem cmp + word m.mem row 4) % 2 ^ 64)
      × ((b : ℕ) → b ≢ cmp → (b < row) ⊎ (row + 24 ≤ b) → m'.mem b ≡ m.mem b)
      × ((r : ℕ) → m'.regs r ≡ m.regs r)
      × (m'.csrs ≡ after_mret (record m.csrs { sip = 2 }))
      × (m'.pc ≡ m.csrs.mepc)
  unfolding timer_vec exec step
  timer_vec_lem = (
    record left {
      regs = update left.regs a0 (m.regs a0);
      csrs = after_mret (record m.csrs { sip = 2 });
      pc = m.csrs.mepc;
    },
    exec-saves a0 0 scratch_regs
          (ld a1 24 a0 ∷ ld a2 32 a0 ∷ ld a3 0 a1 ∷ add a3 a3 a2 ∷ sd a3 0 a1 ∷ leaving)
          (record saved { mem = m.mem }) al (omega (arith, fits))
        ∙ schedules
        ∙ leaves,
    rw (==_refl cmp) refl,
    λ b ne out. ground (arith, ne, saved-beyond b out),
    λ r. ground arith,
    refl,
    refl,
  )
