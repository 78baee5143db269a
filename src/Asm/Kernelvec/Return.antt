-- ===== src/Asm/Kernelvec/Return.antt =====
-- What `kernelvec` leaves of the registers that it saved.
use gquuuuuunix.Base.{
  ℕ, zero, suc, ◌+◌, ◌-◌, ◌*◌, ◌%◌, ◌^◌, ◌≤◌, ◌<◌, ◌≡◌, ◌≢◌, refl, false, some, List, [], ◌∷◌, ◌++◌,
  ◌==◌, update, get_elem?, ap, subst, sym, ◌∙◌, arith,
}
use gquuuuuunix.Outcome.{Outcome, ok}
use gquuuuuunix.Asm.{
  ra, sp, gp, tp, t0, t1, t2, s0, s1, a0, a1, a2, a3, a4, a5, a6, a7, s2, s3, s4, s5, s6, s7, s8,
  s9, s10, s11, t3, t4, t5, t6, Machine, Instr, ld, addi, call, sret, after_sret, set_reg, step,
  exec,
}
use gquuuuuunix.Asm.Blocks.{
  word, saves, loads, loaded, exec-cons, exec-saves, exec-loads, step-ld, stored-at, loaded-at,
  Avoids-get_elem?,
}
use gquuuuuunix.Asm.Kernelvec.{kernelvec, saved_regs, entered}

-- The registers above `tp`.
abbrev upper_regs : List ℕ
upper_regs =
    t0 ∷ t1 ∷ t2 ∷ s0 ∷ s1 ∷ a0 ∷ a1 ∷ a2 ∷ a3 ∷ a4 ∷ a5 ∷ a6 ∷ a7 ∷ s2 ∷ s3 ∷ s4 ∷ s5 ∷ s6 ∷ s7
    ∷ s8 ∷ s9 ∷ s10 ∷ s11 ∷ t3 ∷ t4 ∷ t5 ∷ t6 ∷ []

-- The way out.
abbrev leaving : List Instr
leaving = ld gp 16 sp ∷ (loads sp 4 upper_regs ++ addi sp sp 256 ∷ sret ∷ [])

some_injective : {a b : ℕ} → some a ≡ some b → a ≡ b
some_injective e = cc

-- The registers from `k` on.
numbered : ℕ → ℕ → List ℕ
numbered zero k = []
numbered (suc n) k = k ∷ numbered n (suc k)

numbered-get_elem? : (n k j : ℕ) → j < n → get_elem? (numbered n k) j ≡ some (k + j)
unfolding numbered
numbered-get_elem? zero k j lt = absurd (omega (arith, lt))
numbered-get_elem? (suc n) k zero lt = ap some (omega arith)
numbered-get_elem? (suc n) k (suc j) lt =
    let there : suc k + j ≡ k + suc j = omega arith in
    numbered-get_elem? n (suc k) j (omega (arith, lt)) ∙ ap some there

-- The list has them in the order of their numbers.
saved_regs-number : (r : ℕ) → 0 < r → r < 32 → get_elem? saved_regs (r - 1) ≡ some r
unfolding numbered
saved_regs-number r pos lt =
    let there : 1 + (r - 1) ≡ r = omega (arith, pos) in
    numbered-get_elem? 31 1 (r - 1) (omega (arith, lt, pos)) ∙ ap some there

module _ (link : ℕ) (handler : Machine → Outcome Machine) (m m2 : Machine) (al : m.regs sp % 8 ≡ 0)
    (room : 256 ≤ m.regs sp) (fits : m.regs sp < 2 ^ 64) (called : handler (entered link m) ≡ ok m2)
    (same_sp : m2.regs sp ≡ m.regs sp - 256)
    (kept : (j : ℕ)
      → j < 31
      → word m2.mem (m.regs sp - 256) j ≡ word (entered link m).mem (m.regs sp - 256) j) where
  abbrev frame : ℕ
  frame = m.regs sp - 256

  opens_frame : (m.regs sp + 18446744073709551360) % 2 ^ 64 ≡ frame
  opens_frame = omega (arith, room, fits)

  closes_frame : (frame + 256) % 2 ^ 64 ≡ m.regs sp
  closes_frame = omega (arith, room, fits)

  frame_aligned : frame % 8 ≡ 0
  frame_aligned = omega (arith, al, room)

  -- The saved registers after the handler.
  slot :
      (j : ℕ) {r : ℕ}
      → j < 31
      → get_elem? saved_regs j ≡ some r
      → word m2.mem frame j ≡ update m.regs sp frame r
  slot j lt e =
      let there : j ≡ 0 + j = omega arith in
      kept j lt
      ∙ ap (λ k. (entered link m).mem (frame + 8 * k)) there
      ∙ stored-at (update m.regs sp frame) frame 0 saved_regs m.mem j e

  abbrev back : Machine
  back = record m2 { regs = update (update m2.regs ra (m.regs ra)) sp frame }

  abbrev out_regs : ℕ → ℕ
  out_regs = loaded m2.mem frame 4 upper_regs (update back.regs gp (m.regs gp))

  al2 : m2.regs sp % 8 ≡ 0
  al2 = omega (arith, frame_aligned, same_sp)

  fits2 : m2.regs sp + 16 ≤ 2 ^ 64
  fits2 = omega (arith, room, fits, same_sp)

  -- The same, found through the handler's `sp`.
  found :
      (j : ℕ) {r : ℕ}
      → j < 31
      → get_elem? saved_regs j ≡ some r
      → word m2.mem (m2.regs sp) j ≡ update m.regs sp frame r
  found j lt e = ap (λ a. word m2.mem a j) same_sp ∙ slot j lt e

  enters : exec (kernelvec link handler) m ≡ exec leaving back
  unfolding kernelvec exec step
  enters =
      ap
        (λ v.
          exec (saves sp 0 saved_regs ++ call link handler ∷ ld ra 0 sp ∷ ld sp 8 sp ∷ leaving)
            (record m { regs = update m.regs sp v }))
        opens_frame
      ∙ exec-saves sp 0 saved_regs (call link handler ∷ ld ra 0 sp ∷ ld sp 8 sp ∷ leaving)
          (record m { regs = update m.regs sp frame }) frame_aligned (omega (arith, room, fits))
      ∙ exec-cons (call link handler) (ld ra 0 sp ∷ ld sp 8 sp ∷ leaving)
          (record m { regs = update m.regs sp frame; mem = (entered link m).mem }) called
      ∙ exec-cons (ld ra 0 sp) (ld sp 8 sp ∷ leaving) m2 (
          step-ld ra 0 sp m2 al2 (omega (arith, fits2))
          ∙ ap (λ v. ok (set_reg m2 ra v)) (found 0 (omega arith) refl))
      ∙ exec-cons (ld sp 8 sp) leaving (set_reg m2 ra (m.regs ra)) (
          step-ld sp 1 sp (set_reg m2 ra (m.regs ra)) al2 fits2
          ∙ ap (λ v. ok (set_reg (set_reg m2 ra (m.regs ra)) sp v)) (found 1 (omega arith) refl))

  leaves :
      exec leaving back
      ≡ ok (record m2 {
        regs = update out_regs sp (m.regs sp);
        csrs = after_sret m2.csrs;
        pc = m2.csrs.sepc;
      })
  unfolding exec step loaded
  leaves =
      exec-cons (ld gp 16 sp) (loads sp 4 upper_regs ++ addi sp sp 256 ∷ sret ∷ []) back (
        step-ld gp 2 sp back frame_aligned (omega (arith, room, fits))
        ∙ ap (λ v. ok (set_reg back gp v)) (slot 2 (omega arith) refl))
      ∙ exec-loads sp 4 upper_regs (addi sp sp 256 ∷ sret ∷ []) (set_reg back gp (m.regs gp))
          (omega arith) frame_aligned (omega (arith, room, fits))
      ∙ ap
          (λ v. ok (record m2 {
            regs = update out_regs sp v;
            csrs = after_sret m2.csrs;
            pc = m2.csrs.sepc;
          }))
          closes_frame

  low_restored :
      (update out_regs sp (m.regs sp) ra ≡ m.regs ra)
      × (update out_regs sp (m.regs sp) sp ≡ m.regs sp)
      × (update out_regs sp (m.regs sp) gp ≡ m.regs gp)
      × (update out_regs sp (m.regs sp) tp ≡ m2.regs tp)
  unfolding loaded
  low_restored = (refl, refl, refl, refl)

  upper_restored :
      (j : ℕ) {r : ℕ}
      → suc (suc (suc (suc j))) < 31
      → get_elem? upper_regs j ≡ some r
      → update out_regs sp (m.regs sp) r ≡ m.regs r
  upper_restored j {r} lt e =
      let other : (sp == r) ≡ false =
        ground (arith, Avoids-get_elem? sp upper_regs j (omega arith) e) in
      let there : 4 + j ≡ suc (suc (suc (suc j))) = omega arith in
      rw other (
        loaded-at m2.mem frame 4 upper_regs (update back.regs gp (m.regs gp)) j (omega arith) e
        ∙ ap (word m2.mem frame) there
        ∙ slot (suc (suc (suc (suc j)))) lt e
        ∙ rw other refl)

  -- Every register is as it was, but for `tp`.
  restored :
      (j : ℕ) {r : ℕ}
      → j < 31
      → get_elem? saved_regs j ≡ some r
      → r ≢ tp
      → update out_regs sp (m.regs sp) r ≡ m.regs r
  restored zero lt e ne =
      subst (λ x. update out_regs sp (m.regs sp) x ≡ m.regs x) (some_injective e) low_restored.0
  restored (suc zero) lt e ne =
      subst (λ x. update out_regs sp (m.regs sp) x ≡ m.regs x) (some_injective e) low_restored.1
  restored (suc (suc zero)) lt e ne =
      subst (λ x. update out_regs sp (m.regs sp) x ≡ m.regs x) (some_injective e) low_restored.2
  restored (suc (suc (suc zero))) lt e ne = absurd (ne (sym (some_injective e)))
  restored (suc (suc (suc (suc j)))) lt e ne = upper_restored j lt e

  -- From a trap with 256 bytes of aligned stack below `sp`: if the handler, called with the registers
  -- saved there, returns with `sp` as it got it and with these words unchanged, then the interrupted
  -- code goes on at the `sepc` that the handler leaves, with `x1` to `x31` as they were but for `tp`,
  -- which is the handler's, as is memory, and with the control registers as `sret` makes them of those.
  pub kernelvec_lem :
      (m' : Machine) × (exec (kernelvec link handler) m ≡ ok m')
      × ((r : ℕ) → 0 < r → r < 32 → r ≢ tp → m'.regs r ≡ m.regs r)
      × (m'.regs tp ≡ m2.regs tp)
      × (m'.pc ≡ m2.csrs.sepc)
      × (m'.mem ≡ m2.mem)
      × (m'.csrs ≡ after_sret m2.csrs)
  kernelvec_lem = (
    record m2 {
      regs = update out_regs sp (m.regs sp);
      csrs = after_sret m2.csrs;
      pc = m2.csrs.sepc;
    },
    enters ∙ leaves,
    λ r pos lt ne. restored (r - 1) (omega (arith, lt)) (saved_regs-number r pos lt) ne,
    low_restored.3,
    refl,
    refl,
    refl,
  )
