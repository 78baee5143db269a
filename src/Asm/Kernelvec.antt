-- ===== src/Asm/Kernelvec.antt =====
-- 03.Scheduler/lib/kvec.s, `kernelvec`: the way into the supervisor's trap handler and out of it.
pub mod Return
use gquuuuuunix.Base.{ℕ, ◌-◌, List, [], ◌∷◌, update}
use gquuuuuunix.Outcome.{Outcome}
use gquuuuuunix.Asm.{
  ra, sp, gp, tp, t0, t1, t2, s0, s1, a0, a1, a2, a3, a4, a5, a6, a7, s2, s3, s4, s5, s6, s7, s8,
  s9, s10, s11, t3, t4, t5, t6, Machine, Instr, sd, ld, addi, call, sret,
}
use gquuuuuunix.Asm.Blocks.{stored}

-- `handler` is `kernel_trap_handler`, and `link` the address behind its call.
unfoldable pub kernelvec : ℕ → (Machine → Outcome Machine) → List Instr
kernelvec link handler =
    addi sp sp 18446744073709551360
    ∷ sd ra 0 sp
    ∷ sd sp 8 sp
    ∷ sd gp 16 sp
    ∷ sd tp 24 sp
    ∷ sd t0 32 sp
    ∷ sd t1 40 sp
    ∷ sd t2 48 sp
    ∷ sd s0 56 sp
    ∷ sd s1 64 sp
    ∷ sd a0 72 sp
    ∷ sd a1 80 sp
    ∷ sd a2 88 sp
    ∷ sd a3 96 sp
    ∷ sd a4 104 sp
    ∷ sd a5 112 sp
    ∷ sd a6 120 sp
    ∷ sd a7 128 sp
    ∷ sd s2 136 sp
    ∷ sd s3 144 sp
    ∷ sd s4 152 sp
    ∷ sd s5 160 sp
    ∷ sd s6 168 sp
    ∷ sd s7 176 sp
    ∷ sd s8 184 sp
    ∷ sd s9 192 sp
    ∷ sd s10 200 sp
    ∷ sd s11 208 sp
    ∷ sd t3 216 sp
    ∷ sd t4 224 sp
    ∷ sd t5 232 sp
    ∷ sd t6 240 sp
    ∷ call link handler
    ∷ ld ra 0 sp
    ∷ ld sp 8 sp
    ∷ ld gp 16 sp
    ∷ ld t0 32 sp
    ∷ ld t1 40 sp
    ∷ ld t2 48 sp
    ∷ ld s0 56 sp
    ∷ ld s1 64 sp
    ∷ ld a0 72 sp
    ∷ ld a1 80 sp
    ∷ ld a2 88 sp
    ∷ ld a3 96 sp
    ∷ ld a4 104 sp
    ∷ ld a5 112 sp
    ∷ ld a6 120 sp
    ∷ ld a7 128 sp
    ∷ ld s2 136 sp
    ∷ ld s3 144 sp
    ∷ ld s4 152 sp
    ∷ ld s5 160 sp
    ∷ ld s6 168 sp
    ∷ ld s7 176 sp
    ∷ ld s8 184 sp
    ∷ ld s9 192 sp
    ∷ ld s10 200 sp
    ∷ ld s11 208 sp
    ∷ ld t3 216 sp
    ∷ ld t4 224 sp
    ∷ ld t5 232 sp
    ∷ ld t6 240 sp
    ∷ addi sp sp 256
    ∷ sret
    ∷ []

-- `x1` to `x31`.
abbrev pub saved_regs : List ℕ
saved_regs =
    ra ∷ sp ∷ gp ∷ tp ∷ t0 ∷ t1 ∷ t2 ∷ s0 ∷ s1 ∷ a0 ∷ a1 ∷ a2 ∷ a3 ∷ a4 ∷ a5 ∷ a6 ∷ a7 ∷ s2 ∷ s3
    ∷ s4 ∷ s5 ∷ s6 ∷ s7 ∷ s8 ∷ s9 ∷ s10 ∷ s11 ∷ t3 ∷ t4 ∷ t5 ∷ t6 ∷ []

-- The machine in which the handler is called.
abbrev pub entered : ℕ → Machine → Machine
entered link m = record m {
  regs = update (update m.regs sp (m.regs sp - 256)) ra link;
  mem = stored (update m.regs sp (m.regs sp - 256)) (m.regs sp - 256) 0 saved_regs m.mem;
}
