-- ===== src/Asm.antt =====
-- The assembly of 03.Scheduler: lib/switch.s, lib/kvec.s and entry.s, as lists of instructions that
-- are run one after the other on one hart's machine state.
--
-- The instructions are those of the RV64 manual that the three files use. Memory is taken by words of
-- 64 bits: an access that is not aligned to 8 bytes is a fault, and `mem` is read at multiples of 8
-- only. `tp` is `x4` here; the cell `tp` of `Csrs` is not used.
pub mod Blocks
pub mod Switch
pub mod Timer
pub mod Tick
pub mod Kernelvec
pub mod Entry
pub mod Trap
pub mod PowerOn
pub mod Preempt
use gquuuuuunix.Base.{
  ℕ, ◌+◌, ◌*◌, ◌%◌, ◌^◌, List, [], ◌∷◌, ◌==◌, bit_and, bit_or, if◌then◌else◌, update,
}
use gquuuuuunix.Outcome.{Outcome, ok, fault, ◌>>=◌}
use gquuuuuunix.Riscv.{Csrs, not64}

-- The registers by their numbers. `x0` is never named in the three files.
abbrev pub ra : ℕ
ra = 1

abbrev pub sp : ℕ
sp = 2

abbrev pub gp : ℕ
gp = 3

abbrev pub tp : ℕ
tp = 4

abbrev pub t0 : ℕ
t0 = 5

abbrev pub t1 : ℕ
t1 = 6

abbrev pub t2 : ℕ
t2 = 7

abbrev pub s0 : ℕ
s0 = 8

abbrev pub s1 : ℕ
s1 = 9

abbrev pub a0 : ℕ
a0 = 10

abbrev pub a1 : ℕ
a1 = 11

abbrev pub a2 : ℕ
a2 = 12

abbrev pub a3 : ℕ
a3 = 13

abbrev pub a4 : ℕ
a4 = 14

abbrev pub a5 : ℕ
a5 = 15

abbrev pub a6 : ℕ
a6 = 16

abbrev pub a7 : ℕ
a7 = 17

abbrev pub s2 : ℕ
s2 = 18

abbrev pub s3 : ℕ
s3 = 19

abbrev pub s4 : ℕ
s4 = 20

abbrev pub s5 : ℕ
s5 = 21

abbrev pub s6 : ℕ
s6 = 22

abbrev pub s7 : ℕ
s7 = 23

abbrev pub s8 : ℕ
s8 = 24

abbrev pub s9 : ℕ
s9 = 25

abbrev pub s10 : ℕ
s10 = 26

abbrev pub s11 : ℕ
s11 = 27

abbrev pub t3 : ℕ
t3 = 28

abbrev pub t4 : ℕ
t4 = 29

abbrev pub t5 : ℕ
t5 = 30

abbrev pub t6 : ℕ
t6 = 31

-- The control registers that the files name.
pub data Csr : Type 0 where
  mscratch mhartid sip : Csr

pub record Machine : Type 0 where
  pub regs : ℕ → ℕ
  pub csrs : Csrs
  pub mem : ℕ → ℕ
  pub pc : ℕ

-- An immediate is the 64-bit pattern of its value. `la` takes the address of its symbol, and `call`
-- the address behind it and the function that is called, up to its return; `jal` is a call that does not return.
pub data Instr : Type 0 where
  sd ld : ℕ → ℕ → ℕ → Instr  -- register, offset, base
  addi : ℕ → ℕ → ℕ → Instr
  add mul : ℕ → ℕ → ℕ → Instr
  li la : ℕ → ℕ → Instr
  csrr : ℕ → Csr → Instr
  csrw : Csr → ℕ → Instr
  csrrw : ℕ → Csr → ℕ → Instr
  call : ℕ → (Machine → Outcome Machine) → Instr
  jal : ℕ → ℕ → Instr
  ret mret sret : Instr

abbrev pub read_csr : Csr → Csrs → ℕ
read_csr mscratch c = c.mscratch
read_csr mhartid c = c.mhartid
read_csr sip c = c.sip

-- A write of the read-only `mhartid` does nothing here; no file has one.
abbrev pub write_csr : Csr → ℕ → Csrs → Csrs
write_csr mscratch v c = record c { mscratch = v }
write_csr mhartid v c = c
write_csr sip v c = record c { sip = v }

-- What `mret` makes of `mstatus`, and `sret` of `sstatus`: the interrupt enable is the previous one (bits
-- 7 to 3, 5 to 1), that one is set, the previous mode is the user's (bits 12 and 11, bit 8); `mret` to a
-- lower mode clears `MPRV` (bit 17).
abbrev pub after_mret : Csrs → Csrs
after_mret c =
    let cleared = if bit_and c.mstatus 6144 == 6144 then 6280 else 137352 in
    let enable = if bit_and c.mstatus 128 == 0 then 128 else 136 in
    record c { mstatus = bit_or (bit_and c.mstatus (not64 cleared)) enable }

abbrev pub after_sret : Csrs → Csrs
after_sret c =
    let enable = if bit_and c.sstatus 32 == 0 then 32 else 34 in
    record c { sstatus = bit_or (bit_and c.sstatus (not64 290)) enable }

abbrev pub set_reg : Machine → ℕ → ℕ → Machine
set_reg m r v = record m { regs = update m.regs r v }

abbrev pub address : Machine → ℕ → ℕ → ℕ
address m off base = (m.regs base + off) % 2 ^ 64

abbrev pub aligned : ℕ → Machine → Outcome Machine
aligned a m = if a % 8 == 0 then ok m else fault

unfoldable pub step : Instr → Machine → Outcome Machine
step (sd r off base) m =
    let a = address m off base in aligned a (record m { mem = update m.mem a (m.regs r) })
step (ld r off base) m = let a = address m off base in aligned a (set_reg m r (m.mem a))
step (addi r s imm) m = ok (set_reg m r ((m.regs s + imm) % 2 ^ 64))
step (add r s t) m = ok (set_reg m r ((m.regs s + m.regs t) % 2 ^ 64))
step (mul r s t) m = ok (set_reg m r (m.regs s * m.regs t % 2 ^ 64))
step (li r imm) m = ok (set_reg m r imm)
step (la r symbol) m = ok (set_reg m r symbol)
step (csrr r c) m = ok (set_reg m r (read_csr c m.csrs))
step (csrw c s) m = ok (record m { csrs = write_csr c (m.regs s) m.csrs })
step (csrrw r c s) m =
    ok (record m {
      regs = update m.regs r (read_csr c m.csrs);
      csrs = write_csr c (m.regs s) m.csrs;
    })
step (call link f) m = f (set_reg m ra link)
step (jal link target) m = ok (record (set_reg m ra link) { pc = target })
step ret m = ok (record m { pc = m.regs ra })
step mret m = ok (record m { csrs = after_mret m.csrs; pc = m.csrs.mepc })
step sret m = ok (record m { csrs = after_sret m.csrs; pc = m.csrs.sepc })

unfoldable pub exec : List Instr → Machine → Outcome Machine
unfolding step
exec [] m = ok m
exec (i ∷ code) m = step i m >>= exec code
