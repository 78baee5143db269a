-- ===== src/Riscv.antt =====
-- The control and status registers that 03.Scheduler/include/riscv.h reads and writes by inline
-- assembly, and the interrupt switch built from them. Each register is a cell of its own that holds
-- the 64-bit pattern last written; `sstatus` is not made a view of `mstatus`, nor `sip` one of `mip`,
-- since no function of the kernel writes one of such a pair and reads the other.
pub mod Interrupts
pub mod Pages
use gquuuuuunix.Base.{ℕ, ◌-◌, ◌^◌, Bool, not, bit_and, bit_or, ◌==◌}

-- The registers of one hart. `tp`, the thread pointer, holds the hart's number.
pub record Csrs : Type 0 where
  pub mhartid : ℕ
  pub mstatus : ℕ
  pub mepc : ℕ
  pub sstatus : ℕ
  pub sip : ℕ
  pub sie : ℕ
  pub mie : ℕ
  pub sepc : ℕ
  pub medeleg : ℕ
  pub mideleg : ℕ
  pub stvec : ℕ
  pub mtvec : ℕ
  pub pmpcfg0 : ℕ
  pub pmpaddr0 : ℕ
  pub pmpaddr1 : ℕ
  pub satp : ℕ
  pub mscratch : ℕ
  pub scause : ℕ
  pub stval : ℕ
  pub mcounteren : ℕ
  pub time : ℕ
  pub tp : ℕ

unfoldable pub r_mhartid : Csrs → ℕ
r_mhartid c = c.mhartid

unfoldable pub r_mstatus : Csrs → ℕ
r_mstatus c = c.mstatus

unfoldable pub w_mstatus : ℕ → Csrs → Csrs
w_mstatus x c = record c { mstatus = x }

unfoldable pub w_mepc : ℕ → Csrs → Csrs
w_mepc x c = record c { mepc = x }

unfoldable pub r_sstatus : Csrs → ℕ
r_sstatus c = c.sstatus

unfoldable pub w_sstatus : ℕ → Csrs → Csrs
w_sstatus x c = record c { sstatus = x }

unfoldable pub r_sip : Csrs → ℕ
r_sip c = c.sip

unfoldable pub w_sip : ℕ → Csrs → Csrs
w_sip x c = record c { sip = x }

unfoldable pub r_sie : Csrs → ℕ
r_sie c = c.sie

unfoldable pub w_sie : ℕ → Csrs → Csrs
w_sie x c = record c { sie = x }

unfoldable pub r_mie : Csrs → ℕ
r_mie c = c.mie

unfoldable pub w_mie : ℕ → Csrs → Csrs
w_mie x c = record c { mie = x }

unfoldable pub r_sepc : Csrs → ℕ
r_sepc c = c.sepc

unfoldable pub w_sepc : ℕ → Csrs → Csrs
w_sepc x c = record c { sepc = x }

unfoldable pub r_medeleg : Csrs → ℕ
r_medeleg c = c.medeleg

unfoldable pub w_medeleg : ℕ → Csrs → Csrs
w_medeleg x c = record c { medeleg = x }

unfoldable pub r_mideleg : Csrs → ℕ
r_mideleg c = c.mideleg

unfoldable pub w_mideleg : ℕ → Csrs → Csrs
w_mideleg x c = record c { mideleg = x }

unfoldable pub r_stvec : Csrs → ℕ
r_stvec c = c.stvec

unfoldable pub w_stvec : ℕ → Csrs → Csrs
w_stvec x c = record c { stvec = x }

unfoldable pub w_mtvec : ℕ → Csrs → Csrs
w_mtvec x c = record c { mtvec = x }

unfoldable pub w_pmpcfg0 : ℕ → Csrs → Csrs
w_pmpcfg0 x c = record c { pmpcfg0 = x }

unfoldable pub w_pmpaddr0 : ℕ → Csrs → Csrs
w_pmpaddr0 x c = record c { pmpaddr0 = x }

unfoldable pub w_pmpaddr1 : ℕ → Csrs → Csrs
w_pmpaddr1 x c = record c { pmpaddr1 = x }

unfoldable pub r_satp : Csrs → ℕ
r_satp c = c.satp

unfoldable pub w_satp : ℕ → Csrs → Csrs
w_satp x c = record c { satp = x }

unfoldable pub w_mscratch : ℕ → Csrs → Csrs
w_mscratch x c = record c { mscratch = x }

unfoldable pub r_scause : Csrs → ℕ
r_scause c = c.scause

unfoldable pub r_stval : Csrs → ℕ
r_stval c = c.stval

unfoldable pub r_mcounteren : Csrs → ℕ
r_mcounteren c = c.mcounteren

unfoldable pub w_mcounteren : ℕ → Csrs → Csrs
w_mcounteren x c = record c { mcounteren = x }

unfoldable pub r_time : Csrs → ℕ
r_time c = c.time

unfoldable pub r_tp : Csrs → ℕ
r_tp c = c.tp

unfoldable pub w_tp : ℕ → Csrs → Csrs
w_tp x c = record c { tp = x }

-- Bit 1 of `sstatus`: interrupts enabled in supervisor mode.
abbrev pub sstatus_sie : ℕ
sstatus_sie = 2

-- Bit 8 of `sstatus`: the trap came from supervisor mode.
abbrev pub sstatus_spp : ℕ
sstatus_spp = 256

-- `~x` of a 64-bit word.
abbrev pub not64 : ℕ → ℕ
not64 x = 2 ^ 64 - 1 - x

unfoldable pub intr_on : Csrs → Csrs
unfolding w_sstatus r_sstatus
intr_on c = w_sstatus (bit_or (r_sstatus c) sstatus_sie) c

unfoldable pub intr_off : Csrs → Csrs
unfolding w_sstatus r_sstatus
intr_off c = w_sstatus (bit_and (r_sstatus c) (not64 sstatus_sie)) c

unfoldable pub intr_get : Csrs → Bool
unfolding r_sstatus
intr_get c = let x = r_sstatus c in not (bit_and x sstatus_sie == 0)
