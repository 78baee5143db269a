-- ===== src/Tests.antt =====
-- Concrete states, and the theorems applied to them.
pub mod Data
pub mod Sched
pub mod Locks
pub mod Console
pub mod Kernel
pub mod Protocol
pub mod Turns
pub mod Table
pub mod Boot
pub mod Stages
pub mod Asm
pub mod Atomic
pub mod Preempt
