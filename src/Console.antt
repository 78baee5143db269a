-- ===== src/Console.antt =====
-- 03.Scheduler/lib/console.c: `puts` and `printf` over the UART. The children have its parts.
pub mod Decimal
pub mod Hex
pub mod Format
pub mod Uart
