-- ===== src/Stages.antt =====
-- The kernel's two earlier stages, 01.HelloWorld and 02.TimerInterrupt, where they differ from the
-- last.
pub mod Hello
pub mod Timer
