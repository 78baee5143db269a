-- ===== src/Boot/Whole.antt =====
-- The whole kernel from the moment that hart 0 reaches the scheduler: harts that are still in
-- `kernel_main` go on there, while the others schedule.
--
-- Until then only the steps of Boot are taken. From then on the table of tasks is the scheduler's. A hart
-- that is still in `kernel_main` changes its own control registers and the start flag only.
pub mod Safety
use gquuuuuunix.Base.{ℕ, ◌≡◌, Bool, true, false, List, if◌then◌else◌}
use gquuuuuunix.Task.{Task, Image}
use gquuuuuunix.Sched.{Hart}
use gquuuuuunix.Sched.System.{World, mover}
use gquuuuuunix.Sched.System as Sched
use gquuuuuunix.Boot as Boot
use gquuuuuunix.Boot.{Pc, in_scheduler, Kernel}

abbrev pub is_in : Pc → Bool
is_in in_scheduler = true
is_in _ = false

-- The registers of the harts that are still in `kernel_main`, after a step there.
abbrev pub joined : Kernel → Kernel → World → World
joined k k' w = record w {
  harts = λ h.
      if is_in (k.pc h)
      then w.harts h
      else record (w.harts h) { core = record (w.harts h).core { csrs = k'.csrs h } };
}

pub data Step (n : ℕ) (img : Image) (kernelvec : ℕ) (statics : List Task) (k : Kernel) (w : World)
    : Kernel → World → Type 0 where
  booting :
      {k' : Kernel}
      → Boot.Step n img kernelvec statics k k'
      → Step n img kernelvec statics k w k' (joined k k' w)
  scheduling :
      {w' : World} (st : Sched.Step n w w')
      → k.pc (mover st) ≡ in_scheduler
      → Step n img kernelvec statics k w k w'

pub data Reach (n : ℕ) (img : Image) (kernelvec : ℕ) (statics : List Task) (u : Kernel) (v : World)
    : Kernel → World → Type 0 where
  here : Reach n img kernelvec statics u v u v
  later :
      {k k' : Kernel} {w w' : World}
      → Reach n img kernelvec statics u v k w
      → Step n img kernelvec statics k w k' w'
      → Reach n img kernelvec statics u v k' w'
