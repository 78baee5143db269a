-- ===== src/Sched/System/Harts.antt =====
-- A hart's own state after a step that touches no task.
use gquuuuuunix.Base.{ℕ, ◌<◌, ◌^◌, ◌≡◌, some, ap, ◌∙◌, arith}
use gquuuuuunix.Riscv.{Csrs}
use gquuuuuunix.Cpu.{Context, get_cpuid, get_cur_task}
use gquuuuuunix.Task.{task_max_nrs}
use gquuuuuunix.Sched.{Hart, round_start}
use gquuuuuunix.Sched.System.{Pc, scanning, user}
use gquuuuuunix.Sched.System.Moved.{current, locks, HartOk}
use gquuuuuunix.Sched.System.Ops.{HartOk-intr_on}

pub round-HartOk :
    {h : ℕ} (p : Pc) (x : Hart)
    → HartOk h p x
    → p ≡ scanning task_max_nrs
    → HartOk h (scanning 0) (round_start x)
unfolding round_start
round-HartOk p x v e =
    let w = HartOk-intr_on x v (ap locks e) in
    record {
      id = w.id;
      fits = w.fits;
      nrs = w.nrs ∙ ap locks e;
      masked = λ one. cc;
      cur = w.cur ∙ ap current e;
    }

-- Other registers, with the same `tp`, where no lock is held.
pub csrs-HartOk :
    {h : ℕ} (p : Pc) (x : Hart) (regs : Context) (csrs : Csrs) (q : Pc)
    → HartOk h p x
    → p ≡ q
    → locks q ≡ 0
    → csrs.tp ≡ x.core.csrs.tp
    → csrs.sstatus < 2 ^ 64
    → HartOk h q (record { core = record x.core { csrs = csrs }; regs = regs })
unfolding get_cpuid
csrs-HartOk p x regs csrs q v e none_held same fits = record {
  id = ground (arith, v.id, same);
  fits = fits;
  nrs = v.nrs ∙ ap locks e;
  masked = λ one. ground (arith, one, none_held);
  cur = v.cur ∙ ap current e;
}

-- `get_cur_task` finds the task whose turn it is.
pub cur_task :
    {h i : ℕ} (p : Pc) (x : Hart) → HartOk h p x → p ≡ user i → get_cur_task x.core ≡ some i
unfolding get_cur_task
cur_task p x v e = v.cur ∙ ap current e
