-- ===== src/Trap.antt =====
-- 03.Scheduler/lib/trap.c: the handler of supervisor traps.
--
-- `yield` returns only when the task is switched to again, so the handler is cut there, as `yield`
-- is: `trap_enter` ends with the turn given up, or with the trap served; `trap_exit` is the rest on
-- the hart that took the task up. The line that is printed before `yield` is a function
-- of its own. `get_cur_task()` and the
-- task it points to are the argument `current`, read once.
pub mod Return
pub mod Steps
pub mod Line
use gquuuuuunix.Base.{
  ℕ, zero, suc, ◌+◌, ◌-◌, ◌%◌, ◌^◌, ◌≡◌, ◌≢◌, refl, Bool, true, false, ◌&&◌, not, Option, none,
  some, List, [], ◌∷◌, ◌==◌, ==_iff, if◌then◌else◌, ap, sym, ◌∙◌, arith, Bool-cases, ◌⊎◌, inl, inr,
  bit_and, bit_or,
}
use gquuuuuunix.Outcome.{Outcome, ok, panic, ◌>>=◌, panic_if, not_from_supervisor, intr_on_in_trap}
use gquuuuuunix.Riscv.{
  Csrs, r_sepc, r_sstatus, r_scause, r_sip, w_sip, w_sepc, w_sstatus, r_tp, intr_get, not64,
  sstatus_spp,
}
use gquuuuuunix.Cpu.{Core}
use gquuuuuunix.Atomic.{Try}
use gquuuuuunix.SpinLock.{SpinLock}
use gquuuuuunix.Task.{TaskState, running, Task}
use gquuuuuunix.Sched.{Hart, is_running, yield_out, yield_in}
use gquuuuuunix.Time.{FixedPoint, fixed_point_get_integer, get_time_decimal}
use gquuuuuunix.Console.Format.{word, Printed, printf}

-- `gticks` and `time`.
pub record Clock : Type 0 where
  pub gticks : ℕ
  pub time : FixedPoint

unfoldable pub tick : Csrs → Clock → Clock
unfolding r_tp
tick c k =
    let fp = k.time in
    if r_tp c == 0
    then record {
      gticks = (k.gticks + 1) % 2 ^ 64;
      time = record fp { data_bits = (fp.data_bits + 262143) % 2 ^ 64 };
    }
    else k

-- The locals `sepc` and `sstatus`, for the way out.
pub record Frame : Type 0 where
  pub sepc : ℕ
  pub sstatus : ℕ

pub data Trapped : Type 0 where
  served : Hart → Trapped
  gave_up : Frame → Bool → Task → Hart → Trapped

-- `w_sip(r_sip() & ~2)`.
unfoldable pub clear_ssip : Csrs → Csrs
unfolding w_sip r_sip
clear_ssip c = w_sip (bit_and (r_sip c) (not64 2)) c

-- The two writes that end the handler.
unfoldable pub restore : Frame → Csrs → Csrs
unfolding w_sepc w_sstatus
restore f c = w_sstatus f.sstatus (w_sepc f.sepc c)

abbrev pub on_csrs : (Csrs → Csrs) → Hart → Hart
on_csrs f h = record h { core = record h.core { csrs = f h.core.csrs } }

-- The body of the timer's case up to `yield`.
unfoldable pub timer_case :
    List (SpinLock → SpinLock) → Frame → Option Task → Hart → Outcome Trapped
timer_case world f none h = ok (served (on_csrs (λ c. restore f (clear_ssip c)) h))
timer_case world f (some t) h =
    let give_up = (do (ena, t', h') ← yield_out world t h; ok (gave_up f ena t' h')) in
    if is_running t.state then give_up else ok (served (on_csrs (λ c. restore f (clear_ssip c)) h))

unfoldable pub trap_enter :
    List (SpinLock → SpinLock) → Option Task → Clock → Hart → Outcome (Clock × Trapped)
unfolding r_sepc r_sstatus r_scause timer_case
trap_enter world current k h =
    let c = h.core.csrs in
    let f : Frame = record { sepc = r_sepc c; sstatus = r_sstatus c } in
    let timer = (do out ← timer_case world f current h; ok (tick c k, out)) in
    panic_if (bit_and f.sstatus sstatus_spp == 0) not_from_supervisor (
      panic_if (intr_get c) intr_on_in_trap (
        if r_scause c == 9223372036854775809
        then timer
        else ok (k, served (on_csrs (restore f) h))))

-- The rest, after `yield`.
unfoldable pub trap_exit : List Try → Frame → Bool → Task → Hart → Outcome (Task × Hart)
trap_exit tries f ena t h = do
  (t', h') ← yield_in tries ena t h
  ok (t', on_csrs (λ c. restore f (clear_ssip c)) h')

-- `"[%05lld.%05d] yield ...\n"`.
abbrev pub line_end : List ℕ
line_end = b']' ∷ b' ' ∷ b'y' ∷ b'i' ∷ b'e' ∷ b'l' ∷ b'd' ∷ b' ' ∷ b'.' ∷ b'.' ∷ b'.' ∷ 10 ∷ []

abbrev pub line_fmt : List ℕ
line_fmt =
    b'[' ∷ b'%' ∷ b'0' ∷ b'5' ∷ b'l' ∷ b'l' ∷ b'd' ∷ b'.' ∷ b'%' ∷ b'0' ∷ b'5' ∷ b'd' ∷ line_end

-- What the handler prints, by the clock behind the tick.
unfoldable pub yield_line : FixedPoint → Printed
unfolding fixed_point_get_integer get_time_decimal
yield_line time =
    printf line_fmt (word (fixed_point_get_integer time) ∷ word (get_time_decimal time) ∷ [])
