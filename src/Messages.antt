-- ===== src/Messages.antt =====
-- What the kernel of 03.Scheduler prints besides the trap handler's line: `PANIC` and `PRINTK` of
-- include/console.h and their calls, and the two lines of main.c at the boot.
pub mod Text
use gquuuuuunix.Base.{ℕ, List, [], ◌∷◌, ◌++◌}
use gquuuuuunix.Outcome.{
  Panic, acquire_is_holding, release_not_holding, pop_off_interruptible, pop_off_nrs,
  lock_not_holding, task_running, interruptible, not_from_supervisor, intr_on_in_trap, strlen_null,
}
use gquuuuuunix.Riscv.{Csrs, r_tp}
use gquuuuuunix.Task.{Task}
use gquuuuuunix.Console.Format.{Arg, word, str, Printed, printf}

-- The texts of the calls of `PANIC`, and their lines in lib/spin_lock.c, task.c, sched.c, trap.c and
-- string.c.
unfoldable pub panic_text : Panic → List ℕ
panic_text acquire_is_holding =
    b's' ∷ b'p' ∷ b'i' ∷ b'n' ∷ b' ' ∷ b'l' ∷ b'o' ∷ b'c' ∷ b'k' ∷ b' ' ∷ b'a' ∷ b'c' ∷ b'q' ∷ b'u'
    ∷ b'i' ∷ b'r' ∷ b'e' ∷ b' ' ∷ b'i' ∷ b's' ∷ b' ' ∷ b'h' ∷ b'o' ∷ b'l' ∷ b'd' ∷ b'i' ∷ b'n'
    ∷ b'g' ∷ []
panic_text release_not_holding =
    b's' ∷ b'p' ∷ b'i' ∷ b'n' ∷ b' ' ∷ b'l' ∷ b'o' ∷ b'c' ∷ b'k' ∷ b' ' ∷ b'r' ∷ b'e' ∷ b'l' ∷ b'e'
    ∷ b'a' ∷ b's' ∷ b'e' ∷ b' ' ∷ b'n' ∷ b'o' ∷ b't' ∷ b' ' ∷ b'h' ∷ b'o' ∷ b'l' ∷ b'd' ∷ b'i'
    ∷ b'n' ∷ b'g' ∷ []
panic_text pop_off_interruptible =
    b'p' ∷ b'o' ∷ b'p' ∷ b'_' ∷ b'o' ∷ b'f' ∷ b'f' ∷ b' ' ∷ b'-' ∷ b' ' ∷ b'i' ∷ b'n' ∷ b't' ∷ b'e'
    ∷ b'r' ∷ b'r' ∷ b'u' ∷ b'p' ∷ b't' ∷ b'i' ∷ b'b' ∷ b'l' ∷ b'e' ∷ []
panic_text pop_off_nrs =
    b'p' ∷ b'o' ∷ b'p' ∷ b'_' ∷ b'o' ∷ b'f' ∷ b'f' ∷ b' ' ∷ b'-' ∷ b' ' ∷ b'n' ∷ b'r' ∷ b's' ∷ b' '
    ∷ b'<' ∷ b' ' ∷ b'1' ∷ []
panic_text lock_not_holding =
    b'L' ∷ b'O' ∷ b'C' ∷ b'K' ∷ b' ' ∷ b'N' ∷ b'O' ∷ b'T' ∷ b' ' ∷ b'H' ∷ b'O' ∷ b'L' ∷ b'D' ∷ b'I'
    ∷ b'N' ∷ b'G' ∷ []
panic_text task_running =
    b'T' ∷ b'A' ∷ b'S' ∷ b'K' ∷ b' ' ∷ b'R' ∷ b'U' ∷ b'N' ∷ b'N' ∷ b'I' ∷ b'N' ∷ b'G' ∷ []
panic_text interruptible =
    b'i' ∷ b'n' ∷ b't' ∷ b'e' ∷ b'r' ∷ b'r' ∷ b'u' ∷ b'p' ∷ b't' ∷ b'i' ∷ b'b' ∷ b'l' ∷ b'e' ∷ []
panic_text not_from_supervisor =
    b'[' ∷ b'K' ∷ b'-' ∷ b'T' ∷ b'R' ∷ b'A' ∷ b'P' ∷ b']' ∷ b' ' ∷ b'n' ∷ b'o' ∷ b't' ∷ b' ' ∷ b'f'
    ∷ b'r' ∷ b'o' ∷ b'm' ∷ b' ' ∷ b's' ∷ b'u' ∷ b'p' ∷ b'e' ∷ b'r' ∷ b'v' ∷ b'i' ∷ b's' ∷ b'o'
    ∷ b'r' ∷ b' ' ∷ b'm' ∷ b'o' ∷ b'd' ∷ b'e' ∷ []
panic_text intr_on_in_trap =
    b'[' ∷ b'K' ∷ b'-' ∷ b'T' ∷ b'R' ∷ b'A' ∷ b'P' ∷ b']' ∷ b' ' ∷ b'I' ∷ b'N' ∷ b'T' ∷ b'R' ∷ b' '
    ∷ b'O' ∷ b'N' ∷ 10 ∷ []
panic_text strlen_null =
    b'[' ∷ b'S' ∷ b'T' ∷ b'R' ∷ b'L' ∷ b'E' ∷ b'N' ∷ b']' ∷ b' ' ∷ b'N' ∷ b'U' ∷ b'L' ∷ b'L' ∷ b' '
    ∷ b'P' ∷ b'T' ∷ b'R' ∷ 10 ∷ []

unfoldable pub panic_at : Panic → ℕ
panic_at acquire_is_holding = 11
panic_at release_not_holding = 22
panic_at pop_off_interruptible = 92
panic_at pop_off_nrs = 94
panic_at lock_not_holding = 51
panic_at task_running = 54
panic_at interruptible = 57
panic_at not_from_supervisor = 38
panic_at intr_on_in_trap = 41
panic_at strlen_null = 66

-- `"[PANIC]: %s:%d: " fmt "\n"`, with the file as the compiler was given it.
abbrev pub panic_fmt : List ℕ → List ℕ
panic_fmt fmt =
    b'['
    ∷ b'P'
    ∷ b'A'
    ∷ b'N'
    ∷ b'I'
    ∷ b'C'
    ∷ b']'
    ∷ b':'
    ∷ b' '
    ∷ b'%'
    ∷ b's'
    ∷ b':'
    ∷ b'%'
    ∷ b'd'
    ∷ b':'
    ∷ b' '
    ∷ (fmt ++ 10 ∷ [])

unfoldable pub panic_line : List ℕ → Panic → Printed
unfolding panic_text panic_at
panic_line file p = printf (panic_fmt (panic_text p)) (str file ∷ word (panic_at p) ∷ [])

-- `PRINTK`.
abbrev pub printk : List ℕ → List Arg → Printed
printk fmt args = printf (fmt ++ 10 ∷ []) args

-- `scheduler`, as it dispatches a task.
abbrev pub sched_fmt : List ℕ
sched_fmt =
    9 ∷ b'[' ∷ b'S' ∷ b'C' ∷ b'H' ∷ b'E' ∷ b'D' ∷ b']' ∷ b' ' ∷ b't' ∷ b'a' ∷ b's' ∷ b'k' ∷ b' '
    ∷ b'%' ∷ b'd' ∷ 10 ∷ []

unfoldable pub sched_line : Task → Printed
sched_line t = printk sched_fmt (word t.pid ∷ [])

-- `dummy_task`, at its start and around its loop.
abbrev pub task_text : List ℕ
task_text =
    b't' ∷ b'a' ∷ b's' ∷ b'k' ∷ b' ' ∷ b'r' ∷ b'u' ∷ b'n' ∷ b'n' ∷ b'i' ∷ b'n' ∷ b'g' ∷ b'.' ∷ b'.'
    ∷ b'.' ∷ 10 ∷ []

abbrev pub run_text : List ℕ
run_text = b'r' ∷ b'u' ∷ b'n' ∷ b' ' ∷ b'.' ∷ b'.' ∷ b'.' ∷ 10 ∷ []

abbrev pub ran_text : List ℕ
ran_text = 9 ∷ b'r' ∷ b'u' ∷ b'n' ∷ b' ' ∷ b'r' ∷ b'u' ∷ b'n' ∷ b' ' ∷ b'.' ∷ b'.' ∷ b'.' ∷ 10 ∷ []

unfoldable pub task_lines : List Printed
task_lines = printk task_text [] ∷ printk run_text [] ∷ printk ran_text [] ∷ []

-- Hart 0 in `kernel_main`, before it sets up and after. The second call has an argument that its
-- format does not ask for.
abbrev pub booting_text : List ℕ
booting_text =
    b'G' ∷ b'Q' ∷ b'u' ∷ b'u' ∷ b'u' ∷ b'u' ∷ b'u' ∷ b'u' ∷ b'n' ∷ b'i' ∷ b'x' ∷ b' ' ∷ b'K' ∷ b'e'
    ∷ b'r' ∷ b'n' ∷ b'e' ∷ b'l' ∷ b' ' ∷ b'B' ∷ b'o' ∷ b'o' ∷ b't' ∷ b'i' ∷ b'n' ∷ b'g' ∷ b' '
    ∷ b'.' ∷ b'.' ∷ b'.' ∷ b' ' ∷ 10 ∷ 10 ∷ []

abbrev pub booted_text : List ℕ
booted_text =
    b'G' ∷ b'Q' ∷ b'u' ∷ b'u' ∷ b'u' ∷ b'u' ∷ b'u' ∷ b'u' ∷ b'n' ∷ b'i' ∷ b'x' ∷ b' ' ∷ b'B' ∷ b'o'
    ∷ b'o' ∷ b't' ∷ b' ' ∷ b'S' ∷ b'u' ∷ b'c' ∷ b'c' ∷ b'e' ∷ b's' ∷ b's' ∷ b'f' ∷ b'u' ∷ b'l'
    ∷ b'l' ∷ b'y' ∷ b' ' ∷ b'.' ∷ b'.' ∷ b'.' ∷ b' ' ∷ 10 ∷ 10 ∷ []

unfoldable pub boot_lines : Csrs → List Printed
unfolding r_tp
boot_lines c = printf booting_text [] ∷ printf booted_text (word (r_tp c) ∷ []) ∷ []
