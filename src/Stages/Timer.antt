-- ===== src/Stages/Timer.antt =====
-- 02.TimerInterrupt/lib/trap.c and main.c: the first trap handler, which only counts, and
-- `kernel_main`, which every hart runs.
--
-- What hart 0 prints at a tick and at the boot are functions of their own.
-- `get_time_decimal` is the last stage's.
pub mod Storm
pub mod Line
use gquuuuuunix.Base.{List, [], ◌∷◌, ◌/◌, ℕ, ◌+◌, ◌%◌, ◌^◌, Bool, ◌==◌, if◌then◌else◌}
use gquuuuuunix.Riscv.{Csrs, r_sepc, r_sstatus, r_scause, r_tp, w_sepc, w_sstatus, w_stvec, intr_on}
use gquuuuuunix.Time.{FixedPoint, get_time_decimal}
use gquuuuuunix.Console.Format.{word, Printed, printed, printf}
use gquuuuuunix.Trap.{Clock}

unfoldable pub count_tick : Csrs → Clock → Clock
unfolding r_tp
count_tick c k =
    let fp = k.time in
    if r_tp c == 0
    then record {
      gticks = (k.gticks + 1) % 2 ^ 64;
      time = record fp { data_bits = (fp.data_bits + 262143) % 2 ^ 64 };
    }
    else k

unfoldable pub kernel_trap_handler : Clock → Csrs → Clock × Csrs
unfolding count_tick r_sepc r_sstatus r_scause w_sepc w_sstatus
kernel_trap_handler k c =
    let sepc = r_sepc c in
    let sstatus = r_sstatus c in
    let k' = if r_scause c == 9223372036854775809 then count_tick c k else k in
    (k', w_sstatus sstatus (w_sepc sepc c))

-- Up to the endless `wfi`.
unfoldable pub kernel_main : ℕ → Clock → Csrs → Clock × Csrs
unfolding w_stvec intr_on
kernel_main kernelvec k c =
    let c1 = w_stvec kernelvec c in
    (record k { time = record { data_bits = 0; mantissa_bit = 32 } }, intr_on c1)

-- `"[%05lld.%05d] tick tick tick...\n"`.
abbrev pub tick_end : List ℕ
tick_end =
    b']' ∷ b' ' ∷ b't' ∷ b'i' ∷ b'c' ∷ b'k' ∷ b' ' ∷ b't' ∷ b'i' ∷ b'c' ∷ b'k' ∷ b' ' ∷ b't' ∷ b'i'
    ∷ b'c' ∷ b'k' ∷ b'.' ∷ b'.' ∷ b'.' ∷ 10 ∷ []

abbrev pub tick_fmt : List ℕ
tick_fmt =
    b'[' ∷ b'%' ∷ b'0' ∷ b'5' ∷ b'l' ∷ b'l' ∷ b'd' ∷ b'.' ∷ b'%' ∷ b'0' ∷ b'5' ∷ b'd' ∷ tick_end

-- What hart 0 prints, by the clock behind the tick.
unfoldable pub tick_line : FixedPoint → Printed
unfolding get_time_decimal
tick_line time =
    printf tick_fmt
      (word (time.data_bits / 2 ^ time.mantissa_bit) ∷ word (get_time_decimal time) ∷ [])

-- `"[CPU-%d] Boot Successfully. Now it's in kernel main function.\n\n"`.
abbrev pub boot_fmt : List ℕ
boot_fmt =
    b'[' ∷ b'C' ∷ b'P' ∷ b'U' ∷ b'-' ∷ b'%' ∷ b'd' ∷ b']' ∷ b' ' ∷ b'B' ∷ b'o' ∷ b'o' ∷ b't' ∷ b' '
    ∷ b'S' ∷ b'u' ∷ b'c' ∷ b'c' ∷ b'e' ∷ b's' ∷ b's' ∷ b'f' ∷ b'u' ∷ b'l' ∷ b'l' ∷ b'y' ∷ b'.'
    ∷ b' ' ∷ b'N' ∷ b'o' ∷ b'w' ∷ b' ' ∷ b'i' ∷ b't' ∷ 39 ∷ b's' ∷ b' ' ∷ b'i' ∷ b'n' ∷ b' ' ∷ b'k'
    ∷ b'e' ∷ b'r' ∷ b'n' ∷ b'e' ∷ b'l' ∷ b' ' ∷ b'm' ∷ b'a' ∷ b'i' ∷ b'n' ∷ b' ' ∷ b'f' ∷ b'u'
    ∷ b'n' ∷ b'c' ∷ b't' ∷ b'i' ∷ b'o' ∷ b'n' ∷ b'.' ∷ 10 ∷ 10 ∷ []

-- What `kernel_main` prints.
unfoldable pub boot_line : Csrs → Printed
unfolding r_tp
boot_line c = if r_tp c == 0 then printf boot_fmt (word (r_tp c) ∷ []) else printed []
