-- ===== src/Asm/Entry.antt =====
-- 03.Scheduler/entry.s: where every hart begins, and its stack. The first two stages have the same
-- file.
use gquuuuuunix.Base.{ℕ, ◌+◌, ◌*◌, ◌%◌, ◌^◌, ◌≤◌, ◌<◌, ◌≡◌, ◌↔◌, refl, List, [], ◌∷◌, arith}
use gquuuuuunix.Outcome.{ok}
use gquuuuuunix.Task.{stack_size}
use gquuuuuunix.Asm.{
  sp, a0, a1, mhartid, Machine, Instr, addi, add, mul, li, la, csrr, jal, step, exec,
}

-- `kstack` is the array of start.c. `link` the address behind the call of `start`, which does not return.
unfoldable pub entry : ℕ → ℕ → ℕ → List Instr
entry kstack start link =
    la sp kstack
    ∷ li a0 4096
    ∷ csrr a1 mhartid
    ∷ addi a1 a1 1
    ∷ mul a0 a0 a1
    ∷ add sp sp a0
    ∷ jal link start
    ∷ []

-- `MAX_CPU_NUMS` of include/param.h.
abbrev pub max_cpu_nums : ℕ
max_cpu_nums = 4

-- Of two harts with different numbers, on a stack array that is aligned to 16 and does not wrap
-- around: both come to `start` with aligned stacks, and the stack of the one with the lower number
-- lies in the array and ends where the other's begins or before. The other's lies in the array
-- exactly if its number is below `max_cpu_nums`.
pub entry_lem :
    (kstack start link : ℕ) (m n : Machine)
    → kstack % 16 ≡ 0
    → n.csrs.mhartid < 2 ^ 32
    → kstack + stack_size * (n.csrs.mhartid + 1) < 2 ^ 64
    → m.csrs.mhartid < n.csrs.mhartid
    → m.csrs.mhartid < max_cpu_nums
    → (m' n' : Machine) × (exec (entry kstack start link) m ≡ ok m')
      × (exec (entry kstack start link) n ≡ ok n')
      × (m'.pc ≡ start)
      × (n'.pc ≡ start)
      × (m'.regs sp % 16 ≡ 0)
      × (n'.regs sp % 16 ≡ 0)
      × (kstack + stack_size ≤ m'.regs sp)
      × (m'.regs sp ≤ kstack + stack_size * max_cpu_nums)
      × (m'.regs sp + stack_size ≤ n'.regs sp)
      × (n'.regs sp ≤ kstack + stack_size * max_cpu_nums ↔ n.csrs.mhartid < max_cpu_nums)
unfolding entry exec step
entry_lem kstack start link m n al few fits other within = (
  _,
  _,
  refl,
  refl,
  refl,
  refl,
  omega (arith, al, few, fits, other, within),
  omega (arith, al, few, fits, other, within),
  omega (arith, few, fits, other, within),
  omega (arith, few, fits, other, within),
  omega (arith, few, fits, other, within),
  (λ le. omega (arith, few, fits, le), λ lt. omega (arith, few, fits, lt)),
)
