-- ===== src/Tests/Table.antt =====
-- A task is added to a table in memory.
use gquuuuuunix.Base.{
  ℕ, zero, suc, ◌+◌, ◌*◌, ◌<◌, ◌≡◌, refl, inr, subst, [], ◌∷◌, none, some, false, get_elem?, ◌==◌,
  if◌then◌else◌, arith,
}
use gquuuuuunix.Outcome.{ok}
use gquuuuuunix.Memory.{Mem}
use gquuuuuunix.Cpu.{Context}
use gquuuuuunix.SpinLock.{SpinLock}
use gquuuuuunix.Task.{unused, runnable, Task, Table, add_task}
use gquuuuuunix.Task.Bytes.{Symbols, task_size, ContextAt, TaskAt, TableAt, add_task_bytes}
use gquuuuuunix.Task.Bytes.Add.{Disjoint, add_task_bytes_lem}

abbrev symbols : Symbols
symbols = record {
  tasks = 65536;
  task_nrs = 4096;
  cpus = 8192;
  acquire = 256;
  release = 512;
  is_holding = 768;
}

-- The task to be added is at 32768; the rest is 0 but the counter.
abbrev memory : Mem
memory a = if a == 32768 then 3 else if a == 32888 then 3 else if a == 4096 then 1 else 0

abbrev zeros : Context
zeros = record {
  ra = 0;
  sp = 0;
  s0 = 0;
  s1 = 0;
  s2 = 0;
  s3 = 0;
  s4 = 0;
  s5 = 0;
  s6 = 0;
  s7 = 0;
  s8 = 0;
  s9 = 0;
  s10 = 0;
  s11 = 0;
}

abbrev blank_lock : SpinLock
blank_lock = record { is_locked = 0; cpu = none; ops = false }

abbrev blank : Task
blank = record { pid = 0; context = zeros; state = unused; lk = blank_lock }

abbrev third : Task
third = record blank { pid = 3; state = runnable }

abbrev blanks : Table
blanks = record { tasks = blank ∷ blank ∷ []; task_nrs = 1 }

zeros-At : (a : ℕ) → 65536 < a → ContextAt memory a zeros
zeros-At a above = record {
  ra = ground arith;
  sp = ground arith;
  s0 = ground arith;
  s1 = ground arith;
  s2 = ground arith;
  s3 = ground arith;
  s4 = ground arith;
  s5 = ground arith;
  s6 = ground arith;
  s7 = ground arith;
  s8 = ground arith;
  s9 = ground arith;
  s10 = ground arith;
  s11 = ground arith;
}

blank-At : (a : ℕ) → 65535 < a → TaskAt symbols memory a blank
blank-At a above = record {
  pid = ground arith;
  context = zeros-At (a + 8) (omega arith);
  state = ground arith;
  lk = record {
    is_locked = ground arith;
    cpu = ground arith;
    acquire = λ e. ground (arith, e);
    release = λ e. ground (arith, e);
    is_holding = λ e. ground (arith, e);
  };
}

third-At : TaskAt symbols memory 32768 third
third-At = record {
  pid = refl;
  context = record {
    ra = refl;
    sp = refl;
    s0 = refl;
    s1 = refl;
    s2 = refl;
    s3 = refl;
    s4 = refl;
    s5 = refl;
    s6 = refl;
    s7 = refl;
    s8 = refl;
    s9 = refl;
    s10 = refl;
    s11 = refl;
  };
  state = refl;
  lk = record {
    is_locked = refl;
    cpu = refl;
    acquire = λ e. ground (arith, e);
    release = λ e. ground (arith, e);
    is_holding = λ e. ground (arith, e);
  };
}

blank-entry :
    (i : ℕ) (t : Task)
    → get_elem? blanks.tasks i ≡ some t
    → TaskAt symbols memory (65536 + i * task_size) t
blank-entry zero t e =
    let same : blank ≡ t = cc in
    subst (λ u. TaskAt symbols memory (65536 + 0 * task_size) u) same (blank-At 65536 (omega arith))
blank-entry (suc zero) t e =
    let same : blank ≡ t = cc in
    subst (λ u. TaskAt symbols memory (65536 + 1 * task_size) u) same (blank-At 65704 (omega arith))
blank-entry (suc (suc i)) t e = absurd (cc)

add_task_bytes_lem_example :
    (m' : Mem) × (add_task_bytes symbols 32768 memory ≡ ok m')
    × TableAt symbols m' (add_task third blanks)
    × ((b : ℕ) → Disjoint 65704 task_size b 1 → Disjoint 4096 8 b 1 → m' b ≡ memory b)
add_task_bytes_lem_example =
    add_task_bytes_lem symbols 32768 memory
      (record {
        tasks_aligned = refl;
        task_aligned = refl;
        source_apart = inr (omega arith);
        counter_apart = inr (omega arith);
        source_kept = inr (omega arith);
      })
      (record { tasks = λ i t few e. blank-entry i t e; task_nrs = refl }) third-At
