-- ===== src/Cpu/Nesting.antt =====
-- `push_off` and `pop_off` nest: a balanced run of them restores the interrupt state.
use Prim.Native.Nat.{max}
use gquuuuuunix.Base.{
  ℕ, suc, ◌+◌, ◌^◌, ◌<◌, ◌≤◌, ◌≡◌, refl, false, ◌⊎◌, inr, ◌==◌, if◌then◌else◌, arith,
}
use gquuuuuunix.Outcome.{Outcome, ok, ◌>>=◌}
use gquuuuuunix.Riscv.{intr_get}
use gquuuuuunix.Riscv.Interrupts.{
  Fits, intr_get-intr_off, intr_off-Fits, intr_off_id, intr_on-intr_off,
}
use gquuuuuunix.Cpu.{Core, push_off, pop_off}

-- While an interrupt lock is held, interrupts are off; `room` more locks fit the counter.
pub record IsNested (room : ℕ) (c : Core) : Type 0 where
  pub fits : Fits c.csrs
  pub bounded : c.cpu.off_nrs + room < 2 ^ 31
  pub masked : (c.cpu.off_nrs ≡ 0) ⊎ (intr_get c.csrs ≡ false)

-- `intr_ena_before` after a balanced run that began in `c`: rewritten at the outermost level only.
abbrev pub outer_ena : Core → Core
outer_ena c = record c {
  cpu = record c.cpu {
    intr_ena_before = if c.cpu.off_nrs == 0 then intr_get c.csrs else c.cpu.intr_ena_before;
  };
}

pub push_off-IsNested : (room : ℕ) (c : Core) → IsNested (suc room) c → IsNested room (push_off c)
unfolding push_off
push_off-IsNested room c v = record {
  fits = intr_off-Fits c.csrs v.fits;
  bounded = ground (arith, v.bounded);
  masked = inr (intr_get-intr_off c.csrs v.fits);
}

-- `pop_off` undoes `push_off`, but for `intr_ena_before` at the outermost level.
pub pop_off-push_off :
    (room : ℕ) (c : Core) → IsNested (suc room) c → pop_off (push_off c) ≡ ok (outer_ena c)
unfolding pop_off push_off
pop_off-push_off room c v = ground (
  arith,
  v.bounded,
  v.masked,
  intr_get-intr_off c.csrs v.fits,
  intr_off_id c.csrs v.fits,
  intr_on-intr_off c.csrs v.fits,
)

-- A well-bracketed run: nothing, or one locked region with a run inside it and a run after it.
pub data Nest : Type 0 where
  done : Nest
  region : Nest → Nest → Nest

unfoldable pub depth : Nest → ℕ
depth done = 0
depth (region inner rest) = max (suc (depth inner)) (depth rest)

pub run_nest : Nest → Core → Outcome Core
run_nest done c = ok c
run_nest (region inner rest) c = do
  inside ← run_nest inner (push_off c)
  outside ← pop_off inside
  run_nest rest outside

-- `intr_ena_before` after the run: untouched by an empty run.
pub settle : Nest → Core → Core
settle done c = c
settle (region inner rest) c = outer_ena c

settle_inner : (n : Nest) (c : Core) → (c.cpu.off_nrs == 0) ≡ false → settle n c ≡ c
unfolding settle
settle_inner done c h = refl
settle_inner (region inner rest) c h = rw h

settle-outer_ena : (n : Nest) (c : Core) → settle n (outer_ena c) ≡ outer_ena c
unfolding settle
settle-outer_ena done c = refl
settle-outer_ena (region inner rest) c = ground arith

outer_ena-IsNested : (room : ℕ) (c : Core) → IsNested room c → IsNested room (outer_ena c)
outer_ena-IsNested room c v = record { fits = v.fits; bounded = v.bounded; masked = v.masked }

pub IsNested-le : (r k : ℕ) (c : Core) → r ≤ k → IsNested k c → IsNested r c
IsNested-le r k c h v = record {
  fits = v.fits;
  bounded = omega (arith, v.bounded);
  masked = v.masked;
}

pub push_off-nonzero :
    (room : ℕ) (c : Core) → IsNested (suc room) c → ((push_off c).cpu.off_nrs == 0) ≡ false
unfolding push_off
push_off-nonzero room c v = ground (arith, v.bounded)

-- A well-bracketed run of `push_off` and `pop_off` that fits the counter never panics and leaves the
-- hart as it was, whatever the nesting, but for `intr_ena_before`: a run that is not empty and begins
-- with no interrupt lock leaves there the interrupt state that it began with.
pub run_nest-restores :
    (n : Nest) (c : Core) → IsNested (depth n) c → run_nest n c ≡ ok (settle n c)
unfolding run_nest depth settle
run_nest-restores done c v = refl
run_nest-restores (region inner rest) c v =
    let v1 : IsNested (suc (depth inner)) c = IsNested-le _ _ c (omega arith) v in
    let v2 : IsNested (depth rest) c = IsNested-le _ _ c (omega arith) v in
    rw (
      run_nest-restores inner (push_off c) (push_off-IsNested (depth inner) c v1),
      settle_inner inner (push_off c) (push_off-nonzero (depth inner) c v1),
      pop_off-push_off (depth inner) c v1,
      run_nest-restores rest (outer_ena c) (outer_ena-IsNested (depth rest) c v2),
      settle-outer_ena rest c,
    )
