-- ===== src/Outcome.antt =====
-- How a kernel function ends: it returns, it stops in `PANIC` (03.Scheduler/include/console.h, a
-- message and then an endless loop), it spins for ever on what it waits for, or it leaves what C
-- defines (an access out of bounds, a call through a null pointer).
use gquuuuuunix.Base.{◌≡◌, refl, Bool, if◌then◌else◌}

-- The places of the kernel that call `PANIC`.
pub data Panic : Type 0 where
  acquire_is_holding release_not_holding : Panic
  pop_off_interruptible pop_off_nrs : Panic
  lock_not_holding task_running interruptible : Panic
  not_from_supervisor intr_on_in_trap : Panic
  strlen_null : Panic

pub data Outcome {ℓ} (A : Type ℓ) : Type ℓ where
  ok : A → Outcome A
  panic : Panic → Outcome A
  hang : Outcome A
  fault : Outcome A

infixl 5 ◌>>=◌
abbrev pub ◌>>=◌ {ℓ κ} : {A : Type ℓ} {B : Type κ} → Outcome A → (A → Outcome B) → Outcome B
ok a >>= f = f a
panic p >>= f = panic p
hang >>= f = hang
fault >>= f = fault

-- `if (test) PANIC(p);` before the rest of the function.
abbrev pub panic_if {ℓ} : {A : Type ℓ} → Bool → Panic → Outcome A → Outcome A
panic_if b p rest = if b then panic p else rest

-- The steps of a successful sequence.
pub >>=-eq-ok {ℓ κ} :
    {A : Type ℓ} {B : Type κ} (first : Outcome A) (next : A → Outcome B) {z : B}
    → (first >>= next) ≡ ok z
    → (x : A) × (first ≡ ok x) × (next x ≡ ok z)
>>=-eq-ok (ok x) next e = (x, refl, e)
>>=-eq-ok (panic p) next e = cc
>>=-eq-ok hang next e = cc
>>=-eq-ok fault next e = cc
