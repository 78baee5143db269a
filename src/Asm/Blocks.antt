-- ===== src/Asm/Blocks.antt =====
-- Runs of stores and of loads of consecutive words at one base register.
use gquuuuuunix.Base.{
  ℕ, zero, suc, ◌+◌, ◌*◌, ◌%◌, ◌^◌, ◌≤◌, ◌<◌, ◌≡◌, ◌≢◌, ◌⊎◌, inl, refl, false, some, List, [], ◌∷◌,
  ◌++◌, ◌==◌, ==_refl, update, get_elem?, ap, sym, ◌∙◌, length, arith,
}
use gquuuuuunix.Outcome.{ok, ◌>>=◌}
use gquuuuuunix.Asm.{Machine, Instr, sd, ld, set_reg, step, exec}

-- `sd` and `ld` of the registers of a list, in the words from the `i`th on.
abbrev pub saves : ℕ → ℕ → List ℕ → List Instr
saves base i [] = []
saves base i (r ∷ rs) = sd r (8 * i) base ∷ saves base (suc i) rs

abbrev pub loads : ℕ → ℕ → List ℕ → List Instr
loads base i [] = []
loads base i (r ∷ rs) = ld r (8 * i) base ∷ loads base (suc i) rs

-- The `i`th word of an array.
abbrev pub word : (ℕ → ℕ) → ℕ → ℕ → ℕ
word mem a i = mem (a + 8 * i)

-- Memory with the registers' values in the words of an array from the `i`th on.
unfoldable pub stored : (ℕ → ℕ) → ℕ → ℕ → List ℕ → (ℕ → ℕ) → ℕ → ℕ
stored regs a i [] mem = mem
stored regs a i (r ∷ rs) mem = stored regs a (suc i) rs (update mem (a + 8 * i) (regs r))

-- Registers with the values of the words of an array from the `i`th on.
unfoldable pub loaded : (ℕ → ℕ) → ℕ → ℕ → List ℕ → (ℕ → ℕ) → ℕ → ℕ
loaded mem a i [] regs = regs
loaded mem a i (r ∷ rs) regs = loaded mem a (suc i) rs (update regs r (word mem a i))

-- No register of the list is the base.
abbrev pub Avoids : ℕ → List ℕ → Type 0
Avoids base [] = Unit {0}
Avoids base (r ∷ rs) = (r ≢ base) × Avoids base rs

pub exec-cons :
    (i : Instr) (code : List Instr) (m : Machine) {m' : Machine}
    → step i m ≡ ok m'
    → exec (i ∷ code) m ≡ exec code m'
unfolding exec
exec-cons i code m e = ap (λ o. o >>= exec code) e

module _ (r i base : ℕ) (m : Machine) (al : m.regs base % 8 ≡ 0)
    (fits : m.regs base + 8 * suc i ≤ 2 ^ 64) where
  no_wrap : (m.regs base + 8 * i) % 2 ^ 64 ≡ m.regs base + 8 * i
  no_wrap = omega (arith, fits)

  word_aligned : (m.regs base + 8 * i) % 8 ≡ 0
  word_aligned = omega (arith, al)

  pub step-sd :
      step (sd r (8 * i) base) m
      ≡ ok (record m { mem = update m.mem (m.regs base + 8 * i) (m.regs r) })
  unfolding step
  step-sd = rw (no_wrap, word_aligned) refl

  pub step-ld : step (ld r (8 * i) base) m ≡ ok (set_reg m r (word m.mem (m.regs base) i))
  unfolding step
  step-ld = rw (no_wrap, word_aligned) refl

pub exec-saves :
    (base i : ℕ) (rs : List ℕ) (rest : List Instr) (m : Machine)
    → m.regs base % 8 ≡ 0
    → m.regs base + 8 * (i + length rs) ≤ 2 ^ 64
    → exec (saves base i rs ++ rest) m
      ≡ exec rest (record m { mem = stored m.regs (m.regs base) i rs m.mem })
unfolding exec stored
exec-saves base i [] rest m al fits = refl
exec-saves base i (r ∷ rs) rest m al fits =
    let m' : Machine = record m { mem = update m.mem (m.regs base + 8 * i) (m.regs r) } in
    ap (λ o. o >>= exec (saves base (suc i) rs ++ rest))
      (step-sd r i base m al (omega (arith, fits)))
    ∙ exec-saves base (suc i) rs rest m' al (omega (arith, fits))

pub exec-loads :
    (base i : ℕ) (rs : List ℕ) (rest : List Instr) (m : Machine)
    → Avoids base rs
    → m.regs base % 8 ≡ 0
    → m.regs base + 8 * (i + length rs) ≤ 2 ^ 64
    → exec (loads base i rs ++ rest) m
      ≡ exec rest (record m { regs = loaded m.mem (m.regs base) i rs m.regs })
unfolding exec loaded
exec-loads base i [] rest m av al fits = refl
exec-loads base i (r ∷ rs) rest m av al fits =
    let m' : Machine = set_reg m r (word m.mem (m.regs base) i) in
    let other : (r == base) ≡ false = ground (arith, av.0) in
    let kept : m'.regs base ≡ m.regs base = rw other refl in
    ap (λ o. o >>= exec (loads base (suc i) rs ++ rest))
      (step-ld r i base m al (omega (arith, fits)))
    ∙ exec-loads base (suc i) rs rest m' av.1 (omega (arith, al, kept)) (omega (arith, fits, kept))
    ∙ ap (λ a. exec rest (record m' { regs = loaded m'.mem a (suc i) rs m'.regs })) kept

-- What the stores leave alone.
pub stored-outside :
    (regs : ℕ → ℕ) (a i : ℕ) (rs : List ℕ) (mem : ℕ → ℕ) (b : ℕ)
    → (b < a + 8 * i) ⊎ (a + 8 * (i + length rs) ≤ b)
    → stored regs a i rs mem b ≡ mem b
unfolding stored
stored-outside regs a i [] mem b out = refl
stored-outside regs a i (r ∷ rs) mem b out =
    stored-outside regs a (suc i) rs (update mem (a + 8 * i) (regs r)) b (omega (arith, out))
    ∙ ground (arith, out)

-- What stands in the words that they write.
pub stored-at :
    (regs : ℕ → ℕ) (a i : ℕ) (rs : List ℕ) (mem : ℕ → ℕ) (j : ℕ) {r : ℕ}
    → get_elem? rs j ≡ some r
    → word (stored regs a i rs mem) a (i + j) ≡ regs r
unfolding stored
stored-at regs a i [] mem j e = cc
stored-at regs a i (s ∷ rs) mem zero {r} e =
    let here : a + 8 * (i + 0) ≡ a + 8 * i = omega arith in
    let one : s ≡ r = cc in
    rw here (
      stored-outside regs a (suc i) rs (update mem (a + 8 * i) (regs s)) (a + 8 * i)
        (inl (omega arith))
      ∙ rw (==_refl (a + 8 * i)) (ap regs one))
stored-at regs a i (s ∷ rs) mem (suc j) e =
    let there : a + 8 * (i + suc j) ≡ a + 8 * (suc i + j) = omega arith in
    rw there (stored-at regs a (suc i) rs (update mem (a + 8 * i) (regs s)) j e)

-- The registers that no load writes.
pub loaded-outside :
    (mem : ℕ → ℕ) (a i : ℕ) (rs : List ℕ) (regs : ℕ → ℕ) (r : ℕ)
    → Avoids r rs
    → loaded mem a i rs regs r ≡ regs r
unfolding loaded
loaded-outside mem a i [] regs r av = refl
loaded-outside mem a i (s ∷ rs) regs r av =
    loaded-outside mem a (suc i) rs (update regs s (word mem a i)) r av.1 ∙ ground (arith, av.0)

-- The values of the registers that the loads write, where no register is written twice.
abbrev pub Distinct : List ℕ → Type 0
Distinct [] = Unit {0}
Distinct (r ∷ rs) = Avoids r rs × Distinct rs

pub loaded-at :
    (mem : ℕ → ℕ) (a i : ℕ) (rs : List ℕ) (regs : ℕ → ℕ) (j : ℕ) {r : ℕ}
    → Distinct rs
    → get_elem? rs j ≡ some r
    → loaded mem a i rs regs r ≡ word mem a (i + j)
unfolding loaded
loaded-at mem a i [] regs j d e = cc
loaded-at mem a i (s ∷ rs) regs zero {r} d e =
    let one : s ≡ r = cc in
    let there : i ≡ i + 0 = omega arith in
    ap (loaded mem a (suc i) rs (update regs s (word mem a i))) (sym one)
    ∙ loaded-outside mem a (suc i) rs (update regs s (word mem a i)) s d.0
    ∙ rw (==_refl s) (ap (word mem a) there)
loaded-at mem a i (s ∷ rs) regs (suc j) d e =
    let there : suc i + j ≡ i + suc j = omega arith in
    loaded-at mem a (suc i) rs (update regs s (word mem a i)) j d.1 e ∙ ap (word mem a) there

pub Avoids-get_elem? :
    (base : ℕ) (rs : List ℕ) (j : ℕ) {r : ℕ} → Avoids base rs → get_elem? rs j ≡ some r → r ≢ base
Avoids-get_elem? base [] j av e = cc
Avoids-get_elem? base (s ∷ rs) zero av e = λ same. av.0 (cc)
Avoids-get_elem? base (s ∷ rs) (suc j) av e = Avoids-get_elem? base rs j av.1 e
