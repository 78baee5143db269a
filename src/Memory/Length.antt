-- ===== src/Memory/Length.antt =====
-- `strlen` counts the bytes before the terminator.
use gquuuuuunix.Base.{ℕ, zero, suc, ◌+◌, ◌<◌, ◌≡◌, ◌≢◌, ap, sym, ◌∙◌, arith}
use gquuuuuunix.Outcome.{ok}
use gquuuuuunix.Memory.{Mem, strlen_loop, strlen}

strlen_loop_lem :
    (n fuel str len : ℕ) (m : Mem)
    → n < fuel
    → ((k : ℕ) → k < n → m (str + k) ≢ 0)
    → m (str + n) ≡ 0
    → strlen_loop fuel str len m ≡ ok (len + n)
unfolding strlen_loop
strlen_loop_lem n zero str len m few bytes end = ground (arith, few)
strlen_loop_lem zero (suc fuel) str len m few bytes end =
    let here : m (str + 0) ≡ m str = ap m (omega arith) in ground (arith, end, here)
strlen_loop_lem (suc n) (suc fuel) str len m few bytes end =
    let shift : (k : ℕ) → m (str + 1 + k) ≡ m (str + suc k) = λ k. ap m (omega arith) in
    let rest =
      strlen_loop_lem n fuel (str + 1) (len + 1) m (omega arith)
        (λ k lt e. bytes (suc k) (omega arith) (sym (shift k) ∙ e)) (shift n ∙ end) in
    let here : m (str + 0) ≡ m str = ap m (omega arith) in
    let first = bytes 0 (omega arith) in ground (arith, rest, here, first)

-- `strlen` of a string that is not at the null pointer returns the number of bytes before its
-- terminator, given more rounds of its loop than that.
pub strlen_lem :
    (n fuel str : ℕ) (m : Mem)
    → str ≢ 0
    → n < fuel
    → ((k : ℕ) → k < n → m (str + k) ≢ 0)
    → m (str + n) ≡ 0
    → strlen fuel str m ≡ ok n
unfolding strlen
strlen_lem n fuel str m nonnull few bytes end =
    let run = strlen_loop_lem n fuel str 0 m few bytes end in ground (arith, run)
