-- ===== src/Memory/Chunks.antt =====
-- The loops of `memcpy`, one after the other, copy one chunk of bytes.
use gquuuuuunix.Base.{
  ℕ, zero, suc, ◌+◌, ◌-◌, ◌*◌, ◌/◌, ◌≤◌, ◌≡◌, refl, ◌⊎◌, inl, inr, ap, sym, ◌∙◌, fun_ext, subst,
  arith,
}
use gquuuuuunix.Memory.{Mem, copy_chunk, copy_loop, memcpy_1}

-- The two regions of `n` bytes do not overlap.
abbrev pub Apart : ℕ → ℕ → ℕ → Type 0
Apart n dst src = (dst + n ≤ src) ⊎ (src + n ≤ dst)

copy_chunk-zero : (dst src : ℕ) (m : Mem) → copy_chunk 0 dst src m ≡ m
copy_chunk-zero dst src m = fun_ext λ a. ground arith

pub Apart-rest : (j k dst src : ℕ) → Apart (j + k) dst src → Apart k (dst + j) (src + j)
Apart-rest j k dst src (inl h) = inl (omega arith)
Apart-rest j k dst src (inr h) = inr (omega arith)

-- Two copies in a row are one.
pub copy_chunk-append :
    (j k dst src : ℕ) (m : Mem)
    → Apart (j + k) dst src
    → copy_chunk k (dst + j) (src + j) (copy_chunk j dst src m) ≡ copy_chunk (j + k) dst src m
copy_chunk-append j k dst src m apart = fun_ext λ a. go a
  where
    go :
        (a : ℕ)
        → copy_chunk k (dst + j) (src + j) (copy_chunk j dst src m) a
          ≡ copy_chunk (j + k) dst src m a
    go a = ground (arith, apart)

copy_loop_lem :
    (k cnt dst src : ℕ) (m : Mem)
    → Apart (cnt * k) dst src
    → copy_loop k cnt dst src m ≡ copy_chunk (cnt * k) dst src m
unfolding copy_loop
copy_loop_lem k zero dst src m apart =
    let zero_times : 0 ≡ 0 * k = omega arith in
    sym (copy_chunk-zero dst src m) ∙ ap (λ z. copy_chunk z dst src m) zero_times
copy_loop_lem k (suc cnt) dst src m apart =
    let e : suc cnt * k ≡ k + cnt * k = omega arith in
    let apart' = subst (λ z. Apart z dst src) e apart in
    copy_loop_lem k cnt (dst + k) (src + k) (copy_chunk k dst src m)
      (Apart-rest k (cnt * k) dst src apart')
    ∙ copy_chunk-append k (cnt * k) dst src m apart'
    ∙ ap (λ z. copy_chunk z dst src m) (sym e)

-- A loop that goes on where `j` bytes are already copied.
stage :
    (j c k t d s dst src : ℕ) (m m0 : Mem)
    → Apart t dst src
    → t ≡ j + c * k
    → d ≡ dst + j
    → s ≡ src + j
    → m0 ≡ copy_chunk j dst src m
    → copy_loop k c d s m0 ≡ copy_chunk t dst src m
stage j c k t d s dst src m m0 apart et ed es em =
    let apart' = subst (λ z. Apart z dst src) et apart in
    let one =
      copy_loop_lem k c (dst + j) (src + j) (copy_chunk j dst src m)
        (Apart-rest j (c * k) dst src apart') in
    let two = copy_chunk-append j (c * k) dst src m apart' in
    ap (λ z. copy_loop k c z s m0) ed
    ∙ ap (λ z. copy_loop k c (dst + j) z m0) es
    ∙ ap (copy_loop k c (dst + j) (src + j)) em
    ∙ one
    ∙ two
    ∙ ap (λ z. copy_chunk z dst src m) (sym et)

pub Apart-less : (j k dst src : ℕ) → j ≤ k → Apart k dst src → Apart j dst src
Apart-less j k dst src le (inl h) = inl (omega arith)
Apart-less j k dst src le (inr h) = inr (omega arith)

-- The four loops of `memcpy_n`.
abbrev pub four_loops : ℕ → ℕ → ℕ → Mem → Mem
four_loops dst src n m =
    let eight = n / 8 in
    let four = (n - eight * 8) / 4 in
    let two = (n - eight * 8 - four * 4) / 2 in
    let one = n - eight * 8 - four * 4 - two * 2 in
    copy_loop 1 one (dst + eight * 8 + four * 4 + two * 2) (src + eight * 8 + four * 4 + two * 2) (
      copy_loop 2 two (dst + eight * 8 + four * 4) (src + eight * 8 + four * 4)
        (copy_loop 4 four (dst + eight * 8) (src + eight * 8) (copy_loop 8 eight dst src m)))

-- The bytes that they copy are all of them.
pub four_loops_lem :
    (dst src n : ℕ) (m : Mem) → Apart n dst src → four_loops dst src n m ≡ copy_chunk n dst src m
four_loops_lem dst src n m apart =
    let eight = n / 8 in
    let four = (n - eight * 8) / 4 in
    let two = (n - eight * 8 - four * 4) / 2 in
    let one = n - eight * 8 - four * 4 - two * 2 in
    let s8 =
      copy_loop_lem 8 eight dst src m (Apart-less (eight * 8) n dst src (omega arith) apart) in
    let s4 =
      stage (eight * 8) four 4 (eight * 8 + four * 4) (dst + eight * 8) (src + eight * 8) dst src m
        (copy_loop 8 eight dst src m)
        (Apart-less (eight * 8 + four * 4) n dst src (omega arith) apart) refl refl refl s8 in
    let s2 =
      stage (eight * 8 + four * 4) two 2 (eight * 8 + four * 4 + two * 2)
        (dst + eight * 8 + four * 4) (src + eight * 8 + four * 4) dst src m _
        (Apart-less (eight * 8 + four * 4 + two * 2) n dst src (omega arith) apart) refl
        (omega arith) (omega arith) s4 in
    stage (eight * 8 + four * 4 + two * 2) one 1 n (dst + eight * 8 + four * 4 + two * 2)
      (src + eight * 8 + four * 4 + two * 2) dst src m _ apart (omega arith) (omega arith)
      (omega arith) s2

pub memcpy_1_lem :
    (dst src n : ℕ) (m : Mem) → Apart n dst src → memcpy_1 dst src n m ≡ copy_chunk n dst src m
unfolding memcpy_1
memcpy_1_lem dst src n m apart =
    stage 0 n 1 n dst src dst src m m apart (omega arith) (omega arith) (omega arith)
      (sym (copy_chunk-zero dst src m))
