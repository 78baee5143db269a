-- ===== src/Memory/Copy.antt =====
-- What `memcpy` does, at every alignment.
use gquuuuuunix.Base.{
  ℕ, ◌+◌, ◌-◌, ◌*◌, ◌/◌, ◌%◌, ◌≤◌, ◌<◌, ◌≡◌, refl, ◌⊎◌, inl, inr, ltb, leb, ◌==◌, ◌&&◌, ◌||◌, ◌≢◌,
  Bool, true, if◌then◌else◌, ap, sym, ◌∙◌, subst, Bool-cases, arith,
}
use gquuuuuunix.Outcome.{ok, fault}
use gquuuuuunix.Memory.{Mem, copy_chunk, copy_loop, copy_items, memcpy_1, memcpy_n, memcpy}
use gquuuuuunix.Memory.Chunks.{
  Apart, Apart-rest, copy_chunk-append, Apart-less, four_loops_lem, memcpy_1_lem,
}

-- A pointer at which `memcpy_n` makes no misaligned access.
abbrev IsAligned : ℕ → ℕ → Type 0
IsAligned n p = (8 ≤ n → p % 8 ≡ 0) × (4 ≤ n → p % 4 ≡ 0) × (2 ≤ n → p % 2 ≡ 0)

copy_items-aligned :
    (k cnt dst src : ℕ) (m : Mem)
    → (0 < cnt → dst % k ≡ 0)
    → (0 < cnt → src % k ≡ 0)
    → copy_items k cnt dst src m ≡ ok (copy_loop k cnt dst src m)
unfolding copy_items
copy_items-aligned k cnt dst src m to from = ground (arith, to, from)

memcpy_n_lem :
    (dst src n : ℕ) (m : Mem)
    → Apart n dst src
    → IsAligned n dst
    → IsAligned n src
    → memcpy_n dst src n m ≡ ok (copy_chunk n dst src m)
unfolding memcpy_n
memcpy_n_lem dst src n m apart to from =
    let eight = n / 8 in
    let four = (n - eight * 8) / 4 in
    let two = (n - eight * 8 - four * 4) / 2 in
    let one = n - eight * 8 - four * 4 - two * 2 in
    let d4 = dst + eight * 8 in
    let s4 = src + eight * 8 in
    let m8 = copy_loop 8 eight dst src m in
    let m4 = copy_loop 4 four d4 s4 m8 in
    let m2 = copy_loop 2 two (d4 + four * 4) (s4 + four * 4) m4 in
    rw
      (copy_items-aligned 8 eight dst src m (λ lt. to.0 (omega arith)) (λ lt. from.0 (omega arith)))
      (rw
        (copy_items-aligned 4 four d4 s4 m8 (λ lt. ground (arith, to)) (λ lt. ground (arith, from)))
        (rw
          (copy_items-aligned 2 two (d4 + four * 4) (s4 + four * 4) m4 (λ lt. ground (arith, to))
            (λ lt. ground (arith, from)))
          (copy_items-aligned 1 one (d4 + four * 4 + two * 2) (s4 + four * 4 + two * 2) m2
              (λ lt. omega arith) (λ lt. omega arith)
            ∙ ap ok (four_loops_lem dst src n m apart))))

copy_items-faults :
    (k cnt dst src : ℕ) (m : Mem) → 0 < cnt → dst % k ≢ 0 → copy_items k cnt dst src m ≡ fault
unfolding copy_items
copy_items-faults k cnt dst src m some_left off = ground (arith, some_left, off)

memcpy_n-faults :
    (dst src n : ℕ) (m : Mem)
    → (8 ≤ n) × (dst % 8 ≢ 0) ⊎ (4 ≤ n) × (n < 8) × (dst % 4 ≢ 0)
    → memcpy_n dst src n m ≡ fault
unfolding memcpy_n
memcpy_n-faults dst src n m (inl (long, off)) =
    rw (copy_items-faults 8 (n / 8) dst src m (omega (arith, long)) off) refl
memcpy_n-faults dst src n m (inr (long, short, off)) =
    let four = (n - n / 8 * 8) / 4 in
    let d4 = dst + n / 8 * 8 in
    let none_left : n / 8 ≡ 0 = omega arith in
    let still_off : d4 % 4 ≢ 0 = ground (arith, off, none_left) in
    rw
      (copy_items-aligned 8 (n / 8) dst src m (λ lt. absurd (omega (arith, lt, short)))
        (λ lt. absurd (omega (arith, lt, short))))
      (rw
        (copy_items-faults 4 four d4 (src + n / 8 * 8) (copy_loop 8 (n / 8) dst src m)
          (omega (arith, long, short)) still_off)
        refl)

-- After the bytes up to the first `j`.
memcpy_n-moved :
    (j dst src n : ℕ) (m : Mem)
    → j ≤ n
    → Apart n dst src
    → IsAligned (n - j) (dst + j)
    → IsAligned (n - j) (src + j)
    → memcpy_n (dst + j) (src + j) (n - j) (memcpy_1 dst src j m) ≡ ok (copy_chunk n dst src m)
memcpy_n-moved j dst src n m le apart to from =
    let split : j + (n - j) ≡ n = omega arith in
    let apart' = subst (λ z. Apart z dst src) (sym split) apart in
    ap (memcpy_n (dst + j) (src + j) (n - j))
      (memcpy_1_lem dst src j m (Apart-less j n dst src le apart))
    ∙ memcpy_n_lem (dst + j) (src + j) (n - j) (copy_chunk j dst src m)
        (Apart-rest j (n - j) dst src apart') to from
    ∙ ap ok (copy_chunk-append j (n - j) dst src m apart' ∙ ap (λ z. copy_chunk z dst src m) split)

-- Whether `memcpy` of `n` bytes is defined: it is not where both pointers are misaligned by the same
-- amount and fewer bytes are asked for than that, or its words are misaligned after it.
abbrev pub is_defined : ℕ → ℕ → ℕ → Bool
is_defined dst src n =
    let off = dst % 8 in
    if ltb 0 off && off == src % 8
    then leb off n && (off == 4 || ltb (n - off) 4 || off % 2 == 0 && ltb (n - off) 8)
    else true

memcpy-cases :
    (dst src n : ℕ) (m : Mem)
    → memcpy dst src n m ≡ (
        if dst % 8 == 0 && src % 8 == 0
        then memcpy_n dst src n m
        else if ltb 0 (dst % 8) && ltb 0 (src % 8) && dst % 8 == src % 8
        then (if ltb n (src % 8)
            then fault
            else memcpy_n
                (dst + dst % 8)
                (src + dst % 8)
                (n - src % 8)
                (memcpy_1 dst src (dst % 8) m))
        else ok (memcpy_1 dst src n m))
unfolding memcpy
memcpy-cases dst src n m = refl

-- Both pointers are misaligned by the same amount, and that many bytes are asked for.
misaligned_lem :
    (dst src n : ℕ) (m : Mem)
    → Apart n dst src
    → 0 < dst % 8
    → dst % 8 ≡ src % 8
    → dst % 8 ≤ n
    → memcpy_n (dst + dst % 8) (src + dst % 8) (n - dst % 8) (memcpy_1 dst src (dst % 8) m)
      ≡ (if is_defined dst src n then ok (copy_chunk n dst src m) else fault)
misaligned_lem dst src n m apart pos same le =
    let off = dst % 8 in
    let from = dst + off in
    let m1 = memcpy_1 dst src off m in
    elim (Bool-cases (off == 4 || ltb (n - off) 4 || off % 2 == 0 && ltb (n - off) 8)) [
      | inl defined ↦
          let moved =
            memcpy_n-moved off dst src n m le apart (ground (arith, defined, same))
              (ground (arith, defined, same)) in
          moved ∙ ground (arith, defined, pos, same, le)
      | inr undefined ↦
          let faults =
            memcpy_n-faults from (src + off) (n - off) m1 (ground (arith, undefined, pos, le)) in
          faults ∙ ground (arith, undefined, pos, same, le)
    ]

-- `memcpy` between regions that do not overlap, whatever the alignment and the number of bytes: it
-- copies exactly the bytes asked for, but where both pointers are misaligned by the same amount. There it
-- does so if the words that are left are aligned behind as many bytes as that; and it is a fault if not
-- so many bytes are asked for, or such a word is misaligned.
pub memcpy_lem :
    (dst src n : ℕ) (m : Mem)
    → Apart n dst src
    → memcpy dst src n m ≡ (if is_defined dst src n then ok (copy_chunk n dst src m) else fault)
memcpy_lem dst src n m apart =
    let cases = memcpy-cases dst src n m in
    let bytes = memcpy_1_lem dst src n m apart in
    elim (Bool-cases (ltb 0 (dst % 8) && dst % 8 == src % 8 && leb (dst % 8) n)) [
      | inl misaligned ↦
          let run =
            misaligned_lem dst src n m apart (ground (arith, misaligned))
              (ground (arith, misaligned)) (ground (arith, misaligned)) in
          ground (arith, cases, run, misaligned)
      | inr other ↦ (elim (Bool-cases (dst % 8 == 0 && src % 8 == 0)) [
        | inl aligned ↦
            let words =
              memcpy_n_lem dst src n m apart (ground (arith, aligned)) (ground (arith, aligned)) in
            ground (arith, cases, words, aligned)
        | inr off ↦ ground (arith, cases, bytes, other, off)
      ])
    ]
