-- ===== src/Console/Uart.antt =====
-- `uart_putchar` and `puts`: the transmit register behind its status register.
--
-- `polls` are the values that reads of the line status register give, one after the other; `sent`
-- is what was written to the transmit register, in order.
use gquuuuuunix.Base.{
  ℕ, suc, ◌≤◌, ◌≡◌, refl, List, [], ◌∷◌, ◌++◌, append_assoc, append-nil, bit_and, ◌==◌,
  if◌then◌else◌, length, Bool-cases, inl, inr, ap, ◌∙◌, sym, arith,
}
use gquuuuuunix.Outcome.{Outcome, ok, hang, ◌>>=◌}

pub record Uart : Type 0 where
  pub polls : List ℕ
  pub sent : List ℕ

abbrev pub tx_ready : ℕ
tx_ready = 0x40

-- `while ((READ_UART_REG(LSR) & TX_READY) == 0); WRITE_UART_REG(THR, c);`
unfoldable pub putchar_loop : List ℕ → List ℕ → ℕ → Outcome Uart
putchar_loop [] sent c = hang
putchar_loop (lsr ∷ polls) sent c =
    let again = putchar_loop polls sent c in
    if bit_and lsr tx_ready == 0
    then again
    else ok (record { polls = polls; sent = sent ++ c ∷ [] })

unfoldable pub uart_putchar : ℕ → Uart → Outcome Uart
unfolding putchar_loop
uart_putchar c u = putchar_loop u.polls u.sent c

unfoldable pub puts : List ℕ → Uart → Outcome Uart
puts [] u = ok u
puts (c ∷ s) u = do u' ← uart_putchar c u; puts s u'

-- How many of the polls find the transmitter ready.
unfoldable pub ready : List ℕ → ℕ
ready [] = 0
ready (lsr ∷ polls) = if bit_and lsr tx_ready == 0 then ready polls else suc (ready polls)

putchar_loop_total :
    (polls sent : List ℕ) (c n : ℕ)
    → suc n ≤ ready polls
    → (rest : List ℕ) × (putchar_loop polls sent c
        ≡ ok (record { polls = rest; sent = sent ++ c ∷ [] }))
      × (n ≤ ready rest)
unfolding putchar_loop ready
putchar_loop_total [] sent c n h = absurd (omega arith)
putchar_loop_total (lsr ∷ polls) sent c n h = elim (Bool-cases (bit_and lsr tx_ready == 0)) [
  | inl busy ↦
      let (rest, found, left) = putchar_loop_total polls sent c n (rw busy at h) in
      (rest, rw busy found, left)
  | inr free ↦ (polls, rw free, ground (arith, h, free))
]

putchar_loop-hang :
    (polls sent : List ℕ) (c : ℕ) → ready polls ≡ 0 → putchar_loop polls sent c ≡ hang
unfolding putchar_loop ready
putchar_loop-hang [] sent c h = refl
putchar_loop-hang (lsr ∷ polls) sent c h = ground (arith, putchar_loop-hang polls sent c)

-- If the polls find the transmitter ready at least as often as there are characters, `puts`
-- returns and has sent the string, in order and once, behind what was sent before.
pub puts_total :
    (s polls sent : List ℕ)
    → length s ≤ ready polls
    → (rest : List ℕ) × (puts s (record { polls = polls; sent = sent })
        ≡ ok (record { polls = rest; sent = sent ++ s }))
unfolding puts uart_putchar
puts_total [] polls sent h =
    (polls, ap (λ l. ok (record { polls = polls; sent = l })) (sym (append-nil sent)))
puts_total (c ∷ s) polls sent h =
    let (left, found, enough) = putchar_loop_total polls sent c (length s) h in
    let (rest, all) = puts_total s left (sent ++ c ∷ []) enough in
    (
      rest,
      rw found all
          ∙ ap (λ l. ok (record { polls = rest; sent = l })) (append_assoc sent (c ∷ []) s),
    )
