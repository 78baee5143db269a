-- ===== src/Stages/Hello/Boot.antt =====
-- The lines that the earlier stages print at the boot.
use gquuuuuunix.Base.{ℕ, ◌≡◌, ◌≢◌, refl, List, [], ◌∷◌, ◌==◌, if◌then◌else◌, subst, sym, ◌∙◌, arith}
use gquuuuuunix.Riscv.{Csrs, r_tp}
use gquuuuuunix.Console.Decimal.{put_signed, put_unsigned, find_divisor, put_digits}
use gquuuuuunix.Console.Format.{word, Printed, printed}
use gquuuuuunix.Stages.Hello.{hello_fmt, kernel_main, printf, scan, convert}

-- Behind the number.
abbrev hello_end : List ℕ
hello_end =
    b']' ∷ b' ' ∷ b'B' ∷ b'o' ∷ b'o' ∷ b't' ∷ b' ' ∷ b'S' ∷ b'u' ∷ b'c' ∷ b'c' ∷ b'e' ∷ b's' ∷ b's'
    ∷ b'f' ∷ b'u' ∷ b'l' ∷ b'l' ∷ b'y' ∷ b'.' ∷ b' ' ∷ b'N' ∷ b'o' ∷ b'w' ∷ b' ' ∷ b'i' ∷ b't' ∷ 39
    ∷ b's' ∷ b' ' ∷ b'i' ∷ b'n' ∷ b' ' ∷ b'k' ∷ b'e' ∷ b'r' ∷ b'n' ∷ b'e' ∷ b'l' ∷ b' ' ∷ b'm'
    ∷ b'a' ∷ b'i' ∷ b'n' ∷ b' ' ∷ b'f' ∷ b'u' ∷ b'n' ∷ b'c' ∷ b't' ∷ b'i' ∷ b'o' ∷ b'n' ∷ b'.' ∷ 10
    ∷ []

zero_line : printf hello_fmt (word 0 ∷ []) ≡ printed (b'[' ∷ b'C' ∷ b'P' ∷ b'U' ∷ b'0' ∷ hello_end)
unfolding printf scan convert put_signed put_unsigned find_divisor put_digits
zero_line = refl

chosen : (f : ℕ → Printed) (n : ℕ) → n ≡ 0 → (if n == 0 then f n else printed []) ≡ f 0
chosen f n e = subst (λ k. (if k == 0 then f k else printed []) ≡ f 0) (sym e) refl

silent : (f : ℕ → Printed) (n : ℕ) → n ≢ 0 → (if n == 0 then f n else printed []) ≡ printed []
silent f n ne = ground (arith, ne)

-- Hart 0 prints a line with its number, and no other hart prints.
pub kernel_main_lem :
    (c : Csrs)
    → (c.tp ≡ 0 → kernel_main c ≡ printed (b'[' ∷ b'C' ∷ b'P' ∷ b'U' ∷ b'0' ∷ hello_end))
      × (c.tp ≢ 0 → kernel_main c ≡ printed [])
unfolding kernel_main r_tp
kernel_main_lem c = (
  λ e. chosen (λ n. printf hello_fmt (word n ∷ [])) c.tp e ∙ zero_line,
  λ ne. silent (λ n. printf hello_fmt (word n ∷ [])) c.tp ne,
)
