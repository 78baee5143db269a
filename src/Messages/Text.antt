-- ===== src/Messages/Text.antt =====
-- What the kernel's messages come out as.
use gquuuuuunix.Base.{
  ℕ, ◌-◌, ◌*◌, ◌^◌, ◌<◌, ◌≡◌, ◌≢◌, refl, Bool, true, not, ◌&&◌, some, List, [], ◌∷◌, ◌++◌, ◌==◌,
  ltb, if◌then◌else◌, ap, sym, ◌∙◌, arith,
}
use gquuuuuunix.Outcome.{
  Panic, acquire_is_holding, release_not_holding, pop_off_interruptible, pop_off_nrs,
  lock_not_holding, task_running, interruptible, not_from_supervisor, intr_on_in_trap, strlen_null,
}
use gquuuuuunix.Riscv.{Csrs, r_tp}
use gquuuuuunix.Task.{Task}
use gquuuuuunix.Console.Decimal.{int_limit, put_signed}
use gquuuuuunix.Console.Decimal.RoundTrip.{read}
use gquuuuuunix.Console.Decimal.Overflow.{put_signed_lem}
use gquuuuuunix.Console.Format.{Arg, word, str, printed, printf, show_int, as_int}
use gquuuuuunix.Console.Format.Pieces.{
  Piece, plain, string, decimal, fmts, args, outs, printf-pieces,
}
use gquuuuuunix.Messages.{
  panic_text, panic_at, panic_line, sched_line, booting_text, booted_text, boot_lines,
}

-- What stands before the file and the number.
abbrev panic_head : List ℕ
panic_head = b'[' ∷ b'P' ∷ b'A' ∷ b'N' ∷ b'I' ∷ b'C' ∷ b']' ∷ b':' ∷ b' ' ∷ []

abbrev panic_front : List ℕ → List ℕ
panic_front tail = panic_head ++ (b'%' ∷ b's' ∷ b':' ∷ b'%' ∷ b'd' ∷ b':' ∷ b' ' ∷ tail)

abbrev sched_head : List ℕ
sched_head =
    9 ∷ b'[' ∷ b'S' ∷ b'C' ∷ b'H' ∷ b'E' ∷ b'D' ∷ b']' ∷ b' ' ∷ b't' ∷ b'a' ∷ b's' ∷ b'k' ∷ b' '
    ∷ []

-- No character of the text is a `%`.
abbrev pub is_plain : List ℕ → Bool
is_plain [] = true
is_plain (c ∷ s) = not (c == b'%') && is_plain s

not_percent : (c : ℕ) (s : List ℕ) → is_plain (c ∷ s) ≡ true → c ≢ b'%'
not_percent c s h = ground (arith, h)

is_plain-rest : (c : ℕ) (s : List ℕ) → is_plain (c ∷ s) ≡ true → is_plain s ≡ true
is_plain-rest c s h = ground (arith, h)

unfoldable plains : (s : List ℕ) → is_plain s ≡ true → List Piece
plains [] h = []
plains (c ∷ s) h = plain c (not_percent c s h) ∷ plains s (is_plain-rest c s h)

fmts-plains : (s : List ℕ) (h : is_plain s ≡ true) → fmts (plains s h) ≡ s
unfolding plains
fmts-plains [] h = refl
fmts-plains (c ∷ s) h = ap (λ t. c ∷ t) (fmts-plains s (is_plain-rest c s h))

outs-plains : (s : List ℕ) (h : is_plain s ≡ true) → outs (plains s h) ≡ s
unfolding plains
outs-plains [] h = refl
outs-plains (c ∷ s) h = ap (λ t. c ∷ t) (outs-plains s (is_plain-rest c s h))

args-plains :
    (s : List ℕ) (h : is_plain s ≡ true) (extra : List Arg) → args (plains s h) extra ≡ extra
unfolding plains
args-plains [] h extra = refl
args-plains (c ∷ s) h extra = args-plains s (is_plain-rest c s h) extra

-- A plain text is printed as it stands, and its arguments are ignored.
pub printf-plain : (s : List ℕ) (extra : List Arg) → is_plain s ≡ true → printf s extra ≡ printed s
printf-plain s extra h =
    ap (λ t. printf t extra) (sym (fmts-plains s h))
    ∙ ap (printf (fmts (plains s h))) (sym (args-plains s h extra))
    ∙ printf-pieces (plains s h) extra
    ∙ ap printed (outs-plains s h)

-- A number of 31 bits is printed as one that reads back.
show_int-reads : (w : ℕ) → w < 2 ^ 31 → (ds : List ℕ) × (show_int w ≡ some ds) × (read 0 ds ≡ w)
show_int-reads w h =
    let int : as_int w ≡ w = omega (arith, h) in
    let sign : ltb w int_limit ≡ true = ground (arith, h) in
    let value : (if ltb w int_limit then w else 2 * int_limit - w) ≡ w = rw sign refl in
    let (out, found, shape) =
      (put_signed_lem int_limit w (omega (arith, h))).0 (omega (arith, h))
        (omega (arith, value, h)) in
    let same_text : out ≡ shape.ds = shape.text ∙ rw sign refl in
    (
      out,
      ap (put_signed int_limit) int ∙ found,
      ap (read 0) same_text ∙ shape.decimal.spells ∙ value,
    )

panic_at-small : (p : Panic) → panic_at p < 2 ^ 31
unfolding panic_at
panic_at-small acquire_is_holding = omega arith
panic_at-small release_not_holding = omega arith
panic_at-small pop_off_interruptible = omega arith
panic_at-small pop_off_nrs = omega arith
panic_at-small lock_not_holding = omega arith
panic_at-small task_running = omega arith
panic_at-small interruptible = omega arith
panic_at-small not_from_supervisor = omega arith
panic_at-small intr_on_in_trap = omega arith
panic_at-small strlen_null = omega arith

panic_text-is_plain : (p : Panic) → is_plain (panic_text p ++ 10 ∷ []) ≡ true
unfolding panic_text
panic_text-is_plain acquire_is_holding = refl
panic_text-is_plain release_not_holding = refl
panic_text-is_plain pop_off_interruptible = refl
panic_text-is_plain pop_off_nrs = refl
panic_text-is_plain lock_not_holding = refl
panic_text-is_plain task_running = refl
panic_text-is_plain interruptible = refl
panic_text-is_plain not_from_supervisor = refl
panic_text-is_plain intr_on_in_trap = refl
panic_text-is_plain strlen_null = refl

-- Whatever the file is called, a `PANIC` prints it, the call's line in decimal, and the call's text, which
-- no directive in it disturbs.
pub panic_line_lem :
    (file : List ℕ) (p : Panic)
    → (num : List ℕ) × (panic_line file p
        ≡ printed (panic_head ++ (file ++ b':' ∷ (num ++ b':' ∷ b' ' ∷ (panic_text p ++ 10 ∷ [])))))
      × (read 0 num ≡ panic_at p)
unfolding panic_line plains
panic_line_lem file p =
    let (num, found, reads) = show_int-reads (panic_at p) (panic_at-small p) in
    let tail : List ℕ = panic_text p ++ 10 ∷ [] in
    let h = panic_text-is_plain p in
    let pieces : List Piece =
      plains panic_head refl
      ++ (string file
          ∷ plain b':' (omega arith)
          ∷ decimal (panic_at p) num found
          ∷ plain b':' (omega arith)
          ∷ plain b' ' (omega arith)
          ∷ plains tail h) in
    (
      num,
      ap (λ t. printf (panic_front t) (str file ∷ word (panic_at p) ∷ []))
            (sym (fmts-plains tail h))
          ∙ ap (λ a. printf (fmts pieces) (str file ∷ word (panic_at p) ∷ a))
              (sym (args-plains tail h []))
          ∙ printf-pieces pieces []
          ∙ ap (λ t. printed (panic_head ++ (file ++ b':' ∷ (num ++ b':' ∷ b' ' ∷ t))))
              (outs-plains tail h),
      reads,
    )

-- The scheduler names the task that it dispatches, for numbers that are not negative.
pub sched_line_lem :
    (t : Task)
    → t.pid < 2 ^ 31
    → (num : List ℕ) × (sched_line t ≡ printed (sched_head ++ (num ++ 10 ∷ 10 ∷ [])))
      × (read 0 num ≡ t.pid)
unfolding sched_line plains
sched_line_lem t h =
    let (num, found, reads) = show_int-reads t.pid h in
    (
      num,
      printf-pieces
          (plains sched_head refl ++ (decimal t.pid num found ∷ plains (10 ∷ 10 ∷ []) refl)) [],
      reads,
    )

-- The texts without a directive are printed as they stand.
pub boot_lines_lem : (c : Csrs) → boot_lines c ≡ printed booting_text ∷ printed booted_text ∷ []
unfolding boot_lines
boot_lines_lem c =
    ap (λ l. l ∷ printf booted_text (word (r_tp c) ∷ []) ∷ []) (printf-plain booting_text [] refl)
    ∙ ap (λ l. printed booting_text ∷ l ∷ []) (printf-plain booted_text (word (r_tp c) ∷ []) refl)
