-- ===== src/Console/Format/Pieces.antt =====
-- `printf` on the formats that the kernel writes: plain text and complete directives.
use gquuuuuunix.Base.{
  ℕ, zero, suc, ◌%◌, ◌^◌, ◌<◌, ◌≡◌, ◌≢◌, refl, Bool, true, false, ◌&&◌, leb, Option, none, some,
  List, [], ◌∷◌, ◌++◌, length, length-append, ap, ◌∙◌, arith,
}
use gquuuuuunix.Console.Hex.{put_hex}
use gquuuuuunix.Console.Decimal.{int_limit, long_limit, put_padded}
use gquuuuuunix.Console.Format.{
  as_int, span_digits, padding_count, padded_directive, zero_directive, Arg, word, str, Next, next,
  stop, undefined, Printed, printed, wild, show_int, show_long, prefix, print_loop, printf,
}

abbrev pub is_digit : ℕ → Bool
is_digit c = leb b'0' c && leb c b'9'

abbrev pub all_digits : List ℕ → Bool
all_digits [] = true
all_digits (c ∷ cs) = is_digit c && all_digits cs

-- A part of a format, with its argument and, for decimals, the text that its number has.
pub data Piece : Type 0 where
  plain : (c : ℕ) → c ≢ b'%' → Piece
  percent : Piece
  string : List ℕ → Piece
  decimal : (w : ℕ) (out : List ℕ) → show_int w ≡ some out → Piece
  long_decimal : (w : ℕ) (out : List ℕ) → show_long w ≡ some out → Piece
  hex : ℕ → Piece
  long_hex : ℕ → Piece
  long_long_hex : ℕ → Piece
  -- `%0…d` and `%0…lld`, with the digits of the width.
  padded_decimal :
      (ds : List ℕ) (width w : ℕ) (out : List ℕ)
      → all_digits ds ≡ true
      → padding_count ds ≡ some width
      → put_padded int_limit width (as_int w) ≡ some out
      → Piece
  padded_long_decimal :
      (ds : List ℕ) (width w : ℕ) (out : List ℕ)
      → all_digits ds ≡ true
      → padding_count ds ≡ some width
      → put_padded long_limit width (w % 2 ^ 64) ≡ some out
      → Piece

abbrev pub fmt_of : Piece → List ℕ
fmt_of (plain c _) = c ∷ []
fmt_of percent = b'%' ∷ b'%' ∷ []
fmt_of (string s) = b'%' ∷ b's' ∷ []
fmt_of (decimal w out _) = b'%' ∷ b'd' ∷ []
fmt_of (long_decimal w out _) = b'%' ∷ b'l' ∷ b'l' ∷ b'd' ∷ []
fmt_of (hex w) = b'%' ∷ b'x' ∷ []
fmt_of (long_hex w) = b'%' ∷ b'l' ∷ b'x' ∷ []
fmt_of (long_long_hex w) = b'%' ∷ b'l' ∷ b'l' ∷ b'x' ∷ []
fmt_of (padded_decimal ds width w out _ _ _) = b'%' ∷ b'0' ∷ (ds ++ b'd' ∷ [])
fmt_of (padded_long_decimal ds width w out _ _ _) = b'%' ∷ b'0' ∷ (ds ++ b'l' ∷ b'l' ∷ b'd' ∷ [])

abbrev pub args_of : Piece → List Arg
args_of (plain c _) = []
args_of percent = []
args_of (string s) = str s ∷ []
args_of (decimal w out _) = word w ∷ []
args_of (long_decimal w out _) = word w ∷ []
args_of (hex w) = word w ∷ []
args_of (long_hex w) = word w ∷ []
args_of (long_long_hex w) = word w ∷ []
args_of (padded_decimal ds width w out _ _ _) = word w ∷ []
args_of (padded_long_decimal ds width w out _ _ _) = word w ∷ []

abbrev pub out_of : Piece → List ℕ
out_of (plain c _) = c ∷ []
out_of percent = b'%' ∷ []
out_of (string s) = s
out_of (decimal w out _) = out
out_of (long_decimal w out _) = out
out_of (hex w) = put_hex 8 (w % 2 ^ 32)
out_of (long_hex w) = put_hex 16 (w % 2 ^ 64)
out_of (long_long_hex w) = put_hex 16 (w % 2 ^ 64)
out_of (padded_decimal ds width w out _ _ _) = out
out_of (padded_long_decimal ds width w out _ _ _) = out

abbrev pub fmts : List Piece → List ℕ
fmts [] = []
fmts (p ∷ ps) = fmt_of p ++ fmts ps

abbrev pub args : List Piece → List Arg → List Arg
args [] extra = extra
args (p ∷ ps) extra = args_of p ++ args ps extra

abbrev pub outs : List Piece → List ℕ
outs [] = []
outs (p ∷ ps) = out_of p ++ outs ps

-- A shown number as a directive's result, and the loop behind a directive.
abbrev shown : Option (List ℕ) → List ℕ → List Arg → Next
shown o fmt rest = elim o [ none ↦ undefined | some out ↦ next out fmt rest ]

abbrev after : ℕ → Next → Printed
after fuel r = elim r [
  | next out fmt args ↦ prefix out (print_loop fuel fmt args)
  | stop out ↦ printed out
  | undefined ↦ wild
]

span_digits_lem :
    (ds : List ℕ) (c : ℕ) (tail fmt : List ℕ)
    → all_digits ds ≡ true
    → is_digit c ≡ false
    → span_digits ((ds ++ c ∷ tail) ++ fmt) ≡ (ds, (c ∷ tail) ++ fmt)
unfolding span_digits
span_digits_lem [] c tail fmt all past = rw past refl
span_digits_lem (d ∷ ds) c tail fmt all past =
    ground (arith, all, span_digits_lem ds c tail fmt (ground arith) past)

abbrev at_width : List Arg → Option ℕ → List ℕ → Next
at_width rest o fmt = elim o [ none ↦ undefined | some width ↦ padded_directive width fmt rest ]

-- What stands behind `%0` and the digits of a width.
zero_directive_lem :
    (ds : List ℕ) (width c : ℕ) (tail fmt : List ℕ) (rest : List Arg)
    → all_digits ds ≡ true
    → is_digit c ≡ false
    → padding_count ds ≡ some width
    → zero_directive ((ds ++ c ∷ tail) ++ fmt) rest
      ≡ padded_directive width ((c ∷ tail) ++ fmt) rest
unfolding zero_directive
zero_directive_lem ds width c tail fmt rest all past count =
    ap (λ (s : List ℕ × List ℕ). at_width rest (padding_count s.0) s.1)
      (span_digits_lem ds c tail fmt all past)
    ∙ ap (λ (o : Option ℕ). at_width rest o ((c ∷ tail) ++ fmt)) count

-- One piece is one round.
print_loop-piece :
    (fuel : ℕ) (p : Piece) (fmt : List ℕ) (rest : List Arg)
    → print_loop (suc fuel) (fmt_of p ++ fmt) (args_of p ++ rest)
      ≡ prefix (out_of p) (print_loop fuel fmt rest)
unfolding print_loop
print_loop-piece fuel (plain c ne) fmt rest = ground (arith, ne)
print_loop-piece fuel percent fmt rest = refl
print_loop-piece fuel (string s) fmt rest = refl
print_loop-piece fuel (decimal w out e) fmt rest =
    ap (λ (o : Option (List ℕ)). after fuel (shown o fmt rest)) e
print_loop-piece fuel (long_decimal w out e) fmt rest =
    ap (λ (o : Option (List ℕ)). after fuel (shown o fmt rest)) e
print_loop-piece fuel (hex w) fmt rest = refl
print_loop-piece fuel (long_hex w) fmt rest = refl
print_loop-piece fuel (long_long_hex w) fmt rest = refl
print_loop-piece fuel (padded_decimal ds width w out all count e) fmt rest =
    ap (after fuel) (zero_directive_lem ds width b'd' [] fmt (word w ∷ rest) all refl count)
    ∙ ap (λ (o : Option (List ℕ)). after fuel (shown o fmt rest)) e
print_loop-piece fuel (padded_long_decimal ds width w out all count e) fmt rest =
    ap (after fuel)
      (zero_directive_lem ds width b'l' (b'l' ∷ b'd' ∷ []) fmt (word w ∷ rest) all refl count)
    ∙ ap (λ (o : Option (List ℕ)). after fuel (shown o fmt rest)) e

some-fmt : (p : Piece) → 0 < length (fmt_of p)
some-fmt (plain c _) = omega arith
some-fmt _ = omega arith

print_loop-end : (fuel : ℕ) (rest : List Arg) → print_loop (suc fuel) [] rest ≡ printed []
unfolding print_loop
print_loop-end fuel rest = refl

print_loop-pieces :
    (fuel : ℕ) (ps : List Piece) (extra : List Arg)
    → length (fmts ps) < fuel
    → print_loop fuel (fmts ps) (args ps extra) ≡ printed (outs ps)
print_loop-pieces zero ps extra h = absurd (omega arith)
print_loop-pieces (suc fuel) [] extra h = print_loop-end fuel extra
print_loop-pieces (suc fuel) (p ∷ ps) extra h =
    print_loop-piece fuel p (fmts ps) (args ps extra)
    ∙ ap (prefix (out_of p)) (
        print_loop-pieces fuel ps extra
          (omega (arith, length-append (fmt_of p) (fmts ps), some-fmt p)))

-- A format made of plain characters and the directives `%%`, `%s`, `%d`, `%x`, `%lld`, `%lx`, `%llx`,
-- `%0…d` and `%0…lld`, given an argument for each in order, of which no decimal and no width overflows, prints the text of each
-- piece in order; arguments behind the last that is asked for are ignored.
pub printf-pieces :
    (ps : List Piece) (extra : List Arg) → printf (fmts ps) (args ps extra) ≡ printed (outs ps)
unfolding printf
printf-pieces ps extra = print_loop-pieces (suc (length (fmts ps))) ps extra (omega arith)
