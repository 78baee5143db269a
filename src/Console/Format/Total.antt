-- ===== src/Console/Format/Total.antt =====
-- The rounds that `printf` has are enough for every format.
use gquuuuuunix.Base.{
  ℕ, zero, suc, ◌≤◌, ◌<◌, ◌≢◌, refl, Bool, true, false, Option, none, some, List, [], ◌∷◌, leb,
  ◌&&◌, ◌^◌, ◌%◌, ◌==◌, if◌then◌else◌, length, Bool-cases, inl, inr, arith,
}
use gquuuuuunix.Console.Decimal.{int_limit, long_limit, put_padded}
use gquuuuuunix.Console.Format.{
  Arg, word, str, Next, next, stop, undefined, Printed, printed, wild, starved, with_word, with_str,
  show_int, show_long, show_hex32, show_hex64, as_int, long_long, long_directive, span_digits,
  padding_count, padded_long_long, padded_long, padded_directive, zero_directive, directive, round,
  prefix, print_loop, printf,
}

-- At most so much of the format is left.
abbrev Leaves : ℕ → Next → Type 0
Leaves n (next out fmt args) = length fmt ≤ n
Leaves n (stop out) = Unit
Leaves n undefined = Unit

with_word-Leaves :
    (show : ℕ → Option (List ℕ)) (fmt : List ℕ) (args : List Arg) (n : ℕ)
    → length fmt ≤ n
    → Leaves n (with_word show fmt args)
with_word-Leaves show fmt [] n h = tt
with_word-Leaves show fmt (str s ∷ args) n h = tt
with_word-Leaves show fmt (word w ∷ args) n h = go (show w)
  where
    go :
        (o : Option (List ℕ))
        → Leaves n (elim o [ none ↦ undefined | some out ↦ next out fmt args ])
    go none = tt
    go (some out) = h

with_str-Leaves :
    (fmt : List ℕ) (args : List Arg) (n : ℕ) → length fmt ≤ n → Leaves n (with_str fmt args)
with_str-Leaves fmt [] n h = tt
with_str-Leaves fmt (word w ∷ args) n h = tt
with_str-Leaves fmt (str s ∷ args) n h = h

if-Leaves :
    (n : ℕ) (b : Bool) (x y : Next) → Leaves n x → Leaves n y → Leaves n (if b then x else y)
if-Leaves n true x y hx hy = hx
if-Leaves n false x y hx hy = hy

long_long-Leaves :
    (fmt : List ℕ) (args : List Arg) (n : ℕ) → length fmt ≤ n → Leaves n (long_long fmt args)
unfolding long_long
long_long-Leaves [] args n h = tt
long_long-Leaves (d ∷ fmt) args n h =
    if-Leaves n (d == b'x') _ _ (with_word-Leaves show_hex64 fmt args n (omega arith)) (
      if-Leaves n (d == b'd') _ _ (with_word-Leaves show_long fmt args n (omega arith))
        (omega arith))

long_directive-Leaves :
    (fmt : List ℕ) (args : List Arg) (n : ℕ) → length fmt ≤ n → Leaves n (long_directive fmt args)
unfolding long_directive
long_directive-Leaves [] args n h = h
long_directive-Leaves (c ∷ fmt) args n h =
    if-Leaves n (c == b'x') _ _ (with_word-Leaves show_hex64 fmt args n (omega arith))
      (if-Leaves n (c == b'l') _ _ (long_long-Leaves fmt args n (omega arith)) h)

span_digits-length : (fmt : List ℕ) → length (span_digits fmt).1 ≤ length fmt
unfolding span_digits
span_digits-length [] = omega arith
span_digits-length (c ∷ fmt) = elim (Bool-cases (leb b'0' c && leb c b'9')) [
  | inl e ↦ rw e (omega (arith, span_digits-length fmt))
  | inr e ↦ rw e (omega arith)
]

module _ (width : ℕ) where
  padded_long_long-Leaves :
      (fmt : List ℕ) (args : List Arg) (n : ℕ)
      → length fmt ≤ n
      → Leaves n (padded_long_long width fmt args)
  unfolding padded_long_long
  padded_long_long-Leaves [] args n h = tt
  padded_long_long-Leaves (d ∷ fmt) args n h =
      if-Leaves n (d == b'x') _ _ (with_word-Leaves show_hex64 fmt args n (omega arith)) (
        if-Leaves n (d == b'd') _ _
          (with_word-Leaves (λ w. put_padded long_limit width (w % 2 ^ 64)) fmt args n
            (omega arith))
          (omega arith))

  padded_long-Leaves :
      (fmt : List ℕ) (args : List Arg) (n : ℕ)
      → length fmt ≤ n
      → Leaves n (padded_long width fmt args)
  unfolding padded_long
  padded_long-Leaves [] args n h = tt
  padded_long-Leaves (d ∷ fmt) args n h =
      if-Leaves n (d == b'x') _ _ (with_word-Leaves show_hex64 fmt args n (omega arith)) (
        if-Leaves n (d == b'l') _ _ (padded_long_long-Leaves fmt args n (omega arith))
          (omega arith))

  padded_directive-Leaves :
      (fmt : List ℕ) (args : List Arg) (n : ℕ)
      → length fmt ≤ n
      → Leaves n (padded_directive width fmt args)
  unfolding padded_directive
  padded_directive-Leaves [] args n h = tt
  padded_directive-Leaves (c ∷ fmt) args n h =
      if-Leaves n (c == b'd') _ _
        (with_word-Leaves (λ w. put_padded int_limit width (as_int w)) fmt args n (omega arith))
        (if-Leaves n (c == b'x') _ _ (with_word-Leaves show_hex32 fmt args n (omega arith))
          (if-Leaves n (c == b'l') _ _ (padded_long-Leaves fmt args n (omega arith)) (omega arith)))

zero_directive-Leaves :
    (fmt : List ℕ) (args : List Arg) (n : ℕ) → length fmt ≤ n → Leaves n (zero_directive fmt args)
unfolding zero_directive
zero_directive-Leaves fmt args n h = go (padding_count (span_digits fmt).0)
  where
    go :
        (o : Option ℕ)
        → Leaves n (elim o [
          | none ↦ undefined
          | some width ↦ padded_directive width (span_digits fmt).1 args
        ])
    go none = tt
    go (some width) =
        padded_directive-Leaves width (span_digits fmt).1 args n
          (omega (arith, span_digits-length fmt))

directive-Leaves :
    (fmt : List ℕ) (args : List Arg) (n : ℕ) → length fmt ≤ n → Leaves n (directive fmt args)
unfolding directive
directive-Leaves [] args n h = tt
directive-Leaves (c ∷ fmt) args n h = if-Leaves n (c == b'%') _ _ (omega arith) (
    if-Leaves n (c == b's') _ _ (with_str-Leaves fmt args n (omega arith)) (
      if-Leaves n (c == b'd') _ _ (with_word-Leaves show_int fmt args n (omega arith)) (
        if-Leaves n (c == b'x') _ _ (with_word-Leaves show_hex32 fmt args n (omega arith)) (
          if-Leaves n (c == b'l') _ _ (long_directive-Leaves fmt args n (omega arith)) (
            if-Leaves n (c == b'0') _ _ (zero_directive-Leaves fmt args n (omega arith))
              (omega arith))))))

round-Leaves : (c : ℕ) (fmt : List ℕ) (args : List Arg) → Leaves (length fmt) (round c fmt args)
round-Leaves c fmt args =
    if-Leaves (length fmt) (c == b'%') _ _ (directive-Leaves fmt args (length fmt) (omega arith))
      (omega arith)

prefix-ne-starved : (out : List ℕ) (r : Printed) → r ≢ starved → prefix out r ≢ starved
prefix-ne-starved out (printed rest) h e = cc
prefix-ne-starved out wild h e = cc
prefix-ne-starved out starved h e = h refl

goes_on :
    (n fuel : ℕ) (r : Next)
    → Leaves n r
    → ((fmt : List ℕ) (args : List Arg) → length fmt ≤ n → print_loop fuel fmt args ≢ starved)
    → ◌≢◌ {A = Printed}
        (elim r [
          | next out fmt args ↦ prefix out (print_loop fuel fmt args)
          | stop out ↦ printed out
          | undefined ↦ wild
        ])
        starved
goes_on n fuel (next out fmt args) less rest e =
    prefix-ne-starved out (print_loop fuel fmt args) (rest fmt args less) e
goes_on n fuel (stop out) less rest e = cc
goes_on n fuel undefined less rest e = cc

print_loop-total :
    (fuel : ℕ) (fmt : List ℕ) (args : List Arg)
    → length fmt < fuel
    → print_loop fuel fmt args ≢ starved
unfolding print_loop
print_loop-total zero fmt args h = absurd (omega arith)
print_loop-total (suc fuel) [] args h = λ e. cc
print_loop-total (suc fuel) (c ∷ fmt) args h =
    goes_on (length fmt) fuel (round c fmt args) (round-Leaves c fmt args)
      λ fmt' args' less. print_loop-total fuel fmt' args' (omega arith)

-- For every format and all arguments, one round more than the format has characters is enough for the
-- loop of `printf` to print or to come to undefined behaviour, which it has where the format ends within
-- a directive.
pub printf_total : (fmt : List ℕ) (args : List Arg) → printf fmt args ≢ starved
unfolding printf
printf_total fmt args = print_loop-total (suc (length fmt)) fmt args (omega arith)
