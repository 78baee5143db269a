-- ===== src/Stages/Hello/Same.antt =====
-- On the formats that the first `printf` knows, the last one prints the same.
use gquuuuuunix.Base.{
  ℕ, zero, suc, ◌<◌, ◌≡◌, refl, Bool, true, false, ◌&&◌, ◌||◌, Option, none, some, List, [], ◌∷◌,
  ◌==◌, if◌then◌else◌, length, ap, ◌∙◌, arith,
}
use gquuuuuunix.Console.Format as Last
use gquuuuuunix.Console.Format.{
  Arg, word, str, show_int, show_hex32, Printed, printed, wild, prefix, print_loop, directive,
}
use gquuuuuunix.Stages.Hello.{take_word, take_str, convert, scan, printf}

-- The characters that both understand behind a `%`.
abbrev pub known : ℕ → Bool
known c = c == b'%' || c == b's' || c == b'd' || c == b'x'

-- Every `%` is followed by such a character, or ends the format.
abbrev pub understood : Bool → List ℕ → Bool
understood behind [] = true
understood false (c ∷ fmt) = understood (c == b'%') fmt
understood true (c ∷ fmt) = known c && understood false fmt

abbrev as_next : List ℕ → Option (List ℕ × List Arg) → Last.Next
as_next fmt none = Last.undefined
as_next fmt (some (out, args)) = Last.next out fmt args

with_word-take_word :
    (show : ℕ → Option (List ℕ)) (fmt : List ℕ) (args : List Arg)
    → Last.with_word show fmt args ≡ as_next fmt (take_word show args)
with_word-take_word show fmt [] = refl
with_word-take_word show fmt (str s ∷ args) = refl
with_word-take_word show fmt (word w ∷ args) = shown (show w)
  where
    shown :
        (o : Option (List ℕ))
        → elim o as (λ _. Last.Next) [ none ↦ Last.undefined | some out ↦ Last.next out fmt args ]
          ≡ as_next fmt (elim o as (λ _. Option (List ℕ × List Arg)) [
            | none ↦ none
            | some out ↦ some (out, args)
          ])
    shown none = refl
    shown (some out) = refl

with_str-take_str :
    (fmt : List ℕ) (args : List Arg) → Last.with_str fmt args ≡ as_next fmt (take_str args)
with_str-take_str fmt [] = refl
with_str-take_str fmt (str s ∷ args) = refl
with_str-take_str fmt (word w ∷ args) = refl

-- Behind a `%` the two do the same.
directive-convert :
    (c : ℕ) (fmt : List ℕ) (args : List Arg)
    → known c ≡ true
    → directive (c ∷ fmt) args ≡ as_next fmt (convert c args)
unfolding directive convert
directive-convert c fmt args k = ground (
  arith,
  with_word-take_word show_int fmt args,
  with_word-take_word show_hex32 fmt args,
  with_str-take_str fmt args,
)

-- What the two loops do with it.
abbrev go_on : (List ℕ → List Arg → Printed) → Last.Next → Printed
go_on loop (Last.next out fmt args) = prefix out (loop fmt args)
go_on loop (Last.stop out) = printed out
go_on loop Last.undefined = wild

abbrev Agree : ℕ → Type 0
Agree fuel =
    (fmt : List ℕ) (args : List Arg)
    → length fmt < fuel
    → understood false fmt ≡ true
    → print_loop fuel fmt args ≡ scan false fmt args

go_on-convert :
    (fuel : ℕ) (fmt : List ℕ) (o : Option (List ℕ × List Arg))
    → Agree fuel
    → length fmt < fuel
    → understood false fmt ≡ true
    → go_on (print_loop fuel) (as_next fmt o) ≡ elim o as (λ _. Printed) [
      | none ↦ wild
      | some (out, args') ↦ prefix out (scan false fmt args')
    ]
go_on-convert fuel fmt none agree room u = refl
go_on-convert fuel fmt (some (out, args)) agree room u = ap (prefix out) (agree fmt args room u)

behind_percent :
    (fuel : ℕ) (fmt : List ℕ) (args : List Arg)
    → Agree fuel
    → length fmt < fuel
    → understood true fmt ≡ true
    → go_on (print_loop fuel) (directive fmt args) ≡ scan true fmt args
unfolding scan directive
behind_percent fuel [] args agree room u = refl
behind_percent fuel (c ∷ fmt) args agree room u =
    let k : known c ≡ true = ground arith in
    ap (go_on (print_loop fuel)) (directive-convert c fmt args k)
    ∙ go_on-convert fuel fmt (convert c args) agree (omega arith) (ground arith)

-- A round of the two loops, by the outcome of the test for `%`.
round_same :
    (fuel : ℕ) (behind : Bool) (c : ℕ) (fmt : List ℕ) (args : List Arg)
    → Agree fuel
    → length fmt < fuel
    → understood behind fmt ≡ true
    → go_on (print_loop fuel) (if behind then directive fmt args else Last.next (c ∷ []) fmt args)
      ≡ (if behind then scan behind fmt args else prefix (c ∷ []) (scan behind fmt args))
round_same fuel true c fmt args agree room u = behind_percent fuel fmt args agree room u
round_same fuel false c fmt args agree room u = ap (prefix (c ∷ [])) (agree fmt args room u)

print_loop-scan : (fuel : ℕ) → Agree fuel
unfolding print_loop scan
print_loop-scan zero fmt args room u = absurd (omega arith)
print_loop-scan (suc fuel) [] args room u = refl
print_loop-scan (suc fuel) (c ∷ fmt) args room u =
    round_same fuel (c == b'%') c fmt args (print_loop-scan fuel) (omega arith) u

-- On a format in which every `%` is followed by `%`, `s`, `d` or `x`, or ends it, the `printf` of the
-- last stage prints what that of the first stage prints, with any arguments.
pub printf_same :
    (fmt : List ℕ) (args : List Arg)
    → understood false fmt ≡ true
    → Last.printf fmt args ≡ printf fmt args
unfolding Last.printf printf
printf_same fmt args u = print_loop-scan (suc (length fmt)) fmt args (omega arith) u
