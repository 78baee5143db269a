-- ===== src/Stages/Hello.antt =====
-- 01.HelloWorld/lib/console.c, start.c and main.c: the first `printf`, with `%%`, `%s`, `%d` and `%x` only,
-- and the machine-mode start without a timer.
--
-- The loops of `%d` and `%x` are those of 03.Scheduler/lib/console.c, in Console.
pub mod Same
pub mod Boot
use gquuuuuunix.Base.{
  ℕ, ◌+◌, ◌*◌, ◌^◌, Bool, true, false, Option, none, some, List, [], ◌∷◌, ◌++◌, ◌==◌, if◌then◌else◌,
  bit_and, bit_or,
}
use gquuuuuunix.Riscv.{Csrs, r_mhartid, r_mstatus, r_tp, w_mstatus, w_mepc, w_pmpcfg0, w_tp, not64}
use gquuuuuunix.Console.Format.{
  Arg, word, str, show_int, show_hex32, Printed, printed, wild, prefix,
}

abbrev pub take_word : (ℕ → Option (List ℕ)) → List Arg → Option (List ℕ × List Arg)
take_word show [] = none
take_word show (str _ ∷ args) = none
take_word show (word w ∷ args) = elim (show w) [ none ↦ none | some out ↦ some (out, args) ]

abbrev pub take_str : List Arg → Option (List ℕ × List Arg)
take_str [] = none
take_str (word _ ∷ args) = none
take_str (str s ∷ args) = some (s, args)

-- The `switch` on the character behind a `%`: what is printed, and the arguments that are left. Any
-- other character prints nothing.
unfoldable pub convert : ℕ → List Arg → Option (List ℕ × List Arg)
convert c args =
    if c == b'%'
    then some (b'%' ∷ [], args)
    else if c == b's'
    then take_str args
    else if c == b'd'
    then take_word show_int args
    else if c == b'x'
    then take_word show_hex32 args
    else some ([], args)

-- The loop, before a character of the format or behind a `%`.
unfoldable pub scan : Bool → List ℕ → List Arg → Printed
unfolding convert
scan false [] args = printed []
scan true [] args = printed (b'%' ∷ [])
scan false (c ∷ fmt) args =
    let behind = c == b'%' in
    let rest = scan behind fmt args in if behind then rest else prefix (c ∷ []) rest
scan true (c ∷ fmt) args = elim (convert c args) [
  | none ↦ wild
  | some (out, args') ↦ prefix out (scan false fmt args')
]

unfoldable pub printf : List ℕ → List Arg → Printed
unfolding scan
printf fmt args = scan false fmt args

unfoldable pub start : ℕ → Csrs → Csrs
unfolding r_mhartid r_mstatus w_mstatus w_mepc w_pmpcfg0 w_tp
start kernel_main c =
    let x = bit_or (bit_and (r_mstatus c) (not64 6144)) 2048 in
    let c1 = w_pmpcfg0 15 (w_mepc kernel_main (w_mstatus x c)) in w_tp (r_mhartid c1) c1

-- `"[CPU%d] Boot Successfully. Now it's in kernel main function.\n"`.
abbrev pub hello_fmt : List ℕ
hello_fmt =
    b'[' ∷ b'C' ∷ b'P' ∷ b'U' ∷ b'%' ∷ b'd' ∷ b']' ∷ b' ' ∷ b'B' ∷ b'o' ∷ b'o' ∷ b't' ∷ b' ' ∷ b'S'
    ∷ b'u' ∷ b'c' ∷ b'c' ∷ b'e' ∷ b's' ∷ b's' ∷ b'f' ∷ b'u' ∷ b'l' ∷ b'l' ∷ b'y' ∷ b'.' ∷ b' '
    ∷ b'N' ∷ b'o' ∷ b'w' ∷ b' ' ∷ b'i' ∷ b't' ∷ 39 ∷ b's' ∷ b' ' ∷ b'i' ∷ b'n' ∷ b' ' ∷ b'k' ∷ b'e'
    ∷ b'r' ∷ b'n' ∷ b'e' ∷ b'l' ∷ b' ' ∷ b'm' ∷ b'a' ∷ b'i' ∷ b'n' ∷ b' ' ∷ b'f' ∷ b'u' ∷ b'n'
    ∷ b'c' ∷ b't' ∷ b'i' ∷ b'o' ∷ b'n' ∷ b'.' ∷ 10 ∷ []

-- What `kernel_main` of main.c prints before its endless loop.
unfoldable pub kernel_main : Csrs → Printed
unfolding r_tp printf
kernel_main c = if r_tp c == 0 then printf hello_fmt (word (r_tp c) ∷ []) else printed []
