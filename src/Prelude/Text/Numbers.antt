-- ===== src/Prelude/Text/Numbers.antt =====
-- Decimal numbers: `str(n)` and `int(s)`.
use Prim.Native.Nat.{ℕ, zero, suc, ◌+◌, ◌-◌, ◌*◌, ◌/◌, ◌%◌}
use Prim.Native.Char.{code}
use Prim.Native.String.{String, ◌++◌}
use mathlib.Core.Path.{◌≡◌, refl}
use mathlib.Core.Bool.{Bool, true, false, ◌&&◌}
use mathlib.Core.Option.{Option, none, some}
use openclaw_observatory.Prelude.Tests.{ltb, nat_eq, if◌then◌else◌}
use openclaw_observatory.Prelude.Int.{ℤ, pos, negsuc, sub_ℕ}
use openclaw_observatory.Prelude.Text.{within, strip, lstrip_by, rstrip_by}

-- the digit `n`, as a character
unfoldable pub digit : ℕ → String
digit n =
    if nat_eq n 0
    then "0"
    else if nat_eq n 1
    then "1"
    else if nat_eq n 2
    then "2"
    else if nat_eq n 3
    then "3"
    else if nat_eq n 4
    then "4"
    else if nat_eq n 5
    then "5"
    else if nat_eq n 6
    then "6"
    else if nat_eq n 7
    then "7"
    else if nat_eq n 8
    then "8"
    else "9"

-- at most `fuel` digits, the last ones
unfoldable pub show_from : ℕ → ℕ → String
unfolding digit
show_from zero n = ""
show_from (suc fuel) n =
    let rest = show_from fuel (n / 10) in if ltb n 10 then digit n else rest ++ digit (n % 10)

-- `str(n)`, for numbers of at most 24 digits
unfoldable pub show_nat : ℕ → String
unfolding show_from
show_nat n = show_from 24 n

-- the digits of `int(s)`, which may have one underscore between two of them; the flag says that a
-- digit stands before. Only ASCII digits are read.
unfoldable pub read_digits : Bool → ℕ → String → Option ℕ
read_digits after_digit n String.[] = if after_digit then some n else none
read_digits after_digit n (String.◌∷◌ c s) =
    let more = read_digits true (n * 10 + (code c - 48)) s in
    let underscore = read_digits false n s in
    if within 48 57 (code c)
    then more
    else if nat_eq (code c) 95 && after_digit
    then underscore
    else none

abbrev negated : Option ℕ → Option ℤ
negated none = none
negated (some n) = some (sub_ℕ 0 n)

abbrev positive : Option ℕ → Option ℤ
positive none = none
positive (some n) = some (pos n)

unfoldable signed : String → Option ℤ
unfolding read_digits
signed String.[] = none
signed (String.◌∷◌ c s) =
    if nat_eq (code c) 45
    then negated (read_digits false 0 s)
    else positive (read_digits false 0 (if nat_eq (code c) 43 then s else String.◌∷◌ c s))

-- `int(s)`; `none` is `ValueError`
unfoldable pub parse_int : String → Option ℤ
unfolding signed strip
parse_int s = signed (strip s)

parse_int_tests :
    (parse_int " 1_0\n" ≡ some (pos 10))
    × (parse_int "-3" ≡ some (negsuc 2))
    × (parse_int "1__0" ≡ none)
    × (parse_int "" ≡ none)
unfolding parse_int signed read_digits strip lstrip_by rstrip_by
parse_int_tests = (refl, refl, refl, refl)

show_nat_tests : show_nat 1024 ≡ "1024"
unfolding show_nat show_from digit
show_nat_tests = refl
