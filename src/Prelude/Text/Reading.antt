-- ===== src/Prelude/Text/Reading.antt =====
-- The texts of /proc and /sys: digits, hexadecimal numbers and addresses.
use Prim.Native.Nat.{ℕ, ◌+◌, ◌-◌, ◌*◌, ◌/◌, ◌%◌}
use Prim.Native.Char.{code}
use Prim.Native.String.{String, ◌++◌}
use mathlib.Core.Bool.{Bool, true, false, ◌&&◌}
use mathlib.Core.Path.{◌≡◌, refl}
use mathlib.Core.Option.{Option, none, some}
use text.Mathlib.Text.{◌==◌}
use openclaw_observatory.Prelude.Tests.{nat_eq, if◌then◌else◌}
use openclaw_observatory.Prelude.Int.{ℤ, pos, negsuc, sub_ℕ}
use openclaw_observatory.Prelude.Text.{within, strip, lstrip_by, rstrip_by, single}
use openclaw_observatory.Prelude.Text.Numbers.{show_nat, show_from, digit}

-- `s.isdigit()` and then `int(s)`; only ASCII digits are read
unfoldable digits_from : Bool → ℕ → String → Option ℕ
digits_from seen n String.[] = if seen then some n else none
digits_from seen n (String.◌∷◌ c s) =
    let more = digits_from true (n * 10 + (code c - 48)) s in
    if within 48 57 (code c) then more else none

unfoldable pub digits : String → Option ℕ
unfolding digits_from
digits s = digits_from false 0 s

abbrev pub upper_code : ℕ → ℕ
upper_code n = if within 97 122 n then n - 32 else n

-- the value of a hexadecimal digit
abbrev hex_value : ℕ → Option ℕ
hex_value n =
    if within 48 57 n
    then some (n - 48)
    else if within 65 70 (upper_code n)
    then some (upper_code n - 55)
    else none

-- the digits of `int(s, 16)`, with one underscore at most between two of them
unfoldable read_hex : Bool → ℕ → String → Option ℕ
read_hex seen n String.[] = if seen then some n else none
read_hex seen n (String.◌∷◌ c s) =
    let skip = read_hex false n s in
    elim (hex_value (code c)) [
      | some d ↦ read_hex true (n * 16 + d) s
      | none ↦ if nat_eq (code c) 95 && seen then skip else none
    ]

abbrev is_x : ℕ → Bool
is_x n = nat_eq (upper_code n) 88

-- the prefix `0x` may stand before the digits, and an underscore behind it
unfoldable unprefixed : String → Option ℕ
unfolding read_hex
unprefixed String.[] = none
unprefixed (String.◌∷◌ c String.[]) = read_hex false 0 (single c)
unprefixed (String.◌∷◌ c (String.◌∷◌ x s)) =
    let prefixed = read_hex true 0 s in
    let plain = read_hex false 0 (String.◌∷◌ c (String.◌∷◌ x s)) in
    if nat_eq (code c) 48 && is_x (code x) then (if s == "" then none else prefixed) else plain

abbrev minus : Option ℕ → Option ℤ
minus none = none
minus (some n) = some (sub_ℕ 0 n)

abbrev plus : Option ℕ → Option ℤ
plus none = none
plus (some n) = some (pos n)

unfoldable signed_hex : String → Option ℤ
unfolding unprefixed
signed_hex String.[] = none
signed_hex (String.◌∷◌ c s) =
    if nat_eq (code c) 45
    then minus (unprefixed s)
    else plus (unprefixed (if nat_eq (code c) 43 then s else String.◌∷◌ c s))

-- `int(s, 16)`; `none` is `ValueError`
unfoldable pub parse_hex : String → Option ℤ
unfolding signed_hex strip
parse_hex s = signed_hex (strip s)

-- `socket.inet_ntoa` of the four bytes of `struct.pack("<L", n)`, for `n` below `2 ^ 32`
unfoldable pub dotted_quad : ℕ → String
unfolding show_nat
dotted_quad n =
    show_nat (n % 256)
    ++ "."
    ++ show_nat (n / 256 % 256)
    ++ "."
    ++ show_nat (n / 65536 % 256)
    ++ "."
    ++ show_nat (n / 16777216 % 256)

reading_tests :
    (digits "042" ≡ some 42)
    × (digits "-1" ≡ none)
    × (digits "" ≡ none)
    × (parse_hex "0x1F" ≡ some (pos 31))
    × (parse_hex "-a" ≡ some (negsuc 9))
    × (parse_hex "0x" ≡ none)
    × (parse_hex "G1" ≡ none)
unfolding digits digits_from parse_hex signed_hex unprefixed read_hex strip lstrip_by rstrip_by
reading_tests = (refl, refl, refl, refl, refl, refl, refl)

dotted_quad_test : dotted_quad 16885952 ≡ "192.168.1.1"
unfolding dotted_quad show_nat show_from digit
dotted_quad_test = refl
