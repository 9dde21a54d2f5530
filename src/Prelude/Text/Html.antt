-- ===== src/Prelude/Text/Html.antt =====
-- `html.escape` with quotes, `"".join`, and the characters that open a tag.
use Prim.Native.Nat.{ℕ, suc, ◌+◌}
use Prim.Native.Char.{Char, code}
use Prim.Native.String.{String, ◌++◌}
use Prim.Native.String.append
use mathlib.Core.Path.{◌≡◌, refl, ap, ◌∙◌}
use mathlib.Core.Bool.{Bool, true, false}
use mathlib.Core.List.{List, [], ◌∷◌}
use native.Mathlib.Omega.{arith}
use openclaw_observatory.Prelude.Tests.{nat_eq, if◌then◌else◌}
use openclaw_observatory.Prelude.Text.{single}

abbrev pub escaped_char : Char → String
escaped_char c =
    if nat_eq (code c) b'&'
    then "&amp;"
    else if nat_eq (code c) b'<'
    then "&lt;"
    else if nat_eq (code c) b'>'
    then "&gt;"
    else if nat_eq (code c) b'"'
    then "&quot;"
    else if nat_eq (code c) 39
    then "&#x27;"
    else single c

unfoldable pub escape : String → String
escape String.[] = ""
escape (String.◌∷◌ c s) = escaped_char c ++ escape s

unfoldable pub concat : List String → String
concat [] = ""
concat (s ∷ ss) = s ++ concat ss

-- how many of the characters are `<`
unfoldable pub openings : String → ℕ
openings String.[] = 0
openings (String.◌∷◌ c s) = if nat_eq (code c) b'<' then suc (openings s) else openings s

unfoldable pub openings_all : List String → ℕ
unfolding openings
openings_all [] = 0
openings_all (s ∷ ss) = openings s + openings_all ss

pub openings-append : (s t : String) → openings (s ++ t) ≡ openings s + openings t
unfolding openings
openings-append String.[] t = ap openings (append.nil t) ∙ omega arith
openings-append (String.◌∷◌ c s) t =
    ap openings (append.cons c s t) ∙ ground (arith, openings-append s t)

pub openings-concat : (ss : List String) → openings (concat ss) ≡ openings_all ss
unfolding concat openings_all openings
openings-concat [] = refl
openings-concat (s ∷ ss) = openings-append s (concat ss) ∙ ground (arith, openings-concat ss)

openings-chosen :
    (amp lt gt quot apos : Bool) (s : String)
    → (lt ≡ false → openings s ≡ 0)
    → openings (
        if amp
        then "&amp;"
        else if lt
        then "&lt;"
        else if gt
        then "&gt;"
        else if quot
        then "&quot;"
        else if apos
        then "&#x27;"
        else s)
      ≡ 0
unfolding openings
openings-chosen true lt gt quot apos s h = refl
openings-chosen false true gt quot apos s h = refl
openings-chosen false false true quot apos s h = refl
openings-chosen false false false true apos s h = refl
openings-chosen false false false false true s h = refl
openings-chosen false false false false false s h = h refl

openings-single : (c : Char) → nat_eq (code c) b'<' ≡ false → openings (single c) ≡ 0
unfolding openings
openings-single c h = rw h refl

openings-escaped_char : (c : Char) → openings (escaped_char c) ≡ 0
unfolding openings
openings-escaped_char c = openings-chosen _ _ _ _ _ (single c) (openings-single c)

-- no character of an escaped text opens a tag
pub openings-escape : (s : String) → openings (escape s) ≡ 0
unfolding escape openings
openings-escape String.[] = refl
openings-escape (String.◌∷◌ c s) =
    openings-append (escaped_char c) (escape s)
    ∙ ground (arith, openings-escaped_char c, openings-escape s)
