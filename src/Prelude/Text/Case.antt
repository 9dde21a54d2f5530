-- ===== src/Prelude/Text/Case.antt =====
-- `str.upper` and `str.lower`, for ASCII letters.
use Prim.Native.Char.{Char, code}
use Prim.Native.String.{String}
use mathlib.Core.Path.{◌≡◌, refl}
use openclaw_observatory.Prelude.Tests.{nat_eq, if◌then◌else◌}

-- the character of `to` that stands where `c` does in `from`
unfoldable translated : String → String → Char → Char
translated String.[] to c = c
translated (String.◌∷◌ a from) String.[] c = c
translated (String.◌∷◌ a from) (String.◌∷◌ b to) c =
    let next = translated from to c in if nat_eq (code a) (code c) then b else next

unfoldable translate : String → String → String → String
unfolding translated
translate from to String.[] = ""
translate from to (String.◌∷◌ c s) = String.◌∷◌ (translated from to c) (translate from to s)

abbrev small_letters : String
small_letters = "abcdefghijklmnopqrstuvwxyz"

abbrev capital_letters : String
capital_letters = "ABCDEFGHIJKLMNOPQRSTUVWXYZ"

unfoldable pub upper : String → String
unfolding translate
upper s = translate small_letters capital_letters s

unfoldable pub lower : String → String
unfolding translate
lower s = translate capital_letters small_letters s

-- `s.capitalize()`
unfoldable pub capitalize : String → String
unfolding translated lower
capitalize String.[] = ""
capitalize (String.◌∷◌ c s) = String.◌∷◌ (translated small_letters capital_letters c) (lower s)

case_tests : (upper "Mmc-1" ≡ "MMC-1") × (lower "UP" ≡ "up") × (capitalize "bookWorm" ≡ "Bookworm")
unfolding upper lower capitalize translate translated
case_tests = (refl, refl, refl)
