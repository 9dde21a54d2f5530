-- ===== src/Prelude/Text/Scan.antt =====
-- Slices of a text, and its longest beginning of characters of one kind.
use Prim.Native.Nat.{ℕ, zero, suc}
use Prim.Native.Char.{code}
use Prim.Native.String.{String}
use mathlib.Core.Bool.{Bool}
use openclaw_observatory.Prelude.Tests.{if◌then◌else◌}

-- `s[:n]`
unfoldable pub prefix : ℕ → String → String
prefix zero s = ""
prefix (suc n) String.[] = ""
prefix (suc n) (String.◌∷◌ c s) = String.◌∷◌ c (prefix n s)

abbrev put : Bool → String → String × String → String × String
put keep (String.◌∷◌ c s) (taken, rest) =
    if keep then (String.◌∷◌ c taken, rest) else ("", String.◌∷◌ c s)
put keep String.[] split = split

unfoldable pub span_by : (ℕ → Bool) → String → String × String
span_by p String.[] = ("", "")
span_by p (String.◌∷◌ c s) = put (p (code c)) (String.◌∷◌ c s) (span_by p s)

-- the text without its first character
abbrev pub tail : String → String
tail String.[] = ""
tail (String.◌∷◌ c s) = s

unfoldable pub size : String → ℕ
size String.[] = 0
size (String.◌∷◌ c s) = suc (size s)
