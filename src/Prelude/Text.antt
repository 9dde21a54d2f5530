-- ===== src/Prelude/Text.antt =====
-- Python's `str` methods, over the characters of a text.
pub mod Numbers
pub mod Reading
pub mod Case
pub mod Html
pub mod Scan
use Prim.Native.Nat.{ℕ, zero, suc, ◌-◌}
use Prim.Native.Char.{Char, code}
use Prim.Native.String.{String, ◌++◌, count}
use mathlib.Core.Bool.{Bool, true, false, not, ◌&&◌, ◌||◌}
use mathlib.Core.List.{List, [], ◌∷◌}
use mathlib.Core.Option.{Option, none, some}
use text.Mathlib.Text.{◌==◌}
use openclaw_observatory.Prelude.Tests.{leb, nat_eq, if◌then◌else◌}

abbrev pub within : ℕ → ℕ → ℕ → Bool
within low high n = leb low n && leb n high

-- `str.isspace` of one character
abbrev pub is_space : ℕ → Bool
is_space n =
    within 9 13 n
    || within 28 32 n
    || nat_eq n 133
    || nat_eq n 160
    || nat_eq n 5760
    || within 8192 8202 n
    || within 8232 8233 n
    || nat_eq n 8239
    || nat_eq n 8287
    || nat_eq n 12288

abbrev pub single : Char → String
single c = String.◌∷◌ c String.[]

unfoldable pub lstrip_by : (ℕ → Bool) → String → String
lstrip_by p String.[] = ""
lstrip_by p (String.◌∷◌ c s) =
    let rest = lstrip_by p s in if p (code c) then rest else String.◌∷◌ c s

-- one step of `rstrip` from the right end: an empty rest lets the character go
abbrev pub keep_unless : Bool → Char → String → String
keep_unless true c String.[] = ""
keep_unless _ c rest = String.◌∷◌ c rest

unfoldable pub rstrip_by : (ℕ → Bool) → String → String
rstrip_by p String.[] = ""
rstrip_by p (String.◌∷◌ c s) = keep_unless (p (code c)) c (rstrip_by p s)

-- `s.strip()`
unfoldable pub strip : String → String
unfolding lstrip_by rstrip_by
strip s = rstrip_by is_space (lstrip_by is_space s)

abbrev pub cons_head : Char → List String → List String
cons_head c [] = single c ∷ []
cons_head c (part ∷ parts) = String.◌∷◌ c part ∷ parts

-- the pieces between the characters that `p` holds of: `s.split(sep)` for a `sep` of one character
unfoldable pub split_by : (ℕ → Bool) → String → List String
split_by p String.[] = "" ∷ []
split_by p (String.◌∷◌ c s) =
    let parts = split_by p s in if p (code c) then "" ∷ parts else cons_head c parts

abbrev pub nonempty : List String → List String
nonempty [] = []
nonempty (s ∷ ss) = if s == "" then nonempty ss else s ∷ nonempty ss

-- `s.split()`
unfoldable pub words : String → List String
unfolding split_by
words s = nonempty (split_by is_space s)

abbrev pub is_line_end : ℕ → Bool
is_line_end n = within 10 13 n || within 28 30 n || nat_eq n 133 || within 8232 8233 n

-- `s.splitlines()`, where a carriage return before a line feed gives one empty line more
abbrev pub drop_last_empty : List String → List String
drop_last_empty [] = []
drop_last_empty (s ∷ []) = if s == "" then [] else s ∷ []
drop_last_empty (s ∷ t ∷ ts) = s ∷ drop_last_empty (t ∷ ts)

unfoldable pub splitlines : String → List String
unfolding split_by
splitlines s = drop_last_empty (split_by is_line_end s)

-- The three parts of `s.partition(sep)` where `sep` is the first character that `p` holds of;
-- `none` where there is none, for which Python gives `(s, "", "")`.
unfoldable pub partition_by : (ℕ → Bool) → String → Option (String × String)
partition_by p String.[] = none
partition_by p (String.◌∷◌ c s) =
    let rest = partition_by p s in
    if p (code c)
    then some ("", s)
    else elim rest [ none ↦ none | some (before, after) ↦ some (String.◌∷◌ c before, after) ]

-- `s.rpartition(sep)`, by the last such character
unfoldable pub rpartition_by : (ℕ → Bool) → String → Option (String × String)
rpartition_by p String.[] = none
rpartition_by p (String.◌∷◌ c s) = elim (rpartition_by p s) [
  | some (before, after) ↦ some (String.◌∷◌ c before, after)
  | none ↦ if p (code c) then some ("", s) else none
]

-- `sep.join(parts)`
unfoldable pub join : String → List String → String
join sep [] = ""
join sep (s ∷ []) = s
join sep (s ∷ t ∷ ts) = s ++ sep ++ join sep (t ∷ ts)

-- `s.startswith(prefix)`: what stands behind the prefix
unfoldable pub after_prefix : String → String → Option String
after_prefix String.[] s = some s
after_prefix (String.◌∷◌ a p) String.[] = none
after_prefix (String.◌∷◌ a p) (String.◌∷◌ c s) =
    let rest = after_prefix p s in if nat_eq (code a) (code c) then rest else none

abbrev pub is_there {ℓ} : {A : Type ℓ} → Option A → Bool
is_there none = false
is_there (some _) = true

abbrev pub begins_with : String → String → Bool
begins_with s prefix = is_there (after_prefix prefix s)

-- `part in s`
unfoldable pub occurs_in : String → String → Bool
unfolding after_prefix
occurs_in part String.[] = begins_with "" part
occurs_in part (String.◌∷◌ c s) =
    let later = occurs_in part s in begins_with (String.◌∷◌ c s) part || later

-- one of the characters of `s`
unfoldable pub has_char : (ℕ → Bool) → String → Bool
has_char p String.[] = false
has_char p (String.◌∷◌ c s) = p (code c) || has_char p s

-- `s.replace(old, new)` for a nonempty `old` of `size` characters; `n` characters are to be passed
-- over
unfoldable pub replace_at : String → ℕ → String → ℕ → String → String
replace_at old size new n String.[] = ""
replace_at old size new zero (String.◌∷◌ c s) =
    let here = begins_with (String.◌∷◌ c s) old in
    (if here then new else single c) ++ replace_at old size new (if here then size - 1 else 0) s
replace_at old size new (suc n) (String.◌∷◌ c s) = replace_at old size new n s

unfoldable pub replace_all : String → String → String → String
unfolding replace_at
replace_all old new s = replace_at old (count old) new 0 s
