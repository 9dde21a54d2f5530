-- ===== src/Json.antt =====
-- JSON values as Python holds them: the `dict[str, Any]` payloads of backend/app/models/event.py.
-- `int` and `float` are two types, and neither is `bool`; a float is a whole number of millionths.
use openclaw_observatory.Prelude.{
  zero, String, Bool, true, false, Option, none, some, ◌==◌, not, if◌then◌else◌,
}
use openclaw_observatory.Prelude.Int.{ℤ, pos, scale}

mutual
  pub data Fields : Type 0 where
    end : Fields
    field : String → Value → Fields → Fields

  pub data Value : Type 0 where
    null : Value
    str : String → Value
    bool : Bool → Value
    int float : ℤ → Value
    obj : Fields → Value
    arr : Items → Value

  pub data Items : Type 0 where
    nil : Items
    cons : Value → Items → Items

-- `d.get(key)`; a key that is absent and one that holds `null` both give `None` in Python, which
-- callers merge by `or_null`.
unfoldable pub get : String → Fields → Option Value
get key end = none
get key (field k v rest) = if k == key then some v else get key rest

abbrev pub or_null : Option Value → Value
or_null none = null
or_null (some v) = v

-- `{}` is falsy
abbrev pub is_empty : Fields → Bool
is_empty end = true
is_empty (field _ _ _) = false

-- `float(node)` for a number that is no `bool`, in millionths
unfoldable pub as_float : Value → Option ℤ
as_float (int n) = some (scale 1000000 n)
as_float (float x) = some x
as_float _ = none

-- `isinstance(v, int) and not isinstance(v, bool)`
unfoldable pub as_int : Value → Option ℤ
as_int (int n) = some n
as_int _ = none

-- `v if isinstance(v, str) else None`
unfoldable pub as_str : Value → Option String
as_str (str s) = some s
as_str _ = none

-- `v if isinstance(v, dict) else None`
unfoldable pub as_obj : Value → Option Fields
as_obj (obj fs) = some fs
as_obj _ = none

-- Python's truth of a value; zero, the empty text and empty containers are false.
unfoldable pub truthy : Value → Bool
truthy null = false
truthy (bool b) = b
truthy (int (pos zero)) = false
truthy (int _) = true
truthy (float (pos zero)) = false
truthy (float _) = true
truthy (str s) = not (s == "")
truthy (arr nil) = false
truthy (arr (cons _ _)) = true
truthy (obj fs) = not (is_empty fs)

-- `value or {}` for a value that is expected to be an object
unfoldable pub obj_or_empty : Option Value → Fields
obj_or_empty (some (obj fs)) = fs
obj_or_empty _ = end
