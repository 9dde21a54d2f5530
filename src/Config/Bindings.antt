-- ===== src/Config/Bindings.antt =====
-- `Settings.api_key_bindings` of backend/app/config.py: the text of `API_KEYS`, parsed. `loads` is
-- `json.loads`, where it returns.
use openclaw_observatory.Prelude.{
  String, ◌==◌, nat_eq, Option, none, some, List, [], ◌∷◌, ◌++◌, if◌then◌else◌,
}
use openclaw_observatory.Prelude.Options.{◌>>=◌}
use openclaw_observatory.Prelude.Text.{strip, split_by, partition_by, begins_with}
use openclaw_observatory.Json.{Value, Fields, end, field, Items, nil, cons}
use openclaw_observatory.Config.Keys.{checked_bindings}

abbrev pub Pairs : Type 0
Pairs = List (String × String)

-- the pairs of one identity in the JSON form
unfoldable listed_keys : String → Items → Option Pairs
unfolding strip
listed_keys collector_id nil = some []
listed_keys collector_id (cons (Value.str k) rest) = do
  pairs ← listed_keys collector_id rest
  some ((strip collector_id, strip k) ∷ pairs)
listed_keys collector_id (cons _ rest) = none

-- `value if isinstance(value, list) else [value]`
abbrev as_list : Value → Items
as_list (Value.arr items) = items
as_list v = cons v nil

unfoldable pub object_pairs : Fields → Option Pairs
unfolding listed_keys
object_pairs end = some []
object_pairs (field collector_id value rest) = do
  pairs ← listed_keys collector_id (as_list value)
  others ← object_pairs rest
  some (pairs ++ others)

abbrev json_pairs : Option Value → Option Pairs
json_pairs (some (Value.obj fs)) = object_pairs fs
json_pairs _ = none

-- the comma form: an entry with no colon raises, and a blank one is skipped
unfoldable pub entry_pairs : List String → Option Pairs
unfolding strip partition_by
entry_pairs [] = some []
entry_pairs (entry ∷ entries) =
    let later = entry_pairs entries in
    if strip entry == "" then later else (do
      (collector_id, key) ← partition_by (nat_eq b':') (strip entry)
      pairs ← later
      some ((strip collector_id, strip key) ∷ pairs))

-- `none` is the `ValueError`.
unfoldable pub api_key_bindings : (String → Option Value) → String → Option Pairs
unfolding strip split_by object_pairs entry_pairs checked_bindings
api_key_bindings loads api_keys =
    let raw = strip api_keys in
    if raw == "" then some [] else (do
      pairs ←
          (if begins_with raw "{"
            then json_pairs (loads raw)
            else entry_pairs (split_by (nat_eq b',') raw))
      checked_bindings pairs)
