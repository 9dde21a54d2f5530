-- ===== src/Config/Keys.antt =====
-- The end of `Settings.api_key_bindings` of backend/app/config.py: the checks on the pairs that the
-- text was parsed to, which are stripped by then.
use openclaw_observatory.Prelude.{
  String, Bool, true, false, not, ◌&&◌, ◌==◌, nat_eq, Option, none, some, List, [], ◌∷◌, length,
  select, if◌then◌else◌,
}
use openclaw_observatory.Prelude.Dict.{Dict, lookup, insert}

-- `c and k`
abbrev pub is_complete : String × String → Bool
is_complete (c, k) = not (c == "") && not (k == "")

-- `key in seen and seen[key] != collector_id`
abbrev pub is_conflict : Option String → String → Bool
is_conflict none collector_id = false
is_conflict (some seen) collector_id = not (seen == collector_id)

-- the loop over the bindings with `seen`: whether it ends without raising
unfoldable pub keys_unique : Dict String → List (String × String) → Bool
unfolding insert lookup
keys_unique seen [] = true
keys_unique seen ((collector_id, key) ∷ rest) =
    let later = keys_unique (insert key collector_id seen) rest in
    if is_conflict (lookup key seen) collector_id then false else later

-- `none` is the `ValueError`.
unfoldable pub checked_bindings : List (String × String) → Option (List (String × String))
unfolding keys_unique
checked_bindings pairs =
    let bindings = select is_complete pairs in
    if not (nat_eq (length pairs) (length bindings))
    then none
    else if keys_unique [] bindings
    then some bindings
    else none
