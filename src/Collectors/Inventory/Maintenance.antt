-- ===== src/Collectors/Inventory/Maintenance.antt =====
-- The maintenance section and the signature of
-- collectors/observatory_collectors/host_pi/inventory.py. What a file held or a command printed is an
-- argument, `none` where it failed.
pub mod Upgrades
use openclaw_observatory.Prelude.{
  ℕ, max, String, Bool, true, false, not, ◌&&◌, ◌||◌, ◌==◌, nat_eq, count_if, is_some, Option, none,
  some, List, [], ◌∷◌, if◌then◌else◌,
}
use openclaw_observatory.Prelude.Int.{ℤ}
use openclaw_observatory.Prelude.Text.{
  strip, words, splitlines, partition_by, begins_with, after_prefix, occurs_in, join,
}
use openclaw_observatory.Json.{Value, Fields, end, field, Items, nil, cons, get}
use openclaw_observatory.Collectors.Agent.{set}
use openclaw_observatory.Collectors.Agent.Probes.{Completed, succeeded}

pub record History : Type 0 where
  pub last_upgrade : Option String
  pub last_full_upgrade : Option String

-- the history so far, and the date of the entry that is read
pub record Scan : Type 0 where
  pub history : History
  pub start : Option String

-- `line.split(":", 1)[1]`
abbrev behind_colon : String → String
behind_colon line = elim (partition_by (nat_eq b':') line) [ none ↦ "" | some (_, rest) ↦ rest ]

abbrev is_full : String → Bool
is_full command = occurs_in "full-upgrade" command || occurs_in "dist-upgrade" command

unfoldable pub command_line : String → String → History → History
unfolding occurs_in
command_line command start h =
    if is_full command
    then record { last_upgrade = some start; last_full_upgrade = some start }
    else if occurs_in "upgrade" command
    then record h { last_upgrade = some start }
    else h

-- `elif line.startswith("Commandline:") and start`
unfoldable pub started_command : String → Option String → History → History
unfolding command_line partition_by
started_command line none h = h
started_command line (some start) h =
    if start == "" then h else command_line (behind_colon line) start h

unfoldable pub history_line : String → Scan → Scan
unfolding strip words join after_prefix started_command partition_by
history_line line s =
    let l = strip line in
    if begins_with l "Start-Date:"
    then record s { start = some (join " " (words (behind_colon l))) }
    else if begins_with l "Commandline:"
    then record s { history = started_command l s.start s.history }
    else s

unfoldable pub history_lines : List String → Scan → Scan
unfolding history_line
history_lines [] s = s
history_lines (line ∷ lines) s = history_lines lines (history_line line s)

abbrev pub no_history : History
no_history = record { last_upgrade = none; last_full_upgrade = none }

unfoldable pub parse_apt_history : String → History
unfolding history_lines splitlines
parse_apt_history text =
    (history_lines (splitlines text) (record { history = no_history; start = none })).history

unfoldable pub parse_upgradable_count : String → ℕ
unfolding splitlines occurs_in
parse_upgradable_count text = count_if (occurs_in "[upgradable from") (splitlines text)

abbrev pub filled : Option String → Option String → Option String
filled none b = b
filled (some a) b = some a

unfoldable pub merged : History → History → History
merged result parsed = record {
  last_upgrade = filled result.last_upgrade parsed.last_upgrade;
  last_full_upgrade = filled result.last_full_upgrade parsed.last_full_upgrade;
}

abbrev pub is_complete : History → Bool
is_complete h = is_some h.last_upgrade && is_some h.last_full_upgrade

-- the archives in the order of their names, `none` for one that cannot be read
unfoldable pub scan_archives : List (Option String) → History → History
unfolding merged parse_apt_history
scan_archives [] result = result
scan_archives (none ∷ archives) result = scan_archives archives result
scan_archives (some text ∷ archives) result =
    let found = merged result (parse_apt_history text) in
    let rest = scan_archives archives found in if is_complete found then found else rest

abbrev pub or_blank : Option String → String
or_blank none = ""
or_blank (some s) = s

unfoldable pub read_apt_history : Option String → List (Option String) → History
unfolding parse_apt_history scan_archives
read_apt_history log archives =
    let result = parse_apt_history (or_blank log) in
    let scanned = scan_archives archives result in if is_complete result then result else scanned

-- `apt list --upgradable`
unfoldable pub read_updates_available : Option Completed → Option ℕ
unfolding parse_upgradable_count
read_updates_available none = none
read_updates_available (some r) =
    if succeeded r.returncode then some (parse_upgradable_count r.stdout) else none

pub record Maintenance : Type 0 where
  pub last_apt_update_epoch : Option ℕ
  pub history : History
  pub updates_available : Option ℕ
  pub reboot_required : Bool

-- the times of the directory of lists, and of the one inside, if it is there; the epoch itself counts
-- as none
abbrev last_update : Option (ℕ × Option ℕ) → Option ℕ
last_update none = none
last_update (some (lists, none)) = if nat_eq lists 0 then none else some lists
last_update (some (lists, some partial)) =
    if nat_eq (max lists partial) 0 then none else some (max lists partial)

unfoldable pub read_maintenance : Option (ℕ × Option ℕ) → History → Option ℕ → Bool → Maintenance
read_maintenance lists history updates reboot_flag = record {
  last_apt_update_epoch = last_update lists;
  history = history;
  updates_available = updates;
  reboot_required = reboot_flag;
}

abbrev is_volatile : String → Bool
is_volatile key = key == "used_bytes" || key == "free_bytes" || key == "used_percent"

unfoldable pub without_volatile : Fields → Fields
without_volatile end = end
without_volatile (field k v rest) =
    let kept = without_volatile rest in if is_volatile k then kept else field k v kept

unfoldable pub stable_entries : Items → Items
unfolding without_volatile
stable_entries nil = nil
stable_entries (cons (Value.obj fs) rest) =
    cons (Value.obj (without_volatile fs)) (stable_entries rest)
stable_entries (cons v rest) = cons v (stable_entries rest)

abbrev storage_of : Option Value → Items
storage_of (some (Value.arr items)) = items
storage_of _ = nil

-- `stable.pop(key, None)`
unfoldable pub without : String → Fields → Fields
without key end = end
without key (field k v rest) =
    let kept = without key rest in if k == key then kept else field k v kept

-- What is written as the signature, by `json.dumps` with its keys sorted.
unfoldable pub stable_payload : Fields → Fields
unfolding without stable_entries get set
stable_payload payload =
    set "storage" (Value.arr (stable_entries (storage_of (get "storage" payload))))
      (without "maintenance" payload)

unfoldable pub stable_signature : (Fields → String) → Fields → String
unfolding stable_payload
stable_signature dumps payload = dumps (stable_payload payload)
