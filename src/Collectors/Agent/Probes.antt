-- ===== src/Collectors/Agent/Probes.antt =====
-- collectors/observatory_collectors/openclaw_agent/probes.py. What a command or a file gave is an
-- argument, `none` where it could not be run or read; `loads` is `json.loads`, where it returns.
use Prim.Native.String.{◌++◌}
use openclaw_observatory.Prelude.{
  ℕ, zero, suc, ◌*◌, String, Bool, true, false, not, ◌&&◌, ◌==◌, nat_eq, is_some, Option, none,
  some, List, [], ◌∷◌, if◌then◌else◌,
}
use openclaw_observatory.Prelude.Int.{ℤ, pos, scale, leb_ℤ, ◌-ℤ◌, round_div_ℤ}
use openclaw_observatory.Prelude.Text.{strip, words, splitlines, rpartition_by}
use openclaw_observatory.Prelude.Text.Numbers.{parse_int}
use openclaw_observatory.Prelude.Text.Scan.{prefix}
use openclaw_observatory.Json.{Value, Fields, end, field, Items, nil, cons, get}

abbrev pub state_fields : List String
state_fields =
    "agent_status" ∷ "active_mission" ∷ "mission_state" ∷ "last_completed_task" ∷ "model" ∷ []

abbrev pub max_field_length : ℕ
max_field_length = 512

-- `[item for item in missions if isinstance(item, dict)]`
unfoldable pub objects : Items → Items
objects nil = nil
objects (cons (Value.obj fs) rest) = cons (Value.obj fs) (objects rest)
objects (cons _ rest) = objects rest

-- one of the fields, in front of those behind it, if it is a text that is not blank
unfoldable pub with_field : String → Option Value → Fields → Fields
unfolding strip prefix
with_field name (some (Value.str value)) rest =
    if strip value == ""
    then rest
    else field name (Value.str (prefix max_field_length (strip value))) rest
with_field name _ rest = rest

unfoldable pub bounded_fields : List String → Fields → Fields → Fields
unfolding with_field get
bounded_fields [] raw rest = rest
bounded_fields (name ∷ names) raw rest =
    with_field name (get name raw) (bounded_fields names raw rest)

abbrev missions_of : Option Value → Fields
missions_of (some (Value.arr items)) = field "missions" (Value.arr (objects items)) end
missions_of _ = end

unfoldable pub parse_state_document : (String → Option Value) → String → Fields
unfolding bounded_fields objects get
parse_state_document loads text = elim (loads text) [
  | none ↦ end
  | some v ↦ elim v [
    | Value.obj raw ↦ bounded_fields state_fields raw (missions_of (get "missions" raw))
    | _ ↦ end
  ]
]

-- `path` is the configured one and `file` what it held
unfoldable pub read_state_file : (String → Option Value) → String → Option String → Fields
unfolding parse_state_document
read_state_file loads path none = end
read_state_file loads path (some text) = if path == "" then end else parse_state_document loads text

abbrev pub nth : {A : Type 0} → ℕ → List A → Option A
nth n [] = none
nth zero (x ∷ xs) = some x
nth (suc n) (x ∷ xs) = nth n xs

-- `_, _, rest = text.rpartition(")")`
abbrev behind_comm : String → String
behind_comm text = elim (rpartition_by (nat_eq b')') text) [ none ↦ text | some (_, rest) ↦ rest ]

-- field 22 is the twentieth behind the name of the program
unfoldable pub parse_starttime_ticks : String → Option ℤ
unfolding rpartition_by words parse_int
parse_starttime_ticks text = elim (nth 19 (words (behind_comm text))) [
  | none ↦ none
  | some ticks ↦ parse_int ticks
]

-- `system_uptime - starttime_ticks / hertz`, in millionths and times `hertz`
abbrev pub scaled_uptime : ℤ → ℤ → ℕ → ℤ
scaled_uptime ticks system_uptime hertz = scale hertz system_uptime -ℤ scale 1000000 ticks

-- The uptime in millionths of a second, rounded to thousandths.
unfoldable pub process_uptime_seconds : Option ℤ → Option ℤ → ℤ → Option ℤ
process_uptime_seconds (some ticks) (some system_uptime) (pos (suc h)) =
    let uptime = scaled_uptime ticks system_uptime (suc h) in
    if leb_ℤ (pos 0) uptime then some (scale 1000 (round_div_ℤ uptime (suc h * 1000))) else none
process_uptime_seconds _ _ _ = none

-- what `subprocess.run` captured
pub record Completed : Type 0 where
  pub returncode : ℤ
  pub stdout : String
  pub stderr : String

abbrev pub succeeded : ℤ → Bool
succeeded (pos zero) = true
succeeded _ = false

-- `a or b`
abbrev or_text : String → String → String
or_text a b = if a == "" then b else a

abbrev first_line : List String → Option String
first_line [] = none
first_line (line ∷ _) = some (prefix max_field_length line)

-- `output.splitlines()[0][:512] if output else None`
unfoldable pub first_output : Completed → Option String
unfolding strip splitlines prefix
first_output r =
    let output = strip (or_text r.stdout r.stderr) in
    if output == "" then none else first_line (splitlines output)

module _ (which : String → Option String) (run : String → Option Completed) where
  unfoldable pub cli_version : String → Option String
  unfolding first_output
  cli_version binary = elim (which binary) [
    | none ↦ none
    | some resolved ↦ elim (run resolved) [
      | none ↦ none
      | some r ↦ if succeeded r.returncode then first_output r else none
    ]
  ]

  -- `claude_bin or "claude"`
  unfoldable pub probe_claude_code : Option String → Bool × Option String
  unfolding cli_version
  probe_claude_code claude_bin =
      let version =
        cli_version (elim claude_bin [ none ↦ "claude" | some b ↦ or_text b "claude" ]) in
      (is_some version, version)

  -- `node` is what `_runtime_node_binary` found
  unfoldable pub probe_runtime_version : Option String → String → Option String
  unfolding cli_version prefix
  probe_runtime_version openclaw_bin node_binary =
      let version =
        cli_version (elim openclaw_bin [ none ↦ "openclaw" | some b ↦ or_text b "openclaw" ]) in
      elim version [
        | some v ↦ elim (cli_version node_binary) [
          | some n ↦ some (prefix max_field_length (v ++ " · node " ++ n))
          | none ↦ some v
        ]
        | none ↦ elim (cli_version node_binary) [ some n ↦ some ("node " ++ n) | none ↦ none ]
      ]

-- the sibling of the launcher, where it is a file that may be executed
unfoldable pub runtime_node_binary : (String → String) → (String → Bool) → Option String → String
runtime_node_binary sibling executable none = "node"
runtime_node_binary sibling executable (some bin) =
    if not (bin == "") && executable (sibling bin) then sibling bin else "node"
