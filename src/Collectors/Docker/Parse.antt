-- ===== src/Collectors/Docker/Parse.antt =====
-- The parsers of collectors/observatory_collectors/host_pi/docker_stats.py: what the docker CLI
-- prints. `loads` is `json.loads` and `to_float` is `float`, where they return. A size is computed
-- exactly.
use openclaw_observatory.Prelude.{
  ◌≡◌, refl, ℕ, ◌*◌, ◌+◌, ◌/◌, ◌^◌, String, Bool, not, ◌&&◌, ◌||◌, ◌==◌, nat_eq, Option, none, some,
  List, [], ◌∷◌, if◌then◌else◌,
}
use openclaw_observatory.Prelude.Int.{ℤ, pos}
use openclaw_observatory.Prelude.Sort.{sorted}
use openclaw_observatory.Prelude.Dict.{Dict, lookup, insert}
use openclaw_observatory.Prelude.Text.{
  within, is_space, lstrip_by, rstrip_by, strip, partition_by, begins_with, after_prefix,
}
use openclaw_observatory.Prelude.Text.Reading.{digits}
use openclaw_observatory.Prelude.Text.Case.{lower}
use openclaw_observatory.Prelude.Text.Scan.{span_by, tail, size}
use openclaw_observatory.Json.{
  Value, Fields, end, field, Items, nil, cons, get, or_null, obj_or_empty,
}

-- the unit `unit` of a size, as a number of bytes
unfoldable pub size_unit : String → Option ℕ
unfolding lookup
size_unit unit = lookup unit (
    ("b", 1)
    ∷ ("kb", 1000)
    ∷ ("mb", 10 ^ 6)
    ∷ ("gb", 10 ^ 9)
    ∷ ("tb", 10 ^ 12)
    ∷ ("kib", 1024)
    ∷ ("mib", 2 ^ 20)
    ∷ ("gib", 2 ^ 30)
    ∷ ("tib", 2 ^ 40)
    ∷ [])

abbrev is_digit : ℕ → Bool
is_digit n = within 48 57 n

abbrev is_letter : ℕ → Bool
is_letter n = within 65 90 n || within 97 122 n

-- A decimal number without a sign: its digits as one number, and how many of them stand behind the
-- point.
abbrev pub Decimal : Type 0
Decimal = ℕ × ℕ

abbrev zero_if_blank : String → Option ℕ
zero_if_blank s = if s == "" then some 0 else digits s

unfoldable fraction : String → String → Option Decimal
unfolding digits size
fraction whole frac = elim (digits frac) [
  | none ↦ none
  | some f ↦ elim (zero_if_blank whole) [
    | none ↦ none
    | some w ↦ some (w * 10 ^ size frac + f, size frac)
  ]
]

abbrev starts_with_point : String → Bool
starts_with_point s = begins_with s "."

-- `[0-9]*\.?[0-9]+` at the beginning, and what stands behind it
unfoldable pub scan_decimal : String → Option (Decimal × String)
unfolding span_by fraction digits
scan_decimal s =
    let (whole, rest) = span_by is_digit s in
    if starts_with_point rest
    then (let (frac, after) = span_by is_digit (tail rest) in
        elim (fraction whole frac) [ none ↦ none | some d ↦ some (d, after) ])
    else elim (digits whole) [ none ↦ none | some w ↦ some ((w, 0), rest) ]

-- `\s*([A-Za-z]+)$`
unfoldable pub scan_unit : String → Option String
unfolding lstrip_by span_by
scan_unit s =
    let (letters, rest) = span_by is_letter (lstrip_by is_space s) in
    if rest == "" && not (letters == "") then some letters else none

-- `int(float(number) * unit)`
abbrev pub sized : Decimal → ℕ → ℕ
sized (n, places) unit = n * unit / 10 ^ places

-- `parse_size` of a text
unfoldable pub parse_size_text : String → Option ℕ
unfolding strip scan_decimal scan_unit size_unit lower
parse_size_text raw = elim (scan_decimal (strip raw)) [
  | none ↦ none
  | some (number, rest) ↦ elim (scan_unit rest) [
    | none ↦ none
    | some unit ↦ elim (size_unit (lower unit)) [ none ↦ none | some u ↦ some (sized number u) ]
  ]
]

unfoldable pub parse_size : Value → Option ℕ
unfolding parse_size_text
parse_size (Value.str raw) = parse_size_text raw
parse_size _ = none

-- the bytes received and the bytes sent
unfoldable pub parse_netio : Value → Option ℕ × Option ℕ
unfolding partition_by parse_size_text strip
parse_netio (Value.str raw) = elim (partition_by (nat_eq b'/') raw) [
  | none ↦ (none, none)
  | some (rx, tx) ↦ (parse_size_text (strip rx), parse_size_text (strip tx))
]
parse_netio _ = (none, none)

unfoldable pub percent : (String → Option ℤ) → Value → Option ℤ
unfolding strip rstrip_by
percent to_float (Value.str raw) = to_float (rstrip_by (nat_eq b'%') (strip raw))
percent to_float _ = none

pub record Stats : Type 0 where
  pub cpu_percent : Option ℤ
  pub memory_percent : Option ℤ
  pub memory_usage : Value
  pub network_rx_bytes : Option ℕ
  pub network_tx_bytes : Option ℕ

module _ (loads : String → Option Value) (to_float : String → Option ℤ) where
  unfoldable pub entry_stats : Fields → Stats
  unfolding get percent parse_netio
  entry_stats entry =
      let at : String → Value = λ key. or_null (get key entry) in
      let (rx, tx) = parse_netio (at "NetIO") in
      record {
        cpu_percent = percent to_float (at "CPUPerc");
        memory_percent = percent to_float (at "MemPerc");
        memory_usage = at "MemUsage";
        network_rx_bytes = rx;
        network_tx_bytes = tx;
      }

  -- A line that is blank or no JSON is left out; one that is JSON is an object with a text for a name.
  unfoldable pub stats_line : String → Dict Stats → Dict Stats
  unfolding strip entry_stats insert get
  stats_line line stats = elim (loads (strip line)) [
    | none ↦ stats
    | some v ↦ elim v [
      | Value.obj entry ↦ elim (or_null (get "Name" entry)) [
        | Value.str name ↦
            if strip line == "" || name == "" then stats else insert name (entry_stats entry) stats
        | _ ↦ stats
      ]
      | _ ↦ stats
    ]
  ]

  unfoldable pub parse_stats_output : List String → Dict Stats → Dict Stats
  unfolding stats_line
  parse_stats_output [] stats = stats
  parse_stats_output (line ∷ lines) stats = parse_stats_output lines (stats_line line stats)

parse_size_tests :
    (parse_size_text "1.44kB" ≡ some 1440)
    × (parse_size_text " 2 GiB" ≡ some (2 ^ 31))
    × (parse_size_text "12.MB" ≡ none)
    × (parse_size_text "7 furlongs" ≡ none)
unfolding parse_size_text strip lstrip_by rstrip_by scan_decimal scan_unit span_by fraction
    size_unit lower lookup digits size after_prefix
parse_size_tests = (refl, refl, refl, refl)

-- the facts of one container
pub record Inspected : Type 0 where
  pub name : String
  pub image : Value
  pub status : Value
  pub exit_code : Value
  pub restart_count : Value
  pub started_at : Value
  pub network_mode : Value
  pub networks : List String

abbrev pub names_of : Fields → List String
names_of end = []
names_of (field k v rest) = k ∷ names_of rest

-- `str(entry.get("Name", "")).lstrip("/")`, where the name is a text
abbrev name_of : Option Value → String
name_of (some (Value.str s)) = lstrip_by (nat_eq b'/') s
name_of _ = ""

-- `entry.get("RestartCount", 0)`
abbrev count_of : Option Value → Value
count_of none = Value.int (pos 0)
count_of (some v) = v

unfoldable pub inspected : Fields → Inspected
unfolding get obj_or_empty lstrip_by sorted
inspected entry =
    let state = obj_or_empty (get "State" entry) in
    record {
      name = name_of (get "Name" entry);
      image = or_null (get "Image" (obj_or_empty (get "Config" entry)));
      status = or_null (get "Status" state);
      exit_code = or_null (get "ExitCode" state);
      restart_count = count_of (get "RestartCount" entry);
      started_at = or_null (get "StartedAt" state);
      network_mode = or_null (get "NetworkMode" (obj_or_empty (get "HostConfig" entry)));
      networks =
          sorted
            (names_of (obj_or_empty (get "Networks" (obj_or_empty (get "NetworkSettings" entry)))));
    }

unfoldable pub inspected_all : Items → List Inspected
unfolding inspected
inspected_all nil = []
inspected_all (cons (Value.obj entry) rest) = inspected entry ∷ inspected_all rest
inspected_all (cons _ rest) = inspected_all rest

unfoldable pub parse_inspect_output : Option Value → List Inspected
unfolding inspected_all
parse_inspect_output (some (Value.arr items)) = inspected_all items
parse_inspect_output _ = []
