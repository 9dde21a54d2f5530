-- ===== src/Collectors/Metrics.antt =====
-- The readers of /proc in collectors/observatory_collectors/host_pi/metrics.py. Percentages are in
-- hundredths and other floats in millionths, computed exactly; `to_float` is Python's `float` of a
-- text, which may fail. `Exn.value_error` is what `int` raises.
pub mod Bounds
pub mod Reads
use openclaw_observatory.Prelude.{
  ℕ, ◌-◌, ◌*◌, ◌^◌, String, Bool, true, false, not, ◌&&◌, ◌||◌, ◌==◌, Option, none, some, List, [],
  ◌∷◌, is_some, ltb, nat_eq, if◌then◌else◌,
}
use openclaw_observatory.Prelude.Int.{
  ℤ, pos, negsuc, pos_part, sub_ℕ, ltb_ℤ, leb_ℤ, scale, ◌+ℤ◌, ◌-ℤ◌, round_div_ℤ,
}
use openclaw_observatory.Prelude.Dict.{Dict, lookup, insert}
use openclaw_observatory.Prelude.Text.{splitlines, words, begins_with, partition_by, strip}
use openclaw_observatory.Prelude.Text.Numbers.{parse_int}
use openclaw_observatory.Prelude.Text.Reading.{digits, parse_hex, dotted_quad}
use openclaw_observatory.Exec.{Result, ok, err, value_error, zero_division}

-- `[int(part) for part in parts]`
unfoldable pub all_ints : List String → Result (List ℤ)
unfolding parse_int
all_ints [] = ok []
all_ints (part ∷ parts) =
    let rest = all_ints parts in
    elim (parse_int part) [
      | none ↦ err value_error
      | some n ↦ elim rest [ err e ↦ err e | ok ns ↦ ok (n ∷ ns) ]
    ]

unfoldable pub sum : List ℤ → ℤ
sum [] = pos 0
sum (n ∷ ns) = n +ℤ sum ns

-- the idle and the total jiffies
abbrev pub Sample : Type 0
Sample = ℤ × ℤ

-- idle and iowait are the fourth and the fifth field
unfoldable pub idle_and_total : List ℤ → Option Sample
unfolding sum
idle_and_total (a ∷ b ∷ c ∷ idle ∷ []) = some (idle, sum (a ∷ b ∷ c ∷ idle ∷ []))
idle_and_total (a ∷ b ∷ c ∷ idle ∷ wait ∷ rest) =
    some (idle +ℤ wait, sum (a ∷ b ∷ c ∷ idle ∷ wait ∷ rest))
idle_and_total _ = none

abbrev behind_first : List String → List String
behind_first [] = []
behind_first (x ∷ xs) = xs

unfoldable pub cpu_line : String → Result (Option Sample)
unfolding all_ints words idle_and_total
cpu_line line = elim (all_ints (behind_first (words line))) [
  | err e ↦ err e
  | ok fields ↦ ok (idle_and_total fields)
]

unfoldable cpu_times : List String → Result (Option Sample)
unfolding cpu_line
cpu_times [] = ok none
cpu_times (line ∷ lines) =
    let later = cpu_times lines in if begins_with line "cpu " then cpu_line line else later

unfoldable pub parse_cpu_times : String → Result (Option Sample)
unfolding cpu_times splitlines
parse_cpu_times text = cpu_times (splitlines text)

-- `100.0 * (1.0 - idle_delta / total_delta)`
abbrev pub busy_percent : ℤ → ℤ → ℤ
busy_percent idle total = round_div_ℤ (scale 10000 (total -ℤ idle)) (pos_part total)

unfoldable pub cpu_percent_from_samples : Option Sample → Option Sample → Option ℤ
cpu_percent_from_samples (some (idle, total)) (some (idle', total')) =
    if leb_ℤ (total' -ℤ total) (pos 0)
    then none
    else some (busy_percent (idle' -ℤ idle) (total' -ℤ total))
cpu_percent_from_samples _ _ = none

-- degrees, in hundredths
unfoldable pub parse_cpu_temperature : String → Option ℤ
unfolding parse_int strip
parse_cpu_temperature text = elim (parse_int (strip text)) [
  | none ↦ none
  | some n ↦ some (round_div_ℤ n 10)
]

abbrev is_colon : ℕ → Bool
is_colon = nat_eq b':'

-- a line of /proc/meminfo, in kB
unfoldable pub memory_line : String → Dict ℕ → Dict ℕ
unfolding partition_by words digits insert strip
memory_line line values = elim (partition_by is_colon line) [
  | none ↦ values
  | some (key, rest) ↦ elim (words rest) [
    | [] ↦ values
    | part ∷ _ ↦ elim (digits part) [
      | none ↦ values
      | some n ↦ insert (strip key) (n * 1024) values
    ]
  ]
]

unfoldable pub memory_values : List String → Dict ℕ → Dict ℕ
unfolding memory_line
memory_values [] values = values
memory_values (line ∷ lines) values = memory_values lines (memory_line line values)

pub record Memory : Type 0 where
  pub total_bytes : ℕ
  pub available_bytes : ℕ
  pub used_bytes : ℤ
  pub used_percent : ℤ

-- `round(100.0 * used / total, 2)` for a positive total
abbrev pub percent_of : ℤ → ℕ → ℤ
percent_of used total = round_div_ℤ (scale 10000 used) total

-- `not total or available is None`
unfoldable pub memory_usage : Option ℕ → Option ℕ → Option Memory
memory_usage (some total) (some available) =
    let used = sub_ℕ total available in
    if nat_eq total 0
    then none
    else some (record {
      total_bytes = total;
      available_bytes = available;
      used_bytes = used;
      used_percent = percent_of used total;
    })
memory_usage _ _ = none

unfoldable pub parse_meminfo : String → Option Memory
unfolding memory_values splitlines memory_usage lookup
parse_meminfo text =
    let values = memory_values (splitlines text) [] in
    memory_usage (lookup "MemTotal" values) (lookup "MemAvailable" values)

-- `float(uptime_text.split()[0])`
unfoldable pub parse_uptime : (String → Option ℤ) → String → Option ℤ
unfolding words
parse_uptime to_float text = elim (words text) [ [] ↦ none | part ∷ _ ↦ to_float part ]

abbrev default_destination : String
default_destination = "00000000"

unfoldable pub default_interface : List String → Option String
unfolding words
default_interface [] = none
default_interface (line ∷ lines) =
    let later = default_interface lines in
    elim (words line) [
      | [] ↦ later
      | name ∷ rest ↦ elim rest [
        | [] ↦ later
        | destination ∷ _ ↦ if destination == default_destination then some name else later
      ]
    ]

unfoldable pub parse_default_interface : String → Option String
unfolding default_interface splitlines
parse_default_interface text = default_interface (behind_first (splitlines text))

-- `struct.pack("<L", n)` fails outside of 32 bits.
unfoldable pub packed_address : Option ℤ → Option String
unfolding dotted_quad
packed_address (some (pos n)) = if ltb n (2 ^ 32) then some (dotted_quad n) else none
packed_address _ = none

unfoldable pub default_gateway : List String → Option String
unfolding words packed_address parse_hex
default_gateway [] = none
default_gateway (line ∷ lines) =
    let later = default_gateway lines in
    elim (words line) [
      | name ∷ destination ∷ gateway ∷ rest ↦
          if destination == default_destination then packed_address (parse_hex gateway) else later
      | _ ↦ later
    ]

unfoldable pub parse_default_gateway : String → Option String
unfolding default_gateway splitlines
parse_default_gateway text = default_gateway (behind_first (splitlines text))
