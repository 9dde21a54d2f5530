-- ===== src/Collectors/Metrics/Reads.antt =====
-- The readers of collectors/observatory_collectors/host_pi/metrics.py: what a file held, `none` where
-- it could not be read, is an argument.
use openclaw_observatory.Prelude.{
  ℕ, String, Bool, ◌==◌, Option, none, some, is_some, nat_eq, if◌then◌else◌,
}
use openclaw_observatory.Prelude.Int.{ℤ, pos}
use openclaw_observatory.Exec.{Result, ok, err, zero_division}
use openclaw_observatory.Collectors.Metrics.{
  Sample, Memory, parse_cpu_times, parse_cpu_temperature, parse_meminfo, parse_uptime,
  parse_default_interface, percent_of,
}

-- `text if text else None`
abbrev pub held : Option String → Option String
held none = none
held (some s) = if s == "" then none else some s

unfoldable pub read_cpu_sample : Option String → Result (Option Sample)
unfolding parse_cpu_times
read_cpu_sample file = elim (held file) [ none ↦ ok none | some text ↦ parse_cpu_times text ]

unfoldable pub read_cpu_temperature : Option String → Option ℤ
unfolding parse_cpu_temperature
read_cpu_temperature file = elim (held file) [
  | none ↦ none
  | some text ↦ parse_cpu_temperature text
]

unfoldable pub read_memory : Option String → Option Memory
unfolding parse_meminfo
read_memory file = elim (held file) [ none ↦ none | some text ↦ parse_meminfo text ]

unfoldable pub read_uptime : (String → Option ℤ) → Option String → Option ℤ
unfolding parse_uptime
read_uptime to_float file = elim (held file) [
  | none ↦ none
  | some text ↦ parse_uptime to_float text
]

-- what `shutil.disk_usage` answers
pub record DiskUsage : Type 0 where
  pub total : ℕ
  pub used : ℕ
  pub free : ℕ

pub record Disk : Type 0 where
  pub path : String
  pub usage : DiskUsage
  pub used_percent : ℤ

unfoldable pub read_disk : String → Option DiskUsage → Result (Option Disk)
read_disk path none = ok none
read_disk path (some usage) =
    if nat_eq usage.total 0
    then err zero_division
    else ok (
        some (record {
          path = path;
          usage = usage;
          used_percent = percent_of (pos usage.used) usage.total;
        }))

pub record Network : Type 0 where
  pub online : Bool
  pub default_interface : Option String
  pub ip_address : Option String

abbrev or_blank : Option String → String
or_blank none = ""
or_blank (some s) = s

-- `address` is what the socket's `getsockname` answers, where it does
unfoldable pub read_network : Option String → Option String → Network
unfolding parse_default_interface
read_network route address =
    let interface = parse_default_interface (or_blank route) in
    record { online = is_some interface; default_interface = interface; ip_address = address }
