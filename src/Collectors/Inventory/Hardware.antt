-- ===== src/Collectors/Inventory/Hardware.antt =====
-- Hardware identity and operating system of collectors/observatory_collectors/host_pi/inventory.py.
-- What a file held is an argument, `none` where it could not be read.
use Prim.Native.Char.{code}
use openclaw_observatory.Prelude.{
  ℕ, zero, suc, String, Bool, not, ◌&&◌, ◌||◌, ◌==◌, nat_eq, is_some, Option, none, some, List, [],
  ◌∷◌, any, if◌then◌else◌,
}
use openclaw_observatory.Prelude.Dict.{lookup}
use openclaw_observatory.Prelude.Text.{
  is_space, lstrip_by, rstrip_by, strip, split_by, splitlines, partition_by, rpartition_by,
  begins_with, after_prefix,
}
use openclaw_observatory.Prelude.Text.Case.{upper, lower}
use openclaw_observatory.Collectors.Metrics.{Memory, parse_meminfo}

-- `s or None`
abbrev pub optional : String → Option String
optional s = if s == "" then none else some s

-- `a or b`, where an empty text is as good as none
abbrev pub or_else : Option String → Option String → Option String
or_else none b = b
or_else (some s) b = if s == "" then b else some s

abbrev pub or_blank : Option String → String
or_blank none = ""
or_blank (some s) = s

-- the text without its zero bytes
unfoldable pub without_nul : String → String
unfolding lstrip_by
without_nul String.[] = ""
without_nul (String.◌∷◌ c s) =
    let rest = without_nul s in if nat_eq (code c) 0 then rest else String.◌∷◌ c rest

unfoldable pub parse_device_tree_model : String → Option String
unfolding without_nul strip
parse_device_tree_model text = optional (strip (without_nul text))

-- `^(.*?)\s+Rev\s+(\S+)$`: the last word is the revision and the one before it is `Rev`
unfoldable pub split_model_revision : String → String × Option String
unfolding rpartition_by rstrip_by strip
split_model_revision model = elim (rpartition_by is_space model) [
  | none ↦ (model, none)
  | some (before, revision) ↦ elim (rpartition_by is_space (rstrip_by is_space before)) [
    | none ↦ (model, none)
    | some (front, word) ↦
        if word == "Rev" && not (revision == "")
        then (strip front, some revision)
        else (model, none)
  ]
]

pub record CpuInfo : Type 0 where
  pub cpu_model : Option String
  pub model : Option String
  pub revision : Option String
  pub serial : Option String
  pub hardware : Option String
  pub cores : ℕ

-- `line.partition(":")`, both parts stripped
abbrev pub key_value : ℕ → String → String × String
key_value separator line = elim (partition_by (nat_eq separator) line) [
  | none ↦ (strip line, "")
  | some (key, value) ↦ (strip key, strip value)
]

unfoldable pub cpuinfo_line : String → CpuInfo → CpuInfo
unfolding partition_by strip
cpuinfo_line line info =
    let (key, value) = key_value b':' line in
    if key == "processor"
    then record info { cores = suc info.cores }
    else if key == "model name" && not (is_some info.cpu_model)
    then record info { cpu_model = some value }
    else if key == "Model"
    then record info { model = some value }
    else if key == "Revision"
    then record info { revision = some value }
    else if key == "Serial"
    then record info { serial = some value }
    else if key == "Hardware"
    then record info { hardware = some value }
    else info

unfoldable cpuinfo_lines : List String → CpuInfo → CpuInfo
unfolding cpuinfo_line
cpuinfo_lines [] info = info
cpuinfo_lines (line ∷ lines) info = cpuinfo_lines lines (cpuinfo_line line info)

unfoldable pub parse_cpuinfo : String → CpuInfo
unfolding cpuinfo_lines splitlines
parse_cpuinfo text = cpuinfo_lines (splitlines text) (record {
  cpu_model = none;
  model = none;
  revision = none;
  serial = none;
  hardware = none;
  cores = 0;
})

-- the last of the entries that are not blank
unfoldable pub last_entry : List String → Option String
unfolding strip
last_entry [] = none
last_entry (entry ∷ entries) = elim (last_entry entries) [
  | some last ↦ some last
  | none ↦ if strip entry == "" then none else some entry
]

-- `_, _, soc = entry.rpartition(",")`
abbrev soc_of : String → String
soc_of entry = elim (rpartition_by (nat_eq b',') entry) [ none ↦ entry | some (_, soc) ↦ soc ]

unfoldable pub parse_device_tree_compatible : String → Option String
unfolding last_entry split_by rpartition_by upper
parse_device_tree_compatible text = elim (last_entry (split_by (nat_eq 0) text)) [
  | none ↦ none
  | some entry ↦ if soc_of entry == "" then none else some (upper (soc_of entry))
]

unfoldable pub normalize_architecture : String → String
unfolding lookup
normalize_architecture machine =
    let label : Option String = lookup machine (
      ("aarch64", "ARM64")
      ∷ ("arm64", "ARM64")
      ∷ ("armv7l", "ARM32")
      ∷ ("armv6l", "ARM32")
      ∷ ("x86_64", "x86_64")
      ∷ ("i686", "x86")
      ∷ []) in
    elim label [ none ↦ machine | some l ↦ l ]

-- the firmware's placeholders
abbrev is_junk : String → Bool
is_junk value =
    value == "" || any (λ j. j == lower value) ("none" ∷ "unknown" ∷ "to be filled by o.e.m." ∷ [])

unfoldable pub read_dmi : Option String → Option String
unfolding strip lower
read_dmi none = none
read_dmi (some text) = if is_junk (strip text) then none else some (strip text)

-- The files that identity is read from, and `os.uname().machine`.
pub record Sources : Type 0 where
  pub device_tree_model : Option String
  pub device_tree_compatible : Option String
  pub cpuinfo : Option String
  pub meminfo : Option String
  pub dmi : String → Option String
  pub machine : String

pub record Hardware : Type 0 where
  pub manufacturer : Option String
  pub model : Option String
  pub revision : Option String
  pub cpu_model : Option String
  pub cpu_architecture : String
  pub cpu_cores : Option ℕ
  pub memory_total_bytes : Option ℕ
  pub serial : Option String

abbrev nonzero : ℕ → Option ℕ
nonzero zero = none
nonzero (suc n) = some (suc n)

-- `parse(text) if text else None`
abbrev parsed_with : (String → Option String) → Option String → Option String
parsed_with parse none = none
parsed_with parse (some text) = if text == "" then none else parse text

-- the model without its revision, and the revision
unfoldable pub model_and_revision : Option String → Option String → Option String × Option String
unfolding split_model_revision
model_and_revision none revision = (none, revision)
model_and_revision (some model) revision =
    let (m, suffix) = split_model_revision model in
    if model == "" then (some model, revision) else (some m, or_else revision suffix)

abbrev known_manufacturer : Option String → Option String → Option String
known_manufacturer (some vendor) model = some vendor
known_manufacturer none model =
    if begins_with (or_blank model) "Raspberry Pi" then some "Raspberry Pi Foundation" else none

abbrev total_memory : Option Memory → Option ℕ
total_memory none = none
total_memory (some m) = some m.total_bytes

unfoldable pub read_hardware_identity : Sources → Hardware
unfolding parse_cpuinfo parse_device_tree_model read_dmi model_and_revision
    parse_device_tree_compatible parse_meminfo normalize_architecture after_prefix
read_hardware_identity s =
    let cpu = parse_cpuinfo (or_blank s.cpuinfo) in
    let dmi : String → Option String = λ name. read_dmi (s.dmi name) in
    let found =
      or_else (or_else (parsed_with parse_device_tree_model s.device_tree_model) cpu.model)
        (dmi "product_name") in
    let (model, revision) = model_and_revision found cpu.revision in
    record {
      manufacturer = known_manufacturer (dmi "sys_vendor") model;
      model = model;
      revision = or_else revision (dmi "product_version");
      cpu_model =
          or_else cpu.cpu_model (parsed_with parse_device_tree_compatible s.device_tree_compatible);
      cpu_architecture = normalize_architecture s.machine;
      cpu_cores = nonzero cpu.cores;
      memory_total_bytes = total_memory (parse_meminfo (or_blank s.meminfo));
      serial = or_else cpu.serial (dmi "product_serial");
    }
