-- ===== src/Collectors/Inventory/Storage.antt =====
-- `read_storage_inventory` and `assign_logical_names` of
-- collectors/observatory_collectors/host_pi/inventory.py.
pub mod Names
use Prim.Native.String.{◌++◌}
use openclaw_observatory.Prelude.{
  ℕ, suc, ◌*◌, String, Bool, true, false, ◌==◌, Option, none, some, List, [], ◌∷◌, if◌then◌else◌,
}
use openclaw_observatory.Prelude.Dict.{Dict, lookup, insert}
use openclaw_observatory.Prelude.Text.{strip, rpartition_by}
use openclaw_observatory.Prelude.Text.Numbers.{show_nat}
use openclaw_observatory.Prelude.Text.Reading.{digits}
use openclaw_observatory.Prelude.{nat_eq}
use openclaw_observatory.Collectors.Inventory.Disks.{
  Mount, Usage, base_block_device, classify_transport, storage_type_label, statvfs_usage,
  device_brand, parse_mounts,
}

pub record Entry : Type 0 where
  pub device : String
  pub physical_device : String
  pub type : String
  pub transport : Option String
  pub capacity_bytes : Option ℕ
  pub mount : String
  pub brand : Option String
  pub filesystem : String
  pub usage : Option Usage

-- a logical name before it is written as a text: `f"{prefix}{ordinal}"`
abbrev pub Name : Type 0
Name = String × ℕ

unfoldable pub name_text : Name → String
unfolding show_nat
name_text (prefix, ordinal) = prefix ++ show_nat ordinal

unfoldable pub prefix_of : String → String
unfolding lookup
prefix_of label =
    let prefix : Option String = lookup label (
      ("SD Card", "SD")
      ∷ ("eMMC", "EMMC")
      ∷ ("SSD", "SSD")
      ∷ ("HDD", "HDD")
      ∷ ("Disk", "DISK")
      ∷ []) in
    elim prefix [ none ↦ "DISK" | some p ↦ p ]

-- `counters.get(prefix, 0)`
abbrev pub counted : String → Dict ℕ → ℕ
counted prefix counters = elim (lookup prefix counters) [ none ↦ 0 | some n ↦ n ]

-- how many names of each prefix are given, and the names of the devices
pub record Naming : Type 0 where
  pub counters : Dict ℕ
  pub named : Dict Name

-- The state with the device's name, whether it had one or is given its first.
unfoldable pub name_device : String → String → Naming → Naming
unfolding lookup insert
name_device physical prefix s = elim (lookup physical s.named) [
  | some _ ↦ s
  | none ↦
      let n = suc (counted prefix s.counters) in
      record { counters = insert prefix n s.counters; named = insert physical (prefix, n) s.named }
]

-- `entry.get("physical_device") or entry.get("device", "")`
abbrev pub physical_of : Entry → String
physical_of e = if e.physical_device == "" then e.device else e.physical_device

unfoldable pub name_entry : Entry → Naming → Naming
unfolding name_device prefix_of
name_entry e s = name_device (physical_of e) (prefix_of e.type) s

abbrev pub start : Naming
start = record { counters = []; named = [] }

unfoldable pub assign_from : Naming → List Entry → List (Option Name × Entry) × Naming
unfolding name_entry lookup
assign_from s [] = ([], s)
assign_from s (e ∷ es) =
    let s' = name_entry e s in
    let (rest, last) = assign_from s' es in ((lookup (physical_of e) s'.named, e) ∷ rest, last)

unfoldable pub assign_logical_names : List Entry → List (Option Name × Entry)
unfolding assign_from
assign_logical_names es = (assign_from start es).0

-- What /sys and the file systems hold about a whole disk and about a mount point.
pub record Sys : Type 0 where
  pub device_link : String → Option String
  pub mmc_type : String → Option String
  pub rotational : String → Option String
  pub size : String → Option String
  pub vendor : String → Option String
  pub model : String → Option String
  pub name : String → Option String
  pub statvfs : String → Option (ℕ × ℕ × ℕ)

-- 512 bytes for each sector
abbrev capacity : Option String → Option ℕ
capacity none = none
capacity (some text) = elim (digits (strip text)) [ none ↦ none | some n ↦ some (n * 512) ]

-- `device.rsplit("/", 1)[-1]`
abbrev device_name : String → String
device_name device = elim (rpartition_by (nat_eq b'/') device) [ none ↦ device | some (_, n) ↦ n ]

unfoldable pub storage_entry : Sys → Mount → Entry
unfolding base_block_device classify_transport storage_type_label device_brand statvfs_usage digits
    strip rpartition_by
storage_entry sys m =
    let base = base_block_device (device_name m.device) in
    let transport = classify_transport base (sys.device_link base) (sys.mmc_type base) in
    record {
      device = m.device;
      physical_device = "/dev/" ++ base;
      type = storage_type_label transport (sys.rotational base);
      transport = transport;
      capacity_bytes = capacity (sys.size base);
      mount = m.mount;
      brand = device_brand (sys.vendor base) (sys.model base) (sys.name base);
      filesystem = m.filesystem;
      usage = statvfs_usage (sys.statvfs m.mount);
    }

unfoldable storage_entries : Sys → List Mount → List Entry
unfolding storage_entry
storage_entries sys [] = []
storage_entries sys (m ∷ ms) = storage_entry sys m ∷ storage_entries sys ms

abbrev or_blank : Option String → String
or_blank none = ""
or_blank (some s) = s

unfoldable pub read_storage_inventory :
    (String → String) → Sys → Option String → List (Option Name × Entry)
unfolding parse_mounts storage_entries assign_logical_names
read_storage_inventory unescape sys mounts =
    assign_logical_names (storage_entries sys (parse_mounts unescape (or_blank mounts)))
