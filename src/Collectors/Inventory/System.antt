-- ===== src/Collectors/Inventory/System.antt =====
-- The operating system, the interfaces, the maintenance section and the signature of
-- collectors/observatory_collectors/host_pi/inventory.py. What a file held or a command printed is an
-- argument, `none` where it failed.
use openclaw_observatory.Prelude.{
  ℕ, String, Bool, not, ◌&&◌, ◌||◌, ◌==◌, nat_eq, Option, none, some, List, [], ◌∷◌, if◌then◌else◌,
}
use openclaw_observatory.Prelude.Dict.{Dict, lookup, insert}
use openclaw_observatory.Prelude.Sort.{sorted}
use openclaw_observatory.Prelude.Text.{
  strip, splitlines, partition_by, begins_with, after_prefix, lstrip_by, rstrip_by,
}
use openclaw_observatory.Prelude.Text.Case.{lower, capitalize}
use openclaw_observatory.Collectors.Metrics.{parse_default_gateway, parse_default_interface}
use openclaw_observatory.Collectors.Inventory.Hardware.{optional, or_else, or_blank}

abbrev is_quote : ℕ → Bool
is_quote = nat_eq b'"'

unfoldable pub os_release_line : String → Dict String → Dict String
unfolding strip lstrip_by rstrip_by partition_by after_prefix insert
os_release_line line values = elim (partition_by (nat_eq b'=') (strip line)) [
  | none ↦ values
  | some (key, value) ↦
      if begins_with (strip line) "#"
      then values
      else insert (strip key) (rstrip_by is_quote (lstrip_by is_quote (strip value))) values
]

unfoldable os_release_lines : List String → Dict String → Dict String
unfolding os_release_line
os_release_lines [] values = values
os_release_lines (line ∷ lines) values = os_release_lines lines (os_release_line line values)

pub record OsRelease : Type 0 where
  pub name : Option String
  pub release : Option String
  pub version_id : Option String
  pub pretty_name : Option String

abbrev blank_to_none : Option String → Option String
blank_to_none none = none
blank_to_none (some s) = optional s

unfoldable pub parse_os_release : String → OsRelease
unfolding os_release_lines splitlines lookup capitalize
parse_os_release text =
    let values = os_release_lines (splitlines text) [] in
    let codename = or_blank (lookup "VERSION_CODENAME" values) in
    record {
      name = or_else (lookup "NAME" values) (lookup "PRETTY_NAME" values);
      release = or_else (some (capitalize codename)) (blank_to_none (lookup "VERSION" values));
      version_id = blank_to_none (lookup "VERSION_ID" values);
      pretty_name = blank_to_none (lookup "PRETTY_NAME" values);
    }

-- `os.uname()` adds the kernel and the name of the host.
pub record OsInventory : Type 0 where
  pub release : OsRelease
  pub kernel : String
  pub hostname : String

unfoldable pub read_os_inventory : Option String → String → String → OsInventory
unfolding parse_os_release
read_os_inventory file kernel hostname = record {
  release = parse_os_release (or_blank file);
  kernel = kernel;
  hostname = hostname;
}

unfoldable pub relevant_interface : String → Bool
unfolding after_prefix
relevant_interface name = not (
    begins_with name "lo"
    || begins_with name "veth"
    || begins_with name "br-"
    || begins_with name "docker")

pub record Interface : Type 0 where
  pub name : String
  pub ipv4 : Option String
  pub link_state : String

-- `operstate or "unknown"`
abbrev state_of : Option String → String
state_of none = "unknown"
state_of (some s) = if s == "" then "unknown" else s

unfoldable pub interfaces_of :
    (String → Option String) → (String → Option String) → List String → List Interface
unfolding relevant_interface strip lower
interfaces_of ipv4 operstate [] = []
interfaces_of ipv4 operstate (name ∷ names) =
    let rest = interfaces_of ipv4 operstate names in
    if relevant_interface name
    then record {
      name = name;
      ipv4 = ipv4 name;
      link_state = lower (strip (state_of (operstate name)));
    }
      ∷ rest
    else rest

pub record NetworkInventory : Type 0 where
  pub interfaces : List Interface
  -- the gateway and the interface
  pub default_route : Option (Option String × Option String)

abbrev route_of : Option String → Option String → Option (Option String × Option String)
route_of none none = none
route_of gateway interface =
    if or_blank gateway == "" && or_blank interface == "" then none else some (gateway, interface)

-- `names` are the entries of /sys/class/net, none where it cannot be listed
unfoldable pub read_interfaces :
    (String → Option String)
    → (String → Option String)
    → List String
    → Option String
    → NetworkInventory
unfolding interfaces_of sorted parse_default_gateway parse_default_interface
read_interfaces ipv4 operstate names route =
    let text = or_blank route in
    record {
      interfaces = interfaces_of ipv4 operstate (sorted names);
      default_route = route_of (parse_default_gateway text) (parse_default_interface text);
    }
