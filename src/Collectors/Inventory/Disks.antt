-- ===== src/Collectors/Inventory/Disks.antt =====
-- The storage section of collectors/observatory_collectors/host_pi/inventory.py. What /sys holds is an
-- argument; `unescape` decodes the octal escapes of a mount point.
use Prim.Native.String.{◌++◌}
use openclaw_observatory.Prelude.{
  ◌≡◌, refl, ℕ, ◌*◌, String, Bool, true, false, not, ◌&&◌, ◌||◌, ◌==◌, Option, none, some, List, [],
  ◌∷◌, any, nat_eq, if◌then◌else◌,
}
use openclaw_observatory.Prelude.Int.{ℤ, sub_ℕ}
use openclaw_observatory.Prelude.Text.{
  within, strip, words, splitlines, begins_with, after_prefix, occurs_in,
}
use openclaw_observatory.Prelude.Text.Case.{upper}
use openclaw_observatory.Prelude.Text.Scan.{span_by}
use openclaw_observatory.Collectors.Metrics.{percent_of}

pub record Mount : Type 0 where
  pub device : String
  pub mount : String
  pub filesystem : String

abbrev same_mount : String → String → Mount → Bool
same_mount device mount_point m = m.device == device && m.mount == mount_point

abbrev append_mount : List Mount → Mount → List Mount
append_mount [] m = m ∷ []
append_mount (n ∷ ns) m = n ∷ append_mount ns m

-- the mounts so far, oldest first; a pair of device and mount point is listed once
unfoldable pub mount_line : (String → String) → String → List Mount → List Mount
unfolding words after_prefix
mount_line unescape line seen = elim (words line) [
  | device ∷ mount_point ∷ fstype ∷ rest ↦
      if not (begins_with device "/dev/") || any (same_mount device (unescape mount_point)) seen
      then seen
      else append_mount seen
          (record { device = device; mount = unescape mount_point; filesystem = fstype })
  | _ ↦ seen
]

unfoldable mount_lines : (String → String) → List String → List Mount → List Mount
unfolding mount_line
mount_lines unescape [] seen = seen
mount_lines unescape (line ∷ lines) seen =
    mount_lines unescape lines (mount_line unescape line seen)

unfoldable pub parse_mounts : (String → String) → String → List Mount
unfolding mount_lines splitlines
parse_mounts unescape text = mount_lines unescape (splitlines text) []

abbrev is_digit : ℕ → Bool
is_digit n = within 48 57 n

abbrev is_small : ℕ → Bool
is_small n = within 97 122 n

-- `(p\d+)?$`
unfoldable is_partition : String → Bool
unfolding span_by after_prefix
is_partition s = elim (after_prefix "p" s) [
  | none ↦ s == ""
  | some number ↦ let (ds, rest) = span_by is_digit number in not (ds == "") && rest == ""
]

-- `mmcblk\d+`, where nothing but a partition stands behind it
unfoldable mmc_device : String → Option String
unfolding after_prefix span_by is_partition
mmc_device name = elim (after_prefix "mmcblk" name) [
  | none ↦ none
  | some number ↦
      let (ds, rest) = span_by is_digit number in
      if not (ds == "") && is_partition rest then some ("mmcblk" ++ ds) else none
]

-- `nvme\d+n\d+`, where nothing but a partition stands behind it
unfoldable nvme_device : String → Option String
unfolding after_prefix span_by is_partition
nvme_device name = elim (after_prefix "nvme" name) [
  | none ↦ none
  | some number ↦
      let (controller, rest) = span_by is_digit number in
      elim (after_prefix "n" rest) [
        | none ↦ none
        | some space ↦
            let (ds, behind) = span_by is_digit space in
            if not (controller == "") && (not (ds == "") && is_partition behind)
            then some ("nvme" ++ controller ++ "n" ++ ds)
            else none
      ]
]

-- `^([a-z]+)(\d+)$`
unfoldable letter_device : String → Option String
unfolding span_by
letter_device name =
    let (letters, number) = span_by is_small name in
    let (ds, rest) = span_by is_digit number in
    if not (letters == "") && (not (ds == "") && rest == "") then some letters else none

unfoldable pub base_block_device : String → String
unfolding mmc_device nvme_device letter_device
base_block_device name = elim (mmc_device name) [
  | some base ↦ base
  | none ↦ elim (nvme_device name) [
    | some base ↦ base
    | none ↦ elim (letter_device name) [ some base ↦ base | none ↦ name ]
  ]
]

base_block_device_tests :
    (base_block_device "mmcblk0p2" ≡ "mmcblk0")
    × (base_block_device "nvme0n1p1" ≡ "nvme0n1")
    × (base_block_device "sda1" ≡ "sda")
    × (base_block_device "dm-0" ≡ "dm-0")
unfolding base_block_device mmc_device nvme_device letter_device is_partition after_prefix span_by
base_block_device_tests = (refl, refl, refl, refl)

abbrev is_card_type : Option String → Bool
is_card_type none = false
is_card_type (some t) = upper (strip t) == "MMC"

abbrev has_usb : Option String → Bool
has_usb none = false
has_usb (some link) = occurs_in "/usb" link

-- whether it begins with `sd`, `vd` or `hd`
abbrev is_scsi : String → Bool
is_scsi base = begins_with base "sd" || begins_with base "vd" || begins_with base "hd"

unfoldable pub classify_transport : String → Option String → Option String → Option String
unfolding after_prefix occurs_in upper strip
classify_transport base device_link mmc_type =
    if begins_with base "mmcblk"
    then (if is_card_type mmc_type then some "eMMC" else some "SD")
    else if begins_with base "nvme"
    then some "NVMe"
    else if is_scsi base
    then (if has_usb device_link then some "USB" else some "SATA")
    else none

abbrev is_rotational : Option String → Bool
is_rotational none = false
is_rotational (some r) = strip r == "1"

abbrev is_ssd : String → Bool
is_ssd t = t == "USB" || t == "NVMe" || t == "SATA"

abbrev disk_label : Bool → Option String → String
disk_label true transport = "HDD"
disk_label false none = "Disk"
disk_label false (some t) = if is_ssd t then "SSD" else "Disk"

unfoldable pub storage_type_label : Option String → Option String → String
unfolding strip
storage_type_label none rotational = disk_label (is_rotational rotational) none
storage_type_label (some t) rotational =
    if t == "SD"
    then "SD Card"
    else if t == "eMMC"
    then "eMMC"
    else disk_label (is_rotational rotational) (some t)

pub record Usage : Type 0 where
  pub total_bytes : ℕ
  pub used_bytes : ℤ
  pub free_bytes : ℕ
  pub used_percent : ℤ

-- `_statvfs_usage`: the size of a fragment, and the numbers of blocks and of available ones
unfoldable pub statvfs_usage : Option (ℕ × ℕ × ℕ) → Option Usage
statvfs_usage none = none
statvfs_usage (some (frsize, blocks, available)) =
    let total = frsize * blocks in
    let free = frsize * available in
    if nat_eq total 0
    then none
    else some (record {
      total_bytes = total;
      used_bytes = sub_ℕ total free;
      free_bytes = free;
      used_percent = percent_of (sub_ℕ total free) total;
    })

-- `text and text.strip()`
abbrev given_text : Option String → List String → List String
given_text none rest = rest
given_text (some t) rest = if strip t == "" then rest else strip t ∷ rest

-- `" ".join(dict.fromkeys(parts[:2]))`
unfoldable pub brand_of : List String → Option String
brand_of [] = none
brand_of (a ∷ []) = some a
brand_of (a ∷ b ∷ _) = some (if a == b then a else a ++ " " ++ b)

unfoldable pub device_brand : Option String → Option String → Option String → Option String
unfolding strip brand_of
device_brand vendor model name =
    brand_of (given_text vendor (given_text model (given_text name [])))
