-- ===== src/Collectors/Inventory.antt =====
-- `InventoryTelemetry` of collectors/observatory_collectors/host_pi/collector.py. What the host
-- shows at a poll, its identity, that identity's signature and the maintenance section, is an input;
-- instants and the interval are microseconds of the monotonic clock.
pub mod Cadence
pub mod Hardware
pub mod Disks
pub mod Storage
pub mod System
pub mod Maintenance
use openclaw_observatory.Prelude.{
  ℕ, ◌+◌, String, Bool, true, false, not, ◌&&◌, ◌==◌, leb, Option, none, some, List, [], ◌∷◌,
  if◌then◌else◌,
}
use openclaw_observatory.Json.{Value, Fields, end, field}
use openclaw_observatory.Collectors.Runner.{EventTuple}

pub record InventoryTelemetry : Type 0 where
  pub interval : ℕ
  pub last_sent : Option ℕ
  pub last_signature : Option String

-- what one poll finds
pub record Poll : Type 0 where
  pub now : ℕ
  pub identity : Fields
  pub signature : String
  pub maintenance : Value

-- `now - last >= interval`; the clock is monotonic
abbrev pub is_due : ℕ → ℕ → Option ℕ → Bool
is_due now interval none = true
is_due now interval (some last) = leb (last + interval) now

abbrev pub is_known : String → Option String → Bool
is_known signature none = false
is_known signature (some last) = signature == last

-- `payload["maintenance"] = …` on an identity, which has no such key
abbrev pub with_maintenance : Fields → Value → Fields
with_maintenance end m = field "maintenance" m end
with_maintenance (field k v rest) m = field k v (with_maintenance rest m)

unfoldable pub produce : Poll → InventoryTelemetry → Option EventTuple × InventoryTelemetry
produce p t =
    if not (is_due p.now t.interval t.last_sent) && is_known p.signature t.last_signature
    then (none, t)
    else (
      some (record {
        event_type = "host_inventory";
        payload = with_maintenance p.identity p.maintenance;
        schema_version = 1;
      }),
      record t { last_sent = some p.now; last_signature = some p.signature },
    )

-- The instants at which a series of polls sends an inventory.
unfoldable pub sent_at : List Poll → InventoryTelemetry → List ℕ
unfolding produce
sent_at [] t = []
sent_at (p ∷ ps) t =
    let (e, t') = produce p t in
    let rest = sent_at ps t' in elim e [ none ↦ rest | some _ ↦ p.now ∷ rest ]
