-- ===== src/Offline/Sweep.antt =====
-- A detection sweep over a registry with the event store up.
use mathlib.Core.List.{append-nil, append_assoc}
use openclaw_observatory.Prelude.{
  ℕ, ◌+◌, ◌≡◌, ◌≢◌, refl, sym, ◌∙◌, ap, String, true, false, Option, none, some, List, [], ◌∷◌,
  ◌++◌, arith, eq_iff, if◌then◌else◌, Bool-cases, inl, inr, ◌⊎◌, length,
}
use openclaw_observatory.Prelude.Dict.{Dict, lookup, insert}
use openclaw_observatory.Config.{Settings}
use openclaw_observatory.Models.Event.{Event}
use openclaw_observatory.Models.Heartbeat.{heartbeat_event_type}
use openclaw_observatory.Models.Registry.{Connectivity, FleetAsset}
use openclaw_observatory.Storage.Events.{EventStore, insert_event}
use openclaw_observatory.Exec.{Result, ok}
use openclaw_observatory.World.{World}
use openclaw_observatory.Offline.{
  Detector, Counts, bump, judgment, transition_event, report, sweep, same_connectivity,
  offline_event_type, online_event_type,
}
use openclaw_observatory.Storage.Events.Latest.{newest_event}
use openclaw_observatory.Offline.Judgment.{
  newest_event-append_other, judged, last_seen, evaluate_up,
}

abbrev pub total : Counts → ℕ
total c = c.online + c.offline + c.unknown

total-bump : (s : Connectivity) (c : Counts) → total (bump s c) ≡ total c + 1
unfolding bump
total-bump Connectivity.online c = omega arith
total-bump Connectivity.offline c = omega arith
total-bump Connectivity.unknown c = omega arith

offline_ne_heartbeat : offline_event_type ≢ heartbeat_event_type
offline_ne_heartbeat = ground (arith, eq_iff offline_event_type heartbeat_event_type)

online_ne_heartbeat : online_event_type ≢ heartbeat_event_type
online_ne_heartbeat = ground (arith, eq_iff online_event_type heartbeat_event_type)

module _ (isoformat : ℕ → String) (settings : Settings) (uuid : String → ℕ) (now : ℕ) where
  -- What the stream is owed for an asset: nothing before a baseline, without a change or for one that
  -- has become unknown, else one event.
  abbrev pub owed : String → Option Connectivity → Connectivity → Option ℕ → List Event
  owed id none state last = []
  owed id (some previous) state last = if same_connectivity previous state then [] else elim state [
    | Connectivity.offline ↦
        transition_event isoformat settings (uuid id) id offline_event_type previous
          Connectivity.offline last now
        ∷ []
    | Connectivity.online ↦
        transition_event isoformat settings (uuid id) id online_event_type previous
          Connectivity.online last now
        ∷ []
    | Connectivity.unknown ↦ []
  ]

  report_effect :
      (id : String) (previous : Option Connectivity) (state : Connectivity) (last : Option ℕ)
      (w : World)
      → w.events.fail ≡ false
      → let (r, w') = report isoformat settings (uuid id) id previous state last now w in
        (r ≡ ok tt)
        × (w'.events.fail ≡ false)
        × (w'.events.events ≡ w.events.events ++ owed id previous state last)
        × (w'.registry ≡ w.registry)
  unfolding report insert_event
  report_effect id none state last w up = (refl, up, sym (append-nil w.events.events), refl)
  report_effect id (some previous) Connectivity.offline last w up =
      ground (arith, append-nil w.events.events)
  report_effect id (some previous) Connectivity.online last w up =
      ground (arith, append-nil w.events.events)
  report_effect id (some previous) Connectivity.unknown last w up =
      ground (arith, append-nil w.events.events)

  abbrev run_report : FleetAsset → Detector → Result (Unit {0}) × World
  run_report a d =
      report isoformat settings (uuid a.fleet_id) a.fleet_id (lookup a.fleet_id d.known)
        (judged settings now d.world.events a) (last_seen settings now d.world.events a) now d.world

  -- the detector after one asset
  abbrev next : FleetAsset → Detector → Detector
  next a d = record {
    world = (run_report a d).1;
    known = insert a.fleet_id (judged settings now d.world.events a) d.known;
  }

  abbrev newest_in : String → List Event → Option Event
  newest_in id es =
      newest_event id heartbeat_event_type (record { events = es; started = true; fail = false })

  -- The same heartbeats are the newest in both stores.
  abbrev SameHeartbeats : EventStore → EventStore → Type 0
  SameHeartbeats s s' =
      (id : String)
      → newest_event id heartbeat_event_type s' ≡ newest_event id heartbeat_event_type s

  owed_cases :
      (id : String) (previous : Option Connectivity) (state : Connectivity) (last : Option ℕ)
      → (owed id previous state last ≡ [])
        ⊎ ((e : Event) × (owed id previous state last ≡ e ∷ [])
            × (e.event_type ≢ heartbeat_event_type))
  unfolding transition_event
  owed_cases id none state last = inl refl
  owed_cases id (some previous) Connectivity.unknown last = inl (ground arith)
  owed_cases id (some previous) Connectivity.offline last =
      elim (Bool-cases (same_connectivity previous Connectivity.offline)) [
        | inl same ↦ inl (rw same)
        | inr other ↦ inr (
          transition_event isoformat settings (uuid id) id offline_event_type previous
              Connectivity.offline last now,
          rw other,
          offline_ne_heartbeat,
        )
      ]
  owed_cases id (some previous) Connectivity.online last =
      elim (Bool-cases (same_connectivity previous Connectivity.online)) [
        | inl same ↦ inl (rw same)
        | inr other ↦ inr (
          transition_event isoformat settings (uuid id) id online_event_type previous
              Connectivity.online last now,
          rw other,
          online_ne_heartbeat,
        )
      ]

  owed_undisturbing :
      (id : String) (previous : Option Connectivity) (state : Connectivity) (last : Option ℕ)
      (s s' : EventStore)
      → s'.events ≡ s.events ++ owed id previous state last
      → SameHeartbeats s s'
  owed_undisturbing id previous state last s s' e other = elim (owed_cases id previous state last) [
    | inl q ↦ ap (newest_in other) (e ∙ (rw (q, append-nil)))
    | inr (x, q, ne) ↦
        ap (newest_in other) (e ∙ (rw q))
        ∙ newest_event-append_other other heartbeat_event_type s x ne
  ]

  next_up :
      (a : FleetAsset) (d : Detector)
      → d.world.events.fail ≡ false
      → (next a d).world.events.fail ≡ false
  next_up a d up =
      (report_effect a.fleet_id (lookup a.fleet_id d.known) (judged settings now d.world.events a)
        (last_seen settings now d.world.events a) d.world up).1

  sweep_step :
      (a : FleetAsset) (rest : List FleetAsset) (c : Counts) (d : Detector)
      → d.world.events.fail ≡ false
      → sweep isoformat settings uuid now (a ∷ rest) c d
        ≡ sweep isoformat settings uuid now rest
            (bump (judged settings now d.world.events a) c)
            (next a d)
  unfolding sweep
  sweep_step a rest c d up = ground (
    arith,
    evaluate_up settings now a d.world up,
    (report_effect a.fleet_id (lookup a.fleet_id d.known) (judged settings now d.world.events a)
        (last_seen settings now d.world.events a) d.world up).0,
  )

  next-SameHeartbeats :
      (a : FleetAsset) (d : Detector)
      → d.world.events.fail ≡ false
      → SameHeartbeats d.world.events (next a d).world.events
  next-SameHeartbeats a d up =
      let previous = lookup a.fleet_id d.known in
      let state = judged settings now d.world.events a in
      let last = last_seen settings now d.world.events a in
      owed_undisturbing a.fleet_id previous state last d.world.events (next a d).world.events
        (report_effect a.fleet_id previous state last d.world up).2

  -- What the stream is owed for the assets in order, judged by the heartbeats of `s`.
  abbrev pub owed_all : EventStore → Dict Connectivity → List FleetAsset → List Event
  owed_all s known [] = []
  owed_all s known (a ∷ rest) =
      owed a.fleet_id (lookup a.fleet_id known) (judged settings now s a)
        (last_seen settings now s a)
      ++ owed_all s (insert a.fleet_id (judged settings now s a) known) rest

  cong_append : {x x' y y' : List Event} → x ≡ x' → y ≡ y' → x ++ y ≡ x' ++ y'
  cong_append p q = rw (p, q)

  owed_all_same :
      (s s' : EventStore)
      → SameHeartbeats s s'
      → (known : Dict Connectivity) (assets : List FleetAsset)
      → owed_all s' known assets ≡ owed_all s known assets
  owed_all_same s s' same known [] = refl
  owed_all_same s s' same known (a ∷ rest) =
      cong_append
        (ap
          (λ h.
            owed a.fleet_id (lookup a.fleet_id known) (judgment settings now h).0
              (judgment settings now h).1)
          (same a.fleet_id))
        (ap (λ h. owed_all s' (insert a.fleet_id (judgment settings now h).0 known) rest)
            (same a.fleet_id)
          ∙ owed_all_same s s' same (insert a.fleet_id (judged settings now s a) known) rest)

  sweep_nil : (c : Counts) (d : Detector) → sweep isoformat settings uuid now [] c d ≡ (ok c, d)
  unfolding sweep
  sweep_nil c d = refl

  -- With the event store up a sweep succeeds, counts every asset once, and appends to the stream
  -- exactly the transition events that are owed: one, in registry order, for each asset that is now
  -- online or offline and was last known in another state; none for an asset without a baseline,
  -- without a change, or whose connectivity has become unknown.
  pub sweep_reports_changes :
      (assets : List FleetAsset) (c : Counts) (d : Detector)
      → d.world.events.fail ≡ false
      → let (r, d') = sweep isoformat settings uuid now assets c d in
        (counts : Counts) × (r ≡ ok counts)
        × (total counts ≡ total c + length assets)
        × (d'.world.events.events ≡ d.world.events.events ++ owed_all d.world.events d.known assets)
  sweep_reports_changes [] c d up = (
    c,
    ap (λ p. p.0) (sweep_nil c d),
    (omega arith),
    ap (λ p. p.1.world.events.events) (sweep_nil c d) ∙ sym (append-nil d.world.events.events),
  )
  sweep_reports_changes (a ∷ rest) c d up =
      let (cs, r, t, e) =
        sweep_reports_changes rest (bump (judged settings now d.world.events a) c) (next a d)
          (next_up a d up) in
      let counted = total-bump (judged settings now d.world.events a) c in
      let previous = lookup a.fleet_id d.known in
      let stored =
        (report_effect a.fleet_id previous (judged settings now d.world.events a)
          (last_seen settings now d.world.events a) d.world up).2 in
      let step = sweep_step a rest c d up in
      (
        cs,
        ap (λ p. p.0) step ∙ r,
        (omega (t, counted, arith)),
        ap (λ p. p.1.world.events.events) step
            ∙ e
            ∙ cong_append stored (
                owed_all_same d.world.events (next a d).world.events (next-SameHeartbeats a d up)
                  (next a d).known rest)
            ∙ append_assoc d.world.events.events _ _,
      )
