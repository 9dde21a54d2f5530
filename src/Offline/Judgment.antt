-- ===== src/Offline/Judgment.antt =====
-- What a sweep judges, and the view of the registry service beside it.
use openclaw_observatory.Prelude.{
  ℕ, ◌≡◌, ◌≢◌, refl, ap, String, Bool, false, Option, none, some, List, [], ◌∷◌, ◌++◌, arith,
  eq_iff, select, inl, inr,
}
use openclaw_observatory.Prelude.Sort.{newest}
use openclaw_observatory.Config.{Settings}
use openclaw_observatory.Models.Event.{Event}
use openclaw_observatory.Models.Heartbeat.{heartbeat_event_type}
use openclaw_observatory.Models.Registry.{Connectivity, FleetAsset, FleetAssetView}
use openclaw_observatory.Storage.Events.Latest.{newest_event, latest_event_up}
use openclaw_observatory.Storage.Events.{EventStore, latest_event, selected, latest_query}
use openclaw_observatory.Exec.{Result-cases, ok}
use openclaw_observatory.World.{World}
use openclaw_observatory.Registry.{
  connectivity_of, mapped, build_view, assemble, system_metrics_event_type,
}
use openclaw_observatory.Offline.{evaluate, judgment}

select-append_other {ℓ} :
    {A : Type ℓ} (p : A → Bool) (xs : List A) (a : A)
    → p a ≡ false
    → select p (xs ++ a ∷ []) ≡ select p xs
select-append_other p [] a h = ground arith
select-append_other p (x ∷ xs) a h = ground (arith, select-append_other p xs a h)

not_selected : (c t : String) (e : Event) → e.event_type ≢ t → selected (latest_query c t) e ≡ false
unfolding selected
not_selected c t e ne = ground (arith, eq_iff e.event_type t)

-- Storing an event of another type does not change which event is the newest.
pub newest_event-append_other :
    (c t : String) (s : EventStore) (e : Event)
    → e.event_type ≢ t
    → newest_event c t (record s { events = s.events ++ e ∷ [] }) ≡ newest_event c t s
newest_event-append_other c t s e ne =
    ap (newest (λ (x : Event). x.received_at))
      (select-append_other (selected (latest_query c t)) s.events e (not_selected c t e ne))

module _ (settings : Settings) (now : ℕ) where
  abbrev pub judged : EventStore → FleetAsset → Connectivity
  judged s asset = (judgment settings now (newest_event asset.fleet_id heartbeat_event_type s)).0

  -- the source timestamp of the newest heartbeat, as a sweep finds it
  abbrev pub last_seen : EventStore → FleetAsset → Option ℕ
  last_seen s asset = (judgment settings now (newest_event asset.fleet_id heartbeat_event_type s)).1

  pub evaluate_up :
      (asset : FleetAsset) (w : World)
      → w.events.fail ≡ false
      → evaluate settings asset.fleet_id now w
        ≡ ok (judged w.events asset, last_seen w.events asset)
  unfolding evaluate
  evaluate_up asset w up =
      ground (arith, latest_event_up asset.fleet_id heartbeat_event_type w.events up)

  built :
      (asset : FleetAsset) (w : World) (v : FleetAssetView)
      → build_view settings now asset w ≡ ok v
      → (hb : Option Event) × (sys : Option Event) × (latest_event asset.fleet_id
            heartbeat_event_type w.events
          ≡ ok hb)
        × (v ≡ assemble settings now asset hb sys)
  unfolding build_view
  built asset w v h =
      elim (Result-cases (latest_event asset.fleet_id heartbeat_event_type w.events)) [
        | inr (x, e) ↦ absurd (ground arith)
        | inl (hb, e) ↦
            elim (Result-cases (latest_event asset.fleet_id system_metrics_event_type w.events)) [
              | inr (x, e') ↦ absurd (ground arith)
              | inl (sys, e') ↦ (hb, sys, e, ground arith)
            ]
      ]

  seen_heartbeat :
      (asset : FleetAsset) (hb sys : Option Event)
      → let v = assemble settings now asset hb sys in
        (v.connectivity ≡ connectivity_of settings now hb)
        × (mapped (λ h. h.timestamp) v.last_heartbeat ≡ mapped (λ e. e.timestamp) hb)
  unfolding assemble
  seen_heartbeat asset none sys = (refl, refl)
  seen_heartbeat asset (some e) sys = (refl, refl)

  -- The two judgments are written twice in the code: by the registry and by the detector.
  judgment-connectivity_of :
      (hb : Option Event)
      → judgment settings now hb ≡ (connectivity_of settings now hb, mapped (λ e. e.timestamp) hb)
  unfolding judgment connectivity_of
  judgment-connectivity_of none = refl
  judgment-connectivity_of (some e) = ground arith

  -- The registry's view and the offline detector judgment alike: where a view is built, the detector
  -- finds the same connectivity and the source timestamp of the same heartbeat.
  pub view_agrees_with_detector :
      (asset : FleetAsset) (w : World) (v : FleetAssetView)
      → build_view settings now asset w ≡ ok v
      → evaluate settings asset.fleet_id now w
        ≡ ok (v.connectivity, mapped (λ h. h.timestamp) v.last_heartbeat)
  unfolding evaluate
  view_agrees_with_detector asset w v h =
      let (hb, sys, e, q) = built asset w v h in
      let (c, t) = seen_heartbeat asset hb sys in
      rw (q, evaluate, e, c, t) (ap ok (judgment-connectivity_of hb))
