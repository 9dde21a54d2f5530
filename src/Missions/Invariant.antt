-- ===== src/Missions/Invariant.antt =====
-- What every sequence of requests keeps of the mission store.
use mathlib.Core.Path.{subst}
use openclaw_observatory.Prelude.{
  ◌≡◌, refl, sym, ◌∙◌, ◌⊎◌, inl, inr, String, if◌then◌else◌, true, List, [], ◌∷◌, some, arith,
  eq_iff, ◌==◌, Bool-cases, Option-cases,
}
use mathlib.Core.Option.{some-injective}
use openclaw_observatory.Prelude.Dict.{lookup, lookup-insert}
use openclaw_observatory.Models.Event.{Event, from_ingest}
use openclaw_observatory.Models.Mission.{MissionRecord}
use openclaw_observatory.Auth.{CollectorPrincipal, authenticate, require_collector}
use openclaw_observatory.Schemas.{Schemas}
use openclaw_observatory.Storage.Keyed.{MissionStore}
use openclaw_observatory.World.{World}
use openclaw_observatory.Pipeline.Mission.{projected}
use openclaw_observatory.Ingest.{ingest_event, post_event}
use openclaw_observatory.Ingest.Serve.{Request, handle, serve}
use openclaw_observatory.Missions.Record.{
  IsMission, Extends, Keeps-refl, Keeps-trans, projected_new-IsMission, projected-IsMission,
  projected-Extends,
}
use openclaw_observatory.Missions.Step.{Write, ingest-Write}

-- Every record is kept under its own id and is well formed.
abbrev pub IsWellFormed : MissionStore → Type 0
IsWellFormed m =
    (k : String) (r : MissionRecord)
    → lookup k m.records ≡ some r
    → IsMission r × (r.mission_id ≡ k)

-- Every record of the first store has a later record in the second.
abbrev pub Later : MissionStore → MissionStore → Type 0
Later m m' =
    (k : String) (r : MissionRecord)
    → lookup k m.records ≡ some r
    → (r' : MissionRecord) × (lookup k m'.records ≡ some r') × Extends r r'

Extends-refl : (r : MissionRecord) → IsMission r → Extends r r
Extends-refl r (i, e, _, _) = record {
  from = i;
  to = i;
  from_index = e;
  to_index = e;
  forward = omega arith;
  created = refl;
  started = Keeps-refl r.started_at;
  completed = Keeps-refl r.completed_at;
}

Extends-trans : {a b c : MissionRecord} → Extends a b → Extends b c → Extends a c
Extends-trans {a} {b} {c} p q = record {
  from = p.from;
  to = q.to;
  from_index = p.from_index;
  to_index = q.to_index;
  forward = ground (arith, p.to_index, q.from_index, p.forward, q.forward);
  created = q.created ∙ p.created;
  started = Keeps-trans a.started_at b.started_at c.started_at p.started q.started;
  completed = Keeps-trans a.completed_at b.completed_at c.completed_at p.completed q.completed;
}

Later-refl : (m : MissionStore) → IsWellFormed m → Later m m
Later-refl m wf k r h = (r, h, Extends-refl r (wf k r h).0)

module _ (schemas : Schemas) where
  -- the record that a write stores, if the mission was known and if it was new
  module _ {m m' : MissionStore} {event : Event} (wr : Write schemas m m' event) where
    abbrev stored : MissionRecord
    stored = projected wr.update (lookup wr.update.mission_id m.records) wr.index event

    stored-IsMission : IsWellFormed m → IsMission stored
    stored-IsMission wf = elim (Option-cases (lookup wr.update.mission_id m.records)) [
      | inl e ↦ rw e (projected_new-IsMission wr.update wr.index event wr.position)
      | inr (c, e) ↦ rw e (
          projected-IsMission wr.update wr.index event wr.position c (rw e at wr.legal)
            (wf wr.update.mission_id c e).0)
    ]

    lookup-written :
        (k : String)
        → lookup k m'.records
          ≡ (if wr.update.mission_id == k then some stored else lookup k m.records)
    lookup-written k = rw wr.written (lookup-insert wr.update.mission_id k stored m.records)

    at_id : (k : String) → (wr.update.mission_id == k) ≡ true → lookup k m'.records ≡ some stored
    at_id k same = ground (arith, lookup-written k, same)

    stored-id : (k : String) → (wr.update.mission_id == k) ≡ true → stored.mission_id ≡ k
    unfolding projected
    stored-id k same = (eq_iff wr.update.mission_id k).0 same

    stored-Extends :
        (k : String) (r : MissionRecord)
        → (wr.update.mission_id == k) ≡ true
        → lookup k m.records ≡ some r
        → Extends r stored
    stored-Extends k r same h =
        let e = rw (← (eq_iff wr.update.mission_id k).0 same) at h in
        rw e (projected-Extends wr.update wr.index event wr.position r (rw e at wr.legal))

    Write-IsWellFormed : IsWellFormed m → IsWellFormed m'
    Write-IsWellFormed wf k r h = elim (Bool-cases (wr.update.mission_id == k)) [
      | inl same ↦
          subst (λ x. IsMission x × (x.mission_id ≡ k))
            (some-injective stored r (sym (at_id k same) ∙ h))
            (stored-IsMission wf, stored-id k same)
      | inr other ↦ wf k r (ground (arith, lookup-written k, other))
    ]

    Write-Later : IsWellFormed m → Later m m'
    Write-Later wf k r h = elim (Bool-cases (wr.update.mission_id == k)) [
      | inl same ↦ (stored, at_id k same, stored-Extends k r same h)
      | inr other ↦ (r, ground (arith, lookup-written k, other), Extends-refl r (wf k r h).0)
    ]

  -- One request, authenticated or not.
  module _ (bindings : List (String × String)) (r : Request) (w : World)
      (wf : IsWellFormed w.missions) where
    abbrev after : MissionStore
    after = (handle schemas bindings r w).missions

    handled :
        (after ≡ w.missions)
        ⊎ ((p : CollectorPrincipal) × (after
              ≡ (ingest_event schemas p r.now r.stamp r.inbound w).1.missions))
    unfolding handle post_event require_collector
    handled = elim (Option-cases (authenticate bindings r.api_key)) [
      | inl e ↦ inl (ground arith)
      | inr (p, e) ↦ inr (p, ground arith)
    ]

    handle-Write :
        (after ≡ w.missions) ⊎ Write schemas w.missions after (from_ingest r.stamp r.inbound)
    handle-Write = elim handled [
      | inl same ↦ inl same
      | inr (p, e) ↦ elim (ingest-Write schemas r.now r.stamp r.inbound w p) [
        | inl same ↦ inl (e ∙ same)
        | inr wr ↦
            inr (subst (λ m. Write schemas w.missions m (from_ingest r.stamp r.inbound)) (sym e) wr)
      ]
    ]

    step-IsWellFormed : IsWellFormed after
    step-IsWellFormed = elim handle-Write [
      | inl same ↦ subst IsWellFormed (sym same) wf
      | inr wr ↦ Write-IsWellFormed wr wf
    ]

    step-Later : Later w.missions after
    step-Later = elim handle-Write [
      | inl same ↦ subst (Later w.missions) (sym same) (Later-refl w.missions wf)
      | inr wr ↦ Write-Later wr wf
    ]

  module _ (bindings : List (String × String)) where
    -- Whatever the requests, accepted or not, every mission record stays well formed: its state is
    -- one of the lifecycle, the start is set exactly from Running on, the end exactly at Completed,
    -- and the record stands under its own id.
    pub serve-IsWellFormed :
        (rs : List Request) (w : World)
        → IsWellFormed w.missions
        → IsWellFormed (serve schemas bindings rs w).missions
    unfolding serve
    serve-IsWellFormed [] w wf = wf
    serve-IsWellFormed (r ∷ rs) w wf =
        serve-IsWellFormed rs (handle schemas bindings r w) (step-IsWellFormed bindings r w wf)

    -- Whatever the requests, a mission record is never dropped, its state never goes back, its
    -- creation time never changes, and a start or end that is set is never rewritten.
    pub serve-Later :
        (rs : List Request) (w : World)
        → IsWellFormed w.missions
        → Later w.missions (serve schemas bindings rs w).missions
    unfolding serve
    serve-Later [] w wf k c h = Later-refl w.missions wf k c h
    serve-Later (r ∷ rs) w wf k c h =
        let (c', h', x) = step-Later bindings r w wf k c h in
        let (d, hd, y) =
          serve-Later rs (handle schemas bindings r w) (step-IsWellFormed bindings r w wf) k c'
            h' in
        (d, hd, Extends-trans x y)
