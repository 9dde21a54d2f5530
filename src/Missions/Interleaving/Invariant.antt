-- ===== src/Missions/Interleaving/Invariant.antt =====
-- The invariant of interleaved requests, and what keeps it.
use mathlib.Core.Path.{subst}
use openclaw_observatory.Prelude.{
  ℕ, ◌≡◌, ◌≢◌, refl, sym, ◌∙◌, ap, inl, inr, ◌⊎◌, String, Option, none, some, List, [], ◌∷◌, ◌++◌,
  ◌==◌, All, In, In-append_left, In-append_last, Bool-cases, arith, eq_iff,
}
use openclaw_observatory.Prelude.Dict.{lookup, insert, lookup-insert}
use openclaw_observatory.Exec.{ok}
use openclaw_observatory.Models.Event.{Event, EventIn}
use openclaw_observatory.Models.Mission.{MissionRecord, MissionUpdate, state_index}
use openclaw_observatory.Schemas.{Schemas}
use openclaw_observatory.Storage.Events.{insert_event}
use openclaw_observatory.Storage.Keyed.{MissionStore, upsert_mission}
use openclaw_observatory.World.{World, on_events}
use openclaw_observatory.Pipeline.Heartbeat.{heartbeat_apply}
use openclaw_observatory.Pipeline.Inventory.{inventory_apply}
use openclaw_observatory.Pipeline.Mission.{projected, write_projection}
use openclaw_observatory.Pipeline.Dispatch.{
  Handler, heartbeat_handler, mission_update_handler, host_inventory_handler, handler_apply,
  handler_for, validate, apply,
}
use openclaw_observatory.Pipeline.Frame.{validate-SameStores}
use openclaw_observatory.Missions.Interleaving.{
  Phase, received, validated, stored, looked, State, at,
}
use openclaw_observatory.Missions.Interleaving.Traced.{Traced, follows, Traced-mono}

module _ {A : Type 0} (P Q : A → Type 0) (keep : (a : A) → P a → Q a) where
  All-map : (l : List A) → All P l → All Q l
  All-map [] h = tt
  All-map (a ∷ l) (h, hs) = (keep a h, All-map l hs)

  All-join : (new after : List A) → All Q new → All P after → All Q (new ++ after)
  All-join [] after h hs = All-map after hs
  All-join (a ∷ new) after (h, hn) hs = (h, All-join new after hn hs)

  -- One element of a list is exchanged for others.
  All-exchange :
      (before after : List A) (x : A) (new : List A)
      → (P x → All Q new)
      → All P (before ++ x ∷ after)
      → All Q (before ++ (new ++ after))
  All-exchange [] after x new one (p, ps) = All-join new after (one p) ps
  All-exchange (b ∷ before) after x new one (p, ps) =
      (keep b p, All-exchange before after x new one ps)

pub All-at :
    {A : Type 0} (P : A → Type 0) (before after : List A) (x : A)
    → All P (before ++ x ∷ after)
    → P x
All-at P [] after x (p, ps) = p
All-at P (b ∷ before) after x (p, ps) = All-at P before after x ps

module _ (schemas : Schemas) (first : World) where
  -- What a request that is under way may rely on.
  abbrev pub Sound : List Event → Phase → Type 0
  Sound events (received inbound) = Unit
  Sound events (validated inbound) = Unit
  Sound events (stored event) = In event events
  Sound events (looked update current event) =
      In event events
      × (schemas.mission_update event.payload ≡ some update)
      × Traced schemas first.missions events update.mission_id current

  abbrev pub AllTraced : List Event → MissionStore → Type 0
  AllTraced events m = (k : String) → Traced schemas first.missions events k (lookup k m.records)

  pub record Invariant (s : State) : Type 0 where
    pub registry : s.world.registry ≡ first.registry
    pub events : (e : Event) → In e first.events.events → In e s.world.events.events
    pub traced : AllTraced s.world.events.events s.world.missions
    pub pool : All (Sound s.world.events.events) s.pool

  abbrev pub More : List Event → List Event → Type 0
  More events events' = (e : Event) → In e events → In e events'

  Sound-mono :
      (events events' : List Event)
      → More events events'
      → (p : Phase) → Sound events p
      → Sound events' p
  Sound-mono events events' more (received inbound) h = tt
  Sound-mono events events' more (validated inbound) h = tt
  Sound-mono events events' more (stored event) h = more event h
  Sound-mono events events' more (looked u current event) (m, p, t) =
      (more event m, p, Traced-mono schemas first.missions events events' more _ current t)

  -- A step that writes no mission: some of one request's phase is exchanged.
  pub step_aside :
      (w w' : World) (before after : List Phase) (x : Phase) (new : List Phase)
      → w'.registry ≡ w.registry
      → w'.missions ≡ w.missions
      → More w.events.events w'.events.events
      → (Sound w.events.events x → All (Sound w'.events.events) new)
      → Invariant (at w (before ++ x ∷ after))
      → Invariant (at w' (before ++ (new ++ after)))
  step_aside w w' before after x new r m more one inv = record {
    registry = r ∙ inv.registry;
    events = λ e h. more e (inv.events e h);
    traced = λ k.
        Traced-mono schemas first.missions w.events.events w'.events.events more k
          (lookup k w'.missions.records)
          (subst (λ s. Traced schemas first.missions w.events.events k (lookup k s.records)) (sym m)
            (inv.traced k));
    pool =
        All-exchange (Sound w.events.events) (Sound w'.events.events)
          (Sound-mono w.events.events w'.events.events more) before after x new one inv.pool;
  }

  pub same_events : (w w' : World) → w'.events ≡ w.events → More w.events.events w'.events.events
  same_events w w' e x h = subst (λ s. In x s.events) (sym e) h

  pub validate-Invariant :
      (w : World) (before after : List Phase) (inbound : EventIn) (now : ℕ) (new : List Phase)
      → All (Sound (validate schemas now inbound w).1.events.events) new
      → Invariant (at w (before ++ received inbound ∷ after))
      → Invariant (at (validate schemas now inbound w).1 (before ++ (new ++ after)))
  validate-Invariant w before after inbound now new sound =
      let same = validate-SameStores schemas now inbound w in
      step_aside w (validate schemas now inbound w).1 before after (received inbound) new
        same.registry same.missions (same_events w (validate schemas now inbound w).1 same.events)
        (λ _. sound)

  abbrev pub inserted : Event → World → World
  inserted event w = (on_events (insert_event event) w).1

  inserted-More :
      (event : Event) (w : World) → More w.events.events (inserted event w).events.events
  unfolding insert_event
  inserted-More event w e m = elim (Bool-cases w.events.fail) [
    | inl down ↦ rw down m
    | inr up ↦ rw up (In-append_left (event ∷ []) m)
  ]

  pub inserted_there :
      (event : Event) (w : World)
      → (on_events (insert_event event) w).0 ≡ ok tt
      → In event (inserted event w).events.events
  unfolding insert_event
  inserted_there event w h = elim (Bool-cases w.events.fail) [
    | inl down ↦ absurd (ground (arith, down, h))
    | inr up ↦ rw up (In-append_last event w.events.events)
  ]

  pub insert-Invariant :
      (w : World) (before after : List Phase) (x : Phase) (event : Event) (new : List Phase)
      → All (Sound (inserted event w).events.events) new
      → Invariant (at w (before ++ x ∷ after))
      → Invariant (at (inserted event w) (before ++ (new ++ after)))
  unfolding insert_event
  insert-Invariant w before after x event new sound =
      step_aside w (inserted event w) before after x new (ground arith) (ground arith)
        (inserted-More event w) (λ _. sound)

  handler_apply-missions :
      (h : Option Handler) (event : Event) (w : World)
      → h ≢ some mission_update_handler
      → (handler_apply schemas h event w).1.missions ≡ w.missions
  unfolding handler_apply heartbeat_apply inventory_apply
  handler_apply-missions none event w ne = refl
  handler_apply-missions (some heartbeat_handler) event w ne = ground arith
  handler_apply-missions (some host_inventory_handler) event w ne = ground arith
  handler_apply-missions (some mission_update_handler) event w ne = absurd (ne refl)

  pub apply-missions :
      (event : Event) (w : World)
      → handler_for event.event_type ≢ some mission_update_handler
      → (apply schemas event w).1.missions ≡ w.missions
  unfolding apply
  apply-missions event w = handler_apply-missions (handler_for event.event_type) event w

  -- what the second half of `apply` does to the stores
  pub written :
      (u : MissionUpdate) (current : Option MissionRecord) (event : Event) (o : Option ℕ)
      (w : World)
      → let w' = (write_projection u current event o w).1 in
        (w'.registry ≡ w.registry)
        × (w'.events ≡ w.events)
        × ((w'.missions ≡ w.missions)
            ⊎ ((i : ℕ) × (o ≡ some i)
                × (w'.missions.records
                    ≡ insert u.mission_id (projected u current i event) w.missions.records)))
  unfolding write_projection upsert_mission projected
  written u current event none w = (refl, refl, inl refl)
  written u current event (some i) w = elim (Bool-cases w.missions.fail) [
    | inl down ↦ (ground (arith, down), ground (arith, down), inl (ground (arith, down)))
    | inr up ↦ (ground (arith, up), ground (arith, up), inr (i, refl, ground (arith, up)))
  ]

  pub write-AllTraced :
      (events : List Event) (m m' : MissionStore) (u : MissionUpdate)
      (current : Option MissionRecord) (event : Event) (i : ℕ)
      → AllTraced events m
      → Sound events (looked u current event)
      → state_index u.state ≡ some i
      → m'.records ≡ insert u.mission_id (projected u current i event) m.records
      → AllTraced events m'
  write-AllTraced events m m' u current event i all (m_in, p, t) n w k =
      let new = projected u current i event in
      let found = ap (lookup k) w ∙ lookup-insert u.mission_id k new m.records in
      elim (Bool-cases (u.mission_id == k)) [
        | inl e ↦
            let same = (eq_iff u.mission_id k).0 e in
            follows current (lookup k m'.records) event u i
              (subst (λ j. Traced schemas first.missions events j current) same t) m_in p same n
              (found ∙ (rw e refl))
        | inr d ↦ subst (Traced schemas first.missions events k) (sym (found ∙ (rw d refl))) (all k)
      ]
