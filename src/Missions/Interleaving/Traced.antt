-- ===== src/Missions/Interleaving/Traced.antt =====
-- Where a mission record comes from when the handlers of requests interleave.
use mathlib.Core.Path.{subst}
use openclaw_observatory.Prelude.{
  ℕ, ◌≡◌, refl, sym, ◌∙◌, ap, inl, inr, String, Option, some, List, In, arith, Option-cases,
}
use openclaw_observatory.Prelude.Dict.{lookup}
use openclaw_observatory.Models.Event.{Event}
use openclaw_observatory.Models.Mission.{MissionRecord, MissionUpdate, state_index}
use openclaw_observatory.Schemas.{Schemas}
use openclaw_observatory.Storage.Keyed.{MissionStore}
use openclaw_observatory.Pipeline.Mission.{projected, next_started, next_completed}
use openclaw_observatory.Missions.Record.{Keeps, Keeps-refl, Keeps-trans}

-- what a later record of a mission keeps whatever runs in between
pub record SameInstants (r r' : MissionRecord) : Type 0 where
  pub created : r'.created_at ≡ r.created_at
  pub started : Keeps r.started_at r'.started_at
  pub completed : Keeps r.completed_at r'.completed_at

SameInstants-refl : (r : MissionRecord) → SameInstants r r
SameInstants-refl r = record {
  created = refl;
  started = Keeps-refl r.started_at;
  completed = Keeps-refl r.completed_at;
}

SameInstants-trans :
    {a b c : MissionRecord} → SameInstants a b → SameInstants b c → SameInstants a c
SameInstants-trans {a} {b} {c} p q = record {
  created = q.created ∙ p.created;
  started = Keeps-trans a.started_at b.started_at c.started_at p.started q.started;
  completed = Keeps-trans a.completed_at b.completed_at c.completed_at p.completed q.completed;
}

next_started-Keeps : (r : MissionRecord) (i t : ℕ) → Keeps r.started_at (next_started (some r) i t)
unfolding next_started
next_started-Keeps r i t = elim (Option-cases r.started_at) [
  | inl e ↦ subst (λ o. Keeps o (next_started (some r) i t)) (sym e) tt
  | inr (a, e) ↦ subst (λ o. Keeps o (next_started (some r) i t)) (sym e) (ground (arith, e))
]

next_completed-Keeps :
    (r : MissionRecord) (s : String) (t : ℕ) → Keeps r.completed_at (next_completed (some r) s t)
unfolding next_completed
next_completed-Keeps r s t = elim (Option-cases r.completed_at) [
  | inl e ↦ subst (λ o. Keeps o (next_completed (some r) s t)) (sym e) tt
  | inr (a, e) ↦ subst (λ o. Keeps o (next_completed (some r) s t)) (sym e) (ground (arith, e))
]

projected-SameInstants :
    (u : MissionUpdate) (r : MissionRecord) (i : ℕ) (event : Event)
    → SameInstants r (projected u (some r) i event)
unfolding projected
projected-SameInstants u r i event = record {
  created = refl;
  started = next_started-Keeps r i event.timestamp;
  completed = next_completed-Keeps r u.state event.timestamp;
}

-- What is on record of mission `k` is what the store `first` had of it, or comes from that by
-- projecting stored events one after the other.
pub data Traced (schemas : Schemas) (first : MissionStore) (events : List Event) (k : String)
    : Option MissionRecord → Type 0 where
  initial :
      (o : Option MissionRecord) → o ≡ lookup k first.records → Traced schemas first events k o
  follows :
      (o o' : Option MissionRecord) (event : Event) (u : MissionUpdate) (i : ℕ)
      → Traced schemas first events k o
      → In event events
      → schemas.mission_update event.payload ≡ some u
      → u.mission_id ≡ k
      → state_index u.state ≡ some i
      → o' ≡ some (projected u o i event)
      → Traced schemas first events k o'

-- The record is there and has the instants that it had.
abbrev pub Remains : MissionRecord → Option MissionRecord → Type 0
Remains r o = (r' : MissionRecord) × (o ≡ some r') × SameInstants r r'

module _ (schemas : Schemas) (first : MissionStore) where
  pub Traced-mono :
      (events events' : List Event)
      → ((e : Event) → In e events → In e events')
      → (k : String) (o : Option MissionRecord) → Traced schemas first events k o
      → Traced schemas first events' k o
  Traced-mono events events' more k o (initial _ e) = initial o e
  Traced-mono events events' more k o' (follows o _ event u i t m p n x e) =
      follows o o' event u i (Traced-mono events events' more k o t) (more event m) p n x e

  pub Traced-Remains :
      (events : List Event) (k : String) (r : MissionRecord)
      → lookup k first.records ≡ some r
      → (o : Option MissionRecord) → Traced schemas first events k o
      → Remains r o
  Traced-Remains events k r h o (initial _ e) = (r, e ∙ h, SameInstants-refl r)
  Traced-Remains events k r h o' (follows o _ event u i t m p n x e) =
      let (r', q, s) = Traced-Remains events k r h o t in
      (
        projected u (some r') i event,
        e ∙ ap (λ c. some (projected u c i event)) q,
        SameInstants-trans s (projected-SameInstants u r' i event),
      )
