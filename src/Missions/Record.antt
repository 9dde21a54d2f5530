-- ===== src/Missions/Record.antt =====
-- The record that `MissionUpdateHandler.apply` writes, against the record that it replaces.
use openclaw_observatory.Prelude.{
  ℕ, ◌≤◌, ◌≡◌, ◌≢◌, ◌∙◌, refl, Bool-cases, String, true, false, Option, none, some, arith, eq_iff,
  ◌==◌, leb, is_some, inl, inr,
}
use openclaw_observatory.Models.Event.{Event}
use openclaw_observatory.Models.Mission.{
  MissionRecord, MissionUpdate, is_valid_transition, state_index,
}
use openclaw_observatory.Models.Mission.Lifecycle.{
  valid_never_regresses, state_index-completed, state_index-lt_six,
}
use openclaw_observatory.Pipeline.Mission.{projected, running_index, next_started, next_completed}

-- The state is one of the lifecycle; the start is known from Running on, the end at Completed.
abbrev pub IsMission : MissionRecord → Type 0
IsMission r =
    (i : ℕ) × (state_index r.state ≡ some i)
    × (is_some r.started_at ≡ leb running_index i)
    × (is_some r.completed_at ≡ leb 5 i)

-- Whether `t` is what `o` holds, if it holds anything.
abbrev pub Keeps : Option ℕ → Option ℕ → Type 0
Keeps none t = Unit
Keeps (some a) t = t ≡ some a

pub Keeps-refl : (t : Option ℕ) → Keeps t t
Keeps-refl none = tt
Keeps-refl (some a) = refl

pub Keeps-trans : (a b c : Option ℕ) → Keeps a b → Keeps b c → Keeps a c
Keeps-trans none b c p q = tt
Keeps-trans (some a) b c p q = Keeps-trans_some a b c p q
  where
    Keeps-trans_some : (a : ℕ) (b c : Option ℕ) → b ≡ some a → Keeps b c → c ≡ some a
    Keeps-trans_some a none c p q = cc
    Keeps-trans_some a (some b) c p q = q ∙ p

-- A later record of the same mission: never an earlier state, and no instant is rewritten.
pub record Extends (r r' : MissionRecord) : Type 0 where
  pub from : ℕ
  pub to : ℕ
  pub from_index : state_index r.state ≡ some from
  pub to_index : state_index r'.state ≡ some to
  pub forward : from ≤ to
  pub created : r'.created_at ≡ r.created_at
  pub started : Keeps r.started_at r'.started_at
  pub completed : Keeps r.completed_at r'.completed_at

index_of_completed : (s : String) → s ≡ "Completed" → state_index s ≡ some 5
unfolding state_index
index_of_completed s e = rw e refl

not_completed : (s : String) → (s == "Completed") ≡ false → state_index s ≢ some 5
not_completed s e h = cc (e, (eq_iff s "Completed").1 (state_index-completed s h))

completed_index : (s : String) (i : ℕ) → state_index s ≡ some i → (s == "Completed") ≡ leb 5 i
completed_index s i h = elim (Bool-cases (s == "Completed")) [
  | inl e ↦ ground (arith, e, index_of_completed s ((eq_iff s "Completed").0 e))
  | inr e ↦ ground (arith, e, not_completed s e, state_index-lt_six s i h)
]

module _ (u : MissionUpdate) (j : ℕ) (event : Event) (at : state_index u.state ≡ some j) where
  pub projected_new-IsMission : IsMission (projected u none j event)
  unfolding projected next_started next_completed
  projected_new-IsMission = (j, at, ground arith, ground (arith, completed_index u.state j at))

  module _ (c : MissionRecord)
      (valid : is_valid_transition (some c.state) u.state u.backfill ≡ true) where
    pub projected-Extends : Extends c (projected u (some c) j event)
    unfolding projected next_started next_completed
    projected-Extends =
        let (i, k, ei, ek, le) = valid_never_regresses c.state u.state u.backfill valid in
        record {
          from = i;
          to = j;
          from_index = ei;
          to_index = at;
          forward = ground (arith, at, ek, le);
          created = refl;
          started = ground arith;
          completed = ground arith;
        }

    pub projected-IsMission : IsMission c → IsMission (projected u (some c) j event)
    unfolding projected next_started next_completed
    projected-IsMission (i', ei', st, co) =
        let (i, k, ei, ek, le) = valid_never_regresses c.state u.state u.backfill valid in
        (
          j,
          at,
          ground (arith, at, ek, le, ei, ei', st),
          ground (arith, at, ek, le, ei, ei', co, completed_index u.state j at),
        )
