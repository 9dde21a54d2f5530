-- ===== src/Models/Mission/Lifecycle.antt =====
-- The lifecycle graph as a relation between positions, which `is_valid_transition` decides.
use openclaw_observatory.Prelude.{
  ℕ, ◌+◌, ◌≤◌, ◌<◌, ◌≡◌, refl, String, Bool, true, false, Option, none, some, ◌↔◌, ◌⊎◌, arith,
  eq_iff, inl, inr,
}
use openclaw_observatory.Models.Mission.{
  state_index, is_valid_transition, transition_allowed, delta_allowed,
}

-- `Moves backfill from to`: the edges of the documented graph. `none` stands for a mission that the
-- backend does not know.
pub data Moves : Bool → Option ℕ → ℕ → Type 0 where
  enter : {b : Bool} {j : ℕ} → j ≡ 0 → Moves b none j
  import_at : {b : Bool} {j : ℕ} → b ≡ true → Moves b none j
  refresh : {b : Bool} {i j : ℕ} → j ≡ i → Moves b (some i) j
  advance : {b : Bool} {i j : ℕ} → j ≡ i + 1 → Moves b (some i) j
  jump : {b : Bool} {i j : ℕ} → b ≡ true → i ≤ j → Moves b (some i) j

pub state_index-lt_six : (s : String) (i : ℕ) → state_index s ≡ some i → i < 6
unfolding state_index
state_index-lt_six s i h = ground arith

-- Only the text "Completed" has the last position.
pub state_index-completed : (s : String) → state_index s ≡ some 5 → s ≡ "Completed"
unfolding state_index
state_index-completed s h = ground (arith, eq_iff "Completed" s)

one_step : (i j : ℕ) → delta_allowed false i j ≡ true → (j ≡ i) ⊎ (j ≡ i + 1)
one_step i j h = ground arith

delta_allowed-Moves : (b : Bool) (i j : ℕ) → delta_allowed b i j ≡ true → Moves b (some i) j
delta_allowed-Moves true i j h = jump refl (ground arith)
delta_allowed-Moves false i j h = elim (one_step i j h) [ inl e ↦ refresh e | inr e ↦ advance e ]

Moves-delta_allowed : {b : Bool} {i j : ℕ} → Moves b (some i) j → delta_allowed b i j ≡ true
Moves-delta_allowed {b} (refresh e) = ground arith
Moves-delta_allowed {b} (advance e) = ground arith
Moves-delta_allowed (jump e le) = ground arith

entry : (b : Bool) (j : ℕ) → transition_allowed none b j ≡ true → (j ≡ 0) ⊎ (b ≡ true)
unfolding transition_allowed
entry b j h = ground arith

-- The transition is an edge of the graph between the positions of the two states.
pub data IsLegal (b : Bool) (new : String) : Option String → Type 0 where
  first : (j : ℕ) → state_index new ≡ some j → Moves b none j → IsLegal b new none
  next :
      {c : String} (i j : ℕ)
      → state_index c ≡ some i
      → state_index new ≡ some j
      → Moves b (some i) j
      → IsLegal b new (some c)

valid_new :
    (current : Option String) (new : String) (b : Bool)
    → is_valid_transition current new b ≡ true
    → (j : ℕ) × (state_index new ≡ some j) × (transition_allowed current b j ≡ true)
unfolding is_valid_transition
valid_new current new b h = ground arith

allowed_known :
    (c : String) (b : Bool) (j : ℕ)
    → transition_allowed (some c) b j ≡ true
    → (i : ℕ) × (state_index c ≡ some i) × (delta_allowed b i j ≡ true)
unfolding transition_allowed
allowed_known c b j h = ground arith

valid-IsLegal :
    (current : Option String) (new : String) (b : Bool)
    → is_valid_transition current new b ≡ true
    → IsLegal b new current
valid-IsLegal none new b h =
    let (j, e, a) = valid_new none new b h in
    elim (entry b j a) [ inl z ↦ first j e (enter z) | inr t ↦ first j e (import_at t) ]
valid-IsLegal (some c) new b h =
    let (j, e, a) = valid_new (some c) new b h in
    let (i, ec, d) = allowed_known c b j a in next i j ec e (delta_allowed-Moves b i j d)

IsLegal-valid :
    {current : Option String} {new : String} {b : Bool}
    → IsLegal b new current
    → is_valid_transition current new b ≡ true
unfolding is_valid_transition transition_allowed
IsLegal-valid (first j e (enter z)) = ground arith
IsLegal-valid (first j e (import_at t)) = ground arith
IsLegal-valid {b = b} (next i j ec e m) = ground (arith, Moves-delta_allowed m)

-- A transition is accepted exactly when it is an edge of the documented graph: entry at Created, a
-- repeat, one step forward, and under backfill any entry and any jump forward.
pub is_valid_transition_iff :
    (current : Option String) (new : String) (b : Bool)
    → (is_valid_transition current new b ≡ true) ↔ IsLegal b new current
is_valid_transition_iff current new b = (valid-IsLegal current new b, IsLegal-valid)

Moves-le : {b : Bool} {i j : ℕ} → Moves b (some i) j → i ≤ j
Moves-le (refresh e) = omega arith
Moves-le (advance e) = omega arith
Moves-le (jump _ le) = le

IsLegal-le :
    {b : Bool} {c new : String}
    → IsLegal b new (some c)
    → (i j : ℕ) × (state_index c ≡ some i) × (state_index new ≡ some j) × (i ≤ j)
IsLegal-le (next i j ec e m) = (i, j, ec, e, Moves-le m)

-- In both modes an accepted transition of a known mission never goes back.
pub valid_never_regresses :
    (c new : String) (b : Bool)
    → is_valid_transition (some c) new b ≡ true
    → (i j : ℕ) × (state_index c ≡ some i) × (state_index new ≡ some j) × (i ≤ j)
valid_never_regresses c new b h = IsLegal-le (valid-IsLegal (some c) new b h)

-- In both modes the only accepted transition out of Completed is the repeat.
pub completed_is_terminal :
    (new : String) (b : Bool)
    → is_valid_transition (some "Completed") new b ≡ true
    → new ≡ "Completed"
unfolding state_index
completed_is_terminal new b h =
    let (i, j, ec, e, le) = valid_never_regresses "Completed" new b h in
    state_index-completed new (ground (arith, e, ec, le, state_index-lt_six new j e))
