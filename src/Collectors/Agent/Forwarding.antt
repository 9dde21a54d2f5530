-- ===== src/Collectors/Agent/Forwarding.antt =====
-- What is forwarded, and what is not.
use openclaw_observatory.Prelude.{
  ◌≡◌, ◌≢◌, ◌⊎◌, ◌∙◌, sym, refl, ap, String, true, Option, none, some, List, [], ◌∷◌, ◌++◌, All,
  arith, eq_iff, eq_refl, ◌==◌, Bool-cases, Option-cases, inl, inr, if◌then◌else◌,
}
use openclaw_observatory.Prelude.Dict.{lookup, lookup-insert}
use openclaw_observatory.Json.{Fields}
use openclaw_observatory.Collectors.Runner.{EventTuple}
use openclaw_observatory.Collectors.Agent.{
  Submitted, text_at, is_text, needs_backfill, update_event, forward, cons_event,
  produce_mission_updates,
}

-- An entry about which there is nothing to tell: it is malformed, or its state was submitted last.
abbrev pub Settled : Submitted → Fields → Type 0
Settled s u =
    (text_at "mission_id" u ≡ none)
    ⊎ ((text_at "state" u ≡ none)
        ⊎ ((id : String) × (state : String) × (text_at "mission_id" u ≡ some id)
            × (text_at "state" u ≡ some state)
            × (lookup id s ≡ some state)))

Settled-quiet : (s : Submitted) (u : Fields) → Settled s u → forward s u ≡ (none, s)
unfolding forward
Settled-quiet s u (inl e) = ground (arith, e)
Settled-quiet s u (inr (inl e)) = elim (Option-cases (text_at "mission_id" u)) [
  | inl n ↦ ground (arith, n)
  | inr (id, i) ↦ ground (arith, i, e)
]
Settled-quiet s u (inr (inr (id, state, i, e, l))) = ground (arith, i, e, l, eq_refl state)

last_submitted : (o : Option String) (state : String) → is_text o state ≡ true → o ≡ some state
last_submitted none state h = absurd (ground arith)
last_submitted (some a) state h = ap some ((eq_iff a state).0 h)

-- After an entry, its mission is on record with its state, and no other mission is touched.
forward-lookup :
    (s : Submitted) (u : Fields) (id state k : String)
    → text_at "mission_id" u ≡ some id
    → text_at "state" u ≡ some state
    → lookup k (forward s u).1 ≡ (if id == k then some state else lookup k s)
unfolding forward
forward-lookup s u id state k i e = elim (Bool-cases (is_text (lookup id s) state)) [
  | inl same ↦
      let l = last_submitted (lookup id s) state same in
      elim (Bool-cases (id == k)) [
        | inl t ↦
            let q = (eq_iff id k).0 t in ground (arith, i, e, same, t, ap (λ j. lookup j s) q, l)
        | inr f ↦ ground (arith, i, e, same, f)
      ]
  | inr new ↦ ground (arith, i, e, new, lookup-insert id k state s)
]

forward_malformed :
    (s : Submitted) (u : Fields)
    → (text_at "mission_id" u ≡ none) ⊎ (text_at "state" u ≡ none)
    → forward s u ≡ (none, s)
forward_malformed s u (inl e) = Settled-quiet s u (inl e)
forward_malformed s u (inr e) = Settled-quiet s u (inr (inl e))

-- Two entries are of different missions, if both name one.
abbrev pub Apart : Fields → Fields → Type 0
Apart u v = (text_at "mission_id" u ≡ none) ⊎ (text_at "mission_id" v ≢ text_at "mission_id" u)

abbrev pub DistinctMissions : List Fields → Type 0
DistinctMissions [] = Unit
DistinctMissions (u ∷ us) = All (λ v. Apart u v) us × DistinctMissions us

other_same :
    (s : Submitted) (v : Fields) (id : String)
    → text_at "mission_id" v ≢ some id
    → lookup id (forward s v).1 ≡ lookup id s
other_same s v id ne = elim (Option-cases (text_at "mission_id" v)) [
  | inl n ↦ rw (forward_malformed s v (inl n))
  | inr (j, i) ↦ elim (Option-cases (text_at "state" v)) [
    | inl n ↦ rw (forward_malformed s v (inr n))
    | inr (st, e) ↦ elim (Bool-cases (j == id)) [
      | inl t ↦ absurd (ne (i ∙ ap some ((eq_iff j id).0 t)))
      | inr f ↦ forward-lookup s v j st id i e ∙ (rw f refl)
    ]
  ]
]

forward_settles : (s : Submitted) (u : Fields) → Settled (forward s u).1 u
forward_settles s u = elim (Option-cases (text_at "mission_id" u)) [
  | inl n ↦ inl n
  | inr (id, i) ↦ elim (Option-cases (text_at "state" u)) [
    | inl n ↦ inr (inl n)
    | inr (state, e) ↦
        inr (inr (id, state, i, e, forward-lookup s u id state id i e ∙ (rw (eq_refl id) refl)))
  ]
]

Settled-kept : (s : Submitted) (u v : Fields) → Apart u v → Settled s u → Settled (forward s v).1 u
Settled-kept s u v apart (inl e) = inl e
Settled-kept s u v apart (inr (inl e)) = inr (inl e)
Settled-kept s u v (inl n) (inr (inr (id, state, i, e, l))) = absurd (cc (n, i))
Settled-kept s u v (inr ne) (inr (inr (id, state, i, e, l))) =
    inr (inr (id, state, i, e, other_same s v id (λ q. ne (q ∙ sym i)) ∙ l))

pass_keeps :
    (s : Submitted) (u : Fields) (vs : List Fields)
    → All (λ v. Apart u v) vs
    → Settled s u
    → Settled (produce_mission_updates vs s).1 u
unfolding produce_mission_updates
pass_keeps s u [] apart settled = settled
pass_keeps s u (v ∷ vs) (a, apart) settled =
    pass_keeps (forward s v).1 u vs apart (Settled-kept s u v a settled)

pass_settles :
    (s : Submitted) (us : List Fields)
    → DistinctMissions us
    → All (λ u. Settled (produce_mission_updates us s).1 u) us
unfolding produce_mission_updates
pass_settles s [] distinct = tt
pass_settles s (u ∷ us) (apart, distinct) = (
  pass_keeps (forward s u).1 u us apart (forward_settles s u),
  pass_settles (forward s u).1 us distinct,
)

Settled-pass :
    (s : Submitted) (us : List Fields)
    → All (λ u. Settled s u) us
    → produce_mission_updates us s ≡ ([], s)
unfolding produce_mission_updates
Settled-pass s [] settled = refl
Settled-pass s (u ∷ us) (x, settled) =
    ground (arith, Settled-quiet s u x, Settled-pass s us settled)

-- What an entry is owed when `s` was submitted before: an event if it names a mission and a state
-- which is not the one submitted last.
abbrev pub due : Submitted → Fields → List EventTuple
due s u = elim (text_at "mission_id" u) [
  | none ↦ []
  | some id ↦ elim (text_at "state" u) [
    | none ↦ []
    | some state ↦ if is_text (lookup id s) state then [] else update_event s id state u ∷ []
  ]
]

abbrev pub all_due : Submitted → List Fields → List EventTuple
all_due s [] = []
all_due s (u ∷ us) = due s u ++ all_due s us

forward-due :
    (s : Submitted) (u : Fields) (es : List EventTuple)
    → cons_event (forward s u).0 es ≡ due s u ++ es
unfolding forward
forward-due s u es = elim (Option-cases (text_at "mission_id" u)) [
  | inl n ↦ ground (arith, n)
  | inr (id, i) ↦ elim (Option-cases (text_at "state" u)) [
    | inl n ↦ ground (arith, i, n)
    | inr (state, e) ↦ elim (Bool-cases (is_text (lookup id s) state)) [
      | inl told ↦ ground (arith, i, e, told)
      | inr news ↦ ground (arith, i, e, news)
    ]
  ]
]

due_same :
    (s s' : Submitted) (u : Fields)
    → ((id : String) → text_at "mission_id" u ≡ some id → lookup id s' ≡ lookup id s)
    → due s' u ≡ due s u
unfolding update_event needs_backfill
due_same s s' u same = elim (Option-cases (text_at "mission_id" u)) [
  | inl n ↦ ground (arith, n)
  | inr (id, i) ↦ elim (Option-cases (text_at "state" u)) [
    | inl n ↦ ground (arith, i, n)
    | inr (state, e) ↦ ground (arith, i, e, same id i)
  ]
]

unmoved :
    (s : Submitted) (u v : Fields) (id : String)
    → Apart v u
    → text_at "mission_id" u ≡ some id
    → lookup id (forward s v).1 ≡ lookup id s
unmoved s u v id (inl n) i = rw (forward_malformed s v (inl n))
unmoved s u v id (inr ne) i = other_same s v id (λ q. ne (i ∙ sym q))

all_due_same :
    (s : Submitted) (v : Fields) (us : List Fields)
    → All (λ u. Apart v u) us
    → all_due (forward s v).1 us ≡ all_due s us
all_due_same s v [] apart = refl
all_due_same s v (u ∷ us) (a, apart) =
    rw (due_same s (forward s v).1 u (λ id. unmoved s u v id a), all_due_same s v us apart) refl

pass_emits :
    (s : Submitted) (us : List Fields)
    → DistinctMissions us
    → (produce_mission_updates us s).0 ≡ all_due s us
unfolding produce_mission_updates
pass_emits s [] distinct = refl
pass_emits s (u ∷ us) (apart, distinct) =
    forward-due s u _
    ∙ ap (λ es. due s u ++ es) (pass_emits (forward s u).1 us distinct ∙ all_due_same s u us apart)

-- A state file that names each mission once is forwarded exactly once: the first reading gives, in the
-- order of the file, one event for each entry with a mission and a state that is not the one submitted
-- of that mission before, and none for the others; reading it again, unchanged, forwards nothing and
-- remembers nothing new.
pub forwarded_once :
    (s : Submitted) (us : List Fields)
    → DistinctMissions us
    → let (es, s') = produce_mission_updates us s in
      (es ≡ all_due s us) × (produce_mission_updates us s' ≡ ([], s'))
forwarded_once s us distinct = (
  pass_emits s us distinct,
  Settled-pass (produce_mission_updates us s).1 us (pass_settles s us distinct),
)
