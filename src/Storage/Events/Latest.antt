-- ===== src/Storage/Events/Latest.antt =====
-- What `query_events` and `latest_event` promise, over `InMemoryEventStorage`.
use mathlib.Core.Option.{some-injective}
use openclaw_observatory.Prelude.{
  ℕ, ◌≤◌, ◌≡◌, refl, ap, sym, ◌∙◌, String, true, false, Option, some, List, [], ◌∷◌, arith, eq_iff,
  select, take, head?, In, In-nil, In-cons, In-select, select-In, here, there, Bool-cases,
  Option-cases, inl, inr, ltb,
}
use openclaw_observatory.Prelude.Sort.{sort_desc, newest, head?-sort_desc}
use openclaw_observatory.Models.Event.{Event}
use openclaw_observatory.Exec.{ok}
use openclaw_observatory.Storage.Events.{
  EventStore, latest_event, query_events, selected, latest_query,
}

-- The newest stored event of a type for one asset, by ingestion time.
abbrev pub newest_event : String → String → EventStore → Option Event
newest_event collector_id event_type s =
    newest (λ e. e.received_at) (select (selected (latest_query collector_id event_type)) s.events)

head?-take_one {ℓ} : {A : Type ℓ} (xs : List A) → head? (take 1 xs) ≡ head? xs
head?-take_one [] = refl
head?-take_one (x ∷ xs) = refl

pub latest_event_up :
    (c t : String) (s : EventStore) → s.fail ≡ false → latest_event c t s ≡ ok (newest_event c t s)
unfolding latest_event query_events
latest_event_up c t s up = ground (
  arith,
  head?-take_one (sort_desc (λ e. e.received_at) (select (selected (latest_query c t)) s.events)),
  head?-sort_desc (λ e. e.received_at) (select (selected (latest_query c t)) s.events),
)

ltb_le : (a b : ℕ) → ltb a b ≡ true → a ≤ b
ltb_le a b h = ground arith

not_ltb : (a b c : ℕ) → ltb a b ≡ false → c ≤ b → c ≤ a
not_ltb a b c h le = ground arith

module _ {ℓ} {A : Type ℓ} (key : A → ℕ) where
  newest-In : (y : A) (xs : List A) → newest key xs ≡ some y → In y xs
  unfolding newest
  newest-In y [] h = absurd (ground arith)
  newest-In y (z ∷ zs) h = elim (Option-cases (newest key zs)) [
    | inl q ↦ here (sym (some-injective z y (rw q at h)))
    | inr (v, q) ↦ elim (Bool-cases (ltb (key z) (key v))) [
      | inl t ↦ there (newest-In y zs (q ∙ (rw (q, t) at h)))
      | inr f ↦ here (sym (some-injective z y (rw (q, f) at h)))
    ]
  ]

  newest_greatest :
      (x : A) (xs : List A)
      → In x xs
      → (y : A) × (newest key xs ≡ some y) × In y xs × (key x ≤ key y)
  unfolding newest
  newest_greatest x [] m = absurd (In-nil m)
  newest_greatest x (z ∷ zs) m = elim (In-cons m) [
    | inl e ↦ elim (Option-cases (newest key zs)) [
      | inl q ↦ (z, rw q refl, here refl, rw e (omega arith))
      | inr (y, q) ↦ elim (Bool-cases (ltb (key z) (key y))) [
        | inl t ↦ (y, rw (q, t) refl, there (newest-In y zs q), rw e (ltb_le (key z) (key y) t))
        | inr f ↦ (z, rw (q, f) refl, here refl, rw e (omega arith))
      ]
    ]
    | inr n ↦
        let (y, q, i, le) = newest_greatest x zs n in
        elim (Bool-cases (ltb (key z) (key y))) [
          | inl t ↦ (y, rw (q, t) refl, there i, le)
          | inr f ↦ (z, rw (q, f) refl, here refl, not_ltb (key z) (key y) (key x) f le)
        ]
  ]

matching :
    (c t : String) (x : Event)
    → x.collector_id ≡ c
    → x.event_type ≡ t
    → selected (latest_query c t) x ≡ true
unfolding selected
matching c t x p q = ground (arith, eq_iff x.collector_id c, eq_iff x.event_type t)

matched :
    (c t : String) (x : Event)
    → selected (latest_query c t) x ≡ true
    → (x.collector_id ≡ c) × (x.event_type ≡ t)
unfolding selected
matched c t x h = ground (arith, eq_iff x.collector_id c, eq_iff x.event_type t)

-- With the store up and an event of an identity and a type among the stored ones, `latest_event`
-- finds one: a stored event of that identity and type, ingested no earlier than the given one.
pub latest_event_found :
    (c t : String) (s : EventStore) (x : Event)
    → s.fail ≡ false
    → In x s.events
    → x.collector_id ≡ c
    → x.event_type ≡ t
    → (e : Event) × (latest_event c t s ≡ ok (some e))
      × In e s.events
      × (e.collector_id ≡ c)
      × (e.event_type ≡ t)
      × (x.received_at ≤ e.received_at)
latest_event_found c t s x up m p q =
    let chosen = selected (latest_query c t) in
    let (e, found, i, le) =
      newest_greatest (λ (v : Event). v.received_at) x (select chosen s.events)
        (In-select chosen x s.events m (matching c t x p q)) in
    let (stored, good) = select-In chosen e s.events i in
    let (same_id, same_type) = matched c t e good in
    (e, latest_event_up c t s up ∙ ap ok found, stored, same_id, same_type, le)
