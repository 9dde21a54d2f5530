-- ===== src/Auth/Configured.antt =====
-- Keys that the configuration accepts.
use mathlib.Core.Option.{some-injective}
use openclaw_observatory.Prelude.{
  ◌≡◌, ◌≢◌, ◌∙◌, sym, ap, String, true, false, ◌==◌, nat_eq, Option, some, List, [], ◌∷◌, length,
  select, arith, eq_iff, In, In-nil, In-cons, select-In, Bool-cases, inl, inr,
}
use openclaw_observatory.Prelude.Dict.{Dict, lookup, insert, lookup-insert, lookup-insert_self}
use openclaw_observatory.Config.Keys.{is_complete, is_conflict, keys_unique, checked_bindings}
use openclaw_observatory.Auth.{authenticate}
use openclaw_observatory.Auth.Binding.{BoundTo, authenticate_complete}

no_conflict : (o : Option String) (c i : String) → o ≡ some c → is_conflict o i ≡ false → i ≡ c
no_conflict o c i e h = sym ((eq_iff c i).0 (ground (arith, e, h)))

unique_step :
    (seen : Dict String) (i j : String) (rest : List (String × String))
    → keys_unique seen ((i, j) ∷ rest) ≡ true
    → (is_conflict (lookup j seen) i ≡ false) × (keys_unique (insert j i seen) rest ≡ true)
unfolding keys_unique
unique_step seen i j rest h = elim (Bool-cases (is_conflict (lookup j seen) i)) [
  | inl c ↦ absurd (ground (arith, c))
  | inr c ↦ (c, ground (arith, c))
]

seen_bound :
    (seen : Dict String) (bs : List (String × String)) (k c : String)
    → keys_unique seen bs ≡ true
    → lookup k seen ≡ some c
    → BoundTo k c bs
seen_bound seen [] k c h e = tt
seen_bound seen ((i, j) ∷ rest) k c h e =
    let (ok, next) = unique_step seen i j rest h in
    elim (Bool-cases (k == j)) [
      | inl t ↦
          let same =
            no_conflict (lookup j seen) c i (ap (λ x. lookup x seen) (sym ((eq_iff k j).0 t)) ∙ e)
              ok in
          (
            inr same,
            seen_bound (insert j i seen) rest k c next (
                ap (λ x. lookup x (insert j i seen)) ((eq_iff k j).0 t)
                ∙ lookup-insert_self j i seen
                ∙ ap some same),
          )
      | inr f ↦ (
        inl f,
        seen_bound (insert j i seen) rest k c next
            (ground (arith, lookup-insert j k i seen, eq_iff j k, eq_iff k j, f, e)),
      )
    ]

bound_one :
    (k c id : String) (bs : List (String × String)) → BoundTo k c bs → In (id, k) bs → id ≡ c
bound_one k c id [] b m = absurd (In-nil m)
bound_one k c id ((i, j) ∷ rest) (h, b) m = elim (In-cons m) [
  | inr n ↦ bound_one k c id rest b n
  | inl e ↦ elim h [
    | inr same ↦ ap (λ p. p.0) e ∙ same
    | inl differs ↦ absurd (ground (arith, differs, eq_iff k j, ap (λ p. p.1) e))
  ]
]

unique_bound :
    (seen : Dict String) (bs : List (String × String)) (k id : String)
    → keys_unique seen bs ≡ true
    → In (id, k) bs
    → BoundTo k id bs
unique_bound seen [] k id h m = absurd (In-nil m)
unique_bound seen ((i, j) ∷ rest) k id h m =
    let (ok, next) = unique_step seen i j rest h in
    let own = lookup-insert_self j i seen in
    elim (In-cons m) [
      | inl e ↦
          let kj = ap (λ p. p.1) e in
          let ii = ap (λ p. p.0) e in
          (
            inr (sym ii),
            seen_bound (insert j i seen) rest k id next
                (ap (λ x. lookup x (insert j i seen)) kj ∙ own ∙ ap some (sym ii)),
          )
      | inr n ↦ (
        elim (Bool-cases (k == j)) [
          | inr f ↦ inl f
          | inl t ↦ inr (
              sym (
                bound_one k i id rest
                  (seen_bound (insert j i seen) rest k i next
                    (ap (λ x. lookup x (insert j i seen)) ((eq_iff k j).0 t) ∙ own))
                  n))
        ],
        unique_bound (insert j i seen) rest k id next n,
      )
    ]

checked_split :
    (pairs bindings : List (String × String))
    → checked_bindings pairs ≡ some bindings
    → (select is_complete pairs ≡ bindings) × (keys_unique [] bindings ≡ true)
unfolding checked_bindings
checked_split pairs bindings h =
    elim (Bool-cases (nat_eq (length pairs) (length (select is_complete pairs)))) [
      | inr f ↦ absurd (ground (arith, f))
      | inl t ↦ elim (Bool-cases (keys_unique [] (select is_complete pairs))) [
        | inr f ↦ absurd (ground (arith, t, f))
        | inl u ↦
            let q = some-injective (select is_complete pairs) bindings (rw (t, u) at h) in
            (q, ap (keys_unique []) (sym q) ∙ u)
      ]
    ]

complete_key : (id key : String) → is_complete (id, key) ≡ true → key ≢ ""
complete_key id key h e = ground (arith, eq_iff key "")

-- Each key of a configuration that passes its checks authenticates, and as the very identity that it
-- is bound to.
pub configured_key_authenticates :
    (pairs bindings : List (String × String)) (id key : String)
    → checked_bindings pairs ≡ some bindings
    → In (id, key) bindings
    → authenticate bindings (some key) ≡ some (record { method = "api_key"; subject = id })
configured_key_authenticates pairs bindings id key h m =
    let (q, unique) = checked_split pairs bindings h in
    let (_, complete) = select-In is_complete (id, key) pairs (rw q m) in
    authenticate_complete bindings key id (complete_key id key complete) m
      (unique_bound [] bindings key id unique m)
