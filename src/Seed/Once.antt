-- ===== src/Seed/Once.antt =====
-- What seeding does to a registry.
use openclaw_observatory.Prelude.{
  ℕ, suc, ◌≡◌, ◌∙◌, ap, refl, String, true, false, List, [], ◌∷◌, Option, none, some, arith, eq_iff,
  Bool-cases, Option-cases, inl, inr, ◌⊎◌,
}
use openclaw_observatory.Prelude.Dict.{lookup, insert, lookup-insert, lookup-insert_self}
use openclaw_observatory.Models.Registry.{FleetAsset, service_relationships}
use openclaw_observatory.Storage.Keyed.{RegistryStore, get_asset, upsert_asset}
use openclaw_observatory.Exec.{Result, ok, Result-cases}
use openclaw_observatory.Seed.{
  Seed, host_missing, create, seed_loop, seed_registry, rpsg01, a001, obln01, seed_assets,
}

create_effect :
    (a : FleetAsset) (s : RegistryStore)
    → ((create a s).1 ≡ s) ⊎ ((create a s).1 ≡ record s { records = insert a.fleet_id a s.records })
unfolding create upsert_asset host_missing
create_effect a s = elim (Bool-cases (service_relationships a)) [
  | inr f ↦ inl (ground (arith, f))
  | inl t ↦ elim (Result-cases (host_missing a.host_fleet_id s)) [
    | inr (e, q) ↦ inl (ground (arith, t, q))
    | inl (b, q) ↦ elim (Bool-cases b) [
      | inl missing ↦ inl (ground (arith, t, q, missing))
      | inr known ↦ elim (Bool-cases s.fail) [
        | inl down ↦ inl (ground (arith, t, q, known, down))
        | inr up ↦ inr (ground (arith, t, q, known, up))
      ]
    ]
  ]
]

create_keeps :
    (a : FleetAsset) (s : RegistryStore) (k : String) (r : FleetAsset)
    → lookup a.fleet_id s.records ≡ none
    → lookup k s.records ≡ some r
    → lookup k (create a s).1.records ≡ some r
create_keeps a s k r new h = elim (create_effect a s) [
  | inl e ↦ ap (λ (x : RegistryStore). lookup k x.records) e ∙ h
  | inr e ↦
      ap (λ (x : RegistryStore). lookup k x.records) e
      ∙ ground (arith, lookup-insert a.fleet_id k a s.records, eq_iff a.fleet_id k)
]

found :
    (id : String) (s : RegistryStore) (o : Option FleetAsset)
    → get_asset id s ≡ ok o
    → lookup id s.records ≡ o
unfolding get_asset
found id s o h = ground arith

-- One entry: what is registered under its id is kept.
seed_loop_keeps :
    (clock : ℕ → ℕ) (n : ℕ) (entries : List Seed) (s : RegistryStore) (k : String) (r : FleetAsset)
    → lookup k s.records ≡ some r
    → lookup k (seed_loop clock n entries s).1.records ≡ some r
unfolding seed_loop
seed_loop_keeps clock n [] s k r h = h
seed_loop_keeps clock n (entry ∷ rest) s k r h =
    let a : FleetAsset = entry (clock n) in
    let at_k = λ (p : Result ℕ × RegistryStore). lookup k p.1.records in
    elim (Result-cases (get_asset a.fleet_id s)) [
      | inr (e, q) ↦ rw (seed_loop, q) h
      | inl (o, q) ↦ elim (Option-cases o) [
        | inr (x, known) ↦ rw (seed_loop, q, known) (seed_loop_keeps clock n rest s k r h)
        | inl new ↦
            let kept = create_keeps a s k r (found a.fleet_id s o q ∙ new) h in
            elim (Result-cases (create a s).0) [
              | inr (e, c) ↦ rw (seed_loop, q, new, c) kept
              | inl (u, c) ↦
                  rw (seed_loop, q, new, c)
                    (seed_loop_keeps clock (suc n) rest (create a s).1 k r kept)
            ]
      ]
    ]

-- Seeding never changes a registered asset, whether it succeeds or raises.
pub seed_keeps_registered :
    (clock : ℕ → ℕ) (s : RegistryStore) (k : String) (r : FleetAsset)
    → lookup k s.records ≡ some r
    → lookup k (seed_registry clock s).1.records ≡ some r
unfolding seed_registry
seed_keeps_registered clock s k r h = seed_loop_keeps clock 0 seed_assets s k r h

abbrev Registered : String → RegistryStore → Type 0
Registered id s = (x : FleetAsset) × (lookup id s.records ≡ some x)

-- The loop is past one entry, which is registered now.
record Past (clock : ℕ → ℕ) (n : ℕ) (entry : Seed) (rest : List Seed) (s : RegistryStore)
    : Type 0 where
  count : ℕ
  store : RegistryStore
  goes_on : seed_loop clock n (entry ∷ rest) s ≡ seed_loop clock count rest store
  up : store.fail ≡ false
  registered : Registered (entry (clock n)).fleet_id store
  keeps : (k : String) → Registered k s → Registered k store

Past-entry :
    (clock : ℕ → ℕ) (n : ℕ) (entry : Seed) (rest : List Seed) (s : RegistryStore)
    → s.fail ≡ false
    → service_relationships (entry (clock n)) ≡ true
    → host_missing (entry (clock n)).host_fleet_id s ≡ ok false
    → Past clock n entry rest s
unfolding seed_loop create get_asset upsert_asset
Past-entry clock n entry rest s up valid hosted =
    let a : FleetAsset = entry (clock n) in
    elim (Option-cases (lookup a.fleet_id s.records)) [
      | inr (x, known) ↦ record {
        count = n;
        store = s;
        goes_on = ground (arith, up, known);
        up = up;
        registered = (x, known);
        keeps = λ k r. r;
      }
      | inl new ↦
          let s' : RegistryStore = record s { records = insert a.fleet_id a s.records } in
          record {
            count = suc n;
            store = s';
            goes_on = ground (arith, valid, hosted, up, new);
            up = up;
            registered = (a, lookup-insert_self a.fleet_id a s.records);
            keeps = λ k (r, h). (
              r,
              ground (arith, lookup-insert a.fleet_id k a s.records, eq_iff a.fleet_id k, h, new),
            );
          }
    ]

hosted_by :
    (id : String) (s : RegistryStore)
    → s.fail ≡ false
    → Registered id s
    → host_missing (some id) s ≡ ok false
unfolding host_missing get_asset
hosted_by id s up (x, h) = rw (up, h) refl

-- With the store up, an empty or half-seeded registry is completed: seeding succeeds, and each of
-- the three assets is registered afterwards.
pub seed_registers_all :
    (clock : ℕ → ℕ) (s : RegistryStore)
    → s.fail ≡ false
    → let (r, s') = seed_registry clock s in
      ((n : ℕ) × (r ≡ ok n))
      × ((x : FleetAsset) × (lookup "RPSG01" s'.records ≡ some x))
      × ((x : FleetAsset) × (lookup "A001" s'.records ≡ some x))
      × ((x : FleetAsset) × (lookup "OBLN01" s'.records ≡ some x))
unfolding seed_registry seed_loop host_missing service_relationships
seed_registers_all clock s up =
    let p = Past-entry clock 0 rpsg01 (a001 ∷ obln01 ∷ []) s up refl refl in
    let q =
      Past-entry clock p.count a001 (obln01 ∷ []) p.store p.up refl
        (hosted_by "RPSG01" p.store p.up p.registered) in
    let host = q.keeps "RPSG01" p.registered in
    let r =
      Past-entry clock q.count obln01 [] q.store q.up refl (hosted_by "RPSG01" q.store q.up host) in
    let run = p.goes_on ∙ q.goes_on ∙ r.goes_on in
    rw run ((r.count, refl), r.keeps "RPSG01" host, r.keeps "A001" q.registered, r.registered)

-- Where the three assets are registered, seeding creates nothing and changes nothing.
seed_idempotent :
    (clock : ℕ → ℕ) (s : RegistryStore) (x y z : FleetAsset)
    → s.fail ≡ false
    → lookup "RPSG01" s.records ≡ some x
    → lookup "A001" s.records ≡ some y
    → lookup "OBLN01" s.records ≡ some z
    → seed_registry clock s ≡ (ok 0, s)
unfolding seed_registry seed_loop get_asset
seed_idempotent clock s x y z up hx hy hz = ground (arith, up, hx, hy, hz)
