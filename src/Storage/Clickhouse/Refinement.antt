-- ===== src/Storage/Clickhouse/Refinement.antt =====
-- The ClickHouse storages against the in-memory ones, over any history of upserts and outages.
use openclaw_observatory.Prelude.{
  ℕ, suc, ◌≤◌, ◌<◌, ◌≡◌, ◌∙◌, refl, String, Bool, true, false, Option, none, some, List, [], ◌∷◌,
  ◌==◌, All, arith, if◌then◌else◌, Bool-cases, inl, inr,
}
use openclaw_observatory.Prelude.Dict.{lookup, insert, lookup-insert}
use openclaw_observatory.Exec.{Result, ok, err}
use openclaw_observatory.Storage.Keyed.{Keyed, upsert, fetch}
use openclaw_observatory.Storage.Clickhouse.{
  Table, IsReplacing, Connection, run, upsert_row, get_row, first_row,
}

-- an upsert with the clock's reading, or the database going down or coming back
pub data Op (V : Type 0) : Type 0 where
  put : V → ℕ → Op V
  set_down : Bool → Op V

-- Each reading of the clock is greater than those before it.
abbrev pub Increasing : {V : Type 0} → ℕ → List (Op V) → Type 0
Increasing n [] = Unit
Increasing n (put v r ∷ ops) = (n ≤ r) × Increasing (suc r) ops
Increasing n (set_down b ∷ ops) = Increasing n ops

abbrev pub kept_value : {V : Type 0} → (V → V) → Option V → Option V
kept_value stored none = none
kept_value stored (some v) = some (stored v)

-- what a storage answers, each value as the columns keep it
abbrev pub answer : {V : Type 0} → (V → V) → Result (Option V) → Result (Option V)
answer stored (ok o) = ok (kept_value stored o)
answer stored (err e) = err e

-- what a history leaves of a storage, by what it does at an upsert and at an outage
abbrev pub history : {V S : Type 0} → (V → ℕ → S → S) → (Bool → S → S) → List (Op V) → S → S
history upsert outage [] s = s
history upsert outage (put v r ∷ ops) s = history upsert outage ops (upsert v r s)
history upsert outage (set_down b ∷ ops) s = history upsert outage ops (outage b s)

abbrev pub connect : {S : Type 0} → S → Connection S
connect s = record { connected = false; latencies = []; down = false; database = s }

-- A row type with its conversions. A value that is not `Storable` is never put in.
pub record Codec (Row V : Type 0) : Type 1 where
  pub key : Row → String
  pub revision : Row → ℕ
  pub kept : Row → Row
  pub to_row : V → ℕ → Row
  pub from_row : Row → Option V
  pub id : V → String
  pub stored : V → V
  pub Storable : V → Type 0

pub record IsCodec {Row V : Type 0} (C : Codec Row V) : Type 0 where
  pub key-to_row : (v : V) (n : ℕ) → C.key (C.to_row v n) ≡ C.id v
  pub revision-kept : (v : V) (n : ℕ) → C.revision (C.kept (C.to_row v n)) ≡ n
  pub revision-to_row : (v : V) (n : ℕ) → C.revision (C.to_row v n) ≡ n
  pub from_row-kept :
      (v : V) (n : ℕ) → C.Storable v → C.from_row (C.kept (C.to_row v n)) ≡ some (C.stored v)

module _ {A : Type 0} (f : A → ℕ) where
  All-below_mono : (n m : ℕ) (xs : List A) → n ≤ m → All (λ x. f x < n) xs → All (λ x. f x < m) xs
  All-below_mono n m [] le h = tt
  All-below_mono n m (x ∷ xs) le (h, hs) = (omega (arith, le, h), All-below_mono n m xs le hs)

module _ {Row V : Type 0} (T : Table Row) (C : Codec Row V) (codec : IsCodec C)
    (law : IsReplacing C.key C.revision C.kept T) (operation : String) where
  abbrev pub AllStorable : List (Op V) → Type 0
  AllStorable [] = Unit
  AllStorable (put v r ∷ ops) = C.Storable v × AllStorable ops
  AllStorable (set_down b ∷ ops) = AllStorable ops

  abbrev after : List (Op V) → Connection T.State → Connection T.State
  after =
      history (λ v r c. (upsert_row T operation (C.to_row v r) c).1) (λ b c. record c { down = b })

  abbrev after_memory : List (Op V) → Keyed V → Keyed V
  after_memory = history (λ v r m. (upsert (C.id v) v m).1) (λ b m. record m { fail = b })

  -- The table holds what the dict does, under revisions below `n`.
  record Represents (n : ℕ) (c : Connection T.State) (m : Keyed V) : Type 0 where
    down : c.down ≡ m.fail
    older : (k : String) → All (λ r. C.revision r < n) (T.find k c.database)
    found :
        (k : String)
        → first_row C.from_row (T.find k c.database) ≡ ok (kept_value C.stored (lookup k m.records))

  upsert_down :
      (row : Row) (c : Connection T.State)
      → c.down ≡ true
      → (upsert_row T operation row c).1.database ≡ c.database
  unfolding upsert_row run
  upsert_down row c h = ground (arith, h)

  upsert_up :
      (row : Row) (c : Connection T.State)
      → c.down ≡ false
      → (upsert_row T operation row c).1.database ≡ T.insert row c.database
  unfolding upsert_row run
  upsert_up row c h = ground (arith, h)

  upsert_keeps_down :
      (row : Row) (c : Connection T.State) → (upsert_row T operation row c).1.down ≡ c.down
  unfolding upsert_row run
  upsert_keeps_down row c = ground arith

  -- Where neither the table nor the records change, the relation stays, under a later bound.
  unchanged :
      (n n' : ℕ) (c c' : Connection T.State) (m m' : Keyed V)
      → n ≤ n'
      → c'.down ≡ m'.fail
      → c'.database ≡ c.database
      → m'.records ≡ m.records
      → Represents n c m
      → Represents n' c' m'
  unchanged n n' c c' m m' le d same kept rep = record {
    down = d;
    older = λ k. rw same (All-below_mono C.revision n n' (T.find k c.database) le (rep.older k));
    found = λ k. rw (same, kept) (rep.found k);
  }

  memory_down : (k : String) (v : V) (m : Keyed V) → m.fail ≡ true → (upsert k v m).1 ≡ m
  memory_down k v m h = ground (arith, h)

  memory_up :
      (k : String) (v : V) (m : Keyed V)
      → m.fail ≡ false
      → (upsert k v m).1 ≡ record m { records = insert k v m.records }
  memory_up k v m h = ground (arith, h)

  -- what the table shows after a row went in
  found_after :
      (v : V) (n r : ℕ) (c : Connection T.State) (m : Keyed V) (k : String)
      → Represents n c m
      → n ≤ r
      → T.find k (T.insert (C.to_row v r) c.database)
        ≡ (if C.id v == k then C.kept (C.to_row v r) ∷ [] else T.find k c.database)
  found_after v n r c m k rep le =
      let row = C.to_row v r in
      rw⁻¹ (codec.key-to_row v r) (
        law.find-insert k row c.database (
          rw (codec.revision-to_row v r) (
            All-below_mono C.revision n r (T.find (C.key row) c.database) le
              (rep.older (C.key row)))))

  stored_put :
      (v : V) (n r : ℕ) (c c' : Connection T.State) (m : Keyed V)
      → C.Storable v
      → n ≤ r
      → c'.down ≡ m.fail
      → c'.database ≡ T.insert (C.to_row v r) c.database
      → Represents n c m
      → Represents (suc r) c' (record m { records = insert (C.id v) v m.records })
  stored_put v n r c c' m storable le d new rep = record {
    down = d;
    older = λ k.
        rw (new, found_after v n r c m k rep le)
          (elim (Bool-cases (C.id v == k)) [
            | inl same ↦ rw same (rw (codec.revision-kept v r) (omega arith), tt)
            | inr other ↦ rw other (
                All-below_mono C.revision n (suc r) (T.find k c.database) (omega (arith, le))
                  (rep.older k))
          ]);
    found = λ k.
        rw (new, found_after v n r c m k rep le, lookup-insert (C.id v) k v m.records)
          (elim (Bool-cases (C.id v == k)) [
            | inl same ↦ rw same (rw (codec.from_row-kept v r storable) refl)
            | inr other ↦ rw other (rep.found k)
          ]);
  }

  put_step :
      (v : V) (n r : ℕ) (c : Connection T.State) (m : Keyed V)
      → C.Storable v
      → n ≤ r
      → Represents n c m
      → Represents (suc r) (upsert_row T operation (C.to_row v r) c).1 (upsert (C.id v) v m).1
  put_step v n r c m storable le rep =
      let row = C.to_row v r in
      let c' = (upsert_row T operation row c).1 in
      elim (Bool-cases m.fail) [
        | inl failed ↦ rw (memory_down (C.id v) v m failed) (
            unchanged n (suc r) c c' m m (omega (arith, le)) (upsert_keeps_down row c ∙ rep.down)
              (upsert_down row c (rep.down ∙ failed)) refl rep)
        | inr up ↦ rw (memory_up (C.id v) v m up) (
            stored_put v n r c c' m storable le (upsert_keeps_down row c ∙ rep.down)
              (upsert_up row c (rep.down ∙ up)) rep)
      ]

  get_answer :
      (n : ℕ) (c : Connection T.State) (m : Keyed V) (read : String) (k : String)
      → Represents n c m
      → (get_row T read C.from_row k c).0 ≡ answer C.stored (fetch k m)
  unfolding get_row run
  get_answer n c m read k rep = elim (Bool-cases m.fail) [
    | inl failed ↦ ground (arith, failed, rep.down)
    | inr up ↦ ground (arith, up, rep.down, rep.found k)
  ]

  history_answers :
      (ops : List (Op V)) (n : ℕ) (c : Connection T.State) (m : Keyed V)
      → Increasing n ops
      → AllStorable ops
      → Represents n c m
      → (read k : String)
      → (get_row T read C.from_row k (after ops c)).0
        ≡ answer C.stored (fetch k (after_memory ops m))
  history_answers [] n c m inc sto rep read k = get_answer n c m read k rep
  history_answers (put v r ∷ ops) n c m (le, inc) (s, sto) rep read k =
      history_answers ops (suc r) (upsert_row T operation (C.to_row v r) c).1
        (upsert (C.id v) v m).1 inc sto (put_step v n r c m s le rep) read k
  history_answers (set_down b ∷ ops) n c m inc sto rep read k =
      history_answers ops n (record c { down = b }) (record m { fail = b }) inc sto
        (record { down = refl; older = rep.older; found = rep.found }) read k

  -- The storages start out alike.
  pub fresh_answers :
      (ops : List (Op V))
      → Increasing 0 ops
      → AllStorable ops
      → (read k : String)
      → (get_row T read C.from_row k (after ops (connect T.fresh))).0
        ≡ answer C.stored (fetch k (after_memory ops (record { records = []; fail = false })))
  unfolding lookup
  fresh_answers ops inc sto read k =
      history_answers ops 0 (connect T.fresh) (record { records = []; fail = false }) inc sto
        (record {
          down = refl;
          older = λ j. rw (law.find-fresh j) tt;
          found = λ j. rw (law.find-fresh j) refl;
        })
        read k
