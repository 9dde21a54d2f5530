-- ===== src/Storage/Clickhouse.antt =====
-- backend/app/storage/clickhouse.py: the connection and the versioned tables. The database is not
-- part of the repository: a table is a parameter with what SELECT … FINAL gives of it.
pub mod Assets
pub mod Rows
pub mod Stores
pub mod Codec
pub mod Refinement
pub mod Answers
pub mod Migrations
use openclaw_observatory.Prelude.{
  ℕ, ◌<◌, ◌≡◌, String, Bool, true, false, Option, none, some, List, [], ◌∷◌, ◌++◌, ◌==◌, All,
  if◌then◌else◌,
}
use openclaw_observatory.Exec.{Exec, Result, ok, err, storage_error, value_error}

-- A table of rows. `find k` is `SELECT … FINAL WHERE key = k LIMIT 1`.
pub record Table (Row : Type 0) : Type 1 where
  pub State : Type 0
  pub fresh : State
  pub insert : Row → State → State
  pub find : String → State → List Row

-- What ReplacingMergeTree(revision) ORDER BY key documents: of the rows of a key, FINAL shows the one
-- of the greatest revision. `kept` is what the column types keep of a row.
pub record IsReplacing {Row : Type 0} (key : Row → String) (revision : Row → ℕ) (kept : Row → Row)
    (T : Table Row) : Type 0 where
  pub find-fresh : (k : String) → T.find k T.fresh ≡ []
  pub find-insert :
      (k : String) (row : Row) (s : T.State)
      → All (λ r. revision r < revision row) (T.find (key row) s)
      → T.find k (T.insert row s) ≡ (if key row == k then kept row ∷ [] else T.find k s)

-- `_ClickHouseConnection`: whether there is a client, the calls of the latency hook, newest last, and
-- the database behind it, which may be down.
pub record Connection (S : Type 0) : Type 0 where
  pub connected : Bool
  pub latencies : List String
  pub down : Bool
  pub database : S

-- What the driver makes of a call: `none` where it raises.
abbrev pub Driver : Type 0 → Type 0 → Type 0
Driver S A = S → Option A × S

module _ {S A : Type 0} where
  -- `_run`: connect if need be, call, drop the client after any exception, and always report the
  -- latency.
  unfoldable pub run : String → Driver S A → Exec (Connection S) A
  run operation func c =
      let timed : Connection S = record c { latencies = c.latencies ++ operation ∷ [] } in
      let (r, s) = func c.database in
      if c.down then (err storage_error, record timed { connected = false }) else elim r [
        | none ↦ (err storage_error, record timed { connected = false; database = s })
        | some a ↦ (ok a, record timed { connected = true; database = s })
      ]

module _ {S : Type 0} where
  -- `_close`
  unfoldable pub close : Exec (Connection S) (Unit {0})
  close c = (ok tt, record c { connected = false })

  -- `_ping`; `answer` is what the driver's `ping` gives
  unfoldable pub ping : Option Bool → Exec (Connection S) Bool
  unfolding run
  ping answer c =
      let (r, c') = run "ping" (λ s. (answer, s)) c in
      elim r [ ok b ↦ (ok b, c') | err _ ↦ (ok false, c') ]

  -- `startup` of the keyed storages
  unfoldable pub startup : Option Bool → Exec (Connection S) (Unit {0})
  unfolding ping
  startup answer c =
      let (r, c') = ping answer c in
      elim r [ ok true ↦ (ok tt, c') | ok false ↦ (err storage_error, c') | err e ↦ (err e, c') ]

-- `rows[0]` converted, if there is a row; a conversion may raise `ValueError`
abbrev pub first_row : {Row V : Type 0} → (Row → Option V) → List Row → Result (Option V)
first_row from_row [] = ok none
first_row from_row (row ∷ rows) = elim (from_row row) [
  | none ↦ err value_error
  | some v ↦ ok (some v)
]

module _ {Row : Type 0} (T : Table Row) where
  -- `upsert_…`: one row more
  unfoldable pub upsert_row : String → Row → Exec (Connection T.State) (Unit {0})
  unfolding run
  upsert_row operation row = run operation (λ s. (some tt, T.insert row s))

  -- `get_…`
  unfoldable pub get_row :
      {V : Type 0} → String → (Row → Option V) → String → Exec (Connection T.State) (Option V)
  unfolding run
  get_row operation from_row k c =
      let (r, c') = run operation (λ s. (some (T.find k s), s)) c in
      elim r [ err e ↦ (err e, c') | ok rows ↦ (first_row from_row rows, c') ]
