-- ===== src/Storage/Clickhouse/Migrations.antt =====
-- The schema bootstrap of `ClickHouseEventStorage.startup` in backend/app/storage/clickhouse.py.
-- What the server makes of a call is a parameter.
pub mod IfNotExists
pub mod Growth
pub mod Applied
use Prim.Native.String.{◌++◌ as append}
use openclaw_observatory.Prelude.{
  ℕ, nat_eq, String, Bool, true, false, not, ◌&&◌, Option, none, some, List, [], ◌∷◌, ◌++◌, ◌==◌,
  any, if◌then◌else◌,
}
use openclaw_observatory.Prelude.Text.{
  is_space, lstrip_by, rstrip_by, strip, split_by, splitlines, join, nonempty, begins_with,
  after_prefix, replace_at, replace_all,
}
use openclaw_observatory.Exec.{Exec, Result, ok, err, storage_error, pure, ◌>>=◌, ◌>>◌}

-- a migration file, and the statements that are read from it
pub record Migration : Type 0 where
  pub name : String
  pub statements : List String

abbrev is_comment : String → Bool
is_comment line = begins_with (lstrip_by is_space line) "--"

unfoldable without_comments : List String → List String
unfolding lstrip_by after_prefix
without_comments [] = []
without_comments (line ∷ lines) =
    if is_comment line then without_comments lines else line ∷ without_comments lines

unfoldable all_stripped : List String → List String
unfolding strip
all_stripped [] = []
all_stripped (s ∷ ss) = strip s ∷ all_stripped ss

-- the statements of one file's text
unfoldable pub statements_of : String → String → List String
unfolding replace_all splitlines without_comments join split_by all_stripped
statements_of database text =
    let lines = without_comments (splitlines (replace_all "{database}" database text)) in
    nonempty (all_stripped (split_by (nat_eq b';') (join "\n" lines)))

-- `_load_migrations` over the files in the order of their names; `none` is a missing directory
unfoldable pub load_files : String → List (String × String) → List Migration
unfolding statements_of
load_files database [] = []
load_files database ((name, text) ∷ files) = elim (statements_of database text) [
  | [] ↦ load_files database files
  | s ∷ ss ↦ record { name = name; statements = s ∷ ss } ∷ load_files database files
]

unfoldable pub load_migrations : String → Option (List (String × String)) → Result (List Migration)
unfolding load_files
load_migrations database none = err storage_error
load_migrations database (some files) = ok (load_files database files)

-- The server: whether it can be reached, the names in schema_migrations, and the commands that it
-- executed, newest last.
pub record Server : Type 0 where
  pub up : Bool
  pub applied : List String
  pub commands : List String

-- What the server makes of a call, by the commands that it executed before: whether it accepts a
-- command, can read schema_migrations, and can insert into it.
pub record Engine : Type 0 where
  pub accepts : List String → String → Bool
  pub selects : List String → Bool
  pub inserts : List String → Bool

abbrev pub is_applied : String → List String → Bool
is_applied name applied = any (λ n. name == n) applied

-- the two commands of every bootstrap; the line breaks of the second are left out
unfoldable pub create_database : String → String
create_database database = append "CREATE DATABASE IF NOT EXISTS `" (append database "`")

unfoldable pub create_ledger : String → String
create_ledger database = append "CREATE TABLE IF NOT EXISTS `" (
    append database
      "`.`schema_migrations` ( name String, applied_at DateTime64(3, 'UTC') ) ENGINE = MergeTree ORDER BY name")

module _ (engine : Engine) where
  -- `client.command`
  unfoldable pub command : String → Exec Server (Unit {0})
  command statement s =
      if s.up && engine.accepts s.commands statement
      then (ok tt, record s { commands = s.commands ++ statement ∷ [] })
      else (err storage_error, s)

  unfoldable pub run_statements : List String → Exec Server (Unit {0})
  unfolding command
  run_statements [] s = (ok tt, s)
  run_statements (statement ∷ rest) s =
      let (r, s') = command statement s in
      let later = run_statements rest s' in elim r [ err e ↦ (err e, s') | ok _ ↦ later ]

  -- `client.insert` of the migration's name
  unfoldable pub record_applied : String → Exec Server (Unit {0})
  record_applied name s =
      if s.up && engine.inserts s.commands
      then (ok tt, record s { applied = s.applied ++ name ∷ [] })
      else (err storage_error, s)

  -- one pending migration
  unfoldable pub migrate : Migration → Exec Server (Unit {0})
  unfolding run_statements record_applied
  migrate m = do run_statements m.statements; record_applied m.name

  -- The loop over the migrations; `applied` was read before it.
  unfoldable pub apply_pending : List String → List Migration → Exec Server (Unit {0})
  unfolding migrate
  apply_pending applied [] s = (ok tt, s)
  apply_pending applied (m ∷ ms) s =
      let skipped = apply_pending applied ms s in
      let (r, s') = migrate m s in
      let later = apply_pending applied ms s' in
      if is_applied m.name applied then skipped else elim r [ err e ↦ (err e, s') | ok _ ↦ later ]

  -- `SELECT name FROM schema_migrations`
  unfoldable pub select_applied : Exec Server (List String)
  select_applied s =
      if s.up && engine.selects s.commands then (ok s.applied, s) else (err storage_error, s)

  unfoldable pub bootstrap : String → List Migration → Exec Server (Unit {0})
  unfolding apply_pending create_database create_ledger select_applied
  bootstrap database migrations = do
    command (create_database database)
    command (create_ledger database)
    applied ← select_applied
    apply_pending applied migrations
