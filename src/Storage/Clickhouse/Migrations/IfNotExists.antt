-- ===== src/Storage/Clickhouse/Migrations/IfNotExists.antt =====
-- What the server is known to make of `CREATE ... IF NOT EXISTS`, the two commands of every bootstrap.
use Prim.Native.String.{◌++◌ as append}
use Prim.Native.Char.{code}
use Prim.Native.String.append
use openclaw_observatory.Prelude.{
  ℕ, nat_eq, some, ◌≡◌, ◌∙◌, ap, refl, String, Bool, true, ◌||◌, List, [], ◌∷◌, ◌++◌, In, arith,
}
use openclaw_observatory.Prelude.Text.{begins_with, after_prefix}
use openclaw_observatory.Storage.Clickhouse.Migrations.{Engine, create_database, create_ledger}

-- a command that asks for what may be there already
abbrev pub is_if_not_exists : String → Bool
is_if_not_exists x =
    begins_with x "CREATE DATABASE IF NOT EXISTS `" || begins_with x "CREATE TABLE IF NOT EXISTS `"

-- What ClickHouse documents of `CREATE ... IF NOT EXISTS`: repeated, it is accepted, and it takes
-- nothing away that can be read.
pub record IfNotExists (engine : Engine) : Type 0 where
  pub again :
      (done : List String) (x : String)
      → is_if_not_exists x ≡ true
      → In x done
      → engine.accepts done x ≡ true
  pub readable :
      (done : List String) (x : String)
      → is_if_not_exists x ≡ true
      → engine.selects done ≡ true
      → engine.selects (done ++ x ∷ []) ≡ true

same_code : (n : ℕ) → nat_eq n n ≡ true
same_code n = ground arith

after_prefix-append : (p t : String) → after_prefix p (append p t) ≡ some t
unfolding after_prefix
after_prefix-append String.[] t = ap (after_prefix "") (λ i. append.nil t i)
after_prefix-append (String.◌∷◌ c p) t =
    ap (after_prefix (String.◌∷◌ c p)) (λ i. append.cons c p t i)
    ∙ rw (same_code (code c), after_prefix-append p t) refl

begins_with-append : (p t : String) → begins_with (append p t) p ≡ true
begins_with-append p t = rw (after_prefix-append p t) refl

or_true : (a b : Bool) → b ≡ true → (a || b) ≡ true
or_true a b h = ground (arith, h)

pub create_database-IfNotExists : (db : String) → is_if_not_exists (create_database db) ≡ true
unfolding create_database
create_database-IfNotExists db =
    rw (begins_with-append "CREATE DATABASE IF NOT EXISTS `" (append db "`")) refl

pub create_ledger-IfNotExists : (db : String) → is_if_not_exists (create_ledger db) ≡ true
unfolding create_ledger
create_ledger-IfNotExists db = or_true _ _ (begins_with-append "CREATE TABLE IF NOT EXISTS `" _)
