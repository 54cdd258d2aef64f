-- ===== src/Cutover/Postgres.antt =====
-- The adapter through which a cutover talks to PostgreSQL, the SQL it sends, and what it relies on
-- (odooctl/odoo/db_swap.py: `SwapPsqlAdapter`, `database_oid` and the three commands).
pub mod Outcomes
pub mod Working
use Prim.Native.String.{◌++◌}
use odooctl.Prelude.{
  ℕ, String, ◌≡◌, ◌⊎◌, Bool, true, false, ◌||◌, Option, none, some, ltb, if◌then◌else◌, update, ◌≤◌,
}
use odooctl.Prelude.Exec.{Exec, raise, lift, ◌>>=◌, ◌>>◌}
use odooctl.Prelude.Results
use odooctl.Prelude.Results.{Result, ok, err}
use odooctl.Cutover.State.{Failure, Checked, runtime_error, type_error}
use odooctl.Cutover.Names.{quote_identifier, quote_literal, validate_database_name}

-- The commands that the program sends.
pub data Statement : Type 0 where
  terminate_backends : String → Statement
  drop : String → Statement
  rename : String → String → Statement

-- Their text. A quoted name with a NUL is a ValueError, before anything is sent.
unfoldable pub statement_sql : Statement → Checked String
statement_sql (terminate_backends db_name) = ok (
    "SELECT pg_terminate_backend(pid) FROM pg_stat_activity WHERE datname = "
    ++ (quote_literal db_name ++ " AND pid <> pg_backend_pid();"))
statement_sql (drop db_name) =
    Results.◌>>=◌ (quote_identifier db_name)
      λ quoted. ok ("DROP DATABASE IF EXISTS " ++ (quoted ++ ";"))
statement_sql (rename old_name new_name) = Results.◌>>=◌ (quote_identifier old_name) λ old.
    Results.◌>>=◌ (quote_identifier new_name)
      λ new. ok ("ALTER DATABASE " ++ (old ++ (" RENAME TO " ++ (new ++ ";"))))

unfoldable pub database_oid_query : String → Checked String
database_oid_query db_name =
    Results.◌>>=◌ (validate_database_name db_name "db_name") λ _.
      ok ("SELECT oid::text FROM pg_database WHERE datname = " ++ (quote_literal db_name ++ ";"))

-- What a scalar query hands back: `None`, `""`, a `bool`, something that `int` refuses, or an
-- integer, negative or not.
pub data Scalar : Type 0 where
  absent empty unparsable negative : Scalar
  boolean : Bool → Scalar
  integer : ℕ → Scalar

abbrev pub max_oid : ℕ
max_oid = 0xFFFFFFFF

unfoldable pub validated_oid : Scalar → Checked (Option ℕ)
validated_oid absent = ok none
validated_oid empty = ok none
validated_oid (boolean _) = err (runtime_error "Invalid PostgreSQL OID returned for database")
validated_oid unparsable = err (runtime_error "Invalid PostgreSQL OID returned for database")
validated_oid negative = err (runtime_error "Invalid PostgreSQL OID returned for database")
validated_oid (integer oid) =
    if ltb oid 1 || ltb max_oid oid
    then err (runtime_error "Invalid PostgreSQL OID returned for database")
    else ok (some oid)

-- An adapter over the state `S` of the world. Beside the text of a command stands the command, for
-- SQL is not parsed here; a method that the adapter may lack is an option.
pub record Adapter (S : Type 0) : Type 0 where
  pub psql : String → Statement → String → Exec S Failure (Unit {0})
  pub psql_scalar : Option (String → String → String → Exec S Failure Scalar)
  pub oid_lookup : Option (String → Exec S Failure Scalar)
  pub database_exists : Option (String → Exec S Failure Bool)

module _ {S : Type 0} (pg : Adapter S) where
  send : String → Statement → Exec S Failure (Unit {0})
  send maintenance_db statement = do
    sql ← lift (statement_sql statement)
    pg.psql maintenance_db statement sql

  unfoldable pub terminate_connections : String → String → Exec S Failure (Unit {0})
  unfolding send
  terminate_connections maintenance_db db_name = send maintenance_db (terminate_backends db_name)

  unfoldable pub drop_database : String → String → Exec S Failure (Unit {0})
  unfolding send
  drop_database maintenance_db db_name = send maintenance_db (drop db_name)

  unfoldable pub rename_database : String → String → String → Exec S Failure (Unit {0})
  unfolding send
  rename_database maintenance_db old_name new_name = send maintenance_db (rename old_name new_name)

  query_oid :
      Option (String → String → String → Exec S Failure Scalar)
      → Option (String → Exec S Failure Scalar)
      → String
      → String
      → Exec S Failure (Option ℕ)
  query_oid (some query_scalar) lookup maintenance_db db_name = do
    sql ← lift (database_oid_query db_name)
    value ← query_scalar maintenance_db db_name sql
    lift (validated_oid value)
  query_oid none (some lookup) maintenance_db db_name = do
    value ← lookup db_name
    lift (validated_oid value)
  query_oid none none maintenance_db db_name =
      raise (type_error "Crash-reconcilable database cutover requires an adapter")

  unfoldable pub database_oid : String → String → Exec S Failure (Option ℕ)
  unfolding query_oid
  database_oid maintenance_db db_name =
      query_oid pg.psql_scalar pg.oid_lookup maintenance_db db_name

-- The databases of the cluster, by name, with their object identifiers.
abbrev pub Catalog : Type 0
Catalog = String → Option ℕ

-- A scalar that answers for the catalog's entry.
abbrev pub Answers : Scalar → Option ℕ → Type 0
Answers absent none = Unit
Answers empty none = Unit
Answers (integer n) (some oid) = (n ≡ oid) × (1 ≤ n) × (n ≤ max_oid)
Answers _ _ = ⊥

abbrev pub moved : Catalog → String → String → ℕ → Catalog
moved c old new oid = update (update c old none) new (some oid)

-- `ALTER DATABASE old RENAME TO new` took effect: `old` existed and `new` was free.
abbrev pub Renamed : String → String → Catalog → Catalog → Type 0
Renamed old new c c' = (oid : ℕ) × (c old ≡ some oid) × (c new ≡ none) × (c' ≡ moved c old new oid)

-- The documented behaviour of PostgreSQL, with nobody else renaming databases meanwhile. A command
-- that reports an error may have taken effect all the same, its answer lost.
pub record IsPostgres {S : Type 0} (pg : Adapter S) (catalog : S → Catalog) : Type 0 where
  pub scalar_keeps :
      (query : String → String → String → Exec S Failure Scalar) (m name sql : String) (s : S)
      → pg.psql_scalar ≡ some query
      → catalog (query m name sql s).1 ≡ catalog s
  pub scalar_answers :
      (query : String → String → String → Exec S Failure Scalar) (m name sql : String) (s : S)
      (v : Scalar)
      → pg.psql_scalar ≡ some query
      → (query m name sql s).0 ≡ ok v
      → Answers v (catalog s name)
  pub lookup_keeps :
      (lookup : String → Exec S Failure Scalar) (name : String) (s : S)
      → pg.oid_lookup ≡ some lookup
      → catalog (lookup name s).1 ≡ catalog s
  pub lookup_answers :
      (lookup : String → Exec S Failure Scalar) (name : String) (s : S) (v : Scalar)
      → pg.oid_lookup ≡ some lookup
      → (lookup name s).0 ≡ ok v
      → Answers v (catalog s name)
  pub terminate_keeps :
      (m name sql : String) (s : S)
      → catalog (pg.psql m (terminate_backends name) sql s).1 ≡ catalog s
  pub rename_done :
      (m old new sql : String) (s : S) (u : Unit {0})
      → (pg.psql m (rename old new) sql s).0 ≡ ok u
      → Renamed old new (catalog s) (catalog (pg.psql m (rename old new) sql s).1)
  pub rename_failed :
      (m old new sql : String) (s : S) (e : Failure)
      → (pg.psql m (rename old new) sql s).0 ≡ err e
      → (catalog (pg.psql m (rename old new) sql s).1 ≡ catalog s)
        ⊎ Renamed old new (catalog s) (catalog (pg.psql m (rename old new) sql s).1)
  pub drop_done :
      (m name sql : String) (s : S) (u : Unit {0})
      → (pg.psql m (drop name) sql s).0 ≡ ok u
      → catalog (pg.psql m (drop name) sql s).1 ≡ update (catalog s) name none
  pub drop_failed :
      (m name sql : String) (s : S) (e : Failure)
      → (pg.psql m (drop name) sql s).0 ≡ err e
      → (catalog (pg.psql m (drop name) sql s).1 ≡ catalog s)
        ⊎ (catalog (pg.psql m (drop name) sql s).1 ≡ update (catalog s) name none)
