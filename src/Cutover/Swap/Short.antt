-- ===== src/Cutover/Swap/Short.antt =====
-- What is relied on of PostgreSQL where names may be too long for it: only of names of at most 63
-- bytes is it known that they stand for themselves. A longer one is shortened, and may then be the
-- name of another database.
use Prim.Native.String.{len}
use odooctl.Prelude.{String, ◌≡◌, ◌≤◌, refl, ◌⊎◌, inl, none, update, is_some, Bool}
use odooctl.Prelude.Exec.{Exec, continue_ind}
use odooctl.Prelude.Results.{ok, err}
use odooctl.Cutover.State.{Failure}
use odooctl.Cutover.Names.{identifier_max_bytes}
use odooctl.Cutover.Postgres.{
  Adapter, IsPostgres, terminate_backends, rename, drop, Catalog, Renamed, terminate_connections,
  drop_database, rename_database, statement_sql,
}
use odooctl.Cutover.Postgres.Outcomes.{RenameOutcome, DropOutcome, rename_result, drop_result}

abbrev pub Fits : String → Type 0
Fits name = len name ≤ identifier_max_bytes

-- As `IsPostgres` says of commands, for names that fit.
pub record IsShortPostgres {S : Type 0} (pg : Adapter S) (catalog : S → Catalog) : Type 0 where
  pub terminating :
      (m name sql : String) (s : S)
      → catalog (pg.psql m (terminate_backends name) sql s).1 ≡ catalog s
  pub rename_done :
      (m old new sql : String) (s : S) (u : Unit {0})
      → Fits old
      → Fits new
      → (pg.psql m (rename old new) sql s).0 ≡ ok u
      → Renamed old new (catalog s) (catalog (pg.psql m (rename old new) sql s).1)
  pub rename_failed :
      (m old new sql : String) (s : S) (e : Failure)
      → Fits old
      → Fits new
      → (pg.psql m (rename old new) sql s).0 ≡ err e
      → (catalog (pg.psql m (rename old new) sql s).1 ≡ catalog s)
        ⊎ Renamed old new (catalog s) (catalog (pg.psql m (rename old new) sql s).1)
  pub drop_done :
      (m name sql : String) (s : S) (u : Unit {0})
      → Fits name
      → (pg.psql m (drop name) sql s).0 ≡ ok u
      → catalog (pg.psql m (drop name) sql s).1 ≡ update (catalog s) name none
  pub drop_failed :
      (m name sql : String) (s : S) (e : Failure)
      → Fits name
      → (pg.psql m (drop name) sql s).0 ≡ err e
      → (catalog (pg.psql m (drop name) sql s).1 ≡ catalog s)
        ⊎ (catalog (pg.psql m (drop name) sql s).1 ≡ update (catalog s) name none)

-- What `database_exists` answers: nothing is changed, and a value tells what is there.
pub record TellsExistence {S : Type 0} (exists_fn : String → Exec S Failure Bool)
    (catalog : S → Catalog) : Type 0 where
  pub keeps : (name : String) (s : S) → catalog (exists_fn name s).1 ≡ catalog s
  pub answers :
      (name : String) (s : S) (b : Bool)
      → Fits name
      → (exists_fn name s).0 ≡ ok b
      → b ≡ is_some (catalog s name)

module _ {S : Type 0} (pg : Adapter S) (catalog : S → Catalog) where
  pub short-IsShortPostgres : IsPostgres pg catalog → IsShortPostgres pg catalog
  short-IsShortPostgres law = record {
    terminating = law.terminate_keeps;
    rename_done = λ m old new sql s u _ _. law.rename_done m old new sql s u;
    rename_failed = λ m old new sql s e _ _. law.rename_failed m old new sql s e;
    drop_done = λ m name sql s u _. law.drop_done m name sql s u;
    drop_failed = λ m name sql s e _. law.drop_failed m name sql s e;
  }

  module _ (law : IsShortPostgres pg catalog) where
    pub terminate_keeps :
        (m name : String) (s : S) → catalog (terminate_connections pg m name s).1 ≡ catalog s
    unfolding terminate_connections
    terminate_keeps m name s =
        continue_ind (λ out. catalog out.1 ≡ catalog s) (statement_sql (terminate_backends name)) _
          s (λ sql _. law.terminating m name sql s) (λ e _. refl)

    pub rename_outcome :
        (m old new : String) (s : S)
        → Fits old
        → Fits new
        → RenameOutcome
            (catalog s)
            old
            new
            (rename_database pg m old new s).0
            (catalog (rename_database pg m old new s).1)
    unfolding rename_database
    rename_outcome m old new s fo fn =
        continue_ind (λ out. RenameOutcome (catalog s) old new out.0 (catalog out.1))
          (statement_sql (rename old new)) _ s
          (λ sql _.
            rename_result _ _ old new _ (λ u. law.rename_done m old new sql s u fo fn)
              (λ e. law.rename_failed m old new sql s e fo fn))
          (λ e _. inl refl)

    pub drop_outcome :
        (m name : String) (s : S)
        → Fits name
        → DropOutcome
            (catalog s)
            name
            (drop_database pg m name s).0
            (catalog (drop_database pg m name s).1)
    unfolding drop_database
    drop_outcome m name s f =
        continue_ind (λ out. DropOutcome (catalog s) name out.0 (catalog out.1))
          (statement_sql (drop name)) _ s
          (λ sql _.
            drop_result _ _ name _ (λ u. law.drop_done m name sql s u f)
              (λ e. law.drop_failed m name sql s e f))
          (λ e _. inl refl)
