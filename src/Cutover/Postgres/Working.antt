-- ===== src/Cutover/Postgres/Working.antt =====
-- What the calls of the program give where the adapter meets no failure.
use odooctl.Prelude.{String, ◌≡◌, refl, Option, none, some, ℕ, arith}
use odooctl.Prelude.Exec.{Exec, Returns}
use odooctl.Prelude.Results.{ok}
use odooctl.Cutover.Names.{quote_identifier}
use odooctl.Cutover.State.{Failure}
use odooctl.Cutover.Postgres.{
  Adapter, IsPostgres, terminate_backends, rename, Catalog, Renamed, Answers, Scalar, validated_oid,
  database_oid, query_oid, send, terminate_connections, rename_database, statement_sql,
  database_oid_query,
}

-- An adapter that meets no failure in the states of which `Healthy` holds: queries are answered,
-- backends terminated, and a database that is there is renamed to a name that is free.
pub record IsWorking {S : Type 0} (pg : Adapter S) (catalog : S → Catalog) (Healthy : S → Type 0)
    : Type 0 where
  pub query : String → String → String → Exec S Failure Scalar
  pub is_query : pg.psql_scalar ≡ some query
  pub query_works :
      (m name sql : String) (s : S)
      → Healthy s
      → (v : Scalar) × ((query m name sql s).0 ≡ ok v) × Healthy (query m name sql s).1
  pub terminate_works :
      (m name sql : String) (s : S)
      → Healthy s
      → ((pg.psql m (terminate_backends name) sql s).0 ≡ ok tt)
        × Healthy (pg.psql m (terminate_backends name) sql s).1
  pub rename_works :
      (m old new sql : String) (s : S) (oid : ℕ)
      → Healthy s
      → catalog s old ≡ some oid
      → catalog s new ≡ none
      → ((pg.psql m (rename old new) sql s).0 ≡ ok tt)
        × Healthy (pg.psql m (rename old new) sql s).1

-- A name that can be quoted and asked for.
abbrev pub IsSendable : String → Type 0
IsSendable name =
    ((quoted : String) × (quote_identifier name ≡ ok quoted))
    × ((sql : String) × (database_oid_query name ≡ ok sql))

Answers-validated_oid : (v : Scalar) (o : Option ℕ) → Answers v o → validated_oid v ≡ ok o
unfolding validated_oid
Answers-validated_oid v o a = ground arith

module _ {S : Type 0} (pg : Adapter S) (catalog : S → Catalog) (law : IsPostgres pg catalog)
    (Healthy : S → Type 0) (works : IsWorking pg catalog Healthy) where
  -- Reading an identifier returns the catalog's entry.
  pub database_oid-Returns :
      (m name : String) (s : S)
      → IsSendable name
      → Healthy s
      → Returns
          (λ o s'. (o ≡ catalog s name) × (catalog s' ≡ catalog s) × Healthy s')
          (database_oid pg m name)
          s
  unfolding database_oid query_oid
  database_oid-Returns m name s (_, (sql, sent)) healthy =
      let (v, answer, healthy') = works.query_works m name sql s healthy in
      let told = law.scalar_answers works.query m name sql s v works.is_query answer in
      let valid = Answers-validated_oid v (catalog s name) told in
      rw (works.is_query) (
        rw sent (
          rw answer (
            rw valid (
              catalog s name,
              refl,
              (refl, law.scalar_keeps works.query m name sql s works.is_query, healthy'),
            ))))

  pub terminate_connections-Returns :
      (m name : String) (s : S)
      → Healthy s
      → Returns (λ u s'. (catalog s' ≡ catalog s) × Healthy s') (terminate_connections pg m name) s
  unfolding terminate_connections send statement_sql
  terminate_connections-Returns m name s healthy =
      let (done, healthy') = works.terminate_works m name _ s healthy in
      (tt, done, (law.terminate_keeps m name _ s, healthy'))

  pub rename_database-Returns :
      (m old new : String) (s : S) (oid : ℕ)
      → IsSendable old
      → IsSendable new
      → Healthy s
      → catalog s old ≡ some oid
      → catalog s new ≡ none
      → Returns
          (λ u s'. Renamed old new (catalog s) (catalog s') × Healthy s')
          (rename_database pg m old new)
          s
  unfolding rename_database send statement_sql
  rename_database-Returns m old new s oid ((q, quoted), _) ((q', quoted'), _) healthy there free =
      let (done, healthy') = works.rename_works m old new _ s oid healthy there free in
      rw quoted (rw quoted' (tt, done, (law.rename_done m old new _ s tt done, healthy')))
