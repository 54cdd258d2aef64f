-- ===== src/Cutover/Postgres/Outcomes.antt =====
-- What each call of the program leaves in the catalog.
use odooctl.Prelude.{String, ◌≡◌, refl, ◌⊎◌, inl, Option, none, some, ℕ, arith, sym}
use odooctl.Prelude.Exec.{Exec, lift, continue, continue_ind}
use odooctl.Prelude.Results.{Result, ok, err}
use odooctl.Cutover.State.{Failure}
use odooctl.Cutover.Postgres.{
  Adapter, IsPostgres, terminate_backends, rename, drop, Catalog, Renamed, Answers, Scalar,
  validated_oid, database_oid, query_oid, terminate_connections, drop_database, rename_database,
  statement_sql, database_oid_query,
}
use odooctl.Prelude.{update}

-- A valid answer is the catalog's entry.
validated_oid-Answers :
    (v : Scalar) (o : Option ℕ) → Answers v o → (w : Option ℕ) → validated_oid v ≡ ok w → w ≡ o
unfolding validated_oid
validated_oid-Answers v o a w e = ground arith

-- `ok` gives the entry and nothing changed.
abbrev pub Read : Catalog → String → Result Failure (Option ℕ) → Catalog → Type 0
Read c name (ok o) c' = (c' ≡ c) × (c name ≡ o)
Read c name (err e) c' = c' ≡ c

abbrev pub RenameOutcome : Catalog → String → String → Result Failure (Unit {0}) → Catalog → Type 0
RenameOutcome c old new (ok u) c' = Renamed old new c c'
RenameOutcome c old new (err e) c' = (c' ≡ c) ⊎ Renamed old new c c'

abbrev pub DropOutcome : Catalog → String → Result Failure (Unit {0}) → Catalog → Type 0
DropOutcome c name (ok u) c' = c' ≡ update c name none
DropOutcome c name (err e) c' = (c' ≡ c) ⊎ (c' ≡ update c name none)

pub rename_result :
    (c c' : Catalog) (old new : String) (r : Result Failure (Unit {0}))
    → ((u : Unit {0}) → r ≡ ok u → Renamed old new c c')
    → ((e : Failure) → r ≡ err e → (c' ≡ c) ⊎ Renamed old new c c')
    → RenameOutcome c old new r c'
rename_result c c' old new (ok u) done failed = done u refl
rename_result c c' old new (err e) done failed = failed e refl

pub drop_result :
    (c c' : Catalog) (name : String) (r : Result Failure (Unit {0}))
    → ((u : Unit {0}) → r ≡ ok u → c' ≡ update c name none)
    → ((e : Failure) → r ≡ err e → (c' ≡ c) ⊎ (c' ≡ update c name none))
    → DropOutcome c name r c'
drop_result c c' name (ok u) done failed = done u refl
drop_result c c' name (err e) done failed = failed e refl

module _ {S : Type 0} (pg : Adapter S) (catalog : S → Catalog) (law : IsPostgres pg catalog) where
  pub terminate_keeps :
      (m name : String) (s : S) → catalog (terminate_connections pg m name s).1 ≡ catalog s
  unfolding terminate_connections
  terminate_keeps m name s =
      continue_ind (λ out. catalog out.1 ≡ catalog s) (statement_sql (terminate_backends name)) _ s
        (λ sql _. law.terminate_keeps m name sql s) (λ e _. refl)

  pub rename_outcome :
      (m old new : String) (s : S)
      → RenameOutcome
          (catalog s)
          old
          new
          (rename_database pg m old new s).0
          (catalog (rename_database pg m old new s).1)
  unfolding rename_database
  rename_outcome m old new s =
      continue_ind (λ out. RenameOutcome (catalog s) old new out.0 (catalog out.1))
        (statement_sql (rename old new)) _ s
        (λ sql _.
          rename_result _ _ old new _ (law.rename_done m old new sql s)
            (law.rename_failed m old new sql s))
        (λ e _. inl refl)

  pub drop_outcome :
      (m name : String) (s : S)
      → DropOutcome
          (catalog s)
          name
          (drop_database pg m name s).0
          (catalog (drop_database pg m name s).1)
  unfolding drop_database
  drop_outcome m name s =
      continue_ind (λ out. DropOutcome (catalog s) name out.0 (catalog out.1))
        (statement_sql (drop name)) _ s
        (λ sql _.
          drop_result _ _ name _ (law.drop_done m name sql s) (law.drop_failed m name sql s))
        (λ e _. inl refl)

  Read-scalar :
      (name : String) (s : S) (call : Result Failure Scalar × S)
      → catalog call.1 ≡ catalog s
      → ((v : Scalar) → call.0 ≡ ok v → Answers v (catalog s name))
      → Read
          (catalog s)
          name
          (continue call.0 (λ v. lift (validated_oid v)) call.1).0
          (catalog (continue call.0 (λ v. lift (validated_oid v)) call.1).1)
  Read-scalar name s (ok v, s') same answers =
      read_valid (validated_oid v) (validated_oid-Answers v (catalog s name) (answers v refl))
    where
      read_valid :
          (w : Result Failure (Option ℕ))
          → ((o : Option ℕ) → w ≡ ok o → o ≡ catalog s name)
          → Read (catalog s) name w (catalog s')
      read_valid (ok o) h = (same, sym (h o refl))
      read_valid (err e) h = same
  Read-scalar name s (err e, s') same answers = same

  query_reads :
      (q : Option (String → String → String → Exec S Failure Scalar))
      (look : Option (String → Exec S Failure Scalar)) (m name : String) (s : S)
      → pg.psql_scalar ≡ q
      → pg.oid_lookup ≡ look
      → Read
          (catalog s)
          name
          (query_oid pg q look m name s).0
          (catalog (query_oid pg q look m name s).1)
  unfolding query_oid
  query_reads (some query) look m name s e f =
      continue_ind (λ out. Read (catalog s) name out.0 (catalog out.1)) (database_oid_query name) _
        s
        (λ sql _.
          Read-scalar name s (query m name sql s) (law.scalar_keeps query m name sql s e)
            (λ v. law.scalar_answers query m name sql s v e))
        (λ x _. refl)
  query_reads none (some lookup) m name s e f =
      Read-scalar name s (lookup name s) (law.lookup_keeps lookup name s f)
        (λ v. law.lookup_answers lookup name s v f)
  query_reads none none m name s e f = refl

  -- Reading an identifier changes nothing, and what is returned is the catalog's entry.
  pub database_oid_reads :
      (m name : String) (s : S)
      → Read (catalog s) name (database_oid pg m name s).0 (catalog (database_oid pg m name s).1)
  unfolding database_oid
  database_oid_reads m name s = query_reads pg.psql_scalar pg.oid_lookup m name s refl refl
