-- ===== src/Cutover/Cluster.antt =====
-- A database cluster that fails as a script says: an instance of what the cutover relies on.
pub mod Working
use odooctl.Prelude.{
  ℕ, String, ◌≡◌, refl, sym, ◌⊎◌, inl, inr, Bool, true, false, ◌&&◌, Option, none, some, List, [],
  ◌∷◌, leb, if◌then◌else◌, is_some, arith, update, Bool-cases, subst, some_cancel,
}
use odooctl.Prelude.Exec.{Exec}
use odooctl.Prelude.Results.{Result, ok, err, ok-injective}
use odooctl.Cutover.State.{Failure, adapter_error}
use odooctl.Cutover.Postgres.{
  Statement, terminate_backends, drop, rename, Scalar, absent, integer, Adapter, Catalog, Answers,
  Renamed, moved, IsPostgres, max_oid,
}

-- What becomes of one command: it runs, it fails, or it takes effect and its answer is lost.
pub data Fault : Type 0 where
  fine refused lost : Fault

pub record Cluster : Type 0 where
  pub databases : Catalog
  pub script : List Fault

abbrev pub next_fault : List Fault → Fault
next_fault [] = fine
next_fault (f ∷ fs) = f

abbrev pub rest_of : List Fault → List Fault
rest_of [] = []
rest_of (f ∷ fs) = fs

renaming : Catalog → String → String → Option ℕ → Option ℕ → Option Catalog
renaming c old new (some oid) none = some (moved c old new oid)
renaming c old new _ _ = none

effect : Statement → Catalog → Option Catalog
unfolding renaming
effect (terminate_backends name) c = some c
effect (drop name) c = some (update c name none)
effect (rename old new) c = renaming c old new (c old) (c new)

answered : Fault → Result Failure (Unit {0})
answered fine = ok tt
answered _ = err adapter_error

took_effect : Fault → Bool
took_effect refused = false
took_effect _ = true

perform : Option Catalog → Fault → Cluster → Result Failure (Unit {0}) × Cluster
unfolding answered took_effect
perform none fault s = (err adapter_error, record s { script = rest_of s.script })
perform (some c') fault s = (
  answered fault,
  record { databases = if took_effect fault then c' else s.databases; script = rest_of s.script },
)

abbrev pub told : Fault → Option ℕ → Result Failure Bool
told fine o = ok (is_some o)
told refused o = err adapter_error
told lost o = err adapter_error

-- An identifier that PostgreSQL may hand out.
unfoldable pub valid_oid : ℕ → Bool
valid_oid oid = leb 1 oid && leb oid max_oid

shown : Option ℕ → Fault → Result Failure Scalar
unfolding valid_oid
shown none fine = ok absent
shown (some oid) fine = if valid_oid oid then ok (integer oid) else err adapter_error
shown _ _ = err adapter_error

unfoldable pub cluster_psql : String → Statement → String → Exec Cluster Failure (Unit {0})
unfolding effect perform
cluster_psql m statement sql s = perform (effect statement s.databases) (next_fault s.script) s

unfoldable pub cluster_scalar : String → String → String → Exec Cluster Failure Scalar
unfolding shown
cluster_scalar m name sql s =
    (shown (s.databases name) (next_fault s.script), record s { script = rest_of s.script })

unfoldable pub cluster_exists : String → Exec Cluster Failure Bool
cluster_exists name s =
    (told (next_fault s.script) (s.databases name), record s { script = rest_of s.script })

abbrev pub cluster : Adapter Cluster
cluster = record {
  psql = cluster_psql;
  psql_scalar = some cluster_scalar;
  oid_lookup = none;
  database_exists = some cluster_exists;
}

shown-Answers : (o : Option ℕ) (f : Fault) (v : Scalar) → shown o f ≡ ok v → Answers v o
unfolding shown
shown-Answers none fine absent h = tt
shown-Answers none fine _ h = cc
shown-Answers (some oid) fine v h = elim (Bool-cases (valid_oid oid)) [
  | inl valid ↦
      subst (λ x. Answers x (some oid)) (ok-injective (rw valid at h)) (ground (arith, valid))
  | inr bad ↦ cc (bad, h)
]
shown-Answers none _ v h = cc
shown-Answers (some oid) _ v h = cc

perform_done :
    (o : Option Catalog) (f : Fault) (s : Cluster) (u : Unit {0})
    → (perform o f s).0 ≡ ok u
    → o ≡ some (perform o f s).1.databases
unfolding perform
perform_done none f s u h = cc
perform_done (some c) fine s u h = refl
perform_done (some c) _ s u h = cc

perform_failed :
    (o : Option Catalog) (f : Fault) (s : Cluster) (e : Failure)
    → (perform o f s).0 ≡ err e
    → ((perform o f s).1.databases ≡ s.databases) ⊎ (o ≡ some (perform o f s).1.databases)
unfolding perform
perform_failed none f s e h = inl refl
perform_failed (some c) fine s e h = cc
perform_failed (some c) refused s e h = inl refl
perform_failed (some c) lost s e h = inr refl

renaming-Renamed :
    (c c' : Catalog) (old new : String) (a b : Option ℕ)
    → c old ≡ a
    → c new ≡ b
    → renaming c old new a b ≡ some c'
    → Renamed old new c c'
unfolding renaming
renaming-Renamed c c' old new (some oid) none p q h = (oid, p, q, cc)
renaming-Renamed c c' old new none none p q h = cc
renaming-Renamed c c' old new none (some b) p q h = cc
renaming-Renamed c c' old new (some a) (some b) p q h = cc

effect-rename :
    (c c' : Catalog) (old new : String) → effect (rename old new) c ≡ some c' → Renamed old new c c'
unfolding effect
effect-rename c c' old new h = renaming-Renamed c c' old new (c old) (c new) refl refl h

terminate_effect :
    (m name sql : String) (s : Cluster)
    → (cluster_psql m (terminate_backends name) sql s).1.databases ≡ s.databases
unfolding cluster_psql
terminate_effect m name sql s = go (next_fault s.script)
  where
    go : (f : Fault) → (if took_effect f then s.databases else s.databases) ≡ s.databases
    go refused = refl
    go _ = refl

-- The scripted cluster does what is relied on of PostgreSQL, whatever the script.
pub cluster-IsPostgres : IsPostgres cluster (λ s. s.databases)
unfolding cluster_psql cluster_scalar
cluster-IsPostgres = record {
  scalar_keeps = λ query m name sql s e.
      subst (λ q. (q m name sql s).1.databases ≡ s.databases) (some_cancel e) refl;
  scalar_answers = λ query m name sql s v e h.
      shown-Answers (s.databases name) (next_fault s.script) v
        (subst (λ q. (q m name sql s).0 ≡ ok v) (sym (some_cancel e)) h);
  lookup_keeps = λ lookup name s e. cc;
  lookup_answers = λ lookup name s v e h. cc;
  terminate_keeps = terminate_effect;
  rename_done = λ m old new sql s u h.
      effect-rename s.databases _ old new (perform_done _ (next_fault s.script) s u h);
  rename_failed = λ m old new sql s x h.
      elim (perform_failed (effect (rename old new) s.databases) (next_fault s.script) s x h) [
        | inl same ↦ inl same
        | inr e ↦ inr (effect-rename s.databases _ old new e)
      ];
  drop_done = λ m name sql s u h.
      sym (some_cancel (perform_done (effect (drop name) s.databases) (next_fault s.script) s u h));
  drop_failed = λ m name sql s x h.
      elim (perform_failed (effect (drop name) s.databases) (next_fault s.script) s x h) [
        | inl same ↦ inl same
        | inr e ↦ inr (sym (some_cancel e))
      ];
}
