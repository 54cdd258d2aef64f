-- ===== src/Cutover/Reconcile/Truth.antt =====
-- What a reconciliation reports is what is there.
use odooctl.Prelude.{ℕ, String, ◌≡◌, refl, subst, ◌⊎◌, inl, inr, Option, none, some, arith}
use odooctl.Prelude.Exec.{Exec, continue}
use odooctl.Prelude.Results.{Result, ok, err}
use odooctl.Cutover.State.{
  Plan, State, ready, target_moved_aside, promoted, finalized, conflict, unknown, Status,
  CutoverError, Kind, plain, Failure, cutover_error,
}
use odooctl.Cutover.Postgres.{Adapter, IsPostgres, Catalog, database_oid}
use odooctl.Cutover.Postgres.Outcomes.{Read, database_oid_reads}
use odooctl.Cutover.Phases.{At}
use odooctl.Cutover.Reconcile.{
  Observed, classify, classified, observed_status, observe, reconcile_database_cutover, described,
  reraised, reconcile_or, cutover_failure,
}

-- The catalog as a reconciliation sees it.
abbrev pub seen : Plan → Catalog → Observed
seen plan c = record {
  incoming = c plan.incoming_db;
  target = c plan.target_db;
  aside = c plan.aside_db;
}

pub classify-At :
    (plan : Plan) (c : Catalog) (st : State) → classify plan (seen plan c) ≡ some st → At plan c st
unfolding classify
classify-At plan c ready h = ground arith
classify-At plan c target_moved_aside h = ground arith
classify-At plan c promoted h = ground arith
classify-At plan c finalized h = ground arith
classify-At plan c conflict h = ground arith
classify-At plan c unknown h = ground arith

pub At-classify :
    (plan : Plan) (c : Catalog) (st : State) → At plan c st → classify plan (seen plan c) ≡ some st
unfolding classify
At-classify plan c ready h = ground arith
At-classify plan c target_moved_aside h = ground arith
At-classify plan c promoted h = ground arith
At-classify plan c finalized h = ground arith
At-classify plan c conflict h = absurd h
At-classify plan c unknown h = absurd h

-- The databases are in one phase at most.
pub At-unique : (plan : Plan) (c : Catalog) (a b : State) → At plan c a → At plan c b → a ≡ b
At-unique plan c a b p q = cc (At-classify plan c a p, At-classify plan c b q)

abbrev pub Seen : Plan → Catalog → Result Failure Observed → Catalog → Type 0
Seen plan c (ok o) c' = (c' ≡ c) × (o ≡ seen plan c)
Seen plan c (err e) c' = c' ≡ c

-- A status is returned for the phase that the databases are in. Otherwise the error says that the
-- state is unknown, or that there is a conflict: then the databases are in no phase of the plan.
abbrev pub Reconciled : Plan → Catalog → Result Failure Status → Type 0
Reconciled plan c (ok st) = At plan c st.state
Reconciled plan c (err (cutover_error e)) =
    (e.status.state ≡ unknown) ⊎ ((e.status.state ≡ conflict) × ((b : State) → ¬ At plan c b))
Reconciled plan c (err _) = ⊥

-- The same where the databases are in some phase.
abbrev pub Known : Plan → Catalog → Result Failure Status → Type 0
Known plan c (ok st) = At plan c st.state
Known plan c (err (cutover_error e)) = e.status.state ≡ unknown
Known plan c (err _) = ⊥

-- A status that claims a phase claims the one that is there.
abbrev pub IsTrue : Plan → Catalog → Status → Type 0
IsTrue plan c st = (st.state ≡ unknown) ⊎ At plan c st.state

abbrev pub Described : Plan → Catalog → Result Failure CutoverError → Type 0
Described plan c (ok e) = (e.kind ≡ plain) × IsTrue plan c e.status
Described plan c (err _) = ⊥

classified-Reconciled :
    (plan : Plan) (c : Catalog) (o : Option State)
    → classify plan (seen plan c) ≡ o
    → Reconciled plan c (classified plan (seen plan c) o)
classified-Reconciled plan c (some st) e = classify-At plan c st e
classified-Reconciled plan c none e = inr (refl, λ b at. cc (At-classify plan c b at, e))

observed-Reconciled :
    (plan : Plan) (c c' : Catalog) (r : Result Failure Observed)
    → Seen plan c r c'
    → (c' ≡ c) × Reconciled plan c (observed_status plan r)
observed-Reconciled plan c c' (ok o) (same, e) =
    (same, rw e (classified-Reconciled plan c (classify plan (seen plan c)) refl))
observed-Reconciled plan c c' (err x) same = (same, inl refl)

Reconciled-Known :
    (plan : Plan) (c : Catalog) (b : State) (r : Result Failure Status)
    → At plan c b
    → Reconciled plan c r
    → Known plan c r
Reconciled-Known plan c b (ok st) at h = h
Reconciled-Known plan c b (err (cutover_error e)) at (inl h) = h
Reconciled-Known plan c b (err (cutover_error e)) at (inr h) = absurd (h.1 b at)
Reconciled-Known plan c b (err _) at h = absurd h

reraised-Known :
    (plan : Plan) (c : Catalog) (kind : Kind) (message : String) (r : Result Failure Status)
    → Known plan c r
    → Known plan c (reraised kind message r)
reraised-Known plan c kind message (ok st) h = h
reraised-Known plan c kind message (err (cutover_error e)) h = h
reraised-Known plan c kind message (err _) h = absurd h

described-Described :
    (plan : Plan) (c : Catalog) (message : String) (r : Result Failure Status)
    → Known plan c r
    → Described plan c (described message r)
described-Described plan c message (ok st) h = (refl, inr h)
described-Described plan c message (err (cutover_error e)) h = (refl, inl h)
described-Described plan c message (err _) h = absurd h

module _ {S : Type 0} (pg : Adapter S) (catalog : S → Catalog) (law : IsPostgres pg catalog)
    (plan : Plan) where
  Read-next :
      (c : Catalog) (name : String) (f : Option ℕ → Exec S Failure Observed)
      → ((o : Option ℕ) (s' : S)
          → catalog s' ≡ c
          → c name ≡ o
          → Seen plan c (f o s').0 (catalog (f o s').1))
      → (call : Result Failure (Option ℕ) × S) → Read c name call.0 (catalog call.1)
      → Seen plan c (continue call.0 f call.1).0 (catalog (continue call.0 f call.1).1)
  Read-next c name f k (ok o, s') (same, e) = k o s' same e
  Read-next c name f k (err x, s') same = same

  reads_from :
      (c : Catalog) (name : String) (s : S)
      → catalog s ≡ c
      → Read c name
          (database_oid pg plan.maintenance_db name s).0
          (catalog (database_oid pg plan.maintenance_db name s).1)
  reads_from c name s e =
      subst
        (λ d.
          Read d name (database_oid pg plan.maintenance_db name s).0
            (catalog (database_oid pg plan.maintenance_db name s).1))
        e (database_oid_reads pg catalog law plan.maintenance_db name s)

  observe-Seen :
      (c : Catalog) (s : S)
      → catalog s ≡ c
      → Seen plan c (observe pg plan s).0 (catalog (observe pg plan s).1)
  unfolding observe
  observe-Seen c s e =
      Read-next c plan.incoming_db _
        (λ i s1 e1 ei.
          Read-next c plan.target_db _
            (λ t s2 e2 et.
              Read-next c plan.aside_db _ (λ a s3 e3 ea. (e3, cc (ei, et, ea))) _
                (reads_from c plan.aside_db s2 e2))
            _ (reads_from c plan.target_db s1 e1))
        _ (reads_from c plan.incoming_db s e)

  -- A reconciliation changes no database. A status that it returns names the phase that the databases
  -- are in; what it raises is a DatabaseCutoverError whose state is unknown, or is a conflict, and
  -- then the databases are in no phase of the plan.
  pub reconcile-Reconciled :
      (s : S)
      → (catalog (reconcile_database_cutover pg plan s).1 ≡ catalog s)
        × Reconciled plan (catalog s) (reconcile_database_cutover pg plan s).0
  unfolding reconcile_database_cutover
  reconcile-Reconciled s =
      observed-Reconciled plan (catalog s) _ (observe pg plan s).0 (observe-Seen (catalog s) s refl)

  module _ (b : State) where
    pub reconcile-Known :
        (s : S)
        → At plan (catalog s) b
        → (catalog (reconcile_database_cutover pg plan s).1 ≡ catalog s)
          × Known plan (catalog s) (reconcile_database_cutover pg plan s).0
    reconcile-Known s at =
        let (same, told) = reconcile-Reconciled s in
        (same, Reconciled-Known plan (catalog s) b _ at told)

    pub reconcile_or-Known :
        (kind : Kind) (message : String) (s : S)
        → At plan (catalog s) b
        → (catalog (reconcile_or pg plan kind message s).1 ≡ catalog s)
          × Known plan (catalog s) (reconcile_or pg plan kind message s).0
    reconcile_or-Known kind message s at =
        let (same, told) = reconcile-Known s at in
        (same, reraised-Known plan (catalog s) kind message _ told)

    pub cutover_failure-Described :
        (message : String) (s : S)
        → At plan (catalog s) b
        → (catalog (cutover_failure pg plan message s).1 ≡ catalog s)
          × Described plan (catalog s) (cutover_failure pg plan message s).0
    unfolding cutover_failure
    cutover_failure-Described message s at =
        let (same, told) = reconcile-Known s at in
        (same, described-Described plan (catalog s) message _ told)
