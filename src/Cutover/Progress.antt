-- ===== src/Cutover/Progress.antt =====
-- The invariant of the steps of a promotion or a finalization, and what each of them reports.
use odooctl.Prelude.{String, ◌≡◌, sym, subst, inl, Bool, true}
use odooctl.Prelude.Exec.{Exec, continue, chosen, try_else, ◌>>=◌}
use odooctl.Prelude.Results.{Result, ok, err}
use odooctl.Cutover.State.{Plan, State, Status, CutoverError, Kind, plain, Failure, cutover_error}
use odooctl.Cutover.Postgres.{Adapter, IsPostgres, Catalog}
use odooctl.Cutover.Phases.{At, SameElsewhere}
use odooctl.Cutover.Reconcile.{reconcile_database_cutover, reconcile_or, cutover_failure}
use odooctl.Cutover.Reconcile.Truth.{
  IsTrue, Known, Described, reconcile-Known, reconcile_or-Known, cutover_failure-Described,
}

-- From the catalog `start`, in phase `from`, the steps so far led to the catalog `c`, in a phase
-- that `allowed` permits, and no other database was touched.
pub record Progress (plan : Plan) (allowed : State → State → Bool) (from : State)
    (start c : Catalog) : Type 0 where
  pub phase : State
  pub at : At plan c phase
  pub permitted : allowed from phase ≡ true
  pub elsewhere : SameElsewhere plan start c

-- What is returned satisfies `R` and names the phase that the databases are in. What is raised is a
-- DatabaseCutoverError whose status names that phase, or is unknown.
abbrev pub Reported : (Status → Type 0) → Plan → Catalog → Result Failure Status → Type 0
Reported R plan c (ok st) = R st × At plan c st.state
Reported R plan c (err (cutover_error e)) = IsTrue plan c e.status
Reported R plan c (err _) = ⊥

module _ {S : Type 0} (catalog : S → Catalog) (plan : Plan) (allowed : State → State → Bool)
    (from : State) (start : Catalog) where
  abbrev pub Doing : S → Type 0
  Doing s = Progress plan allowed from start (catalog s)

  abbrev pub Done : (Status → Type 0) → Result Failure Status × S → Type 0
  Done R out = Doing out.1 × Reported R plan (catalog out.1) out.0

  pub Doing-same : (s s' : S) → catalog s' ≡ catalog s → Doing s → Doing s'
  Doing-same s s' e p = subst (Progress plan allowed from start) (sym e) p

module _ {S : Type 0} (pg : Adapter S) (catalog : S → Catalog) (law : IsPostgres pg catalog)
    (plan : Plan) (allowed : State → State → Bool) (from : State) (start : Catalog)
    (R : Status → Type 0) where
  abbrev IsDoing : S → Type 0
  IsDoing = Doing catalog plan allowed from start

  abbrev IsDone : Result Failure Status × S → Type 0
  IsDone = Done catalog plan allowed from start R

  after-Known :
      (k : Status → Exec S Failure Status) (s : S)
      → IsDoing s
      → ((st : Status) (s' : S) → IsDoing s' → At plan (catalog s') st.state → IsDone (k st s'))
      → (call : Result Failure Status × S)
      → (catalog call.1 ≡ catalog s) × Known plan (catalog s) call.0
      → IsDone (continue call.0 k call.1)
  after-Known k s p ks (ok st, s') (same, told) =
      ks st s' (Doing-same catalog plan allowed from start s s' same p)
        (subst (λ c. At plan c st.state) (sym same) told)
  after-Known k s p ks (err (cutover_error e), s') (same, told) =
      (Doing-same catalog plan allowed from start s s' same p, inl told)
  after-Known k s p ks (err _, s') (same, told) = absurd told

  -- What follows a reconciliation may rely on the phase that it returned.
  pub after_reconcile :
      (k : Status → Exec S Failure Status) (s : S)
      → IsDoing s
      → ((st : Status) (s' : S) → IsDoing s' → At plan (catalog s') st.state → IsDone (k st s'))
      → IsDone ((reconcile_database_cutover pg plan >>= k) s)
  after_reconcile k s p ks =
      after-Known k s p ks (reconcile_database_cutover pg plan s)
        (reconcile-Known pg catalog law plan p.phase s p.at)

  pub after_reconcile_or :
      (kind : Kind) (message : String) (k : Status → Exec S Failure Status) (s : S)
      → IsDoing s
      → ((st : Status) (s' : S) → IsDoing s' → At plan (catalog s') st.state → IsDone (k st s'))
      → IsDone ((reconcile_or pg plan kind message >>= k) s)
  after_reconcile_or kind message k s p ks =
      after-Known k s p ks (reconcile_or pg plan kind message s)
        (reconcile_or-Known pg catalog law plan p.phase kind message s p.at)

  ends-Known :
      (s : S)
      → IsDoing s
      → ((st : Status) → R st)
      → (call : Result Failure Status × S)
      → (catalog call.1 ≡ catalog s) × Known plan (catalog s) call.0
      → IsDone call
  ends-Known s p any (ok st, s') (same, told) = (
    Doing-same catalog plan allowed from start s s' same p,
    (any st, subst (λ c. At plan c st.state) (sym same) told),
  )
  ends-Known s p any (err (cutover_error e), s') (same, told) =
      (Doing-same catalog plan allowed from start s s' same p, inl told)
  ends-Known s p any (err _, s') (same, told) = absurd told

  -- A block that ends in a reconciliation, where any status may be returned.
  pub ends_reconcile :
      (s : S) → IsDoing s → ((st : Status) → R st) → IsDone (reconcile_database_cutover pg plan s)
  ends_reconcile s p any =
      ends-Known s p any (reconcile_database_cutover pg plan s)
        (reconcile-Known pg catalog law plan p.phase s p.at)

  after-Described :
      (k : CutoverError → Exec S Failure Status) (s : S)
      → IsDoing s
      → ((e : CutoverError) (s' : S)
          → IsDoing s'
          → e.kind ≡ plain
          → IsTrue plan (catalog s') e.status
          → IsDone (k e s'))
      → (call : Result Failure CutoverError × S)
      → (catalog call.1 ≡ catalog s) × Described plan (catalog s) call.0
      → IsDone (continue call.0 k call.1)
  after-Described k s p ks (ok e, s') (same, (kind, told)) =
      ks e s' (Doing-same catalog plan allowed from start s s' same p) kind
        (subst (λ c. IsTrue plan c e.status) (sym same) told)
  after-Described k s p ks (err _, s') (same, told) = absurd told

  pub after_failure :
      (message : String) (k : CutoverError → Exec S Failure Status) (s : S)
      → IsDoing s
      → ((e : CutoverError) (s' : S)
          → IsDoing s'
          → e.kind ≡ plain
          → IsTrue plan (catalog s') e.status
          → IsDone (k e s'))
      → IsDone ((cutover_failure pg plan message >>= k) s)
  after_failure message k s p ks =
      after-Described k s p ks (cutover_failure pg plan message s)
        (cutover_failure-Described pg catalog law plan p.phase message s p.at)

  after_call :
      (handler rest : Exec S Failure Status) (call : Result Failure (Unit {0}) × S)
      → IsDoing call.1
      → ((s' : S) → IsDoing s' → IsDone (rest s'))
      → ((s' : S) → IsDoing s' → IsDone (handler s'))
      → IsDone (chosen call.0 handler rest call.1)
  after_call handler rest (ok u, s') p kr kh = kr s' p
  after_call handler rest (err e, s') p kr kh = kh s' p

  -- A command whose outcome, reported or not, leaves the cutover in a phase.
  pub after_try :
      (m : Exec S Failure (Unit {0})) (handler rest : Exec S Failure Status) (s : S)
      → IsDoing (m s).1
      → ((s' : S) → IsDoing s' → IsDone (rest s'))
      → ((s' : S) → IsDoing s' → IsDone (handler s'))
      → IsDone (try_else m handler rest s)
  after_try m handler rest s p kr kh = after_call handler rest (m s) p kr kh

  after_kept_call :
      (handler rest : Exec S Failure Status) (c : Catalog) (call : Result Failure (Unit {0}) × S)
      → catalog call.1 ≡ c
      → ((s' : S) → catalog s' ≡ c → IsDone (rest s'))
      → ((s' : S) → catalog s' ≡ c → IsDone (handler s'))
      → IsDone (chosen call.0 handler rest call.1)
  after_kept_call handler rest c (ok u, s') e kr kh = kr s' e
  after_kept_call handler rest c (err x, s') e kr kh = kh s' e

  -- A command that leaves the catalog alone.
  pub after_kept :
      (m : Exec S Failure (Unit {0})) (handler rest : Exec S Failure Status) (s : S)
      → catalog (m s).1 ≡ catalog s
      → ((s' : S) → catalog s' ≡ catalog s → IsDone (rest s'))
      → ((s' : S) → catalog s' ≡ catalog s → IsDone (handler s'))
      → IsDone (try_else m handler rest s)
  after_kept m handler rest s e kr kh = after_kept_call handler rest (catalog s) (m s) e kr kh

module _ {S : Type 0} (catalog : S → Catalog) (plan : Plan) (allowed : State → State → Bool)
    (from : State) (start : Catalog) (Q R : Status → Type 0) where
  after_report :
      (k : Status → Exec S Failure Status) (call : Result Failure Status × S)
      → Done catalog plan allowed from start Q call
      → ((st : Status) (s' : S)
          → Doing catalog plan allowed from start s'
          → Q st
          → At plan (catalog s') st.state
          → Done catalog plan allowed from start R (k st s'))
      → Done catalog plan allowed from start R (continue call.0 k call.1)
  after_report k (ok st, s') (p, (q, at)) ks = ks st s' p q at
  after_report k (err (cutover_error e), s') (p, t) ks = (p, t)
  after_report k (err _, s') (p, t) ks = absurd t

  -- One step after another.
  pub after_step :
      (m : Exec S Failure Status) (k : Status → Exec S Failure Status) (s : S)
      → Done catalog plan allowed from start Q (m s)
      → ((st : Status) (s' : S)
          → Doing catalog plan allowed from start s'
          → Q st
          → At plan (catalog s') st.state
          → Done catalog plan allowed from start R (k st s'))
      → Done catalog plan allowed from start R ((m >>= k) s)
  after_step m k s d ks = after_report k (m s) d ks
