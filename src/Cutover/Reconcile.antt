-- ===== src/Cutover/Reconcile.antt =====
-- Reconciling a cutover with the databases that are there (odooctl/odoo/db_swap.py:
-- `reconcile_database_cutover`, `_cutover_failure`).
pub mod Truth
pub mod Answered
use Prim.Native.String.{◌++◌}
use odooctl.Prelude.{
  ℕ, String, Bool, true, false, ◌&&◌, ◌||◌, not, Option, none, some, opt_eqb, is_some,
  if◌then◌else◌,
}
use odooctl.Prelude.Exec.{Exec, pure, raise, lift, attempt, ◌>>=◌}
use odooctl.Prelude.Results.{Result, ok, err}
use odooctl.Cutover.State.{
  Plan, State, ready, target_moved_aside, promoted, finalized, Status, CutoverError, Kind, plain,
  conflicting, Failure, cutover_error, unknown_cutover_status, conflict_status, cutover_failed,
  Checked,
}
use odooctl.Cutover.Postgres.{Adapter, database_oid}

-- The three object identifiers that a reconciliation reads.
pub record Observed : Type 0 where
  pub incoming : Option ℕ
  pub target : Option ℕ
  pub aside : Option ℕ

abbrev pub observes : Observed → Option ℕ → Option ℕ → Option ℕ → Bool
observes seen i t a = opt_eqb seen.incoming i && opt_eqb seen.target t && opt_eqb seen.aside a

-- The dictionary of states, by whether the target existed when the cutover was planned.
classify_oids : ℕ → Option ℕ → Observed → Option State
classify_oids incoming_oid none seen =
    if observes seen (some incoming_oid) none none
    then some ready
    else if observes seen none (some incoming_oid) none
    then some promoted
    else none
classify_oids incoming_oid (some target_oid) seen =
    if observes seen (some incoming_oid) (some target_oid) none
    then some ready
    else if observes seen (some incoming_oid) none (some target_oid)
    then some target_moved_aside
    else if observes seen none (some incoming_oid) (some target_oid)
    then some promoted
    else if observes seen none (some incoming_oid) none
    then some finalized
    else none

unfoldable pub classify : Plan → Observed → Option State
unfolding classify_oids
classify plan seen = classify_oids plan.incoming_oid plan.target_oid seen

abbrev pub classified : Plan → Observed → Option State → Checked Status
classified plan seen none = err (
    cutover_failed conflicting "Database names/OIDs conflict with the recorded cutover plan"
      (conflict_status plan seen.incoming seen.target seen.aside))
classified plan seen (some state) = ok (record {
  plan = plan;
  state = state;
  observed_incoming_oid = seen.incoming;
  observed_target_oid = seen.target;
  observed_aside_oid = seen.aside;
  observation_complete = true;
})

abbrev pub observed_status : Plan → Result Failure Observed → Checked Status
observed_status plan (ok seen) = classified plan seen (classify plan seen)
observed_status plan (err _) = err (
    cutover_failed plain "Could not determine the database cutover state"
      (unknown_cutover_status plan))

-- An error value: what the reconciliation after a failed command says.
abbrev pub described : String → Result Failure Status → Checked CutoverError
described message (ok status) = ok (record { kind = plain; message = message; status = status })
described message (err (cutover_error e)) = ok (record {
  kind = plain;
  message = message ++ "; the resulting state could not be determined";
  status = e.status;
})
described message (err e) = err e

-- Where a reconciliation raises a DatabaseCutoverError, a new one with its status is raised.
abbrev pub reraised : Kind → String → Result Failure Status → Checked Status
reraised kind message (err (cutover_error e)) = err (cutover_failed kind message e.status)
reraised kind message r = r

-- `state is X`
abbrev pub is_ready : State → Bool
is_ready ready = true
is_ready _ = false

abbrev pub is_moved : State → Bool
is_moved target_moved_aside = true
is_moved _ = false

abbrev pub is_finalized : State → Bool
is_finalized finalized = true
is_finalized _ = false

abbrev pub is_promoted_state : State → Bool
is_promoted_state promoted = true
is_promoted_state _ = false

module _ {S : Type 0} (pg : Adapter S) where
  observe : Plan → Exec S Failure Observed
  observe plan = do
    incoming_oid ← database_oid pg plan.maintenance_db plan.incoming_db
    target_oid ← database_oid pg plan.maintenance_db plan.target_db
    aside_oid ← database_oid pg plan.maintenance_db plan.aside_db
    pure (record { incoming = incoming_oid; target = target_oid; aside = aside_oid })

  unfoldable pub reconcile_database_cutover : Plan → Exec S Failure Status
  unfolding observe
  reconcile_database_cutover plan = do
    seen ← attempt (observe plan)
    lift (observed_status plan seen)

  unfoldable pub cutover_failure : Plan → String → Exec S Failure CutoverError
  cutover_failure plan message = do
    status ← attempt (reconcile_database_cutover plan)
    lift (described message status)

  abbrev pub reconcile_or : Plan → Kind → String → Exec S Failure Status
  reconcile_or plan kind message = do
    status ← attempt (reconcile_database_cutover plan)
    lift (reraised kind message status)
