-- ===== src/Cutover/Finalize.antt =====
-- Removing the old database (odooctl/odoo/db_swap.py: `finalize_database_cutover`).
pub mod Safety
use odooctl.Prelude.{
  ℕ, String, Bool, true, false, ◌&&◌, ◌||◌, not, Option, none, some, opt_eqb, is_some,
  if◌then◌else◌,
}
use odooctl.Prelude.Exec.{Exec, pure, raise, lift, try_else, ◌>>=◌}
use odooctl.Prelude.Results.{ok, err}
use odooctl.Cutover.State.{
  Plan, finalized, Status, is_promoted, plain, cleanup, Failure, fence_error, cutover_failed,
}
use odooctl.Cutover.Postgres.{Adapter, terminate_connections, drop_database}
use odooctl.Cutover.Reconcile.{
  reconcile_database_cutover, reconcile_or, is_finalized, is_promoted_state,
}

module _ {S : Type 0} (pg : Adapter S) where
  cleanup_failed : Plan → Exec S Failure Status
  cleanup_failed plan = do
    after_failure ←
        reconcile_or pg plan cleanup
          "Database promotion succeeded, but old-database cleanup failed and its result could not be determined"
    if is_finalized after_failure.state
        then pure after_failure
        else raise (
            cutover_failed cleanup
              "Database promotion succeeded, but the old database remains and cleanup must be retried"
              after_failure)

  cleanup_done : Plan → Exec S Failure Status
  cleanup_done plan = do
    status ←
        reconcile_or pg plan cleanup
          "Database promotion succeeded and cleanup returned, but the resulting state could not be determined"
    if is_finalized status.state
        then pure status
        else raise (
            cutover_failed cleanup
              "Database promotion succeeded, but old-database cleanup did not reach the finalized state"
              status)

  drop_aside : Plan → Exec S Failure Status
  unfolding cleanup_failed cleanup_done
  drop_aside plan =
      try_else (drop_database pg plan.maintenance_db plan.aside_db) (cleanup_failed plan)
        (cleanup_done plan)

  recheck_aside : Plan → Exec S Failure Status
  unfolding drop_aside
  recheck_aside plan = do
    status ←
        reconcile_or pg plan cleanup
          "Database promotion succeeded, but the old database identity could not be re-verified before cleanup"
    if is_finalized status.state
        then pure status
        else if is_promoted_state status.state
        then drop_aside plan
        else raise (
            cutover_failed cleanup
              "Database promotion succeeded, but the old database identity changed before cleanup"
              status)

  release_aside : Plan → Status → Exec S Failure Status
  unfolding recheck_aside
  release_aside plan status =
      try_else (terminate_connections pg plan.maintenance_db plan.aside_db)
        (raise (
          cutover_failed cleanup
            "Database promotion succeeded, but connections to the old database could not be terminated"
            status))
        (recheck_aside plan)

  finalize_from : Plan → Status → Exec S Failure Status
  unfolding release_aside
  finalize_from plan status =
      if not (is_promoted status)
      then raise (
          cutover_failed plain "Cannot finalize a database cutover that has not been promoted"
            status)
      else if is_finalized status.state
      then pure status
      else if is_some plan.target_oid
      then release_aside plan status
      else pure (record status { state = finalized })

  unfoldable pub finalize_database_cutover : Plan → Bool → Exec S Failure Status
  unfolding reconcile_database_cutover finalize_from
  finalize_database_cutover plan cutover_durably_recorded =
      if cutover_durably_recorded
      then reconcile_database_cutover pg plan >>= finalize_from plan
      else raise
          (fence_error "Refusing to remove the old database before cutover is durably recorded")
