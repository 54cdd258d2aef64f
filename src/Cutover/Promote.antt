-- ===== src/Cutover/Promote.antt =====
-- Putting the incoming database in the target's place (odooctl/odoo/db_swap.py:
-- `promote_database_cutover`, `_restore_old_target_after_failed_promotion`).
pub mod Renames
pub mod Safety
pub mod Live
use odooctl.Prelude.{
  ℕ, String, Bool, true, false, ◌&&◌, ◌||◌, not, Option, none, some, opt_eqb, is_some,
  if◌then◌else◌,
}
use odooctl.Prelude.Exec.{Exec, pure, raise, lift, try_else, ◌>>=◌}
use odooctl.Prelude.Results.{ok, err}
use odooctl.Cutover.State.{
  Plan, Status, is_promoted, error_promoted, truthy, plain, Failure, cutover_error, cutover_failed,
}
use odooctl.Cutover.Postgres.{Adapter, terminate_connections, rename_database}
use odooctl.Cutover.Reconcile.{
  reconcile_database_cutover, cutover_failure, reconcile_or, is_ready, is_moved,
}

module _ {S : Type 0} (pg : Adapter S) where
  -- The handler of `_restore_old_target_after_failed_promotion` where the rename back failed.
  rollback_failed : Plan → Exec S Failure Status
  rollback_failed plan = do
    failure ←
        cutover_failure pg plan "Database promotion failed and restoring the old target also failed"
    if is_ready failure.status.state
        then raise (
            cutover_failed plain
              "Database promotion failed; the original target was restored despite a lost rollback response"
              failure.status)
        else if truthy (error_promoted failure)
        then pure failure.status
        else raise (cutover_error failure)

  rollback_done : Plan → Exec S Failure Status
  rollback_done plan = do
    status ←
        reconcile_or pg plan plain
          "Database promotion failed; the rollback response was received but its resulting state is unknown"
    if is_ready status.state
        then raise (
            cutover_failed plain "Database promotion failed; the original target was restored"
              status)
        else raise (
            cutover_failed plain
              "Database promotion failed and rollback did not restore the ready state" status)

  restore_old_target : Plan → Exec S Failure Status
  unfolding rollback_failed rollback_done
  restore_old_target plan =
      try_else (rename_database pg plan.maintenance_db plan.aside_db plan.target_db)
        (rollback_failed plan) (rollback_done plan)

  terminate_failed : Plan → Exec S Failure Status
  terminate_failed plan = do
    failure ←
        cutover_failure pg plan "Could not terminate connections to the original target database"
    if truthy (error_promoted failure) then pure failure.status else raise (cutover_error failure)

  aside_failed : Plan → Exec S Failure Status
  aside_failed plan = do
    failure ← cutover_failure pg plan "Could not move the original target database aside"
    if is_moved failure.status.state
        then pure failure.status
        else if truthy (error_promoted failure)
        then pure failure.status
        else raise (cutover_error failure)

  rename_aside : Plan → Exec S Failure Status
  unfolding aside_failed
  rename_aside plan =
      try_else (rename_database pg plan.maintenance_db plan.target_db plan.aside_db)
        (aside_failed plan) (reconcile_database_cutover pg plan)

  recheck_target : Plan → Exec S Failure Status
  unfolding rename_aside
  recheck_target plan = do
    status ← reconcile_database_cutover pg plan
    if is_promoted status
        then pure status
        else if is_ready status.state
        then rename_aside plan
        else if is_moved status.state
        then pure status
        else raise (
            cutover_failed plain "Original target identity changed before it could be moved aside"
              status)

  -- The block for a target that exists and is still in its place.
  move_target_aside : Plan → Exec S Failure Status
  unfolding terminate_failed recheck_target
  move_target_aside plan =
      try_else (terminate_connections pg plan.maintenance_db plan.target_db) (terminate_failed plan)
        (recheck_target plan)

  promotion_unchanged : Status → Exec S Failure Status
  promotion_unchanged status =
      raise (
        cutover_failed plain "Database promotion failed before changing database identities" status)

  promotion_failed : Plan → Exec S Failure Status
  unfolding restore_old_target promotion_unchanged
  promotion_failed plan = do
    after_failure ←
        reconcile_or pg plan plain
          "Database promotion response was lost and the resulting state could not be determined"
    if is_promoted after_failure
        then pure after_failure
        else if is_moved after_failure.state
        then (do
          rollback_result ← restore_old_target plan
          if is_promoted rollback_result
              then pure rollback_result
              else promotion_unchanged after_failure)
        else promotion_unchanged after_failure

  promotion_done : Plan → Exec S Failure Status
  promotion_done plan = do
    status ←
        reconcile_or pg plan plain
          "Database promotion command completed but the resulting state could not be determined"
    if is_promoted status
        then pure status
        else raise (
            cutover_failed plain "Database promotion command did not produce a promoted state"
              status)

  promote_incoming : Plan → Exec S Failure Status
  unfolding promotion_failed promotion_done
  promote_incoming plan =
      try_else (rename_database pg plan.maintenance_db plan.incoming_db plan.target_db)
        (promotion_failed plan) (promotion_done plan)

  promote_from : Plan → Status → Exec S Failure Status
  unfolding promote_incoming
  promote_from plan status =
      if is_promoted status
      then pure status
      else if is_ready status.state || is_moved status.state
      then promote_incoming plan
      else raise (cutover_failed plain "Database cutover is not in a promotable state" status)

  prepare_target : Plan → Status → Exec S Failure Status
  unfolding move_target_aside
  prepare_target plan status =
      if is_ready status.state && is_some plan.target_oid
      then move_target_aside plan
      else pure status

  unfoldable pub promote_database_cutover : Plan → Exec S Failure Status
  unfolding reconcile_database_cutover prepare_target promote_from
  promote_database_cutover plan = do
    status ← reconcile_database_cutover pg plan
    if is_promoted status then pure status else prepare_target plan status >>= promote_from plan
