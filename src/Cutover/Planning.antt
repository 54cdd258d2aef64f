-- ===== src/Cutover/Planning.antt =====
-- Planning a cutover (odooctl/odoo/db_swap.py: `plan_database_cutover`).
pub mod Ready
use odooctl.Prelude.{ℕ, String, ◌==◌, Option, none, some, opt_eqb, is_some}
use odooctl.Prelude.Exec.{Exec, lift, ◌>>=◌, ◌>>◌}
use odooctl.Prelude.Results.{ok, err}
use odooctl.Cutover.State.{Plan, Failure, Checked, value_error, runtime_error}
use odooctl.Cutover.Names.{validate_database_name, database_cutover_aside_name}
use odooctl.Cutover.Postgres.{Adapter, database_oid}
use odooctl.Cutover.Fence.{checked_plan, reject_if, among}

require_present : String → Option ℕ → Checked ℕ
require_present incoming_db none = err (runtime_error "Incoming database does not exist")
require_present incoming_db (some oid) = ok oid

module _ (hexdigest : String → String) where
  module _ {S : Type 0} (pg : Adapter S) where
    unfoldable pub plan_database_cutover : String → String → String → String → Exec S Failure Plan
    unfolding require_present
    plan_database_cutover incoming_db target_db cutover_id maintenance_db = do
      lift (validate_database_name incoming_db "incoming_db")
      lift (validate_database_name target_db "target_db")
      lift (validate_database_name maintenance_db "maintenance_db")
      lift (
          reject_if (incoming_db == target_db)
            (value_error "incoming_db must differ from target_db"))
      aside_db ← lift (database_cutover_aside_name hexdigest target_db incoming_db cutover_id)
      lift (
          reject_if (among maintenance_db incoming_db target_db aside_db)
            (value_error "maintenance_db must be separate from cutover databases"))
      found ← database_oid pg maintenance_db incoming_db
      incoming_oid ← lift (require_present incoming_db found)
      target_oid ← database_oid pg maintenance_db target_db
      aside_oid ← database_oid pg maintenance_db aside_db
      lift (
          reject_if (is_some aside_oid)
            (runtime_error "Cutover aside database is already occupied; refusing to overwrite it"))
      lift (
          reject_if (opt_eqb target_oid (some incoming_oid))
            (runtime_error "Incoming and target database OIDs unexpectedly match"))
      lift (
          checked_plan hexdigest (record {
            cutover_id = cutover_id;
            incoming_db = incoming_db;
            target_db = target_db;
            aside_db = aside_db;
            incoming_oid = incoming_oid;
            target_oid = target_oid;
            maintenance_db = maintenance_db;
          }))
