-- ===== src/Cutover/Fence.antt =====
-- The checks of a plan (odooctl/odoo/db_swap.py: `DatabaseCutoverPlan.__post_init__`).
use odooctl.Prelude.{
  ℕ, String, ◌||◌, ◌==◌, Option, none, some, Bool, not, opt_eqb, ltb, if◌then◌else◌,
}
use odooctl.Prelude.Results.{ok, err, ◌>>=◌, ◌>>◌}
use odooctl.Cutover.State.{Plan, Failure, Checked, value_error, runtime_error}
use odooctl.Cutover.Names.{validate_database_name, validate_cutover_id, database_cutover_aside_name}
use odooctl.Cutover.Postgres.{max_oid}

-- `if test: raise error`
abbrev pub reject_if : Bool → Failure → Checked (Unit {0})
reject_if test error = if test then err error else ok tt

-- `name in {…}` of three names
abbrev pub among : String → String → String → String → Bool
among name a b c = name == a || name == b || name == c

-- `_validated_oid` of an identifier that may be `None`
abbrev checked_oid : Option ℕ → Checked (Unit {0})
checked_oid none = ok tt
checked_oid (some oid) =
    reject_if (ltb oid 1 || ltb max_oid oid)
      (runtime_error "Invalid PostgreSQL OID returned for database")

module _ (hexdigest : String → String) where
  unfoldable pub post_init : Plan → Checked (Unit {0})
  post_init plan = do
    validate_database_name plan.incoming_db "incoming_db"
    validate_database_name plan.target_db "target_db"
    validate_database_name plan.aside_db "aside_db"
    validate_database_name plan.maintenance_db "maintenance_db"
    validate_cutover_id plan.cutover_id
    reject_if (plan.incoming_db == plan.target_db)
        (value_error "incoming_db must differ from target_db")
    reject_if (among plan.maintenance_db plan.incoming_db plan.target_db plan.aside_db)
        (value_error "maintenance_db must be separate from cutover databases")
    expected_aside ←
        database_cutover_aside_name hexdigest plan.target_db plan.incoming_db plan.cutover_id
    reject_if (not (plan.aside_db == expected_aside))
        (value_error "aside_db does not match the deterministic cutover name")
    checked_oid (some plan.incoming_oid)
    checked_oid plan.target_oid
    reject_if (opt_eqb plan.target_oid (some plan.incoming_oid))
        (value_error "incoming and target databases must have distinct OIDs")

  -- Building a plan runs its checks.
  unfoldable pub checked_plan : Plan → Checked Plan
  checked_plan plan = do post_init plan; ok plan
