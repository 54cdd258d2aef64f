-- ===== src/Cutover/Swap.antt =====
-- The swap without a plan (odooctl/odoo/db_swap.py: `swap_temp_database`).
pub mod Places
pub mod Short
pub mod Safety
use Prim.Native.String.{◌++◌}
use odooctl.Prelude.{String, Bool, true, false, ◌==◌, Option, none, some, if◌then◌else◌}
use odooctl.Prelude.Exec.{Result, ok, err, Exec, pure, raise, attempt, ◌>>=◌, ◌>>◌}
use odooctl.Cutover.State.{Failure, runtime_error}
use odooctl.Cutover.Postgres.{Adapter, terminate_connections, drop_database, rename_database}

-- `if test: m`
abbrev pub when : {S : Type 0} → Bool → Exec S Failure (Unit {0}) → Exec S Failure (Unit {0})
when test m = if test then m else pure tt

abbrev pub aside_of : String → String
aside_of target_db = target_db ++ "__old_swap"

module _ {S : Type 0} (pg : Adapter S) (maintenance_db temp_db target_db : String) where
  abbrev pub drop_connected : String → Exec S Failure (Unit {0})
  drop_connected db_name =
      terminate_connections pg maintenance_db db_name >> drop_database pg maintenance_db db_name

  abbrev pub rename_connected : String → String → Exec S Failure (Unit {0})
  rename_connected old_name new_name =
      terminate_connections pg maintenance_db old_name
      >> rename_database pg maintenance_db old_name new_name

  -- For an adapter that cannot tell whether a database exists.
  abbrev pub swap_legacy : Exec S Failure (Unit {0})
  swap_legacy = drop_connected target_db >> rename_connected temp_db target_db

  module _ (exists_fn : String → Exec S Failure Bool) where
    -- `if target_existed and exists_fn(aside_db): m`
    abbrev pub when_aside : Bool → Exec S Failure (Unit {0}) → Exec S Failure (Unit {0})
    when_aside target_existed m =
        when target_existed (exists_fn (aside_of target_db) >>= λ there. when there m)

    -- What follows the `try` block, by how it ended.
    unfoldable pub settle : Bool → Result Failure (Unit {0}) → Exec S Failure (Unit {0})
    settle target_existed (err e) =
        when_aside target_existed (rename_database pg maintenance_db (aside_of target_db) target_db)
        >> raise e
    settle target_existed (ok u) = when_aside target_existed (drop_connected (aside_of target_db))

    unfoldable pub swap_aside : Bool → Exec S Failure (Unit {0})
    unfolding settle
    swap_aside target_existed =
        when target_existed (rename_connected target_db (aside_of target_db))
        >> (attempt (rename_connected temp_db target_db) >>= settle target_existed)

    unfoldable pub swap_checked : Exec S Failure (Unit {0})
    unfolding swap_aside
    swap_checked =
        (exists_fn (aside_of target_db) >>= λ left_over.
        when left_over (drop_connected (aside_of target_db)))
        >> (exists_fn target_db >>= swap_aside)

  abbrev pub swap_by : Option (String → Exec S Failure Bool) → Exec S Failure (Unit {0})
  swap_by none = swap_legacy
  swap_by (some exists_fn) = swap_checked exists_fn

  abbrev pub is_protected_by : Option (String → Bool) → String → Bool
  is_protected_by none name = false
  is_protected_by (some is_protected_fn) name = is_protected_fn name

  unfoldable pub swap_temp_database : Option (String → Bool) → String → Exec S Failure (Unit {0})
  unfolding swap_checked
  swap_temp_database is_protected_fn target_env_name =
      if is_protected_by is_protected_fn target_env_name
      then raise (runtime_error "Refusing to swap a temporary database into protected environment")
      else if temp_db == target_db
      then raise (runtime_error "Temporary database name must differ from target database name")
      else swap_by pg.database_exists
