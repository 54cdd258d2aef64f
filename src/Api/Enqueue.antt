-- ===== src/Api/Enqueue.antt =====
-- How the API accepts an operation (`enqueue_operation` of odooctl/api/routes_operations.py, and
-- `enforce_project_scope` of odooctl/api/auth.py). A checked request is recorded, a token is minted
-- for it, and an entry with the token is queued. The redaction of parameters and `repr` of a text
-- are given, as are the random values and the readings of the clock.

pub mod Accepted
use Prim.Native.Char.{code}
use Prim.Native.String.{◌++◌}
use odooctl.Prelude.{
  ℕ, String, Bool, true, false, not, ◌&&◌, ◌||◌, ◌==◌, Option, none, some, List, [], ◌∷◌, map, eqb,
  if◌then◌else◌, lookup,
}
use odooctl.Prelude.Results.{◌>>=◌, ◌>>◌}
use odooctl.Prelude.Exec.{Result, ok, err, Exec, pure, raise, continue}
use odooctl.Environments.{Environments, EnvironmentConfig, env as find_env}
use odooctl.Queue.{QueueEntry, enqueue}
use odooctl.Operations.Models.{OperationKind, kind_value, kind_of, Operation, status_value, create}
use odooctl.Operations.Store.{save}
use odooctl.Security.Principals.{Principal, Role, role_value}
use odooctl.Security.Rbac.{
  Action, backup, restore, clone, deploy, promote, env, logs, AccessDenied, require, denied_text,
}
use odooctl.Security.Tokens.{
  Codec, array, Claims, claim, is_text, TokenError, default_ttl_seconds, mint,
}
use odooctl.Runner.Guards.{protection, token_text}
use odooctl.Runner.Execute.{State}
use odooctl.Api.Params.{
  ApiError, http, uncaught, Checked, refuse_if, one_of, is_true, require_safe_operation_id,
  validate_filestore_params,
}

-- What the checks ask of a project's configuration.
pub record Config : Type 0 where
  pub environments : Environments
  pub snapshot_provider : String
  pub snapshot_environment : String
  pub pitr_enabled : Bool
  pub pitr_environment : String

-- `registry` gives a registered project's configuration, or the text of what its loading raises.
pub record Server (Params : Type 0) : Type 0 where
  pub codec : Codec
  pub registry : String → Option (Result String Config)
  pub repr : String → String
  pub redact : Claims → Params

-- `token_project` is `str(... or "")` of what the authentication left.
pub record Request : Type 0 where
  pub project : String
  pub token_project : String
  pub principal : Principal
  pub kind : String
  pub environment : String
  pub params : Claims

pub record Given : Type 0 where
  pub op_id : String
  pub nonce : String
  pub issued : ℕ
  pub created : String
  pub queued : String
  pub mtime : ℕ

pub record Reply : Type 0 where
  pub op_id : String
  pub kind : String
  pub project : String
  pub environment : String
  pub status : String
  pub created_at : String

abbrev pub kind_action : List (String × Action)
kind_action =
    ("backup", backup)
    ∷ ("restore", restore)
    ∷ ("clone", clone)
    ∷ ("deploy", deploy)
    ∷ ("promote", promote)
    ∷ ("env_create", env)
    ∷ ("env_destroy", env)
    ∷ ("update_modules", deploy)
    ∷ ("rollback", restore)
    ∷ ("dr_drill", restore)
    ∷ ("snapshot_create", backup)
    ∷ ("snapshot_reconcile", backup)
    ∷ ("snapshot_restore", restore)
    ∷ ("pitr_base_create", backup)
    ∷ ("pitr_restore", restore)
    ∷ ("pitr_cutover", restore)
    ∷ ("pitr_reconcile", backup)
    ∷ ("filestore_migrate", restore)
    ∷ ("migrate_rehearsal", restore)
    ∷ ("service_logs", logs)
    ∷ ("service_restart", deploy)
    ∷ []

-- `_KIND_ACTION.get(kind)`
unfoldable pub gate_of : String → Option Action
gate_of kind = lookup kind kind_action

abbrev starts_with : String → String → Bool
starts_with String.[] t = true
starts_with (String.◌∷◌ c p) String.[] = false
starts_with (String.◌∷◌ c p) (String.◌∷◌ d t) =
    let rest = starts_with p t in eqb (code c) (code d) && rest

abbrev bound_to : (String → String) → String → String → String → String
bound_to repr what wanted given = what ++ (repr wanted ++ (", not " ++ repr given))

abbrev is_one_of : List String → Option String → Bool
is_one_of types none = false
is_one_of types (some type) = one_of types type

module _ (repr : String → String) (config : Config) (request : Request) where
  -- The checks in front of the cutover's confirmations; `config.env` raises KeyError, which is not
  -- caught there.
  abbrev check_cutover : Result String EnvironmentConfig → Checked
  check_cutover (err key) = err (uncaught (repr key))
  check_cutover (ok e) =
      refuse_if
        (not (is_text request.environment (claim "confirm_environment" request.params))
          || (not (is_text e.db_name (claim "confirm_database" request.params))
              || not (is_true (claim "accept_database_only" request.params))))
        400
        "PITR cutover requires exact environment/database confirmations and accept_database_only=true"

  abbrev check_pitr_kind : Checked
  check_pitr_kind =
      if request.kind == "pitr_restore"
      then (require_safe_operation_id request.params "plan_id" >>= λ id. ok tt)
      else if request.kind == "pitr_cutover"
      then (require_safe_operation_id request.params "restore_id" >>= λ id.
          check_cutover (find_env config.environments request.environment))
      else ok tt

  abbrev check_pitr : Checked
  check_pitr =
      if starts_with "pitr_" request.kind
      then (refuse_if (not config.pitr_enabled) 400 "PITR is disabled for this project"
          >> (refuse_if (not (request.environment == config.pitr_environment)) 400 (
                bound_to repr "PITR is bound to environment " config.pitr_environment
                  request.environment)
              >> check_pitr_kind))
      else ok tt

  -- The checks in front of the environment's.
  unfoldable pub check_target : Checked
  check_target =
      refuse_if
        (request.kind == "clone"
          && elim (claim "target" request.params) [ none ↦ false | some v ↦ true ])
        400
        "Clone operation.environment must be the target environment; put the source environment in params.source"
      >> (refuse_if
            (one_of ("snapshot_create" ∷ "snapshot_reconcile" ∷ "snapshot_restore" ∷ [])
                request.kind
              && (not (config.snapshot_provider == "none")
                  && not (request.environment == config.snapshot_environment)))
            400
            (bound_to repr "Snapshot provider is bound to environment " config.snapshot_environment
              request.environment)
          >> check_pitr)

  unfoldable pub check_filestore : EnvironmentConfig → Checked
  check_filestore e =
      if request.kind == "filestore_migrate"
      then (validate_filestore_params request.environment request.params
          >> (refuse_if
                (not (
                  is_one_of ("object_mirror" ∷ "posix_object_mount" ∷ "odoo_module" ∷ [])
                    e.filestore_backend))
                400
                "filestore migration requires an explicit object_mirror, posix_object_mount, or odoo_module backend"
              >> refuse_if
                  (is_text "delete_source" (claim "action" request.params)
                    && is_one_of ("object_mirror" ∷ []) e.filestore_backend)
                  400
                  "object_mirror is not an Odoo serving backend and cannot authorize source deletion"))
      else ok tt

  abbrev pub known_kind : Option OperationKind → Result ApiError OperationKind
  known_kind none = err (http 400 ("Invalid operation kind: " ++ repr request.kind))
  known_kind (some kind) = ok kind

  abbrev pub permitted : Result AccessDenied (Unit {0}) → Result ApiError OperationKind
  permitted (err e) = err (http 403 (denied_text e))
  permitted (ok done) = known_kind (kind_of request.kind)

  abbrev pub gated : Bool → Option Action → Result ApiError OperationKind
  gated protected none = err (http 400 ("Unknown operation kind: " ++ repr request.kind))
  gated protected (some action) = permitted (require request.principal action protected)

  abbrev pub protected_as : EnvironmentConfig → Result String Bool → Result ApiError OperationKind
  protected_as e (err key) = err (http 400 (repr key))
  protected_as e (ok protected) = check_filestore e >> gated protected (gate_of request.kind)

  abbrev pub in_environment : Result String EnvironmentConfig → Result ApiError OperationKind
  in_environment (err key) = err (http 400 (repr key))
  in_environment (ok e) =
      protected_as e (protection config.environments request.kind request.environment)

  unfoldable pub check_config : Result ApiError OperationKind
  unfolding check_target check_filestore gate_of
  check_config = check_target >> in_environment (find_env config.environments request.environment)

abbrev roles_value : List Role → List (Option String)
roles_value roles = map (λ r. some (role_value r)) roles

abbrev pub extra_claims_of : Request → Claims
extra_claims_of request = ("roles", array (roles_value request.principal.roles)) ∷ []

module _ {Params : Type 0} (server : Server Params) (request : Request) where
  abbrev pub for_project : Option (Result String Config) → Result ApiError OperationKind
  for_project none = err (http 404 ("Project " ++ (server.repr request.project ++ " not found")))
  for_project (some (err message)) = err (http 404 message)
  for_project (some (ok config)) = check_config server.repr config request

  -- The checks of a request, of which none changes anything.
  unfoldable pub check_request : Result ApiError OperationKind
  unfolding check_config
  check_request =
      refuse_if
        (not (request.token_project == "*") && not (request.token_project == request.project)) 404
        ("Project " ++ (server.repr request.project ++ " not found"))
      >> for_project (server.registry request.project)

module _ {Params : Type 0} (server : Server Params) (request : Request) (given : Given) where
  abbrev pub operation_of : OperationKind → Operation Params
  operation_of kind =
      create given.op_id given.created kind request.project request.environment request.principal.id
        (server.redact request.params)

  abbrev pub entry_of : String → QueueEntry Params
  entry_of token = record {
    op_id = given.op_id;
    kind = request.kind;
    project = request.project;
    environment = request.environment;
    actor = request.principal.id;
    params_redacted = server.redact request.params;
    token = token;
    created_at = given.queued;
  }

  abbrev pub minted_for : Result TokenError String
  minted_for =
      mint server.codec request.kind request.environment request.project default_ttl_seconds
        (some request.principal.id) given.nonce given.issued (extra_claims_of request)

  abbrev pub reply_of : Operation Params → Reply
  reply_of op = record {
    op_id = op.id;
    kind = kind_value op.kind;
    project = request.project;
    environment = request.environment;
    status = status_value op.status;
    created_at = op.created_at;
  }

  abbrev pub queueing :
      Operation Params → Result TokenError String → Exec (State Params) ApiError Reply
  queueing op (err e) s =
      raise (uncaught (token_text request.kind request.environment request.project e)) s
  queueing op (ok token) s =
      pure (reply_of op) (record s { queue = enqueue (entry_of token) given.mtime s.queue })

  abbrev pub recording : OperationKind → Exec (State Params) ApiError Reply
  recording kind s =
      queueing (operation_of kind) minted_for
        (record s { disk = record s.disk { store = save (operation_of kind) s.disk.store } })

  unfoldable pub enqueue_operation : Exec (State Params) ApiError Reply
  unfolding check_request
  enqueue_operation s = continue (check_request server request) recording s
