-- ===== src/Operations/Models.antt =====
-- The records of operations, events and the audit trail (odooctl/operations/models.py). `Params` is
-- the type of the redacted parameters, a JSON object; `_utcnow()` is an argument where it is called.
use odooctl.Prelude.{ℕ, String, Option, none, some, List, [], ◌∷◌, ◌==◌, if◌then◌else◌}

pub data OperationKind : Type 0 where
  deploy : OperationKind
  backup : OperationKind
  restore : OperationKind
  clone : OperationKind
  env_create : OperationKind
  env_destroy : OperationKind
  update_modules : OperationKind
  rollback : OperationKind
  promote : OperationKind
  dr_drill : OperationKind
  snapshot_create : OperationKind
  snapshot_reconcile : OperationKind
  snapshot_restore : OperationKind
  pitr_base_create : OperationKind
  pitr_restore : OperationKind
  pitr_cutover : OperationKind
  pitr_reconcile : OperationKind
  filestore_migrate : OperationKind
  migrate_rehearsal : OperationKind
  service_logs : OperationKind
  service_restart : OperationKind

abbrev pub kind_value : OperationKind → String
kind_value deploy = "deploy"
kind_value backup = "backup"
kind_value restore = "restore"
kind_value clone = "clone"
kind_value env_create = "env_create"
kind_value env_destroy = "env_destroy"
kind_value update_modules = "update_modules"
kind_value rollback = "rollback"
kind_value promote = "promote"
kind_value dr_drill = "dr_drill"
kind_value snapshot_create = "snapshot_create"
kind_value snapshot_reconcile = "snapshot_reconcile"
kind_value snapshot_restore = "snapshot_restore"
kind_value pitr_base_create = "pitr_base_create"
kind_value pitr_restore = "pitr_restore"
kind_value pitr_cutover = "pitr_cutover"
kind_value pitr_reconcile = "pitr_reconcile"
kind_value filestore_migrate = "filestore_migrate"
kind_value migrate_rehearsal = "migrate_rehearsal"
kind_value service_logs = "service_logs"
kind_value service_restart = "service_restart"

abbrev pub operation_kinds : List OperationKind
operation_kinds =
    deploy ∷ backup ∷ restore ∷ clone ∷ env_create ∷ env_destroy ∷ update_modules ∷ rollback
    ∷ promote ∷ dr_drill ∷ snapshot_create ∷ snapshot_reconcile ∷ snapshot_restore
    ∷ pitr_base_create ∷ pitr_restore ∷ pitr_cutover ∷ pitr_reconcile ∷ filestore_migrate
    ∷ migrate_rehearsal ∷ service_logs ∷ service_restart ∷ []

abbrev find_kind : String → List OperationKind → Option OperationKind
find_kind value [] = none
find_kind value (k ∷ ks) =
    let rest = find_kind value ks in if kind_value k == value then some k else rest

-- `OperationKind(value)`, or ValueError
unfoldable pub kind_of : String → Option OperationKind
kind_of value = find_kind value operation_kinds

pub data OperationStatus : Type 0 where
  queued : OperationStatus
  running : OperationStatus
  succeeded : OperationStatus
  failed : OperationStatus
  cancelled : OperationStatus

pub record Operation (Params : Type 0) : Type 0 where
  pub id : String
  pub kind : OperationKind
  pub project : String
  pub environment : String
  pub status : OperationStatus
  pub actor : String
  pub params_redacted : Params
  pub created_at : String
  pub updated_at : String
  pub result_ref : Option String
  pub error : Option String

-- `data` of an event is left out: the engine writes `{}` only.
pub record Event : Type 0 where
  pub op_id : String
  pub seq : ℕ
  pub timestamp : String
  pub level : String
  pub phase : String
  pub message : String

pub record AuditEntry (Params : Type 0) : Type 0 where
  pub actor : String
  pub action : String
  pub target : String
  pub params_redacted : Params
  pub outcome : String
  pub op_id : String
  pub timestamp : String
  pub prev_hash : String
  pub current_hash : String

abbrev pub status_value : OperationStatus → String
status_value queued = "queued"
status_value running = "running"
status_value succeeded = "succeeded"
status_value failed = "failed"
status_value cancelled = "cancelled"

-- `id` is `uuid.uuid4().hex[:12]`, and `now` the time of day.
abbrev pub create :
    {Params : Type 0}
    → String
    → String
    → OperationKind
    → String
    → String
    → String
    → Params
    → Operation Params
create id now kind project environment actor params_redacted = record {
  id = id;
  kind = kind;
  project = project;
  environment = environment;
  status = queued;
  actor = actor;
  params_redacted = params_redacted;
  created_at = now;
  updated_at = now;
  result_ref = none;
  error = none;
}
