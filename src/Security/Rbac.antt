-- ===== src/Security/Rbac.antt =====
-- The matrix of roles and actions, and the checks that read it (odooctl/security/rbac.py).
pub mod Policy
use Prim.Native.String.{◌++◌ as ◌+++◌}
use odooctl.Prelude.{
  String, Bool, true, false, ◌&&◌, ◌||◌, not, ◌==◌, List, [], ◌∷◌, ◌++◌, any, filter, map, leb,
  if◌then◌else◌,
}
use odooctl.Prelude.Results.{Result, ok, err}
use odooctl.Security.Principals.{
  Role, owner, admin, operator, viewer, role_rank, Principal, has_at_least, role_value, identity,
}

pub data Action : Type 0 where
  read status logs backups operations audit : Action
  backup deploy clone restore promote env secrets cancel users : Action

abbrev pub action_value : Action → String
action_value read = "read"
action_value status = "status"
action_value logs = "logs"
action_value backups = "backups"
action_value operations = "operations"
action_value audit = "audit"
action_value backup = "backup"
action_value deploy = "deploy"
action_value clone = "clone"
action_value restore = "restore"
action_value promote = "promote"
action_value env = "env"
action_value secrets = "secrets"
action_value cancel = "cancel"
action_value users = "users"

-- `a in {…}`
abbrev pub same_action : Action → Action → Bool
same_action read read = true
same_action status status = true
same_action logs logs = true
same_action backups backups = true
same_action operations operations = true
same_action audit audit = true
same_action backup backup = true
same_action deploy deploy = true
same_action clone clone = true
same_action restore restore = true
same_action promote promote = true
same_action env env = true
same_action secrets secrets = true
same_action cancel cancel = true
same_action users users = true
same_action _ _ = false

abbrev pub contains : List Action → Action → Bool
contains actions a = any (λ b. same_action b a) actions

abbrev pub read_actions : List Action
read_actions = read ∷ status ∷ logs ∷ backups ∷ operations ∷ audit ∷ []

abbrev pub write_actions : List Action
write_actions = backup ∷ deploy ∷ clone ∷ restore ∷ promote ∷ env ∷ secrets ∷ cancel ∷ users ∷ []

abbrev pub destructive_on_protected : List Action
destructive_on_protected = deploy ∷ clone ∷ restore ∷ promote ∷ env ∷ secrets ∷ []

abbrev pub project_wide_disruption_kinds : List String
project_wide_disruption_kinds = "service_restart" ∷ []

-- `cfg` is taken by what is asked of it: its environments, and which of them are protected.
unfoldable pub kind_protected : (String → Bool) → List String → String → String → Bool
kind_protected is_protected environments kind environment =
    if any (λ k. k == kind) project_wide_disruption_kinds
    then any is_protected environments
    else is_protected environment

abbrev pub protected_floor : Role
protected_floor = admin

abbrev pub role_actions : Role → List Action
role_actions viewer = read_actions
role_actions operator = read_actions ++ backup ∷ deploy ∷ clone ∷ restore ∷ cancel ∷ []
role_actions admin = read_actions ++ write_actions
role_actions owner = read_actions ++ write_actions

pub data Reason : Type 0 where
  role_lacks_action : Reason
  protected_requires : Role → Reason

pub record AccessDenied : Type 0 where
  pub principal : Principal
  pub action : Action
  pub reason : Reason

abbrev reason_text : Reason → String
reason_text role_lacks_action = "role lacks this action"
reason_text (protected_requires role) =
    "protected environment requires " +++ (role_value role +++ " or higher")

-- `str(exc)`
unfoldable pub denied_text : AccessDenied → String
unfolding identity
denied_text e =
    "Access denied: "
    +++ (identity e.principal
        +++ (" cannot perform '"
            +++ (action_value e.action +++ ("' (" +++ (reason_text e.reason +++ ")")))))

unfoldable pub roles_allow : Principal → Action → Bool
roles_allow principal action = any (λ role. contains (role_actions role) action) principal.roles

unfoldable pub is_allowed : Principal → Action → Bool → Bool
unfolding roles_allow has_at_least
is_allowed principal action protected =
    if not (roles_allow principal action)
    then false
    else if protected && contains destructive_on_protected action
    then has_at_least principal protected_floor
    else true

unfoldable pub require : Principal → Action → Bool → Result AccessDenied (Unit {0})
unfolding roles_allow has_at_least
require principal action protected =
    if not (roles_allow principal action)
    then err (record { principal = principal; action = action; reason = role_lacks_action })
    else if protected
        && (contains destructive_on_protected action
            && not (has_at_least principal protected_floor))
    then err (record {
      principal = principal;
      action = action;
      reason = protected_requires protected_floor;
    })
    else ok tt

unfoldable pub allowed_actions : Role → Bool → List Action
unfolding role_rank
allowed_actions role protected =
    if not protected
    then role_actions role
    else if leb (role_rank protected_floor) (role_rank role)
    then role_actions role
    else filter (λ a. not (contains destructive_on_protected a)) (role_actions role)

abbrev every_action : List Action
every_action = read_actions ++ write_actions

abbrev every_role : List Role
every_role = owner ∷ admin ∷ operator ∷ viewer ∷ []

unfoldable pub role_matrix : List (Role × List (Action × Bool))
role_matrix = map (λ r. (r, map (λ a. (a, contains (role_actions r) a)) every_action)) every_role
