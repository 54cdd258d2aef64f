-- ===== src/Runner/Guards.antt =====
-- What the runner checks before it runs an entry (`_KIND_ACTION`, the guards of `_execute_entry` and
-- `_principal_from_payload` of odooctl/runner/worker.py). Errors are given by their texts; `repr` and
-- `str_of` are Python's on a text and on a decoded JSON value.
use Prim.Native.String.{◌++◌}
use odooctl.Prelude.{
  ℕ, ◌*◌, String, Bool, false, ◌==◌, Option, none, some, List, [], ◌∷◌, any, ltb, if◌then◌else◌,
  lookup,
}
use odooctl.Prelude.Results.{Result, ok, err}
use odooctl.Environments.{Environments, names_of, is_protected}
use odooctl.Operations.Engine.{Raised, exception}
use odooctl.Security.Principals.{Principal, Role, role_of, token}
use odooctl.Security.Rbac.{
  Action, backup, restore, clone, deploy, promote, env, logs, AccessDenied,
  project_wide_disruption_kinds, kind_protected, require, denied_text,
}
use odooctl.Security.Tokens.{
  Value, str, integer, boolean, array, other, Claims, claim, int_of, TokenError, value_error,
  invalid, expired, scope_error, attribute_error, type_error,
}

abbrev pub kind_action : List (String × Action)
kind_action =
    ("backup", backup)
    ∷ ("restore", restore)
    ∷ ("clone", clone)
    ∷ ("deploy", deploy)
    ∷ ("promote", promote)
    ∷ ("env_create", env)
    ∷ ("env_destroy", env)
    ∷ ("update_modules", deploy)
    ∷ ("rollback", restore)
    ∷ ("dr_drill", restore)
    ∷ ("snapshot_create", backup)
    ∷ ("snapshot_reconcile", backup)
    ∷ ("snapshot_restore", restore)
    ∷ ("pitr_base_create", backup)
    ∷ ("pitr_restore", restore)
    ∷ ("pitr_cutover", restore)
    ∷ ("pitr_reconcile", backup)
    ∷ ("filestore_migrate", restore)
    ∷ ("migrate_rehearsal", restore)
    ∷ ("service_logs", logs)
    ∷ ("service_restart", deploy)
    ∷ []

-- `_KIND_ACTION[kind]`, or KeyError
unfoldable pub action_of : String → Option Action
action_of kind = lookup kind kind_action

abbrev pub roles_of : List (Option String) → List Role
roles_of [] = []
roles_of (none ∷ vs) = roles_of vs
roles_of (some v ∷ vs) =
    let rest = roles_of vs in elim (role_of v) [ none ↦ rest | some r ↦ r ∷ rest ]

abbrev pub roles_claim : Option Value → List Role
roles_claim (some (array vs)) = roles_of vs
roles_claim (some (str t)) = []
roles_claim (some (integer n)) = []
roles_claim (some (boolean b)) = []
roles_claim (some (other t)) = []
roles_claim none = []

-- `str(payload.get(key, default))`
abbrev text_claim : (Value → String) → Option Value → String → String
text_claim str_of none default = default
text_claim str_of (some v) default = str_of v

unfoldable pub principal_from_payload : (Value → String) → Claims → Principal
principal_from_payload str_of payload =
    let subject = text_claim str_of (claim "sub" payload) "api-client" in
    record {
      id = subject;
      org_id = text_claim str_of (claim "org" payload) "default";
      kind = token;
      roles = roles_claim (claim "roles" payload);
      display = subject;
    }

-- A KeyError's text is its key's `repr`.
abbrev pub key_error : {A : Type 0} → (String → String) → Result String A → Result String A
key_error repr (err key) = err (repr key)
key_error repr (ok a) = ok a

abbrev holds : Result String Bool → Bool
holds (ok b) = b
holds (err key) = false

-- `rbac.kind_protected(ctx.config, kind, environment)`: each environment of the configuration is
-- known, and another raises KeyError.
unfoldable pub protection : Environments → String → String → Result String Bool
unfolding is_protected kind_protected
protection environments kind environment =
    if any (λ k. k == kind) project_wide_disruption_kinds
    then ok (
        kind_protected (λ name. holds (is_protected environments name)) (names_of environments) kind
          environment)
    else is_protected environments environment

abbrev pub denied : Result AccessDenied (Unit {0}) → Result String (Unit {0})
denied (ok done) = ok done
denied (err e) = err (denied_text e)

abbrev pub authorize_for : Principal → Action → Result String Bool → Result String (Unit {0})
authorize_for principal action (err key) = err key
authorize_for principal action (ok protected) = denied (require principal action protected)

abbrev pub authorize_action :
    (String → String)
    → Environments
    → String
    → String
    → Principal
    → Option Action
    → Result String (Unit {0})
authorize_action repr environments kind environment principal none = err (repr kind)
authorize_action repr environments kind environment principal (some action) =
    authorize_for principal action (key_error repr (protection environments kind environment))

-- The `try` around `rbac.require`.
unfoldable pub authorize :
    (String → String)
    → (Value → String)
    → Environments
    → String
    → String
    → Claims
    → Result String (Unit {0})
unfolding protection principal_from_payload action_of
authorize repr str_of environments kind environment payload =
    authorize_action repr environments kind environment (principal_from_payload str_of payload)
      (action_of kind)

-- The first second of the year 10000, for which `datetime.fromtimestamp` raises ValueError.
abbrev pub end_of_time : ℕ
end_of_time = 253402300800

abbrev pub timestamp : Option ℕ → Result Raised (Option ℕ)
timestamp none = ok none
timestamp (some seconds) =
    if ltb seconds end_of_time
    then ok (some (seconds * 1_000_000))
    else err (exception "year is out of range")

-- `expires_at`, in microseconds. An expiry that is no natural number was refused before.
unfoldable pub expires_at : Claims → Result Raised (Option ℕ)
expires_at payload = timestamp (int_of (claim "exp" payload))

abbrev scope_text : String → String → String → String → String
scope_text kind environment project what =
    if what == "action" then kind else if what == "environment" then environment else project

-- `str(exc)` of an error of `tokens.verify`, which was asked for these.
unfoldable pub token_text : String → String → String → TokenError → String
token_text kind environment project (value_error message) = message
token_text kind environment project (invalid message) = message
token_text kind environment project expired = "token has expired"
token_text kind environment project (scope_error what) =
    "token not valid for " ++ (what ++ (" '" ++ (scope_text kind environment project what ++ "'")))
token_text kind environment project attribute_error = "the payload has no attribute 'get'"
token_text kind environment project (type_error message) = message
