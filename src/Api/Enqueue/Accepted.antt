-- ===== src/Api/Enqueue/Accepted.antt =====
-- What is known of a request that the API accepted.
pub mod Runs
pub mod Authorized
use odooctl.Prelude.{
  ℕ, ◌*◌, ◌+◌, ◌<◌, String, ◌≡◌, refl, sym, subst, ap, ◌∙◌, Bool, true, false, ◌==◌, eq_iff, Option,
  none, some, List, [], ◌∷◌, map, Bool-cases, inl, inr, arith, ltb, lt→ltb, if-true, some_cancel,
  update_self,
}
use odooctl.Prelude.{◌++◌ as ◌+++◌}
use odooctl.Prelude.Results.{◌>>◌, ok-injective}
use odooctl.Prelude.Exec.{Result, ok, err}
use odooctl.Environments.{EnvironmentConfig, env as find_env}
use odooctl.Queue.{QueueEntry, Content, readable, Pending, find_pending, without, enqueue}
use odooctl.Queue.Claims.{find-without}
use odooctl.Operations.Models.{OperationKind, Operation, kind_of}
use odooctl.Operations.Store.{load}
use odooctl.Security.Principals.{Principal, Role, role_of, role_value, has_at_least}
use odooctl.Security.Rbac.{Action, AccessDenied, require, is_allowed, roles_allow}
use odooctl.Security.Rbac.Policy.{require_iff}
use odooctl.Security.Tokens.{Claims, default_ttl_seconds, payload_of}
use odooctl.Security.Tokens.Scope.{IsCodec, mint-verify, granted}
use odooctl.Runner.Guards.{
  action_of, roles_of, denied, protection, principal_from_payload, authorize, end_of_time,
  expires_at, authorize_for, authorize_action, key_error,
}
use odooctl.Runner.Nonces.{text}
use odooctl.Runner.Execute.{
  State, Host, Clock, Dispatch, consuming, verify_entry, verified, execute_entry,
}
use odooctl.Api.Params.{ApiError, Checked, refuse_if}
use odooctl.Api.Enqueue.{
  Config, Server, Request, Given, Reply, gate_of, check_target, check_filestore, known_kind,
  permitted, gated, protected_as, in_environment, check_config, roles_value, extra_claims_of,
  for_project, check_request, operation_of, entry_of, minted_for, queueing, recording,
  enqueue_operation,
}

then-ok : {A : Type 0} (m : Checked) (k : Result ApiError A) (a : A) → (m >> k) ≡ ok a → k ≡ ok a
then-ok (ok done) k a h = h
then-ok (err e) k a h = cc

-- The roles of a principal come back from the claim that they are minted in.
pub roles_of-value : (roles : List Role) → roles_of (roles_value roles) ≡ roles
roles_of-value [] = refl
roles_of-value (Role.owner ∷ rs) = ap (λ t. Role.owner ∷ t) (roles_of-value rs)
roles_of-value (Role.admin ∷ rs) = ap (λ t. Role.admin ∷ t) (roles_of-value rs)
roles_of-value (Role.operator ∷ rs) = ap (λ t. Role.operator ∷ t) (roles_of-value rs)
roles_of-value (Role.viewer ∷ rs) = ap (λ t. Role.viewer ∷ t) (roles_of-value rs)

-- The decision is one on the roles.
pub is_allowed-roles :
    (p q : Principal) (action : Action) (protected : Bool)
    → p.roles ≡ q.roles
    → is_allowed p action protected ≡ is_allowed q action protected
unfolding is_allowed roles_allow has_at_least
is_allowed-roles p q action protected h =
    ap (λ roles. is_allowed (record p { roles = roles }) action protected) h

-- The two tables agree.
gate_of-action_of : (kind : String) → gate_of kind ≡ action_of kind
unfolding gate_of action_of
gate_of-action_of kind = refl

module _ (repr : String → String) (config : Config) (request : Request) where
  -- What the checks find of the request's environment, kind and principal.
  pub record Cleared : Type 0 where
    pub action : Action
    pub protected : Bool
    pub target : EnvironmentConfig
    pub configured : find_env config.environments request.environment ≡ ok target
    pub known : action_of request.kind ≡ some action
    pub guarded : protection config.environments request.kind request.environment ≡ ok protected
    pub may : require request.principal action protected ≡ ok tt

  permitted-ok :
      (r : Result AccessDenied (Unit {0})) (kind : OperationKind)
      → permitted repr config request r ≡ ok kind
      → r ≡ ok tt
  permitted-ok (ok done) kind h = refl
  permitted-ok (err e) kind h = cc

  gated-Cleared :
      (e : EnvironmentConfig) (protected : Bool) (o : Option Action) (kind : OperationKind)
      → find_env config.environments request.environment ≡ ok e
      → gated repr config request protected o ≡ ok kind
      → action_of request.kind ≡ o
      → protection config.environments request.kind request.environment ≡ ok protected
      → Cleared
  gated-Cleared e protected none kind found h known guarded = cc
  gated-Cleared e protected (some action) kind found h known guarded = record {
    target = e;
    configured = found;
    action = action;
    protected = protected;
    known = known;
    guarded = guarded;
    may = permitted-ok (require request.principal action protected) kind h;
  }

  protected_as-Cleared :
      (e : EnvironmentConfig) (r : Result String Bool) (kind : OperationKind)
      → find_env config.environments request.environment ≡ ok e
      → protected_as repr config request e r ≡ ok kind
      → protection config.environments request.kind request.environment ≡ r
      → Cleared
  protected_as-Cleared e (err key) kind found h guarded = cc
  protected_as-Cleared e (ok protected) kind found h guarded =
      gated-Cleared e protected (gate_of request.kind) kind found
        (then-ok (check_filestore repr config request e)
          (gated repr config request protected (gate_of request.kind)) kind h)
        (sym (gate_of-action_of request.kind)) guarded

  in_environment-Cleared :
      (r : Result String EnvironmentConfig) (kind : OperationKind)
      → find_env config.environments request.environment ≡ r
      → in_environment repr config request r ≡ ok kind
      → Cleared
  in_environment-Cleared (err key) kind found h = cc
  in_environment-Cleared (ok e) kind found h =
      protected_as-Cleared e (protection config.environments request.kind request.environment) kind
        found h refl

  pub check_config-Cleared :
      (kind : OperationKind) → check_config repr config request ≡ ok kind → Cleared
  unfolding check_config
  check_config-Cleared kind h =
      in_environment-Cleared (find_env config.environments request.environment) kind refl (
        then-ok (check_target repr config request)
          (in_environment repr config request (find_env config.environments request.environment))
          kind h)
