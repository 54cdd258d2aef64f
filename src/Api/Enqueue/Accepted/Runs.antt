-- ===== src/Api/Enqueue/Accepted/Runs.antt =====
-- What the runner makes of an operation that the API accepted.
use odooctl.Prelude.{
  ℕ, ◌*◌, ◌+◌, ◌<◌, String, ◌≡◌, refl, sym, ap, ◌∙◌, Bool, true, ◌==◌, eq_refl, none, some, List,
  [], ◌∷◌, Bool-cases, inl, inr, ltb, lt→ltb, if-true, if-false, update_self,
}
use odooctl.Prelude.{◌++◌ as ◌+++◌}
use odooctl.Prelude.Results.{ok-injective}
use odooctl.Prelude.Exec.{Result, ok, err, continue}
use odooctl.Queue.{QueueEntry, readable, Pending, find_pending, without, enqueue}
use odooctl.Queue.Claims.{find-without}
use odooctl.Operations.Models.{OperationKind}
use odooctl.Operations.Store.{load, found}
use odooctl.Security.Rbac.Policy.{require_iff}
use odooctl.Security.Tokens.{Value, Claims, TokenError, default_ttl_seconds, payload_of}
use odooctl.Security.Tokens.Scope.{IsCodec, mint-verify, granted}
use odooctl.Runner.Guards.{
  denied, principal_from_payload, authorize, end_of_time, expires_at, authorize_for,
  authorize_action, key_error,
}
use odooctl.Runner.Nonces.{text}
use odooctl.Runner.Execute.{
  State, Host, Clock, Dispatch, is_cancelled, consuming, expiring, authorized, verify_entry,
  verified, execute_entry,
}
use odooctl.Api.Params.{ApiError, refuse_if}
use odooctl.Api.Enqueue.{
  Config, Server, Request, Given, Reply, extra_claims_of, for_project, check_request, operation_of,
  entry_of, minted_for, queueing, recording, enqueue_operation,
}
use odooctl.Api.Enqueue.Accepted.{
  then-ok, roles_of-value, is_allowed-roles, Cleared, check_config-Cleared,
}

-- The token's payload.
abbrev pub claims_of : Request → Given → Claims
claims_of request given =
    payload_of request.kind request.environment request.project default_ttl_seconds
      (some request.principal.id) given.nonce given.issued (extra_claims_of request)

-- The end of the token's life, in seconds.
abbrev pub expiry_of : Given → ℕ
expiry_of given = given.issued + default_ttl_seconds

-- A runner with the API's key and the project's configuration.
abbrev pub runner_of : {Params : Type 0} → Server Params → Config → Host Params → Host Params
runner_of server config host = record host {
  codec = server.codec;
  environments = config.environments;
  repr = server.repr;
}

granted-own :
    {A : Type 0} (live : Bool) (x y z : String) (a : A)
    → live ≡ true
    → granted live (x == x) (y == y) (z == z) a ≡ ok a
granted-own live x y z a h = rw h (rw (eq_refl x) (rw (eq_refl y) (rw (eq_refl z) refl)))

find_pending-last :
    {Params : Type 0} (name : String) (fs : List (Pending Params)) (f : Pending Params)
    → f.name ≡ name
    → find_pending name fs ≡ none
    → find_pending name (fs +++ f ∷ []) ≡ some f.content
find_pending-last name [] f same h = if-true _ _ _ (ap (λ t. t == name) same ∙ eq_refl name)
find_pending-last name (g ∷ gs) f same h = elim (Bool-cases (g.name == name)) [
  | inl named ↦ cc (rw named at h)
  | inr other ↦ rw other (find_pending-last name gs f same (rw other at h))
]

module _ (repr : String → String) (str_of : Value → String) (config : Config) (request : Request)
    (given : Given) where
  -- The principal that is read from the token may do what the one that asked for it may.
  authorize-claims_of :
      Cleared repr config request
      → authorize repr str_of config.environments request.kind request.environment
          (claims_of request given)
        ≡ ok tt
  unfolding authorize principal_from_payload
  authorize-claims_of c =
      let p = principal_from_payload str_of (claims_of request given) in
      let k = request.kind in
      let e = request.environment in
      let same =
        is_allowed-roles p request.principal c.action c.protected
          (roles_of-value request.principal.roles) in
      let may =
        (require_iff p c.action c.protected).1
          (same ∙ (require_iff request.principal c.action c.protected).0 c.may) in
      ap (λ o. authorize_action repr config.environments k e p o) c.known
      ∙ ap (λ r. authorize_for p c.action (key_error repr r)) c.guarded
      ∙ ap denied may

expires_at-claims_of :
    (request : Request) (given : Given)
    → expiry_of given < end_of_time
    → expires_at (claims_of request given) ≡ ok (some (expiry_of given * 1_000_000))
unfolding expires_at
expires_at-claims_of request given h = if-true _ _ _ (lt→ltb (expiry_of given) end_of_time h)

module _ {Params : Type 0} (server : Server Params) (request : Request) (given : Given)
    (config : Config) where
  check_request-Cleared :
      (kind : OperationKind)
      → server.registry request.project ≡ some (ok config)
      → check_request server request ≡ ok kind
      → Cleared server.repr config request
  unfolding check_request
  check_request-Cleared kind registered h =
      let checked =
        then-ok (refuse_if _ _ _) (for_project server request (server.registry request.project))
          kind h in
      check_config-Cleared server.repr config request kind
        (sym (ap (for_project server request) registered) ∙ checked)

  module _ (host : Host Params) (clock : Clock) (dispatch : Dispatch Params) where
    -- The runner's checks of the entry come out well, up to the one of the nonce.
    abbrev pub Passes : QueueEntry Params → State Params → Type 0
    Passes entry s =
        execute_entry (runner_of server config host) clock dispatch entry s
        ≡ consuming (runner_of server config host) clock dispatch entry (text given.nonce)
            (some (expiry_of given * 1_000_000)) s

    verify_entry-entry_of :
        (token : String)
        → IsCodec server.codec (claims_of request given)
        → minted_for server request given ≡ ok token
        → clock.verified < expiry_of given
        → verify_entry (runner_of server config host) clock (entry_of server request given token)
          ≡ ok (claims_of request given)
    verify_entry-entry_of token law minted alive =
        mint-verify server.codec request.kind request.environment request.project given.nonce
          default_ttl_seconds given.issued clock.verified (some request.principal.id)
          (some request.kind) (some request.environment) (some request.project)
          (extra_claims_of request) token law minted
        ∙ granted-own (ltb clock.verified (expiry_of given)) request.kind request.environment
            request.project (claims_of request given)
            (lt→ltb clock.verified (expiry_of given) alive)

    entry_of-Passes :
        (token : String) (kind : OperationKind) (s : State Params)
        → Cleared server.repr config request
        → IsCodec server.codec (claims_of request given)
        → minted_for server request given ≡ ok token
        → clock.verified < expiry_of given
        → expiry_of given < end_of_time
        → load given.op_id s.disk.store ≡ ok (operation_of server request given kind)
        → Passes (entry_of server request given token) s
    unfolding execute_entry
    entry_of-Passes token kind s cleared law minted alive early stored =
        let runner = runner_of server config host in
        let entry = entry_of server request given token in
        if-false _ _ _ (ap is_cancelled stored)
        ∙ ap (λ r. verified runner clock dispatch entry r s)
            (verify_entry-entry_of token law minted alive)
        ∙ ap (λ r. authorized runner clock dispatch entry (claims_of request given) r s)
            (authorize-claims_of server.repr host.str_of config request given cleared)
        ∙ ap (λ r. expiring runner clock dispatch entry (text given.nonce) r s)
            (expires_at-claims_of request given early)

    -- What an answer leaves behind: the operation's record, and its entry in the queue.
    abbrev pub Queued : Reply → State Params → Type 0
    Queued reply s =
        (kind : OperationKind) × (entry : QueueEntry Params) × (reply.op_id ≡ given.op_id)
        × (load given.op_id s.disk.store ≡ ok (operation_of server request given kind))
        × (find_pending given.op_id s.queue.pending ≡ some (readable entry))
        × Passes entry s

    queueing-Queued :
        (kind : OperationKind) (s : State Params) (r : Result TokenError String) (reply : Reply)
        → Cleared server.repr config request
        → IsCodec server.codec (claims_of request given)
        → minted_for server request given ≡ r
        → clock.verified < expiry_of given
        → expiry_of given < end_of_time
        → load given.op_id s.disk.store ≡ ok (operation_of server request given kind)
        → (queueing server request given (operation_of server request given kind) r s).0 ≡ ok reply
        → Queued reply
            (queueing server request given (operation_of server request given kind) r s).1
    unfolding enqueue
    queueing-Queued kind s (err e) reply cleared law minted alive early stored h = cc
    queueing-Queued kind s (ok token) reply cleared law minted alive early stored h =
        let entry = entry_of server request given token in
        (
          kind,
          entry,
          sym (ap (λ (r : Reply). r.op_id) (ok-injective h)),
          stored,
          find_pending-last given.op_id (without given.op_id s.queue.pending) _ refl
              (find-without given.op_id s.queue.pending),
          entry_of-Passes token kind _ cleared law minted alive early stored,
        )

    continue-Queued :
        (r : Result ApiError OperationKind) (s : State Params) (reply : Reply)
        → check_request server request ≡ r
        → server.registry request.project ≡ some (ok config)
        → IsCodec server.codec (claims_of request given)
        → clock.verified < expiry_of given
        → expiry_of given < end_of_time
        → (continue r (recording server request given) s).0 ≡ ok reply
        → Queued reply (continue r (recording server request given) s).1
    continue-Queued (err e) s reply checked registered law alive early h = cc
    continue-Queued (ok kind) s reply checked registered law alive early h =
        queueing-Queued kind _ (minted_for server request given) reply
          (check_request-Cleared kind registered checked) law refl alive early
          (ap (found given.op_id) (update_self s.disk.store.records given.op_id _)) h

    -- What the API accepts for a project that is registered with this configuration, the runner
    -- with the same key and configuration does not refuse while the token lives: the operation is
    -- recorded, its entry is pending, and the execution of the entry passes the checks of the
    -- token's signature, life and scope and of the principal's roles, and comes to the consumption
    -- of the token's nonce. Payloads are read back as they were written.
    pub enqueue_operation-Queued :
        (s : State Params) (reply : Reply)
        → server.registry request.project ≡ some (ok config)
        → IsCodec server.codec (claims_of request given)
        → clock.verified < expiry_of given
        → expiry_of given < end_of_time
        → (enqueue_operation server request given s).0 ≡ ok reply
        → Queued reply (enqueue_operation server request given s).1
    unfolding enqueue_operation
    enqueue_operation-Queued s reply registered law alive early h =
        continue-Queued (check_request server request) s reply refl registered law alive early h
