-- ===== src/Api/Enqueue/Accepted/Authorized.antt =====
-- An operation is queued for a principal that may ask for it, or nothing changes.
use odooctl.Prelude.{
  ℕ, String, ◌≡◌, ◌⊎◌, inl, inr, refl, Bool, true, false, not, ◌&&◌, ◌==◌, eq_iff, Option, none,
  some,
}
use odooctl.Prelude.Results.{◌>>◌}
use odooctl.Prelude.Exec.{Result, ok, err, continue}
use odooctl.Operations.Models.{OperationKind}
use odooctl.Security.Tokens.{mint}
use odooctl.Runner.Execute.{State}
use odooctl.Api.Params.{ApiError, refuse_if}
use odooctl.Api.Enqueue.{
  Config, Server, Request, Given, Reply, for_project, check_request, recording, enqueue_operation,
}
use odooctl.Api.Enqueue.Accepted.{Cleared, check_config-Cleared, then-ok}

module _ {Params : Type 0} (server : Server Params) (request : Request) where
  -- The project is registered and within the token's, its configuration has the environment, and
  -- the principal may do what the kind asks for there.
  abbrev pub Authorized : Type 0
  Authorized =
      (config : Config) × (server.registry request.project ≡ some (ok config))
      × ((request.token_project ≡ "*") ⊎ (request.token_project ≡ request.project))
      × Cleared server.repr config request

  in_scope :
      (b c : Bool) (status : ℕ) (detail : String)
      → (m : Result ApiError OperationKind) (kind : OperationKind)
      → (refuse_if (not b && not c) status detail >> m) ≡ ok kind
      → (b ≡ true) ⊎ (c ≡ true)
  in_scope true c status detail m kind h = inl refl
  in_scope false true status detail m kind h = inr refl
  in_scope false false status detail m kind h = cc

  for_project-registered :
      (o : Option (Result String Config)) (kind : OperationKind)
      → server.registry request.project ≡ o
      → for_project server request o ≡ ok kind
      → (config : Config) × (server.registry request.project ≡ some (ok config))
        × Cleared server.repr config request
  for_project-registered none kind e h = cc
  for_project-registered (some (err message)) kind e h = cc
  for_project-registered (some (ok config)) kind e h =
      (config, e, check_config-Cleared server.repr config request kind h)

  texts : (s t u v : String) → ((s == t) ≡ true) ⊎ ((u == v) ≡ true) → (s ≡ t) ⊎ (u ≡ v)
  texts s t u v (inl h) = inl ((eq_iff s t).0 h)
  texts s t u v (inr h) = inr ((eq_iff u v).0 h)

  check_request-Authorized :
      (kind : OperationKind) → check_request server request ≡ ok kind → Authorized
  unfolding check_request
  check_request-Authorized kind h =
      let rest = for_project server request (server.registry request.project) in
      let (config, registered, cleared) =
        for_project-registered (server.registry request.project) kind refl
          (then-ok (refuse_if _ _ _) rest kind h) in
      (
        config,
        registered,
        texts _ _ _ _ (
            in_scope (request.token_project == "*") (request.token_project == request.project) _ _
              rest kind h),
        cleared,
      )

  module _ (given : Given) where
    continue-cases :
        (r : Result ApiError OperationKind) (s : State Params)
        → check_request server request ≡ r
        → (((reply : Reply) × ((continue r (recording server request given) s).0 ≡ ok reply))
            × Authorized)
          ⊎ ((e : ApiError) × (continue r (recording server request given) s ≡ (err e, s)))
    unfolding mint
    continue-cases (err e) s checked = inr (e, refl)
    continue-cases (ok kind) s checked = inl ((_, refl), check_request-Authorized kind checked)

    -- A request is answered, and then its project is registered and covered by the token, its
    -- environment is configured, and the principal may do what the kind asks for there; or it fails,
    -- and then no record, token or entry is left: the state is as it was.
    pub enqueue_operation-Authorized :
        (s : State Params)
        → (((reply : Reply) × ((enqueue_operation server request given s).0 ≡ ok reply))
            × Authorized)
          ⊎ ((e : ApiError) × (enqueue_operation server request given s ≡ (err e, s)))
    unfolding enqueue_operation
    enqueue_operation-Authorized s = continue-cases (check_request server request) s refl
