-- ===== src/Runner/Execute/Guarded.antt =====
-- What holds when the body of an operation runs.
use Prim.Native.String.{◌++◌}
use odooctl.Prelude.{
  ℕ, String, ◌≡◌, sym, ◌⊎◌, inl, inr, refl, Bool, true, false, Option, none, some, [], ◌∷◌,
  Bool-cases,
}
use odooctl.Prelude.Exec.{Result, ok, err, continue}
use odooctl.Environments.{Environments}
use odooctl.Queue.{QueueEntry}
use odooctl.Operations.Engine.{Raised}
use odooctl.Operations.Store.{load}
use odooctl.Runner.Guards.{
  action_of, denied, authorize_for, authorize_action, key_error, principal_from_payload, protection,
  authorize, expires_at,
}
use odooctl.Runner.Nonces.{Nonce, nonce_of, consume}
use odooctl.Runner.Execute.{
  State, Host, Clock, Dispatch, is_cancelled, if_fresh, expiring, authorized, verified,
  verify_entry, execute_entry,
}
use odooctl.Security.Principals.{Principal}
use odooctl.Security.Rbac.{Action, AccessDenied, is_allowed}
use odooctl.Security.Rbac.Policy.{require_iff}
use odooctl.Security.Tokens.{
  Value, Claims, claim, TokenError, value_error, invalid, expired, scope_error, attribute_error,
  type_error, object, int_of, is_live, is_text, split_dots,
}
use odooctl.Security.Tokens.Scope.{verify-signed}

-- The principal may do what the kind of the entry asks for.
abbrev pub Allowed : (Value → String) → Environments → String → String → Claims → Type 0
Allowed str_of environments kind environment payload =
    (action : Action) × (protected : Bool) × (action_of kind ≡ some action)
    × (protection environments kind environment ≡ ok protected)
    × (is_allowed (principal_from_payload str_of payload) action protected ≡ true)

undenied : (r : Result AccessDenied (Unit {0})) → denied r ≡ ok tt → r ≡ ok tt
undenied (ok done) h = refl
undenied (err e) h = cc

key_error-ok :
    {A : Type 0} (repr : String → String) (r : Result String A) (a : A)
    → key_error repr r ≡ ok a
    → r ≡ ok a
key_error-ok repr (ok b) a h = h
key_error-ok repr (err key) a h = cc

authorize_for-allowed :
    (principal : Principal) (action : Action) (r : Result String Bool)
    → authorize_for principal action r ≡ ok tt
    → (protected : Bool) × (r ≡ ok protected) × (is_allowed principal action protected ≡ true)
authorize_for-allowed principal action (err key) h = cc
authorize_for-allowed principal action (ok protected) h =
    (protected, refl, (require_iff principal action protected).0 (undenied _ h))

authorize_action-allowed :
    (repr : String → String) (environments : Environments) (kind environment : String)
    (principal : Principal) (o : Option Action)
    → authorize_action repr environments kind environment principal o ≡ ok tt
    → (action : Action) × (protected : Bool) × (o ≡ some action)
      × (protection environments kind environment ≡ ok protected)
      × (is_allowed principal action protected ≡ true)
authorize_action-allowed repr environments kind environment principal none h = cc
authorize_action-allowed repr environments kind environment principal (some action) h =
    let (protected, e, allowed) = authorize_for-allowed principal action _ h in
    (action, protected, refl, key_error-ok repr _ protected e, allowed)

pub authorize-Allowed :
    (repr : String → String) (str_of : Value → String) (environments : Environments)
    (kind environment : String) (payload : Claims)
    → authorize repr str_of environments kind environment payload ≡ ok tt
    → Allowed str_of environments kind environment payload
unfolding authorize
authorize-Allowed repr str_of environments kind environment payload h =
    authorize_action-allowed repr environments kind environment
      (principal_from_payload str_of payload) (action_of kind) h

module _ {Params : Type 0} (host : Host Params) (clock : Clock) where
  -- The entry of an operation that is not cancelled, with a token that carries the key's signature,
  -- is alive and was minted for just this kind, environment and project, for a principal that may do
  -- it, and with a nonce that the store accepts.
  pub record Admitted (entry : QueueEntry Params) (s : State Params) : Type 0 where
    pub wanted : is_cancelled (load entry.op_id s.disk.store) ≡ false
    pub payload : Claims
    pub accepted : verify_entry host clock entry ≡ ok payload
    pub signed :
        (header : String) × (body : String) × (split_dots entry.token
          ≡ header ∷ body ∷ host.codec.sign (header ++ ("." ++ body)) ∷ [])
        × (host.codec.decode body ≡ object payload)
    pub alive : is_live clock.verified (int_of (claim "exp" payload)) ≡ true
    pub act : is_text entry.kind (claim "act" payload) ≡ true
    pub in_environment : is_text entry.environment (claim "env" payload) ≡ true
    pub in_project : is_text entry.project (claim "proj" payload) ≡ true
    pub authorized_ok :
        authorize host.repr host.str_of host.environments entry.kind entry.environment payload
        ≡ ok tt
    pub allowed : Allowed host.str_of host.environments entry.kind entry.environment payload
    pub expiry : Option ℕ
    pub expires : expires_at payload ≡ ok expiry
    pub fresh :
        (consume (nonce_of (claim "nonce" payload)) expiry clock.consumed s.nonces).0 ≡ ok true

  if_fresh-cases :
      (d d' : Dispatch Params) (entry : QueueEntry Params) (nonce : String) (r : Result Raised Bool)
      (s : State Params)
      → (r ≡ ok true)
        ⊎ (continue r (if_fresh host clock d entry nonce) s
            ≡ continue r (if_fresh host clock d' entry nonce) s)
  if_fresh-cases d d' entry nonce (ok true) s = inl refl
  if_fresh-cases d d' entry nonce (ok false) s = inr refl
  if_fresh-cases d d' entry nonce (err e) s = inr refl

  -- Past the token's check: the nonce is accepted, or what the body is makes no difference.
  expiring-cases :
      (d d' : Dispatch Params) (entry : QueueEntry Params) (nonce : Nonce)
      (r : Result Raised (Option ℕ)) (s : State Params)
      → ((expiry : Option ℕ) × (r ≡ ok expiry)
          × ((consume nonce expiry clock.consumed s.nonces).0 ≡ ok true))
        ⊎ (expiring host clock d entry nonce r s ≡ expiring host clock d' entry nonce r s)
  expiring-cases d d' entry nonce (err e) s = inr refl
  expiring-cases d d' entry nonce (ok expiry) s =
      elim (if_fresh-cases d d' entry _ (consume nonce expiry clock.consumed s.nonces).0 _) [
        | inl fresh ↦ inl (expiry, refl, fresh)
        | inr same ↦ inr same
      ]

  authorized-cases :
      (d d' : Dispatch Params) (entry : QueueEntry Params) (payload : Claims)
      (r : Result String (Unit {0})) (s : State Params)
      → ((r ≡ ok tt)
          × ((expiry : Option ℕ) × (expires_at payload ≡ ok expiry)
              × ((consume (nonce_of (claim "nonce" payload)) expiry clock.consumed s.nonces).0
                  ≡ ok true)))
        ⊎ (authorized host clock d entry payload r s ≡ authorized host clock d' entry payload r s)
  authorized-cases d d' entry payload (err message) s = inr refl
  authorized-cases d d' entry payload (ok done) s =
      elim (expiring-cases d d' entry (nonce_of (claim "nonce" payload)) (expires_at payload) s) [
        | inl passed ↦ inl (refl, passed)
        | inr same ↦ inr same
      ]

  verified-cases :
      (d d' : Dispatch Params) (entry : QueueEntry Params) (r : Result TokenError Claims)
      (s : State Params)
      → r ≡ verify_entry host clock entry
      → is_cancelled (load entry.op_id s.disk.store) ≡ false
      → Admitted entry s ⊎ (verified host clock d entry r s ≡ verified host clock d' entry r s)
  verified-cases d d' entry (err attribute_error) s e wanted = inr refl
  verified-cases d d' entry (err (type_error message)) s e wanted = inr refl
  verified-cases d d' entry (err (value_error message)) s e wanted = inr refl
  verified-cases d d' entry (err (invalid message)) s e wanted = inr refl
  verified-cases d d' entry (err expired) s e wanted = inr refl
  verified-cases d d' entry (err (scope_error what)) s e wanted = inr refl
  verified-cases d d' entry (ok payload) s e wanted =
      elim (authorized-cases d d' entry payload
        (authorize host.repr host.str_of host.environments entry.kind entry.environment payload)
        s) [
          | inl (allowed, (expiry, expires, fresh)) ↦
              let (header, body, parts, decoded, live, a, v, p) =
                verify-signed host.codec entry.token (some entry.kind) (some entry.environment)
                  (some entry.project) clock.verified payload (sym e) in
              inl record {
                wanted = wanted;
                payload = payload;
                accepted = sym e;
                signed = (header, body, parts, decoded);
                alive = live;
                act = a;
                in_environment = v;
                in_project = p;
                authorized_ok = allowed;
                allowed =
                    authorize-Allowed host.repr host.str_of host.environments entry.kind
                      entry.environment payload allowed;
                expiry = expiry;
                expires = expires;
                fresh = fresh;
              }
          | inr same ↦ inr same
        ]

  -- Either the entry is admitted (its operation is not cancelled, its token is signed with the key,
  -- alive and for just this kind, environment and project, its principal may do what the kind asks
  -- for on that environment, and its nonce is accepted) or the body does not run: whatever it would
  -- do, the execution gives the same result and the same state.
  pub execute_entry-Admitted :
      (d d' : Dispatch Params) (entry : QueueEntry Params) (s : State Params)
      → Admitted entry s
        ⊎ (execute_entry host clock d entry s ≡ execute_entry host clock d' entry s)
  unfolding execute_entry
  execute_entry-Admitted d d' entry s =
      elim (Bool-cases (is_cancelled (load entry.op_id s.disk.store))) [
        | inl cancelled ↦ inr (rw cancelled refl)
        | inr wanted ↦
            elim (verified-cases d d' entry (verify_entry host clock entry) s refl wanted) [
              | inl admitted ↦ inl admitted
              | inr same ↦ inr (rw wanted same)
            ]
      ]
