-- ===== src/Runner/Execute/Kept.antt =====
-- What an execution does to the nonces.
use Prim.Native.String.{◌++◌}
use odooctl.Prelude.{
  ℕ, ◌≤◌, String, ◌≡◌, ◌≢◌, sym, subst, ◌∙◌, refl, Bool, true, false, Option, none, some, if_ind,
}
use odooctl.Prelude.Exec.{Result, ok, err, continue_ind, ◌>>=◌}
use odooctl.Queue.{QueueEntry, complete}
use odooctl.Operations.Engine.{Context, Raised, exception, base_exception}
use odooctl.Operations.Locks.{Locks, enter, LockAcquisitionError}
use odooctl.Operations.Models.{Operation, OperationStatus, running, succeeded, failed}
use odooctl.Operations.Store.{Store, load, update_status}
use odooctl.Runner.Guards.{expires_at}
use odooctl.Runner.Nonces.{Nonce, scalar, nonce_of, consume}
use odooctl.Runner.Nonces.Reuse.{IsBlocked, consume-IsBlocked}
use odooctl.Runner.Execute.{
  State, Host, Clock, Dispatch, Running, is_cancelled, rejected, closed, end_event, left,
  with_locks, lock_error, begun, stored, set_status, reject, finish, ended, in_lock, loaded, start,
  run_admitted, if_fresh, consuming, expiring, authorized, verified, verify_entry, execute_entry,
}
use odooctl.Runner.Execute.Guarded.{Admitted}
use odooctl.Security.Tokens.{
  Claims, claim, TokenError, value_error, invalid, expired, scope_error, attribute_error,
  type_error,
}

module _ {Params A : Type 0} where
  -- A call that leaves the nonces alone.
  abbrev Keeps : Running Params A → Type 0
  Keeps m = (s : State Params) → (m s).1.nonces ≡ s.nonces

module _ {Params A B : Type 0} where
  bind-Keeps :
      (m : Running Params A) (f : A → Running Params B)
      → Keeps m
      → ((a : A) → Keeps (f a))
      → Keeps (m >>= f)
  bind-Keeps m f km kf s =
      continue_ind (λ out. out.1.nonces ≡ s.nonces) (m s).0 f (m s).1 (λ a _. kf a (m s).1 ∙ km s)
        (λ e _. km s)

module _ {Params : Type 0} (host : Host Params) (clock : Clock) where
  stored-Keeps : (o : Result String (Operation Params) × Store Params) → Keeps (stored host clock o)
  stored-Keeps (ok op, store) s = refl
  stored-Keeps (err key, store) s = refl

  set_status-Keeps :
      (op_id : String) (status : OperationStatus) (n : ℕ) (error : Option String)
      → Keeps (set_status host clock op_id status n error)
  set_status-Keeps op_id status n error s =
      stored-Keeps (update_status op_id status (clock.utcnow n) error none s.disk.store) s

  reject-Keeps :
      (entry : QueueEntry Params) (message : String) → Keeps (reject host clock entry message)
  reject-Keeps entry message =
      bind-Keeps (set_status host clock entry.op_id failed 0 (some message))
        (rejected host clock entry) (set_status-Keeps entry.op_id failed 0 (some message))
        (λ a s. refl)

  finish-Keeps :
      (entry : QueueEntry Params) (op_id : String) (error : Option String) (c : Context Params)
      → Keeps (finish host clock entry op_id error c)
  finish-Keeps entry op_id none c s =
      bind-Keeps (set_status host clock entry.op_id succeeded 3 none) (closed host clock entry true)
        (set_status-Keeps entry.op_id succeeded 3 none) (λ a s'. refl)
        (record s { disk = (end_event host clock op_id none c).disk })
  finish-Keeps entry op_id (some message) c s =
      bind-Keeps (set_status host clock entry.op_id failed 3 (some message))
        (closed host clock entry false) (set_status-Keeps entry.op_id failed 3 (some message))
        (λ a s'. refl) (record s { disk = (end_event host clock op_id (some message) c).disk })

  ended-Keeps :
      (entry : QueueEntry Params) (op_id : String) (reentrant : Bool)
      (out : Result Raised (Unit {0}) × Context Params)
      → Keeps (ended host clock entry op_id reentrant out)
  ended-Keeps entry op_id reentrant (ok done, c) s =
      finish-Keeps entry op_id none (left host clock entry reentrant c) s
  ended-Keeps entry op_id reentrant (err (exception message), c) s =
      finish-Keeps entry op_id (some (host.redact message)) (left host clock entry reentrant c) s
  ended-Keeps entry op_id reentrant (err base_exception, c) s = refl

  in_lock-Keeps :
      (d : Dispatch Params) (entry : QueueEntry Params) (op_id : String) (c : Context Params)
      (out : Result LockAcquisitionError Bool × Locks)
      → Keeps (in_lock host clock d entry op_id c out)
  in_lock-Keeps d entry op_id c (err cause, locks) =
      finish-Keeps entry op_id (some (lock_error host clock entry cause))
        (with_locks host clock locks c)
  in_lock-Keeps d entry op_id c (ok reentrant, locks) =
      ended-Keeps entry op_id reentrant (d entry (with_locks host clock locks c))

  loaded-Keeps :
      (d : Dispatch Params) (entry : QueueEntry Params) (r : Result String (Operation Params))
      → Keeps (loaded host clock d entry r)
  loaded-Keeps d entry (err key) s = refl
  loaded-Keeps d entry (ok op) s =
      in_lock-Keeps d entry op.id (begun host clock entry op.id s.disk)
        (enter host.signal host.getpid entry.environment entry.op_id s.disk.locks) s

  if_fresh-Keeps :
      (d : Dispatch Params) (entry : QueueEntry Params) (nonce : String) (b : Bool)
      → Keeps (if_fresh host clock d entry nonce b)
  unfolding run_admitted
  if_fresh-Keeps d entry nonce true =
      bind-Keeps (set_status host clock entry.op_id running 0 none) (start host clock d entry)
        (set_status-Keeps entry.op_id running 0 none)
        (λ a s. loaded-Keeps d entry (load entry.op_id s.disk.store) s)
  if_fresh-Keeps d entry nonce false = reject-Keeps entry _

  -- The nonces after the single-use check are what `consume` made of them.
  consuming-nonces :
      (d : Dispatch Params) (entry : QueueEntry Params) (nonce : Nonce) (expiry : Option ℕ)
      (s : State Params)
      → (consuming host clock d entry nonce expiry s).1.nonces
        ≡ (consume nonce expiry clock.consumed s.nonces).1
  consuming-nonces d entry nonce expiry s =
      let out = consume nonce expiry clock.consumed s.nonces in
      continue_ind (λ o. o.1.nonces ≡ out.1) out.0 (if_fresh host clock d entry _)
        (record s { nonces = out.1 }) (λ b _. if_fresh-Keeps d entry _ b _) (λ e _. refl)

  -- What is blocked before an execution is blocked after it.
  authorized-IsBlocked :
      (d : Dispatch Params) (entry : QueueEntry Params) (payload : Claims)
      (r : Result String (Unit {0})) (name : String) (limit : ℕ) (s : State Params)
      → IsBlocked name limit s.nonces
      → clock.consumed ≤ limit
      → nonce_of (claim "nonce" payload) ≢ scalar name
      → IsBlocked name limit (authorized host clock d entry payload r s).1.nonces
  authorized-IsBlocked d entry payload (err message) name limit s b h differs =
      subst (IsBlocked name limit)
        (sym (reject-Keeps entry (host.redact ("rbac error: " ++ message)) s)) b
  authorized-IsBlocked d entry payload (ok done) name limit s b h differs =
      expiring-IsBlocked (expires_at payload)
    where
      expiring-IsBlocked :
          (r : Result Raised (Option ℕ))
          → IsBlocked name limit
              (expiring host clock d entry (nonce_of (claim "nonce" payload)) r s).1.nonces
      expiring-IsBlocked (err e) = b
      expiring-IsBlocked (ok expiry) =
          let nonce = nonce_of (claim "nonce" payload) in
          subst (IsBlocked name limit) (sym (consuming-nonces d entry nonce expiry s))
            (consume-IsBlocked name limit nonce expiry clock.consumed s.nonces b h differs)

  verified-IsBlocked :
      (d : Dispatch Params) (entry : QueueEntry Params) (r : Result TokenError Claims)
      (name : String) (limit : ℕ) (s : State Params)
      → IsBlocked name limit s.nonces
      → clock.consumed ≤ limit
      → ((payload : Claims) → r ≡ ok payload → nonce_of (claim "nonce" payload) ≢ scalar name)
      → IsBlocked name limit (verified host clock d entry r s).1.nonces
  verified-IsBlocked d entry (ok payload) name limit s b h differs =
      authorized-IsBlocked d entry payload _ name limit s b h (differs payload refl)
  verified-IsBlocked d entry (err attribute_error) name limit s b h differs = b
  verified-IsBlocked d entry (err (type_error message)) name limit s b h differs = b
  verified-IsBlocked d entry (err (value_error message)) name limit s b h differs = b
  verified-IsBlocked d entry (err (invalid message)) name limit s b h differs =
      subst (IsBlocked name limit) (sym (reject-Keeps entry _ s)) b
  verified-IsBlocked d entry (err expired) name limit s b h differs =
      subst (IsBlocked name limit) (sym (reject-Keeps entry _ s)) b
  verified-IsBlocked d entry (err (scope_error what)) name limit s b h differs =
      subst (IsBlocked name limit) (sym (reject-Keeps entry _ s)) b

  pub execute_entry-IsBlocked :
      (d : Dispatch Params) (entry : QueueEntry Params) (name : String) (limit : ℕ)
      (s : State Params)
      → IsBlocked name limit s.nonces
      → clock.consumed ≤ limit
      → ((payload : Claims)
          → verify_entry host clock entry ≡ ok payload
          → nonce_of (claim "nonce" payload) ≢ scalar name)
      → IsBlocked name limit (execute_entry host clock d entry s).1.nonces
  unfolding execute_entry
  execute_entry-IsBlocked d entry name limit s b h differs =
      if_ind (λ (m : Result Raised Bool × State Params). IsBlocked name limit m.1.nonces)
        (is_cancelled (load entry.op_id s.disk.store))
        (ok true, record s { queue = complete entry.op_id s.queue })
        (verified host clock d entry (verify_entry host clock entry) s) (λ _. b)
        (λ _. verified-IsBlocked d entry (verify_entry host clock entry) name limit s b h differs)

  -- An execution that is admitted has consumed its nonce.
  pub execute_entry-nonces :
      (d : Dispatch Params) (entry : QueueEntry Params) (s : State Params)
      (a : Admitted host clock entry s)
      → (execute_entry host clock d entry s).1.nonces
        ≡ (consume (nonce_of (claim "nonce" a.payload)) a.expiry clock.consumed s.nonces).1
  unfolding execute_entry
  execute_entry-nonces d entry s a = rw (a.wanted) (
      rw (a.accepted) (
        rw (a.authorized_ok) (
          rw (a.expires)
            (consuming-nonces d entry (nonce_of (claim "nonce" a.payload)) a.expiry s))))
