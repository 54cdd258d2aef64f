-- ===== src/Runner/Execute/Missing.antt =====
-- An entry whose operation has no record.
use Prim.Native.String.{◌++◌}
use odooctl.Prelude.{ℕ, String, ◌≡◌, refl, Bool, true, false, Option, none}
use odooctl.Prelude.Exec.{Result, ok, err, continue}
use odooctl.Queue.{QueueEntry}
use odooctl.Operations.Engine.{Raised, exception}
use odooctl.Runner.Guards.{authorize, expires_at}
use odooctl.Runner.Nonces.{Nonce, nonce_of, consume}
use odooctl.Runner.Execute.{
  State, Host, Clock, Dispatch, reject, run_admitted, if_fresh, expiring, authorized, verified,
  verify_entry, execute_entry,
}
use odooctl.Security.Tokens.{
  Claims, claim, TokenError, value_error, invalid, expired, scope_error, attribute_error,
  type_error,
}

-- The call raised, and neither the disk nor the queue has changed.
abbrev pub Fails : {Params : Type 0} → State Params → Result Raised Bool × State Params → Type 0
Fails s out = (e : Raised) × (out.0 ≡ err e) × (out.1.disk ≡ s.disk) × (out.1.queue ≡ s.queue)

module _ {Params : Type 0} (host : Host Params) (clock : Clock) where
  reject-Fails :
      (entry : QueueEntry Params) (message : String) (s : State Params)
      → s.disk.store.records entry.op_id ≡ none
      → Fails s (reject host clock entry message s)
  reject-Fails entry message s gone =
      rw gone (exception (host.repr ("Operation not found: " ++ entry.op_id)), refl, refl, refl)

  if_fresh-Fails :
      (d : Dispatch Params) (entry : QueueEntry Params) (nonce : String) (b : Bool)
      (s : State Params)
      → s.disk.store.records entry.op_id ≡ none
      → Fails s (if_fresh host clock d entry nonce b s)
  unfolding run_admitted
  if_fresh-Fails d entry nonce true s gone =
      rw gone (exception (host.repr ("Operation not found: " ++ entry.op_id)), refl, refl, refl)
  if_fresh-Fails d entry nonce false s gone =
      reject-Fails entry ("token nonce already consumed: " ++ nonce) s gone

  fresh-Fails :
      (d : Dispatch Params) (entry : QueueEntry Params) (nonce : String) (r : Result Raised Bool)
      (s : State Params)
      → s.disk.store.records entry.op_id ≡ none
      → Fails s (continue r (if_fresh host clock d entry nonce) s)
  fresh-Fails d entry nonce (ok b) s gone = if_fresh-Fails d entry nonce b s gone
  fresh-Fails d entry nonce (err e) s gone = (e, refl, refl, refl)

  expiring-Fails :
      (d : Dispatch Params) (entry : QueueEntry Params) (nonce : Nonce)
      (r : Result Raised (Option ℕ)) (s : State Params)
      → s.disk.store.records entry.op_id ≡ none
      → Fails s (expiring host clock d entry nonce r s)
  expiring-Fails d entry nonce (err e) s gone = (e, refl, refl, refl)
  expiring-Fails d entry nonce (ok expiry) s gone =
      let out = consume nonce expiry clock.consumed s.nonces in
      fresh-Fails d entry _ out.0 (record s { nonces = out.1 }) gone

  authorized-Fails :
      (d : Dispatch Params) (entry : QueueEntry Params) (payload : Claims)
      (r : Result String (Unit {0})) (s : State Params)
      → s.disk.store.records entry.op_id ≡ none
      → Fails s (authorized host clock d entry payload r s)
  authorized-Fails d entry payload (err message) s gone = reject-Fails entry _ s gone
  authorized-Fails d entry payload (ok done) s gone =
      expiring-Fails d entry (nonce_of (claim "nonce" payload)) (expires_at payload) s gone

  verified-Fails :
      (d : Dispatch Params) (entry : QueueEntry Params) (r : Result TokenError Claims)
      (s : State Params)
      → s.disk.store.records entry.op_id ≡ none
      → Fails s (verified host clock d entry r s)
  verified-Fails d entry (ok payload) s gone =
      authorized-Fails d entry payload
        (authorize host.repr host.str_of host.environments entry.kind entry.environment payload) s
        gone
  verified-Fails d entry (err attribute_error) s gone = (_, refl, refl, refl)
  verified-Fails d entry (err (type_error message)) s gone = (_, refl, refl, refl)
  verified-Fails d entry (err (value_error message)) s gone = (_, refl, refl, refl)
  verified-Fails d entry (err (invalid message)) s gone = reject-Fails entry _ s gone
  verified-Fails d entry (err expired) s gone = reject-Fails entry _ s gone
  verified-Fails d entry (err (scope_error what)) s gone = reject-Fails entry _ s gone

  -- Where the operation of an entry has no record, each execution raises, on every branch, and
  -- changes neither the queue, where the entry stays among those that run, nor the store, the locks
  -- and the audit trail.
  pub execute_entry-Fails :
      (d : Dispatch Params) (entry : QueueEntry Params) (s : State Params)
      → s.disk.store.records entry.op_id ≡ none
      → Fails s (execute_entry host clock d entry s)
  unfolding execute_entry
  execute_entry-Fails d entry s gone =
      rw gone (verified-Fails d entry (verify_entry host clock entry) s gone)
