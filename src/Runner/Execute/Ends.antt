-- ===== src/Runner/Execute/Ends.antt =====
-- Each execution comes to an end that the operation's record and the queue agree with.
use Prim.Native.String.{◌++◌}
use odooctl.Prelude.{
  ℕ, String, ◌≡◌, inl, inr, refl, Bool, true, false, Option, Option-cases, Bool-cases,
}
use odooctl.Prelude.Exec.{Result, ok, err, continue}
use odooctl.Queue.{QueueEntry}
use odooctl.Operations.Engine.{Raised}
use odooctl.Operations.Models.{
  Operation, OperationStatus, queued, running, succeeded, failed, cancelled,
}
use odooctl.Operations.Store.{load}
use odooctl.Runner.Guards.{authorize, expires_at}
use odooctl.Runner.Nonces.{NonceFile, text, nonce_of, consume, purge}
use odooctl.Runner.Nonces.{load as load_nonces}
use odooctl.Runner.Execute.{
  State, Host, Clock, Dispatch, is_cancelled, if_fresh, authorized, verified, verify_entry,
  execute_entry,
}
use odooctl.Security.Tokens.{
  Claims, claim, TokenError, value_error, invalid, expired, scope_error, attribute_error,
  type_error,
}
use odooctl.Runner.Execute.Closing.{
  HasRecord, IsBody, Ends, complete-running, reject-Ends, run_admitted-Ends,
}

is_cancelled-status :
    {Params : Type 0} (op : Operation Params) → is_cancelled (ok op) ≡ true → op.status ≡ cancelled
is_cancelled-status op h = status_of op.status h
  where
    status_of :
        (status : OperationStatus)
        → (elim status as (λ _. Bool) [ cancelled ↦ true | _ ↦ false ]) ≡ true
        → status ≡ cancelled
    status_of cancelled h = refl
    status_of queued h = cc
    status_of running h = cc
    status_of succeeded h = cc
    status_of failed h = cc

-- A token that is refused by a TokenError (so that its signature is ASCII and its payload an object), or whose payload has a text for its nonce and an expiry that
-- Python can tell the date of.
abbrev pub IsOrdinary : Result TokenError Claims → Type 0
IsOrdinary (ok payload) =
    (expiry : Option ℕ) × (expires_at payload ≡ ok expiry)
    × ((name : String) × (nonce_of (claim "nonce" payload) ≡ text name))
IsOrdinary (err attribute_error) = ⊥
IsOrdinary (err (type_error message)) = ⊥
IsOrdinary (err (value_error message)) = ⊥
IsOrdinary (err (invalid message)) = Unit
IsOrdinary (err expired) = Unit
IsOrdinary (err (scope_error what)) = Unit

consume-text :
    (name : String) (expiry : Option ℕ) (now : ℕ) (file : NonceFile)
    → (b : Bool) × ((consume (text name) expiry now file).0 ≡ ok b)
unfolding consume
consume-text name expiry now file = elim (Option-cases (purge (load_nonces now file) now name)) [
  | inl fresh ↦ (true, rw fresh refl)
  | inr (t, there) ↦ (false, rw there refl)
]

module _ {Params : Type 0} (host : Host Params) (clock : Clock) where
  if_fresh-Ends :
      (d : Dispatch Params) (entry : QueueEntry Params) (nonce : String) (r : Result Raised Bool)
      (b : Bool) (s : State Params)
      → r ≡ ok b
      → IsBody entry d
      → HasRecord entry s.disk.store
      → Ends entry (continue r (if_fresh host clock d entry nonce) s)
  if_fresh-Ends d entry nonce (ok true) b s e body there =
      run_admitted-Ends host clock d entry s body there
  if_fresh-Ends d entry nonce (ok false) b s e body there =
      reject-Ends host clock entry ("token nonce already consumed: " ++ nonce) s there
  if_fresh-Ends d entry nonce (err x) b s e body there = cc

  authorized-Ends :
      (d : Dispatch Params) (entry : QueueEntry Params) (payload : Claims)
      (r : Result String (Unit {0})) (s : State Params)
      → IsOrdinary (ok payload)
      → IsBody entry d
      → HasRecord entry s.disk.store
      → Ends entry (authorized host clock d entry payload r s)
  authorized-Ends d entry payload (err message) s ordinary body there =
      reject-Ends host clock entry (host.redact ("rbac error: " ++ message)) s there
  authorized-Ends d entry payload (ok done) s (expiry, expires, (name, named)) body there =
      let (b, e) = consume-text name expiry clock.consumed s.nonces in
      rw expires (rw named (if_fresh-Ends d entry name _ b _ e body there))

  verified-Ends :
      (d : Dispatch Params) (entry : QueueEntry Params) (r : Result TokenError Claims)
      (s : State Params)
      → IsOrdinary r
      → IsBody entry d
      → HasRecord entry s.disk.store
      → Ends entry (verified host clock d entry r s)
  verified-Ends d entry (ok payload) s ordinary body there =
      authorized-Ends d entry payload
        (authorize host.repr host.str_of host.environments entry.kind entry.environment payload) s
        ordinary body there
  verified-Ends d entry (err attribute_error) s ordinary body there = absurd ordinary
  verified-Ends d entry (err (type_error message)) s ordinary body there = absurd ordinary
  verified-Ends d entry (err (value_error message)) s ordinary body there = absurd ordinary
  verified-Ends d entry (err (invalid message)) s ordinary body there =
      reject-Ends host clock entry _ s there
  verified-Ends d entry (err expired) s ordinary body there = reject-Ends host clock entry _ s there
  verified-Ends d entry (err (scope_error what)) s ordinary body there =
      reject-Ends host clock entry _ s there

  -- Where the operation has a record under its id, the body keeps it and is not interrupted, and the
  -- check of the token raises nothing but a TokenError (so it has an ASCII signature, or not three
  -- parts, and no payload that is signed but no object) or accepts one with a text for its nonce and
  -- an expiry before the year 10000: the execution returns, whichever check fails and however the
  -- body ends, and then no file of the entry is left among those that run.
  -- It returns `True` only with a record that says `succeeded`, or `cancelled` before, and `False`
  -- only with a record that says `failed`.
  pub execute_entry-Ends :
      (d : Dispatch Params) (entry : QueueEntry Params) (s : State Params)
      → IsOrdinary (verify_entry host clock entry)
      → IsBody entry d
      → HasRecord entry s.disk.store
      → Ends entry (execute_entry host clock d entry s)
  unfolding execute_entry
  execute_entry-Ends d entry s ordinary body (op, there, same) =
      elim (Bool-cases (is_cancelled (load entry.op_id s.disk.store))) [
        | inl stopped ↦ rw stopped record {
          returned = true;
          result = refl;
          op = op;
          there = there;
          status = inr (is_cancelled-status op (rw there at stopped));
          gone = complete-running entry.op_id s.queue;
        }
        | inr wanted ↦ rw wanted (
            verified-Ends d entry (verify_entry host clock entry) s ordinary body (op, there, same))
      ]
