-- ===== src/Runner/Execute.antt =====
-- How the runner takes one entry through its checks and its run (`_execute_entry` of
-- odooctl/runner/worker.py). The body, `_dispatch`, is any call that changes what an operation's
-- context reaches and may raise. The queue and the nonces are not in its reach.
pub mod Guarded
pub mod Kept
pub mod Once
pub mod Closing
pub mod Ends
pub mod Missing
use Prim.Native.String.{◌++◌}
use odooctl.Prelude.{
  ℕ, ◌+◌, String, Bool, true, false, Option, none, some, List, [], ◌∷◌, if◌then◌else◌,
}
use odooctl.Prelude.Exec.{Result, ok, err, Exec, pure, raise, ◌>>=◌, ◌>>◌}
use odooctl.Environments.{Environments}
use odooctl.Queue.{QueueEntry, Queue, complete, fail}
use odooctl.Operations.Audit.{Json, append, decimal}
use odooctl.Operations.Engine.{Disk, Context, Raised, exception, base_exception, emit}
use odooctl.Operations.Locks.{Locks, Signal, LockAcquisitionError, lock_message, enter, exit}
use odooctl.Operations.Models.{
  Operation, OperationStatus, running, succeeded, failed, cancelled, AuditEntry,
}
use odooctl.Operations.Store.{Store, load, update_status}
use odooctl.Runner.Guards.{authorize, expires_at, token_text}
use odooctl.Runner.Nonces.{NonceFile, Nonce, text, scalar, unhashable, nonce_of, consume}
use odooctl.Security.Tokens.{
  Codec, Value, Claims, claim, TokenError, value_error, invalid, expired, scope_error,
  attribute_error, type_error, verify,
}

-- The files of one project's state directory.
pub record State (Params : Type 0) : Type 0 where
  pub disk : Disk Params
  pub queue : Queue Params
  pub nonces : NonceFile

-- What a runner works with: the key, as a codec, the configuration, its process, and Python's
-- functions on texts.
pub record Host (Params : Type 0) : Type 0 where
  pub codec : Codec
  pub json : Json Params
  pub digest : String → String
  pub redact : String → String
  pub repr : String → String
  pub str_of : Value → String
  pub environments : Environments
  pub signal : ℕ → Signal
  pub getpid : ℕ

-- The readings of the clock in one execution: by `tokens.verify`, in seconds, by the nonce store, in
-- microseconds, and the times of day that are written.
pub record Clock : Type 0 where
  pub verified : ℕ
  pub consumed : ℕ
  pub utcnow : ℕ → String

abbrev pub Dispatch : Type 0 → Type 0
Dispatch Params = QueueEntry Params → Exec (Context Params) Raised (Unit {0})

abbrev pub Running : Type 0 → Type 0 → Type 0
Running Params A = Exec (State Params) Raised A

abbrev pub nonce_text : Nonce → String
nonce_text (text name) = name
nonce_text (scalar name) = name
nonce_text (unhashable kind) = kind

module _ {Params : Type 0} where
  abbrev pub is_cancelled : Result String (Operation Params) → Bool
  is_cancelled (ok op) = elim op.status [ cancelled ↦ true | _ ↦ false ]
  is_cancelled (err key) = false

  abbrev pub on_nonces : {A : Type 0} → Exec NonceFile Raised A → Running Params A
  on_nonces m s = let (r, nonces) = m s.nonces in (r, record s { nonces = nonces })

module _ {Params : Type 0} (host : Host Params) (clock : Clock) where
  abbrev pub stored : Result String (Operation Params) × Store Params → Running Params (Unit {0})
  stored (ok op, store) s = pure tt (record s { disk = record s.disk { store = store } })
  stored (err key, store) s = raise (exception (host.repr ("Operation not found: " ++ key))) s

  -- `store.update_status`
  abbrev pub set_status : String → OperationStatus → ℕ → Option String → Running Params (Unit {0})
  set_status op_id status n error s =
      stored (update_status op_id status (clock.utcnow n) error none s.disk.store) s

  abbrev pub rejected : QueueEntry Params → Unit {0} → Running Params Bool
  rejected entry done s = pure false (record s { queue = fail entry.op_id s.queue })

  -- The way out of a check that failed.
  abbrev pub reject : QueueEntry Params → String → Running Params Bool
  reject entry message = set_status entry.op_id failed 0 (some message) >>= rejected entry

  abbrev pub audited : QueueEntry Params → String → Disk Params → Disk Params
  audited entry outcome s = record s {
    trail =
        (append host.json host.digest
          record {
            actor = entry.actor;
            action = entry.kind;
            target = entry.environment;
            params_redacted = entry.params_redacted;
            outcome = outcome;
            op_id = entry.op_id;
            timestamp = clock.utcnow 4;
            prev_hash = "";
            current_hash = "";
          }
          s.trail).1;
  }

  -- The queue and the audit trail, after the last change of the status.
  abbrev pub closed : QueueEntry Params → Bool → Unit {0} → Running Params Bool
  closed entry true done s =
      pure true
        (record s { disk = audited entry "succeeded" s.disk; queue = complete entry.op_id s.queue })
  closed entry false done s =
      pure false
        (record s { disk = audited entry "failed" s.disk; queue = fail entry.op_id s.queue })

  -- Events go to the operation that was loaded, `op_id`.
  abbrev pub end_event : String → Option String → Context Params → Context Params
  end_event op_id none c = emit op_id (clock.utcnow 2) "info" "end" "operation completed" c
  end_event op_id (some message) c =
      emit op_id (clock.utcnow 2) "error" "end" ("operation failed: " ++ message) c

  -- The end of an operation, with the context that the body left.
  abbrev pub finish :
      QueueEntry Params → String → Option String → Context Params → Running Params Bool
  finish entry op_id none c s =
      (set_status entry.op_id succeeded 3 none >>= closed entry true)
        (record s { disk = (end_event op_id none c).disk })
  finish entry op_id (some message) c s =
      (set_status entry.op_id failed 3 (some message) >>= closed entry false)
        (record s { disk = (end_event op_id (some message) c).disk })

  abbrev pub left : QueueEntry Params → Bool → Context Params → Context Params
  left entry reentrant c = record c {
    disk = record c.disk { locks = exit entry.environment reentrant c.disk.locks };
  }

  abbrev pub ended :
      QueueEntry Params
      → String
      → Bool
      → Result Raised (Unit {0}) × Context Params
      → Running Params Bool
  ended entry op_id reentrant (ok done, c) s = finish entry op_id none (left entry reentrant c) s
  ended entry op_id reentrant (err (exception message), c) s =
      finish entry op_id (some (host.redact message)) (left entry reentrant c) s
  ended entry op_id reentrant (err base_exception, c) s =
      raise base_exception (record s { disk = (left entry reentrant c).disk })

  abbrev pub with_locks : Locks → Context Params → Context Params
  with_locks locks c = record c { disk = record c.disk { locks = locks } }

  abbrev pub lock_error : QueueEntry Params → LockAcquisitionError → String
  lock_error entry cause =
      "lock acquisition failed: " ++ lock_message host.repr decimal entry.environment cause

  -- What follows the attempt to enter the lock, from the context as it was before.
  abbrev pub in_lock :
      Dispatch Params
      → QueueEntry Params
      → String
      → Context Params
      → Result LockAcquisitionError Bool × Locks
      → Running Params Bool
  in_lock dispatch entry op_id c (err cause, locks) =
      finish entry op_id (some (lock_error entry cause)) (with_locks locks c)
  in_lock dispatch entry op_id c (ok reentrant, locks) =
      ended entry op_id reentrant (dispatch entry (with_locks locks c))

  -- The context after the event that an operation starts.
  abbrev pub begun : QueueEntry Params → String → Disk Params → Context Params
  begun entry op_id s =
      emit op_id (clock.utcnow 1) "info" "start"
        ("operation started: " ++ (entry.kind ++ (" on " ++ entry.environment)))
        record { disk = s; seq = 0 }

  -- `op = store.load(entry.op_id)` and the rest.
  abbrev pub loaded :
      Dispatch Params → QueueEntry Params → Result String (Operation Params) → Running Params Bool
  loaded dispatch entry (err key) s =
      raise (exception (host.repr ("Operation not found: " ++ key))) s
  loaded dispatch entry (ok op) s =
      in_lock dispatch entry op.id (begun entry op.id s.disk)
        (enter host.signal host.getpid entry.environment entry.op_id s.disk.locks) s

  abbrev pub start : Dispatch Params → QueueEntry Params → Unit {0} → Running Params Bool
  start dispatch entry done s = loaded dispatch entry (load entry.op_id s.disk.store) s

  unfoldable pub run_admitted : Dispatch Params → QueueEntry Params → Running Params Bool
  run_admitted dispatch entry = set_status entry.op_id running 0 none >>= start dispatch entry

  abbrev pub if_fresh : Dispatch Params → QueueEntry Params → String → Bool → Running Params Bool
  if_fresh dispatch entry nonce true = run_admitted dispatch entry
  if_fresh dispatch entry nonce false = reject entry ("token nonce already consumed: " ++ nonce)

  -- The single-use check and what follows it.
  abbrev pub consuming :
      Dispatch Params → QueueEntry Params → Nonce → Option ℕ → Running Params Bool
  consuming dispatch entry nonce expiry =
      on_nonces (consume nonce expiry clock.consumed) >>= if_fresh dispatch entry (nonce_text nonce)

  abbrev pub expiring :
      Dispatch Params → QueueEntry Params → Nonce → Result Raised (Option ℕ) → Running Params Bool
  expiring dispatch entry nonce (err e) = raise e
  expiring dispatch entry nonce (ok expiry) = consuming dispatch entry nonce expiry

  abbrev pub authorized :
      Dispatch Params → QueueEntry Params → Claims → Result String (Unit {0}) → Running Params Bool
  authorized dispatch entry payload (err message) =
      reject entry (host.redact ("rbac error: " ++ message))
  authorized dispatch entry payload (ok done) =
      expiring dispatch entry (nonce_of (claim "nonce" payload)) (expires_at payload)

  abbrev pub reject_token : QueueEntry Params → TokenError → Running Params Bool
  reject_token entry e =
      reject entry
        (host.redact ("token error: " ++ token_text entry.kind entry.environment entry.project e))

  -- AttributeError, TypeError and ValueError are no TokenError.
  abbrev pub verified :
      Dispatch Params → QueueEntry Params → Result TokenError Claims → Running Params Bool
  verified dispatch entry (ok payload) =
      authorized dispatch entry payload
        (authorize host.repr host.str_of host.environments entry.kind entry.environment payload)
  verified dispatch entry (err (type_error message)) = raise (exception message)
  verified dispatch entry (err attribute_error) =
      raise (exception (token_text entry.kind entry.environment entry.project attribute_error))
  verified dispatch entry (err (value_error message)) = raise (exception message)
  verified dispatch entry (err (invalid message)) = reject_token entry (invalid message)
  verified dispatch entry (err expired) = reject_token entry expired
  verified dispatch entry (err (scope_error what)) = reject_token entry (scope_error what)

  abbrev pub verify_entry : QueueEntry Params → Result TokenError Claims
  verify_entry entry =
      verify host.codec entry.token (some entry.kind) (some entry.environment) (some entry.project)
        clock.verified

  unfoldable pub execute_entry : Dispatch Params → QueueEntry Params → Running Params Bool
  execute_entry dispatch entry s =
      if is_cancelled (load entry.op_id s.disk.store)
      then pure true (record s { queue = complete entry.op_id s.queue })
      else verified dispatch entry (verify_entry entry) s
