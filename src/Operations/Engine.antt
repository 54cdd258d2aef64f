-- ===== src/Operations/Engine.antt =====
-- The engine: `run_operation` around the body of a `with` block (odooctl/operations/engine.py). The
-- body is any call that changes what it finds in its context and may raise. `utcnow n` is the n-th time of day that the engine itself reads.
pub mod Lifecycle
pub mod Numbers
use Prim.Native.String.{◌++◌}
use odooctl.Prelude.{ℕ, zero, suc, ◌+◌, String, Bool, Option, none, some}
use odooctl.Prelude.Exec.{Result, ok, err, Exec}
use odooctl.Operations.Models.{
  Operation, OperationKind, OperationStatus, running, succeeded, failed, kind_value, Event,
  AuditEntry, create,
}
use odooctl.Operations.Store.{Store, save, update_status, append_event, with_status}
use odooctl.Operations.Locks.{Locks, Signal, LockAcquisitionError, lock_message, enter, exit}
use odooctl.Operations.Audit.{Json, Trail, append, decimal}

pub record Disk (Params : Type 0) : Type 0 where
  pub store : Store Params
  pub locks : Locks
  pub trail : Trail Params

-- The context that the body gets: the disk, and the number of its next event.
pub record Context (Params : Type 0) : Type 0 where
  pub disk : Disk Params
  pub seq : ℕ

-- What ends a block: an Exception, with its text, or another BaseException, such as an interrupt.
pub data Raised : Type 0 where
  exception : String → Raised
  base_exception : Raised

abbrev pub error_of : (String → String) → Raised → Option String
error_of redact (exception message) = some (redact message)
error_of redact base_exception = none

-- `f"{error_msg}"`
abbrev pub shown : Option String → String
shown none = "None"
shown (some message) = message

module _ {Params : Type 0} where
  -- `OperationContext.emit`, with `data=None`
  abbrev pub emit : String → String → String → String → String → Context Params → Context Params
  emit op_id now level phase message c = record {
    disk = record c.disk {
      store =
          append_event op_id
            record {
              op_id = op_id;
              seq = c.seq;
              timestamp = now;
              level = level;
              phase = phase;
              message = message;
            }
            c.disk.store;
    };
    seq = c.seq + 1;
  }

module _ {Params : Type 0} (json : Json Params) (digest redact repr : String → String)
    (signal : ℕ → Signal) (getpid : ℕ) (utcnow : ℕ → String) where
  abbrev pub entry_for :
      OperationKind → String → String → Params → String → String → String → AuditEntry Params
  entry_for kind environment actor params outcome op_id now = record {
    actor = actor;
    action = kind_value kind;
    target = environment;
    params_redacted = params;
    outcome = outcome;
    op_id = op_id;
    timestamp = now;
    prev_hash = "";
    current_hash = "";
  }

  abbrev audit_append : AuditEntry Params → Disk Params → Disk Params
  audit_append e s = record s { trail = (append json digest e s.trail).1 }

  -- The branch for LockAcquisitionError: nothing of the body runs.
  abbrev pub refused : Operation Params → LockAcquisitionError → Disk Params → Disk Params
  refused op cause s =
      audit_append
        (entry_for op.kind op.environment op.actor op.params_redacted "failed" op.id (utcnow 3))
        record s {
          store =
              append_event op.id
                record {
                  op_id = op.id;
                  seq = 0;
                  timestamp = utcnow 2;
                  level = "error";
                  phase = "end";
                  message =
                      "lock acquisition failed: " ++ lock_message repr decimal op.environment cause;
                }
                (save
                  record op {
                    status = failed;
                    error =
                        some
                          ("Could not acquire lock for environment '" ++ (op.environment ++ "'"));
                    updated_at = utcnow 1;
                  }
                  s.store);
        }

  abbrev pub begun : Operation Params → Disk Params → Context Params
  begun op s =
      emit op.id (utcnow 2) "info" "start"
        ("operation started: " ++ (kind_value op.kind ++ (" on " ++ op.environment)))
        record {
          disk = record s {
            store = save record op { status = running; updated_at = utcnow 1 } s.store;
          };
          seq = 0;
        }

  abbrev audited :
      {A : Type 0}
      → Operation Params
      → String
      → Result Raised A
      → Result String (Operation Params) × Store Params
      → Disk Params
      → Result Raised A × Disk Params
  audited op outcome r (err key, store) s =
      (err (exception (repr ("Operation not found: " ++ key))), s)
  audited op outcome r (ok saved, store) s = (
    r,
    audit_append
        (entry_for op.kind op.environment op.actor op.params_redacted outcome op.id (utcnow 5))
        record s { store = store },
  )

  -- The `finally` block: the lock is left, then the event, the status and the audit entry are
  -- written, and what the body raised is raised.
  abbrev pub left : Operation Params → Bool → Context Params → Context Params
  left op reentrant c = record c {
    disk = record c.disk { locks = exit op.environment reentrant c.disk.locks };
  }

  abbrev pub finished :
      {A : Type 0}
      → Operation Params
      → Bool
      → Result Raised A
      → Context Params
      → Result Raised A × Disk Params
  finished op reentrant (ok a) c =
      let s =
        (emit op.id (utcnow 3) "info" "end" "operation completed" (left op reentrant c)).disk in
      audited op "succeeded" (ok a) (update_status op.id succeeded (utcnow 4) none none s.store) s
  finished op reentrant (err e) c =
      let message = error_of redact e in
      let s =
        (emit op.id (utcnow 3) "error" "end" ("operation failed: " ++ shown message)
          (left op reentrant c)).disk in
      audited op "failed" (err e) (update_status op.id failed (utcnow 4) message none s.store) s

  abbrev pub in_lock :
      {A : Type 0}
      → Operation Params
      → (String → Exec (Context Params) Raised A)
      → Disk Params
      → Result LockAcquisitionError Bool × Locks
      → Result Raised A × Disk Params
  in_lock op body s (err e, locks) = (
    err (exception (lock_message repr decimal op.environment e)),
    refused op e record s { locks = locks },
  )
  in_lock op body s (ok reentrant, locks) =
      let (r, c) = body op.id (begun op record s { locks = locks }) in finished op reentrant r c

  -- `op_id` is the new operation's random id.
  unfoldable pub run_operation :
      {A : Type 0}
      → String
      → OperationKind
      → String
      → String
      → String
      → Params
      → (String → Exec (Context Params) Raised A)
      → Exec (Disk Params) Raised A
  run_operation op_id kind project environment actor params body s =
      let op = create op_id (utcnow 0) kind project environment actor params in
      let s' = record s { store = save op s.store } in
      in_lock op body s' (enter signal getpid environment op.id s'.locks)
