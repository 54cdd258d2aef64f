-- ===== src/Operations/Engine/Lifecycle.antt =====
-- How an operation ends: its record, its events, its audit entry and its lock.
use Prim.Native.String.{◌++◌ as ◌+++◌}
use odooctl.Prelude.{
  ℕ, String, ◌≡◌, refl, sym, ap, subst, Bool, Option, none, some, [], ◌∷◌, ◌++◌, update,
  update_self,
}
use odooctl.Prelude.Exec.{Result, ok, err, Exec}
use odooctl.Operations.Models.{
  Operation, OperationKind, OperationStatus, running, succeeded, failed, Event, create,
}
use odooctl.Operations.Store.{save, load_events, listed, with_status}
use odooctl.Operations.Locks.{Locks, Signal, LockAcquisitionError, lock_message, enter, exit}
use odooctl.Operations.Audit.{Json, append, decimal}
use odooctl.Operations.Engine.{
  Disk, Context, Raised, exception, error_of, emit, entry_for, begun, finished, run_operation,
}

abbrev pub status_of : {A : Type 0} → Result Raised A → OperationStatus
status_of (ok a) = succeeded
status_of (err e) = failed

abbrev pub outcome_of : {A : Type 0} → Result Raised A → String
outcome_of (ok a) = "succeeded"
outcome_of (err e) = "failed"

module _ {Params : Type 0} where
  saved_record :
      (records : String → Option (Operation Params)) (op_id : String) (op : Operation Params)
      → op.id ≡ op_id
      → update records op.id (some op) op_id ≡ some op
  saved_record records op_id op same =
      subst (λ k. update records k (some op) op_id ≡ some op) (sym same)
        (update_self records op_id (some op))

  pub emit-load_events :
      (op_id now level phase message : String) (c : Context Params)
      → (e : Event) × (e.seq ≡ c.seq)
        × (e.phase ≡ phase)
        × (load_events op_id (emit op_id now level phase message c).disk.store
            ≡ load_events op_id c.disk.store ++ e ∷ [])
  emit-load_events op_id now level phase message c = (
    record {
      op_id = op_id;
      seq = c.seq;
      timestamp = now;
      level = level;
      phase = phase;
      message = message;
    },
    refl,
    refl,
    ap listed (update_self c.disk.store.events op_id _),
  )

module _ {Params : Type 0} (json : Json Params) (digest redact repr : String → String)
    (signal : ℕ → Signal) (getpid : ℕ) (utcnow : ℕ → String) where
  -- What the block leaves behind a body that ended with `r` in the context `c`.
  pub record Finished {A : Type 0} (op : Operation Params) (reentrant : Bool) (r : Result Raised A)
      (c : Context Params) (out : Result Raised A × Disk Params) : Type 0 where
    pub result : out.0 ≡ r
    pub status :
        (op' : Operation Params) × (out.1.store.records op.id ≡ some op')
        × (op'.status ≡ status_of r)
    pub locks : out.1.locks ≡ exit op.environment reentrant c.disk.locks
    pub trail :
        out.1.trail
        ≡ (append json digest
            (entry_for json digest redact repr signal getpid utcnow op.kind op.environment op.actor
              op.params_redacted
              (outcome_of r)
              op.id
              (utcnow 5))
            c.disk.trail).1
    pub event :
        (e : Event) × (e.seq ≡ c.seq)
        × (e.phase ≡ "end")
        × (load_events op.id out.1.store ≡ load_events op.id c.disk.store ++ e ∷ [])

  finished-Finished :
      {A : Type 0} (op : Operation Params) (reentrant : Bool) (r : Result Raised A)
      (c : Context Params) (op' : Operation Params)
      → c.disk.store.records op.id ≡ some op'
      → op'.id ≡ op.id
      → Finished op reentrant r c
          (finished json digest redact repr signal getpid utcnow op reentrant r c)
  finished-Finished op reentrant (ok a) c op' there same = rw there record {
    result = refl;
    status = (
      with_status succeeded (utcnow 4) none none op',
      saved_record c.disk.store.records op.id _ same,
      refl,
    );
    locks = refl;
    trail = refl;
    event = emit-load_events op.id _ _ "end" _ c;
  }
  finished-Finished op reentrant (err e) c op' there same = rw there record {
    result = refl;
    status = (
      with_status failed (utcnow 4) (error_of redact e) none op',
      saved_record c.disk.store.records op.id _ same,
      refl,
    );
    locks = refl;
    trail = refl;
    event = emit-load_events op.id _ _ "end" _ c;
  }

  -- The body keeps the record of the operation in its place, and tells the truth about its id.
  abbrev pub KeepsRecord :
      {A : Type 0} → String → (String → Exec (Context Params) Raised A) → Type 0
  KeepsRecord op_id body =
      (c : Context Params) (before : Operation Params)
      → c.disk.store.records op_id ≡ some before
      → before.id ≡ op_id
      → (after : Operation Params) × ((body op_id c).1.disk.store.records op_id ≡ some after)
        × (after.id ≡ op_id)

  -- What the body starts from.
  abbrev pub started : Operation Params → Disk Params → Locks → Context Params
  started op s locks =
      begun json digest redact repr signal getpid utcnow op
        record s { store = save op s.store; locks = locks }

  -- Where the lock is given and the body keeps the operation's record, the operation ends as the body
  -- did: it returns the body's value or raises its error, the record says `succeeded` or `failed`,
  -- the lock is left as it is after the body, exactly one audit entry with that outcome follows the
  -- trail, and one last event "end" follows the events, with the next number.
  pub run_operation-Finished :
      {A : Type 0} (op_id project environment actor : String) (kind : OperationKind)
      (params : Params) (body : String → Exec (Context Params) Raised A) (s : Disk Params)
      (locks : Locks) (reentrant : Bool)
      → enter signal getpid environment op_id s.locks ≡ (ok reentrant, locks)
      → KeepsRecord op_id body
      → Finished
          (create op_id (utcnow 0) kind project environment actor params)
          reentrant
          (body op_id
            (started (create op_id (utcnow 0) kind project environment actor params) s locks)).0
          (body op_id
            (started (create op_id (utcnow 0) kind project environment actor params) s locks)).1
          (run_operation json digest redact repr signal getpid utcnow op_id kind project environment
            actor params body s)
  unfolding run_operation
  run_operation-Finished op_id project environment actor kind params body s locks reentrant e
        keeps =
      let op = create op_id (utcnow 0) kind project environment actor params in
      let before = record op { status = running; updated_at = utcnow 1 } in
      let (after, there, same) =
        keeps (started op s locks) before
          (update_self (update s.store.records op_id (some op)) op_id (some before)) refl in
      rw e (
        finished-Finished op reentrant (body op_id (started op s locks)).0
          (body op_id (started op s locks)).1 after there same)

  -- What a refused lock leaves.
  pub record Refused {A : Type 0} (op : Operation Params) (cause : LockAcquisitionError)
      (locks : Locks) (s : Disk Params) (out : Result Raised A × Disk Params) : Type 0 where
    pub result : out.0 ≡ err (exception (lock_message repr decimal op.environment cause))
    pub status :
        (op' : Operation Params) × (out.1.store.records op.id ≡ some op') × (op'.status ≡ failed)
    pub kept_locks : out.1.locks ≡ locks
    pub trail :
        out.1.trail
        ≡ (append json digest
            (entry_for json digest redact repr signal getpid utcnow op.kind op.environment op.actor
              op.params_redacted "failed" op.id
              (utcnow 3))
            s.trail).1

  -- Where the lock is refused, the body does not run: the call raises the lock's error, the record
  -- says `failed`, the locks are as the attempt left them, and one audit entry "failed" follows the
  -- trail.
  pub run_operation-Refused :
      {A : Type 0} (op_id project environment actor : String) (kind : OperationKind)
      (params : Params) (body : String → Exec (Context Params) Raised A) (s : Disk Params)
      (locks : Locks) (cause : LockAcquisitionError)
      → enter signal getpid environment op_id s.locks ≡ (err cause, locks)
      → Refused (create op_id (utcnow 0) kind project environment actor params) cause locks s (
          run_operation json digest redact repr signal getpid utcnow op_id kind project environment
            actor params body s)
  unfolding run_operation
  run_operation-Refused op_id project environment actor kind params body s locks cause e =
      let op = create op_id (utcnow 0) kind project environment actor params in
      let op' = record op {
        status = failed;
        error = some ("Could not acquire lock for environment '" +++ (environment +++ "'"));
        updated_at = utcnow 1;
      } in
      rw e record {
        result = refl;
        status = (op', update_self (update s.store.records op_id (some op)) op_id (some op'), refl);
        kept_locks = refl;
        trail = refl;
      }
