-- ===== src/Runner/Execute/Closing.antt =====
-- The last steps of an execution: the record and the queue agree on how the operation ended.
use odooctl.Prelude.{
  ℕ, String, ◌≡◌, ◌≢◌, ◌⊎◌, sym, subst, inl, inr, refl, Bool, true, false, Option, none, some,
  update, update_self, Option-cases,
}
use odooctl.Prelude.Exec.{Result, ok, err, continue, ◌>>=◌}
use odooctl.Queue.{QueueEntry, Queue, complete, fail}
use odooctl.Operations.Engine.{Context, Raised, exception, base_exception}
use odooctl.Operations.Locks.{Locks, LockAcquisitionError, enter}
use odooctl.Operations.Models.{Operation, OperationStatus, running, succeeded, failed, cancelled}
use odooctl.Operations.Store.{Store, with_status}
use odooctl.Runner.Execute.{
  State, Host, Clock, Dispatch, rejected, closed, end_event, left, with_locks, lock_error, begun,
  set_status, reject, finish, ended, in_lock, start, run_admitted,
}

module _ {Params : Type 0} where
  pub complete-running :
      (op_id : String) (q : Queue Params) → (complete op_id q).running op_id ≡ none
  unfolding complete
  complete-running op_id q = elim (Option-cases (q.running op_id)) [
    | inl gone ↦ rw gone gone
    | inr (content, there) ↦ rw there (update_self q.running op_id none)
  ]

  fail-running : (op_id : String) (q : Queue Params) → (fail op_id q).running op_id ≡ none
  unfolding fail
  fail-running op_id q = elim (Option-cases (q.running op_id)) [
    | inl gone ↦ rw gone gone
    | inr (content, there) ↦ rw there (update_self q.running op_id none)
  ]

-- What `True` and `False` say of the operation.
abbrev pub HasEnded : Bool → OperationStatus → Type 0
HasEnded true status = (status ≡ succeeded) ⊎ (status ≡ cancelled)
HasEnded false status = status ≡ failed

-- The execution returned; the record says how it ended, and no file of it is left among those that run.
pub record Ends {Params : Type 0} (entry : QueueEntry Params)
    (out : Result Raised Bool × State Params) : Type 0 where
  pub returned : Bool
  pub result : out.0 ≡ ok returned
  pub op : Operation Params
  pub there : out.1.disk.store.records entry.op_id ≡ some op
  pub status : HasEnded returned op.status
  pub gone : out.1.queue.running entry.op_id ≡ none

module _ {Params : Type 0} where
  -- A record that is there under its own id.
  abbrev pub HasRecord : QueueEntry Params → Store Params → Type 0
  HasRecord entry store =
      (op : Operation Params) × (store.records entry.op_id ≡ some op) × (op.id ≡ entry.op_id)

  -- The body keeps the record of the operation in its place, and ends without an interrupt.
  pub record IsBody (entry : QueueEntry Params) (d : Dispatch Params) : Type 0 where
    pub keeps :
        (c : Context Params)
        → HasRecord entry c.disk.store
        → HasRecord entry (d entry c).1.disk.store
    pub ends : (c : Context Params) → (d entry c).0 ≢ err base_exception

module _ {Params : Type 0} (host : Host Params) (clock : Clock) where
  -- What the status of a record becomes.
  set_status-records :
      (entry : QueueEntry Params) (status : OperationStatus) (n : ℕ) (error : Option String)
      (s : State Params) (op : Operation Params)
      → s.disk.store.records entry.op_id ≡ some op
      → op.id ≡ entry.op_id
      → ((set_status host clock entry.op_id status n error s).0 ≡ ok tt)
        × ((set_status host clock entry.op_id status n error s).1.disk.store.records entry.op_id
            ≡ some (with_status status (clock.utcnow n) error none op))
  set_status-records entry status n error s op there same = (
    rw there refl,
    rw there (
        subst
          (λ k.
            update s.disk.store.records k (some (with_status status (clock.utcnow n) error none op))
              entry.op_id
            ≡ some (with_status status (clock.utcnow n) error none op))
          (sym same) (update_self s.disk.store.records entry.op_id _)),
  )

  closed-Ends :
      (entry : QueueEntry Params) (b : Bool) (s : State Params) (op : Operation Params)
      → s.disk.store.records entry.op_id ≡ some op
      → HasEnded b op.status
      → Ends entry (closed host clock entry b tt s)
  closed-Ends entry true s op there e = record {
    returned = true;
    result = refl;
    op = op;
    there = there;
    status = e;
    gone = complete-running entry.op_id s.queue;
  }
  closed-Ends entry false s op there e = record {
    returned = false;
    result = refl;
    op = op;
    there = there;
    status = e;
    gone = fail-running entry.op_id s.queue;
  }

  -- A last change of the status, and the queue.
  closing-Ends :
      (entry : QueueEntry Params) (status : OperationStatus) (n : ℕ) (error : Option String)
      (b : Bool) (s : State Params)
      → HasRecord entry s.disk.store
      → HasEnded b status
      → Ends entry
          ((set_status host clock entry.op_id status n error >>= closed host clock entry b) s)
  closing-Ends entry status n error b s (op, there, same) e =
      let (r, after) = set_status-records entry status n error s op there same in
      subst
        (λ q. Ends entry (
          continue q (closed host clock entry b)
            (set_status host clock entry.op_id status n error s).1))
        (sym r)
        (closed-Ends entry b (set_status host clock entry.op_id status n error s).1
          (with_status status (clock.utcnow n) error none op) after e)

  pub reject-Ends :
      (entry : QueueEntry Params) (message : String) (s : State Params)
      → HasRecord entry s.disk.store
      → Ends entry (reject host clock entry message s)
  reject-Ends entry message s (op, there, same) =
      let (r, after) = set_status-records entry failed 0 (some message) s op there same in
      let s' = (set_status host clock entry.op_id failed 0 (some message) s).1 in
      subst (λ q. Ends entry (continue q (rejected host clock entry) s')) (sym r)
        record {
          returned = false;
          result = refl;
          op = with_status failed (clock.utcnow 0) (some message) none op;
          there = after;
          status = refl;
          gone = fail-running entry.op_id s'.queue;
        }

  finish-Ends :
      (entry : QueueEntry Params) (op_id : String) (error : Option String) (c : Context Params)
      (s : State Params)
      → HasRecord entry c.disk.store
      → Ends entry (finish host clock entry op_id error c s)
  finish-Ends entry op_id none c s (op, there, same) =
      closing-Ends entry succeeded 3 none true
        (record s { disk = (end_event host clock op_id none c).disk }) (op, there, same) (inl refl)
  finish-Ends entry op_id (some message) c s (op, there, same) =
      closing-Ends entry failed 3 (some message) false
        (record s { disk = (end_event host clock op_id (some message) c).disk }) (op, there, same)
        refl

  ended-Ends :
      (entry : QueueEntry Params) (op_id : String) (reentrant : Bool) (r : Result Raised (Unit {0}))
      (c : Context Params) (s : State Params)
      → HasRecord entry c.disk.store
      → r ≢ err base_exception
      → Ends entry (ended host clock entry op_id reentrant (r, c) s)
  ended-Ends entry op_id reentrant (ok done) c s there h =
      finish-Ends entry op_id none (left host clock entry reentrant c) s there
  ended-Ends entry op_id reentrant (err (exception message)) c s there h =
      finish-Ends entry op_id (some (host.redact message)) (left host clock entry reentrant c) s
        there
  ended-Ends entry op_id reentrant (err base_exception) c s there h = absurd (h refl)

  in_lock-Ends :
      (d : Dispatch Params) (entry : QueueEntry Params) (op_id : String) (c : Context Params)
      (r : Result LockAcquisitionError Bool) (locks : Locks) (s : State Params)
      → IsBody entry d
      → HasRecord entry c.disk.store
      → Ends entry (in_lock host clock d entry op_id c (r, locks) s)
  in_lock-Ends d entry op_id c (err cause) locks s body there =
      finish-Ends entry op_id (some (lock_error host clock entry cause))
        (with_locks host clock locks c) s there
  in_lock-Ends d entry op_id c (ok reentrant) locks s body there =
      let c' = with_locks host clock locks c in
      ended-Ends entry op_id reentrant (d entry c').0 (d entry c').1 s (body.keeps c' there)
        (body.ends c')

  start-Ends :
      (d : Dispatch Params) (entry : QueueEntry Params) (s : State Params)
      → IsBody entry d
      → HasRecord entry s.disk.store
      → Ends entry (start host clock d entry tt s)
  start-Ends d entry s body (op, there, same) =
      let lock = enter host.signal host.getpid entry.environment entry.op_id s.disk.locks in
      rw there (
        in_lock-Ends d entry op.id (begun host clock entry op.id s.disk) lock.0 lock.1 s body
          (op, there, same))

  pub run_admitted-Ends :
      (d : Dispatch Params) (entry : QueueEntry Params) (s : State Params)
      → IsBody entry d
      → HasRecord entry s.disk.store
      → Ends entry (run_admitted host clock d entry s)
  unfolding run_admitted
  run_admitted-Ends d entry s body (op, there, same) =
      let (r, after) = set_status-records entry running 0 none s op there same in
      let s' = (set_status host clock entry.op_id running 0 none s).1 in
      subst (λ q. Ends entry (continue q (start host clock d entry) s')) (sym r)
        (start-Ends d entry s' body
          (with_status running (clock.utcnow 0) none none op, after, same))
