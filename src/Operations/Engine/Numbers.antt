-- ===== src/Operations/Engine/Numbers.antt =====
-- The events of an operation are numbered without a gap.
use odooctl.Prelude.{
  ℕ, suc, String, ◌≡◌, refl, sym, ap, subst, ◌∙◌, Bool, none, List, [], ◌∷◌, ◌++◌, arith, eq_refl,
}
use odooctl.Prelude.Exec.{ok, Exec}
use odooctl.Operations.Models.{OperationKind, Event, create}
use odooctl.Operations.Store.{load_events}
use odooctl.Operations.Locks.{Locks, Signal, enter}
use odooctl.Operations.Audit.{Json}
use odooctl.Operations.Engine.{Disk, Context, Raised, emit, run_operation}
use odooctl.Operations.Engine.Lifecycle.{
  KeepsRecord, started, emit-load_events, run_operation-Finished,
}

-- The numbers of the events go up from `from` and end before `next`.
abbrev pub Numbered : ℕ → List Event → ℕ → Type 0
Numbered from [] next = from ≡ next
Numbered from (e ∷ es) next = (e.seq ≡ from) × Numbered (suc from) es next

Numbered-append :
    (from next : ℕ) (es : List Event) (e : Event)
    → Numbered from es next
    → e.seq ≡ next
    → Numbered from (es ++ e ∷ []) (suc next)
Numbered-append from next [] e h k = (k ∙ sym h, ap suc h)
Numbered-append from next (x ∷ es) e (a, h) k = (a, Numbered-append (suc from) next es e h k)

module _ {Params : Type 0} where
  -- The events so far are numbered, and the context has the next number.
  abbrev pub IsNumbered : String → Context Params → Type 0
  IsNumbered op_id c = Numbered 0 (load_events op_id c.disk.store) c.seq

  pub emit-IsNumbered :
      (op_id now level phase message : String) (c : Context Params)
      → IsNumbered op_id c
      → IsNumbered op_id (emit op_id now level phase message c)
  emit-IsNumbered op_id now level phase message c h =
      let (e, same, _, added) = emit-load_events op_id now level phase message c in
      subst
        (λ n. Numbered 0 (load_events op_id (emit op_id now level phase message c).disk.store) n)
        (omega arith)
        (subst (λ es. Numbered 0 es (suc c.seq)) (sym added)
          (Numbered-append 0 c.seq (load_events op_id c.disk.store) e h same))

module _ {Params : Type 0} (json : Json Params) (digest redact repr : String → String)
    (signal : ℕ → Signal) (getpid : ℕ) (utcnow : ℕ → String) where
  -- Where the operation's id is new, the lock is given, and the body keeps the record and numbers its
  -- events as `emit` does: the events of the whole run are numbered from 0 without a gap, the last
  -- event included, whether the body returns or raises.
  pub run_operation-Numbered :
      {A : Type 0} (op_id project environment actor : String) (kind : OperationKind)
      (params : Params) (body : String → Exec (Context Params) Raised A) (s : Disk Params)
      (locks : Locks) (reentrant : Bool)
      → enter signal getpid environment op_id s.locks ≡ (ok reentrant, locks)
      → KeepsRecord json digest redact repr signal getpid utcnow op_id body
      → ((c : Context Params) → IsNumbered op_id c → IsNumbered op_id (body op_id c).1)
      → s.store.events op_id ≡ none
      → Numbered 0
          (load_events op_id
            (run_operation json digest redact repr signal getpid utcnow op_id kind project
              environment actor params body s).1.store)
          (suc
            (body op_id (
              started json digest redact repr signal getpid utcnow
                (create op_id (utcnow 0) kind project environment actor params)
                s
                locks)).1.seq)
  run_operation-Numbered op_id project environment actor kind params body s locks reentrant e keeps
        numbers fresh =
      let op = create op_id (utcnow 0) kind project environment actor params in
      let c = started json digest redact repr signal getpid utcnow op s locks in
      let (last, same, _, added) =
        (run_operation-Finished json digest redact repr signal getpid utcnow op_id project
          environment actor kind params body s locks reentrant e keeps).event in
      subst (λ es. Numbered 0 es (suc (body op_id c).1.seq)) (sym added)
        (Numbered-append 0 (body op_id c).1.seq (load_events op_id (body op_id c).1.disk.store) last
          (numbers c (rw (eq_refl op_id) (rw fresh (refl, refl)))) same)
