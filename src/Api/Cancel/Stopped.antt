-- ===== src/Api/Cancel/Stopped.antt =====
-- What is cancelled is not begun. An execution that has passed its check of the record before goes on.
use odooctl.Prelude.{
  String, ◌≡◌, ◌⊎◌, inl, inr, refl, sym, subst, ap, ◌∙◌, Bool, true, false, not, ◌&&◌, ◌==◌,
  eq_refl, Option, none, some, List, [], ◌∷◌, All, update, Bool-cases, if-true, if-false,
  update_self, if◌then◌else◌, some_cancel, arith, eq_iff,
}
use odooctl.Prelude.{◌++◌ as ◌+++◌}
use odooctl.Prelude.Exec.{Result, ok, err}
use odooctl.Queue.{QueueEntry, find_pending, cancel, complete}
use odooctl.Queue.Claims.{find-without}
use odooctl.Operations.Models.{Operation, OperationStatus, queued, cancelled}
use odooctl.Operations.Store.{load, found, saved, updated, with_status, update_status}
use odooctl.Runner.Execute.{State, Host, Clock, Dispatch, is_cancelled, execute_entry}
use odooctl.Api.Params.{ApiError}
use odooctl.Api.Cancel.{
  Site, Found, Cancelling, passed, here_or, find_op, dequeued, with_store, is_queued, put_back,
  answered, cancel_found, cancel_operation,
}

module _ {Params : Type 0} where
  -- A project that is passed over gives no context, or does not have the operation.
  abbrev pub Lacks : String → Site Params → Type 0
  Lacks op_id site =
      (site.resolves ≡ false) ⊎ ((key : String) × (load op_id site.state.disk.store ≡ err key))

  -- Where an operation is found, it is the first of the projects that can be asked and has it.
  abbrev pub Located : String → List (Site Params) → Found Params → Type 0
  Located op_id sites f =
      (sites ≡ f.before +++ f.site ∷ f.after)
      × All (Lacks op_id) f.before
      × (f.site.resolves ≡ true)
      × (load op_id f.site.state.disk.store ≡ ok f.op)

  passed-Located :
      (op_id : String) (site : Site Params) (sites : List (Site Params)) (o : Option (Found Params))
      (f : Found Params)
      → ((g : Found Params) → o ≡ some g → Located op_id sites g)
      → Lacks op_id site
      → passed site o ≡ some f
      → Located op_id (site ∷ sites) f
  passed-Located op_id site sites none f rest lacks h = cc
  passed-Located op_id site sites (some g) f rest lacks h =
      let (split, before, asked, has) = rest g refl in
      subst (Located op_id (site ∷ sites)) (some_cancel h)
        (ap (λ t. site ∷ t) split, (lacks, before), asked, has)

  here_or-Located :
      (op_id : String) (site : Site Params) (sites : List (Site Params))
      (r : Result String (Operation Params)) (o : Option (Found Params)) (f : Found Params)
      → site.resolves ≡ true
      → load op_id site.state.disk.store ≡ r
      → ((g : Found Params) → o ≡ some g → Located op_id sites g)
      → here_or site sites r o ≡ some f
      → Located op_id (site ∷ sites) f
  here_or-Located op_id site sites (ok op) o f asked has rest h =
      subst (Located op_id (site ∷ sites)) (some_cancel h) (refl, tt, asked, has)
  here_or-Located op_id site sites (err key) o f asked has rest h =
      passed-Located op_id site sites o f rest (inr (key, has)) h

  find_op-Located :
      (op_id : String) (sites : List (Site Params)) (f : Found Params)
      → find_op op_id sites ≡ some f
      → Located op_id sites f
  unfolding find_op
  find_op-Located op_id [] f h = cc
  find_op-Located op_id (site ∷ sites) f h = elim (Bool-cases site.resolves) [
    | inl asked ↦
        here_or-Located op_id site sites (load op_id site.state.disk.store) (find_op op_id sites) f
          asked refl (λ g e. find_op-Located op_id sites g e) (sym (if-true _ _ _ asked) ∙ h)
    | inr unasked ↦
        passed-Located op_id site sites (find_op op_id sites) f
          (λ g e. find_op-Located op_id sites g e) (inl unasked) (sym (if-false _ _ _ unasked) ∙ h)
  ]

  -- The file of the operation holds the record of this id.
  abbrev pub IsNamed : String → Site Params → Type 0
  IsNamed op_id site =
      (op : Operation Params) → load op_id site.state.disk.store ≡ ok op → op.id ≡ op_id

  All-middle :
      (P : Site Params → Type 0) (sites after : List (Site Params)) (site : Site Params)
      → All P (sites +++ site ∷ after)
      → P site
  All-middle P [] after site a = a.0
  All-middle P (s ∷ sites) after site a = All-middle P sites after site a.1

  -- An execution that begins here completes the entry and runs nothing, whatever would run.
  abbrev pub Stops : String → State Params → Type 0
  Stops op_id s =
      (host : Host Params) (clock : Clock) (dispatch : Dispatch Params) (entry : QueueEntry Params)
      → entry.op_id ≡ op_id
      → execute_entry host clock dispatch entry s
        ≡ (ok true, record s { queue = complete entry.op_id s.queue })

  stored-Stops :
      (op_id : String) (op : Operation Params) (s : State Params)
      → load op_id s.disk.store ≡ ok op
      → is_cancelled (ok op) ≡ true
      → Stops op_id s
  unfolding execute_entry
  stored-Stops op_id op s stored done host clock dispatch entry same =
      if-true _ _ _
        (ap (λ id. is_cancelled (load id s.disk.store)) same ∙ ap is_cancelled stored ∙ done)

  -- The site after the cancellation of the operation that was found on it.
  abbrev pub stopped_site : String → String → Found Params → Site Params
  stopped_site op_id now f =
      with_store (saved f.site.state.disk.store (ok (with_status cancelled now none none f.op))).1
        (dequeued f.op.project op_id f.site)

  abbrev pub Cancelled : String → String → Found Params → Type 0
  Cancelled op_id now f =
      let site = stopped_site op_id now f in
      (load op_id site.state.disk.store ≡ ok (with_status cancelled now none none f.op))
      × Stops op_id site.state
      × (f.site.name ≡ f.op.project
          → f.site.loads ≡ true
          → find_pending op_id site.state.queue.pending ≡ none)

  dequeued-pending :
      (op_id : String) (f : Found Params)
      → f.site.name ≡ f.op.project
      → f.site.loads ≡ true
      → find_pending op_id (dequeued f.op.project op_id f.site).state.queue.pending ≡ none
  unfolding cancel
  dequeued-pending op_id f own loads =
      let here =
        ap (λ t. (t == f.op.project) && f.site.loads) own
        ∙ ap (λ b. b && f.site.loads) (eq_refl f.op.project)
        ∙ loads in
      ap (λ (s : Site Params). find_pending op_id s.state.queue.pending) (if-true _ _ _ here)
      ∙ find-without op_id f.site.state.queue.pending

  stopped_site-Cancelled :
      (op_id now : String) (f : Found Params) → f.op.id ≡ op_id → Cancelled op_id now f
  stopped_site-Cancelled op_id now f named =
      let op = with_status cancelled now none none f.op in
      let stored = ap (found op_id) (
        ap (λ id. update f.site.state.disk.store.records id (some op) op_id) named
        ∙ update_self f.site.state.disk.store.records op_id (some op)) in
      (
        stored,
        stored-Stops op_id op (stopped_site op_id now f).state stored refl,
        dequeued-pending op_id f,
      )

-- What a token's project claim covers.
abbrev pub Covers : String → String → Type 0
Covers token_project project = (token_project ≡ "*") ⊎ (project ≡ token_project)

covered :
    (token_project project : String)
    → (not (token_project == "*") && not (project == token_project)) ≡ false
    → Covers token_project project
covered token_project project h = elim (Bool-cases (token_project == "*")) [
  | inl all ↦ inl ((eq_iff token_project "*").0 all)
  | inr one ↦ inr (ground (arith, h, one, eq_iff project token_project))
]

queued-is_queued : (status : OperationStatus) → is_queued status ≡ true → status ≡ queued
queued-is_queued status h = ground arith

module _ {Params : Type 0} (repr : String → String) (op_id now token_project : String) where
  -- The way of a call that answers.
  abbrev pub Answers : List (Site Params) → Cancelling Params → Found Params → Type 0
  Answers sites r f =
      Located op_id sites f
      × (f.op.status ≡ queued)
      × Covers token_project f.op.project
      × (r.1 ≡ put_back op_id f (stopped_site op_id now f))
      × Cancelled op_id now f

  answered-stored :
      (f : Found Params)
      → load op_id f.site.state.disk.store ≡ ok f.op
      → (answered repr op_id now f
          (update_status op_id cancelled now none none f.site.state.disk.store)).1
        ≡ put_back op_id f (stopped_site op_id now f)
  answered-stored f has =
      ap
        (λ r.
          (answered repr op_id now f
            (saved f.site.state.disk.store (updated cancelled now none none r))).1)
        has

  -- Past both refusals.
  answering :
      (out waits : Bool) (d e : ApiError) (sites : List (Site Params)) (r : Cancelling Params)
      (reply : String × String)
      → (if out then (err d, sites) else if not waits then (err e, sites) else r).0 ≡ ok reply
      → (out ≡ false)
        × (waits ≡ true)
        × ((if out then (err d, sites) else if not waits then (err e, sites) else r) ≡ r)
  answering true waits d e sites r reply h = cc
  answering false true d e sites r reply h = (refl, refl, refl)
  answering false false d e sites r reply h = cc

  cancel_found-answered :
      (sites : List (Site Params)) (f : Found Params) (reply : String × String)
      → (cancel_found repr op_id now token_project sites (some f)).0 ≡ ok reply
      → (f.op.status ≡ queued)
        × Covers token_project f.op.project
        × (cancel_found repr op_id now token_project sites (some f)
            ≡ answered repr op_id now f
                (update_status op_id cancelled now none none f.site.state.disk.store))
  cancel_found-answered sites f reply h =
      let (within, waits, same) =
        answering (not (token_project == "*") && not (f.op.project == token_project))
          (is_queued f.op.status) _ _ sites
          (answered repr op_id now f
            (update_status op_id cancelled now none none f.site.state.disk.store))
          reply h in
      (queued-is_queued f.op.status waits, covered token_project f.op.project within, same)

  cancel_found-Answers :
      (sites : List (Site Params)) (o : Option (Found Params)) (reply : String × String)
      → find_op op_id sites ≡ o
      → All (IsNamed op_id) sites
      → (cancel_found repr op_id now token_project sites o).0 ≡ ok reply
      → (f : Found Params) × Answers sites (cancel_found repr op_id now token_project sites o) f
  cancel_found-Answers sites none reply e named h = cc
  cancel_found-Answers sites (some f) reply e named h =
      let (split, before, asked, has) = find_op-Located op_id sites f e in
      let own =
        All-middle (IsNamed op_id) f.before f.after f.site (subst (All (IsNamed op_id)) split named)
          f.op has in
      let (waits, covers, same) = cancel_found-answered sites f reply h in
      (
        f,
        (
          (split, before, asked, has),
          waits,
          covers,
          ap (λ (r : Cancelling Params). r.1) same ∙ answered-stored f has,
          stopped_site-Cancelled op_id now f own,
        ),
      )

  -- A cancellation that answers, where records stand under their ids, found a queued operation that
  -- the token's project covers, on the first project that has it. It changes that record to cancelled,
  -- and no site otherwise but by taking the entry off the queue of the operation's project. Where that
  -- is the project it was found on, and its configuration loads, no entry of the operation is pending
  -- there any more. An execution that begins in the state that the cancellation leaves there runs
  -- nothing for an entry of the operation, also for one that was claimed before, but completes it.
  pub cancel_operation-Cancelled :
      (sites : List (Site Params)) (reply : String × String)
      → All (IsNamed op_id) sites
      → (cancel_operation repr op_id now token_project sites).0 ≡ ok reply
      → (f : Found Params) × Answers sites (cancel_operation repr op_id now token_project sites) f
  unfolding cancel_operation
  cancel_operation-Cancelled sites reply named h =
      cancel_found-Answers sites (find_op op_id sites) reply refl named h
