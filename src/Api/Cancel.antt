-- ===== src/Api/Cancel.antt =====
-- How a queued operation is cancelled (`_find_op_ctx`, `_require_op_in_token_scope` and
-- `cancel_operation` of odooctl/api/routes_operations.py). The registered projects are a list of
-- sites, each with its state directory; the projects around the one that is found are kept beside it.
pub mod Stopped
use Prim.Native.String.{◌++◌}
use odooctl.Prelude.{
  String, Bool, true, false, not, ◌&&◌, ◌==◌, Option, none, some, List, [], ◌∷◌, map, if◌then◌else◌,
}
use odooctl.Prelude.{◌++◌ as ◌+++◌}
use odooctl.Prelude.Exec.{Result, ok, err}
use odooctl.Queue.{cancel}
use odooctl.Operations.Models.{
  Operation, OperationStatus, queued, running, succeeded, failed, cancelled, status_value,
}
use odooctl.Operations.Store.{Store, load, update_status}
use odooctl.Runner.Execute.{State}
use odooctl.Api.Params.{ApiError, http, uncaught}

-- `resolves` says whether `context_from_registered` gives a context, `loads` whether
-- `ProjectContext.from_config_path` does; both have the same state directory then.
pub record Site (Params : Type 0) : Type 0 where
  pub name : String
  pub resolves : Bool
  pub loads : Bool
  pub state : State Params

pub record Found (Params : Type 0) : Type 0 where
  pub before : List (Site Params)
  pub site : Site Params
  pub op : Operation Params
  pub after : List (Site Params)

abbrev pub Cancelling : Type 0 → Type 0
Cancelling Params = Result ApiError (String × String) × List (Site Params)

abbrev pub is_queued : OperationStatus → Bool
is_queued queued = true
is_queued running = false
is_queued succeeded = false
is_queued failed = false
is_queued cancelled = false

module _ {Params : Type 0} where
  abbrev pub passed : Site Params → Option (Found Params) → Option (Found Params)
  passed site none = none
  passed site (some f) = some (record f { before = site ∷ f.before })

  abbrev pub here_or :
      Site Params
      → List (Site Params)
      → Result String (Operation Params)
      → Option (Found Params)
      → Option (Found Params)
  here_or site after (ok op) rest =
      some (record { before = []; site = site; op = op; after = after })
  here_or site after (err key) rest = passed site rest

  -- The first project whose context can be built and whose store has the operation.
  unfoldable pub find_op : String → List (Site Params) → Option (Found Params)
  find_op op_id [] = none
  find_op op_id (site ∷ sites) =
      let rest = find_op op_id sites in
      if site.resolves
      then here_or site sites (load op_id site.state.disk.store) rest
      else passed site rest

  -- `OperationQueue(ctx.state_dir).cancel(op_id)` for the project of this name
  abbrev pub dequeued : String → String → Site Params → Site Params
  dequeued project op_id site =
      if site.name == project && site.loads
      then record site { state = record site.state { queue = cancel op_id site.state.queue } }
      else site

  abbrev pub with_store : Store Params → Site Params → Site Params
  with_store store site = record site {
    state = record site.state { disk = record site.state.disk { store = store } };
  }

  -- The sites after the change of the operation's status, with the site that was found.
  abbrev pub put_back : String → Found Params → Site Params → List (Site Params)
  put_back op_id f site =
      map (dequeued f.op.project op_id) f.before
      +++ site ∷ map (dequeued f.op.project op_id) f.after

module _ {Params : Type 0} (repr : String → String) (op_id now : String) where
  abbrev pub answered :
      Found Params → Result String (Operation Params) × Store Params → Cancelling Params
  answered f (ok op, store) = (
    ok (op.id, status_value op.status),
    put_back op_id f (with_store store (dequeued f.op.project op_id f.site)),
  )
  answered f (err key, store) = (
    err (uncaught (repr ("Operation not found: " ++ key))),
    put_back op_id f (with_store store (dequeued f.op.project op_id f.site)),
  )

  -- `token_project` is `str(... or "*")` of what the authentication left.
  abbrev pub cancel_found : String → List (Site Params) → Option (Found Params) → Cancelling Params
  cancel_found token_project sites none =
      (err (http 404 ("Operation " ++ (repr op_id ++ " not found"))), sites)
  cancel_found token_project sites (some f) =
      if not (token_project == "*") && not (f.op.project == token_project)
      then (err (http 404 ("Operation " ++ (repr f.op.id ++ " not found"))), sites)
      else if not (is_queued f.op.status)
      then (
        err (http 409 ("Cannot cancel operation in status " ++ repr (status_value f.op.status))),
        sites,
      )
      else answered f (update_status op_id cancelled now none none f.site.state.disk.store)

  unfoldable pub cancel_operation : String → List (Site Params) → Cancelling Params
  unfolding find_op cancel
  cancel_operation token_project sites = cancel_found token_project sites (find_op op_id sites)
