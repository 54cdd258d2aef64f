-- ===== src/Runner/Loop.antt =====
-- The loop of the runner (`claim_and_run` and `run_loop` of odooctl/runner/worker.py). The heartbeat and
-- the snapshots of the containers, which each pass writes to files of their own, are left out. What
-- other processes do between two passes, such as queueing an operation, is an argument of the pass.
pub mod Claiming
use odooctl.Prelude.{Bool, true, false, not, ◌&&◌, Option, none, some, List, [], ◌∷◌, if◌then◌else◌}
use odooctl.Prelude.Exec.{Result, ok, err}
use odooctl.Queue.{QueueEntry, Queue, Claim, claim_next}
use odooctl.Operations.Engine.{Raised}
use odooctl.Runner.Execute.{State, Host, Clock, Dispatch, execute_entry}

-- A registered project: whether its configuration loads, what `_dispatch` does in its context, and
-- its files.
pub record Project (Params : Type 0) : Type 0 where
  pub loads : Bool
  pub host : Host Params
  pub dispatch : Dispatch Params
  pub state : State Params

-- `self._registry.projects` and `self.last_run_ok`
pub record Worker (Params : Type 0) : Type 0 where
  pub projects : List (Project Params)
  pub last_run_ok : Bool

-- What the loop over the projects gives: the result of an execution, if there was one.
abbrev pub Pass : Type 0 → Type 0
Pass Params = Option (Result Raised Bool) × List (Project Params)

module _ {Params : Type 0} where
  abbrev pub with_queue : Queue Params → Project Params → Project Params
  with_queue queue p = record p { state = record p.state { queue = queue } }

  abbrev pub behind : Project Params → Pass Params → Pass Params
  behind p (out, ps) = (out, p ∷ ps)

  abbrev pub executed :
      Project Params → List (Project Params) → Result Raised Bool × State Params → Pass Params
  executed p ps (out, state) = (some out, record p { state = state } ∷ ps)

  -- One project, by what its queue gives, and the pass over those that follow.
  abbrev pub claimed_in :
      Clock → Project Params → List (Project Params) → Claim Params → Pass Params → Pass Params
  claimed_in clock p ps (none, queue) rest = behind (with_queue queue p) rest
  claimed_in clock p ps (some entry, queue) rest =
      executed p ps (execute_entry p.host clock p.dispatch entry (record p.state { queue = queue }))

  unfoldable pub pass : Clock → List (Project Params) → Pass Params
  pass clock [] = (none, [])
  pass clock (p ∷ ps) =
      let rest = pass clock ps in
      if p.loads then claimed_in clock p ps (claim_next p.state.queue) rest else behind p rest

  abbrev pub recorded : Worker Params → Pass Params → Result Raised Bool × Worker Params
  recorded w (none, ps) = (ok false, record { projects = ps; last_run_ok = true })
  recorded w (some (ok b), ps) = (ok true, record { projects = ps; last_run_ok = b })
  recorded w (some (err e), ps) = (err e, record w { projects = ps })

  unfoldable pub claim_and_run : Clock → Worker Params → Result Raised Bool × Worker Params
  claim_and_run clock w = recorded w (pass clock w.projects)

pub record Round (Params : Type 0) : Type 0 where
  pub clock : Clock
  pub others : List (Project Params) → List (Project Params)

module _ {Params : Type 0} (once fail_fast : Bool) where
  abbrev pub after_pass :
      Result Raised Bool × Worker Params
      → Option (Result Raised Bool) × Worker Params
      → Option (Result Raised Bool) × Worker Params
  after_pass (err e, w) rest = (some (err e), w)
  after_pass (ok did_work, w) rest =
      if once
      then (some (ok w.last_run_ok), w)
      else if did_work && (fail_fast && not w.last_run_ok)
      then (some (ok false), w)
      else rest

  -- `none` where the loop has not returned after these passes.
  unfoldable pub run_loop :
      List (Round Params) → Worker Params → Option (Result Raised Bool) × Worker Params
  run_loop [] w = (none, w)
  run_loop (r ∷ rs) w =
      let out = claim_and_run r.clock (record w { projects = r.others w.projects }) in
      let rest = run_loop rs out.1 in after_pass out rest
