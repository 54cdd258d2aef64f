-- ===== src/Runner/Loop/Claiming.antt =====
-- A pass runs the entry of the first project that has one to claim.
use odooctl.Prelude.{
  ◌≡◌, ◌⊎◌, inl, inr, refl, sym, ap, ◌∙◌, Bool, true, false, none, some, List, [], ◌∷◌, ◌++◌, map,
  Bool-cases, if-true, if-false, All, if◌then◌else◌,
}
use odooctl.Prelude.Exec.{Result, ok}
use odooctl.Queue.{QueueEntry, Queue, Claim, claim_next}
use odooctl.Operations.Engine.{Raised}
use odooctl.Runner.Execute.{State, Clock, verify_entry, execute_entry}
use odooctl.Runner.Execute.Closing.{HasRecord, IsBody, Ends}
use odooctl.Runner.Execute.Ends.{IsOrdinary, execute_entry-Ends}
use odooctl.Runner.Loop.{
  Project, Worker, Round, Pass, with_queue, behind, claimed_in, pass, recorded, claim_and_run,
  after_pass, run_loop,
}

module _ {Params : Type 0} where
  -- A project whose configuration does not load, or whose queue gives nothing.
  abbrev pub IsIdle : Project Params → Type 0
  IsIdle p = (p.loads ≡ false) ⊎ ((claim_next p.state.queue).0 ≡ none)

  -- What a pass leaves of it: files that are no entries are set aside.
  abbrev pub swept : Project Params → Project Params
  swept p = if p.loads then with_queue (claim_next p.state.queue).1 p else p

  abbrev pub ran : Clock → QueueEntry Params → Queue Params → Project Params → Project Params
  ran clock entry queue p = record p {
    state = (execute_entry p.host clock p.dispatch entry (record p.state { queue = queue })).1;
  }

  claimed_in-none :
      (clock : Clock) (p : Project Params) (ps : List (Project Params)) (c : Claim Params)
      (rest : Pass Params)
      → c.0 ≡ none
      → claimed_in clock p ps c rest ≡ (rest.0, with_queue c.1 p ∷ rest.1)
  claimed_in-none clock p ps (none, queue) rest h = refl
  claimed_in-none clock p ps (some entry, queue) rest h = cc

  pass-unloaded :
      (clock : Clock) (p : Project Params) (ps : List (Project Params))
      → p.loads ≡ false
      → pass clock (p ∷ ps) ≡ ((pass clock ps).0, swept p ∷ (pass clock ps).1)
  unfolding pass
  pass-unloaded clock p ps unloaded =
      if-false p.loads (claimed_in clock p ps (claim_next p.state.queue) (pass clock ps))
        (behind p (pass clock ps)) unloaded
      ∙ ap (λ (q : Project Params). ((pass clock ps).0, q ∷ (pass clock ps).1))
          (sym (if-false p.loads (with_queue (claim_next p.state.queue).1 p) p unloaded))

  pass-behind :
      (clock : Clock) (p : Project Params) (ps : List (Project Params))
      → IsIdle p
      → pass clock (p ∷ ps) ≡ ((pass clock ps).0, swept p ∷ (pass clock ps).1)
  unfolding pass
  pass-behind clock p ps (inl unloaded) = pass-unloaded clock p ps unloaded
  pass-behind clock p ps (inr empty) = elim (Bool-cases p.loads) [
    | inl l ↦
        if-true p.loads (claimed_in clock p ps (claim_next p.state.queue) (pass clock ps))
          (behind p (pass clock ps)) l
        ∙ (claimed_in-none clock p ps (claim_next p.state.queue) (pass clock ps) empty
            ∙ ap (λ (q : Project Params). ((pass clock ps).0, q ∷ (pass clock ps).1))
                (sym (if-true p.loads (with_queue (claim_next p.state.queue).1 p) p l)))
    | inr u ↦ pass-unloaded clock p ps u
  ]

  -- Where no project in front has anything to claim, and `p` has `entry`: a pass runs that entry, and
  -- leaves the projects behind as they are.
  pass-first :
      (clock : Clock) (before : List (Project Params)) (p : Project Params)
      (after : List (Project Params)) (entry : QueueEntry Params) (queue : Queue Params)
      → All IsIdle before
      → p.loads ≡ true
      → claim_next p.state.queue ≡ (some entry, queue)
      → pass clock (before ++ p ∷ after) ≡ (
        some (execute_entry p.host clock p.dispatch entry (record p.state { queue = queue })).0,
        map swept before ++ ran clock entry queue p ∷ after,
      )
  unfolding pass
  pass-first clock [] p after entry queue idle l c =
      if-true p.loads (claimed_in clock p after (claim_next p.state.queue) (pass clock after))
        (behind p (pass clock after)) l
      ∙ ap (λ (x : Claim Params). claimed_in clock p after x (pass clock after)) c
  pass-first clock (q ∷ qs) p after entry queue idle l c =
      pass-behind clock q (qs ++ p ∷ after) idle.0
      ∙ ap (λ (out : Pass Params). (out.0, swept q ∷ out.1))
          (pass-first clock qs p after entry queue idle.1 l c)

  -- `odooctl runner --once`, where no project in front of `p` has anything to claim, `entry` is what
  -- `p` has, its operation has a record that the body keeps, the body is not interrupted, and the
  -- token is an ordinary one: the loop returns after one pass, with the value and the state that
  -- `execute_entry` gives for that entry on `p` as the claim left it; the record of the operation then says how it ended, its file is no longer among those
  -- that run, the projects in front are only swept, and those behind are as they were.
  pub run_loop-once :
      (fail_fast : Bool) (r : Round Params) (rs : List (Round Params)) (w : Worker Params)
      (before : List (Project Params)) (p : Project Params) (after : List (Project Params))
      (entry : QueueEntry Params) (queue : Queue Params)
      → r.others w.projects ≡ before ++ p ∷ after
      → All IsIdle before
      → p.loads ≡ true
      → claim_next p.state.queue ≡ (some entry, queue)
      → IsOrdinary (verify_entry p.host r.clock entry)
      → IsBody entry p.dispatch
      → HasRecord entry p.state.disk.store
      → (b : Bool) × (state : State Params) × (run_loop true fail_fast (r ∷ rs) w ≡ (
        some (ok b),
        record {
          projects = map swept before ++ record p { state = state } ∷ after;
          last_run_ok = b;
        },
      ))
        × (execute_entry p.host r.clock p.dispatch entry (record p.state { queue = queue })
            ≡ (ok b, state))
        × Ends entry (ok b, state)
  unfolding run_loop claim_and_run
  run_loop-once fail_fast r rs w before p after entry queue others idle l c ordinary body there =
      let s = record p.state { queue = queue } in
      let state = (execute_entry p.host r.clock p.dispatch entry s).1 in
      let e = execute_entry-Ends p.host r.clock p.dispatch entry s ordinary body there in
      let swept_out = map swept before ++ record p { state = state } ∷ after in
      let w' = record w { projects = r.others w.projects } in
      let passed =
        ap (pass r.clock) others
        ∙ (pass-first r.clock before p after entry queue idle l c
            ∙ ap (λ (x : Result Raised Bool). (some x, swept_out)) e.result) in
      let returns =
        ap
          (λ (o : Pass Params).
            after_pass true fail_fast (recorded w' o)
              (run_loop true fail_fast rs (recorded w' o).1))
          passed in
      (
        e.returned,
        state,
        returns,
        ap (λ (x : Result Raised Bool). (x, state)) e.result,
        record {
          returned = e.returned;
          result = refl;
          op = e.op;
          there = e.there;
          status = e.status;
          gone = e.gone;
        },
      )
