-- ===== src/Cutover/Promote/Live.antt =====
-- A promotion that meets no failure puts the incoming database in place.
use odooctl.Prelude.{
  ℕ, String, ◌≡◌, refl, sym, ap, subst, ◌∙◌, Option, none, some, ◌||◌, ◌&&◌, is_some, if◌then◌else◌,
}
use odooctl.Prelude.Exec.{
  Exec, Returns, bind-Returns, try-Returns, then-Returns, else-Returns, pure, raise, ◌>>=◌,
}
use odooctl.Cutover.State.{
  Plan, State, ready, target_moved_aside, promoted, finalized, conflict, unknown, Status,
  is_promoted, promoted_state, truthy, cutover_failed, Failure, plain,
}
use odooctl.Cutover.Postgres.{
  Adapter, IsPostgres, Catalog, Renamed, terminate_connections, rename_database,
}
use odooctl.Cutover.Postgres.Working.{
  IsWorking, terminate_connections-Returns, rename_database-Returns,
}
use odooctl.Cutover.Phases.{At, IsPlan, rename_target_aside, rename_incoming, PromotesTo}
use odooctl.Cutover.Reconcile.{reconcile_database_cutover, reconcile_or, is_ready, is_moved}
use odooctl.Cutover.Reconcile.Answered.{IsReadable, reconcile-Returns, reconcile_or-Returns}
use odooctl.Cutover.Promote.{
  terminate_failed, aside_failed, rename_aside, recheck_target, move_target_aside, promotion_failed,
  promotion_done, promote_incoming, promote_from, prepare_target, promote_database_cutover,
}

module _ {S : Type 0} (pg : Adapter S) (catalog : S → Catalog) (law : IsPostgres pg catalog)
    (Healthy : S → Type 0) (works : IsWorking pg catalog Healthy) (plan : Plan)
    (names : IsPlan plan) (readable : IsReadable plan) where
  -- A status that names the phase that the databases are in.
  abbrev pub Phase : State → Status → S → Type 0
  Phase st status s = (status.state ≡ st) × At plan (catalog s) st × Healthy s

  reconcile-Phase :
      (st : State) (s : S)
      → Healthy s
      → At plan (catalog s) st
      → Returns (Phase st) (reconcile_database_cutover pg plan) s
  reconcile-Phase st s healthy at =
      let (status, e, (told, same, h)) =
        reconcile-Returns pg catalog law Healthy works plan readable st s healthy at in
      (status, e, (told, subst (λ c. At plan c st) (sym same) at, h))

  reconcile_or-Phase :
      (message : String) (st : State) (s : S)
      → Healthy s
      → At plan (catalog s) st
      → Returns (Phase st) (reconcile_or pg plan plain message) s
  reconcile_or-Phase message st s healthy at =
      let (status, e, (told, same, h)) =
        reconcile_or-Returns pg catalog law Healthy works plan readable plain message st s healthy
          at in
      (status, e, (told, subst (λ c. At plan c st) (sym same) at, h))

  -- What the tests on a status say, by its state.
  is_promoted-state :
      (status : Status) (st : State)
      → status.state ≡ st
      → is_promoted status ≡ truthy (promoted_state st)
  is_promoted-state status st e = ap (λ (x : State). truthy (promoted_state x)) e

  promotion_done-Phase :
      (s : S)
      → Healthy s
      → At plan (catalog s) promoted
      → Returns (Phase promoted) (promotion_done pg plan) s
  unfolding promotion_done
  promotion_done-Phase s healthy at =
      bind-Returns (Phase promoted) (Phase promoted)
        (reconcile_or pg plan plain
          "Database promotion command completed but the resulting state could not be determined")
        (λ status.
          if is_promoted status
          then pure status
          else raise (
              cutover_failed plain "Database promotion command did not produce a promoted state"
                status))
        s (reconcile_or-Phase _ promoted s healthy at)
        (λ status s' p.
          then-Returns (Phase promoted) (is_promoted status) (pure status) _ s'
            (is_promoted-state status promoted p.0) (status, refl, p))

  -- The incoming database is renamed, from a phase that allows it.
  promote_incoming-Phase :
      (st : State) (s : S)
      → PromotesTo ready st
      → Healthy s
      → At plan (catalog s) st
      → catalog s plan.incoming_db ≡ some plan.incoming_oid
      → catalog s plan.target_db ≡ none
      → Returns (Phase promoted) (promote_incoming pg plan) s
  unfolding promote_incoming
  promote_incoming-Phase st s step healthy at there free =
      try-Returns
        (λ u s'. Renamed plan.incoming_db plan.target_db (catalog s) (catalog s') × Healthy s')
        (Phase promoted) (rename_database pg plan.maintenance_db plan.incoming_db plan.target_db)
        (promotion_failed pg plan) (promotion_done pg plan) s
        (rename_database-Returns pg catalog law Healthy works plan.maintenance_db plan.incoming_db
          plan.target_db s plan.incoming_oid readable.incoming readable.target healthy there free)
        (λ u s' p.
          promotion_done-Phase s' p.1
            (rename_incoming plan names (catalog s) (catalog s') st step at p.0))

  promote_from-moved :
      (status : Status) (s : S)
      → Phase target_moved_aside status s
      → Returns (Phase promoted) (promote_from pg plan status) s
  unfolding promote_from
  promote_from-moved status s (e, at, healthy) =
      else-Returns (Phase promoted) (is_promoted status) _ _ s
        (is_promoted-state status target_moved_aside e)
        (then-Returns (Phase promoted) (is_ready status.state || is_moved status.state)
          (promote_incoming pg plan) _ s (ap (λ (x : State). is_ready x || is_moved x) e)
          (promote_incoming-Phase target_moved_aside s refl healthy at at.1 at.2))

  promote_from-ready :
      (status : Status) (s : S)
      → plan.target_oid ≡ none
      → Phase ready status s
      → Returns (Phase promoted) (promote_from pg plan status) s
  unfolding promote_from
  promote_from-ready status s absent (e, at, healthy) =
      else-Returns (Phase promoted) (is_promoted status) _ _ s (is_promoted-state status ready e) (
        then-Returns (Phase promoted) (is_ready status.state || is_moved status.state)
          (promote_incoming pg plan) _ s (ap (λ (x : State). is_ready x || is_moved x) e)
          (promote_incoming-Phase ready s refl healthy at at.0 (at.1 ∙ absent)))

  promote_from-promoted :
      (status : Status) (s : S)
      → Phase promoted status s
      → Returns (Phase promoted) (promote_from pg plan status) s
  unfolding promote_from
  promote_from-promoted status s p =
      then-Returns (Phase promoted) (is_promoted status) (pure status) _ s
        (is_promoted-state status promoted p.0) (status, refl, p)

  -- A target that exists and is in its place is moved aside.
  rename_aside-Phase :
      (oid : ℕ) (s : S)
      → plan.target_oid ≡ some oid
      → Healthy s
      → At plan (catalog s) ready
      → Returns (Phase target_moved_aside) (rename_aside pg plan) s
  unfolding rename_aside
  rename_aside-Phase oid s exists healthy at =
      try-Returns
        (λ u s'. Renamed plan.target_db plan.aside_db (catalog s) (catalog s') × Healthy s')
        (Phase target_moved_aside)
        (rename_database pg plan.maintenance_db plan.target_db plan.aside_db) (aside_failed pg plan)
        (reconcile_database_cutover pg plan) s
        (rename_database-Returns pg catalog law Healthy works plan.maintenance_db plan.target_db
          plan.aside_db s oid readable.target readable.aside healthy (at.1 ∙ exists) at.2)
        (λ u s' p.
          reconcile-Phase target_moved_aside s' p.1
            (rename_target_aside plan names (catalog s) (catalog s') at p.0))

  recheck_target-Phase :
      (oid : ℕ) (s : S)
      → plan.target_oid ≡ some oid
      → Healthy s
      → At plan (catalog s) ready
      → Returns (Phase target_moved_aside) (recheck_target pg plan) s
  unfolding recheck_target
  recheck_target-Phase oid s exists healthy at =
      bind-Returns (Phase ready) (Phase target_moved_aside) (reconcile_database_cutover pg plan) _ s
        (reconcile-Phase ready s healthy at)
        (λ status s' p.
          else-Returns (Phase target_moved_aside) (is_promoted status) (pure status) _ s'
            (is_promoted-state status ready p.0)
            (then-Returns (Phase target_moved_aside) (is_ready status.state) (rename_aside pg plan)
              _ s' (ap is_ready p.0) (rename_aside-Phase oid s' exists p.2 p.1)))

  move_target_aside-Phase :
      (oid : ℕ) (s : S)
      → plan.target_oid ≡ some oid
      → Healthy s
      → At plan (catalog s) ready
      → Returns (Phase target_moved_aside) (move_target_aside pg plan) s
  unfolding move_target_aside
  move_target_aside-Phase oid s exists healthy at =
      try-Returns (λ u s'. (catalog s' ≡ catalog s) × Healthy s') (Phase target_moved_aside)
        (terminate_connections pg plan.maintenance_db plan.target_db) (terminate_failed pg plan)
        (recheck_target pg plan) s
        (terminate_connections-Returns pg catalog law Healthy works plan.maintenance_db
          plan.target_db s healthy)
        (λ u s' p.
          recheck_target-Phase oid s' exists p.1 (subst (λ c. At plan c ready) (sym p.0) at))

  -- From a status on: the target is prepared, and the incoming database put in its place.
  abbrev go_on : Status → Exec S Failure Status
  go_on status = prepare_target pg plan status >>= promote_from pg plan

  go_on-ready :
      (target : Option ℕ) (status : Status) (s : S)
      → plan.target_oid ≡ target
      → Phase ready status s
      → Returns (Phase promoted) (go_on status) s
  unfolding prepare_target
  go_on-ready none status s absent p =
      bind-Returns (Phase ready) (Phase promoted) (prepare_target pg plan status)
        (promote_from pg plan) s
        (else-Returns (Phase ready) (is_ready status.state && is_some plan.target_oid) _
          (pure status) s (λ i. is_ready (p.0 i) && is_some (absent i)) (status, refl, p))
        (λ status' s' p'. promote_from-ready status' s' absent p')
  go_on-ready (some oid) status s exists p =
      bind-Returns (Phase target_moved_aside) (Phase promoted) (prepare_target pg plan status)
        (promote_from pg plan) s
        (then-Returns (Phase target_moved_aside) (is_ready status.state && is_some plan.target_oid)
          (move_target_aside pg plan) _ s (λ i. is_ready (p.0 i) && is_some (exists i))
          (move_target_aside-Phase oid s exists p.2 p.1))
        (λ status' s' p'. promote_from-moved status' s' p')

  go_on-moved :
      (status : Status) (s : S)
      → Phase target_moved_aside status s
      → Returns (Phase promoted) (go_on status) s
  unfolding prepare_target
  go_on-moved status s p =
      bind-Returns (Phase target_moved_aside) (Phase promoted) (prepare_target pg plan status)
        (promote_from pg plan) s
        (else-Returns (Phase target_moved_aside) (is_ready status.state && is_some plan.target_oid)
          _ (pure status) s (ap (λ (x : State). is_ready x && is_some plan.target_oid) p.0)
          (status, refl, p))
        (λ status' s' p'. promote_from-moved status' s' p')

  proceeds :
      (st : State) (status : Status) (s : S)
      → PromotesTo st promoted
      → Phase st status s
      → Returns (Phase promoted) (if is_promoted status then pure status else go_on status) s
  proceeds ready status s h p =
      else-Returns (Phase promoted) (is_promoted status) (pure status) (go_on status) s
        (is_promoted-state status ready p.0) (go_on-ready plan.target_oid status s refl p)
  proceeds target_moved_aside status s h p =
      else-Returns (Phase promoted) (is_promoted status) (pure status) (go_on status) s
        (is_promoted-state status target_moved_aside p.0) (go_on-moved status s p)
  proceeds promoted status s h p =
      then-Returns (Phase promoted) (is_promoted status) (pure status) (go_on status) s
        (is_promoted-state status promoted p.0) (status, refl, p)
  proceeds finalized status s h p = cc
  proceeds conflict status s h p = cc
  proceeds unknown status s h p = cc

  -- With a PostgreSQL that meets no failure, and names that can be quoted: from each phase that a
  -- promotion may lead to `promoted` from, with or without a target database before, it returns the
  -- status `promoted`, and the databases are then in that phase.
  pub promote_database_cutover-Returns :
      (st : State) (s : S)
      → PromotesTo st promoted
      → Healthy s
      → At plan (catalog s) st
      → Returns (Phase promoted) (promote_database_cutover pg plan) s
  unfolding promote_database_cutover
  promote_database_cutover-Returns st s h healthy at =
      bind-Returns (Phase st) (Phase promoted) (reconcile_database_cutover pg plan) _ s
        (reconcile-Phase st s healthy at) (λ status s' p. proceeds st status s' h p)
