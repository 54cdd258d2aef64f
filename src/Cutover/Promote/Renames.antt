-- ===== src/Cutover/Promote/Renames.antt =====
-- The renames of a promotion: from which phase to which each leads, whether its answer arrives or is
-- lost.
use odooctl.Prelude.{String, refl, sym, ◌∙◌, subst, inl, inr, arith}
use odooctl.Prelude.Exec.{Exec, try_else}
use odooctl.Prelude.Results.{Result, ok, err}
use odooctl.Cutover.State.{Plan, State, ready, target_moved_aside, promoted, Status, Failure}
use odooctl.Cutover.Postgres.{Adapter, IsPostgres, Catalog, Renamed, rename_database}
use odooctl.Cutover.Postgres.Outcomes.{RenameOutcome, rename_outcome}
use odooctl.Cutover.Phases.{
  At, IsPlan, SameElsewhere, can_promote, PromotesTo, PromotesTo-trans, rename_target_aside,
  rename_aside_back, rename_incoming, Renamed-elsewhere,
}
use odooctl.Cutover.Reconcile.Truth.{At-unique}
use odooctl.Cutover.Progress.{Progress, Done, Doing, after_try}

module _ {S : Type 0} (pg : Adapter S) (catalog : S → Catalog) (law : IsPostgres pg catalog)
    (plan : Plan) (names : IsPlan plan) (from : State) (start : Catalog) where
  abbrev pub Promoting : S → Type 0
  Promoting = Doing catalog plan can_promote from start

  abbrev pub Promotes : (Status → Type 0) → (Exec S Failure Status) → S → Type 0
  Promotes R m s = Done catalog plan can_promote from start R (m s)

  -- One rename between the three names, from a phase that is known and to the next.
  abbrev pub Lands : String → String → State → Type 0
  Lands old new before =
      (c c' : Catalog)
      → At plan c before
      → Renamed old new c c'
      → (next : State) × At plan c' next × PromotesTo before next × SameElsewhere plan c c'

  Renamed-Progress :
      (old new : String) (before : State) (c c' : Catalog)
      → Lands old new before
      → Progress plan can_promote from start c
      → At plan c before
      → Renamed old new c c'
      → Progress plan can_promote from start c'
  Renamed-Progress old new before c c' lands p at r =
      let (next, there, step, others) = lands c c' at r in
      record {
        phase = next;
        at = there;
        permitted =
            PromotesTo-trans from before next
              (subst (PromotesTo from) (At-unique plan c p.phase before p.at at) p.permitted) step;
        elsewhere = λ j a b d. others j a b d ∙ p.elsewhere j a b d;
      }

  outcome_Progress :
      (old new : String) (before : State) (c c' : Catalog) (r : Result Failure (Unit {0}))
      → Lands old new before
      → Progress plan can_promote from start c
      → At plan c before
      → RenameOutcome c old new r c'
      → Progress plan can_promote from start c'
  outcome_Progress old new before c c' (ok u) lands p at r =
      Renamed-Progress old new before c c' lands p at r
  outcome_Progress old new before c c' (err e) lands p at (inl same) =
      subst (Progress plan can_promote from start) (sym same) p
  outcome_Progress old new before c c' (err e) lands p at (inr r) =
      Renamed-Progress old new before c c' lands p at r

  pub after_rename :
      (old new : String) (before : State) (R : Status → Type 0)
      (handler rest : Exec S Failure Status) (s : S)
      → Lands old new before
      → Promoting s
      → At plan (catalog s) before
      → ((s' : S) → Promoting s' → Promotes R rest s')
      → ((s' : S) → Promoting s' → Promotes R handler s')
      → Promotes R (try_else (rename_database pg plan.maintenance_db old new) handler rest) s
  after_rename old new before R handler rest s lands p at =
      after_try pg catalog law plan can_promote from start R
        (rename_database pg plan.maintenance_db old new) handler rest s
        (outcome_Progress old new before _ _ _ lands p at
          (rename_outcome pg catalog law plan.maintenance_db old new s))

  pub Lands-aside : Lands plan.target_db plan.aside_db ready
  Lands-aside c c' at r = (
    target_moved_aside,
    rename_target_aside plan names c c' at r,
    refl,
    Renamed-elsewhere plan names c c' _ _ (λ j a b d. (b, d)) r,
  )

  pub Lands-back : Lands plan.aside_db plan.target_db target_moved_aside
  Lands-back c c' at r = (
    ready,
    rename_aside_back plan names c c' at r,
    refl,
    Renamed-elsewhere plan names c c' _ _ (λ j a b d. (d, b)) r,
  )

  pub Lands-promoted : (st : State) → PromotesTo ready st → Lands plan.incoming_db plan.target_db st
  Lands-promoted st h c c' at r = (
    promoted,
    rename_incoming plan names c c' st h at r,
    ground arith,
    Renamed-elsewhere plan names c c' _ _ (λ j a b d. (a, b)) r,
  )
