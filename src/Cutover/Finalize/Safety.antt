-- ===== src/Cutover/Finalize/Safety.antt =====
-- A finalization drops the old database only, and only of a cutover that is promoted and recorded.
use odooctl.Prelude.{
  ◌≡◌, refl, sym, ◌∙◌, subst, inl, inr, true, not, is_some, none, arith, if_ind, update,
}
use odooctl.Prelude.Exec.{Exec}
use odooctl.Prelude.Results.{Result, ok, err}
use odooctl.Cutover.State.{Plan, State, promoted, finalized, Status, is_promoted, Failure}
use odooctl.Cutover.Postgres.{Adapter, IsPostgres, Catalog, drop_database, terminate_connections}
use odooctl.Cutover.Postgres.Outcomes.{DropOutcome, drop_outcome, terminate_keeps}
use odooctl.Cutover.Phases.{
  At, IsPlan, can_finalize, FinalizesTo, FinalizesTo-trans, FinalizesTo-refl, drop_aside_db,
}
use odooctl.Cutover.Reconcile.{is_finalized, is_promoted_state}
use odooctl.Cutover.Reconcile.Truth.{At-unique}
use odooctl.Cutover.Progress.{
  Progress, Reported, Done, Doing, Doing-same, after_reconcile, after_reconcile_or, after_try,
  after_kept,
}
use odooctl.Cutover.Finalize.{
  cleanup_failed, cleanup_done, drop_aside, recheck_aside, release_aside, finalize_from,
  finalize_database_cutover,
}

abbrev pub IsFinalized : Status → Type 0
IsFinalized st = is_finalized st.state ≡ true

promoted_only : (st : State) → is_promoted_state st ≡ true → st ≡ promoted
promoted_only st h = ground arith

module _ {S : Type 0} (pg : Adapter S) (catalog : S → Catalog) (law : IsPostgres pg catalog)
    (plan : Plan) (names : IsPlan plan) (had_target : is_some plan.target_oid ≡ true) (from : State)
    (start : Catalog) where
  abbrev Finalizing : S → Type 0
  Finalizing = Doing catalog plan can_finalize from start

  abbrev Finalizes : Exec S Failure Status → S → Type 0
  Finalizes m s = Done catalog plan can_finalize from start IsFinalized (m s)

  dropped_Progress :
      (c c' : Catalog)
      → Progress plan can_finalize from start c
      → At plan c promoted
      → c' ≡ update c plan.aside_db none
      → Progress plan can_finalize from start c'
  dropped_Progress c c' p at e =
      let (there, others) = drop_aside_db plan names c c' had_target at e in
      record {
        phase = finalized;
        at = there;
        permitted =
            FinalizesTo-trans from promoted finalized
              (subst (FinalizesTo from) (At-unique plan c p.phase promoted p.at at) p.permitted)
              refl;
        elsewhere = λ j a b d. others j a b d ∙ p.elsewhere j a b d;
      }

  outcome_Progress :
      (c c' : Catalog) (r : Result Failure (Unit {0}))
      → Progress plan can_finalize from start c
      → At plan c promoted
      → DropOutcome c plan.aside_db r c'
      → Progress plan can_finalize from start c'
  outcome_Progress c c' (ok u) p at e = dropped_Progress c c' p at e
  outcome_Progress c c' (err x) p at (inl same) =
      subst (Progress plan can_finalize from start) (sym same) p
  outcome_Progress c c' (err x) p at (inr e) = dropped_Progress c c' p at e

  cleanup_failed-Finalizes : (s : S) → Finalizing s → Finalizes (cleanup_failed pg plan) s
  unfolding cleanup_failed
  cleanup_failed-Finalizes s p =
      after_reconcile_or pg catalog law plan can_finalize from start IsFinalized _ _ _ s p
        λ st s' p' at.
          if_ind (λ m. Finalizes m s') (is_finalized st.state) _ _ (λ h. (p', (h, at)))
            (λ _. (p', inr at))

  cleanup_done-Finalizes : (s : S) → Finalizing s → Finalizes (cleanup_done pg plan) s
  unfolding cleanup_done
  cleanup_done-Finalizes s p =
      after_reconcile_or pg catalog law plan can_finalize from start IsFinalized _ _ _ s p
        λ st s' p' at.
          if_ind (λ m. Finalizes m s') (is_finalized st.state) _ _ (λ h. (p', (h, at)))
            (λ _. (p', inr at))

  drop_aside-Finalizes :
      (s : S) → Finalizing s → At plan (catalog s) promoted → Finalizes (drop_aside pg plan) s
  unfolding drop_aside
  drop_aside-Finalizes s p at =
      after_try pg catalog law plan can_finalize from start IsFinalized
        (drop_database pg plan.maintenance_db plan.aside_db) _ _ s
        (outcome_Progress _ _ _ p at
          (drop_outcome pg catalog law plan.maintenance_db plan.aside_db s))
        cleanup_done-Finalizes cleanup_failed-Finalizes

  recheck_aside-Finalizes : (s : S) → Finalizing s → Finalizes (recheck_aside pg plan) s
  unfolding recheck_aside
  recheck_aside-Finalizes s p =
      after_reconcile_or pg catalog law plan can_finalize from start IsFinalized _ _ _ s p
        λ st s' p' at.
          if_ind (λ m. Finalizes m s') (is_finalized st.state) _ _ (λ h. (p', (h, at)))
            (λ _.
              if_ind (λ m. Finalizes m s') (is_promoted_state st.state) _ _
                (λ h.
                  drop_aside-Finalizes s' p'
                    (subst (At plan (catalog s')) (promoted_only st.state h) at))
                (λ _. (p', inr at)))

  release_aside-Finalizes :
      (st : Status) (s : S)
      → Finalizing s
      → At plan (catalog s) st.state
      → Finalizes (release_aside pg plan st) s
  unfolding release_aside
  release_aside-Finalizes st s p at =
      after_kept pg catalog law plan can_finalize from start IsFinalized
        (terminate_connections pg plan.maintenance_db plan.aside_db) _ _ s
        (terminate_keeps pg catalog law plan.maintenance_db plan.aside_db s)
        (λ s' e.
          recheck_aside-Finalizes s' (Doing-same catalog plan can_finalize from start s s' e p))
        (λ s' e. (
          Doing-same catalog plan can_finalize from start s s' e p,
          inr (subst (λ c. At plan c st.state) (sym e) at),
        ))

  finalize_from-Finalizes :
      (st : Status) (s : S)
      → Finalizing s
      → At plan (catalog s) st.state
      → Finalizes (finalize_from pg plan st) s
  unfolding finalize_from
  finalize_from-Finalizes st s p at =
      if_ind (λ m. Finalizes m s) (not (is_promoted st)) _ _ (λ _. (p, inr at))
        (λ _.
          if_ind (λ m. Finalizes m s) (is_finalized st.state) _ _ (λ h. (p, (h, at)))
            (λ _. rw had_target (release_aside-Finalizes st s p at)))

-- Where the target existed: however a finalization ends, whatever its commands report, the incoming
-- database keeps the name that it had, and so does the old one unless the cutover was promoted;
-- then it may be gone. No other database is touched. A status is returned only of a finalized
-- cutover, with the old database gone; what is raised of a recorded one is a DatabaseCutoverError
-- whose status is unknown or names the phase that the databases are in.
pub finalize_database_cutover-Progress :
    {S : Type 0} (pg : Adapter S) (catalog : S → Catalog) (plan : Plan) (from : State) (s : S)
    → IsPostgres pg catalog
    → IsPlan plan
    → is_some plan.target_oid ≡ true
    → At plan (catalog s) from
    → Progress plan can_finalize from
        (catalog s)
        (catalog (finalize_database_cutover pg plan true s).1)
      × Reported IsFinalized plan
          (catalog (finalize_database_cutover pg plan true s).1)
          (finalize_database_cutover pg plan true s).0
unfolding finalize_database_cutover
finalize_database_cutover-Progress pg catalog plan from s law names had_target at =
    after_reconcile pg catalog law plan can_finalize from (catalog s) IsFinalized _ s started
      λ st s' p at'.
        finalize_from-Finalizes pg catalog law plan names had_target from (catalog s) st s' p at'
  where
    started : Progress plan can_finalize from (catalog s) (catalog s)
    started = record {
      phase = from;
      at = at;
      permitted = FinalizesTo-refl plan (catalog s) from at;
      elsewhere = λ j a b d. refl;
    }
