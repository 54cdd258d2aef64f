-- ===== src/Cutover/Promote/Safety.antt =====
-- Every step of a promotion keeps the cutover in a phase, and reports the phase that is there.
use odooctl.Prelude.{◌≡◌, refl, subst, inl, inr, true, ◌||◌, ◌&&◌, is_some, arith, if_ind}
use odooctl.Prelude.Exec.{Exec}
use odooctl.Cutover.State.{
  Plan, State, ready, target_moved_aside, Status, is_promoted, truthy, error_promoted, CutoverError,
  plain, Failure,
}
use odooctl.Cutover.Postgres.{Adapter, IsPostgres, Catalog, terminate_connections}
use odooctl.Cutover.Postgres.Outcomes.{terminate_keeps}
use odooctl.Cutover.Phases.{At, IsPlan, can_promote, PromotesTo, PromotesTo-refl}
use odooctl.Cutover.Reconcile.{is_ready, is_moved}
use odooctl.Cutover.Reconcile.Truth.{IsTrue}
use odooctl.Cutover.Progress.{
  Progress, Reported, Done, Doing, Doing-same, after_reconcile, after_reconcile_or, after_failure,
  after_try, ends_reconcile, after_step,
}
use odooctl.Cutover.Promote.Renames.{after_rename, Lands-aside, Lands-back, Lands-promoted}
use odooctl.Cutover.Promote.{
  rollback_failed, rollback_done, restore_old_target, terminate_failed, aside_failed, rename_aside,
  recheck_target, move_target_aside, promotion_failed, promotion_done, promote_incoming,
  promote_from, prepare_target, promote_database_cutover,
}

-- A status that is promoted, and so is not unknown.
abbrev pub IsPromoted : Status → Type 0
IsPromoted st = is_promoted st ≡ true

abbrev AnyStatus : Status → Type 0
AnyStatus st = Unit

true-At_promoted :
    (plan : Plan) (c : Catalog) (st : Status)
    → IsTrue plan c st
    → IsPromoted st
    → At plan c st.state
true-At_promoted plan c st (inl e) h = ground arith
true-At_promoted plan c st (inr at) h = at

true-At_moved :
    (plan : Plan) (c : Catalog) (st : Status)
    → IsTrue plan c st
    → is_moved st.state ≡ true
    → At plan c st.state
true-At_moved plan c st (inl e) h = ground arith
true-At_moved plan c st (inr at) h = at

-- A plain error is promoted exactly if its status is.
plain-IsPromoted :
    (e : CutoverError) → e.kind ≡ plain → truthy (error_promoted e) ≡ true → IsPromoted e.status
plain-IsPromoted e k h = ground arith

ready_state : (st : State) → is_ready st ≡ true → st ≡ ready
ready_state st h = ground arith

moved_state : (st : State) → is_moved st ≡ true → st ≡ target_moved_aside
moved_state st h = ground arith

module _ {S : Type 0} (pg : Adapter S) (catalog : S → Catalog) (law : IsPostgres pg catalog)
    (plan : Plan) (names : IsPlan plan) (from : State) (start : Catalog) where
  abbrev Promoting : S → Type 0
  Promoting = Doing catalog plan can_promote from start

  abbrev Promotes : (Status → Type 0) → (Exec S Failure Status) → S → Type 0
  Promotes R m s = Done catalog plan can_promote from start R (m s)

  rollback_failed-Promotes : (s : S) → Promoting s → Promotes IsPromoted (rollback_failed pg plan) s
  unfolding rollback_failed
  rollback_failed-Promotes s p =
      after_failure pg catalog law plan can_promote from start IsPromoted _ _ s p λ e s' p' k t.
        if_ind (λ m. Promotes IsPromoted m s') (is_ready e.status.state) _ _ (λ _. (p', t))
          (λ _.
            if_ind (λ m. Promotes IsPromoted m s') (truthy (error_promoted e)) _ _
              (λ h.
                let done = plain-IsPromoted e k h in
                (p', (done, true-At_promoted plan (catalog s') e.status t done)))
              (λ _. (p', t)))

  rollback_done-Promotes : (s : S) → Promoting s → Promotes IsPromoted (rollback_done pg plan) s
  unfolding rollback_done
  rollback_done-Promotes s p =
      after_reconcile_or pg catalog law plan can_promote from start IsPromoted _ _ _ s p
        λ st s' p' at.
          if_ind (λ m. Promotes IsPromoted m s') (is_ready st.state) _ _ (λ _. (p', inr at))
            (λ _. (p', inr at))

  restore_old_target-Promotes :
      (s : S)
      → Promoting s
      → At plan (catalog s) target_moved_aside
      → Promotes IsPromoted (restore_old_target pg plan) s
  unfolding restore_old_target
  restore_old_target-Promotes s p at =
      after_rename pg catalog law plan names from start plan.aside_db plan.target_db
        target_moved_aside IsPromoted _ _ s (Lands-back pg catalog law plan names from start) p at
        rollback_done-Promotes rollback_failed-Promotes

  terminate_failed-Promotes :
      (s : S) → Promoting s → Promotes AnyStatus (terminate_failed pg plan) s
  unfolding terminate_failed
  terminate_failed-Promotes s p =
      after_failure pg catalog law plan can_promote from start AnyStatus _ _ s p λ e s' p' k t.
        if_ind (λ m. Promotes AnyStatus m s') (truthy (error_promoted e)) _ _
          (λ h. (p', (tt, true-At_promoted plan (catalog s') e.status t (plain-IsPromoted e k h))))
          (λ _. (p', t))

  aside_failed-Promotes : (s : S) → Promoting s → Promotes AnyStatus (aside_failed pg plan) s
  unfolding aside_failed
  aside_failed-Promotes s p =
      after_failure pg catalog law plan can_promote from start AnyStatus _ _ s p λ e s' p' k t.
        if_ind (λ m. Promotes AnyStatus m s') (is_moved e.status.state) _ _
          (λ h. (p', (tt, true-At_moved plan (catalog s') e.status t h)))
          (λ _.
            if_ind (λ m. Promotes AnyStatus m s') (truthy (error_promoted e)) _ _
              (λ h.
                (p', (tt, true-At_promoted plan (catalog s') e.status t (plain-IsPromoted e k h))))
              (λ _. (p', t)))

  rename_aside-Promotes :
      (s : S)
      → Promoting s
      → At plan (catalog s) ready
      → Promotes AnyStatus (rename_aside pg plan) s
  unfolding rename_aside
  rename_aside-Promotes s p at =
      after_rename pg catalog law plan names from start plan.target_db plan.aside_db ready AnyStatus
        _ _ s (Lands-aside pg catalog law plan names from start) p at
        (λ s' p'.
          ends_reconcile pg catalog law plan can_promote from start AnyStatus s' p' (λ _. tt))
        aside_failed-Promotes

  recheck_target-Promotes : (s : S) → Promoting s → Promotes AnyStatus (recheck_target pg plan) s
  unfolding recheck_target
  recheck_target-Promotes s p =
      after_reconcile pg catalog law plan can_promote from start AnyStatus _ s p λ st s' p' at.
        if_ind (λ m. Promotes AnyStatus m s') (is_promoted st) _ _ (λ _. (p', (tt, at)))
          (λ _.
            if_ind (λ m. Promotes AnyStatus m s') (is_ready st.state) _ _
              (λ h.
                rename_aside-Promotes s' p'
                  (subst (At plan (catalog s')) (ready_state st.state h) at))
              (λ _.
                if_ind (λ m. Promotes AnyStatus m s') (is_moved st.state) _ _ (λ _. (p', (tt, at)))
                  (λ _. (p', inr at))))

  move_target_aside-Promotes :
      (s : S) → Promoting s → Promotes AnyStatus (move_target_aside pg plan) s
  unfolding move_target_aside
  move_target_aside-Promotes s p =
      after_try pg catalog law plan can_promote from start AnyStatus
        (terminate_connections pg plan.maintenance_db plan.target_db) _ _ s
        (Doing-same catalog plan can_promote from start s _
          (terminate_keeps pg catalog law plan.maintenance_db plan.target_db s) p)
        recheck_target-Promotes terminate_failed-Promotes

  promotion_failed-Promotes :
      (s : S) → Promoting s → Promotes IsPromoted (promotion_failed pg plan) s
  unfolding promotion_failed
  promotion_failed-Promotes s p =
      after_reconcile_or pg catalog law plan can_promote from start IsPromoted _ _ _ s p
        λ st s' p' at.
          if_ind (λ m. Promotes IsPromoted m s') (is_promoted st) _ _ (λ h. (p', (h, at)))
            (λ _.
              if_ind (λ m. Promotes IsPromoted m s') (is_moved st.state) _ _
                (λ h.
                  after_step catalog plan can_promote from start IsPromoted IsPromoted
                    (restore_old_target pg plan) _ s'
                    (restore_old_target-Promotes s' p'
                      (subst (At plan (catalog s')) (moved_state st.state h) at))
                    (λ back s2 p2 q at2. rw q (p2, (q, at2))))
                (λ _. (p', inr at)))

  promotion_done-Promotes : (s : S) → Promoting s → Promotes IsPromoted (promotion_done pg plan) s
  unfolding promotion_done
  promotion_done-Promotes s p =
      after_reconcile_or pg catalog law plan can_promote from start IsPromoted _ _ _ s p
        λ st s' p' at.
          if_ind (λ m. Promotes IsPromoted m s') (is_promoted st) _ _ (λ h. (p', (h, at)))
            (λ _. (p', inr at))

  promote_incoming-Promotes :
      (st : State) (s : S)
      → PromotesTo ready st
      → Promoting s
      → At plan (catalog s) st
      → Promotes IsPromoted (promote_incoming pg plan) s
  unfolding promote_incoming
  promote_incoming-Promotes st s h p at =
      after_rename pg catalog law plan names from start plan.incoming_db plan.target_db st
        IsPromoted _ _ s (Lands-promoted pg catalog law plan names from start st h) p at
        promotion_done-Promotes promotion_failed-Promotes

  promote_from-Promotes :
      (st : Status) (s : S)
      → Promoting s
      → At plan (catalog s) st.state
      → Promotes IsPromoted (promote_from pg plan st) s
  unfolding promote_from
  promote_from-Promotes st s p at =
      if_ind (λ m. Promotes IsPromoted m s) (is_promoted st) _ _ (λ h. (p, (h, at)))
        (λ _.
          if_ind (λ m. Promotes IsPromoted m s) (is_ready st.state || is_moved st.state) _ _
            (λ h. promote_incoming-Promotes st.state s (ground arith) p at) (λ _. (p, inr at)))

  prepare_target-Promotes :
      (st : Status) (s : S)
      → Promoting s
      → At plan (catalog s) st.state
      → Promotes AnyStatus (prepare_target pg plan st) s
  unfolding prepare_target
  prepare_target-Promotes st s p at =
      if_ind (λ m. Promotes AnyStatus m s) (is_ready st.state && is_some plan.target_oid) _ _
        (λ _. move_target_aside-Promotes s p) (λ _. (p, (tt, at)))

-- A promotion may be tried from any phase, also one that an earlier attempt left behind, and any
-- command may fail, or take effect and report a failure. However it ends, the cutover is in a
-- phase that a promotion may lead to: the incoming database is under the incoming or the target
-- name, the old one under the target or the aside name, nothing is dropped, a promoted cutover
-- stays promoted, and no other database is touched. A status that is returned is promoted, and is
-- the phase that the databases are in; what is raised is a DatabaseCutoverError whose status is
-- unknown or names the phase that the databases are in.
pub promote_database_cutover-Progress :
    {S : Type 0} (pg : Adapter S) (catalog : S → Catalog) (plan : Plan) (from : State) (s : S)
    → IsPostgres pg catalog
    → IsPlan plan
    → At plan (catalog s) from
    → Progress plan can_promote from (catalog s) (catalog (promote_database_cutover pg plan s).1)
      × Reported IsPromoted plan
          (catalog (promote_database_cutover pg plan s).1)
          (promote_database_cutover pg plan s).0
unfolding promote_database_cutover
promote_database_cutover-Progress pg catalog plan from s law names at =
    after_reconcile pg catalog law plan can_promote from (catalog s) IsPromoted _ s started
      λ st s' p at'.
        if_ind (λ m. Promotes pg catalog law plan names from (catalog s) IsPromoted m s')
          (is_promoted st) _ _ (λ h. (p, (h, at')))
          (λ _.
            after_step catalog plan can_promote from (catalog s) AnyStatus IsPromoted
              (prepare_target pg plan st) _ s'
              (prepare_target-Promotes pg catalog law plan names from (catalog s) st s' p at')
              (λ st2 s2 p2 _ at2.
                promote_from-Promotes pg catalog law plan names from (catalog s) st2 s2 p2 at2))
  where
    started : Progress plan can_promote from (catalog s) (catalog s)
    started = record {
      phase = from;
      at = at;
      permitted = PromotesTo-refl plan (catalog s) from at;
      elsewhere = λ j a b d. refl;
    }
