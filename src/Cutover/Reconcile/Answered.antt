-- ===== src/Cutover/Reconcile/Answered.antt =====
-- A reconciliation that meets no failure, with the databases in a phase of the plan, returns it.
use odooctl.Prelude.{String, ◌≡◌, refl, ap, ◌∙◌}
use odooctl.Prelude.Exec.{Returns}
use odooctl.Cutover.State.{Plan, State, Status, Kind}
use odooctl.Cutover.Postgres.{Adapter, IsPostgres, Catalog, database_oid}
use odooctl.Cutover.Postgres.Working.{IsWorking, IsSendable, database_oid-Returns}
use odooctl.Cutover.Phases.{At}
use odooctl.Cutover.Reconcile.{classify, observe, reconcile_database_cutover, reconcile_or}
use odooctl.Cutover.Reconcile.Truth.{seen, At-classify}

-- The three names of the plan can be sent.
pub record IsReadable (plan : Plan) : Type 0 where
  pub incoming : IsSendable plan.incoming_db
  pub target : IsSendable plan.target_db
  pub aside : IsSendable plan.aside_db

module _ {S : Type 0} (pg : Adapter S) (catalog : S → Catalog) (law : IsPostgres pg catalog)
    (Healthy : S → Type 0) (works : IsWorking pg catalog Healthy) (plan : Plan)
    (names : IsReadable plan) where
  observe-Returns :
      (s : S)
      → Healthy s
      → Returns
          (λ o s'. (o ≡ seen plan (catalog s)) × (catalog s' ≡ catalog s) × Healthy s')
          (observe pg plan)
          s
  unfolding observe
  observe-Returns s healthy =
      let (i, i_ok, (i_is, i_same, h1)) =
        database_oid-Returns pg catalog law Healthy works plan.maintenance_db plan.incoming_db s
          names.incoming healthy in
      let s1 = (database_oid pg plan.maintenance_db plan.incoming_db s).1 in
      let (t, t_ok, (t_is, t_same, h2)) =
        database_oid-Returns pg catalog law Healthy works plan.maintenance_db plan.target_db s1
          names.target h1 in
      let s2 = (database_oid pg plan.maintenance_db plan.target_db s1).1 in
      let (a, a_ok, (a_is, a_same, h3)) =
        database_oid-Returns pg catalog law Healthy works plan.maintenance_db plan.aside_db s2
          names.aside h2 in
      rw i_ok (
        rw t_ok (
          rw a_ok (
            record { incoming = i; target = t; aside = a },
            refl,
            (
              (λ j. record {
                incoming = i_is j;
                target = (t_is ∙ ap (λ (c : Catalog). c plan.target_db) i_same) j;
                aside = (a_is ∙ ap (λ (c : Catalog). c plan.aside_db) (t_same ∙ i_same)) j;
              }),
              a_same ∙ (t_same ∙ i_same),
              h3,
            ),
          )))

  -- The status is that of the phase, and nothing has changed.
  abbrev pub Tells : State → S → Status → S → Type 0
  Tells st s status s' = (status.state ≡ st) × (catalog s' ≡ catalog s) × Healthy s'

  pub reconcile-Returns :
      (st : State) (s : S)
      → Healthy s
      → At plan (catalog s) st
      → Returns (Tells st s) (reconcile_database_cutover pg plan) s
  unfolding reconcile_database_cutover
  reconcile-Returns st s healthy at =
      let (o, o_ok, (o_is, same, h)) = observe-Returns s healthy in
      let class = ap (classify plan) o_is ∙ At-classify plan (catalog s) st at in
      rw o_ok (rw class (_, refl, (refl, same, h)))

  pub reconcile_or-Returns :
      (kind : Kind) (message : String) (st : State) (s : S)
      → Healthy s
      → At plan (catalog s) st
      → Returns (Tells st s) (reconcile_or pg plan kind message) s
  reconcile_or-Returns kind message st s healthy at =
      let (status, ok_status, told) = reconcile-Returns st s healthy at in
      rw ok_status (status, refl, told)
