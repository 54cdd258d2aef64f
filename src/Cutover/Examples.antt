-- ===== src/Cutover/Examples.antt =====
-- Runs of a cutover on a small cluster, and the theorems at such inputs.
use odooctl.Prelude.{
  ℕ, String, ◌≡◌, ◌≢◌, refl, sym, Bool, true, false, is_some, Option, none, some, List, [], ◌∷◌,
  ◌==◌, eq_iff, arith, if◌then◌else◌,
}
use odooctl.Prelude.Results.{Result, ok, err, ok-injective}
use odooctl.Cutover.State.{Plan, State, ready, promoted, finalized, Status, Failure, cutover_error}
use odooctl.Cutover.Postgres.{Catalog}
use odooctl.Cutover.Cluster.{
  Cluster, Fault, fine, refused, lost, cluster, cluster_psql, cluster_scalar, cluster_exists, told,
  next_fault, cluster-IsPostgres,
}
use odooctl.Cutover.Phases.{IsPlan, can_promote, can_finalize}
use odooctl.Cutover.Reconcile.{classify, cutover_failure}
use odooctl.Cutover.Progress.{Progress, Reported}
use odooctl.Cutover.Promote.{promote_database_cutover}
use odooctl.Cutover.Promote.Safety.{IsPromoted, promote_database_cutover-Progress}
use odooctl.Cutover.Cluster.{valid_oid}
use odooctl.Cutover.Cluster.Working.{HasOids, IsUnscripted, cluster-IsWorking}
use odooctl.Cutover.Reconcile.Answered.{IsReadable}
use odooctl.Cutover.Promote.Live.{Phase, promote_database_cutover-Returns}
use odooctl.Prelude.Exec.{Returns}
use odooctl.Cutover.Finalize.{finalize_database_cutover}
use odooctl.Cutover.Finalize.Safety.{IsFinalized, finalize_database_cutover-Progress}
use odooctl.Cutover.Postgres.{
  database_oid, terminate_connections, rename_database, drop_database, statement_sql,
  database_oid_query, validated_oid,
}
use odooctl.Cutover.Names.{
  quote_identifier, quote_literal, validate_database_name, validate_cutover_id, has_char,
  aside_digest, aside_name, take_chars, truncate_utf8, database_cutover_aside_name,
}
use odooctl.Cutover.Reconcile.{reconcile_database_cutover}
use odooctl.Cutover.Reconcile.Truth.{Reconciled, reconcile-Reconciled}
use odooctl.Cutover.Fence.{checked_plan, post_init}
use odooctl.Cutover.Swap.{swap_temp_database}
use odooctl.Cutover.Swap.Places.{Ends}
use odooctl.Cutover.Swap.Short.{TellsExistence, short-IsShortPostgres}
use odooctl.Cutover.Swap.Safety.{swap_temp_database-Ends}
use odooctl.Cutover.Planning.{plan_database_cutover}
use odooctl.Cutover.Planning.Ready.{IsReady, plan_database_cutover-IsReady}

abbrev plan : Plan
plan = record {
  cutover_id = "c1";
  incoming_db = "next";
  target_db = "app";
  aside_db = "app_old";
  incoming_oid = 20;
  target_oid = some 10;
  maintenance_db = "postgres";
}

abbrev databases : Catalog
databases name =
    if name == "next"
    then some 20
    else if name == "app"
    then some 10
    else if name == "other"
    then some 5
    else none

abbrev scripted : List Fault → Cluster
scripted faults = record { databases = databases; script = faults }

program : Unit {0}
unfolding classify promote_database_cutover finalize_database_cutover cluster_psql cluster_scalar
    database_oid cutover_failure terminate_connections rename_database drop_database statement_sql
    database_oid_query validated_oid quote_identifier quote_literal validate_database_name
program = tt

state_of : Result Failure Status → Option State
state_of (ok status) = some status.state
state_of (err (cutover_error e)) = some e.status.state
state_of (err _) = none

-- Nothing fails: three reads, the disconnection, three reads, and so on.
promote_fine : state_of (promote_database_cutover cluster plan (scripted [])).0 ≡ some promoted
unfolding program state_of
promote_fine = refl

-- The answer to the first rename is lost, and the second is refused: the original is put back.
abbrev troubled : Cluster
troubled =
    scripted
      (fine ∷ fine ∷ fine ∷ fine ∷ fine ∷ fine ∷ fine ∷ lost ∷ fine ∷ fine ∷ fine ∷ refused ∷ [])

promote_troubled : state_of (promote_database_cutover cluster plan troubled).0 ≡ some ready
unfolding program state_of
promote_troubled = refl

restored : (promote_database_cutover cluster plan troubled).1.databases "app" ≡ some 10
unfolding program
restored = refl

-- The answer to the second rename is lost: the promotion is found to have taken place.
promote_lost :
    state_of
      (promote_database_cutover cluster plan (
        scripted (
          fine ∷ fine ∷ fine ∷ fine ∷ fine ∷ fine ∷ fine ∷ fine ∷ fine ∷ fine ∷ fine ∷ lost
          ∷ []))).0
    ≡ some promoted
unfolding program state_of
promote_lost = refl

abbrev after_promotion : Catalog
after_promotion name =
    if name == "app" then some 20 else if name == "app_old" then some 10 else none

finalize_fine :
    state_of
      (finalize_database_cutover cluster plan true
        (record { databases = after_promotion; script = [] })).0
    ≡ some finalized
unfolding program state_of
finalize_fine = refl

plan-IsPlan : IsPlan plan
plan-IsPlan = record {
  incoming_target = ground (arith, eq_iff "next" "app");
  aside_incoming = ground (arith, eq_iff "app_old" "next");
  aside_target = ground (arith, eq_iff "app_old" "app");
}

promote_database_cutover-Progress_example :
    Progress plan can_promote ready databases
      ((promote_database_cutover cluster plan troubled).1.databases)
    × Reported IsPromoted plan
        ((promote_database_cutover cluster plan troubled).1.databases)
        (promote_database_cutover cluster plan troubled).0
promote_database_cutover-Progress_example =
    promote_database_cutover-Progress cluster (λ s. s.databases) plan ready troubled
      cluster-IsPostgres plan-IsPlan (refl, refl, refl)

abbrev promoted_cluster : Cluster
promoted_cluster = record {
  databases = after_promotion;
  script = fine ∷ fine ∷ fine ∷ fine ∷ fine ∷ fine ∷ fine ∷ lost ∷ [];
}

finalize_database_cutover-Progress_example :
    Progress plan can_finalize promoted after_promotion
      ((finalize_database_cutover cluster plan true promoted_cluster).1.databases)
    × Reported IsFinalized plan
        ((finalize_database_cutover cluster plan true promoted_cluster).1.databases)
        (finalize_database_cutover cluster plan true promoted_cluster).0
finalize_database_cutover-Progress_example =
    finalize_database_cutover-Progress cluster (λ s. s.databases) plan promoted promoted_cluster
      cluster-IsPostgres plan-IsPlan refl (refl, refl, refl)

abbrev digest : String → String
digest s = "0123456789abcdef0123456789abcdef0123456789abcdef0123456789abcdef"

reconcile-Reconciled_example :
    ((reconcile_database_cutover cluster plan troubled).1.databases ≡ databases)
    × Reconciled plan databases (reconcile_database_cutover cluster plan troubled).0
reconcile-Reconciled_example =
    reconcile-Reconciled cluster (λ s. s.databases) cluster-IsPostgres plan troubled

abbrev aside : String
aside = "app__odooctl_cutover_0123456789abcdef0123456789abcdef"

abbrev made : Plan
made = record {
  cutover_id = "c1";
  incoming_db = "next";
  target_db = "app";
  aside_db = aside;
  incoming_oid = 20;
  target_oid = some 10;
  maintenance_db = "postgres";
}

plan_database_cutover-IsReady_example : IsReady "next" "app" databases made
unfolding program plan_database_cutover database_cutover_aside_name validate_cutover_id aside_name
    aside_digest take_chars truncate_utf8 has_char checked_plan post_init
plan_database_cutover-IsReady_example =
    plan_database_cutover-IsReady digest cluster (λ s. s.databases) "next" "app" "c1" "postgres"
      troubled made cluster-IsPostgres refl

cluster_exists-TellsExistence : TellsExistence cluster_exists (λ s. s.databases)
unfolding cluster_exists
cluster_exists-TellsExistence = record {
  keeps = λ name s. refl;
  answers = λ name s b _ h. told_answers (next_fault s.script) (s.databases name) b h;
}
  where
    told_answers : (f : Fault) (x : Option ℕ) (b : Bool) → told f x ≡ ok b → b ≡ is_some x
    told_answers fine x b h = sym (ok-injective h)
    told_answers refused x b h = cc
    told_answers lost x b h = cc

differs : (x y : String) → (x == y) ≡ false → x ≢ y
differs x y h e = cc (h, (eq_iff x y).1 e)

-- The answer to the second rename is lost.
swap_temp_database-Ends_example :
    Ends "next" "app" 20 10
      (swap_temp_database cluster "postgres" "next" "app"
        (some (λ e. e == "prod"))
        "test"
        troubled).0
      (swap_temp_database cluster "postgres" "next" "app"
        (some (λ e. e == "prod"))
        "test"
        troubled).1.databases
swap_temp_database-Ends_example =
    swap_temp_database-Ends cluster (λ s. s.databases) cluster_exists "postgres" "next" "app" "test"
      (λ e. e == "prod") 20 10 troubled
      (short-IsShortPostgres cluster (λ s. s.databases) cluster-IsPostgres)
      cluster_exists-TellsExistence refl refl (differs "next" "app" refl)
      (differs "next" "app__old_swap" refl) (differs "app" "app__old_swap" refl) (omega arith)
      (omega arith) (omega arith) refl refl

plan-IsReadable : IsReadable plan
unfolding quote_identifier database_oid_query quote_literal validate_database_name
plan-IsReadable = record {
  incoming = ((_, refl), (_, refl));
  target = ((_, refl), (_, refl));
  aside = ((_, refl), (_, refl));
}

databases-HasOids : HasOids databases
unfolding valid_oid
databases-HasOids name oid e = ground arith

promote_database_cutover-Returns_example :
    Returns
      (Phase cluster
        (λ s. s.databases)
        cluster-IsPostgres
        IsUnscripted
        cluster-IsWorking
        plan
        plan-IsPlan
        plan-IsReadable
        promoted)
      (promote_database_cutover cluster plan)
      (scripted [])
promote_database_cutover-Returns_example =
    promote_database_cutover-Returns cluster (λ s. s.databases) cluster-IsPostgres IsUnscripted
      cluster-IsWorking plan plan-IsPlan plan-IsReadable ready (scripted []) refl
      (refl, databases-HasOids) (refl, refl, refl)
