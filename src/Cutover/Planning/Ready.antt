-- ===== src/Cutover/Planning/Ready.antt =====
-- A plan that is returned is ready to be promoted.
use odooctl.Prelude.{
  ℕ, String, ◌≡◌, ◌≢◌, refl, sym, ◌∙◌, subst, Bool, true, false, ◌==◌, eq_iff, Option, none, some,
  opt_eqb, is_some, opt_eqb_iff, arith, ap,
}
use odooctl.Prelude.Exec.{Exec, continue, continue_ind}
use odooctl.Prelude.Results.{Result, ok, err}
use odooctl.Cutover.State.{Plan, Failure, ready, value_error, runtime_error}
use odooctl.Cutover.Postgres.{Adapter, IsPostgres, Catalog, database_oid}
use odooctl.Cutover.Postgres.Outcomes.{Read, database_oid_reads}
use odooctl.Cutover.Phases.{At}
use odooctl.Cutover.Fence.{checked_plan, reject_if, among}
use odooctl.Cutover.Planning.{plan_database_cutover, require_present}
use odooctl.Cutover.Names.{validate_database_name, database_cutover_aside_name}

-- What is known of a plan of these two databases, made over the catalog `c`.
pub record IsReady (incoming target : String) (c : Catalog) (plan : Plan) : Type 0 where
  pub incoming_name : plan.incoming_db ≡ incoming
  pub target_name : plan.target_db ≡ target
  pub at : At plan c ready
  pub incoming_target : plan.incoming_db ≢ plan.target_db
  pub aside_incoming : plan.aside_db ≢ plan.incoming_db
  pub aside_target : is_some plan.target_oid ≡ true → plan.aside_db ≢ plan.target_db
  pub distinct : plan.target_oid ≢ some plan.incoming_oid

passed : (b : Bool) (e : Failure) {u : Unit {0}} → reject_if b e ≡ ok u → b ≡ false
passed true e h = cc
passed false e h = refl

not_equal : (s t : String) → (s == t) ≡ false → s ≢ t
not_equal s t h e = cc (h, (eq_iff s t).1 e)

checked_plan-same :
    (hexdigest : String → String) (plan p : Plan) → checked_plan hexdigest plan ≡ ok p → p ≡ plan
unfolding checked_plan
checked_plan-same hexdigest plan p h = ground arith

no_oid : (o : Option ℕ) → is_some o ≡ false → o ≡ none
no_oid o h = ground arith

present : (name : String) (o : Option ℕ) {oid : ℕ} → require_present name o ≡ ok oid → o ≡ some oid
unfolding require_present
present name o h = ground arith

module _ (hexdigest : String → String) {S : Type 0} (pg : Adapter S) (catalog : S → Catalog)
    (law : IsPostgres pg catalog) (incoming target : String) (c : Catalog) where
  -- Nothing has changed, and a plan is ready.
  abbrev Planned : Result Failure Plan × S → Type 0
  Planned out = (catalog out.1 ≡ c) × ((p : Plan) → out.0 ≡ ok p → IsReady incoming target c p)

  after_check :
      {A : Type 0} (r : Result Failure A) (f : A → Exec S Failure Plan) (s : S)
      → catalog s ≡ c
      → ((a : A) → r ≡ ok a → Planned (f a s))
      → Planned (continue r f s)
  after_check r f s e k = continue_ind Planned r f s k (λ x _. (e, λ p h. cc))

  after-Read :
      (f : Option ℕ → Exec S Failure Plan) (name : String)
      → ((o : Option ℕ) (s' : S) → catalog s' ≡ c → c name ≡ o → Planned (f o s'))
      → (call : Result Failure (Option ℕ) × S) → Read c name call.0 (catalog call.1)
      → Planned (continue call.0 f call.1)
  after-Read f name k (ok o, s') (same, e) = k o s' same e
  after-Read f name k (err x, s') same = (same, λ p h. cc)

  after_oid :
      (m name : String) (f : Option ℕ → Exec S Failure Plan) (s : S)
      → catalog s ≡ c
      → ((o : Option ℕ) (s' : S) → catalog s' ≡ c → c name ≡ o → Planned (f o s'))
      → Planned (continue (database_oid pg m name s).0 f (database_oid pg m name s).1)
  after_oid m name f s e k = after-Read f name k (database_oid pg m name s) (
      subst (λ d. Read d name (database_oid pg m name s).0 (catalog (database_oid pg m name s).1)) e
        (database_oid_reads pg catalog law m name s))

  -- The last step: a plan with the identifiers that were read.
  planned :
      (p : Plan) (s : S)
      → catalog s ≡ c
      → IsReady incoming target c p
      → Planned (checked_plan hexdigest p, s)
  planned p s e r =
      (e, λ q h. subst (IsReady incoming target c) (sym (checked_plan-same hexdigest p q h)) r)

  plan-Planned :
      (cutover_id m : String) (s : S)
      → catalog s ≡ c
      → Planned (plan_database_cutover hexdigest pg incoming target cutover_id m s)
  unfolding plan_database_cutover
  plan-Planned cutover_id m s e =
      after_check (validate_database_name incoming "incoming_db") _ s e λ _ _.
        after_check (validate_database_name target "target_db") _ s e λ _ _.
          after_check (validate_database_name m "maintenance_db") _ s e λ _ _.
            after_check (reject_if (incoming == target) same_names) _ s e λ _ names.
              after_check (database_cutover_aside_name hexdigest target incoming cutover_id) _ s e
                λ aside _.
                  after_check (reject_if (among m incoming target aside) maintenance) _ s e λ _ _.
                    after_oid m incoming _ s e λ found s1 e1 at_incoming.
                      after_check (require_present incoming found) _ s1 e1 λ oid there.
                        after_oid m target _ s1 e1 λ target_oid s2 e2 at_target.
                          after_oid m aside _ s2 e2 λ aside_oid s3 e3 at_aside.
                            after_check (reject_if (is_some aside_oid) occupied) _ s3 e3 λ _ free.
                              after_check (reject_if (opt_eqb target_oid (some oid)) same_oids) _ s3
                                e3
                                λ _ other. planned _ s3 e3 (record {
                                  incoming_name = refl;
                                  target_name = refl;
                                  at = (
                                    at_incoming ∙ present incoming found there,
                                    at_target,
                                    at_aside
                                        ∙ no_oid aside_oid
                                            (passed (is_some aside_oid) occupied free),
                                  );
                                  incoming_target =
                                      not_equal incoming target
                                        (passed (incoming == target) same_names names);
                                  aside_incoming = λ q. cc (
                                    ap c q,
                                    at_incoming,
                                    present incoming found there,
                                    at_aside,
                                    no_oid aside_oid (passed (is_some aside_oid) occupied free),
                                  );
                                  aside_target = λ q r. ground (
                                    arith,
                                    q,
                                    ap c r,
                                    at_target,
                                    at_aside,
                                    no_oid aside_oid (passed (is_some aside_oid) occupied free),
                                  );
                                  distinct = λ q. cc (
                                    passed (opt_eqb target_oid (some oid)) same_oids other,
                                    (opt_eqb_iff target_oid (some oid)).1 q,
                                  );
                                })
    where
      same_names : Failure
      same_names = value_error "incoming_db must differ from target_db"

      maintenance : Failure
      maintenance = value_error "maintenance_db must be separate from cutover databases"

      occupied : Failure
      occupied =
          runtime_error "Cutover aside database is already occupied; refusing to overwrite it"

      same_oids : Failure
      same_oids = runtime_error "Incoming and target database OIDs unexpectedly match"

-- Planning changes no database, whatever it returns or raises.
pub plan_database_cutover-keeps :
    (hexdigest : String → String) {S : Type 0} (pg : Adapter S) (catalog : S → Catalog)
    (incoming target cutover_id m : String) (s : S)
    → IsPostgres pg catalog
    → catalog (plan_database_cutover hexdigest pg incoming target cutover_id m s).1 ≡ catalog s
plan_database_cutover-keeps hexdigest pg catalog incoming target cutover_id m s law =
    (plan-Planned hexdigest pg catalog law incoming target (catalog s) cutover_id m s refl).0

-- A plan that is returned is for the two names that were given, which differ; the databases are in
-- its ready phase, with distinct identifiers, and its name for the old database is that of neither:
-- not of the incoming one, and not of the target where that exists.
pub plan_database_cutover-IsReady :
    (hexdigest : String → String) {S : Type 0} (pg : Adapter S) (catalog : S → Catalog)
    (incoming target cutover_id m : String) (s : S) (p : Plan)
    → IsPostgres pg catalog
    → (plan_database_cutover hexdigest pg incoming target cutover_id m s).0 ≡ ok p
    → IsReady incoming target (catalog s) p
plan_database_cutover-IsReady hexdigest pg catalog incoming target cutover_id m s p law h =
    (plan-Planned hexdigest pg catalog law incoming target (catalog s) cutover_id m s refl).1 p h
