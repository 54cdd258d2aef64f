-- ===== src/Cutover/Phases.antt =====
-- The specification of a cutover: its phases, as facts on the databases that are there.
use odooctl.Prelude.{
  ℕ, String, ◌≡◌, refl, ◌≢◌, sym, Bool, true, false, none, some, is_some, arith, ◌∙◌, update,
  update_self, update_ne,
}
use odooctl.Cutover.State.{
  Plan, State, ready, target_moved_aside, promoted, finalized, conflict, unknown,
}
use odooctl.Cutover.Postgres.{Catalog, Renamed, moved}

-- The names of a plan are three different ones.
pub record IsPlan (plan : Plan) : Type 0 where
  pub incoming_target : plan.incoming_db ≢ plan.target_db
  pub aside_incoming : plan.aside_db ≢ plan.incoming_db
  pub aside_target : plan.aside_db ≢ plan.target_db

-- What each phase says of the databases under the three names.
abbrev pub At : Plan → Catalog → State → Type 0
At plan c ready =
    (c plan.incoming_db ≡ some plan.incoming_oid)
    × (c plan.target_db ≡ plan.target_oid)
    × (c plan.aside_db ≡ none)
At plan c target_moved_aside =
    (is_some plan.target_oid ≡ true)
    × (c plan.incoming_db ≡ some plan.incoming_oid)
    × (c plan.target_db ≡ none)
    × (c plan.aside_db ≡ plan.target_oid)
At plan c promoted =
    (c plan.incoming_db ≡ none)
    × (c plan.target_db ≡ some plan.incoming_oid)
    × (c plan.aside_db ≡ plan.target_oid)
At plan c finalized =
    (is_some plan.target_oid ≡ true)
    × (c plan.incoming_db ≡ none)
    × (c plan.target_db ≡ some plan.incoming_oid)
    × (c plan.aside_db ≡ none)
At plan c conflict = ⊥
At plan c unknown = ⊥

-- Where a promotion may lead from a phase: a database that was put in place stays there, and
-- nothing is removed.
abbrev pub can_promote : State → State → Bool
can_promote ready ready = true
can_promote ready target_moved_aside = true
can_promote ready promoted = true
can_promote target_moved_aside ready = true
can_promote target_moved_aside target_moved_aside = true
can_promote target_moved_aside promoted = true
can_promote promoted promoted = true
can_promote finalized finalized = true
can_promote _ _ = false

abbrev pub PromotesTo : State → State → Type 0
PromotesTo a b = can_promote a b ≡ true

-- Where a finalization may lead: only a promoted cutover changes.
abbrev pub can_finalize : State → State → Bool
can_finalize ready ready = true
can_finalize target_moved_aside target_moved_aside = true
can_finalize promoted promoted = true
can_finalize promoted finalized = true
can_finalize finalized finalized = true
can_finalize _ _ = false

abbrev pub FinalizesTo : State → State → Type 0
FinalizesTo a b = can_finalize a b ≡ true

-- The other databases of the cluster are as they were.
abbrev pub SameElsewhere : Plan → Catalog → Catalog → Type 0
SameElsewhere plan c c' =
    (name : String)
    → plan.incoming_db ≢ name
    → plan.target_db ≢ name
    → plan.aside_db ≢ name
    → c' name ≡ c name

module _ (c c' : Catalog) (old new : String) (oid : ℕ) (e : c' ≡ moved c old new oid) where
  pub at_new : c' new ≡ some oid
  at_new = rw e (update_self (update c old none) new (some oid))

  pub at_old : new ≢ old → c' old ≡ none
  at_old h = rw e (update_ne (update c old none) new (some oid) old h ∙ update_self c old none)

  pub at_other : (j : String) → old ≢ j → new ≢ j → c' j ≡ c j
  at_other j h k =
      rw e (update_ne (update c old none) new (some oid) j k ∙ update_ne c old none j h)

module _ (plan : Plan) (names : IsPlan plan) (c c' : Catalog) where
  open names use {incoming_target, aside_incoming, aside_target}

  -- Moving the target aside, from the phase in which the program does it.
  pub rename_target_aside :
      At plan c ready → Renamed plan.target_db plan.aside_db c c' → At plan c' target_moved_aside
  rename_target_aside at (oid, old, new, e) =
      let free = at_old c c' plan.target_db plan.aside_db oid e aside_target in
      let put = at_new c c' plan.target_db plan.aside_db oid e in
      let kept =
        at_other c c' plan.target_db plan.aside_db oid e plan.incoming_db
          (λ p. incoming_target (sym p)) aside_incoming in
      (ground (arith, at.1, old), kept ∙ at.0, free, put ∙ sym old ∙ at.1)

  pub rename_aside_back :
      At plan c target_moved_aside → Renamed plan.aside_db plan.target_db c c' → At plan c' ready
  rename_aside_back at (oid, old, new, e) =
      let free = at_old c c' plan.aside_db plan.target_db oid e (λ p. aside_target (sym p)) in
      let put = at_new c c' plan.aside_db plan.target_db oid e in
      let kept =
        at_other c c' plan.aside_db plan.target_db oid e plan.incoming_db aside_incoming
          (λ p. incoming_target (sym p)) in
      (kept ∙ at.1, put ∙ sym old ∙ at.3, free)

  pub rename_incoming :
      (st : State)
      → PromotesTo ready st
      → At plan c st
      → Renamed plan.incoming_db plan.target_db c c'
      → At plan c' promoted
  rename_incoming st h at (oid, old, new, e) =
      let free = at_old c c' plan.incoming_db plan.target_db oid e (λ p. incoming_target (sym p)) in
      let put = at_new c c' plan.incoming_db plan.target_db oid e in
      let kept =
        at_other c c' plan.incoming_db plan.target_db oid e plan.aside_db
          (λ p. aside_incoming (sym p)) (λ p. aside_target (sym p)) in
      let (was, aside) = before st h at old new in (free, put ∙ sym old ∙ was, kept ∙ aside)
    where
      before :
          (st : State)
          → PromotesTo ready st
          → At plan c st
          → {oid : ℕ} → c plan.incoming_db ≡ some oid
          → c plan.target_db ≡ none
          → (c plan.incoming_db ≡ some plan.incoming_oid) × (c plan.aside_db ≡ plan.target_oid)
      before ready h at old new = (at.0, at.2 ∙ sym new ∙ at.1)
      before target_moved_aside h at old new = (at.1, at.3)
      before promoted h at old new = cc (at.0, old)
      before finalized h at old new = cc
      before conflict h at old new = cc
      before unknown h at old new = cc

  -- Dropping the old database, from the phase in which the program does it.
  pub drop_aside_db :
      is_some plan.target_oid ≡ true
      → At plan c promoted
      → c' ≡ update c plan.aside_db none
      → At plan c' finalized × SameElsewhere plan c c'
  drop_aside_db some_target at e = (
    (
      some_target,
      rw e (update_ne c plan.aside_db none plan.incoming_db aside_incoming) ∙ at.0,
      rw e (update_ne c plan.aside_db none plan.target_db aside_target) ∙ at.1,
      rw e (update_self c plan.aside_db none),
    ),
    λ j _ _ d. rw e (update_ne c plan.aside_db none j d),
  )

  -- A rename between the three names leaves the other databases alone.
  pub Renamed-elsewhere :
      (old new : String)
      → ((j : String)
          → plan.incoming_db ≢ j
          → plan.target_db ≢ j
          → plan.aside_db ≢ j
          → (old ≢ j) × (new ≢ j))
      → Renamed old new c c'
      → SameElsewhere plan c c'
  Renamed-elsewhere old new inside (oid, _, _, e) j p q r =
      let (h, k) = inside j p q r in at_other c c' old new oid e j h k

pub PromotesTo-refl : (plan : Plan) (c : Catalog) (st : State) → At plan c st → PromotesTo st st
PromotesTo-refl plan c conflict at = absurd at
PromotesTo-refl plan c unknown at = absurd at
PromotesTo-refl plan c _ at = refl

pub PromotesTo-trans : (a b d : State) → PromotesTo a b → PromotesTo b d → PromotesTo a d
PromotesTo-trans a b d h k = ground arith

pub FinalizesTo-refl : (plan : Plan) (c : Catalog) (st : State) → At plan c st → FinalizesTo st st
FinalizesTo-refl plan c conflict at = absurd at
FinalizesTo-refl plan c unknown at = absurd at
FinalizesTo-refl plan c _ at = refl

pub FinalizesTo-trans : (a b d : State) → FinalizesTo a b → FinalizesTo b d → FinalizesTo a d
FinalizesTo-trans a b d h k = ground arith
