-- ===== src/Cutover/Swap/Safety.antt =====
-- A swap never loses a database that it needs.
use odooctl.Prelude.{
  ℕ, String, ◌≡◌, ◌≢◌, sym, ap, subst, ◌∙◌, ◌⊎◌, inl, inr, Bool, true, false, ==_false, is_some,
  none, some, update, if_ind,
}
use odooctl.Prelude.Exec.{Result, ok, err, Exec, pure, continue, continue_ind, ◌>>=◌}
use odooctl.Cutover.State.{Failure}
use odooctl.Cutover.Postgres.{
  Adapter, Catalog, Renamed, terminate_connections, drop_database, rename_database,
}
use odooctl.Cutover.Postgres.Outcomes.{RenameOutcome, DropOutcome}
use odooctl.Cutover.Swap.Short.{
  Fits, IsShortPostgres, TellsExistence, terminate_keeps, rename_outcome, drop_outcome,
}
use odooctl.Cutover.Swap.Places.{
  Place, whole, apart, swapped, clean, Lies, Ends, to_apart, to_swapped, to_whole, no_return,
  to_clean, left_over,
}
use odooctl.Cutover.Swap.{
  when, aside_of, drop_connected, rename_connected, when_aside, settle, swap_aside, swap_checked,
  swap_by, swap_temp_database,
}

module _ {S : Type 0} (pg : Adapter S) (catalog : S → Catalog) (law : IsShortPostgres pg catalog)
    (exists_fn : String → Exec S Failure Bool) (tells : TellsExistence exists_fn catalog)
    (m temp target : String) (temp_target : temp ≢ target) (temp_aside : temp ≢ aside_of target)
    (target_aside : target ≢ aside_of target) (temp_fits : Fits temp)
    (aside_fits : Fits (aside_of target)) (target_fits : Fits target) (t o : ℕ) where
  abbrev At : Catalog → Place → Type 0
  At = Lies temp target t o

  -- What is known of the outcome of a call.
  abbrev After : Result Failure (Unit {0}) → Catalog → Type 0
  After = Ends temp target t o

  same_place : (c c' : Catalog) (p : Place) → c' ≡ c → At c p → At c' p
  same_place c c' p e at = subst (λ d. At d p) (sym e) at

  -- A command leads from `p` to `q`; one that raises may have done so too.
  abbrev Moves : Place → Place → Result Failure (Unit {0}) → Catalog → Type 0
  Moves p q (ok u) c = At c q
  Moves p q (err e) c = At c p ⊎ At c q

  renames :
      (p q : Place) (old new : String) (c c' : Catalog) (r : Result Failure (Unit {0}))
      → (At c p → Renamed old new c c' → At c' q)
      → At c p
      → RenameOutcome c old new r c'
      → Moves p q r c'
  renames p q old new c c' (ok u) step at done = step at done
  renames p q old new c c' (err e) step at (inl same) = inl (same_place c c' p same at)
  renames p q old new c c' (err e) step at (inr done) = inr (step at done)

  drops :
      (p q : Place) (name : String) (c c' : Catalog) (r : Result Failure (Unit {0}))
      → (At c p → c' ≡ update c name none → At c' q)
      → At c p
      → DropOutcome c name r c'
      → Moves p q r c'
  drops p q name c c' (ok u) step at done = step at done
  drops p q name c c' (err e) step at (inl same) = inl (same_place c c' p same at)
  drops p q name c c' (err e) step at (inr done) = inr (step at done)

  rename-Moves :
      (p q : Place) (old new : String)
      → Fits old
      → Fits new
      → ((c c' : Catalog) → At c p → Renamed old new c c' → At c' q)
      → (s : S) → At (catalog s) p
      → Moves p q (rename_database pg m old new s).0 (catalog (rename_database pg m old new s).1)
  rename-Moves p q old new fo fn step s at =
      renames p q old new (catalog s) (catalog (rename_database pg m old new s).1)
        (rename_database pg m old new s).0
        (step (catalog s) (catalog (rename_database pg m old new s).1)) at
        (rename_outcome pg catalog law m old new s fo fn)

  rename_connected-Moves :
      (p q : Place) (old new : String)
      → Fits old
      → Fits new
      → ((c c' : Catalog) → At c p → Renamed old new c c' → At c' q)
      → (s : S) → At (catalog s) p
      → Moves p q
          (rename_connected pg m temp target old new s).0
          (catalog (rename_connected pg m temp target old new s).1)
  rename_connected-Moves p q old new fo fn step s at =
      let s' = (terminate_connections pg m old s).1 in
      let at' = same_place (catalog s) (catalog s') p (terminate_keeps pg catalog law m old s) at in
      continue_ind (λ out. Moves p q out.0 (catalog out.1)) (terminate_connections pg m old s).0
        (λ u. rename_database pg m old new) s' (λ u _. rename-Moves p q old new fo fn step s' at')
        (λ e _. inl at')

  drop_connected-Moves :
      (p q : Place) (name : String)
      → Fits name
      → ((c c' : Catalog) → At c p → c' ≡ update c name none → At c' q)
      → (s : S) → At (catalog s) p
      → Moves p q
          (drop_connected pg m temp target name s).0
          (catalog (drop_connected pg m temp target name s).1)
  drop_connected-Moves p q name f step s at =
      let s' = (terminate_connections pg m name s).1 in
      let at' =
        same_place (catalog s) (catalog s') p (terminate_keeps pg catalog law m name s) at in
      continue_ind (λ out. Moves p q out.0 (catalog out.1)) (terminate_connections pg m name s).0
        (λ u. drop_database pg m name) s'
        (λ u _.
          drops p q name (catalog s') (catalog (drop_database pg m name s').1)
            (drop_database pg m name s').0
            (step (catalog s') (catalog (drop_database pg m name s').1)) at'
            (drop_outcome pg catalog law m name s' f))
        (λ e _. inl at')

  -- Asking whether a name exists that does.
  asked :
      (P : Result Failure (Unit {0}) × S → Type 0) (name : String)
      (f : Bool → Exec S Failure (Unit {0})) (s : S) (oid : ℕ)
      → Fits name
      → catalog s name ≡ some oid
      → ((s' : S) → catalog s' ≡ catalog s → P (f true s'))
      → ((e : Failure) (s' : S) → catalog s' ≡ catalog s → P (err e, s'))
      → P ((exists_fn name >>= f) s)
  asked P name f s oid fits there kt ke =
      continue_ind P (exists_fn name s).0 f (exists_fn name s).1
        (λ b h.
          subst (λ x. P (f x (exists_fn name s).1))
            (sym (tells.answers name s b fits h ∙ ap is_some there))
            (kt (exists_fn name s).1 (tells.keeps name s)))
        (λ e h. ke e (exists_fn name s).1 (tells.keeps name s))

  abbrev Somewhere : Catalog → Type 0
  Somewhere c = (p : Place) × At c p

  moved-Somewhere :
      (p q : Place) (r : Result Failure (Unit {0})) (c : Catalog) → Moves p q r c → Somewhere c
  moved-Somewhere p q (ok u) c at = (q, at)
  moved-Somewhere p q (err e) c (inl at) = (p, at)
  moved-Somewhere p q (err e) c (inr at) = (q, at)

  moved-After :
      (p : Place) (r : Result Failure (Unit {0})) (c : Catalog) → Moves p clean r c → After r c
  moved-After p (ok u) c at = at
  moved-After p (err e) c (inl at) = (p, at)
  moved-After p (err e) c (inr at) = (clean, at)

  abbrev put_back : Exec S Failure (Unit {0})
  put_back =
      when_aside pg m temp target exists_fn true (rename_database pg m (aside_of target) target)

  put_back-Somewhere :
      (s : S) → At (catalog s) apart ⊎ At (catalog s) swapped → Somewhere (catalog (put_back s).1)
  put_back-Somewhere s (inl at) =
      asked (λ out. Somewhere (catalog out.1)) (aside_of target) _ s o aside_fits at.2
        (λ s' e. moved-Somewhere apart whole _ _ (
          rename-Moves apart whole (aside_of target) target aside_fits target_fits
            (to_whole temp target temp_target temp_aside target_aside t o) s'
            (same_place (catalog s) (catalog s') apart e at)))
        (λ _ s' e. (apart, same_place (catalog s) (catalog s') apart e at))
  put_back-Somewhere s (inr at) =
      asked (λ out. Somewhere (catalog out.1)) (aside_of target) _ s o aside_fits at.2
        (λ s' e. moved-Somewhere swapped swapped _ _ (
          rename-Moves swapped swapped (aside_of target) target aside_fits target_fits
            (no_return temp target temp_target temp_aside target_aside t o) s'
            (same_place (catalog s) (catalog s') swapped e at)))
        (λ _ s' e. (swapped, same_place (catalog s) (catalog s') swapped e at))

  settle-Ends :
      (r : Result Failure (Unit {0})) (s : S)
      → Moves apart swapped r (catalog s)
      → After
          (settle pg m temp target exists_fn true r s).0
          (catalog (settle pg m temp target exists_fn true r s).1)
  unfolding settle
  settle-Ends (ok u) s at =
      asked (λ out. After out.0 (catalog out.1)) (aside_of target) _ s o aside_fits at.2
        (λ s' e. moved-After swapped _ _ (
          drop_connected-Moves swapped clean (aside_of target) aside_fits
            (to_clean temp target temp_target temp_aside target_aside t o) s'
            (same_place (catalog s) (catalog s') swapped e at)))
        (λ _ s' e. (swapped, same_place (catalog s) (catalog s') swapped e at))
  settle-Ends (err x) s at =
      let there = put_back-Somewhere s at in
      continue_ind (λ out. After out.0 (catalog out.1)) (put_back s).0 _ (put_back s).1
        (λ u _. there) (λ y _. there)

  continue-Moves :
      (p q : Place) (r : Result Failure (Unit {0})) (s : S)
      (f : Unit {0} → Exec S Failure (Unit {0}))
      → Moves p q r (catalog s)
      → (At (catalog s) q → After (f tt s).0 (catalog (f tt s).1))
      → After (continue r f s).0 (catalog (continue r f s).1)
  continue-Moves p q (ok u) s f at k = k at
  continue-Moves p q (err e) s f (inl at) k = (p, at)
  continue-Moves p q (err e) s f (inr at) k = (q, at)

  swap_aside-Ends :
      (s : S)
      → At (catalog s) whole
      → After
          (swap_aside pg m temp target exists_fn true s).0
          (catalog (swap_aside pg m temp target exists_fn true s).1)
  unfolding swap_aside
  swap_aside-Ends s at =
      let first = rename_connected pg m temp target target (aside_of target) s in
      continue-Moves whole apart first.0 first.1 _
        (rename_connected-Moves whole apart target (aside_of target) target_fits aside_fits
          (to_apart temp target temp_target temp_aside target_aside t o) s at)
        (λ at1.
          let second = rename_connected pg m temp target temp target first.1 in
          settle-Ends second.0 second.1 (
            rename_connected-Moves apart swapped temp target temp_fits target_fits
              (to_swapped temp target temp_target temp_aside target_aside t o) first.1 at1))

  cleared : Exec S Failure (Unit {0})
  cleared = exists_fn (aside_of target) >>= λ left_over.
      when left_over (drop_connected pg m temp target (aside_of target))

  cleared-Moves :
      (s : S) → At (catalog s) whole → Moves whole whole (cleared s).0 (catalog (cleared s).1)
  unfolding cleared
  cleared-Moves s at =
      let s' = (exists_fn (aside_of target) s).1 in
      let at' = same_place (catalog s) (catalog s') whole (tells.keeps (aside_of target) s) at in
      continue_ind (λ out. Moves whole whole out.0 (catalog out.1))
        (exists_fn (aside_of target) s).0
        (λ b. when b (drop_connected pg m temp target (aside_of target))) s'
        (λ b _.
          if_ind {A = Exec S Failure (Unit {0})}
            (λ call. Moves whole whole (call s').0 (catalog (call s').1)) b
            (drop_connected pg m temp target (aside_of target)) (pure tt)
            (λ _.
              drop_connected-Moves whole whole (aside_of target) aside_fits
                (left_over temp target temp_target temp_aside target_aside t o) s' at')
            (λ _. at'))
        (λ e _. inl at')

  swap_checked-Ends :
      (s : S)
      → At (catalog s) whole
      → After
          (swap_checked pg m temp target exists_fn s).0
          (catalog (swap_checked pg m temp target exists_fn s).1)
  unfolding swap_checked cleared
  swap_checked-Ends s at =
      continue-Moves whole whole (cleared s).0 (cleared s).1 _ (cleared-Moves s at) (λ at1.
        asked (λ out. After out.0 (catalog out.1)) target _ (cleared s).1 o target_fits at1.1
          (λ s' e. swap_aside-Ends s' (same_place (catalog (cleared s).1) (catalog s') whole e at1))
          (λ _ s' e. (whole, same_place (catalog (cleared s).1) (catalog s') whole e at1)))

-- A swap with an adapter that tells which databases exist, into an environment that is not protected,
-- where the three names differ and none is too long for PostgreSQL (the aside name is the target's
-- with ten more bytes), both databases are there, and any command may fail, or take effect and report
-- a failure: both databases are always kept until the new one has the live name, each under a name of
-- the swap; and a swap that returns has put the new database in place and removed the old one.
pub swap_temp_database-Ends :
    {S : Type 0} (pg : Adapter S) (catalog : S → Catalog) (exists_fn : String → Exec S Failure Bool)
    (m temp target environment : String) (is_protected : String → Bool) (t o : ℕ) (s : S)
    → IsShortPostgres pg catalog
    → TellsExistence exists_fn catalog
    → pg.database_exists ≡ some exists_fn
    → is_protected environment ≡ false
    → temp ≢ target
    → temp ≢ aside_of target
    → target ≢ aside_of target
    → Fits temp
    → Fits (aside_of target)
    → Fits target
    → catalog s temp ≡ some t
    → catalog s target ≡ some o
    → Ends temp target t o
        (swap_temp_database pg m temp target (some is_protected) environment s).0
        (catalog (swap_temp_database pg m temp target (some is_protected) environment s).1)
unfolding swap_temp_database
swap_temp_database-Ends pg catalog exists_fn m temp target environment is_protected t o s law tells
      has unprotected temp_target temp_aside target_aside temp_fits aside_fits target_fits at_temp
      at_target =
    rw (unprotected, ==_false temp target temp_target)
      (subst
        (λ x.
          Ends temp target t o (swap_by pg m temp target x s).0
            (catalog (swap_by pg m temp target x s).1))
        (sym has)
        (swap_checked-Ends pg catalog law exists_fn tells m temp target temp_target temp_aside
          target_aside temp_fits aside_fits target_fits t o s (at_temp, at_target)))
