-- ===== src/Cutover/Swap/Places.antt =====
-- Where the two databases of a swap are, and which commands lead from one place to another.
use odooctl.Prelude.{
  ℕ, String, ◌≡◌, ◌≢◌, sym, ap, ◌∙◌, Option, none, some, update, update_self, update_ne,
}
use odooctl.Prelude.Exec.{Result, ok, err}
use odooctl.Cutover.State.{Failure}
use odooctl.Cutover.Postgres.{Catalog, Renamed}
use odooctl.Cutover.Phases.{at_new, at_old, at_other}
use odooctl.Cutover.Swap.{aside_of}

-- Where the new database `t` and the live one `o` are.
pub data Place : Type 0 where
  whole apart swapped clean : Place

abbrev pub Lies : String → String → ℕ → ℕ → Catalog → Place → Type 0
Lies temp target t o c whole = (c temp ≡ some t) × (c target ≡ some o)
Lies temp target t o c apart =
    (c temp ≡ some t) × (c target ≡ none) × (c (aside_of target) ≡ some o)
Lies temp target t o c swapped =
    (c temp ≡ none) × (c target ≡ some t) × (c (aside_of target) ≡ some o)
Lies temp target t o c clean = (c temp ≡ none) × (c target ≡ some t) × (c (aside_of target) ≡ none)

-- However a swap ends, both databases are in one of the four places; one that returns has swapped.
abbrev pub Ends : String → String → ℕ → ℕ → Result Failure (Unit {0}) → Catalog → Type 0
Ends temp target t o (ok u) c = Lies temp target t o c clean
Ends temp target t o (err e) c = (p : Place) × Lies temp target t o c p

module _ (temp target : String) (temp_target : temp ≢ target) (temp_aside : temp ≢ aside_of target)
    (target_aside : target ≢ aside_of target) (t o : ℕ) where
  abbrev At : Catalog → Place → Type 0
  At = Lies temp target t o

  pub to_apart : (c c' : Catalog) → At c whole → Renamed target (aside_of target) c c' → At c' apart
  to_apart c c' (a, b) (oid, x, y, e) = (
    at_other c c' target (aside_of target) oid e temp (λ q. temp_target (sym q))
          (λ q. temp_aside (sym q))
        ∙ a,
    at_old c c' target (aside_of target) oid e (λ q. target_aside (sym q)),
    at_new c c' target (aside_of target) oid e ∙ (sym x ∙ b),
  )

  pub to_swapped : (c c' : Catalog) → At c apart → Renamed temp target c c' → At c' swapped
  to_swapped c c' (a, b, d) (oid, x, y, e) = (
    at_old c c' temp target oid e (λ q. temp_target (sym q)),
    at_new c c' temp target oid e ∙ (sym x ∙ a),
    at_other c c' temp target oid e (aside_of target) temp_aside target_aside ∙ d,
  )

  pub to_whole : (c c' : Catalog) → At c apart → Renamed (aside_of target) target c c' → At c' whole
  to_whole c c' (a, b, d) (oid, x, y, e) = (
    at_other c c' (aside_of target) target oid e temp (λ q. temp_aside (sym q))
          (λ q. temp_target (sym q))
        ∙ a,
    at_new c c' (aside_of target) target oid e ∙ (sym x ∙ d),
  )

  pub no_return :
      (c c' : Catalog) → At c swapped → Renamed (aside_of target) target c c' → At c' swapped
  no_return c c' (a, b, d) (oid, x, y, e) = absurd (occupied (sym b ∙ y))
    where
      occupied : Path (Option ℕ) (some t) none → ⊥
      occupied q = cc

  pub to_clean :
      (c c' : Catalog) → At c swapped → c' ≡ update c (aside_of target) none → At c' clean
  to_clean c c' (a, b, d) e = (
    ap (λ f. f temp) e ∙ (update_ne c (aside_of target) none temp (λ q. temp_aside (sym q)) ∙ a),
    ap (λ f. f target) e
        ∙ (update_ne c (aside_of target) none target (λ q. target_aside (sym q)) ∙ b),
    ap (λ f. f (aside_of target)) e ∙ update_self c (aside_of target) none,
  )

  pub left_over : (c c' : Catalog) → At c whole → c' ≡ update c (aside_of target) none → At c' whole
  left_over c c' (a, b) e = (
    ap (λ f. f temp) e ∙ (update_ne c (aside_of target) none temp (λ q. temp_aside (sym q)) ∙ a),
    ap (λ f. f target) e
        ∙ (update_ne c (aside_of target) none target (λ q. target_aside (sym q)) ∙ b),
  )
