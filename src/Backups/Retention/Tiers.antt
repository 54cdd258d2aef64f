-- ===== src/Backups/Retention/Tiers.antt =====
-- A tier keeps the newest backup of each of the newest periods.
use odooctl.Prelude.{
  ℕ, zero, suc, ◌+◌, ◌<◌, ◌≡◌, refl, sym, ap, subst, ◌∙◌, Bool, true, false, not, List, [], ◌∷◌,
  filter, take, length, eqb, eqb_iff, leb, le→leb, if◌then◌else◌, arith, Bool-cases, inl, inr,
}
use odooctl.Backups.Retention.{Manifest, has_bucket, retain_from, retain_periods}

gt→leb : (a b : ℕ) → b < a → leb a b ≡ false
gt→leb a b h = ground arith

module _ (bucket_for : ℕ → ℕ) where
  -- Not of the period `x`.
  abbrev pub differs : ℕ → Manifest → Bool
  differs x c = not (eqb x (bucket_for c.timestamp))

  -- The first candidate of each period.
  abbrev pub first_of_each : List Manifest → List Manifest
  first_of_each [] = []
  first_of_each (c ∷ cs) = c ∷ filter (differs (bucket_for c.timestamp)) (first_of_each cs)

  abbrev unselected : List ℕ → List Manifest → List Manifest
  unselected selected cs = filter (λ c. not (has_bucket (bucket_for c.timestamp) selected)) cs

  unselected-differs :
      (x : ℕ) (selected : List ℕ) (cs : List Manifest)
      → has_bucket x selected ≡ true
      → unselected selected (filter (differs x) cs) ≡ unselected selected cs
  unselected-differs x selected [] h = refl
  unselected-differs x selected (c ∷ cs) h = elim (Bool-cases (eqb x (bucket_for c.timestamp))) [
    | inl same ↦
        rw (same, subst (λ b. has_bucket b selected ≡ true) ((eqb_iff _ _).0 same) h)
          (unselected-differs x selected cs h)
    | inr other ↦ rw other (ground (arith, unselected-differs x selected cs h))
  ]

  unselected-cons :
      (x : ℕ) (selected : List ℕ) (cs : List Manifest)
      → unselected (x ∷ selected) cs ≡ unselected selected (filter (differs x) cs)
  unselected-cons x selected [] = refl
  unselected-cons x selected (c ∷ cs) = ground (arith, unselected-cons x selected cs)

  unselected-nil : (cs : List Manifest) → unselected [] cs ≡ cs
  unselected-nil [] = refl
  unselected-nil (c ∷ cs) = ap (λ ds. c ∷ ds) (unselected-nil cs)

  -- `k` more periods may be selected after the one that is selected now.
  after_selection :
      (count : ℕ) (selected : List ℕ) (rest ds : List Manifest) (k : ℕ)
      → count ≡ suc k + length selected
      → ((j : ℕ) → k ≡ suc j → rest ≡ take (suc j) ds)
      → (if leb count (suc (length selected)) then [] else rest) ≡ take k ds
  after_selection count selected rest ds zero room h =
      rw (le→leb count (suc (length selected)) (omega (arith, room))) refl
  after_selection count selected rest ds (suc j) room h =
      rw (gt→leb count (suc (length selected)) (omega (arith, room))) (h j refl)

  retain_from_lem :
      (count : ℕ) (selected : List ℕ) (cs : List Manifest) (k : ℕ)
      → count ≡ suc k + length selected
      → retain_from count bucket_for selected cs
        ≡ take (suc k) (unselected selected (first_of_each cs))
  retain_from_lem count selected [] k room = refl
  retain_from_lem count selected (c ∷ cs) k room =
      let b = bucket_for c.timestamp in
      elim (Bool-cases (has_bucket b selected)) [
        | inl old ↦ rw old (
            retain_from_lem count selected cs k room
            ∙ ap (take (suc k)) (sym (unselected-differs b selected (first_of_each cs) old)))
        | inr new ↦ rw new (
            ap (λ ds. c ∷ ds)
              (after_selection count selected (retain_from count bucket_for (b ∷ selected) cs)
                (unselected selected (filter (differs b) (first_of_each cs))) k room
                (λ j e.
                  retain_from_lem count (b ∷ selected) cs j (omega (arith, e, room))
                  ∙ ap (take (suc j)) (unselected-cons b selected (first_of_each cs)))))
      ]

  -- A tier is the first `count` of the newest candidates of each period, in a list with the newest
  -- first: the loop and its early end keep no other, and miss none.
  pub retain_periods-take :
      (count : ℕ) (cs : List Manifest)
      → retain_periods count bucket_for cs ≡ take count (first_of_each cs)
  unfolding retain_periods
  retain_periods-take zero cs = refl
  retain_periods-take (suc k) cs = rw (gt→leb (suc k) 0 (omega arith)) (
      retain_from_lem (suc k) [] cs k (omega arith)
      ∙ ap (take (suc k)) (unselected-nil (first_of_each cs)))
