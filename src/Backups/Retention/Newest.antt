-- ===== src/Backups/Retention/Newest.antt =====
-- The order of the candidates.
use odooctl.Prelude.{
  ◌≤◌, ◌≡◌, refl, sym, subst, true, false, List, [], ◌∷◌, All, arith, Bool-cases, inl, inr, if_ind,
}
use odooctl.Backups.Retention.{Manifest, not_before, insert_by, sort_by}

abbrev pub AreNoLater : Manifest → List Manifest → Type 0
AreNoLater c ms = All (λ m. m.timestamp ≤ c.timestamp) ms

AreNoLater-later :
    (c d : Manifest) (ms : List Manifest)
    → d.timestamp ≤ c.timestamp
    → AreNoLater d ms
    → AreNoLater c ms
AreNoLater-later c d [] le a = tt
AreNoLater-later c d (m ∷ ms) le a = (omega (arith, a.0, le), AreNoLater-later c d ms le a.1)

not_before-le : (m n : Manifest) → not_before m n ≡ true → n.timestamp ≤ m.timestamp
not_before-le m n h = ground (arith, h)

not_before-ge : (m n : Manifest) → not_before m n ≡ false → m.timestamp ≤ n.timestamp
not_before-ge m n h = ground (arith, h)

abbrev head_or : Manifest → List Manifest → Manifest
head_or m [] = m
head_or m (c ∷ cs) = c

-- The first of a list with one more, by the first before.
insert_by-AreNoLater :
    (m : Manifest) (sorted ms : List Manifest)
    → (sorted ≡ [] → ms ≡ [])
    → ((c : Manifest) (cs : List Manifest) → sorted ≡ c ∷ cs → AreNoLater c ms)
    → AreNoLater (head_or m (insert_by not_before m sorted)) (m ∷ ms)
insert_by-AreNoLater m [] ms empty first = (omega arith, subst (AreNoLater m) (sym (empty refl)) tt)
insert_by-AreNoLater m (d ∷ ds) ms empty first =
    if_ind (λ s. AreNoLater (head_or m s) (m ∷ ms)) (not_before m d) (m ∷ d ∷ ds)
      (d ∷ insert_by not_before m ds)
      (λ before.
        (omega arith, AreNoLater-later m d ms (not_before-le m d before) (first d ds refl)))
      (λ after. (not_before-ge m d after, first d ds refl))

insert_by-cons :
    (m : Manifest) (sorted : List Manifest) → insert_by not_before m sorted ≡ [] → m ∷ [] ≡ []
insert_by-cons m [] h = h
insert_by-cons m (d ∷ ds) h = elim (Bool-cases (not_before m d)) [
  | inl before ↦ cc (rw before at h)
  | inr after ↦ cc (rw after at h)
]

sort_by-empty : (ms : List Manifest) → sort_by not_before ms ≡ [] → ms ≡ []
sort_by-empty [] h = refl
sort_by-empty (m ∷ ms) h = cc (insert_by-cons m (sort_by not_before ms) h)

-- No member of a list is later than the first of what `sorted(..., reverse=True)` makes of it.
pub sort_by-AreNoLater :
    (ms : List Manifest) (c : Manifest) (cs : List Manifest)
    → sort_by not_before ms ≡ c ∷ cs
    → AreNoLater c ms
sort_by-AreNoLater [] c cs h = tt
sort_by-AreNoLater (m ∷ ms) c cs h =
    subst (λ s. AreNoLater (head_or m s) (m ∷ ms)) h
      (insert_by-AreNoLater m (sort_by not_before ms) ms (sort_by-empty ms)
        (λ d ds e. sort_by-AreNoLater ms d ds e))
