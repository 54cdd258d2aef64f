-- ===== src/Backups/Retention/Safety.antt =====
-- What a retention pass never removes.
use odooctl.Prelude.{
  String, ◌≡◌, refl, sym, ap, subst, ◌∙◌, Bool, true, false, not, ◌||◌, ◌==◌, eq_iff, List, [], ◌∷◌,
  ◌++◌, filter, any, arith, Bool-cases, inl, inr,
}
use odooctl.Backups.Retention.{Manifest, insert_by, sort_by, is_in, ids_of}

abbrev pub has : String → List String → Bool
has x ids = any (λ i. i == x) ids

pub has-append : (x : String) (is js : List String) → has x (is ++ js) ≡ (has x is || has x js)
has-append x [] js = refl
has-append x (i ∷ is) js = ground (arith, has-append x is js)

pub has-left : (x : String) (is js : List String) → has x is ≡ true → has x (is ++ js) ≡ true
has-left x is js h = rw (has-append x is js) (rw h refl)

pub has-right : (x : String) (is js : List String) → has x js ≡ true → has x (is ++ js) ≡ true
has-right x is js h = ground (arith, has-append x is js, h)

-- What a filter drops is not among the ids that are left.
pub has-dropped :
    (x : String) (kept : List String) (ms : List Manifest)
    → has x kept ≡ true
    → has x (ids_of (filter (λ c. not (is_in kept c)) ms)) ≡ false
has-dropped x kept [] h = refl
has-dropped x kept (m ∷ ms) h = elim (Bool-cases (m.backup_id == x)) [
  | inl same ↦
      rw (subst (λ y. has y kept ≡ true) (sym ((eq_iff m.backup_id x).0 same)) h)
        (has-dropped x kept ms h)
  | inr other ↦ ground (arith, other, has-dropped x kept ms h)
]

pub has-insert :
    (x : String) (before : Manifest → Manifest → Bool) (m : Manifest) (ms : List Manifest)
    → has x (ids_of (insert_by before m ms)) ≡ has x (ids_of (m ∷ ms))
has-insert x before m [] = refl
has-insert x before m (n ∷ ms) = ground (arith, has-insert x before m ms)

pub has-sort :
    (x : String) (before : Manifest → Manifest → Bool) (ms : List Manifest)
    → has x (ids_of (sort_by before ms)) ≡ has x (ids_of ms)
has-sort x before [] = refl
has-sort x before (m ∷ ms) =
    has-insert x before m (sort_by before ms)
    ∙ ap (λ b. m.backup_id == x || b) (has-sort x before ms)

pub has-filter :
    (x : String) (p : Manifest → Bool) (ms : List Manifest)
    → has x (ids_of (filter p ms)) ≡ true
    → has x (ids_of ms) ≡ true
has-filter x p [] h = h
has-filter x p (m ∷ ms) h = ground (arith, h, has-filter x p ms)
