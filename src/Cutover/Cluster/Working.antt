-- ===== src/Cutover/Cluster/Working.antt =====
-- The scripted cluster without a script meets no failure.
use odooctl.Prelude.{
  ℕ, String, ◌≡◌, refl, sym, ap, subst, ◌∙◌, true, Option, none, some, [], update, Bool-cases, inl,
  inr, some_cancel, ◌==◌, if◌then◌else◌,
}
use odooctl.Prelude.Results.{ok}
use odooctl.Cutover.Postgres.{Catalog, rename, moved, Scalar, absent, integer}
use odooctl.Cutover.Postgres.Working.{IsWorking}
use odooctl.Cutover.Cluster.{
  Cluster, fine, next_fault, rest_of, renaming, effect, perform, answered, took_effect, valid_oid,
  shown, cluster, cluster_psql, cluster_scalar,
}

abbrev pub HasOids : Catalog → Type 0
HasOids c = (name : String) (oid : ℕ) → c name ≡ some oid → valid_oid oid ≡ true

abbrev pub IsUnscripted : Cluster → Type 0
IsUnscripted s = (s.script ≡ []) × HasOids s.databases

shown-fine :
    (o : Option ℕ)
    → ((oid : ℕ) → o ≡ some oid → valid_oid oid ≡ true)
    → (v : Scalar) × (shown o fine ≡ ok v)
unfolding shown
shown-fine none h = (absent, refl)
shown-fine (some oid) h = (integer oid, rw (h oid refl) refl)

update-HasOids :
    (c : Catalog) (k : String) (v : Option ℕ)
    → HasOids c
    → ((oid : ℕ) → v ≡ some oid → valid_oid oid ≡ true)
    → HasOids (update c k v)
update-HasOids c k v h hv name oid e = elim (Bool-cases (k == name)) [
  | inl same ↦ hv oid (rw same at e)
  | inr differs ↦ h name oid (rw differs at e)
]

moved-HasOids :
    (c : Catalog) (old new : String) (oid : ℕ)
    → HasOids c
    → c old ≡ some oid
    → HasOids (moved c old new oid)
moved-HasOids c old new oid h there =
    update-HasOids (update c old none) new (some oid) (update-HasOids c old none h (λ x e. cc))
      (λ x e. subst (λ n. valid_oid n ≡ true) (some_cancel e) (h old oid there))

-- A command that has an effect.
perform-IsUnscripted :
    (o : Option Catalog) (c : Catalog) (s : Cluster)
    → o ≡ some c
    → s.script ≡ []
    → HasOids c
    → ((perform o (next_fault s.script) s).0 ≡ ok tt)
      × IsUnscripted (perform o (next_fault s.script) s).1
unfolding perform
perform-IsUnscripted none c s e plain h = cc
perform-IsUnscripted (some c') c s e plain h = (
  ap (λ f. answered (next_fault f)) plain,
  (
    ap rest_of plain,
    subst (λ f. HasOids (if took_effect (next_fault f) then c' else s.databases)) (sym plain)
        (subst HasOids (sym (some_cancel e)) h),
  ),
)

pub cluster-IsWorking : IsWorking cluster (λ s. s.databases) IsUnscripted
unfolding cluster_psql cluster_scalar effect perform renaming
cluster-IsWorking = record {
  query = cluster_scalar;
  is_query = refl;
  query_works = λ m name sql s h.
      let (v, e) = shown-fine (s.databases name) (h.1 name) in
      (v, ap (λ f. shown (s.databases name) (next_fault f)) h.0 ∙ e, (ap rest_of h.0, h.1));
  terminate_works =
      λ m name sql s h. perform-IsUnscripted (some s.databases) s.databases s refl h.0 h.1;
  rename_works = λ m old new sql s oid h there free.
      perform-IsUnscripted (effect (rename old new) s.databases) (moved s.databases old new oid) s
        (rw there (rw free refl)) h.0 (moved-HasOids s.databases old new oid h.1 there);
}
