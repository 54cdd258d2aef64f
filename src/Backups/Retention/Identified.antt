-- ===== src/Backups/Retention/Identified.antt =====
-- What retention takes for a backup.
use Prim.Native.String.{◌++◌ as ◌+++◌}
use odooctl.Prelude.{
  String, ◌≡◌, refl, sym, ap, ◌∙◌, Bool, true, false, not, ◌||◌, eq_iff, Option, none, some, List,
  [], ◌∷◌, ◌++◌, arith, Bool-cases, inl, inr, ◌⊎◌,
}
use odooctl.Backups.Retention.{
  Manifest, Entry, starts_with, is_published_backup_dir, accepted, candidate_of, collected, ids_of,
}
use odooctl.Backups.Retention.Safety.{has, has-append}

-- A published directory of the environment, with a readable manifest of its own name, of the same
-- environment and project, and complete.
abbrev pub IsIdentified : String → String → String → Entry → Type 0
IsIdentified environment project x e =
    (e.name ≡ x)
    × (is_published_backup_dir e ≡ true)
    × (starts_with (environment +++ "_") e.name ≡ true)
    × ((m : Manifest) × (e.manifest ≡ some m)
        × (m.backup_id ≡ x)
        × (m.environment ≡ environment)
        × (m.project ≡ project)
        × (m.status ≡ "complete"))

abbrev pub Identified : String → String → String → List Entry → Type 0
Identified environment project x [] = ⊥
Identified environment project x (e ∷ es) =
    IsIdentified environment project x e ⊎ Identified environment project x es

accepted-IsIdentified :
    (environment project x : String) (e : Entry) (o : Option Manifest)
    → e.manifest ≡ o
    → is_published_backup_dir e ≡ true
    → starts_with (environment +++ "_") e.name ≡ true
    → has x (ids_of (accepted environment (some project) e.name o)) ≡ true
    → IsIdentified environment project x e
accepted-IsIdentified environment project x e none there dir named h = cc
accepted-IsIdentified environment project x e (some m) there dir named h =
    let (id, environment', project', status, same) = facts in
    (sym id ∙ same, dir, named, (m, there, same, environment', project', status))
  where
    facts :
        (m.backup_id ≡ e.name)
        × (m.environment ≡ environment)
        × (m.project ≡ project)
        × (m.status ≡ "complete")
        × (m.backup_id ≡ x)
    facts = ground (
      arith,
      h,
      eq_iff m.backup_id e.name,
      eq_iff m.environment environment,
      eq_iff m.project project,
      eq_iff m.status "complete",
      eq_iff m.backup_id x,
    )

or_right : (a b : Bool) → (a || b) ≡ true → a ≡ false → b ≡ true
or_right a b h k = ground arith

not-false : (b : Bool) → not b ≡ false → b ≡ true
not-false b h = ground arith

candidate_of-IsIdentified :
    (environment project x : String) (e : Entry)
    → has x (ids_of (candidate_of environment (some project) e)) ≡ true
    → IsIdentified environment project x e
unfolding candidate_of
candidate_of-IsIdentified environment project x e h =
    elim (Bool-cases (not (is_published_backup_dir e))) [
      | inl bad ↦ cc (rw bad at h)
      | inr dir ↦ elim (Bool-cases (not (starts_with (environment +++ "_") e.name))) [
        | inl foreign ↦ cc (rw (dir, foreign) at h)
        | inr named ↦
            accepted-IsIdentified environment project x e e.manifest refl (not-false _ dir)
              (not-false _ named) (rw (dir, named) at h)
      ]
    ]

ids_of-append : (ms ns : List Manifest) → ids_of (ms ++ ns) ≡ ids_of ms ++ ids_of ns
ids_of-append [] ns = refl
ids_of-append (m ∷ ms) ns = ap (λ is. m.backup_id ∷ is) (ids_of-append ms ns)

pub collected-Identified :
    (environment project x : String) (es : List Entry)
    → has x (ids_of (collected environment (some project) es)) ≡ true
    → Identified environment project x es
collected-Identified environment project x [] h = cc
collected-Identified environment project x (e ∷ es) h =
    elim (Bool-cases (has x (ids_of (candidate_of environment (some project) e)))) [
      | inl here ↦ inl (candidate_of-IsIdentified environment project x e here)
      | inr away ↦ inr (collected-Identified environment project x es (later away))
    ]
  where
    later :
        has x (ids_of (candidate_of environment (some project) e)) ≡ false
        → has x (ids_of (collected environment (some project) es)) ≡ true
    later away =
        let split =
          ap (has x) (
            ids_of-append (candidate_of environment (some project) e)
              (collected environment (some project) es))
          ∙ has-append x (ids_of (candidate_of environment (some project) e))
              (ids_of (collected environment (some project) es)) in
        or_right _ _ (sym split ∙ h) away
