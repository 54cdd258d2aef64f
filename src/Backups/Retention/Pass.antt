-- ===== src/Backups/Retention/Pass.antt =====
-- What a pass of retention removes, and where it leaves the metadata.
use odooctl.Prelude.{
  ℕ, ◌+◌, ◌*◌, ◌<◌, String, ◌≡◌, refl, sym, subst, ◌∙◌, true, false, not, ◌&&◌, ◌==◌, eq_refl,
  Option, none, some, some_cancel, List, [], ◌∷◌, filter, any, leb, arith, Bool-cases, inl, inr,
  if_ind, lt→ltb,
}
use odooctl.Backups.Retention.{
  Manifest, Entry, Policy, not_before, sort_by, collected, backup_candidates, is_in, ids_of, newest,
  retained_ids, surviving, fresh_ids, latest_of, select_gfs_candidates, prune_backups_gfs,
}
use odooctl.Backups.Retention.Newest.{AreNoLater, sort_by-AreNoLater}
use odooctl.Backups.Retention.Identified.{Identified, collected-Identified}
use odooctl.Backups.Retention.Safety.{has, has-left, has-right, has-dropped, has-sort, has-filter}

kept_newest :
    (policy : Policy) (c : Manifest) (cs : List Manifest)
    → policy.keep_latest ≡ true
    → has c.backup_id (retained_ids policy (c ∷ cs)) ≡ true
kept_newest policy c cs keep = has-left c.backup_id _ _ (
    has-left c.backup_id _ _ (
      has-left c.backup_id (ids_of (newest policy.keep_latest (c ∷ cs))) _
        (rw keep (rw (eq_refl c.backup_id) refl))))

selected_newest :
    (policy : Policy) (c : Manifest) (cs : List Manifest)
    → policy.keep_latest ≡ true
    → has c.backup_id (ids_of (select_gfs_candidates policy (c ∷ cs))) ≡ true
unfolding select_gfs_candidates
selected_newest policy c cs keep =
    if_ind (λ ms. has c.backup_id (ids_of ms) ≡ true) (is_in (retained_ids policy (c ∷ cs)) c)
      (c ∷ filter (is_in (retained_ids policy (c ∷ cs))) cs)
      (filter (is_in (retained_ids policy (c ∷ cs))) cs) (λ _. rw (eq_refl c.backup_id) refl)
      (λ out. cc (out, kept_newest policy c cs keep))

fresh_lem :
    (x : String) (grace_hours now : ℕ) (cs : List Manifest)
    → any (λ c. (c.backup_id == x) && leb now (c.published_at + grace_hours * 3_600_000_000)) cs
      ≡ true
    → has x (ids_of (filter (λ c. leb now (c.published_at + grace_hours * 3_600_000_000)) cs))
      ≡ true
fresh_lem x grace_hours now [] h = h
fresh_lem x grace_hours now (c ∷ cs) h = ground (arith, h, fresh_lem x grace_hours now cs)

head_kept :
    (kept : List String) (cs : List Manifest) (x : String)
    → latest_of none (filter (is_in kept) cs) ≡ some x
    → has x kept ≡ true
head_kept kept [] x h = cc
head_kept kept (c ∷ cs) x h = elim (Bool-cases (is_in kept c)) [
  | inl here ↦ subst (λ y. has y kept ≡ true) (some_cancel (rw here at h)) here
  | inr away ↦ head_kept kept cs x (rw away at h)
]

module _ (policy : Policy) (environment project : String) (protected : List String)
    (latest : Option String) (grace_hours now : ℕ) (entries : List Entry) where
  abbrev removed : List String
  unfolding prune_backups_gfs
  removed =
      (prune_backups_gfs policy environment project protected latest grace_hours now
        entries).removed

  abbrev found : List Manifest
  found = backup_candidates environment (some project) entries

  spares :
      (x : String)
      → has x (surviving policy protected grace_hours now found) ≡ true
      → has x
          (prune_backups_gfs policy environment project protected latest grace_hours now
            entries).removed
        ≡ false
  unfolding prune_backups_gfs
  spares x h =
      has-dropped x (surviving policy protected grace_hours now found)
        (sort_by (λ m n. not_before n m) found) h

  -- A backup that is protected is never removed.
  pub prune_backups_gfs-protected :
      (x : String)
      → has x protected ≡ true
      → has x
          (prune_backups_gfs policy environment project protected latest grace_hours now
            entries).removed
        ≡ false
  prune_backups_gfs-protected x h =
      spares x
        (has-right x (ids_of (select_gfs_candidates policy found)) _ (has-left x protected _ h))

  -- Where the latest backup is kept, the first candidate is never removed, whatever the counts are,
  -- and it is the newest: no directory that retention has identified has a later timestamp.
  pub prune_backups_gfs-latest :
      (c : Manifest) (cs : List Manifest)
      → policy.keep_latest ≡ true
      → backup_candidates environment (some project) entries ≡ c ∷ cs
      → (has c.backup_id
            (prune_backups_gfs policy environment project protected latest grace_hours now
              entries).removed
          ≡ false)
        × AreNoLater c (collected environment (some project) entries)
  unfolding select_gfs_candidates backup_candidates
  prune_backups_gfs-latest c cs keep e = (
    spares c.backup_id (
        has-left c.backup_id (ids_of (select_gfs_candidates policy found)) _ (
          subst (λ ms. has c.backup_id (ids_of (select_gfs_candidates policy ms)) ≡ true) (sym e)
            (selected_newest policy c cs keep))),
    sort_by-AreNoLater (collected environment (some project) entries) c cs e,
  )

  -- Within the hours of grace after its publication, no backup is removed.
  pub prune_backups_gfs-fresh :
      (x : String)
      → 0 < grace_hours
      → any
          (λ c. (c.backup_id == x) && leb now (c.published_at + grace_hours * 3_600_000_000))
          (backup_candidates environment (some project) entries)
        ≡ true
      → has x
          (prune_backups_gfs policy environment project protected latest grace_hours now
            entries).removed
        ≡ false
  prune_backups_gfs-fresh x pos h = spares x (
      has-right x (ids_of (select_gfs_candidates policy found)) _ (
        has-right x protected (fresh_ids grace_hours now found)
          (rw (lt→ltb 0 grace_hours pos) (fresh_lem x grace_hours now found h))))

  -- What is removed is a published directory that retention has identified: with a readable manifest
  -- of the same name, environment and project, whose status is "complete".
  pub prune_backups_gfs-Identified :
      (x : String)
      → has x
          (prune_backups_gfs policy environment project protected latest grace_hours now
            entries).removed
        ≡ true
      → Identified environment project x entries
  unfolding prune_backups_gfs backup_candidates
  prune_backups_gfs-Identified x h =
      let among =
        has-filter x (λ c. not (is_in (surviving policy protected grace_hours now found) c))
          (sort_by (λ m n. not_before n m) found) h in
      collected-Identified environment project x entries (
        sym (has-sort x not_before (collected environment (some project) entries))
        ∙ (sym (has-sort x (λ m n. not_before n m) found) ∙ among))

module _ (policy : Policy) (environment project : String) (protected : List String)
    (grace_hours now : ℕ) (entries : List Entry) where
  -- Where the caller names no latest backup, the metadata is told one that the same pass spares.
  pub prune_backups_gfs-pointer :
      (x : String)
      → (prune_backups_gfs policy environment project protected none grace_hours now
          entries).synchronized.1
        ≡ some x
      → has x
          (prune_backups_gfs policy environment project protected none grace_hours now
            entries).removed
        ≡ false
  unfolding prune_backups_gfs
  prune_backups_gfs-pointer x h =
      let kept =
        surviving policy protected grace_hours now
          (backup_candidates environment (some project) entries) in
      has-dropped x kept
        (sort_by (λ m n. not_before n m) (backup_candidates environment (some project) entries))
        (head_kept kept (backup_candidates environment (some project) entries) x h)
