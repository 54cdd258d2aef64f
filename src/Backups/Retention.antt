-- ===== src/Backups/Retention.antt =====
-- Retention by days, weeks and months (odooctl/services/backup.py, `_backup_candidates`,
-- `_select_gfs_candidates`, `select_gfs_backups` and `prune_backups_gfs`). A directory is the list of
-- its entries. Counts and hours that are negative in the program act as 0 does, and times are
-- microseconds since 1970.
pub mod Tiers
pub mod Safety
pub mod Identified
pub mod Pass
pub mod Newest
use Prim.Native.Char.{code}
use Prim.Native.String.{◌++◌, compare}
use Prim.Native.Nat.{Ordering}
use odooctl.Prelude.{
  ℕ, ◌+◌, ◌*◌, String, Bool, true, false, not, ◌&&◌, ◌||◌, ◌==◌, Option, none, some, List, [], ◌∷◌,
  map, filter, any, length, ltb, leb, eqb, if◌then◌else◌,
}
use odooctl.Prelude.{◌++◌ as ◌+++◌}
use odooctl.Backups.Calendar.{day_bucket, week_bucket, month_bucket}

pub record Manifest : Type 0 where
  pub backup_id : String
  pub environment : String
  pub project : String
  pub status : String
  pub timestamp : ℕ
  pub published_at : ℕ

-- An entry of the backup directory. The manifest is `none` where there is no manifest.json that
-- reads as one, with a timestamp that reads as a time; `published_at` is the change time of that file.
pub record Entry : Type 0 where
  pub name : String
  pub is_dir : Bool
  pub is_symlink : Bool
  pub manifest : Option Manifest

unfoldable pub starts_with : String → String → Bool
starts_with String.[] s = true
starts_with (String.◌∷◌ c p) String.[] = false
starts_with (String.◌∷◌ c p) (String.◌∷◌ d s) = eqb (code c) (code d) && starts_with p s

abbrev pub is_published_backup_dir : Entry → Bool
unfolding starts_with
is_published_backup_dir e = e.is_dir && not e.is_symlink && not (starts_with ".partial-" e.name)

abbrev pub is_other_project : Option String → Manifest → Bool
is_other_project none m = false
is_other_project (some project) m = not (m.project == project)

-- The manifest of an entry that retention may touch.
abbrev pub accepted : String → Option String → String → Option Manifest → List Manifest
accepted environment project name none = []
accepted environment project name (some m) =
    if not (m.backup_id == name)
      || (not (m.environment == environment)
          || (is_other_project project m || not (m.status == "complete")))
    then []
    else m ∷ []

abbrev pub candidate_of : String → Option String → Entry → List Manifest
unfolding starts_with
candidate_of environment project e =
    if not (is_published_backup_dir e) || not (starts_with (environment ++ "_") e.name)
    then []
    else accepted environment project e.name e.manifest

-- The order of the keys `(timestamp, backup_id)`.
abbrev pub not_before : Manifest → Manifest → Bool
not_before m n =
    ltb n.timestamp m.timestamp
    || (eqb n.timestamp m.timestamp
        && elim (compare m.backup_id n.backup_id) [ Ordering.lt ↦ false | _ ↦ true ])

-- `sorted`, into a list whose first element is the greatest, or, for `removed`, the least.
abbrev pub insert_by : (Manifest → Manifest → Bool) → Manifest → List Manifest → List Manifest
insert_by before m [] = m ∷ []
insert_by before m (n ∷ ns) =
    let rest = insert_by before m ns in if before m n then m ∷ n ∷ ns else n ∷ rest

abbrev pub sort_by : (Manifest → Manifest → Bool) → List Manifest → List Manifest
sort_by before [] = []
sort_by before (m ∷ ms) = insert_by before m (sort_by before ms)

abbrev pub collected : String → Option String → List Entry → List Manifest
collected environment project [] = []
collected environment project (e ∷ es) =
    candidate_of environment project e +++ collected environment project es

-- Newest first.
unfoldable pub backup_candidates : String → Option String → List Entry → List Manifest
backup_candidates environment project entries =
    sort_by not_before (collected environment project entries)

abbrev pub has_bucket : ℕ → List ℕ → Bool
has_bucket b buckets = any (λ x. eqb x b) buckets

-- The loop of `retain_periods`; the result is the ids it adds.
abbrev pub retain_from : ℕ → (ℕ → ℕ) → List ℕ → List Manifest → List Manifest
retain_from count bucket_for selected [] = []
retain_from count bucket_for selected (c ∷ cs) =
    let bucket = bucket_for c.timestamp in
    let skipped = retain_from count bucket_for selected cs in
    let rest = retain_from count bucket_for (bucket ∷ selected) cs in
    if has_bucket bucket selected
    then skipped
    else c ∷ (if leb count (length (bucket ∷ selected)) then [] else rest)

unfoldable pub retain_periods : ℕ → (ℕ → ℕ) → List Manifest → List Manifest
retain_periods count bucket_for candidates =
    if leb count 0 then [] else retain_from count bucket_for [] candidates

abbrev pub newest : Bool → List Manifest → List Manifest
newest keep_latest [] = []
newest keep_latest (c ∷ cs) = if keep_latest then c ∷ [] else []

-- `candidate.manifest.backup_id in ids`
abbrev pub is_in : List String → Manifest → Bool
is_in ids m = any (λ i. i == m.backup_id) ids

abbrev pub ids_of : List Manifest → List String
ids_of = map (λ m. m.backup_id)

pub record Policy : Type 0 where
  pub daily : ℕ
  pub weekly : ℕ
  pub monthly : ℕ
  pub keep_latest : Bool

abbrev pub retained_ids : Policy → List Manifest → List String
retained_ids policy candidates =
    ids_of (newest policy.keep_latest candidates)
    +++ ids_of (retain_periods policy.daily day_bucket candidates)
    +++ ids_of (retain_periods policy.weekly week_bucket candidates)
    +++ ids_of (retain_periods policy.monthly month_bucket candidates)

unfoldable pub select_gfs_candidates : Policy → List Manifest → List Manifest
select_gfs_candidates policy candidates = filter (is_in (retained_ids policy candidates)) candidates

-- A candidate's path is its directory of the same name.
unfoldable pub select_gfs_backups : Policy → String → Option String → List Entry → List String
select_gfs_backups policy environment project entries =
    ids_of (select_gfs_candidates policy (backup_candidates environment project entries))

-- What a pass does: the call of `synchronize_backup_manifests`, which comes before any removal, and
-- the directories that are removed, in their order.
pub record Pruned : Type 0 where
  pub synchronized : List Manifest × Option String
  pub removed : List String

abbrev pub fresh_ids : ℕ → ℕ → List Manifest → List String
fresh_ids grace_hours now candidates =
    if ltb 0 grace_hours
    then ids_of (filter (λ c. leb now (c.published_at + grace_hours * 3_600_000_000)) candidates)
    else []

abbrev latest_of : Option String → List Manifest → Option String
latest_of (some id) retained = some id
latest_of none [] = none
latest_of none (c ∷ cs) = some c.backup_id

-- What survives a pass, by id.
abbrev pub surviving : Policy → List String → ℕ → ℕ → List Manifest → List String
surviving policy protected grace_hours now candidates =
    ids_of (select_gfs_candidates policy candidates)
    +++ (protected +++ fresh_ids grace_hours now candidates)

unfoldable pub prune_backups_gfs :
    Policy → String → String → List String → Option String → ℕ → ℕ → List Entry → Pruned
prune_backups_gfs policy environment project protected latest grace_hours now entries =
    let candidates = backup_candidates environment (some project) entries in
    let kept = surviving policy protected grace_hours now candidates in
    let retained = filter (is_in kept) candidates in
    record {
      synchronized = (retained, latest_of latest retained);
      removed =
          ids_of (filter (λ c. not (is_in kept c)) (sort_by (λ m n. not_before n m) candidates));
    }
