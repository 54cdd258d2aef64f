-- ===== src/Backups/Examples.antt =====
-- The theorems on retention at a small directory: four days of backups, one entry that is no backup.
use odooctl.Prelude.{ℕ, ◌*◌, String, ◌≡◌, refl, true, false, none, some, List, [], ◌∷◌, take, arith}
use odooctl.Backups.Calendar.{day_bucket}
use odooctl.Backups.Retention.{
  Manifest, Entry, Policy, collected, backup_candidates, retain_periods, prune_backups_gfs,
  select_gfs_candidates, starts_with,
}
use odooctl.Backups.Retention.Tiers.{first_of_each, retain_periods-take}
use odooctl.Backups.Retention.Safety.{has}
use odooctl.Backups.Retention.Identified.{Identified}
use odooctl.Backups.Retention.Newest.{AreNoLater}
use odooctl.Backups.Retention.Pass.{
  prune_backups_gfs-protected, prune_backups_gfs-latest, prune_backups_gfs-fresh,
  prune_backups_gfs-Identified,
}

abbrev made : String → ℕ → Manifest
made id time = record {
  backup_id = id;
  environment = "prod";
  project = "shop";
  status = "complete";
  timestamp = time * 1_000_000;
  published_at = time * 1_000_000;
}

abbrev kept_dir : String → ℕ → Entry
kept_dir id time = record {
  name = id;
  is_dir = true;
  is_symlink = false;
  manifest = some (made id time);
}

abbrev directory : List Entry
directory =
    kept_dir "prod_1" 1000
    ∷ kept_dir "prod_3" 180000
    ∷ record { name = "prod_x"; is_dir = true; is_symlink = false; manifest = none }
    ∷ kept_dir "prod_2" 90000
    ∷ kept_dir "prod_4" 181000
    ∷ []

abbrev policy : Policy
policy = record { daily = 1; weekly = 0; monthly = 0; keep_latest = true }

retain_periods-take_example :
    retain_periods 2 day_bucket (made "c" 181000 ∷ made "b" 180000 ∷ made "a" 90000 ∷ [])
    ≡ take 2 (first_of_each day_bucket (made "c" 181000 ∷ made "b" 180000 ∷ made "a" 90000 ∷ []))
retain_periods-take_example =
    retain_periods-take day_bucket 2 (made "c" 181000 ∷ made "b" 180000 ∷ made "a" 90000 ∷ [])

prune_backups_gfs-protected_example :
    has "prod_1"
      (prune_backups_gfs policy "prod" "shop"
        ("prod_1" ∷ [])
        none
        0
        200_000_000_000
        directory).removed
    ≡ false
prune_backups_gfs-protected_example =
    prune_backups_gfs-protected policy "prod" "shop" ("prod_1" ∷ []) none 0 200_000_000_000
      directory "prod_1" refl

prune_backups_gfs-latest_example :
    (has "prod_4"
        (prune_backups_gfs policy "prod" "shop" [] none 0 200_000_000_000 directory).removed
      ≡ false)
    × AreNoLater (made "prod_4" 181000) (collected "prod" (some "shop") directory)
unfolding backup_candidates starts_with
prune_backups_gfs-latest_example =
    prune_backups_gfs-latest policy "prod" "shop" [] none 0 200_000_000_000 directory
      (made "prod_4" 181000) (made "prod_3" 180000 ∷ made "prod_2" 90000 ∷ made "prod_1" 1000 ∷ [])
      refl refl

prune_backups_gfs-fresh_example :
    has "prod_3"
      (prune_backups_gfs policy "prod" "shop" [] none 10 200_000_000_000 directory).removed
    ≡ false
unfolding backup_candidates starts_with
prune_backups_gfs-fresh_example =
    prune_backups_gfs-fresh policy "prod" "shop" [] none 10 200_000_000_000 directory "prod_3"
      (omega arith) refl

prune_backups_gfs-Identified_example : Identified "prod" "shop" "prod_2" directory
unfolding prune_backups_gfs select_gfs_candidates retain_periods backup_candidates starts_with
prune_backups_gfs-Identified_example =
    prune_backups_gfs-Identified policy "prod" "shop" [] none 0 200_000_000_000 directory "prod_2"
      refl
