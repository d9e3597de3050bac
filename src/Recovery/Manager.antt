-- ===== src/Recovery/Manager.antt =====
-- `RecoveryManager::Recover` of src/recovery/recovery_manager.cpp over the files: it finds the
-- checkpoint and the log, or gives up on a checkpoint of which a segment cannot be loaded.
use coredb.Prelude.{ℕ, ◌≡◌, refl, Bool, true, false, List, [], Option, none, some}
use coredb.Storage.Segment.{Segment}
use coredb.Table.{Table}
use coredb.Recovery.{RecoveryStats, at_least_one, recover}
use coredb.Recovery.Manifest.{ManifestResult, load_manifest}
use coredb.Recovery.Checkpoint.{Files, load_segments}

pub record RecoveryConfig : Type 0 where
  pub wal_path : List ℕ
  pub checkpoint_manifest_path : List ℕ
  pub segment_dir : List ℕ
  pub num_workers : ℕ

-- A file that is missing reads as an empty log.
abbrev pub log_of : Option (List ℕ) → List ℕ
log_of none = []
log_of (some file) = file

-- What is returned early.
abbrev pub gave_up : ℕ → ℕ → RecoveryStats
gave_up workers last_lsn = record {
  checkpoint_found = true;
  checkpoint_lsn = last_lsn;
  records_read = 0;
  committed_transactions = 0;
  operations_replayed = 0;
  truncated_tail = false;
  corrupt_tail = false;
  last_wal_lsn = 0;
  num_workers = at_least_one workers;
  checksum_verification_passed = true;
  failed = true;
}

module _ (grants : ℕ → Bool) (files : Files) (t : Table) (config : RecoveryConfig) where
  abbrev replay : Option (ℕ × List Segment) → Option (Table × RecoveryStats)
  replay checkpoint =
      recover grants t checkpoint (log_of (files config.wal_path)) config.num_workers

  abbrev with_segments : ℕ → Option (List Segment) → Option (Table × RecoveryStats)
  with_segments last_lsn none = some (t, gave_up config.num_workers last_lsn)
  with_segments last_lsn (some segments) = replay (some (last_lsn, segments))

  abbrev with_manifest : ManifestResult → Option (Table × RecoveryStats)
  with_manifest (ManifestResult.manifest m) =
      with_segments m.last_lsn
        (load_segments t.full_schema files config.segment_dir m.segment_files)
  with_manifest none_found = replay none

  unfoldable pub recover_files : Option (Table × RecoveryStats)
  recover_files = with_manifest (load_manifest (files config.checkpoint_manifest_path))

  -- What a checkpoint holds is what replay starts from.
  pub recover_files-checkpoint :
      (last_lsn : ℕ) (names : List (List ℕ)) (segments : List Segment)
      → load_manifest (files config.checkpoint_manifest_path)
        ≡ ManifestResult.manifest (record { last_lsn = last_lsn; segment_files = names })
      → load_segments t.full_schema files config.segment_dir names ≡ some segments
      → recover_files ≡ replay (some (last_lsn, segments))
  unfolding recover_files
  recover_files-checkpoint last_lsn names segments listed loads = rw (listed, loads) refl
