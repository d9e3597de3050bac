-- ===== src/Database/Checkpoint.antt =====
-- `Database::Checkpoint` of src/db/database.cpp, and the database that is opened over its files.
mod Tests
use mathlib.Core.List.{append_assoc}
use coredb.Prelude.{
  ℕ, ◌%◌, ◌^◌, ◌<◌, ◌≡◌, ◌≢◌, refl, sym, ap, subst, ◌∙◌, Bool, true, false, List, [], ◌∷◌, ◌++◌,
  Option, none, some, ◌>>=◌, if◌then◌else◌, All, arith, Option-cases, inl, inr, inc64, length,
}
use coredb.Storage.Types.{Schema, Double}
use coredb.Storage.Dictionary.{string_eq}
use coredb.Storage.Dictionary.Laws.{string_eq_iff}
use coredb.Storage.Segment.{Segment}
use coredb.Table.{Table, create}
use coredb.Wal.Writer.{DurabilityMode, WalWriter, open_writer, flush, last_lsn}
use coredb.Recovery.{RecoveryStats, recover}
use coredb.Recovery.Manifest.{ManifestResult, CheckpointManifest, load_manifest}
use coredb.Recovery.Checkpoint.{
  Files, System, write_file, separated, join_path, segment_filename, write_checkpoint,
  load_segments,
}
use coredb.Recovery.Checkpoint.Saved.{AreSavable, path_of, cancel_prefix, write_checkpoint-saved}
use coredb.Recovery.Manager.{log_of, gave_up, recover_files, recover_files-checkpoint}
use coredb.Database.{
  Database, wal_path, checkpoint_dir, manifest_path, recovery_config, opened, open_database,
  checkpoint,
}

separated-append :
    (p : List ℕ) (c : ℕ) (q : List ℕ) → separated (p ++ c ∷ q) ≡ p ++ separated (c ∷ q)
separated-append [] c q = refl
separated-append (a ∷ []) c q = refl
separated-append (a ∷ b ∷ p) c q = ap (λ r. a ∷ r) (separated-append (b ∷ p) c q)

-- "checkpoint/"
abbrev inside : List ℕ
inside = 0x63 ∷ 0x68 ∷ 0x65 ∷ 0x63 ∷ 0x6B ∷ 0x70 ∷ 0x6F ∷ 0x69 ∷ 0x6E ∷ 0x74 ∷ 0x2F ∷ []

checkpoint_dir-separated :
    (data_dir : List ℕ) → separated (checkpoint_dir data_dir) ≡ separated data_dir ++ inside
checkpoint_dir-separated data_dir = separated-append (separated data_dir) 0x63 _

-- No segment is saved over the manifest.
segment_not_manifest :
    (data_dir : List ℕ) (seg : Segment)
    → path_of (checkpoint_dir data_dir) seg ≢ manifest_path data_dir
segment_not_manifest data_dir seg e =
    let names = cancel_prefix (separated (checkpoint_dir data_dir)) _ _ e in ground arith

-- Nothing of the checkpoint is saved over the log.
not_the_log :
    (data_dir : List ℕ) (c : ℕ) (f : List ℕ)
    → separated (checkpoint_dir data_dir) ++ c ∷ f ≢ wal_path data_dir
not_the_log data_dir c f e =
    let inner : (separated data_dir ++ inside) ++ c ∷ f ≡ wal_path data_dir =
      subst (λ p. p ++ c ∷ f ≡ wal_path data_dir) (checkpoint_dir-separated data_dir) e in
    let names =
      cancel_prefix (separated data_dir) (inside ++ c ∷ f) _
        (sym (append_assoc (separated data_dir) inside (c ∷ f)) ∙ inner) in
    ground arith

synced_by_flush : (w' w : WalWriter) → w' ≡ flush w → w'.synced ≡ length w'.file
unfolding flush
synced_by_flush w' w e = ap (λ v. v.synced) e ∙ sym (ap (λ v. length v.file) e)

module _ (d : Double) (system : System) (db db' : Database) (files files' : Files) where
  checkpoint_wrote :
      checkpoint d system db files ≡ some ((db', files'), true)
      → (write_checkpoint d system db.table
            (checkpoint_dir db.data_dir)
            (manifest_path db.data_dir)
            (last_lsn db.wal_writer)
            files
          ≡ some ((db'.table, files'), true))
        × (db'.wal_writer ≡ flush db.wal_writer)
        × (db'.data_dir ≡ db.data_dir)
  unfolding checkpoint flush
  checkpoint_wrote h =
      elim (Option-cases (
        write_checkpoint d system db.table (checkpoint_dir db.data_dir) (manifest_path db.data_dir)
          (last_lsn db.wal_writer) files)) [
            | inl thrown ↦ ground (arith, thrown)
            | inr (((t, after), done), written) ↦ ground (arith, written)
          ]

  module _ (user_schema : Schema) (durability : DurabilityMode) (log : List ℕ) (later : System)
      (done : checkpoint d system db files ≡ some ((db', files'), true))
      (savable : AreSavable (create user_schema).full_schema db'.table.base_segments) where
    abbrev disk : Files
    disk = write_file (wal_path db.data_dir) log files'

    off_the_log :
        (c : ℕ) (f : List ℕ)
        → disk (separated (checkpoint_dir db.data_dir) ++ c ∷ f)
          ≡ files' (separated (checkpoint_dir db.data_dir) ++ c ∷ f)
    off_the_log c f = ground (
      arith,
      not_the_log db.data_dir c f,
      string_eq_iff (separated (checkpoint_dir db.data_dir) ++ c ∷ f) (wal_path db.data_dir),
    )

    segments_off_the_log :
        (segs : List Segment)
        → All
            (λ seg.
              disk (path_of (checkpoint_dir db.data_dir) seg)
              ≡ files' (path_of (checkpoint_dir db.data_dir) seg))
            segs
    segments_off_the_log [] = tt
    segments_off_the_log (seg ∷ segs) = (off_the_log 0x73 _, segments_off_the_log segs)

    segments_off_the_manifest :
        (segs : List Segment)
        → All (λ seg. path_of (checkpoint_dir db.data_dir) seg ≢ manifest_path db.data_dir) segs
    segments_off_the_manifest [] = tt
    segments_off_the_manifest (seg ∷ segs) =
        (segment_not_manifest db.data_dir seg, segments_off_the_manifest segs)

    -- When Checkpoint succeeds, the log is synced to its end; and where the table's segments can
    -- each be saved and loaded, have the schema and different ids, a database that is opened over
    -- the files that the checkpoint left, with any log beside them, is the one that replaying that
    -- log from the last LSN of the checkpoint onto the table's segments in memory gives,
    -- exceptions included: where the system does not create the data directory, does not open the
    -- log, or has no memory for a row of the log, opening throws.
    pub checkpoint_reopened :
        (db'.wal_writer.synced ≡ length db'.wal_writer.file)
        × (open_database later user_schema durability db.data_dir disk ≡ (
            if later.creates db.data_dir
            then (recover later.grants
                  (create user_schema)
                  (some (last_lsn db.wal_writer, db'.table.base_segments))
                  log
                  1
                >>= opened later db.data_dir durability log)
            else none))
    unfolding open_database
    checkpoint_reopened =
        let (written, flushed, same_dir) = checkpoint_wrote done in
        let (names, listed, loads) =
          write_checkpoint-saved d system db.table db'.table (checkpoint_dir db.data_dir)
            (manifest_path db.data_dir) (last_lsn db.wal_writer) files files' disk
            (create user_schema).full_schema written (omega arith) savable
            (segments_off_the_manifest db'.table.base_segments) (off_the_log 0x6D _)
            (segments_off_the_log db'.table.base_segments) in
        let logged : disk (wal_path db.data_dir) ≡ some log =
          rw ((string_eq_iff (wal_path db.data_dir) (wal_path db.data_dir)).1 refl) refl in
        (
          synced_by_flush _ _ flushed,
          rw
              (
                recover_files-checkpoint later.grants disk (create user_schema)
                    (recovery_config db.data_dir) (last_lsn db.wal_writer) names
                    db'.table.base_segments listed loads,
                logged,
              )
              refl,
        )
