-- ===== src/Wal/Durability.antt =====
-- What src/wal/wal_writer.cpp has synced, src/wal/wal_reader.cpp reads after a crash.
use mathlib.Core.List.{append-nil, append_assoc}
use coredb.Prelude.{
  ℕ, ◌≤◌, ◌≡◌, ◌≢◌, refl, sym, ap, ◌∙◌, Bool, false, List, [], ◌∷◌, ◌++◌, some, All, length,
  length-append, arith, inc64,
}
use coredb.Wal.WalRecordType
use coredb.Wal.Record.{WalRecord}
use coredb.Wal.Writer.{no_sync, WalWriter, frame, append_record, append_mark}
use coredb.Wal.Reader.{WalReadResult, read_all}
use coredb.Wal.Frames.{Loggable}
use coredb.Wal.Crash.{frames, read_all_cut}

-- Several calls of `Append`, and the records with the log sequence numbers they get.
unfoldable pub append_all : WalWriter → List WalRecord → WalWriter
append_all w [] = w
append_all w (r ∷ rs) = append_all (append_record w r).0 rs

unfoldable pub stamped : ℕ → List WalRecord → List WalRecord
stamped lsn [] = []
stamped lsn (r ∷ rs) = record r { lsn = lsn } ∷ stamped (inc64 lsn) rs

file-append_all :
    (w : WalWriter) (rs : List WalRecord)
    → (append_all w rs).file ≡ w.file ++ frames (stamped w.next_lsn rs)
unfolding append_all append_record stamped frames
file-append_all w [] = sym (append-nil w.file)
file-append_all w (r ∷ rs) =
    file-append_all (append_record w r).0 rs
    ∙ append_assoc w.file (frame (record r { lsn = w.next_lsn }))
        (frames (stamped (inc64 w.next_lsn) rs))

synced-append_record :
    (w : WalWriter) (r : WalRecord)
    → w.synced ≤ length w.file
    → (w.synced ≤ (append_record w r).0.synced)
      × ((append_record w r).0.synced ≤ length (append_record w r).0.file)
unfolding append_record
synced-append_record w r h =
    ground (arith, length-append w.file (frame (record r { lsn = w.next_lsn })))

synced-append_all :
    (w : WalWriter) (rs : List WalRecord)
    → w.synced ≤ length w.file
    → w.synced ≤ (append_all w rs).synced
unfolding append_all
synced-append_all w [] h = omega arith
synced-append_all w (r ∷ rs) h =
    let one = synced-append_record w r h in
    omega (arith, one.0, synced-append_all (append_record w r).0 rs one.1)

frames-append : (xs ys : List WalRecord) → frames (xs ++ ys) ≡ frames xs ++ frames ys
unfolding frames
frames-append [] ys = refl
frames-append (x ∷ xs) ys =
    ap (λ zs. frame x ++ zs) (frames-append xs ys)
    ∙ sym (append_assoc (frame x) (frames xs) (frames ys))

frames_snoc : (rs : List WalRecord) (r : WalRecord) → frames rs ++ frame r ≡ frames (rs ++ r ∷ [])
unfolding frames
frames_snoc rs r =
    ap (λ t. frames rs ++ t) (sym (append-nil (frame r))) ∙ sym (frames-append rs (r ∷ []))

All-append :
    (P : WalRecord → Type 0) (xs ys : List WalRecord) → All P xs → All P ys → All P (xs ++ ys)
All-append P [] ys h k = k
All-append P (x ∷ xs) ys h k = (h.0, All-append P xs ys h.1 k)

abbrev pub commit_record : ℕ → ℕ → WalRecord
commit_record lsn txn_id = record {
  lsn = lsn;
  txn_id = txn_id;
  type = WalRecordType.commit;
  row_id = 0;
  row = [];
}

module _ (grants : ℕ → Bool) (w : WalWriter) (txn_id : ℕ) where
  abbrev committed : WalWriter
  committed = (append_mark w txn_id WalRecordType.commit).0

  commit_synced :
      w.durability ≢ no_sync
      → (committed.synced ≡ length committed.file)
        × (committed.file ≡ w.file ++ frame (commit_record w.next_lsn txn_id))
        × (committed.next_lsn ≡ inc64 w.next_lsn)
  unfolding append_mark append_record
  commit_synced h = ground (arith, h)

  -- A log that holds some records takes a commit and then more records, in a mode that syncs, all
  -- of them loggable: if a crash leaves the bytes that were synced, and maybe more, the reader
  -- gives the earlier records, the commit and some of the later ones, from the first on, and takes
  -- none for corrupt.
  pub commit_survives :
      (earlier later : List WalRecord) (kept lost : List ℕ)
      → w.durability ≢ no_sync
      → w.file ≡ frames earlier
      → All (Loggable grants) earlier
      → All (Loggable grants) (stamped w.next_lsn (commit_record 0 txn_id ∷ later))
      → (append_all committed later).file ≡ kept ++ lost
      → (append_all committed later).synced ≤ length kept
      → (result : WalReadResult) × (read unread : List WalRecord) × (stamped
            (inc64 w.next_lsn)
            later
          ≡ read ++ unread)
        × (read_all grants kept ≡ some result)
        × (result.records ≡ (earlier ++ commit_record w.next_lsn txn_id ∷ []) ++ read)
        × (result.corrupt_record ≡ false)
  unfolding stamped frames
  commit_survives earlier later kept lost syncs held le ll left reach =
      let (synced, file, lsn) = commit_synced syncs in
      let log = earlier ++ commit_record w.next_lsn txn_id ∷ [] in
      let bytes : committed.file ≡ frames log =
        file
        ∙ ap (λ b. b ++ frame (commit_record w.next_lsn txn_id)) held
        ∙ frames_snoc earlier (commit_record w.next_lsn txn_id) in
      read_all_cut grants log (stamped (inc64 w.next_lsn) later) kept lost
        (All-append (Loggable grants) earlier (commit_record w.next_lsn txn_id ∷ []) le (ll.0, tt))
        ll.1
        (frames-append log (stamped (inc64 w.next_lsn) later)
          ∙ ap (λ b. b ++ frames (stamped (inc64 w.next_lsn) later)) (sym bytes)
          ∙ ap (λ n. committed.file ++ frames (stamped n later)) (sym lsn)
          ∙ sym (file-append_all committed later)
          ∙ left)
        (omega (
          arith,
          reach,
          synced-append_all committed later (omega (arith, synced)),
          synced,
          ap length bytes,
        ))
