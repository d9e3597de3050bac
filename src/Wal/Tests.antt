-- ===== src/Wal/Tests.antt =====
-- Instances of the theorems about src/wal at a log of three records.
use mathlib.Core.List.{append-nil}
use coredb.Prelude.{ℕ, Bool, true, ◌≡◌, refl, ap, sym, false, List, [], ◌∷◌, ◌++◌, some, arith}
use coredb.Storage.Types.{Value, Row}
use coredb.Util.Bytes.{le_bytes}
use coredb.Wal.Total.{read_all_total}
use coredb.Wal.WalRecordType
use coredb.Wal.Record.{WalRecord, encode_body}
use coredb.Wal.Decode.{decoded, decode_body}
use coredb.Wal.RoundTrip.{WellFormed, decode_body-encode_body}
use coredb.Wal.Writer.{
  sync_every_commit, WalWriter, writer_at, frame, append, append_mark, append_record,
}
use coredb.Wal.Reader.{WalReadResult, read_all}
use coredb.Wal.Frames.{Loggable}
use coredb.Wal.Crash.{frames, read_all_cut}
use coredb.Wal.Durability.{append_all, stamped, commit_record, commit_survives}

abbrev any_size : ℕ → Bool
any_size n = true

abbrev hello : Row
hello = Value.string (0x68 ∷ 0x69 ∷ []) ∷ []

abbrev inserted : WalRecord
inserted = record { lsn = 1; txn_id = 1; type = WalRecordType.insert; row_id = 7; row = hello }

inserted-WellFormed : WellFormed any_size inserted
inserted-WellFormed = record {
  lsn = omega arith;
  txn_id = omega arith;
  type = omega arith;
  row_id = omega arith;
  granted = λ h. refl;
  sized = omega arith;
  ranged = (omega arith, tt);
  no_row = λ h. cc;
  no_row_id = λ h k. cc;
}

inserted-Loggable : Loggable any_size inserted
unfolding encode_body le_bytes
inserted-Loggable = record { well_formed = inserted-WellFormed; short = omega arith }

decode_body-encode_body_example :
    decode_body any_size (encode_body inserted ++ []) ≡ decoded inserted
decode_body-encode_body_example = decode_body-encode_body any_size inserted inserted-WellFormed []

commits-Loggable : Loggable any_size (commit_record 2 1)
unfolding encode_body le_bytes
commits-Loggable = record {
  well_formed = record {
    lsn = omega arith;
    txn_id = omega arith;
    type = omega arith;
    row_id = omega arith;
    granted = λ h. refl;
    sized = omega arith;
    ranged = tt;
    no_row = λ h. refl;
    no_row_id = λ h k. refl;
  };
  short = omega arith;
}

abbrev one_logged : WalWriter
one_logged = (append (writer_at [] sync_every_commit 1) 1 WalRecordType.insert 7 hello).0

one_logged_file : one_logged.file ≡ frames (inserted ∷ [])
unfolding append append_record frames
one_logged_file = sym (append-nil (frame inserted))

abbrev all_committed : WalWriter
all_committed = (append_mark one_logged 1 WalRecordType.commit).0

commit_survives_example :
    (result : WalReadResult) × (read unread : List WalRecord) × ([] ≡ read ++ unread)
    × (read_all any_size all_committed.file ≡ some result)
    × (result.records ≡ (inserted ∷ commit_record 2 1 ∷ []) ++ read)
    × (result.corrupt_record ≡ false)
unfolding append append_mark append_record append_all stamped
commit_survives_example =
    commit_survives any_size one_logged 1 (inserted ∷ []) [] all_committed.file [] (λ e. cc)
      one_logged_file (inserted-Loggable, tt) (commits-Loggable, tt)
      (sym (append-nil all_committed.file)) (omega arith)

read_all_total_example : (result : WalReadResult) × (read_all any_size (4 ∷ 0 ∷ []) ≡ some result)
read_all_total_example =
    read_all_total any_size (λ n h. refl) (4 ∷ 0 ∷ []) (omega arith, (omega arith, tt))

read_all_cut_example :
    (result : WalReadResult) × (read unread : List WalRecord) × (commit_record 2 1 ∷ []
      ≡ read ++ unread)
    × (read_all any_size (frames (inserted ∷ [])) ≡ some result)
    × (result.records ≡ (inserted ∷ []) ++ read)
    × (result.corrupt_record ≡ false)
unfolding frames
read_all_cut_example =
    read_all_cut any_size (inserted ∷ []) (commit_record 2 1 ∷ []) (frames (inserted ∷ []))
      (frames (commit_record 2 1 ∷ [])) (inserted-Loggable, tt) (commits-Loggable, tt)
      (ap (λ t. t ++ frames (commit_record 2 1 ∷ [])) (sym (append-nil (frame inserted))))
      (omega arith)
