-- ===== src/Wal/Decode.antt =====
-- `DecodeBody` of src/wal/record.cpp.
--
-- The number of values is reserved as the record gives it, before any of them is read: whether there
-- is memory for so many is the system's answer, the parameter `grants`.
use coredb.Prelude.{ℕ, Bool, List, [], Option, none, some, ◌==◌, if◌then◌else◌}
use coredb.Util.Bytes.{read_raw}
use coredb.Storage.Types.{Row}
use coredb.Wal.WalRecordType
use coredb.Wal.Record.{WalRecord, has_row, read_values}

-- `false`, an exception of `reserve`, or `true` with what was read.
pub data Decoded {ℓ} (A : Type ℓ) : Type ℓ where
  refused threw : Decoded A
  decoded : A → Decoded A

infixl 5 ◌>>=◌
unfoldable pub ◌>>=◌ {ℓ κ} : {A : Type ℓ} {B : Type κ} → Decoded A → (A → Decoded B) → Decoded B
refused >>= f = refused
threw >>= f = threw
decoded a >>= f = f a

-- `if (!Read...) return false`
unfoldable pub or_refuse {ℓ} : {A : Type ℓ} → Option A → Decoded A
or_refuse none = refused
or_refuse (some a) = decoded a

module _ (grants : ℕ → Bool) where
  unfoldable pub reserve : ℕ → Decoded (Unit {0})
  reserve n = if grants n then decoded tt else threw

  -- The row id and the row, which stay 0 and empty in a fresh record.
  unfoldable pub decode_payload : ℕ → List ℕ → Decoded (ℕ × Row)
  unfolding reserve read_values
  decode_payload type buf =
      if has_row type
      then (do
        row_id ← or_refuse (read_raw 8 buf)
        num_values ← or_refuse (read_raw 4 row_id.1)
        reserved ← reserve num_values.0
        values ← or_refuse (read_values num_values.0 num_values.1)
        decoded (row_id.0, values.0))
      else if type == WalRecordType.delete
      then (or_refuse (read_raw 8 buf) >>= λ row_id. decoded (row_id.0, []))
      else decoded (0, [])

  -- `DecodeBody` into a fresh record.
  unfoldable pub decode_body : List ℕ → Decoded WalRecord
  unfolding decode_payload
  decode_body body = do
    lsn ← or_refuse (read_raw 8 body)
    txn_id ← or_refuse (read_raw 8 lsn.1)
    type ← or_refuse (read_raw 1 txn_id.1)
    payload ← decode_payload type.0 type.1
    decoded (record {
      lsn = lsn.0;
      txn_id = txn_id.0;
      type = type.0;
      row_id = payload.0;
      row = payload.1;
    })
