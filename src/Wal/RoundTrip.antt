-- ===== src/Wal/RoundTrip.antt =====
-- `EncodeBody` and `DecodeBody` of src/wal/record.cpp are inverse to one another.
use mathlib.Core.List.{append_assoc}
use coredb.Prelude.{
  ℕ, ◌%◌, ◌^◌, ◌<◌, ◌≡◌, refl, Bool, true, false, List, [], ◌∷◌, ◌++◌, some, ◌==◌, length, All,
  arith,
}
use coredb.Util.Bytes.{read_raw-le_bytes, read_raw-byte, le_bytes, split_at-append}
use coredb.Storage.Types.{InRange, Value, null, int32, int64, double, string, Row}
use coredb.Wal.WalRecordType
use coredb.Wal.Record.{
  WalRecord, has_row, value_bytes, read_value, values_bytes, read_values, payload_bytes,
  encode_body,
}
use coredb.Wal.Decode
use coredb.Wal.Decode.{decoded, or_refuse, reserve, decode_payload, decode_body}

read_value-value_bytes :
    (v : Value) (rest : List ℕ) → InRange v → read_value (value_bytes v ++ rest) ≡ some (v, rest)
unfolding read_value value_bytes
read_value-value_bytes null rest h = refl
read_value-value_bytes (int32 i) rest h = rw (read_raw-le_bytes 4 i rest h) refl
read_value-value_bytes (int64 i) rest h = rw (read_raw-le_bytes 8 i rest h) refl
read_value-value_bytes (double d) rest h = rw (read_raw-le_bytes 8 d rest h) refl
read_value-value_bytes (string s) rest h =
    let len : length s % 2 ^ 32 ≡ length s = omega (arith, h) in
    rw
      (
        len,
        append_assoc (le_bytes 4 (length s)) s rest,
        read_raw-le_bytes 4 (length s) (s ++ rest) h,
        split_at-append s rest (length s) refl,
      )
      refl

read_values-values_bytes :
    (row : Row) (rest : List ℕ)
    → All InRange row
    → read_values (length row) (values_bytes row ++ rest) ≡ some (row, rest)
unfolding read_values values_bytes
read_values-values_bytes [] rest h = refl
read_values-values_bytes (v ∷ vs) rest h =
    rw
      (
        append_assoc (value_bytes v) (values_bytes vs) rest,
        read_value-value_bytes v (values_bytes vs ++ rest) h.0,
        read_values-values_bytes vs rest h.1,
      )
      refl

-- A record that the log may hold: every word fits its width, and what its type does not log is
-- the default; and memory for its row can be had.
pub record WellFormed (grants : ℕ → Bool) (r : WalRecord) : Type 0 where
  pub lsn : r.lsn < 2 ^ 64
  pub txn_id : r.txn_id < 2 ^ 64
  pub type : r.type < 256
  pub row_id : r.row_id < 2 ^ 64
  pub granted : has_row r.type ≡ true → grants (length r.row) ≡ true
  pub sized : length r.row < 2 ^ 32
  pub ranged : All InRange r.row
  pub no_row : has_row r.type ≡ false → r.row ≡ []
  pub no_row_id : has_row r.type ≡ false → (r.type == WalRecordType.delete) ≡ false → r.row_id ≡ 0

module _ (grants : ℕ → Bool) (r : WalRecord) (w : WellFormed grants r) (rest : List ℕ) where
  decode_payload-payload_bytes :
      decode_payload grants r.type (payload_bytes r.type r.row_id r.row ++ rest)
      ≡ decoded (r.row_id, r.row)
  unfolding decode_payload payload_bytes reserve or_refuse Decode.◌>>=◌
  decode_payload-payload_bytes =
      let len : length r.row % 2 ^ 32 ≡ length r.row = omega (arith, w.sized) in
      ground (
        arith,
        len,
        w.no_row,
        w.granted,
        w.no_row_id,
        append_assoc (le_bytes 8 r.row_id) (le_bytes 4 (length r.row) ++ values_bytes r.row) rest,
        append_assoc (le_bytes 4 (length r.row)) (values_bytes r.row) rest,
        read_raw-le_bytes 8 r.row_id (le_bytes 4 (length r.row) ++ (values_bytes r.row ++ rest))
            w.row_id,
        read_raw-le_bytes 8 r.row_id rest w.row_id,
        read_raw-le_bytes 4 (length r.row) (values_bytes r.row ++ rest) w.sized,
        read_values-values_bytes r.row rest w.ranged,
      )

  -- A record whose words fit their widths, and which has the default row and row id where its type
  -- logs none, and for the values of which memory can be had, is decoded from its encoded bytes,
  -- whatever follows them.
  pub decode_body-encode_body : decode_body grants (encode_body r ++ rest) ≡ decoded r
  unfolding decode_body encode_body or_refuse Decode.◌>>=◌
  decode_body-encode_body =
      let payload = payload_bytes r.type r.row_id r.row ++ rest in
      rw
        (
          append_assoc (le_bytes 8 r.lsn)
              (le_bytes 8 r.txn_id ++ (r.type ∷ payload_bytes r.type r.row_id r.row)) rest,
          append_assoc (le_bytes 8 r.txn_id) (r.type ∷ payload_bytes r.type r.row_id r.row) rest,
          read_raw-le_bytes 8 r.lsn (le_bytes 8 r.txn_id ++ (r.type ∷ payload)) w.lsn,
          read_raw-le_bytes 8 r.txn_id (r.type ∷ payload) w.txn_id,
          read_raw-byte r.type payload,
          decode_payload-payload_bytes,
        )
        refl
