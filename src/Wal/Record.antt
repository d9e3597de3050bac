-- ===== src/Wal/Record.antt =====
-- include/coredb/wal/record.h and src/wal/record.cpp: log records as bytes.
--
-- A function that reads takes the bytes from `pos` on and gives the value with the bytes that are
-- left; `none` is the source's `false`.
use coredb.Prelude.{
  ℕ, zero, suc, ◌%◌, ◌^◌, Bool, ◌||◌, List, [], ◌∷◌, ◌++◌, Option, none, some, ◌==◌, if◌then◌else◌,
  ◌>>=◌, length,
}
use coredb.Util.Bytes.{read_raw, le_bytes, split_at}
use coredb.Wal.WalRecordType
use coredb.Storage.Types.{Value, null, int32, int64, double, string, Row}

-- A type byte is any byte: `static_cast<WalRecordType>` keeps those that name no type.
pub record WalRecord : Type 0 where
  pub lsn : ℕ
  pub txn_id : ℕ
  pub type : ℕ
  pub row_id : ℕ
  pub row : Row

unfoldable pub value_bytes : Value → List ℕ
value_bytes null = 0 ∷ []
value_bytes (int32 i) = 1 ∷ le_bytes 4 i
value_bytes (int64 i) = 2 ∷ le_bytes 8 i
value_bytes (double d) = 3 ∷ le_bytes 8 d
value_bytes (string s) = 4 ∷ le_bytes 4 (length s % 2 ^ 32) ++ s

-- The tagged value of `ReadValue`.
abbrev pub read_tagged : ℕ → List ℕ → Option (Value × List ℕ)
read_tagged tag buf =
    if tag == 0
    then some (null, buf)
    else if tag == 1
    then (read_raw 4 buf >>= λ p. some (int32 p.0, p.1))
    else if tag == 2
    then (read_raw 8 buf >>= λ p. some (int64 p.0, p.1))
    else if tag == 3
    then (read_raw 8 buf >>= λ p. some (double p.0, p.1))
    else if tag == 4
    then (read_raw 4 buf >>= λ p. split_at p.0 p.1 >>= λ q. some (string q.0, q.1))
    else none

unfoldable pub read_value : List ℕ → Option (Value × List ℕ)
read_value [] = none
read_value (tag ∷ buf) = read_tagged tag buf

unfoldable pub values_bytes : Row → List ℕ
unfolding value_bytes
values_bytes [] = []
values_bytes (v ∷ vs) = value_bytes v ++ values_bytes vs

unfoldable pub read_values : ℕ → List ℕ → Option (Row × List ℕ)
unfolding read_value
read_values zero buf = some ([], buf)
read_values (suc n) buf = do v ← read_value buf; vs ← read_values n v.1; some (v.0 ∷ vs.0, vs.1)

abbrev pub has_row : ℕ → Bool
has_row type = type == WalRecordType.insert || type == WalRecordType.update

-- What follows the type byte.
unfoldable pub payload_bytes : ℕ → ℕ → Row → List ℕ
unfolding values_bytes
payload_bytes type row_id row =
    if has_row type
    then le_bytes 8 row_id ++ (le_bytes 4 (length row % 2 ^ 32) ++ values_bytes row)
    else if type == WalRecordType.delete
    then le_bytes 8 row_id
    else []

unfoldable pub encode_body : WalRecord → List ℕ
unfolding payload_bytes
encode_body r =
    le_bytes 8 r.lsn ++ (le_bytes 8 r.txn_id ++ (r.type ∷ payload_bytes r.type r.row_id r.row))
