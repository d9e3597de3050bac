-- ===== src/Wal/Reader.antt =====
-- include/coredb/wal/wal_reader.h and src/wal/wal_reader.cpp: the reader. A file that is missing
-- reads as one without bytes.
use coredb.Prelude.{
  ℕ, zero, suc, ◌+◌, ◌%◌, Bool, true, false, List, [], ◌∷◌, ◌++◌, Option, none, some, ◌==◌,
  if◌then◌else◌, length, u64_mod,
}
use coredb.Util.Bytes.{read_raw, from_le, split_at}
use coredb.Util.Crc32c.{crc32c}
use coredb.Wal.Record.{WalRecord}
use coredb.Wal.Decode.{Decoded, refused, decoded, decode_body}

pub record WalReadResult : Type 0 where
  pub records : List WalRecord
  pub truncated_tail : Bool
  pub corrupt_record : Bool
  pub bytes_read : ℕ
  pub last_valid_lsn : ℕ

-- What one pass of the loop finds: the end of the file, a cut or a bad record, an exception, or a
-- record, its length and the bytes after it.
pub data Pass : Type 0 where
  at_end truncated corrupt threw : Pass
  parsed : WalRecord → ℕ → List ℕ → Pass

abbrev pub parse_body : Decoded WalRecord → ℕ → List ℕ → Pass
parse_body refused len rest = corrupt
parse_body Decoded.threw len rest = threw
parse_body (decoded r) len rest = parsed r len rest

abbrev pub no_records : WalReadResult
no_records = record {
  records = [];
  truncated_tail = false;
  corrupt_record = false;
  bytes_read = 0;
  last_valid_lsn = 0;
}

module _ (grants : ℕ → Bool) where
  abbrev pub check_payload : Option (ℕ × List ℕ) → ℕ → List ℕ → Pass
  check_payload none len rest = corrupt
  check_payload (some (stored_checksum, body)) len rest =
      if crc32c body == stored_checksum
      then parse_body (decode_body grants body) len rest
      else corrupt

  -- The payload of `total_len` bytes, if the file has so many left.
  abbrev pub take_payload : Option (List ℕ × List ℕ) → ℕ → Pass
  take_payload none total_len = truncated
  take_payload (some (payload, rest)) total_len =
      check_payload (read_raw 4 payload) (4 + total_len) rest

  abbrev pub take_header : Option (List ℕ × List ℕ) → Pass
  take_header none = truncated
  take_header (some (header, rest)) = take_payload (split_at (from_le header) rest) (from_le header)

  unfoldable pub read_one : List ℕ → Pass
  read_one [] = at_end
  read_one (b ∷ bs) = take_header (split_at 4 (b ∷ bs))

  -- The loop; `none` is an exception, or to be out of fuel.
  unfoldable pub read_from : ℕ → List ℕ → WalReadResult → Option WalReadResult
  read_from zero buf result = none
  read_from (suc fuel) buf result = elim (read_one buf) [
    | at_end ↦ some result
    | truncated ↦ some (record result { truncated_tail = true })
    | corrupt ↦ some (record result { corrupt_record = true })
    | threw ↦ none
    | parsed r len rest ↦ read_from fuel rest (record result {
      last_valid_lsn = r.lsn;
      bytes_read = (result.bytes_read + len) % u64_mod;
      records = result.records ++ r ∷ [];
    })
  ]

  unfoldable pub read_all : List ℕ → Option WalReadResult
  unfolding read_from
  read_all file = read_from (length file + 1) file no_records
