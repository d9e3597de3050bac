-- ===== src/Storage/File/Load.antt =====
-- `Segment::LoadFromFile` of src/storage/segment.cpp, on the bytes of the file. A function that reads
-- takes the bytes from the position on and gives what it read with the bytes that are left.
use coredb.Prelude.{
  ℕ, zero, suc, ◌+◌, ◌-◌, ◌/◌, ◌%◌, ◌^◌, Bool, List, [], ◌∷◌, Option, none, some, ◌==◌,
  if◌then◌else◌, length,
}
use coredb.Util.Bitmap.{Bitmap, from_bytes, count_valid}
use coredb.Util.Bytes.{read_raw, split_at}
use coredb.Storage.Types.{ColumnType, int32, int64, double, string, Schema, Value, null}
use coredb.Storage.Dictionary.{string_eq, Dictionary, empty, from_values}
use coredb.Storage.Segment.{Column, Segment, element_width, compute_column_checksum}
use coredb.Storage.File.{
  magic, column_type, is_type, Result, ok, ◌>>=◌, or_fail, check, column, bad_magic,
  truncated_header, column_count_mismatch, truncated_type, type_mismatch, truncated_null_count,
  truncated_bitmap, null_count_mismatch, truncated_flag, truncated_bounds, truncated_checksum,
  truncated_rows, truncated_dictionary_size, truncated_dictionary_entry, checksum_mismatch,
}

abbrev pub then_read {ℓ} : {A B : Type ℓ} → Option (A × List ℕ) → (A → List ℕ → Option B) → Option B
then_read none f = none
then_read (some (a, rest)) f = f a rest

unfoldable pub read_string : List ℕ → Option (List ℕ × List ℕ)
read_string buf = then_read (read_raw 4 buf) split_at

unfoldable pub read_typed : ColumnType → List ℕ → Option (Value × List ℕ)
unfolding read_string
read_typed int32 buf = then_read (read_raw 4 buf) (λ x rest. some (Value.int32 x, rest))
read_typed int64 buf = then_read (read_raw 8 buf) (λ x rest. some (Value.int64 x, rest))
read_typed double buf = then_read (read_raw 8 buf) (λ x rest. some (Value.double x, rest))
read_typed string buf = then_read (read_string buf) (λ s rest. some (Value.string s, rest))

-- The typed vector, element by element.
unfoldable pub read_words : ℕ → ℕ → List ℕ → Option (List ℕ × List ℕ)
read_words width zero buf = some ([], buf)
read_words width (suc n) buf =
    then_read (read_raw width buf)
      λ x rest. then_read (read_words width n rest) (λ xs after. some (x ∷ xs, after))

unfoldable pub read_strings : ℕ → List ℕ → Option (List (List ℕ) × List ℕ)
unfolding read_string
read_strings zero buf = some ([], buf)
read_strings (suc n) buf =
    then_read (read_string buf)
      λ s rest. then_read (read_strings n rest) (λ ss after. some (s ∷ ss, after))

-- A column before its typed vector is read.
abbrev pub blank : ColumnType → Bitmap → Value → Value → Column
blank type validity min max = record {
  type = type;
  validity = validity;
  min = min;
  max = max;
  checksum = 0;
  int32_data = [];
  int64_data = [];
  double_data = [];
  string_codes = [];
  dictionary = empty;
}

abbrev pub with_data : ColumnType → List ℕ → Column → Column
with_data int32 xs col = record col { int32_data = xs }
with_data int64 xs col = record col { int64_data = xs }
with_data double xs col = record col { double_data = xs }
with_data string xs col = record col { string_codes = xs }

module _ (c num_rows : ℕ) where
  -- The type that the file has for the column, which the schema's is compared with.
  unfoldable pub load_type : ColumnType → List ℕ → Result (ColumnType × List ℕ)
  load_type expected buf = do
    byte ← or_fail (column c truncated_type) (read_raw 1 buf)
    type ← or_fail (column c type_mismatch) (column_type byte.0)
    matching ← check (column c type_mismatch) (is_type expected type)
    ok (type, byte.1)

  -- The bitmap has `(num_rows + 7) / 8` bytes, on `uint32_t`.
  unfoldable pub load_validity : List ℕ → Result (Bitmap × List ℕ)
  load_validity buf = do
    nulls ← or_fail (column c truncated_null_count) (read_raw 4 buf)
    bytes ← or_fail (column c truncated_bitmap) (split_at ((num_rows + 7) % 2 ^ 32 / 8) nulls.1)
    let validity = from_bytes num_rows bytes.0
    counted ← check (column c null_count_mismatch) (num_rows - count_valid validity == nulls.0)
    ok (validity, bytes.1)

  unfoldable pub load_bounds : ColumnType → List ℕ → Result ((Value × Value) × List ℕ)
  unfolding read_typed
  load_bounds type buf = do
    flag ← or_fail (column c truncated_flag) (read_raw 1 buf)
    if flag.0 == 0 then ok ((null, null), flag.1) else do
      min ← or_fail (column c truncated_bounds) (read_typed type flag.1)
      max ← or_fail (column c truncated_bounds) (read_typed type min.1)
      ok ((min.0, max.0), max.1)

  unfoldable pub load_dictionary : ColumnType → List ℕ → Result (Dictionary × List ℕ)
  unfolding read_strings
  load_dictionary string buf = do
    dict_size ← or_fail (column c truncated_dictionary_size) (read_raw 4 buf)
    values ← or_fail (column c truncated_dictionary_entry) (read_strings dict_size.0 dict_size.1)
    ok (from_values values.0, values.1)
  load_dictionary type buf = ok (empty, buf)

  unfoldable pub load_column : ColumnType → List ℕ → Result (Column × List ℕ)
  unfolding load_type load_validity load_bounds load_dictionary read_words
  load_column expected buf = do
    type ← load_type expected buf
    validity ← load_validity type.1
    bounds ← load_bounds type.0 validity.1
    stored_checksum ← or_fail (column c truncated_checksum) (read_raw 4 bounds.1)
    rows ←
        or_fail (column c truncated_rows)
          (read_words (element_width type.0) num_rows stored_checksum.1)
    dictionary ← load_dictionary type.0 rows.1
    let col = record (with_data type.0 rows.0 (blank type.0 validity.0 bounds.0.0 bounds.0.1)) {
      dictionary = dictionary.0;
    }
    intact ← check (column c checksum_mismatch) (compute_column_checksum col == stored_checksum.0)
    ok (record col { checksum = stored_checksum.0 }, dictionary.1)

unfoldable pub load_columns : ℕ → ℕ → Schema → List ℕ → Result (List Column × List ℕ)
unfolding load_column
load_columns c num_rows [] buf = ok ([], buf)
load_columns c num_rows (cs ∷ schema) buf = do
  col ← load_column c num_rows cs.type buf
  cols ← load_columns (c + 1) num_rows schema col.1
  ok (col.0 ∷ cols.0, cols.1)

-- `memcmp(magic, kMagic, 8) == 0`
abbrev pub is_magic : List ℕ → Bool
is_magic bytes = string_eq bytes magic

-- The segment with the bytes after it, which the source does not read.
unfoldable pub load_segment : Schema → List ℕ → Result (Segment × List ℕ)
unfolding load_columns
load_segment schema file = do
  start ← or_fail bad_magic (split_at 8 file)
  known ← check bad_magic (is_magic start.0)
  num_columns ← or_fail truncated_header (read_raw 4 start.1)
  segment_id ← or_fail truncated_header (read_raw 8 num_columns.1)
  num_rows ← or_fail truncated_header (read_raw 4 segment_id.1)
  same ← check column_count_mismatch (num_columns.0 == length schema)
  columns ← load_columns 0 num_rows.0 schema num_rows.1
  ok (
    record {
      segment_id = segment_id.0;
      num_rows = num_rows.0;
      schema = schema;
      columns = columns.0;
    },
    columns.1,
  )

unfoldable pub load_from_file : Schema → List ℕ → Result Segment
unfolding load_segment
load_from_file schema file = load_segment schema file >>= λ loaded. ok loaded.0
