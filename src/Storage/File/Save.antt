-- ===== src/Storage/File/Save.antt =====
-- `Segment::SaveToFile` of src/storage/segment.cpp, as the bytes it writes. `none` is
-- `std::bad_variant_access`, for a bound of another type than its column.
use coredb.Prelude.{ℕ, ◌-◌, ◌%◌, ◌^◌, List, [], ◌∷◌, ◌++◌, Option, none, some, ◌>>=◌, length, take}
use coredb.Util.Bitmap.{count_valid}
use coredb.Util.Bytes.{le_bytes}
use coredb.Storage.Types.{ColumnType, int32, int64, double, string, Value, null}
use coredb.Storage.Segment.{Column, Segment, element_width, data_of, data_bytes}
use coredb.Storage.File.{magic, type_byte}

unfoldable pub write_string : List ℕ → List ℕ
write_string s = le_bytes 4 (length s % 2 ^ 32) ++ take (length s % 2 ^ 32) s

unfoldable pub write_typed : ColumnType → Value → Option (List ℕ)
write_typed int32 (Value.int32 x) = some (le_bytes 4 x)
write_typed int64 (Value.int64 x) = some (le_bytes 8 x)
write_typed double (Value.double x) = some (le_bytes 8 x)
write_typed string (Value.string s) = some (write_string s)
write_typed type v = none

-- The flag, and the bounds if there are some.
unfoldable pub write_bounds : ColumnType → Value → Value → Option (List ℕ)
unfolding write_typed
write_bounds type null max = some (0 ∷ [])
write_bounds type min max = do
  lo ← write_typed type min
  hi ← write_typed type max
  some (1 ∷ lo ++ hi)

unfoldable pub write_strings : List (List ℕ) → List ℕ
write_strings [] = []
write_strings (s ∷ ss) = write_string s ++ write_strings ss

unfoldable pub write_dictionary : ColumnType → List (List ℕ) → List ℕ
unfolding write_strings
write_dictionary string values = le_bytes 4 (length values % 2 ^ 32) ++ write_strings values
write_dictionary type values = []

-- `null_count`
abbrev pub null_count : ℕ → Column → ℕ
null_count num_rows col = (num_rows - count_valid col.validity) % 2 ^ 32

unfoldable pub save_column : ℕ → Column → Option (List ℕ)
unfolding write_bounds write_dictionary
save_column num_rows col = do
  bounds ← write_bounds col.type col.min col.max
  some (
      type_byte col.type
      ∷ (le_bytes 4 (null_count num_rows col)
          ++ (col.validity.bytes
              ++ (bounds
                  ++ (le_bytes 4 col.checksum
                      ++ (data_bytes (element_width col.type) (data_of col.type col)
                          ++ write_dictionary col.type col.dictionary.values))))))

unfoldable pub save_columns : ℕ → List Column → Option (List ℕ)
unfolding save_column
save_columns num_rows [] = some []
save_columns num_rows (col ∷ cols) = do
  bytes ← save_column num_rows col
  rest ← save_columns num_rows cols
  some (bytes ++ rest)

unfoldable pub save_to_file : Segment → Option (List ℕ)
unfolding save_columns
save_to_file seg = do
  columns ← save_columns seg.num_rows seg.columns
  some (
      magic
      ++ (le_bytes 4 (length seg.columns % 2 ^ 32)
          ++ (le_bytes 8 seg.segment_id ++ (le_bytes 4 (seg.num_rows % 2 ^ 32) ++ columns))))
