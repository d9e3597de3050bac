-- ===== src/Storage/Segment.antt =====
-- include/coredb/storage/segment.h and src/storage/segment.cpp: columns and segments in memory.
-- `none` is an exception of the standard library: `std::out_of_range` of `at`, and
-- `std::bad_variant_access` of `get`.
pub mod Store
pub mod Widen
pub mod Fill
pub mod Build
use coredb.Prelude.{
  ℕ, zero, suc, ◌+◌, Bool, true, false, not, ◌&&◌, List, [], ◌∷◌, ◌++◌, Option, none, some, ◌==◌,
  if◌then◌else◌, ◌>>=◌, length, get_elem?, set, replicate,
}
use coredb.Util.Bitmap.{Bitmap, bitmap, is_valid, set_valid}
use coredb.Util.Bytes.{le_bytes}
use coredb.Util.Crc32c.{crc32c_extend}
use coredb.Storage.Types
use coredb.Storage.Types.{
  ColumnType, int32, int64, double, string, ColumnSchema, Schema, Value, null, Row, PredicateOp, eq,
  ne, lt, le, gt, ge, Double, Comparison, below, equal, above, compare_values,
}
use coredb.Storage.Dictionary.{Dictionary, empty, intern_or_get, value_of}

pub record Column : Type 0 where
  pub type : ColumnType
  pub validity : Bitmap
  pub min : Value
  pub max : Value
  pub checksum : ℕ
  pub int32_data : List ℕ
  pub int64_data : List ℕ
  pub double_data : List ℕ
  pub string_codes : List ℕ
  pub dictionary : Dictionary

pub record Segment : Type 0 where
  pub segment_id : ℕ
  pub num_rows : ℕ
  pub schema : Schema
  pub columns : List Column

-- `ElementWidth` and `DataPointer`
abbrev pub element_width : ColumnType → ℕ
element_width int32 = 4
element_width int64 = 8
element_width double = 8
element_width string = 4

abbrev pub data_of : ColumnType → Column → List ℕ
data_of int32 col = col.int32_data
data_of int64 col = col.int64_data
data_of double col = col.double_data
data_of string col = col.string_codes

abbrev pub data_bytes : ℕ → List ℕ → List ℕ
data_bytes width [] = []
data_bytes width (x ∷ xs) = le_bytes width x ++ data_bytes width xs

unfoldable pub extend_strings : ℕ → List (List ℕ) → ℕ
extend_strings crc [] = crc
extend_strings crc (s ∷ ss) = extend_strings (crc32c_extend crc s) ss

unfoldable pub compute_column_checksum : Column → ℕ
unfolding extend_strings
compute_column_checksum col =
    let bitmap_crc = crc32c_extend 0 col.validity.bytes in
    let crc =
      crc32c_extend bitmap_crc (data_bytes (element_width col.type) (data_of col.type col)) in
    elim col.type [ string ↦ extend_strings crc col.dictionary.values | _ ↦ crc ]

-- A cell of a valid row; the `int32_data_[row]` of the source is in range for a row of the column.
unfoldable pub load : ColumnType → Column → ℕ → Option Value
load int32 col row = get_elem? col.int32_data row >>= λ x. some (Value.int32 x)
load int64 col row = get_elem? col.int64_data row >>= λ x. some (Value.int64 x)
load double col row = get_elem? col.double_data row >>= λ x. some (Value.double x)
load string col row = do
  code ← get_elem? col.string_codes row
  s ← value_of col.dictionary code
  some (Value.string s)

unfoldable pub value_at : Column → ℕ → Option Value
value_at col row = if is_valid col.validity row then load col.type col row else some null

unfoldable pub verify_integrity : List Column → Bool
verify_integrity [] = true
verify_integrity (col ∷ cols) = compute_column_checksum col == col.checksum && verify_integrity cols

-- The row at `row_idx`, `ExtractFullRow` of src/table/table.cpp, from a list of columns.
unfoldable pub read_row : List Column → ℕ → Option Row
read_row [] row_idx = some []
read_row (col ∷ cols) row_idx = do
  v ← value_at col row_idx
  vs ← read_row cols row_idx
  some (v ∷ vs)

abbrev pub is_null : Value → Bool
is_null null = true
is_null v = false

-- `Segment::CanSkip` of a column with bounds, from the comparisons of the literal with them.
abbrev pub skips : PredicateOp → Comparison → Comparison → Bool
skips eq cmp_min cmp_max = if Types.holds lt cmp_min then true else Types.holds gt cmp_max
skips gt cmp_min cmp_max = Types.holds ge cmp_max
skips ge cmp_min cmp_max = Types.holds gt cmp_max
skips lt cmp_min cmp_max = Types.holds le cmp_min
skips le cmp_min cmp_max = Types.holds lt cmp_min
skips ne cmp_min cmp_max = false

module _ (d : Double) where
  unfoldable pub can_skip : Segment → ℕ → PredicateOp → Value → Option Bool
  can_skip seg col_idx op literal = do
    col ← get_elem? seg.columns col_idx
    if (if is_null col.min then true else is_null col.max) then some false else do
      cmp_min ← compare_values d literal col.min
      cmp_max ← compare_values d literal col.max
      some (skips op cmp_min cmp_max)

-- The typed vector of the column at `row` takes the value.
unfoldable pub store : ColumnType → Column → ℕ → Value → Option Column
store int32 col row (Value.int32 x) = some (record col { int32_data = set col.int32_data row x })
store int64 col row (Value.int64 x) = some (record col { int64_data = set col.int64_data row x })
store double col row (Value.double x) =
    some (record col { double_data = set col.double_data row x })
store string col row (Value.string s) =
    let interned = intern_or_get col.dictionary s in
    some
      (record col { dictionary = interned.0; string_codes = set col.string_codes row interned.1 })
store type col row v = none

abbrev pub is_below : Comparison → Bool
is_below below = true
is_below c = false

abbrev pub is_above : Comparison → Bool
is_above above = true
is_above c = false

-- A column of `n` rows before the loop.
unfoldable pub fresh_column : ColumnType → ℕ → Column
fresh_column type n = record {
  type = type;
  validity = bitmap n true;
  min = null;
  max = null;
  checksum = 0;
  int32_data = elim type [ int32 ↦ replicate n 0 | _ ↦ [] ];
  int64_data = elim type [ int64 ↦ replicate n 0 | _ ↦ [] ];
  double_data = elim type [ double ↦ replicate n 0 | _ ↦ [] ];
  string_codes = elim type [ string ↦ replicate n 0 | _ ↦ [] ];
  dictionary = empty;
}

module _ (d : Double) where
  -- `min_` and `max_` after one more value; `have_bounds` says that there are some
  unfoldable pub widen : Bool → Column → Value → Option Column
  widen false col v = some (record col { min = v; max = v })
  widen true col v = do
    lo ← compare_values d v col.min
    let col' = if is_below lo then record col { min = v } else col
    hi ← compare_values d v col'.max
    some (if is_above hi then record col' { max = v } else col')

  -- The loop body at row `r`, whose cell is `v`: the column, and `have_bounds`.
  unfoldable pub fill_cell : ℕ → Column × Bool → Value → Option (Column × Bool)
  fill_cell r (col, have_bounds) null =
      some (record col { validity = set_valid col.validity r false }, have_bounds)
  fill_cell r (col, have_bounds) v = do
    stored ← store col.type col r v
    widened ← widen have_bounds stored v
    some (widened, true)

  unfoldable pub fill_rows : ℕ → ℕ → Column × Bool → List Row → Option (Column × Bool)
  fill_rows c r state [] = some state
  fill_rows c r state (row ∷ rows) = do
    v ← get_elem? row c
    state' ← fill_cell r state v
    fill_rows c (r + 1) state' rows

  unfoldable pub build_column : ℕ → ColumnType → List Row → Option Column
  unfolding fill_rows
  build_column c type rows = do
    state ← fill_rows c 0 (fresh_column type (length rows), false) rows
    some (record (state.0) { checksum = compute_column_checksum state.0 })

  unfoldable pub build_columns : ℕ → Schema → List Row → Option (List Column)
  build_columns c [] rows = some []
  build_columns c (cs ∷ schema) rows = do
    col ← build_column c cs.type rows
    cols ← build_columns (c + 1) schema rows
    some (col ∷ cols)

  unfoldable pub build : ℕ → Schema → List Row → Option Segment
  build segment_id schema rows = do
    columns ← build_columns 0 schema rows
    some (record {
      segment_id = segment_id;
      num_rows = length rows;
      schema = schema;
      columns = columns;
    })
