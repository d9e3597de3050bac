-- ===== src/Storage/Segment/Build.antt =====
-- `Segment::Build` of src/storage/segment.cpp keeps every cell of every row.
use coredb.Prelude.{
  ℕ, zero, suc, ◌+◌, ◌^◌, ◌<◌, ◌≡◌, refl, ap, sym, ◌∙◌, Bool, true, false, List, [], ◌∷◌, some, All,
  All-map, All-get_elem?, length, get_elem?, get_elem?-drop, drop, length-replicate, arith,
}
use coredb.Util.Bitmap.{bitmap}
use coredb.Util.Bitmap.Laws.{bitmap-WellFormed, is_valid-bitmap}
use coredb.Storage.Types.{
  ColumnType, int32, int64, double, string, ColumnSchema, Schema, Value, Row, Double,
}
use coredb.Storage.Dictionary.Laws.{empty-IsValid}
use coredb.Storage.Segment.{
  Column, Segment, data_of, load, value_at, read_row, fill_rows, fresh_column, build_column,
  build_columns, build, compute_column_checksum,
}
use coredb.Storage.Segment.Store.{fits}
use coredb.Storage.Segment.Fill.{Filling, Filled, fill_total}

-- A row of the schema: as many cells, each NULL or of its column's type.
abbrev pub RowFits : Schema → Row → Type 0
RowFits [] [] = Unit
RowFits (cs ∷ schema) (v ∷ row) = (fits cs.type v ≡ true) × RowFits schema row
RowFits schema row = ⊥

-- Cell `c` of the row fits the type.
abbrev CellFits : ℕ → ColumnType → Row → Type 0
CellFits c t row = (v : Value) × (get_elem? row c ≡ some v) × (fits t v ≡ true)

-- The loop from row `r` on ends in a column with the cells of the rows, and those before.
record Loaded (d : Double) (c r : ℕ) (s : Column × Bool) (rows : List Row) (s' : Column × Bool)
    : Type 0 where
  done : fill_rows d c r s rows ≡ some s'
  before : (i : ℕ) (w : Value) → i < r → value_at s.0 i ≡ some w → value_at s'.0 i ≡ some w
  cells :
      (i j : ℕ) (row : Row) (v : Value)
      → i ≡ r + j
      → get_elem? rows j ≡ some row
      → get_elem? row c ≡ some v
      → value_at s'.0 i ≡ some v

module _ (d : Double) (c : ℕ) (t : ColumnType) (n : ℕ) (small : n < 2 ^ 32) where
  -- The cells of the first row, and those of the rest.
  cells_from :
      {r : ℕ} {s : Column × Bool} {rows : List Row} (row : Row) (i j : ℕ) (v : Value)
      → get_elem? row c ≡ some v
      → (s' s'' : Column × Bool) → Filled d t n r s v s'
      → Loaded d c (suc r) s' rows s''
      → (row' : Row) (v' : Value) → i ≡ r + j
      → get_elem? (row ∷ rows) j ≡ some row'
      → get_elem? row' c ≡ some v'
      → value_at s''.0 i ≡ some v'
  cells_from {r} row i zero v at s' s'' one rest row' v' e found cell =
      let first : i ≡ r = omega arith in ground (arith, rest.before r v (omega arith) one.here)
  cells_from row i (suc j) v at s' s'' one rest row' v' e found cell =
      rest.cells i j row' v' (omega arith) found cell

  fill_rows_total :
      (r : ℕ) (s : Column × Bool) (rows : List Row)
      → Filling t n r s
      → r + length rows ≡ n
      → All (CellFits c t) rows
      → (s' : Column × Bool) × Loaded d c r s rows s'
  unfolding fill_rows
  fill_rows_total r s [] f e h =
      (s, record { done = refl; before = λ i w lt at. at; cells = λ i j row v e at cell. cc })
  fill_rows_total r s (row ∷ rows) f e h =
      let (v, at, ok) = h.0 in
      let (s', one) = fill_total d t n r s f (omega arith) small v ok in
      let (s'', rest) = fill_rows_total (suc r) s' rows one.filling (omega arith) h.1 in
      (
        s'',
        record {
          done = ground (arith, at, one.done, rest.done);
          before = λ i w lt old. rest.before i w (omega arith) (one.there i w lt old);
          cells = λ i j. cells_from row i j v at s' s'' one rest;
        },
      )

-- A fresh column of `n` rows.
fresh_sized : (t : ColumnType) (n : ℕ) → length (data_of t (fresh_column t n)) ≡ n
unfolding fresh_column
fresh_sized int32 n = length-replicate n 0
fresh_sized int64 n = length-replicate n 0
fresh_sized double n = length-replicate n 0
fresh_sized string n = length-replicate n 0

num_rows-bitmap : (n : ℕ) (v : Bool) → (bitmap n v).num_rows ≡ n
unfolding bitmap
num_rows-bitmap n v = refl

pub fresh-Filling : (t : ColumnType) (n : ℕ) → Filling t n 0 (fresh_column t n, false)
unfolding fresh_column
fresh-Filling t n = record {
  type = refl;
  sized = fresh_sized t n;
  bitmap = bitmap-WellFormed n true;
  rows = num_rows-bitmap n true;
  dict = empty-IsValid;
  room = omega arith;
  untouched = λ i lo hi. is_valid-bitmap n i true hi;
  bounds = λ h. cc;
}

-- The checksum has no part in reading a cell.
load-checksum :
    (t : ColumnType) (col : Column) (k i : ℕ)
    → load t (record col { checksum = k }) i ≡ load t col i
unfolding load
load-checksum int32 col k i = refl
load-checksum int64 col k i = refl
load-checksum double col k i = refl
load-checksum string col k i = refl

value_at-checksum :
    (col : Column) (k i : ℕ) → value_at (record col { checksum = k }) i ≡ value_at col i
unfolding value_at
value_at-checksum col k i = ground (arith, load-checksum col.type col k i)

module _ (d : Double) where
  build_column_total :
      (c : ℕ) (t : ColumnType) (rows : List Row)
      → length rows < 2 ^ 32
      → All (CellFits c t) rows
      → (col : Column) × (build_column d c t rows ≡ some col)
        × ((j : ℕ) (row : Row) (v : Value)
            → get_elem? rows j ≡ some row
            → get_elem? row c ≡ some v
            → value_at col j ≡ some v)
  unfolding build_column
  build_column_total c t rows small h =
      let (s', all) =
        fill_rows_total d c t (length rows) small 0 (fresh_column t (length rows), false) rows
          (fresh-Filling t (length rows)) (omega arith) h in
      (
        record (s'.0) { checksum = compute_column_checksum s'.0 },
        ground (arith, all.done),
        λ j row v at cell.
            value_at-checksum s'.0 (compute_column_checksum s'.0) j
            ∙ all.cells j j row v (omega arith) at cell,
      )

-- What is left of a fitting row from cell `c` on.
pub drop-CellFits :
    (c : ℕ) (cs : ColumnSchema) (schema : Schema) (row rest : Row)
    → drop c row ≡ rest
    → RowFits (cs ∷ schema) rest
    → CellFits c cs.type row × RowFits schema (drop (c + 1) row)
drop-CellFits c cs schema row [] e h = absurd h
drop-CellFits c cs schema row (v ∷ rest) e h =
    let (at, tail) = get_elem?-drop c row rest v e in ((v, at, h.0), rw tail h.1)

no_cells : (row : Row) → RowFits [] row → row ≡ []
no_cells [] h = refl
no_cells (v ∷ row) h = absurd h

drop-cons :
    (c : ℕ) (cs : ColumnSchema) (schema : Schema) (row rest : Row)
    → drop c row ≡ rest
    → RowFits (cs ∷ schema) rest
    → (v : Value) × (get_elem? row c ≡ some v) × (drop c row ≡ v ∷ drop (c + 1) row)
drop-cons c cs schema row [] e h = absurd h
drop-cons c cs schema row (v ∷ rest) e h =
    let (at, tail) = get_elem?-drop c row rest v e in (v, at, ground (arith, tail))

module _ (d : Double) where
  build_columns_total :
      (c : ℕ) (schema : Schema) (rows : List Row)
      → length rows < 2 ^ 32
      → All (λ row. RowFits schema (drop c row)) rows
      → (cols : List Column) × (build_columns d c schema rows ≡ some cols)
        × ((j : ℕ) (row : Row) → get_elem? rows j ≡ some row → read_row cols j ≡ some (drop c row))
  unfolding build_columns read_row
  build_columns_total c [] rows small h = (
    [],
    refl,
    λ j row at.
        ap some (
          sym (no_cells (drop c row) (All-get_elem? (λ r. RowFits [] (drop c r)) rows j row h at))),
  )
  build_columns_total c (cs ∷ schema) rows small h =
      let cells =
        All-map _ _ (λ row fit. (drop-CellFits c cs schema row (drop c row) refl fit).0) rows h in
      let rests =
        All-map _ _ (λ row fit. (drop-CellFits c cs schema row (drop c row) refl fit).1) rows h in
      let (col, built, first) = build_column_total d c cs.type rows small cells in
      let (cols, builts, others) = build_columns_total (c + 1) schema rows small rests in
      (
        col ∷ cols,
        ground (arith, built, builts),
        λ j row at.
            let fit = All-get_elem? (λ r. RowFits (cs ∷ schema) (drop c r)) rows j row h at in
            let (v, cell, split) = drop-cons c cs schema row (drop c row) refl fit in
            ground (arith, first j row v at cell, others j row at, split),
      )

-- Fewer than 2 ^ 32 rows that fit the schema are built into a segment without an exception, the
-- segment has as many rows, and each of them reads back as it was.
pub build_total :
    (d : Double) (segment_id : ℕ) (schema : Schema) (rows : List Row)
    → length rows < 2 ^ 32
    → All (RowFits schema) rows
    → (seg : Segment) × (build d segment_id schema rows ≡ some seg)
      × (seg.num_rows ≡ length rows)
      × ((j : ℕ) (row : Row) → get_elem? rows j ≡ some row → read_row seg.columns j ≡ some row)
unfolding build
build_total d segment_id schema rows small h =
    let (cols, built, reads) = build_columns_total d 0 schema rows small h in
    (
      record { segment_id = segment_id; num_rows = length rows; schema = schema; columns = cols },
      ground (arith, built),
      refl,
      reads,
    )
