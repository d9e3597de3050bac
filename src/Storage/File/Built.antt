-- ===== src/Storage/File/Built.antt =====
-- A segment that `Segment::Build` of src/storage/segment.cpp makes, saved and loaded again.
use coredb.Prelude.{
  ℕ, ◌+◌, ◌^◌, ◌<◌, ◌≡◌, refl, subst, List, [], ◌∷◌, some, get_elem?, length, arith, Option-cases,
  inl, inr, All, All-map, All-get_elem?, drop,
}
use coredb.Storage.Types.{ColumnSchema, Schema, Row, Double, InRange}
use coredb.Storage.Segment.{Column, Segment, build_column, build_columns, build, read_row}
use coredb.Storage.Segment.Build.{RowFits, drop-CellFits, build_total}
use coredb.Storage.File.{ok}
use coredb.Storage.File.Save.{save_to_file}
use coredb.Storage.File.Load.{load_from_file}
use coredb.Storage.File.RoundTrip.{Storable, Typed, Savable, load_from_file-save_to_file}
use coredb.Storage.File.Keeps.{CellStorable}
use coredb.Storage.File.BuiltColumn.{build_column-Storable}

module _ (d : Double) where
  -- A row from cell `c` on, for the columns that are left.
  abbrev Fitting : ℕ → Schema → Row → Type 0
  Fitting c schema row = RowFits schema (drop c row) × All InRange row

  first_cell :
      (c : ℕ) (cs : ColumnSchema) (schema : Schema) (row : Row)
      → Fitting c (cs ∷ schema) row
      → CellStorable d cs.type c row × Fitting (c + 1) schema row
  first_cell c cs schema row (h, ranged) =
      let ((v, at, fit), rest) = drop-CellFits c cs schema row (drop c row) refl h in
      ((v, at, fit, All-get_elem? InRange row c v ranged at), (rest, ranged))

  build_columns-Storable :
      (c n : ℕ) (schema : Schema) (rows : List Row) (cols : List Column)
      → length rows ≡ n
      → n < 2 ^ 32
      → All (Fitting c schema) rows
      → build_columns d c schema rows ≡ some cols
      → Typed schema cols × All (Storable n) cols
  unfolding build_columns
  build_columns-Storable c n [] rows cols len small h e =
      let same : [] ≡ cols = ground (arith, e) in
      subst (λ cols. Typed [] cols × All (Storable n) cols) same (tt, tt)
  build_columns-Storable c n (cs ∷ schema) rows cols len small h e =
      elim (Option-cases (build_column d c cs.type rows)) [
        | inl threw ↦ absurd (ground (arith, e, threw))
        | inr (first, e1) ↦ elim (Option-cases (build_columns d (c + 1) schema rows)) [
          | inl threw ↦ absurd (ground (arith, e, e1, threw))
          | inr (others, e2) ↦
              let whole : first ∷ others ≡ cols = ground (arith, e, e1, e2) in
              let cells = All-map _ _ (λ row fit. (first_cell c cs schema row fit).0) rows h in
              let rests = All-map _ _ (λ row fit. (first_cell c cs schema row fit).1) rows h in
              let (type, one) = build_column-Storable d c n cs.type rows first len small cells e1 in
              let (types, all) =
                build_columns-Storable (c + 1) n schema rows others len small rests e2 in
              subst (λ cols. Typed (cs ∷ schema) cols × All (Storable n) cols) whole
                ((type, types), (one, all))
        ]
      ]

  built-Savable :
      (segment_id : ℕ) (schema : Schema) (rows : List Row) (seg : Segment)
      → segment_id < 2 ^ 64
      → length rows + 7 < 2 ^ 32
      → length schema < 2 ^ 32
      → All (Fitting 0 schema) rows
      → build d segment_id schema rows ≡ some seg
      → (seg.schema ≡ schema) × Savable seg
  unfolding build
  built-Savable segment_id schema rows seg id small narrow h e =
      elim (Option-cases (build_columns d 0 schema rows)) [
        | inl threw ↦ absurd (ground (arith, e, threw))
        | inr (cols, done) ↦
            let made : Segment = record {
              segment_id = segment_id;
              num_rows = length rows;
              schema = schema;
              columns = cols;
            } in
            let same : made ≡ seg = ground (arith, e, done) in
            let (types, all) =
              build_columns-Storable 0 (length rows) schema rows cols refl (omega (arith, small)) h
                done in
            subst (λ seg. (seg.schema ≡ schema) × Savable seg) same
              (
                refl,
                record {
                  segment_id = id;
                  num_rows = small;
                  num_columns = narrow;
                  typed = types;
                  columns = all;
                },
              )
      ]

  -- Rows that fit the schema, each cell within its width, fewer than 2 ^ 32 - 7 of them, under a
  -- segment id and a number of columns that fit the header, are built into a segment, the segment
  -- is saved to a file, and the file is loaded as the segment, all without an exception or an
  -- error. Each row reads back from it as it was.
  pub save_to_file-build :
      (segment_id : ℕ) (schema : Schema) (rows : List Row)
      → segment_id < 2 ^ 64
      → length rows + 7 < 2 ^ 32
      → length schema < 2 ^ 32
      → All (λ row. RowFits schema row × All InRange row) rows
      → (seg : Segment) × (bytes : List ℕ) × (build d segment_id schema rows ≡ some seg)
        × (save_to_file seg ≡ some bytes)
        × (load_from_file schema bytes ≡ ok seg)
        × ((j : ℕ) (row : Row) → get_elem? rows j ≡ some row → read_row seg.columns j ≡ some row)
  save_to_file-build segment_id schema rows id small narrow h =
      let (seg, built, count, reads) =
        build_total d segment_id schema rows (omega (arith, small))
          (All-map _ _ (λ row fit. fit.0) rows h) in
      let (same, savable) = built-Savable segment_id schema rows seg id small narrow h built in
      let (bytes, saved, loaded) = load_from_file-save_to_file seg savable in
      (seg, bytes, built, saved, subst (λ s. load_from_file s bytes ≡ ok seg) same loaded, reads)
