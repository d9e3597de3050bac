-- ===== src/Storage/File/RoundTrip.antt =====
-- What `SaveToFile` of src/storage/segment.cpp writes, `LoadFromFile` reads back.
use mathlib.Core.List.{append_assoc, append-nil}
use coredb.Prelude.{
  ℕ, ◌+◌, ◌/◌, ◌%◌, ◌^◌, ◌<◌, ◌≡◌, refl, ap, sym, subst, ◌∙◌, true, List, [], ◌∷◌, ◌++◌, some,
  length, All, arith,
}
use coredb.Util.Bytes.{le_bytes, read_raw-le_bytes, split_at-append}
use coredb.Storage.Types.{ColumnType, int32, int64, double, string, Schema}
use coredb.Storage.Dictionary.{string_eq}
use coredb.Storage.Segment.{
  Column, Segment, element_width, data_of, data_bytes, compute_column_checksum,
}
use coredb.Storage.File
use coredb.Storage.File.{magic, type_byte, ok, or_fail, check}
use coredb.Storage.File.Save.{null_count, write_dictionary, save_column, save_columns, save_to_file}
use coredb.Storage.File.Load.{
  blank, with_data, load_column, load_columns, is_magic, load_segment, load_from_file,
}
use coredb.Storage.File.Columns.{
  IsShort, AreBounds, dictionary_of, same_number, load_type-bytes, load_validity-bytes,
  load_bounds-write_bounds, read_words-data_bytes, load_dictionary-write_dictionary,
}

-- The column that loading has before its checksum.
abbrev pub read_back : Column → Column
read_back col =
    record (with_data col.type (data_of col.type col)
      (blank col.type col.validity col.min col.max)) {
        dictionary = dictionary_of col.type col.dictionary.values;
      }

-- A column of `n` rows that has nothing in the vectors of other types, and whose words fit their
-- widths.
pub record Storable (n : ℕ) (col : Column) : Type 0 where
  pub rows : col.validity.num_rows ≡ n
  pub bytes : length col.validity.bytes ≡ (n + 7) / 8
  pub sized : length (data_of col.type col) ≡ n
  pub ranged : All (λ x. x < 256 ^ element_width col.type) (data_of col.type col)
  pub bounds : AreBounds col.type col.min col.max
  pub checksum : compute_column_checksum col ≡ col.checksum
  pub checksum_fits : col.checksum < 2 ^ 32
  pub entries : length col.dictionary.values < 2 ^ 32
  pub short : All IsShort col.dictionary.values
  pub only : col ≡ record (read_back col) { checksum = col.checksum }

-- The bytes of a column, from those of its flag and bounds.
abbrev column_bytes : ℕ → Column → List ℕ → List ℕ
column_bytes n col bounds =
    type_byte col.type
    ∷ (le_bytes 4 (null_count n col)
        ++ (col.validity.bytes
            ++ (bounds
                ++ (le_bytes 4 col.checksum
                    ++ (data_bytes (element_width col.type) (data_of col.type col)
                        ++ write_dictionary col.type col.dictionary.values)))))

pub data_of-checksum :
    (t : ColumnType) (col : Column) (k : ℕ)
    → data_of t (record col { checksum = k }) ≡ data_of t col
data_of-checksum int32 col k = refl
data_of-checksum int64 col k = refl
data_of-checksum double col k = refl
data_of-checksum string col k = refl

-- The checksum has no part in itself.
pub compute-checksum :
    (col : Column) (k : ℕ)
    → compute_column_checksum (record col { checksum = k }) ≡ compute_column_checksum col
unfolding compute_column_checksum
compute-checksum col k = ground (arith, data_of-checksum col.type col k)

module _ (c n : ℕ) (small : n + 7 < 2 ^ 32) where
  -- What is left to read after each part.
  column_bytes-append :
      (col : Column) (bounds rest : List ℕ)
      → column_bytes n col bounds ++ rest
        ≡ type_byte col.type
          ∷ (le_bytes 4 (null_count n col)
              ++ (col.validity.bytes
                  ++ (bounds
                      ++ (le_bytes 4 col.checksum
                          ++ (data_bytes (element_width col.type) (data_of col.type col)
                              ++ (write_dictionary col.type col.dictionary.values ++ rest))))))
  column_bytes-append col bounds rest = simp (append_assoc)

  load_column-save_column :
      (col : Column)
      → Storable n col
      → (bytes : List ℕ) × (save_column n col ≡ some bytes)
        × ((rest : List ℕ) → load_column c n col.type (bytes ++ rest) ≡ ok (col, rest))
  unfolding load_column save_column File.◌>>=◌ or_fail check
  load_column-save_column col s =
      let (bounds, wrote, read_bounds) =
        load_bounds-write_bounds c n col.type col.min col.max s.bounds in
      let words = data_bytes (element_width col.type) (data_of col.type col) in
      let strings = write_dictionary col.type col.dictionary.values in
      let intact : compute_column_checksum (read_back col) ≡ col.checksum =
        sym (compute-checksum (read_back col) col.checksum)
        ∙ (ap compute_column_checksum (sym s.only) ∙ s.checksum) in
      (
        column_bytes n col bounds,
        rw wrote refl,
        λ rest.
            rw
              (
                column_bytes-append col bounds rest,
                load_type-bytes c n col.type (
                    le_bytes 4 (null_count n col)
                    ++ (col.validity.bytes
                        ++ (bounds ++ (le_bytes 4 col.checksum ++ (words ++ (strings ++ rest)))))),
                load_validity-bytes c n col.validity
                    (bounds ++ (le_bytes 4 col.checksum ++ (words ++ (strings ++ rest)))) s.rows
                    s.bytes small,
                read_bounds (le_bytes 4 col.checksum ++ (words ++ (strings ++ rest))),
                read_raw-le_bytes 4 col.checksum (words ++ (strings ++ rest)) s.checksum_fits,
                read_words-data_bytes (element_width col.type) n (data_of col.type col)
                    (strings ++ rest) s.sized s.ranged,
                load_dictionary-write_dictionary c n col.type col.dictionary.values rest s.entries
                    s.short,
                intact,
                same_number col.checksum,
              )
              (ap (λ k. ok (k, rest)) (sym s.only)),
      )

-- The columns of a schema, each with its type.
abbrev pub Typed : Schema → List Column → Type 0
Typed [] [] = Unit
Typed (cs ∷ schema) (col ∷ cols) = (col.type ≡ cs.type) × Typed schema cols
Typed schema cols = ⊥

load_columns-save_columns :
    (c n : ℕ) (schema : Schema) (cols : List Column)
    → n + 7 < 2 ^ 32
    → Typed schema cols
    → All (Storable n) cols
    → (bytes : List ℕ) × (save_columns n cols ≡ some bytes)
      × ((rest : List ℕ) → load_columns c n schema (bytes ++ rest) ≡ ok (cols, rest))
unfolding load_columns save_columns File.◌>>=◌ or_fail check
load_columns-save_columns c n [] [] small t s = ([], refl, λ rest. refl)
load_columns-save_columns c n [] (col ∷ cols) small t s = absurd t
load_columns-save_columns c n (cs ∷ schema) [] small t s = absurd t
load_columns-save_columns c n (cs ∷ schema) (col ∷ cols) small t s =
    let (one, wrote, read_one) = load_column-save_column c n small col s.0 in
    let (others, wrotes, read_others) =
      load_columns-save_columns (c + 1) n schema cols small t.1 s.1 in
    (
      one ++ others,
      rw (wrote, wrotes) refl,
      λ rest.
          rw (append_assoc one others rest, sym t.0, read_one (others ++ rest), read_others rest)
            refl,
    )

-- A segment whose numbers fit their widths and whose columns have the types of its schema.
pub record Savable (seg : Segment) : Type 0 where
  pub segment_id : seg.segment_id < 2 ^ 64
  pub num_rows : seg.num_rows + 7 < 2 ^ 32
  pub num_columns : length seg.schema < 2 ^ 32
  pub typed : Typed seg.schema seg.columns
  pub columns : All (Storable seg.num_rows) seg.columns

Typed-length :
    (schema : Schema) (cols : List Column) → Typed schema cols → length cols ≡ length schema
Typed-length [] [] t = refl
Typed-length [] (col ∷ cols) t = absurd t
Typed-length (cs ∷ schema) [] t = absurd t
Typed-length (cs ∷ schema) (col ∷ cols) t = omega (arith, Typed-length schema cols t.1)

-- The bytes of a file, from those of its columns.
abbrev segment_bytes : Segment → List ℕ → List ℕ
segment_bytes seg columns =
    magic
    ++ (le_bytes 4 (length seg.columns % 2 ^ 32)
        ++ (le_bytes 8 seg.segment_id ++ (le_bytes 4 (seg.num_rows % 2 ^ 32) ++ columns)))

is_magic-magic : is_magic magic ≡ true
unfolding string_eq
is_magic-magic = refl

pub load_segment-save_to_file :
    (seg : Segment)
    → Savable seg
    → (bytes : List ℕ) × (save_to_file seg ≡ some bytes)
      × ((rest : List ℕ) → load_segment seg.schema (bytes ++ rest) ≡ ok (seg, rest))
unfolding load_segment save_to_file File.◌>>=◌ or_fail check
load_segment-save_to_file seg s =
    let (columns, wrote, read_columns) =
      load_columns-save_columns 0 seg.num_rows seg.schema seg.columns s.num_rows s.typed
        s.columns in
    let count = Typed-length seg.schema seg.columns s.typed in
    let rows : seg.num_rows % 2 ^ 32 ≡ seg.num_rows = omega (arith, s.num_rows) in
    let cols : length seg.columns % 2 ^ 32 ≡ length seg.schema =
      omega (arith, s.num_columns, count) in
    (
      segment_bytes seg columns,
      rw wrote refl,
      λ rest.
          rw
            (
              cols,
              rows,
              append_assoc (le_bytes 4 (length seg.schema))
                  (le_bytes 8 seg.segment_id ++ (le_bytes 4 seg.num_rows ++ columns)) rest,
              append_assoc (le_bytes 8 seg.segment_id) (le_bytes 4 seg.num_rows ++ columns) rest,
              append_assoc (le_bytes 4 seg.num_rows) columns rest,
              split_at-append magic
                  (le_bytes 4 (length seg.schema)
                    ++ (le_bytes 8 seg.segment_id
                        ++ (le_bytes 4 seg.num_rows ++ (columns ++ rest))))
                  8 refl,
              is_magic-magic,
              read_raw-le_bytes 4 (length seg.schema)
                  (le_bytes 8 seg.segment_id ++ (le_bytes 4 seg.num_rows ++ (columns ++ rest)))
                  s.num_columns,
              read_raw-le_bytes 8 seg.segment_id (le_bytes 4 seg.num_rows ++ (columns ++ rest))
                  s.segment_id,
              read_raw-le_bytes 4 seg.num_rows (columns ++ rest) (omega (arith, s.num_rows)),
              same_number (length seg.schema),
              read_columns rest,
            )
            refl,
    )

-- A segment whose id, row and column counts fit the header, fewer than 2 ^ 32 - 7 rows, whose
-- columns have the types of its schema, each with the rows of the segment, nothing in the vectors
-- of other types, words that fit their widths, bounds of its type or none, and its checksum, is
-- saved without an exception, and the file is loaded as the segment that was saved.
pub load_from_file-save_to_file :
    (seg : Segment)
    → Savable seg
    → (bytes : List ℕ) × (save_to_file seg ≡ some bytes)
      × (load_from_file seg.schema bytes ≡ ok seg)
unfolding load_from_file File.◌>>=◌ or_fail check
load_from_file-save_to_file seg s =
    let (bytes, wrote, read) = load_segment-save_to_file seg s in
    let whole : load_segment seg.schema bytes ≡ ok (seg, []) =
      subst (λ b. load_segment seg.schema b ≡ ok (seg, [])) (append-nil bytes) (read []) in
    (bytes, wrote, rw whole refl)
