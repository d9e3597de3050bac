-- ===== src/Storage/File/BuiltColumn.antt =====
-- A column that `Segment::Build` of src/storage/segment.cpp makes can be saved.
use coredb.Prelude.{
  ℕ, ◌+◌, ◌/◌, ◌^◌, ◌<◌, ◌≡◌, refl, sym, ap, ◌∙◌, subst, Bool, false, List, [], ◌∷◌, some, length,
  arith, Option-cases, inl, inr, All, All-replicate,
}
use coredb.Util.Crc32c.{crc32c_extend}
use coredb.Storage.Types.{ColumnType, int32, int64, double, string, Row, Double}
use coredb.Storage.Dictionary.{from_values}
use coredb.Storage.Segment.{
  Column, data_of, element_width, extend_strings, fill_rows, fresh_column, build_column,
  compute_column_checksum,
}
use coredb.Storage.Segment.Fill.{Filling}
use coredb.Storage.Segment.Build.{fresh-Filling}
use coredb.Storage.File.Columns.{AreBounds}
use coredb.Storage.File.RoundTrip.{read_back, Storable, compute-checksum, data_of-checksum}
use coredb.Storage.File.Words.{Words, kept-Words}
use coredb.Storage.File.Keeps.{Keeps, CellStorable, fill_rows-Keeps}

fresh-Words : (t : ColumnType) (n : ℕ) → Words t (fresh_column t n)
unfolding fresh_column from_values
fresh-Words int32 n = record {
  ranged = All-replicate _ n 0 (omega arith);
  indexed = refl;
  short = tt;
  lean = (refl, refl, refl, refl);
}
fresh-Words int64 n = record {
  ranged = All-replicate _ n 0 (omega arith);
  indexed = refl;
  short = tt;
  lean = (refl, refl, refl, refl);
}
fresh-Words double n = record {
  ranged = All-replicate _ n 0 (omega arith);
  indexed = refl;
  short = tt;
  lean = (refl, refl, refl, refl);
}
fresh-Words string n = record {
  ranged = All-replicate _ n 0 (omega arith);
  indexed = refl;
  short = tt;
  lean = (refl, refl, refl);
}

crc_fits : (crc : ℕ) (bytes : List ℕ) → crc32c_extend crc bytes < 2 ^ 32
unfolding crc32c_extend
crc_fits crc bytes = omega arith

strings_fit : (crc : ℕ) (ss : List (List ℕ)) → crc < 2 ^ 32 → extend_strings crc ss < 2 ^ 32
unfolding extend_strings
strings_fit crc [] h = h
strings_fit crc (s ∷ ss) h = strings_fit (crc32c_extend crc s) ss (crc_fits crc s)

typed_fits :
    (t : ColumnType) (crc : ℕ) (ss : List (List ℕ))
    → crc < 2 ^ 32
    → (elim t [ string ↦ extend_strings crc ss | _ ↦ crc ]) < 2 ^ 32
typed_fits int32 crc ss h = h
typed_fits int64 crc ss h = h
typed_fits double crc ss h = h
typed_fits string crc ss h = strings_fit crc ss h

checksum_fits : (col : Column) → compute_column_checksum col < 2 ^ 32
unfolding compute_column_checksum
checksum_fits col = typed_fits col.type _ col.dictionary.values (crc_fits _ _)

-- A column that has nothing in the vectors of other types is what loading puts together.
lean-only :
    (t : ColumnType) (col : Column)
    → col.type ≡ t
    → Words t col
    → col ≡ record (read_back col) { checksum = col.checksum }
lean-only int32 col e w = rw e (λ i. record {
  type = ColumnType.int32;
  validity = col.validity;
  min = col.min;
  max = col.max;
  checksum = col.checksum;
  int32_data = col.int32_data;
  int64_data = w.lean.0 i;
  double_data = w.lean.1 i;
  string_codes = w.lean.2 i;
  dictionary = w.lean.3 i;
})
lean-only int64 col e w = rw e (λ i. record {
  type = ColumnType.int64;
  validity = col.validity;
  min = col.min;
  max = col.max;
  checksum = col.checksum;
  int32_data = w.lean.0 i;
  int64_data = col.int64_data;
  double_data = w.lean.1 i;
  string_codes = w.lean.2 i;
  dictionary = w.lean.3 i;
})
lean-only double col e w = rw e (λ i. record {
  type = ColumnType.double;
  validity = col.validity;
  min = col.min;
  max = col.max;
  checksum = col.checksum;
  int32_data = w.lean.0 i;
  int64_data = w.lean.1 i;
  double_data = col.double_data;
  string_codes = w.lean.2 i;
  dictionary = w.lean.3 i;
})
lean-only string col e w = rw e (λ i. record {
  type = ColumnType.string;
  validity = col.validity;
  min = col.min;
  max = col.max;
  checksum = col.checksum;
  int32_data = w.lean.0 i;
  int64_data = w.lean.1 i;
  double_data = w.lean.2 i;
  string_codes = col.string_codes;
  dictionary = w.indexed i;
})

-- A column of the type that holds what the loop leaves.
typed-Storable :
    (n : ℕ) (t : ColumnType) (col : Column) (b : Bool)
    → Filling t n n (col, b)
    → Keeps t (col, b)
    → compute_column_checksum col ≡ col.checksum
    → (col.type ≡ t) × Storable n col
typed-Storable n t col b f (w, bounds) sum = (
  f.type,
  record {
    rows = f.rows;
    bytes = f.bitmap.sized ∙ ap (λ n. (n + 7) / 8) f.rows;
    sized = subst (λ t. length (data_of t col) ≡ n) (sym f.type) f.sized;
    ranged =
        subst (λ t. All (λ x. x < 256 ^ element_width t) (data_of t col)) (sym f.type) w.ranged;
    bounds =
        subst (λ t. AreBounds t col.min col.max) (sym f.type)
          (elim bounds [
            | inl (has, lo, hi) ↦ inl (lo, hi)
            | inr (has, lo, hi) ↦ inr ((f.bounds has).0, (f.bounds has).1, lo, hi)
          ]);
    checksum = sum;
    checksum_fits = subst (λ k. k < 2 ^ 32) sum (checksum_fits col);
    entries = f.dict.fits;
    short = w.short;
    only = lean-only t col f.type w;
  },
)

-- The checksum that is set last changes none of it.
summed-Filling :
    (t : ColumnType) (n : ℕ) (s : Column × Bool) (k : ℕ)
    → Filling t n n s
    → Filling t n n (record (s.0) { checksum = k }, s.1)
summed-Filling t n s k f = record {
  type = f.type;
  sized = ap length (data_of-checksum t s.0 k) ∙ f.sized;
  bitmap = f.bitmap;
  rows = f.rows;
  dict = f.dict;
  room = f.room;
  untouched = f.untouched;
  bounds = f.bounds;
}

module _ (d : Double) where
  pub build_column-Storable :
      (c n : ℕ) (t : ColumnType) (rows : List Row) (col : Column)
      → length rows ≡ n
      → n < 2 ^ 32
      → All (CellStorable d t c) rows
      → build_column d c t rows ≡ some col
      → (col.type ≡ t) × Storable n col
  unfolding build_column fresh_column
  build_column-Storable c n t rows col len small h e =
      let fresh : Column × Bool = (fresh_column t (length rows), false) in
      elim (Option-cases (fill_rows d c 0 fresh rows)) [
        | inl threw ↦ absurd (ground (arith, e, threw))
        | inr (s, done) ↦
            let k = compute_column_checksum s.0 in
            let same : record (s.0) { checksum = k } ≡ col = ground (arith, e, done) in
            let (f, (keeps, bounds)) =
              fill_rows-Keeps d t c n 0 fresh s rows small
                (subst (λ n. Filling t n 0 fresh) len (fresh-Filling t (length rows)))
                (omega (arith, len)) h done (fresh-Words t (length rows), inl (refl, refl, refl)) in
            subst (λ col. (col.type ≡ t) × Storable n col) same
              (typed-Storable n t (record (s.0) { checksum = k }) s.1 (summed-Filling t n s k f)
                (kept-Words t s.0 (s.0).validity (s.0).min (s.0).max k keeps, bounds)
                (compute-checksum s.0 k))
      ]
