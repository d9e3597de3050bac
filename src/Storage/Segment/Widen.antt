-- ===== src/Storage/Segment/Widen.antt =====
-- `Segment::Build` of src/storage/segment.cpp widens the bounds of a column by a value.
use coredb.Prelude.{ℕ, ◌≡◌, refl, Bool, true, false, some, if◌then◌else◌, arith}
use coredb.Storage.Types.{
  ColumnType, int32, int64, double, string, Value, Double, Comparison, compare_values,
}
use coredb.Storage.Segment.{Column, data_of, load, widen, is_below, is_above}
use coredb.Storage.Segment.Store.{matches}

module _ (d : Double) where
  -- Values of one type compare without an exception.
  pub compare_total :
      (t : ColumnType) (a b : Value)
      → matches t a ≡ true
      → matches t b ≡ true
      → (c : Comparison) × (compare_values d a b ≡ some c)
  unfolding compare_values
  compare_total int32 (Value.int32 a) (Value.int32 b) h k = (_, refl)
  compare_total int64 (Value.int64 a) (Value.int64 b) h k = (_, refl)
  compare_total double (Value.double a) (Value.double b) h k = (_, refl)
  compare_total string (Value.string a) (Value.string b) h k = (_, refl)
  compare_total t a b h k = cc

-- What widening the bounds gives: a column that differs in its bounds alone, both of the type.
pub record Widened (t : ColumnType) (col col' : Column) : Type 0 where
  pub type : col'.type ≡ col.type
  pub validity : col'.validity ≡ col.validity
  pub sized : data_of t col' ≡ data_of t col
  pub dictionary : col'.dictionary ≡ col.dictionary
  pub same : (i : ℕ) → load t col' i ≡ load t col i
  pub lower : matches t col'.min ≡ true
  pub upper : matches t col'.max ≡ true

rebound :
    (t : ColumnType) (col : Column) (lo hi : Value)
    → matches t lo ≡ true
    → matches t hi ≡ true
    → Widened t col (record col { min = lo; max = hi })
unfolding load
rebound int32 col lo hi p q = record {
  type = refl;
  validity = refl;
  sized = refl;
  dictionary = refl;
  same = λ i. refl;
  lower = p;
  upper = q;
}
rebound int64 col lo hi p q = record {
  type = refl;
  validity = refl;
  sized = refl;
  dictionary = refl;
  same = λ i. refl;
  lower = p;
  upper = q;
}
rebound double col lo hi p q = record {
  type = refl;
  validity = refl;
  sized = refl;
  dictionary = refl;
  same = λ i. refl;
  lower = p;
  upper = q;
}
rebound string col lo hi p q = record {
  type = refl;
  validity = refl;
  sized = refl;
  dictionary = refl;
  same = λ i. refl;
  lower = p;
  upper = q;
}

module _ (d : Double) where
  pub widen_by :
      (col : Column) (v : Value) (lo hi : Comparison)
      → compare_values d v col.min ≡ some lo
      → compare_values d v col.max ≡ some hi
      → widen d true col v
        ≡ some (record col {
          min = if is_below lo then v else col.min;
          max = if is_above hi then v else col.max;
        })
  unfolding widen
  widen_by col v lo hi p q = ground (arith, p, q)

  -- Widening the bounds by a value of the type does not throw.
  pub widen_total :
      (t : ColumnType) (have_bounds : Bool) (col : Column) (v : Value)
      → matches t v ≡ true
      → (have_bounds ≡ true → (matches t col.min ≡ true) × (matches t col.max ≡ true))
      → (col' : Column) × (widen d have_bounds col v ≡ some col') × Widened t col col'
  unfolding widen
  widen_total t false col v m b = (_, refl, rebound t col v v m m)
  widen_total t true col v m b =
      let (lo, p) = compare_total d t v col.min m (b refl).0 in
      let (hi, q) = compare_total d t v col.max m (b refl).1 in
      (
        _,
        widen_by col v lo hi p q,
        rebound t col (if is_below lo then v else col.min) (if is_above hi then v else col.max)
            (ground (arith, b refl)) (ground (arith, b refl)),
      )
