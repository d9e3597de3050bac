-- ===== src/Storage/Segment/Fill.antt =====
-- One cell of the loop of `Segment::Build` in src/storage/segment.cpp: it does not throw on a value
-- of the column's type, the cell reads back, and the cells before it stay as they were.
use coredb.Prelude.{
  ℕ, suc, ◌^◌, ◌<◌, ◌≤◌, ◌≡◌, refl, ap, ◌∙◌, Bool, true, false, some, ◌==◌, if◌then◌else◌, ◌>>=◌,
  length, arith,
}
use coredb.Util.Bitmap.{Bitmap, is_valid, set_valid}
use coredb.Util.Bitmap.Laws.{WellFormed, set_valid-WellFormed, is_valid-set_valid}
use coredb.Storage.Types.{ColumnType, int32, int64, double, string, Value, null, Double}
use coredb.Storage.Dictionary.Laws.{IsValid}
use coredb.Storage.Segment.{Column, data_of, load, value_at, store, widen, fill_cell}
use coredb.Storage.Segment.Store.{matches, fits, Stored, store_total}
use coredb.Storage.Segment.Widen.{Widened, widen_total}

-- The state of the loop before row `r` of `n`.
pub record Filling (t : ColumnType) (n r : ℕ) (s : Column × Bool) : Type 0 where
  pub type : (s.0).type ≡ t
  pub sized : length (data_of t s.0) ≡ n
  pub bitmap : WellFormed (s.0).validity
  pub rows : (s.0).validity.num_rows ≡ n
  pub dict : IsValid (s.0).dictionary
  pub room : length (s.0).dictionary.values ≤ r
  pub untouched : (i : ℕ) → r ≤ i → i < n → is_valid (s.0).validity i ≡ true
  pub bounds : s.1 ≡ true → (matches t (s.0).min ≡ true) × (matches t (s.0).max ≡ true)

-- The state after row `r`: it holds the row's value, and the cells before it as they were.
pub record Filled (d : Double) (t : ColumnType) (n r : ℕ) (s : Column × Bool) (v : Value)
    (s' : Column × Bool) : Type 0 where
  pub done : fill_cell d r s v ≡ some s'
  pub filling : Filling t n (suc r) s'
  pub here : value_at s'.0 r ≡ some v
  pub there : (i : ℕ) (w : Value) → i < r → value_at s.0 i ≡ some w → value_at s'.0 i ≡ some w

-- The typed data do not depend on the validity bits.
data_of-validity :
    (t : ColumnType) (col : Column) (b : Bitmap)
    → data_of t (record col { validity = b }) ≡ data_of t col
data_of-validity int32 col b = refl
data_of-validity int64 col b = refl
data_of-validity double col b = refl
data_of-validity string col b = refl

load-validity :
    (t : ColumnType) (col : Column) (b : Bitmap) (i : ℕ)
    → load t (record col { validity = b }) i ≡ load t col i
unfolding load
load-validity int32 col b i = refl
load-validity int64 col b i = refl
load-validity double col b i = refl
load-validity string col b i = refl

rows-set_valid : (b : Bitmap) (r : ℕ) (v : Bool) → (set_valid b r v).num_rows ≡ b.num_rows
unfolding set_valid
rows-set_valid b r v = refl

not-matches-null : (t : ColumnType) → ¬ (matches t null ≡ true)
not-matches-null int32 m = cc
not-matches-null int64 m = cc
not-matches-null double m = cc
not-matches-null string m = cc

pub fill_cell_value :
    (d : Double) (t : ColumnType) (r : ℕ) (s : Column × Bool) (v : Value)
    → matches t v ≡ true
    → fill_cell d r s v
      ≡ (do stored ← store (s.0).type s.0 r v; widened ← widen d s.1 stored v; some (widened, true))
unfolding fill_cell
fill_cell_value d t r s null m = absurd (not-matches-null t m)
fill_cell_value d t r s (Value.int32 x) m = refl
fill_cell_value d t r s (Value.int64 x) m = refl
fill_cell_value d t r s (Value.double x) m = refl
fill_cell_value d t r s (Value.string x) m = refl

module _ (d : Double) (t : ColumnType) (n r : ℕ) (s : Column × Bool) (f : Filling t n r s)
    (inside : r < n) (small : n < 2 ^ 32) where
  in_bitmap : r < (s.0).validity.num_rows
  in_bitmap = omega (arith, f.rows)

  abbrev nulled : Column
  nulled = record (s.0) { validity = set_valid (s.0).validity r false }

  bit : (i : ℕ) → is_valid nulled.validity i ≡ (if r == i then false else is_valid (s.0).validity i)
  bit = is_valid-set_valid (s.0).validity f.bitmap r in_bitmap false

  fill_null : Filled d t n r s null (nulled, s.1)
  unfolding fill_cell value_at
  fill_null = record {
    done = refl;
    filling = record {
      type = f.type;
      sized = rw (data_of-validity t s.0 nulled.validity) f.sized;
      bitmap = set_valid-WellFormed (s.0).validity f.bitmap r in_bitmap false;
      rows = rw rows-set_valid f.rows;
      dict = f.dict;
      room = omega (arith, f.room);
      untouched = λ i lo hi. ground (arith, bit i, f.untouched i);
      bounds = f.bounds;
    };
    here = ground (arith, bit r);
    there = λ i w lt e. ground (arith, bit i, load-validity (s.0).type s.0 nulled.validity i);
  }

  -- The two steps at a value that is no NULL.
  module _ (v : Value) (m : matches t v ≡ true) (stored widened : Column)
      (st : Stored t s.0 r v stored) (wd : Widened t stored widened)
      (ok : widen d s.1 stored v ≡ some widened) where
    same_validity : widened.validity ≡ (s.0).validity
    same_validity = wd.validity ∙ st.validity

    same_type : widened.type ≡ t
    same_type = wd.type ∙ st.type ∙ f.type

    fill_stored : Filled d t n r s v (widened, true)
    unfolding value_at
    fill_stored = record {
      done = ground (arith, fill_cell_value d t r s v m, f.type, st.done, ok);
      filling = record {
        type = same_type;
        sized = ap length wd.sized ∙ st.sized ∙ f.sized;
        bitmap = rw same_validity f.bitmap;
        rows = rw same_validity f.rows;
        dict = rw wd.dictionary st.dict;
        room = rw wd.dictionary (omega (arith, st.room, f.room));
        untouched = λ i lo hi. rw same_validity (f.untouched i (omega arith) hi);
        bounds = λ _. (wd.lower, wd.upper);
      };
      here =
          ground (
            arith,
            same_validity,
            same_type,
            wd.same r,
            st.here,
            f.untouched r (omega arith) inside,
          );
      there = λ i w lt e.
          ground (arith, same_validity, same_type, f.type, wd.same i, st.there i w (omega arith));
    }

  fill_value : (v : Value) → matches t v ≡ true → (s' : Column × Bool) × Filled d t n r s v s'
  fill_value v m =
      let (stored, st) =
        store_total t s.0 r v f.dict (omega (arith, f.room)) m (omega (arith, f.sized)) in
      let (widened, ok, wd) =
        widen_total d t s.1 stored v m (λ h. rw (st.min, st.max) (f.bounds h)) in
      ((widened, true), fill_stored v m stored widened st wd ok)

  -- A cell that fits the column is filled without an exception.
  pub fill_total : (v : Value) → fits t v ≡ true → (s' : Column × Bool) × Filled d t n r s v s'
  fill_total null m = (_, fill_null)
  fill_total (Value.int32 x) m = fill_value (Value.int32 x) m
  fill_total (Value.int64 x) m = fill_value (Value.int64 x) m
  fill_total (Value.double x) m = fill_value (Value.double x) m
  fill_total (Value.string x) m = fill_value (Value.string x) m
