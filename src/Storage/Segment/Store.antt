-- ===== src/Storage/Segment/Store.antt =====
-- `Segment::Build` of src/storage/segment.cpp stores a cell in the typed vector of its column.
use coredb.Prelude.{
  ℕ, ◌+◌, ◌^◌, ◌<◌, ◌≤◌, ◌≡◌, ◌≢◌, refl, Bool, true, false, List, some, length, get_elem?,
  get_elem?-set, set, length-set, arith, Option-cases, inl, inr,
}
use coredb.Storage.Types.{ColumnType, int32, int64, double, string, Value, null}
use coredb.Storage.Dictionary.{intern_or_get, value_of}
use coredb.Storage.Dictionary.Laws.{
  IsValid, intern_or_get-IsValid, value_of-intern_or_get, value_of-intern_old, length-intern,
}
use coredb.Storage.Segment.{Column, data_of, load, store}

-- A value that is no NULL has the type.
abbrev pub matches : ColumnType → Value → Bool
matches int32 (Value.int32 x) = true
matches int64 (Value.int64 x) = true
matches double (Value.double x) = true
matches string (Value.string s) = true
matches t v = false

abbrev pub fits : ColumnType → Value → Bool
fits t null = true
fits t v = matches t v

-- What storing a value at row `r` gives.
pub record Stored (t : ColumnType) (col : Column) (r : ℕ) (v : Value) (col' : Column) : Type 0 where
  pub done : store t col r v ≡ some col'
  pub type : col'.type ≡ col.type
  pub min : col'.min ≡ col.min
  pub max : col'.max ≡ col.max
  pub validity : col'.validity ≡ col.validity
  pub sized : length (data_of t col') ≡ length (data_of t col)
  pub dict : IsValid col'.dictionary
  pub room : length col'.dictionary.values ≤ length col.dictionary.values + 1
  pub here : load t col' r ≡ some v
  pub there : (i : ℕ) (w : Value) → i ≢ r → load t col i ≡ some w → load t col' i ≡ some w

module _ (col : Column) (r : ℕ) (d : IsValid col.dictionary)
    (room : length col.dictionary.values + 1 < 2 ^ 32) where
  store-int32 :
      (x : ℕ)
      → r < length col.int32_data
      → Stored int32 col r (Value.int32 x) (record col { int32_data = set col.int32_data r x })
  unfolding store load
  store-int32 x h = record {
    done = refl;
    type = refl;
    min = refl;
    max = refl;
    validity = refl;
    sized = length-set col.int32_data r x;
    dict = d;
    room = omega arith;
    here = ground (arith, get_elem?-set col.int32_data r r x h);
    there = λ i w ne e. ground (arith, get_elem?-set col.int32_data r i x h);
  }

  store-int64 :
      (x : ℕ)
      → r < length col.int64_data
      → Stored int64 col r (Value.int64 x) (record col { int64_data = set col.int64_data r x })
  unfolding store load
  store-int64 x h = record {
    done = refl;
    type = refl;
    min = refl;
    max = refl;
    validity = refl;
    sized = length-set col.int64_data r x;
    dict = d;
    room = omega arith;
    here = ground (arith, get_elem?-set col.int64_data r r x h);
    there = λ i w ne e. ground (arith, get_elem?-set col.int64_data r i x h);
  }

  store-double :
      (x : ℕ)
      → r < length col.double_data
      → Stored double col r (Value.double x) (record col { double_data = set col.double_data r x })
  unfolding store load
  store-double x h = record {
    done = refl;
    type = refl;
    min = refl;
    max = refl;
    validity = refl;
    sized = length-set col.double_data r x;
    dict = d;
    room = omega arith;
    here = ground (arith, get_elem?-set col.double_data r r x h);
    there = λ i w ne e. ground (arith, get_elem?-set col.double_data r i x h);
  }

  -- A cell of another row keeps its string: its code stays, and stands for the same value.
  keep_string :
      (s : List ℕ)
      → r < length col.string_codes
      → (i : ℕ) (w : Value) → i ≢ r
      → load string col i ≡ some w
      → load string
          (record col {
            dictionary = (intern_or_get col.dictionary s).0;
            string_codes = set col.string_codes r (intern_or_get col.dictionary s).1;
          })
          i
        ≡ some w
  unfolding load
  keep_string s h i w ne e = elim (Option-cases (get_elem? col.string_codes i)) [
    | inl missing ↦ ground arith
    | inr (code, at) ↦ elim (Option-cases (value_of col.dictionary code)) [
      | inl missing ↦ ground arith
      | inr (t, known) ↦ ground (
        arith,
        get_elem?-set col.string_codes r i (intern_or_get col.dictionary s).1 h,
        value_of-intern_old col.dictionary d s code t known,
      )
    ]
  ]

  store-string :
      (s : List ℕ)
      → r < length col.string_codes
      → Stored string col r (Value.string s) (record col {
        dictionary = (intern_or_get col.dictionary s).0;
        string_codes = set col.string_codes r (intern_or_get col.dictionary s).1;
      })
  unfolding store load
  store-string s h = record {
    done = refl;
    type = refl;
    min = refl;
    max = refl;
    validity = refl;
    sized = length-set col.string_codes r _;
    dict = intern_or_get-IsValid col.dictionary d s room;
    room = length-intern col.dictionary d s;
    here = ground (
      arith,
      get_elem?-set col.string_codes r r (intern_or_get col.dictionary s).1 h,
      value_of-intern_or_get col.dictionary d s,
    );
    there = λ i w ne e. keep_string s h i w ne e;
  }

-- A value of the column's type is stored without an exception.
pub store_total :
    (t : ColumnType) (col : Column) (r : ℕ) (v : Value)
    → IsValid col.dictionary
    → length col.dictionary.values + 1 < 2 ^ 32
    → matches t v ≡ true
    → r < length (data_of t col)
    → (col' : Column) × Stored t col r v col'
store_total int32 col r (Value.int32 x) d room m h = (_, store-int32 col r d room x h)
store_total int64 col r (Value.int64 x) d room m h = (_, store-int64 col r d room x h)
store_total double col r (Value.double x) d room m h = (_, store-double col r d room x h)
store_total string col r (Value.string s) d room m h = (_, store-string col r d room s h)
store_total t col r v d room m h = cc
