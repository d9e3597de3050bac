-- ===== src/Storage/File/Words.antt =====
-- What `Segment::Build` of src/storage/segment.cpp stores in a column fits the segment file.
use coredb.Prelude.{
  ℕ, ◌^◌, ◌<◌, ◌≡◌, List, [], ◌∷◌, some, arith, set, subst, Option-cases, inl, inr, All, All-set,
  All-append,
}
use coredb.Util.Bitmap.{Bitmap}
use coredb.Storage.Types.{ColumnType, int32, int64, double, string, Value, InRange}
use coredb.Storage.Dictionary.{Dictionary, empty, find_code, intern_or_get}
use coredb.Storage.Dictionary.Laws.{IsValid, get_elem?-lt}
use coredb.Storage.Dictionary.Indexed.{IsIndexed, intern_known, intern_new, intern_or_get-IsIndexed}
use coredb.Storage.Segment.{Column, element_width, data_of, store}
use coredb.Storage.File.Columns.{IsShort}

-- Nothing in the vectors of other types, and no dictionary but for strings.
abbrev pub Lean : ColumnType → Column → Type 0
Lean int32 col =
    (col.int64_data ≡ [])
    × (col.double_data ≡ [])
    × (col.string_codes ≡ [])
    × (col.dictionary ≡ empty)
Lean int64 col =
    (col.int32_data ≡ [])
    × (col.double_data ≡ [])
    × (col.string_codes ≡ [])
    × (col.dictionary ≡ empty)
Lean double col =
    (col.int32_data ≡ [])
    × (col.int64_data ≡ [])
    × (col.string_codes ≡ [])
    × (col.dictionary ≡ empty)
Lean string col = (col.int32_data ≡ []) × (col.int64_data ≡ []) × (col.double_data ≡ [])

-- Words that fit their widths, and a dictionary of strings that fit theirs.
pub record Words (t : ColumnType) (col : Column) : Type 0 where
  pub ranged : All (λ x. x < 256 ^ element_width t) (data_of t col)
  pub indexed : IsIndexed col.dictionary
  pub short : All IsShort col.dictionary.values
  pub lean : Lean t col

pub kept-Words :
    (t : ColumnType) (col : Column) (validity : Bitmap) (lo hi : Value) (checksum : ℕ)
    → Words t col
    → Words t (record col { validity = validity; min = lo; max = hi; checksum = checksum })
kept-Words int32 col validity lo hi checksum w = record {
  ranged = w.ranged;
  indexed = w.indexed;
  short = w.short;
  lean = w.lean;
}
kept-Words int64 col validity lo hi checksum w = record {
  ranged = w.ranged;
  indexed = w.indexed;
  short = w.short;
  lean = w.lean;
}
kept-Words double col validity lo hi checksum w = record {
  ranged = w.ranged;
  indexed = w.indexed;
  short = w.short;
  lean = w.lean;
}
kept-Words string col validity lo hi checksum w = record {
  ranged = w.ranged;
  indexed = w.indexed;
  short = w.short;
  lean = w.lean;
}

-- Interning a short string leaves short strings, and gives a code of 32 bits.
intern-IsShort :
    (dict : Dictionary) (value : List ℕ)
    → IsShort value
    → All IsShort dict.values
    → All IsShort (intern_or_get dict value).0.values
intern-IsShort dict value h all = elim (Option-cases (find_code value dict.code_of)) [
  | inr (code, e) ↦ rw (intern_known dict value code e) all
  | inl e ↦ rw (intern_new dict value e) (All-append IsShort dict.values (value ∷ []) all (h, tt))
]

intern-code :
    (dict : Dictionary) (value : List ℕ) → IsValid dict → (intern_or_get dict value).1 < 2 ^ 32
intern-code dict value valid = elim (Option-cases (find_code value dict.code_of)) [
  | inr (code, e) ↦
      let known = get_elem?-lt dict.values code value (valid.coded value code e) in
      rw (intern_known dict value code e) (omega (arith, known, valid.fits))
  | inl e ↦ rw (intern_new dict value e) (omega arith)
]

pub store-Words :
    (t : ColumnType) (col col' : Column) (r : ℕ) (v : Value)
    → IsValid col.dictionary
    → InRange v
    → store t col r v ≡ some col'
    → Words t col
    → Words t col'
unfolding store
store-Words int32 col col' r (Value.int32 x) valid h e w =
    let same : record col { int32_data = set col.int32_data r x } ≡ col' = ground (arith, e) in
    subst (Words int32) same (record {
      ranged = All-set _ col.int32_data r x w.ranged h;
      indexed = w.indexed;
      short = w.short;
      lean = w.lean;
    })
store-Words int64 col col' r (Value.int64 x) valid h e w =
    let same : record col { int64_data = set col.int64_data r x } ≡ col' = ground (arith, e) in
    subst (Words int64) same (record {
      ranged = All-set _ col.int64_data r x w.ranged h;
      indexed = w.indexed;
      short = w.short;
      lean = w.lean;
    })
store-Words double col col' r (Value.double x) valid h e w =
    let same : record col { double_data = set col.double_data r x } ≡ col' = ground (arith, e) in
    subst (Words double) same (record {
      ranged = All-set _ col.double_data r x w.ranged h;
      indexed = w.indexed;
      short = w.short;
      lean = w.lean;
    })
store-Words string col col' r (Value.string s) valid h e w =
    let interned = intern_or_get col.dictionary s in
    let same : record col {
      dictionary = interned.0;
      string_codes = set col.string_codes r interned.1;
    }
        ≡ col' =
      ground (arith, e) in
    subst (Words string) same (record {
      ranged =
          All-set _ col.string_codes r interned.1 w.ranged (intern-code col.dictionary s valid);
      indexed = intern_or_get-IsIndexed col.dictionary s valid.fits w.indexed;
      short = intern-IsShort col.dictionary s h w.short;
      lean = w.lean;
    })
store-Words t col col' r v valid h e w = cc
