-- ===== src/Storage/File/Typed.antt =====
-- The types of what is read from a segment that `LoadFromFile` of src/storage/segment.cpp accepted.
use coredb.Prelude.{
  subst, ℕ, ◌≡◌, refl, true, List, [], ◌∷◌, some, get_elem?, arith, Option-cases, Bool-cases, inl,
  inr,
}
use coredb.Util.Bitmap.{is_valid}
use coredb.Storage.Types.{ColumnType, int32, int64, double, string, Schema, Value, null, Row}
use coredb.Storage.Dictionary.{value_of}
use coredb.Storage.Segment.{Column, Segment, load, value_at, read_row}
use coredb.Storage.Segment.Store.{fits}
use coredb.Storage.Segment.Build.{RowFits}
use coredb.Storage.File.{ok}
use coredb.Storage.File.Load.{load_from_file}
use coredb.Storage.File.Integrity.{IsIntact, AreIntact, load_from_file-IsSound}

load-fits :
    (t : ColumnType) (col : Column) (j : ℕ) (v : Value) → load t col j ≡ some v → fits t v ≡ true
unfolding load
load-fits int32 col j v e = elim (Option-cases (get_elem? col.int32_data j)) [
  | inl missing ↦ ground (arith, e, missing)
  | inr (x, at) ↦ ground (arith, e, at)
]
load-fits int64 col j v e = elim (Option-cases (get_elem? col.int64_data j)) [
  | inl missing ↦ ground (arith, e, missing)
  | inr (x, at) ↦ ground (arith, e, at)
]
load-fits double col j v e = elim (Option-cases (get_elem? col.double_data j)) [
  | inl missing ↦ ground (arith, e, missing)
  | inr (x, at) ↦ ground (arith, e, at)
]
load-fits string col j v e = elim (Option-cases (get_elem? col.string_codes j)) [
  | inl missing ↦ ground (arith, e, missing)
  | inr (code, at) ↦ elim (Option-cases (value_of col.dictionary code)) [
    | inl unknown ↦ ground (arith, e, at, unknown)
    | inr (s, known) ↦ ground (arith, e, at, known)
  ]
]

fits-null : (t : ColumnType) → fits t null ≡ true
fits-null int32 = refl
fits-null int64 = refl
fits-null double = refl
fits-null string = refl

value_at-fits :
    (n : ℕ) (t : ColumnType) (col : Column) (j : ℕ) (v : Value)
    → IsIntact n t col
    → value_at col j ≡ some v
    → fits t v ≡ true
unfolding value_at
value_at-fits n t col j v h e = elim (Bool-cases (is_valid col.validity j)) [
  | inl valid ↦ load-fits t col j v (ground (arith, e, valid, h.type))
  | inr missing ↦ ground (arith, e, missing, fits-null t)
]

read_row-RowFits :
    (n : ℕ) (schema : Schema) (cols : List Column) (j : ℕ) (row : Row)
    → AreIntact n schema cols
    → read_row cols j ≡ some row
    → RowFits schema row
unfolding read_row
read_row-RowFits n [] [] j [] h e = tt
read_row-RowFits n [] [] j (v ∷ row) h e = cc
read_row-RowFits n [] (col ∷ cols) j row h e = absurd h
read_row-RowFits n (cs ∷ schema) [] j row h e = absurd h
read_row-RowFits n (cs ∷ schema) (col ∷ cols) j row h e = elim (Option-cases (value_at col j)) [
  | inl missing ↦ absurd (ground (arith, e, missing))
  | inr (v, at) ↦ elim (Option-cases (read_row cols j)) [
    | inl missing ↦ absurd (ground (arith, e, at, missing))
    | inr (vs, rest) ↦
        let whole : v ∷ vs ≡ row = ground (arith, e, at, rest) in
        subst (RowFits (cs ∷ schema)) whole
          (value_at-fits n cs.type col j v h.0 at, read_row-RowFits n schema cols j vs h.1 rest)
  ]
]

-- Whatever the bytes of a file are: a row that is read from the segment that is loaded from it is
-- a row of the schema, with as many cells, each of them NULL or of its column's type.
pub load_from_file-RowFits :
    (schema : Schema) (file : List ℕ) (seg : Segment) (j : ℕ) (row : Row)
    → load_from_file schema file ≡ ok seg
    → read_row seg.columns j ≡ some row
    → RowFits schema row
load_from_file-RowFits schema file seg j row loaded e =
    let (sound, intact) = load_from_file-IsSound schema file seg loaded in
    read_row-RowFits seg.num_rows schema seg.columns j row sound.columns e
