-- ===== src/Storage/File/Integrity.antt =====
-- What `LoadFromFile` of src/storage/segment.cpp accepts: every loading function as a parser.
use coredb.Prelude.{
  ℕ, zero, suc, ◌+◌, ◌/◌, ◌%◌, ◌^◌, ◌≡◌, refl, ◌∙◌, true, List, [], ◌∷◌, ◌==◌, ==_iff, length,
  arith, ◌⊎◌, inl, inr, ap, sym, subst, some,
}
use coredb.Util.Bitmap.{Bitmap, from_bytes}
use coredb.Storage.Types.{ColumnType, int32, int64, double, string, Schema, Value, null}
use coredb.Storage.Dictionary.{Dictionary}
use coredb.Storage.Segment.{
  Column, Segment, element_width, data_of, compute_column_checksum, verify_integrity,
}
use coredb.Storage.Segment.Store.{matches}
use coredb.Storage.File
use coredb.Storage.File.{
  Result, ok, type_byte, column_type, column, bad_magic, truncated_header, column_count_mismatch,
  truncated_type, type_mismatch, truncated_null_count, truncated_bitmap, null_count_mismatch,
  truncated_flag, truncated_bounds, truncated_checksum, truncated_rows, truncated_dictionary_size,
  truncated_dictionary_entry, checksum_mismatch,
}
use coredb.Storage.File.Load.{
  read_string, read_typed, read_words, read_strings, blank, with_data, load_type, load_validity,
  load_bounds, load_dictionary, load_column, load_columns, load_segment, load_from_file,
}
use coredb.Storage.File.RoundTrip.{compute-checksum}
use coredb.Storage.File.Parsers.{
  Result-cases, Parses, Reads, bind-Parses, then_read-Reads, check-Parses, known-Parses, if-Parses,
  or_fail-Parses, ok-Parses, some-Reads, split_at-Reads, read_raw-Reads, forget-Reads,
}

read_string-Reads : Reads (λ s. Unit {0}) read_string
unfolding read_string
read_string-Reads = then_read-Reads (read_raw-Reads 4) λ n h. forget-Reads (split_at-Reads n)

read_typed-Reads : (t : ColumnType) → Reads (λ v. matches t v ≡ true) (read_typed t)
unfolding read_typed
read_typed-Reads int32 = then_read-Reads (read_raw-Reads 4) (λ x h. some-Reads refl)
read_typed-Reads int64 = then_read-Reads (read_raw-Reads 8) (λ x h. some-Reads refl)
read_typed-Reads double = then_read-Reads (read_raw-Reads 8) (λ x h. some-Reads refl)
read_typed-Reads string = then_read-Reads read_string-Reads (λ x h. some-Reads refl)

read_words-Reads : (width n : ℕ) → Reads (λ xs. length xs ≡ n) (read_words width n)
unfolding read_words
read_words-Reads width zero = some-Reads refl
read_words-Reads width (suc n) =
    then_read-Reads (read_raw-Reads width)
      λ x h. then_read-Reads (read_words-Reads width n) (λ xs len. some-Reads (ap suc len))

read_strings-Reads : (n : ℕ) → Reads (λ ss. length ss ≡ n) (read_strings n)
unfolding read_strings
read_strings-Reads zero = some-Reads refl
read_strings-Reads (suc n) =
    then_read-Reads read_string-Reads
      λ s h. then_read-Reads (read_strings-Reads n) (λ ss len. some-Reads (ap suc len))

-- No bounds, or two of the type.
abbrev pub TypedBounds : ColumnType → Value → Value → Type 0
TypedBounds t min max =
    ((min ≡ null) × (max ≡ null)) ⊎ ((matches t min ≡ true) × (matches t max ≡ true))

-- The bitmap has the rows of the segment, in as many bytes as 32 bits say.
pub record HasRows (n : ℕ) (validity : Bitmap) : Type 0 where
  pub rows : validity.num_rows ≡ n
  pub bytes : length validity.bytes ≡ (n + 7) % 2 ^ 32 / 8

-- A column of the type, of `n` rows, whose checksum is that of its bytes.
pub record IsIntact (n : ℕ) (t : ColumnType) (col : Column) : Type 0 where
  pub type : col.type ≡ t
  pub validity : HasRows n col.validity
  pub bounds : TypedBounds t col.min col.max
  pub sized : length (data_of t col) ≡ n
  pub checksum : compute_column_checksum col ≡ col.checksum

-- A column that has been put together from its parts.
abbrev assembled : ColumnType → List ℕ → Bitmap → Value → Value → Dictionary → Column
assembled t xs validity min max dict = record (with_data t xs (blank t validity min max)) {
  dictionary = dict;
}

assembled-IsIntact :
    (n : ℕ) (t : ColumnType) (xs : List ℕ) (validity : Bitmap) (min max : Value) (dict : Dictionary)
    (k : ℕ)
    → HasRows n validity
    → TypedBounds t min max
    → length xs ≡ n
    → compute_column_checksum (assembled t xs validity min max dict) ≡ k
    → IsIntact n t (record (assembled t xs validity min max dict) { checksum = k })
assembled-IsIntact n int32 xs validity min max dict k v b len h = record {
  type = refl;
  validity = v;
  bounds = b;
  sized = len;
  checksum = compute-checksum (assembled int32 xs validity min max dict) k ∙ h;
}
assembled-IsIntact n int64 xs validity min max dict k v b len h = record {
  type = refl;
  validity = v;
  bounds = b;
  sized = len;
  checksum = compute-checksum (assembled int64 xs validity min max dict) k ∙ h;
}
assembled-IsIntact n double xs validity min max dict k v b len h = record {
  type = refl;
  validity = v;
  bounds = b;
  sized = len;
  checksum = compute-checksum (assembled double xs validity min max dict) k ∙ h;
}
assembled-IsIntact n string xs validity min max dict k v b len h = record {
  type = refl;
  validity = v;
  bounds = b;
  sized = len;
  checksum = compute-checksum (assembled string xs validity min max dict) k ∙ h;
}

type_byte_inj : (a b : ColumnType) → type_byte a ≡ type_byte b → a ≡ b
unfolding column_type
type_byte_inj a b e =
    let same : some a ≡ some b =
      sym (column_type-type_byte a) ∙ ap column_type e ∙ column_type-type_byte b in
    ground (arith, same)
  where
    column_type-type_byte : (t : ColumnType) → column_type (type_byte t) ≡ some t
    column_type-type_byte int32 = refl
    column_type-type_byte int64 = refl
    column_type-type_byte double = refl
    column_type-type_byte string = refl

at_type :
    {n : ℕ} {stored t : ColumnType} {col : Column}
    → stored ≡ t
    → IsIntact n stored col
    → IsIntact n t col
at_type {n} {col = col} e h = subst (λ u. IsIntact n u col) e h

module _ (c n : ℕ) where
  -- The type that is taken is the schema's.
  load_type-Parses : (t : ColumnType) → Parses (λ type. type ≡ t) (load_type c n t)
  unfolding load_type
  load_type-Parses t = bind-Parses _ (or_fail-Parses _ (read_raw-Reads 1)) λ byte _.
      known-Parses _ (column_type byte)
        λ type _. check-Parses _ λ same. ok-Parses (type_byte_inj type t ((==_iff _ _).0 same))

  load_validity-Parses : Parses (HasRows n) (load_validity c n)
  unfolding load_validity from_bytes
  load_validity-Parses = bind-Parses _ (or_fail-Parses _ (read_raw-Reads 4)) λ nulls _.
      bind-Parses _ (or_fail-Parses _ (split_at-Reads _))
        λ bytes len. check-Parses _ λ _. ok-Parses (record { rows = refl; bytes = len })

  load_bounds-Parses :
      (t : ColumnType) → Parses (λ bounds. TypedBounds t bounds.0 bounds.1) (load_bounds c n t)
  unfolding load_bounds
  load_bounds-Parses t = bind-Parses _ (or_fail-Parses _ (read_raw-Reads 1)) λ flag _.
      if-Parses (flag == 0) (ok-Parses (inl (refl, refl))) (
        bind-Parses _ (or_fail-Parses _ (read_typed-Reads t)) λ min lo.
          bind-Parses _ (or_fail-Parses _ (read_typed-Reads t)) λ max hi. ok-Parses (inr (lo, hi)))

  load_dictionary-Parses : (t : ColumnType) → Parses (λ dict. Unit {0}) (load_dictionary c n t)
  unfolding load_dictionary
  load_dictionary-Parses int32 = ok-Parses tt
  load_dictionary-Parses int64 = ok-Parses tt
  load_dictionary-Parses double = ok-Parses tt
  load_dictionary-Parses string = bind-Parses _ (or_fail-Parses _ (read_raw-Reads 4)) λ dict_size _.
      bind-Parses _ (or_fail-Parses _ (read_strings-Reads dict_size)) λ values _. ok-Parses tt

  load_column-Parses : (t : ColumnType) → Parses (IsIntact n t) (load_column c n t)
  unfolding load_column
  load_column-Parses t = bind-Parses _ (load_type-Parses t) λ stored of_schema.
      bind-Parses _ load_validity-Parses λ validity has_rows.
        bind-Parses _ (load_bounds-Parses stored) λ bounds typed.
          bind-Parses _ (or_fail-Parses _ (read_raw-Reads 4)) λ stored_checksum _.
            bind-Parses _ (or_fail-Parses _ (read_words-Reads (element_width stored) n)) λ rows len.
              bind-Parses _ (load_dictionary-Parses stored) λ dict _. check-Parses _ λ same.
                ok-Parses (
                  at_type of_schema (
                    assembled-IsIntact n stored rows validity bounds.0 bounds.1 dict stored_checksum
                      has_rows typed len ((==_iff _ _).0 same)))

abbrev pub AreIntact : ℕ → Schema → List Column → Type 0
AreIntact n [] [] = Unit
AreIntact n (cs ∷ schema) (col ∷ cols) = IsIntact n cs.type col × AreIntact n schema cols
AreIntact n schema cols = ⊥

load_columns-Parses :
    (c n : ℕ) (schema : Schema) → Parses (AreIntact n schema) (load_columns c n schema)
unfolding load_columns
load_columns-Parses c n [] = ok-Parses tt
load_columns-Parses c n (cs ∷ schema) = bind-Parses _ (load_column-Parses c n cs.type) λ col one.
    bind-Parses _ (load_columns-Parses (c + 1) n schema) λ cols others. ok-Parses (one, others)

pub record IsSound (schema : Schema) (seg : Segment) : Type 0 where
  pub of_schema : seg.schema ≡ schema
  pub columns : AreIntact seg.num_rows schema seg.columns

pub load_segment-Parses : (schema : Schema) → Parses (IsSound schema) (load_segment schema)
unfolding load_segment
load_segment-Parses schema = bind-Parses _ (or_fail-Parses _ (split_at-Reads 8)) λ start _.
    check-Parses _ λ _. bind-Parses _ (or_fail-Parses _ (read_raw-Reads 4)) λ num_columns _.
      bind-Parses _ (or_fail-Parses _ (read_raw-Reads 8)) λ segment_id _.
        bind-Parses _ (or_fail-Parses _ (read_raw-Reads 4)) λ num_rows _. check-Parses _ λ _.
          bind-Parses _ (load_columns-Parses 0 num_rows schema)
            λ columns intact. ok-Parses (record { of_schema = refl; columns = intact })

AreIntact-verify_integrity :
    (n : ℕ) (schema : Schema) (cols : List Column)
    → AreIntact n schema cols
    → verify_integrity cols ≡ true
unfolding verify_integrity
AreIntact-verify_integrity n [] [] h = refl
AreIntact-verify_integrity n [] (col ∷ cols) h = absurd h
AreIntact-verify_integrity n (cs ∷ schema) [] h = absurd h
AreIntact-verify_integrity n (cs ∷ schema) (col ∷ cols) h =
    ground (arith, h.0.checksum, AreIntact-verify_integrity n schema cols h.1)

load_from_file_split :
    (schema : Schema) (file : List ℕ) (seg : Segment)
    → load_from_file schema file ≡ ok seg
    → (rest : List ℕ) × (load_segment schema file ≡ ok (seg, rest))
unfolding load_from_file File.◌>>=◌
load_from_file_split schema file seg h = elim (Result-cases (load_segment schema file)) [
  | inl (e, failed) ↦ ground arith
  | inr ((loaded, rest), done) ↦ (rest, ground arith)
]

-- Whatever the bytes of a file are, a segment that is loaded from it has the schema asked for, a
-- column of the right type for each of its entries, in each column as many rows and as many words
-- as the segment has rows, bounds of its type or none, and it passes the integrity check.
pub load_from_file-IsSound :
    (schema : Schema) (file : List ℕ) (seg : Segment)
    → load_from_file schema file ≡ ok seg
    → IsSound schema seg × (verify_integrity seg.columns ≡ true)
load_from_file-IsSound schema file seg h =
    let (rest, loaded) = load_from_file_split schema file seg h in
    let sound = (load_segment-Parses schema).ensures file rest seg loaded in
    (sound, AreIntact-verify_integrity seg.num_rows schema seg.columns sound.columns)
