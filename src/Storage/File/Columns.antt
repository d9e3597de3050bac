-- ===== src/Storage/File/Columns.antt =====
-- What the columns of src/storage/segment.cpp write is read back, part by part.
use mathlib.Core.List.{append_assoc}
use coredb.Prelude.{
  ℕ, zero, suc, ◌+◌, ◌-◌, ◌/◌, ◌%◌, ◌^◌, ◌<◌, ◌≡◌, refl, ap, sym, true, List, [], ◌∷◌, ◌++◌, some,
  ◌==◌, length, take-length, All, arith, ◌⊎◌, inl, inr,
}
use coredb.Util.Bitmap.{Bitmap, from_bytes, count_valid}
use coredb.Util.Bytes.{le_bytes, read_raw-le_bytes, read_raw-byte, split_at-append}
use coredb.Storage.Types.{ColumnType, int32, int64, double, string, Value, null, InRange}
use coredb.Storage.Dictionary.{Dictionary, empty, from_values}
use coredb.Storage.Segment.{data_bytes}
use coredb.Storage.Segment.Store.{matches}
use coredb.Storage.File
use coredb.Storage.File.{Result, ok, or_fail, check, type_byte, column_type}
use coredb.Storage.File.Save.{
  write_string, write_typed, write_bounds, write_strings, write_dictionary,
}
use coredb.Storage.File.Load.{
  read_string, read_typed, read_words, read_strings, load_type, load_validity, load_bounds,
  load_dictionary,
}

abbrev pub IsShort : List ℕ → Type 0
IsShort s = length s < 2 ^ 32

read_string-write_string :
    (s rest : List ℕ) → IsShort s → read_string (write_string s ++ rest) ≡ some (s, rest)
unfolding read_string write_string
read_string-write_string s rest h =
    let len : length s % 2 ^ 32 ≡ length s = omega (arith, h) in
    rw
      (
        len,
        take-length s,
        append_assoc (le_bytes 4 (length s)) s rest,
        read_raw-le_bytes 4 (length s) (s ++ rest) h,
        split_at-append s rest (length s) refl,
      )
      refl

-- What a value of the type writes is read back, whatever follows.
pub read_typed-write_typed :
    (type : ColumnType) (v : Value)
    → matches type v ≡ true
    → InRange v
    → (bytes : List ℕ) × (write_typed type v ≡ some bytes)
      × ((rest : List ℕ) → read_typed type (bytes ++ rest) ≡ some (v, rest))
unfolding read_typed write_typed
read_typed-write_typed int32 (Value.int32 x) m h =
    (_, refl, λ rest. rw (read_raw-le_bytes 4 x rest h) refl)
read_typed-write_typed int64 (Value.int64 x) m h =
    (_, refl, λ rest. rw (read_raw-le_bytes 8 x rest h) refl)
read_typed-write_typed double (Value.double x) m h =
    (_, refl, λ rest. rw (read_raw-le_bytes 8 x rest h) refl)
read_typed-write_typed string (Value.string s) m h =
    (_, refl, λ rest. rw (read_string-write_string s rest h) refl)
read_typed-write_typed type v m h = cc

pub read_words-data_bytes :
    (width n : ℕ) (xs rest : List ℕ)
    → length xs ≡ n
    → All (λ x. x < 256 ^ width) xs
    → read_words width n (data_bytes width xs ++ rest) ≡ some (xs, rest)
unfolding read_words
read_words-data_bytes width zero [] rest e h = refl
read_words-data_bytes width zero (x ∷ xs) rest e h = absurd (omega arith)
read_words-data_bytes width (suc n) [] rest e h = absurd (omega arith)
read_words-data_bytes width (suc n) (x ∷ xs) rest e h =
    rw
      (
        append_assoc (le_bytes width x) (data_bytes width xs) rest,
        read_raw-le_bytes width x (data_bytes width xs ++ rest) h.0,
        read_words-data_bytes width n xs rest (omega arith) h.1,
      )
      refl

read_strings-write_strings :
    (ss : List (List ℕ)) (rest : List ℕ)
    → All IsShort ss
    → read_strings (length ss) (write_strings ss ++ rest) ≡ some (ss, rest)
unfolding read_strings write_strings
read_strings-write_strings [] rest h = refl
read_strings-write_strings (s ∷ ss) rest h =
    rw
      (
        append_assoc (write_string s) (write_strings ss) rest,
        read_string-write_string s (write_strings ss ++ rest) h.0,
        read_strings-write_strings ss rest h.1,
      )
      refl

-- The dictionary that a column of the type has for these values.
abbrev pub dictionary_of : ColumnType → List (List ℕ) → Dictionary
dictionary_of string values = from_values values
dictionary_of type values = empty

-- The bounds of a column: none, or two values of its type.
abbrev pub AreBounds : ColumnType → Value → Value → Type 0
AreBounds type min max =
    ((min ≡ null) × (max ≡ null))
    ⊎ ((matches type min ≡ true) × (matches type max ≡ true) × InRange min × InRange max)

no_null : (type : ColumnType) → matches type null ≡ true → ⊥
no_null int32 h = cc
no_null int64 h = cc
no_null double h = cc
no_null string h = cc

write_bounds-typed :
    (type : ColumnType) (min max : Value) (lo hi : List ℕ)
    → matches type min ≡ true
    → write_typed type min ≡ some lo
    → write_typed type max ≡ some hi
    → write_bounds type min max ≡ some (1 ∷ lo ++ hi)
unfolding write_bounds
write_bounds-typed type null max lo hi m wrote_lo wrote_hi = absurd (no_null type m)
write_bounds-typed type (Value.int32 x) max lo hi m wrote_lo wrote_hi = rw (wrote_lo, wrote_hi) refl
write_bounds-typed type (Value.int64 x) max lo hi m wrote_lo wrote_hi = rw (wrote_lo, wrote_hi) refl
write_bounds-typed type (Value.double x) max lo hi m wrote_lo wrote_hi =
    rw (wrote_lo, wrote_hi) refl
write_bounds-typed type (Value.string x) max lo hi m wrote_lo wrote_hi =
    rw (wrote_lo, wrote_hi) refl

pub same_number : (a : ℕ) → (a == a) ≡ true
same_number a = ground arith

module _ (c n : ℕ) where
  pub load_dictionary-write_dictionary :
      (type : ColumnType) (values : List (List ℕ)) (rest : List ℕ)
      → length values < 2 ^ 32
      → All IsShort values
      → load_dictionary c n type (write_dictionary type values ++ rest)
        ≡ ok (dictionary_of type values, rest)
  unfolding load_dictionary write_dictionary File.◌>>=◌ or_fail check
  load_dictionary-write_dictionary int32 values rest h short = refl
  load_dictionary-write_dictionary int64 values rest h short = refl
  load_dictionary-write_dictionary double values rest h short = refl
  load_dictionary-write_dictionary string values rest h short =
      let len : length values % 2 ^ 32 ≡ length values = omega (arith, h) in
      rw
        (
          len,
          append_assoc (le_bytes 4 (length values)) (write_strings values) rest,
          read_raw-le_bytes 4 (length values) (write_strings values ++ rest) h,
          read_strings-write_strings values rest short,
        )
        refl

  -- The flag and the bounds.
  pub load_bounds-write_bounds :
      (type : ColumnType) (min max : Value)
      → AreBounds type min max
      → (bytes : List ℕ) × (write_bounds type min max ≡ some bytes)
        × ((rest : List ℕ) → load_bounds c n type (bytes ++ rest) ≡ ok ((min, max), rest))
  unfolding load_bounds write_bounds File.◌>>=◌ or_fail check
  load_bounds-write_bounds type min max (inl (no_min, no_max)) =
      rw (no_min, no_max) (_, refl, λ rest. rw (read_raw-byte 0 rest) refl)
  load_bounds-write_bounds type min max (inr (m, m', h, h')) =
      let (lo, wrote_lo, read_lo) = read_typed-write_typed type min m h in
      let (hi, wrote_hi, read_hi) = read_typed-write_typed type max m' h' in
      (
        1 ∷ lo ++ hi,
        write_bounds-typed type min max lo hi m wrote_lo wrote_hi,
        λ rest.
            rw
              (
                append_assoc lo hi rest,
                read_raw-byte 1 (lo ++ (hi ++ rest)),
                read_lo (hi ++ rest),
                read_hi rest,
              )
              refl,
      )

  -- The byte of a type is read as that type.
  pub load_type-bytes :
      (type : ColumnType) (rest : List ℕ)
      → load_type c n type (type_byte type ∷ rest) ≡ ok (type, rest)
  unfolding load_type column_type File.◌>>=◌ or_fail check
  load_type-bytes int32 rest = rw (read_raw-byte 0 rest) refl
  load_type-bytes int64 rest = rw (read_raw-byte 1 rest) refl
  load_type-bytes double rest = rw (read_raw-byte 2 rest) refl
  load_type-bytes string rest = rw (read_raw-byte 3 rest) refl

  pub load_validity-bytes :
      (validity : Bitmap) (rest : List ℕ)
      → validity.num_rows ≡ n
      → length validity.bytes ≡ (n + 7) / 8
      → n + 7 < 2 ^ 32
      → load_validity c n
          (le_bytes 4 ((n - count_valid validity) % 2 ^ 32) ++ (validity.bytes ++ rest))
        ≡ ok (validity, rest)
  unfolding load_validity from_bytes File.◌>>=◌ or_fail check
  load_validity-bytes validity rest rows sized small =
      let nulls : (n - count_valid validity) % 2 ^ 32 ≡ n - count_valid validity = omega arith in
      let size : (n + 7) % 2 ^ 32 / 8 ≡ (n + 7) / 8 = omega arith in
      let made : from_bytes n validity.bytes ≡ validity =
        ap (λ k. record { num_rows = k; bytes = validity.bytes }) (sym rows) in
      let after = validity.bytes ++ rest in
      rw
        (
          nulls,
          read_raw-le_bytes 4 (n - count_valid validity) after (omega arith),
          size,
          split_at-append validity.bytes rest ((n + 7) / 8) sized,
          made,
          same_number (n - count_valid validity),
        )
        refl
