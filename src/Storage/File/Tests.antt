-- ===== src/Storage/File/Tests.antt =====
-- Instances of the theorems about the segment files of src/storage/segment.cpp.
use coredb.Prelude.{ℕ, ◌≡◌, ◌≢◌, refl, List, [], ◌∷◌, ◌++◌, some, arith, inl, inr, true}
use coredb.Util.Bitmap.{count_valid, is_valid, bit_at}
use coredb.Util.Bytes.{le_bytes}
use coredb.Util.Crc32c.{crc32c_extend}
use coredb.Storage.Types.{ColumnType, Value, null}
use coredb.Storage.Dictionary.{from_values, empty, value_of}
use coredb.Storage.Segment.{
  load, value_at, read_row, Column, Segment, compute_column_checksum, verify_integrity,
}
use coredb.Storage.File.{ok, err, FileError, magic}
use coredb.Storage.File.Save.{
  save_to_file, save_columns, save_column, write_bounds, write_typed, write_string,
  write_dictionary,
}
use coredb.Storage.File.Load.{load_from_file}
use coredb.Storage.File.RoundTrip.{Storable, Savable, load_from_file-save_to_file}
use coredb.Storage.File.Integrity.{IsSound, load_from_file-IsSound}
use coredb.Storage.Segment.Build.{RowFits}
use coredb.Storage.File.Typed.{load_from_file-RowFits}
use coredb.Storage.File.Torn.{load_from_file-torn}

abbrev hello : List ℕ
hello = 0x68 ∷ 0x69 ∷ []

abbrev numbers : Column
numbers = record {
  type = ColumnType.int64;
  validity = record { num_rows = 2; bytes = 3 ∷ [] };
  min = Value.int64 3;
  max = Value.int64 5;
  checksum = 3582779764;
  int32_data = [];
  int64_data = 5 ∷ 3 ∷ [];
  double_data = [];
  string_codes = [];
  dictionary = empty;
}

abbrev names : Column
names = record {
  type = ColumnType.string;
  validity = record { num_rows = 2; bytes = 1 ∷ [] };
  min = null;
  max = null;
  checksum = 962391849;
  int32_data = [];
  int64_data = [];
  double_data = [];
  string_codes = 0 ∷ 0 ∷ [];
  dictionary = from_values (hello ∷ []);
}

abbrev two_columns : Segment
two_columns = record {
  segment_id = 7;
  num_rows = 2;
  schema =
      record { name = 0x61 ∷ []; type = ColumnType.int64 }
      ∷ record { name = 0x62 ∷ []; type = ColumnType.string }
      ∷ [];
  columns = numbers ∷ names ∷ [];
}

numbers-Storable : Storable 2 numbers
unfolding compute_column_checksum crc32c_extend le_bytes
numbers-Storable = record {
  rows = refl;
  bytes = refl;
  sized = refl;
  ranged = (omega arith, (omega arith, tt));
  bounds = inr (refl, refl, omega arith, omega arith);
  checksum = refl;
  checksum_fits = omega arith;
  entries = omega arith;
  short = tt;
  only = refl;
}

names-Storable : Storable 2 names
unfolding compute_column_checksum crc32c_extend le_bytes from_values
names-Storable = record {
  rows = refl;
  bytes = refl;
  sized = refl;
  ranged = (omega arith, (omega arith, tt));
  bounds = inl (refl, refl);
  checksum = refl;
  checksum_fits = omega arith;
  entries = omega arith;
  short = (omega arith, tt);
  only = refl;
}

two_columns-Savable : Savable two_columns
two_columns-Savable = record {
  segment_id = omega arith;
  num_rows = omega arith;
  num_columns = omega arith;
  typed = (refl, (refl, tt));
  columns = (numbers-Storable, (names-Storable, tt));
}

load_from_file-save_to_file_example :
    (bytes : List ℕ) × (save_to_file two_columns ≡ some bytes)
    × (load_from_file two_columns.schema bytes ≡ ok two_columns)
load_from_file-save_to_file_example = load_from_file-save_to_file two_columns two_columns-Savable

-- The header, and the columns cut off after the type of the first.
abbrev written : List ℕ
written = magic ++ (2 ∷ 0 ∷ 0 ∷ 0 ∷ 7 ∷ 0 ∷ 0 ∷ 0 ∷ 0 ∷ 0 ∷ 0 ∷ 0 ∷ 2 ∷ 0 ∷ 0 ∷ 0 ∷ 1 ∷ [])

abbrev file : (lost : List ℕ) × (save_to_file two_columns ≡ some (written ++ lost))
unfolding save_to_file save_columns save_column write_bounds write_typed write_string
    write_dictionary le_bytes from_values count_valid is_valid bit_at
file = (_, refl)

lost_something : file.0 ≢ []
unfolding file
lost_something e = ground arith

load_from_file-torn_example : (e : FileError) × (load_from_file two_columns.schema written ≡ err e)
load_from_file-torn_example =
    load_from_file-torn two_columns written file.0 two_columns-Savable file.1 lost_something

load_from_file-IsSound_example :
    IsSound two_columns.schema two_columns × (verify_integrity two_columns.columns ≡ true)
load_from_file-IsSound_example =
    load_from_file-IsSound two_columns.schema
      (load_from_file-save_to_file two_columns two_columns-Savable).0 two_columns
      (load_from_file-save_to_file two_columns two_columns-Savable).2

first_row : read_row two_columns.columns 0 ≡ some (Value.int64 5 ∷ Value.string hello ∷ [])
unfolding read_row value_at load is_valid bit_at value_of from_values
first_row = refl

load_from_file-RowFits_example :
    RowFits two_columns.schema (Value.int64 5 ∷ Value.string hello ∷ [])
load_from_file-RowFits_example =
    load_from_file-RowFits two_columns.schema
      (load_from_file-save_to_file two_columns two_columns-Savable).0 two_columns 0
      (Value.int64 5 ∷ Value.string hello ∷ [])
      (load_from_file-save_to_file two_columns two_columns-Savable).2 first_row
