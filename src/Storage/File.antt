-- ===== src/Storage/File.antt =====
-- The segment file of src/storage/segment.cpp: what `SaveToFile` and `LoadFromFile` share, and the
-- ways in which loading fails.
pub mod Save
pub mod Load
pub mod Parsers
pub mod Columns
pub mod RoundTrip
pub mod Integrity
pub mod Typed
pub mod Torn
pub mod Words
pub mod Keeps
pub mod BuiltColumn
pub mod Built
mod Tests
use coredb.Prelude.{ℕ, Bool, true, false, List, [], ◌∷◌, Option, none, some, ◌==◌, if◌then◌else◌}
use coredb.Storage.Types.{ColumnType, int32, int64, double, string}

-- "CDBSEG1" and a zero byte
abbrev pub magic : List ℕ
magic = 0x43 ∷ 0x44 ∷ 0x42 ∷ 0x53 ∷ 0x45 ∷ 0x47 ∷ 0x31 ∷ 0 ∷ []

-- `static_cast<uint8_t>(type)`
abbrev pub type_byte : ColumnType → ℕ
type_byte int32 = 0
type_byte int64 = 1
type_byte double = 2
type_byte string = 3

-- `static_cast<ColumnType>(type_byte)`; `none` is a byte that is no enumerator, so unequal to each.
unfoldable pub column_type : ℕ → Option ColumnType
column_type byte =
    if byte == 0
    then some int32
    else if byte == 1
    then some int64
    else if byte == 2
    then some double
    else if byte == 3
    then some string
    else none

abbrev pub is_type : ColumnType → ColumnType → Bool
is_type expected t = type_byte t == type_byte expected

pub data ColumnError : Type 0 where
  truncated_type type_mismatch truncated_null_count truncated_bitmap null_count_mismatch :
      ColumnError
  truncated_flag truncated_bounds truncated_checksum truncated_rows : ColumnError
  truncated_dictionary_size truncated_dictionary_entry checksum_mismatch : ColumnError

-- The texts that `LoadFromFile` leaves in `*error`, those of a column with its index.
pub data FileError : Type 0 where
  bad_magic truncated_header column_count_mismatch : FileError
  column : ℕ → ColumnError → FileError

pub data Result {ℓ} (A : Type ℓ) : Type ℓ where
  ok : A → Result A
  err : FileError → Result A

infixl 5 ◌>>=◌
unfoldable pub ◌>>=◌ {ℓ κ} : {A : Type ℓ} {B : Type κ} → Result A → (A → Result B) → Result B
ok a >>= f = f a
err e >>= f = err e

-- `if (!Read...) return error`, and a failed check
unfoldable pub or_fail {ℓ} : {A : Type ℓ} → FileError → Option A → Result A
or_fail e none = err e
or_fail e (some a) = ok a

unfoldable pub check : FileError → Bool → Result (Unit {0})
check e true = ok tt
check e false = err e
