-- ===== src/Util/Tests.antt =====
-- Instances of the theorems about include/coredb/util at concrete bitmaps and words.
use coredb.Prelude.{ℕ, ◌<◌, ◌≡◌, ◌↔◌, refl, true, false, [], ◌∷◌, arith}
use coredb.Util.Bitmap.{Bitmap, with_bit, is_valid, set_valid, all_valid}
use coredb.Util.Bitmap.Laws.{WellFormed}
use coredb.Util.Bitmap.AllValid.{all_valid_iff}
use coredb.Util.Bytes.{le_bytes, from_le, from_le-le_bytes}

-- Ten rows, all valid, and the same with one row that is not.
abbrev ten_rows : Bitmap
ten_rows = record { num_rows = 10; bytes = 255 ∷ 3 ∷ [] }

abbrev one_null : Bitmap
one_null = record { num_rows = 10; bytes = 255 ∷ 1 ∷ [] }

ten_rows-WellFormed : WellFormed ten_rows
ten_rows-WellFormed = record { sized = refl; ranged = (omega arith, (omega arith, tt)) }

one_null-WellFormed : WellFormed one_null
one_null-WellFormed = record { sized = refl; ranged = (omega arith, (omega arith, tt)) }

clears_row_9 : set_valid ten_rows 9 false ≡ one_null
unfolding set_valid with_bit
clears_row_9 = refl

all_valid_iff_example :
    (all_valid one_null ≡ true) ↔ ((row : ℕ) → row < 10 → is_valid one_null row ≡ true)
all_valid_iff_example = all_valid_iff one_null one_null-WellFormed

from_le-le_bytes_example : from_le (le_bytes 4 0x01020304) ≡ 0x01020304
from_le-le_bytes_example = from_le-le_bytes 4 0x01020304 (omega arith)
