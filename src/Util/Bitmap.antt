-- ===== src/Util/Bitmap.antt =====
-- include/coredb/util/bitmap.h: one bit for each row, packed in bytes. `row >> 3` and `row & 7` are
-- written `/ 8` and `% 8`. A read past the vector, undefined in the source, gives 0 here.
pub mod Bits
pub mod Laws
pub mod AllValid
use Prim.Native.Nat.{bit_and, bit_or}
use coredb.Prelude.{
  ℕ, zero, suc, ◌+◌, ◌-◌, ◌*◌, ◌/◌, ◌%◌, ◌^◌, Bool, true, false, ◌&&◌, List, [], ◌∷◌, ◌==◌,
  if◌then◌else◌, length, get_or, set, replicate,
}

pub record Bitmap : Type 0 where
  pub num_rows : ℕ
  pub bytes : List ℕ

-- A byte's bit `k`, and the byte with that bit set or cleared.
unfoldable pub bit_at : ℕ → ℕ → Bool
bit_at byte k = byte / 2 ^ k % 2 == 1

unfoldable pub with_bit : ℕ → ℕ → Bool → ℕ
with_bit byte k true = bit_or byte (2 ^ k)
with_bit byte k false = bit_and byte (255 - 2 ^ k)

abbrev pub last_byte_mask : ℕ → ℕ
last_byte_mask num_rows = if num_rows % 8 == 0 then 255 else 2 ^ (num_rows % 8) - 1

abbrev pub clear_trailing_bits : ℕ → List ℕ → List ℕ
clear_trailing_bits num_rows [] = []
clear_trailing_bits num_rows (b ∷ []) = bit_and b (last_byte_mask num_rows) ∷ []
clear_trailing_bits num_rows (b ∷ c ∷ bs) = b ∷ clear_trailing_bits num_rows (c ∷ bs)

-- `Bitmap(num_rows, initial_value)`
unfoldable pub bitmap : ℕ → Bool → Bitmap
bitmap num_rows initial_value = record {
  num_rows = num_rows;
  bytes =
      clear_trailing_bits num_rows
        (replicate ((num_rows + 7) / 8) (if initial_value then 255 else 0));
}

unfoldable pub is_valid : Bitmap → ℕ → Bool
is_valid bm row = bit_at (get_or bm.bytes (row / 8) 0) (row % 8)

unfoldable pub set_valid : Bitmap → ℕ → Bool → Bitmap
set_valid bm row valid = record bm {
  bytes = set bm.bytes (row / 8) (with_bit (get_or bm.bytes (row / 8) 0) (row % 8) valid);
}

all_ones : ℕ → List ℕ → Bool
all_ones last_mask [] = true
all_ones last_mask (b ∷ []) = bit_and b last_mask == last_mask
all_ones last_mask (b ∷ c ∷ bs) = b == 255 && all_ones last_mask (c ∷ bs)

unfoldable pub all_valid : Bitmap → Bool
unfolding all_ones
all_valid bm = all_ones (last_byte_mask bm.num_rows) bm.bytes

-- The rows `row`, ..., `row + n - 1` that are valid.
count_from : Bitmap → ℕ → ℕ → ℕ
count_from bm row zero = 0
count_from bm row (suc n) = (if is_valid bm row then 1 else 0) + count_from bm (row + 1) n

unfoldable pub count_valid : Bitmap → ℕ
unfolding count_from
count_valid bm = count_from bm 0 bm.num_rows

unfoldable pub from_bytes : ℕ → List ℕ → Bitmap
from_bytes num_rows bytes = record { num_rows = num_rows; bytes = bytes }
