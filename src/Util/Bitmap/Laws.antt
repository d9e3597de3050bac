-- ===== src/Util/Bitmap/Laws.antt =====
-- The bitmap of include/coredb/util/bitmap.h as a function from rows to Booleans.
use Prim.Native.Nat.{bit_and}
use coredb.Prelude.{
  ℕ, zero, suc, ◌+◌, ◌*◌, ◌/◌, ◌%◌, ◌<◌, ◌≡◌, refl, Bool, true, false, List, [], ◌∷◌, arith, ◌==◌,
  if◌then◌else◌, All, length, get_or, replicate, length-set, length-replicate, get_or-set,
  get_or-replicate, All-get_or, All-set,
}
use coredb.Util.Bitmap.{
  Bitmap, bitmap, clear_trailing_bits, last_byte_mask, bit_at, with_bit, is_valid, set_valid,
}
use coredb.Util.Bitmap.Bits.{
  bit_at-with_bit, with_bit-lt, bit_at-mask_full, bit_at-mask_empty, mask_full-lt, mask_empty-lt,
}

abbrev pub IsByte : ℕ → Type 0
IsByte b = b < 256

pub record WellFormed (bm : Bitmap) : Type 0 where
  pub sized : length bm.bytes ≡ (bm.num_rows + 7) / 8
  pub ranged : All IsByte bm.bytes

module _ (bm : Bitmap) (w : WellFormed bm) (row : ℕ) (inside : row < bm.num_rows) where
  pub byte_inside : row / 8 < length bm.bytes
  byte_inside = omega (arith, w.sized)

  byte_ranged : get_or bm.bytes (row / 8) 0 < 256
  byte_ranged = All-get_or IsByte bm.bytes (row / 8) 0 w.ranged byte_inside

  pub set_valid-WellFormed : (v : Bool) → WellFormed (set_valid bm row v)
  unfolding set_valid
  set_valid-WellFormed v = record {
    sized = omega (
      arith,
      w.sized,
      length-set bm.bytes (row / 8) (with_bit (get_or bm.bytes (row / 8) 0) (row % 8) v),
    );
    ranged =
        All-set IsByte bm.bytes (row / 8) _ w.ranged
          (with_bit-lt _ (row % 8) v byte_ranged (omega arith));
  }

  -- In a well-formed bitmap, setting a row inside it is read back there and leaves every other row
  -- as it was.
  pub is_valid-set_valid :
      (v : Bool) (other : ℕ)
      → is_valid (set_valid bm row v) other ≡ (if row == other then v else is_valid bm other)
  unfolding is_valid set_valid
  is_valid-set_valid v other = ground (
    arith,
    get_or-set bm.bytes (row / 8) (other / 8) (with_bit (get_or bm.bytes (row / 8) 0) (row % 8) v) 0
        byte_inside,
    bit_at-with_bit (get_or bm.bytes (row / 8) 0) (row % 8) (other % 8) v byte_ranged (omega arith)
        (omega arith),
  )

length-clear : (n : ℕ) (bs : List ℕ) → length (clear_trailing_bits n bs) ≡ length bs
length-clear n [] = refl
length-clear n (b ∷ []) = refl
length-clear n (b ∷ c ∷ bs) = omega (arith, length-clear n (c ∷ bs))

get_or-clear :
    (n : ℕ) (bs : List ℕ) (i : ℕ)
    → i < length bs
    → get_or (clear_trailing_bits n bs) i 0
      ≡ (if suc i == length bs then bit_and (get_or bs i 0) (last_byte_mask n) else get_or bs i 0)
get_or-clear n [] i h = elim h [ ]
get_or-clear n (b ∷ []) zero h = refl
get_or-clear n (b ∷ []) (suc i) h = absurd (omega arith)
get_or-clear n (b ∷ c ∷ bs) zero h = ground arith
get_or-clear n (b ∷ c ∷ bs) (suc i) h = ground (arith, get_or-clear n (c ∷ bs) i (omega arith))

abbrev fill : Bool → ℕ
fill v = if v then 255 else 0

All-clear : (n k : ℕ) (v : Bool) → All IsByte (clear_trailing_bits n (replicate k (fill v)))
All-clear n zero v = tt
All-clear n (suc zero) true = (mask_full-lt (n % 8) (omega arith), tt)
All-clear n (suc zero) false = (mask_empty-lt (n % 8) (omega arith), tt)
All-clear n (suc (suc k)) true = (omega arith, All-clear n (suc k) true)
All-clear n (suc (suc k)) false = (omega arith, All-clear n (suc k) false)

pub bitmap-WellFormed : (n : ℕ) (v : Bool) → WellFormed (bitmap n v)
unfolding bitmap
bitmap-WellFormed n v = record {
  sized = omega (
    arith,
    length-clear n (replicate ((n + 7) / 8) (fill v)),
    length-replicate ((n + 7) / 8) (fill v),
  );
  ranged = All-clear n ((n + 7) / 8) v;
}

-- Bit `k` of byte `i` of a fresh bitmap of `n` rows.
fresh_byte :
    (n i k : ℕ) (v : Bool)
    → i * 8 + k < n
    → k < 8
    → bit_at (get_or (clear_trailing_bits n (replicate ((n + 7) / 8) (fill v))) i 0) k ≡ v
fresh_byte n i k v h hk =
    let inside : i < (n + 7) / 8 = omega arith in
    let clear =
      get_or-clear n (replicate ((n + 7) / 8) (fill v)) i
        (omega (arith, length-replicate ((n + 7) / 8) (fill v))) in
    let byte = get_or-replicate ((n + 7) / 8) i (fill v) 0 inside in
    ground (
      arith,
      clear,
      byte,
      length-replicate ((n + 7) / 8) (fill v),
      bit_at-mask_full (n % 8) k (omega arith) hk,
      bit_at-mask_empty (n % 8) k (omega arith) hk,
      bit_at-mask_full 0 k (omega arith) hk,
      bit_at-mask_empty 0 k (omega arith) hk,
    )

-- A fresh bitmap has its initial value in every row.
pub is_valid-bitmap : (n row : ℕ) (v : Bool) → row < n → is_valid (bitmap n v) row ≡ v
unfolding is_valid bitmap
is_valid-bitmap n row v h = fresh_byte n (row / 8) (row % 8) v (omega arith) (omega arith)
