-- ===== src/Util/Bitmap/AllValid.antt =====
-- `AllValid` and `CountValid` of include/coredb/util/bitmap.h against the rows one by one.
use coredb.Prelude.{
  ℕ, zero, suc, ◌+◌, ◌*◌, ◌/◌, ◌%◌, ◌<◌, ◌≤◌, ◌≡◌, ◌↔◌, refl, true, List, [], ◌∷◌, arith, ◌==◌,
  if◌then◌else◌, All, length, get_or,
}
use coredb.Util.Bitmap.{Bitmap, bit_at, is_valid, all_ones, all_valid, count_from, count_valid}
use coredb.Util.Bitmap.Bits.{
  mask_of, in_use, masked_lem, byte_lem, all_bits_sound, all_bits_complete,
}
use coredb.Util.Bitmap.Laws.{IsByte, WellFormed, byte_inside}

-- Every bit that belongs to a row is set; the last byte has `used` such bits, or all if `used` is 0.
abbrev FullBytes : ℕ → List ℕ → Type 0
FullBytes used bs =
    (i k : ℕ)
    → i < length bs
    → k < 8
    → (if suc i == length bs then in_use used k else true) ≡ true
    → bit_at (get_or bs i 0) k ≡ true

module _ (used : ℕ) (hu : used < 8) where
  all_ones_sound :
      (bs : List ℕ) → All IsByte bs → all_ones (mask_of used) bs ≡ true → FullBytes used bs
  unfolding all_ones
  all_ones_sound [] r h i k hi hk u = elim hi [ ]
  all_ones_sound (b ∷ []) r h zero k hi hk u =
      ground (arith, masked_lem b used r.0 hu, all_bits_sound used b k)
  all_ones_sound (b ∷ []) r h (suc i) k hi hk u = absurd (omega arith)
  all_ones_sound (b ∷ c ∷ bs) r h zero k hi hk u =
      ground (arith, byte_lem b r.0, all_bits_sound 0 b k)
  all_ones_sound (b ∷ c ∷ bs) r h (suc i) k hi hk u =
      all_ones_sound (c ∷ bs) r.1 (ground arith) i k (omega arith) hk (ground arith)

  all_ones_complete :
      (bs : List ℕ) → All IsByte bs → FullBytes used bs → all_ones (mask_of used) bs ≡ true
  unfolding all_ones
  all_ones_complete [] r f = refl
  all_ones_complete (b ∷ []) r f = ground (
    arith,
    masked_lem b used r.0 hu,
    all_bits_complete used b (λ k hk u. f 0 k (omega arith) hk (ground arith)),
  )
  all_ones_complete (b ∷ c ∷ bs) r f = ground (
    arith,
    byte_lem b r.0,
    all_bits_complete 0 b (λ k hk u. f 0 k (omega arith) hk (ground arith)),
    all_ones_complete (c ∷ bs) r.1 (λ i k hi hk u. f (suc i) k (omega arith) hk (ground arith)),
  )

module _ (bm : Bitmap) (w : WellFormed bm) where
  -- On a well-formed bitmap AllValid holds exactly if every row is valid, whatever the bits past
  -- the last row.
  pub all_valid_iff :
      (all_valid bm ≡ true) ↔ ((row : ℕ) → row < bm.num_rows → is_valid bm row ≡ true)
  unfolding all_valid is_valid
  all_valid_iff = (
    λ h row inside.
        all_ones_sound (bm.num_rows % 8) (omega arith) bm.bytes w.ranged h (row / 8) (row % 8)
          (byte_inside bm w row inside) (omega arith) (ground (arith, w.sized)),
    λ f. all_ones_complete (bm.num_rows % 8) (omega arith) bm.bytes w.ranged λ i k hi hk u.
        let byte : (i * 8 + k) / 8 ≡ i = omega arith in
        let bit : (i * 8 + k) % 8 ≡ k = omega arith in
        ground (arith, byte, bit, f (i * 8 + k) (ground (arith, w.sized))),
  )

count_from-le : (bm : Bitmap) (row n : ℕ) → count_from bm row n ≤ n
unfolding count_from
count_from-le bm row zero = omega arith
count_from-le bm row (suc n) = ground (arith, count_from-le bm (row + 1) n)

count_from_full :
    (bm : Bitmap) (row n i : ℕ)
    → count_from bm row n ≡ n
    → row ≤ i
    → i < row + n
    → is_valid bm i ≡ true
unfolding count_from
count_from_full bm row zero i h lo hi = absurd (omega arith)
count_from_full bm row (suc n) i h lo hi =
    ground (arith, count_from-le bm (row + 1) n, count_from_full bm (row + 1) n i)

count_from_of_valid :
    (bm : Bitmap) (row n : ℕ)
    → ((i : ℕ) → row ≤ i → i < row + n → is_valid bm i ≡ true)
    → count_from bm row n ≡ n
unfolding count_from
count_from_of_valid bm row zero h = refl
count_from_of_valid bm row (suc n) h = ground (
  arith,
  h row (omega arith) (omega arith),
  count_from_of_valid bm (row + 1) n (λ i lo hi. h i (omega arith) (omega arith)),
)

-- CountValid is the number of rows exactly if every row is valid.
pub count_valid_iff :
    (bm : Bitmap)
    → (count_valid bm ≡ bm.num_rows) ↔ ((row : ℕ) → row < bm.num_rows → is_valid bm row ≡ true)
unfolding count_valid
count_valid_iff bm = (
  λ h row inside. count_from_full bm 0 bm.num_rows row h (omega arith) (omega arith),
  λ f. count_from_of_valid bm 0 bm.num_rows (λ i lo hi. f i (omega arith)),
)
