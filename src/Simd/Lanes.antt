-- ===== src/Simd/Lanes.antt =====
-- A loop over the elements of a column, by blocks of as many as a register has lanes.
use coredb.Prelude.{
  ℕ, zero, suc, ◌+◌, ◌-◌, ◌%◌, ◌<◌, ◌≡◌, refl, ap, ◌∙◌, Bool, true, false, List, if◌then◌else◌,
  get_or, inc64, u64_mod, arith,
}
use coredb.Exec.{FilterSumResult, greater, filter_from, sum_from}
use coredb.Exec.Batches.{InRange, filter_from_add}
use coredb.Simd.{total, one, masked}

-- Lanes that each take a term give a total that takes all of them.
pub total-add :
    (w : ℕ) (lane lane' term : ℕ → ℕ)
    → ((j : ℕ) → j < w → lane' j ≡ (lane j + term j) % u64_mod)
    → total w lane' % u64_mod ≡ (total w lane % u64_mod + total w term) % u64_mod
total-add zero lane lane' term h = omega arith
total-add (suc w) lane lane' term h =
    let rest =
      total-add w (λ j. lane (suc j)) (λ j. lane' (suc j)) (λ j. term (suc j))
        (λ j lt. h (suc j) (omega arith)) in
    omega (arith, rest, h 0 (omega arith))

pub total-cong : (w : ℕ) (f g : ℕ → ℕ) → ((j : ℕ) → j < w → f j ≡ g j) → total w f ≡ total w g
total-cong zero f g h = refl
total-cong (suc w) f g h =
    let rest = total-cong w (λ j. f (suc j)) (λ j. g (suc j)) (λ j lt. h (suc j) (omega arith)) in
    omega (arith, rest, h 0 (omega arith))

sum_from_add :
    (column : List ℕ) (i a b sum : ℕ)
    → sum_from column i (a + b) sum ≡ sum_from column (i + a) b (sum_from column i a sum)
unfolding sum_from
sum_from_add column i zero b sum =
    let e : i + 0 ≡ i = omega arith in let z : 0 + b ≡ b = omega arith in rw (e, z) refl
sum_from_add column i (suc a) b sum =
    let e : i + 1 + a ≡ i + suc a = omega arith in
    let n : suc a + b ≡ suc (a + b) = omega arith in
    ap (λ n. sum_from column i n sum) n
    ∙ sum_from_add column (i + 1) a b ((sum + get_or column i 0) % u64_mod)
    ∙ ap
        (λ j. sum_from column j b (sum_from column (i + 1) a ((sum + get_or column i 0) % u64_mod)))
        e

sum_from-total :
    (column : List ℕ) (w i sum : ℕ)
    → sum < u64_mod
    → sum_from column i w sum ≡ (sum + total w (λ j. get_or column (i + j) 0)) % u64_mod
unfolding sum_from
sum_from-total column zero i sum h = omega arith
sum_from-total column (suc w) i sum h =
    let x = get_or column i 0 in
    let first : get_or column (i + 0) 0 ≡ x = ap (λ k. get_or column k 0) (omega arith) in
    let rest = sum_from-total column w (i + 1) ((sum + x) % u64_mod) (omega arith) in
    let shift =
      total-cong w (λ j. get_or column (i + 1 + j) 0) (λ j. get_or column (i + suc j) 0)
        (λ j lt. ap (λ k. get_or column k 0) (omega arith)) in
    omega (arith, first, rest, shift)

-- The sum of a block of a column.
pub sum_from-block :
    (column : List ℕ) (w i n sum : ℕ)
    → sum < u64_mod
    → sum_from column i (w + n) sum
      ≡ sum_from column (i + w) n ((sum + total w (λ j. get_or column (i + j) 0)) % u64_mod)
sum_from-block column w i n sum h =
    sum_from_add column i w n sum ∙ ap (sum_from column (i + w) n) (sum_from-total column w i sum h)

-- A lane of -1, which is what a comparison that holds gives.
abbrev pub all_ones : ℕ
all_ones = u64_mod - 1

-- A lane that was AND-ed with a mask.
pub select_lane :
    (b : Bool) (m x v : ℕ)
    → m ≡ (if b then all_ones else 0)
    → (m ≡ all_ones → v ≡ x)
    → (m ≡ 0 → v ≡ 0)
    → v ≡ masked b x
select_lane true m x v e taken dropped = taken e
select_lane false m x v e taken dropped = dropped e

-- A lane that a mask was subtracted from.
pub count_lane :
    (b : Bool) (m c v : ℕ)
    → m ≡ (if b then all_ones else 0)
    → (m < u64_mod → v ≡ (c + (u64_mod - m)) % u64_mod)
    → v ≡ (c + one b) % u64_mod
count_lane true m c v e h = omega (arith, h (omega arith))
count_lane false m c v e h = omega (arith, h (omega arith))

abbrev pub result : ℕ → ℕ → FilterSumResult
result count sum = record { matched_count = count; sum = sum }

pub result_cong : (c c' s s' : ℕ) → c ≡ c' → s ≡ s' → result c s ≡ result c' s'
result_cong c c' s s' e e' = λ i. result (e i) (e' i)

module _ (pred out : List ℕ) (threshold : ℕ) where
  abbrev pub matches : ℕ → Bool
  matches i = greater (get_or pred i 0) threshold

  abbrev pub with_block : ℕ → ℕ → FilterSumResult → FilterSumResult
  with_block w i r =
      result ((r.matched_count + total w (λ j. one (matches (i + j)))) % u64_mod)
        ((r.sum + total w (λ j. masked (matches (i + j)) (get_or out (i + j) 0))) % u64_mod)

  step_lem :
      (b : Bool) (x : ℕ) (r : FilterSumResult)
      → InRange r
      → (if b
          then record { sum = (r.sum + x) % u64_mod; matched_count = inc64 r.matched_count }
          else r)
        ≡ result ((r.matched_count + one b) % u64_mod) ((r.sum + masked b x) % u64_mod)
  step_lem true x r h = refl
  step_lem false x r h = result_cong _ _ _ _ (omega arith) (omega arith)

  filter_from-total :
      (w i : ℕ) (r : FilterSumResult)
      → InRange r
      → filter_from pred out threshold i w r ≡ with_block w i r
  unfolding filter_from
  filter_from-total zero i r h = result_cong _ _ _ _ (omega arith) (omega arith)
  filter_from-total (suc w) i r h =
      let b = matches i in
      let x = get_or out i 0 in
      let count = (r.matched_count + one b) % u64_mod in
      let sum = (r.sum + masked b x) % u64_mod in
      let counts =
        total-cong w (λ j. one (matches (i + 1 + j))) (λ j. one (matches (i + suc j)))
          (λ j lt. ap (λ k. one (matches k)) (omega arith)) in
      let sums =
        total-cong w (λ j. masked (matches (i + 1 + j)) (get_or out (i + 1 + j) 0))
          (λ j. masked (matches (i + suc j)) (get_or out (i + suc j) 0))
          (λ j lt. ap (λ k. masked (matches k) (get_or out k 0)) (omega arith)) in
      let first : one (matches (i + 0)) ≡ one b = ap (λ k. one (matches k)) (omega arith) in
      let first_sum : masked (matches (i + 0)) (get_or out (i + 0) 0) ≡ masked b x =
        ap (λ k. masked (matches k) (get_or out k 0)) (omega arith) in
      ap (filter_from pred out threshold (i + 1) w) (step_lem b x r h)
      ∙ filter_from-total w (i + 1) (result count sum) (omega arith, omega arith)
      ∙ result_cong _ _ _ _ (omega (arith, counts, first)) (omega (arith, sums, first_sum))

  -- The matches of a block, and the sum of their elements.
  pub filter_from-block :
      (w i n : ℕ) (r : FilterSumResult)
      → InRange r
      → filter_from pred out threshold i (w + n) r
        ≡ filter_from pred out threshold (i + w) n (with_block w i r)
  filter_from-block w i n r h =
      filter_from_add pred out threshold i w n r
      ∙ ap (filter_from pred out threshold (i + w) n) (filter_from-total w i r h)
