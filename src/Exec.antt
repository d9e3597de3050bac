-- ===== src/Exec.antt =====
-- include/coredb/exec/query.h, src/exec/vectorized.cpp and src/simd/kernels_scalar.cpp: the query
-- SUM(aggregate) WHERE predicate > threshold, over segments with pruning.
--
-- An `int64_t` is its bit pattern. A read past a column, undefined in the source, gives 0. The sum
-- wraps around, as the vector kernels add.
pub mod Batches
pub mod OnePass
pub mod Bounds
pub mod Volcano
pub mod Tests
use coredb.Prelude.{
  ℕ, zero, suc, ◌+◌, ◌-◌, ◌%◌, ◌^◌, Bool, true, false, List, [], ◌∷◌, Option, none, some, ltb,
  if◌then◌else◌, ◌>>=◌, get_elem?, get_or, inc64, u64_mod,
}
use coredb.Storage.Types.{Value, PredicateOp, Double}
use coredb.Storage.Segment.{Segment, Column, can_skip}

pub record FilterSumResult : Type 0 where
  pub matched_count : ℕ
  pub sum : ℕ

pub record AggregateQuery : Type 0 where
  pub predicate_column : ℕ
  pub aggregate_column : ℕ
  pub threshold : ℕ

abbrev pub no_match : FilterSumResult
no_match = record { matched_count = 0; sum = 0 }

-- `a > b` on `int64_t`
abbrev pub greater : ℕ → ℕ → Bool
greater a b = ltb ((b + 2 ^ 63) % u64_mod) ((a + 2 ^ 63) % u64_mod)

-- `Sum_Scalar` from index `i` on, `n` elements
unfoldable pub sum_from : List ℕ → ℕ → ℕ → ℕ → ℕ
sum_from column i zero sum = sum
sum_from column i (suc n) sum = sum_from column (i + 1) n ((sum + get_or column i 0) % u64_mod)

-- The body of the loop of `FilterGtSum_Scalar` at index `i`.
abbrev pub filter_step : List ℕ → List ℕ → ℕ → ℕ → FilterSumResult → FilterSumResult
filter_step pred out threshold i result =
    if greater (get_or pred i 0) threshold
    then record {
      sum = (result.sum + get_or out i 0) % u64_mod;
      matched_count = inc64 result.matched_count;
    }
    else result

unfoldable pub filter_from : List ℕ → List ℕ → ℕ → ℕ → ℕ → FilterSumResult → FilterSumResult
filter_from pred out threshold i zero result = result
filter_from pred out threshold i (suc n) result =
    filter_from pred out threshold (i + 1) n (filter_step pred out threshold i result)

-- `FilterGtSum(pred + offset, out + offset, count, threshold)`, by the scalar kernel
unfoldable pub filter_gt_sum : List ℕ → List ℕ → ℕ → ℕ → ℕ → FilterSumResult
unfolding filter_from
filter_gt_sum pred out offset count threshold = filter_from pred out threshold offset count no_match

abbrev pub combine : FilterSumResult → FilterSumResult → FilterSumResult
combine result batch = record {
  matched_count = (result.matched_count + batch.matched_count) % u64_mod;
  sum = (result.sum + batch.sum) % u64_mod;
}

-- The loop over the batches of a segment; `none` is to be out of fuel.
unfoldable pub run_batches :
    List ℕ → List ℕ → ℕ → ℕ → ℕ → ℕ → ℕ → FilterSumResult → Option FilterSumResult
unfolding filter_gt_sum
run_batches pred agg threshold num_rows batch_size zero offset result = none
run_batches pred agg threshold num_rows batch_size (suc fuel) offset result =
    let count = if ltb (num_rows - offset) batch_size then num_rows - offset else batch_size in
    let rest =
      run_batches pred agg threshold num_rows batch_size fuel (offset + batch_size)
        (combine result (filter_gt_sum pred agg offset count threshold)) in
    if ltb offset num_rows then rest else some result

module _ (d : Double) where
  -- Whether a scan may leave the segment out.
  abbrev pub prunes : Segment → AggregateQuery → Option Bool
  prunes seg query =
      can_skip d seg query.predicate_column PredicateOp.gt (Value.int64 query.threshold)

  unfoldable pub run_vectorized :
      List Segment → AggregateQuery → ℕ → FilterSumResult → Option FilterSumResult
  unfolding run_batches
  run_vectorized [] query batch_size result = some result
  run_vectorized (seg ∷ segments) query batch_size result = do
    skip ← prunes seg query
    if skip then run_vectorized segments query batch_size result else do
      pred ← get_elem? seg.columns query.predicate_column
      agg ← get_elem? seg.columns query.aggregate_column
      result' ←
          run_batches pred.int64_data agg.int64_data query.threshold seg.num_rows batch_size
            (seg.num_rows + 1) 0 result
      run_vectorized segments query batch_size result'
