-- ===== src/Exec/OnePass.antt =====
-- The batched query of src/exec/vectorized.cpp against one pass over the rows.
use coredb.Prelude.{
  ℕ, ◌+◌, ◌-◌, ◌<◌, ◌≡◌, refl, ap, ◌∙◌, true, false, List, [], ◌∷◌, Option, some, if◌then◌else◌,
  ◌>>=◌, get_elem?, arith, Option-cases, inl, inr,
}
use coredb.Storage.Types.{Double}
use coredb.Storage.Segment.{Segment, Column}
use coredb.Exec.{FilterSumResult, AggregateQuery, filter_from, run_batches, prunes, run_vectorized}
use coredb.Exec.Batches.{InRange, filter_from-InRange, run_batches_lem}

module _ (d : Double) where
  -- The query by one pass over the rows of each segment that is not pruned.
  unfoldable pub run_rows : List Segment → AggregateQuery → FilterSumResult → Option FilterSumResult
  unfolding filter_from
  run_rows [] query result = some result
  run_rows (seg ∷ segments) query result = do
    skip ← prunes d seg query
    if skip then run_rows segments query result else do
      pred ← get_elem? seg.columns query.predicate_column
      agg ← get_elem? seg.columns query.aggregate_column
      run_rows segments query
          (filter_from pred.int64_data agg.int64_data query.threshold 0 seg.num_rows result)

  run_batches_whole :
      (pred agg : Column) (threshold num_rows batch_size : ℕ) (r : FilterSumResult)
      → 0 < batch_size
      → InRange r
      → run_batches pred.int64_data agg.int64_data threshold num_rows batch_size (num_rows + 1) 0 r
        ≡ some (filter_from pred.int64_data agg.int64_data threshold 0 num_rows r)
  run_batches_whole pred agg threshold num_rows batch_size r some_rows h =
      let all : num_rows - 0 ≡ num_rows = omega arith in
      run_batches_lem pred.int64_data agg.int64_data threshold num_rows batch_size some_rows
        (num_rows + 1) 0 r h (omega arith) (omega arith)
      ∙ ap (λ n. some (filter_from pred.int64_data agg.int64_data threshold 0 n r)) all

  segment_lem :
      (seg : Segment) (segments : List Segment) (query : AggregateQuery) (batch_size : ℕ)
      (r : FilterSumResult)
      → 0 < batch_size
      → InRange r
      → ((s : FilterSumResult)
          → InRange s
          → run_vectorized d segments query batch_size s ≡ run_rows segments query s)
      → run_vectorized d (seg ∷ segments) query batch_size r ≡ run_rows (seg ∷ segments) query r
  unfolding run_vectorized run_rows
  segment_lem seg segments query batch_size r some_rows h ih =
      elim (Option-cases (prunes d seg query)) [
        | inl e ↦ rw e refl
        | inr (true, e) ↦ rw e (ih r h)
        | inr (false, e) ↦ elim (Option-cases (get_elem? seg.columns query.predicate_column)) [
          | inl e1 ↦ rw (e, e1) refl
          | inr (pred, e1) ↦ elim (Option-cases (get_elem? seg.columns query.aggregate_column)) [
            | inl e2 ↦ rw (e, e1, e2) refl
            | inr (agg, e2) ↦
                rw
                  (
                    e,
                    e1,
                    e2,
                    run_batches_whole pred agg query.threshold seg.num_rows batch_size r some_rows
                        h,
                  )
                  (ih (filter_from pred.int64_data agg.int64_data query.threshold 0 seg.num_rows r)
                    (filter_from-InRange pred.int64_data agg.int64_data query.threshold 0
                      seg.num_rows r h))
          ]
        ]
      ]

  -- For a batch size above 0 and a result so far that fits its words, the batched query gives what
  -- one pass over the rows of each segment that is not pruned gives, exceptions included.
  pub run_vectorized-run_rows :
      (segments : List Segment) (query : AggregateQuery) (batch_size : ℕ) (r : FilterSumResult)
      → 0 < batch_size
      → InRange r
      → run_vectorized d segments query batch_size r ≡ run_rows segments query r
  unfolding run_vectorized run_rows
  run_vectorized-run_rows [] query batch_size r some_rows h = refl
  run_vectorized-run_rows (seg ∷ segments) query batch_size r some_rows h =
      segment_lem seg segments query batch_size r some_rows h
        (λ s. run_vectorized-run_rows segments query batch_size s some_rows)
