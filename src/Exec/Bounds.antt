-- ===== src/Exec/Bounds.antt =====
-- The counter of the query of src/exec/vectorized.cpp against the number of rows.
use coredb.Prelude.{
  sym, ◌∙◌, ℕ, zero, suc, ◌+◌, ◌<◌, ◌≤◌, ◌≡◌, true, false, List, [], ◌∷◌, some, get_elem?, get_or,
  u64_mod, arith, Option-cases, Bool-cases, inl, inr,
}
use coredb.Storage.Types.{Double}
use coredb.Storage.Segment.{Segment}
use coredb.Exec.{
  FilterSumResult, AggregateQuery, greater, filter_step, filter_from, prunes, run_vectorized,
}
use coredb.Table.{total_rows}
use coredb.Exec.OnePass.{run_rows, run_vectorized-run_rows}

filter_step-bound :
    (pred out : List ℕ) (limit i : ℕ) (r : FilterSumResult)
    → r.matched_count + 1 < u64_mod
    → (r.matched_count ≤ (filter_step pred out limit i r).matched_count)
      × ((filter_step pred out limit i r).matched_count ≤ r.matched_count + 1)
filter_step-bound pred out limit i r h = elim (Bool-cases (greater (get_or pred i 0) limit)) [
  | inl e ↦ rw e (omega (arith, h), omega (arith, h))
  | inr e ↦ rw e (omega arith, omega arith)
]

filter_from-bound :
    (pred out : List ℕ) (limit i n : ℕ) (r : FilterSumResult)
    → r.matched_count + n < u64_mod
    → (r.matched_count ≤ (filter_from pred out limit i n r).matched_count)
      × ((filter_from pred out limit i n r).matched_count ≤ r.matched_count + n)
unfolding filter_from
filter_from-bound pred out limit i zero r h = (omega arith, omega arith)
filter_from-bound pred out limit i (suc n) r h =
    let one = filter_step-bound pred out limit i r (omega (arith, h)) in
    let rest =
      filter_from-bound pred out limit (i + 1) n (filter_step pred out limit i r)
        (omega (arith, h, one)) in
    (omega (arith, one, rest), omega (arith, one, rest))

module _ (d : Double) where
  run_rows-bound :
      (segments : List Segment) (query : AggregateQuery) (r s : FilterSumResult)
      → r.matched_count + total_rows segments < u64_mod
      → run_rows d segments query r ≡ some s
      → (r.matched_count ≤ s.matched_count)
        × (s.matched_count ≤ r.matched_count + total_rows segments)
  unfolding run_rows total_rows
  run_rows-bound [] query r s h e = ground (arith, e)
  run_rows-bound (seg ∷ segments) query r s h e = elim (Option-cases (prunes d seg query)) [
    | inl e1 ↦ absurd (ground (arith, e, e1))
    | inr (true, e1) ↦
        let rest = run_rows-bound segments query r s (omega (arith, h)) (ground (arith, e, e1)) in
        (rest.0, omega (arith, rest.1))
    | inr (false, e1) ↦ elim (Option-cases (get_elem? seg.columns query.predicate_column)) [
      | inl e2 ↦ absurd (ground (arith, e, e1, e2))
      | inr (pred, e2) ↦ elim (Option-cases (get_elem? seg.columns query.aggregate_column)) [
        | inl e3 ↦ absurd (ground (arith, e, e1, e2, e3))
        | inr (agg, e3) ↦
            let here =
              filter_from-bound pred.int64_data agg.int64_data query.threshold 0 seg.num_rows r
                (omega (arith, h)) in
            let rest =
              run_rows-bound segments query
                (filter_from pred.int64_data agg.int64_data query.threshold 0 seg.num_rows r) s
                (omega (arith, h, here)) (ground (arith, e, e1, e2, e3)) in
            (omega (arith, here, rest), omega (arith, here, rest))
      ]
    ]
  ]

  -- For a batch size above 0, a sum that fits its word, and fewer than 2 ^ 64 matches so far and
  -- rows in all: when the batched query ends without an exception, its count of matches has not
  -- wrapped around. It is not below the count so far, and above it by the rows of the segments at
  -- most.
  pub run_vectorized_le_rows :
      (segments : List Segment) (query : AggregateQuery) (batch_size : ℕ) (r s : FilterSumResult)
      → 0 < batch_size
      → r.matched_count + total_rows segments < u64_mod
      → r.sum < u64_mod
      → run_vectorized d segments query batch_size r ≡ some s
      → (r.matched_count ≤ s.matched_count)
        × (s.matched_count ≤ r.matched_count + total_rows segments)
  run_vectorized_le_rows segments query batch_size r s some_rows h small e =
      run_rows-bound segments query r s h (
        sym (
          run_vectorized-run_rows d segments query batch_size r some_rows (omega (arith, h), small))
        ∙ e)
