-- ===== src/Exec/Volcano/Rows.antt =====
-- The iterators of src/exec/volcano.cpp go through the rows that a plain loop goes through.
use coredb.Prelude.{
  ℕ, zero, suc, ◌+◌, ◌-◌, ◌%◌, ◌<◌, ◌≤◌, ◌≡◌, refl, sym, ap, ◌∙◌, true, false, List, [], ◌∷◌,
  Option, none, some, ltb, if◌then◌else◌, get_elem?, get_or, inc64, u64_mod, arith, Bool-cases,
  Option-cases, inl, inr, All,
}
use coredb.Storage.Types.{Double}
use coredb.Storage.Segment.{Segment, Column}
use coredb.Exec.{
  FilterSumResult, AggregateQuery, no_match, greater, filter_step, filter_from, prunes,
  run_vectorized,
}
use coredb.Exec.OnePass.{run_rows, run_vectorized-run_rows}
use coredb.Exec.Volcano.{
  SegmentScanOp, Pulled, show_row, advance, next_row, run_loop, rows_left, run_volcano,
}

module _ (pred agg : List ℕ) (threshold : ℕ) where
  first_row :
      (n : ℕ) (r : FilterSumResult)
      → 0 < n
      → filter_from pred agg threshold (0 + 1) (n - 1) (filter_step pred agg threshold 0 r)
        ≡ filter_from pred agg threshold 0 n r
  unfolding filter_from
  first_row zero r h = absurd (omega (arith, h))
  first_row (suc n) r h = let e : suc n - 1 ≡ n = omega arith in rw e refl

  no_rows : (n : ℕ) (r : FilterSumResult) → n ≡ 0 → filter_from pred agg threshold 0 n r ≡ r
  unfolding filter_from
  no_rows n r e = rw e refl

module _ (d : Double) (query : AggregateQuery) where
  -- What the loop of `RunVolcano` does with what `Next` gives.
  abbrev resume : ℕ → Option Pulled → FilterSumResult → Option FilterSumResult
  resume fuel none result = none
  resume fuel (some (op, false)) result = some result
  resume fuel (some (op, true)) result = run_loop d query fuel op (
      if greater op.pred query.threshold
      then record {
        sum = (result.sum + op.agg) % u64_mod;
        matched_count = inc64 result.matched_count;
      }
      else result)

  run_loop_lem :
      (fuel : ℕ) (op : SegmentScanOp) (p : Option Pulled) (r : FilterSumResult)
      → next_row d query op ≡ p
      → run_loop d query (suc fuel) op r ≡ resume fuel p r
  unfolding run_loop
  run_loop_lem fuel op none r e = rw e refl
  run_loop_lem fuel op (some (op', false)) r e = rw e refl
  run_loop_lem fuel op (some (op', true)) r e = rw e refl

  -- A segment has both columns of the query.
  abbrev pub HasColumns : Segment → Type 0
  HasColumns seg =
      ((c : Column) × (get_elem? seg.columns query.predicate_column ≡ some c))
      × ((c : Column) × (get_elem? seg.columns query.aggregate_column ≡ some c))

  module _ (seg : Segment) (segments : List Segment) (h : HasColumns seg) where
    abbrev at_row : ℕ → ℕ → ℕ → SegmentScanOp
    at_row row pred agg = record {
      segments = segments;
      current = some seg;
      row = row;
      pred = pred;
      agg = agg;
    }

    abbrev step_row : ℕ → FilterSumResult → FilterSumResult
    step_row row r = filter_step h.0.0.int64_data h.1.0.int64_data query.threshold row r

    show_row_lem :
        (row : ℕ)
        → show_row d query segments seg row
          ≡ some (
            at_row (row + 1) (get_or h.0.0.int64_data row 0) (get_or h.1.0.int64_data row 0),
            true,
          )
    unfolding show_row
    show_row_lem row = rw (h.0.1, h.1.1) refl

    next_row_inside :
        (row pred agg : ℕ)
        → row < seg.num_rows
        → next_row d query (at_row row pred agg) ≡ show_row d query segments seg row
    unfolding next_row
    next_row_inside row pred agg lt =
        let inside : ltb row seg.num_rows ≡ true = ground (arith, lt) in rw inside refl

    next_row_after :
        (row pred agg : ℕ)
        → seg.num_rows ≤ row
        → next_row d query (at_row row pred agg) ≡ advance d query (at_row row pred agg) segments
    unfolding next_row
    next_row_after row pred agg le =
        let outside : ltb row seg.num_rows ≡ false = ground (arith, le) in rw outside refl

    rows_of :
        (n row pred agg fuel : ℕ) (r : FilterSumResult)
        → row + n ≡ seg.num_rows
        → n + rows_left d query segments < fuel
        → ((f : ℕ) (op : SegmentScanOp) (s : FilterSumResult)
            → rows_left d query segments ≤ f
            → resume f (advance d query op segments) s ≡ run_rows d segments query s)
        → run_loop d query fuel (at_row row pred agg) r
          ≡ run_rows d segments query
              (filter_from h.0.0.int64_data h.1.0.int64_data query.threshold row n r)
    unfolding filter_from
    rows_of n row pred agg zero r e enough ih = absurd (omega (arith, enough))
    rows_of zero row pred agg (suc fuel) r e enough ih =
        run_loop_lem fuel (at_row row pred agg) _ r (next_row_after row pred agg (omega (arith, e)))
        ∙ ih fuel (at_row row pred agg) r (omega (arith, enough))
    rows_of (suc n) row pred agg (suc fuel) r e enough ih =
        run_loop_lem fuel (at_row row pred agg) _ r
          (next_row_inside row pred agg (omega (arith, e)) ∙ show_row_lem row)
        ∙ rows_of n (row + 1) _ _ fuel (step_row row r) (omega (arith, e)) (omega (arith, enough))
            ih

  -- What one more segment adds, if later segments are gone through as they should be.
  advance_lem :
      (seg : Segment) (segments : List Segment)
      → HasColumns seg
      → ((f : ℕ) (op : SegmentScanOp) (s : FilterSumResult)
          → rows_left d query segments ≤ f
          → resume f (advance d query op segments) s ≡ run_rows d segments query s)
      → (fuel : ℕ) (op : SegmentScanOp) (r : FilterSumResult)
      → rows_left d query (seg ∷ segments) ≤ fuel
      → resume fuel (advance d query op (seg ∷ segments)) r ≡ run_rows d (seg ∷ segments) query r
  unfolding advance run_rows filter_from
  advance_lem seg segments h ih fuel op r enough = elim (Option-cases (prunes d seg query)) [
    | inl e ↦ rw e refl
    | inr (true, e) ↦ rw e (ih fuel op r (omega (arith, enough)))
    | inr (false, e) ↦ elim (Bool-cases (ltb 0 seg.num_rows)) [
      | inl some_row ↦
          let pos : 0 < seg.num_rows = ground (arith, some_row) in
          let rest : 0 + 1 + (seg.num_rows - 1) ≡ seg.num_rows = omega (arith, pos) in
          rw (e, some_row, h.0.1, h.1.1)
            (rows_of seg segments h (seg.num_rows - 1) (0 + 1) _ _ fuel
                (step_row seg segments h 0 r) (omega (arith, rest)) (omega (arith, enough, pos)) ih
              ∙ ap (run_rows d segments query)
                  (first_row h.0.0.int64_data h.1.0.int64_data query.threshold seg.num_rows r pos))
      | inr no_row ↦
          let empty : seg.num_rows ≡ 0 = ground (arith, no_row) in
          rw (e, no_row, h.0.1, h.1.1)
            (ih fuel op r (omega (arith, enough))
              ∙ ap (run_rows d segments query) (
                  sym (
                    no_rows h.0.0.int64_data h.1.0.int64_data query.threshold seg.num_rows r
                      empty)))
    ]
  ]

  resume_lem :
      (segments : List Segment)
      → All HasColumns segments
      → (fuel : ℕ) (op : SegmentScanOp) (r : FilterSumResult) → rows_left d query segments ≤ fuel
      → resume fuel (advance d query op segments) r ≡ run_rows d segments query r
  unfolding advance run_rows
  resume_lem [] h fuel op r enough = refl
  resume_lem (seg ∷ segments) h fuel op r enough =
      advance_lem seg segments h.0 (resume_lem segments h.1) fuel op r enough

  begins :
      (op : SegmentScanOp)
      → op.current ≡ none
      → next_row d query op ≡ advance d query op op.segments
  unfolding next_row
  begins op e = rw e refl

  run_volcano-run_rows :
      (segments : List Segment)
      → All HasColumns segments
      → run_volcano d query segments ≡ run_rows d segments query no_match
  unfolding run_volcano
  run_volcano-run_rows segments h =
      let fuel : rows_left d query segments + 1 ≡ suc (rows_left d query segments) = omega arith in
      let op : SegmentScanOp = record {
        segments = segments;
        current = none;
        row = 0;
        pred = 0;
        agg = 0;
      } in
      ap (λ n. run_loop d query n op no_match) fuel
      ∙ run_loop_lem (rows_left d query segments) op (advance d query op segments) no_match
          (begins op refl)
      ∙ resume_lem segments h (rows_left d query segments) op no_match (omega arith)

  -- On segments that have both columns of the query, and for a batch size above 0, the iterators
  -- give what the batches give, exceptions included.
  pub run_volcano-run_vectorized :
      (segments : List Segment) (batch_size : ℕ)
      → All HasColumns segments
      → 0 < batch_size
      → run_volcano d query segments ≡ run_vectorized d segments query batch_size no_match
  run_volcano-run_vectorized segments batch_size h some_rows =
      run_volcano-run_rows segments h
      ∙ sym (
          run_vectorized-run_rows d segments query batch_size no_match some_rows
            (omega arith, omega arith))
