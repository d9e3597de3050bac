-- ===== src/Exec/Volcano.antt =====
-- src/exec/volcano.cpp: the same query by iterators, a row at a time.
--
-- `SegmentScanOp` is the segments that are left, the segment it is in, the row there and the values
-- it shows. `none` is an exception.
pub mod Rows
use coredb.Prelude.{
  ℕ, zero, suc, ◌+◌, ◌%◌, Bool, true, false, List, [], ◌∷◌, Option, none, some, ltb, if◌then◌else◌,
  ◌>>=◌, get_elem?, get_or, inc64, u64_mod,
}
use coredb.Storage.Types.{Double}
use coredb.Storage.Segment.{Segment, Column}
use coredb.Exec.{FilterSumResult, AggregateQuery, no_match, greater, prunes}

pub record SegmentScanOp : Type 0 where
  pub segments : List Segment
  pub current : Option Segment
  pub row : ℕ
  pub pred : ℕ
  pub agg : ℕ

-- What a call of `Next` leaves, and whether there is a row.
abbrev pub Pulled : Type 0
Pulled = SegmentScanOp × Bool

module _ (d : Double) (query : AggregateQuery) where
  -- `current_->column(...).AsInt64()[row_]`, twice, and `++row_`
  unfoldable pub show_row : List Segment → Segment → ℕ → Option Pulled
  show_row segments seg row = do
    pred ← get_elem? seg.columns query.predicate_column
    agg ← get_elem? seg.columns query.aggregate_column
    some (
      record {
        segments = segments;
        current = some seg;
        row = row + 1;
        pred = get_or pred.int64_data row 0;
        agg = get_or agg.int64_data row 0;
      },
      true,
    )

  -- The loop of `Next` where no segment is current: `AdvanceSegment`, and the first row of the
  -- segment it finds, if that has a row.
  unfoldable pub advance : SegmentScanOp → List Segment → Option Pulled
  unfolding show_row
  advance op [] = some (record op { segments = []; current = none }, false)
  advance op (seg ∷ segments) =
      let later = advance op segments in
      prunes d seg query >>= λ skip.
      if skip then later else if ltb 0 seg.num_rows then show_row segments seg 0 else later

  unfoldable pub next_row : SegmentScanOp → Option Pulled
  unfolding advance show_row
  next_row op = elim op.current [
    | none ↦ advance op op.segments
    | some seg ↦
        if ltb op.row seg.num_rows then show_row op.segments seg op.row else advance op op.segments
  ]

  -- `FilterOp::Next` inside the loop of `RunVolcano`: both loops go on to the next row, and the second
  -- adds those that match. `none` at the end of the fuel.
  unfoldable pub run_loop : ℕ → SegmentScanOp → FilterSumResult → Option FilterSumResult
  unfolding next_row
  run_loop zero op result = none
  run_loop (suc fuel) op result = next_row op >>= λ pulled.
      if pulled.1
      then run_loop fuel pulled.0 (
          if greater pulled.0.pred query.threshold
          then record {
            sum = (result.sum + pulled.0.agg) % u64_mod;
            matched_count = inc64 result.matched_count;
          }
          else result)
      else some result

  abbrev pub rows_left : List Segment → ℕ
  rows_left [] = 0
  rows_left (seg ∷ segments) = seg.num_rows + rows_left segments

  unfoldable pub run_volcano : List Segment → Option FilterSumResult
  unfolding run_loop
  run_volcano segments =
      run_loop (rows_left segments + 1)
        (record { segments = segments; current = none; row = 0; pred = 0; agg = 0 }) no_match
