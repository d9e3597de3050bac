-- ===== src/Exec/Tests.antt =====
-- Instances of the theorems about src/exec at a segment of three rows.
use coredb.Prelude.{◌≤◌, ◌+◌, ◌∙◌, ◌≡◌, refl, [], ◌∷◌, some, arith, ltb}
use coredb.Storage.Types.{compare_values, ColumnType, Value, Double}
use coredb.Storage.Segment.{Segment, Column, fresh_column, can_skip}
use coredb.Exec.{AggregateQuery, no_match, run_vectorized}
use coredb.Table.{total_rows}
use coredb.Exec.Bounds.{run_vectorized_le_rows}
use coredb.Exec.Volcano.{run_volcano}
use coredb.Exec.Volcano.Rows.{run_volcano-run_vectorized}
use coredb.Exec.OnePass.{run_rows, run_vectorized-run_rows}

abbrev pub naturals : Double
naturals = record { of_int32 = λ i. i; of_int64 = λ i. i; less = ltb }

abbrev pub measured : Column
measured = record (fresh_column ColumnType.int64 3) {
  int64_data = 4 ∷ 9 ∷ 7 ∷ [];
  min = Value.int64 4;
  max = Value.int64 9;
}

abbrev pub three_rows : Segment
three_rows = record {
  segment_id = 1;
  num_rows = 3;
  schema = record { name = 0x61 ∷ []; type = ColumnType.int64 } ∷ [];
  columns = measured ∷ [];
}

-- The sum of the values above 5.
abbrev pub above_five : AggregateQuery
above_five = record { predicate_column = 0; aggregate_column = 0; threshold = 5 }

two_of_three :
    run_rows naturals (three_rows ∷ []) above_five no_match
    ≡ some (record { matched_count = 2; sum = 16 })
unfolding run_rows can_skip compare_values
two_of_three = refl

run_vectorized-run_rows_example :
    run_vectorized naturals (three_rows ∷ []) above_five 2 no_match
    ≡ run_rows naturals (three_rows ∷ []) above_five no_match
run_vectorized-run_rows_example =
    run_vectorized-run_rows naturals (three_rows ∷ []) above_five 2 no_match (omega arith)
      (omega arith, omega arith)

run_volcano-run_vectorized_example :
    run_volcano naturals above_five (three_rows ∷ [])
    ≡ run_vectorized naturals (three_rows ∷ []) above_five 2 no_match
unfolding fresh_column
run_volcano-run_vectorized_example =
    run_volcano-run_vectorized naturals above_five (three_rows ∷ []) 2
      (((measured, refl), (measured, refl)), tt) (omega arith)

two_matches :
    run_vectorized naturals (three_rows ∷ []) above_five 2 no_match
    ≡ some (record { matched_count = 2; sum = 16 })
two_matches =
    run_vectorized-run_rows naturals (three_rows ∷ []) above_five 2 no_match (omega arith)
      (omega arith, omega arith)
    ∙ two_of_three

run_vectorized_le_rows_example : (0 ≤ 2) × (2 ≤ 0 + total_rows (three_rows ∷ []))
run_vectorized_le_rows_example =
    run_vectorized_le_rows naturals (three_rows ∷ []) above_five 2 no_match
      (record { matched_count = 2; sum = 16 }) (omega arith) (unfold total_rows in omega arith)
      (omega arith) two_matches
