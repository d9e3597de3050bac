-- ===== src/Storage/Tests.antt =====
-- Instances of the theorems about src/storage at concrete rows.
use coredb.Prelude.{inr, ℕ, ◌≡◌, refl, true, false, List, [], ◌∷◌, some, arith, ltb, get_elem?}
use coredb.Storage.Types.{
  ColumnType, Schema, Value, null, Row, gt, Double, as_double, compare_values, evaluate_predicate,
}
use coredb.Storage.Dictionary.{Dictionary, find_code, emplace, empty, intern_or_get}
use coredb.Storage.Dictionary.Laws.{IsValid, empty-IsValid, intern_or_get-IsValid}
use coredb.Storage.Segment.{
  Segment, read_row, build, build_columns, build_column, fill_cell, store, fresh_column, widen,
  can_skip,
}
use coredb.Storage.Segment.Build.{build_total}
use coredb.Storage.File.{ok}
use coredb.Storage.File.Save.{save_to_file}
use coredb.Storage.File.Load.{load_from_file}
use coredb.Storage.File.Built.{save_to_file-build}
use coredb.Storage.Pruning.{IsOrder}
use coredb.Storage.Pruning.Spans.{Numbers}
use coredb.Storage.Pruning.Built.{can_skip-build}

-- Doubles that are the natural numbers.
abbrev naturals : Double
naturals = record { of_int32 = λ i. i; of_int64 = λ i. i; less = ltb }

naturals-IsOrder : IsOrder naturals.less (λ x. true)
naturals-IsOrder = record {
  asym = λ a b _ _ h. ground arith;
  not_less = λ a b c _ _ _ h k. ground arith;
}

abbrev hello : List ℕ
hello = 0x68 ∷ 0x69 ∷ []

abbrev two_columns : Schema
two_columns =
    record { name = 0x61 ∷ []; type = ColumnType.int64 }
    ∷ record { name = 0x62 ∷ []; type = ColumnType.string }
    ∷ []

abbrev two_rows : List Row
two_rows = (Value.int64 5 ∷ Value.string hello ∷ []) ∷ (Value.int64 3 ∷ null ∷ []) ∷ []

build_total_example :
    (seg : Segment) × (build naturals 1 two_columns two_rows ≡ some seg)
    × (seg.num_rows ≡ 2)
    × ((j : ℕ) (row : Row) → get_elem? two_rows j ≡ some row → read_row seg.columns j ≡ some row)
build_total_example =
    build_total naturals 1 two_columns two_rows (omega arith)
      ((refl, (refl, tt)), ((refl, (refl, tt)), tt))

abbrev one_word : Dictionary
one_word = (intern_or_get empty hello).0

one_word-IsValid : IsValid one_word
one_word-IsValid = intern_or_get-IsValid empty empty-IsValid hello (omega arith)

one_word_is : one_word ≡ record { values = hello ∷ []; code_of = (hello, 0) ∷ [] }
unfolding intern_or_get find_code emplace
one_word_is = refl

intern_or_get-IsValid_example : IsValid (intern_or_get empty hello).0
intern_or_get-IsValid_example = intern_or_get-IsValid empty empty-IsValid hello (omega arith)

three_and_five : (seg : Segment) × (build naturals 1 two_columns two_rows ≡ some seg)
unfolding build build_columns build_column fill_cell store fresh_column widen compare_values
three_and_five = (_, refl)

all-Numbers : Numbers naturals (λ x. true) naturals-IsOrder 0 two_rows
unfolding as_double
all-Numbers =
    ((λ v e. inr (5, ground (arith, e), refl)), ((λ v e. inr (3, ground (arith, e), refl)), tt))

can_skip-build_example : evaluate_predicate naturals (Value.int64 5) gt (Value.int64 5) ≡ some false
unfolding build can_skip build_columns build_column fill_cell store fresh_column widen
    compare_values as_double three_and_five
can_skip-build_example =
    can_skip-build naturals (λ x. true) naturals-IsOrder 1 two_columns two_rows (three_and_five.0) 0
      0 (Value.int64 5 ∷ Value.string hello ∷ []) gt (Value.int64 5) (Value.int64 5) 5
      three_and_five.1 all-Numbers refl refl refl refl refl

save_to_file-build_example :
    (seg : Segment) × (bytes : List ℕ) × (build naturals 1 two_columns two_rows ≡ some seg)
    × (save_to_file seg ≡ some bytes)
    × (load_from_file two_columns bytes ≡ ok seg)
    × ((j : ℕ) (row : Row) → get_elem? two_rows j ≡ some row → read_row seg.columns j ≡ some row)
save_to_file-build_example =
    save_to_file-build naturals 1 two_columns two_rows (omega arith) (omega arith) (omega arith) (
      ((refl, (refl, tt)), (omega arith, (omega arith, tt))),
      (((refl, (refl, tt)), (omega arith, (tt, tt))), tt),
    )
