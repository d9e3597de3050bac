-- ===== src/Storage/Pruning/Built.antt =====
-- `Segment::CanSkip` of src/storage/segment.cpp on the segments that `Segment::Build` makes.
use coredb.Prelude.{
  ℕ, zero, suc, ◌+◌, ◌≡◌, ◌⊎◌, refl, sym, ap, ◌∙◌, Bool, true, false, List, [], ◌∷◌, some,
  get_elem?, length, arith, Option-cases, inl, inr, All-get_elem?,
}
use coredb.Storage.Types.{
  ColumnType, Schema, Value, null, Row, Double, PredicateOp, as_double, evaluate_predicate,
}
use coredb.Storage.Segment.{
  Column, Segment, fill_rows, fresh_column, build_column, build_columns, build, can_skip,
  compute_column_checksum,
}
use coredb.Storage.Pruning.{IsOrder, can_skip_sound}
use coredb.Storage.Pruning.Spans.{Spans, Numbers, IsCell, moved-Range, fill_rows-Spans}

pick :
    (first col : Column) (others : List Column) (i : ℕ)
    → get_elem? (first ∷ others) i ≡ some col
    → ((i ≡ 0) × (first ≡ col)) ⊎ ((k : ℕ) × (i ≡ suc k) × (get_elem? others k ≡ some col))
pick first col others zero at = inl (refl, ground (arith, at))
pick first col others (suc k) at = inr (k, refl, at)

build_columns-at :
    (d : Double) (c i : ℕ) (schema : Schema) (rows : List Row) (cols : List Column) (col : Column)
    → build_columns d c schema rows ≡ some cols
    → get_elem? cols i ≡ some col
    → (t : ColumnType) × (build_column d (c + i) t rows ≡ some col)
unfolding build_columns
build_columns-at d c i [] rows cols col e at = ground (arith, e, at)
build_columns-at d c i (cs ∷ schema) rows cols col e at =
    elim (Option-cases (build_column d c cs.type rows)) [
      | inl threw ↦ absurd (ground (arith, e, threw))
      | inr (first, e1) ↦ elim (Option-cases (build_columns d (c + 1) schema rows)) [
        | inl threw ↦ absurd (ground (arith, e, e1, threw))
        | inr (others, e2) ↦
            let whole : first ∷ others ≡ cols = ground (arith, e, e1, e2) in
            elim (pick first col others i (rw (← whole) at at)) [
              | inl (z, same) ↦
                  let here : c + i ≡ c = omega (arith, z) in
                  (cs.type, ap (λ n. build_column d n cs.type rows) here ∙ e1 ∙ ap some same)
              | inr (k, next, later) ↦
                  let (t, found) = build_columns-at d (c + 1) k schema rows others col e2 later in
                  let there : c + i ≡ c + 1 + k = omega (arith, next) in
                  (t, ap (λ n. build_column d n t rows) there ∙ found)
            ]
      ]
    ]

module _ (d : Double) (ordinary : ℕ → Bool) (o : IsOrder d.less ordinary) where
  moved :
      (col col' : Column) (b : Bool) (rows : List Row) (c : ℕ)
      → col'.min ≡ col.min
      → col'.max ≡ col.max
      → Spans d ordinary o (col, b) (λ y. ⊥ ⊎ IsCell d ordinary o c rows y)
      → Spans d ordinary o (col', b) (IsCell d ordinary o c rows)
  moved col col' b rows c p q (inl (has, old, within)) =
      let (range, kept) = moved-Range d ordinary o col col' p q old in
      inl (has, range, λ y cell. kept y (within y (inr cell)))
  moved col col' b rows c p q (inr (has, empty, nothing)) =
      inr (has, p ∙ empty, λ y cell. nothing y (inr cell))

  build_column-Spans :
      (c : ℕ) (t : ColumnType) (rows : List Row) (col : Column)
      → build_column d c t rows ≡ some col
      → Numbers d ordinary o c rows
      → (b : Bool) × Spans d ordinary o (col, b) (IsCell d ordinary o c rows)
  unfolding build_column fresh_column
  build_column-Spans c t rows col e numbers =
      let fresh = fresh_column t (length rows) in
      elim (Option-cases (fill_rows d c 0 (fresh, false) rows)) [
        | inl threw ↦ absurd (ground (arith, e, threw))
        | inr (s, filled) ↦
            let same : record (s.0) { checksum = compute_column_checksum s.0 } ≡ col =
              ground (arith, e, filled) in
            let spans =
              fill_rows-Spans d ordinary o c 0 rows (fresh, false) s (λ y. ⊥) filled numbers
                (inr (refl, refl, λ y a. a)) in
            (
              s.1,
              moved s.0 col s.1 rows c (ap (λ k. k.min) (sym same)) (ap (λ k. k.max) (sym same))
                  spans,
            )
      ]

  evaluate-null :
      (op : PredicateOp) (literal : Value) → evaluate_predicate d null op literal ≡ some false
  unfolding evaluate_predicate
  evaluate-null op literal = refl

  -- A column of the segment that has no bounds is not skipped.
  unbounded :
      (seg : Segment) (col_idx : ℕ) (col : Column) (op : PredicateOp) (literal : Value)
      → get_elem? seg.columns col_idx ≡ some col
      → col.min ≡ null
      → can_skip d seg col_idx op literal ≡ some false
  unfolding can_skip
  unbounded seg col_idx col op literal at empty = ground (arith, at, empty)

  skipped_column :
      (seg : Segment) (col_idx : ℕ) (op : PredicateOp) (literal : Value)
      → can_skip d seg col_idx op literal ≡ some true
      → (col : Column) × (get_elem? seg.columns col_idx ≡ some col)
  unfolding can_skip
  skipped_column seg col_idx op literal skips =
      elim (Option-cases (get_elem? seg.columns col_idx)) [
        | inl missing ↦ absurd (ground (arith, skips, missing))
        | inr found ↦ found
      ]

  built_columns :
      (segment_id : ℕ) (schema : Schema) (rows : List Row) (seg : Segment)
      → build d segment_id schema rows ≡ some seg
      → build_columns d 0 schema rows ≡ some seg.columns
  unfolding build
  built_columns segment_id schema rows seg built =
      elim (Option-cases (build_columns d 0 schema rows)) [
        | inl threw ↦ absurd (ground (arith, built, threw))
        | inr (cols, done) ↦ ground (arith, built, done)
      ]

  -- Of a segment that Build made of rows in which every cell of a column is NULL or converts to an
  -- ordinary double, where the order of doubles is strict and its complement transitive on
  -- ordinary ones: if CanSkip lets a scan skip the segment for a predicate on the column with an
  -- ordinary literal, the predicate fails on the cell of every row.
  pub can_skip-build :
      (segment_id : ℕ) (schema : Schema) (rows : List Row) (seg : Segment) (col_idx j : ℕ)
      (row : Row) (op : PredicateOp) (literal v : Value) (l : ℕ)
      → build d segment_id schema rows ≡ some seg
      → Numbers d ordinary o col_idx rows
      → as_double d literal ≡ some l
      → ordinary l ≡ true
      → can_skip d seg col_idx op literal ≡ some true
      → get_elem? rows j ≡ some row
      → get_elem? row col_idx ≡ some v
      → evaluate_predicate d v op literal ≡ some false
  can_skip-build segment_id schema rows seg col_idx j row op literal v l built numbers pl ol skips
        found cell =
      let (col, at) = skipped_column seg col_idx op literal skips in
      let (t, made) =
        build_columns-at d 0 col_idx schema rows seg.columns col
          (built_columns segment_id schema rows seg built) at in
      let one : build_column d col_idx t rows ≡ some col =
        ap (λ n. build_column d n t rows) (omega arith) ∙ made in
      elim (build_column-Spans col_idx t rows col one numbers).1 [
        | inr (has, empty, nothing) ↦
            absurd (ground (arith, skips, unbounded seg col_idx col op literal at empty))
        | inl (has, range, within) ↦ elim (All-get_elem? _ rows j row numbers found v cell) [
          | inl nul ↦ rw nul (evaluate-null op literal)
          | inr (x, px, ox) ↦
              let inside = within x (j, row, v, found, cell, px) in
              can_skip_sound d ordinary o seg col_idx col op literal v range.lo range.hi l x at
                range.min range.max pl px
                (inside.0, (range.ordinary_lo, (range.ordinary_hi, (ol, tt)))) inside.1 inside.2
                skips
        ]
      ]
