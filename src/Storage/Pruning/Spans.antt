-- ===== src/Storage/Pruning/Spans.antt =====
-- The loop of `Segment::Build` in src/storage/segment.cpp leaves bounds that take in the cells of a
-- column of numbers.
use coredb.Prelude.{
  ℕ, zero, suc, ◌+◌, ◌≡◌, ◌⊎◌, refl, sym, ap, ◌∙◌, subst, Bool, true, false, List, [], ◌∷◌, some,
  ◌>>=◌, get_elem?, arith, Option-cases, inl, inr, All,
}
use coredb.Storage.Types.{
  ColumnType, int32, int64, double, string, Value, null, Row, Double, as_double,
}
use coredb.Util.Bitmap.{set_valid}
use coredb.Storage.Segment.{Column, store, widen, fill_cell, fill_rows}
use coredb.Storage.Pruning.{IsOrder}
use coredb.Storage.Pruning.Range.{Range, IsWithin, extend_bounds, set_bounds}

store-bounds :
    (t : ColumnType) (col col' : Column) (r : ℕ) (v : Value)
    → store t col r v ≡ some col'
    → (col'.min ≡ col.min) × (col'.max ≡ col.max)
unfolding store
store-bounds int32 col col' r (Value.int32 x) e = (ground (arith, e), ground (arith, e))
store-bounds int64 col col' r (Value.int64 x) e = (ground (arith, e), ground (arith, e))
store-bounds double col col' r (Value.double x) e = (ground (arith, e), ground (arith, e))
store-bounds string col col' r (Value.string x) e = (ground (arith, e), ground (arith, e))
store-bounds t col col' r v e = cc

module _ (d : Double) (ordinary : ℕ → Bool) (o : IsOrder d.less ordinary) where
  fill_cell_number :
      (r : ℕ) (s : Column × Bool) (v : Value) (x : ℕ)
      → as_double d v ≡ some x
      → fill_cell d r s v ≡ (do
        stored ← store (s.0).type s.0 r v
        widened ← widen d s.1 stored v
        some (widened, true))
  unfolding fill_cell as_double
  fill_cell_number r s (Value.int32 i) x e = refl
  fill_cell_number r s (Value.int64 i) x e = refl
  fill_cell_number r s (Value.double i) x e = refl
  fill_cell_number r s v x e = cc

  -- The bounds take in the numbers of the set; a column without bounds has none.
  abbrev pub Spans : Column × Bool → (ℕ → Type 0) → Type 0
  Spans s P =
      ((s.1 ≡ true)
        × (range : Range d ordinary o s.0) × ((y : ℕ) → P y → IsWithin d ordinary o s.0 range y))
      ⊎ ((s.1 ≡ false) × ((s.0).min ≡ null) × ((y : ℕ) → ¬ P y))

  -- A column with the bounds of another one.
  pub moved-Range :
      (col col' : Column)
      → col'.min ≡ col.min
      → col'.max ≡ col.max
      → (old : Range d ordinary o col)
      → (range : Range d ordinary o col') × ((y : ℕ)
          → IsWithin d ordinary o col old y
          → IsWithin d ordinary o col' range y)
  moved-Range col col' p q old = (
    record {
      lo = old.lo;
      hi = old.hi;
      min = ap (as_double d) p ∙ old.min;
      max = ap (as_double d) q ∙ old.max;
      ordinary_lo = old.ordinary_lo;
      ordinary_hi = old.ordinary_hi;
    },
    λ y h. h,
  )

  null-Spans :
      (r : ℕ) (s s' : Column × Bool) (P : ℕ → Type 0)
      → fill_cell d r s null ≡ some s'
      → Spans s P
      → Spans s' P
  unfolding fill_cell
  null-Spans r s s' P e h =
      let col = record (s.0) { validity = set_valid (s.0).validity r false } in
      let same : (col, s.1) ≡ s' = ground (arith, e) in
      subst (λ s. Spans s P) same
        (elim h [
          | inl (has, old, within) ↦
              let (range, kept) = moved-Range s.0 col refl refl old in
              inl (has, range, λ y a. kept y (within y a))
          | inr none_yet ↦ inr none_yet
        ])

  number-Spans :
      (r : ℕ) (s s' : Column × Bool) (P : ℕ → Type 0) (v : Value) (x : ℕ)
      → as_double d v ≡ some x
      → ordinary x ≡ true
      → fill_cell d r s v ≡ some s'
      → Spans s P
      → Spans s' (λ y. P y ⊎ (y ≡ x))
  number-Spans r s s' P v x p ox e h = elim (Option-cases (store (s.0).type s.0 r v)) [
    | inl missing ↦ absurd (ground (arith, e, fill_cell_number r s v x p, missing))
    | inr (stored, st) ↦
        let (lo, hi) = store-bounds (s.0).type s.0 stored r v st in
        elim h [
          | inl (has, old, within) ↦
              let (range, kept) = moved-Range s.0 stored lo hi old in
              let (col, widened, wd) = extend_bounds d ordinary o v x p ox stored range in
              let same : (col, true) ≡ s' =
                ground (arith, e, fill_cell_number r s v x p, st, has, widened) in
              subst (λ s. Spans s (λ y. P y ⊎ (y ≡ x))) same
                (inl (
                  refl,
                  wd.range,
                  λ y. elim [
                    | inl a ↦ wd.there y (kept y (within y a))
                    | inr q ↦ subst (IsWithin d ordinary o col wd.range) (sym q) wd.here
                  ],
                ))
          | inr (has, empty, nothing) ↦
              let (col, widened, range, here) = set_bounds d ordinary o v x p ox stored in
              let same : (col, true) ≡ s' =
                ground (arith, e, fill_cell_number r s v x p, st, has, widened) in
              subst (λ s. Spans s (λ y. P y ⊎ (y ≡ x))) same
                (inl (
                  refl,
                  range,
                  λ y. elim [
                    | inl a ↦ absurd (nothing y a)
                    | inr q ↦ subst (IsWithin d ordinary o col range) (sym q) here
                  ],
                ))
        ]
  ]

  -- Cell `c` of each row is NULL or an ordinary number.
  abbrev pub Numbers : ℕ → List Row → Type 0
  Numbers c rows =
      All
        (λ row.
          (v : Value)
          → get_elem? row c ≡ some v
          → (v ≡ null) ⊎ ((x : ℕ) × (as_double d v ≡ some x) × (ordinary x ≡ true)))
        rows

  -- A number that is cell `c` of a row.
  abbrev pub IsCell : ℕ → List Row → ℕ → Type 0
  IsCell c rows y =
      (j : ℕ) × (row : Row) × (v : Value) × (get_elem? rows j ≡ some row)
      × (get_elem? row c ≡ some v)
      × (as_double d v ≡ some y)

  pub weaken :
      (s : Column × Bool) (P Q : ℕ → Type 0) → ((y : ℕ) → Q y → P y) → Spans s P → Spans s Q
  weaken s P Q f (inl (has, range, within)) = inl (has, range, λ y q. within y (f y q))
  weaken s P Q f (inr (has, empty, nothing)) = inr (has, empty, λ y q. nothing y (f y q))

  -- A cell of the rows is the first row's or one of the others.
  cell_null :
      (c y : ℕ) (row : Row) (rows : List Row)
      → get_elem? row c ≡ some null
      → IsCell c (row ∷ rows) y
      → IsCell c rows y
  unfolding as_double
  cell_null c y row rows at (zero, row', v, found, cell, number) =
      absurd (ground (arith, at, found, cell, number))
  cell_null c y row rows at (suc j, row', v, found, cell, number) =
      (j, row', v, found, cell, number)

  cell_number :
      (c x y : ℕ) (row : Row) (rows : List Row) (v : Value)
      → get_elem? row c ≡ some v
      → as_double d v ≡ some x
      → IsCell c (row ∷ rows) y
      → (y ≡ x) ⊎ IsCell c rows y
  cell_number c x y row rows v at p (zero, row', v', found, cell, number) =
      inl (ground (arith, at, p, found, cell, number))
  cell_number c x y row rows v at p (suc j, row', v', found, cell, number) =
      inr (j, row', v', found, cell, number)

  pub no_cell : (c y : ℕ) → ¬ IsCell c [] y
  no_cell c y (j, row, v, found, cell, number) = ground (arith, found)

  pub fill_rows-Spans :
      (c r : ℕ) (rows : List Row) (s s' : Column × Bool) (P : ℕ → Type 0)
      → fill_rows d c r s rows ≡ some s'
      → Numbers c rows
      → Spans s P
      → Spans s' (λ y. P y ⊎ IsCell c rows y)
  unfolding fill_rows
  fill_rows-Spans c r [] s s' P e numbers h =
      let same : s ≡ s' = ground (arith, e) in
      subst (λ s. Spans s (λ y. P y ⊎ IsCell c [] y)) same
        (weaken s P _ (λ y. elim [ inl a ↦ a | inr cell ↦ absurd (no_cell c y cell) ]) h)
  fill_rows-Spans c r (row ∷ rows) s s' P e numbers h = elim (Option-cases (get_elem? row c)) [
    | inl missing ↦ absurd (ground (arith, e, missing))
    | inr (v, at) ↦ elim (Option-cases (fill_cell d r s v)) [
      | inl threw ↦ absurd (ground (arith, e, at, threw))
      | inr (s1, one) ↦
          let rest : fill_rows d c (r + 1) s1 rows ≡ some s' = ground (arith, e, at, one) in
          elim (numbers.0 v at) [
            | inl empty ↦
                weaken s' _ _
                  (λ y. elim [
                    | inl a ↦ inl a
                    | inr cell ↦ inr (cell_null c y row rows (rw empty at at) cell)
                  ])
                  (fill_rows-Spans c (r + 1) rows s1 s' P rest numbers.1
                    (null-Spans r s s1 P (rw empty at one) h))
            | inr (x, p, ox) ↦
                weaken s' _ _
                  (λ y. elim [
                    | inl a ↦ inl (inl a)
                    | inr cell ↦ elim (cell_number c x y row rows v at p cell) [
                      | inl q ↦ inl (inr q)
                      | inr k ↦ inr k
                    ]
                  ])
                  (fill_rows-Spans c (r + 1) rows s1 s' (λ y. P y ⊎ (y ≡ x)) rest numbers.1
                    (number-Spans r s s1 P v x p ox one h))
          ]
    ]
  ]
