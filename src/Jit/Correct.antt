-- ===== src/Jit/Correct.antt =====
-- A whole call of the function that src/jit/query_jit.cpp builds.
use coredb.Prelude.{ℕ, suc, ◌<◌, ◌≡◌, refl, ◌∙◌, false, List, some, u64_mod, arith}
use coredb.Exec.{FilterSumResult, no_match, filter_gt_sum, filter_from}
use coredb.Jit.{
  IrValue, int64, i_ptr, sum_ptr, count_ptr, alloca, store, Label, FusedFn, build_module, same,
}
use coredb.Jit.Llvm.{
  Llvm, Semantics, Allocates, Stores, Apart, Called, Callable, IsCompiled, straight,
}
use coredb.Jit.Locals.{Layout, IsLaidOut, Named, Ready, Left, stored-Named, swap}
use coredb.Jit.Loop.{blocks, loop-Returns}

module _ (l : Llvm) (sem : Semantics l) (pred out : List ℕ) (rows limit : ℕ) (s : l.State)
    (c : Called l s pred out rows limit) where
  abbrev allocated : IrValue → l.State → l.State
  allocated v s = l.exec (alloca v) s

  abbrev s1 : l.State
  s1 = allocated i_ptr s

  abbrev s2 : l.State
  s2 = allocated sum_ptr s1

  abbrev s3 : l.State
  s3 = allocated count_ptr s2

  first : Allocates l i_ptr s
  unfolding same
  first = sem.allocas s i_ptr refl

  second : Allocates l sum_ptr s1
  unfolding same
  second = sem.allocas s1 sum_ptr refl

  third : Allocates l count_ptr s2
  unfolding same
  third = sem.allocas s2 count_ptr refl

  -- Where the call's cells are: those of the caller, and the three that the first block allocates.
  abbrev pub layout : Layout
  layout = record {
    pred = l.word s IrValue.pred_ptr;
    out = l.word s IrValue.out_ptr;
    out_count = l.word s IrValue.out_count_ptr;
    out_sum = l.word s IrValue.out_sum_ptr;
    index = l.word s1 i_ptr;
    sum = l.word s2 sum_ptr;
    count = l.word s3 count_ptr;
  }

  -- A cell of the caller is apart from the three, and keeps what it holds.
  caller_apart :
      (p : ℕ) → l.Live s p → Apart p layout.index × Apart p layout.sum × Apart p layout.count
  caller_apart p live = (
    first.fresh p live,
    second.fresh p (first.kept p live),
    third.fresh p (second.kept p (first.kept p live)),
  )

  caller_cell : (p : ℕ) → l.Live s p → l.cell s3 p ≡ l.cell s p
  caller_cell p live =
      third.cell p (second.kept p (first.kept p live))
      ∙ second.cell p (first.kept p live)
      ∙ first.cell p live

  layout-IsLaidOut : IsLaidOut l layout pred out rows limit
  layout-IsLaidOut = record {
    index_sum = second.fresh layout.index first.live;
    index_count = third.fresh layout.index (second.kept layout.index first.live);
    sum_count = third.fresh layout.sum second.live;
    sum_out = swap (caller_apart layout.out_count c.count_live).1;
    outs = c.apart;
    pred_fits = c.pred_cells.fits;
    out_fits = c.out_cells.fits;
    pred_apart = λ k lt. caller_apart _ (c.pred_cells.live k lt);
    out_apart = λ k lt. caller_apart _ (c.out_cells.live k lt);
  }

  allocated_word :
      (v : IrValue)
      → same v i_ptr ≡ false
      → same v sum_ptr ≡ false
      → same v count_ptr ≡ false
      → l.word s3 v ≡ l.word s v
  allocated_word v ne1 ne2 ne3 = third.word v ne3 ∙ second.word v ne2 ∙ first.word v ne1

  allocated-Named : Named l layout pred out rows limit s3
  unfolding same
  allocated-Named = record {
    pred_ptr = allocated_word IrValue.pred_ptr refl refl refl;
    out_ptr = allocated_word IrValue.out_ptr refl refl refl;
    num_rows = allocated_word IrValue.n refl refl refl ∙ c.num_rows;
    threshold = allocated_word IrValue.threshold refl refl refl ∙ c.limit;
    i_ptr = third.word i_ptr refl ∙ second.word i_ptr refl;
    sum_ptr = third.word sum_ptr refl;
    count_ptr = refl;
    out_count_ptr = allocated_word IrValue.out_count_ptr refl refl refl;
    out_sum_ptr = allocated_word IrValue.out_sum_ptr refl refl refl;
  }

  -- `store 0` to the cell that a pointer stands for.
  zeroed :
      (t : l.State) (p : IrValue) (ptr : ℕ)
      → l.word t p ≡ ptr
      → Stores l (store (int64 0) p) t 0 ptr
  zeroed t p ptr e = rw (sem.constant t 0 (omega arith), e) at (sem.stores t (int64 0) p)

  entry-Ready :
      Ready l layout pred out rows limit
        (straight l (build_module Label.entry).instructions s)
        0
        no_match
  unfolding build_module
  entry-Ready =
      let n3 = allocated-Named in
      let w = layout-IsLaidOut in
      let d4 = zeroed s3 i_ptr layout.index n3.i_ptr in
      let s4 = l.exec (store (int64 0) i_ptr) s3 in
      let n4 = stored-Named l layout pred out rows limit _ s3 _ _ d4 n3 in
      let d5 = zeroed s4 sum_ptr layout.sum n4.sum_ptr in
      let s5 = l.exec (store (int64 0) sum_ptr) s4 in
      let n5 = stored-Named l layout pred out rows limit _ s4 _ _ d5 n4 in
      let d6 = zeroed s5 count_ptr layout.count n5.count_ptr in
      let column : (p : ℕ)
          → l.Live s p
          → l.cell (l.exec (store (int64 0) count_ptr) s5) p ≡ l.cell s p =
        λ p live.
          d6.there p (caller_apart p live).2
          ∙ d5.there p (caller_apart p live).1
          ∙ d4.there p (caller_apart p live).0
          ∙ caller_cell p live in
      (
        stored-Named l layout pred out rows limit _ s5 _ _ d6 n5,
        record {
          index = d6.there layout.index w.index_count ∙ d5.there layout.index w.index_sum ∙ d4.here;
          sum = d6.there layout.sum w.sum_count ∙ d5.here;
          count = d6.here;
          pred_cells = λ k lt. column _ (c.pred_cells.live k lt) ∙ c.pred_cells.cells k lt;
          out_cells = λ k lt. column _ (c.out_cells.live k lt) ∙ c.out_cells.cells k lt;
        },
      )

  pub call_returns :
      rows < u64_mod
      → (s' : l.State) × (l.enter (suc (blocks rows)) build_module Label.entry s ≡ some s')
        × Left l layout pred out rows limit s' (filter_from pred out limit 0 rows no_match)
  unfolding build_module
  call_returns fit =
      let (s', returned, left) =
        loop-Returns l sem layout pred out rows limit layout-IsLaidOut 0 rows _ no_match
          (omega arith) fit (omega arith, omega arith) entry-Ready in
      (s', sem.enters build_module (blocks rows) Label.entry s ∙ returned, left)

module _ (l : Llvm) (sem : Semantics l) (fn : FusedFn)
    (compiled : IsCompiled l build_module fn) where
  -- The native code of the function gives what the scalar kernel gives.
  pub compiled_lem :
      (pred out : List ℕ) (rows limit : ℕ) (r : FilterSumResult)
      → Callable l pred out rows
      → fn pred out rows limit r ≡ filter_gt_sum pred out 0 rows limit
  unfolding filter_gt_sum
  compiled_lem pred out rows limit r ok =
      let s = l.start pred out rows limit r in
      let c = compiled.called pred out rows limit r ok in
      let (s', returned, left) = call_returns l sem pred out rows limit s c (omega (arith, ok.0)) in
      compiled.returned pred out rows limit r _ s' ok returned
      ∙ ground (arith, left.count, left.sum)
