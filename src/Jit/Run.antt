-- ===== src/Jit/Run.antt =====
-- src/exec/jit_exec.cpp: the query over segments by the compiled function.
use coredb.Prelude.{
  ℕ, ◌<◌, ◌≤◌, ◌^◌, ◌≡◌, refl, sym, ◌∙◌, true, false, List, [], ◌∷◌, Option, some, if◌then◌else◌,
  ◌>>=◌, get_elem?, length, arith, All, Option-cases, Bool-cases, inl, inr,
}
use coredb.Storage.Types.{Double}
use coredb.Storage.Segment.{Segment, Column}
use coredb.Exec.{FilterSumResult, AggregateQuery, filter_from, combine, prunes, run_vectorized}
use coredb.Exec.Batches.{InRange, filter_from-InRange, batch_lem}
use coredb.Exec.OnePass.{run_rows, run_vectorized-run_rows}
use coredb.Jit
use coredb.Jit.{
  QueryJit, Toolchain, Function, FusedFn, build_module, function_name, verified_module, compile,
}
use coredb.Jit.Llvm.{Llvm, Semantics, IsCompiled}
use coredb.Jit.Correct.{compiled_lem}

-- The function that is looked up in the module, which was accepted, optimized and added, does what
-- its instructions do.
pub record IsFaithful (tc : Toolchain) (l : Llvm) : Type 0 where
  pub looked_up :
      (created jit : tc.LlJit) (fn : FusedFn)
      → tc.verifies (tc.create_module build_module) ≡ true
      → tc.create ≡ some created
      → tc.add_ir_module created (tc.optimize_module (tc.create_module build_module)) ≡ some jit
      → tc.lookup jit function_name ≡ some fn
      → IsCompiled l build_module fn

module _ (d : Double) where
  -- `RunJit`, from a result so far on
  unfoldable pub run_jit :
      List Segment → AggregateQuery → QueryJit → FilterSumResult → Option FilterSumResult
  run_jit [] query compiled result = some result
  run_jit (seg ∷ segments) query compiled result = do
    skip ← prunes d seg query
    if skip then run_jit segments query compiled result else do
      pred ← get_elem? seg.columns query.predicate_column
      agg ← get_elem? seg.columns query.aggregate_column
      let seg_result = Jit.run compiled pred.int64_data agg.int64_data seg.num_rows query.threshold
      run_jit segments query compiled (combine result seg_result)

-- The number of rows has 32 bits, and the two columns of the query have as many words.
abbrev pub HasRows : AggregateQuery → Segment → Type 0
HasRows query seg =
    (pred agg : Column)
    → get_elem? seg.columns query.predicate_column ≡ some pred
    → get_elem? seg.columns query.aggregate_column ≡ some agg
    → (seg.num_rows < 2 ^ 32)
      × (seg.num_rows ≤ length pred.int64_data)
      × (seg.num_rows ≤ length agg.int64_data)

module _ (d : Double) (l : Llvm) (sem : Semantics l) where
  segment_lem :
      (jit : QueryJit) (seg : Segment) (segments : List Segment) (query : AggregateQuery)
      (r : FilterSumResult)
      → IsCompiled l build_module jit.compiled_fn
      → InRange r
      → HasRows query seg
      → ((s : FilterSumResult)
          → InRange s
          → run_jit d segments query jit s ≡ run_rows d segments query s)
      → run_jit d (seg ∷ segments) query jit r ≡ run_rows d (seg ∷ segments) query r
  unfolding run_jit run_rows
  segment_lem jit seg segments query r compiled h sized ih =
      elim (Option-cases (prunes d seg query)) [
        | inl e ↦ rw e refl
        | inr (true, e) ↦ rw e (ih r h)
        | inr (false, e) ↦ elim (Option-cases (get_elem? seg.columns query.predicate_column)) [
          | inl e1 ↦ rw (e, e1) refl
          | inr (pred, e1) ↦ elim (Option-cases (get_elem? seg.columns query.aggregate_column)) [
            | inl e2 ↦ rw (e, e1, e2) refl
            | inr (agg, e2) ↦
                rw
                  (
                    e,
                    e1,
                    e2,
                    compiled_lem l sem jit.compiled_fn compiled pred.int64_data agg.int64_data
                        seg.num_rows query.threshold _ (sized pred agg e1 e2),
                    batch_lem pred.int64_data agg.int64_data query.threshold 0 seg.num_rows r h,
                  )
                  (ih (filter_from pred.int64_data agg.int64_data query.threshold 0 seg.num_rows r)
                    (filter_from-InRange pred.int64_data agg.int64_data query.threshold 0
                      seg.num_rows r h))
          ]
        ]
      ]

  run_jit-run_rows :
      (jit : QueryJit) (segments : List Segment) (query : AggregateQuery) (r : FilterSumResult)
      → IsCompiled l build_module jit.compiled_fn
      → InRange r
      → All (HasRows query) segments
      → run_jit d segments query jit r ≡ run_rows d segments query r
  unfolding run_jit run_rows
  run_jit-run_rows jit [] query r compiled h sized = refl
  run_jit-run_rows jit (seg ∷ segments) query r compiled h sized =
      segment_lem jit seg segments query r compiled h sized.0
        λ s small. run_jit-run_rows jit segments query s compiled small sized.1

  compile-IsCompiled :
      (tc : Toolchain) (jit : QueryJit)
      → IsFaithful tc l
      → compile tc ≡ some jit
      → IsCompiled l build_module jit.compiled_fn
  unfolding compile verified_module
  compile-IsCompiled tc jit faithful done =
      let built = tc.create_module build_module in
      elim (Bool-cases (tc.verifies built)) [
        | inr missing ↦ absurd (ground (arith, done, missing))
        | inl ok ↦ elim (Option-cases tc.create) [
          | inl missing ↦ absurd (ground (arith, done, ok, missing))
          | inr (created, e1) ↦
              elim (Option-cases (tc.add_ir_module created (tc.optimize_module built))) [
                | inl missing ↦ absurd (ground (arith, done, ok, e1, missing))
                | inr (added, e2) ↦ elim (Option-cases (tc.lookup added function_name)) [
                  | inl missing ↦ absurd (ground (arith, done, ok, e1, e2, missing))
                  | inr (fn, e3) ↦
                      let same_fn : jit.compiled_fn ≡ fn = ground (arith, done, ok, e1, e2, e3) in
                      rw same_fn (faithful.looked_up created added fn ok e1 e2 e3)
                ]
              ]
        ]
      ]

  -- With instructions that do what the language reference of LLVM says, and a compiler whose
  -- native code does what the instructions do: if the function is compiled, the query by compiled
  -- code gives what the query by batches gives, exceptions included, from a result so far that
  -- fits its words, for a batch size above 0, on segments whose row counts have 32 bits and whose
  -- two columns have as many words.
  pub run_jit-run_vectorized :
      (tc : Toolchain) (jit : QueryJit) (segments : List Segment) (query : AggregateQuery)
      (batch_size : ℕ) (r : FilterSumResult)
      → IsFaithful tc l
      → compile tc ≡ some jit
      → InRange r
      → All (HasRows query) segments
      → 0 < batch_size
      → run_jit d segments query jit r ≡ run_vectorized d segments query batch_size r
  run_jit-run_vectorized tc jit segments query batch_size r faithful done small sized some_rows =
      run_jit-run_rows jit segments query r (compile-IsCompiled tc jit faithful done) small sized
      ∙ sym (run_vectorized-run_rows d segments query batch_size r some_rows small)
