-- ===== src/Jit/Locals.antt =====
-- The loop of the function of src/jit/query_jit.cpp: one pass through its body.
use coredb.Prelude.{ℕ, ◌+◌, ◌*◌, ◌<◌, ◌≤◌, ◌≡◌, ◌∙◌, Bool, true, List, get_or, u64_mod, ltb, arith}
use coredb.Exec.{FilterSumResult}
use coredb.Jit.{IrValue, Instruction, same, place}
use coredb.Jit.Llvm.{Llvm, Defines, Stores, Apart}

pub swap : {x y : ℕ} → Apart x y → Apart y x
swap h = ground (arith, h)

-- Where the cells of a call are.
pub record Layout : Type 0 where
  pub pred : ℕ
  pub out : ℕ
  pub out_count : ℕ
  pub out_sum : ℕ
  pub index : ℕ
  pub sum : ℕ
  pub count : ℕ

module _ (l : Llvm) (a : Layout) (pred out : List ℕ) (rows limit : ℕ) where
  -- The cells of the locals share no byte with each other, nor with a column.
  pub record IsLaidOut : Type 0 where
    pub index_sum : Apart a.index a.sum
    pub index_count : Apart a.index a.count
    pub sum_count : Apart a.sum a.count
    pub sum_out : Apart a.sum a.out_count
    pub outs : Apart a.out_count a.out_sum
    pub pred_fits : a.pred + 8 * rows ≤ u64_mod
    pub out_fits : a.out + 8 * rows ≤ u64_mod
    pub pred_apart :
        (k : ℕ)
        → k < rows
        → Apart (a.pred + 8 * k) a.index
          × Apart (a.pred + 8 * k) a.sum
          × Apart (a.pred + 8 * k) a.count
    pub out_apart :
        (k : ℕ)
        → k < rows
        → Apart (a.out + 8 * k) a.index
          × Apart (a.out + 8 * k) a.sum
          × Apart (a.out + 8 * k) a.count

  -- The values that stay what they are in the loop.
  pub record Named (s : l.State) : Type 0 where
    pub pred_ptr : l.word s IrValue.pred_ptr ≡ a.pred
    pub out_ptr : l.word s IrValue.out_ptr ≡ a.out
    pub num_rows : l.word s IrValue.n ≡ rows
    pub threshold : l.word s IrValue.threshold ≡ limit
    pub i_ptr : l.word s IrValue.i_ptr ≡ a.index
    pub sum_ptr : l.word s IrValue.sum_ptr ≡ a.sum
    pub count_ptr : l.word s IrValue.count_ptr ≡ a.count
    pub out_count_ptr : l.word s IrValue.out_count_ptr ≡ a.out_count
    pub out_sum_ptr : l.word s IrValue.out_sum_ptr ≡ a.out_sum

  -- The cells of the locals and of the columns.
  pub record Holds (s : l.State) (i : ℕ) (r : FilterSumResult) : Type 0 where
    pub index : l.cell s a.index ≡ i
    pub sum : l.cell s a.sum ≡ r.sum
    pub count : l.cell s a.count ≡ r.matched_count
    pub pred_cells : (k : ℕ) → k < rows → l.cell s (a.pred + 8 * k) ≡ get_or pred k 0
    pub out_cells : (k : ℕ) → k < rows → l.cell s (a.out + 8 * k) ≡ get_or out k 0

  -- With `i` rows behind it, whose result is `r`.
  abbrev pub Ready : l.State → ℕ → FilterSumResult → Type 0
  Ready s i r = Named s × Holds s i r

  -- What a call leaves in the variables of its caller.
  pub record Left (s : l.State) (r : FilterSumResult) : Type 0 where
    pub count : l.cell s a.out_count ≡ r.matched_count
    pub sum : l.cell s a.out_sum ≡ r.sum

  -- A temporary is none of the values that stay.
  abbrev is_temporary : IrValue → Bool
  is_temporary v = ltb 9 (place v)

  defined-Named :
      (ins : Instruction) (v : IrValue) (s : l.State) (x : ℕ)
      → Defines l ins v s x
      → is_temporary v ≡ true
      → Named s
      → Named (l.exec ins s)
  unfolding same
  defined-Named ins v s x d t h = record {
    pred_ptr = ground (arith, d.word IrValue.pred_ptr, h.pred_ptr);
    out_ptr = ground (arith, d.word IrValue.out_ptr, h.out_ptr);
    num_rows = ground (arith, d.word IrValue.n, h.num_rows);
    threshold = ground (arith, d.word IrValue.threshold, h.threshold);
    i_ptr = ground (arith, d.word IrValue.i_ptr, h.i_ptr);
    sum_ptr = ground (arith, d.word IrValue.sum_ptr, h.sum_ptr);
    count_ptr = ground (arith, d.word IrValue.count_ptr, h.count_ptr);
    out_count_ptr = ground (arith, d.word IrValue.out_count_ptr, h.out_count_ptr);
    out_sum_ptr = ground (arith, d.word IrValue.out_sum_ptr, h.out_sum_ptr);
  }

  pub defined-Ready :
      (ins : Instruction) (v : IrValue) (s : l.State) (x i : ℕ) (r : FilterSumResult)
      → Defines l ins v s x
      → is_temporary v ≡ true
      → Ready s i r
      → Ready (l.exec ins s) i r
  defined-Ready ins v s x i r d t (names, h) = (
    defined-Named ins v s x d t names,
    record {
      index = d.cell a.index ∙ h.index;
      sum = d.cell a.sum ∙ h.sum;
      count = d.cell a.count ∙ h.count;
      pred_cells = λ k lt. d.cell (a.pred + 8 * k) ∙ h.pred_cells k lt;
      out_cells = λ k lt. d.cell (a.out + 8 * k) ∙ h.out_cells k lt;
    },
  )

  pub stored-Named :
      (ins : Instruction) (s : l.State) (x ptr : ℕ)
      → Stores l ins s x ptr
      → Named s
      → Named (l.exec ins s)
  stored-Named ins s x ptr d h = record {
    pred_ptr = d.word IrValue.pred_ptr ∙ h.pred_ptr;
    out_ptr = d.word IrValue.out_ptr ∙ h.out_ptr;
    num_rows = d.word IrValue.n ∙ h.num_rows;
    threshold = d.word IrValue.threshold ∙ h.threshold;
    i_ptr = d.word IrValue.i_ptr ∙ h.i_ptr;
    sum_ptr = d.word IrValue.sum_ptr ∙ h.sum_ptr;
    count_ptr = d.word IrValue.count_ptr ∙ h.count_ptr;
    out_count_ptr = d.word IrValue.out_count_ptr ∙ h.out_count_ptr;
    out_sum_ptr = d.word IrValue.out_sum_ptr ∙ h.out_sum_ptr;
  }

  module _ (w : IsLaidOut) (ins : Instruction) (s : l.State) (x i : ℕ) (r : FilterSumResult) where
    pub stored_sum-Ready :
        Stores l ins s x a.sum → Ready s i r → Ready (l.exec ins s) i (record r { sum = x })
    stored_sum-Ready d (names, h) = (
      stored-Named ins s x a.sum d names,
      record {
        index = d.there a.index w.index_sum ∙ h.index;
        sum = d.here;
        count = d.there a.count (swap w.sum_count) ∙ h.count;
        pred_cells = λ k lt. d.there _ (w.pred_apart k lt).1 ∙ h.pred_cells k lt;
        out_cells = λ k lt. d.there _ (w.out_apart k lt).1 ∙ h.out_cells k lt;
      },
    )

    pub stored_count-Ready :
        Stores l ins s x a.count
        → Ready s i r
        → Ready (l.exec ins s) i (record r { matched_count = x })
    stored_count-Ready d (names, h) = (
      stored-Named ins s x a.count d names,
      record {
        index = d.there a.index w.index_count ∙ h.index;
        sum = d.there a.sum w.sum_count ∙ h.sum;
        count = d.here;
        pred_cells = λ k lt. d.there _ (w.pred_apart k lt).2 ∙ h.pred_cells k lt;
        out_cells = λ k lt. d.there _ (w.out_apart k lt).2 ∙ h.out_cells k lt;
      },
    )

    pub stored_index-Ready : Stores l ins s x a.index → Ready s i r → Ready (l.exec ins s) x r
    stored_index-Ready d (names, h) = (
      stored-Named ins s x a.index d names,
      record {
        index = d.here;
        sum = d.there a.sum (swap w.index_sum) ∙ h.sum;
        count = d.there a.count (swap w.index_count) ∙ h.count;
        pred_cells = λ k lt. d.there _ (w.pred_apart k lt).0 ∙ h.pred_cells k lt;
        out_cells = λ k lt. d.there _ (w.out_apart k lt).0 ∙ h.out_cells k lt;
      },
    )
