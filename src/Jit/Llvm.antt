-- ===== src/Jit/Llvm.antt =====
-- What the language reference of LLVM says of the instructions that src/jit/query_jit.cpp creates.
--
-- Integers and pointers are words of 64 bits, a bit is 0 or 1. A cell is the integer in the eight
-- bytes from an address on.
use coredb.Prelude.{
  ℕ, suc, ◌+◌, ◌*◌, ◌%◌, ◌^◌, ◌<◌, ◌≤◌, ◌≡◌, ◌⊎◌, Bool, List, [], ◌∷◌, Option, some, if◌then◌else◌,
  get_or, length, u64_mod, ltb, ◌==◌,
}
use coredb.Exec.{FilterSumResult, greater}
use coredb.Jit.{
  IrValue, int64, Instruction, alloca, store, load, icmp_ult, icmp_sgt, gep, select, add, Label,
  Terminator, br, cond_br, ret_void, Function, FusedFn, same,
}

-- The states of a call: the values that are defined, the memory, and the cells that are allocated.
pub record Llvm : Type 1 where
  pub State : Type 0
  pub word : State → IrValue → ℕ
  pub cell : State → ℕ → ℕ
  pub Live : State → ℕ → Type 0
  pub exec : Instruction → State → State
  -- The state at the return of a call that has entered a block, if it passes so many blocks or fewer.
  pub enter : ℕ → Function → Label → State → Option State
  -- The state at the start of a call.
  pub start : List ℕ → List ℕ → ℕ → ℕ → FilterSumResult → State

-- Two cells that have no byte in common.
abbrev pub Apart : ℕ → ℕ → Type 0
Apart a b = (a + 8 ≤ b) ⊎ (b + 8 ≤ a)

module _ (l : Llvm) where
  abbrev pub straight : List Instruction → l.State → l.State
  straight [] s = s
  straight (i ∷ is) s = straight is (l.exec i s)

  -- Where a block's terminator leads.
  abbrev pub follow : Function → ℕ → Terminator → l.State → Option l.State
  follow f k (br label) s = l.enter k f label s
  follow f k (cond_br c if_true if_false) s =
      if l.word s c == 1 then l.enter k f if_true s else l.enter k f if_false s
  follow f k ret_void s = some s

  -- The instruction defines `v` as `x`, and no more.
  pub record Defines (i : Instruction) (v : IrValue) (s : l.State) (x : ℕ) : Type 0 where
    pub word : (w : IrValue) → l.word (l.exec i s) w ≡ (if same w v then x else l.word s w)
    pub cell : (a : ℕ) → l.cell (l.exec i s) a ≡ l.cell s a

  pub record Stores (i : Instruction) (s : l.State) (x ptr : ℕ) : Type 0 where
    pub word : (w : IrValue) → l.word (l.exec i s) w ≡ l.word s w
    pub here : l.cell (l.exec i s) ptr ≡ x
    pub there : (a : ℕ) → Apart a ptr → l.cell (l.exec i s) a ≡ l.cell s a

  -- A new cell, apart from those there are.
  pub record Allocates (v : IrValue) (s : l.State) : Type 0 where
    pub word : (w : IrValue) → same w v ≡ Bool.false → l.word (l.exec (alloca v) s) w ≡ l.word s w
    pub cell : (a : ℕ) → l.Live s a → l.cell (l.exec (alloca v) s) a ≡ l.cell s a
    pub live : l.Live (l.exec (alloca v) s) (l.word (l.exec (alloca v) s) v)
    pub kept : (a : ℕ) → l.Live s a → l.Live (l.exec (alloca v) s) a
    pub fresh : (a : ℕ) → l.Live s a → Apart a (l.word (l.exec (alloca v) s) v)

  pub record Semantics : Type 0 where
    pub constant : (s : l.State) (x : ℕ) → x < u64_mod → l.word s (int64 x) ≡ x
    pub allocas : (s : l.State) (v : IrValue) → same v v ≡ Bool.true → Allocates v s
    pub stores : (s : l.State) (v p : IrValue) → Stores (store v p) s (l.word s v) (l.word s p)
    pub loads : (s : l.State) (v p : IrValue) → Defines (load v p) v s (l.cell s (l.word s p))
    pub ult :
        (s : l.State) (v a b : IrValue)
        → Defines (icmp_ult v a b) v s (if ltb (l.word s a) (l.word s b) then 1 else 0)
    pub sgt :
        (s : l.State) (v a b : IrValue)
        → Defines (icmp_sgt v a b) v s (if greater (l.word s a) (l.word s b) then 1 else 0)
    pub geps :
        (s : l.State) (v p i : IrValue)
        → Defines (gep v p i) v s ((l.word s p + 8 * l.word s i) % u64_mod)
    pub selects :
        (s : l.State) (v c a b : IrValue)
        → Defines (select v c a b) v s (if l.word s c == 1 then l.word s a else l.word s b)
    pub adds :
        (s : l.State) (v a b : IrValue)
        → Defines (add v a b) v s ((l.word s a + l.word s b) % u64_mod)
    pub enters :
        (f : Function) (k : ℕ) (b : Label) (s : l.State)
        → l.enter (suc k) f b s ≡ follow f k (f b).terminator (straight (f b).instructions s)

  -- In a column of `rows` elements at an address, each element has its cell.
  pub record Column (s : l.State) (xs : List ℕ) (rows ptr : ℕ) : Type 0 where
    pub fits : ptr + 8 * rows ≤ u64_mod
    pub cells : (k : ℕ) → k < rows → l.cell s (ptr + 8 * k) ≡ get_or xs k 0
    pub live : (k : ℕ) → k < rows → l.Live s (ptr + 8 * k)

  -- What a caller passes.
  pub record Called (s : l.State) (pred out : List ℕ) (rows threshold : ℕ) : Type 0 where
    pub pred_cells : Column s pred rows (l.word s IrValue.pred_ptr)
    pub out_cells : Column s out rows (l.word s IrValue.out_ptr)
    pub num_rows : l.word s IrValue.n ≡ rows
    pub limit : l.word s IrValue.threshold ≡ threshold
    pub count_live : l.Live s (l.word s IrValue.out_count_ptr)
    pub sum_live : l.Live s (l.word s IrValue.out_sum_ptr)
    pub apart : Apart (l.word s IrValue.out_count_ptr) (l.word s IrValue.out_sum_ptr)

  -- Columns that have the rows, whose number is one of 32 bits.
  abbrev pub Callable : List ℕ → List ℕ → ℕ → Type 0
  Callable pred out rows = (rows < 2 ^ 32) × (rows ≤ length pred) × (rows ≤ length out)

  -- A call that can be made has its arguments, and the native code leaves in the variables what the
  -- instructions leave in them.
  pub record IsCompiled (f : Function) (fn : FusedFn) : Type 0 where
    pub called :
        (pred out : List ℕ) (rows threshold : ℕ) (r : FilterSumResult)
        → Callable pred out rows
        → Called (l.start pred out rows threshold r) pred out rows threshold
    pub returned :
        (pred out : List ℕ) (rows threshold : ℕ) (r : FilterSumResult) (k : ℕ) (s : l.State)
        → Callable pred out rows
        → l.enter k f Label.entry (l.start pred out rows threshold r) ≡ some s
        → fn pred out rows threshold r ≡ record {
          matched_count =
              l.cell s (l.word (l.start pred out rows threshold r) IrValue.out_count_ptr);
          sum = l.cell s (l.word (l.start pred out rows threshold r) IrValue.out_sum_ptr);
        }
