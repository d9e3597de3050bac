-- ===== src/Jit.antt =====
-- src/jit/query_jit.cpp: the query that is compiled to native code by LLVM.
--
-- LLVM is a parameter. Of its instructions there are those that `BuildModule` creates, under the
-- names of the builder's calls; a value is named by the variable of the source that holds it.
pub mod Llvm
pub mod Locals
pub mod Body
pub mod Loop
pub mod Correct
pub mod Run
mod Machine
mod Native
mod Tests
use coredb.Prelude.{
  ℕ, Bool, true, false, List, [], ◌∷◌, Option, none, some, if◌then◌else◌, ◌>>=◌, ◌==◌,
}
use coredb.Exec.{FilterSumResult, no_match}

-- The `llvm::Value`s of `BuildModule`; `int64` is `getInt64`. The loads that the source does not
-- keep in a variable have the name that it gives them.
pub data IrValue : Type 0 where
  int64 : ℕ → IrValue
  pred_ptr out_ptr n threshold out_count_ptr out_sum_ptr : IrValue
  i_ptr sum_ptr count_ptr : IrValue
  i_val loop_cond : IrValue
  pred_elem_ptr pred_val matched out_elem_ptr out_val masked_val sum_cur new_sum : IrValue
  masked_one count_cur new_count i_next : IrValue
  count_final sum_final : IrValue

-- A variable's place in the order of their creation.
abbrev pub place : IrValue → ℕ
place (int64 x) = 0
place pred_ptr = 1
place out_ptr = 2
place n = 3
place threshold = 4
place out_count_ptr = 5
place out_sum_ptr = 6
place i_ptr = 7
place sum_ptr = 8
place count_ptr = 9
place i_val = 10
place loop_cond = 11
place pred_elem_ptr = 12
place pred_val = 13
place matched = 14
place out_elem_ptr = 15
place out_val = 16
place masked_val = 17
place sum_cur = 18
place new_sum = 19
place masked_one = 20
place count_cur = 21
place new_count = 22
place i_next = 23
place count_final = 24
place sum_final = 25

-- Whether two variables are the same; a constant is none.
unfoldable pub same : IrValue → IrValue → Bool
same (int64 x) w = false
same v w = place v == place w

-- `CreateAlloca` and the others; the first argument is the result, if there is one.
pub data Instruction : Type 0 where
  alloca : IrValue → Instruction
  store : (value ptr : IrValue) → Instruction
  load : (result ptr : IrValue) → Instruction
  icmp_ult icmp_sgt : (result a b : IrValue) → Instruction
  gep : (result ptr index : IrValue) → Instruction
  select : (result cond if_true if_false : IrValue) → Instruction
  add : (result a b : IrValue) → Instruction

-- The `llvm::BasicBlock`s.
pub data Label : Type 0 where
  entry loop_header loop_body exit : Label

pub data Terminator : Type 0 where
  br : Label → Terminator
  cond_br : IrValue → (if_true if_false : Label) → Terminator
  ret_void : Terminator

pub record BasicBlock : Type 0 where
  pub instructions : List Instruction
  pub terminator : Terminator

abbrev pub Function : Type 0
Function = Label → BasicBlock

-- `BuildModule`: what is inserted at each block.
unfoldable pub build_module : Function
build_module entry = record {
  instructions =
      alloca i_ptr
      ∷ alloca sum_ptr
      ∷ alloca count_ptr
      ∷ store (int64 0) i_ptr
      ∷ store (int64 0) sum_ptr
      ∷ store (int64 0) count_ptr
      ∷ [];
  terminator = br loop_header;
}
build_module loop_header = record {
  instructions = load i_val i_ptr ∷ icmp_ult loop_cond i_val n ∷ [];
  terminator = cond_br loop_cond loop_body exit;
}
build_module loop_body = record {
  instructions =
      gep pred_elem_ptr pred_ptr i_val
      ∷ load pred_val pred_elem_ptr
      ∷ icmp_sgt matched pred_val threshold
      ∷ gep out_elem_ptr out_ptr i_val
      ∷ load out_val out_elem_ptr
      ∷ select masked_val matched out_val (int64 0)
      ∷ load sum_cur sum_ptr
      ∷ add new_sum sum_cur masked_val
      ∷ store new_sum sum_ptr
      ∷ select masked_one matched (int64 1) (int64 0)
      ∷ load count_cur count_ptr
      ∷ add new_count count_cur masked_one
      ∷ store new_count count_ptr
      ∷ add i_next i_val (int64 1)
      ∷ store i_next i_ptr
      ∷ [];
  terminator = br loop_header;
}
build_module exit = record {
  instructions =
      load count_final count_ptr
      ∷ store count_final out_count_ptr
      ∷ load sum_final sum_ptr
      ∷ store sum_final out_sum_ptr
      ∷ [];
  terminator = ret_void;
}

-- `FusedFn`: from the columns, the number of rows and the threshold, what becomes of the two
-- variables that the last arguments point to.
abbrev pub FusedFn : Type 0
FusedFn = List ℕ → List ℕ → ℕ → ℕ → FilterSumResult → FilterSumResult

-- `kFunctionName`
abbrev pub function_name : List ℕ
function_name =
    0x63 ∷ 0x6F ∷ 0x72 ∷ 0x65 ∷ 0x64 ∷ 0x62 ∷ 0x5F ∷ 0x66 ∷ 0x69 ∷ 0x6C ∷ 0x74 ∷ 0x65 ∷ 0x72 ∷ 0x5F
    ∷ 0x67 ∷ 0x74 ∷ 0x5F ∷ 0x73 ∷ 0x75 ∷ 0x6D ∷ []

-- The library's calls: a module from what the builder made, whether `verifyFunction` accepts it,
-- the passes of -O3, and the just-in-time compiler, whose calls can fail.
pub record Toolchain : Type 1 where
  pub Module : Type 0
  pub LlJit : Type 0
  pub create_module : Function → Module
  pub verifies : Module → Bool
  pub optimize_module : Module → Module
  pub create : Option LlJit
  pub add_ir_module : LlJit → Module → Option LlJit
  pub lookup : LlJit → List ℕ → Option FusedFn

pub record QueryJit : Type 0 where
  pub compiled_fn : FusedFn

module _ (tc : Toolchain) where
  -- `BuildModule`, with its last step; `none` is the exception, here and below.
  unfoldable pub verified_module : Option tc.Module
  unfolding build_module
  verified_module =
      let built = tc.create_module build_module in if tc.verifies built then some built else none

  -- `QueryJit::Compile`
  unfoldable pub compile : Option QueryJit
  unfolding verified_module
  compile = do
    built ← verified_module
    let optimized = tc.optimize_module built
    created ← tc.create
    jit ← tc.add_ir_module created optimized
    sym ← tc.lookup jit function_name
    some (record { compiled_fn = sym })

-- `QueryJit::Run`
abbrev pub run : QueryJit → List ℕ → List ℕ → ℕ → ℕ → FilterSumResult
run jit pred out rows limit = jit.compiled_fn pred out rows limit no_match
