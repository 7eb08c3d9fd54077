-- ===== src/BaseSmtStore.antt =====
-- `BaseSMTStore` of src/llvmsym/base_smt_datastore.h: the instructions on symbolic values, over the
-- methods that a store provides. The methods that change the store give the new one.
pub mod Meaning
use sym_divine.Base.{ℕ, ◌-◌, Option, ◌>>=◌}
use sym_divine.Formula.{
  Formula, plus, minus, times, div, srem, urem, eq, neq, lt, ult, leq, uleq, gt, ugt, geq, ugeq,
  xor, bor, shl, shr, join_binary, build_band, build_zext, build_sext, build_trunc,
}
use sym_divine.Datastore
use sym_divine.Datastore.{Value, Comparison}

-- The pure virtual methods that the instructions call. `advance` is `get_generation( val, true )`.
pub record Methods {ℓ} (S : Type ℓ) : Type ℓ where
  pub build_expression : S → Value → Option Formula
  pub push_condition : S → Formula → Option S
  pub push_definition : S → Value → Formula → Option S
  pub advance : S → Value → Option S

-- The binary instructions, and the formula that each builds of its operands.
pub data BinaryOp : Type 0 where
  add mult sub quotient urem_ srem_ and_ or_ xor_ left_shift right_shift : BinaryOp

unfoldable pub binary_formula : BinaryOp → Formula → Formula → Option Formula
binary_formula add a b = join_binary a b plus
binary_formula mult a b = join_binary a b times
binary_formula sub a b = join_binary a b minus
binary_formula quotient a b = join_binary a b div
binary_formula urem_ a b = join_binary a b urem
binary_formula srem_ a b = join_binary a b srem
binary_formula and_ a b = build_band a b
binary_formula or_ a b = join_binary a b bor
binary_formula xor_ a b = join_binary a b xor
binary_formula left_shift a b = join_binary a b shl
binary_formula right_shift a b = join_binary a b shr

-- The `switch` of `prune`.
unfoldable pub comparison_formula : Comparison → Formula → Formula → Option Formula
comparison_formula Datastore.eq a b = join_binary a b eq
comparison_formula Datastore.ne a b = join_binary a b neq
comparison_formula Datastore.ugt a b = join_binary a b ugt
comparison_formula Datastore.sgt a b = join_binary a b gt
comparison_formula Datastore.uge a b = join_binary a b ugeq
comparison_formula Datastore.sge a b = join_binary a b geq
comparison_formula Datastore.ult a b = join_binary a b ult
comparison_formula Datastore.slt a b = join_binary a b lt
comparison_formula Datastore.ule a b = join_binary a b uleq
comparison_formula Datastore.sle a b = join_binary a b leq

module _ {ℓ} {S : Type ℓ} (methods : Methods S) where
  -- `implement_add`, `implement_mult` and the other binary instructions
  unfoldable pub implement_binary : BinaryOp → S → Value → Value → Value → Option S
  implement_binary op s result a b = do
    a_expr ← methods.build_expression s a
    b_expr ← methods.build_expression s b
    def ← binary_formula op a_expr b_expr
    methods.push_definition s result def

  -- `implement_store`, `implement_inttoptr` and `implement_ptrtoint`
  unfoldable pub implement_store : S → Value → Value → Option S
  implement_store s result what = do
    what_expr ← methods.build_expression s what
    methods.push_definition s result what_expr

  unfoldable pub implement_zext : S → Value → Value → ℕ → Option S
  implement_zext s result a bw = do
    what_expr ← methods.build_expression s a
    def ← build_zext what_expr bw
    methods.push_definition s result def

  unfoldable pub implement_sext : S → Value → Value → ℕ → Option S
  implement_sext s result a bw = do
    what_expr ← methods.build_expression s a
    def ← build_sext what_expr bw
    methods.push_definition s result def

  -- `bw` is positive, as the width of a type is.
  unfoldable pub implement_trunc : S → Value → Value → ℕ → Option S
  implement_trunc s result a bw = do
    what_expr ← methods.build_expression s a
    def ← build_trunc what_expr (bw - 1) 0
    methods.push_definition s result def

  unfoldable pub implement_input : S → Value → Option S
  implement_input s input_variable = methods.advance s input_variable

  unfoldable pub prune : S → Value → Value → Comparison → Option S
  prune s a b op = do
    a_expr ← methods.build_expression s a
    b_expr ← methods.build_expression s b
    condition ← comparison_formula op a_expr b_expr
    methods.push_condition s condition
