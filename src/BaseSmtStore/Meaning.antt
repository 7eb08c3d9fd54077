-- ===== src/BaseSmtStore/Meaning.antt =====
-- What the formulas of src/llvmsym/base_smt_datastore.h mean: each instruction and each comparison
-- builds the formula of the Z3 operation that its name promises.
use sym_divine.Base.{ℕ, ◌≡◌, refl, sym, ◌∙◌, false, some, some_inj}
use sym_divine.Formula.{
  Operator, plus, minus, times, div, srem, urem, eq, neq, lt, ult, leq, uleq, gt, ugt, geq, ugeq,
  xor, bor, band, shl, shr, is_unary_op, join_binary, build_band,
}
use sym_divine.Formula.Term.{Term, binary, postfix}
use sym_divine.Formula.Sane.{join_binary-postfix, postfix-ne}
use sym_divine.Datastore
use sym_divine.Datastore.{Comparison}
use sym_divine.Smt.{Z3, binary_expr}
use sym_divine.Smt.Meaning.{meaning, binary_runs}
use sym_divine.BaseSmtStore.{
  BinaryOp, add, mult, sub, quotient, urem_, srem_, and_, or_, xor_, left_shift, right_shift,
  binary_formula, comparison_formula,
}

module _ (z : Z3) where
  open z use {Expr}

  -- The operation of Z3 for an instruction, and for a comparison.
  abbrev pub instruction : BinaryOp → Expr → Expr → Expr
  instruction add = z.add
  instruction mult = z.mul
  instruction sub = z.sub
  instruction quotient = z.sdiv
  instruction urem_ = z.bvurem
  instruction srem_ = z.bvsrem
  instruction and_ = z.bvand
  instruction or_ = z.bvor
  instruction xor_ = z.bvxor
  instruction left_shift = z.bvshl
  instruction right_shift = z.bvlshr

  abbrev pub comparison : Comparison → Expr → Expr → Expr
  comparison Datastore.eq = z.same
  comparison Datastore.ne = z.differ
  comparison Datastore.ugt = z.ugt
  comparison Datastore.uge = z.uge
  comparison Datastore.ult = z.ult
  comparison Datastore.ule = z.ule
  comparison Datastore.sgt = z.sgt
  comparison Datastore.sge = z.sge
  comparison Datastore.slt = z.slt
  comparison Datastore.sle = z.sle

  meaning-binary :
      (vpref : ℕ) (o : Operator) (h : is_unary_op o ≡ false) (a b : Term) (e : Expr)
      → binary_expr z o 0 (meaning z vpref a) (meaning z vpref b) ≡ some e
      → meaning z vpref (binary o h 0 a b) ≡ e
  unfolding meaning
  meaning-binary vpref o h a b e runs =
      some_inj (sym (binary_runs z o h 0 (meaning z vpref a) (meaning z vpref b)) ∙ runs)

  joined :
      (vpref : ℕ) (o : Operator) (h : is_unary_op o ≡ false) (a b : Term) (e : Expr)
      → binary_expr z o 0 (meaning z vpref a) (meaning z vpref b) ≡ some e
      → (t : Term) × (join_binary (postfix a) (postfix b) o ≡ some (postfix t))
        × (meaning z vpref t ≡ e)
  joined vpref o h a b e runs =
      (binary o h 0 a b, join_binary-postfix o h a b, meaning-binary vpref o h a b e runs)

  pub binary_formula-meaning :
      (vpref : ℕ) (op : BinaryOp) (a b : Term)
      → (t : Term) × (binary_formula op (postfix a) (postfix b) ≡ some (postfix t))
        × (meaning z vpref t ≡ instruction op (meaning z vpref a) (meaning z vpref b))
  unfolding binary_formula binary_expr is_unary_op build_band
  binary_formula-meaning vpref and_ a b =
      rw (postfix-ne a, postfix-ne b) (joined vpref band refl a b _ refl)
  binary_formula-meaning vpref add a b = joined vpref plus refl a b _ refl
  binary_formula-meaning vpref mult a b = joined vpref times refl a b _ refl
  binary_formula-meaning vpref sub a b = joined vpref minus refl a b _ refl
  binary_formula-meaning vpref quotient a b = joined vpref div refl a b _ refl
  binary_formula-meaning vpref urem_ a b = joined vpref urem refl a b _ refl
  binary_formula-meaning vpref srem_ a b = joined vpref srem refl a b _ refl
  binary_formula-meaning vpref or_ a b = joined vpref bor refl a b _ refl
  binary_formula-meaning vpref xor_ a b = joined vpref xor refl a b _ refl
  binary_formula-meaning vpref left_shift a b = joined vpref shl refl a b _ refl
  binary_formula-meaning vpref right_shift a b = joined vpref shr refl a b _ refl

  pub comparison_formula-meaning :
      (vpref : ℕ) (op : Comparison) (a b : Term)
      → (t : Term) × (comparison_formula op (postfix a) (postfix b) ≡ some (postfix t))
        × (meaning z vpref t ≡ comparison op (meaning z vpref a) (meaning z vpref b))
  unfolding comparison_formula binary_expr is_unary_op
  comparison_formula-meaning vpref Datastore.eq a b = joined vpref eq refl a b _ refl
  comparison_formula-meaning vpref Datastore.ne a b = joined vpref neq refl a b _ refl
  comparison_formula-meaning vpref Datastore.ugt a b = joined vpref ugt refl a b _ refl
  comparison_formula-meaning vpref Datastore.uge a b = joined vpref ugeq refl a b _ refl
  comparison_formula-meaning vpref Datastore.ult a b = joined vpref ult refl a b _ refl
  comparison_formula-meaning vpref Datastore.ule a b = joined vpref uleq refl a b _ refl
  comparison_formula-meaning vpref Datastore.sgt a b = joined vpref gt refl a b _ refl
  comparison_formula-meaning vpref Datastore.sge a b = joined vpref geq refl a b _ refl
  comparison_formula-meaning vpref Datastore.slt a b = joined vpref lt refl a b _ refl
  comparison_formula-meaning vpref Datastore.sle a b = joined vpref leq refl a b _ refl
