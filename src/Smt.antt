-- ===== src/Smt.antt =====
-- The translation to Z3 of src/llvmsym/formula/z3.cpp. Z3 is the parameter: its expressions, and the
-- calls of its API that the translation makes. The stack `res` is a list with its back at the head.
-- `none` is a failed `assert` or an `abort`.
pub mod Meaning
pub mod Rewriting
pub mod Words
mod Tests
use sym_divine.Base.{
  ℕ, ◌+◌, ◌-◌, ◌/◌, ◌%◌, ◌^◌, Option, none, some, List, [], ◌∷◌, ◌==◌, Bool, true, if◌then◌else◌,
  ◌>>=◌, ◌>>◌, ensure,
}
use sym_divine.Formula.{
  Ident, Operator, Item, op, constant, identifier, bool_val, Formula, is_unary_op, plus, minus,
  times, div, srem, urem, eq, neq, lt, ult, leq, uleq, gt, ugt, geq, ugeq, and, xor, or, bor, band,
  bnot, not_, shl, concat, shr, sext, zext, trunc, sane,
}

pub record Z3 : Type 1 where
  pub Expr : Type 0
  pub add : Expr → Expr → Expr
  pub sub : Expr → Expr → Expr
  pub mul : Expr → Expr → Expr
  pub sdiv : Expr → Expr → Expr
  pub same : Expr → Expr → Expr
  pub differ : Expr → Expr → Expr
  pub bvurem : Expr → Expr → Expr
  pub bvsrem : Expr → Expr → Expr
  pub both : Expr → Expr → Expr
  pub either : Expr → Expr → Expr
  pub bvand : Expr → Expr → Expr
  pub bvor : Expr → Expr → Expr
  pub bvxor : Expr → Expr → Expr
  pub bvshl : Expr → Expr → Expr
  pub bvlshr : Expr → Expr → Expr
  pub bvconcat : Expr → Expr → Expr
  pub slt : Expr → Expr → Expr
  pub sgt : Expr → Expr → Expr
  pub sle : Expr → Expr → Expr
  pub sge : Expr → Expr → Expr
  pub ult : Expr → Expr → Expr
  pub ugt : Expr → Expr → Expr
  pub ule : Expr → Expr → Expr
  pub uge : Expr → Expr → Expr
  pub negate : Expr → Expr
  pub bvnot : Expr → Expr
  -- `Z3_mk_zero_ext( c, i, e )` and the like, the number first
  pub zero_ext : ℕ → Expr → Expr
  pub sign_ext : ℕ → Expr → Expr
  pub extract : ℕ → ℕ → Expr → Expr
  pub bv_size : Expr → ℕ
  pub bv_val : ℕ → ℕ → Expr
  pub bool_value : Bool → Expr
  -- the constant that `vpref`, the segment, the offset and the generation name, and its width
  pub bv_const : ℕ → Ident → Expr

-- The number of added bits: a `uint64_t` difference, passed as `unsigned`.
abbrev pub added : ℕ → ℕ → ℕ
added value size = (value + 2 ^ 64 - size) % 2 ^ 32

module _ (z : Z3) where
  open z use {Expr}

  unfoldable pub unary_expr : Operator → ℕ → Expr → Option Expr
  unary_expr not_ v l = some (z.negate l)
  unary_expr zext v l = some (z.zero_ext (added v (z.bv_size l)) l)
  unary_expr sext v l = some (z.sign_ext (added v (z.bv_size l)) l)
  unary_expr trunc v l = some (z.extract (v / 65536 % 2 ^ 32) (v % 65536) l)
  unary_expr bnot v l = some (z.bvnot l)
  unary_expr o v l = none

  unfoldable pub binary_expr : Operator → ℕ → Expr → Expr → Option Expr
  binary_expr plus v l r = some (z.add l r)
  binary_expr minus v l r = some (z.sub l r)
  binary_expr times v l r = some (z.mul l r)
  binary_expr div v l r = some (z.sdiv l r)
  binary_expr eq v l r = some (z.same l r)
  binary_expr urem v l r = some (z.bvurem l r)
  binary_expr srem v l r = some (z.bvsrem l r)
  binary_expr neq v l r = some (z.differ l r)
  binary_expr and v l r = some (z.both l r)
  binary_expr or v l r = some (z.either l r)
  binary_expr band v l r = some (z.bvand l r)
  binary_expr shl v l r = some (z.bvshl l r)
  binary_expr shr v l r = some (z.bvlshr l r)
  binary_expr concat v l r = some (z.bvconcat l r)
  binary_expr bor v l r = some (z.bvor l r)
  binary_expr xor v l r = some (z.bvxor l r)
  binary_expr lt v l r = some (z.slt l r)
  binary_expr gt v l r = some (z.sgt l r)
  binary_expr leq v l r = some (z.sle l r)
  binary_expr geq v l r = some (z.sge l r)
  binary_expr ult v l r = some (z.ult l r)
  binary_expr ugt v l r = some (z.ugt l r)
  binary_expr uleq v l r = some (z.ule l r)
  binary_expr ugeq v l r = some (z.uge l r)
  binary_expr zext v l r = some (z.zero_ext (added v (z.bv_size l)) l)
  binary_expr sext v l r = some (z.sign_ext (added v (z.bv_size l)) l)
  binary_expr trunc v l r = some (z.extract (v / 65536 % 2 ^ 32) (v % 65536) l)
  binary_expr o v l r = none

  -- `operator2z3unary`
  unfoldable pub operator2z3unary : Operator → ℕ → List Expr → Option (List Expr)
  operator2z3unary o v [] = none
  operator2z3unary o v (l ∷ res) = do e ← unary_expr o v l; some (e ∷ res)

  -- `operator2z3`
  unfoldable pub operator2z3 : Operator → ℕ → List Expr → Option (List Expr)
  operator2z3 o v [] = none
  operator2z3 o v (r ∷ []) = none
  operator2z3 o v (r ∷ l ∷ res) = do e ← binary_expr o v l r; some (e ∷ res)

  -- One round of the loop of `rpn2z3`, with `constant2z3`, `identifier2z3` and `bool2z3`.
  unfoldable pub item2z3 : ℕ → Item → List Expr → Option (List Expr)
  item2z3 vpref (op o v) res =
      if is_unary_op o then operator2z3unary o v res else operator2z3 o v res
  item2z3 vpref (constant v bw) res = some (z.bv_val v bw ∷ res)
  item2z3 vpref (identifier id) res = some (z.bv_const vpref id ∷ res)
  item2z3 vpref (bool_val v) res = some (z.bool_value (v == 1) ∷ res)

  unfoldable pub rpn2z3 : ℕ → Formula → List Expr → Option (List Expr)
  rpn2z3 vpref [] res = some res
  rpn2z3 vpref (i ∷ f) res = item2z3 vpref i res >>= rpn2z3 vpref f

  -- `stack[0]`, the bottom of the stack
  abbrev pub bottom : Expr → List Expr → Expr
  bottom e [] = e
  bottom e (x ∷ xs) = bottom x xs

  unfoldable pub toz3 : Formula → ℕ → Option Expr
  toz3 f vpref = do
    ensure (sane f)
    stack ← rpn2z3 vpref f []
    some (bottom (z.bool_value true) stack)
