-- ===== src/Formula/Term.antt =====
-- Terms, and the formula that lists a term in postfix order.
use sym_divine.Base.{ℕ, ◌≡◌, true, false, [], ◌∷◌, ◌++◌}
use sym_divine.Formula.{Ident, Operator, op, constant, identifier, bool_val, Formula, is_unary_op}

pub data Term : Type 0 where
  const : ℕ → ℕ → Term
  var : Ident → Term
  truth : ℕ → Term
  unary : (o : Operator) → is_unary_op o ≡ true → ℕ → Term → Term
  binary : (o : Operator) → is_unary_op o ≡ false → ℕ → Term → Term → Term

unfoldable pub postfix : Term → Formula
postfix (const v bw) = constant v bw ∷ []
postfix (var id) = identifier id ∷ []
postfix (truth v) = bool_val v ∷ []
postfix (unary o _ v t) = postfix t ++ op o v ∷ []
postfix (binary o _ v l r) = postfix l ++ (postfix r ++ op o v ∷ [])
