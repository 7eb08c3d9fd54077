-- ===== src/Smt/Tests.antt =====
-- Formulas and their translation on small inputs.
use sym_divine.Base.{◌*◌, ◌≡◌, refl, [], ◌∷◌, none, some, true, false, ◌>>=◌}
use sym_divine.Formula.{
  Ident, op, constant, identifier, Formula, plus, trunc, sane, is_unary_op, build_and, rpn_eq,
}
use sym_divine.Formula.Term.{Term, const, var, unary, binary, postfix}
use sym_divine.Formula.Sane.{sane-postfix}
use sym_divine.Formula.Substitute.{substitute}
use sym_divine.Formula.Substitute.Spec.{replace}
use sym_divine.Formula.Substitute.Laws.{substitute-replace}
use sym_divine.Smt.{rpn2z3, item2z3, operator2z3, binary_expr, toz3}
use sym_divine.Smt.Words.{words}
use sym_divine.Smt.Meaning.{meaning, unary_meaning, toz3-postfix, rpn2z3-lists}
use sym_divine.Smt.Rewriting.{toz3-substitute, sane_underflow, rpn_eq_ignores_width, trunc-unary}

abbrev x : Ident
x = record { seg = 2; off = 5; gen = 1; bw = 32 }

abbrev sum : Formula
sum = identifier x ∷ constant 3 32 ∷ op plus 0 ∷ []

sum_value : toz3 words sum 0 ≡ some 8
unfolding toz3 sane rpn2z3 item2z3 operator2z3 binary_expr
sum_value = refl

plus-binary : is_unary_op plus ≡ false
unfolding is_unary_op
plus-binary = refl

abbrev sum_term : Term
sum_term = binary plus plus-binary 0 (var x) (const 3 32)

conjunction_with_empty : build_and [] sum ≡ some sum
unfolding build_and
conjunction_with_empty = refl

sane-postfix_example : sane sum ≡ true
unfolding postfix
sane-postfix_example = sane-postfix sum_term

toz3-postfix_example : toz3 words sum 0 ≡ some (meaning words 0 sum_term)
unfolding postfix
toz3-postfix_example = toz3-postfix words 0 sum_term

rpn2z3-lists_example : (t : Term) × (sum ≡ postfix t) × (meaning words 0 t ≡ 8)
unfolding rpn2z3 item2z3 operator2z3 binary_expr is_unary_op
rpn2z3-lists_example = rpn2z3-lists words 0 sum 8 refl

substitute-replace_example :
    substitute sum x (constant 4 32 ∷ []) ≡ some (replace x (constant 4 32 ∷ []) sum)
unfolding sane
substitute-replace_example = substitute-replace x (constant 4 32 ∷ []) refl refl sum refl

toz3-substitute_example :
    (substitute sum x (constant 5 32 ∷ []) >>= λ g. toz3 words g 0) ≡ toz3 words sum 0
unfolding sane postfix meaning
toz3-substitute_example = toz3-substitute words 0 x (const 5 32) sum refl refl

sane_underflow_example :
    (sane (op plus 0 ∷ constant 1 32 ∷ constant 2 32 ∷ []) ≡ true)
    × (toz3 words (op plus 0 ∷ constant 1 32 ∷ constant 2 32 ∷ []) 0 ≡ none)
unfolding postfix
sane_underflow_example = sane_underflow words 0 plus 0 (const 1 32) (const 2 32) plus-binary

rpn_eq_ignores_width_example :
    let f = postfix (unary trunc trunc-unary (7 * 65536) (const 300 32)) in
    let g = postfix (unary trunc trunc-unary (15 * 65536) (const 300 32)) in
    (rpn_eq f g ≡ true) × (toz3 words f 0 ≡ some 44) × (toz3 words g 0 ≡ some 300)
unfolding meaning unary_meaning
rpn_eq_ignores_width_example = rpn_eq_ignores_width words 0 (const 300 32) (7 * 65536) (15 * 65536)
