-- ===== src/Smt/Rewriting.antt =====
-- The translation after a substitution, and two tests of src/llvmsym/formula/rpn.h that accept more
-- than the translation does.
use mathlib.Core.Path.{fun_ext}
use mathlib.Core.List.{append-nil}
use sym_divine.Base.{
  ℕ, ◌≡◌, refl, sym, ap, ◌∙◌, true, false, none, some, List, [], ◌∷◌, ◌++◌, arith, ==_self, ◌==◌,
  ◌/◌, ◌%◌, ◌^◌, inl, inr, Bool-cases, ◌>>=◌,
}
use sym_divine.Formula.{
  Ident, Operator, Item, op, constant, identifier, bool_val, Formula, is_unary_op, ident_eq, sane,
  balance, code, rpn_eq, item_eq, trunc,
}
use sym_divine.Formula.Term.{Term, unary, postfix}
use sym_divine.Formula.Sane.{sane-postfix, postfix-ne, balance-postfix, sane-balance}
use sym_divine.Formula.Substitute.{substitute}
use sym_divine.Formula.Substitute.Spec.{replace}
use sym_divine.Formula.Substitute.Laws.{ident_eq-eq, replace-sane, substitute-replace}
use sym_divine.Smt.{Z3, rpn2z3, item2z3, operator2z3, toz3, bottom}
use sym_divine.Smt.Meaning.{meaning, rpn2z3-postfix, toz3-postfix, unary_meaning}

module _ (z : Z3) (vpref : ℕ) where
  open z use {Expr}

  replace-meaning :
      (pattern : Ident) (t : Term)
      → meaning z vpref t ≡ z.bv_const vpref pattern
      → (f : Formula) (res : List Expr)
      → rpn2z3 z vpref (replace pattern (postfix t) f) res ≡ rpn2z3 z vpref f res
  unfolding replace rpn2z3 item2z3
  replace-meaning pattern t e [] res = refl
  replace-meaning pattern t e (op o v ∷ f) res =
      ap (λ k. item2z3 z vpref (op o v) res >>= k) (fun_ext (replace-meaning pattern t e f))
  replace-meaning pattern t e (constant v bw ∷ f) res =
      ap (λ k. item2z3 z vpref (constant v bw) res >>= k) (fun_ext (replace-meaning pattern t e f))
  replace-meaning pattern t e (bool_val v ∷ f) res =
      ap (λ k. item2z3 z vpref (bool_val v) res >>= k) (fun_ext (replace-meaning pattern t e f))
  replace-meaning pattern t e (identifier id ∷ f) res = elim (Bool-cases (ident_eq id pattern)) [
    | inl hit ↦ rw hit (
        rpn2z3-postfix z vpref t (replace pattern (postfix t) f) res
        ∙ replace-meaning pattern t e f (meaning z vpref t ∷ res)
        ∙ ap (λ x. rpn2z3 z vpref f (x ∷ res))
            (e ∙ ap (z.bv_const vpref) (sym (ident_eq-eq id pattern hit))))
    | inr miss ↦ rw miss (
        ap (λ k. item2z3 z vpref (identifier id) res >>= k)
          (fun_ext (replace-meaning pattern t e f)))
  ]

  -- When a sane formula is rewritten by `substitute` with the listing of a term that has the same
  -- meaning as the replaced variable, the result is translated to the same expression as before.
  pub toz3-substitute :
      (pattern : Ident) (t : Term) (f : Formula)
      → sane f ≡ true
      → meaning z vpref t ≡ z.bv_const vpref pattern
      → (substitute f pattern (postfix t) >>= λ g. toz3 z g vpref) ≡ toz3 z f vpref
  unfolding toz3
  toz3-substitute pattern t f h e =
      rw (substitute-replace pattern (postfix t) (sane-postfix t) (postfix-ne t) f h) (
        rw (replace-sane pattern (postfix t) (sane-postfix t) (postfix-ne t) f h, h)
          (ap (λ m. m >>= λ stack. some (bottom z (z.bool_value true) stack))
            (replace-meaning pattern t e f [])))

-- `sane` counts the items only: it accepts a binary operator before its two operands, whatever terms
-- these list, and the translation faults on each such formula.
pub sane_underflow :
    (z : Z3) (vpref : ℕ) (o : Operator) (v : ℕ) (l r : Term)
    → is_unary_op o ≡ false
    → let f = op o v ∷ (postfix l ++ postfix r) in (sane f ≡ true) × (toz3 z f vpref ≡ none)
unfolding sane balance toz3 rpn2z3 item2z3 operator2z3
sane_underflow z vpref o v l r h =
    let counted : balance 0 1 (postfix l ++ postfix r) ≡ true =
      balance-postfix l 0 1 (postfix r)
      ∙ ap (balance 1 1) (sym (append-nil (postfix r)))
      ∙ balance-postfix r 1 1 [] in
    let accepted : sane (op o v ∷ (postfix l ++ postfix r)) ≡ true =
      sane-balance (op o v ∷ (postfix l ++ postfix r)) refl ∙ rw (balance, h) counted in
    (accepted, rw (accepted, h) refl)

code_same : (o : Operator) → (code o == code o) ≡ true
code_same o = ==_self (code o)

item_eq_refl : (i : Item) → item_eq i i ≡ true
unfolding item_eq
item_eq_refl (op o v) = code_same o
item_eq_refl (constant v bw) = ==_self v
item_eq_refl (identifier id) = ground arith
item_eq_refl (bool_val v) = ==_self v

pub rpn_eq_refl : (f : Formula) → rpn_eq f f ≡ true
unfolding rpn_eq
rpn_eq_refl [] = refl
rpn_eq_refl (i ∷ f) = rw (item_eq_refl i) (rpn_eq_refl f)

rpn_eq_ignores_value :
    (f : Formula) (o : Operator) (v w : ℕ) → rpn_eq (f ++ op o v ∷ []) (f ++ op o w ∷ []) ≡ true
unfolding rpn_eq item_eq
rpn_eq_ignores_value [] o v w = rw (code_same o)
rpn_eq_ignores_value (i ∷ f) o v w = rw (item_eq_refl i) (rpn_eq_ignores_value f o v w)

pub trunc-unary : is_unary_op trunc ≡ true
unfolding is_unary_op
trunc-unary = refl

-- The comparison of formulas takes two truncations of one term for equal whatever bits they keep,
-- though each is translated to the extraction of its own bits.
pub rpn_eq_ignores_width :
    (z : Z3) (vpref : ℕ) (t : Term) (v w : ℕ)
    → let f = postfix (unary trunc trunc-unary v t) in
      let g = postfix (unary trunc trunc-unary w t) in
      (rpn_eq f g ≡ true)
      × (toz3 z f vpref ≡ some (z.extract (v / 65536 % 2 ^ 32) (v % 65536) (meaning z vpref t)))
      × (toz3 z g vpref ≡ some (z.extract (w / 65536 % 2 ^ 32) (w % 65536) (meaning z vpref t)))
unfolding postfix meaning unary_meaning
rpn_eq_ignores_width z vpref t v w = (
  rpn_eq_ignores_value (postfix t) trunc v w,
  toz3-postfix z vpref (unary trunc trunc-unary v t),
  toz3-postfix z vpref (unary trunc trunc-unary w t),
)
