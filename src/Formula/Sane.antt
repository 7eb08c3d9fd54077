-- ===== src/Formula/Sane.antt =====
-- What `sane` and the builders of src/llvmsym/formula/rpn.h do on formulas that list a term.
use mathlib.Core.List.{append_assoc, append-nil}
use sym_divine.Base.{
  ℕ, suc, ◌≡◌, refl, sym, ap, ◌∙◌, true, false, some, [], ◌∷◌, ◌++◌, arith, inl, inr, Bool-cases,
}
use sym_divine.Formula.{
  Operator, op, constant, identifier, bool_val, Formula, is_unary_op, balance, sane, join_binary,
  join_unary, is_empty,
}
use sym_divine.Formula.Term.{Term, const, var, truth, unary, binary, postfix}

pub balance_shift : (up down : ℕ) (f : Formula) → balance (suc up) (suc down) f ≡ balance up down f
unfolding balance
balance_shift up down [] = ground arith
balance_shift up down (op o v ∷ f) = elim (Bool-cases (is_unary_op o)) [
  | inl e ↦ rw e (balance_shift up down f)
  | inr e ↦ rw e (balance_shift up (suc down) f)
]
balance_shift up down (constant v bw ∷ f) = balance_shift (suc up) down f
balance_shift up down (identifier id ∷ f) = balance_shift (suc up) down f
balance_shift up down (bool_val v ∷ f) = balance_shift (suc up) down f

-- A term pushes one operand.
pub balance-postfix :
    (t : Term) (up down : ℕ) (f : Formula)
    → balance up down (postfix t ++ f) ≡ balance (suc up) down f
unfolding balance postfix
balance-postfix (const v bw) up down f = refl
balance-postfix (var id) up down f = refl
balance-postfix (truth v) up down f = refl
balance-postfix (unary o e v t) up down f =
    rw (append_assoc, balance-postfix t up down (op o v ∷ f), e)
balance-postfix (binary o e v l r) up down f =
    rw
      (
        append_assoc (postfix l) (postfix r ++ op o v ∷ []) f,
        append_assoc (postfix r) (op o v ∷ []) f,
        balance-postfix l up down (postfix r ++ op o v ∷ f),
        balance-postfix r (suc up) down (op o v ∷ f),
        e,
      )
      (balance_shift (suc up) down f)

pub append-ne : (f g : Formula) → is_empty f ≡ false → is_empty (f ++ g) ≡ false
append-ne [] g h = cc
append-ne (i ∷ f) g h = refl

pub postfix-ne : (t : Term) → is_empty (postfix t) ≡ false
unfolding postfix
postfix-ne (const v bw) = refl
postfix-ne (var id) = refl
postfix-ne (truth v) = refl
postfix-ne (unary o e v t) = append-ne (postfix t) (op o v ∷ []) (postfix-ne t)
postfix-ne (binary o e v l r) = append-ne (postfix l) (postfix r ++ op o v ∷ []) (postfix-ne l)

pub sane-balance : (f : Formula) → is_empty f ≡ false → sane f ≡ balance 0 0 f
unfolding sane
sane-balance [] h = cc
sane-balance (i ∷ f) h = refl

-- The formula that lists a term is sane.
pub sane-postfix : (t : Term) → sane (postfix t) ≡ true
unfolding balance
sane-postfix t =
    sane-balance (postfix t) (postfix-ne t)
    ∙ ap (balance 0 0) (sym (append-nil (postfix t)))
    ∙ balance-postfix t 0 0 []

-- Joining the listings of two terms by a binary operator passes its asserts, and lists the
-- application of the operator.
pub join_binary-postfix :
    (o : Operator) (e : is_unary_op o ≡ false) (l r : Term)
    → join_binary (postfix l) (postfix r) o ≡ some (postfix (binary o e 0 l r))
unfolding join_binary postfix
join_binary-postfix o e l r =
    let fine : sane (postfix l ++ (postfix r ++ op o 0 ∷ [])) ≡ true =
      sane-postfix (binary o e 0 l r) in
    ground (arith, postfix-ne l, postfix-ne r, fine)

-- So does applying a unary operator.
pub join_unary-postfix :
    (o : Operator) (e : is_unary_op o ≡ true) (value : ℕ) (t : Term)
    → join_unary (postfix t) o value ≡ some (postfix (unary o e value t))
unfolding join_unary postfix
join_unary-postfix o e value t = rw (sane-postfix (unary o e value t))
