-- ===== src/Smt/Meaning.antt =====
-- The translation of src/llvmsym/formula/z3.cpp against the terms that formulas list: no operator
-- aborts, a term's listing is translated to the term's meaning, and nothing else is accepted.
use mathlib.Core.List.{append_assoc, append-nil}
use sym_divine.Base.{
  ℕ, ◌≡◌, refl, sym, ap, ◌∙◌, some, List, [], ◌∷◌, ◌++◌, ◌==◌, ◌/◌, ◌%◌, ◌^◌, true, false, inl, inr,
  Bool-cases, some_inj,
}
use sym_divine.Formula.{
  Operator, op, constant, identifier, bool_val, Formula, is_unary_op, plus, minus, times, div, srem,
  urem, eq, neq, lt, ult, leq, uleq, gt, ugt, geq, ugeq, and, xor, or, bor, band, bnot, not_, shl,
  concat, shr, sext, zext, trunc,
}
use sym_divine.Formula.Term.{Term, const, var, truth, unary, binary, postfix}
use sym_divine.Formula.Sane.{sane-postfix}
use sym_divine.Smt.{
  Z3, added, unary_expr, binary_expr, rpn2z3, item2z3, operator2z3unary, operator2z3, toz3,
}

module _ (z : Z3) where
  open z use {Expr}

  -- What a unary operator means: the negation, the extension by zeros or by the sign to `v` bits, and the bits
  -- from `v % 2^16` up to the one that the upper half of `v` names.
  unfoldable pub unary_meaning : Operator → ℕ → Expr → Expr
  unary_meaning not_ v e = z.negate e
  unary_meaning bnot v e = z.bvnot e
  unary_meaning zext v e = z.zero_ext (added v (z.bv_size e)) e
  unary_meaning sext v e = z.sign_ext (added v (z.bv_size e)) e
  unary_meaning trunc v e = z.extract (v / 65536 % 2 ^ 32) (v % 65536) e
  unary_meaning _ v e = e

  -- What a binary operator means for its left and its right operand.
  unfoldable pub binary_meaning : Operator → Expr → Expr → Expr
  binary_meaning plus a b = z.add a b
  binary_meaning minus a b = z.sub a b
  binary_meaning times a b = z.mul a b
  binary_meaning div a b = z.sdiv a b
  binary_meaning srem a b = z.bvsrem a b
  binary_meaning urem a b = z.bvurem a b
  binary_meaning eq a b = z.same a b
  binary_meaning neq a b = z.differ a b
  binary_meaning lt a b = z.slt a b
  binary_meaning ult a b = z.ult a b
  binary_meaning leq a b = z.sle a b
  binary_meaning uleq a b = z.ule a b
  binary_meaning gt a b = z.sgt a b
  binary_meaning ugt a b = z.ugt a b
  binary_meaning geq a b = z.sge a b
  binary_meaning ugeq a b = z.uge a b
  binary_meaning and a b = z.both a b
  binary_meaning or a b = z.either a b
  binary_meaning xor a b = z.bvxor a b
  binary_meaning bor a b = z.bvor a b
  binary_meaning band a b = z.bvand a b
  binary_meaning shl a b = z.bvshl a b
  binary_meaning shr a b = z.bvlshr a b
  binary_meaning concat a b = z.bvconcat a b
  binary_meaning _ a b = a

  -- No unary operator reaches the `abort` of `operator2z3unary`, and each gives what it means.
  pub unary_runs :
      (o : Operator)
      → is_unary_op o ≡ true
      → (v : ℕ) (l : Expr) → unary_expr z o v l ≡ some (unary_meaning o v l)
  unfolding is_unary_op unary_expr unary_meaning
  unary_runs not_ h v l = refl
  unary_runs zext h v l = refl
  unary_runs sext h v l = refl
  unary_runs trunc h v l = refl
  unary_runs bnot h v l = refl
  unary_runs _ h v l = cc

  -- Nor does a binary one reach that of `operator2z3`.
  pub binary_runs :
      (o : Operator)
      → is_unary_op o ≡ false
      → (v : ℕ) (l r : Expr) → binary_expr z o v l r ≡ some (binary_meaning o l r)
  unfolding is_unary_op binary_expr binary_meaning
  binary_runs not_ h v l r = cc
  binary_runs bnot h v l r = cc
  binary_runs zext h v l r = cc
  binary_runs sext h v l r = cc
  binary_runs trunc h v l r = cc
  binary_runs _ h v l r = refl

  -- What a term stands for, by its structure.
  unfoldable pub meaning : ℕ → Term → Expr
  meaning vpref (const v bw) = z.bv_val v bw
  meaning vpref (var id) = z.bv_const vpref id
  meaning vpref (truth v) = z.bool_value (v == 1)
  meaning vpref (unary o e v t) = unary_meaning o v (meaning vpref t)
  meaning vpref (binary o e v l r) = binary_meaning o (meaning vpref l) (meaning vpref r)

  pub rpn2z3-postfix :
      (vpref : ℕ) (t : Term) (f : Formula) (res : List Expr)
      → rpn2z3 z vpref (postfix t ++ f) res ≡ rpn2z3 z vpref f (meaning vpref t ∷ res)
  unfolding rpn2z3 item2z3 postfix meaning operator2z3unary operator2z3
  rpn2z3-postfix vpref (const v bw) f res = refl
  rpn2z3-postfix vpref (var id) f res = refl
  rpn2z3-postfix vpref (truth v) f res = refl
  rpn2z3-postfix vpref (unary o e v t) f res = rw (
    append_assoc (postfix t) (op o v ∷ []) f,
    rpn2z3-postfix vpref t (op o v ∷ f) res,
    e,
    unary_runs o e v (meaning vpref t),
  )
  rpn2z3-postfix vpref (binary o e v l r) f res = rw (
    append_assoc (postfix l) (postfix r ++ op o v ∷ []) f,
    append_assoc (postfix r) (op o v ∷ []) f,
    rpn2z3-postfix vpref l (postfix r ++ op o v ∷ f) res,
    rpn2z3-postfix vpref r (op o v ∷ f) (meaning vpref l ∷ res),
    e,
    binary_runs o e v (meaning vpref l) (meaning vpref r),
  )

  -- `toz3` runs to its end on the listing of any term, and gives the term's meaning: what
  -- `unary_meaning` and `binary_meaning` list for each operator, applied to the meanings of its operands.
  pub toz3-postfix : (vpref : ℕ) (t : Term) → toz3 z (postfix t) vpref ≡ some (meaning vpref t)
  unfolding toz3 rpn2z3
  toz3-postfix vpref t =
      rw (sane-postfix t, sym (append-nil (postfix t)), rpn2z3-postfix vpref t [] [])

  -- The stack of terms behind a stack of expressions, the top at the head.
  abbrev meanings : ℕ → List Term → List Expr
  meanings vpref [] = []
  meanings vpref (t ∷ ts) = meaning vpref t ∷ meanings vpref ts

  abbrev listing : List Term → Formula
  listing [] = []
  listing (t ∷ ts) = listing ts ++ postfix t

  -- The terms that a run of `f` leaves behind, when it starts from those of `ts`.
  abbrev Parses : ℕ → Formula → List Term → List Expr → Type 0
  Parses vpref f ts res =
      (us : List Term) × (meanings vpref us ≡ res) × (listing us ≡ listing ts ++ f)

  abbrev AllParse : ℕ → Formula → Type 0
  AllParse vpref f =
      (ts : List Term) (res : List Expr)
      → rpn2z3 z vpref f (meanings vpref ts) ≡ some res
      → Parses vpref f ts res

  unary_parses :
      (vpref : ℕ) (o : Operator) (e : is_unary_op o ≡ true) (v : ℕ) (f : Formula)
      → AllParse vpref f
      → AllParse vpref (op o v ∷ f)
  unfolding rpn2z3 item2z3 operator2z3unary meaning postfix
  unary_parses vpref o e v f rest [] res h = let stuck = rw e at h in cc
  unary_parses vpref o e v f rest (t ∷ ts) res h =
      let (us, m, l) =
        rest (unary o e v t ∷ ts) res (rw (unary_runs o e v (meaning vpref t)) at (rw e at h)) in
      (
        us,
        m,
        l
            ∙ ap (λ g. g ++ f) (sym (append_assoc (listing ts) (postfix t) (op o v ∷ [])))
            ∙ append_assoc (listing ts ++ postfix t) (op o v ∷ []) f,
      )

  binary_parses :
      (vpref : ℕ) (o : Operator) (e : is_unary_op o ≡ false) (v : ℕ) (f : Formula)
      → AllParse vpref f
      → AllParse vpref (op o v ∷ f)
  unfolding rpn2z3 item2z3 operator2z3 meaning postfix
  binary_parses vpref o e v f rest [] res h = let stuck = rw e at h in cc
  binary_parses vpref o e v f rest (r ∷ []) res h = let stuck = rw e at h in cc
  binary_parses vpref o e v f rest (r ∷ l ∷ ts) res h =
      let (us, m, same) =
        rest (binary o e v l r ∷ ts) res
          (rw (binary_runs o e v (meaning vpref l) (meaning vpref r)) at (rw e at h)) in
      (us, m, same ∙ simp append_assoc)

  rpn2z3_parses : (vpref : ℕ) (f : Formula) → AllParse vpref f
  unfolding rpn2z3 item2z3 meaning postfix
  rpn2z3_parses vpref [] ts res h = (ts, some_inj h, sym (append-nil (listing ts)))
  rpn2z3_parses vpref (constant v bw ∷ f) ts res h =
      let (us, m, l) = rpn2z3_parses vpref f (const v bw ∷ ts) res h in
      (us, m, l ∙ append_assoc (listing ts) (constant v bw ∷ []) f)
  rpn2z3_parses vpref (identifier id ∷ f) ts res h =
      let (us, m, l) = rpn2z3_parses vpref f (var id ∷ ts) res h in
      (us, m, l ∙ append_assoc (listing ts) (identifier id ∷ []) f)
  rpn2z3_parses vpref (bool_val v ∷ f) ts res h =
      let (us, m, l) = rpn2z3_parses vpref f (truth v ∷ ts) res h in
      (us, m, l ∙ append_assoc (listing ts) (bool_val v ∷ []) f)
  rpn2z3_parses vpref (op o v ∷ f) ts res h = elim (Bool-cases (is_unary_op o)) [
    | inl e ↦ unary_parses vpref o e v f (rpn2z3_parses vpref f) ts res h
    | inr e ↦ binary_parses vpref o e v f (rpn2z3_parses vpref f) ts res h
  ]

  -- A formula is translated to exactly one expression only if it lists a term, and the expression is
  -- then the meaning of that term.
  pub rpn2z3-lists :
      (vpref : ℕ) (f : Formula) (e : Expr)
      → rpn2z3 z vpref f [] ≡ some (e ∷ [])
      → (t : Term) × (f ≡ postfix t) × (meaning vpref t ≡ e)
  rpn2z3-lists vpref f e h = only (rpn2z3_parses vpref f [] (e ∷ []) h)
    where
      only : Parses vpref f [] (e ∷ []) → (t : Term) × (f ≡ postfix t) × (meaning vpref t ≡ e)
      only ([], m, l) = cc
      only (t ∷ [], m, l) = (t, sym l, cc)
      only (t ∷ u ∷ us, m, l) = cc
