-- ===== src/SmtStore/Instructions.antt =====
-- The instructions of src/llvmsym/base_smt_datastore.h over the store of src/llvmsym/smtdatastore.h, by
-- the valuations that satisfy the store.
use sym_divine.Base.{
  ℕ, ◌+◌, ◌%◌, ◌<◌, ◌≡◌, refl, sym, ap, ◌∙◌, ◌↔◌, Bool, true, some, List, [], ◌∷◌, All, Returns,
  get_elem?, leb, push_back, some_inj,
}
use sym_divine.Formula.{Ident, Formula}
use sym_divine.Formula.Term.{Term, postfix}
use sym_divine.Datastore
use sym_divine.Datastore.{Value, Comparison}
use sym_divine.Smt.{Z3, toz3}
use sym_divine.Smt.Meaning.{meaning, toz3-postfix}
use sym_divine.Removal.{filter}
use sym_divine.Removal.Meaning.{Models, Defines, Holds}
use sym_divine.Removal.Ends.{load}
use sym_divine.BaseSmtStore.{BinaryOp, implement_binary, prune}
use sym_divine.BaseSmtStore.Meaning.{
  instruction, comparison, binary_formula-meaning, comparison_formula-meaning,
}
use sym_divine.SmtStore.{
  Store, Simplifier, u16, cell, is_version, build_expression, push_condition, simplify, simplified,
  methods,
}
use sym_divine.SmtStore.Versions.{IsStore}
use sym_divine.SmtStore.Models.{push_definition-Models}

All-push_back :
    (P : Formula → Type 0) (fs : List Formula) (f : Formula)
    → All P (push_back fs f) ↔ (All P fs × P f)
All-push_back P [] f = (λ h. (tt, h.0), λ h. (h.1, tt))
All-push_back P (g ∷ fs) f =
    let (to, from) = All-push_back P fs f in
    (λ h. ((h.0, (to h.1).0), (to h.1).1), λ h. (h.0.0, from (h.0.1, h.1)))

simplified_off :
    (c : Simplifier) (fs : List Formula)
    → leb c.unknown_instances 4 ≡ true
    → simplified c fs ≡ some fs
unfolding simplified
simplified_off c [] h = refl
simplified_off c (f ∷ fs) h = rw h refl

-- A formula that lists a term holds when the term means `true`, and defines a symbol that has the
-- term's meaning.
postfix_iff :
    (z : Z3) (vpref : ℕ) (t : Term) (e e' : z.Expr)
    → meaning z vpref t ≡ e
    → (toz3 z (postfix t) vpref ≡ some e') ↔ (e ≡ e')
postfix_iff z vpref t e e' m =
    let runs = toz3-postfix z vpref t in
    (λ h. sym m ∙ some_inj (sym runs ∙ h), λ h. runs ∙ ap some (m ∙ h))

-- A binary instruction on values of a well-formed store, whose result is a variable with a generation
-- below its bound: with fuel for the weight of the formulas it runs to its end, and in each valuation: the old store holds and the new version of the result is what the
-- operation of Z3 gives for the operands, if and only if the new store holds and so do the definitions
-- of the old version of the result.
pub implement_binary-Models :
    (z : Z3) (vpref : ℕ) (w : Ident → ℕ) (n : ℕ) (c : Simplifier) (op : BinaryOp) (s : Store)
    (segment offset gen m bw : ℕ) (pointer : Bool) (a b : Value) (ta tb : Term)
    → get_elem? s.segments_mapping segment ≡ some m
    → cell s.generations segment offset ≡ some gen
    → cell s.bit_widths segment offset ≡ some bw
    → gen + 1 < u16
    → build_expression s a ≡ some (postfix ta)
    → build_expression s b ≡ some (postfix tb)
    → load w s.path_condition s.definitions < n
    → IsStore w s
    → let new : Ident = record { seg = m; off = offset % u16; gen = gen + 1; bw = bw } in
      Returns
        (implement_binary (methods n c) op s (Datastore.variable segment offset pointer) a b)
        λ t.
          (Models z vpref s.path_condition s.definitions
            × (instruction z op (meaning z vpref ta) (meaning z vpref tb) ≡ z.bv_const vpref new))
          ↔ (Models z vpref t.path_condition t.definitions
              × All (Defines z vpref) (filter (is_version m offset gen) s.definitions))
unfolding implement_binary methods
implement_binary-Models z vpref w n c op s segment offset gen m bw pointer a b ta tb mapped now
      width room ea eb enough h =
    let (def, built, means) = binary_formula-meaning z vpref op ta tb in
    let (t, runs, same) =
      push_definition-Models z vpref w n s segment offset gen m bw pointer (postfix def) mapped now
        width room (def, refl) enough h in
    let (to, from) = same in
    let (value, unvalue) =
      postfix_iff z vpref def _
        (z.bv_const vpref (record { seg = m; off = offset % u16; gen = gen + 1; bw = bw })) means in
    (
      t,
      rw (ea, eb, built) runs,
      ((λ h. to (h.0, unvalue h.1)), (λ h. let (old, new) = from h in (old, value new))),
    )

-- A comparison of values of the store, while at most 4 queries were unknown, so that nothing is
-- simplified: `prune` runs to its end, and in each valuation: the new store holds if and only if the
-- old one holds and the comparison of Z3 is true of the operands.
pub prune-Models :
    (z : Z3) (vpref : ℕ) (n : ℕ) (c : Simplifier) (op : Comparison) (s : Store) (a b : Value)
    (ta tb : Term)
    → leb c.unknown_instances 4 ≡ true
    → build_expression s a ≡ some (postfix ta)
    → build_expression s b ≡ some (postfix tb)
    → Returns (prune (methods n c) s a b op) λ t. Models z vpref t.path_condition t.definitions ↔ (
        Models z vpref s.path_condition s.definitions
        × (comparison z op (meaning z vpref ta) (meaning z vpref tb) ≡ z.bool_value true))
unfolding prune methods push_condition simplify
prune-Models z vpref n c op s a b ta tb few ea eb =
    let (condition, built, means) = comparison_formula-meaning z vpref op ta tb in
    let (value, unvalue) = postfix_iff z vpref condition _ (z.bool_value true) means in
    let (to, from) = All-push_back (Holds z vpref) s.path_condition (postfix condition) in
    (
      record s { path_condition = push_back s.path_condition (postfix condition) },
      rw (ea, eb, built, simplified_off c (push_back s.path_condition (postfix condition)) few)
          refl,
      (
        (λ h. let (old, new) = to h.0 in ((old, h.1), value new)),
        (λ h. (from (h.0.0, unvalue h.1), h.0.1)),
      ),
    )
