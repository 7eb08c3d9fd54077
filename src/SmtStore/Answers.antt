-- ===== src/SmtStore/Answers.antt =====
-- What the answers of src/llvmsym/smtdatastore.cpp are worth: a store that is declared empty has no
-- valuation, every store is included in itself, and a store without formulas cannot be asked.
use sym_divine.Base.{
  ◌≡◌, refl, ◌∙◌, Bool, true, false, ◌&&◌, none, some, List, [], ◌∷◌, Option-cases, Bool-cases, inl,
  inr, All, ◌>>=◌, length, ==_self, arith,
}
use sym_divine.Formula.{Ident, Formula}
use sym_divine.Formula.Substitute.{Definition, to_formula}
use sym_divine.Smt.{Z3, toz3}
use sym_divine.Smt.Rewriting.{rpn_eq_refl}
use sym_divine.SmtStore.{Store, all_variables}
use sym_divine.SmtStore.Versions.{ident_eq_self}
use sym_divine.SmtStore.Queries.{
  Solver, sat, unsat, unknown, is_nil, definitions_eq, conditions_eq, compare_segments, tri_state,
  solve_query, forall_vars, and_definitions, and_conditions, empty, or_distinct, bound_vars,
  subseteq_query, subseteq_solver, subseteq, equal,
}

definitions_eq_refl : (ds : List Definition) → definitions_eq ds ds ≡ true
unfolding definitions_eq
definitions_eq_refl [] = refl
definitions_eq_refl (d ∷ ds) =
    rw (ident_eq_self d.symbol, rpn_eq_refl d.def) (definitions_eq_refl ds)

conditions_eq_refl : (fs : List Formula) → conditions_eq fs fs ≡ true
unfolding conditions_eq
conditions_eq_refl [] = refl
conditions_eq_refl (f ∷ fs) = rw (rpn_eq_refl f) (conditions_eq_refl fs)

module _ (z : Z3) (solver : Solver z) where
  open z use {Expr}

  subseteq_refl : (s : Store) → subseteq z solver s s ≡ some (true, false)
  unfolding subseteq
  subseteq_refl s = rw (definitions_eq_refl s.definitions, conditions_eq_refl s.path_condition) refl

  -- Every store is equal to itself, without a query.
  equal_refl : (s : Store) → equal z solver s s ≡ some true
  unfolding equal
  equal_refl s = rw (==_self (length s.segments_mapping), subseteq_refl s) refl

  query_unconstrained :
      (b a : Store) (pairs : List (Ident × Ident))
      → a.path_condition ≡ []
      → a.definitions ≡ []
      → subseteq_query z solver b a pairs ≡ none
  unfolding subseteq_query all_variables bound_vars forall_vars and_conditions and_definitions
  query_unconstrained b a pairs no_conditions no_definitions =
      let start = z.bool_value true in
      rw (no_conditions, no_definitions)
        elim (Option-cases (and_conditions z solver 1 start b.path_condition)) [
          | inl e ↦ rw e refl
          | inr (pc, e) ↦ rw e elim (Option-cases (and_definitions z solver 1 pc b.definitions)) [
            | inl e' ↦ rw e' refl
            | inr (pc_b, e') ↦
                rw e' elim (Option-cases (or_distinct z solver (z.bool_value false) pairs)) [
                  | inl e'' ↦ rw e'' refl
                  | inr (distinct, e'') ↦ rw e'' refl
                ]
          ]
        ]

  -- Whether a store is included in a store without path conditions and definitions has no answer: the
  -- quantifier over no variables fails its `assert`, if some variable is to be compared and the other
  -- store has formulas.
  pub subseteq_unconstrained :
      (b a : Store) (pair : Ident × Ident) (pairs : List (Ident × Ident))
      → a.path_condition ≡ []
      → a.definitions ≡ []
      → (definitions_eq a.definitions b.definitions
          && conditions_eq a.path_condition b.path_condition)
        ≡ false
      → compare_segments a b 0 a.generations [] ≡ some (pair ∷ pairs)
      → subseteq z solver b a ≡ none
  unfolding subseteq subseteq_solver
  subseteq_unconstrained b a pair pairs no_conditions no_definitions differ compared =
      let no_query = query_unconstrained b a (pair ∷ pairs) no_conditions no_definitions in
      rw (differ, compared, no_query) refl

  -- The laws of an evaluation of expressions, by which the conjunction of a store holds in a valuation.
  module _ (eval : Expr → Bool) (eval_true : eval (z.bool_value true) ≡ true)
      (eval_both : (a b : Expr) → eval (z.both a b) ≡ (eval a && eval b)) where
    -- The formula is translated to an expression that the valuation makes true.
    abbrev pub IsTrue : Formula → Type 0
    IsTrue f = (e : Expr) × (toz3 z f 0 ≡ some e) × (eval e ≡ true)

    abbrev pub IsTrueDef : Definition → Type 0
    IsTrueDef d = (f : Formula) × (to_formula d ≡ some f) × IsTrue f

    and_conditions-true :
        (fs : List Formula) (pc : Expr)
        → eval pc ≡ true
        → All IsTrue fs
        → (e : Expr) × (and_conditions z solver 0 pc fs ≡ some e) × (eval e ≡ true)
    unfolding and_conditions
    and_conditions-true [] pc h hs = (pc, refl, h)
    and_conditions-true (f ∷ fs) pc h hs =
        let (e, runs, holds) = hs.0 in
        let (last, rest, true_last) =
          and_conditions-true fs (z.both pc e) (rw (eval_both pc e, h, holds) refl) hs.1 in
        (last, rw runs rest, true_last)

    and_definitions-true :
        (ds : List Definition) (pc : Expr)
        → eval pc ≡ true
        → All IsTrueDef ds
        → (e : Expr) × (and_definitions z solver 0 pc ds ≡ some e) × (eval e ≡ true)
    unfolding and_definitions
    and_definitions-true [] pc h hs = (pc, refl, h)
    and_definitions-true (d ∷ ds) pc h hs =
        let (f, formula, is_true) = hs.0 in
        let (e, runs, holds) = is_true in
        let (last, rest, true_last) =
          and_definitions-true ds (z.both pc e) (rw (eval_both pc e, h, holds) refl) hs.1 in
        (last, rw (formula, runs) rest, true_last)

    refute_query :
        (q : Expr)
        → (solver.check q ≡ unsat → eval q ≡ false)
        → (solver.is_decl_false q ≡ true → eval q ≡ false)
        → eval q ≡ true
        → (solve_query z solver q >>= λ ret. elim ret [
          | unknown ↦ none
          | unsat ↦ some true
          | sat ↦ some false
        ])
          ≡ some true
        → ⊥
    unfolding solve_query tri_state
    refute_query q sound sound_false holds answer = ground arith

    -- A store that `empty` declares empty has no valuation: when the solver answers `unsat`, and Z3
    -- takes an expression for the constant `false`, only for expressions that the valuation makes
    -- false, and the simplification keeps the value, then the valuation does not make all path
    -- conditions and definitions true.
    pub empty-refutes :
        (s : Store)
        → ((e : Expr) → solver.check e ≡ unsat → eval e ≡ false)
        → ((e : Expr) → solver.is_decl_false e ≡ true → eval e ≡ false)
        → ((e : Expr) → eval (solver.q3b_simplify e) ≡ eval e)
        → empty z solver s ≡ some true
        → ¬ (All IsTrue s.path_condition × All IsTrueDef s.definitions)
    unfolding empty
    empty-refutes s sound sound_false simple answer holds =
        let (pc, runs, true_pc) =
          and_definitions-true s.definitions (z.bool_value true) eval_true holds.1 in
        let (query, runs', true_query) = and_conditions-true s.path_condition pc true_pc holds.0 in
        let true_simple = simple query ∙ true_query in
        elim (Bool-cases (is_nil s.path_condition)) [
          | inl nil ↦ let wrong = rw nil at answer in cc
          | inr some_condition ↦
              refute_query (solver.q3b_simplify query) (sound _) (sound_false _) true_simple
                (rw (some_condition, runs, runs') at answer)
        ]
