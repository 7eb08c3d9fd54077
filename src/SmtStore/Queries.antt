-- ===== src/SmtStore/Queries.antt =====
-- `empty` and `subseteq` of src/llvmsym/smtdatastore.cpp, and the query that they pose through
-- src/llvmsym/base_smt_datastore.h and src/llvmsym/formula/z3.cpp. The solver is a parameter. The cache
-- of queries, which is off by default, the counters of statistics and the output are left out.
use sym_divine.Base.{
  ℕ, zero, suc, Bool, true, false, ◌&&◌, not, Option, none, some, List, [], ◌∷◌, ◌==◌,
  if◌then◌else◌, length, get_elem?, ◌>>=◌, ◌>>◌, ensure,
}
use sym_divine.Formula.{Ident, ident_eq, Formula, build_identifier, rpn_eq}
use sym_divine.Formula.Order.{ident_lt}
use sym_divine.Formula.Substitute.{Definition, to_formula}
use sym_divine.Datastore
use sym_divine.Smt.{Z3, toz3}
use sym_divine.SmtStore.{Store, build_item, variable_depends_on, all_variables}

pub data CheckResult : Type 0 where
  sat unsat unknown : CheckResult

pub data TriState : Type 0 where
  true_ false_ unknown_ : TriState

-- The calls of Z3 that a query makes: the tests of an expression, `check` on one assertion, the
-- quantifier, and the simplification of q3b, if the option asks for it.
pub record Solver (z : Z3) : Type 0 where
  pub is_const : z.Expr → Bool
  pub is_decl_true : z.Expr → Bool
  pub is_decl_false : z.Expr → Bool
  pub check : z.Expr → CheckResult
  pub forall_const : List z.Expr → z.Expr → z.Expr
  pub q3b_simplify : z.Expr → z.Expr

abbrev pub is_nil {ℓ} : {A : Type ℓ} → List A → Bool
is_nil [] = true
is_nil (x ∷ xs) = false

-- `Definition::operator==`, and the comparison of vectors of definitions
unfoldable pub definitions_eq : List Definition → List Definition → Bool
definitions_eq [] [] = true
definitions_eq (a ∷ as') (b ∷ bs) =
    ident_eq a.symbol b.symbol && rpn_eq a.def b.def && definitions_eq as' bs
definitions_eq a b = false

-- The loop that sets `equal_syntax`, after the comparison of the sizes.
unfoldable pub conditions_eq : List Formula → List Formula → Bool
conditions_eq [] [] = true
conditions_eq (a ∷ as') (b ∷ bs) = rpn_eq a b && conditions_eq as' bs
conditions_eq a b = false

-- `std::map::insert`: an entry that is there stays.
abbrev pub insert_ident : Ident → Ident → List (Ident × Ident) → List (Ident × Ident)
insert_ident k v [] = (k, v) ∷ []
insert_ident k v ((l, u) ∷ rest) =
    let later = insert_ident k v rest in
    if ident_lt k l
    then (k, v) ∷ (l, u) ∷ rest
    else if ident_lt l k
    then (l, u) ∷ later
    else (l, u) ∷ rest

-- The loop over the offsets of one segment, from `offset` on, for `count` of them.
unfoldable pub compare_offsets :
    Store → Store → ℕ → ℕ → ℕ → List (Ident × Ident) → Option (List (Ident × Ident))
compare_offsets a b segment offset zero to_compare = some to_compare
compare_offsets a b segment offset (suc count) to_compare = do
  a_atom ← build_item a (Datastore.variable segment offset false)
  b_atom ← build_item b (Datastore.variable segment offset false)
  in_a ← variable_depends_on a segment offset
  in_b ← variable_depends_on b segment offset
  compare_offsets a b segment (suc offset) count
      (if not in_a && not in_b then to_compare else insert_ident a_atom b_atom to_compare)

-- The loop over the segments, from `segment` on, with the rows of `a.generations`.
unfoldable pub compare_segments :
    Store → Store → ℕ → List (List ℕ) → List (Ident × Ident) → Option (List (Ident × Ident))
unfolding compare_offsets
compare_segments a b segment [] to_compare = some to_compare
compare_segments a b segment (row ∷ rows) to_compare = do
  b_row ← get_elem? b.generations segment
  ensure (length row == length b_row)
  more ← compare_offsets a b segment 0 (length row) to_compare
  compare_segments a b (suc segment) rows more

module _ (z : Z3) (solver : Solver z) where
  open z use {Expr}

  -- `is_const`
  unfoldable pub tri_state : Expr → Option TriState
  tri_state e =
      if solver.is_const e
      then if solver.is_decl_true e
        then some true_
        else (ensure (solver.is_decl_false e) >> some false_)
      else some unknown_

  -- `solve_query`
  unfoldable pub solve_query : Expr → Option CheckResult
  unfolding tri_state
  solve_query e = do
    t ← tri_state e
    some (elim t [ true_ ↦ sat | false_ ↦ unsat | unknown_ ↦ solver.check e ])

  -- `forall`
  unfoldable pub forall_vars : List Expr → Expr → Option Expr
  forall_vars v b = do ensure (not (is_nil v)); some (solver.forall_const v b)

  -- The conjunctions of the translated definitions and path conditions, onto `pc`.
  unfoldable pub and_definitions : ℕ → Expr → List Definition → Option Expr
  and_definitions vpref pc [] = some pc
  and_definitions vpref pc (d ∷ ds) = do
    f ← to_formula d
    e ← toz3 z f vpref
    and_definitions vpref (z.both pc e) ds

  unfoldable pub and_conditions : ℕ → Expr → List Formula → Option Expr
  and_conditions vpref pc [] = some pc
  and_conditions vpref pc (f ∷ fs) = do e ← toz3 z f vpref; and_conditions vpref (z.both pc e) fs

  -- `empty`, whose variables have the prefix 0
  unfoldable pub empty : Store → Option Bool
  unfolding and_definitions and_conditions solve_query
  empty s =
      if is_nil s.path_condition
      then some false
      else (and_definitions 0 (z.bool_value true) s.definitions >>= λ pc.
          and_conditions 0 pc s.path_condition >>= λ query.
          solve_query (solver.q3b_simplify query) >>= λ ret. elim ret [
            | unknown ↦ none
            | unsat ↦ some true
            | sat ↦ some false
          ])

  -- The disjunction that two valuations differ at a compared variable, onto `distinct`.
  unfoldable pub or_distinct : Expr → List (Ident × Ident) → Option Expr
  or_distinct distinct [] = some distinct
  or_distinct distinct ((a, b) ∷ rest) = do
    a_formula ← build_identifier a
    a_expr ← toz3 z a_formula 0
    b_formula ← build_identifier b
    b_expr ← toz3 z b_formula 1
    or_distinct (z.either distinct (z.differ a_expr b_expr)) rest

  unfoldable pub bound_vars : List Ident → Option (List Expr)
  bound_vars [] = some []
  bound_vars (id ∷ ids) = do
    f ← build_identifier id
    e ← toz3 z f 0
    rest ← bound_vars ids
    some (e ∷ rest)

  -- The query of `subseteq`: `pc_b && forall( a ). ( !pc_a || distinct )`
  unfoldable pub subseteq_query : Store → Store → List (Ident × Ident) → Option Expr
  unfolding and_definitions and_conditions or_distinct bound_vars forall_vars
  subseteq_query b a to_compare = do
    pc_a' ← and_conditions 0 (z.bool_value true) a.path_condition
    pc_b' ← and_conditions 1 (z.bool_value true) b.path_condition
    pc_a ← and_definitions 0 pc_a' a.definitions
    pc_b ← and_definitions 1 pc_b' b.definitions
    distinct ← or_distinct (z.bool_value false) to_compare
    variables ← all_variables a
    a_all_vars ← bound_vars variables
    all ← forall_vars a_all_vars (z.either (z.negate pc_a) distinct)
    some (z.both pc_b all)

  -- The part of `subseteq` after the syntactic test. The result has with it whether the answer was
  -- unknown, which `unknown_instances` counts.
  unfoldable pub subseteq_solver : Store → Store → Option (Bool × Bool)
  unfolding compare_segments subseteq_query solve_query
  subseteq_solver b a = compare_segments a b 0 a.generations [] >>= λ to_compare.
      if is_nil to_compare
      then some (true, false)
      else (subseteq_query b a to_compare >>= λ query.
          solve_query (solver.q3b_simplify query) >>= λ ret.
          some
            (elim ret [ unsat ↦ (true, false) | unknown ↦ (false, true) | sat ↦ (false, false) ]))

  -- `subseteq( b, a )`
  unfoldable pub subseteq : Store → Store → Option (Bool × Bool)
  unfolding subseteq_solver
  subseteq b a =
      if definitions_eq a.definitions b.definitions
        && conditions_eq a.path_condition b.path_condition
      then some (true, false)
      else subseteq_solver b a

  -- `equal`
  unfoldable pub equal : Store → Store → Option Bool
  unfolding subseteq
  equal a b = do
    ensure (length a.segments_mapping == length b.segments_mapping)
    (there, unsure) ← subseteq a b
    if there then (subseteq b a >>= λ back. some back.0) else some false
