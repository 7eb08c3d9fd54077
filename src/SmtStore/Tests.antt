-- ===== src/SmtStore/Tests.antt =====
-- A symbolic store of two 32-bit variables: the first has its version 1 defined as the second plus 3, and
-- is below 9.
use sym_divine.Base.{
  ℕ, ◌-◌, ◌≡◌, refl, ◌↔◌, Bool, true, false, none, some, [], ◌∷◌, All, Returns, arith, zero, suc,
  not, ◌&&◌, if◌then◌else◌, ◌==◌,
}
use sym_divine.Formula.{
  Ident, op, constant, identifier, Formula, plus, lt, is_unary_op, collect_variables,
  build_identifier, build_constant, join_binary, sane, depends_on, item_depends_on,
}
use sym_divine.Formula.Term.{const, var, binary, postfix}
use sym_divine.Formula.Order.{ident_lt}
use sym_divine.Formula.Substitute.{Definition, to_formula, def_depends_on}
use sym_divine.Datastore
use sym_divine.Smt.{Z3, toz3, rpn2z3, item2z3, operator2z3, binary_expr}
use sym_divine.Smt.Words.{words}
use sym_divine.Smt.Meaning.{meaning}
use sym_divine.Removal.{remove_definitions}
use sym_divine.Removal.Weight.{IsListing}
use sym_divine.Removal.Passes.{AreListings}
use sym_divine.Removal.Ends.{IsFree}
use sym_divine.Removal.Meaning.{Models, Defines}
use sym_divine.Removal.Laws.{IsRemovable, remove_definitions-ends, remove_definitions-Models}
use sym_divine.Removal.Kept.{IsWell}
use sym_divine.BaseSmtStore
use sym_divine.BaseSmtStore.{implement_binary, prune}
use sym_divine.SmtStore.{
  Store, Simplifier, push_definition, methods, is_version, build_expression, version, build_item,
  variable_depends_on, any_depends_on,
}
use sym_divine.SmtStore.Versions.{IsStore, IsCurrent, IsInjective, ranked_by}
use sym_divine.SmtStore.Definitions.{push_definition-IsStore}
use sym_divine.SmtStore.Models.{push_definition-Models}
use sym_divine.SmtStore.Instructions.{implement_binary-Models, prune-Models}
use sym_divine.SmtStore.Queries.{
  and_definitions, and_conditions, solve_query, tri_state, definitions_eq, conditions_eq,
  compare_segments, Solver, sat, unsat, empty, subseteq,
}
use sym_divine.SmtStore.Answers.{IsTrue, IsTrueDef, subseteq_unconstrained, empty-refutes}

abbrev x : Ident
x = record { seg = 0; off = 0; gen = 1; bw = 32 }

abbrev y : Ident
y = record { seg = 0; off = 1; gen = 0; bw = 32 }

abbrev y_plus_3 : Formula
y_plus_3 = identifier y ∷ constant 3 32 ∷ op plus 0 ∷ []

abbrev below_9 : Formula
below_9 = identifier x ∷ constant 9 32 ∷ op lt 0 ∷ []

abbrev x_is : Definition
x_is = record { symbol = x; def = y_plus_3 }

abbrev two_variables : Store
two_variables = record {
  segments_mapping = 0 ∷ [];
  generations = (1 ∷ 0 ∷ []) ∷ [];
  bit_widths = (32 ∷ 32 ∷ []) ∷ [];
  path_condition = below_9 ∷ [];
  definitions = x_is ∷ [];
  fst_unused_id = 1;
}

-- The second variable ranks below the first one.
abbrev rank : Ident → ℕ
rank id = 2 - id.off

plus-binary : is_unary_op plus ≡ false
unfolding is_unary_op
plus-binary = refl

lt-binary : is_unary_op lt ≡ false
unfolding is_unary_op
lt-binary = refl

y_plus_3-IsListing : IsListing y_plus_3
unfolding postfix
y_plus_3-IsListing = (binary plus plus-binary 0 (var y) (const 3 32), refl)

below_9-IsListing : IsListing below_9
unfolding postfix
below_9-IsListing = (binary lt lt-binary 0 (var x) (const 9 32), refl)

x-IsCurrent : IsCurrent two_variables x
x-IsCurrent zero zero gen e c o = ground arith
x-IsCurrent zero (suc zero) gen e c o = absurd (omega arith)
x-IsCurrent zero (suc (suc offset)) gen e c o = cc
x-IsCurrent (suc segment) offset gen e c o = cc

y-IsCurrent : IsCurrent two_variables y
y-IsCurrent segment offset gen e c o = omega arith

two_variables-IsInjective : IsInjective two_variables
two_variables-IsInjective zero zero zero zero m g g' e e' c c' o = (refl, refl)
two_variables-IsInjective zero zero zero (suc zero) m g g' e e' c c' o = absurd (omega arith)
two_variables-IsInjective zero (suc zero) zero zero m g g' e e' c c' o = absurd (omega arith)
two_variables-IsInjective zero (suc zero) zero (suc zero) m g g' e e' c c' o = (refl, refl)
two_variables-IsInjective zero (suc (suc j)) zero l m g g' e e' c c' o = cc
two_variables-IsInjective zero j zero (suc (suc l)) m g g' e e' c c' o = cc
two_variables-IsInjective (suc i) j k l m g g' e e' c c' o = cc
two_variables-IsInjective i j (suc k) l m g g' e e' c c' o = cc

two_variables-IsWell : IsWell rank (IsCurrent two_variables) (below_9 ∷ []) (x_is ∷ [])
unfolding collect_variables
two_variables-IsWell = record {
  conditions_listed = (below_9-IsListing, tt);
  definitions_listed = (y_plus_3-IsListing, tt);
  ranked = (omega arith, tt);
  conditions_mention = ((x-IsCurrent, tt), tt);
  definitions_mention = ((x-IsCurrent, (y-IsCurrent, tt)), tt);
}

two_variables-IsStore : IsStore rank two_variables
two_variables-IsStore = record {
  well = two_variables-IsWell;
  injective = two_variables-IsInjective;
}

first_removable : IsRemovable rank 3 (is_version 0 0 1) (below_9 ∷ []) (x_is ∷ [])
first_removable = record {
  conditions = (below_9-IsListing, tt);
  definitions = (y_plus_3-IsListing, tt);
  ranked = (omega arith, tt);
  enough = omega arith;
}

remove_definitions-ends_example :
    Returns (remove_definitions 3 (is_version 0 0 1) (below_9 ∷ []) (x_is ∷ [])) λ r.
      All (IsFree (x_is ∷ [])) r.0
      × All (λ d. IsFree (x_is ∷ []) d.def) r.1
      × All IsListing r.0
      × AreListings r.1
remove_definitions-ends_example =
    remove_definitions-ends rank 3 (is_version 0 0 1) (below_9 ∷ []) (x_is ∷ []) first_removable

remove_definitions-Models_example :
    Returns (remove_definitions 3 (is_version 0 0 1) (below_9 ∷ []) (x_is ∷ [])) λ r.
      Models words 0 (below_9 ∷ []) (x_is ∷ [])
      ↔ (Models words 0 r.0 r.1 × All (Defines words 0) (x_is ∷ []))
remove_definitions-Models_example =
    remove_definitions-Models rank 3 (is_version 0 0 1) (below_9 ∷ []) (x_is ∷ []) first_removable
      words 0

push_definition-IsStore_example :
    Returns
      (push_definition 4 two_variables (Datastore.variable 0 0 false) y_plus_3)
      λ t. IsStore (ranked_by rank (record { seg = 0; off = 0; gen = 2; bw = 32 }) 1) t
unfolding collect_variables
push_definition-IsStore_example =
    push_definition-IsStore rank 4 two_variables 0 0 1 0 32 false y_plus_3 refl refl refl
      (omega arith) y_plus_3-IsListing (y-IsCurrent, tt) (omega arith) two_variables-IsStore

push_definition-Models_example :
    let new : Definition = record {
      symbol = record { seg = 0; off = 0; gen = 2; bw = 32 };
      def = y_plus_3;
    } in
    Returns (push_definition 4 two_variables (Datastore.variable 0 0 false) y_plus_3) λ t.
      (Models words 0 (below_9 ∷ []) (x_is ∷ []) × Defines words 0 new)
      ↔ (Models words 0 t.path_condition t.definitions × All (Defines words 0) (x_is ∷ []))
push_definition-Models_example =
    push_definition-Models words 0 rank 4 two_variables 0 0 1 0 32 false y_plus_3 refl refl refl
      (omega arith) y_plus_3-IsListing (omega arith) two_variables-IsStore

abbrev no_simplifier : Simplifier
no_simplifier = record {
  unknown_instances = 0;
  cheap = false;
  dont = true;
  cheap_simplify = some;
  full_simplify = some;
}

y_expression :
    build_expression two_variables (Datastore.variable 0 1 false) ≡ some (postfix (var y))
unfolding build_expression build_identifier version postfix
y_expression = refl

x_expression :
    build_expression two_variables (Datastore.variable 0 0 false) ≡ some (postfix (var x))
unfolding build_expression build_identifier version postfix
x_expression = refl

constant_expression :
    (v : ℕ)
    → build_expression two_variables (Datastore.constant v 32 false) ≡ some (postfix (const v 32))
unfolding build_expression build_constant postfix
constant_expression v = refl

implement_binary-Models_example :
    Returns
      (implement_binary
        (methods 4 no_simplifier)
        BaseSmtStore.add
        two_variables
        (Datastore.variable 0 0 false)
        (Datastore.variable 0 1 false)
        (Datastore.constant 3 32 false))
      λ t.
        (Models words 0 (below_9 ∷ []) (x_is ∷ [])
          × (words.add (meaning words 0 (var y)) (meaning words 0 (const 3 32)) ≡ 0))
        ↔ (Models words 0 t.path_condition t.definitions × All (Defines words 0) (x_is ∷ []))
implement_binary-Models_example =
    implement_binary-Models words 0 rank 4 no_simplifier BaseSmtStore.add two_variables 0 0 1 0 32
      false (Datastore.variable 0 1 false) (Datastore.constant 3 32 false) (var y) (const 3 32) refl
      refl refl (omega arith) y_expression (constant_expression 3) (omega arith)
      two_variables-IsStore

prune-Models_example :
    Returns
      (prune
        (methods 4 no_simplifier)
        two_variables
        (Datastore.variable 0 0 false)
        (Datastore.constant 5 32 false)
        Datastore.ugt)
      λ t. Models words 0 t.path_condition t.definitions ↔ (
        Models words 0 (below_9 ∷ []) (x_is ∷ [])
        × (words.ugt (meaning words 0 (var x)) (meaning words 0 (const 5 32)) ≡ 1))
prune-Models_example =
    prune-Models words 0 4 no_simplifier Datastore.ugt two_variables (Datastore.variable 0 0 false)
      (Datastore.constant 5 32 false) (var x) (const 5 32) refl x_expression (constant_expression 5)

-- A store without constraints on the same variables.
abbrev unconstrained : Store
unconstrained = record two_variables { path_condition = []; definitions = [] }

abbrev truth_values : Z3
truth_values = record words { both = λ a b. if a == 0 then 0 else b }

-- A solver that knows the values of all variables.
abbrev evaluating : Solver words
evaluating = record {
  is_const = λ e. false;
  is_decl_true = λ e. false;
  is_decl_false = λ e. false;
  check = λ e. if e == 0 then unsat else sat;
  forall_const = λ vars e. e;
  q3b_simplify = λ e. e;
}

subseteq_unconstrained_example : subseteq words evaluating two_variables unconstrained ≡ none
unfolding definitions_eq conditions_eq compare_segments build_item variable_depends_on
    any_depends_on version depends_on def_depends_on item_depends_on ident_lt
subseteq_unconstrained_example =
    subseteq_unconstrained words evaluating two_variables unconstrained (x, x) ((y, y) ∷ []) refl
      refl refl refl

abbrev truth_solver : Solver truth_values
truth_solver = record {
  is_const = λ e. false;
  is_decl_true = λ e. false;
  is_decl_false = λ e. false;
  check = λ e. if e == 0 then unsat else sat;
  forall_const = λ vars e. e;
  q3b_simplify = λ e. e;
}

-- The valuation of `words` does not satisfy the definition of the first variable.
declared_empty : empty truth_values truth_solver two_variables ≡ some true
unfolding empty and_definitions and_conditions solve_query tri_state to_formula build_identifier
    join_binary toz3 sane rpn2z3 item2z3 operator2z3 binary_expr is_unary_op
declared_empty = refl

abbrev is_not_zero : ℕ → Bool
is_not_zero e = not (e == 0)

both_not_zero : (a b : ℕ) → is_not_zero (truth_values.both a b) ≡ (is_not_zero a && is_not_zero b)
both_not_zero a b = ground arith

empty-refutes_example : ¬ (
    All (IsTrue truth_values truth_solver is_not_zero refl both_not_zero) (below_9 ∷ [])
    × All (IsTrueDef truth_values truth_solver is_not_zero refl both_not_zero) (x_is ∷ []))
empty-refutes_example =
    empty-refutes truth_values truth_solver is_not_zero refl both_not_zero two_variables
      (λ e h. ground arith) (λ e h. cc) (λ e. refl) declared_empty
