-- ===== src/Stores.antt =====
-- The interface `DataStore` of src/llvmsym/datastore.h, by which the evaluator changes either store, and its
-- two implementations `ExplicitStore` and `SMTStore`. `none` is a failed `assert` or an access out of bounds.

pub mod Laws
use sym_divine.Base.{ℕ, Bool, Option, none, some, List}
use sym_divine.Datastore.{Value, Comparison}
use sym_divine.Smt.{Z3}
use sym_divine.ExplicitStore
use sym_divine.ExplicitStore.{ValueStore}
use sym_divine.BaseSmtStore
use sym_divine.BaseSmtStore.{
  BinaryOp, add, mult, sub, quotient, urem_, srem_, and_, or_, xor_, left_shift, right_shift,
}
use sym_divine.SmtStore
use sym_divine.SmtStore.{Store, Simplifier}
use sym_divine.SmtStore.Queries
use sym_divine.SmtStore.Queries.{Solver}

-- The virtual methods that the evaluator calls.
pub record DataStore {ℓ} (S : Type ℓ) : Type ℓ where
  pub implement_binary : BinaryOp → S → Value → Value → Value → Option S
  pub implement_zext : S → Value → Value → ℕ → Option S
  pub implement_sext : S → Value → Value → ℕ → Option S
  pub implement_trunc : S → Value → Value → ℕ → Option S
  pub implement_store : S → Value → Value → Option S
  pub implement_inttoptr : S → Value → Value → Option S
  pub implement_ptrtoint : S → Value → Value → Option S
  pub prune : S → Value → Value → Comparison → Option S
  pub implement_input : S → Value → ℕ → Option S
  pub empty : S → Option Bool
  pub add_segment : S → ℕ → List ℕ → Option S
  pub erase_segment : S → ℕ → Option S
  pub clear : S → S

-- `ExplicitStore`: the casts store the cell of the operand as it is.
unfoldable pub explicit_binary : BinaryOp → ValueStore → Value → Value → Value → Option ValueStore
explicit_binary add = ExplicitStore.implement_add
explicit_binary mult = ExplicitStore.implement_mult
explicit_binary sub = ExplicitStore.implement_sub
explicit_binary quotient = ExplicitStore.implement_div
explicit_binary urem_ = ExplicitStore.implement_urem
explicit_binary srem_ = ExplicitStore.implement_srem
explicit_binary and_ = ExplicitStore.implement_and
explicit_binary or_ = ExplicitStore.implement_or
explicit_binary xor_ = ExplicitStore.implement_xor
explicit_binary left_shift = ExplicitStore.implement_left_shift
explicit_binary right_shift = ExplicitStore.implement_right_shift

abbrev pub explicit_store : DataStore ValueStore
explicit_store = record {
  implement_binary = explicit_binary;
  implement_zext = λ s result a bw. ExplicitStore.implement_store s result a;
  implement_sext = λ s result a bw. ExplicitStore.implement_store s result a;
  implement_trunc = λ s result a bw. ExplicitStore.implement_store s result a;
  implement_store = ExplicitStore.implement_store;
  implement_inttoptr = ExplicitStore.implement_store;
  implement_ptrtoint = ExplicitStore.implement_store;
  prune = ExplicitStore.prune;
  implement_input = λ s input_variable bw. none;
  empty = λ s. some s.empty;
  add_segment = ExplicitStore.add_segment;
  erase_segment = ExplicitStore.erase_segment;
  clear = ExplicitStore.clear;
}

-- `SMTStore`, with the fuel of `removeDefinitions`, the simplifier and the solver.
module _ (z : Z3) (solver : Solver z) (n : ℕ) (c : Simplifier) where
  abbrev pub smt_store : DataStore Store
  smt_store = record {
    implement_binary = BaseSmtStore.implement_binary (SmtStore.methods n c);
    implement_zext = BaseSmtStore.implement_zext (SmtStore.methods n c);
    implement_sext = BaseSmtStore.implement_sext (SmtStore.methods n c);
    implement_trunc = BaseSmtStore.implement_trunc (SmtStore.methods n c);
    implement_store = BaseSmtStore.implement_store (SmtStore.methods n c);
    implement_inttoptr = BaseSmtStore.implement_store (SmtStore.methods n c);
    implement_ptrtoint = BaseSmtStore.implement_store (SmtStore.methods n c);
    prune = BaseSmtStore.prune (SmtStore.methods n c);
    implement_input =
        λ s input_variable bw. BaseSmtStore.implement_input (SmtStore.methods n c) s input_variable;
    empty = Queries.empty z solver;
    add_segment = λ s id widths. some (SmtStore.add_segment s id widths);
    erase_segment = SmtStore.erase_segment n c;
    clear = SmtStore.clear;
  }
