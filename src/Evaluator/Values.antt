-- ===== src/Evaluator/Values.antt =====
-- How the handlers of src/llvmsym/evaluator.h write a value: into the store that its flag chooses.
use sym_divine.Base.{ℕ, Bool, true, false, ◌||◌, Option, none, some, ◌>>=◌}
use sym_divine.Datastore
use sym_divine.Datastore.{Value, Comparison}
use sym_divine.ExplicitStore
use sym_divine.ExplicitStore.{ValueStore, Pointer}
use sym_divine.Stores.{DataStore, explicit_store}
use sym_divine.BaseSmtStore.{BinaryOp}
use sym_divine.Evaluator.{Cast, zext, sext, trunc, State, is_multival, set_multival}

-- A `yield`: whether the state is observable, whether it is empty, whether it is the last, and the state.
pub record Yield {ℓ} (D : Type ℓ) : Type ℓ where
  pub is_observable : Bool
  pub is_empty : Bool
  pub last : Bool
  pub state : State D

-- The handlers' ways to change one part of the state.
unfoldable pub explicitly {ℓ} : {D : Type ℓ} → State D → Option ValueStore → Option (State D)
explicitly s changed = do explicit ← changed; some (record s { explicit_data = explicit })

unfoldable pub symbolically {ℓ} : {D : Type ℓ} → State D → Option D → Option (State D)
symbolically s changed = do symbolic ← changed; some (record s { symbolic = symbolic })

-- `state.layout.setMultival( result, multival )`
unfoldable pub mark {ℓ} : {D : Type ℓ} → State D → Value → Bool → Option (State D)
mark s result multival = do
  layout ← set_multival s.layout result multival
  some (record s { layout = layout })

unfoldable pub store_explicit {ℓ} : {D : Type ℓ} → State D → Value → Value → Option (State D)
unfolding explicitly
store_explicit s result what =
    explicitly s (ExplicitStore.implement_store s.explicit_data result what)

-- `deref( ptr )`, and the variable that an `ExplicitStore::Pointer` names: the word of a pointer.
unfoldable pub pointee : ℕ → Bool → Value
pointee word is_ptr =
    let p = ExplicitStore.to_pointer word in Datastore.variable p.segment p.offset is_ptr

abbrev pub constant_value : Value → Option ℕ
constant_value (Datastore.constant value bw pointer) = some value
constant_value (Datastore.variable segment offset pointer) = none

-- The `switch` of `do_cast`, over a store.
abbrev pub cast_by {κ} : {S : Type κ} → DataStore S → Cast → S → Value → Value → ℕ → Option S
cast_by store zext = store.implement_zext
cast_by store sext = store.implement_sext
cast_by store trunc = store.implement_trunc

module _ {ℓ} {D : Type ℓ} (smt : DataStore D) where
  unfoldable pub store_symbolic : State D → Value → Value → Option (State D)
  unfolding symbolically
  store_symbolic s result what = symbolically s (smt.implement_store s.symbolic result what)

  -- `implement_store` into the symbolic store of a symbolic value, and into both of an explicit one.
  unfoldable pub store_by : State D → Value → Value → Bool → Option (State D)
  unfolding store_symbolic store_explicit
  store_by s result what true = store_symbolic s result what
  store_by s result what false = do t ← store_explicit s result what; store_symbolic t result what

  -- The lines that calls, loads, stores, phis and returns share: the flag of the result is that of the
  -- value, and the value is stored.
  unfoldable pub copy_value : State D → Value → Value → Option (State D)
  unfolding mark store_by
  copy_value s result what = do
    multival ← is_multival s.layout what
    marked ← mark s result multival
    again ← is_multival marked.layout what
    store_by marked result what again

  -- `store->prune( a, b, op )` and `store->empty()` for the store that the flag chooses.
  unfoldable pub prune_in : State D → Bool → Value → Value → Comparison → Option (State D)
  unfolding explicitly symbolically
  prune_in s true a b op = symbolically s (smt.prune s.symbolic a b op)
  prune_in s false a b op = explicitly s (ExplicitStore.prune s.explicit_data a b op)

  unfoldable pub is_empty_in : State D → Bool → Option Bool
  is_empty_in s true = smt.empty s.symbolic
  is_empty_in s false = some s.explicit_data.empty

  unfoldable pub cast_in : State D → Bool → Cast → Value → Value → ℕ → Option (State D)
  unfolding explicitly symbolically
  cast_in s true kind result a bw = symbolically s (cast_by smt kind s.symbolic result a bw)
  cast_in s false kind result a bw =
      explicitly s (cast_by explicit_store kind s.explicit_data result a bw)

  -- `do_binary_arithmetic_op`: FAdd is among the operations that it aborts for.
  unfoldable pub binary_in :
      State D → Bool → Option BinaryOp → Value → Value → Value → Option (State D)
  unfolding explicitly symbolically mark
  binary_in s multival none result a b = none
  binary_in s multival (some op) result a b = do
    a_is_multival ← is_multival s.layout a
    b_is_multival ← is_multival s.layout b
    marked ← mark s result (a_is_multival || b_is_multival)
    elim multival [
      | true ↦ symbolically marked (smt.implement_binary op marked.symbolic result a b)
      | false ↦
          explicitly marked (explicit_store.implement_binary op marked.explicit_data result a b)
    ]
