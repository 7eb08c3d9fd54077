-- ===== src/Evaluator/Branches.antt =====
-- The handlers of src/llvmsym/evaluator.h that choose a successor: comparisons, jumps and returns. Each `yield`
-- but the last puts the state before the step back, which is the first argument.
use sym_divine.Base.{
  ℕ, ◌+◌, ◌%◌, Bool, true, false, ◌||◌, Option, none, some, List, [], ◌∷◌, ◌++◌, ◌==◌,
  if◌then◌else◌, get_elem?, ◌>>=◌, ◌>>◌, ensure,
}
use sym_divine.Datastore
use sym_divine.Datastore.{Value, Comparison}
use sym_divine.Control
use sym_divine.Control.{Control, Pc, pc_zero}
use sym_divine.ExplicitStore
use sym_divine.ExplicitStore.{ValueStore, Pointer}
use sym_divine.Stores.{DataStore}
use sym_divine.Evaluator.{
  Operand, operand_bw, is_undefined, Target, Program, State, is_multival, layout_deref, deref,
  get_bb, fetch_pc,
}
use sym_divine.Evaluator.Frames.{jump_to, switch_to, leave}
use sym_divine.Evaluator.Values.{
  Yield, mark, store_explicit, store_symbolic, copy_value, prune_in, is_empty_in,
}
use sym_divine.Evaluator.Names.{is_atomic_function}
use sym_divine.Evaluator.Calls.{Outcome, once, with_control}

abbrev pub yield_first {ℓ} : {D : Type ℓ} → Bool → Bool → State D → Yield D
yield_first observable is_empty t = record {
  is_observable = observable;
  is_empty = is_empty;
  last = false;
  state = t;
}

abbrev pub yield_last {ℓ} : {D : Type ℓ} → Bool → Bool → State D → Yield D
yield_last observable is_empty t = record {
  is_observable = observable;
  is_empty = is_empty;
  last = true;
  state = t;
}

module _ {ℓ} {D : Type ℓ} (smt : DataStore D) (program : Program) where
  -- One outcome of a comparison: the condition is assumed, and the result is 1 or 0 in both stores.
  unfoldable pub compared :
      State D → Bool → Value → Value → Comparison → Value → ℕ → ℕ → Option (State D × Bool)
  unfolding prune_in is_empty_in mark store_explicit store_symbolic
  compared s multival a b op result outcome result_bw = do
    pruned ← prune_in smt s multival a b op
    marked ← mark pruned result false
    t ← store_explicit marked result (Datastore.constant outcome result_bw false)
    u ← store_symbolic smt t result (Datastore.constant outcome result_bw false)
    stored ← ExplicitStore.get u.explicit_data result
    ensure (stored == outcome)
    nothing ← is_empty_in smt u multival
    some (u, nothing)

  unfoldable pub do_icmp :
      State D → State D → Operand → ℕ → Comparison → Operand → Operand → Option (Outcome D)
  unfolding compared
  do_icmp s0 s result tid op x y = do
    a ← deref program s x tid
    b ← deref program s y tid
    a_is_multival ← is_multival s.layout a
    b_is_multival ← is_multival s.layout b
    to ← layout_deref program s result tid false
    ensure (operand_bw result == 1)
    (t, nothing) ← compared s (a_is_multival || b_is_multival) a b op to 1 1
    (u, impossible) ←
        compared s0 (a_is_multival || b_is_multival) a b (Datastore.icmp_negate op) to 0 1
    some (yield_first false nothing t ∷ yield_last false impossible u ∷ [], u)

  -- One branch of a conditional jump.
  unfoldable pub taken : State D → ℕ → Operand → ℕ → Target → Option (State D × Bool)
  unfolding jump_to prune_in is_empty_in
  taken s tid condition outcome target = do
    cond ← deref program s condition tid
    jumped ← jump_to program s target tid
    multival ← is_multival jumped.layout cond
    pruned ← prune_in smt jumped multival cond (Datastore.constant outcome 1 false) Datastore.eq
    nothing ← is_empty_in smt pruned multival
    some (pruned, nothing)

  unfoldable pub do_break : State D → ℕ → Target → Option (Outcome D)
  unfolding jump_to once
  do_break s tid target = do t ← jump_to program s target tid; once target.backward false t

  unfoldable pub do_conditional :
      State D → State D → ℕ → Operand → Target → Target → Option (Outcome D)
  unfolding taken
  do_conditional s0 s tid condition first second = do
    (t, nothing) ← taken s tid condition 1 first
    (u, impossible) ← taken s0 tid condition 0 second
    some (yield_first first.backward nothing t ∷ yield_last second.backward impossible u ∷ [], u)

  -- The loop over the cases: only the first of them stands in the state before the `yield`s.
  unfoldable pub do_cases :
      State D
      → State D
      → ℕ
      → Bool
      → Value
      → List (Operand × Target)
      → Option (List (Yield D) × State D)
  unfolding prune_in is_empty_in jump_to
  do_cases s0 s tid multival condition [] = some ([], s)
  do_cases s0 s tid multival condition ((v, target) ∷ cases) = do
    val ← deref program s v tid
    pruned ← prune_in smt s multival condition val Datastore.eq
    t ← jump_to program pruned target tid
    nothing ← is_empty_in smt t multival
    (yields, left) ← do_cases s0 s0 tid multival condition cases
    some (yield_first target.backward nothing t ∷ yields, left)

  -- The default: no case applies.
  unfoldable pub exclude : State D → ℕ → Bool → Value → List (Operand × Target) → Option (State D)
  unfolding prune_in
  exclude s tid multival condition [] = some s
  exclude s tid multival condition ((v, target) ∷ cases) = do
    val ← deref program s v tid
    pruned ← prune_in smt s multival condition val Datastore.ne
    exclude pruned tid multival condition cases

  unfoldable pub do_switch :
      State D → State D → ℕ → Operand → List (Operand × Target) → Target → Option (Outcome D)
  unfolding do_cases exclude jump_to is_empty_in
  do_switch s0 s tid v cases target = do
    condition ← deref program s v tid
    multival ← is_multival s.layout condition
    (yields, left) ← do_cases s0 s tid multival condition cases
    excluded ← exclude left tid multival condition cases
    t ← jump_to program excluded target tid
    nothing ← is_empty_in smt t multival
    some (yields ++ yield_last target.backward nothing t ∷ [], t)

  -- The instruction before the caller's: the call.
  abbrev pub call_pc : Pc → Pc
  call_pc pc = record pc { instruction = (pc.instruction + 65535) % 65536 }

  -- A value is returned into the caller's frame, as long as this one stands above it.
  unfoldable pub return_value : State D → ℕ → Operand → Option (State D)
  unfolding switch_to copy_value
  return_value s tid returned = do
    prev_pc ← Control.get_prev_pc s.control tid
    (block, frame) ← get_bb program (call_pc prev_pc)
    what ← deref program s returned tid
    switched ← switch_to program s (call_pc prev_pc) tid
    call_instruction ← fetch_pc program (call_pc prev_pc)
    to ← layout_deref program switched call_instruction.result tid true
    copy_value smt switched to what

  -- What `do_return` returns: nothing from the last frame, without a value, or for an undefined one.
  abbrev pub returned_value : Bool → Option Operand → Option Operand
  returned_value true v = none
  returned_value false none = none
  returned_value false (some v) = if is_undefined v then none else some v

  unfoldable pub leave_with : State D → ℕ → Option Operand → Option (State D)
  unfolding return_value leave
  leave_with s tid none = leave smt program s tid
  leave_with s tid (some v) = do t ← return_value s tid v; leave smt program t tid

  abbrev pub leave_if_atomic : State D → Bool → ℕ → Option (State D)
  leave_if_atomic s false tid = some s
  leave_if_atomic s true tid = do
    control ← Control.leave_atomic_section s.control tid
    some (with_control s control)

  unfoldable pub do_return : State D → ℕ → Option Operand → Option (Outcome D)
  unfolding leave_with once is_atomic_function
  do_return s tid v = do
    pc ← Control.get_pc s.control tid
    f ← get_elem? program.functions pc.function
    s' ← leave_if_atomic s (is_atomic_function f.name) tid
    last ← Control.last s'.control tid
    t ← leave_with s' tid (returned_value last v)
    once true false t
