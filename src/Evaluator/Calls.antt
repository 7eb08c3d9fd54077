-- ===== src/Evaluator/Calls.antt =====
-- `do_call` of src/llvmsym/evaluator.h: the built-in functions and the calls of defined ones. A handler is
-- given the state before the step, which every `yield` puts back, and the state that it works on, and
-- gives its yields in order and the state that is left where it yields nothing.
use sym_divine.Base.{
  ℕ, zero, suc, ◌+◌, ◌-◌, Bool, true, false, not, Option, none, some, List, [], ◌∷◌, ◌==◌,
  if◌then◌else◌, length, get_elem?, ◌>>=◌, ◌>>◌, ensure, ◌^◌, ◌%◌,
}
use sym_divine.Datastore
use sym_divine.Datastore.{Value, Comparison}
use sym_divine.Control
use sym_divine.Control.{Control, Pc, pc_zero}
use sym_divine.ExplicitStore
use sym_divine.ExplicitStore.{ValueStore, Pointer}
use sym_divine.Stores.{DataStore}
use sym_divine.Evaluator.{
  Operand, operand_bw, Callee, declared, defined, Program, State, is_multival, layout_deref, deref,
}
use sym_divine.Evaluator.Frames.{enter_function, start_thread}
use sym_divine.Evaluator.Values.{
  Yield, symbolically, mark, store_explicit, pointee, constant_value, copy_value, prune_in,
  is_empty_in,
}
use sym_divine.Evaluator.Names.{
  is_atomic_function, Builtin, builtin_of, ignored_call, input_call, assume_call, create_call,
  join_call, exit_call, thread_exit_call, assert_call, error_call, lock_call, unlock_call,
  atomic_begin_call, atomic_end_call, debug_call, unknown_call,
}

-- The yields of a handler, and the state that is left.
abbrev pub Outcome {ℓ} : Type ℓ → Type ℓ
Outcome D = List (Yield D) × State D

-- A handler that ends with its only `yield( observable, is_empty, true )`.
unfoldable pub once {ℓ} : {D : Type ℓ} → Bool → Bool → State D → Option (Outcome D)
once observable is_empty t =
    some
      (record { is_observable = observable; is_empty = is_empty; last = true; state = t } ∷ [], t)

-- `!amILonelyThread()`
abbrev pub in_company {ℓ} : {D : Type ℓ} → State D → Bool
in_company s = not (Control.thread_count s.control == 1)

-- `while ( threadCount() ) leave( 0 )`; each round pops one frame, so that the number of frames is enough.
unfoldable pub leave_all : ℕ → Control → Option Control
leave_all zero c = if Control.thread_count c == 0 then some c else none
leave_all (suc n) c =
    if Control.thread_count c == 0 then some c else Control.leave c 0 >>= λ r. leave_all n r.0

abbrev pub frames : List (List Pc) → ℕ
frames [] = 0
frames (stack ∷ context) = length stack + frames context

-- `while ( !leave( tid ) )`, with the number of the thread's frames as fuel.
unfoldable pub leave_thread : ℕ → Control → ℕ → Option Control
leave_thread zero c tid = none
leave_thread (suc n) c tid =
    Control.leave c tid >>= λ r. if r.1 then some r.0 else leave_thread n r.0 tid

-- What a test of an argument against zero compares it with.
abbrev pub zero_of : Operand → Value
zero_of v = Datastore.constant 0 (operand_bw v) false

abbrev pub advanced {ℓ} : {D : Type ℓ} → State D → ℕ → Option (State D)
advanced s tid = do control ← Control.advance s.control tid; some (record s { control = control })

abbrev pub stepped_back {ℓ} : {D : Type ℓ} → State D → ℕ → Option (State D)
stepped_back s tid = do
  control ← Control.step_back s.control tid
  some (record s { control = control })

unfoldable pub set_cell {ℓ} : {D : Type ℓ} → State D → Value → ℕ → ℕ → Option (State D)
unfolding mark store_explicit
set_cell s to value bw = do
  marked ← mark s to false
  store_explicit marked to (Datastore.constant value bw false)

abbrev pub with_control {ℓ} : {D : Type ℓ} → State D → Control → State D
with_control s control = record s { control = control }

module _ {ℓ} {D : Type ℓ} (smt : DataStore D) (program : Program) where
  -- The destination of a pointer argument: a constant word.
  abbrev pub target_of : State D → Operand → ℕ → Option Value
  target_of s v tid = do
    val ← deref program s v tid
    word ← constant_value val
    some (pointee word false)

  -- The argument of a new thread.
  unfoldable pub pass_argument : State D → List Operand → Operand → ℕ → Option (State D)
  unfolding copy_value
  pass_argument s [] v tid = some s
  pass_argument s (parameter ∷ parameters) v tid = do
    argument ← layout_deref program s v tid false
    to ← layout_deref program s parameter (Control.thread_count s.control - 1) false
    copy_value smt s to argument

  unfoldable pub do_pthread_create : State D → Callee → Operand → Operand → ℕ → Option (State D)
  unfolding start_thread pass_argument
  do_pthread_create s (declared name) thread_id v tid = none
  do_pthread_create s (defined number direct) thread_id v tid = do
    (started, new_tid) ← start_thread smt program s number
    to ← target_of started thread_id tid
    written ← set_cell started to new_tid (operand_bw thread_id)
    f ← get_elem? program.functions number
    pass_argument written f.arguments v tid

  -- Whether the mutex was taken, with the state.
  unfoldable pub do_mutex_lock : State D → Operand → ℕ → Option (State D × Bool)
  do_mutex_lock s mutex_id tid = do
    to ← target_of s mutex_id tid
    taken ← ExplicitStore.get s.explicit_data to
    elim (taken == 0) [
      | false ↦ some (s, false)
      | true ↦ set_cell s to 1 (operand_bw mutex_id) >>= λ t. some (t, true)
    ]

  unfoldable pub do_mutex_unlock : State D → Operand → ℕ → Option (State D)
  do_mutex_unlock s mutex_id tid = do
    to ← target_of s mutex_id tid
    set_cell s to 0 (operand_bw mutex_id)

  -- `prune` of a condition against zero, and whether nothing is left.
  unfoldable pub assume : State D → Operand → ℕ → Comparison → Option (State D × Bool)
  unfolding prune_in is_empty_in
  assume s v tid op = do
    cond ← layout_deref program s v tid false
    multival ← is_multival s.layout cond
    pruned ← prune_in smt s multival cond (zero_of v) op
    nothing ← is_empty_in smt pruned multival
    some (pruned, nothing)

  -- The functions without a body, after `control.advance( tid )`; `create` is the function of a new thread.
  unfoldable pub do_builtin :
      Builtin → State D → State D → Operand → ℕ → Option Callee → List Operand → Option (Outcome D)
  unfolding once leave_all leave_thread do_pthread_create do_mutex_lock do_mutex_unlock assume
      symbolically mark
  do_builtin ignored_call s0 s result tid create args = once false false s
  do_builtin input_call s0 s result tid create args = do
    to ← layout_deref program s result tid false
    marked ← mark s to true
    t ← symbolically marked (smt.implement_input marked.symbolic to (operand_bw result))
    once false false t
  do_builtin assume_call s0 s result tid create args = do
    v ← get_elem? args 0
    (t, nothing) ← assume s v tid Datastore.ne
    once false nothing t
  do_builtin create_call s0 s result tid create args = do
    callee ← create
    thread_id ← get_elem? args 0
    argument ← get_elem? args 3
    t ← do_pthread_create s callee thread_id argument tid
    once true false t
  do_builtin join_call s0 s result tid create args = do
    v ← get_elem? args 0
    val ← deref program s v tid
    joined ← constant_value val
    t ← elim (Control.has_tid s.control (joined % 2 ^ 32)) [
      | true ↦ stepped_back s tid
      | false ↦ some s
    ]
    once (in_company t) false t
  do_builtin exit_call s0 s result tid create args = do
    control ← leave_all (frames s.control.context) s.control
    once true false (with_control s control)
  do_builtin thread_exit_call s0 s result tid create args = do
    stack ← get_elem? s.control.context tid
    control ← leave_thread (length stack) s.control tid
    once true false (with_control s control)
  do_builtin assert_call s0 s result tid create args = do
    v ← get_elem? args 0
    (t, nothing) ← assume s v tid Datastore.ne
    (u, impossible) ← assume s0 v tid Datastore.eq
    let failed : State D = record u { error = true }
    some (
      record { is_observable = false; is_empty = nothing; last = false; state = t }
          ∷ record { is_observable = true; is_empty = impossible; last = true; state = failed }
          ∷ [],
      failed,
    )
  do_builtin error_call s0 s result tid create args = do
    nothing ← smt.empty s.symbolic
    once true nothing (record s { error = true })
  do_builtin lock_call s0 s result tid create args = do
    v ← get_elem? args 0
    (t, locked) ← do_mutex_lock s v tid
    u ← elim locked [ true ↦ some t | false ↦ stepped_back t tid ]
    once (in_company u) false u
  do_builtin unlock_call s0 s result tid create args = do
    v ← get_elem? args 0
    t ← do_mutex_unlock s v tid
    once (in_company t) false t
  do_builtin atomic_begin_call s0 s result tid create args = do
    control ← Control.enter_atomic_section s.control tid
    once (in_company s) false (with_control s control)
  do_builtin atomic_end_call s0 s result tid create args = do
    control ← Control.leave_atomic_section s.control tid
    once (in_company s) false (with_control s control)
  do_builtin debug_call s0 s result tid create args = some ([], s)
  do_builtin unknown_call s0 s result tid create args = none

  abbrev pub deref_all : State D → List Operand → ℕ → Option (List Value)
  deref_all s [] tid = some []
  deref_all s (v ∷ vs) tid = do
    val ← deref program s v tid
    vals ← deref_all s vs tid
    some (val ∷ vals)

  -- The loop that copies the arguments into the frame of the called function.
  unfoldable pub pass_arguments : State D → List Operand → List Value → ℕ → Option (State D)
  unfolding copy_value
  pass_arguments s parameters [] tid = some s
  pass_arguments s [] (what ∷ params) tid = none
  pass_arguments s (parameter ∷ parameters) (what ∷ params) tid = do
    to ← layout_deref program s parameter tid false
    t ← copy_value smt s to what
    pass_arguments t parameters params tid

  abbrev pub enter_if_atomic : State D → Bool → ℕ → Option (State D)
  enter_if_atomic s false tid = some s
  enter_if_atomic s true tid = do
    control ← Control.enter_atomic_section s.control tid
    some (with_control s control)

  -- `do_call`. A defined function that is called through a cast is not found in `functionmap`.
  unfoldable pub do_call :
      State D → State D → Operand → ℕ → Callee → Option Callee → List Operand → Option (Outcome D)
  unfolding do_builtin enter_function pass_arguments once is_atomic_function builtin_of
  do_call s0 s result tid (declared name) create args = do
    advanced_state ← advanced s tid
    do_builtin (builtin_of name) s0 advanced_state result tid create args
  do_call s0 s result tid (defined number direct) create args = do
    advanced_state ← advanced s tid
    ensure direct
    f ← get_elem? program.functions number
    let atomic = is_atomic_function f.name
    entered ← enter_if_atomic advanced_state atomic tid
    params ← deref_all entered args tid
    framed ← enter_function smt program entered number tid
    t ← pass_arguments framed f.arguments params tid
    once atomic false t
