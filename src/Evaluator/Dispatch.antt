-- ===== src/Evaluator/Dispatch.antt =====
-- The dispatcher of src/llvmsym/instructiondispatch.h, and the step of one thread in src/llvmsym/evaluator.h.
use sym_divine.Base.{
  ℕ, Bool, true, false, Option, none, some, List, [], ◌∷◌, ltb, length, set, ◌>>=◌, ◌>>◌, ensure,
}
use sym_divine.Control
use sym_divine.Control.{Control, Pc, pc_zero}
use sym_divine.Stores.{DataStore}
use sym_divine.Evaluator.{
  Operand, Operation, Instruction, Program, State, fetch_pc, icmp, phi, cast, branch, conditional,
  switch, call, ret, load, store, alloca, binary, gep, bitcast, unreachable, select, ptrtoint,
  inttoptr, unknown,
}
use sym_divine.Evaluator.Values.{Yield}
use sym_divine.Evaluator.Memory.{
  do_alloca, do_gep, do_load, do_store, do_phi, do_cast, do_binary, do_ite, do_ptrtoint,
  do_inttoptr,
}
use sym_divine.Evaluator.Calls.{Outcome, once, do_call}
use sym_divine.Evaluator.Branches.{
  do_icmp, do_break, do_conditional, do_switch, do_return, yield_first,
}

abbrev pub is_phi : Operation → Bool
is_phi (phi incoming) = true
is_phi o = false

-- The instructions after which the counter of the thread stays: terminators and calls.
abbrev pub keeps_pc : Operation → Bool
keeps_pc (branch t) = true
keeps_pc (conditional v t u) = true
keeps_pc (switch v cases t) = true
keeps_pc (ret v) = true
keeps_pc (call callee create args) = true
keeps_pc unreachable = true
keeps_pc o = false

-- `yield( false, false, false )`: the yield is not marked as the last.
unfoldable pub once_more {ℓ} : {D : Type ℓ} → State D → Option (Outcome D)
once_more t = some (yield_first false false t ∷ [], t)

module _ {ℓ} {D : Type ℓ} (smt : DataStore D) (program : Program) where
  unfoldable pub dispatch : State D → State D → Operand → ℕ → Operation → Option (Outcome D)
  unfolding once once_more do_alloca do_gep do_load do_store do_phi do_cast do_binary do_ite
      do_ptrtoint do_inttoptr do_call do_icmp do_break do_conditional do_switch do_return
  dispatch s0 s result tid (icmp op x y) = do_icmp smt program s0 s result tid op x y
  dispatch s0 s result tid (phi incoming) = do
    t ← do_phi smt program s result tid incoming
    once false false t
  dispatch s0 s result tid (cast kind v bw) = do
    t ← do_cast smt program s result tid kind v bw
    once false false t
  dispatch s0 s result tid (branch target) = do_break smt program s tid target
  dispatch s0 s result tid (conditional v t u) = do_conditional smt program s0 s tid v t u
  dispatch s0 s result tid (switch v cases target) = do_switch smt program s0 s tid v cases target
  dispatch s0 s result tid (call callee create args) =
      do_call smt program s0 s result tid callee create args
  dispatch s0 s result tid (ret v) = do_return smt program s tid v
  dispatch s0 s result tid (load v) = do t ← do_load smt program s result tid v; once true false t
  dispatch s0 s result tid (store v to) = do t ← do_store smt program s tid v to; once true false t
  dispatch s0 s result tid (alloca size allocated) = do
    t ← do_alloca smt program s result tid size allocated
    once false false t
  dispatch s0 s result tid (binary op x y) = do
    t ← do_binary smt program s result tid op x y
    once false false t
  dispatch s0 s result tid (gep v type indices) = do
    t ← do_gep smt program s result tid v type indices
    once false false t
  dispatch s0 s result tid bitcast = once false false s
  dispatch s0 s result tid unreachable = once false false s
  dispatch s0 s result tid (select c v w) = do
    t ← do_ite smt program s result tid c v w
    once false false t
  dispatch s0 s result tid (ptrtoint v) = do t ← do_ptrtoint smt program s result tid v; once_more t
  dispatch s0 s result tid (inttoptr v) = do t ← do_inttoptr smt program s result tid v; once_more t
  dispatch s0 s result tid unknown = none

  -- A constant expression, which changes the state in place; one that yields would end in the `assert` of
  -- the next `yield`.
  unfoldable pub evaluate : State D → Operand → ℕ → Operation → Option (State D)
  unfolding do_binary do_gep do_ptrtoint do_inttoptr
  evaluate s result tid (binary op x y) = do_binary smt program s result tid op x y
  evaluate s result tid (gep v type indices) = do_gep smt program s result tid v type indices
  evaluate s result tid bitcast = some s
  evaluate s result tid (ptrtoint v) = do_ptrtoint smt program s result tid v
  evaluate s result tid (inttoptr v) = do_inttoptr smt program s result tid v
  evaluate s result tid o = none

  unfoldable pub evaluate_all : State D → ℕ → List (Operand × Operation) → Option (State D)
  unfolding evaluate
  evaluate_all s tid [] = some s
  evaluate_all s tid ((result, o) ∷ rest) = do t ← evaluate s result tid o; evaluate_all t tid rest

  -- `Dispatcher::execute`
  unfoldable pub execute : State D → State D → ℕ → Instruction → Option (Outcome D)
  unfolding evaluate_all dispatch
  execute s0 s tid i = do
    t ← evaluate_all s tid i.expressions
    dispatch s0 t i.result tid i.operation

  -- `previous_bb[ tid ] = PC()`, unless the instruction is a phi.
  unfoldable pub forget_block : State D → ℕ → Bool → Option (State D)
  forget_block s tid true = some s
  forget_block s tid false = do
    ensure (ltb tid (length s.control.previous_bb))
    let control : Control = record s.control { previous_bb = set s.control.previous_bb tid pc_zero }
    some (record s { control = control })

  -- The effect before each `yield`.
  unfoldable pub effect_all : ℕ → List (Yield D) → Option (List (Yield D))
  effect_all tid [] = some []
  effect_all tid (y ∷ ys) = do
    control ← Control.advance y.state.control tid
    let t : State D = record y.state { control = control }
    rest ← effect_all tid ys
    some (record y { state = t } ∷ rest)

  abbrev pub with_effect : ℕ → Bool → List (Yield D) → Option (List (Yield D))
  unfolding effect_all
  with_effect tid true ys = some ys
  with_effect tid false ys = effect_all tid ys

  -- `advance( yield, tid )`: a state with an error has no successor.
  unfoldable pub step : State D → ℕ → Bool → Option (Outcome D)
  unfolding execute forget_block effect_all fetch_pc
  step s tid true = some ([], s)
  step s tid false = do
    pc ← Control.get_pc s.control tid
    i ← fetch_pc program pc
    t ← forget_block s tid (is_phi i.operation)
    (yields, left) ← execute s t tid i
    done ← with_effect tid (keeps_pc i.operation) yields
    some (done, left)
