-- ===== src/Evaluator/Returns.antt =====
-- `do_switch` and `do_return` of src/llvmsym/evaluator.h keep the tables of the state together.
use sym_divine.Base.{
  ℕ, Bool, true, false, Option, none, some, List, [], ◌∷◌, get_elem?, Whenever, each, stop,
  All-append,
}
use sym_divine.Datastore
use sym_divine.Datastore.{Value, Comparison}
use sym_divine.Control
use sym_divine.Control.{Control, Pc}
use sym_divine.Stores.{DataStore}
use sym_divine.Stores.Laws.{KeepsSegments}
use sym_divine.Evaluator
use sym_divine.Evaluator.{Operand, State, Target, Program, get_bb, fetch_pc}
use sym_divine.Evaluator.Frames
use sym_divine.Evaluator.Values
use sym_divine.Evaluator.Values.{Yield}
use sym_divine.Evaluator.Calls.{Outcome}
use sym_divine.Evaluator.Branches
use sym_divine.Evaluator.Branches.{call_pc}
use sym_divine.Evaluator.Names.{is_atomic_function}
use sym_divine.Evaluator.Aligned.{leave_atomic_section-SameStacks}
use sym_divine.Evaluator.Preserved.{
  IsAligned, Switched-IsAligned, switch_to-Switched, leave-IsAligned,
}
use sym_divine.Evaluator.Writes.{copy_value-IsAligned, prune_in-IsAligned, with_stacks}
use sym_divine.Evaluator.Jumps.{AllAligned, once-AllAligned, jump_to-IsAligned}

module _ {ℓ} {D : Type ℓ} (smt : DataStore D) (count : D → ℕ) (laws : KeepsSegments smt count)
    (program : Program) where
  abbrev Both : Outcome D → Type 0
  Both = AllAligned smt count laws program

  do_cases-AllAligned :
      (s0 s : State D) (tid : ℕ) (multival : Bool) (condition : Value)
      (cases : List (Operand × Target))
      → IsAligned count s0
      → IsAligned count s
      → Whenever (Branches.do_cases smt program s0 s tid multival condition cases) Both
  unfolding Branches.do_cases
  do_cases-AllAligned s0 s tid multival condition [] h0 h = stop Both _ (tt, h)
  do_cases-AllAligned s0 s tid multival condition ((v, target) ∷ cases) h0 h =
      each (Evaluator.deref program s v tid) _ λ val e.
        each (Values.prune_in smt s multival condition val Datastore.eq) _ λ pruned e1.
          each (Frames.jump_to program pruned target tid) _ λ t e2.
            each (Values.is_empty_in smt t multival) _ λ nothing e3.
              each (Branches.do_cases smt program s0 s0 tid multival condition cases) _ λ r e4.
                let rest = do_cases-AllAligned s0 s0 tid multival condition cases h0 h0 r e4 in
                let k =
                  prune_in-IsAligned smt count laws s multival condition val Datastore.eq h pruned
                    e1 in
                stop Both _ (
                  (jump_to-IsAligned smt count laws program pruned target tid k t e2, rest.0),
                  rest.1,
                )

  exclude-IsAligned :
      (s : State D) (tid : ℕ) (multival : Bool) (condition : Value)
      (cases : List (Operand × Target))
      → IsAligned count s
      → Whenever (Branches.exclude smt program s tid multival condition cases) (IsAligned count)
  unfolding Branches.exclude
  exclude-IsAligned s tid multival condition [] h = stop (IsAligned count) _ h
  exclude-IsAligned s tid multival condition ((v, target) ∷ cases) h =
      each (Evaluator.deref program s v tid) _ λ val e.
        each (Values.prune_in smt s multival condition val Datastore.ne) _ λ pruned e1.
          exclude-IsAligned pruned tid multival condition cases
            (prune_in-IsAligned smt count laws s multival condition val Datastore.ne h pruned e1)

  pub do_switch-AllAligned :
      (s0 s : State D) (tid : ℕ) (v : Operand) (cases : List (Operand × Target)) (target : Target)
      → IsAligned count s0
      → IsAligned count s
      → Whenever (Branches.do_switch smt program s0 s tid v cases target) Both
  unfolding Branches.do_switch
  do_switch-AllAligned s0 s tid v cases target h0 h =
      each (Evaluator.deref program s v tid) _ λ condition e.
        each (Evaluator.is_multival s.layout condition) _ λ multival e1.
          each (Branches.do_cases smt program s0 s tid multival condition cases) _ λ r e2.
            each (Branches.exclude smt program r.1 tid multival condition cases) _ λ excluded e3.
              each (Frames.jump_to program excluded target tid) _ λ t e4.
                each (Values.is_empty_in smt t multival) _ λ nothing e5.
                  let some_cases =
                    do_cases-AllAligned s0 s tid multival condition cases h0 h r e2 in
                  let k =
                    exclude-IsAligned r.1 tid multival condition cases some_cases.1 excluded e3 in
                  let last = jump_to-IsAligned smt count laws program excluded target tid k t e4 in
                  stop Both _
                    (All-append (λ y. IsAligned count y.state) r.0 _ some_cases.0 (last, tt), last)

  return_value-IsAligned :
      (s : State D) (tid : ℕ) (returned : Operand)
      → IsAligned count s
      → Whenever (Branches.return_value smt program s tid returned) (IsAligned count)
  unfolding Branches.return_value
  return_value-IsAligned s tid returned h = each (Control.get_prev_pc s.control tid) _ λ prev_pc e.
      each (get_bb program (call_pc smt program prev_pc)) _ λ b e1.
        each (Evaluator.deref program s returned tid) _ λ what e2.
          each (Frames.switch_to program s (call_pc smt program prev_pc) tid) _ λ switched e3.
            each (fetch_pc program (call_pc smt program prev_pc)) _ λ i e4.
              each (Evaluator.layout_deref program switched i.result tid true) _ λ to e5.
                copy_value-IsAligned smt count laws switched to what (
                  Switched-IsAligned count s switched h
                    (switch_to-Switched program s (call_pc smt program prev_pc) tid switched e3))

  leave_with-IsAligned :
      (s : State D) (tid : ℕ) (v : Option Operand)
      → IsAligned count s
      → Whenever (Branches.leave_with smt program s tid v) (IsAligned count)
  unfolding Branches.leave_with
  leave_with-IsAligned s tid none h = leave-IsAligned smt count laws program s tid h
  leave_with-IsAligned s tid (some v) h =
      each (Branches.return_value smt program s tid v) _
        λ t e. leave-IsAligned smt count laws program t tid (return_value-IsAligned s tid v h t e)

  leave_if_atomic-IsAligned :
      (s : State D) (b : Bool) (tid : ℕ)
      → IsAligned count s
      → Whenever (Branches.leave_if_atomic smt program s b tid) (IsAligned count)
  leave_if_atomic-IsAligned s false tid h = stop (IsAligned count) _ h
  leave_if_atomic-IsAligned s true tid h =
      each (Control.leave_atomic_section s.control tid) _ λ control e.
        stop (IsAligned count) _
          (with_stacks count s h control (leave_atomic_section-SameStacks s.control tid control e))

  pub do_return-AllAligned :
      (s : State D) (tid : ℕ) (v : Option Operand)
      → IsAligned count s
      → Whenever (Branches.do_return smt program s tid v) Both
  unfolding Branches.do_return
  do_return-AllAligned s tid v h = each (Control.get_pc s.control tid) _ λ pc e.
      each (get_elem? program.functions pc.function) _ λ f e1.
        each (Branches.leave_if_atomic smt program s (is_atomic_function f.name) tid) _ λ t e2.
          each (Control.last t.control tid) _ λ last e3.
            each
              (Branches.leave_with smt program t tid (Branches.returned_value smt program last v)) _
              λ u e4.
                let k = leave_if_atomic-IsAligned s (is_atomic_function f.name) tid h t e2 in
                once-AllAligned smt count laws program true false u
                  (leave_with-IsAligned t tid (Branches.returned_value smt program last v) k u e4)
