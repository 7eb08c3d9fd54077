-- ===== src/Evaluator/Steps.antt =====
-- The handlers of src/llvmsym/instructiondispatch.h keep the tables of the state together, but for the calls that
-- begin or end threads.
use sym_divine.Base.{
  ℕ, ◌≡◌, Bool, true, false, Option, List, [], ◌∷◌, get_elem?, ensure, Whenever, each, stop, never,
}
use sym_divine.Datastore.{Value}
use sym_divine.Control
use sym_divine.Control.{Control}
use sym_divine.Stores.{DataStore}
use sym_divine.Stores.Laws.{KeepsSegments}
use sym_divine.Evaluator
use sym_divine.Evaluator.{Operand, operand_bw, Callee, declared, defined, State, Program}
use sym_divine.Evaluator.Frames
use sym_divine.Evaluator.Values
use sym_divine.Evaluator.Values.{constant_value, pointee}
use sym_divine.Evaluator.Calls
use sym_divine.Evaluator.Calls.{Outcome}
use sym_divine.Evaluator.Names.{is_atomic_function, builtin_of}
use sym_divine.Evaluator.Aligned.{enter_atomic_section-SameStacks}
use sym_divine.Evaluator.Preserved.{IsAligned, enter_function-IsAligned}
use sym_divine.Evaluator.Writes.{copy_value-IsAligned, with_stacks}
use sym_divine.Evaluator.Jumps.{AllAligned}
use sym_divine.Evaluator.Called.{
  changes_threads, one_yield, advanced-IsAligned, do_builtin-AllAligned,
}
use sym_divine.Evaluator.{
  Operation, Instruction, fetch_pc, icmp, phi, cast, branch, conditional, switch, call, ret, load,
  store, alloca, binary, gep, bitcast, unreachable, select, ptrtoint, inttoptr, unknown,
}
use sym_divine.Evaluator.Values.{Yield}
use sym_divine.Evaluator.Memory
use sym_divine.Evaluator.Dispatch
use sym_divine.Evaluator.Handlers.{
  do_alloca-IsAligned, do_gep-IsAligned, do_load-IsAligned, do_store-IsAligned, do_phi-IsAligned,
  do_cast-IsAligned, do_binary-IsAligned, do_ite-IsAligned, do_ptrtoint-IsAligned,
  do_inttoptr-IsAligned,
}
use sym_divine.Evaluator.Jumps.{do_icmp-AllAligned, do_break-AllAligned, do_conditional-AllAligned}
use sym_divine.Evaluator.Returns.{do_switch-AllAligned, do_return-AllAligned}

-- Whether a callee begins or ends threads.
abbrev pub callee_changes : Callee → Bool
callee_changes (declared name) = changes_threads (builtin_of name)
callee_changes (defined number direct) = false

-- Whether an instruction begins or ends threads.
abbrev pub operation_changes : Operation → Bool
operation_changes (call callee create args) = callee_changes callee
operation_changes o = false

module _ {ℓ} {D : Type ℓ} (smt : DataStore D) (count : D → ℕ) (laws : KeepsSegments smt count)
    (program : Program) where
  abbrev pub Kept : Outcome D → Type 0
  Kept = AllAligned smt count laws program

  pass_arguments-IsAligned :
      (s : State D) (parameters : List Operand) (params : List Value) (tid : ℕ)
      → IsAligned count s
      → Whenever (Calls.pass_arguments smt program s parameters params tid) (IsAligned count)
  unfolding Calls.pass_arguments
  pass_arguments-IsAligned s parameters [] tid h = stop (IsAligned count) s h
  pass_arguments-IsAligned s [] (what ∷ params) tid h = never (IsAligned count)
  pass_arguments-IsAligned s (parameter ∷ parameters) (what ∷ params) tid h =
      each (Evaluator.layout_deref program s parameter tid false) _ λ to e.
        each (Values.copy_value smt s to what) _ λ t e1.
          pass_arguments-IsAligned t parameters params tid
            (copy_value-IsAligned smt count laws s to what h t e1)

  enter_if_atomic-IsAligned :
      (s : State D) (b : Bool) (tid : ℕ)
      → IsAligned count s
      → Whenever (Calls.enter_if_atomic smt program s b tid) (IsAligned count)
  enter_if_atomic-IsAligned s false tid h = stop (IsAligned count) s h
  enter_if_atomic-IsAligned s true tid h =
      each (Control.enter_atomic_section s.control tid) _ λ control e.
        stop (IsAligned count) _
          (with_stacks count s h control (enter_atomic_section-SameStacks s.control tid control e))

  pub do_call-AllAligned :
      (s0 s : State D) (result : Operand) (tid : ℕ) (callee : Callee) (create : Option Callee)
      (args : List Operand)
      → callee_changes callee ≡ false
      → IsAligned count s0
      → IsAligned count s
      → Whenever (Calls.do_call smt program s0 s result tid callee create args) Kept
  unfolding Calls.do_call
  do_call-AllAligned s0 s result tid (declared name) create args c h0 h =
      each (Calls.advanced s tid) _ λ t e.
        do_builtin-AllAligned smt count laws program (builtin_of name) s0 t result tid create args c
          h0 (advanced-IsAligned smt count laws program s tid h t e)
  do_call-AllAligned s0 s result tid (defined number direct) create args c h0 h =
      each (Calls.advanced s tid) _ λ t e. each (ensure direct) _ λ u e1.
        each (get_elem? program.functions number) _ λ f e2.
          each (Calls.enter_if_atomic smt program t (is_atomic_function f.name) tid) _ λ entered e3.
            each (Calls.deref_all smt program entered args tid) _ λ params e4.
              each (Frames.enter_function smt program entered number tid) _ λ framed e5.
                each (Calls.pass_arguments smt program framed f.arguments params tid) _ λ v e6.
                  let h1 = advanced-IsAligned smt count laws program s tid h t e in
                  let h2 =
                    enter_if_atomic-IsAligned t (is_atomic_function f.name) tid h1 entered e3 in
                  let h3 =
                    enter_function-IsAligned smt count laws program entered number tid h2 framed
                      e5 in
                  one_yield smt count laws program (is_atomic_function f.name) false v
                    (pass_arguments-IsAligned framed f.arguments params tid h3 v e6)

  pub dispatch-AllAligned :
      (s0 s : State D) (result : Operand) (tid : ℕ) (o : Operation)
      → operation_changes o ≡ false
      → IsAligned count s0
      → IsAligned count s
      → Whenever (Dispatch.dispatch smt program s0 s result tid o) Kept
  unfolding Dispatch.dispatch Dispatch.once_more
  dispatch-AllAligned s0 s result tid (icmp op x y) c h0 h =
      do_icmp-AllAligned smt count laws program s0 s result tid op x y h0 h
  dispatch-AllAligned s0 s result tid (phi incoming) c h0 h =
      each (Memory.do_phi smt program s result tid incoming) _ λ t e.
        one_yield smt count laws program false false t
          (do_phi-IsAligned smt count laws program s result tid h incoming t e)
  dispatch-AllAligned s0 s result tid (cast kind v bw) c h0 h =
      each (Memory.do_cast smt program s result tid kind v bw) _ λ t e.
        one_yield smt count laws program false false t
          (do_cast-IsAligned smt count laws program s result tid h kind v bw t e)
  dispatch-AllAligned s0 s result tid (branch target) c h0 h =
      do_break-AllAligned smt count laws program s tid target h
  dispatch-AllAligned s0 s result tid (conditional v t u) c h0 h =
      do_conditional-AllAligned smt count laws program s0 s tid v t u h0 h
  dispatch-AllAligned s0 s result tid (switch v cases target) c h0 h =
      do_switch-AllAligned smt count laws program s0 s tid v cases target h0 h
  dispatch-AllAligned s0 s result tid (call callee create args) c h0 h =
      do_call-AllAligned s0 s result tid callee create args c h0 h
  dispatch-AllAligned s0 s result tid (ret v) c h0 h =
      do_return-AllAligned smt count laws program s tid v h
  dispatch-AllAligned s0 s result tid (load v) c h0 h =
      each (Memory.do_load smt program s result tid v) _ λ t e.
        one_yield smt count laws program true false t
          (do_load-IsAligned smt count laws program s result tid h v t e)
  dispatch-AllAligned s0 s result tid (store v to) c h0 h =
      each (Memory.do_store smt program s tid v to) _ λ t e.
        one_yield smt count laws program true false t
          (do_store-IsAligned smt count laws program s result tid h v to t e)
  dispatch-AllAligned s0 s result tid (alloca size allocated) c h0 h =
      each (Memory.do_alloca smt program s result tid size allocated) _ λ t e.
        one_yield smt count laws program false false t
          (do_alloca-IsAligned smt count laws program s result tid h size allocated t e)
  dispatch-AllAligned s0 s result tid (binary op x y) c h0 h =
      each (Memory.do_binary smt program s result tid op x y) _ λ t e.
        one_yield smt count laws program false false t
          (do_binary-IsAligned smt count laws program s result tid h op x y t e)
  dispatch-AllAligned s0 s result tid (gep v type indices) c h0 h =
      each (Memory.do_gep smt program s result tid v type indices) _ λ t e.
        one_yield smt count laws program false false t
          (do_gep-IsAligned smt count laws program s result tid h v type indices t e)
  dispatch-AllAligned s0 s result tid bitcast c h0 h =
      one_yield smt count laws program false false s h
  dispatch-AllAligned s0 s result tid unreachable c h0 h =
      one_yield smt count laws program false false s h
  dispatch-AllAligned s0 s result tid (select b v w) c h0 h =
      each (Memory.do_ite smt program s result tid b v w) _ λ t e.
        one_yield smt count laws program false false t
          (do_ite-IsAligned smt count laws program s result tid h b v w t e)
  dispatch-AllAligned s0 s result tid (ptrtoint v) c h0 h =
      each (Memory.do_ptrtoint smt program s result tid v) _ λ t e.
        let k = do_ptrtoint-IsAligned smt count laws program s result tid h v t e in
        stop Kept _ ((k, tt), k)
  dispatch-AllAligned s0 s result tid (inttoptr v) c h0 h =
      each (Memory.do_inttoptr smt program s result tid v) _ λ t e.
        let k = do_inttoptr-IsAligned smt count laws program s result tid h v t e in
        stop Kept _ ((k, tt), k)
  dispatch-AllAligned s0 s result tid unknown c h0 h = never Kept
