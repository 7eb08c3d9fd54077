-- ===== src/Evaluator/Executed.antt =====
-- The step of a thread in src/llvmsym/evaluator.h keeps the tables of the state together, but for the calls that
-- begin or end threads.
use sym_divine.Base.{
  ltb, ℕ, ◌≡◌, refl, Bool, true, false, some, List, [], ◌∷◌, length, ensure, Whenever, each, stop,
  never, All,
}
use sym_divine.Control
use sym_divine.Control.{Control, Pc}
use sym_divine.Stores.{DataStore}
use sym_divine.Stores.Laws.{KeepsSegments}
use sym_divine.Evaluator.{Operand, State, Program}
use sym_divine.Evaluator.Names.{}
use sym_divine.Evaluator.Aligned.{advance_by-SameStacks}
use sym_divine.Evaluator.Preserved.{IsAligned}
use sym_divine.Evaluator.Writes.{with_stacks}
use sym_divine.Evaluator.Called.{}
use sym_divine.Evaluator.{
  Operation, Instruction, fetch_pc, icmp, phi, cast, branch, conditional, switch, call, ret, load,
  store, alloca, binary, gep, bitcast, unreachable, select, ptrtoint, inttoptr, unknown,
}
use sym_divine.Evaluator.Values.{Yield}
use sym_divine.Evaluator.Dispatch
use sym_divine.Evaluator.Handlers.{
  do_gep-IsAligned, do_binary-IsAligned, do_ptrtoint-IsAligned, do_inttoptr-IsAligned,
}
use sym_divine.Evaluator.Steps.{operation_changes, Kept, dispatch-AllAligned}

module _ {ℓ} {D : Type ℓ} (smt : DataStore D) (count : D → ℕ) (laws : KeepsSegments smt count)
    (program : Program) where
  evaluate-IsAligned :
      (s : State D) (result : Operand) (tid : ℕ) (o : Operation)
      → IsAligned count s
      → Whenever (Dispatch.evaluate smt program s result tid o) (IsAligned count)
  unfolding Dispatch.evaluate
  evaluate-IsAligned s result tid (binary op x y) h =
      do_binary-IsAligned smt count laws program s result tid h op x y
  evaluate-IsAligned s result tid (gep v type indices) h =
      do_gep-IsAligned smt count laws program s result tid h v type indices
  evaluate-IsAligned s result tid bitcast h = stop (IsAligned count) s h
  evaluate-IsAligned s result tid (ptrtoint v) h =
      do_ptrtoint-IsAligned smt count laws program s result tid h v
  evaluate-IsAligned s result tid (inttoptr v) h =
      do_inttoptr-IsAligned smt count laws program s result tid h v
  evaluate-IsAligned s result tid (icmp op x y) h = never (IsAligned count)
  evaluate-IsAligned s result tid (phi incoming) h = never (IsAligned count)
  evaluate-IsAligned s result tid (cast kind v bw) h = never (IsAligned count)
  evaluate-IsAligned s result tid (branch target) h = never (IsAligned count)
  evaluate-IsAligned s result tid (conditional v t u) h = never (IsAligned count)
  evaluate-IsAligned s result tid (switch v cases target) h = never (IsAligned count)
  evaluate-IsAligned s result tid (call callee create args) h = never (IsAligned count)
  evaluate-IsAligned s result tid (ret v) h = never (IsAligned count)
  evaluate-IsAligned s result tid (load v) h = never (IsAligned count)
  evaluate-IsAligned s result tid (store v to) h = never (IsAligned count)
  evaluate-IsAligned s result tid (alloca size allocated) h = never (IsAligned count)
  evaluate-IsAligned s result tid unreachable h = never (IsAligned count)
  evaluate-IsAligned s result tid (select b v w) h = never (IsAligned count)
  evaluate-IsAligned s result tid unknown h = never (IsAligned count)

  evaluate_all-IsAligned :
      (s : State D) (tid : ℕ) (expressions : List (Operand × Operation))
      → IsAligned count s
      → Whenever (Dispatch.evaluate_all smt program s tid expressions) (IsAligned count)
  unfolding Dispatch.evaluate_all
  evaluate_all-IsAligned s tid [] h = stop (IsAligned count) s h
  evaluate_all-IsAligned s tid ((result, o) ∷ rest) h =
      each (Dispatch.evaluate smt program s result tid o) _
        λ t e. evaluate_all-IsAligned t tid rest (evaluate-IsAligned s result tid o h t e)

  execute-AllAligned :
      (s0 s : State D) (tid : ℕ) (i : Instruction)
      → operation_changes i.operation ≡ false
      → IsAligned count s0
      → IsAligned count s
      → Whenever (Dispatch.execute smt program s0 s tid i) (Kept smt count laws program)
  unfolding Dispatch.execute
  execute-AllAligned s0 s tid i c h0 h =
      each (Dispatch.evaluate_all smt program s tid i.expressions) _ λ t e.
        dispatch-AllAligned smt count laws program s0 t i.result tid i.operation c h0
          (evaluate_all-IsAligned s tid i.expressions h t e)

  forget_block-IsAligned :
      (s : State D) (tid : ℕ) (phis : Bool)
      → IsAligned count s
      → Whenever (Dispatch.forget_block smt program s tid phis) (IsAligned count)
  unfolding Dispatch.forget_block
  forget_block-IsAligned s tid true h = stop (IsAligned count) s h
  forget_block-IsAligned s tid false h =
      each (ensure (ltb tid (length s.control.previous_bb))) _
        λ u e. stop (IsAligned count) _ (with_stacks count s h _ refl)

  abbrev Yields : List (Yield D) → Type 0
  Yields ys = All (λ y. IsAligned count y.state) ys

  effect_all-Yields :
      (tid : ℕ) (ys : List (Yield D))
      → Yields ys
      → Whenever (Dispatch.effect_all smt program tid ys) Yields
  unfolding Dispatch.effect_all
  effect_all-Yields tid [] h = stop Yields [] h
  effect_all-Yields tid (y ∷ ys) h = each (Control.advance y.state.control tid) _ λ control e.
      each (Dispatch.effect_all smt program tid ys) _ λ rest e1. stop Yields _ (
        with_stacks count y.state h.0 control
            (advance_by-SameStacks y.state.control tid 1 control e),
        effect_all-Yields tid ys h.1 rest e1,
      )

  with_effect-Yields :
      (tid : ℕ) (keeps : Bool) (ys : List (Yield D))
      → Yields ys
      → Whenever (Dispatch.with_effect smt program tid keeps ys) Yields
  unfolding Dispatch.effect_all
  with_effect-Yields tid true ys h = stop Yields ys h
  with_effect-Yields tid false ys h = effect_all-Yields tid ys h

  -- If the symbolic store keeps its segments as it should, the tables of a state belong together (the control and the
  -- layout have the same frames, the layout and both stores the same segments), and the next instruction of the
  -- thread is no call of `pthread_create`, `exit` or `pthread_exit`, then the tables of every state that its step
  -- yields, and of the one that it leaves, belong together, when it runs to its end.
  pub step-AllAligned :
      (s : State D) (tid : ℕ) (pc : Pc) (i : Instruction) (error : Bool)
      → IsAligned count s
      → Control.get_pc s.control tid ≡ some pc
      → fetch_pc program pc ≡ some i
      → operation_changes i.operation ≡ false
      → Whenever
          (Dispatch.step smt program s tid error)
          λ o. All (λ y. IsAligned count y.state) o.0 × IsAligned count o.1
  unfolding Dispatch.step
  step-AllAligned s tid pc i true h at_pc fetched c = stop (Kept smt count laws program) _ (tt, h)
  step-AllAligned s tid pc i false h at_pc fetched c =
      rw (at_pc, fetched)
        (each (Dispatch.forget_block smt program s tid (Dispatch.is_phi i.operation)) _ λ t e.
          each (Dispatch.execute smt program s t tid i) _ λ o e1.
            each (Dispatch.with_effect smt program tid (Dispatch.keeps_pc i.operation) o.0) _
              λ ys e2.
                let start = forget_block-IsAligned s tid (Dispatch.is_phi i.operation) h t e in
                let done = execute-AllAligned s t tid i c h start o e1 in
                stop (Kept smt count laws program) (ys, o.1)
                  (with_effect-Yields tid (Dispatch.keeps_pc i.operation) o.0 done.0 ys e2, done.1))
