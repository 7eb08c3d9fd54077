-- ===== src/Evaluator/Lost.antt =====
-- Instructions of src/llvmsym/instructiondispatch.h and src/llvmsym/evaluator.h after which `advance` does not go
-- on as it should.
use sym_divine.Base.{
  length, set, length-set, subst, lt→ltb, ℕ, zero, suc, ◌<◌, ◌≡◌, refl, sym, ◌∙◌, ap, false, Option,
  some, List, [], ◌∷◌, Whenever, each, stop, Returns,
}
use Prim.Native.String.{String}
use mathlib.Core.List.Memᴰ
use mathlib.Core.List.{Memᴰ}
use sym_divine.Control
use sym_divine.Control.{Control, Pc, pc_zero}
use sym_divine.Stores.{DataStore}
use sym_divine.Evaluator.{
  Operand, Callee, declared, call, unreachable, Operation, Program, State, fetch_pc,
}
use sym_divine.Evaluator.Calls
use sym_divine.Evaluator.Calls.{Outcome}
use sym_divine.Evaluator.Values.{Yield}
use sym_divine.Evaluator.Names.{builtin_of, debug_call}
use sym_divine.Evaluator.Dispatch
use sym_divine.Evaluator.Search
use sym_divine.Evaluator.Search.{Progress}
use sym_divine.Evaluator.Successors.{Sees, now, later}

-- The state after the step.
abbrev forgotten {ℓ} : {D : Type ℓ} → State D → ℕ → State D
forgotten s tid = record s {
  control = record s.control { previous_bb = set s.control.previous_bb tid pc_zero };
}

module _ {ℓ} {D : Type ℓ} (program : Program) (tid : ℕ) where
  -- A thread that stands at `unreachable`, after no error.
  pub record IsStuck (s : State D) : Type 0 where
    pub pc : Pc
    pub result : Operand
    pub at_pc : Control.get_pc s.control tid ≡ some pc
    pub fetched :
        fetch_pc program pc
        ≡ some (record { result = result; expressions = []; operation = unreachable })
    pub fine : s.error ≡ false
    pub known : tid < length s.control.previous_bb

  forgotten-IsStuck : (s : State D) → IsStuck s → IsStuck (forgotten s tid)
  unfolding Control.get_pc
  forgotten-IsStuck s h = record {
    pc = h.pc;
    result = h.result;
    at_pc = h.at_pc;
    fetched = h.fetched;
    fine = h.fine;
    known = subst (λ n. tid < n) (sym (length-set s.control.previous_bb tid pc_zero)) h.known;
  }

module _ {ℓ} {D : Type ℓ} (smt : DataStore D) (program : Program) (tid : ℕ) where
  abbrev Nothing : Outcome D → Type ℓ
  Nothing o = o.0 ≡ []

  debug-Nothing :
      (s0 s : State D) (result : Operand) (name : String) (create : Option Callee)
      (args : List Operand)
      → builtin_of name ≡ debug_call
      → Whenever (Calls.do_call smt program s0 s result tid (declared name) create args) Nothing
  unfolding Calls.do_call Calls.do_builtin
  debug-Nothing s0 s result name create args h =
      each (Calls.advanced s tid) _ λ t e. rw h (stop Nothing ([], t) refl)

  execute-Nothing :
      (s0 s : State D) (result : Operand) (expressions : List (Operand × Operation)) (name : String)
      (create : Option Callee) (args : List Operand)
      → builtin_of name ≡ debug_call
      → Whenever
          (Dispatch.execute smt program s0 s tid (record {
            result = result;
            expressions = expressions;
            operation = call (declared name) create args;
          }))
          Nothing
  unfolding Dispatch.execute Dispatch.dispatch
  execute-Nothing s0 s result expressions name create args h =
      each (Dispatch.evaluate_all smt program s tid expressions) _
        λ t e. debug-Nothing s0 t result name create args h

  step-Nothing :
      (s : State D) (pc : Pc) (result : Operand) (expressions : List (Operand × Operation))
      (name : String) (create : Option Callee) (args : List Operand)
      → Control.get_pc s.control tid ≡ some pc
      → fetch_pc program pc
        ≡ some (record {
          result = result;
          expressions = expressions;
          operation = call (declared name) create args;
        })
      → builtin_of name ≡ debug_call
      → Whenever (Dispatch.step smt program s tid false) Nothing
  unfolding Dispatch.step Dispatch.execute Dispatch.dispatch Dispatch.forget_block
  step-Nothing s pc result expressions name create args at_pc fetched h =
      rw (at_pc, fetched)
        (each (Dispatch.forget_block smt program s tid false) _ λ t e.
          each
            (Dispatch.execute smt program s t tid (record {
              result = result;
              expressions = expressions;
              operation = call (declared name) create args;
            }))
            _
            λ o e1.
              stop Nothing (o.0, o.1)
                (execute-Nothing s t result expressions name create args h o e1))

  round-forgotten :
      (s : State D) (to_do yielded : List (State D))
      → IsStuck program tid s
      → Search.round smt program tid s to_do yielded
        ≡ some (record {
          state = s;
          found = record { yielded = yielded; to_do = forgotten s tid ∷ to_do };
        })
  unfolding Search.round Dispatch.step Dispatch.execute Dispatch.evaluate_all Dispatch.dispatch
      Dispatch.forget_block Calls.once Search.collect
  round-forgotten s to_do yielded h =
      rw (h.fine, h.at_pc, h.fetched, lt→ltb tid (length s.control.previous_bb) h.known) refl

  -- When the state on top of the stack stands at `unreachable`, the search of the thread does not come to its end,
  -- whatever its fuel, and yields nothing more.
  pub loop-IsStuck :
      (n : ℕ) (p : Progress D) (top : State D) (to_do : List (State D))
      → p.found.to_do ≡ top ∷ to_do
      → IsStuck program tid top
      → Returns
          (Search.loop smt program n tid p)
          λ r. (r.1 ≡ false) × (r.0.found.yielded ≡ p.found.yielded)
  unfolding Search.loop Search.turn
  loop-IsStuck zero p top to_do e h = (_, refl, (refl, refl))
  loop-IsStuck (suc n) p top to_do e h =
      rw (e, round-forgotten top to_do p.found.yielded h)
        (loop-IsStuck n _ (forgotten top tid) to_do refl (forgotten-IsStuck program tid top h))

  -- A state whose thread, after no error, calls a declared function that is taken for debugging or for `ldv_` has no
  -- observable successor.
  pub debug_call-Sees :
      (s u : State D) (pc : Pc) (result : Operand) (expressions : List (Operand × Operation))
      (name : String) (create : Option Callee) (args : List Operand)
      → Control.get_pc s.control tid ≡ some pc
      → fetch_pc program pc
        ≡ some (record {
          result = result;
          expressions = expressions;
          operation = call (declared name) create args;
        })
      → builtin_of name ≡ debug_call
      → s.error ≡ false
      → ¬ Sees smt program tid s u
  debug_call-Sees s u pc result expressions name create args at_pc fetched h fine sees =
      let no_step : (o : Outcome D) (y : Yield D)
          → Dispatch.step smt program s tid s.error ≡ some o
          → Memᴰ y o.0
          → ⊥ =
        λ o y e m.
          let e' = ap (λ error. Dispatch.step smt program s tid error) (sym fine) ∙ e in
          let none_left =
            step-Nothing s pc result expressions name create args at_pc fetched h o e' in
          Memᴰ.not-nil (subst (Memᴰ y) none_left m) in
      elim sees [ now e y m shown same ↦ no_step _ y e m | later e y m goes on ↦ no_step _ y e m ]
