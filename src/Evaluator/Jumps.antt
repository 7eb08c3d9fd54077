-- ===== src/Evaluator/Jumps.antt =====
-- The handlers of src/llvmsym/evaluator.h that choose a successor keep the tables of the state together.
use sym_divine.Base.{ℕ, Bool, false, ◌||◌, ensure, Whenever, each, stop, All, ◌==◌}
use sym_divine.Datastore
use sym_divine.Datastore.{Value, Comparison}
use sym_divine.Control
use sym_divine.Control.{Control, Pc}
use sym_divine.ExplicitStore
use sym_divine.Stores.{DataStore}
use sym_divine.Stores.Laws.{KeepsSegments}
use sym_divine.Evaluator
use sym_divine.Evaluator.{Operand, operand_bw, State, Target, Program, get_bb, fetch_pc}
use sym_divine.Evaluator.Frames
use sym_divine.Evaluator.Values
use sym_divine.Evaluator.Values.{Yield}
use sym_divine.Evaluator.Calls.{Outcome}
use sym_divine.Evaluator.Calls
use sym_divine.Evaluator.Branches
use sym_divine.Evaluator.Aligned.{jump_to-SameStacks}
use sym_divine.Evaluator.Preserved.{IsAligned, Switched-IsAligned, switch_to-Switched}
use sym_divine.Evaluator.Writes.{
  mark-IsAligned, store_explicit-IsAligned, store_symbolic-IsAligned, prune_in-IsAligned,
  with_stacks,
}

module _ {ℓ} {D : Type ℓ} (smt : DataStore D) (count : D → ℕ) (laws : KeepsSegments smt count)
    (program : Program) where
  -- The tables of every state that is yielded, and of the one that is left.
  abbrev pub AllAligned : Outcome D → Type 0
  AllAligned o = All (λ y. IsAligned count y.state) o.0 × IsAligned count o.1

  pub once-AllAligned :
      (observable is_empty : Bool) (t : State D)
      → IsAligned count t
      → Whenever (Calls.once observable is_empty t) AllAligned
  unfolding Calls.once
  once-AllAligned observable is_empty t h = stop AllAligned _ ((h, tt), h)

  pub jump_to-IsAligned :
      (s : State D) (target : Target) (tid : ℕ)
      → IsAligned count s
      → Whenever (Frames.jump_to program s target tid) (IsAligned count)
  unfolding Frames.jump_to
  jump_to-IsAligned s target tid h =
      each (Control.jump_to s.control target.place tid target.has_phi) _ λ control e t e1.
        let jumped : State D = record s { control = control } in
        let k =
          with_stacks count s h control
            (jump_to-SameStacks s.control target.place tid target.has_phi control e) in
        Switched-IsAligned count jumped t k
          (switch_to-Switched program jumped target.place tid t e1)

  compared-IsAligned :
      (s : State D) (multival : Bool) (a b : Value) (op : Comparison) (result : Value)
      (outcome bw : ℕ)
      → IsAligned count s
      → Whenever
          (Branches.compared smt program s multival a b op result outcome bw)
          λ r. IsAligned count r.0
  unfolding Branches.compared
  compared-IsAligned s multival a b op result outcome bw h =
      each (Values.prune_in smt s multival a b op) _ λ pruned e.
        each (Values.mark pruned result false) _ λ marked e1.
          each (Values.store_explicit marked result (Datastore.constant outcome bw false)) _ λ t e2.
            each (Values.store_symbolic smt t result (Datastore.constant outcome bw false)) _
              λ u e3. each (ExplicitStore.get u.explicit_data result) _ λ stored e4.
                each (ensure (stored == outcome)) _ λ v e5.
                  each (Values.is_empty_in smt u multival) _ λ nothing e6.
                    let h1 = prune_in-IsAligned smt count laws s multival a b op h pruned e in
                    let h2 = mark-IsAligned count pruned h1 result false marked e1 in
                    let h3 = store_explicit-IsAligned count marked h2 result _ t e2 in
                    stop (λ r. IsAligned count r.0) (u, nothing)
                      (store_symbolic-IsAligned smt count laws t result _ h3 u e3)

  pub do_icmp-AllAligned :
      (s0 s : State D) (result : Operand) (tid : ℕ) (op : Comparison) (x y : Operand)
      → IsAligned count s0
      → IsAligned count s
      → Whenever (Branches.do_icmp smt program s0 s result tid op x y) AllAligned
  unfolding Branches.do_icmp
  do_icmp-AllAligned s0 s result tid op x y h0 h = each (Evaluator.deref program s x tid) _ λ a e.
      each (Evaluator.deref program s y tid) _ λ b e1.
        each (Evaluator.is_multival s.layout a) _ λ a_is e2.
          each (Evaluator.is_multival s.layout b) _ λ b_is e3.
            each (Evaluator.layout_deref program s result tid false) _ λ to e4.
              each (ensure (operand_bw result == 1)) _ λ v e5.
                each (Branches.compared smt program s (a_is || b_is) a b op to 1 1) _ λ r e6.
                  each
                    (Branches.compared smt program s0 (a_is || b_is) a b (Datastore.icmp_negate op)
                      to 0 1)
                    _
                    λ q e7.
                      let k = compared-IsAligned s (a_is || b_is) a b op to 1 1 h r e6 in
                      let j =
                        compared-IsAligned s0 (a_is || b_is) a b (Datastore.icmp_negate op) to 0 1
                          h0 q e7 in
                      stop AllAligned _ ((k, (j, tt)), j)

  taken-IsAligned :
      (s : State D) (tid : ℕ) (condition : Operand) (outcome : ℕ) (target : Target)
      → IsAligned count s
      → Whenever
          (Branches.taken smt program s tid condition outcome target)
          λ r. IsAligned count r.0
  unfolding Branches.taken
  taken-IsAligned s tid condition outcome target h =
      each (Evaluator.deref program s condition tid) _ λ cond e.
        each (Frames.jump_to program s target tid) _ λ jumped e1.
          each (Evaluator.is_multival jumped.layout cond) _ λ multival e2.
            each
              (Values.prune_in smt jumped multival cond (Datastore.constant outcome 1 false)
                Datastore.eq)
              _
              λ pruned e3. each (Values.is_empty_in smt pruned multival) _ λ nothing e4.
                stop (λ r. IsAligned count r.0) (pruned, nothing)
                  (prune_in-IsAligned smt count laws jumped multival cond _ Datastore.eq
                    (jump_to-IsAligned s target tid h jumped e1) pruned e3)

  pub do_break-AllAligned :
      (s : State D) (tid : ℕ) (target : Target)
      → IsAligned count s
      → Whenever (Branches.do_break smt program s tid target) AllAligned
  unfolding Branches.do_break
  do_break-AllAligned s tid target h =
      each (Frames.jump_to program s target tid) _
        λ t e. once-AllAligned target.backward false t (jump_to-IsAligned s target tid h t e)

  pub do_conditional-AllAligned :
      (s0 s : State D) (tid : ℕ) (condition : Operand) (first second : Target)
      → IsAligned count s0
      → IsAligned count s
      → Whenever (Branches.do_conditional smt program s0 s tid condition first second) AllAligned
  unfolding Branches.do_conditional
  do_conditional-AllAligned s0 s tid condition first second h0 h =
      each (Branches.taken smt program s tid condition 1 first) _ λ r e.
        each (Branches.taken smt program s0 tid condition 0 second) _ λ q e1.
          let k = taken-IsAligned s tid condition 1 first h r e in
          let j = taken-IsAligned s0 tid condition 0 second h0 q e1 in
          stop AllAligned _ ((k, (j, tt)), j)
