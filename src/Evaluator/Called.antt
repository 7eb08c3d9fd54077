-- ===== src/Evaluator/Called.antt =====
-- The functions without a body in `do_call` of src/llvmsym/evaluator.h keep the tables of the state together, but
-- for those that begin or end threads.
use sym_divine.Base.{
  ℕ, ◌≡◌, Bool, true, false, Option, some, List, get_elem?, ◌>>=◌, Whenever, each, stop, never,
  ◌==◌, ◌%◌, ◌^◌,
}
use sym_divine.Datastore
use sym_divine.Datastore.{Value, Comparison}
use sym_divine.Control
use sym_divine.Control.{Control}
use sym_divine.ExplicitStore
use sym_divine.Stores.{DataStore}
use sym_divine.Stores.Laws.{KeepsSegments}
use sym_divine.Evaluator
use sym_divine.Evaluator.{Operand, operand_bw, Callee, declared, defined, State, Program}
use sym_divine.Evaluator.Values
use sym_divine.Evaluator.Values.{constant_value, pointee}
use sym_divine.Evaluator.Calls
use sym_divine.Evaluator.Calls.{Outcome}
use sym_divine.Evaluator.Names.{
  Builtin, ignored_call, input_call, assume_call, create_call, join_call, exit_call,
  thread_exit_call, assert_call, error_call, lock_call, unlock_call, atomic_begin_call,
  atomic_end_call, debug_call, unknown_call,
}
use sym_divine.Evaluator.Aligned.{
  advance_by-SameStacks, enter_atomic_section-SameStacks, leave_atomic_section-SameStacks,
}
use sym_divine.Evaluator.Preserved.{IsAligned}
use sym_divine.Evaluator.Writes.{
  mark-IsAligned, store_explicit-IsAligned, prune_in-IsAligned, with_stacks, symbolically-IsAligned,
}
use sym_divine.Evaluator.Jumps.{AllAligned, once-AllAligned}

-- The functions that begin or end threads.
abbrev pub changes_threads : Builtin → Bool
changes_threads create_call = true
changes_threads exit_call = true
changes_threads thread_exit_call = true
changes_threads b = false

module _ {ℓ} {D : Type ℓ} (smt : DataStore D) (count : D → ℕ) (laws : KeepsSegments smt count)
    (program : Program) where
  abbrev pub Both : Outcome D → Type 0
  Both = AllAligned smt count laws program

  abbrev pub one_yield :
      (observable is_empty : Bool) (t : State D)
      → IsAligned count t
      → Whenever (Calls.once observable is_empty t) Both
  one_yield = once-AllAligned smt count laws program

  set_cell-IsAligned :
      (s : State D) (to : Value) (value bw : ℕ)
      → IsAligned count s
      → Whenever (Calls.set_cell s to value bw) (IsAligned count)
  unfolding Calls.set_cell
  set_cell-IsAligned s to value bw h = each (Values.mark s to false) _ λ marked e.
      store_explicit-IsAligned count marked (mark-IsAligned count s h to false marked e) to _

  pub advanced-IsAligned :
      (s : State D) (tid : ℕ)
      → IsAligned count s
      → Whenever (Calls.advanced s tid) (IsAligned count)
  advanced-IsAligned s tid h = each (Control.advance s.control tid) _ λ control e.
      stop (IsAligned count) _
        (with_stacks count s h control (advance_by-SameStacks s.control tid 1 control e))

  stepped_back-IsAligned :
      (s : State D) (tid : ℕ)
      → IsAligned count s
      → Whenever (Calls.stepped_back s tid) (IsAligned count)
  stepped_back-IsAligned s tid h = each (Control.step_back s.control tid) _ λ control e.
      stop (IsAligned count) _
        (with_stacks count s h control (advance_by-SameStacks s.control tid 65535 control e))

  stepped_back_if-IsAligned :
      (b : Bool) (s : State D) (tid : ℕ)
      → IsAligned count s
      → Whenever (elim b [ true ↦ Calls.stepped_back s tid | false ↦ some s ]) (IsAligned count)
  stepped_back_if-IsAligned true s tid h = stepped_back-IsAligned s tid h
  stepped_back_if-IsAligned false s tid h = stop (IsAligned count) s h

  stepped_back_unless-IsAligned :
      (b : Bool) (s : State D) (tid : ℕ)
      → IsAligned count s
      → Whenever (elim b [ true ↦ some s | false ↦ Calls.stepped_back s tid ]) (IsAligned count)
  stepped_back_unless-IsAligned true s tid h = stop (IsAligned count) s h
  stepped_back_unless-IsAligned false s tid h = stepped_back-IsAligned s tid h

  taken_if-IsAligned :
      (b : Bool) (s : State D) (to : Value) (bw : ℕ)
      → IsAligned count s
      → Whenever {A = State D × Bool}
          (elim b [
            | false ↦ some (s, false)
            | true ↦ Calls.set_cell s to 1 bw >>= λ t. some (t, true)
          ])
          (λ r. IsAligned count r.0)
  taken_if-IsAligned false s to bw h = stop (λ r. IsAligned count r.0) (s, false) h
  taken_if-IsAligned true s to bw h =
      each (Calls.set_cell s to 1 bw) _
        λ t e. stop (λ r. IsAligned count r.0) (t, true) (set_cell-IsAligned s to 1 bw h t e)

  do_mutex_lock-IsAligned :
      (s : State D) (v : Operand) (tid : ℕ)
      → IsAligned count s
      → Whenever (Calls.do_mutex_lock smt program s v tid) λ r. IsAligned count r.0
  unfolding Calls.do_mutex_lock
  do_mutex_lock-IsAligned s v tid h = each (Calls.target_of smt program s v tid) _ λ to e.
      each (ExplicitStore.get s.explicit_data to) _
        λ taken e1. taken_if-IsAligned (taken == 0) s to (operand_bw v) h

  do_mutex_unlock-IsAligned :
      (s : State D) (v : Operand) (tid : ℕ)
      → IsAligned count s
      → Whenever (Calls.do_mutex_unlock smt program s v tid) (IsAligned count)
  unfolding Calls.do_mutex_unlock
  do_mutex_unlock-IsAligned s v tid h =
      each (Calls.target_of smt program s v tid) _
        λ to e. set_cell-IsAligned s to 0 (operand_bw v) h

  assume-IsAligned :
      (s : State D) (v : Operand) (tid : ℕ) (op : Comparison)
      → IsAligned count s
      → Whenever (Calls.assume smt program s v tid op) λ r. IsAligned count r.0
  unfolding Calls.assume
  assume-IsAligned s v tid op h = each (Evaluator.layout_deref program s v tid false) _ λ cond e.
      each (Evaluator.is_multival s.layout cond) _ λ multival e1.
        each (Values.prune_in smt s multival cond (Calls.zero_of v) op) _ λ pruned e2.
          each (Values.is_empty_in smt pruned multival) _ λ nothing e3.
            stop (λ r. IsAligned count r.0) (pruned, nothing)
              (prune_in-IsAligned smt count laws s multival cond (Calls.zero_of v) op h pruned e2)

  failed-IsAligned : (s : State D) → IsAligned count s → IsAligned count (record s { error = true })
  failed-IsAligned s h = record {
    segments = record {
      cells = h.segments.cells;
      info = h.segments.info;
      symbols = h.segments.symbols;
      flags = h.segments.flags;
    };
    frames = h.frames;
  }

  pub do_builtin-AllAligned :
      (b : Builtin) (s0 s : State D) (result : Operand) (tid : ℕ) (create : Option Callee)
      (args : List Operand)
      → changes_threads b ≡ false
      → IsAligned count s0
      → IsAligned count s
      → Whenever (Calls.do_builtin smt program b s0 s result tid create args) Both
  unfolding Calls.do_builtin
  do_builtin-AllAligned ignored_call s0 s result tid create args c h0 h = one_yield false false s h
  do_builtin-AllAligned input_call s0 s result tid create args c h0 h =
      each (Evaluator.layout_deref program s result tid false) _ λ to e.
        each (Values.mark s to true) _ λ marked e1.
          each
            (Values.symbolically marked
              (smt.implement_input marked.symbolic to (operand_bw result)))
            _
            λ t e2. one_yield false false t (
              symbolically-IsAligned count marked (mark-IsAligned count s h to true marked e1) _
                (laws.input marked.symbolic to (operand_bw result)) t e2)
  do_builtin-AllAligned assume_call s0 s result tid create args c h0 h =
      each (get_elem? args 0) _ λ v e.
        each (Calls.assume smt program s v tid Datastore.ne) _
          λ r e1. one_yield false r.1 r.0 (assume-IsAligned s v tid Datastore.ne h r e1)
  do_builtin-AllAligned create_call s0 s result tid create args c h0 h = cc
  do_builtin-AllAligned join_call s0 s result tid create args c h0 h =
      each (get_elem? args 0) _ λ v e. each (Evaluator.deref program s v tid) _ λ val e1.
        each (constant_value val) _ λ joined e2.
          each
            (elim (Control.has_tid s.control (joined % 2 ^ 32)) [
              | true ↦ Calls.stepped_back s tid
              | false ↦ some s
            ])
            _
            λ t e3.
              one_yield (Calls.in_company t) false t (
                stepped_back_if-IsAligned (Control.has_tid s.control (joined % 2 ^ 32)) s tid h t
                  e3)
  do_builtin-AllAligned exit_call s0 s result tid create args c h0 h = cc
  do_builtin-AllAligned thread_exit_call s0 s result tid create args c h0 h = cc
  do_builtin-AllAligned assert_call s0 s result tid create args c h0 h =
      each (get_elem? args 0) _ λ v e.
        each (Calls.assume smt program s v tid Datastore.ne) _ λ r e1.
          each (Calls.assume smt program s0 v tid Datastore.eq) _ λ q e2.
            let k = assume-IsAligned s v tid Datastore.ne h r e1 in
            let j = assume-IsAligned s0 v tid Datastore.eq h0 q e2 in
            let failed = failed-IsAligned q.0 j in stop Both _ ((k, (failed, tt)), failed)
  do_builtin-AllAligned error_call s0 s result tid create args c h0 h =
      each (smt.empty s.symbolic) _
        λ nothing e. one_yield true nothing (record s { error = true }) (failed-IsAligned s h)
  do_builtin-AllAligned lock_call s0 s result tid create args c h0 h =
      each (get_elem? args 0) _ λ v e. each (Calls.do_mutex_lock smt program s v tid) _ λ r e1.
        each (elim r.1 [ true ↦ some r.0 | false ↦ Calls.stepped_back r.0 tid ]) _
          λ u e2. one_yield (Calls.in_company u) false u (
            stepped_back_unless-IsAligned r.1 r.0 tid (do_mutex_lock-IsAligned s v tid h r e1) u e2)
  do_builtin-AllAligned unlock_call s0 s result tid create args c h0 h =
      each (get_elem? args 0) _ λ v e.
        each (Calls.do_mutex_unlock smt program s v tid) _
          λ t e1. one_yield (Calls.in_company t) false t (do_mutex_unlock-IsAligned s v tid h t e1)
  do_builtin-AllAligned atomic_begin_call s0 s result tid create args c h0 h =
      each (Control.enter_atomic_section s.control tid) _ λ control e.
        one_yield (Calls.in_company s) false (record s { control = control })
          (with_stacks count s h control (enter_atomic_section-SameStacks s.control tid control e))
  do_builtin-AllAligned atomic_end_call s0 s result tid create args c h0 h =
      each (Control.leave_atomic_section s.control tid) _ λ control e.
        one_yield (Calls.in_company s) false (record s { control = control })
          (with_stacks count s h control (leave_atomic_section-SameStacks s.control tid control e))
  do_builtin-AllAligned debug_call s0 s result tid create args c h0 h = stop Both _ (tt, h)
  do_builtin-AllAligned unknown_call s0 s result tid create args c h0 h = never Both
