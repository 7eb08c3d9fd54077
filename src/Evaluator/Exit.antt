-- ===== src/Evaluator/Exit.antt =====
-- `pthread_exit` in `do_call` of src/llvmsym/evaluator.h: the thread leaves the control, but not the layout.
use sym_divine.Base.{
  ℕ, zero, suc, ◌≡◌, refl, sym, ◌∙◌, ap, Option, some, List, [], ◌∷◌, length, length-erase_at,
  get_elem?, get_elem?-lt, get_elem?-set_self, set, pop_back, erase_at, Returns, arith,
}
use sym_divine.Control
use sym_divine.Control.{Control, Pc}
use sym_divine.Stores.{DataStore}
use sym_divine.Evaluator.{Operand, Callee, Program, State}
use sym_divine.Control.Invariant.{back?-IsBusy}
use sym_divine.Evaluator.Calls
use sym_divine.Evaluator.Values.{Yield}
use sym_divine.Evaluator.Tables.{length-pop_back_cons}
use sym_divine.Evaluator.Names.{thread_exit_call}
use sym_divine.Evaluator.Depths.{depths, length-depths}
use sym_divine.Evaluator.Preserved.{IsAligned}

erase_at-set {ℓ} :
    {A : Type ℓ} (xs : List A) (i : ℕ) (a : A) → erase_at (set xs i a) i ≡ erase_at xs i
erase_at-set [] i a = refl
erase_at-set (x ∷ xs) zero a = refl
erase_at-set (x ∷ xs) (suc i) a = ap (λ ys. x ∷ ys) (erase_at-set xs i a)

-- The thread is gone from the control.
abbrev Gone : Control → ℕ → Control → Type 0
Gone c tid d = d.context ≡ erase_at c.context tid

-- The loop pops the frames of the thread, then the thread; their number is fuel enough.
leave_thread-Gone :
    (n : ℕ) (c : Control) (tid : ℕ) (stack : List Pc)
    → get_elem? c.context tid ≡ some stack
    → length stack ≡ suc n
    → Returns (Calls.leave_thread (suc n) c tid) (Gone c tid)
unfolding Calls.leave_thread Control.leave Control.leave_with
leave_thread-Gone n c tid [] e h = absurd (omega arith)
leave_thread-Gone n c tid (pc ∷ []) e h = rw e (_, refl, refl)
leave_thread-Gone zero c tid (pc ∷ q ∷ pcs) e h = absurd (omega arith)
leave_thread-Gone (suc n) c tid (pc ∷ q ∷ pcs) e h =
    let (top, is_top) = back?-IsBusy (q ∷ pcs) (omega arith) in
    let popped : Control = record c { context = set c.context tid (pop_back (pc ∷ q ∷ pcs)) } in
    let there : get_elem? popped.context tid ≡ some (pop_back (pc ∷ q ∷ pcs)) =
      get_elem?-set_self c.context tid _ (get_elem?-lt c.context tid _ e) in
    let (d, ran, gone) =
      leave_thread-Gone n popped tid _ there (length-pop_back_cons pc (q ∷ pcs) ∙ omega arith) in
    rw (e, is_top) (d, ran, gone ∙ erase_at-set c.context tid _)

frames-length :
    (stacks : List (List ℕ)) (context : List (List Pc))
    → depths stacks ≡ depths context
    → length stacks ≡ length context
frames-length stacks context same =
    sym (length-depths stacks) ∙ ap length same ∙ length-depths context

-- In a state whose tables belong together, `pthread_exit` of a thread runs to its end with one state, without
-- the thread in its control. The layout is as it was, so that the tables of that state do not belong together.
pub do_builtin-thread_exit {ℓ} :
    {D : Type ℓ} (smt : DataStore D) (program : Program) (count : D → ℕ) (s0 s : State D)
    (result : Operand) (tid : ℕ) (create : Option Callee) (args : List Operand) (pc : Pc)
    (pcs : List Pc)
    → IsAligned count s
    → get_elem? s.control.context tid ≡ some (pc ∷ pcs)
    → Returns (Calls.do_builtin smt program thread_exit_call s0 s result tid create args) λ o.
      (y : Yield D) × (o.0 ≡ y ∷ [])
      × (y.state.control.context ≡ erase_at s.control.context tid)
      × (y.state.layout ≡ s.layout)
      × (¬ IsAligned count y.state)
unfolding Calls.do_builtin Calls.once
do_builtin-thread_exit smt program count s0 s result tid create args pc pcs h e =
    let (control, ran, gone) = leave_thread-Gone (length pcs) s.control tid (pc ∷ pcs) e refl in
    let fewer = length-erase_at s.control.context tid (get_elem?-lt s.control.context tid _ e) in
    let apart : ¬ IsAligned count (record s { control = control }) = λ aligned.
      let was = frames-length s.layout.segments_in_stack s.control.context h.frames in
      let is = frames-length s.layout.segments_in_stack control.context aligned.frames in
      let less : length control.context ≡ length (erase_at s.control.context tid) =
        ap length gone in
      omega arith in
    rw (e, ran) (_, refl, (_, refl, gone, refl, apart))
