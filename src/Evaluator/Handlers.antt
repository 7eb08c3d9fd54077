-- ===== src/Evaluator/Handlers.antt =====
-- The handlers of src/llvmsym/evaluator.h for instructions that write a value keep the tables of the state
-- together.
use sym_divine.Base.{
  ℕ, ◌*◌, ◌∙◌, Bool, true, false, Option, some, List, [], ◌∷◌, ◌||◌, ensure, Whenever, each, never,
  get_elem?, not, arith, if◌then◌else◌, ◌==◌,
}
use sym_divine.Datastore.{Value}
use sym_divine.Layout
use sym_divine.Layout.{Layout}
use sym_divine.ExplicitStore
use sym_divine.ExplicitStore.{ValueStore, Pointer}
use sym_divine.BaseSmtStore.{BinaryOp}
use sym_divine.LlvmTypes.{LlvmType, get_elements_width, get_primitive_type_widths}
use sym_divine.Stores.{DataStore, explicit_store}
use sym_divine.Stores.Laws.{KeepsSegments}
use sym_divine.Evaluator
use sym_divine.Evaluator.{Operand, operand_is_pointer, State, Cast, Program, get_bb}
use sym_divine.Evaluator.Frames
use sym_divine.Evaluator.Values
use sym_divine.Evaluator.Values.{constant_value, pointee}
use sym_divine.Evaluator.Memory
use sym_divine.Evaluator.Aligned.{implement_store-SameRows}
use sym_divine.Evaluator.Tables.{new_segment-Becomes}
use sym_divine.Evaluator.Preserved.{IsAligned, grown-IsAligned}
use sym_divine.Evaluator.Writes.{
  mark-IsAligned, set_symbolic_pointer-IsAligned, explicitly-IsAligned, symbolically-IsAligned,
  store_explicit-IsAligned, pointer_store-IsAligned, store_symbolic-IsAligned, copy_value-IsAligned,
  cast_in-IsAligned, binary_in-IsAligned,
}

module _ {ℓ} {D : Type ℓ} (smt : DataStore D) (count : D → ℕ) (laws : KeepsSegments smt count)
    (program : Program) (s : State D) (result : Operand) (tid : ℕ) (h : IsAligned count s) where
  pub do_alloca-IsAligned :
      (size : Operand) (allocated : LlvmType)
      → Whenever (Memory.do_alloca smt program s result tid size allocated) (IsAligned count)
  unfolding Memory.do_alloca
  do_alloca-IsAligned size allocated = each (Evaluator.deref program s size tid) _ λ v e.
      each (constant_value v) _ λ n e1. each (Layout.new_segment s.layout tid) _ λ made e2.
        each (get_primitive_type_widths allocated) _ λ widths e3.
          each (Frames.add_segment smt program (record s { layout = made.0 }) made.1 widths) _
            λ grown e4. each (Evaluator.layout_deref program grown result tid false) _ λ to e5.
              each (Values.mark grown to false) _ λ marked e6.
                let new = new_segment-Becomes s.layout tid made e2 in
                let k =
                  grown-IsAligned smt count laws program s s.control made.0 made.1 widths h
                    (new.owners ∙ omega arith) new.flags (new.frames ∙ h.frames) grown e4 in
                pointer_store-IsAligned count marked
                  (mark-IsAligned count grown k to false marked e6) to _

  pub do_gep-IsAligned :
      (pointer : Operand) (t : LlvmType) (indices : List Operand)
      → Whenever (Memory.do_gep smt program s result tid pointer t indices) (IsAligned count)
  unfolding Memory.do_gep
  do_gep-IsAligned pointer t [] = never (IsAligned count)
  do_gep-IsAligned pointer t (first ∷ rest) = each (Evaluator.deref program s first tid) _ λ idx e.
      each (constant_value idx) _ λ index e1. each (get_elements_width t) _ λ width e2.
        each (Memory.gep_offset smt program s tid (index * width) t rest) _ λ offset e3.
          each (Evaluator.deref program s pointer tid) _ λ base e4.
            each (constant_value base) _ λ word e5.
              each (Evaluator.layout_deref program s result tid false) _ λ to e6.
                each (Values.mark s to false) _ λ marked e7.
                  pointer_store-IsAligned count marked (mark-IsAligned count s h to false marked e7)
                    to _

  pub do_load-IsAligned :
      (pointer : Operand)
      → Whenever (Memory.do_load smt program s result tid pointer) (IsAligned count)
  unfolding Memory.do_load
  do_load-IsAligned pointer = each (Evaluator.layout_deref program s result tid false) _ λ to e.
      each (Evaluator.deref program s pointer tid) _ λ val e1.
        each (Evaluator.is_symbolic_pointer s.layout val) _ λ symbolic e2.
          each (ensure (not symbolic)) _ λ u e3.
            each (constant_value val) _ λ word e4. copy_value-IsAligned smt count laws s to _ h

  pub do_store-IsAligned :
      (value pointer : Operand)
      → Whenever (Memory.do_store smt program s tid value pointer) (IsAligned count)
  unfolding Memory.do_store
  do_store-IsAligned value pointer = each (Evaluator.deref program s value tid) _ λ what e.
      each (Evaluator.layout_deref program s pointer tid false) _ λ val e1.
        each (Evaluator.is_symbolic_pointer s.layout val) _ λ symbolic e2.
          each (ensure (not symbolic)) _ λ u e3.
            each (ExplicitStore.get s.explicit_data val) _
              λ word e4. copy_value-IsAligned smt count laws s _ what h

  pub do_phi-IsAligned :
      (incoming : List ((ℕ × ℕ) × Operand))
      → Whenever (Memory.do_phi smt program s result tid incoming) (IsAligned count)
  unfolding Memory.do_phi
  do_phi-IsAligned incoming = each (get_elem? s.control.previous_bb tid) _ λ pc e.
      each (get_bb program pc) _ λ b e1. each (Memory.incoming_for pc incoming) _ λ v e2.
        each (Evaluator.deref program s v tid) _ λ what e3.
          each (Evaluator.layout_deref program s result tid false) _
            λ to e4. copy_value-IsAligned smt count laws s to what h

  pub do_cast-IsAligned :
      (kind : Cast) (operand : Operand) (bw : ℕ)
      → Whenever (Memory.do_cast smt program s result tid kind operand bw) (IsAligned count)
  unfolding Memory.do_cast
  do_cast-IsAligned kind operand bw = each (Evaluator.deref program s operand tid) _ λ a e.
      each (Evaluator.layout_deref program s result tid false) _ λ to e1.
        each (Evaluator.is_multival s.layout a) _ λ multival e2.
          each (Values.mark s to multival) _ λ marked e3.
            each (Evaluator.is_multival marked.layout a) _ λ again e4.
              cast_in-IsAligned smt count laws marked again kind to a bw
                (mark-IsAligned count s h to multival marked e3)

  pub do_binary-IsAligned :
      (op : Option BinaryOp) (x y : Operand)
      → Whenever (Memory.do_binary smt program s result tid op x y) (IsAligned count)
  unfolding Memory.do_binary
  do_binary-IsAligned op x y = each (Evaluator.layout_deref program s result tid false) _ λ to e.
      each (Evaluator.deref program s x tid) _ λ a e1.
        each (Evaluator.deref program s y tid) _ λ b e2.
          each (Evaluator.is_multival s.layout a) _ λ a_is e3.
            each (Evaluator.is_multival s.layout b) _
              λ b_is e4. binary_in-IsAligned smt count laws s (a_is || b_is) op to a b h

  chosen-IsAligned :
      (b : Bool) (t : State D) (to val : Value)
      → IsAligned count t
      → Whenever
          (elim b [
            | true ↦ Values.store_symbolic smt t to val
            | false ↦ Values.store_explicit t to val
          ])
          (IsAligned count)
  chosen-IsAligned true t to val k = store_symbolic-IsAligned smt count laws t to val k
  chosen-IsAligned false t to val k = store_explicit-IsAligned count t k to val

  pub do_ite-IsAligned :
      (condition true_value false_value : Operand)
      → Whenever
          (Memory.do_ite smt program s result tid condition true_value false_value)
          (IsAligned count)
  unfolding Memory.do_ite
  do_ite-IsAligned condition true_value false_value =
      each (Evaluator.deref program s condition tid) _ λ cond e.
        each (Evaluator.deref program s true_value tid) _ λ true_val e1.
          each (Evaluator.deref program s false_value tid) _ λ false_val e2.
            each (constant_value cond) _ λ chosen e3.
              let val = if chosen == 0 then false_val else true_val in
              each (Evaluator.is_multival s.layout val) _ λ multival e4.
                each (Evaluator.layout_deref program s result tid false) _ λ to e5.
                  each (Values.mark s to multival) _ λ marked e6.
                    chosen-IsAligned multival marked to val
                      (mark-IsAligned count s h to multival marked e6)

  from_pointer-IsAligned :
      (b : Bool) (to a : Value)
      → Whenever
          (elim b [
            | true ↦ Values.symbolically s (smt.implement_ptrtoint s.symbolic to a)
            | false ↦ Values.explicitly s (explicit_store.implement_ptrtoint s.explicit_data to a)
          ])
          (IsAligned count)
  from_pointer-IsAligned true to a =
      symbolically-IsAligned count s h _ (laws.ptrtoint s.symbolic to a)
  from_pointer-IsAligned false to a =
      explicitly-IsAligned count s h _ (implement_store-SameRows s.explicit_data to a)

  pub do_ptrtoint-IsAligned :
      (operand : Operand)
      → Whenever (Memory.do_ptrtoint smt program s result tid operand) (IsAligned count)
  unfolding Memory.do_ptrtoint
  do_ptrtoint-IsAligned operand = each (Evaluator.layout_deref program s result tid false) _ λ to e.
      each (Evaluator.deref program s operand tid) _ λ a e1.
        each (Evaluator.is_symbolic_pointer s.layout a) _ λ symbolic e2.
          each (elim symbolic [ true ↦ some 0 | false ↦ constant_value a ]) _
            λ n e3.
              each (Evaluator.is_multival s.layout a) _
                λ multival e4. from_pointer-IsAligned multival to a

  to_pointer-IsAligned :
      (b : Bool) (t : State D) (to a : Value)
      → IsAligned count t
      → Whenever
          (elim b [
            | true ↦ Values.symbolically t (smt.implement_inttoptr t.symbolic to a)
            | false ↦ Values.explicitly t (explicit_store.implement_inttoptr t.explicit_data to a)
          ])
          (IsAligned count)
  to_pointer-IsAligned true t to a k =
      symbolically-IsAligned count t k _ (laws.inttoptr t.symbolic to a)
  to_pointer-IsAligned false t to a k =
      explicitly-IsAligned count t k _ (implement_store-SameRows t.explicit_data to a)

  pub do_inttoptr-IsAligned :
      (operand : Operand)
      → Whenever (Memory.do_inttoptr smt program s result tid operand) (IsAligned count)
  unfolding Memory.do_inttoptr
  do_inttoptr-IsAligned operand = each (Evaluator.layout_deref program s result tid false) _ λ to e.
      each (Evaluator.deref program s operand tid) _ λ a e1.
        each (Evaluator.is_multival s.layout a) _ λ multival e2.
          each (Evaluator.set_symbolic_pointer s.layout to true) _ λ layout e3.
            to_pointer-IsAligned multival (record s { layout = layout }) to a
              (set_symbolic_pointer-IsAligned count s h to true layout e3)
