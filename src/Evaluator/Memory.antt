-- ===== src/Evaluator/Memory.antt =====
-- The handlers of src/llvmsym/evaluator.h for the instructions with one successor: each gives the state that
-- it yields.
use sym_divine.Base.{
  ℕ, zero, suc, ◌+◌, ◌*◌, ◌%◌, true, false, ◌||◌, ◌&&◌, not, Option, none, some, List, [], ◌∷◌,
  ◌==◌, if◌then◌else◌, get_elem?, ◌>>=◌, ◌>>◌, ensure,
}
use sym_divine.Control.{Pc}
use sym_divine.Layout
use sym_divine.Layout.{Layout}
use sym_divine.ExplicitStore
use sym_divine.ExplicitStore.{ValueStore, Pointer}
use sym_divine.Stores.{DataStore, explicit_store}
use sym_divine.BaseSmtStore.{BinaryOp}
use sym_divine.LlvmTypes.{
  LlvmType, LlvmTypes, nil, cons, struct_type, array_type, get_elements_width,
  get_primitive_type_widths,
}
use sym_divine.Evaluator.{
  Operand, operand_is_pointer, Cast, Program, State, is_multival, is_symbolic_pointer,
  set_symbolic_pointer, layout_deref, deref, get_bb,
}
use sym_divine.Evaluator.Frames.{u32, add_segment}
use sym_divine.Evaluator.Values.{
  explicitly, symbolically, mark, store_explicit, pointee, constant_value, store_symbolic,
  copy_value, cast_in, binary_in,
}

-- The type of a field, and the widths of the fields before it.
abbrev pub field_at : LlvmTypes → ℕ → Option LlvmType
field_at nil n = none
field_at (cons t ts) zero = some t
field_at (cons t ts) (suc n) = field_at ts n

abbrev pub width_before : LlvmTypes → ℕ → Option ℕ
width_before ts zero = some 0
width_before nil (suc n) = none
width_before (cons t ts) (suc n) = do
  width ← get_elements_width t
  rest ← width_before ts n
  some (width + rest)

-- One round of the loop of `do_GEP`: the new offset and the type that the index selects. An index of an
-- array takes the place of the offset.
unfoldable pub gep_round : ℕ → LlvmType → ℕ → Option (ℕ × LlvmType)
gep_round offset (struct_type fields) index = do
  before ← width_before fields index
  t ← field_at fields index
  some (offset + before, t)
gep_round offset (array_type element count) index = do
  width ← get_elements_width element
  some (index * width, element)
gep_round offset t index = none

-- `getIncomingValueForBlock`
abbrev pub incoming_for : Pc → List ((ℕ × ℕ) × Operand) → Option Operand
incoming_for pc [] = none
incoming_for pc (((function, basicblock), v) ∷ rest) =
    let later = incoming_for pc rest in
    if pc.function == function && pc.basicblock == basicblock then some v else later

module _ {ℓ} {D : Type ℓ} (smt : DataStore D) (program : Program) where
  unfoldable pub do_alloca : State D → Operand → ℕ → Operand → LlvmType → Option (State D)
  unfolding add_segment mark explicitly
  do_alloca s result tid array_size allocated = do
    size ← deref program s array_size tid
    _ ← constant_value size
    (layout, sid) ← Layout.new_segment s.layout tid
    widths ← get_primitive_type_widths allocated
    grown ← add_segment smt program (record s { layout = layout }) sid widths
    to ← layout_deref program grown result tid false
    marked ← mark grown to false
    explicitly marked (
        ExplicitStore.implement_pointer_store marked.explicit_data to
          (record { segment = sid; offset = 0 }))

  unfoldable pub gep_offset : State D → ℕ → ℕ → LlvmType → List Operand → Option ℕ
  unfolding gep_round
  gep_offset s tid offset t [] = some offset
  gep_offset s tid offset t (v ∷ rest) = do
    idx_val ← deref program s v tid
    index ← constant_value idx_val
    (moved, selected) ← gep_round offset t index
    gep_offset s tid moved selected rest

  -- `do_GEP`, for the pointer, the type that it points to, the first index and the others.
  unfoldable pub do_gep :
      State D → Operand → ℕ → Operand → LlvmType → List Operand → Option (State D)
  unfolding gep_offset mark explicitly
  do_gep s result tid pointer t [] = none
  do_gep s result tid pointer t (first ∷ rest) = do
    idx ← deref program s first tid
    index ← constant_value idx
    width ← get_elements_width t
    offset ← gep_offset s tid (index * width) t rest
    base ← deref program s pointer tid
    word ← constant_value base
    to ← layout_deref program s result tid false
    marked ← mark s to false
    let p = ExplicitStore.to_pointer word
    explicitly marked (
        ExplicitStore.implement_pointer_store marked.explicit_data to
          (record p { offset = (p.offset + offset) % u32 }))

  unfoldable pub do_load : State D → Operand → ℕ → Operand → Option (State D)
  unfolding copy_value
  do_load s result tid pointer = do
    to ← layout_deref program s result tid false
    val ← deref program s pointer tid
    symbolic ← is_symbolic_pointer s.layout val
    ensure (not symbolic)
    word ← constant_value val
    copy_value smt s to (pointee word (operand_is_pointer result))

  unfoldable pub do_store : State D → ℕ → Operand → Operand → Option (State D)
  unfolding copy_value
  do_store s tid value pointer = do
    what ← deref program s value tid
    val ← layout_deref program s pointer tid false
    symbolic ← is_symbolic_pointer s.layout val
    ensure (not symbolic)
    word ← ExplicitStore.get s.explicit_data val
    copy_value smt s (pointee word (operand_is_pointer value)) what

  unfoldable pub do_phi : State D → Operand → ℕ → List ((ℕ × ℕ) × Operand) → Option (State D)
  unfolding copy_value
  do_phi s result tid incoming = do
    previous_bb ← get_elem? s.control.previous_bb tid
    _ ← get_bb program previous_bb
    v ← incoming_for previous_bb incoming
    what ← deref program s v tid
    to ← layout_deref program s result tid false
    copy_value smt s to what

  unfoldable pub do_cast : State D → Operand → ℕ → Cast → Operand → ℕ → Option (State D)
  unfolding mark cast_in
  do_cast s result tid kind operand to_bw = do
    a ← deref program s operand tid
    to ← layout_deref program s result tid false
    multival ← is_multival s.layout a
    marked ← mark s to multival
    again ← is_multival marked.layout a
    cast_in smt marked again kind to a to_bw

  -- The dispatcher's lines for the arithmetic instructions
  unfoldable pub do_binary :
      State D → Operand → ℕ → Option BinaryOp → Operand → Operand → Option (State D)
  unfolding binary_in
  do_binary s result tid op x y = do
    to ← layout_deref program s result tid false
    a ← deref program s x tid
    b ← deref program s y tid
    a_is_multival ← is_multival s.layout a
    b_is_multival ← is_multival s.layout b
    binary_in smt s (a_is_multival || b_is_multival) op to a b

  -- `do_ite`: a symbolic condition dies.
  unfoldable pub do_ite : State D → Operand → ℕ → Operand → Operand → Operand → Option (State D)
  unfolding mark store_explicit store_symbolic
  do_ite s result tid condition true_value false_value = do
    cond ← deref program s condition tid
    true_val ← deref program s true_value tid
    false_val ← deref program s false_value tid
    chosen ← constant_value cond
    let val = if chosen == 0 then false_val else true_val
    multival ← is_multival s.layout val
    to ← layout_deref program s result tid false
    marked ← mark s to multival
    elim multival [ true ↦ store_symbolic smt marked to val | false ↦ store_explicit marked to val ]

  -- The flag of the result stays.
  unfoldable pub do_ptrtoint : State D → Operand → ℕ → Operand → Option (State D)
  unfolding explicitly symbolically
  do_ptrtoint s result tid operand = do
    to ← layout_deref program s result tid false
    a ← deref program s operand tid
    symbolic ← is_symbolic_pointer s.layout a
    _ ← elim symbolic [ true ↦ some 0 | false ↦ constant_value a ]
    multival ← is_multival s.layout a
    elim multival [
      | true ↦ symbolically s (smt.implement_ptrtoint s.symbolic to a)
      | false ↦ explicitly s (explicit_store.implement_ptrtoint s.explicit_data to a)
    ]

  unfoldable pub do_inttoptr : State D → Operand → ℕ → Operand → Option (State D)
  unfolding explicitly symbolically
  do_inttoptr s result tid operand = do
    to ← layout_deref program s result tid false
    a ← deref program s operand tid
    multival ← is_multival s.layout a
    layout ← set_symbolic_pointer s.layout to true
    let marked : State D = record s { layout = layout }
    elim multival [
      | true ↦ symbolically marked (smt.implement_inttoptr marked.symbolic to a)
      | false ↦ explicitly marked (explicit_store.implement_inttoptr marked.explicit_data to a)
    ]
