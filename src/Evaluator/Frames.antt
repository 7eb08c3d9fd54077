-- ===== src/Evaluator/Frames.antt =====
-- The functions of src/llvmsym/evaluator.h that begin and end threads and stack frames: each changes the
-- control, the layout and both stores.
use sym_divine.Base.{
  ℕ, zero, suc, ◌-◌, ◌^◌, Bool, true, false, Option, some, List, get_elem?, ◌>>=◌,
}
use sym_divine.Control
use sym_divine.Control.{Control, Pc, pc_zero}
use sym_divine.Layout
use sym_divine.Layout.{Layout}
use sym_divine.ExplicitStore
use sym_divine.ExplicitStore.{ValueStore, Pointer}
use sym_divine.Stores.{DataStore}
use sym_divine.Evaluator.{Program, State, Target, get_bb, switch_bb}

abbrev pub u32 : ℕ
u32 = 2 ^ 32

-- What `movePointers` is given for a range of segments that is erased: a negative number, as a word.
abbrev pub minus : ℕ → ℕ
minus count = u32 - count

module _ {ℓ} {D : Type ℓ} (program : Program) where
  -- `state.layout.switchBB( getBB( pc ), tid )`
  unfoldable pub switch_to : State D → Pc → ℕ → Option (State D)
  switch_to s pc tid = do
    (block, frame) ← get_bb program pc
    frames ← switch_bb s.current_frames frame tid
    some (record s { current_frames = frames })

  -- `jumpTo`
  unfoldable pub jump_to : State D → Target → ℕ → Option (State D)
  unfolding switch_to
  jump_to s target tid = do
    control ← Control.jump_to s.control target.place tid target.has_phi
    switch_to (record s { control = control }) target.place tid

  -- The last part of `leave`: the thread goes on with the caller's block.
  unfoldable pub back_to : State D → ℕ → Bool → Option (State D)
  unfolding switch_to
  back_to s tid true = some s
  back_to s tid false = do pc ← Control.get_pc s.control tid; switch_to s pc tid

module _ {ℓ} {D : Type ℓ} (smt : DataStore D) (program : Program) where
  -- The three `addSegment` calls and `movePointers( sid, 1 )`.
  unfoldable pub add_segment : State D → ℕ → List ℕ → Option (State D)
  add_segment s sid widths = do
    symbolic ← smt.add_segment s.symbolic sid widths
    explicit ← ExplicitStore.add_segment s.explicit_data sid widths
    layout ← Layout.add_segment s.layout sid widths
    some (record s {
      symbolic = symbolic;
      explicit_data = ExplicitStore.move_pointers explicit sid 1;
      layout = layout;
    })

  -- The loop that erases the segments of a frame: each time the first one, as the later ones move up.
  unfoldable pub erase_segments : ℕ → State D → ℕ → Option (State D)
  erase_segments zero s first = some s
  erase_segments (suc count) s first = do
    symbolic ← smt.erase_segment s.symbolic first
    explicit ← ExplicitStore.erase_segment s.explicit_data first
    layout ← Layout.erase_segment s.layout first
    erase_segments count
        (record s { symbolic = symbolic; explicit_data = explicit; layout = layout }) first

  unfoldable pub leave : State D → ℕ → Option (State D)
  unfolding erase_segments back_to
  leave s tid = do
    last ← Control.last s.control tid
    (control, ended) ← Control.leave s.control tid
    (first, end) ← Layout.last_stack_segment_range s.layout tid
    erased ← erase_segments (end - first) (record s { control = control }) first
    layout ← Layout.leave erased.layout tid
    back_to program
        (record erased {
          explicit_data =
              ExplicitStore.move_pointers erased.explicit_data first (minus (end - first));
          layout = layout;
        })
        tid last

  unfoldable pub enter_function : State D → ℕ → ℕ → Option (State D)
  unfolding add_segment switch_to
  enter_function s fun_id tid = do
    control ← Control.enter_function s.control fun_id tid
    stacked ← Layout.new_stack s.layout tid
    (layout, wanted) ← Layout.new_segment stacked tid
    (sid, end) ← Layout.last_stack_segment_range layout tid
    f ← get_elem? program.functions fun_id
    grown ← add_segment (record s { control = control; layout = layout }) sid f.bit_widths
    pc ← Control.get_pc grown.control tid
    switch_to program grown pc tid

  -- `startThread`, and the id of the thread
  unfoldable pub start_thread : State D → ℕ → Option (State D × ℕ)
  unfolding add_segment switch_to
  start_thread s fun_id = do
    let (control, tid) = Control.start_thread s.control fun_id
    let last_thread = Control.thread_count control - 1
    pc ← Control.get_pc control last_thread
    (layout, wanted) ← Layout.start_thread s.layout
    (sid, end) ← Layout.last_stack_segment_range layout last_thread
    f ← get_elem? program.functions fun_id
    grown ← add_segment (record s { control = control; layout = layout }) sid f.bit_widths
    switched ← switch_to program grown pc last_thread
    some (switched, tid)
