-- ===== src/Evaluator/Preserved.antt =====
-- The four tables of a state of src/llvmsym/evaluator.h, the control, the layout and both stores, keep the same
-- segments and the same frames when a function is entered or left.
use sym_divine.Base.{
  ℕ, suc, ◌+◌, ◌-◌, ◌≤◌, ◌<◌, ◌≡◌, refl, sym, ◌∙◌, ap, Bool, true, false, some, List, length,
  get_elem?, set, Whenever, each, stop, some_inj, arith, subst,
}
use sym_divine.Control
use sym_divine.Control.{Control, Pc}
use sym_divine.Layout
use sym_divine.Layout.{Layout}
use sym_divine.ExplicitStore
use sym_divine.ExplicitStore.{ValueStore}
use sym_divine.Stores.{DataStore}
use sym_divine.Stores.Laws.{KeepsSegments}
use sym_divine.Evaluator.{Program, State, get_bb, switch_bb}
use sym_divine.Evaluator.Frames
use sym_divine.Evaluator.Aligned.{move_pointers-SameRows}
use sym_divine.Evaluator.Depths.{depths, depths-same}
use sym_divine.Evaluator.Tables.{
  range-lt, dropped, new_stack-Stacked, new_segment-Becomes, leave-Drops, leave-Left,
  enter_function-Entered,
}
use sym_divine.Evaluator.Segments.{HasSegments, Keeps, add_segment-Added, erase_segments-Erased}

-- A state with other frames of values.
abbrev pub Switched {ℓ} : {D : Type ℓ} → State D → State D → Type ℓ
Switched s t = (frames : List (List ℕ)) × (record s { current_frames = frames } ≡ t)

-- The stores and the layout have the same segments, and the layout and the control the same frames.
pub record IsAligned {ℓ} {D : Type ℓ} (count : D → ℕ) (s : State D) : Type 0 where
  pub segments : HasSegments count (length s.layout.segments_to_tid) s
  pub frames : depths s.layout.segments_in_stack ≡ depths s.control.context

-- The same change of the shapes of the layout and of the control.
same_frames :
    (l : Layout) (c : Control) (tid : ℕ) (below : List ℕ) (stack : List Pc)
    → depths l.segments_in_stack ≡ depths c.context
    → get_elem? l.segments_in_stack tid ≡ some below
    → get_elem? c.context tid ≡ some stack
    → (change : List ℕ → ℕ → List ℕ)
    → change (depths l.segments_in_stack) (length below) ≡ change (depths c.context) (length stack)
same_frames l c tid below stack same e e1 change =
    let deep = depths-same l.segments_in_stack c.context tid below stack same e e1 in
    ap (λ shape. change shape (length below)) same ∙ ap (change (depths c.context)) deep

-- The layout `l` without the innermost frame of the thread and its segments, `m` of which are left.
record Shorter (l : Layout) (flags : List (List ℕ)) (tid m : ℕ) (after : Layout) : Type 0 where
  owners : length after.segments_to_tid ≡ m
  same_flags : after.variables_flags ≡ flags
  stack : List ℕ
  found : get_elem? l.segments_in_stack tid ≡ some stack
  frames : depths after.segments_in_stack ≡ dropped (depths l.segments_in_stack) tid (length stack)

-- `leave` of a layout whose flags were changed, for as many segments as were erased.
left_layout :
    (l k after : Layout) (tid : ℕ) (range : ℕ × ℕ) (m : ℕ)
    → k ≡ record l { variables_flags = k.variables_flags }
    → Layout.leave k tid ≡ some after
    → Layout.last_stack_segment_range l tid ≡ some range
    → m + (range.1 - range.0) ≡ length l.segments_to_tid
    → (0 < range.1 - range.0 → range.0 ≤ m)
    → Shorter l k.variables_flags tid m after
unfolding Layout.last_stack_segment_range
left_layout l k after tid range m flagged left ranged total above =
    let drops = leave-Drops k tid after left in
    let same : drops.range ≡ range =
      some_inj
        (sym drops.ranged ∙ ap (λ l. Layout.last_stack_segment_range l tid) flagged ∙ ranged) in
    let owned : length k.segments_to_tid ≡ length l.segments_to_tid =
      ap (λ l. length l.segments_to_tid) flagged in
    let lt = range-lt l tid range ranged in
    let ends : drops.range.1 ≡ range.1 = ap (λ r. r.1) same in
    let starts : drops.range.0 ≡ range.0 = ap (λ r. r.0) same in
    let low = above (omega arith) in
    let cut = drops.owners (omega arith) in
    record {
      owners = omega arith;
      same_flags = drops.flags;
      stack = drops.stack;
      found = ap (λ l. get_elem? l.segments_in_stack tid) (sym flagged) ∙ drops.found;
      frames =
          drops.frames
          ∙ ap (λ l. dropped (depths l.segments_in_stack) tid (length drops.stack)) flagged;
    }

module _ {ℓ} {D : Type ℓ} (count : D → ℕ) where
  pub Switched-IsAligned : (s t : State D) → IsAligned count s → Switched s t → IsAligned count t
  Switched-IsAligned s t h w = subst (IsAligned count) w.1 (record {
    segments = record {
      cells = h.segments.cells;
      info = h.segments.info;
      symbols = h.segments.symbols;
      flags = h.segments.flags;
    };
    frames = h.frames;
  })

  -- The tables that go with the stores of a state go with those it keeps.
  Keeps-IsAligned :
      (s t : State D)
      → HasSegments count (length s.layout.segments_to_tid) t
      → Keeps s t
      → depths s.layout.segments_in_stack ≡ depths s.control.context
      → IsAligned count t
  Keeps-IsAligned s t has keeps same =
      let owners : length s.layout.segments_to_tid ≡ length t.layout.segments_to_tid =
        ap (λ l. length l.segments_to_tid) (sym keeps.layout) in
      record {
        segments = subst (λ n. HasSegments count n t) owners has;
        frames =
            ap (λ l. depths l.segments_in_stack) keeps.layout
            ∙ same
            ∙ ap (λ c. depths c.context) (sym keeps.control);
      }

module _ {ℓ} {D : Type ℓ} (program : Program) where
  -- The switch to another block changes the frames of values only.
  pub switch_to-Switched :
      (s : State D) (pc : Pc) (tid : ℕ) → Whenever (Frames.switch_to program s pc tid) (Switched s)
  unfolding Frames.switch_to
  switch_to-Switched s pc tid = each (get_bb program pc) _ λ b e.
      each (switch_bb s.current_frames b.1 tid) _ λ frames e1. stop (Switched s) _ (frames, refl)

  back_to-Switched :
      (s : State D) (tid : ℕ) (last : Bool)
      → Whenever (Frames.back_to program s tid last) (Switched s)
  unfolding Frames.back_to
  back_to-Switched s tid true = stop (Switched s) _ (s.current_frames, refl)
  back_to-Switched s tid false =
      each (Control.get_pc s.control tid) _ λ pc e. switch_to-Switched s pc tid

module _ {ℓ} {D : Type ℓ} (smt : DataStore D) (count : D → ℕ) (laws : KeepsSegments smt count)
    (program : Program) where
  -- The stores are given the segment that the layout already has.
  pub grown-IsAligned :
      (s : State D) (control : Control) (layout : Layout) (sid : ℕ) (widths : List ℕ)
      → IsAligned count s
      → length layout.segments_to_tid ≡ suc (length s.layout.segments_to_tid)
      → layout.variables_flags ≡ s.layout.variables_flags
      → depths layout.segments_in_stack ≡ depths control.context
      → Whenever
          (Frames.add_segment smt program
            (record s { control = control; layout = layout })
            sid
            widths)
          (IsAligned count)
  grown-IsAligned s control layout sid widths h owners flags frames grown e =
      let moved : State D = record s { control = control; layout = layout } in
      let has : HasSegments count (length s.layout.segments_to_tid) moved = record {
        cells = h.segments.cells;
        info = h.segments.info;
        symbols = h.segments.symbols;
        flags = ap length flags ∙ h.segments.flags;
      } in
      let (grows, keeps) =
        add_segment-Added smt count laws program moved sid widths (length s.layout.segments_to_tid)
          has grown e in
      Keeps-IsAligned count moved grown (subst (λ n. HasSegments count n grown) (sym owners) grows)
        keeps frames

  -- If the symbolic store keeps its segments as it should, and the tables of a state belong together (the control
  -- and the layout have the same frames, the layout and both stores the same segments), then so do those of the
  -- state that `enterFunction` gives when it runs to its end.
  pub enter_function-IsAligned :
      (s : State D) (fun_id tid : ℕ)
      → IsAligned count s
      → Whenever (Frames.enter_function smt program s fun_id tid) (IsAligned count)
  unfolding Frames.enter_function
  enter_function-IsAligned s fun_id tid h =
      each (Control.enter_function s.control fun_id tid) _ λ control e.
        each (Layout.new_stack s.layout tid) _ λ stacked e1.
          each (Layout.new_segment stacked tid) _ λ made e2.
            each (Layout.last_stack_segment_range made.0 tid) _ λ range e3.
              each (get_elem? program.functions fun_id) _ λ f e4.
                each
                  (Frames.add_segment smt program (record s { control = control; layout = made.0 })
                    range.0 f.bit_widths)
                  _
                  λ grown e5. each (Control.get_pc grown.control tid) _ λ pc e6. λ t e7.
                    let entered = enter_function-Entered s.control tid fun_id control e in
                    let below = new_stack-Stacked s.layout tid stacked e1 in
                    let new = new_segment-Becomes stacked tid made e2 in
                    let owners = new.owners ∙ ap (λ n. n + 1) below.2.owners ∙ omega arith in
                    let frames =
                      new.frames
                      ∙ below.2.frames
                      ∙ same_frames s.layout s.control tid below.0 entered.0 h.frames below.1
                          entered.1 (λ shape n. set shape tid (suc n))
                      ∙ sym entered.2 in
                    Switched-IsAligned count grown t
                      (grown-IsAligned s control made.0 range.0 f.bit_widths h owners
                        (new.flags ∙ below.2.flags) frames grown e5)
                      (switch_to-Switched program grown pc tid t e7)

  -- If the symbolic store keeps its segments as it should, and the tables of a state belong together, then so do
  -- those of the state that `leave` gives when it runs to its end, whether the thread ends or not.
  pub leave-IsAligned :
      (s : State D) (tid : ℕ)
      → IsAligned count s
      → Whenever (Frames.leave smt program s tid) (IsAligned count)
  unfolding Frames.leave
  leave-IsAligned s tid h = each (Control.last s.control tid) _ λ last e.
      each (Control.leave s.control tid) _ λ gone e1.
        each (Layout.last_stack_segment_range s.layout tid) _ λ range e2.
          each
            (Frames.erase_segments smt program (range.1 - range.0) (record s { control = gone.0 })
              range.0)
            _
            λ erased e3. each (Layout.leave erased.layout tid) _ λ layout e4. λ t e5.
              let left = leave-Left s.control tid gone e1 in
              let start : State D = record s { control = gone.0 } in
              let has : HasSegments count (length s.layout.segments_to_tid) start = record {
                cells = h.segments.cells;
                info = h.segments.info;
                symbols = h.segments.symbols;
                flags = h.segments.flags;
              } in
              let (m, total, above, fewer, keeps) =
                erase_segments-Erased smt count laws program (range.1 - range.0) start range.0 _ has
                  erased e3 in
              let after : Shorter s.layout erased.layout.variables_flags tid m layout =
                left_layout s.layout erased.layout layout tid range m keeps.layout e4 e2 total
                  above in
              let done : State D = record erased {
                explicit_data =
                    ExplicitStore.move_pointers erased.explicit_data range.0
                      (Frames.minus (range.1 - range.0));
                layout = layout;
              } in
              let moved =
                move_pointers-SameRows erased.explicit_data range.0
                  (Frames.minus (range.1 - range.0)) in
              Switched-IsAligned count done t
                (record {
                  segments = record {
                    cells = moved.cells ∙ fewer.cells ∙ sym after.owners;
                    info = moved.info ∙ fewer.info ∙ sym after.owners;
                    symbols = fewer.symbols ∙ sym after.owners;
                    flags = ap length after.same_flags ∙ fewer.flags ∙ sym after.owners;
                  };
                  frames =
                      after.frames
                      ∙ same_frames s.layout s.control tid after.stack left.0 h.frames after.found
                          left.1 (λ shape n. dropped shape tid n)
                      ∙ sym left.2
                      ∙ ap (λ c. depths c.context) (sym keeps.control);
                })
                (back_to-Switched program done tid last t e5)
