-- ===== src/Evaluator/Aligned.antt =====
-- The tables of a state of src/llvmsym/evaluator.h belong together: the control, the layout and the two
-- stores have the same threads, frames and segments.
use sym_divine.Base.{
  ℕ, suc, ◌≡◌, refl, ap, Bool, Option, List, [], ◌∷◌, length, length-set, get_elem?, back?, ensure,
  Whenever, each, stop, never, ltb, ◌==◌,
}
use sym_divine.Datastore
use sym_divine.Datastore.{Value, Comparison}
use sym_divine.Control
use sym_divine.Control.{Control, Pc}
use sym_divine.Layout
use sym_divine.Layout.{Layout}
use sym_divine.ExplicitStore
use sym_divine.ExplicitStore.{ValueStore}
use sym_divine.Evaluator.Depths.{depths, depths-set, top-length}
use sym_divine.BaseSmtStore.{BinaryOp}
use sym_divine.Stores.{explicit_binary}
use sym_divine.BaseSmtStore.{
  add, mult, sub, quotient, urem_, srem_, and_, or_, xor_, left_shift, right_shift,
}

-- A layout after a change of its flags.
pub record SameLayout (l k : Layout) : Type 0 where
  pub flags : length k.variables_flags ≡ length l.variables_flags
  pub owners : length k.segments_to_tid ≡ length l.segments_to_tid
  pub frames : depths k.segments_in_stack ≡ depths l.segments_in_stack

pub record SameRows (s t : ValueStore) : Type 0 where
  pub cells : length t.cells ≡ length s.cells
  pub info : length t.info ≡ length s.info

-- The frames of a control, and how many threads it has.
abbrev pub SameStacks : Control → Control → Type 0
SameStacks c d = depths d.context ≡ depths c.context

pub with_flags-SameLayout :
    (l : Layout) (seg off flags : ℕ) → Whenever (Layout.with_flags l seg off flags) (SameLayout l)
with_flags-SameLayout l seg off flags = each (get_elem? l.variables_flags seg) _ λ segment e.
    stop (SameLayout l) _
      (record { flags = length-set l.variables_flags seg _; owners = refl; frames = refl })

pub set_multival-SameLayout :
    (l : Layout) (seg off : ℕ) (value : Bool)
    → Whenever (Layout.set_multival l seg off value) (SameLayout l)
unfolding Layout.set_multival
set_multival-SameLayout l seg off value =
    each (Layout.flags_of l seg off) _ λ flags e. with_flags-SameLayout l seg off _

pub set_symbolic_pointer-SameLayout :
    (l : Layout) (seg off : ℕ) (value : Bool)
    → Whenever (Layout.set_symbolic_pointer l seg off value) (SameLayout l)
unfolding Layout.set_symbolic_pointer
set_symbolic_pointer-SameLayout l seg off value =
    each (Layout.flags_of l seg off) _ λ flags e. with_flags-SameLayout l seg off _

with_cell-length {ℓ} :
    {A : Type ℓ} (rows : List (List A)) (segment offset : ℕ) (a : A)
    → Whenever (ExplicitStore.with_cell rows segment offset a) λ new. length new ≡ length rows
with_cell-length rows segment offset a = each (get_elem? rows segment) _ λ row e.
    each (get_elem? row offset) _
      λ old e'. stop (λ new. length new ≡ length rows) _ (length-set rows segment _)

pub assign-SameRows :
    (s : ValueStore) (result : Value) (what : ℕ) (flag : Bool)
    → Whenever (ExplicitStore.assign s result what flag) (SameRows s)
unfolding ExplicitStore.assign
assign-SameRows s (Datastore.constant value bw pointer) what flag = never (SameRows s)
assign-SameRows s (Datastore.variable segment offset pointer) what flag =
    each (ExplicitStore.cell s.info segment offset) _ λ info e.
      each (ExplicitStore.with_cell s.cells segment offset _) _ λ written e1.
        each (ExplicitStore.with_cell s.info segment offset _) _ λ infos e2.
          stop (SameRows s) _ (record {
            cells = with_cell-length s.cells segment offset _ written e1;
            info = with_cell-length s.info segment offset _ infos e2;
          })

pub implement_store-SameRows :
    (s : ValueStore) (result what : Value)
    → Whenever (ExplicitStore.implement_store s result what) (SameRows s)
unfolding ExplicitStore.implement_store
implement_store-SameRows s result what =
    each (ExplicitStore.get s what) _ λ x e. assign-SameRows s result x _

implement-SameRows :
    (op : ℕ → ℕ → Option ℕ) (s : ValueStore) (result a b : Value)
    → Whenever (ExplicitStore.implement op s result a b) (SameRows s)
unfolding ExplicitStore.implement
implement-SameRows op s result a b = each (ExplicitStore.get s a) _ λ x e.
    each (ExplicitStore.get s b) _ λ y e1. each (op x y) _ λ z e2. assign-SameRows s result z _

pub explicit_binary-SameRows :
    (op : BinaryOp) (s : ValueStore) (result a b : Value)
    → Whenever (explicit_binary op s result a b) (SameRows s)
unfolding explicit_binary ExplicitStore.implement_add ExplicitStore.implement_sub
    ExplicitStore.implement_mult ExplicitStore.implement_div ExplicitStore.implement_urem
    ExplicitStore.implement_srem ExplicitStore.implement_and ExplicitStore.implement_or
    ExplicitStore.implement_xor ExplicitStore.implement_left_shift
    ExplicitStore.implement_right_shift
explicit_binary-SameRows add s result a b = implement-SameRows _ s result a b
explicit_binary-SameRows mult s result a b = implement-SameRows _ s result a b
explicit_binary-SameRows sub s result a b = implement-SameRows _ s result a b
explicit_binary-SameRows quotient s result a b = implement-SameRows _ s result a b
explicit_binary-SameRows urem_ s result a b = implement-SameRows _ s result a b
explicit_binary-SameRows srem_ s result a b =
    each (ExplicitStore.get_bw s a) _ λ bw e. implement-SameRows _ s result a b
explicit_binary-SameRows and_ s result a b = implement-SameRows _ s result a b
explicit_binary-SameRows or_ s result a b = implement-SameRows _ s result a b
explicit_binary-SameRows xor_ s result a b = implement-SameRows _ s result a b
explicit_binary-SameRows left_shift s result a b = implement-SameRows _ s result a b
explicit_binary-SameRows right_shift s result a b = implement-SameRows _ s result a b

pub prune-SameRows :
    (s : ValueStore) (a b : Value) (op : Comparison)
    → Whenever (ExplicitStore.prune s a b op) (SameRows s)
unfolding ExplicitStore.prune
prune-SameRows s a b op = each (ExplicitStore.get_bw s a) _ λ bw_a e.
    each (ExplicitStore.get_bw s b) _ λ bw_b e1. each (ensure (bw_a == bw_b)) _ λ u e2.
      each (ExplicitStore.get s a) _ λ x e3. each (ExplicitStore.get s b) _ λ y e4.
        each (ExplicitStore.holds op bw_a x y) _
          λ h e5. stop (SameRows s) _ (record { cells = refl; info = refl })

moved_rows-length :
    (from count : ℕ) (rows : List (List ℕ)) (info : List (List ExplicitStore.VariableInfo))
    → length (ExplicitStore.moved_rows from count rows info) ≡ length rows
moved_rows-length from count [] info = refl
moved_rows-length from count (row ∷ rows) [] = refl
moved_rows-length from count (row ∷ rows) (infos ∷ info) =
    ap suc (moved_rows-length from count rows info)

pub move_pointers-SameRows :
    (s : ValueStore) (from count : ℕ) → SameRows s (ExplicitStore.move_pointers s from count)
unfolding ExplicitStore.move_pointers
move_pointers-SameRows s from count = record {
  cells = moved_rows-length from count s.cells s.info;
  info = refl;
}

pub jump_to-SameStacks :
    (c : Control) (pc : Pc) (tid : ℕ) (remember : Bool)
    → Whenever (Control.jump_to c pc tid remember) (SameStacks c)
unfolding Control.jump_to
jump_to-SameStacks c pc tid remember = each (get_elem? c.context tid) _ λ stack e.
    each (back? stack) _ λ top e1. each (ensure (ltb tid (length c.previous_bb))) _ λ u e2.
      stop (SameStacks c) _ (depths-set c.context tid stack _ e (top-length stack top pc e1))

pub advance_by-SameStacks :
    (c : Control) (tid delta : ℕ) → Whenever (Control.advance_by c tid delta) (SameStacks c)
unfolding Control.advance_by
advance_by-SameStacks c tid delta = each (get_elem? c.context tid) _ λ stack e.
    each (back? stack) _ λ top e1.
      stop (SameStacks c) _ (depths-set c.context tid stack _ e (top-length stack top _ e1))

pub enter_atomic_section-SameStacks :
    (c : Control) (tid : ℕ) → Whenever (Control.enter_atomic_section c tid) (SameStacks c)
unfolding Control.enter_atomic_section
enter_atomic_section-SameStacks c tid = each (ensure (ltb tid (length c.context))) _ λ u e.
    each (ensure (Control.owned_by (back? c.atomic_section) tid)) _
      λ v e1. stop (SameStacks c) _ refl

pub leave_atomic_section-SameStacks :
    (c : Control) (tid : ℕ) → Whenever (Control.leave_atomic_section c tid) (SameStacks c)
unfolding Control.leave_atomic_section
leave_atomic_section-SameStacks c tid =
    each (back? c.atomic_section) _
      λ owner e. each (ensure (owner == tid)) _ λ v e1. stop (SameStacks c) _ refl
