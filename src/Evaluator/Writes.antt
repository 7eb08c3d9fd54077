-- ===== src/Evaluator/Writes.antt =====
-- The ways in which the handlers of src/llvmsym/evaluator.h write a value keep the tables of the state together.
use sym_divine.Base.{
  ℕ, ◌≡◌, sym, ◌∙◌, Bool, true, false, Option, none, some, ◌||◌, Whenever, each, stop, never,
}
use sym_divine.Datastore
use sym_divine.Datastore.{Value, Comparison}
use sym_divine.Control.{Control}
use sym_divine.Layout
use sym_divine.Layout.{Layout}
use sym_divine.ExplicitStore
use sym_divine.ExplicitStore.{ValueStore, Pointer}
use sym_divine.BaseSmtStore.{BinaryOp}
use sym_divine.Stores.{DataStore, explicit_store}
use sym_divine.Stores.Laws.{KeepsSegments}
use sym_divine.Evaluator
use sym_divine.Evaluator.{State, Cast, zext, sext, trunc, Target, Program}
use sym_divine.Evaluator.Values
use sym_divine.Evaluator.Aligned.{
  SameLayout, SameRows, SameStacks, set_multival-SameLayout, set_symbolic_pointer-SameLayout,
  implement_store-SameRows, explicit_binary-SameRows, prune-SameRows,
}
use sym_divine.Evaluator.Preserved.{IsAligned}

module _ {ℓ} {D : Type ℓ} (count : D → ℕ) (s : State D) (h : IsAligned count s) where
  with_layout :
      (layout : Layout)
      → SameLayout s.layout layout
      → IsAligned count (record s { layout = layout })
  with_layout layout same = record {
    segments = record {
      cells = h.segments.cells ∙ sym same.owners;
      info = h.segments.info ∙ sym same.owners;
      symbols = h.segments.symbols ∙ sym same.owners;
      flags = same.flags ∙ h.segments.flags ∙ sym same.owners;
    };
    frames = same.frames ∙ h.frames;
  }

  with_rows :
      (rows : ValueStore)
      → SameRows s.explicit_data rows
      → IsAligned count (record s { explicit_data = rows })
  with_rows rows same = record {
    segments = record {
      cells = same.cells ∙ h.segments.cells;
      info = same.info ∙ h.segments.info;
      symbols = h.segments.symbols;
      flags = h.segments.flags;
    };
    frames = h.frames;
  }

  with_symbols : (d : D) → count d ≡ count s.symbolic → IsAligned count (record s { symbolic = d })
  with_symbols d same = record {
    segments = record {
      cells = h.segments.cells;
      info = h.segments.info;
      symbols = same ∙ h.segments.symbols;
      flags = h.segments.flags;
    };
    frames = h.frames;
  }

  pub with_stacks :
      (c : Control) → SameStacks s.control c → IsAligned count (record s { control = c })
  with_stacks c same = record {
    segments = record {
      cells = h.segments.cells;
      info = h.segments.info;
      symbols = h.segments.symbols;
      flags = h.segments.flags;
    };
    frames = h.frames ∙ sym same;
  }

  pub mark-IsAligned :
      (result : Value) (b : Bool) → Whenever (Values.mark s result b) (IsAligned count)
  unfolding Values.mark Evaluator.set_multival
  mark-IsAligned (Datastore.constant value bw pointer) b = never (IsAligned count)
  mark-IsAligned (Datastore.variable segment offset pointer) b =
      each (Layout.set_multival s.layout segment offset b) _ λ layout e.
        stop (IsAligned count) _
          (with_layout layout (set_multival-SameLayout s.layout segment offset b layout e))

  pub set_symbolic_pointer-IsAligned :
      (result : Value) (b : Bool)
      → Whenever
          (Evaluator.set_symbolic_pointer s.layout result b)
          λ layout. IsAligned count (record s { layout = layout })
  unfolding Evaluator.set_symbolic_pointer
  set_symbolic_pointer-IsAligned (Datastore.constant value bw pointer) b =
      never (λ layout. IsAligned count (record s { layout = layout }))
  set_symbolic_pointer-IsAligned (Datastore.variable segment offset pointer) b = λ layout e.
      with_layout layout (set_symbolic_pointer-SameLayout s.layout segment offset b layout e)

  pub explicitly-IsAligned :
      (changed : Option ValueStore)
      → Whenever changed (SameRows s.explicit_data)
      → Whenever (Values.explicitly s changed) (IsAligned count)
  unfolding Values.explicitly
  explicitly-IsAligned changed keeps =
      each changed _ λ rows e. stop (IsAligned count) _ (with_rows rows (keeps rows e))

  pub symbolically-IsAligned :
      (changed : Option D)
      → Whenever changed (λ d. count d ≡ count s.symbolic)
      → Whenever (Values.symbolically s changed) (IsAligned count)
  unfolding Values.symbolically
  symbolically-IsAligned changed keeps =
      each changed _ λ d e. stop (IsAligned count) _ (with_symbols d (keeps d e))

  pub store_explicit-IsAligned :
      (result what : Value) → Whenever (Values.store_explicit s result what) (IsAligned count)
  unfolding Values.store_explicit
  store_explicit-IsAligned result what =
      explicitly-IsAligned _ (implement_store-SameRows s.explicit_data result what)

  pub pointer_store-IsAligned :
      (result : Value) (p : Pointer)
      → Whenever
          (Values.explicitly s (ExplicitStore.implement_pointer_store s.explicit_data result p))
          (IsAligned count)
  unfolding ExplicitStore.implement_pointer_store
  pointer_store-IsAligned result p =
      explicitly-IsAligned _ (implement_store-SameRows s.explicit_data result _)

module _ {ℓ} {D : Type ℓ} (smt : DataStore D) (count : D → ℕ) (laws : KeepsSegments smt count) where
  pub store_symbolic-IsAligned :
      (s : State D) (result what : Value)
      → IsAligned count s
      → Whenever (Values.store_symbolic smt s result what) (IsAligned count)
  unfolding Values.store_symbolic
  store_symbolic-IsAligned s result what h =
      symbolically-IsAligned count s h _ (laws.stored s.symbolic result what)

  pub store_by-IsAligned :
      (s : State D) (result what : Value) (b : Bool)
      → IsAligned count s
      → Whenever (Values.store_by smt s result what b) (IsAligned count)
  unfolding Values.store_by
  store_by-IsAligned s result what true h = store_symbolic-IsAligned s result what h
  store_by-IsAligned s result what false h = each (Values.store_explicit s result what) _ λ t e.
      store_symbolic-IsAligned t result what (store_explicit-IsAligned count s h result what t e)

  pub copy_value-IsAligned :
      (s : State D) (result what : Value)
      → IsAligned count s
      → Whenever (Values.copy_value smt s result what) (IsAligned count)
  unfolding Values.copy_value
  copy_value-IsAligned s result what h = each (Evaluator.is_multival s.layout what) _ λ multival e.
      each (Values.mark s result multival) _ λ marked e1.
        each (Evaluator.is_multival marked.layout what) _ λ again e2.
          store_by-IsAligned marked result what again
            (mark-IsAligned count s h result multival marked e1)

  pub prune_in-IsAligned :
      (s : State D) (b : Bool) (x y : Value) (op : Comparison)
      → IsAligned count s
      → Whenever (Values.prune_in smt s b x y op) (IsAligned count)
  unfolding Values.prune_in
  prune_in-IsAligned s true x y op h =
      symbolically-IsAligned count s h _ (laws.pruned s.symbolic x y op)
  prune_in-IsAligned s false x y op h =
      explicitly-IsAligned count s h _ (prune-SameRows s.explicit_data x y op)

  pub cast_in-IsAligned :
      (s : State D) (b : Bool) (kind : Cast) (result a : Value) (bw : ℕ)
      → IsAligned count s
      → Whenever (Values.cast_in smt s b kind result a bw) (IsAligned count)
  unfolding Values.cast_in
  cast_in-IsAligned s true zext result a bw h =
      symbolically-IsAligned count s h _ (laws.zext s.symbolic result a bw)
  cast_in-IsAligned s true sext result a bw h =
      symbolically-IsAligned count s h _ (laws.sext s.symbolic result a bw)
  cast_in-IsAligned s true trunc result a bw h =
      symbolically-IsAligned count s h _ (laws.trunc s.symbolic result a bw)
  cast_in-IsAligned s false zext result a bw h =
      explicitly-IsAligned count s h _ (implement_store-SameRows s.explicit_data result a)
  cast_in-IsAligned s false sext result a bw h =
      explicitly-IsAligned count s h _ (implement_store-SameRows s.explicit_data result a)
  cast_in-IsAligned s false trunc result a bw h =
      explicitly-IsAligned count s h _ (implement_store-SameRows s.explicit_data result a)

  written-IsAligned :
      (b : Bool) (op : BinaryOp) (s : State D) (result x y : Value)
      → IsAligned count s
      → Whenever
          (elim b [
            | true ↦ Values.symbolically s (smt.implement_binary op s.symbolic result x y)
            | false ↦
                Values.explicitly s (explicit_store.implement_binary op s.explicit_data result x y)
          ])
          (IsAligned count)
  written-IsAligned true op s result x y h =
      symbolically-IsAligned count s h _ (laws.binary op s.symbolic result x y)
  written-IsAligned false op s result x y h =
      explicitly-IsAligned count s h _ (explicit_binary-SameRows op s.explicit_data result x y)

  pub binary_in-IsAligned :
      (s : State D) (b : Bool) (op : Option BinaryOp) (result x y : Value)
      → IsAligned count s
      → Whenever (Values.binary_in smt s b op result x y) (IsAligned count)
  unfolding Values.binary_in
  binary_in-IsAligned s b none result x y h = never (IsAligned count)
  binary_in-IsAligned s b (some op) result x y h =
      each (Evaluator.is_multival s.layout x) _ λ x_is e.
        each (Evaluator.is_multival s.layout y) _ λ y_is e1.
          each (Values.mark s result (x_is || y_is)) _ λ marked e2.
            written-IsAligned b op marked result x y
              (mark-IsAligned count s h result (x_is || y_is) marked e2)
