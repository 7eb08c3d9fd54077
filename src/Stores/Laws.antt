-- ===== src/Stores/Laws.antt =====
-- How the instances of the interface `DataStore` change the number of their segments: only `addSegment` and
-- `eraseSegment` do, by one.
use sym_divine.Base.{
  ℕ, suc, ◌+◌, ◌-◌, ◌≡◌, refl, ◌∙◌, Bool, List, length, length-insert_at, length-erase_at,
  get_elem?, get_elem?-lt, push_back, ensure, not, Whenever, each, stop, never, arith, ◌==◌, ◌%◌,
}
use sym_divine.Datastore
use sym_divine.Datastore.{Value, Comparison}
use sym_divine.Smt.{Z3}
use sym_divine.Formula.{Formula, sane, is_empty, build_zext, build_sext, build_trunc}
use sym_divine.Formula.Substitute.{Definition}
use sym_divine.Removal.{remove_definitions}
use sym_divine.BaseSmtStore
use sym_divine.BaseSmtStore.{BinaryOp, binary_formula, comparison_formula}
use sym_divine.SmtStore
use sym_divine.SmtStore.{Store, Simplifier, cell, set_cell, is_version, u16}
use sym_divine.SmtStore.Queries.{Solver}
use sym_divine.Stores.{DataStore, smt_store}

-- `count` counts the segments, and the methods keep it as they should.
pub record KeepsSegments {ℓ} {S : Type ℓ} (store : DataStore S) (count : S → ℕ) : Type ℓ where
  pub binary :
      (op : BinaryOp) (s : S) (r a b : Value)
      → Whenever (store.implement_binary op s r a b) λ t. count t ≡ count s
  pub zext :
      (s : S) (r a : Value) (bw : ℕ)
      → Whenever (store.implement_zext s r a bw) λ t. count t ≡ count s
  pub sext :
      (s : S) (r a : Value) (bw : ℕ)
      → Whenever (store.implement_sext s r a bw) λ t. count t ≡ count s
  pub trunc :
      (s : S) (r a : Value) (bw : ℕ)
      → Whenever (store.implement_trunc s r a bw) λ t. count t ≡ count s
  pub stored : (s : S) (r a : Value) → Whenever (store.implement_store s r a) λ t. count t ≡ count s
  pub inttoptr :
      (s : S) (r a : Value) → Whenever (store.implement_inttoptr s r a) λ t. count t ≡ count s
  pub ptrtoint :
      (s : S) (r a : Value) → Whenever (store.implement_ptrtoint s r a) λ t. count t ≡ count s
  pub pruned :
      (s : S) (a b : Value) (op : Comparison)
      → Whenever (store.prune s a b op) λ t. count t ≡ count s
  pub input :
      (s : S) (r : Value) (bw : ℕ) → Whenever (store.implement_input s r bw) λ t. count t ≡ count s
  pub added :
      (s : S) (id : ℕ) (widths : List ℕ)
      → Whenever (store.add_segment s id widths) λ t. count t ≡ suc (count s)
  pub erased : (s : S) (id : ℕ) → Whenever (store.erase_segment s id) λ t. suc (count t) ≡ count s

abbrev pub segments : Store → ℕ
segments s = length s.segments_mapping

-- A symbolic store with the same segments.
abbrev Same : Store → Store → Type 0
Same s t = segments t ≡ segments s

remove-Same :
    (n : ℕ) (s : Store) (pred : Definition → Bool) → Whenever (SmtStore.remove n s pred) (Same s)
unfolding SmtStore.remove
remove-Same n s pred =
    each (remove_definitions n pred s.path_condition s.definitions) _ λ r e. stop (Same s) _ refl

advance-Same :
    (n : ℕ) (s : Store) (segment offset : ℕ)
    → Whenever (SmtStore.advance n s segment offset) λ r. Same s r.0
unfolding SmtStore.advance
advance-Same n s segment offset = each (cell s.generations segment offset) _ λ gen e.
    each (get_elem? s.segments_mapping segment) _ λ mapped_to e1.
      each (SmtStore.remove n s (is_version mapped_to offset gen)) _ λ t e2.
        each (set_cell s.generations segment offset ((gen + 1) % u16)) _ λ generations e3.
          stop (λ r. Same s r.0) _ (remove-Same n s (is_version mapped_to offset gen) t e2)

simplify-Same : (c : Simplifier) (s : Store) → Whenever (SmtStore.simplify c s) (Same s)
unfolding SmtStore.simplify
simplify-Same c s = each (SmtStore.simplified c s.path_condition) _ λ pcs e. stop (Same s) _ refl

push_condition-Same :
    (c : Simplifier) (s : Store) (f : Formula) → Whenever (SmtStore.push_condition c s f) (Same s)
unfolding SmtStore.push_condition
push_condition-Same c s f =
    simplify-Same c (record s { path_condition = push_back s.path_condition f })

push_definition-Same :
    (n : ℕ) (s : Store) (symbol : Value) (def : Formula)
    → Whenever (SmtStore.push_definition n s symbol def) (Same s)
unfolding SmtStore.push_definition
push_definition-Same n s (Datastore.constant value bw pointer) def = never (Same s)
push_definition-Same n s (Datastore.variable segment offset pointer) def =
    each (ensure (sane def)) _ λ u e. each (ensure (not (is_empty def))) _ λ v e1.
      each (SmtStore.advance n s segment offset) _ λ r e2.
        each (SmtStore.version r.0 segment offset r.1) _
          λ ident e3. stop (Same s) _ (advance-Same n s segment offset r e2)

module _ (n : ℕ) (c : Simplifier) where
  abbrev methods : BaseSmtStore.Methods Store
  methods = SmtStore.methods n c

  binary-Same :
      (op : BinaryOp) (s : Store) (r a b : Value)
      → Whenever (BaseSmtStore.implement_binary methods op s r a b) (Same s)
  unfolding BaseSmtStore.implement_binary SmtStore.methods
  binary-Same op s r a b = each (SmtStore.build_expression s a) _ λ a_expr e.
      each (SmtStore.build_expression s b) _ λ b_expr e1.
        each (binary_formula op a_expr b_expr) _ λ def e2. push_definition-Same n s r def

  store-Same :
      (s : Store) (r a : Value) → Whenever (BaseSmtStore.implement_store methods s r a) (Same s)
  unfolding BaseSmtStore.implement_store SmtStore.methods
  store-Same s r a =
      each (SmtStore.build_expression s a) _ λ a_expr e. push_definition-Same n s r a_expr

  zext-Same :
      (s : Store) (r a : Value) (bw : ℕ)
      → Whenever (BaseSmtStore.implement_zext methods s r a bw) (Same s)
  unfolding BaseSmtStore.implement_zext SmtStore.methods
  zext-Same s r a bw =
      each (SmtStore.build_expression s a) _
        λ a_expr e. each (build_zext a_expr bw) _ λ def e1. push_definition-Same n s r def

  sext-Same :
      (s : Store) (r a : Value) (bw : ℕ)
      → Whenever (BaseSmtStore.implement_sext methods s r a bw) (Same s)
  unfolding BaseSmtStore.implement_sext SmtStore.methods
  sext-Same s r a bw =
      each (SmtStore.build_expression s a) _
        λ a_expr e. each (build_sext a_expr bw) _ λ def e1. push_definition-Same n s r def

  trunc-Same :
      (s : Store) (r a : Value) (bw : ℕ)
      → Whenever (BaseSmtStore.implement_trunc methods s r a bw) (Same s)
  unfolding BaseSmtStore.implement_trunc SmtStore.methods
  trunc-Same s r a bw =
      each (SmtStore.build_expression s a) _
        λ a_expr e. each (build_trunc a_expr (bw - 1) 0) _ λ def e1. push_definition-Same n s r def

  prune-Same :
      (s : Store) (a b : Value) (op : Comparison)
      → Whenever (BaseSmtStore.prune methods s a b op) (Same s)
  unfolding BaseSmtStore.prune SmtStore.methods
  prune-Same s a b op = each (SmtStore.build_expression s a) _ λ a_expr e.
      each (SmtStore.build_expression s b) _
        λ b_expr e1. each (comparison_formula op a_expr b_expr) _ λ f e2. push_condition-Same c s f

  input-Same :
      (s : Store) (r : Value) → Whenever (BaseSmtStore.implement_input methods s r) (Same s)
  unfolding BaseSmtStore.implement_input SmtStore.methods SmtStore.get_generation
  input-Same s (Datastore.constant value bw pointer) = never (Same s)
  input-Same s (Datastore.variable segment offset pointer) =
      each (SmtStore.advance n s segment offset) _
        λ r e. stop (Same s) _ (advance-Same n s segment offset r e)

  erase_segment-segments :
      (s : Store) (id : ℕ)
      → Whenever (SmtStore.erase_segment n c s id) λ t. suc (segments t) ≡ segments s
  unfolding SmtStore.erase_segment
  erase_segment-segments s id = each (get_elem? s.segments_mapping id) _ λ mapped_to e.
      each (SmtStore.remove n s (λ d. d.symbol.seg == mapped_to)) _ λ u e1. λ v e2.
        let kept : segments u ≡ segments s =
          remove-Same n s (λ d. d.symbol.seg == mapped_to) u e1 in
        let below = get_elem?-lt s.segments_mapping id mapped_to e in
        let less = length-erase_at u.segments_mapping id (omega arith) in
        let same = simplify-Same c _ v e2 in omega arith

  -- Of the methods of the symbolic store, `addSegment` adds one segment, `eraseSegment` removes one, and
  -- the others keep their number.
  pub smt_store-KeepsSegments :
      (z : Z3) (solver : Solver z) → KeepsSegments (smt_store z solver n c) segments
  unfolding SmtStore.add_segment
  smt_store-KeepsSegments z solver = record {
    binary = binary-Same;
    zext = zext-Same;
    sext = sext-Same;
    trunc = trunc-Same;
    stored = store-Same;
    inttoptr = store-Same;
    ptrtoint = store-Same;
    pruned = prune-Same;
    input = λ s r bw. input-Same s r;
    added = λ s id widths.
        stop (λ t. segments t ≡ suc (segments s)) _
          (length-insert_at s.segments_mapping id _ ∙ omega arith);
    erased = erase_segment-segments;
  }
