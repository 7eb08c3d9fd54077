-- ===== src/SmtStore.antt =====
-- `SMTStore` of src/llvmsym/smtdatastore.h: the symbolic store, with its methods as functions that give
-- the new store. A variable has versions, its generations: a formula mentions the version that was
-- current when it was built. `none` is a failed `assert`, an access out of bounds, or a loop of
-- `removeDefinitions` that has not ended within the fuel.
pub mod Versions
pub mod Definitions
pub mod Models
pub mod Instructions
pub mod Queries
pub mod Answers
mod Tests
use sym_divine.Base.{
  ℕ, ◌+◌, ◌%◌, Bool, true, false, ◌&&◌, ◌||◌, not, Option, none, some, List, [], ◌∷◌, ◌++◌, ◌==◌,
  leb, if◌then◌else◌, length, get_elem?, set, insert_at, erase_at, push_back, replicate, map, ◌>>=◌,
  ◌>>◌, ensure,
}
use sym_divine.Formula.{
  Ident, op, constant, identifier, bool_val, Formula, sane, is_empty, depends_on, collect_variables,
  build_constant, build_identifier, build_and,
}
use sym_divine.Formula.Substitute.{Definition, to_formula, def_depends_on}
use sym_divine.Datastore
use sym_divine.Datastore.{Value}
use sym_divine.Removal.{remove_definitions, insert_sorted}
use sym_divine.BaseSmtStore.{Methods}

abbrev pub u16 : ℕ
u16 = 65536

pub record Store : Type 0 where
  pub segments_mapping : List ℕ
  pub generations : List (List ℕ)
  pub bit_widths : List (List ℕ)
  pub path_condition : List Formula
  pub definitions : List Definition
  pub fst_unused_id : ℕ

-- `rows[ i ][ j ]`, and its assignment
abbrev pub cell : List (List ℕ) → ℕ → ℕ → Option ℕ
cell rows i j = do row ← get_elem? rows i; get_elem? row j

abbrev pub set_cell : List (List ℕ) → ℕ → ℕ → ℕ → Option (List (List ℕ))
set_cell rows i j v = do row ← get_elem? rows i; some (set rows i (set row j v))

-- The identifier of one version of a variable.
unfoldable pub version : Store → ℕ → ℕ → ℕ → Option Ident
version s segment offset gen = do
  mapped_to ← get_elem? s.segments_mapping segment
  bw ← cell s.bit_widths segment offset
  some (record { seg = mapped_to; off = offset % u16; gen = gen; bw = bw })

unfoldable pub build_item : Store → Value → Option Ident
unfolding version
build_item s (Datastore.variable segment offset pointer) = do
  gen ← cell s.generations segment offset
  version s segment offset gen
build_item s (Datastore.constant value bw pointer) = none

unfoldable pub build_expression : Store → Value → Option Formula
unfolding version
build_expression s (Datastore.variable segment offset pointer) = do
  gen ← cell s.generations segment offset
  id ← version s segment offset gen
  build_identifier id
build_expression s (Datastore.constant value bw pointer) = build_constant value bw

-- The predicate of `get_generation`: the definitions of one version of a variable.
abbrev pub is_version : ℕ → ℕ → ℕ → Definition → Bool
is_version mapped_to offset gen d =
    d.symbol.seg == mapped_to && d.symbol.off == offset && d.symbol.gen == gen

-- `removeDefinitions( pred )` on the store
unfoldable pub remove : ℕ → Store → (Definition → Bool) → Option Store
remove n s pred = do
  (pcs, defs) ← remove_definitions n pred s.path_condition s.definitions
  some (record s { path_condition = pcs; definitions = defs })

-- `get_generation( segId, offset, true )`, and the generation that it gives
unfoldable pub advance : ℕ → Store → ℕ → ℕ → Option (Store × ℕ)
unfolding remove
advance n s segment offset = do
  gen ← cell s.generations segment offset
  mapped_to ← get_elem? s.segments_mapping segment
  t ← remove n s (is_version mapped_to offset gen)
  generations ← set_cell s.generations segment offset ((gen + 1) % u16)
  some (record t { generations = generations }, (gen + 1) % u16)

unfoldable pub get_generation : ℕ → Store → ℕ → ℕ → Bool → Option (Store × ℕ)
unfolding advance
get_generation n s segment offset true = advance n s segment offset
get_generation n s segment offset false = do gen ← cell s.generations segment offset; some (s, gen)

unfoldable pub push_definition : ℕ → Store → Value → Formula → Option Store
unfolding advance version
push_definition n s (Datastore.constant value bw pointer) def = none
push_definition n s (Datastore.variable segment offset pointer) def = do
  ensure (sane def)
  ensure (not (is_empty def))
  (t, gen) ← advance n s segment offset
  ident ← version t segment offset gen
  some (record t {
    definitions = insert_sorted (record { symbol = ident; def = def }) t.definitions;
  })

-- What `simplify` depends on: the static counter `unknown_instances`, the two options, and the two
-- simplifications of formulas, which are done by Z3.
pub record Simplifier : Type 0 where
  pub unknown_instances : ℕ
  pub cheap : Bool
  pub dont : Bool
  pub cheap_simplify : Formula → Option Formula
  pub full_simplify : Formula → Option Formula

-- The conjunction that `simplify` builds.
unfoldable pub conjunction : Formula → List Formula → Option Formula
conjunction conj [] = some conj
conjunction conj (pc ∷ pcs) = do next ← build_and conj pc; conjunction next pcs

-- `path_condition.resize( 1 ); path_condition.back() = f`
abbrev only : Option Formula → Option (List Formula)
only f = do g ← f; some (g ∷ [])

-- `simplify`, on the path condition
unfoldable pub simplified : Simplifier → List Formula → Option (List Formula)
unfolding conjunction
simplified c [] = some []
simplified c (pc ∷ pcs) =
    if leb c.unknown_instances 4
    then some (pc ∷ pcs)
    else conjunction [] (pc ∷ pcs) >>= λ conj.
        if c.cheap
        then only (c.cheap_simplify conj)
        else if c.dont
        then some (pc ∷ pcs)
        else only (c.full_simplify conj)

unfoldable pub simplify : Simplifier → Store → Option Store
unfolding simplified
simplify c s = do
  path_condition ← simplified c s.path_condition
  some (record s { path_condition = path_condition })

unfoldable pub push_condition : Simplifier → Store → Formula → Option Store
unfolding simplify
push_condition c s f = simplify c (record s { path_condition = push_back s.path_condition f })

-- The methods that `BaseSMTStore` calls.
unfoldable pub methods : ℕ → Simplifier → Methods Store
unfolding build_expression push_condition push_definition get_generation
methods n c = record {
  build_expression = build_expression;
  push_condition = push_condition c;
  push_definition = push_definition n;
  advance = advance_value;
}
  where
    advance_value : Store → Value → Option Store
    advance_value s (Datastore.variable segment offset pointer) = do
      (t, gen) ← get_generation n s segment offset true
      some t
    advance_value s (Datastore.constant value bw pointer) = none

-- The versions of the variables in a guard of the property, whose segments and offsets are kept.
unfoldable pub current_versions : Store → Formula → Option Formula
current_versions s [] = some []
current_versions s (identifier id ∷ f) = do
  gen ← cell s.generations id.seg id.off
  bw ← cell s.bit_widths id.seg id.off
  rest ← current_versions s f
  some (identifier (record id { gen = gen; bw = bw }) ∷ rest)
current_versions s (op o v ∷ f) = do rest ← current_versions s f; some (op o v ∷ rest)
current_versions s (constant v bw ∷ f) = do rest ← current_versions s f; some (constant v bw ∷ rest)
current_versions s (bool_val v ∷ f) = do rest ← current_versions s f; some (bool_val v ∷ rest)

-- `pushPropGuard`
unfoldable pub push_prop_guard : Simplifier → Store → Formula → Option Store
unfolding current_versions push_condition
push_prop_guard c s g = do f ← current_versions s g; push_condition c s f

-- `addSegment`; a width is kept as a `char`.
unfoldable pub add_segment : Store → ℕ → List ℕ → Store
add_segment s id widths = record s {
  segments_mapping = insert_at s.segments_mapping id (s.fst_unused_id % u16);
  fst_unused_id = s.fst_unused_id + 1;
  generations = insert_at s.generations id (replicate (length widths) 0);
  bit_widths = insert_at s.bit_widths id (map (λ bw. bw % 256) widths);
}

-- `eraseSegment`
unfoldable pub erase_segment : ℕ → Simplifier → Store → ℕ → Option Store
unfolding remove simplify
erase_segment n c s id = do
  mapped_to ← get_elem? s.segments_mapping id
  t ← remove n s (λ d. d.symbol.seg == mapped_to)
  simplify c (record t {
    segments_mapping = erase_at t.segments_mapping id;
    generations = erase_at t.generations id;
    bit_widths = erase_at t.bit_widths id;
  })

-- `clear`: the generations, the bit widths and the counter stay.
unfoldable pub clear : Store → Store
clear s = record s { path_condition = []; definitions = []; segments_mapping = [] }

-- `depends_on( seg, offset, generation )`
unfoldable pub any_depends_on : Store → ℕ → ℕ → ℕ → Bool
any_depends_on s seg offset generation =
    in_definitions s.definitions || in_conditions s.path_condition
  where
    in_definitions : List Definition → Bool
    in_definitions [] = false
    in_definitions (d ∷ ds) = def_depends_on d seg offset generation || in_definitions ds

    in_conditions : List Formula → Bool
    in_conditions [] = false
    in_conditions (pc ∷ pcs) = depends_on pc seg offset generation || in_conditions pcs

-- `depends_on( val )` for the current version of a variable
unfoldable pub variable_depends_on : Store → ℕ → ℕ → Option Bool
unfolding any_depends_on
variable_depends_on s segment offset = do
  mapped_to ← get_elem? s.segments_mapping segment
  gen ← cell s.generations segment offset
  some (any_depends_on s mapped_to offset gen)

-- `collect_variables`
unfoldable pub all_variables : Store → Option (List Ident)
all_variables s = conditions s.path_condition
  where
    definitions : List Definition → Option (List Ident)
    definitions [] = some []
    definitions (d ∷ ds) = do
      f ← to_formula d
      rest ← definitions ds
      some (collect_variables f ++ rest)

    conditions : List Formula → Option (List Ident)
    conditions [] = definitions s.definitions
    conditions (pc ∷ pcs) = do rest ← conditions pcs; some (collect_variables pc ++ rest)
