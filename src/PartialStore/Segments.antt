-- ===== src/PartialStore/Segments.antt =====
-- The methods of src/llvmsym/smtdatastore_partial.h on segments and variables, and the guards of the
-- property.
use sym_divine.Base.{
  ℕ, ◌+◌, ◌%◌, Bool, true, false, ◌||◌, Option, none, some, List, [], ◌∷◌, ◌++◌, ◌==◌,
  if◌then◌else◌, length, get_elem?, insert_at, erase_at, replicate, map, ◌>>=◌,
}
use sym_divine.Formula.{
  Ident, op, constant, identifier, bool_val, Formula, depends_on, collect_variables, build_constant,
  build_identifier,
}
use sym_divine.Formula.Substitute.{Definition, def_depends_on, def_collect_variables}
use sym_divine.Datastore
use sym_divine.Datastore.{Value}
use sym_divine.SmtStore.{Simplifier, cell, u16}
use sym_divine.BaseSmtStore.{Methods}
use sym_divine.Groups.{DependencyGroup}
use sym_divine.PartialStore.{Partial, simplify, remove, advance, push_condition, push_definition}

-- `build_expression`, for the current version of a variable
unfoldable pub build_expression : Partial → Value → Option Formula
build_expression s (Datastore.variable segment offset pointer) = do
  mapped_to ← get_elem? s.segments_mapping segment
  gen ← cell s.generations segment offset
  bw ← cell s.bit_widths segment offset
  build_identifier (record { seg = mapped_to; off = offset % u16; gen = gen; bw = bw })
build_expression s (Datastore.constant value bw pointer) = build_constant value bw

-- The methods that `BaseSMTStore` calls.
unfoldable pub methods : ℕ → Simplifier → Methods Partial
unfolding build_expression
methods n c = record {
  build_expression = build_expression;
  push_condition = push_condition c;
  push_definition = push_definition n;
  advance = advance_value;
}
  where
    advance_value : Partial → Value → Option Partial
    advance_value s (Datastore.variable segment offset pointer) = do
      (t, gen) ← advance n s segment offset
      some t
    advance_value s (Datastore.constant value bw pointer) = none

-- `dependency_group::depends_on`
unfoldable pub group_depends_on : DependencyGroup → ℕ → ℕ → ℕ → Bool
group_depends_on g seg offset generation =
    in_conditions g.path_condition || in_definitions g.definitions
  where
    in_conditions : List Formula → Bool
    in_conditions [] = false
    in_conditions (pc ∷ pcs) =
        let rest = in_conditions pcs in if depends_on pc seg offset generation then true else rest

    in_definitions : List Definition → Bool
    in_definitions [] = false
    in_definitions (d ∷ ds) =
        let rest = in_definitions ds in
        if def_depends_on d seg offset generation then true else rest

-- `depends_on( seg, offset, generation )`
unfoldable pub any_depends_on : Partial → ℕ → ℕ → ℕ → Bool
unfolding group_depends_on
any_depends_on s seg offset generation = in_groups s.sym_data.values
  where
    in_groups : List (ℕ × DependencyGroup) → Bool
    in_groups [] = false
    in_groups ((id, g) ∷ values) =
        let rest = in_groups values in
        if group_depends_on g seg offset generation then true else rest

-- `dependency_group::collect_variables`
unfoldable pub group_variables : DependencyGroup → List Ident
group_variables g = conditions g.path_condition ++ definitions g.definitions
  where
    conditions : List Formula → List Ident
    conditions [] = []
    conditions (pc ∷ pcs) = collect_variables pc ++ conditions pcs

    definitions : List Definition → List Ident
    definitions [] = []
    definitions (d ∷ ds) = def_collect_variables d ++ definitions ds

-- `collect_variables`
unfoldable pub all_variables : Partial → List Ident
unfolding group_variables
all_variables s = in_groups s.sym_data.values
  where
    in_groups : List (ℕ × DependencyGroup) → List Ident
    in_groups [] = []
    in_groups ((id, g) ∷ values) = group_variables g ++ in_groups values

-- The versions of the variables in a guard of the property.
unfoldable pub current_versions : Partial → Formula → Option Formula
current_versions s [] = some []
current_versions s (identifier id ∷ f) = do
  gen ← cell s.generations id.seg id.off
  bw ← cell s.bit_widths id.seg id.off
  rest ← current_versions s f
  some (identifier (record id { gen = gen; bw = bw }) ∷ rest)
current_versions s (op o v ∷ f) = do rest ← current_versions s f; some (op o v ∷ rest)
current_versions s (constant v bw ∷ f) = do rest ← current_versions s f; some (constant v bw ∷ rest)
current_versions s (bool_val v ∷ f) = do rest ← current_versions s f; some (bool_val v ∷ rest)

-- `pushPropGuard`
unfoldable pub push_prop_guard : Simplifier → Partial → Formula → Option Partial
unfolding current_versions
push_prop_guard c s g = do f ← current_versions s g; push_condition c s f

-- `addSegment`; a width is kept as a `char`.
unfoldable pub add_segment : Partial → ℕ → List ℕ → Partial
add_segment s id widths = record s {
  segments_mapping = insert_at s.segments_mapping id (s.fst_unused_id % u16);
  fst_unused_id = s.fst_unused_id + 1;
  generations = insert_at s.generations id (replicate (length widths) 0);
  bit_widths = insert_at s.bit_widths id (map (λ bw. bw % 256) widths);
}

-- `eraseSegment`
unfoldable pub erase_segment : ℕ → Simplifier → Partial → ℕ → Option Partial
erase_segment n c s id = do
  mapped_to ← get_elem? s.segments_mapping id
  t ← remove n s (λ d. d.symbol.seg == mapped_to)
  simplify c (record t {
    segments_mapping = erase_at t.segments_mapping id;
    generations = erase_at t.generations id;
    bit_widths = erase_at t.bit_widths id;
  })

-- `clear`: the groups, the generations, the bit widths and the counter stay.
unfoldable pub clear : Partial → Partial
clear s = record s { dependency_map = []; segments_mapping = [] }
