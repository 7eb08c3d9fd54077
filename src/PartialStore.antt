-- ===== src/PartialStore.antt =====
-- `SMTStorePartial` of src/llvmsym/smtdatastore_partial.h: the path conditions and definitions in groups
-- that share no variable. The tables of segments are those of `SMTStore`. The second store that the
-- option --testvalidity keeps for comparison is left out. `none` is a failed `assert`, an access out of
-- bounds, or a loop of `removeDefinitions` that has not ended within the fuel.
pub mod Entries
pub mod Ids
pub mod Members
pub mod Joined
pub mod Named
pub mod Resolve
pub mod Conditions
pub mod Segments
mod Tests
use sym_divine.Base.{
  ℕ, ◌+◌, ◌%◌, Bool, true, false, ◌&&◌, ◌||◌, not, Option, none, some, List, [], ◌∷◌, ◌++◌, ◌==◌,
  if◌then◌else◌, ltb, length, get_elem?, insert_at, erase_at, replicate, push_back, map, ◌>>=◌,
  ◌>>◌, ensure,
}
use sym_divine.Formula.{
  Ident, ident_eq, no_gen, Formula, sane, is_empty, depends_on, collect_variables,
}
use sym_divine.Formula.Order.{ident_lt, def_lt}
use sym_divine.Formula.Substitute.{Definition, def_depends_on, def_collect_variables}
use sym_divine.Datastore
use sym_divine.Datastore.{Value}
use sym_divine.Removal.{filter, insert_sorted, remove_definitions}
use sym_divine.SmtStore.{Simplifier, conjunction, is_version, cell, set_cell, u16}
use sym_divine.SmtStore.Queries.{TriState, unknown_, is_nil}
use sym_divine.Toolkit.IdContainer
use sym_divine.Toolkit.IdContainer.{Container, lookup, erase_entry}
use sym_divine.Groups.{
  DependencyGroup, new_group, append_group, group_push_condition, group_push_definition,
  group_remove_definitions, simplify_pc,
}

pub record Partial : Type 0 where
  pub segments_mapping : List ℕ
  pub generations : List (List ℕ)
  pub bit_widths : List (List ℕ)
  pub dependency_map : List (Ident × ℕ)
  pub sym_data : Container DependencyGroup
  pub fst_unused_id : ℕ

-- `dependency_map.find`, and the assignment `dependency_map[ var ] = id`
abbrev pub find_ident : Ident → List (Ident × ℕ) → Option ℕ
find_ident var [] = none
find_ident var ((i, id) ∷ rest) =
    let later = find_ident var rest in if ident_eq var i then some id else later

abbrev pub assign_ident : Ident → ℕ → List (Ident × ℕ) → List (Ident × ℕ)
assign_ident var id [] = (var, id) ∷ []
assign_ident var id ((i, old) ∷ rest) =
    let later : List (_ × _) = assign_ident var id rest in
    if ident_eq var i then (i, id) ∷ rest else (i, old) ∷ later

-- `std::set<size_t>::insert`
abbrev pub insert_id : ℕ → List ℕ → List ℕ
insert_id id [] = id ∷ []
insert_id id (i ∷ is) =
    let later = insert_id id is in
    if ltb id i then id ∷ i ∷ is else if id == i then i ∷ is else i ∷ later

-- The first loop of `resolve_dependency`: the groups of the variables, which are created where missing.
unfoldable pub groups_of :
    List Ident
    → List (Ident × ℕ)
    → Container DependencyGroup
    → List ℕ
    → Option (List (Ident × ℕ) × Container DependencyGroup × List ℕ)
groups_of [] dependency_map sym_data to_join = some (dependency_map, sym_data, to_join)
groups_of (dep ∷ deps) dependency_map sym_data to_join =
    elim (find_ident (no_gen dep) dependency_map) [
      | some id ↦ groups_of deps dependency_map sym_data (insert_id id to_join)
      | none ↦ IdContainer.insert sym_data (new_group (no_gen dep ∷ [])) >>= λ r.
          groups_of deps (assign_ident (no_gen dep) r.1 dependency_map) r.0 (insert_id r.1 to_join)
    ]

-- `sym_data.get( id )`: `operator[]` creates an empty group where there is none.
abbrev pub or_new : Option DependencyGroup → DependencyGroup
or_new none = new_group []
or_new (some g) = g

abbrev pub get_group : ℕ → List (ℕ × DependencyGroup) → DependencyGroup
get_group id values = or_new (lookup id values)

-- The change of the group under an id.
abbrev pub set_group : ℕ → DependencyGroup → List (ℕ × DependencyGroup) → List (ℕ × DependencyGroup)
set_group id g [] = (id, g) ∷ []
set_group id g ((k, h) ∷ values) =
    let later : List (_ × _) = set_group id g values in
    if id == k then (k, g) ∷ values else (k, h) ∷ later

abbrev pub assign_all : List Ident → ℕ → List (Ident × ℕ) → List (Ident × ℕ)
assign_all [] id dependency_map = dependency_map
assign_all (var ∷ vars) id dependency_map = assign_all vars id (assign_ident var id dependency_map)

-- The merging loop of `resolve_dependency`: the group under each further id goes into that under `to`.
abbrev pub join_groups :
    ℕ
    → List ℕ
    → List (Ident × ℕ)
    → Container DependencyGroup
    → List (Ident × ℕ) × Container DependencyGroup
join_groups to [] dependency_map sym_data = (dependency_map, sym_data)
join_groups to (i ∷ is) dependency_map sym_data =
    let g = get_group i sym_data.values in
    let joined = set_group to (append_group (get_group to sym_data.values) g) sym_data.values in
    join_groups to is (assign_all g.group to dependency_map)
      (record { values = erase_entry i joined; unused = push_back sym_data.unused i })

-- `resolve_dependency`, and the id of the group that it gives
unfoldable pub resolve_dependency : Partial → List Ident → Option (Partial × ℕ)
unfolding groups_of
resolve_dependency s deps = do
  ensure (not (is_nil deps))
  (dependency_map, sym_data, to_join) ← groups_of deps s.dependency_map s.sym_data []
  elim to_join [
    | [] ↦ none
    | to ∷ others ↦
        let (joined_map, joined) = join_groups to others dependency_map sym_data in
        some (record s { dependency_map = joined_map; sym_data = joined }, to)
  ]

-- A change of the group under an id.
abbrev pub change_group : Partial → ℕ → (DependencyGroup → DependencyGroup) → Partial
change_group s id f = record s {
  sym_data = record {
    values = set_group id (f (get_group id s.sym_data.values)) s.sym_data.values;
    unused = s.sym_data.unused;
  };
}

-- A loop over all groups that changes each.
abbrev pub each_group :
    (DependencyGroup → Option DependencyGroup)
    → List (ℕ × DependencyGroup)
    → Option (List (ℕ × DependencyGroup))
each_group f [] = some []
each_group f ((id, g) ∷ values) = do h ← f g; later ← each_group f values; some ((id, h) ∷ later)

abbrev pub with_groups : Partial → List (ℕ × DependencyGroup) → Partial
with_groups s values = record s {
  sym_data = record { values = values; unused = s.sym_data.unused };
}

unfoldable pub simplify : Simplifier → Partial → Option Partial
simplify c s = do values ← each_group (simplify_pc c) s.sym_data.values; some (with_groups s values)

unfoldable pub push_condition : Simplifier → Partial → Formula → Option Partial
unfolding resolve_dependency simplify
push_condition c s f = do
  (t, id) ← resolve_dependency s (collect_variables f)
  simplify c (change_group t id (λ g. group_push_condition g f))

-- The members of the groups without formulas.
abbrev pub left_members : List (ℕ × DependencyGroup) → List Ident
left_members [] = []
left_members ((id, g) ∷ values) =
    let later = left_members values in
    if is_nil g.path_condition && is_nil g.definitions then g.group ++ later else later

abbrev pub erase_ident : Ident → List (Ident × ℕ) → List (Ident × ℕ)
erase_ident var [] = []
erase_ident var ((i, id) ∷ rest) =
    let later : List (_ × _) = erase_ident var rest in
    if ident_eq var i then later else (i, id) ∷ later

-- The second loop of `group_cleanup`.
abbrev pub forget_members : List Ident → List (Ident × ℕ) → List ℕ → List (Ident × ℕ) × List ℕ
forget_members [] dependency_map ids = (dependency_map, ids)
forget_members (var ∷ vars) dependency_map ids = elim (find_ident var dependency_map) [
  | none ↦ forget_members vars dependency_map ids
  | some id ↦ forget_members vars (erase_ident var dependency_map) (insert_id id ids)
]

abbrev pub erase_groups : List ℕ → Container DependencyGroup → Option (Container DependencyGroup)
erase_groups [] c = some c
erase_groups (id ∷ ids) c = do d ← IdContainer.erase c id; erase_groups ids d

-- `group_cleanup`
unfoldable pub group_cleanup : Partial → Option Partial
group_cleanup s = do
  let (dependency_map, ids) = forget_members (left_members s.sym_data.values) s.dependency_map []
  sym_data ← erase_groups ids s.sym_data
  some (record s { dependency_map = dependency_map; sym_data = sym_data })

-- `removeDefinitions( pred )`
unfoldable pub remove : ℕ → Partial → (Definition → Bool) → Option Partial
unfolding group_cleanup
remove n s pred = do
  values ← each_group (group_remove_definitions n pred) s.sym_data.values
  group_cleanup (with_groups s values)

-- `get_generation( segId, offset, true )`, and the generation that it gives
unfoldable pub advance : ℕ → Partial → ℕ → ℕ → Option (Partial × ℕ)
unfolding remove
advance n s segment offset = do
  gen ← cell s.generations segment offset
  mapped_to ← get_elem? s.segments_mapping segment
  t ← remove n s (is_version mapped_to offset gen)
  generations ← set_cell s.generations segment offset ((gen + 1) % u16)
  some (record t { generations = generations }, (gen + 1) % u16)

unfoldable pub push_definition : ℕ → Partial → Value → Formula → Option Partial
unfolding advance resolve_dependency
push_definition n s (Datastore.constant value bw pointer) def = none
push_definition n s (Datastore.variable segment offset pointer) def = do
  ensure (sane def)
  ensure (not (is_empty def))
  mapped_to ← get_elem? s.segments_mapping segment
  bw ← cell s.bit_widths segment offset
  (t, gen) ← advance n s segment offset
  let ident : Ident = record { seg = mapped_to; off = offset % u16; gen = gen; bw = bw }
  let whole : Definition = record { symbol = ident; def = def }
  (u, id) ← resolve_dependency t (def_collect_variables whole)
  some (change_group u id (λ g. group_push_definition g whole))
