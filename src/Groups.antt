-- ===== src/Groups.antt =====
-- `dependency_group` of src/llvmsym/smtdatastore_partial.h: path conditions and definitions that share
-- variables, with the members without their generations, and what is known of the path condition.
use sym_divine.Base.{ℕ, Bool, Option, some, List, [], ◌∷◌, ◌++◌, if◌then◌else◌, push_back, ◌>>=◌}
use sym_divine.Formula.{Ident, no_gen, Formula}
use sym_divine.Formula.Order.{ident_lt, def_lt}
use sym_divine.Formula.Substitute.{Definition}
use sym_divine.Removal.{filter, insert_sorted, remove_definitions}
use sym_divine.SmtStore.{Simplifier, conjunction}
use sym_divine.SmtStore.Queries.{TriState, unknown_, is_nil}

-- `dependency_group`
pub record DependencyGroup : Type 0 where
  pub group : List Ident
  pub path_condition : List Formula
  pub definitions : List Definition
  pub pc_state : TriState

-- `std::set<Formula::Ident>::insert`
abbrev pub insert_member : Ident → List Ident → List Ident
insert_member id [] = id ∷ []
insert_member id (i ∷ is) =
    let later = insert_member id is in
    if ident_lt id i then id ∷ i ∷ is else if ident_lt i id then i ∷ later else i ∷ is

-- The constructor for the variables of `g`, without formulas.
abbrev pub new_group : List Ident → DependencyGroup
new_group g = record {
  group = members g;
  path_condition = [];
  definitions = [];
  pc_state = unknown_;
}
  where
    members : List Ident → List Ident
    members [] = []
    members (i ∷ is) = insert_member (no_gen i) (members is)

abbrev pub insert_members : List Ident → List Ident → List Ident
insert_members [] into = into
insert_members (i ∷ is) into = insert_members is (insert_member i into)

-- One element against a sorted vector, and `std::merge`: of equal elements the first vector's is first.
abbrev pub merge_definitions : List Definition → List Definition → List Definition
merge_definitions ds [] = ds
merge_definitions [] (e ∷ es) = e ∷ es
merge_definitions (d ∷ ds) (e ∷ es) =
    let first = merge_definitions ds (e ∷ es) in
    let second = merge_definitions (d ∷ ds) es in if def_lt e d then e ∷ second else d ∷ first

-- `append`: the state of the path condition stays.
abbrev pub append_group : DependencyGroup → DependencyGroup → DependencyGroup
append_group a b = record a {
  group = insert_members b.group a.group;
  path_condition = a.path_condition ++ b.path_condition;
  definitions = merge_definitions a.definitions b.definitions;
}

abbrev pub group_push_condition : DependencyGroup → Formula → DependencyGroup
group_push_condition g f = record g {
  pc_state = unknown_;
  path_condition = push_back g.path_condition f;
}

abbrev pub group_push_definition : DependencyGroup → Definition → DependencyGroup
group_push_definition g d = record g { definitions = insert_sorted d g.definitions }

-- `dependency_group::removeDefinitions`
unfoldable pub group_remove_definitions :
    ℕ → (Definition → Bool) → DependencyGroup → Option DependencyGroup
group_remove_definitions n pred g = do
  (pcs, defs) ← remove_definitions n pred g.path_condition g.definitions
  some (record g {
    path_condition = pcs;
    definitions = defs;
    pc_state = if is_nil (filter pred g.definitions) then g.pc_state else unknown_;
  })

-- `simplify_pc`
unfoldable pub simplify_pc : Simplifier → DependencyGroup → Option DependencyGroup
simplify_pc c g =
    if is_nil g.path_condition
    then some g
    else (conjunction [] g.path_condition >>= λ conj.
        if c.cheap
        then (c.cheap_simplify conj >>= λ f. some (record g { path_condition = f ∷ [] }))
        else if c.dont
        then some g
        else (c.full_simplify conj >>= λ f. some (record g { path_condition = f ∷ [] })))
