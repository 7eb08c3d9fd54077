-- ===== src/Removal.antt =====
-- `removeDefinitions` of src/llvmsym/smtdatastore.h: the definitions that the predicate selects leave
-- the store, and their symbols are replaced in all that is left, until nothing changes. The
-- `do ... while` loop has fuel. `none` is a failed `assert`, or a loop that has not ended within it.
pub mod Weight
pub mod Passes
pub mod Each
pub mod Ends
pub mod Meaning
pub mod Laws
pub mod Kept
use sym_divine.Base.{
  ℕ, zero, suc, Bool, true, false, ◌||◌, not, Option, none, some, List, [], ◌∷◌, ◌++◌,
  if◌then◌else◌, ◌>>=◌,
}
use sym_divine.Formula.{Formula, rpn_eq}
use sym_divine.Formula.Substitute.{Definition, substitute, def_substitute}
use sym_divine.Formula.Order.{def_lt}

abbrev pub filter {ℓ} : {A : Type ℓ} → (A → Bool) → List A → List A
filter p [] = []
filter p (x ∷ xs) = let rest = filter p xs in if p x then x ∷ rest else rest

abbrev pub reverse {ℓ} : {A : Type ℓ} → List A → List A
reverse [] = []
reverse (x ∷ xs) = reverse xs ++ x ∷ []

-- The inner loop over `to_remove` for one path condition, and whether it has changed it.
unfoldable pub rewrite_formula : List Definition → Formula → Option (Formula × Bool)
rewrite_formula [] pc = some (pc, false)
rewrite_formula (d ∷ to_remove) pc = do
  new_pc ← substitute pc d.symbol d.def
  (last, change) ← rewrite_formula to_remove (if rpn_eq new_pc pc then pc else new_pc)
  some (last, not (rpn_eq new_pc pc) || change)

-- The inner loop for one definition. The source goes over `to_remove` backwards here.
unfoldable pub rewrite_definition : List Definition → Definition → Option (Definition × Bool)
rewrite_definition [] def = some (def, false)
rewrite_definition (d ∷ to_remove) def = do
  new_def ← def_substitute def d.symbol d.def
  (last, change) ←
      rewrite_definition to_remove (if rpn_eq new_def.def def.def then def else new_def)
  some (last, not (rpn_eq new_def.def def.def) || change)

-- A range-based loop that rewrites each element.
abbrev pub rewrite_each {ℓ} :
    {A : Type ℓ} → (A → Option (A × Bool)) → List A → Option (List A × Bool)
rewrite_each f [] = some ([], false)
rewrite_each f (x ∷ xs) = do
  (y, change) ← f x
  (ys, later) ← rewrite_each f xs
  some (y ∷ ys, change || later)

-- The body of the `do` loop.
unfoldable pub round :
    List Definition
    → List Formula
    → List Definition
    → Option (List Formula × List Definition × Bool)
unfolding rewrite_formula rewrite_definition
round to_remove path_condition definitions = do
  (pcs, change) ← rewrite_each (rewrite_formula to_remove) path_condition
  (defs, later) ← rewrite_each (rewrite_definition (reverse to_remove)) definitions
  some (pcs, defs, change || later)

unfoldable pub rounds :
    ℕ → List Definition → List Formula → List Definition → Option (List Formula × List Definition)
unfolding round
rounds zero to_remove pcs defs = none
rounds (suc n) to_remove pcs defs = do
  (pcs', defs', change) ← round to_remove pcs defs
  elim change [ true ↦ rounds n to_remove pcs' defs' | false ↦ some (pcs', defs') ]

-- `definitions.insert( std::upper_bound( ..., d ), d )` on a sorted vector
abbrev pub insert_sorted : Definition → List Definition → List Definition
insert_sorted d [] = d ∷ []
insert_sorted d (e ∷ es) =
    let later = insert_sorted d es in if def_lt d e then d ∷ e ∷ es else e ∷ later

-- `std::sort`
abbrev pub sort : List Definition → List Definition
sort [] = []
sort (d ∷ ds) = insert_sorted d (sort ds)

-- `removeDefinitions( pred )`
unfoldable pub remove_definitions :
    ℕ
    → (Definition → Bool)
    → List Formula
    → List Definition
    → Option (List Formula × List Definition)
unfolding rounds
remove_definitions n pred path_condition definitions = do
  (pcs, defs) ←
      rounds n (filter pred definitions) path_condition (filter (λ d. not (pred d)) definitions)
  some (pcs, sort defs)
