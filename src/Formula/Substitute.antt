-- ===== src/Formula/Substitute.antt =====
-- `Formula::substitute` of src/llvmsym/formula/rpn.h, and the two that are built on it:
-- `substitute( definition )` and `Definition::substitute`. The copies of ranges between the
-- occurrences of the pattern are written out as in the source; `none` is a failed `assert`.
pub mod Spec
pub mod Laws
use sym_divine.Base.{
  ℕ, zero, suc, ◌+◌, ◌-◌, Bool, true, false, Option, none, some, List, [], ◌∷◌, ◌++◌, ◌==◌,
  if◌then◌else◌, ◌>>=◌, ◌>>◌, ensure, take, drop, pop_back, back?, not,
}
use sym_divine.Formula.{
  Ident, ident_eq, Operator, Item, op, constant, identifier, bool_val, Formula, sane, is_empty,
  code, eq, build_identifier, join_binary, collect_variables, depends_on,
}

abbrev pub is_pattern : Ident → Item → Bool
is_pattern pattern (identifier id) = ident_eq id pattern
is_pattern pattern i = false

-- The loop that fills `pattern_occurances`, from the index `i` on.
abbrev pub occurrences : Ident → ℕ → Formula → List ℕ
occurrences pattern i [] = []
occurrences pattern i (x ∷ f) =
    let later = occurrences pattern (suc i) f in if is_pattern pattern x then i ∷ later else later

-- The copies after the first one: what stands between two occurrences, the definition, and so on to
-- the end of the formula. `pos` is the occurrence that has just been replaced.
abbrev pub copies : Formula → Formula → ℕ → List ℕ → Formula
copies f definition pos [] = drop (suc pos) f
copies f definition pos (pos_next ∷ later) =
    take (pos_next - suc pos) (drop (suc pos) f)
    ++ (definition ++ copies f definition pos_next later)

pub substitute_at : Formula → Formula → List ℕ → Option Formula
substitute_at f definition [] = do ensure (sane f); some f
substitute_at f definition (first ∷ later) =
    let result = take first f ++ (definition ++ copies f definition first later) in
    do ensure (sane result); ensure (not (is_empty result)); some result

unfoldable pub substitute : Formula → Ident → Formula → Option Formula
unfolding substitute_at
substitute f pattern definition = do
  ensure (sane definition)
  substitute_at f definition (occurrences pattern 0 f)

-- `Definition`
pub record Definition : Type 0 where
  pub symbol : Ident
  pub def : Formula

-- `to_formula`
unfoldable pub to_formula : Definition → Option Formula
to_formula d = do symbol ← build_identifier d.symbol; join_binary symbol d.def eq

unfoldable pub def_depends_on : Definition → ℕ → ℕ → ℕ → Bool
def_depends_on d seg off gen =
    if depends_on d.def seg off gen
    then true
    else if d.symbol.seg == seg
    then if d.symbol.off == off then d.symbol.gen == gen else false
    else false

unfoldable pub def_collect_variables : Definition → List Ident
def_collect_variables d = collect_variables d.def ++ d.symbol ∷ []

unfoldable pub def_substitute : Definition → Ident → Formula → Option Definition
def_substitute d pattern definition = do
  ensure (sane definition)
  ensure (sane d.def)
  new_def ← substitute d.def pattern definition
  ensure (sane new_def)
  ensure (not (is_empty new_def))
  some (record { symbol = d.symbol; def = new_def })
