-- ===== src/Formula/Order.antt =====
-- The orders `operator<` of src/llvmsym/formula/rpn.h, by which the definitions of a store are sorted.
-- A field that the kind of an item does not use counts as 0.
use sym_divine.Base.{ℕ, Bool, true, false, ◌&&◌, ◌||◌, List, [], ◌∷◌, ltb, ◌==◌, if◌then◌else◌}
use sym_divine.Formula.{Ident, ident_eq, Item, op, constant, identifier, bool_val, Formula, code}
use sym_divine.Formula.Substitute.{Definition}

-- `std::tie( seg, off, gen, bw )`, as a list
abbrev fields : Ident → List ℕ
fields i = i.seg ∷ i.off ∷ i.gen ∷ i.bw ∷ []

-- The lexicographic order of tuples and vectors of numbers.
unfoldable pub lex : List ℕ → List ℕ → Bool
lex a [] = false
lex [] (y ∷ b) = true
lex (x ∷ a) (y ∷ b) = ltb x y || x == y && lex a b

unfoldable pub ident_lt : Ident → Ident → Bool
unfolding lex
ident_lt a b = lex (fields a) (fields b)

-- `std::tie( kind, op, id, value )`
unfoldable pub item_key : Item → List ℕ
unfolding code
item_key (op o v) = 0 ∷ code o ∷ 0 ∷ 0 ∷ 0 ∷ 0 ∷ v ∷ []
item_key (constant v bw) = 1 ∷ 0 ∷ 0 ∷ 0 ∷ 0 ∷ bw ∷ v ∷ []
item_key (identifier id) = 2 ∷ 0 ∷ id.seg ∷ id.off ∷ id.gen ∷ id.bw ∷ 0 ∷ []
item_key (bool_val v) = 3 ∷ 0 ∷ 0 ∷ 0 ∷ 0 ∷ 0 ∷ v ∷ []

unfoldable pub item_lt : Item → Item → Bool
unfolding lex item_key
item_lt a b = lex (item_key a) (item_key b)

-- `std::vector<Item>::operator<`: by the first items of which one is less.
unfoldable pub rpn_lt : Formula → Formula → Bool
unfolding item_lt
rpn_lt f [] = false
rpn_lt [] (y ∷ g) = true
rpn_lt (x ∷ f) (y ∷ g) =
    let rest = rpn_lt f g in if item_lt x y then true else if item_lt y x then false else rest

-- `Definition::operator<`, the order of `std::pair`
unfoldable pub def_lt : Definition → Definition → Bool
unfolding ident_lt rpn_lt
def_lt a b = ident_lt a.symbol b.symbol || ident_eq a.symbol b.symbol && rpn_lt a.def b.def
