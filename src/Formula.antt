-- ===== src/Formula.antt =====
-- `Formula` of src/llvmsym/formula/rpn.h: items, formulas in postfix order, and the functions that
-- build and test them. A formula is the list of the items of `_rpn`. An item keeps the fields that
-- its kind uses: an operator its `value` (the width of an extension, the bounds of a truncation; 0
-- where the source leaves it unset), a constant its value and bit width. `none` is a failed `assert`.
pub mod Term
pub mod Sane
pub mod Substitute
pub mod Order
use Prim.Native.Nat.{bit_or}
use sym_divine.Base.{
  ℕ, suc, ◌*◌, ◌≡◌, Bool, true, false, ◌&&◌, ◌||◌, not, Option, none, some, List, [], ◌∷◌, ◌++◌,
  ◌==◌, if◌then◌else◌, length, ◌>>=◌, ◌>>◌, ensure,
}

pub record Ident : Type 0 where
  pub seg : ℕ
  pub off : ℕ
  pub gen : ℕ
  pub bw : ℕ

abbrev pub ident_eq : Ident → Ident → Bool
ident_eq a b = a.seg == b.seg && a.off == b.off && a.gen == b.gen && a.bw == b.bw

unfoldable pub no_gen : Ident → Ident
no_gen i = record i { gen = 0 }

pub data Operator : Type 0 where
  plus minus times div srem urem eq neq lt ult leq uleq gt ugt geq ugeq and xor or bor band bnot
        not_ shl concat shr sext zext trunc :
      Operator

-- The value of the enumerator, which `==` compares.
unfoldable pub code : Operator → ℕ
code plus = 0
code minus = 1
code times = 2
code div = 3
code srem = 4
code urem = 5
code eq = 6
code neq = 7
code lt = 8
code ult = 9
code leq = 10
code uleq = 11
code gt = 12
code ugt = 13
code geq = 14
code ugeq = 15
code and = 16
code xor = 17
code or = 18
code bor = 19
code band = 20
code bnot = 21
code not_ = 22
code shl = 23
code concat = 24
code shr = 25
code sext = 26
code zext = 27
code trunc = 28

pub data Item : Type 0 where
  op : Operator → ℕ → Item
  constant : ℕ → ℕ → Item
  identifier : Ident → Item
  bool_val : ℕ → Item

abbrev pub Formula : Type 0
Formula = List Item

unfoldable pub is_unary_op : Operator → Bool
is_unary_op sext = true
is_unary_op zext = true
is_unary_op trunc = true
is_unary_op not_ = true
is_unary_op bnot = true
is_unary_op o = false

unfoldable pub item_depends_on : Item → ℕ → ℕ → ℕ → Bool
item_depends_on (identifier id) seg off gen = id.seg == seg && id.off == off && id.gen == gen
item_depends_on i seg off gen = false

-- `Item::operator==`: the value of an operator and the width of a constant are not compared.
unfoldable pub item_eq : Item → Item → Bool
unfolding code
item_eq (identifier a) (identifier b) = ident_eq a b
item_eq (op a _) (op b _) = code a == code b
item_eq (constant a _) (constant b _) = a == b
item_eq (bool_val a) (bool_val b) = a == b
item_eq a b = false

-- `a._rpn == b._rpn`
unfoldable pub rpn_eq : Formula → Formula → Bool
rpn_eq [] [] = true
rpn_eq (a ∷ as') (b ∷ bs) = item_eq a b && rpn_eq as' bs
rpn_eq a b = false

-- The loop of `sane`. The `int` counter is kept as its increments `up` and its decrements `down`.
unfoldable pub balance : ℕ → ℕ → Formula → Bool
unfolding is_unary_op
balance up down [] = up == suc down
balance up down (op o v ∷ f) = balance up (if is_unary_op o then down else suc down) f
balance up down (constant v bw ∷ f) = balance (suc up) down f
balance up down (identifier id ∷ f) = balance (suc up) down f
balance up down (bool_val v ∷ f) = balance (suc up) down f

unfoldable pub sane : Formula → Bool
unfolding balance
sane [] = true
sane (i ∷ f) = balance 0 0 (i ∷ f)

unfoldable pub depends_on : Formula → ℕ → ℕ → ℕ → Bool
depends_on [] seg off gen = false
depends_on (i ∷ f) seg off gen =
    if item_depends_on i seg off gen then true else depends_on f seg off gen

unfoldable pub collect_variables : Formula → List Ident
collect_variables [] = []
collect_variables (identifier id ∷ f) = id ∷ collect_variables f
collect_variables (op o v ∷ f) = collect_variables f
collect_variables (constant v bw ∷ f) = collect_variables f
collect_variables (bool_val v ∷ f) = collect_variables f

abbrev pub is_empty : Formula → Bool
is_empty [] = true
is_empty (i ∷ f) = false

-- The end of `joinBinary` and `joinUnary`: both assert that the result is sane.
abbrev pub checked : Formula → Option Formula
checked f = do ensure (sane f); some f

unfoldable pub join_binary : Formula → Formula → Operator → Option Formula
unfolding code
join_binary l r o =
    if code o == code and && is_empty l
    then some r
    else if code o == code and && is_empty r
    then some l
    else checked (l ++ (r ++ op o 0 ∷ []))

unfoldable pub join_unary : Formula → Operator → ℕ → Option Formula
join_unary l o value = checked (l ++ op o value ∷ [])

unfoldable pub build_bool_val : Bool → Formula
build_bool_val val = bool_val (if val then 1 else 0) ∷ []

unfoldable pub build_constant : ℕ → ℕ → Option Formula
build_constant val bw = do ensure (not (bw == 0)); some (constant val bw ∷ [])

unfoldable pub build_identifier : Ident → Option Formula
build_identifier id = do ensure (not (id.bw == 0)); some (identifier id ∷ [])

unfoldable pub build_zext : Formula → ℕ → Option Formula
build_zext f bits = join_unary f zext bits

unfoldable pub build_sext : Formula → ℕ → Option Formula
build_sext f bits = join_unary f sext bits

unfoldable pub build_bnot : Formula → Option Formula
build_bnot f = join_unary f bnot 0

-- The high word holds `from`, the low word `to`.
unfoldable pub build_trunc : Formula → ℕ → ℕ → Option Formula
build_trunc f from to = join_unary f trunc (bit_or (from * 65536) to)

-- `operator!`
unfoldable pub build_not : Formula → Option Formula
build_not f = join_unary f not_ 0

-- `operator&&`: the empty formula is dropped.
unfoldable pub build_and : Formula → Formula → Option Formula
build_and a b = if is_empty b then some a else if is_empty a then some b else join_binary a b and

-- `operator&`
unfoldable pub build_band : Formula → Formula → Option Formula
build_band a b = if is_empty b then some a else if is_empty a then some b else join_binary a b band
