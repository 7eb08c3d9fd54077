-- ===== src/Datastore.antt =====
-- What all the data stores share: the values and comparisons of src/llvmsym/datastore.h and
-- datastore.cpp, and the C++ integers of their operations, with the wrap-around written out.
pub mod Words
use sym_divine.Base.{ℕ, Bool, List, Option, none, some}

-- `DataStore::Value`, with its flag `pointer` last.
pub data Value : Type 0 where
  variable : (segment offset : ℕ) → (pointer : Bool) → Value
  constant : (value bw : ℕ) → (pointer : Bool) → Value

abbrev pub is_pointer : Value → Bool
is_pointer (variable segment offset pointer) = pointer
is_pointer (constant value bw pointer) = pointer

-- `ICmp_Op`
pub data Comparison : Type 0 where
  eq : Comparison
  ne : Comparison
  ugt : Comparison
  uge : Comparison
  ult : Comparison
  ule : Comparison
  sgt : Comparison
  sge : Comparison
  slt : Comparison
  sle : Comparison

unfoldable pub icmp_negate : Comparison → Comparison
icmp_negate eq = ne
icmp_negate ne = eq
icmp_negate ugt = ule
icmp_negate uge = ult
icmp_negate ult = uge
icmp_negate ule = ugt
icmp_negate sgt = sle
icmp_negate sge = slt
icmp_negate slt = sge
icmp_negate sle = sgt
