-- ===== src/Toolkit/UnionSet.antt =====
-- `UnionSet` and `join` of src/toolkit/utils.h: a forest of nodes, with pointers as indices into the list of
-- all nodes. `none` is an invalid pointer or a failed `assert`; the walk to the root has fuel.
pub mod Join
use sym_divine.Base.{
  ℕ, zero, suc, ◌+◌, ◌≡◌, ◌≢◌, ◌⊎◌, refl, sym, ap, ◌∙◌, Bool, true, false, not, ◌||◌, Option, none,
  some, List, ◌==◌, ==_self, ==_iff, ltb, if◌then◌else◌, get_elem?, set, ◌>>=◌, ◌>>◌, ensure,
  Returns, arith, inl, inr, Bool-cases, Option-cases, get_elem?-set_self, get_elem?-set_ne,
  get_elem?-lt, some_inj, length-set,
}

pub record Node {ℓ κ} (T : Type ℓ) (I : Type κ) : Type (ℓ ⊔ κ) where
  pub data_ : T
  pub tag : I
  pub parent : Option ℕ
  pub depth : ℕ

abbrev pub is_none {ℓ} : {A : Type ℓ} → Option A → Bool
is_none none = true
is_none (some a) = false

module _ {ℓ κ} {T : Type ℓ} {I : Type κ} where
  unfoldable pub is_root : Node T I → Bool
  is_root node = is_none node.parent

  -- The parent of the node that a pointer names.
  unfoldable pub parent_of : List (Node T I) → ℕ → Option (Option ℕ)
  parent_of nodes p = do node ← get_elem? nodes p; some node.parent

  -- `get_set`
  unfoldable pub get_set : ℕ → List (Node T I) → ℕ → Option ℕ
  unfolding parent_of
  get_set zero nodes p = none
  get_set (suc n) nodes p = do
    parent ← parent_of nodes p
    elim parent [ none ↦ some p | some q ↦ get_set n nodes q ]

  -- The end of `join`: `node` is put below `top`.
  unfoldable pub put_below : (I → I → I) → List (Node T I) → ℕ → ℕ → Option (List (Node T I))
  put_below merge nodes top node = do
    t ← get_elem? nodes top
    n ← get_elem? nodes node
    some (
        set (set nodes top (record t { depth = t.depth + 1; tag = merge t.tag n.tag })) node
          (record n { parent = some top }))

  unfoldable pub join : (I → I → I) → List (Node T I) → ℕ → ℕ → Option (List (Node T I))
  unfolding is_root put_below
  join merge nodes a b = do
    a_node ← get_elem? nodes a
    b_node ← get_elem? nodes b
    ensure (is_root a_node)
    ensure (is_root b_node)
    ensure (not (a == b))
    if ltb b_node.depth a_node.depth then put_below merge nodes b a else put_below merge nodes a b
