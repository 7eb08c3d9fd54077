-- ===== src/Toolkit/UnionSet/Join.antt =====
-- `join` of src/toolkit/utils.h puts the members of two sets under one root and leaves the other sets as
-- they are.
use sym_divine.Base.{
  ℕ, zero, suc, ◌+◌, ◌≡◌, ◌≢◌, ◌⊎◌, refl, sym, ap, ◌∙◌, false, ◌||◌, Option, none, some, List, ◌==◌,
  ==_self, ==_iff, ltb, if◌then◌else◌, get_elem?, set, Returns, arith, inl, inr, Bool-cases,
  get_elem?-set_self, get_elem?-set_ne, get_elem?-lt, some_inj, length-set, >>=-eq-some, length,
  ◌<◌,
}
use sym_divine.Toolkit.UnionSet.{Node, is_root, parent_of, get_set, put_below, join}

-- The root after `node` was put below `top`.
abbrev pub new_root : ℕ → ℕ → ℕ → ℕ
new_root top node r = if r == node then top else r

nat-cases : (a b : ℕ) → (a ≡ b) ⊎ (a ≢ b)
nat-cases a b = elim (Bool-cases (a == b)) [
  | inl e ↦ inl ((==_iff a b).0 e)
  | inr e ↦ inr (λ q. let e' = (==_iff a b).1 q in cc)
]

module _ {ℓ κ} {T : Type ℓ} {I : Type κ} (merge : I → I → I) (nodes : List (Node T I))
    (top node : ℕ) (t n : Node T I) (at_top : get_elem? nodes top ≡ some t)
    (at_node : get_elem? nodes node ≡ some n) (apart : top ≢ node) (top_root : t.parent ≡ none)
    (node_root : n.parent ≡ none) where
  abbrev with_top : List (Node T I)
  with_top = set nodes top (record t { depth = t.depth + 1; tag = merge t.tag n.tag })

  abbrev below : List (Node T I)
  below = set with_top node (record n { parent = some top })

  below_parent-node : parent_of below node ≡ some (some top)
  unfolding parent_of
  below_parent-node =
      let inside : node < length with_top =
        rw (length-set nodes top (record t { depth = t.depth + 1; tag = merge t.tag n.tag }))
          (get_elem?-lt nodes node n at_node) in
      rw (get_elem?-set_self with_top node (record n { parent = some top }) inside) refl

  below_parent_other : (x : ℕ) → x ≢ node → parent_of below x ≡ parent_of nodes x
  unfolding parent_of
  below_parent_other x other =
      let here =
        get_elem?-set_ne with_top node x (record n { parent = some top }) (λ e. other (sym e)) in
      elim (nat-cases top x) [
        | inl same ↦
            let inside = get_elem?-lt nodes top t at_top in
            let new =
              get_elem?-set_self nodes top
                (record t { depth = t.depth + 1; tag = merge t.tag n.tag }) inside in
            rw here (rw (← same) (rw (new, at_top) refl))
        | inr away ↦
            rw
              (
                here,
                get_elem?-set_ne nodes top x
                    (record t { depth = t.depth + 1; tag = merge t.tag n.tag }) away,
              )
              refl
      ]

  old_parent-node : parent_of nodes node ≡ some none
  unfolding parent_of
  old_parent-node = rw (at_node, node_root) refl

  old_parent-top : parent_of nodes top ≡ some none
  unfolding parent_of
  old_parent-top = rw (at_top, top_root) refl

  below_parent-top : parent_of below top ≡ some none
  below_parent-top = below_parent_other top apart ∙ old_parent-top

  get_set-below :
      (k x r : ℕ)
      → get_set k nodes x ≡ some r
      → get_set (suc k) below x ≡ some (new_root top node r)
  unfolding get_set
  get_set-below zero x r h = cc
  get_set-below (suc k) x r h = elim (nat-cases x node) [
    | inl same ↦
        let found : some x ≡ some r = rw (same, old_parent-node) at h in
        let root : r ≡ node = sym (some_inj found) ∙ same in
        rw (root, ==_self node, same, below_parent-node, below_parent-top) refl
    | inr other ↦
        let (parent, old, rest) = >>=-eq-some (parent_of nodes x) _ h in
        walk parent other (below_parent_other x other ∙ old) rest (λ q. get_set-below k q r)
  ]
    where
      walk :
          (parent : Option ℕ)
          → x ≢ node
          → parent_of below x ≡ some parent
          → elim parent [ none ↦ some x | some q ↦ get_set k nodes q ] ≡ some r
          → ((q : ℕ)
              → get_set k nodes q ≡ some r
              → get_set (suc k) below q ≡ some (new_root top node r))
          → get_set (suc (suc k)) below x ≡ some (new_root top node r)
      walk none other new rest ih =
          let miss : (x == node) ≡ false = ground arith in rw (new, ← some_inj rest, miss) refl
      walk (some q) other new rest ih = rw new (ih q rest)

module _ {ℓ κ} {T : Type ℓ} {I : Type κ} where
  -- The root that `join` keeps.
  abbrev pub kept_root : Node T I → Node T I → ℕ → ℕ → ℕ
  kept_root a_node b_node a b = if ltb b_node.depth a_node.depth then b else a

  -- Two different roots are joined, and then every node whose set had one of them for its root has the
  -- same root, the one with the smaller depth, and every other node keeps its root; the way to the
  -- root is longer by one step at most.
  pub get_set-join :
      (merge : I → I → I) (nodes : List (Node T I)) (a b k x r : ℕ) (a_node b_node : Node T I)
      → get_elem? nodes a ≡ some a_node
      → get_elem? nodes b ≡ some b_node
      → a_node.parent ≡ none
      → b_node.parent ≡ none
      → a ≢ b
      → get_set k nodes x ≡ some r
      → Returns (join merge nodes a b) λ joined.
        get_set (suc k) joined x
        ≡ some (if r == a || r == b then kept_root a_node b_node a b else r)
  unfolding join is_root put_below
  get_set-join merge nodes a b k x r a_node b_node at_a at_b root_a root_b apart found =
      let differ : (a == b) ≡ false = ground arith in
      elim (Bool-cases (ltb b_node.depth a_node.depth)) [
        | inl deeper ↦ (
          below merge nodes b a b_node a_node at_b at_a (λ e. apart (sym e)) root_b root_a,
          rw (at_a, at_b, root_a, root_b, differ, deeper) refl,
          get_set-below merge nodes b a b_node a_node at_b at_a (λ e. apart (sym e)) root_b root_a k
                x r found
              ∙ ap some (rw deeper (ground arith)),
        )
        | inr not_deeper ↦ (
          below merge nodes a b a_node b_node at_a at_b apart root_a root_b,
          rw (at_a, at_b, root_a, root_b, differ, not_deeper) refl,
          get_set-below merge nodes a b a_node b_node at_a at_b apart root_a root_b k x r found
              ∙ ap some (rw not_deeper (ground arith)),
        )
      ]
