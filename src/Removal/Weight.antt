-- ===== src/Removal/Weight.antt =====
-- A weight of formulas that a substitution lowers. It ranks definitions that do not depend on each
-- other in a circle: each weighs more by its symbol than by what it says.
use mathlib.Core.List.{append_assoc, append-nil}
use sym_divine.Base.{
  ℕ, ◌+◌, ◌<◌, ◌≡◌, refl, sym, ap, ◌∙◌, ◌⊎◌, inl, inr, true, false, List, [], ◌∷◌, ◌++◌, arith,
  Bool-cases, All, both_true,
}
use sym_divine.Formula.{
  Ident, ident_eq, Item, op, constant, identifier, bool_val, Formula, collect_variables, rpn_eq,
  item_eq,
}
use sym_divine.Formula.Term.{Term, const, var, truth, unary, binary, postfix}
use sym_divine.Formula.Substitute.{Definition, is_pattern}
use sym_divine.Formula.Substitute.Spec.{replace}
use sym_divine.Formula.Substitute.Laws.{ident_eq-eq}

-- The formula does not mention the variable.
abbrev pub IsAbsent : Ident → Formula → Type 0
IsAbsent id f = All (λ i. ident_eq i id ≡ false) (collect_variables f)

-- The formula lists a term.
abbrev pub IsListing : Formula → Type 0
IsListing f = (t : Term) × (f ≡ postfix t)

module _ (w : Ident → ℕ) where
  abbrev pub weight : Formula → ℕ
  weight [] = 0
  weight (identifier id ∷ f) = w id + weight f
  weight (op o v ∷ f) = weight f
  weight (constant v bw ∷ f) = weight f
  weight (bool_val v ∷ f) = weight f

  -- The definitions can be eliminated one after the other.
  abbrev pub AreRanked : List Definition → Type 0
  AreRanked = All (λ d. weight d.def < w d.symbol)

  weight-append : (f g : Formula) → weight (f ++ g) ≡ weight f + weight g
  weight-append [] g = omega arith
  weight-append (identifier id ∷ f) g = omega (arith, weight-append f g)
  weight-append (op o v ∷ f) g = weight-append f g
  weight-append (constant v bw ∷ f) g = weight-append f g
  weight-append (bool_val v ∷ f) g = weight-append f g

  weight-item :
      (x y : Item) (f g : Formula)
      → item_eq x y ≡ true
      → weight f ≡ weight g
      → weight (x ∷ f) ≡ weight (y ∷ g)
  unfolding item_eq
  weight-item (identifier a) (identifier b) f g same e = rw (ident_eq-eq a b same, e)
  weight-item (identifier a) _ f g same e = cc
  weight-item (op o v) (op p u) f g same e = e
  weight-item (op o v) _ f g same e = cc
  weight-item (constant v bw) (constant u bu) f g same e = e
  weight-item (constant v bw) _ f g same e = cc
  weight-item (bool_val v) (bool_val u) f g same e = e
  weight-item (bool_val v) _ f g same e = cc

  -- Formulas that compare equal mention the same variables, so they weigh the same.
  pub rpn_eq-weight : (f g : Formula) → rpn_eq f g ≡ true → weight f ≡ weight g
  unfolding rpn_eq item_eq
  rpn_eq-weight [] [] h = refl
  rpn_eq-weight [] (y ∷ g) h = cc
  rpn_eq-weight (x ∷ f) [] h = cc
  rpn_eq-weight (x ∷ f) (y ∷ g) h =
      let (same, rest) = both_true (item_eq x y) (rpn_eq f g) h in
      weight-item x y f g same (rpn_eq-weight f g rest)

  -- Replacing the symbol of a definition that weighs less lowers the weight of a formula, unless the
  -- formula does not mention the symbol, and then it stays as it is.
  pub weight-replace :
      (id : Ident) (d : Formula)
      → weight d < w id
      → (f : Formula)
      → (IsAbsent id f × (replace id d f ≡ f)) ⊎ (weight (replace id d f) < weight f)
  unfolding replace collect_variables
  weight-replace id d h [] = inl (tt, refl)
  weight-replace id d h (op o v ∷ f) = elim (weight-replace id d h f) [
    | inl same ↦ inl (same.0, ap (◌∷◌ (op o v)) same.1)
    | inr less ↦ inr less
  ]
  weight-replace id d h (constant v bw ∷ f) = elim (weight-replace id d h f) [
    | inl same ↦ inl (same.0, ap (◌∷◌ (constant v bw)) same.1)
    | inr less ↦ inr less
  ]
  weight-replace id d h (bool_val v ∷ f) = elim (weight-replace id d h f) [
    | inl same ↦ inl (same.0, ap (◌∷◌ (bool_val v)) same.1)
    | inr less ↦ inr less
  ]
  weight-replace id d h (identifier i ∷ f) = elim (Bool-cases (ident_eq i id)) [
    | inl hit ↦
        let less : weight d + weight (replace id d f) < w i + weight f =
          (rw (ident_eq-eq i id hit) elim (weight-replace id d h f) [
            | inl same ↦ rw same.1 (omega arith)
            | inr less ↦ omega arith
          ]) in
        inr (rw (hit, weight-append d (replace id d f)) less)
    | inr miss ↦ rw miss elim (weight-replace id d h f) [
      | inl same ↦ inl ((refl, same.0), ap (◌∷◌ (identifier i)) same.1)
      | inr less ↦ inr (omega arith)
    ]
  ]

replace-append :
    (id : Ident) (d f g : Formula) → replace id d (f ++ g) ≡ replace id d f ++ replace id d g
unfolding replace
replace-append id d [] g = refl
replace-append id d (x ∷ f) g = elim (Bool-cases (is_pattern id x)) [
  | inl hit ↦
      rw (hit, replace-append id d f g) (sym (append_assoc d (replace id d f) (replace id d g)))
  | inr miss ↦ rw (miss, replace-append id d f g)
]

-- A substitution of a listing in a listing gives a listing.
pub replace-IsListing :
    (id : Ident) (d : Term) (t : Term) → IsListing (replace id (postfix d) (postfix t))
unfolding replace postfix
replace-IsListing id d (const v bw) = (const v bw, refl)
replace-IsListing id d (truth v) = (truth v, refl)
replace-IsListing id d (var i) = elim (Bool-cases (ident_eq i id)) [
  | inl hit ↦ rw hit (d, append-nil (postfix d))
  | inr miss ↦ rw miss (var i, refl)
]
replace-IsListing id d (unary o e v t) =
    let (u, same) = replace-IsListing id d t in
    (
      unary o e v u,
      replace-append id (postfix d) (postfix t) (op o v ∷ []) ∙ ap (λ f. f ++ op o v ∷ []) same,
    )
replace-IsListing id d (binary o e v l r) =
    let (u, same) = replace-IsListing id d l in
    let (u', same') = replace-IsListing id d r in
    (
      binary o e v u u',
      replace-append id (postfix d) (postfix l) (postfix r ++ op o v ∷ [])
          ∙ rw (same, replace-append id (postfix d) (postfix r) (op o v ∷ []), same'),
    )
