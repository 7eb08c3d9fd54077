-- ===== src/Formula/Substitute/Spec.antt =====
-- The substitution as a recursion on the formula, and the equality of the source's copying with it.
use sym_divine.Base.{
  ℕ, zero, suc, ◌-◌, ◌≤◌, ◌≡◌, refl, ap, ◌∙◌, List, [], ◌∷◌, ◌++◌, if◌then◌else◌, take, drop, arith,
  inl, inr, Bool-cases, All, All-mono,
}
use sym_divine.Formula.{Ident, Item, Formula}
use sym_divine.Formula.Substitute.{is_pattern, occurrences, copies}

unfoldable pub replace : Ident → Formula → Formula → Formula
replace pattern definition [] = []
replace pattern definition (x ∷ f) =
    let rest = replace pattern definition f in
    if is_pattern pattern x then definition ++ rest else x ∷ rest

module _ (pattern : Ident) (definition : Formula) where
  -- What the source copies for the part `g` of the formula `whole` that starts at index `n`.
  abbrev pub copied : Formula → ℕ → Formula → List ℕ → Formula
  copied whole n g [] = g
  copied whole n g (first ∷ later) =
      take (first - n) g ++ (definition ++ copies whole definition first later)

  drop-suc : (n : ℕ) (f : Formula) (x : Item) (g : Formula) → drop n f ≡ x ∷ g → drop (suc n) f ≡ g
  drop-suc zero f x g e = rw e
  drop-suc (suc n) [] x g e = cc
  drop-suc (suc n) (y ∷ f) x g e = drop-suc n f x g e

  All-weaken : (n : ℕ) (is : List ℕ) → All (λ i. suc n ≤ i) is → All (λ i. n ≤ i) is
  All-weaken n = All-mono {P = λ i. suc n ≤ i} {Q = λ i. n ≤ i} (λ i h. omega arith)

  occurrences-ge : (n : ℕ) (g : Formula) → All (λ i. n ≤ i) (occurrences pattern n g)
  occurrences-ge n [] = tt
  occurrences-ge n (x ∷ g) =
      let later = All-weaken n (occurrences pattern (suc n) g) (occurrences-ge (suc n) g) in
      elim (Bool-cases (is_pattern pattern x)) [
        | inl hit ↦ rw hit (omega arith, later)
        | inr miss ↦ rw miss later
      ]

  copies-copied :
      (whole : Formula) (n : ℕ) (g : Formula) (later : List ℕ)
      → drop (suc n) whole ≡ g
      → copies whole definition n later ≡ copied whole (suc n) g later
  copies-copied whole n g [] e = e
  copies-copied whole n g (p ∷ later) e = rw e

  copied_skip :
      (whole : Formula) (n : ℕ) (x : Item) (g : Formula) (later : List ℕ)
      → All (λ i. suc n ≤ i) later
      → copied whole n (x ∷ g) later ≡ x ∷ copied whole (suc n) g later
  copied_skip whole n x g [] h = refl
  copied_skip whole n x g (p ∷ later) h =
      let e : p - n ≡ suc (p - suc n) = omega (arith, h.0) in rw e

  pub copied-replace :
      (whole : Formula) (n : ℕ) (g : Formula)
      → drop n whole ≡ g
      → copied whole n g (occurrences pattern n g) ≡ replace pattern definition g
  unfolding replace
  copied-replace whole n [] e = refl
  copied-replace whole n (x ∷ g) e =
      let dropped = drop-suc n whole x g e in
      let later = occurrences pattern (suc n) g in
      let ih = copied-replace whole (suc n) g dropped in
      let none_left : n - n ≡ 0 = omega arith in
      elim (Bool-cases (is_pattern pattern x)) [
        | inl hit ↦
            rw (hit, none_left)
              (ap (λ r. definition ++ r) (copies-copied whole n g later dropped ∙ ih))
        | inr miss ↦
            rw miss (copied_skip whole n x g later (occurrences-ge (suc n) g) ∙ ap (◌∷◌ x) ih)
      ]
