-- ===== src/Evaluator/Collected.antt =====
-- `restoringYield` of src/llvmsym/evaluator.h: where the states of the yields of one step are put.
use sym_divine.Base.{
  ◌≡◌, refl, sym, Bool, true, false, ◌||◌, ◌&&◌, not, inl, inr, List, [], ◌∷◌, ◌++◌, if◌then◌else◌,
  ensure, Whenever, each, stop, All, All-append, subst,
}
use mathlib.Core.List.Memᴰ
use mathlib.Core.List.{Memᴰ}
use sym_divine.Evaluator.{State}
use sym_divine.Evaluator.Values.{Yield}
use sym_divine.Evaluator.Search
use sym_divine.Evaluator.Search.{Found, Progress}

-- A yield that `advance` passes on, and one that it goes on from; an empty one is neither.
abbrev pub is_shown {ℓ} : {D : Type ℓ} → Yield D → Bool
is_shown y = not y.is_empty && (y.is_observable || y.state.error)

abbrev pub goes_on {ℓ} : {D : Type ℓ} → Yield D → Bool
goes_on y = not y.is_empty && not (y.is_observable || y.state.error)

-- Where a state is put that is empty or not, shown or not.
abbrev placed {ℓ} : {D : Type ℓ} → Bool → Bool → State D → Found D → Found D
placed is_empty shown x found =
    if is_empty
    then found
    else if shown
    then record found { yielded = found.yielded ++ x ∷ [] }
    else record found { to_do = x ∷ found.to_do }

module _ {ℓ} {D : Type ℓ} where
  placed-yielded :
      (b c : Bool) (x : State D) (f : Found D) (u : State D)
      → Memᴰ u f.yielded
      → Memᴰ u (placed b c x f).yielded
  placed-yielded true c x f u m = m
  placed-yielded false true x f u m = Memᴰ.append_left (x ∷ []) m
  placed-yielded false false x f u m = m

  placed-to_do :
      (b c : Bool) (x : State D) (f : Found D) (u : State D)
      → Memᴰ u f.to_do
      → Memᴰ u (placed b c x f).to_do
  placed-to_do true c x f u m = m
  placed-to_do false true x f u m = m
  placed-to_do false false x f u m = Memᴰ.tail m

  placed-shown :
      (b c : Bool) (x : State D) (f : Found D)
      → (not b && c) ≡ true
      → Memᴰ x (placed b c x f).yielded
  placed-shown true c x f h = cc
  placed-shown false false x f h = cc
  placed-shown false true x f h = Memᴰ.append_right f.yielded (Memᴰ.head refl)

  placed-goes :
      (b c : Bool) (x : State D) (f : Found D)
      → (not b && not c) ≡ true
      → Memᴰ x (placed b c x f).to_do
  placed-goes true c x f h = cc
  placed-goes false true x f h = cc
  placed-goes false false x f h = Memᴰ.head refl

  -- The states that are there stay, and those of the yields are added.
  pub record Gathers (ys : List (Yield D)) (f g : Found D) : Type ℓ where
    pub old_yielded : (u : State D) → Memᴰ u f.yielded → Memᴰ u g.yielded
    pub old_to_do : (u : State D) → Memᴰ u f.to_do → Memᴰ u g.to_do
    pub shown : (y : Yield D) → Memᴰ y ys → is_shown y ≡ true → Memᴰ y.state g.yielded
    pub to_go_on : (y : Yield D) → Memᴰ y ys → goes_on y ≡ true → Memᴰ y.state g.to_do

  pub collect-Gathers :
      (lc : Bool) (ys : List (Yield D)) (f : Found D)
      → Whenever (Search.collect lc ys f) (Gathers ys f)
  unfolding Search.collect
  collect-Gathers lc [] f = stop (Gathers [] f) f (record {
    old_yielded = λ u m. m;
    old_to_do = λ u m. m;
    shown = λ y m. absurd (Memᴰ.not-nil m);
    to_go_on = λ y m. absurd (Memᴰ.not-nil m);
  })
  collect-Gathers lc (y ∷ ys) f = each (ensure (not lc)) _ λ u e0 g e1.
      let b = y.is_empty in
      let c = y.is_observable || y.state.error in
      let rest = collect-Gathers y.last ys (placed b c y.state f) g e1 in
      let first_shown : is_shown y ≡ true → Memᴰ y.state g.yielded =
        λ h. rest.old_yielded y.state (placed-shown b c y.state f h) in
      let first_goes : goes_on y ≡ true → Memᴰ y.state g.to_do =
        λ h. rest.old_to_do y.state (placed-goes b c y.state f h) in
      record {
        old_yielded = λ u m. rest.old_yielded u (placed-yielded b c y.state f u m);
        old_to_do = λ u m. rest.old_to_do u (placed-to_do b c y.state f u m);
        shown = λ z m. elim (Memᴰ.cases_cons m) [
          | inl e ↦ subst (λ v. is_shown v ≡ true → Memᴰ v.state g.yielded) (sym e) first_shown
          | inr m' ↦ rest.shown z m'
        ];
        to_go_on = λ z m. elim (Memᴰ.cases_cons m) [
          | inl e ↦ subst (λ v. goes_on v ≡ true → Memᴰ v.state g.to_do) (sym e) first_goes
          | inr m' ↦ rest.to_go_on z m'
        ];
      }

  placed-All :
      (P Q : State D → Type ℓ) (b c : Bool) (x : State D) (f : Found D)
      → All P f.yielded
      → All Q f.to_do
      → ((not b && c) ≡ true → P x)
      → ((not b && not c) ≡ true → Q x)
      → All P (placed b c x f).yielded × All Q (placed b c x f).to_do
  placed-All P Q true c x f hp hq p q = (hp, hq)
  placed-All P Q false true x f hp hq p q = (All-append P f.yielded (x ∷ []) hp (p refl, tt), hq)
  placed-All P Q false false x f hp hq p q = (hp, (q refl, hq))

  -- What holds of the states before and of those of the yields holds of the states after.
  pub collect-All :
      (P Q : State D → Type ℓ) (lc : Bool) (ys : List (Yield D)) (f : Found D)
      → All P f.yielded
      → All Q f.to_do
      → ((y : Yield D) → Memᴰ y ys → is_shown y ≡ true → P y.state)
      → ((y : Yield D) → Memᴰ y ys → goes_on y ≡ true → Q y.state)
      → Whenever (Search.collect lc ys f) λ g. All P g.yielded × All Q g.to_do
  unfolding Search.collect
  collect-All P Q lc [] f hp hq p q = stop (λ g. All P g.yielded × All Q g.to_do) f (hp, hq)
  collect-All P Q lc (y ∷ ys) f hp hq p q = each (ensure (not lc)) _ λ u e.
      let b = y.is_empty in
      let c = y.is_observable || y.state.error in
      let next = placed-All P Q b c y.state f hp hq (p y (Memᴰ.head refl)) (q y (Memᴰ.head refl)) in
      collect-All P Q y.last ys (placed b c y.state f) next.0 next.1 (λ z m. p z (Memᴰ.tail m))
        (λ z m. q z (Memᴰ.tail m))
