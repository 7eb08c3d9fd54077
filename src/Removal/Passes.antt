-- ===== src/Removal/Passes.antt =====
-- One pass of `removeDefinitions` of src/llvmsym/smtdatastore.h over the formulas that are left: its
-- asserts hold, and either it changes nothing or the weight of all formulas falls.
use sym_divine.Base.{
  ℕ, ◌<◌, ◌≡◌, refl, ap, ◌∙◌, ◌⊎◌, inl, inr, Bool, true, false, ◌||◌, Option, none, some, List, [],
  ◌∷◌, arith, Bool-cases, All, ◌>>=◌,
}
use sym_divine.Formula.{Ident, Formula, rpn_eq, sane, is_empty}
use sym_divine.Formula.Term.{postfix}
use sym_divine.Formula.Sane.{sane-postfix, postfix-ne}
use sym_divine.Formula.Substitute.{Definition, substitute, def_substitute}
use sym_divine.Formula.Substitute.Spec.{replace}
use sym_divine.Formula.Substitute.Laws.{substitute-replace}
use sym_divine.Smt.Rewriting.{rpn_eq_refl}
use sym_divine.Removal.{rewrite_formula, rewrite_definition}
use sym_divine.Removal.Weight.{
  IsAbsent, IsListing, weight, AreRanked, rpn_eq-weight, weight-replace, replace-IsListing,
}

-- The definitions replaced one after the other.
abbrev pub replace_all : List Definition → Formula → Formula
replace_all [] f = f
replace_all (d ∷ ds) f = replace_all ds (replace d.symbol d.def f)

abbrev pub AreListings : List Definition → Type 0
AreListings = All (λ d. IsListing d.def)

pub substitute-IsListing :
    (f g : Formula) (id : Ident)
    → IsListing f
    → IsListing g
    → (substitute f id g ≡ some (replace id g f)) × IsListing (replace id g f)
substitute-IsListing f g id (t, e) (u, e') =
    rw (e, e')
      (
        substitute-replace id (postfix u) (sane-postfix u) (postfix-ne u) (postfix t)
            (sane-postfix t),
        replace-IsListing id u t,
      )

module _ (w : Ident → ℕ) where
  -- What one pass may do to a formula: leave it, as it mentions no symbol, or lower its weight.
  abbrev pub Pass : List Definition → Formula → Bool → Type 0
  Pass ds f change =
      (change ≡ false) × All (λ d. IsAbsent d.symbol f) ds × (replace_all ds f ≡ f)
      ⊎ (change ≡ true) × (weight w (replace_all ds f) < weight w f)

  step_change :
      (d : Definition) (f : Formula)
      → weight w d.def < w d.symbol
      → let g = replace d.symbol d.def f in
        (IsAbsent d.symbol f × (g ≡ f) × (rpn_eq g f ≡ true))
        ⊎ (weight w g < weight w f) × (rpn_eq g f ≡ false)
  step_change d f h = elim (weight-replace w d.symbol d.def h f) [
    | inl same ↦ inl (same.0, same.1, rw same.1 (rpn_eq_refl f))
    | inr less ↦ elim (Bool-cases (rpn_eq (replace d.symbol d.def f) f)) [
      | inl e ↦ let same = rpn_eq-weight w _ f e in absurd (omega arith)
      | inr e ↦ inr (less, e)
    ]
  ]

  -- A pass after a first substitution that changed nothing, and after one that did.
  Pass-same :
      (d : Definition) (ds : List Definition) (f : Formula) (change : Bool)
      → IsAbsent d.symbol f
      → replace d.symbol d.def f ≡ f
      → Pass ds f change
      → Pass (d ∷ ds) f change
  Pass-same d ds f change absent same (inl (e, rest, last)) =
      inl (e, (absent, rest), ap (replace_all ds) same ∙ last)
  Pass-same d ds f change absent same (inr (e, less)) =
      let kept = ap (λ g. weight w (replace_all ds g)) same in inr (e, omega arith)

  Pass-less :
      (d : Definition) (ds : List Definition) (f : Formula) (change : Bool)
      → weight w (replace d.symbol d.def f) < weight w f
      → Pass ds (replace d.symbol d.def f) change
      → Pass (d ∷ ds) f true
  Pass-less d ds f change less (inl (e, rest, last)) =
      let kept = ap (weight w) last in inr (refl, omega arith)
  Pass-less d ds f change less (inr (e, later)) = inr (refl, omega arith)

  pub rewrite_formula-Pass :
      (ds : List Definition) (f : Formula)
      → AreListings ds
      → AreRanked w ds
      → IsListing f
      → (change : Bool) × (rewrite_formula ds f ≡ some (replace_all ds f, change))
        × Pass ds f change
        × IsListing (replace_all ds f)
  unfolding rewrite_formula
  rewrite_formula-Pass [] f hs hr hf = (false, refl, inl (refl, tt, refl), hf)
  rewrite_formula-Pass (d ∷ ds) f hs hr hf =
      let (runs, listing) = substitute-IsListing f d.def d.symbol hf hs.0 in
      let (change, rest, pass, last) =
        rewrite_formula-Pass ds (replace d.symbol d.def f) hs.1 hr.1 listing in
      elim (step_change d f hr.0) [
        | inl (absent, same, e) ↦
            let rest' = rw same at rest in
            (
              change,
              rw (runs, e, same, rest'),
              Pass-same d ds f change absent same (rw same at pass),
              last,
            )
        | inr (less, e) ↦ (true, rw (runs, e, rest), Pass-less d ds f change less pass, last)
      ]

def_substitute-IsListing :
    (d x : Definition)
    → IsListing d.def
    → IsListing x.def
    → def_substitute d x.symbol x.def
      ≡ some (record { symbol = d.symbol; def = replace x.symbol x.def d.def })
unfolding def_substitute
def_substitute-IsListing d x hd hx =
    let (runs, listing) = substitute-IsListing d.def x.def x.symbol hd hx in
    let (t, e) = listing in
    let fine : sane d.def ≡ true = rw hd.1 (sane-postfix hd.0) in
    let fine' : sane x.def ≡ true = rw hx.1 (sane-postfix hx.0) in
    let fine'' : sane (replace x.symbol x.def d.def) ≡ true = rw e (sane-postfix t) in
    let ne : is_empty (replace x.symbol x.def d.def) ≡ false = rw e (postfix-ne t) in
    rw (fine', fine, runs, fine'', ne)

with_formula : Definition → Formula → Definition
with_formula d f = record { symbol = d.symbol; def = f }

in_definition : Definition → Option (Formula × Bool) → Option (Definition × Bool)
in_definition d none = none
in_definition d (some (f, change)) = some (with_formula d f, change)

in_definition-or :
    (d : Definition) (b : Bool) (m : Option (Formula × Bool))
    → (in_definition d m >>= λ r. some (r.0, b || r.1))
      ≡ in_definition d (m >>= λ r. some (r.0, b || r.1))
unfolding in_definition
in_definition-or d b none = refl
in_definition-or d b (some r) = refl

-- The passes over a definition do to its formula what those over a path condition do.
rewrite_definition-formula :
    (ds : List Definition) (d : Definition)
    → AreListings ds
    → IsListing d.def
    → rewrite_definition ds d ≡ in_definition d (rewrite_formula ds d.def)
unfolding rewrite_formula rewrite_definition in_definition with_formula
rewrite_definition-formula [] d hs hd = refl
rewrite_definition-formula (x ∷ ds) d hs hd =
    let (runs, listing) = substitute-IsListing d.def x.def x.symbol hd hs.0 in
    let g : Formula = replace x.symbol x.def d.def in
    elim (Bool-cases (rpn_eq g d.def)) [
      | inl same ↦
          rw
            (
              def_substitute-IsListing d x hd hs.0,
              runs,
              same,
              rewrite_definition-formula ds d hs.1 hd,
            )
            (in_definition-or d false (rewrite_formula ds d.def))
      | inr other ↦
          rw
            (
              def_substitute-IsListing d x hd hs.0,
              runs,
              other,
              rewrite_definition-formula ds (with_formula d g) hs.1 listing,
            )
            (in_definition-or d true (rewrite_formula ds g))
    ]

module _ (w : Ident → ℕ) where
  pub rewrite_definition-Pass :
      (ds : List Definition) (d : Definition)
      → AreListings ds
      → AreRanked w ds
      → IsListing d.def
      → (change : Bool) × (rewrite_definition ds d
          ≡ some (record { symbol = d.symbol; def = replace_all ds d.def }, change))
        × Pass w ds d.def change
        × IsListing (replace_all ds d.def)
  unfolding in_definition with_formula
  rewrite_definition-Pass ds d hs hr hd =
      let (change, runs, pass, listing) = rewrite_formula-Pass w ds d.def hs hr hd in
      (change, rewrite_definition-formula ds d hs hd ∙ ap (in_definition d) runs, pass, listing)
