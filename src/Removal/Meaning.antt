-- ===== src/Removal/Meaning.antt =====
-- What `removeDefinitions` of src/llvmsym/smtdatastore.h keeps: the valuations under which the path
-- conditions and the definitions hold. A valuation is an instance of Z3 whose expressions are values.
use sym_divine.Base.{
  ℕ, ◌≡◌, refl, sym, ap, ◌∙◌, ◌↔◌, Bool, true, not, some, List, [], ◌∷◌, map, All, some_inj,
  Bool-cases, inl, inr,
}
use sym_divine.Formula.{Formula, sane}
use sym_divine.Formula.Term.{postfix}
use sym_divine.Formula.Sane.{sane-postfix, postfix-ne}
use sym_divine.Formula.Substitute.{Definition}
use sym_divine.Formula.Substitute.Spec.{replace}
use sym_divine.Formula.Substitute.Laws.{substitute-replace}
use sym_divine.Smt.{Z3, toz3}
use sym_divine.Smt.Meaning.{meaning, toz3-postfix}
use sym_divine.Smt.Rewriting.{toz3-substitute}
use sym_divine.Removal.{filter, reverse}
use sym_divine.Removal.Weight.{IsListing}
use sym_divine.Removal.Passes.{AreListings, replace_all, substitute-IsListing}
use sym_divine.Removal.Each.{All-reverse}
use sym_divine.Removal.Ends.{replace_def}

module _ (z : Z3) (vpref : ℕ) where
  abbrev pub Holds : Formula → Type 0
  Holds f = toz3 z f vpref ≡ some (z.bool_value true)

  -- The definition gives its symbol the value that the symbol has.
  abbrev pub Defines : Definition → Type 0
  Defines d = toz3 z d.def vpref ≡ some (z.bv_const vpref d.symbol)

  abbrev pub Models : List Formula → List Definition → Type 0
  Models pcs defs = All Holds pcs × All Defines defs

  replace-toz3 :
      (d : Definition) (f : Formula)
      → IsListing d.def
      → IsListing f
      → Defines d
      → toz3 z (replace d.symbol d.def f) vpref ≡ toz3 z f vpref
  replace-toz3 d f (t, e) (u, e') h =
      let value : meaning z vpref t ≡ z.bv_const vpref d.symbol =
        some_inj (sym (toz3-postfix z vpref t) ∙ ap (λ g. toz3 z g vpref) (sym e) ∙ h) in
      let fine : sane f ≡ true = rw e' (sane-postfix u) in
      let runs = substitute-replace d.symbol (postfix t) (sane-postfix t) (postfix-ne t) f fine in
      rw e (rw runs at (toz3-substitute z vpref d.symbol t f fine value))

  pub replace_all-toz3 :
      (ds : List Definition) (f : Formula)
      → AreListings ds
      → IsListing f
      → All Defines ds
      → toz3 z (replace_all ds f) vpref ≡ toz3 z f vpref
  replace_all-toz3 [] f hs hf h = refl
  replace_all-toz3 (d ∷ ds) f hs hf h =
      replace_all-toz3 ds (replace d.symbol d.def f) hs.1
        (substitute-IsListing f d.def d.symbol hf hs.0).1 h.1
      ∙ replace-toz3 d f hs.0 hf h.0

  All-map_iff {ℓ} :
      {A : Type ℓ} (P : A → Type 0) (Q : A → Type 0) (f : A → A)
      → ((a : A) → Q a → P (f a) ↔ P a)
      → (xs : List A) → All Q xs
      → All P (map f xs) ↔ All P xs
  All-map_iff P Q f h [] q = (λ x. x, λ x. x)
  All-map_iff P Q f h (x ∷ xs) q =
      let (to, from) = h x q.0 in
      let (tos, froms) = All-map_iff P Q f h xs q.1 in
      (λ p. (to p.0, tos p.1), λ p. (from p.0, froms p.1))

  -- A round keeps the models in which the removed definitions hold.
  pub round-Models :
      (ds : List Definition)
      → AreListings ds
      → All Defines ds
      → (pcs : List Formula) (defs : List Definition) → All IsListing pcs
      → AreListings defs
      → Models (map (replace_all ds) pcs) (map (replace_def ds) defs) ↔ Models pcs defs
  round-Models ds hs h pcs defs hp hd =
      let conditions =
        All-map_iff Holds IsListing (replace_all ds)
          (λ f l. let e = replace_all-toz3 ds f hs l h in (λ p. sym e ∙ p, λ p. e ∙ p)) pcs hp in
      let definitions =
        All-map_iff Defines (λ d. IsListing d.def) (replace_def ds)
          (λ d l.
            let e =
              replace_all-toz3 (reverse ds) d.def (All-reverse _ ds hs) l (All-reverse _ ds h) in
            (λ p. sym e ∙ p, λ p. e ∙ p))
          defs hd in
      (λ m. (conditions.0 m.0, definitions.0 m.1), λ m. (conditions.1 m.0, definitions.1 m.1))

pub All-filter_iff :
    (P : Definition → Type 0) (pred : Definition → Bool) (ds : List Definition)
    → All P ds ↔ (All P (filter pred ds) × All P (filter (λ d. not (pred d)) ds))
All-filter_iff P pred [] = (λ x. (tt, tt), λ x. tt)
All-filter_iff P pred (d ∷ ds) =
    let (to, from) = All-filter_iff P pred ds in
    elim (Bool-cases (pred d)) [
      | inl e ↦ rw e (λ p. ((p.0, (to p.1).0), (to p.1).1), λ p. (p.0.0, from (p.0.1, p.1)))
      | inr e ↦ rw e (λ p. ((to p.1).0, (p.0, (to p.1).1)), λ p. (p.1.0, from (p.0, p.1.1)))
    ]
