-- ===== src/Removal/Laws.antt =====
-- `removeDefinitions` of src/llvmsym/smtdatastore.h as a whole: it comes to its end, nothing that it
-- leaves mentions a removed symbol, and the models stay.
use sym_divine.Base.{ℕ, ◌<◌, ◌≡◌, refl, ◌↔◌, Bool, not, List, map, All, Returns}
use sym_divine.Formula.{Ident, Formula}
use sym_divine.Formula.Substitute.{Definition}
use sym_divine.Smt.{Z3}
use sym_divine.Removal.{filter, remove_definitions, sort}
use sym_divine.Removal.Weight.{IsListing, AreRanked}
use sym_divine.Removal.Passes.{AreListings, replace_all}
use sym_divine.Removal.Ends.{IsFree, IsRemoved, load, replace_def, rounds-ends, All-sort_iff}
use sym_divine.Removal.Meaning.{Models, Defines, round-Models, All-filter_iff}

abbrev pub kept : (Definition → Bool) → List Definition → List Definition
kept pred = filter (λ d. not (pred d))

module _ (w : Ident → ℕ) (n : ℕ) (pred : Definition → Bool) (pcs : List Formula)
    (defs : List Definition) where
  -- What the removal needs: formulas that list terms, removed definitions that do not depend on each
  -- other in a circle, and fuel for the weight of what is left.
  pub record IsRemovable : Type 0 where
    pub conditions : All IsListing pcs
    pub definitions : AreListings defs
    pub ranked : AreRanked w (filter pred defs)
    pub enough : load w pcs (kept pred defs) < n

module _ (w : Ident → ℕ) (n : ℕ) (pred : Definition → Bool) (pcs : List Formula)
    (defs : List Definition) (h : IsRemovable w n pred pcs defs) where
  pub remove_definitions-Removed :
      (Q : List Formula → List Definition → Type 0)
      → ((pcs' : List Formula) (defs' : List Definition)
          → All IsListing pcs'
          → AreListings defs'
          → Q pcs' defs'
          → Q
              (map (replace_all (filter pred defs)) pcs')
              (map (replace_def (filter pred defs)) defs'))
      → Q pcs (kept pred defs)
      → Returns (remove_definitions n pred pcs defs) λ r.
        (left : List Definition) × (r.1 ≡ sort left) × IsRemoved (filter pred defs) Q r.0 left
  unfolding remove_definitions
  remove_definitions-Removed Q keeps q =
      let (removed, rest) = (All-filter_iff (λ d. IsListing d.def) pred defs).0 h.definitions in
      let (r, e, done) =
        rounds-ends w (filter pred defs) removed h.ranked Q keeps n pcs (kept pred defs) h.enough
          h.conditions rest q in
      ((r.0, sort r.1), rw e refl, (r.1, refl, done))

  -- The loop of `removeDefinitions` ends, its asserts hold, and then no path condition and no
  -- definition that is left mentions the symbol of a removed definition, when all formulas list terms,
  -- the removed definitions do not depend on each other in a circle (each weighs less than its symbol),
  -- and the fuel exceeds the weight of all formulas that are left.
  pub remove_definitions-ends : Returns (remove_definitions n pred pcs defs) λ r.
      All (IsFree (filter pred defs)) r.0
      × All (λ d. IsFree (filter pred defs) d.def) r.1
      × All IsListing r.0
      × AreListings r.1
  remove_definitions-ends =
      let (r, e, rest) = remove_definitions-Removed (λ _ _. Unit) (λ _ _ _ _ q. q) tt in
      let (left, sorted, done) = rest in
      (
        r,
        e,
        (
          done.conditions_free,
          rw sorted ((All-sort_iff _ left).1 done.definitions_free),
          done.conditions_listed,
          rw sorted ((All-sort_iff _ left).1 done.definitions_listed),
        ),
      )

  -- When all formulas list terms, the removed definitions do not depend on each other in a circle, and
  -- the fuel exceeds the weight of all formulas that are left, the removal runs to its end, and in each
  -- valuation: the path conditions and the definitions hold before the removal if and only if what it
  -- leaves holds and the removed definitions do.
  pub remove_definitions-Models :
      (z : Z3) (vpref : ℕ)
      → Returns (remove_definitions n pred pcs defs) λ r.
        Models z vpref pcs defs
        ↔ (Models z vpref r.0 r.1 × All (Defines z vpref) (filter pred defs))
  remove_definitions-Models z vpref =
      let (split, join) = All-filter_iff (Defines z vpref) pred defs in
      let listed = ((All-filter_iff (λ d. IsListing d.def) pred defs).0 h.definitions).0 in
      let (r, e, rest) =
        remove_definitions-Removed Same (keeps listed) (λ hold. (λ m. m, λ m. m)) in
      let (left, sorted, done) = rest in
      let (unsort, resort) = All-sort_iff (Defines z vpref) left in
      (
        r,
        e,
        rw sorted (
          (λ m.
              let (removed, others) = split m.1 in
              let m' = (done.kept removed).1 (m.0, others) in ((m'.0, resort m'.1), removed)),
          (λ m. let m' = (done.kept m.1).0 (m.0.0, unsort m.0.1) in (m'.0, join (m.1, m'.1))),
        ),
      )
    where
      Same : List Formula → List Definition → Type 0
      Same pcs' defs' =
          All (Defines z vpref) (filter pred defs)
          → Models z vpref pcs' defs' ↔ Models z vpref pcs (kept pred defs)

      keeps :
          AreListings (filter pred defs)
          → (pcs' : List Formula) (defs' : List Definition) → All IsListing pcs'
          → AreListings defs'
          → Same pcs' defs'
          → Same
              (map (replace_all (filter pred defs)) pcs')
              (map (replace_def (filter pred defs)) defs')
      keeps listed pcs' defs' hp hd q hold =
          let (to, from) = round-Models z vpref (filter pred defs) listed hold pcs' defs' hp hd in
          (λ m. (q hold).0 (to m), λ m. from ((q hold).1 m))
