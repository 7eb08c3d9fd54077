-- ===== src/Removal/Ends.antt =====
-- The loop of `removeDefinitions` of src/llvmsym/smtdatastore.h comes to its end, and then nothing that
-- is left mentions the symbol of a removed definition.
use sym_divine.Base.{
  ℕ, zero, suc, ◌+◌, ◌<◌, ◌≡◌, refl, ap, ◌⊎◌, ◌↔◌, inl, inr, Bool, true, false, some, List, [], ◌∷◌,
  map, arith, All, All-mono, Returns, ◌||◌, Bool-cases,
}
use sym_divine.Formula.{Ident, Formula}
use sym_divine.Formula.Order.{def_lt}
use sym_divine.Formula.Substitute.{Definition}
use sym_divine.Removal.{
  rewrite_formula, rewrite_definition, reverse, round, rounds, insert_sorted, sort,
}
use sym_divine.Removal.Weight.{IsAbsent, IsListing, weight, AreRanked}
use sym_divine.Removal.Passes.{
  replace_all, AreListings, Pass, rewrite_formula-Pass, rewrite_definition-Pass,
}
use sym_divine.Removal.Each.{All-reverse, All-unreverse, Falls, total, rewrite_each-Falls}

-- No symbol of the definitions occurs in the formula.
abbrev pub IsFree : List Definition → Formula → Type 0
IsFree ds f = All (λ d. IsAbsent d.symbol f) ds

abbrev pub replace_def : List Definition → Definition → Definition
replace_def ds d = record { symbol = d.symbol; def = replace_all (reverse ds) d.def }

-- What is left when the loop has ended.
pub record IsRemoved (ds : List Definition) (Q : List Formula → List Definition → Type 0)
    (pcs : List Formula) (defs : List Definition) : Type 0 where
  pub conditions_free : All (IsFree ds) pcs
  pub definitions_free : All (λ d. IsFree ds d.def) defs
  pub conditions_listed : All IsListing pcs
  pub definitions_listed : AreListings defs
  pub kept : Q pcs defs

module _ (w : Ident → ℕ) where
  -- The weight of all path conditions and definitions.
  abbrev pub load : List Formula → List Definition → ℕ
  load pcs defs = total (weight w) pcs + total (λ d. weight w d.def) defs

  module _ (ds : List Definition) where
    -- What a round may do: find nothing to replace and leave all as it is, or lower the weight.
    abbrev Round : List Formula → List Definition → Bool → Type 0
    Round pcs defs change =
        (change ≡ false)
          × (All (IsFree ds) pcs × All (λ d. IsFree (reverse ds) d.def) defs)
          × ((map (replace_all ds) pcs ≡ pcs) × (map (replace_def ds) defs ≡ defs))
        ⊎ (change ≡ true)
          × (load (map (replace_all ds) pcs) (map (replace_def ds) defs) < load pcs defs)

    Falls-Round :
        (pcs : List Formula) (defs : List Definition) (change later : Bool)
        → Falls (All (IsFree ds)) (map (replace_all ds)) (total (weight w)) pcs change
        → Falls
            (All (λ d. IsFree (reverse ds) d.def))
            (map (replace_def ds))
            (total (λ d. weight w d.def))
            defs
            later
        → Round pcs defs (change || later)
    Falls-Round pcs defs change later (inl (e, s, i)) (inl (e', s', i')) =
        inl (rw (e, e') refl, (s, s'), (i, i'))
    Falls-Round pcs defs change later (inl (e, s, i)) (inr (e', less)) =
        let kept = ap (total (weight w)) i in inr (rw (e, e') refl, omega arith)
    Falls-Round pcs defs change later (inr (e, less)) (inl (e', s', i')) =
        let kept = ap (total (λ (d : Definition). weight w d.def)) i' in
        inr (rw e refl, omega arith)
    Falls-Round pcs defs change later (inr (e, less)) (inr (e', less')) =
        inr (rw e refl, omega arith)

    Pass-Falls :
        (d : Definition) (change : Bool)
        → Pass w (reverse ds) d.def change
        → Falls (λ e. IsFree (reverse ds) e.def) (replace_def ds) (λ e. weight w e.def) d change
    Pass-Falls d change (inl (e, s, i)) = inl (e, s, ap (with_def d) i)
      where
        with_def : Definition → Formula → Definition
        with_def d f = record { symbol = d.symbol; def = f }
    Pass-Falls d change (inr less) = inr less

    module _ (hs : AreListings ds) (hr : AreRanked w ds) where
      round-Round :
          (pcs : List Formula) (defs : List Definition)
          → All IsListing pcs
          → AreListings defs
          → (change : Bool) × (round ds pcs defs
              ≡ some (map (replace_all ds) pcs, map (replace_def ds) defs, change))
            × Round pcs defs change
            × All IsListing (map (replace_all ds) pcs)
            × AreListings (map (replace_def ds) defs)
      unfolding round
      round-Round pcs defs hp hd =
          let (change, e, falls, p) =
            rewrite_each-Falls (IsFree ds) (replace_all ds) (weight w) IsListing
              (rewrite_formula ds) (λ f. rewrite_formula-Pass w ds f hs hr) pcs hp in
          let (later, e', falls', p') =
            rewrite_each-Falls (λ d. IsFree (reverse ds) d.def) (replace_def ds)
              (λ d. weight w d.def) (λ d. IsListing d.def) (rewrite_definition (reverse ds)) each
              defs hd in
          (change || later, rw (e, e') refl, Falls-Round pcs defs change later falls falls', p, p')
        where
          each :
              (d : Definition)
              → IsListing d.def
              → (change : Bool) × (rewrite_definition (reverse ds) d
                  ≡ some (replace_def ds d, change))
                × Falls
                    (λ d. IsFree (reverse ds) d.def)
                    (replace_def ds)
                    (λ d. weight w d.def)
                    d
                    change
                × IsListing (replace_all (reverse ds) d.def)
          each d h =
              let (change, e, pass, p) =
                rewrite_definition-Pass w (reverse ds) d (All-reverse _ ds hs) (All-reverse _ ds hr)
                  h in
              (change, e, Pass-Falls d change pass, p)

      module _ (Q : List Formula → List Definition → Type 0)
          (keeps : (pcs : List Formula) (defs : List Definition)
            → All IsListing pcs
            → AreListings defs
            → Q pcs defs
            → Q (map (replace_all ds) pcs) (map (replace_def ds) defs)) where
        -- The loop ends before it has used up as much fuel as the formulas weigh.
        pub rounds-ends :
            (n : ℕ) (pcs : List Formula) (defs : List Definition)
            → load pcs defs < n
            → All IsListing pcs
            → AreListings defs
            → Q pcs defs
            → Returns (rounds n ds pcs defs) λ r. IsRemoved ds Q r.0 r.1
        unfolding rounds
        rounds-ends zero pcs defs enough hp hd q = absurd (omega arith)
        rounds-ends (suc n) pcs defs enough hp hd q =
            let (change, e, outcome, hp', hd') = round-Round pcs defs hp hd in
            let q' = keeps pcs defs hp hd q in
            after change e outcome hp' hd' q' (λ less. rounds-ends n _ _ less hp' hd' q')
          where
            after :
                (change : Bool)
                → round ds pcs defs
                  ≡ some (map (replace_all ds) pcs, map (replace_def ds) defs, change)
                → Round pcs defs change
                → All IsListing (map (replace_all ds) pcs)
                → AreListings (map (replace_def ds) defs)
                → Q (map (replace_all ds) pcs) (map (replace_def ds) defs)
                → (load (map (replace_all ds) pcs) (map (replace_def ds) defs) < n
                    → Returns
                        (rounds n ds (map (replace_all ds) pcs) (map (replace_def ds) defs))
                        λ r. IsRemoved ds Q r.0 r.1)
                → Returns (rounds (suc n) ds pcs defs) λ r. IsRemoved ds Q r.0 r.1
            after true e (inl (wrong, free, kept)) hp' hd' q' rest = cc
            after true e (inr (same, less)) hp' hd' q' later =
                let (r, runs, removed) = later (omega arith) in (r, rw e runs, removed)
            after false e (inl (same, free, kept)) hp' hd' q' rest = (
              (map (replace_all ds) pcs, map (replace_def ds) defs),
              rw e refl,
              record {
                conditions_free = rw kept.0 free.0;
                definitions_free =
                    rw kept.1
                      (All-mono (λ d. All-unreverse (λ r. IsAbsent r.symbol d.def) ds) defs free.1);
                conditions_listed = hp';
                definitions_listed = hd';
                kept = q';
              },
            )
            after false e (inr (wrong, less)) hp' hd' q' rest = cc

pub All-insert_sorted :
    (P : Definition → Type 0) (d : Definition) (ds : List Definition)
    → All P (insert_sorted d ds) ↔ (P d × All P ds)
All-insert_sorted P d [] = (λ x. x, λ x. x)
All-insert_sorted P d (e ∷ es) =
    let (to, from) = All-insert_sorted P d es in
    elim (Bool-cases (def_lt d e)) [
      | inl less ↦ rw less (λ x. x, λ x. x)
      | inr not_less ↦
          rw not_less (λ x. ((to x.1).0, (x.0, (to x.1).1)), λ x. (x.1.0, from (x.0, x.1.1)))
    ]

pub All-sort_iff : (P : Definition → Type 0) (ds : List Definition) → All P (sort ds) ↔ All P ds
All-sort_iff P [] = (λ x. x, λ x. x)
All-sort_iff P (d ∷ ds) =
    let (to, from) = All-sort_iff P ds in
    let (to', from') = All-insert_sorted P d (sort ds) in
    (λ x. let (h, hs) = to' x in (h, to hs), λ x. from' (x.0, from x.1))
