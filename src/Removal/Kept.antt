-- ===== src/Removal/Kept.antt =====
-- What `removeDefinitions` of src/llvmsym/smtdatastore.h keeps of a store's invariant: formulas that list
-- terms, definitions that are not circular, and what is known of all variables that they mention.
use sym_divine.Base.{
  ℕ, ◌≤◌, ◌<◌, ap, Bool, List, [], ◌∷◌, map, All, All-append, Returns, Bool-cases, inl, inr, arith,
}
use sym_divine.Formula.{
  Ident, ident_eq, op, constant, identifier, bool_val, Formula, collect_variables,
}
use sym_divine.Formula.Substitute.{Definition}
use sym_divine.Formula.Substitute.Spec.{replace}
use sym_divine.Formula.Substitute.Laws.{collect_variables-append}
use sym_divine.Removal.{filter, reverse, remove_definitions}
use sym_divine.Removal.Weight.{IsListing, weight, AreRanked, weight-replace}
use sym_divine.Removal.Passes.{AreListings, replace_all}
use sym_divine.Removal.Each.{All-reverse}
use sym_divine.Removal.Ends.{load, replace_def, All-sort_iff}
use sym_divine.Removal.Meaning.{All-filter_iff}
use sym_divine.Removal.Laws.{kept, IsRemovable, remove_definitions-Removed}

-- All variables of a formula, and of a definition, satisfy `P`.
abbrev pub Mentions : (Ident → Type 0) → Formula → Type 0
Mentions P f = All P (collect_variables f)

abbrev pub DefMentions : (Ident → Type 0) → Definition → Type 0
DefMentions P d = P d.symbol × Mentions P d.def

pub record IsWell (w : Ident → ℕ) (P : Ident → Type 0) (pcs : List Formula) (defs : List Definition)
    : Type 0 where
  pub conditions_listed : All IsListing pcs
  pub definitions_listed : AreListings defs
  pub ranked : AreRanked w defs
  pub conditions_mention : All (Mentions P) pcs
  pub definitions_mention : All (DefMentions P) defs

module _ (w : Ident → ℕ) (P : Ident → Type 0) where
  replace-Mentions :
      (id : Ident) (d f : Formula) → Mentions P d → Mentions P f → Mentions P (replace id d f)
  unfolding replace collect_variables
  replace-Mentions id d [] hd h = tt
  replace-Mentions id d (op o v ∷ f) hd h = replace-Mentions id d f hd h
  replace-Mentions id d (constant v bw ∷ f) hd h = replace-Mentions id d f hd h
  replace-Mentions id d (bool_val v ∷ f) hd h = replace-Mentions id d f hd h
  replace-Mentions id d (identifier i ∷ f) hd h =
      let rest = replace-Mentions id d f hd h.1 in
      elim (Bool-cases (ident_eq i id)) [
        | inl hit ↦ rw (hit, collect_variables-append d (replace id d f)) (All-append P _ _ hd rest)
        | inr miss ↦ rw miss (h.0, rest)
      ]

  replace_all-Mentions :
      (ds : List Definition) (f : Formula)
      → All (DefMentions P) ds
      → Mentions P f
      → Mentions P (replace_all ds f)
  replace_all-Mentions [] f hs h = h
  replace_all-Mentions (d ∷ ds) f hs h =
      replace_all-Mentions ds _ hs.1 (replace-Mentions d.symbol d.def f hs.0.1 h)

  weight-replace_all :
      (ds : List Definition) (f : Formula)
      → AreRanked w ds
      → weight w (replace_all ds f) ≤ weight w f
  weight-replace_all [] f hr = omega arith
  weight-replace_all (d ∷ ds) f hr =
      let rest = weight-replace_all ds (replace d.symbol d.def f) hr.1 in
      elim (weight-replace w d.symbol d.def hr.0 f) [
        | inl same ↦ let e = ap (weight w) same.1 in omega arith
        | inr less ↦ omega arith
      ]

  All-map {ℓ} :
      {A : Type ℓ} (R : A → Type 0) (f : A → A)
      → ((a : A) → R a → R (f a))
      → (xs : List A) → All R xs
      → All R (map f xs)
  All-map R f h [] hs = tt
  All-map R f h (x ∷ xs) hs = (h x hs.0, All-map R f h xs hs.1)

  load-kept :
      (pred : Definition → Bool) (pcs : List Formula) (defs : List Definition)
      → load w pcs (kept pred defs) ≤ load w pcs defs
  load-kept pred pcs [] = omega arith
  load-kept pred pcs (d ∷ ds) =
      let rest = load-kept pred pcs ds in
      elim (Bool-cases (pred d)) [ inl e ↦ rw e (omega arith) | inr e ↦ rw e (omega arith) ]

  pub IsWell-IsRemovable :
      (n : ℕ) (pred : Definition → Bool) (pcs : List Formula) (defs : List Definition)
      → IsWell w P pcs defs
      → load w pcs defs < n
      → IsRemovable w n pred pcs defs
  IsWell-IsRemovable n pred pcs defs h enough =
      let less = load-kept pred pcs defs in
      record {
        conditions = h.conditions_listed;
        definitions = h.definitions_listed;
        ranked = ((All-filter_iff (λ d. weight w d.def < w d.symbol) pred defs).0 h.ranked).0;
        enough = omega arith;
      }

  -- `removeDefinitions` with any predicate runs to its end on a store whose formulas list terms and
  -- whose definitions are not circular, with fuel for the weight of all formulas, and the store that
  -- it gives has these properties again; nor does it mention a new variable.
  pub remove_definitions-IsWell :
      (n : ℕ) (pred : Definition → Bool) (pcs : List Formula) (defs : List Definition)
      → IsWell w P pcs defs
      → load w pcs defs < n
      → Returns (remove_definitions n pred pcs defs) λ r. IsWell w P r.0 r.1
  remove_definitions-IsWell n pred pcs defs h enough =
      let (gone_ranked, rest_ranked) =
        (All-filter_iff (λ d. weight w d.def < w d.symbol) pred defs).0 h.ranked in
      let (gone_mention, rest_mention) =
        (All-filter_iff (DefMentions P) pred defs).0 h.definitions_mention in
      let (r, e, rest) =
        remove_definitions-Removed w n pred pcs defs (IsWell-IsRemovable n pred pcs defs h enough) Q
          (keeps gone_ranked gone_mention) (rest_ranked, h.conditions_mention, rest_mention) in
      let (left, sorted, done) = rest in
      (
        r,
        e,
        record {
          conditions_listed = done.conditions_listed;
          definitions_listed = rw sorted ((All-sort_iff _ left).1 done.definitions_listed);
          ranked = rw sorted ((All-sort_iff _ left).1 done.kept.0);
          conditions_mention = done.kept.1;
          definitions_mention = rw sorted ((All-sort_iff _ left).1 done.kept.2);
        },
      )
    where
      Q : List Formula → List Definition → Type 0
      Q pcs' defs' = AreRanked w defs' × All (Mentions P) pcs' × All (DefMentions P) defs'

      keeps :
          AreRanked w (filter pred defs)
          → All (DefMentions P) (filter pred defs)
          → (pcs' : List Formula) (defs' : List Definition) → All IsListing pcs'
          → AreListings defs'
          → Q pcs' defs'
          → Q
              (map (replace_all (filter pred defs)) pcs')
              (map (replace_def (filter pred defs)) defs')
      keeps hr hm pcs' defs' hp hd q =
          let gone = filter pred defs in
          let backwards = All-reverse _ gone hr in
          (
            All-map _ (replace_def gone)
                (λ d less.
                  let lower = weight-replace_all (reverse gone) d.def backwards in omega arith)
                defs' q.0,
            All-map _ (replace_all gone) (λ f. replace_all-Mentions gone f hm) pcs' q.1,
            All-map _ (replace_def gone)
                (λ d m.
                  (m.0, replace_all-Mentions (reverse gone) d.def (All-reverse _ gone hm) m.1))
                defs' q.2,
          )
