-- ===== src/SmtStore/Versions.antt =====
-- The versions of variables in `SMTStore` of src/llvmsym/smtdatastore.h: the well-formed stores, and
-- the tables of generations after an assignment.
use sym_divine.Base.{
  ℕ, suc, ◌%◌, ◌≤◌, ◌<◌, ◌≡◌, refl, sym, ◌∙◌, ◌≢◌, ◌⊎◌, true, false, some, List, [], ◌∷◌, All,
  Bool-cases, inl, inr, if◌then◌else◌, get_elem?, length, set, ==_self, ==_iff, ◌==◌, length-set,
  some_inj, get_elem?-set_self, get_elem?-set_ne, get_elem?-lt,
}
use sym_divine.Formula.{
  Ident, ident_eq, op, constant, identifier, bool_val, Formula, collect_variables,
}
use sym_divine.Formula.Substitute.{Definition}
use sym_divine.Removal.Weight.{weight, AreRanked}
use sym_divine.Removal.Kept.{Mentions, DefMentions, IsWell}
use sym_divine.SmtStore.{Store, u16, cell}

-- No version of a variable of the store is newer than its generation.
abbrev pub IsCurrent : Store → Ident → Type 0
IsCurrent s id =
    (segment offset gen : ℕ)
    → get_elem? s.segments_mapping segment ≡ some id.seg
    → cell s.generations segment offset ≡ some gen
    → offset % u16 ≡ id.off
    → id.gen ≤ gen

-- Different variables have different names.
abbrev pub IsInjective : Store → Type 0
IsInjective s =
    (i j k l m gen gen' : ℕ)
    → get_elem? s.segments_mapping i ≡ some m
    → get_elem? s.segments_mapping k ≡ some m
    → cell s.generations i j ≡ some gen
    → cell s.generations k l ≡ some gen'
    → j % u16 ≡ l % u16
    → (i ≡ k) × (j ≡ l)

-- The store is well formed, with `w` to rank its definitions.
pub record IsStore (w : Ident → ℕ) (s : Store) : Type 0 where
  pub well : IsWell w (IsCurrent s) s.path_condition s.definitions
  pub injective : IsInjective s

-- The ranking after a definition of `symbol` that weighs `n`.
abbrev pub ranked_by : (Ident → ℕ) → Ident → ℕ → Ident → ℕ
ranked_by w symbol n id = if ident_eq id symbol then suc n else w id

pub ident_eq_self : (id : Ident) → ident_eq id id ≡ true
ident_eq_self id = rw (==_self id.seg, ==_self id.off, ==_self id.gen, ==_self id.bw) refl

module _ (w : Ident → ℕ) (symbol : Ident) (n : ℕ) where
  pub ranked_by_other :
      (f : Formula)
      → Mentions (λ id. ident_eq id symbol ≡ false) f
      → weight (ranked_by w symbol n) f ≡ weight w f
  unfolding collect_variables
  ranked_by_other [] h = refl
  ranked_by_other (op o v ∷ f) h = ranked_by_other f h
  ranked_by_other (constant v bw ∷ f) h = ranked_by_other f h
  ranked_by_other (bool_val v ∷ f) h = ranked_by_other f h
  ranked_by_other (identifier id ∷ f) h = rw (h.0, ranked_by_other f h.1) refl

  pub ranked_by_others :
      (ds : List Definition)
      → All (DefMentions (λ id. ident_eq id symbol ≡ false)) ds
      → AreRanked w ds
      → AreRanked (ranked_by w symbol n) ds
  ranked_by_others [] h hr = tt
  ranked_by_others (d ∷ ds) h hr =
      (rw (h.0.0, ranked_by_other d.def h.0.1) hr.0, ranked_by_others ds h.1 hr.1)

nat-cases : (a b : ℕ) → (a ≡ b) ⊎ (a ≢ b)
nat-cases a b = elim (Bool-cases (a == b)) [
  | inl e ↦ inl ((==_iff a b).0 e)
  | inr e ↦ inr (λ q. let e' = (==_iff a b).1 q in cc)
]

-- A cell of a table after an assignment is the assigned one or was there before.
pub cell-set :
    (rows : List (List ℕ)) (row : List ℕ) (i j v k l old : ℕ)
    → get_elem? rows i ≡ some row
    → cell (set rows i (set row j v)) k l ≡ some old
    → ((k ≡ i) × (l ≡ j) × (old ≡ v)) ⊎ (cell rows k l ≡ some old) × (k ≡ i → l ≢ j)
cell-set rows row i j v k l old e h = elim (nat-cases i k) [
  | inr other ↦
      inr (rw (get_elem?-set_ne rows i k (set row j v) other) at h, λ e. absurd (other (sym e)))
  | inl same ↦ in_row same
]
  where
    in_row : i ≡ k → ((k ≡ i) × (l ≡ j) × (old ≡ v)) ⊎ (cell rows k l ≡ some old) × (k ≡ i → l ≢ j)
    in_row same =
        let here : get_elem? rows k ≡ some row = rw (← same) e in
        let new : get_elem? (set rows i (set row j v)) k ≡ some (set row j v) =
          rw (← same) (get_elem?-set_self rows i (set row j v) (get_elem?-lt rows i row e)) in
        let found : get_elem? (set row j v) l ≡ some old = rw new at h in
        elim (nat-cases j l) [
          | inr apart ↦
              inr (rw here (sym (get_elem?-set_ne row j l v apart) ∙ found), λ _ e. apart (sym e))
          | inl met ↦
              let inside : l < length row =
                rw (length-set row j v) at (get_elem?-lt (set row j v) l old found) in
              let value : get_elem? (set row j v) l ≡ some v =
                rw met (get_elem?-set_self row l v inside) in
              inl (sym same, sym met, some_inj (sym found ∙ value))
        ]
