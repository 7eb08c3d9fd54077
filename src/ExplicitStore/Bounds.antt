-- ===== src/ExplicitStore/Bounds.antt =====
-- Every cell fits its width: the invariant of the store, its methods as the steps of a relation, and
-- what a method writes.
use sym_divine.Base.{
  ℕ, ◌^◌, ◌≤◌, ◌<◌, ◌≡◌, Bool, some, List, [], ◌∷◌, zero, suc, get_elem?, set, some_inj,
  >>=-eq-some, subst, sym, arith, ◌∙◌,
}
use native.Mathlib.Nat.{pow-le-pow_right}
use sym_divine.Datastore.{Value, Value.variable, Value.constant}
use sym_divine.Datastore.Words.{u64, lower_to_nbits, lower_to_nbits_lt}
use sym_divine.ExplicitStore.{ValueStore, VariableInfo, cell, with_cell, assign}

-- The cells of a segment against its widths.
abbrev pub Fits : List ℕ → List VariableInfo → Type 0
Fits [] [] = Unit
Fits [] (i ∷ infos) = ⊥
Fits (x ∷ row) [] = ⊥
Fits (x ∷ row) (i ∷ infos) = (x < 2 ^ i.bw) × (i.bw ≤ 64) × Fits row infos

abbrev pub FitsAll : List (List ℕ) → List (List VariableInfo) → Type 0
FitsAll [] [] = Unit
FitsAll [] (infos ∷ info) = ⊥
FitsAll (row ∷ rows) [] = ⊥
FitsAll (row ∷ rows) (infos ∷ info) = Fits row infos × FitsAll rows info

pub record IsBounded (s : ValueStore) : Type 0 where
  pub fits : FitsAll s.cells s.info

set-Fits :
    (row : List ℕ) (infos : List VariableInfo) (offset what : ℕ) (i : VariableInfo) (flag : Bool)
    → what < u64
    → get_elem? infos offset ≡ some i
    → Fits row infos
    → Fits
        (set row offset (lower_to_nbits what i.bw))
        (set infos offset (record i { is_pointer = flag }))
set-Fits [] [] offset what i flag small e h = tt
set-Fits [] (j ∷ infos) offset what i flag small e h = elim h [ ]
set-Fits (x ∷ row) [] offset what i flag small e h = elim h [ ]
set-Fits (x ∷ row) (j ∷ infos) zero what i flag small e h =
    (lower_to_nbits_lt what i.bw small, subst (λ k. k.bw ≤ 64) (some_inj e) h.1, h.2)
set-Fits (x ∷ row) (j ∷ infos) (suc offset) what i flag small e h =
    (h.0, h.1, set-Fits row infos offset what i flag small e h.2)

set-FitsAll :
    (rows : List (List ℕ)) (info : List (List VariableInfo)) (segment : ℕ) (row : List ℕ)
    (infos : List VariableInfo)
    → Fits row infos
    → FitsAll rows info
    → FitsAll (set rows segment row) (set info segment infos)
set-FitsAll [] [] segment row infos f h = tt
set-FitsAll [] (j ∷ info) segment row infos f h = elim h [ ]
set-FitsAll (x ∷ rows) [] segment row infos f h = elim h [ ]
set-FitsAll (x ∷ rows) (j ∷ info) zero row infos f h = (f, h.1)
set-FitsAll (x ∷ rows) (j ∷ info) (suc segment) row infos f h =
    (h.0, set-FitsAll rows info segment row infos f h.1)

get_elem?-FitsAll :
    (rows : List (List ℕ)) (info : List (List VariableInfo)) (segment : ℕ) (row : List ℕ)
    (infos : List VariableInfo)
    → get_elem? rows segment ≡ some row
    → get_elem? info segment ≡ some infos
    → FitsAll rows info
    → Fits row infos
get_elem?-FitsAll [] info segment row infos e f h = cc
get_elem?-FitsAll (x ∷ rows) [] segment row infos e f h = elim h [ ]
get_elem?-FitsAll (x ∷ rows) (j ∷ info) zero row infos e f h =
    subst (λ r. Fits r infos) (some_inj e) (subst (λ r. Fits x r) (some_inj f) h.0)
get_elem?-FitsAll (x ∷ rows) (j ∷ info) (suc segment) row infos e f h =
    get_elem?-FitsAll rows info segment row infos e f h.1

pub cell-row {ℓ} :
    {A : Type ℓ} (rows : List (List A)) (segment offset : ℕ) (a : A)
    → cell rows segment offset ≡ some a
    → (row : List A) × (get_elem? rows segment ≡ some row) × (get_elem? row offset ≡ some a)
cell-row rows segment offset a e = >>=-eq-some (get_elem? rows segment) _ e

with_cell-row {ℓ} :
    {A : Type ℓ} (rows new : List (List A)) (segment offset : ℕ) (a : A)
    → with_cell rows segment offset a ≡ some new
    → (row : List A) × (get_elem? rows segment ≡ some row)
      × (set rows segment (set row offset a) ≡ new)
with_cell-row rows new segment offset a e =
    let (row, e₁, r₁) = >>=-eq-some (get_elem? rows segment) _ e in
    let (old, _, done) = >>=-eq-some (get_elem? row offset) _ r₁ in (row, e₁, some_inj done)

get_elem?-Fits :
    (row : List ℕ) (infos : List VariableInfo) (offset x : ℕ)
    → get_elem? row offset ≡ some x
    → Fits row infos
    → x < u64
get_elem?-Fits [] infos offset x e h = cc
get_elem?-Fits (y ∷ row) [] offset x e h = elim h [ ]
get_elem?-Fits (y ∷ row) (j ∷ infos) zero x e h =
    let le : 2 ^ j.bw ≤ 2 ^ 64 = pow-le-pow_right (omega arith) h.1 in
    omega (arith, h.0, le, some_inj e)
get_elem?-Fits (y ∷ row) (j ∷ infos) (suc offset) x e h = get_elem?-Fits row infos offset x e h.2

pub cell-lt :
    (rows : List (List ℕ)) (info : List (List VariableInfo)) (segment offset x : ℕ)
    → cell rows segment offset ≡ some x
    → FitsAll rows info
    → x < u64
cell-lt [] info segment offset x e h = cc
cell-lt (row ∷ rows) [] segment offset x e h = elim h [ ]
cell-lt (row ∷ rows) (infos ∷ info) zero offset x e h = get_elem?-Fits row infos offset x e h.0
cell-lt (row ∷ rows) (infos ∷ info) (suc segment) offset x e h =
    cell-lt rows info segment offset x e h.1

written-Fits :
    (rows new : List (List ℕ)) (info infos : List (List VariableInfo)) (segment offset what : ℕ)
    (i : VariableInfo) (flag : Bool)
    → what < u64
    → cell info segment offset ≡ some i
    → with_cell rows segment offset (lower_to_nbits what i.bw) ≡ some new
    → with_cell info segment offset (record i { is_pointer = flag }) ≡ some infos
    → FitsAll rows info
    → FitsAll new infos
written-Fits rows new info infos segment offset what i flag small e₁ e₂ e₃ h =
    let (widths, f₁, g₁) = cell-row info segment offset i e₁ in
    let (row, f₂, g₂) = with_cell-row rows new segment offset _ e₂ in
    let (widths', f₃, g₃) = with_cell-row info infos segment offset _ e₃ in
    let same : widths' ≡ widths = some_inj (sym f₃ ∙ f₁) in
    let fits = get_elem?-FitsAll rows info segment row widths f₂ f₁ h in
    let flagged : VariableInfo = record i { is_pointer = flag } in
    let kept = set-Fits row widths offset what i flag small g₁ fits in
    subst (λ r. FitsAll r infos) g₂
      (subst (λ r. FitsAll (set rows segment (set row offset (lower_to_nbits what i.bw))) r)
        (subst (λ w. set info segment (set w offset flagged) ≡ infos) same g₃)
        (set-FitsAll rows info segment _ _ kept h))

-- A write that lowers the word to the width of the variable keeps the cells within their widths.
pub assign-IsBounded :
    (s t : ValueStore) (result : Value) (what : ℕ) (flag : Bool)
    → what < u64
    → IsBounded s
    → assign s result what flag ≡ some t
    → IsBounded t
unfolding assign
assign-IsBounded s t (constant value bw pointer) what flag small b e = cc
assign-IsBounded s t (variable segment offset pointer) what flag small b e =
    let (i, e₁, r₁) = >>=-eq-some (cell s.info segment offset) _ e in
    let (written, e₂, r₂) = >>=-eq-some (with_cell s.cells segment offset _) _ r₁ in
    let (infos, e₃, done) = >>=-eq-some (with_cell s.info segment offset _) _ r₂ in
    subst IsBounded (some_inj done) (record {
      fits =
          written-Fits s.cells written s.info infos segment offset what i flag small e₁ e₂ e₃
            b.fits;
    })
