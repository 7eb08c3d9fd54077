-- ===== src/PartialStore/Entries.antt =====
-- The map from ids to groups in src/llvmsym/smtdatastore_partial.h: what holds of all groups after one is
-- changed, erased or added.
use sym_divine.Base.{
  ℕ, ◌≡◌, ◌≢◌, ◌↔◌, refl, sym, ◌∙◌, true, false, none, some, List, [], ◌∷◌, ◌==◌, ==_self, ==_iff,
  if◌then◌else◌, Bool-cases, Option-cases, inl, inr, arith, some_inj,
}
use sym_divine.Groups.{DependencyGroup, new_group}
use sym_divine.Toolkit.IdContainer.{lookup, insert_entry, erase_entry}
use sym_divine.PartialStore.{get_group, set_group}

-- No id stands twice.
abbrev pub IsMap : List (ℕ × DependencyGroup) → Type 0
IsMap [] = Unit
IsMap ((k, g) ∷ values) = (lookup k values ≡ none) × IsMap values

miss : (i k : ℕ) → i ≢ k → (i == k) ≡ false
miss i k h = ground arith

pub lookup-set_group :
    (k : ℕ) (g : DependencyGroup) (values : List (ℕ × DependencyGroup)) (i : ℕ)
    → lookup i (set_group k g values) ≡ (if i == k then some g else lookup i values)
lookup-set_group k g [] i = refl
lookup-set_group k g ((j, h) ∷ values) i = let ih = lookup-set_group k g values i in ground arith

lookup-erase :
    (k i : ℕ) (values : List (ℕ × DependencyGroup))
    → i ≢ k
    → lookup i (erase_entry k values) ≡ lookup i values
lookup-erase k i [] h = refl
lookup-erase k i ((j, g) ∷ values) h = let ih = lookup-erase k i values h in ground arith

lookup-erase_none :
    (k i : ℕ) (values : List (ℕ × DependencyGroup))
    → lookup i values ≡ none
    → lookup i (erase_entry k values) ≡ none
lookup-erase_none k i [] h = refl
lookup-erase_none k i ((j, g) ∷ values) h = elim (Bool-cases (i == j)) [
  | inl hit ↦ let wrong = rw hit at h in cc
  | inr other ↦ let ih = lookup-erase_none k i values (rw other at h) in ground arith
]

lookup-insert_none :
    (k : ℕ) (g : DependencyGroup) (values : List (ℕ × DependencyGroup)) (i : ℕ)
    → i ≢ k
    → lookup i values ≡ none
    → lookup i (insert_entry k g values) ≡ none
lookup-insert_none k g [] i h e = ground arith
lookup-insert_none k g ((j, g') ∷ values) i h e = elim (Bool-cases (i == j)) [
  | inl hit ↦ let wrong = rw hit at e in cc
  | inr other ↦ let ih = lookup-insert_none k g values i h (rw other at e) in ground arith
]

erase_missing :
    (k : ℕ) (values : List (ℕ × DependencyGroup))
    → lookup k values ≡ none
    → erase_entry k values ≡ values
erase_missing k [] h = refl
erase_missing k ((j, g) ∷ values) h = elim (Bool-cases (k == j)) [
  | inl hit ↦ let wrong = rw hit at h in cc
  | inr other ↦ rw (other, erase_missing k values (rw other at h)) refl
]

pub erase-set_group :
    (k i : ℕ) (g : DependencyGroup) (values : List (ℕ × DependencyGroup))
    → i ≢ k
    → erase_entry i (set_group k g values) ≡ set_group k g (erase_entry i values)
erase-set_group k i g [] h = rw (miss i k h) refl
erase-set_group k i g ((j, g') ∷ values) h =
    let ih = erase-set_group k i g values h in
    elim (Bool-cases (k == j)) [
      | inl hit ↦
          let same = (==_iff k j).0 hit in rw (← same, ==_self k, miss i k h) (rw (==_self k) refl)
      | inr other ↦ rw other elim (Bool-cases (i == j)) [
        | inl hit' ↦ rw hit' ih
        | inr other' ↦ rw (other', other, ih) refl
      ]
    ]

pub set_group-IsMap :
    (k : ℕ) (g : DependencyGroup) (values : List (ℕ × DependencyGroup))
    → IsMap values
    → IsMap (set_group k g values)
set_group-IsMap k g [] h = (refl, tt)
set_group-IsMap k g ((j, g') ∷ values) h = elim (Bool-cases (k == j)) [
  | inl hit ↦ rw hit h
  | inr other ↦
      let apart : (j == k) ≡ false = ground arith in
      rw other (lookup-set_group k g values j ∙ rw apart h.0, set_group-IsMap k g values h.1)
]

pub erase-IsMap :
    (k : ℕ) (values : List (ℕ × DependencyGroup)) → IsMap values → IsMap (erase_entry k values)
erase-IsMap k [] h = tt
erase-IsMap k ((j, g) ∷ values) h = elim (Bool-cases (k == j)) [
  | inl hit ↦ rw hit (erase-IsMap k values h.1)
  | inr other ↦ rw other (lookup-erase_none k j values h.0, erase-IsMap k values h.1)
]

pub insert_entry-IsMap :
    (k : ℕ) (g : DependencyGroup) (values : List (ℕ × DependencyGroup))
    → IsMap values
    → IsMap (insert_entry k g values)
insert_entry-IsMap k g [] h = (refl, tt)
insert_entry-IsMap k g ((j, g') ∷ values) h = elim (Bool-cases (k == j)) [
  | inl hit ↦ rw hit h
  | inr other ↦ rw other (
    lookup-insert_none k g values j (λ e. let same : (k == j) ≡ true = (==_iff k j).1 (sym e) in cc)
        h.0,
    insert_entry-IsMap k g values h.1,
  )
]

module _ (P : DependencyGroup → Type 0) where
  abbrev pub AllGroups : List (ℕ × DependencyGroup) → Type 0
  AllGroups [] = Unit
  AllGroups ((k, g) ∷ values) = P g × AllGroups values

  AllGroups-found :
      (k : ℕ) (g : DependencyGroup) (values : List (ℕ × DependencyGroup))
      → IsMap values
      → lookup k values ≡ some g
      → AllGroups values ↔ (P g × AllGroups (erase_entry k values))
  AllGroups-found k g [] h e = cc
  AllGroups-found k g ((j, g') ∷ values) h e = elim (Bool-cases (k == j)) [
    | inl hit ↦
        let here : some g' ≡ some g = rw hit at e in
        let rest = erase_missing k values (rw (← (==_iff k j).0 hit) at h.0) in
        rw (hit, rest) (rw (← some_inj here) ((λ x. x), (λ x. x)))
    | inr other ↦
        let (to, from) = AllGroups-found k g values h.1 (rw other at e) in
        rw other ((λ x. ((to x.1).0, (x.0, (to x.1).1))), (λ x. (x.1.0, from (x.0, x.1.1))))
  ]

  -- All groups, by one of them, which is empty if it is not there, and the others.
  pub AllGroups-get :
      (k : ℕ) (values : List (ℕ × DependencyGroup))
      → P (new_group [])
      → IsMap values
      → AllGroups values ↔ (P (get_group k values) × AllGroups (erase_entry k values))
  AllGroups-get k values empty h = elim (Option-cases (lookup k values)) [
    | inl missing ↦ rw (missing, erase_missing k values missing) ((λ x. (empty, x)), (λ x. x.1))
    | inr (g, found) ↦ rw found (AllGroups-found k g values h found)
  ]

  pub AllGroups-set :
      (k : ℕ) (g : DependencyGroup) (values : List (ℕ × DependencyGroup))
      → IsMap values
      → AllGroups (set_group k g values) ↔ (P g × AllGroups (erase_entry k values))
  AllGroups-set k g [] h = ((λ x. x), (λ x. x))
  AllGroups-set k g ((j, g') ∷ values) h = elim (Bool-cases (k == j)) [
    | inl hit ↦
        let rest = erase_missing k values (rw (← (==_iff k j).0 hit) at h.0) in
        rw (hit, rest) ((λ x. x), (λ x. x))
    | inr other ↦
        let (to, from) = AllGroups-set k g values h.1 in
        rw other ((λ x. ((to x.1).0, (x.0, (to x.1).1))), (λ x. (x.1.0, from (x.0, x.1.1))))
  ]

  pub AllGroups-insert :
      (k : ℕ) (g : DependencyGroup) (values : List (ℕ × DependencyGroup))
      → P g
      → AllGroups (insert_entry k g values) ↔ AllGroups values
  AllGroups-insert k g [] p = ((λ x. tt), (λ x. (p, tt)))
  AllGroups-insert k g ((j, g') ∷ values) p =
      let (to, from) = AllGroups-insert k g values p in
      elim (Bool-cases (k == j)) [
        | inl hit ↦ rw hit ((λ x. x), (λ x. x))
        | inr other ↦ rw other ((λ x. (x.0, to x.1)), (λ x. (x.0, from x.1)))
      ]

pub get-erase :
    (k i : ℕ) (values : List (ℕ × DependencyGroup))
    → k ≢ i
    → get_group k (erase_entry i values) ≡ get_group k values
get-erase k i values h = rw (lookup-erase i k values h) refl
