-- ===== src/PartialStore/Joined.antt =====
-- The groups of src/llvmsym/smtdatastore_partial.h and the map from variables to them belong together, and
-- the merging loop of `resolve_dependency` keeps that.
use mathlib.Core.List.Memᴰ
use mathlib.Core.List.{Memᴰ}
use sym_divine.Base.{
  ℕ, ◌<◌, ◌≡◌, ◌≢◌, ◌↔◌, ◌⊎◌, refl, sym, ap, ◌∙◌, Bool, true, false, some, List, [], ◌∷◌, ◌==◌,
  ==_iff, ==_self, if◌then◌else◌, Bool-cases, inl, inr, arith, subst, All, some_inj, push_back,
}
use sym_divine.Formula.{Ident}
use sym_divine.Groups.{DependencyGroup, new_group, append_group}
use sym_divine.Toolkit.IdContainer.{Container, lookup, erase_entry}
use sym_divine.Toolkit.IdContainer.Entries.{lookup-erase_entry, lookup-erase_entry_ne}
use sym_divine.PartialStore.{find_ident, assign_all, get_group, or_new, set_group, join_groups}
use sym_divine.PartialStore.Entries.{lookup-set_group}
use sym_divine.PartialStore.Members.{insert_members_iff, find-assign_all}

-- A variable is mapped to the group that it is a member of, so that groups share no variable.
abbrev pub IsGrouped : List (Ident × ℕ) → List (ℕ × DependencyGroup) → Type 0
IsGrouped names values =
    (v : Ident) (id : ℕ) → find_ident v names ≡ some id ↔ Memᴰ v (get_group id values).group

pub get_group-set :
    (to j : ℕ) (g : DependencyGroup) (values : List (ℕ × DependencyGroup))
    → get_group j (set_group to g values) ≡ (if j == to then g else get_group j values)
get_group-set to j g values = ap or_new (lookup-set_group to g values j) ∙ if_new (j == to)
  where
    if_new :
        (b : Bool)
        → or_new (if b then some g else lookup j values) ≡ (if b then g else get_group j values)
    if_new true = refl
    if_new false = refl

-- One round of the merging loop.
module _ (to i : ℕ) (apart : i ≢ to) (names : List (Ident × ℕ))
    (values : List (ℕ × DependencyGroup)) where
  abbrev joined : List (ℕ × DependencyGroup)
  joined =
      erase_entry i (set_group to (append_group (get_group to values) (get_group i values)) values)

  abbrev renamed : List (Ident × ℕ)
  renamed = assign_all (get_group i values).group to names

  gone : get_group i joined ≡ new_group []
  gone = ap or_new (
      lookup-erase_entry i
        (set_group to (append_group (get_group to values) (get_group i values)) values))

  there : get_group to joined ≡ append_group (get_group to values) (get_group i values)
  there =
      let g = append_group (get_group to values) (get_group i values) in
      ap or_new (lookup-erase_entry_ne i to (set_group to g values) (λ e. apart (sym e)))
      ∙ get_group-set to to g values
      ∙ rw (==_self to) refl

  still : (j : ℕ) → j ≢ i → j ≢ to → get_group j joined ≡ get_group j values
  still j other other' =
      let g = append_group (get_group to values) (get_group i values) in
      let no_to : (j == to) ≡ false = ground (arith, other') in
      ap or_new (lookup-erase_entry_ne i j (set_group to g values) other)
      ∙ get_group-set to j g values
      ∙ rw no_to refl

  -- The members of a group after the round.
  members-joined :
      (v : Ident) (j : ℕ)
      → Memᴰ v (get_group j joined).group ↔ (
          (j ≢ i)
          × ((j ≡ to) × Memᴰ v (get_group i values).group ⊎ Memᴰ v (get_group j values).group))
  members-joined v j = elim (Bool-cases (j == i)) [
    | inl same ↦
        let e : j ≡ i = (==_iff j i).0 same in
        (
          (λ m. absurd (
              Memᴰ.not-nil (
                subst (λ g. Memᴰ v g.group) gone
                  (subst (λ k. Memᴰ v (get_group k joined).group) e m)))),
          (λ x. absurd (x.0 e)),
        )
    | inr differs ↦
        let other : j ≢ i = (λ e. let wrong = (==_iff j i).1 e in cc) in
        elim (Bool-cases (j == to)) [
          | inl same ↦
              let e : j ≡ to = (==_iff j to).0 same in
              let (split, merge) =
                insert_members_iff v (get_group i values).group (get_group to values).group in
              (
                (λ m. (
                  other,
                  elim (split (
                      subst (λ g. Memᴰ v g.group) there
                        (subst (λ k. Memᴰ v (get_group k joined).group) e m))) [
                          | inl new ↦ inl (e, new)
                          | inr old ↦
                              inr (subst (λ k. Memᴰ v (get_group k values).group) (sym e) old)
                        ],
                )),
                (λ x.
                    subst (λ k. Memᴰ v (get_group k joined).group) (sym e)
                      (subst (λ g. Memᴰ v g.group) (sym there)
                        (merge (elim x.1 [
                          | inl new ↦ inl new.1
                          | inr old ↦ inr (subst (λ k. Memᴰ v (get_group k values).group) e old)
                        ])))),
              )
          | inr differs' ↦
              let other' : j ≢ to = (λ e. let wrong = (==_iff j to).1 e in cc) in
              (
                (λ m. (other, inr (subst (λ g. Memᴰ v g.group) (still j other other') m))),
                (λ x. elim x.1 [
                  | inl new ↦ absurd (other' new.0)
                  | inr old ↦ subst (λ g. Memᴰ v g.group) (sym (still j other other')) old
                ]),
              )
        ]
  ]

  join-IsGrouped : IsGrouped names values → IsGrouped renamed joined
  join-IsGrouped h v j =
      let (split, merge) = members-joined v j in
      elim (find-assign_all v (get_group i values).group to names) [
        | inl (new, found) ↦ (
          (λ e.
              let same : j ≡ to = some_inj (sym e ∙ found) in
              merge ((λ e'. apart (sym e' ∙ same)), inl (same, new))),
          (λ m. elim (split m).1 [
            | inl (same, _) ↦ found ∙ ap some (sym same)
            | inr old ↦ absurd ((split m).0 (some_inj (sym ((h v j).1 old) ∙ (h v i).1 new)))
          ]),
        )
        | inr (absent, same) ↦ (
          (λ e.
              let old = (h v j).0 (sym same ∙ e) in
              merge
                ((λ e'. absent (subst (λ k. Memᴰ v (get_group k values).group) e' old)), inr old)),
          (λ m. elim (split m).1 [
            | inl (_, new) ↦ absurd (absent new)
            | inr old ↦ same ∙ (h v j).1 old
          ]),
        )
      ]

  join-to :
      (v : Ident) (id : ℕ) (is : List ℕ)
      → IsGrouped names values
      → find_ident v names ≡ some id
      → Memᴰ id (to ∷ i ∷ is)
      → (k : ℕ) × (find_ident v renamed ≡ some k) × Memᴰ k (to ∷ is)
  join-to v id is h e m = elim (find-assign_all v (get_group i values).group to names) [
    | inl (_, found) ↦ (to, found, Memᴰ.head refl)
    | inr (absent, same) ↦ (
      id,
      same ∙ e,
      elim (Memᴰ.cases_cons m) [
        | inl first ↦ Memᴰ.head first
        | inr m' ↦ elim (Memᴰ.cases_cons m') [
          | inl second ↦
              absurd (absent (subst (λ k. Memᴰ v (get_group k values).group) second ((h v id).0 e)))
          | inr m'' ↦ Memᴰ.tail m''
        ]
      ],
    )
  ]

-- The merging loop keeps the groups and the map together, and maps to `to` each variable that it finds with
-- one of the ids.
pub join_groups-IsGrouped :
    (to : ℕ) (is : List ℕ) (names : List (Ident × ℕ)) (c : Container DependencyGroup)
    → All (λ i. to < i) is
    → IsGrouped names c.values
    → let r = join_groups to is names c in
      IsGrouped r.0 r.1.values
      × ((v : Ident) (id : ℕ)
          → find_ident v names ≡ some id
          → Memᴰ id (to ∷ is)
          → find_ident v r.0 ≡ some to)
join_groups-IsGrouped to [] names c above h = (
  h,
  (λ v id e m. elim (Memᴰ.cases_cons m) [
    | inl same ↦ e ∙ ap some same
    | inr m' ↦ absurd (Memᴰ.not-nil m')
  ]),
)
join_groups-IsGrouped to (i ∷ is) names c above h =
    let apart : i ≢ to = (λ e. absurd (omega arith)) in
    let g = append_group (get_group to c.values) (get_group i c.values) in
    let (grouped, all) =
      join_groups-IsGrouped to is (renamed to i apart names c.values)
        (record { values = joined to i apart names c.values; unused = push_back c.unused i })
        above.1 (join-IsGrouped to i apart names c.values h) in
    (
      grouped,
      (λ v id e m.
          let (k, e', m') = join-to to i apart names c.values v id is h e m in all v k e' m'),
    )
