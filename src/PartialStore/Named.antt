-- ===== src/PartialStore/Named.antt =====
-- `resolve_dependency` of src/llvmsym/smtdatastore_partial.h makes the groups that are missing, and takes the
-- variables to one group.
use mathlib.Core.List.Memᴰ
use mathlib.Core.List.{Memᴰ}
use sym_divine.Base.{
  ℕ, ◌+◌, ◌<◌, ◌≡◌, ◌≢◌, refl, sym, ap, ◌∙◌, true, none, some, List, [], ◌∷◌, ◌==◌, ==_iff, ==_self,
  push_back, length, Bool-cases, Option-cases, inl, inr, arith, subst, All, All-mono, some_inj,
  Whenever, >>=-eq-some, ensure, not,
}
use sym_divine.Formula.{Ident, no_gen, ident_eq, Formula}
use sym_divine.Formula.Substitute.Laws.{ident_eq-eq}
use sym_divine.SmtStore.Queries.{is_nil}
use sym_divine.Groups.{DependencyGroup, new_group, group_push_condition}
use sym_divine.Datastore.Words.{u64}
use sym_divine.Toolkit.IdContainer.{Container, lookup}
use sym_divine.Toolkit.IdContainer.Fresh.{IsContainer, insert-IsContainer}
use sym_divine.PartialStore.{
  Partial, find_ident, assign_ident, insert_id, groups_of, get_group, set_group, or_new,
  join_groups, resolve_dependency,
}
use sym_divine.PartialStore.Ids.{Rising, insert_id-Rising}
use sym_divine.PartialStore.Members.{ident_eq_self, find-assign_ident, insert_id-Mem, insert_id-old}
use sym_divine.PartialStore.Joined.{IsGrouped, get_group-set, join_groups-IsGrouped}

fresh-IsGrouped :
    (v : Ident) (i : ℕ) (names : List (Ident × ℕ)) (old new : List (ℕ × DependencyGroup))
    → find_ident v names ≡ none
    → lookup i old ≡ none
    → lookup i new ≡ some (new_group (v ∷ []))
    → no_gen v ≡ v
    → ((j : ℕ) → j ≢ i → lookup j new ≡ lookup j old)
    → IsGrouped names old
    → IsGrouped (assign_ident v i names) new
fresh-IsGrouped v i names old new missing free here clean others h w j =
    let named = find-assign_ident w v i names in
    let member : (get_group i new).group ≡ v ∷ [] =
      ap (λ g. (or_new g).group) here ∙ ap (λ u. u ∷ []) clean in
    let empty : get_group i old ≡ new_group [] = ap or_new free in
    elim (Bool-cases (ident_eq w v)) [
      | inl hit ↦
          let same : w ≡ v = ident_eq-eq w v hit in
          let named' : find_ident w (assign_ident v i names) ≡ some i = named ∙ rw hit refl in
          (
            (λ e.
                let at_i : j ≡ i = some_inj (sym e ∙ named') in
                subst (λ k. Memᴰ w (get_group k new).group) (sym at_i)
                  (subst (Memᴰ w) (sym member) (Memᴰ.head same))),
            (λ m. elim (Bool-cases (j == i)) [
              | inl at_i ↦ named' ∙ ap some (sym ((==_iff j i).0 at_i))
              | inr off ↦
                  let other : j ≢ i = (λ e. let wrong = (==_iff j i).1 e in cc) in
                  let known =
                    (h w j).1 (subst (λ g. Memᴰ w g.group) (ap or_new (others j other)) m) in
                  let known' = subst (λ u. find_ident u names ≡ some j) same known in cc
            ]),
          )
      | inr no_hit ↦
          let named' : find_ident w (assign_ident v i names) ≡ find_ident w names =
            named ∙ rw no_hit refl in
          (
            (λ e.
                let known = (h w j).0 (sym named' ∙ e) in
                let other : j ≢ i = (λ at_i. Memᴰ.not-nil (
                  subst (λ g. Memᴰ w g.group) empty
                    (subst (λ k. Memᴰ w (get_group k old).group) at_i known))) in
                subst (λ g. Memᴰ w g.group) (sym (ap or_new (others j other))) known),
            (λ m. elim (Bool-cases (j == i)) [
              | inl at_i ↦
                  let e = (==_iff j i).0 at_i in
                  elim (Memᴰ.cases_cons
                    (subst (Memᴰ w) member (subst (λ k. Memᴰ w (get_group k new).group) e m))) [
                      | inl same ↦ let wrong : ident_eq w v ≡ true = rw same (ident_eq_self v) in cc
                      | inr m' ↦ absurd (Memᴰ.not-nil m')
                    ]
              | inr off ↦
                  let other : j ≢ i = (λ e. let wrong = (==_iff j i).1 e in cc) in
                  named' ∙ (h w j).1 (subst (λ g. Memᴰ w g.group) (ap or_new (others j other)) m)
            ]),
          )
    ]

-- The group under the id is that of the variable.
abbrev IsFound : List (Ident × ℕ) → List ℕ → Ident → Type 0
IsFound names ids dep = (id : ℕ) × (find_ident (no_gen dep) names ≡ some id) × Memᴰ id ids

kept_name :
    (v w : Ident) (i id : ℕ) (names : List (Ident × ℕ))
    → find_ident v names ≡ none
    → find_ident w names ≡ some id
    → find_ident w (assign_ident v i names) ≡ some id
kept_name v w i id names missing e = elim (Bool-cases (ident_eq w v)) [
  | inl hit ↦ let wrong = subst (λ u. find_ident u names ≡ some id) (ident_eq-eq w v hit) e in cc
  | inr no_hit ↦ find-assign_ident w v i names ∙ rw no_hit e
]

clean_twice : (v : Ident) → no_gen (no_gen v) ≡ no_gen v
unfolding no_gen
clean_twice v = refl

-- The first loop: it finds a group for every variable, and the groups stay together with the map.
groups_of-IsGrouped :
    (deps : List Ident) (names : List (Ident × ℕ)) (c : Container DependencyGroup) (ids : List ℕ)
    (bound : ℕ) (rest : List ℕ)
    → IsContainer c bound rest
    → bound + length deps < u64
    → Rising ids
    → IsGrouped names c.values
    → Whenever (groups_of deps names c ids) λ r.
      IsGrouped r.0 r.1.values
      × Rising r.2
      × ((k : ℕ) → Memᴰ k ids → Memᴰ k r.2)
      × ((v : Ident) (id : ℕ) → find_ident v names ≡ some id → find_ident v r.0 ≡ some id)
      × All (IsFound r.0 r.2) deps
unfolding groups_of
groups_of-IsGrouped [] names c ids bound rest hc room rising h r e =
    let same : (names, c, ids) ≡ r = some_inj e in
    subst
      (λ q.
        IsGrouped q.0 q.1.values
        × Rising q.2
        × ((k : ℕ) → Memᴰ k ids → Memᴰ k q.2)
        × ((v : Ident) (id : ℕ) → find_ident v names ≡ some id → find_ident v q.0 ≡ some id)
        × Unit)
      same (h, rising, (λ k m. m), (λ v id found. found), tt)
groups_of-IsGrouped (dep ∷ deps) names c ids bound rest hc room rising h r e =
    elim (Option-cases (find_ident (no_gen dep) names)) [
      | inr (id, found) ↦
          let (grouped, rising', old, kept, all) =
            groups_of-IsGrouped deps names c (insert_id id ids) bound rest hc (omega arith)
              (insert_id-Rising id ids rising) h r (rw (groups_of, found) at e) in
          (
            grouped,
            rising',
            (λ k m. old k (insert_id-old k id ids m)),
            kept,
            ((id, kept (no_gen dep) id found, old id (insert_id-Mem id ids)), all),
          )
      | inl missing ↦
          let v = no_gen dep in
          let (made, runs, done) =
            insert-IsContainer c bound rest (new_group (v ∷ [])) hc (omega arith) in
          let (free, here, others, next) = done in
          let (bound', rest', hc', le) = next in
          let e' = rw runs at (rw (groups_of, missing) at e) in
          let (grouped, rising', old, kept, all) =
            groups_of-IsGrouped deps (assign_ident v made.1 names) made.0 (insert_id made.1 ids)
              bound' rest' hc' (omega arith) (insert_id-Rising made.1 ids rising)
              (fresh-IsGrouped v made.1 names c.values made.0.values missing free here
                (clean_twice dep) others h)
              r e' in
          let named : find_ident v (assign_ident v made.1 names) ≡ some made.1 =
            find-assign_ident v v made.1 names ∙ rw (ident_eq_self v) refl in
          (
            grouped,
            rising',
            (λ k m. old k (insert_id-old k made.1 ids m)),
            (λ w id found. kept w id (kept_name v w made.1 id names missing found)),
            ((made.1, kept v made.1 named, old made.1 (insert_id-Mem made.1 ids)), all),
          )
    ]

-- `resolve_dependency` keeps the groups together with the map, and maps every variable to the group that
-- it gives.
pub resolve_dependency-IsGrouped :
    (s : Partial) (deps : List Ident) (bound : ℕ) (rest : List ℕ)
    → IsContainer s.sym_data bound rest
    → bound + length deps < u64
    → IsGrouped s.dependency_map s.sym_data.values
    → Whenever (resolve_dependency s deps) λ r.
      IsGrouped r.0.dependency_map r.0.sym_data.values
      × All (λ dep. find_ident (no_gen dep) r.0.dependency_map ≡ some r.1) deps
unfolding resolve_dependency
resolve_dependency-IsGrouped s deps bound rest hc room h r e =
    let (_, _, e₁) = >>=-eq-some (ensure (not (is_nil deps))) _ e in
    let (g, ran, done) = >>=-eq-some (groups_of deps s.dependency_map s.sym_data []) _ e₁ in
    let (grouped, rising, old, kept, all) =
      groups_of-IsGrouped deps s.dependency_map s.sym_data [] bound rest hc room tt h g ran in
    from_groups g.0 g.1 g.2 grouped rising all done
  where
    from_groups :
        (names : List (Ident × ℕ)) (c : Container DependencyGroup) (ids : List ℕ)
        → IsGrouped names c.values
        → Rising ids
        → All (IsFound names ids) deps
        → (elim ids [
          | [] ↦ none
          | to ∷ others ↦
              let (joined_map, joined) = join_groups to others names c in
              some (record s { dependency_map = joined_map; sym_data = joined }, to)
        ])
          ≡ some r
        → IsGrouped r.0.dependency_map r.0.sym_data.values
          × All (λ dep. find_ident (no_gen dep) r.0.dependency_map ≡ some r.1) deps
    from_groups names c [] grouped rising all done = cc
    from_groups names c (to ∷ is) grouped rising all done =
        let (grouped', taken) = join_groups-IsGrouped to is names c rising.0 grouped in
        subst
          (λ (q : Partial × ℕ).
            IsGrouped q.0.dependency_map q.0.sym_data.values
            × All (λ dep. find_ident (no_gen dep) q.0.dependency_map ≡ some q.1) deps)
          (some_inj done)
          (grouped', All-mono (λ dep found. taken (no_gen dep) found.0 found.1 found.2) deps all)

-- A condition in a group changes no member, and stands in the group.
pub push_condition-IsGrouped :
    (id : ℕ) (f : Formula) (names : List (Ident × ℕ)) (values : List (ℕ × DependencyGroup))
    → IsGrouped names values
    → let pushed = set_group id (group_push_condition (get_group id values) f) values in
      IsGrouped names pushed × Memᴰ f (get_group id pushed).path_condition
push_condition-IsGrouped id f names values h =
    let g = group_push_condition (get_group id values) f in
    let here : get_group id (set_group id g values) ≡ g =
      get_group-set id id g values ∙ rw (==_self id) refl in
    (
      (λ v j.
          let same : (get_group j (set_group id g values)).group ≡ (get_group j values).group =
            ap (λ k. k.group) (get_group-set id j g values) ∙ elim (Bool-cases (j == id)) [
              | inl hit ↦ rw (hit, (==_iff j id).0 hit) refl
              | inr miss ↦ rw miss refl
            ] in
          (
            (λ e. subst (Memᴰ v) (sym same) ((h v j).0 e)),
            (λ m. (h v j).1 (subst (Memᴰ v) same m)),
          )),
      subst (λ k. Memᴰ f k.path_condition) (sym here)
          (at_back (get_group id values).path_condition),
    )
  where
    at_back : (fs : List Formula) → Memᴰ f (push_back fs f)
    at_back [] = Memᴰ.head refl
    at_back (g ∷ fs) = Memᴰ.tail (at_back fs)
