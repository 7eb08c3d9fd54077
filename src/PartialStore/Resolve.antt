-- ===== src/PartialStore/Resolve.antt =====
-- `resolve_dependency` of src/llvmsym/smtdatastore_partial.h joins groups without losing or adding a path
-- condition or a definition.
use sym_divine.Base.{
  ℕ, ◌<◌, ◌≡◌, ◌≢◌, ◌↔◌, refl, sym, ◌∙◌, false, ◌&&◌, some, List, [], ◌∷◌, Option-cases, inl, inr,
  arith, All, Returns, pop_back, push_back,
}
use sym_divine.Formula.{Ident, no_gen, Formula}
use sym_divine.Formula.Substitute.{Definition}
use sym_divine.SmtStore.Queries.{is_nil}
use sym_divine.Groups.{DependencyGroup, new_group, append_group}
use sym_divine.Toolkit.IdContainer.{Container, insert_entry, erase_entry, refill}
use sym_divine.PartialStore.{
  Partial, find_ident, assign_ident, assign_all, insert_id, groups_of, get_group, set_group,
  join_groups, resolve_dependency,
}
use sym_divine.PartialStore.Entries.{
  IsMap, AllGroups, AllGroups-get, AllGroups-set, AllGroups-insert, erase-set_group,
  set_group-IsMap, erase-IsMap, insert_entry-IsMap, get-erase,
}
use sym_divine.PartialStore.Ids.{
  Rising, insert_id-Rising, insert_id-ne, push_back-ne, refill-ne, insert_runs, and_false,
  All-append_iff, All-merge_iff,
}

module _ (C : Formula → Type 0) (D : Definition → Type 0) where
  -- What is said of all path conditions and all definitions of a group.
  abbrev pub GroupHolds : DependencyGroup → Type 0
  GroupHolds g = All C g.path_condition × All D g.definitions

  append_group-GroupHolds :
      (a b : DependencyGroup) → GroupHolds (append_group a b) ↔ (GroupHolds a × GroupHolds b)
  append_group-GroupHolds a b =
      let (to, from) = All-append_iff C a.path_condition b.path_condition in
      let (to', from') = All-merge_iff D a.definitions b.definitions in
      (
        (λ h. (((to h.0).0, (to' h.1).0), ((to h.0).1, (to' h.1).1))),
        (λ h. (from (h.0.0, h.1.0), from' (h.0.1, h.1.1))),
      )

  -- Groups after a change, by the old ones.
  abbrev pub Kept : List (ℕ × DependencyGroup) → List (ℕ × DependencyGroup) → Type 0
  Kept new old = (AllGroups GroupHolds new ↔ AllGroups GroupHolds old) × IsMap new

  join_one :
      (to i : ℕ) (values : List (ℕ × DependencyGroup))
      → i ≢ to
      → IsMap values
      → Kept
          (erase_entry i
            (set_group to (append_group (get_group to values) (get_group i values)) values))
          values
  join_one to i values apart h =
      let gt = get_group to values in
      let gi = get_group i values in
      let rest = erase_entry i values in
      let rest_map = erase-IsMap i values h in
      let (split, unsplit) = AllGroups-get GroupHolds i values (tt, tt) h in
      let (split', unsplit') = AllGroups-get GroupHolds to rest (tt, tt) rest_map in
      let (seen, unseen) = AllGroups-set GroupHolds to (append_group gt gi) rest rest_map in
      let (parts, whole) = append_group-GroupHolds gt gi in
      let same = get-erase to i values (λ e. apart (sym e)) in
      rw (erase-set_group to i (append_group gt gi) values apart) (
        (
          (λ x.
              let (both, others) = seen x in
              let (left, right) = parts both in unsplit (right, unsplit' (rw same left, others))),
          (λ x.
              let (right, x') = split x in
              let (left, others) = split' x' in unseen (whole (rw same at left, right), others)),
        ),
        set_group-IsMap to (append_group gt gi) rest rest_map,
      )

  join_groups-Kept :
      (to : ℕ) (is : List ℕ) (names : List (Ident × ℕ)) (c : Container DependencyGroup)
      → All (λ i. to < i) is
      → IsMap c.values
      → is_nil c.unused ≡ false
      → let joined = (join_groups to is names c).1 in
        Kept joined.values c.values × (is_nil joined.unused ≡ false)
  join_groups-Kept to [] names c above h ne = ((((λ x. x), (λ x. x)), h), ne)
  join_groups-Kept to (i ∷ is) names c above h ne =
      let apart : i ≢ to = (λ e. absurd (omega arith)) in
      let (same, next) = join_one to i c.values apart h in
      let joined =
        set_group to (append_group (get_group to c.values) (get_group i c.values)) c.values in
      let (later, ne') =
        join_groups-Kept to is (assign_all (get_group i c.values).group to names)
          (record { values = erase_entry i joined; unused = push_back c.unused i }) above.1 next
          (push_back-ne c.unused i) in
      (((λ x. same.0 (later.0.0 x), λ x. later.0.1 (same.1 x)), later.1), ne')

  groups_of-Kept :
      (deps : List Ident) (names : List (Ident × ℕ)) (c : Container DependencyGroup) (ids : List ℕ)
      → IsMap c.values
      → is_nil c.unused ≡ false
      → Rising ids
      → Returns (groups_of deps names c ids) λ r.
        Kept r.1.values c.values
        × (is_nil r.1.unused ≡ false)
        × Rising r.2
        × (is_nil r.2 ≡ (is_nil deps && is_nil ids))
  unfolding groups_of
  groups_of-Kept [] names c ids h ne rising =
      ((names, c, ids), refl, ((((λ x. x), (λ x. x)), h), ne, rising, refl))
  groups_of-Kept (dep ∷ deps) names c ids h ne rising =
      elim (Option-cases (find_ident (no_gen dep) names)) [
        | inr (id, found) ↦
            let (r, runs, done) =
              groups_of-Kept deps names c (insert_id id ids) h ne
                (insert_id-Rising id ids rising) in
            let (kept, ne', rising', nil) = done in
            (
              r,
              rw (groups_of, found) runs,
              (kept, ne', rising', nil ∙ and_false (is_nil deps) _ (insert_id-ne id ids)),
            )
        | inl missing ↦
            let g = new_group (no_gen dep ∷ []) in
            let (i, inserted) = insert_runs c g ne in
            let grown = AllGroups-insert GroupHolds i g c.values (tt, tt) in
            let (r, runs, done) =
              groups_of-Kept deps (assign_ident (no_gen dep) i names)
                (record {
                  values = insert_entry i g c.values;
                  unused = refill i (pop_back c.unused);
                })
                (insert_id i ids) (insert_entry-IsMap i g c.values h)
                (refill-ne i (pop_back c.unused)) (insert_id-Rising i ids rising) in
            let (kept, ne', rising', nil) = done in
            (
              r,
              rw (groups_of, missing, inserted) runs,
              (
                ((λ x. grown.0 (kept.0.0 x), λ x. kept.0.1 (grown.1 x)), kept.1),
                ne',
                rising',
                nil ∙ and_false (is_nil deps) _ (insert_id-ne i ids),
              ),
            )
      ]

  -- `resolve_dependency` for at least one variable runs to its end, if no group id stands twice and an
  -- unused id is left, and that stays so. What it gives holds the same path conditions and definitions
  -- as before: any two predicates hold of all of the new groups if and only if they held of all of
  -- the old ones.
  pub resolve_dependency-Kept :
      (s : Partial) (deps : List Ident)
      → is_nil deps ≡ false
      → IsMap s.sym_data.values
      → is_nil s.sym_data.unused ≡ false
      → Returns
          (resolve_dependency s deps)
          λ r. Kept r.0.sym_data.values s.sym_data.values × (is_nil r.0.sym_data.unused ≡ false)
  unfolding resolve_dependency
  resolve_dependency-Kept s deps some_dep h ne =
      let (r, runs, done) = groups_of-Kept deps s.dependency_map s.sym_data [] h ne tt in
      let (kept, ne', rising, nil) = done in
      from_groups r.0 r.1 r.2 runs kept ne' rising (rw some_dep at nil)
    where
      from_groups :
          (names : List (Ident × ℕ)) (c : Container DependencyGroup) (ids : List ℕ)
          → groups_of deps s.dependency_map s.sym_data [] ≡ some (names, c, ids)
          → Kept c.values s.sym_data.values
          → is_nil c.unused ≡ false
          → Rising ids
          → is_nil ids ≡ false
          → Returns
              (resolve_dependency s deps)
              λ r. Kept r.0.sym_data.values s.sym_data.values × (is_nil r.0.sym_data.unused ≡ false)
      from_groups names c [] runs kept ne' rising nil = cc
      from_groups names c (to ∷ is) runs kept ne' rising nil =
          let (next, ne'') = join_groups-Kept to is names c rising.0 kept.1 ne' in
          (
            (
              record s {
                dependency_map = (join_groups to is names c).0;
                sym_data = (join_groups to is names c).1;
              },
              to,
            ),
            rw (resolve_dependency, some_dep, runs) refl,
            (((λ x. kept.0.0 (next.0.0 x), λ x. next.0.1 (kept.0.1 x)), next.1), ne''),
          )
