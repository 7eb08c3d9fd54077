-- ===== src/PartialStore/Conditions.antt =====
-- What `push_condition` of src/llvmsym/smtdatastore_partial.h adds to the groups.
use mathlib.Core.List.{Memᴰ}
use sym_divine.Base.{
  ℕ, ◌+◌, ◌<◌, length, ◌≡◌, ◌↔◌, refl, sym, ap, ◌∙◌, true, false, some, List, [], ◌∷◌, All, Returns,
  some_inj, ◌>>=◌, if◌then◌else◌,
}
use sym_divine.Formula.{Formula, no_gen, is_unary_op, and, collect_variables, build_and}
use sym_divine.Formula.Term.{Term, binary, postfix}
use sym_divine.Formula.Sane.{join_binary-postfix, postfix-ne}
use sym_divine.Formula.Substitute.{Definition}
use sym_divine.SmtStore.{Simplifier, conjunction}
use sym_divine.SmtStore.Queries.{is_nil}
use sym_divine.Removal.Weight.{IsListing}
use sym_divine.Groups.{DependencyGroup, group_push_condition, simplify_pc}
use sym_divine.PartialStore.{
  Partial, find_ident, get_group, set_group, each_group, change_group, simplify, push_condition,
  resolve_dependency,
}
use sym_divine.PartialStore.Entries.{IsMap, AllGroups, AllGroups-get, AllGroups-set}
use sym_divine.Datastore.Words.{u64}
use sym_divine.Toolkit.IdContainer.Fresh.{IsContainer}
use sym_divine.PartialStore.Joined.{IsGrouped}
use sym_divine.PartialStore.Named.{resolve_dependency-IsGrouped, push_condition-IsGrouped}
use sym_divine.PartialStore.Ids.{All-append_iff}
use sym_divine.PartialStore.Resolve.{GroupHolds, Kept, resolve_dependency-Kept}

and-binary : is_unary_op and ≡ false
unfolding is_unary_op
and-binary = refl

conjunction-runs :
    (conj : Term) (pcs : List Formula)
    → All IsListing pcs
    → (f : Formula) × (conjunction (postfix conj) pcs ≡ some f)
unfolding conjunction build_and
conjunction-runs conj [] h = (postfix conj, refl)
conjunction-runs conj (pc ∷ pcs) h =
    let (t, e) = h.0 in
    let (f, rest) = conjunction-runs (binary and and-binary 0 conj t) pcs h.1 in
    (f, rw (e, postfix-ne t, postfix-ne conj, join_binary-postfix and and-binary conj t) rest)

-- Every formula lists a term.
abbrev pub AreListed : DependencyGroup → Type 0
AreListed = GroupHolds IsListing (λ d. Unit)

module _ (c : Simplifier) (not_cheap : c.cheap ≡ false) (kept : c.dont ≡ true) where
  simplify_pc-same : (g : DependencyGroup) → AreListed g → simplify_pc c g ≡ some g
  unfolding simplify_pc conjunction build_and
  simplify_pc-same g h = same g.path_condition h.0
    where
      same :
          (pcs : List Formula)
          → All IsListing pcs
          → (if is_nil pcs
              then some g
              else (conjunction [] pcs >>= λ conj.
                  if c.cheap
                  then (c.cheap_simplify conj >>= λ f. some (record g { path_condition = f ∷ [] }))
                  else if c.dont
                  then some g
                  else (c.full_simplify conj >>= λ f. some (record g { path_condition = f ∷ [] }))))
            ≡ some g
      same [] h = refl
      same (pc ∷ pcs) h =
          let (t, e) = h.0 in
          let (f, runs) = conjunction-runs t pcs h.1 in
          rw (e, postfix-ne t, runs, not_cheap, kept) refl

  each_group-same :
      (values : List (ℕ × DependencyGroup))
      → AllGroups AreListed values
      → each_group (simplify_pc c) values ≡ some values
  each_group-same [] h = refl
  each_group-same ((id, g) ∷ values) h =
      rw (simplify_pc-same g h.0, each_group-same values h.1) refl

-- The groups after a condition was pushed to the group under `id`.
pushed-AllGroups :
    (C : Formula → Type 0) (D : Definition → Type 0) (id : ℕ) (f : Formula)
    (values : List (ℕ × DependencyGroup))
    → IsMap values
    → AllGroups
        (GroupHolds C D)
        (set_group id (group_push_condition (get_group id values) f) values)
      ↔ (AllGroups (GroupHolds C D) values × C f)
pushed-AllGroups C D id f values h =
    let g = get_group id values in
    let (split, unsplit) = AllGroups-get (GroupHolds C D) id values (tt, tt) h in
    let (seen, unseen) = AllGroups-set (GroupHolds C D) id (group_push_condition g f) values h in
    let (parts, whole) = All-append_iff C g.path_condition (f ∷ []) in
    (
      (λ x.
          let (changed, others) = seen x in
          let (old, new) = parts changed.0 in (unsplit ((old, changed.1), others), new.0)),
      (λ x. let (old, others) = split x.0 in unseen ((whole (old.0, (x.1, tt)), old.1), others)),
    )

-- `push_condition` under the option --dontsimplify, for a formula with at least one variable, runs to its
-- end when all path conditions and the formula list terms, the ids of the groups are those of a
-- container in which the ids for new groups do not run out, and every variable is mapped to the group that
-- it is a member of. Then any two predicates hold of all path conditions and of all definitions of
-- the new store if and only if they held of those of the old store and the first one holds of the formula;
-- every variable is still mapped to the group that it is a member of; and all variables of the
-- formula are mapped to one group, which has the formula among its path conditions.
pub push_condition-GroupHolds :
    (C : Formula → Type 0) (D : Definition → Type 0) (c : Simplifier) (s : Partial) (f : Formula)
    (bound : ℕ) (unused : List ℕ)
    → c.cheap ≡ false
    → c.dont ≡ true
    → is_nil (collect_variables f) ≡ false
    → IsListing f
    → AllGroups AreListed s.sym_data.values
    → IsMap s.sym_data.values
    → IsContainer s.sym_data bound unused
    → bound + length (collect_variables f) < u64
    → IsGrouped s.dependency_map s.sym_data.values
    → Returns (push_condition c s f) λ t.
      (AllGroups (GroupHolds C D) t.sym_data.values
        ↔ (AllGroups (GroupHolds C D) s.sym_data.values × C f))
      × IsGrouped t.dependency_map t.sym_data.values
      × ((id : ℕ) × All
            (λ v. find_ident (no_gen v) t.dependency_map ≡ some id)
            (collect_variables f)
          × Memᴰ f (get_group id t.sym_data.values).path_condition)
unfolding push_condition simplify
push_condition-GroupHolds C D c s f bound unused not_cheap dont some_variable listing listed h hc
      room grouped =
    let deps = collect_variables f in
    let ne : is_nil s.sym_data.unused ≡ false = rw hc.shape refl in
    let (r, runs, done) = resolve_dependency-Kept C D s deps some_variable h ne in
    let (r', runs', done') =
      resolve_dependency-Kept IsListing (λ d. Unit) s deps some_variable h ne in
    let same : r'.0 ≡ r.0 = ap (λ (q : Partial × ℕ). q.0) (some_inj (sym runs' ∙ runs)) in
    let (together, taken) =
      resolve_dependency-IsGrouped s deps bound unused hc room grouped r runs in
    pushed r.0 r.1 runs done.0 (rw same at done'.0) together taken
  where
    pushed :
        (t : Partial) (id : ℕ)
        → resolve_dependency s (collect_variables f) ≡ some (t, id)
        → Kept C D t.sym_data.values s.sym_data.values
        → Kept IsListing (λ d. Unit) t.sym_data.values s.sym_data.values
        → IsGrouped t.dependency_map t.sym_data.values
        → All (λ v. find_ident (no_gen v) t.dependency_map ≡ some id) (collect_variables f)
        → Returns (push_condition c s f) λ u.
          (AllGroups (GroupHolds C D) u.sym_data.values
            ↔ (AllGroups (GroupHolds C D) s.sym_data.values × C f))
          × IsGrouped u.dependency_map u.sym_data.values
          × ((k : ℕ) × All
                (λ v. find_ident (no_gen v) u.dependency_map ≡ some k)
                (collect_variables f)
              × Memᴰ f (get_group k u.sym_data.values).path_condition)
    pushed t id runs kept listed_kept together taken =
        let u = change_group t id (λ g. group_push_condition g f) in
        let (to, from) = pushed-AllGroups C D id f t.sym_data.values kept.1 in
        let all_listed =
          (pushed-AllGroups IsListing (λ d. Unit) id f t.sym_data.values kept.1).1
            (listed_kept.0.1 listed, listing) in
        let (still, here) =
          push_condition-IsGrouped id f t.dependency_map t.sym_data.values together in
        (
          u,
          rw (runs, each_group-same c not_cheap dont u.sym_data.values all_listed) refl,
          (
            ((λ x. let (old, new) = to x in (kept.0.0 old, new)), (λ x. from (kept.0.1 x.0, x.1))),
            still,
            (id, taken, here),
          ),
        )
