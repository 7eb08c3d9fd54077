-- ===== src/PartialStore/Tests.antt =====
-- A partial store with one group for each of two variables, and a condition that joins them.
use mathlib.Core.List.Memᴰ
use mathlib.Core.List.{Memᴰ}
use sym_divine.Base.{
  ℕ, zero, suc, ◌⊎◌, ◌==◌, sym, arith, All, some_inj, Bool-cases, inl, inr, ◌≡◌, ◌↔◌, refl, true,
  false, some, [], ◌∷◌, Returns,
}
use sym_divine.Formula.{
  Ident, ident_eq, no_gen, op, constant, identifier, Formula, lt, is_unary_op, collect_variables,
}
use sym_divine.Formula.Term.{const, var, binary, postfix}
use sym_divine.Smt.Words.{words}
use sym_divine.Removal.Weight.{IsListing}
use sym_divine.Removal.Meaning.{Holds, Defines}
use sym_divine.SmtStore.{Simplifier}
use sym_divine.SmtStore.Queries.{unknown_}
use sym_divine.Groups.{DependencyGroup}
use sym_divine.PartialStore.{Partial, push_condition, find_ident, get_group}
use sym_divine.PartialStore.Entries.{AllGroups}
use sym_divine.Formula.Substitute.Laws.{ident_eq-eq}
use sym_divine.Toolkit.IdContainer.Fresh.{IsContainer}
use sym_divine.PartialStore.Joined.{IsGrouped}
use sym_divine.PartialStore.Resolve.{GroupHolds}
use sym_divine.PartialStore.Conditions.{push_condition-GroupHolds}

abbrev x : Ident
x = record { seg = 0; off = 0; gen = 0; bw = 32 }

abbrev y : Ident
y = record { seg = 0; off = 1; gen = 0; bw = 32 }

abbrev x_below_9 : Formula
x_below_9 = identifier x ∷ constant 9 32 ∷ op lt 0 ∷ []

abbrev below_y : Formula
below_y = identifier x ∷ identifier y ∷ op lt 0 ∷ []

abbrev group_x : DependencyGroup
group_x = record {
  group = x ∷ [];
  path_condition = x_below_9 ∷ [];
  definitions = [];
  pc_state = unknown_;
}

abbrev two_groups : Partial
two_groups = record {
  segments_mapping = 0 ∷ [];
  generations = (0 ∷ 0 ∷ []) ∷ [];
  bit_widths = (32 ∷ 32 ∷ []) ∷ [];
  dependency_map = (x, 1) ∷ (y, 2) ∷ [];
  sym_data = record {
    values =
        (1, group_x)
        ∷ (2, record { group = y ∷ []; path_condition = []; definitions = []; pc_state = unknown_ })
        ∷ [];
    unused = 3 ∷ [];
  };
  fst_unused_id = 1;
}

abbrev plain : Simplifier
plain = record {
  unknown_instances = 0;
  cheap = false;
  dont = true;
  cheap_simplify = some;
  full_simplify = some;
}

lt-binary : is_unary_op lt ≡ false
unfolding is_unary_op
lt-binary = refl

x_below_9-IsListing : IsListing x_below_9
unfolding postfix
x_below_9-IsListing = (binary lt lt-binary 0 (var x) (const 9 32), refl)

below_y-IsListing : IsListing below_y
unfolding postfix
below_y-IsListing = (binary lt lt-binary 0 (var x) (var y), refl)

two_groups-IsContainer : IsContainer two_groups.sym_data 3 []
two_groups-IsContainer = record {
  shape = refl;
  below = tt;
  free = tt;
  distinct = tt;
  beyond = λ i le. ground arith;
}

named_two :
    (v : Ident) (id : ℕ)
    → find_ident v two_groups.dependency_map ≡ some id
    → (v ≡ x) × (id ≡ 1) ⊎ (v ≡ y) × (id ≡ 2)
named_two v id e = elim (Bool-cases (ident_eq v x)) [
  | inl is_x ↦ inl (ident_eq-eq v x is_x, sym (some_inj (rw is_x at e)))
  | inr no_x ↦ elim (Bool-cases (ident_eq v y)) [
    | inl is_y ↦ inr (ident_eq-eq v y is_y, sym (some_inj (rw (no_x, is_y) at e)))
    | inr no_y ↦ let wrong = rw (no_x, no_y) at e in cc
  ]
]

members_two :
    (v : Ident) (id : ℕ)
    → Memᴰ v (get_group id two_groups.sym_data.values).group
    → (v ≡ x) × (id ≡ 1) ⊎ (v ≡ y) × (id ≡ 2)
members_two v zero m = absurd (Memᴰ.not-nil m)
members_two v (suc zero) m = elim (Memᴰ.cases_cons m) [
  | inl same ↦ inl (same, refl)
  | inr m' ↦ absurd (Memᴰ.not-nil m')
]
members_two v (suc (suc zero)) m = elim (Memᴰ.cases_cons m) [
  | inl same ↦ inr (same, refl)
  | inr m' ↦ absurd (Memᴰ.not-nil m')
]
members_two v (suc (suc (suc id))) m =
    let not_1 : (suc (suc (suc id)) == 1) ≡ false = ground arith in
    let not_2 : (suc (suc (suc id)) == 2) ≡ false = ground arith in
    absurd (Memᴰ.not-nil (rw (not_1, not_2) at m))

two_groups-IsGrouped : IsGrouped two_groups.dependency_map two_groups.sym_data.values
two_groups-IsGrouped v id = (
  (λ e. elim (named_two v id e) [
    | inl (same, at_1) ↦ rw at_1 (Memᴰ.head same)
    | inr (same, at_2) ↦ rw at_2 (Memᴰ.head same)
  ]),
  (λ m. elim (members_two v id m) [
    | inl (same, at_1) ↦ rw (same, at_1) refl
    | inr (same, at_2) ↦ rw (same, at_2) refl
  ]),
)

push_condition-GroupHolds_example : Returns (push_condition plain two_groups below_y) λ t.
    (AllGroups (GroupHolds (Holds words 0) (Defines words 0)) t.sym_data.values ↔ (
      AllGroups (GroupHolds (Holds words 0) (Defines words 0)) two_groups.sym_data.values
      × Holds words 0 below_y))
    × IsGrouped t.dependency_map t.sym_data.values
    × ((id : ℕ) × All (λ v. find_ident (no_gen v) t.dependency_map ≡ some id) (x ∷ y ∷ [])
        × Memᴰ below_y (get_group id t.sym_data.values).path_condition)
unfolding collect_variables
push_condition-GroupHolds_example =
    push_condition-GroupHolds (Holds words 0) (Defines words 0) plain two_groups below_y 3 [] refl
      refl refl below_y-IsListing (((x_below_9-IsListing, tt), tt), ((tt, tt), tt))
      (refl, (refl, tt)) two_groups-IsContainer (omega arith) two_groups-IsGrouped
