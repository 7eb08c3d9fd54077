-- ===== src/Database/Tests.antt =====
-- The database on numbers: explicit parts are compared by equality, a symbolic part hits one that is at
-- least as large.
use mathlib.Core.List.{Memᴰ}
use sym_divine.Base.{◌↔◌, false, ℕ, ◌≡◌, refl, leb, ◌==◌, ==_self, arith, Returns}
use sym_divine.Database.{Database, State, insert_check, empty_database, insert_new}
use sym_divine.Database.Tables.{IsIndexed}
use sym_divine.Base.{true, [], ◌∷◌}
use sym_divine.Database.Candidate.{seen_candidate, insert_check_candidate}
use sym_divine.Database.Laws.{
  seen-insert_check_candidate, empty_database-IsIndexed, insert_new-IsIndexed,
}
use sym_divine.Database.Insertion.{IsStored}
use sym_divine.Database.Growth.{Growth, insert_check-Growth}

leb_self : (n : ℕ) → leb n n ≡ true
leb_self n = ground arith

abbrev three_five : State ℕ ℕ
three_five = record { expl = 3; symb = 5 }

abbrev one_state : Database ℕ ℕ
one_state = (insert_new (λ a b. a == b) (λ a b. leb a b) empty_database three_five).0

one_state-IsIndexed : IsIndexed one_state
one_state-IsIndexed =
    insert_new-IsIndexed (λ a b. a == b) (λ a b. leb a b) empty_database three_five refl
      (empty_database-IsIndexed (λ a b. a == b) (λ a b. leb a b))

insert_check-Growth_example :
    Returns
      (insert_check (λ a b. a == b) (λ a b. leb a b) one_state (record { expl = 3; symb = 7 }))
      λ r.
        IsStored (λ a b. a == b) (λ a b. leb a b) (record { expl = 3; symb = 7 }) r
        × Growth (λ a b. a == b) (λ a b. leb a b) one_state (record { expl = 3; symb = 7 }) r
insert_check-Growth_example =
    insert_check-Growth (λ a b. a == b) (λ a b. leb a b) ==_self leb_self one_state
      (record { expl = 3; symb = 7 }) one_state-IsIndexed

-- With inclusion for the hit, 5 ⊆ 7 ⊆ 9 stand for nested sets of values.
seen-insert_check_candidate_example :
    (seen_candidate (λ a b. leb a b) (5 ∷ 9 ∷ []) 7 ≡ true
      ↔ ((part : ℕ) × Memᴰ part (5 ∷ 9 ∷ []) × (leb part 7 ≡ true)))
    × (insert_check_candidate (λ a b. leb a b) (5 ∷ 9 ∷ []) 7 ≡ (5 ∷ 9 ∷ 7 ∷ [], true, 3)
        ↔ ((part : ℕ) → Memᴰ part (5 ∷ 9 ∷ []) → leb 7 part ≡ false))
seen-insert_check_candidate_example = seen-insert_check_candidate (λ a b. leb a b) (5 ∷ 9 ∷ []) 7
