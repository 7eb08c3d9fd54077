-- ===== src/Database/Candidate.antt =====
-- `LinearCandidate` of src/llvmsym/blobing.h: the symbolic parts that share one explicit part, in the
-- order of their insertion; a part's id is its position from 1.
use sym_divine.Base.{
  ℕ, zero, suc, Bool, true, false, Option, none, some, List, [], ◌∷◌, ◌||◌, if◌then◌else◌, length,
  get_elem?, push_back,
}

module _ {κ} {S : Type κ} (hit : S → S → Bool) where
  abbrev pub seen_candidate : List S → S → Bool
  seen_candidate [] st = false
  seen_candidate (e ∷ parts) st = hit e st || seen_candidate parts st

  -- The id of the first part that the new one hits, counted from `id`.
  abbrev pub first_hit : ℕ → List S → S → Option ℕ
  first_hit id [] st = none
  first_hit id (e ∷ parts) st =
      let rest : Option ℕ = first_hit (suc id) parts st in if hit st e then some id else rest

  abbrev pub insert_check_candidate : List S → S → List S × Bool × ℕ
  insert_check_candidate parts st = elim (first_hit 1 parts st) [
    | some id ↦ (parts, false, id)
    | none ↦ (push_back parts st, true, length (push_back parts st))
  ]

abbrev pub insert_candidate {κ} : {S : Type κ} → List S → S → List S
insert_candidate parts st = push_back parts st

-- `get`, with ids from 1
abbrev pub get_candidate {κ} : {S : Type κ} → List S → ℕ → Option S
get_candidate parts zero = none
get_candidate parts (suc i) = get_elem? parts i
