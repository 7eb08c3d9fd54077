-- ===== src/Toolkit/Merges.antt =====
-- `set_intersection_diff` and `set_symmetric_difference_diff` of src/toolkit/utils.h: the two merges that
-- write what they take from each range to its own output.
use sym_divine.Base.{ℕ, ◌+◌, ◌≡◌, Bool, List, [], ◌∷◌, if◌then◌else◌, arith, Bool-cases, inl, inr}

module _ {ℓ} {A : Type ℓ} where
  unfoldable pub set_intersection_diff : (A → A → Bool) → List A → List A → List A × List A
  set_intersection_diff comp [] ys = ([], [])
  set_intersection_diff comp (x ∷ xs) [] = ([], [])
  set_intersection_diff comp (x ∷ xs) (y ∷ ys) =
      let skip_first = set_intersection_diff comp xs (y ∷ ys) in
      let skip_second = set_intersection_diff comp (x ∷ xs) ys in
      let both = set_intersection_diff comp xs ys in
      if comp x y then skip_first else if comp y x then skip_second else (x ∷ both.0, y ∷ both.1)

  unfoldable pub set_symmetric_difference_diff : (A → A → Bool) → List A → List A → List A × List A
  set_symmetric_difference_diff comp [] ys = ([], ys)
  set_symmetric_difference_diff comp (x ∷ xs) [] = (x ∷ xs, [])
  set_symmetric_difference_diff comp (x ∷ xs) (y ∷ ys) =
      let only_first = set_symmetric_difference_diff comp xs (y ∷ ys) in
      let only_second = set_symmetric_difference_diff comp (x ∷ xs) ys in
      let both = set_symmetric_difference_diff comp xs ys in
      if comp x y
      then (x ∷ only_first.0, only_first.1)
      else if comp y x
      then (only_second.0, y ∷ only_second.1)
      else both

  -- How many elements satisfy a test.
  abbrev pub count : (A → Bool) → List A → ℕ
  count p [] = 0
  count p (x ∷ xs) = (if p x then 1 else 0) + count p xs

  -- The two merges split each of their two ranges between them: whatever the order and the test, an
  -- element of a range goes to the output of that range in exactly one of the two results.
  count-merges :
      (comp : A → A → Bool) (p : A → Bool) (xs ys : List A)
      → (count p (set_intersection_diff comp xs ys).0
            + count p (set_symmetric_difference_diff comp xs ys).0
          ≡ count p xs)
        × (count p (set_intersection_diff comp xs ys).1
              + count p (set_symmetric_difference_diff comp xs ys).1
            ≡ count p ys)
  unfolding set_intersection_diff set_symmetric_difference_diff
  count-merges comp p [] ys = (omega arith, omega arith)
  count-merges comp p (x ∷ xs) [] = (omega arith, omega arith)
  count-merges comp p (x ∷ xs) (y ∷ ys) =
      let first = count-merges comp p xs (y ∷ ys) in
      let second = count-merges comp p (x ∷ xs) ys in
      let both = count-merges comp p xs ys in
      elim (Bool-cases (comp x y)) [
        | inl less ↦ rw less (omega arith, omega arith)
        | inr not_less ↦ rw not_less elim (Bool-cases (comp y x)) [
          | inl more ↦ rw more (omega arith, omega arith)
          | inr same ↦ rw same (omega arith, omega arith)
        ]
      ]
