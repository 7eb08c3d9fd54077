-- ===== src/Base/Lists.antt =====
-- `std::vector` as a list with native indices. The back of the vector is the end of the list.
use Prim.Native.Nat.{ℕ, zero, suc, ◌+◌, ◌≤◌, ◌<◌}
use mathlib.Core.Path.{◌≡◌, refl, ap}
use mathlib.Core.List.{List, [], ◌∷◌, ◌++◌}
use mathlib.Core.Logic.{◌≢◌}
use mathlib.Core.Option.{Option, none, some}
use native.Mathlib.Omega.{arith}

module _ {ℓ} {A : Type ℓ} where
  abbrev pub length : List A → ℕ
  length [] = 0
  length (x ∷ xs) = suc (length xs)

  abbrev pub get_elem? : List A → ℕ → Option A
  get_elem? [] i = none
  get_elem? (x ∷ xs) zero = some x
  get_elem? (x ∷ xs) (suc i) = get_elem? xs i

  -- A write out of bounds changes nothing.
  abbrev pub set : List A → ℕ → A → List A
  set [] i v = []
  set (x ∷ xs) zero v = v ∷ xs
  set (x ∷ xs) (suc i) v = x ∷ set xs i v

  abbrev pub take : ℕ → List A → List A
  take zero xs = []
  take (suc n) [] = []
  take (suc n) (x ∷ xs) = x ∷ take n xs

  abbrev pub drop : ℕ → List A → List A
  drop zero xs = xs
  drop (suc n) [] = []
  drop (suc n) (x ∷ xs) = drop n xs

  -- `v.erase(v.begin() + i)`
  abbrev pub erase_at : List A → ℕ → List A
  erase_at [] i = []
  erase_at (x ∷ xs) zero = xs
  erase_at (x ∷ xs) (suc i) = x ∷ erase_at xs i

  -- `v.insert(v.begin() + i, a)`; past the end, which is undefined in the source, it appends.
  abbrev pub insert_at : List A → ℕ → A → List A
  insert_at xs zero a = a ∷ xs
  insert_at [] (suc i) a = a ∷ []
  insert_at (x ∷ xs) (suc i) a = x ∷ insert_at xs i a

  abbrev pub replicate : ℕ → A → List A
  replicate zero a = []
  replicate (suc n) a = a ∷ replicate n a

  -- `v.back()`
  abbrev pub back? : List A → Option A
  back? [] = none
  back? (x ∷ []) = some x
  back? (x ∷ y ∷ xs) = back? (y ∷ xs)

  -- `v.pop_back()`
  abbrev pub pop_back : List A → List A
  pop_back [] = []
  pop_back (x ∷ []) = []
  pop_back (x ∷ y ∷ xs) = x ∷ pop_back (y ∷ xs)

  -- `v.push_back(a)`
  abbrev pub push_back : List A → A → List A
  push_back xs a = xs ++ a ∷ []

  pub length-append : (xs ys : List A) → length (xs ++ ys) ≡ length xs + length ys
  length-append [] ys = omega arith
  length-append (x ∷ xs) ys = omega (arith, length-append xs ys)

  pub length-push_back : (xs : List A) (a : A) → length (push_back xs a) ≡ suc (length xs)
  length-push_back [] a = refl
  length-push_back (x ∷ xs) a = ap suc (length-push_back xs a)

  pub length-set : (xs : List A) (i : ℕ) (v : A) → length (set xs i v) ≡ length xs
  length-set [] i v = refl
  length-set (x ∷ xs) zero v = refl
  length-set (x ∷ xs) (suc i) v = ap suc (length-set xs i v)

  pub length-erase_at :
      (xs : List A) (i : ℕ) → i < length xs → length (erase_at xs i) + 1 ≡ length xs
  length-erase_at [] i h = elim h [ ]
  length-erase_at (x ∷ xs) zero h = omega arith
  length-erase_at (x ∷ xs) (suc i) h = omega (arith, length-erase_at xs i (omega arith))

  pub length-insert_at : (xs : List A) (i : ℕ) (a : A) → length (insert_at xs i a) ≡ length xs + 1
  length-insert_at [] zero a = omega arith
  length-insert_at [] (suc i) a = omega arith
  length-insert_at (x ∷ xs) zero a = omega arith
  length-insert_at (x ∷ xs) (suc i) a = omega (arith, length-insert_at xs i a)

  pub back?-push_back : (xs : List A) (a : A) → back? (push_back xs a) ≡ some a
  back?-push_back [] a = refl
  back?-push_back (x ∷ []) a = refl
  back?-push_back (x ∷ y ∷ xs) a = back?-push_back (y ∷ xs) a

  pub pop_back-push_back : (xs : List A) (a : A) → pop_back (push_back xs a) ≡ xs
  pop_back-push_back [] a = refl
  pop_back-push_back (x ∷ []) a = refl
  pop_back-push_back (x ∷ y ∷ xs) a = ap (◌∷◌ x) (pop_back-push_back (y ∷ xs) a)

  pub push_back-pop_back :
      (xs : List A) (a : A) → back? xs ≡ some a → push_back (pop_back xs) a ≡ xs
  push_back-pop_back [] a h = cc
  push_back-pop_back (x ∷ []) a h = cc
  push_back-pop_back (x ∷ y ∷ xs) a h = ap (◌∷◌ x) (push_back-pop_back (y ∷ xs) a h)

  pub get_elem?-lt : (xs : List A) (i : ℕ) (a : A) → get_elem? xs i ≡ some a → i < length xs
  get_elem?-lt [] i a h = cc
  get_elem?-lt (x ∷ xs) zero a h = omega arith
  get_elem?-lt (x ∷ xs) (suc i) a h = omega (arith, get_elem?-lt xs i a h)

  pub get_elem?-some : (xs : List A) (i : ℕ) → i < length xs → (a : A) × (get_elem? xs i ≡ some a)
  get_elem?-some [] i h = elim h [ ]
  get_elem?-some (x ∷ xs) zero h = (x, refl)
  get_elem?-some (x ∷ xs) (suc i) h = get_elem?-some xs i (omega arith)

  pub get_elem?-set_self :
      (xs : List A) (i : ℕ) (v : A) → i < length xs → get_elem? (set xs i v) i ≡ some v
  get_elem?-set_self [] i v h = elim h [ ]
  get_elem?-set_self (x ∷ xs) zero v h = refl
  get_elem?-set_self (x ∷ xs) (suc i) v h = get_elem?-set_self xs i v (omega arith)

  pub get_elem?-set_ne :
      (xs : List A) (i j : ℕ) (v : A) → i ≢ j → get_elem? (set xs i v) j ≡ get_elem? xs j
  get_elem?-set_ne [] i j v h = refl
  get_elem?-set_ne (x ∷ xs) zero zero v h = absurd (h refl)
  get_elem?-set_ne (x ∷ xs) zero (suc j) v h = refl
  get_elem?-set_ne (x ∷ xs) (suc i) zero v h = refl
  get_elem?-set_ne (x ∷ xs) (suc i) (suc j) v h = get_elem?-set_ne xs i j v (λ e. h (ap suc e))

  pub set-set : (xs : List A) (i : ℕ) (v w : A) → set (set xs i v) i w ≡ set xs i w
  set-set [] i v w = refl
  set-set (x ∷ xs) zero v w = refl
  set-set (x ∷ xs) (suc i) v w = ap (◌∷◌ x) (set-set xs i v w)

  pub set_same : (xs : List A) (i : ℕ) (v : A) → get_elem? xs i ≡ some v → set xs i v ≡ xs
  set_same [] i v h = refl
  set_same (x ∷ xs) zero v h = ground arith
  set_same (x ∷ xs) (suc i) v h = ap (◌∷◌ x) (set_same xs i v h)

  pub get_elem?-insert_at :
      (xs : List A) (i : ℕ) (a : A) → i ≤ length xs → get_elem? (insert_at xs i a) i ≡ some a
  get_elem?-insert_at [] zero a h = refl
  get_elem?-insert_at [] (suc i) a h = absurd (omega arith)
  get_elem?-insert_at (x ∷ xs) zero a h = refl
  get_elem?-insert_at (x ∷ xs) (suc i) a h = get_elem?-insert_at xs i a (omega arith)

  pub get_elem?-insert_at_lt :
      (xs : List A) (i j : ℕ) (a : A)
      → i ≤ length xs
      → j < i
      → get_elem? (insert_at xs i a) j ≡ get_elem? xs j
  get_elem?-insert_at_lt xs zero j a h lt = elim lt [ ]
  get_elem?-insert_at_lt [] (suc i) j a h lt = absurd (omega arith)
  get_elem?-insert_at_lt (x ∷ xs) (suc i) zero a h lt = refl
  get_elem?-insert_at_lt (x ∷ xs) (suc i) (suc j) a h lt =
      get_elem?-insert_at_lt xs i j a (omega arith) (omega arith)

  pub get_elem?-insert_at_ge :
      (xs : List A) (i j : ℕ) (a : A)
      → i ≤ length xs
      → i ≤ j
      → get_elem? (insert_at xs i a) (suc j) ≡ get_elem? xs j
  get_elem?-insert_at_ge xs zero j a h le = refl
  get_elem?-insert_at_ge [] (suc i) j a h le = absurd (omega arith)
  get_elem?-insert_at_ge (x ∷ xs) (suc i) zero a h le = absurd (omega arith)
  get_elem?-insert_at_ge (x ∷ xs) (suc i) (suc j) a h le =
      get_elem?-insert_at_ge xs i j a (omega arith) (omega arith)

  pub erase_at-insert_at :
      (xs : List A) (i : ℕ) (a : A) → i ≤ length xs → erase_at (insert_at xs i a) i ≡ xs
  erase_at-insert_at [] zero a h = refl
  erase_at-insert_at [] (suc i) a h = absurd (omega arith)
  erase_at-insert_at (x ∷ xs) zero a h = refl
  erase_at-insert_at (x ∷ xs) (suc i) a h = ap (◌∷◌ x) (erase_at-insert_at xs i a (omega arith))
