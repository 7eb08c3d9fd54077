-- ===== src/Removal/Each.antt =====
-- The loops over a vector in `removeDefinitions` of src/llvmsym/smtdatastore.h: what they do to a
-- vector, from what they do to an element.
use sym_divine.Base.{
  ℕ, ◌+◌, ◌<◌, ◌≡◌, refl, ap, ◌⊎◌, inl, inr, Bool, true, false, Option, some, List, [], ◌∷◌, ◌++◌,
  map, arith, All, All-append, ◌||◌,
}
use sym_divine.Removal.{rewrite_each, reverse}
use sym_divine.Removal.Passes.{}

pub All-reverse {ℓ κ} : {A : Type ℓ} (P : A → Type κ) (xs : List A) → All P xs → All P (reverse xs)
All-reverse P [] h = tt
All-reverse P (x ∷ xs) h = All-append P (reverse xs) (x ∷ []) (All-reverse P xs h.1) (h.0, tt)

All-front {ℓ κ} :
    {A : Type ℓ} (P : A → Type κ) (xs : List A) (y : A) → All P (xs ++ y ∷ []) → P y × All P xs
All-front P [] y h = h
All-front P (x ∷ xs) y h = let (last, front) = All-front P xs y h.1 in (last, (h.0, front))

pub All-unreverse {ℓ κ} :
    {A : Type ℓ} (P : A → Type κ) (xs : List A) → All P (reverse xs) → All P xs
All-unreverse P [] h = tt
All-unreverse P (x ∷ xs) h =
    let (first, rest) = All-front P (reverse xs) x h in (first, All-unreverse P xs rest)

-- A step that rewrites `a` to `image a` either has nothing to do or lowers the cost.
abbrev pub Falls {ℓ} : {A : Type ℓ} → (A → Type 0) → (A → A) → (A → ℕ) → A → Bool → Type ℓ
Falls settled image cost a change =
    (change ≡ false) × settled a × (image a ≡ a) ⊎ (change ≡ true) × (cost (image a) < cost a)

abbrev pub total {ℓ} : {A : Type ℓ} → (A → ℕ) → List A → ℕ
total cost [] = 0
total cost (x ∷ xs) = cost x + total cost xs

module _ {ℓ} {A : Type ℓ} (settled : A → Type 0) (image : A → A) (cost : A → ℕ) where
  Falls-cons :
      (x : A) (xs : List A) (change later : Bool)
      → Falls settled image cost x change
      → Falls (All settled) (map image) (total cost) xs later
      → Falls (All settled) (map image) (total cost) (x ∷ xs) (change || later)
  Falls-cons x xs change later (inl (e, s, i)) (inl (e', s', i')) =
      inl (rw (e, e') refl, (s, s'), rw (i, i') refl)
  Falls-cons x xs change later (inl (e, s, i)) (inr (e', less)) =
      let kept = ap cost i in inr (rw (e, e') refl, omega arith)
  Falls-cons x xs change later (inr (e, less)) (inl (e', s', i')) =
      let kept = ap (total cost) i' in inr (rw e refl, omega arith)
  Falls-cons x xs change later (inr (e, less)) (inr (e', less')) = inr (rw e refl, omega arith)

  -- The loop over a vector, from what the step does to an element.
  pub rewrite_each-Falls :
      (P : A → Type 0) (step : A → Option (A × Bool))
      → ((a : A)
          → P a
          → (change : Bool) × (step a ≡ some (image a, change))
            × Falls settled image cost a change
            × P (image a))
      → (xs : List A) → All P xs
      → (change : Bool) × (rewrite_each step xs ≡ some (map image xs, change))
        × Falls (All settled) (map image) (total cost) xs change
        × All P (map image xs)
  rewrite_each-Falls P step h [] hx = (false, refl, inl (refl, tt, refl), tt)
  rewrite_each-Falls P step h (x ∷ xs) hx =
      let (change, e, falls, p) = h x hx.0 in
      let (later, e', falls', ps) = rewrite_each-Falls P step h xs hx.1 in
      (change || later, rw (e, e') refl, Falls-cons x xs change later falls falls', (p, ps))
