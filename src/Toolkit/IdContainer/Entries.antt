-- ===== src/Toolkit/IdContainer/Entries.antt =====
-- The lists of ids and the entries of `IdContainer` in src/toolkit/utils.h: the end of a vector of distinct
-- ids, and what is found after an insertion or an erasure.
use sym_divine.Base.{
  ℕ, ◌≡◌, ◌≢◌, ◌⊎◌, refl, sym, ap, ◌∙◌, none, some, List, [], ◌∷◌, ◌==◌, ==_self, ==_iff, push_back,
  All, All-append, Bool-cases, inl, inr, arith,
}
use sym_divine.Toolkit.IdContainer.{lookup, insert_entry, erase_entry}

abbrev pub Distinct : List ℕ → Type 0
Distinct [] = Unit
Distinct (i ∷ is) = All (λ j. j ≢ i) is × Distinct is

-- A list is empty, or has a last element.
pub Last-cases : (is : List ℕ) → (is ≡ []) ⊎ ((js : List ℕ) × (j : ℕ) × (is ≡ push_back js j))
Last-cases [] = inl refl
Last-cases (i ∷ is) = elim (Last-cases is) [
  | inl e ↦ inr ([], i, ap (◌∷◌ i) e)
  | inr (js, j, e) ↦ inr (i ∷ js, j, ap (◌∷◌ i) e)
]

pub All-front {ℓ} : (P : ℕ → Type ℓ) (is : List ℕ) (j : ℕ) → All P (push_back is j) → All P is × P j
All-front P [] j h = (tt, h.0)
All-front P (i ∷ is) j h = let (front, last) = All-front P is j h.1 in ((h.0, front), last)

pub Distinct-front :
    (is : List ℕ) (j : ℕ) → Distinct (push_back is j) → Distinct is × All (λ i. i ≢ j) is
Distinct-front [] j h = (tt, tt)
Distinct-front (i ∷ is) j h =
    let (rest, apart) = Distinct-front is j h.1 in
    let (others, last) = All-front (λ k. k ≢ i) is j h.0 in
    ((others, rest), (λ e. last (sym e), apart))

pub Distinct-push_back :
    (is : List ℕ) (j : ℕ) → Distinct is → All (λ i. i ≢ j) is → Distinct (push_back is j)
Distinct-push_back [] j h apart = (tt, tt)
Distinct-push_back (i ∷ is) j h apart =
    (All-append _ is (j ∷ []) h.0 ((λ e. apart.0 (sym e)), tt), Distinct-push_back is j h.1 apart.1)

module _ {ℓ} {A : Type ℓ} where
  pub lookup-insert_entry :
      (i : ℕ) (item : A) (values : List (ℕ × A))
      → lookup i values ≡ none
      → lookup i (insert_entry i item values) ≡ some item
  lookup-insert_entry i item [] h = rw (==_self i) refl
  lookup-insert_entry i item ((k, v) ∷ values) h = elim (Bool-cases (i == k)) [
    | inl hit ↦ let wrong = rw hit at h in cc
    | inr miss ↦ rw (miss, miss) (lookup-insert_entry i item values (rw miss at h))
  ]

  -- An entry that is there stays.
  pub lookup-insert_entry_there :
      (i : ℕ) (item there : A) (values : List (ℕ × A))
      → lookup i values ≡ some there
      → lookup i (insert_entry i item values) ≡ some there
  lookup-insert_entry_there i item there [] h = cc
  lookup-insert_entry_there i item there ((k, v) ∷ values) h = elim (Bool-cases (i == k)) [
    | inl hit ↦ let same = rw hit at h in rw (hit, hit) same
    | inr miss ↦ rw (miss, miss) (lookup-insert_entry_there i item there values (rw miss at h))
  ]

  pub lookup-insert_entry_ne :
      (i j : ℕ) (item : A) (values : List (ℕ × A))
      → j ≢ i
      → lookup j (insert_entry i item values) ≡ lookup j values
  lookup-insert_entry_ne i j item [] h = ground arith
  lookup-insert_entry_ne i j item ((k, v) ∷ values) h =
      let ih = lookup-insert_entry_ne i j item values h in ground arith

  pub lookup-erase_entry_ne :
      (i j : ℕ) (values : List (ℕ × A)) → j ≢ i → lookup j (erase_entry i values) ≡ lookup j values
  lookup-erase_entry_ne i j [] h = refl
  lookup-erase_entry_ne i j ((k, v) ∷ values) h =
      let ih = lookup-erase_entry_ne i j values h in ground arith

  pub lookup-erase_entry : (i : ℕ) (values : List (ℕ × A)) → lookup i (erase_entry i values) ≡ none
  lookup-erase_entry i [] = refl
  lookup-erase_entry i ((k, v) ∷ values) = let ih = lookup-erase_entry i values in ground arith

  pub lookup-erase_entry-none :
      (i j : ℕ) (values : List (ℕ × A))
      → lookup j values ≡ none
      → lookup j (erase_entry i values) ≡ none
  lookup-erase_entry-none i j values h = elim (Bool-cases (j == i)) [
    | inl e ↦ rw ((==_iff j i).0 e) (lookup-erase_entry i values)
    | inr e ↦ lookup-erase_entry_ne i j values (λ same. let e' = (==_iff j i).1 same in cc) ∙ h
  ]
