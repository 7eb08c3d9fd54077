-- ===== src/Control/Invariant.antt =====
-- The well-formedness of `Control`, and the effect of its operations on the lists that it bounds.
use sym_divine.Base.{
  ℕ, zero, suc, ◌≤◌, ◌<◌, ◌≡◌, refl, List, [], ◌∷◌, arith, length, get_elem?, set, erase_at, back?,
  push_back, length-append, All, some,
}
use sym_divine.Control.{Control, Pc}

-- The ids rise strictly along the list, from `lo` on and below `hi`.
abbrev pub Rises : ℕ → List ℕ → ℕ → Type 0
Rises lo [] hi = lo ≤ hi
Rises lo (t ∷ ts) hi = (lo ≤ t) × Rises (suc t) ts hi

abbrev pub IsBusy : List Pc → Type 0
IsBusy stack = 0 < length stack

pub record IsConsistent (c : Control) : Type 0 where
  pub previous : length c.previous_bb ≡ length c.context
  pub named : length c.tids ≡ length c.context
  pub busy : All IsBusy c.context
  pub rising : Rises 0 c.tids c.next_free_tid

pub Rises-le : (lo : ℕ) (ts : List ℕ) (hi : ℕ) → Rises lo ts hi → lo ≤ hi
Rises-le lo [] hi h = h
Rises-le lo (t ∷ ts) hi h = omega (arith, Rises-le (suc t) ts hi h.1)

pub Rises-weaken : (lo lo' : ℕ) (ts : List ℕ) (hi : ℕ) → lo' ≤ lo → Rises lo ts hi → Rises lo' ts hi
Rises-weaken lo lo' [] hi le h = omega arith
Rises-weaken lo lo' (t ∷ ts) hi le h = (omega arith, h.1)

pub push_back-Rises :
    (lo : ℕ) (ts : List ℕ) (hi : ℕ) → Rises lo ts hi → Rises lo (push_back ts hi) (suc hi)
push_back-Rises lo [] hi h = (h, omega arith)
push_back-Rises lo (t ∷ ts) hi h = (h.0, push_back-Rises (suc t) ts hi h.1)

pub erase_at-Rises :
    (lo : ℕ) (ts : List ℕ) (hi i : ℕ) → Rises lo ts hi → Rises lo (erase_at ts i) hi
erase_at-Rises lo [] hi i h = h
erase_at-Rises lo (t ∷ ts) hi zero h = Rises-weaken (suc t) lo ts hi (omega arith) h.1
erase_at-Rises lo (t ∷ ts) hi (suc i) h = (h.0, erase_at-Rises (suc t) ts hi i h.1)

module _ {ℓ κ} {A : Type ℓ} (P : A → Type κ) where
  pub set-All : (xs : List A) (i : ℕ) (v : A) → P v → All P xs → All P (set xs i v)
  set-All [] i v p h = tt
  set-All (x ∷ xs) zero v p h = (p, h.1)
  set-All (x ∷ xs) (suc i) v p h = (h.0, set-All xs i v p h.1)

  pub erase_at-All : (xs : List A) (i : ℕ) → All P xs → All P (erase_at xs i)
  erase_at-All [] i h = tt
  erase_at-All (x ∷ xs) zero h = h.1
  erase_at-All (x ∷ xs) (suc i) h = (h.0, erase_at-All xs i h.1)

  pub get_elem?-All : (xs : List A) (i : ℕ) (v : A) → All P xs → get_elem? xs i ≡ some v → P v
  get_elem?-All [] i v h e = cc
  get_elem?-All (x ∷ xs) zero v h e = ground (arith, h.0)
  get_elem?-All (x ∷ xs) (suc i) v h e = get_elem?-All xs i v h.1 e

pub push_back-IsBusy : (stack : List Pc) (pc : Pc) → IsBusy (push_back stack pc)
push_back-IsBusy stack pc = omega (arith, length-append stack (pc ∷ []))

pub back?-IsBusy : (stack : List Pc) → IsBusy stack → (pc : Pc) × (back? stack ≡ some pc)
back?-IsBusy [] h = elim h [ ]
back?-IsBusy (x ∷ []) h = (x, refl)
back?-IsBusy (x ∷ y ∷ xs) h = back?-IsBusy (y ∷ xs) (omega arith)
