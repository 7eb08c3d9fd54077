-- ===== src/Database/Tables.antt =====
-- What the two hash tables of the database say of its items: the invariant of the database, and the
-- tables after an insertion.
use sym_divine.Base.{
  ℕ, zero, suc, ◌+◌, ◌≡◌, ◌≢◌, refl, ap, sym, ◌∙◌, Bool, true, false, Option, none, some, List, [],
  ◌∷◌, Bool-cases, inl, inr, if◌then◌else◌, length, get_elem?, set, push_back, ◌>>=◌, arith,
  some_inj,
}
use native.Mathlib.Nat.{add-zero}
use sym_divine.Database.{StateId, id_eq, Item, Database, find, insert_pair}
use sym_divine.Database.Candidate.{get_candidate}

-- A test that fails decides an `if`, and one that holds cannot give `none`.
pub miss {ℓ} :
    {A : Type ℓ} (b : Bool) (x y : A) {z : A} → b ≡ false → (if b then x else y) ≡ z → y ≡ z
miss true x y e h = cc
miss false x y e h = h

pub taken {ℓ} :
    {A : Type ℓ} (b : Bool) (x y : A) {z : A} → b ≡ true → (if b then x else y) ≡ z → x ≡ z
taken true x y e h = h
taken false x y e h = cc

pub hit_none {ℓ} :
    {A : Type ℓ} (b : Bool) (x : A) (y : Option A) → b ≡ true → (if b then some x else y) ≢ none
hit_none true x y e h = cc
hit_none false x y e h = cc

module _ {ℓ κ} {E : Type ℓ} {S : Type κ} where
  -- The entries of `state2item_table` for the items, the first at index `k`.
  abbrev pub keys : ℕ → List (Item E S) → List (E × ℕ)
  keys k [] = []
  keys k (item ∷ items) = (item.exp_state, k) ∷ keys (suc k) items

  abbrev pub Numbered : ℕ → List (Item E S) → Type 0
  Numbered k [] = Unit
  Numbered k (item ∷ items) = (item.explicit_id ≡ suc k) × Numbered (suc k) items

  -- `b`, if the item at `k` has a part with the id.
  abbrev pub with_part {υ} : {B : Type υ} → List (Item E S) → ℕ → ℕ → Option B → Option B
  with_part [] k sym_id b = none
  with_part (item ∷ items) zero sym_id b = get_candidate item.sym_container sym_id >>= λ part. b
  with_part (item ∷ items) (suc k) sym_id b = with_part items k sym_id b

  abbrev pub located_at : List (Item E S) → ℕ → ℕ → Option ℕ
  located_at items zero sym_id = none
  located_at items (suc k) sym_id = with_part items k sym_id (some k)

  -- The index of the item that the id names, if the id names a state.
  abbrev pub located : List (Item E S) → StateId → Option ℕ
  located items id = located_at items id.exp_id id.sym_id

  pub record IsIndexed (db : Database E S) : Type (ℓ ⊔ κ) where
    pub by_state : db.state2item_table ≡ keys 0 db.items
    pub numbered : Numbered 0 db.items
    pub counted : db.id_counter ≡ length db.items
    pub by_id : (id : StateId) → find id_eq db.id2item_table id ≡ located db.items id

  pub push_back-keys :
      (same : E → E → Bool) (k : ℕ) (items : List (Item E S)) (item : Item E S)
      → find same (keys k items) item.exp_state ≡ none
      → insert_pair same (keys k items) item.exp_state (k + length items)
        ≡ keys k (push_back items item)
  push_back-keys same k [] item e = ap (λ n. (item.exp_state, n) ∷ []) (omega arith)
  push_back-keys same k (x ∷ items) item e = elim (Bool-cases (same item.exp_state x.exp_state)) [
    | inl t ↦ absurd (hit_none _ _ _ t e)
    | inr f ↦
        let rest = push_back-keys same (suc k) items item (miss _ _ _ f e) in
        let next : k + suc (length items) ≡ suc k + length items = omega arith in
        rw (f, next) (ap (◌∷◌ (x.exp_state, k)) rest)
  ]

  pub push_back-Numbered :
      (k : ℕ) (items : List (Item E S)) (item : Item E S)
      → item.explicit_id ≡ suc (k + length items)
      → Numbered k items
      → Numbered k (push_back items item)
  push_back-Numbered k [] item e h = (omega arith, tt)
  push_back-Numbered k (x ∷ items) item e h =
      (h.0, push_back-Numbered (suc k) items item (omega arith) h.1)

  pub set-keys :
      (k : ℕ) (items : List (Item E S)) (index : ℕ) (item new : Item E S)
      → get_elem? items index ≡ some item
      → new.exp_state ≡ item.exp_state
      → keys k (set items index new) ≡ keys k items
  set-keys k [] index item new e f = refl
  set-keys k (x ∷ items) zero item new e f = rw (f, some_inj e)
  set-keys k (x ∷ items) (suc index) item new e f =
      ap (◌∷◌ (x.exp_state, k)) (set-keys (suc k) items index item new e f)

  pub set-Numbered :
      (k : ℕ) (items : List (Item E S)) (index : ℕ) (item new : Item E S)
      → get_elem? items index ≡ some item
      → new.explicit_id ≡ item.explicit_id
      → Numbered k items
      → Numbered k (set items index new)
  set-Numbered k [] index item new e f h = tt
  set-Numbered k (x ∷ items) zero item new e f h =
      (f ∙ sym (ap (λ i. i.explicit_id) (some_inj e)) ∙ h.0, h.1)
  set-Numbered k (x ∷ items) (suc index) item new e f h =
      (h.0, set-Numbered (suc k) items index item new e f h.1)

  -- What the table of explicit parts finds is an item with an equal part.
  pub find-keys :
      (same : E → E → Bool) (k : ℕ) (items : List (Item E S)) (expl : E) (index : ℕ)
      → find same (keys k items) expl ≡ some index
      → (j : ℕ) × (index ≡ k + j)
        × (item : Item E S) × (get_elem? items j ≡ some item)
        × (same expl item.exp_state ≡ true)
  find-keys same k [] expl index e = cc
  find-keys same k (x ∷ items) expl index e = elim (Bool-cases (same expl x.exp_state)) [
    | inl t ↦ (
      0,
      some_inj (sym e ∙ ap (λ c. if c then some k else find same (keys (suc k) items) expl) t)
          ∙ sym (add-zero k),
      x,
      refl,
      t,
    )
    | inr f ↦
        let (j, at, item, found, equal) =
          find-keys same (suc k) items expl index (miss _ _ _ f e) in
        (suc j, omega arith, item, found, equal)
  ]

pub id_eq_iff : (a b : StateId) → id_eq a b ≡ true → a ≡ b
id_eq_iff a b e = ground arith

pub id_eq_self : (a : StateId) → id_eq a a ≡ true
id_eq_self a = ground arith

tests_swap {ℓ} :
    {A : Type ℓ} (p q : Bool) (x y z : A)
    → (p ≡ true → q ≢ true)
    → (if p then x else (if q then y else z)) ≡ (if q then y else (if p then x else z))
tests_swap true true x y z h = absurd (h refl refl)
tests_swap true false x y z h = refl
tests_swap false true x y z h = refl
tests_swap false false x y z h = refl

apart : (id k new : StateId) → id_eq new k ≡ false → id_eq id k ≡ true → id_eq id new ≢ true
apart id k new f p q = ground arith

pub find-insert_pair :
    (table : List (StateId × ℕ)) (id new : StateId) (v : ℕ)
    → find id_eq table new ≡ none
    → find id_eq (insert_pair id_eq table new v) id
      ≡ (if id_eq id new then some v else find id_eq table id)
find-insert_pair [] id new v e = refl
find-insert_pair ((k, w) ∷ table) id new v e = elim (Bool-cases (id_eq new k)) [
  | inl t ↦ absurd (hit_none _ _ _ t e)
  | inr f ↦
      let rest = find-insert_pair table id new v (miss _ _ _ f e) in
      rw (f, rest) (tests_swap (id_eq id k) (id_eq id new) _ _ _ (apart id k new f))
]
