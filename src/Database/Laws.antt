-- ===== src/Database/Laws.antt =====
-- The database keeps what was stored: its invariant under `insert` and `insertCheck`, and the state
-- that `getState` gives for the id of a stored state.
use mathlib.Core.List.Memᴰ
use mathlib.Core.List.{Memᴰ}
use sym_divine.Base.{
  false, ◌↔◌, Option-cases, ℕ, zero, suc, ◌+◌, ◌≡◌, refl, ap, sym, ◌∙◌, Bool, true, Option, none,
  some, List, [], ◌∷◌, if◌then◌else◌, length, get_elem?, set, push_back, length-push_back,
  length-set, arith, some_inj, subst, Bool-cases, inl, inr,
}
use sym_divine.Database.{
  StateId, id_eq, State, Item, Database, empty_database, find, insert_pair, insert_new,
  with_container, get_state,
}
use sym_divine.Database.Candidate.{seen_candidate, insert_check_candidate, first_hit, get_candidate}
use sym_divine.Database.Tables.{
  keys, Numbered, IsIndexed, located, located_at, with_part, find-insert_pair, miss, taken,
  push_back-keys, push_back-Numbered, set-keys, set-Numbered,
}
use sym_divine.Database.Located.{
  grown, located_at-set, located_at-push_back, located_at-fresh_item, located_at-fresh_part,
}

module _ {ℓ κ} {E : Type ℓ} {S : Type κ} (same : E → E → Bool) (hit : S → S → Bool) where
  pub get_elem?-last {ι} :
      {A : Type ι} (xs : List A) (x : A) → get_elem? (push_back xs x) (length xs) ≡ some x
  get_elem?-last [] x = refl
  get_elem?-last (y ∷ xs) x = get_elem?-last xs x

  pub zero_plus : (n : ℕ) → 0 + n ≡ n
  zero_plus n = omega arith

  pub first_hit-found :
      (k : ℕ) (parts : List S) (st : S) (i : ℕ)
      → first_hit hit k parts st ≡ some i
      → (j : ℕ) × (i ≡ k + j) × (part : S) × (get_elem? parts j ≡ some part) × (hit st part ≡ true)
  first_hit-found k [] st i e = cc
  first_hit-found k (x ∷ parts) st i e = elim (Bool-cases (hit st x)) [
    | inl t ↦ (0, omega (arith, some_inj (taken _ _ _ t e)), x, refl, t)
    | inr f ↦
        let (j, at, part, found, same_part) = first_hit-found (suc k) parts st i (miss _ _ _ f e) in
        (suc j, omega arith, part, found, same_part)
  ]

  pub get_elem?-Numbered :
      (k : ℕ) (items : List (Item E S)) (index : ℕ) (item : Item E S)
      → Numbered k items
      → get_elem? items index ≡ some item
      → item.explicit_id ≡ suc (k + index)
  get_elem?-Numbered k [] index item h e = cc
  get_elem?-Numbered k (x ∷ items) zero item h e =
      omega (arith, h.0, ap (λ i. i.explicit_id) (some_inj e))
  get_elem?-Numbered k (x ∷ items) (suc index) item h e =
      omega (arith, get_elem?-Numbered (suc k) items index item h.1 e)

  pub located_found :
      (items : List (Item E S)) (index : ℕ) (item : Item E S) (part : S) (exp_id sym_id : ℕ)
      → exp_id ≡ suc index
      → get_elem? items index ≡ some item
      → get_candidate item.sym_container sym_id ≡ some part
      → located_at items exp_id sym_id ≡ some index
  located_found items index item part exp_id sym_id id_now found here =
      rw id_now (with_part_found items index (some index) found)
    where
      with_part_found :
          (rest : List (Item E S)) (k : ℕ) (b : Option ℕ)
          → get_elem? rest k ≡ some item
          → with_part rest k sym_id b ≡ b
      with_part_found [] k b e = cc
      with_part_found (x ∷ rest) zero b e = rw (some_inj e, here)
      with_part_found (x ∷ rest) (suc k) b e = with_part_found rest k b e

  pub get_candidate-last :
      (parts : List S) (x : S)
      → get_candidate (push_back parts x) (length (push_back parts x)) ≡ some x
  get_candidate-last parts x = rw (length-push_back parts x) (get_elem?-last parts x)

  pub get_candidate-at :
      (parts : List S) (i j : ℕ) (x : S)
      → i ≡ 1 + j
      → get_elem? parts j ≡ some x
      → get_candidate parts i ≡ some x
  get_candidate-at parts i j x e f =
      let past : suc j ≡ i = omega arith in subst (λ n. get_candidate parts n ≡ some x) past f

  -- The id of a part that an item of the database has leads `getState` to it.
  pub get_state_found :
      (db : Database E S) (id : StateId) (index : ℕ) (item : Item E S) (part : S)
      → IsIndexed db
      → located db.items id ≡ some index
      → get_elem? db.items index ≡ some item
      → get_candidate item.sym_container id.sym_id ≡ some part
      → get_state same hit db id ≡ some (record { expl = item.exp_state; symb = part })
  unfolding get_state
  get_state_found db id index item part h at found here = rw (h.by_id id, at, found, here)

  abbrev pub added : Database E S → State E S → Item E S
  added db st = record {
    explicit_id = db.id_counter + 1;
    exp_state = st.expl;
    sym_container = st.symb ∷ [];
  }

  abbrev pub new_id : Database E S → StateId
  new_id db = record { exp_id = db.id_counter + 1; sym_id = 1 }

  pub next_id : (db : Database E S) → IsIndexed db → db.id_counter + 1 ≡ suc (length db.items)
  next_id db h = omega (arith, h.counted)

  new_id_fresh : (db : Database E S) → IsIndexed db → find id_eq db.id2item_table (new_id db) ≡ none
  new_id_fresh db h = h.by_id (new_id db) ∙ rw (next_id db h) (located_at-fresh_item db.items 1)

  pub empty_database-IsIndexed : IsIndexed (empty_database {E = E} {S = S})
  empty_database-IsIndexed = record {
    by_state = refl;
    numbered = tt;
    counted = refl;
    by_id = λ id. none_located id.exp_id id.sym_id;
  }
    where
      none_located : (exp_id sym_id : ℕ) → none ≡ located_at {E = E} {S = S} [] exp_id sym_id
      none_located zero sym_id = refl
      none_located (suc k) sym_id = refl

  -- The invariant holds after the insertion of a new explicit part.
  pub insert_new-IsIndexed :
      (db : Database E S) (st : State E S)
      → find same db.state2item_table st.expl ≡ none
      → IsIndexed db
      → IsIndexed (insert_new same hit db st).0
  insert_new-IsIndexed db st new h =
      let fresh = subst (λ t. find same t st.expl ≡ none) h.by_state new in
      record {
        by_state = rw h.by_state (
            subst
              (λ n.
                insert_pair same (keys 0 db.items) st.expl n
                ≡ keys 0 (push_back db.items (added db st)))
              (zero_plus (length db.items)) (push_back-keys same 0 db.items (added db st) fresh));
        numbered =
            push_back-Numbered 0 db.items (added db st) (omega (arith, h.counted)) h.numbered;
        counted = omega (arith, h.counted, length-push_back db.items (added db st));
        by_id = λ id.
            find-insert_pair db.id2item_table id (new_id db) (length db.items) (new_id_fresh db h)
            ∙ rw (next_id db h, h.by_id id)
                (located_at-push_back db.items _ st.symb id.exp_id id.sym_id refl);
      }

  abbrev pub next_id_of : Item E S → S → StateId
  next_id_of item st = record {
    exp_id = item.explicit_id;
    sym_id = length (push_back item.sym_container st);
  }

  -- The invariant holds after the container of an item grows.
  pub with_container-IsIndexed :
      (db : Database E S) (index : ℕ) (item : Item E S) (st : S)
      → get_elem? db.items index ≡ some item
      → IsIndexed db
      → IsIndexed (
          with_container same hit db index item (push_back item.sym_container st) (record {
            exp_id = item.explicit_id;
            sym_id = length (push_back item.sym_container st);
          }))
  with_container-IsIndexed db index item st found h =
      let id_now : item.explicit_id ≡ suc index =
        omega (arith, get_elem?-Numbered 0 db.items index item h.numbered found) in
      let longer = length-push_back item.sym_container st in
      let source_id : StateId = record {
        exp_id = item.explicit_id;
        sym_id = length (push_back item.sym_container st);
      } in
      let next : StateId = record {
        exp_id = suc index;
        sym_id = suc (length item.sym_container);
      } in
      let same_id : source_id ≡ next = rw (id_now, longer) in
      let fresh =
        subst (λ j. find id_eq db.id2item_table j ≡ none) (sym same_id)
          (h.by_id next ∙ located_at-fresh_part db.items index item found) in
      record {
        by_state = h.by_state ∙ sym (set-keys 0 db.items index item (grown item st) found refl);
        numbered = set-Numbered 0 db.items index item (grown item st) found refl h.numbered;
        counted = h.counted ∙ sym (length-set db.items index (grown item st));
        by_id = λ id.
            find-insert_pair db.id2item_table id source_id index fresh
            ∙ subst
                (λ j.
                  (if id_eq id j then some index else find id_eq db.id2item_table id)
                  ≡ located (set db.items index (grown item st)) id)
                (sym same_id)
                (rw (h.by_id id) (located_at-set db.items index item st id.exp_id id.sym_id found));
      }

seen_candidate-finds {κ} :
    {S : Type κ} (hit : S → S → Bool) (parts : List S) (st : S)
    → seen_candidate hit parts st ≡ true ↔ ((part : S) × Memᴰ part parts × (hit part st ≡ true))
seen_candidate-finds hit [] st = ((λ e. cc), (λ (x, m, e). absurd (Memᴰ.not-nil m)))
seen_candidate-finds {S = S} hit (y ∷ parts) st =
    let (to, from) = seen_candidate-finds hit parts st in
    elim (Bool-cases (hit y st)) [
      | inl t ↦ ((λ e. (y, Memᴰ.head refl, t)), (λ x. rw t refl))
      | inr f ↦ (
        (λ e. let (x, m, e') = to (rw f at e) in (x, Memᴰ.tail m, e')),
        (λ (x, m, e). elim (Memᴰ.cases_cons m) [
          | inl same ↦ absurd (false_true (sym f ∙ ap (λ z. hit z st) (sym same) ∙ e))
          | inr m' ↦ rw f (from (x, m', e))
        ]),
      )
    ]
  where
    false_true : false ≡ true → ⊥
    false_true e = cc

first_hit-finds {κ} :
    {S : Type κ} (hit : S → S → Bool) (id : ℕ) (parts : List S) (st : S)
    → ((first_hit hit id parts st ≡ none) ↔ (((x : S) → Memᴰ x parts → hit st x ≡ false)))
first_hit-finds hit id [] st = ((λ e x m. absurd (Memᴰ.not-nil m)), (λ h. refl))
first_hit-finds hit id (y ∷ parts) st =
    let (to, from) = first_hit-finds hit (suc id) parts st in
    elim (Bool-cases (hit st y)) [
      | inl t ↦ (
        (λ e. let wrong = rw t at e in cc),
        (λ h. let wrong = sym (h y (Memᴰ.head refl)) ∙ t in cc),
      )
      | inr f ↦ (
        (λ e x m. elim (Memᴰ.cases_cons m) [
          | inl same ↦ ap (λ z. hit st z) same ∙ f
          | inr m' ↦ to (rw f at e) x m'
        ]),
        (λ h. rw f (from (λ x m. h x (Memᴰ.tail m)))),
      )
    ]

-- `seen` and `insertCheck` compare in opposite directions: `seen` answers yes exactly when a stored part
-- hits the new one, and `insertCheck` adds the new one, at the end, exactly when it hits no stored
-- part.
pub seen-insert_check_candidate {κ} :
    {S : Type κ} (hit : S → S → Bool) (parts : List S) (st : S)
    → (seen_candidate hit parts st ≡ true ↔ ((part : S) × Memᴰ part parts × (hit part st ≡ true)))
      × (insert_check_candidate hit parts st ≡ (push_back parts st, true, suc (length parts))
          ↔ ((part : S) → Memᴰ part parts → hit st part ≡ false))
seen-insert_check_candidate hit parts st =
    let (to, from) = first_hit-finds hit 1 parts st in
    (
      seen_candidate-finds hit parts st,
      elim (Option-cases (first_hit hit 1 parts st)) [
        | inl new ↦ (
          (λ e. to new),
          (λ h.
              rw (insert_check_candidate, new)
                (ap (λ n. (push_back parts st, true, n)) (length-push_back parts st))),
        )
        | inr (id, old) ↦ (
          (λ e.
              let wrong : false ≡ true =
                ap (λ (r : List _ × Bool × ℕ). r.1) (rw (insert_check_candidate, old) at e) in
              cc),
          (λ h. let wrong = sym old ∙ from h in cc),
        )
      ],
    )
