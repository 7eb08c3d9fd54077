-- ===== src/Database/Growth.antt =====
-- What `insertCheck` changes: the promises that the searches rely on.
use sym_divine.Base.{
  ℕ, suc, ◌≡◌, refl, sym, ◌∙◌, Bool, true, false, none, some, inl, inr, if◌then◌else◌, length,
  length-push_back, get_elem?, set, push_back, arith, Option-cases, Returns, subst,
}
use sym_divine.Database.{
  StateId, id_eq, State, Item, Database, find, get_state, insert_check, insert_new, with_container,
}
use sym_divine.Database.Candidate.{first_hit}
use sym_divine.Database.Tables.{IsIndexed, find-keys}
use sym_divine.Database.Located.{grown, located_at-fresh_item, located_at-fresh_part}
use sym_divine.Database.Laws.{new_id, next_id, next_id_of, get_elem?-Numbered, zero_plus}
use sym_divine.Database.Insertion.{
  IsStored, insert_new-IsStored, with_container-IsStored, first_hit-IsStored, checked-grown,
  checked-hit,
}
use sym_divine.Database.Stored.{
  stored_at, stored_at-push_back, stored_at-set, stored_at-none, get_state-stored_at,
}

module _ {ℓ κ} {E : Type ℓ} {S : Type κ} (same : E → E → Bool) (hit : S → S → Bool) where
  -- A database in which the id, which named no state before, names the state `x`, and every other id the
  -- state that it named.
  abbrev pub Adds : Database E S → Database E S → StateId → State E S → Type (ℓ ⊔ κ)
  Adds db new_db id x =
      (get_state same hit db id ≡ none)
      × ((j : StateId)
          → get_state same hit new_db j ≡ (if id_eq j id then some x else get_state same hit db j))

  -- A new state with its own symbolic part, or an unchanged database.
  abbrev pub Growth : Database E S → State E S → Database E S × Bool × StateId → Type (ℓ ⊔ κ)
  Growth db st (new_db, true, id) =
      (expl : E) × (same st.expl expl ≡ true)
      × Adds db new_db id (record { expl = expl; symb = st.symb })
  Growth db st (new_db, false, id) = new_db ≡ db

  module _ (same_refl : (e : E) → same e e ≡ true) (hit_refl : (s : S) → hit s s ≡ true) where
    pub insert_new-Growth :
        (db : Database E S) (st : State E S)
        → IsIndexed db
        → IsIndexed (insert_new same hit db st).0
        → Growth db st ((insert_new same hit db st).0, true, (insert_new same hit db st).1)
    insert_new-Growth db st h kept =
        let fresh =
          stored_at-none db.items (suc (length db.items)) 1 (located_at-fresh_item db.items 1) in
        (
          st.expl,
          same_refl st.expl,
          (
            get_state-stored_at same hit db (new_id same hit db) h
                ∙ rw (next_id same hit db h) fresh,
            λ j.
                get_state-stored_at same hit (insert_new same hit db st).0 j kept
                ∙ rw (get_state-stored_at same hit db j h, next_id same hit db h)
                    (stored_at-push_back db.items _ st.symb j.exp_id j.sym_id refl),
          ),
        )

    with_container-Growth :
        (db : Database E S) (st : State E S) (index : ℕ) (item : Item E S)
        → get_elem? db.items index ≡ some item
        → item.explicit_id ≡ suc index
        → same st.expl item.exp_state ≡ true
        → IsIndexed db
        → IsIndexed (
            with_container same hit db index item
              (push_back item.sym_container st.symb)
              (next_id_of same hit item st.symb))
        → Growth db st (
          with_container same hit db index item
              (push_back item.sym_container st.symb)
              (next_id_of same hit item st.symb),
          true,
          next_id_of same hit item st.symb,
        )
    with_container-Growth db st index item found id_now equal h kept =
        let longer = length-push_back item.sym_container st.symb in
        let next : StateId = record {
          exp_id = suc index;
          sym_id = suc (length item.sym_container);
        } in
        let same_id : next_id_of same hit item st.symb ≡ next = rw (id_now, longer) in
        let fresh =
          stored_at-none db.items (suc index) (suc (length item.sym_container))
            (located_at-fresh_part db.items index item found) in
        (
          item.exp_state,
          equal,
          (
            subst (λ j. get_state same hit db j ≡ none) (sym same_id)
                (get_state-stored_at same hit db next h ∙ fresh),
            λ j.
                get_state-stored_at same hit _ j kept
                ∙ subst
                    (λ i. stored_at (set db.items index (grown item st.symb)) j.exp_id j.sym_id ≡ (
                      if id_eq j i
                      then some (record { expl = item.exp_state; symb = st.symb })
                      else get_state same hit db j))
                    (sym same_id)
                    (rw (get_state-stored_at same hit db j h)
                      (stored_at-set db.items index item st.symb j.exp_id j.sym_id found)),
          ),
        )

    -- When the two comparisons are reflexive, `insertCheck` on a database with consistent tables runs to
    -- its end, keeps the tables consistent and gives the id of a state that stands for the new one; and
    -- it either leaves the database as it was or adds one id, which named no state and now names the new
    -- state, while every other id keeps its state.
    pub insert_check-Growth :
        (db : Database E S) (st : State E S)
        → IsIndexed db
        → Returns (insert_check same hit db st) λ r. IsStored same hit st r × Growth db st r
    unfolding insert_check
    insert_check-Growth db st h = elim (Option-cases (find same db.state2item_table st.expl)) [
      | inl new ↦
          let stored = insert_new-IsStored same hit same_refl hit_refl db st new h in
          (
            ((insert_new same hit db st).0, true, (insert_new same hit db st).1),
            rw (insert_check, new),
            (stored, insert_new-Growth db st h stored.0),
          )
      | inr (index, e) ↦
          let keyed = subst (λ t. find same t st.expl ≡ some index) h.by_state e in
          let (j, at, item, found, equal) = find-keys same 0 db.items st.expl index keyed in
          let here : get_elem? db.items index ≡ some item = rw (at, zero_plus same hit j) found in
          known db st index item e here equal h
    ]
      where
        known :
            (db : Database E S) (st : State E S) (index : ℕ) (item : Item E S)
            → find same db.state2item_table st.expl ≡ some index
            → get_elem? db.items index ≡ some item
            → same st.expl item.exp_state ≡ true
            → IsIndexed db
            → Returns (insert_check same hit db st) λ r. IsStored same hit st r × Growth db st r
        known db st index item e here equal h =
            elim (Option-cases (first_hit hit 1 item.sym_container st.symb)) [
              | inl none_hit ↦
                  let stored =
                    with_container-IsStored same hit same_refl hit_refl db st index item here equal
                      h in
                  let id_now : item.explicit_id ≡ suc index =
                    omega
                      (arith, get_elem?-Numbered same hit 0 db.items index item h.numbered here) in
                  (
                    (
                      with_container same hit db index item (push_back item.sym_container st.symb)
                          (next_id_of same hit item st.symb),
                      true,
                      next_id_of same hit item st.symb,
                    ),
                    checked-grown same hit same_refl hit_refl db st index item e here none_hit,
                    (stored, with_container-Growth db st index item here id_now equal h stored.0),
                  )
              | inr (sym_id, hits) ↦ (
                (db, false, record { exp_id = item.explicit_id; sym_id = sym_id }),
                checked-hit same hit same_refl hit_refl db st index item sym_id e here hits,
                (
                  first_hit-IsStored same hit same_refl hit_refl db st index item sym_id here equal
                      hits h,
                  refl,
                ),
              )
            ]
