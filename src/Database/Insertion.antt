-- ===== src/Database/Insertion.antt =====
-- `insertCheck` followed by `getState`.
use sym_divine.Base.{
  ℕ, suc, ◌≡◌, refl, Bool, true, false, none, some, length, get_elem?, get_elem?-lt, push_back,
  arith, get_elem?-set_self, Returns,
}
use sym_divine.Database.{
  StateId, State, Item, Database, find, insert_check, insert_new, with_container, get_state,
}
use sym_divine.Database.Candidate.{insert_check_candidate, first_hit}
use sym_divine.Database.Tables.{IsIndexed}
use sym_divine.Database.Located.{grown}
use sym_divine.Database.Laws.{
  added, new_id, next_id, next_id_of, located_found, get_state_found, first_hit-found,
  get_candidate-last, get_candidate-at, get_elem?-last, get_elem?-Numbered, insert_new-IsIndexed,
  with_container-IsIndexed,
}

module _ {ℓ κ} {E : Type ℓ} {S : Type κ} (same : E → E → Bool) (hit : S → S → Bool) where
  -- What `insertCheck` promises of its result: the invariant, and that the id leads to a state with an
  -- equal explicit part whose symbolic part the new state hits.
  abbrev pub IsStored : State E S → Database E S × Bool × StateId → Type (ℓ ⊔ κ)
  IsStored st (db, new, id) =
      IsIndexed db
      × Returns (get_state same hit db id)
          λ found. (same st.expl found.expl ≡ true) × (hit st.symb found.symb ≡ true)

  module _ (same_refl : (e : E) → same e e ≡ true) (hit_refl : (s : S) → hit s s ≡ true) where
    pub insert_new-IsStored :
        (db : Database E S) (st : State E S)
        → find same db.state2item_table st.expl ≡ none
        → IsIndexed db
        → IsStored st ((insert_new same hit db st).0, true, (insert_new same hit db st).1)
    insert_new-IsStored db st new h =
        let kept = insert_new-IsIndexed same hit db st new h in
        let last = get_elem?-last same hit db.items (added same hit db st) in
        let at =
          located_found same hit _ (length db.items) _ st.symb _ 1 (next_id same hit db h) last
            refl in
        (
          kept,
          (
            record { expl = st.expl; symb = st.symb },
            get_state_found same hit _ (new_id same hit db) (length db.items) (added same hit db st)
                st.symb kept at last refl,
            (same_refl st.expl, hit_refl st.symb),
          ),
        )

    pub with_container-IsStored :
        (db : Database E S) (st : State E S) (index : ℕ) (item : Item E S)
        → get_elem? db.items index ≡ some item
        → same st.expl item.exp_state ≡ true
        → IsIndexed db
        → IsStored st (
          with_container same hit db index item (push_back item.sym_container st.symb) (record {
            exp_id = item.explicit_id;
            sym_id = length (push_back item.sym_container st.symb);
          }),
          true,
          record {
            exp_id = item.explicit_id;
            sym_id = length (push_back item.sym_container st.symb);
          },
        )
    with_container-IsStored db st index item found equal h =
        let kept = with_container-IsIndexed same hit db index item st.symb found h in
        let next : Item E S = grown item st.symb in
        let id_now : item.explicit_id ≡ suc index =
          omega (arith, get_elem?-Numbered same hit 0 db.items index item h.numbered found) in
        let there =
          get_elem?-set_self db.items index next (get_elem?-lt db.items index item found) in
        let part = get_candidate-last same hit item.sym_container st.symb in
        let at = located_found same hit _ index next st.symb _ _ id_now there part in
        (
          kept,
          (
            record { expl = item.exp_state; symb = st.symb },
            get_state_found same hit _ _ index next st.symb kept at there part,
            (equal, hit_refl st.symb),
          ),
        )

    pub first_hit-IsStored :
        (db : Database E S) (st : State E S) (index : ℕ) (item : Item E S) (sym_id : ℕ)
        → get_elem? db.items index ≡ some item
        → same st.expl item.exp_state ≡ true
        → first_hit hit 1 item.sym_container st.symb ≡ some sym_id
        → IsIndexed db
        → IsStored st (db, false, record { exp_id = item.explicit_id; sym_id = sym_id })
    first_hit-IsStored db st index item sym_id found equal at h =
        let id_now : item.explicit_id ≡ suc index =
          omega (arith, get_elem?-Numbered same hit 0 db.items index item h.numbered found) in
        let (j, id_at, part, here, hits) =
          first_hit-found same hit 1 item.sym_container st.symb sym_id at in
        let candidate = get_candidate-at same hit item.sym_container sym_id j part id_at here in
        let named =
          located_found same hit db.items index item part _ sym_id id_now found candidate in
        (
          h,
          (
            record { expl = item.exp_state; symb = part },
            get_state_found same hit db _ index item part h named found candidate,
            (equal, hits),
          ),
        )

    pub checked-grown :
        (db : Database E S) (st : State E S) (index : ℕ) (item : Item E S)
        → find same db.state2item_table st.expl ≡ some index
        → get_elem? db.items index ≡ some item
        → first_hit hit 1 item.sym_container st.symb ≡ none
        → insert_check same hit db st
          ≡ some (
            with_container same hit db index item
                (push_back item.sym_container st.symb)
                (next_id_of same hit item st.symb),
            true,
            next_id_of same hit item st.symb,
          )
    unfolding insert_check
    checked-grown db st index item e here none_hit =
        let checked : insert_check_candidate hit item.sym_container st.symb ≡ (
          push_back item.sym_container st.symb,
          true,
          length (push_back item.sym_container st.symb),
        ) =
          rw (insert_check_candidate, none_hit) in
        rw (insert_check, e, here, checked)

    pub checked-hit :
        (db : Database E S) (st : State E S) (index : ℕ) (item : Item E S) (sym_id : ℕ)
        → find same db.state2item_table st.expl ≡ some index
        → get_elem? db.items index ≡ some item
        → first_hit hit 1 item.sym_container st.symb ≡ some sym_id
        → insert_check same hit db st
          ≡ some (db, false, record { exp_id = item.explicit_id; sym_id = sym_id })
    unfolding insert_check
    checked-hit db st index item sym_id e here hits =
        let checked : insert_check_candidate hit item.sym_container st.symb
            ≡ (item.sym_container, false, sym_id) =
          rw (insert_check_candidate, hits) in
        rw (insert_check, e, here, checked)
