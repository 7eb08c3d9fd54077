-- ===== src/Reachability/Invariant.antt =====
-- The invariant of the search: every stored state is queued, or each of its successors is stored or
-- stands below a stored state, and none is an error.
use sym_divine.Base.{
  ◌≡◌, ◌≢◌, refl, sym, ◌∙◌, ◌⊎◌, inl, inr, Bool, true, false, ◌||◌, none, some, List, [], ◌∷◌,
  if◌then◌else◌, push_back, Returns, All, All-mono, All-append, Bool-cases, subst,
}
use sym_divine.Database.{Database, State, StateId, id_eq, insert_check, get_state}
use sym_divine.Database.Tables.{IsIndexed, id_eq_iff, miss}
use sym_divine.Database.Insertion.{IsStored}
use sym_divine.Database.Growth.{Growth, Adds, insert_check-Growth}
use sym_divine.Reachability.{Search, yield_state, yield_all}

-- The id stands in the queue.
abbrev pub Queued : StateId → List StateId → Type 0
Queued id [] = ⊥
Queued id (j ∷ to_do) = (id_eq id j ≡ true) ⊎ Queued id to_do

pub none-some {ℓ} : {A : Type ℓ} {x : A} → none ≢ some x
none-some h = cc

Queued-push_back :
    (id j : StateId) (to_do : List StateId) → Queued id to_do → Queued id (push_back to_do j)
Queued-push_back id j [] h = elim h [ ]
Queued-push_back id j (k ∷ to_do) (inl e) = inl e
Queued-push_back id j (k ∷ to_do) (inr h) = inr (Queued-push_back id j to_do h)

Queued_last :
    (id j : StateId) (to_do : List StateId) → id_eq id j ≡ true → Queued id (push_back to_do j)
Queued_last id j [] e = inl e
Queued_last id j (k ∷ to_do) e = inr (Queued_last id j to_do e)

module _ {ℓ κ} {E : Type ℓ} {S : Type κ} (same : E → E → Bool) (hit : S → S → Bool)
    (same_refl : (e : E) → same e e ≡ true) (hit_refl : (x : S) → hit x x ≡ true)
    (advance : State E S → List (State E S × Bool)) where
  -- A stored state stands for `y`.
  abbrev pub IsCovered : Database E S → State E S → Type (ℓ ⊔ κ)
  IsCovered db y =
      (id : StateId) × (z : State E S) × (get_state same hit db id ≡ some z)
      × (same y.expl z.expl ≡ true)
      × (hit y.symb z.symb ≡ true)

  abbrev pub Names : Database E S → StateId → Type (ℓ ⊔ κ)
  Names db id = (x : State E S) × (get_state same hit db id ≡ some x)

  abbrev pub IsSafe : Database E S → State E S × Bool → Type (ℓ ⊔ κ)
  IsSafe db p = IsCovered db p.0 × (p.1 ≡ false)

  -- Every state has been expanded that is stored and neither queued nor `current`.
  pub record IsSearch (s : Search E S) (current : StateId → Type 0) : Type (ℓ ⊔ κ) where
    pub indexed : IsIndexed s.knowns
    pub queued : All (Names s.knowns) s.to_do
    pub expanded :
        s.error_found ≡ false
        → (id : StateId) (x : State E S) → get_state same hit s.knowns id ≡ some x
        → Queued id s.to_do ⊎ current id ⊎ All (IsSafe s.knowns) (advance x)

  -- One database keeps the states that another names.
  abbrev pub Keeps : Database E S → Database E S → Type (ℓ ⊔ κ)
  Keeps db new_db =
      (id : StateId) (x : State E S)
      → get_state same hit db id ≡ some x
      → get_state same hit new_db id ≡ some x

  IsSafe-mono :
      (db new_db : Database E S) (ps : List (State E S × Bool))
      → Keeps db new_db
      → All (IsSafe db) ps
      → All (IsSafe new_db) ps
  IsSafe-mono db new_db ps keeps =
      All-mono
        (λ p safe.
          let (id, z, e, eq_expl, eq_symb) = safe.0 in
          ((id, z, keeps id z e, eq_expl, eq_symb), safe.1))
        ps

  Adds-Keeps :
      (db new_db : Database E S) (id : StateId) (x : State E S)
      → Adds same hit db new_db id x
      → Keeps db new_db
  Adds-Keeps db new_db id x adds j y e = elim (Bool-cases (id_eq j id)) [
    | inl t ↦
        let gone : get_state same hit db j ≡ none =
          subst (λ i. get_state same hit db i ≡ none) (sym (id_eq_iff j id t)) adds.0 in
        absurd (none-some (sym gone ∙ e))
    | inr f ↦ adds.1 j ∙ rw f e
  ]

  -- What a growing database names besides is the new id.
  Adds-old :
      (db new_db : Database E S) (id j : StateId) (x y : State E S)
      → Adds same hit db new_db id x
      → get_state same hit new_db j ≡ some y
      → id_eq j id ≡ false
      → get_state same hit db j ≡ some y
  Adds-old db new_db id j x y adds e f = miss _ _ _ f (sym (adds.1 j) ∙ e)

  -- The search after a yielded state was put into the database.
  abbrev entered : Search E S → Bool → Database E S × Bool × StateId → Search E S
  entered s bad (knowns, new, id) = record s {
    knowns = knowns;
    to_do = if new then push_back s.to_do id else s.to_do;
    error_found = s.error_found || bad;
  }

  still_expanded :
      (current : StateId → Type 0) (db new_db : Database E S) (to_do new_to_do : List StateId)
      (j : StateId) (y : State E S)
      → Keeps db new_db
      → (Queued j to_do → Queued j new_to_do)
      → Queued j to_do ⊎ current j ⊎ All (IsSafe db) (advance y)
      → Queued j new_to_do ⊎ current j ⊎ All (IsSafe new_db) (advance y)
  still_expanded current db new_db to_do new_to_do j y keeps grows (inl q) = inl (grows q)
  still_expanded current db new_db to_do new_to_do j y keeps grows (inr (inl c)) = inr (inl c)
  still_expanded current db new_db to_do new_to_do j y keeps grows (inr (inr safe)) =
      inr (inr (IsSafe-mono db new_db (advance y) keeps safe))

  or_false : (a b : Bool) → (a || b) ≡ false → (a ≡ false) × (b ≡ false)
  or_false true b e = cc
  or_false false b e = (refl, e)

  entered-IsSearch :
      (current : StateId → Type 0) (s : Search E S) (st : State E S) (bad : Bool)
      (knowns : Database E S) (new : Bool) (id : StateId)
      → IsSearch s current
      → IsStored same hit st (knowns, new, id)
      → Growth same hit s.knowns st (knowns, new, id)
      → IsSearch (entered s bad (knowns, new, id)) current × Keeps s.knowns knowns
  entered-IsSearch current s st bad knowns true id h stored (expl, equal, adds) =
      let keeps = Adds-Keeps s.knowns knowns id _ adds in
      let (found, named, covers) = stored.1 in
      (
        record {
          indexed = stored.0;
          queued =
              All-append (Names knowns) s.to_do (id ∷ [])
                (All-mono (λ j name. (name.0, keeps j name.0 name.1)) s.to_do h.queued)
                ((found, named), tt);
          expanded = λ quiet j y e. elim (Bool-cases (id_eq j id)) [
            | inl t ↦ inl (Queued_last j id s.to_do t)
            | inr f ↦
                still_expanded current s.knowns knowns s.to_do (push_back s.to_do id) j y keeps
                  (Queued-push_back j id s.to_do)
                  (h.expanded (or_false s.error_found bad quiet).0 j y
                    (Adds-old s.knowns knowns id j _ y adds e f))
          ];
        },
        keeps,
      )
  entered-IsSearch current s st bad knowns false id h stored same_db =
      subst (λ db. IsSearch (entered s bad (db, false, id)) current × Keeps s.knowns db)
        (sym same_db)
        (
          record {
            indexed = h.indexed;
            queued = h.queued;
            expanded = λ quiet. h.expanded (or_false s.error_found bad quiet).0;
          },
          λ j y e. e,
        )

  -- What a part of the search does: it keeps the invariant and every named state, and what it
  -- yields is safe, if it found no error.
  abbrev pub Progress :
      (StateId → Type 0) → Search E S → List (State E S × Bool) → Search E S → Type (ℓ ⊔ κ)
  Progress current s yields t =
      IsSearch t current
      × Keeps s.knowns t.knowns
      × (t.error_found ≡ false → (s.error_found ≡ false) × All (IsSafe t.knowns) yields)

  entered-Progress :
      (current : StateId → Type 0) (s : Search E S) (st : State E S) (bad : Bool)
      (r : Database E S × Bool × StateId)
      → IsSearch s current
      → insert_check same hit s.knowns st ≡ some r
      → IsStored same hit st r × Growth same hit s.knowns st r
      → Returns (yield_state same hit advance s st bad) λ t. Progress current s ((st, bad) ∷ []) t.0
  unfolding yield_state
  entered-Progress current s st bad (knowns, new, id) h checked (stored, growth) =
      let (search, keeps) = entered-IsSearch current s st bad knowns new id h stored growth in
      let (found, named, covers) = stored.1 in
      (
        (entered s bad (knowns, new, id), id),
        rw checked,
        (
          search,
          keeps,
          λ quiet.
              let (before, fine) = or_false s.error_found bad quiet in
              (before, (((id, found, named, covers.0, covers.1), fine), tt)),
        ),
      )

  -- One yielded state makes progress.
  yield_state-Progress :
      (current : StateId → Type 0) (s : Search E S) (st : State E S) (bad : Bool)
      → IsSearch s current
      → Returns (yield_state same hit advance s st bad) λ t. Progress current s ((st, bad) ∷ []) t.0
  yield_state-Progress current s st bad h =
      let (r, checked, facts) =
        insert_check-Growth same hit same_refl hit_refl s.knowns st h.indexed in
      entered-Progress current s st bad r h checked facts

  -- All the states that the evaluator yields make progress.
  pub yield_all-Progress :
      (current : StateId → Type 0) (yields : List (State E S × Bool)) (s : Search E S)
      → IsSearch s current
      → Returns (yield_all same hit advance s yields) λ t. Progress current s yields t.0
  unfolding yield_all
  yield_all-Progress current [] s h = ((s, []), refl, (h, (λ j y e. e), λ quiet. (quiet, tt)))
  yield_all-Progress current ((st, bad) ∷ rest) s h =
      let (t, e₁, first) = yield_state-Progress current s st bad h in
      let (u, e₂, others) = yield_all-Progress current rest t.0 first.0 in
      (
        (u.0, t.1 ∷ u.1),
        rw (e₁, e₂),
        (
          others.0,
          (λ j y e. others.1 j y (first.1 j y e)),
          λ quiet.
              let (quiet_before, safe_rest) = others.2 quiet in
              let (quiet_first, safe) = first.2 quiet_before in
              (
                quiet_first,
                ((IsSafe-mono t.0.knowns u.0.knowns ((st, bad) ∷ []) others.1 safe).0, safe_rest),
              ),
        ),
      )
