-- ===== src/Database/Stored.antt =====
-- The states that the ids of the database name, and how `insertCheck` changes them: at most one id is
-- added, and every other id keeps its state.
use sym_divine.Base.{
  ℕ, zero, suc, ◌≡◌, refl, sym, ◌∙◌, Bool, true, false, ◌&&◌, Option, none, some, List, [], ◌∷◌,
  ◌==◌, inl, inr, if◌then◌else◌, length, get_elem?, set, push_back, ◌>>=◌, arith, some_inj,
  Option-cases,
}
use sym_divine.Database.{StateId, State, Item, Database, get_state}
use sym_divine.Database.Candidate.{get_candidate}
use sym_divine.Database.Tables.{with_part, located_at, IsIndexed}
use sym_divine.Database.Located.{grown, suc_eq}

get_candidate-push_back {κ} :
    {S : Type κ} (parts : List S) (st : S) (sym_id : ℕ)
    → get_candidate (push_back parts st) sym_id
      ≡ (if sym_id == suc (length parts) then some st else get_candidate parts sym_id)
get_candidate-push_back parts st zero = ground arith
get_candidate-push_back [] st (suc zero) = ground arith
get_candidate-push_back [] st (suc (suc i)) = ground arith
get_candidate-push_back (x ∷ parts) st (suc zero) = ground arith
get_candidate-push_back (x ∷ parts) st (suc (suc i)) =
    rw (suc_eq (suc i) (suc (length parts))) (get_candidate-push_back parts st (suc i))

if_bind {κ ι} :
    {S : Type κ} {B : Type ι} (b : Bool) (x : S) (o : Option S) (f : S → B)
    → ((if b then some x else o) >>= λ p. some (f p))
      ≡ (if b then some (f x) else (o >>= λ p. some (f p)))
if_bind true x o f = refl
if_bind false x o f = refl

module _ {ℓ κ} {E : Type ℓ} {S : Type κ} where
  abbrev pub stored_in : List (Item E S) → ℕ → ℕ → Option (State E S)
  stored_in [] k sym_id = none
  stored_in (item ∷ items) zero sym_id = do
    part ← get_candidate item.sym_container sym_id
    some (record { expl = item.exp_state; symb = part })
  stored_in (item ∷ items) (suc k) sym_id = stored_in items k sym_id

  abbrev pub stored_at : List (Item E S) → ℕ → ℕ → Option (State E S)
  stored_at items zero sym_id = none
  stored_at items (suc k) sym_id = stored_in items k sym_id

  stored_in-set :
      (items : List (Item E S)) (k index : ℕ) (item : Item E S) (st : S) (sym_id : ℕ)
      → get_elem? items index ≡ some item
      → stored_in (set items index (grown item st)) k sym_id ≡ (
          if k == index && sym_id == suc (length item.sym_container)
          then some (record { expl = item.exp_state; symb = st })
          else stored_in items k sym_id)
  stored_in-set [] k index item st sym_id e = cc
  stored_in-set (x ∷ items) zero zero item st sym_id e =
      rw (some_inj e, get_candidate-push_back item.sym_container st sym_id)
        (if_bind (sym_id == suc (length item.sym_container)) st _
          λ p. record { expl = item.exp_state; symb = p })
  stored_in-set (x ∷ items) (suc k) zero item st sym_id e = ground arith
  stored_in-set (x ∷ items) zero (suc index) item st sym_id e = ground arith
  stored_in-set (x ∷ items) (suc k) (suc index) item st sym_id e =
      rw (suc_eq k index) (stored_in-set items k index item st sym_id e)

  stored_in-push_back :
      (items : List (Item E S)) (k : ℕ) (item : Item E S) (st : S) (sym_id : ℕ)
      → item.sym_container ≡ st ∷ []
      → stored_in (push_back items item) k sym_id ≡ (
          if k == length items && sym_id == 1
          then some (record { expl = item.exp_state; symb = st })
          else stored_in items k sym_id)
  stored_in-push_back [] zero item st zero e = ground arith
  stored_in-push_back [] zero item st (suc zero) e = rw e (ground arith)
  stored_in-push_back [] zero item st (suc (suc i)) e = rw e (ground arith)
  stored_in-push_back [] (suc k) item st sym_id e = ground arith
  stored_in-push_back (x ∷ items) zero item st sym_id e = ground arith
  stored_in-push_back (x ∷ items) (suc k) item st sym_id e =
      rw (suc_eq k (length items)) (stored_in-push_back items k item st sym_id e)

  -- The index that the table of ids holds leads to the part.
  located-stored_in :
      (all rest : List (Item E S)) (k index sym_id : ℕ)
      → ((item : Item E S) → get_elem? rest k ≡ some item → get_elem? all index ≡ some item)
      → (with_part rest k sym_id (some index) >>= λ i. get_elem? all i >>= λ item.
          get_candidate item.sym_container sym_id >>= λ symb.
          some (record { expl = item.exp_state; symb = symb }))
        ≡ stored_in rest k sym_id
  located-stored_in all [] k index sym_id link = refl
  located-stored_in all (x ∷ rest) zero index sym_id link =
      elim (Option-cases (get_candidate x.sym_container sym_id)) [
        | inl missing ↦ rw missing
        | inr (part, found) ↦ rw (found, link x refl, found)
      ]
  located-stored_in all (x ∷ rest) (suc k) index sym_id link =
      located-stored_in all rest k index sym_id link

  located_at-stored_at :
      (items : List (Item E S)) (exp_id sym_id : ℕ)
      → (located_at items exp_id sym_id >>= λ i. get_elem? items i >>= λ item.
          get_candidate item.sym_container sym_id >>= λ symb.
          some (record { expl = item.exp_state; symb = symb }))
        ≡ stored_at items exp_id sym_id
  located_at-stored_at items zero sym_id = refl
  located_at-stored_at items (suc k) sym_id = located-stored_in items items k k sym_id λ item e. e

  pub stored_at-push_back :
      (items : List (Item E S)) (item : Item E S) (st : S) (exp_id sym_id : ℕ)
      → item.sym_container ≡ st ∷ []
      → stored_at (push_back items item) exp_id sym_id ≡ (
          if exp_id == suc (length items) && sym_id == 1
          then some (record { expl = item.exp_state; symb = st })
          else stored_at items exp_id sym_id)
  stored_at-push_back items item st zero sym_id e = ground arith
  stored_at-push_back items item st (suc k) sym_id e =
      rw (suc_eq k (length items)) (stored_in-push_back items k item st sym_id e)

  pub stored_at-set :
      (items : List (Item E S)) (index : ℕ) (item : Item E S) (st : S) (exp_id sym_id : ℕ)
      → get_elem? items index ≡ some item
      → stored_at (set items index (grown item st)) exp_id sym_id ≡ (
          if exp_id == suc index && sym_id == suc (length item.sym_container)
          then some (record { expl = item.exp_state; symb = st })
          else stored_at items exp_id sym_id)
  stored_at-set items index item st zero sym_id e = ground arith
  stored_at-set items index item st (suc k) sym_id e =
      rw (suc_eq k index) (stored_in-set items k index item st sym_id e)

  -- An id that is not located names no state.
  pub stored_at-none :
      (items : List (Item E S)) (exp_id sym_id : ℕ)
      → located_at items exp_id sym_id ≡ none
      → stored_at items exp_id sym_id ≡ none
  stored_at-none items exp_id sym_id e = sym (located_at-stored_at items exp_id sym_id) ∙ rw e

  module _ (same : E → E → Bool) (hit : S → S → Bool) where
    -- In a database with consistent tables `getState` reads the items.
    pub get_state-stored_at :
        (db : Database E S) (id : StateId)
        → IsIndexed db
        → get_state same hit db id ≡ stored_at db.items id.exp_id id.sym_id
    unfolding get_state
    get_state-stored_at db id h =
        rw (h.by_id id) (located_at-stored_at db.items id.exp_id id.sym_id)
